-- ===== src/Decimal/RoundTrip.antt =====
-- Decimal texts written by sqli_decimal_format and read by sqli_decimal_parse (src/sqli_decimal.c).
use libsqli.Prelude.{
  ℕ, suc, ◌+◌, ◌≤◌, ◌<◌, ◌≡◌, refl, sym, ap, ◌∙◌, Bool, true, false, ◌&&◌, not, List, [], ◌∷◌, ◌++◌,
  none, some, ltb, if◌then◌else◌, length, inl, inr, arith, Bool-cases,
}
use libsqli.Prelude.Int.{ℤ, pos, ◌-ℤ◌}
use libsqli.Status.{Status, done}
use libsqli.Decimal.Number.{Number, is_nil, decimal_trim}
use libsqli.Decimal.Values.{limbs_value, same_limbs}
use libsqli.Decimal.Stored.{IsNormal}
use libsqli.Decimal.Text.{
  is_i32, decimal_text, text_length, max_decimal_text, parse_number, decimal_parse, decimal_format,
}
use libsqli.Decimal.Scanned.{fraction_of}
use libsqli.Decimal.Parsed.{number_of, number_of-IsNormal}
use libsqli.Decimal.ReadBack.{parse_number-accepts}
use libsqli.Decimal.Layout.{number-IsWritten}
use libsqli.Decimal.TextSize.{length-decimal_text, text_length-bounded, text_length-positive}

and_true : (b : Bool) → (b && true) ≡ b
and_true true = refl
and_true false = refl

kept_sign :
    (xs ys : List ℕ) (b : Bool)
    → xs ≡ ys
    → (is_nil ys ≡ true → b ≡ false)
    → (b && not (is_nil xs)) ≡ b
kept_sign xs ys b e h = ap (λ ls. b && not (is_nil ls)) e ∙ elim (Bool-cases (is_nil ys)) [
  | inl empty ↦ rw (h empty) refl
  | inr full ↦ rw full (and_true b)
]

-- The number of a mantissa that was written is the number itself.
same_number :
    (v : Number) (cs : List ℕ) (scale : ℤ)
    → IsNormal v
    → v.is_null ≡ false
    → IsNormal (decimal_trim (number_of v.negative cs scale))
    → limbs_value (decimal_trim (number_of v.negative cs scale)).limbs ≡ limbs_value v.limbs
    → scale ≡ v.scale
    → decimal_trim (number_of v.negative cs scale) ≡ v
unfolding decimal_trim
same_number v cs scale h live k value same =
    let limbs = same_limbs _ v.limbs k.limbs h.limbs k.trimmed h.trimmed value in
    λ i. record {
      limbs = limbs i;
      scale = same i;
      negative = kept_sign _ v.limbs v.negative limbs h.unsigned i;
      is_null = sym live i;
    }

parse_number-decimal_text :
    (memory : ℕ → Bool) (v : Number)
    → ((n : ℕ) → memory n ≡ true)
    → IsNormal v
    → v.is_null ≡ false
    → is_i32 v.scale ≡ true
    → parse_number memory (decimal_text v) ≡ done v
unfolding decimal_text
parse_number-decimal_text memory v room h live k =
    let w = number-IsWritten v h k in
    let scale = ap (λ n. pos n -ℤ w.exponent) w.shape.fraction ∙ w.scale in
    let (normal, value) =
      number_of-IsNormal v.negative w.mantissa (pos (fraction_of false w.mantissa) -ℤ w.exponent)
        w.shape.marks w.shape.few in
    ap (λ t. parse_number memory (if v.negative then b'-' ∷ t else t)) w.text
    ∙ parse_number-accepts memory v.negative w.mantissa w.behind w.exponent room w.shape.marks
        w.shape.some w.shape.few w.mark w.read (ap is_i32 scale ∙ k)
    ∙ ap (λ n. done n)
        (same_number v w.mantissa (pos (fraction_of false w.mantissa) -ℤ w.exponent) h live normal
          (value ∙ w.shape.value) scale)

some_text : (cs : List ℕ) → 1 ≤ length cs → is_nil cs ≡ false
some_text [] h = absurd (omega (arith, h))
some_text (c ∷ cs) h = refl

-- Where malloc succeeds, a normal number other than NULL, with a scale of 32 bits, has a text that
-- sqli_decimal_format writes with its end mark to a buffer that is large enough, whose size it gives
-- without a buffer, and that sqli_decimal_parse reads back as the same number, scale included.
pub decimal_parse-format :
    (memory : ℕ → Bool) (v : Number)
    → ((n : ℕ) → memory n ≡ true)
    → IsNormal v
    → v.is_null ≡ false
    → is_i32 v.scale ≡ true
    → (text : List ℕ) × ((capacity : ℕ)
        → length text < capacity
        → decimal_format v (some capacity) ≡ (
          Status.ok,
          some
              (record { is_null = false; required = suc (length text); copied = text ++ (0 ∷ []) }),
        ))
      × (decimal_format v none ≡ (
        Status.ok,
        some (record { is_null = false; required = suc (length text); copied = [] }),
      ))
      × (decimal_parse memory text false ≡ done v)
unfolding decimal_format decimal_parse
decimal_parse-format memory v room h live k =
    let size = length-decimal_text v h in
    let required : text_length v + 1 ≡ suc (length (decimal_text v)) = omega (arith, size) in
    (
      decimal_text v,
      (λ capacity fits.
          let large : ltb capacity (text_length v + 1) ≡ false = ground (arith, fits, size) in
          simp (live, large)
            (ap
              (λ n. (
                Status.ok,
                some
                    (record { is_null = false; required = n; copied = decimal_text v ++ (0 ∷ []) }),
              ))
              required)),
      simp live (
          ap (λ n. (Status.ok, some (record { is_null = false; required = n; copied = [] })))
            required),
      let full = some_text (decimal_text v) (omega (arith, size, text_length-positive v h)) in
          let short : ltb max_decimal_text (length (decimal_text v)) ≡ false =
            ground (arith, size, text_length-bounded v h k) in
          rw (full, short) (parse_number-decimal_text memory v room h live k),
    )
