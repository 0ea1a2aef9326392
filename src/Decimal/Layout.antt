-- ===== src/Decimal/Layout.antt =====
-- The texts that sqli_decimal_format writes are mantissas with exponents (src/sqli_decimal.c).
use mathlib.Core.Path.{subst}
use mathlib.Core.List.{append-nil}
use libsqli.Prelude.{
  ℕ, zero, suc, ◌+◌, ◌-◌, ◌≤◌, ◌≡◌, refl, sym, ap, ◌∙◌, Bool, true, false, ◌||◌, ◌&&◌, not, List,
  [], ◌∷◌, ◌++◌, leb, ◌==◌, inl, inr, arith, Bool-cases, replicate,
}
use libsqli.Prelude.Int.{ℤ, pos, negsuc, pos_part, neg_part, ◌-ℤ◌, ltb_ℤ}
use libsqli.Status.{done}
use libsqli.Decimal.Number.{Number, max_digits, max_i64, decimal_digits, is_below_zero}
use libsqli.Decimal.Values.{limbs_value, decimal_digits-IsSize}
use libsqli.Decimal.Written.{pointed_text-short}
use libsqli.Decimal.Stored.{IsNormal}
use libsqli.Decimal.Text.{
  digits_text, pointed_text, is_i32, exponent_of, exponent_text, is_scientific, unsigned_text,
}
use libsqli.Decimal.ReadBack.{IsBehind, exponent_of-text}
use libsqli.Decimal.Shapes.{
  IsMantissa, digits_some, plain-IsMantissa, split-IsMantissa, zeros-IsMantissa,
}

-- A text that is a mantissa and an exponent, which stand for the number with its scale.
pub record IsWritten (v : Number) : Type 0 where
  pub mantissa : List ℕ
  pub behind : List ℕ
  pub exponent : ℤ
  pub places : ℕ
  pub text : unsigned_text v ≡ mantissa ++ behind
  pub shape : IsMantissa (limbs_value v.limbs) places mantissa
  pub mark : IsBehind behind
  pub read : exponent_of behind ≡ done exponent
  pub scale : (pos places -ℤ exponent) ≡ v.scale

abbrev pub exponent_for : ℕ → ℤ → ℤ
exponent_for n scale = pos n -ℤ pos 1 -ℤ scale

exponent_marked : (e : ℤ) → IsBehind (exponent_text e)
unfolding exponent_text
exponent_marked e = refl

scale_back : (n : ℕ) (s : ℤ) → (pos n -ℤ exponent_for (suc n) s) ≡ s
unfolding ◌-ℤ◌
scale_back n (pos s) = ground arith
scale_back n (negsuc s) = ground arith

pub exponent_small :
    (n : ℕ) (s : ℤ)
    → n ≤ max_digits
    → is_i32 s ≡ true
    → pos_part (exponent_for n s) + neg_part (exponent_for n s) ≤ max_i64
unfolding ◌-ℤ◌
exponent_small n (pos s) h k = ground (arith, h, k)
exponent_small n (negsuc s) h k = ground (arith, h, k)

-- The mantissa of a number in scientific notation: a point behind the first digit, if more follow.
scientific-IsMantissa :
    (v : Number) (p : ℕ)
    → IsNormal v
    → decimal_digits v.limbs ≡ suc p
    → IsMantissa
        (limbs_value v.limbs)
        p
        (pointed_text v.limbs (decimal_digits v.limbs) 1 (decimal_digits v.limbs) 0)
scientific-IsMantissa v zero h e =
    let n = decimal_digits v.limbs in
    subst (IsMantissa (limbs_value v.limbs) 0)
      (sym (pointed_text-short v.limbs n 1 n 0 (omega (arith, e)))) (plain-IsMantissa v h)
scientific-IsMantissa v (suc q) h e = split-IsMantissa v 1 q h (omega (arith, e)) (omega arith)

scientific-IsWritten :
    (v : Number)
    → IsNormal v
    → is_i32 v.scale ≡ true
    → is_scientific v (exponent_for (decimal_digits v.limbs) v.scale) ≡ true
    → IsWritten v
unfolding unsigned_text
scientific-IsWritten v h k sci =
    let n = decimal_digits v.limbs in
    let e = exponent_for n v.scale in
    let (p, size, none_left, more) = decimal_digits-IsSize v.limbs h.limbs h.trimmed in
    record {
      mantissa = pointed_text v.limbs n 1 n 0;
      behind = exponent_text e;
      exponent = e;
      places = p;
      text = rw sci refl;
      shape = scientific-IsMantissa v p h size;
      mark = exponent_marked e;
      read = exponent_of-text e (exponent_small n v.scale h.bounded k);
      scale = ap (λ m. pos p -ℤ exponent_for m v.scale) size ∙ scale_back p v.scale;
    }

plain_scale :
    (s : ℤ) (b : Bool) (k : ℕ)
    → (is_below_zero s || b) ≡ false
    → k ≡ pos_part s
    → (pos k -ℤ pos 0) ≡ s
unfolding ◌-ℤ◌
plain_scale (pos s) b k h e = ground (arith, e)
plain_scale (negsuc s) b k h e = ground (arith, h)

plain-IsWritten :
    (v : Number)
    → IsNormal v
    → is_scientific v (exponent_for (decimal_digits v.limbs) v.scale) ≡ false
    → IsWritten v
unfolding unsigned_text
plain-IsWritten v h sci =
    let n = decimal_digits v.limbs in
    let s = pos_part v.scale in
    let some = digits_some v h in
    let low = ltb_ℤ (exponent_for n v.scale) (negsuc 5) in
    elim (Bool-cases (not (s == 0) && leb n s)) [
      | inl e ↦
          let places : s - n + n ≡ s = ground (arith, e) in
          record {
            mantissa = b'0' ∷ b'.' ∷ (replicate (s - n) b'0' ++ digits_text v.limbs n n 0);
            behind = [];
            exponent = pos 0;
            places = s - n + n;
            text = rw (sci, e) (sym (append-nil _));
            shape = zeros-IsMantissa v (s - n) h;
            mark = tt;
            read = refl;
            scale = plain_scale v.scale low (s - n + n) sci places;
          }
      | inr e ↦ elim (Bool-cases (s == 0)) [
        | inl z ↦ record {
          mantissa = digits_text v.limbs n n 0;
          behind = [];
          exponent = pos 0;
          places = 0;
          text = rw (sci, z) (sym (append-nil _));
          shape = plain-IsMantissa v h;
          mark = tt;
          read = refl;
          scale = plain_scale v.scale low 0 sci (ground (arith, z));
        }
        | inr z ↦
            let inside : n ≡ (n - s) + suc (s - 1) = ground (arith, e, z) in
            let places : suc (s - 1) ≡ s = ground (arith, z) in
            record {
              mantissa = pointed_text v.limbs n (n - s) n 0;
              behind = [];
              exponent = pos 0;
              places = suc (s - 1);
              text = rw (sci, e, z) (sym (append-nil _));
              shape = split-IsMantissa v (n - s) (s - 1) h inside (ground (arith, e, z));
              mark = tt;
              read = refl;
              scale = plain_scale v.scale low (suc (s - 1)) sci places;
            }
      ]
    ]

pub number-IsWritten : (v : Number) → IsNormal v → is_i32 v.scale ≡ true → IsWritten v
number-IsWritten v h k =
    elim (Bool-cases (is_scientific v (exponent_for (decimal_digits v.limbs) v.scale))) [
      | inl sci ↦ scientific-IsWritten v h k sci
      | inr sci ↦ plain-IsWritten v h sci
    ]
