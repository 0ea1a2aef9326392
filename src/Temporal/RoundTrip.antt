-- ===== src/Temporal/RoundTrip.antt =====
-- Parsing the text that the formatters of src/sqli_temporal.c write.
use libsqli.Prelude.{
  ℕ, suc, ◌-◌, ◌≤◌, ◌≡◌, refl, sym, ap, ◌∙◌, Bool, true, false, ◌&&◌, ◌||◌, not, List, [], ◌∷◌,
  ◌++◌, ltb, ◌==◌, if◌then◌else◌, length, inl, inr, arith, Bool-cases,
}
use mathlib.Core.List.{append-nil}
use libsqli.Prelude.Bytes.{All}
use libsqli.Status.Chains.{>>-done}
use libsqli.Status.{Status, Result, done, fail, ◌>>=◌}
use libsqli.Temporal.{Fields, validate_range, validate_fields}
use libsqli.Temporal.Parse.{
  max_text, field_count, field_separator, least_width, read_sign, read_fields, end_fields, is_empty,
  parse_fields, blank_fields,
}
use libsqli.Temporal.Digits.{IsDigit, digits_of-All, length-digits_of}
use libsqli.Temporal.Format.{field_value}
use libsqli.Temporal.Valid.{IsValid, validate_fields-IsValid}
use libsqli.Temporal.Written.{IsU64, number_text, separated, separator, field_text, fields_text}
use libsqli.Temporal.Length.{value_text, length-value_text}
use libsqli.Temporal.ReadBack.{read_fields-written}
use libsqli.Temporal.Copies.{signed_fields, copy_fields-all}

-- A text that begins with a character that is no sign.
abbrev begins_plain : List ℕ → Bool
begins_plain [] = false
begins_plain (c ∷ cs) = not (c == b'+' || c == b'-')

digits-plain :
    (cs rest : List ℕ) → All IsDigit cs → 1 ≤ length cs → begins_plain (cs ++ rest) ≡ true
digits-plain [] rest h k = absurd (omega (arith, k))
digits-plain (c ∷ cs) rest (h, hs) k = ground (arith, h)

first_text-plain :
    (v : Fields) (interval : Bool) (rest : List ℕ)
    → IsValid v interval
    → begins_plain (field_text v interval v.range.first ++ rest) ≡ true
unfolding field_text field_separator least_width
first_text-plain v interval rest h = elim (Bool-cases (separated v v.range.first)) [
  | inl e ↦
      let point : separator v interval v.range.first ≡ b'.' = ground (arith, e) in
      rw (e, point) refl
  | inr e ↦
      let ds =
        length-digits_of (field_value v v.range.first)
          (least_width v.range interval v.range.first) in
      rw e (
        digits-plain (number_text v interval v.range.first) rest
          (digits_of-All (field_value v v.range.first) (least_width v.range interval v.range.first))
          (ground (arith, ds, e)))
]

fields_text-plain :
    (v : Fields) (interval : Bool)
    → IsValid v interval
    → begins_plain (fields_text v interval (field_count v.range) v.range.first) ≡ true
unfolding fields_text
fields_text-plain v interval h =
    let first = v.range.first in
    let m = v.range.last - first in
    let count : field_count v.range ≡ suc m = omega (arith, h.in_range.ordered) in
    rw count (first_text-plain v interval (fields_text v interval m (suc first)) h)

plain_unsigned :
    (interval : Bool) (text : List ℕ)
    → begins_plain text ≡ true
    → (read_sign interval text ≡ (false, text)) × (is_empty text ≡ false)
unfolding read_sign
plain_unsigned interval [] h = cc
plain_unsigned interval (c ∷ cs) h =
    let none : (interval && (c == b'+' || c == b'-')) ≡ false = ground (arith, h) in
    (rw none refl, refl)

-- The sign of a value is read back.
read_sign-value_text :
    (v : Fields) (interval : Bool)
    → IsValid v interval
    → (interval ≡ false → v.negative ≡ false)
    → (read_sign interval (value_text v interval)
        ≡ (v.negative, fields_text v interval (field_count v.range) v.range.first))
      × (is_empty (value_text v interval) ≡ false)
unfolding read_sign
read_sign-value_text v interval h k = elim (Bool-cases v.negative) [
  | inr e ↦ simp e (
      plain_unsigned interval (fields_text v interval (field_count v.range) v.range.first)
        (fields_text-plain v interval h))
  | inl e ↦ elim (Bool-cases interval) [ inl i ↦ rw (e, i) (refl, refl) | inr i ↦ cc (k i) ]
]

end_fields_lem :
    (v : Fields) (interval : Bool)
    → validate_fields v interval ≡ done tt
    → end_fields interval (v, []) ≡ done v
unfolding end_fields
end_fields_lem v interval h = rw h refl

-- The sign that was read is the sign of the value.
abbrev signed_blank : Fields → Bool → Bool → Fields
signed_blank v interval sign = record (blank_fields v.range) {
  negative = if interval then sign else false;
}

same_sign :
    (v : Fields) (interval : Bool)
    → (interval ≡ false → v.negative ≡ false)
    → signed_blank v interval v.negative ≡ signed_fields v
same_sign v true k = refl
same_sign v false k = rw (k refl) refl

abbrev IsSigned : Fields → Bool → Type 0
IsSigned v interval = interval ≡ false → v.negative ≡ false

read_back :
    (v : Fields) (interval : Bool)
    → v.is_null ≡ false
    → IsSigned v interval
    → validate_fields v interval ≡ done tt
    → IsU64 v.integral
    → (read_fields
          (field_count v.range)
          v.range.first
          interval
          (signed_blank v interval v.negative)
          (fields_text v interval (field_count v.range) v.range.first)
        >>= end_fields interval)
      ≡ done v
read_back v interval present sign h u =
    let valid = validate_fields-IsValid v interval present h in
    let n = field_count v.range in
    let first = v.range.first in
    ap
      (λ (t : List ℕ).
        read_fields n first interval (signed_blank v interval v.negative) t >>= end_fields interval)
      (sym (append-nil (fields_text v interval n first)))
    ∙ ap
        (λ (w : Fields).
          read_fields n first interval w (fields_text v interval n first ++ [])
          >>= end_fields interval)
        (same_sign v interval sign)
    ∙ ap (λ r. r >>= end_fields interval)
        (read_fields-written v (signed_fields v) interval n first [] valid u refl (omega arith)
          (omega (arith, valid.in_range.ordered)) tt)
    ∙ ap (λ (w : Fields). end_fields interval (w, [])) (copy_fields-all v interval valid present)
    ∙ end_fields_lem v interval h

accepted :
    (m : Result (Unit {0})) (x : Result Fields)
    → m ≡ done tt
    → elim m [ fail status ↦ fail Status.invalid_argument | done u ↦ x ] ≡ x
accepted (done tt) x h = refl
accepted (fail s) x h = cc

-- parse_fields gives back the fields whose text format_fields wrote.
pub parse_fields-value_text :
    (v : Fields) (interval : Bool)
    → v.is_null ≡ false
    → (interval ≡ false → v.negative ≡ false)
    → validate_fields v interval ≡ done tt
    → IsU64 v.integral
    → parse_fields (blank_fields v.range) (value_text v interval) interval ≡ done v
unfolding parse_fields validate_fields
parse_fields-value_text v interval present sign h u =
    let valid = validate_fields-IsValid v interval present h in
    let ranged = (>>-done _ _ tt h).0 in
    let ranged' : validate_range v.range interval false ≡ done tt =
      ap (λ (b : Bool). validate_range v.range interval b) (sym present) ∙ ranged in
    let (signed, nonempty) = read_sign-value_text v interval valid sign in
    let fits : ltb max_text (length (value_text v interval)) ≡ false =
      ground (arith, length-value_text v interval valid u) in
    accepted (validate_range v.range interval false) _ ranged'
    ∙ rw (nonempty, fits) (simp signed (read_back v interval present sign h u))
