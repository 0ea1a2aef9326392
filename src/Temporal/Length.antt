-- ===== src/Temporal/Length.antt =====
-- The length of the text that format_fields writes (src/sqli_temporal.c).
use libsqli.Prelude.{
  ℕ, zero, suc, ◌+◌, ◌-◌, ◌*◌, ◌≤◌, ◌<◌, ◌≡◌, refl, Bool, false, List, [], ◌∷◌, ◌++◌, ltb,
  if◌then◌else◌, length, length-append, inl, inr, arith, Bool-cases,
}
use libsqli.Status.{done}
use libsqli.Temporal.{Fields, validate_fields}
use libsqli.Temporal.Parse.{field_count}
use libsqli.Temporal.Format.{write_character, format_fields}
use libsqli.Temporal.Valid.{IsValid, validate_fields-IsValid}
use libsqli.Temporal.Written.{fields_text, field_text, IsU64, field_width, write_fields_fits}

-- The fields behind the first one.
later_length :
    (v : Fields) (interval : Bool) (n f : ℕ)
    → IsValid v interval
    → IsU64 v.integral
    → v.range.first < f
    → f + n ≤ suc v.range.last
    → length (fields_text v interval n f) ≤ 3 * n + (if ltb 0 n then 7 else 0)
unfolding fields_text
later_length v interval zero f h u a b = omega arith
later_length v interval (suc n) f h u a b =
    let ends = h.in_range.ends in
    let rest = later_length v interval n (suc f) h u (omega arith) (omega (arith, b)) in
    let size = length-append (field_text v interval f) (fields_text v interval n (suc f)) in
    elim (field_width v interval f h u (omega (arith, a)) (omega (arith, b))) [
      | inl (e, _, _) ↦ absurd (omega (arith, a, e))
      | inr (inl (e, few)) ↦ ground (arith, size, rest, few, e, b, ends)
      | inr (inr (low, few)) ↦ ground (arith, size, rest, few)
    ]

-- The text of all the fields.
all_length :
    (v : Fields) (interval : Bool)
    → IsValid v interval
    → IsU64 v.integral
    → length (fields_text v interval (field_count v.range) v.range.first) ≤ 45
unfolding fields_text
all_length v interval h u =
    let r = h.in_range in
    let first = v.range.first in
    let m = v.range.last - first in
    let rest = later_length v interval m (suc first) h u (omega arith) (omega (arith, r.ordered)) in
    let size = length-append (field_text v interval first) (fields_text v interval m (suc first)) in
    let count : field_count v.range ≡ suc m = omega (arith, r.ordered) in
    rw count (elim (field_width v interval first h u (omega arith) r.ordered) [
      | inl (_, low, few) ↦ ground (arith, size, rest, few, r.begins, r.ends)
      | inr (inl (_, few)) ↦ ground (arith, size, rest, few, r.begins, r.ends)
      | inr (inr (low, few)) ↦ ground (arith, size, rest, few, r.begins, r.ends)
    ])

abbrev pub sign_text : Fields → List ℕ
sign_text v = if v.negative then b'-' ∷ [] else []

-- The whole text of a value.
abbrev pub value_text : Fields → Bool → List ℕ
value_text v interval = sign_text v ++ fields_text v interval (field_count v.range) v.range.first

length-sign_text : (v : Fields) → length (sign_text v) ≤ 1
length-sign_text v = elim (Bool-cases v.negative) [
  | inl e ↦ rw e (omega arith)
  | inr e ↦ rw e (omega arith)
]

pub length-value_text :
    (v : Fields) (interval : Bool)
    → IsValid v interval
    → IsU64 v.integral
    → length (value_text v interval) ≤ 46
length-value_text v interval h u =
    let texts = fields_text v interval (field_count v.range) v.range.first in
    omega (arith, length-append (sign_text v) texts, length-sign_text v, all_length v interval h u)

write_sign :
    (v : Fields) → (if v.negative then write_character b'-' [] else done []) ≡ done (sign_text v)
unfolding write_character
write_sign v = elim (Bool-cases v.negative) [ inl e ↦ rw e refl | inr e ↦ rw e refl ]

-- format_fields never meets the limit of the writer, and writes that text.
pub format_fields-text :
    (v : Fields) (interval : Bool)
    → IsValid v interval
    → IsU64 v.integral
    → format_fields v interval ≡ done (value_text v interval)
unfolding format_fields
format_fields-text v interval h u = rw (write_sign v) (
    write_fields_fits v interval (field_count v.range) v.range.first (sign_text v)
      (omega (arith, length-sign_text v, all_length v interval h u)))

-- The writer of 64 characters is large enough: format_fields of fields that pass the checks for a
-- value that is not NULL, each of them a uint64_t, gives a text, never SQLI_LIMIT_EXCEEDED, and the
-- text has at most 46 characters.
pub format_fields-bounded :
    (v : Fields) (interval : Bool)
    → v.is_null ≡ false
    → validate_fields v interval ≡ done tt
    → IsU64 v.integral
    → (text : List ℕ) × (format_fields v interval ≡ done text) × (length text ≤ 46)
format_fields-bounded v interval present h u =
    let valid = validate_fields-IsValid v interval present h in
    (
      value_text v interval,
      format_fields-text v interval valid u,
      length-value_text v interval valid u,
    )
