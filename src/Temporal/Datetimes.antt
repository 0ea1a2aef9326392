-- ===== src/Temporal/Datetimes.antt =====
-- sqli_datetime_t and its text (src/sqli_temporal.c).
use libsqli.Prelude.{
  ℕ, ◌%◌, ◌^◌, ◌≤◌, ◌<◌, ◌≡◌, refl, sym, ap, ◌∙◌, Bool, true, false, ◌&&◌, ◌||◌, not, List, ltb,
  if◌then◌else◌, ◌⊎◌, inl, inr, arith, Bool-cases,
}
use libsqli.Prelude.Int.{ℤ, pos, negsuc}
use libsqli.Status.Chains.{>>-done}
use libsqli.Status.{Status, Result, done, ◌>>=◌, ◌>>◌, reject_if}
use libsqli.Temporal.{
  Integral, Fields, DatetimeParts, get_field, maximum, validate_range, validate_fields,
  datetime_fields, datetime_set_parts, magnitude_of, is_negative, null_datetime,
}
use libsqli.Temporal.Parse.{parse_fields, blank_fields, datetime_parts, datetime_parse}
use libsqli.Temporal.Format.{complete_timestamp, datetime_format, datetime_format_iso}
use libsqli.Temporal.Valid.{IsValid, validate_fields-IsValid, checked-bounds, checked-zero}
use libsqli.Temporal.Written.{IsU64}
use libsqli.Temporal.Length.{value_text}
use libsqli.Temporal.RoundTrip.{parse_fields-value_text}
use libsqli.Temporal.Texts.{IsWritten, format_value-text, copy_text-IsWritten}

-- The fields of a DATETIME are small.
pub datetime-bounds :
    (v : Fields) (f : ℕ)
    → IsValid v false
    → 1 ≤ f
    → f ≤ 6
    → get_field f v.integral ≤ maximum false f
datetime-bounds v f h a b = elim (Bool-cases (ltb f v.range.first || ltb v.range.last f)) [
  | inl out ↦ omega (arith, checked-zero v false f h a b (ground (arith, out)))
  | inr within ↦
      elim (checked-bounds v false f h a b (ground (arith, within)) (ground (arith, within))) [
        | inl (e, _) ↦ cc
        | inr bounded ↦ bounded
      ]
]

maximum_small : (f : ℕ) → maximum false f ≤ 9999
unfolding maximum
maximum_small f = ground arith

no_such_field : (f : ℕ) (v : Integral) → (f < 1) ⊎ (6 < f) → get_field f v ≡ 0
unfolding get_field
no_such_field f v h = ground (arith, h)

pub datetime-small : (v : Fields) (f : ℕ) → IsValid v false → get_field f v.integral ≤ 9999
datetime-small v f h = elim (Bool-cases (ltb f 1 || ltb 6 f)) [
  | inl out ↦ omega (arith, no_such_field f v.integral (ground (arith, out)))
  | inr within ↦ omega (
    arith,
    datetime-bounds v f h (ground (arith, within)) (ground (arith, within)),
    maximum_small f,
  )
]

datetime-IsU64 : (v : Fields) → IsValid v false → IsU64 v.integral
datetime-IsU64 v h f = omega (arith, datetime-small v f h)

year-datetime_parts :
    (y : ℤ) → is_negative y ≡ false → magnitude_of y ≤ 9999 → pos (magnitude_of y % 2 ^ 32) ≡ y
year-datetime_parts (pos n) h k = ap pos (omega (arith, k))
year-datetime_parts (negsuc n) h k = cc

-- The casts of datetime_parts lose nothing of a valid value.
datetime_parts-fields :
    (p : DatetimeParts)
    → is_negative p.year ≡ false
    → IsValid (datetime_fields p) false
    → datetime_parts (datetime_fields p) ≡ p
unfolding datetime_parts datetime_fields get_field maximum
datetime_parts-fields p sign h =
    let v = datetime_fields p in
    let a = year-datetime_parts p.year sign (datetime-small v 1 h) in
    let b : p.month % 2 ^ 8 ≡ p.month =
      omega (arith, datetime-bounds v 2 h (omega arith) (omega arith)) in
    let c : p.day % 2 ^ 8 ≡ p.day =
      omega (arith, datetime-bounds v 3 h (omega arith) (omega arith)) in
    let d : p.hour % 2 ^ 8 ≡ p.hour =
      omega (arith, datetime-bounds v 4 h (omega arith) (omega arith)) in
    let e : p.minute % 2 ^ 8 ≡ p.minute =
      omega (arith, datetime-bounds v 5 h (omega arith) (omega arith)) in
    let f : p.second % 2 ^ 8 ≡ p.second =
      omega (arith, datetime-bounds v 6 h (omega arith) (omega arith)) in
    λ i. record p { year = a i; month = b i; day = c i; hour = d i; minute = e i; second = f i }

-- What an object holds that is not NULL is what was given.
unless_null :
    {A : Type 0} (is_null : A → Bool) (b : Bool) (null given a : A)
    → is_null null ≡ true
    → done (if b then null else given) ≡ done a
    → is_null a ≡ false
    → (b ≡ false) × (given ≡ a)
unless_null is_null true null given a n h present = cc
unless_null is_null false null given a n h present = (refl, cc)

plus_sign :
    (is_null negative : Bool) (s : Status)
    → reject_if (not is_null && negative) s ≡ done tt
    → is_null ≡ false
    → negative ≡ false
plus_sign true n s h e = cc
plus_sign false true s h e = cc
plus_sign false false s h e = refl

-- What sqli_datetime_set_parts accepts and is not NULL it stores as it is.
pub datetime_set_parts-stored :
    (parts p : DatetimeParts)
    → datetime_set_parts parts ≡ done p
    → p.is_null ≡ false
    → (parts ≡ p)
      × (is_negative p.year ≡ false)
      × (validate_fields (datetime_fields p) false ≡ done tt)
unfolding datetime_set_parts
datetime_set_parts-stored parts p h present =
    let (signed, rest) = >>-done _ _ p h in
    let (valid, stored) = >>-done _ _ p rest in
    let (given, same) =
      unless_null (λ (q : DatetimeParts). q.is_null) parts.is_null (null_datetime parts.range) parts
        p refl stored present in
    (
      same,
      ap (λ (q : DatetimeParts). is_negative q.year) (sym same) ∙ plus_sign _ _ _ signed given,
      ap (λ (q : DatetimeParts). validate_fields (datetime_fields q) false) (sym same) ∙ valid,
    )

datetime_parse-text :
    (p : DatetimeParts)
    → p.is_null ≡ false
    → is_negative p.year ≡ false
    → validate_fields (datetime_fields p) false ≡ done tt
    → datetime_parse p.range (value_text (datetime_fields p) false) false ≡ done p
unfolding datetime_parse validate_fields datetime_fields
datetime_parse-text p present sign h =
    let v = datetime_fields p in
    let valid = validate_fields-IsValid v false present h in
    let ranged : validate_range p.range false false ≡ done tt =
      ap (λ (b : Bool). validate_range p.range false b) (sym present) ∙ (>>-done _ _ tt h).0 in
    let back = parse_fields-value_text v false present (λ _. refl) h (datetime-IsU64 v valid) in
    let text = value_text v false in
    ap
      (λ (m : Result (Unit {0})).
        m >> (parse_fields (blank_fields p.range) text false >>= λ w. done (datetime_parts w)))
      ranged
    ∙ ap (λ (m : Result Fields). m >>= λ w. done (datetime_parts w)) back
    ∙ ap done (datetime_parts-fields p sign valid)

-- A DATETIME that sqli_datetime_set_parts accepted and that is not NULL has a text: both formatters
-- write it with its end mark to a buffer that is large enough, and give the number of bytes without
-- a buffer, the ISO formatter where the range is a complete timestamp; sqli_datetime_parse of the
-- text gives the value back.
pub datetime_parse-format :
    (parts p : DatetimeParts)
    → datetime_set_parts parts ≡ done p
    → p.is_null ≡ false
    → (text : List ℕ) × IsWritten (datetime_format p) text
      × (complete_timestamp p.range ≡ true → IsWritten (datetime_format_iso p) text)
      × (datetime_parse p.range text false ≡ done p)
unfolding datetime_format datetime_format_iso datetime_fields
datetime_parse-format parts p h present =
    let (_, sign, checked) = datetime_set_parts-stored parts p h present in
    let v = datetime_fields p in
    let u = datetime-IsU64 v (validate_fields-IsValid v false present checked) in
    let text = value_text v false in
    (
      text,
      copy_text-IsWritten (datetime_format p) text
          (λ buffer. format_value-text v false false buffer present checked (λ e. cc) u),
      (λ complete.
          copy_text-IsWritten (datetime_format_iso p) text
            (λ buffer. format_value-text v false true buffer present checked (λ _. complete) u)),
      datetime_parse-text p present sign checked,
    )
