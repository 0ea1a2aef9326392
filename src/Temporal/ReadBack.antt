-- ===== src/Temporal/ReadBack.antt =====
-- Reading the fields of a text that format_fields wrote (src/sqli_temporal.c).
use libsqli.Prelude.{
  ℕ, zero, suc, ◌+◌, ◌*◌, ◌/◌, ◌%◌, ◌≤◌, ◌<◌, ◌≡◌, refl, ap, ◌∙◌, Bool, true, false, ◌&&◌, List, [],
  ◌∷◌, ◌++◌, leb, ◌==◌, ==_iff, if◌then◌else◌, length, inl, inr, arith, Bool-cases,
}
use native.Mathlib.Nat.{div-add-mod'}
use mathlib.Core.List.{append_assoc}
use libsqli.Status.{done, ◌>>=◌}
use libsqli.Temporal.{Range, Fields, get_field, set_field, fraction_factor, check_fraction}
use libsqli.Temporal.Parse.{
  field_separator, skip_zero, read_separator, read_number, least_width, greatest_width, take_field,
  read_mark, end_field, read_value, read_field_of, read_field, read_fields, is_digit,
}
use libsqli.Temporal.Format.{field_value}
use libsqli.Temporal.Digits.{Stops, read-digits_of, length-digits_of}
use libsqli.Temporal.Valid.{IsValid}
use libsqli.Temporal.Written.{
  separator, separated, number_text, field_text, fields_text, fraction_below, IsU64,
  field-IsFitting,
}

-- The fields of `v` from `f` on, copied to `w`.
unfoldable pub copy_field : Fields → ℕ → Fields → Fields
copy_field v f w = record w {
  nanosecond = if f == 7 then v.nanosecond else w.nanosecond;
  integral = if f == 7 then w.integral else set_field f (get_field f v.integral) w.integral;
}

unfoldable pub copy_fields : Fields → ℕ → ℕ → Fields → Fields
copy_fields v zero f w = w
copy_fields v (suc n) f w = copy_fields v n (suc f) (copy_field v f w)

-- A separator that is written is one that is read.
read_separator-written :
    (v : Fields) (interval : Bool) (f : ℕ) (rest : List ℕ)
    → read_separator f interval (separator v interval f ∷ rest) ≡ done rest
unfolding read_separator field_separator
read_separator-written v interval f rest = ground arith

separator-Stops : (v : Fields) (interval : Bool) (f : ℕ) → is_digit (separator v interval f) ≡ false
unfolding field_separator
separator-Stops v interval f = ground arith

-- Behind the first field the text goes on with a separator, or ends.
fields_text-Stops :
    (v : Fields) (interval : Bool) (n f : ℕ) (rest : List ℕ)
    → v.range.first < f
    → Stops rest
    → Stops (fields_text v interval n f ++ rest)
unfolding fields_text field_text
fields_text-Stops v interval zero f rest h k = k
fields_text-Stops v interval (suc n) f rest h k =
    let later : separated v f ≡ true = ground (arith, h) in rw later (separator-Stops v interval f)

check_fraction_exact :
    (r : Range) (ns : ℕ)
    → r.last ≡ 7
    → check_fraction r ns ≡ done tt
    → (ns < 1_000_000_000) × (ns % fraction_factor r.fractional_digits ≡ 0)
unfolding check_fraction
check_fraction_exact r ns e h = (ground (arith, e, h), ground (arith, e, h))

-- Taking the number that is written for a field copies the field.
take_field-written :
    (v w : Fields) (interval : Bool) (f : ℕ)
    → IsValid v interval
    → w.range ≡ v.range
    → f ≤ v.range.last
    → take_field f (field_value v f) w ≡ done (copy_field v f w)
unfolding take_field field_value copy_field
take_field-written v w interval f h same b = elim (Bool-cases (f == 7)) [
  | inr e ↦ rw e refl
  | inl e ↦
      let seven = (==_iff f 7).0 e in
      let (less, exact) =
        check_fraction_exact v.range v.nanosecond (omega (arith, h.in_range.ends, seven, b))
          h.fraction in
      let factor = fraction_factor v.range.fractional_digits in
      let whole = div-add-mod' v.nanosecond factor in
      let few : leb 1_000_000_000 (v.nanosecond / factor) ≡ false = ground (
        arith,
        (fraction_below v.range.fractional_digits v.nanosecond
            (h.in_range.digits (omega (arith, h.in_range.ends, seven, b))).1 less).1,
      ) in
      let restored : v.nanosecond / factor * factor ≡ v.nanosecond = omega (arith, whole, exact) in
      rw e (
        simp same
          (rw few (ap (λ (n : ℕ). done (record w { range = v.range; nanosecond = n })) restored)))
]

least :
    (v : Fields) (interval : Bool) (f : ℕ)
    → least_width v.range interval f ≤ length (number_text v interval f)
least v interval f =
    ground (arith, length-digits_of (field_value v f) (least_width v.range interval f))

skip_none : (text : List ℕ) → skip_zero false text ≡ text
unfolding skip_zero
skip_none [] = refl
skip_none (c ∷ cs) = refl

skip_zero-written :
    (v : Fields) (interval : Bool) (f : ℕ) (rest : List ℕ)
    → skip_zero (f == 7 && f == v.range.first) (field_text v interval f ++ rest)
      ≡ field_text v interval f ++ rest
unfolding skip_zero field_text field_separator
skip_zero-written v interval f rest = elim (Bool-cases (f == 7 && f == v.range.first)) [
  | inr e ↦ rw e (skip_none _)
  | inl e ↦
      let marked : separated v f ≡ true = ground (arith, e) in
      let other : (separator v interval f == b'0') ≡ false = ground arith in
      rw (e, marked) (rw other refl)
]

read_number-written :
    (v : Fields) (interval : Bool) (f : ℕ) (rest : List ℕ)
    → IsValid v interval
    → IsU64 v.integral
    → v.range.first ≤ f
    → f ≤ v.range.last
    → Stops rest
    → read_number
        (least_width v.range interval f)
        (greatest_width v.range interval f)
        (number_text v interval f ++ rest)
      ≡ done (field_value v f, rest)
read_number-written v interval f rest h u a b stops =
    let (fits, few) = field-IsFitting v interval f h u a b in
    read-digits_of (field_value v f) (least_width v.range interval f)
      (least_width v.range interval f) (greatest_width v.range interval f) rest fits
      (least v interval f) few stops

read_mark-written :
    (v : Fields) (interval : Bool) (f : ℕ) (rest : List ℕ)
    → read_mark v.range f interval (field_text v interval f ++ rest)
      ≡ done (number_text v interval f ++ rest)
unfolding read_mark field_text
read_mark-written v interval f rest = elim (Bool-cases (separated v f)) [
  | inl e ↦ rw e (read_separator-written v interval f (number_text v interval f ++ rest))
  | inr e ↦ rw e refl
]

read_value-written :
    (v w : Fields) (interval : Bool) (f : ℕ) (rest : List ℕ)
    → IsValid v interval
    → IsU64 v.integral
    → w.range ≡ v.range
    → v.range.first ≤ f
    → f ≤ v.range.last
    → Stops rest
    → read_value v.range f interval w (number_text v interval f ++ rest)
      ≡ done (copy_field v f w, rest)
unfolding read_value
read_value-written v w interval f rest h u same a b stops =
    ap (λ r. r >>= end_field f w) (read_number-written v interval f rest h u a b stops)
    ∙ ap (λ r. r >>= λ x. done (x, rest)) (take_field-written v w interval f h same b)

-- Reading what is written for a field copies the field.
read_field-written :
    (v w : Fields) (interval : Bool) (f : ℕ) (rest : List ℕ)
    → IsValid v interval
    → IsU64 v.integral
    → w.range ≡ v.range
    → v.range.first ≤ f
    → f ≤ v.range.last
    → Stops rest
    → read_field f interval w (field_text v interval f ++ rest) ≡ done (copy_field v f w, rest)
unfolding read_field read_field_of
read_field-written v w interval f rest h u same a b stops =
    let text = field_text v interval f ++ rest in
    ap (λ (r : Range). read_field_of r f interval w text) same
    ∙ ap (λ (t : List ℕ). read_mark v.range f interval t >>= read_value v.range f interval w)
        (skip_zero-written v interval f rest)
    ∙ ap (λ r. r >>= read_value v.range f interval w) (read_mark-written v interval f rest)
    ∙ read_value-written v w interval f rest h u same a b stops

-- Reading all the text copies the fields.
pub read_fields-written :
    (v w : Fields) (interval : Bool) (n f : ℕ) (rest : List ℕ)
    → IsValid v interval
    → IsU64 v.integral
    → w.range ≡ v.range
    → v.range.first ≤ f
    → f + n ≤ suc v.range.last
    → Stops rest
    → read_fields n f interval w (fields_text v interval n f ++ rest)
      ≡ done (copy_fields v n f w, rest)
unfolding read_fields fields_text copy_fields copy_field
read_fields-written v w interval zero f rest h u same a b stops = refl
read_fields-written v w interval (suc n) f rest h u same a b stops =
    let behind = fields_text v interval n (suc f) ++ rest in
    rw (append_assoc (field_text v interval f) (fields_text v interval n (suc f)) rest) (
      rw
        (read_field-written v w interval f behind h u same a (omega (arith, b))
          (fields_text-Stops v interval n (suc f) rest (omega (arith, a)) stops))
        (read_fields-written v (copy_field v f w) interval n (suc f) rest h u same
          (omega (arith, a)) (omega (arith, b)) stops))
