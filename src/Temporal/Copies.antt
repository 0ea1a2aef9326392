-- ===== src/Temporal/Copies.antt =====
-- Copying all the fields of a value gives the value.
use libsqli.Prelude.{
  ℕ, zero, suc, ◌+◌, ◌≤◌, ◌<◌, ◌≡◌, refl, sym, ◌∙◌, Bool, false, ◌&&◌, ltb, leb, ◌==◌,
  if◌then◌else◌, ◌⊎◌, inl, inr, arith, Bool-cases, ==_iff,
}
use libsqli.Status.{done}
use libsqli.Temporal.{Range, Integral, Fields, no_fields, get_field, set_field, check_fraction}
use libsqli.Temporal.Parse.{field_count, blank_fields}
use libsqli.Temporal.Valid.{IsValid, checked-zero}
use libsqli.Temporal.ReadBack.{copy_field, copy_fields}

pub get-set_field :
    (j f n : ℕ) (v : Integral)
    → 1 ≤ j
    → j ≤ 6
    → get_field j (set_field f n v) ≡ (if j == f then n else get_field j v)
unfolding get_field set_field
get-set_field j f n v a b = ground arith

pub same_source :
    (j f : ℕ) (v : Integral) (y : ℕ)
    → (if j == f then get_field f v else y) ≡ (if j == f then get_field j v else y)
same_source j f v y = elim (Bool-cases (j == f)) [
  | inl e ↦ rw ((==_iff j f).0 e) refl
  | inr e ↦ rw e refl
]

get-copy_field :
    (v : Fields) (f : ℕ) (w : Fields) (j : ℕ)
    → 1 ≤ j
    → j ≤ 6
    → get_field j (copy_field v f w).integral
      ≡ (if j == f then get_field j v.integral else get_field j w.integral)
unfolding copy_field
get-copy_field v f w j a b = elim (Bool-cases (f == 7)) [
  | inl e ↦ let other : (j == f) ≡ false = ground (arith, e, b) in rw (e, other) refl
  | inr e ↦ rw e (
      get-set_field j f (get_field f v.integral) w.integral a b
      ∙ same_source j f v.integral (get_field j w.integral))
]

pub widen :
    (n f j x y c : ℕ)
    → c ≡ (if j == f then x else y)
    → (if leb (suc f) j && ltb j (suc f + n) then x else c)
      ≡ (if leb f j && ltb j (f + suc n) then x else y)
widen n f j x y c h = ground (arith, h)

get-copy_fields :
    (v : Fields) (n f : ℕ) (w : Fields) (j : ℕ)
    → 1 ≤ j
    → j ≤ 6
    → get_field j (copy_fields v n f w).integral
      ≡ (if leb f j && ltb j (f + n) then get_field j v.integral else get_field j w.integral)
unfolding copy_fields copy_field
get-copy_fields v zero f w j a b = ground arith
get-copy_fields v (suc n) f w j a b =
    get-copy_fields v n (suc f) (copy_field v f w) j a b
    ∙ widen n f j (get_field j v.integral) (get_field j w.integral)
        (get_field j (copy_field v f w).integral) (get-copy_field v f w j a b)

nanosecond-copy_fields :
    (v : Fields) (n f : ℕ) (w : Fields)
    → (copy_fields v n f w).nanosecond
      ≡ (if leb f 7 && ltb 7 (f + n) then v.nanosecond else w.nanosecond)
unfolding copy_fields copy_field
nanosecond-copy_fields v zero f w = ground arith
nanosecond-copy_fields v (suc n) f w =
    ground (arith, nanosecond-copy_fields v n (suc f) (copy_field v f w))

-- A copy keeps the range, the sign and the mark of NULL.
frame-copy_fields :
    (v : Fields) (n f : ℕ) (w : Fields)
    → let c = copy_fields v n f w in
      (c.range ≡ w.range) × (c.negative ≡ w.negative) × (c.is_null ≡ w.is_null)
unfolding copy_fields copy_field
frame-copy_fields v zero f w = (refl, refl, refl)
frame-copy_fields v (suc n) f w = frame-copy_fields v n (suc f) (copy_field v f w)

pub same_fields :
    (v w : Integral) → ((j : ℕ) → 1 ≤ j → j ≤ 6 → get_field j v ≡ get_field j w) → v ≡ w
unfolding get_field
same_fields v w h =
    let a = h 1 (omega arith) (omega arith) in
    let b = h 2 (omega arith) (omega arith) in
    let c = h 3 (omega arith) (omega arith) in
    let d = h 4 (omega arith) (omega arith) in
    let e = h 5 (omega arith) (omega arith) in
    let f = h 6 (omega arith) (omega arith) in
    λ i. record { year = a i; month = b i; day = c i; hour = d i; minute = e i; second = f i }

fraction_absent : (r : Range) (ns : ℕ) → r.last ≤ 6 → check_fraction r ns ≡ done tt → ns ≡ 0
unfolding check_fraction
fraction_absent r ns a h = ground (arith, a, h)

-- The value that a parser starts from, with the sign that it read.
abbrev pub signed_fields : Fields → Fields
signed_fields v = record (blank_fields v.range) { negative = v.negative }

pub get-no_fields : (j : ℕ) → get_field j no_fields ≡ 0
unfolding get_field
get-no_fields j = ground arith

absent :
    (v : Fields) (interval : Bool) (j : ℕ)
    → IsValid v interval
    → 1 ≤ j
    → j ≤ 6
    → (leb v.range.first j && ltb j (v.range.first + field_count v.range)) ≡ false
    → get_field j no_fields ≡ get_field j v.integral
absent v interval j h a b e =
    let out : (j < v.range.first) ⊎ (v.range.last < j) = ground (arith, e, h.in_range.ordered) in
    get-no_fields j ∙ sym (checked-zero v interval j h a b out)

copied_fraction :
    (v : Fields) (interval : Bool)
    → IsValid v interval
    → (copy_fields v (field_count v.range) v.range.first (signed_fields v)).nanosecond
      ≡ v.nanosecond
copied_fraction v interval h =
    let r = h.in_range in
    nanosecond-copy_fields v (field_count v.range) v.range.first (signed_fields v)
    ∙ elim (Bool-cases (leb v.range.first 7 && ltb 7 (v.range.first + field_count v.range))) [
      | inl e ↦ rw e refl
      | inr e ↦
          let early : v.range.last ≤ 6 = ground (arith, e, r.ordered, r.ends) in
          rw e (sym (fraction_absent v.range v.nanosecond early h.fraction))
    ]

copied_field :
    (v : Fields) (interval : Bool) (j : ℕ)
    → IsValid v interval
    → 1 ≤ j
    → j ≤ 6
    → get_field j (copy_fields v (field_count v.range) v.range.first (signed_fields v)).integral
      ≡ get_field j v.integral
copied_field v interval j h a b =
    let n = field_count v.range in
    get-copy_fields v n v.range.first (signed_fields v) j a b
    ∙ elim (Bool-cases (leb v.range.first j && ltb j (v.range.first + n))) [
      | inl e ↦ rw e refl
      | inr e ↦ rw e (absent v interval j h a b e)
    ]

-- All the fields of a valid value, copied to the value that a parser starts from, are the value.
pub copy_fields-all :
    (v : Fields) (interval : Bool)
    → IsValid v interval
    → v.is_null ≡ false
    → copy_fields v (field_count v.range) v.range.first (signed_fields v) ≡ v
copy_fields-all v interval h present =
    let n = field_count v.range in
    let first = v.range.first in
    let (a, b, c) = frame-copy_fields v n first (signed_fields v) in
    let integral =
      same_fields (copy_fields v n first (signed_fields v)).integral v.integral
        (λ j x y. copied_field v interval j h x y) in
    let nanosecond = copied_fraction v interval h in
    λ i. record {
      range = a i;
      integral = integral i;
      nanosecond = nanosecond i;
      negative = b i;
      is_null = (c ∙ sym present) i;
    }
