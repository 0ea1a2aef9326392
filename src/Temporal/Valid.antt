-- ===== src/Temporal/Valid.antt =====
-- What the checks of src/sqli_temporal.c leave: the ranges and the fields that pass.
use libsqli.Prelude.{
  ℕ, zero, suc, ◌+◌, ◌≤◌, ◌<◌, ◌≡◌, sym, ap, ◌∙◌, Bool, true, false, ◌==◌, if◌then◌else◌, ◌⊎◌, inl,
  inr, arith, Bool-cases, ==_iff,
}
use libsqli.Status.Chains.{>>-done}
use libsqli.Status.{Result, done}
use libsqli.Temporal.{
  Range, Integral, Fields, get_field, validate_range, validate_fields, check_field, check_fields,
  check_fraction, maximum,
}

-- A range of fields that may hold a value.
pub record IsRange (r : Range) (interval : Bool) : Type 0 where
  pub begins : 1 ≤ r.first
  pub ordered : r.first ≤ r.last
  pub ends : r.last ≤ 7
  pub digits : r.last ≡ 7 → (1 ≤ r.fractional_digits) × (r.fractional_digits ≤ 9)
  pub no_digits : r.last ≤ 6 → r.fractional_digits ≡ 0
  pub class : interval ≡ true → (3 ≤ r.first) ⊎ (r.last ≤ 2)

pub validate_range-IsRange :
    (r : Range) (interval : Bool) → validate_range r interval false ≡ done tt → IsRange r interval
unfolding validate_range
validate_range-IsRange r interval h = record {
  begins = ground (arith, h);
  ordered = ground (arith, h);
  ends = ground (arith, h);
  digits = λ e. (ground (arith, h, e), ground (arith, h, e));
  no_digits = λ e. ground (arith, h, e);
  class = λ e. ground (arith, h, e);
}

-- The fields of the range are in their bounds, and the others are zero.
pub record IsValid (v : Fields) (interval : Bool) : Type 0 where
  pub in_range : IsRange v.range interval
  pub checked :
      (f : ℕ) → 1 ≤ f → f ≤ 6 → check_field v.range interval f (get_field f v.integral) ≡ done tt
  pub fraction : check_fraction v.range v.nanosecond ≡ done tt

check_fields-each :
    (r : Range) (interval : Bool) (v : Integral) (n f g : ℕ)
    → check_fields r interval v n f ≡ done tt
    → f ≤ g
    → g < f + n
    → check_field r interval g (get_field g v) ≡ done tt
unfolding check_fields
check_fields-each r interval v zero f g h k l = absurd (omega arith)
check_fields-each r interval v (suc n) f g h k l =
    let (here, later) = >>-done _ _ tt h in
    elim (Bool-cases (f == g)) [
      | inl e ↦ rw⁻¹ ((==_iff f g).0 e) here
      | inr e ↦ check_fields-each r interval v n (suc f) g later (ground (arith, e)) (omega arith)
    ]

unless_null :
    (b : Bool) (k : Result (Unit {0}))
    → b ≡ false
    → (if b then done tt else k) ≡ done tt
    → k ≡ done tt
unless_null true k e h = cc
unless_null false k e h = h

pub validate_fields-IsValid :
    (v : Fields) (interval : Bool)
    → v.is_null ≡ false
    → validate_fields v interval ≡ done tt
    → IsValid v interval
unfolding validate_fields
validate_fields-IsValid v interval e h =
    let (ranged, rest) = >>-done _ _ tt h in
    let (each, later) = >>-done _ _ tt (unless_null v.is_null _ e rest) in
    record {
      in_range =
          validate_range-IsRange v.range interval
            (ap (λ (b : Bool). validate_range v.range interval b) (sym e) ∙ ranged);
      checked =
          λ f h k. check_fields-each v.range interval v.integral 6 1 f each h (omega (arith, k));
      fraction = (>>-done _ _ tt later).1;
    }

check_bounds :
    (r : Range) (interval : Bool) (f n : ℕ)
    → r.first ≤ f
    → f ≤ r.last
    → check_field r interval f n ≡ done tt
    → ((interval ≡ true) × (f ≡ r.first)) ⊎ (n ≤ maximum interval f)
unfolding check_field
check_bounds r interval f n a b h = ground (arith, a, b, h)

check_zero :
    (r : Range) (interval : Bool) (f n : ℕ)
    → (f < r.first) ⊎ (r.last < f)
    → check_field r interval f n ≡ done tt
    → n ≡ 0
unfolding check_field
check_zero r interval f n out h = ground (arith, out, h)

-- A field of the range that is not the leading field of an interval is in its bounds.
pub checked-bounds :
    (v : Fields) (interval : Bool) (f : ℕ)
    → IsValid v interval
    → 1 ≤ f
    → f ≤ 6
    → v.range.first ≤ f
    → f ≤ v.range.last
    → ((interval ≡ true) × (f ≡ v.range.first)) ⊎ (get_field f v.integral ≤ maximum interval f)
checked-bounds v interval f h a b c d =
    check_bounds v.range interval f (get_field f v.integral) c d (h.checked f a b)

-- A field outside of the range is zero.
pub checked-zero :
    (v : Fields) (interval : Bool) (f : ℕ)
    → IsValid v interval
    → 1 ≤ f
    → f ≤ 6
    → (f < v.range.first) ⊎ (v.range.last < f)
    → get_field f v.integral ≡ 0
checked-zero v interval f h a b out =
    check_zero v.range interval f (get_field f v.integral) out (h.checked f a b)
