-- ===== src/Temporal/Codec/Zeros.antt =====
-- Groups that are all zero give the value zero (src/sqli_temporal_codec.c).
use libsqli.Prelude.{
  ℕ, zero, suc, ◌+◌, ◌-◌, ◌*◌, ◌/◌, ◌%◌, ◌≤◌, ◌≡◌, refl, sym, ap, ◌∙◌, Bool, true, false, ◌&&◌, not,
  List, [], ◌∷◌, leb, ◌==◌, if◌then◌else◌, inl, inr, arith, Bool-cases,
}
use mathlib.Core.Path.{subst}
use libsqli.Status.{done}
use libsqli.Temporal.{Integral, no_fields, set_field}
use libsqli.Temporal.Copies.{get-set_field, get-no_fields, same_fields}
use libsqli.Temporal.Codec.{
  WireRange, power10, group_width, integral_count, all_zero, read_groups, unpack_fields,
  unpack_groups, zero_value,
}

zero_both : (b c : Bool) → (b && c) ≡ true → (b ≡ true) × (c ≡ true)
zero_both true c h = (refl, h)
zero_both false c h = cc

-- A value of 0, and zeros that are left.
abbrev IsZero : ℕ × List ℕ → Type 0
IsZero r = (r.0 ≡ 0) × (all_zero r.1 ≡ true)

read_groups-IsZero :
    (n a : ℕ) (gs : List ℕ) → a ≡ 0 → all_zero gs ≡ true → IsZero (read_groups n a gs)
unfolding read_groups
read_groups-IsZero zero a gs e h = (e, h)
read_groups-IsZero (suc n) a [] e h = read_groups-IsZero n (a * 100) [] (omega (arith, e)) h
read_groups-IsZero (suc n) a (g ∷ gs) e h =
    let (b, c) = zero_both (g == 0) (all_zero gs) h in
    read_groups-IsZero n (a * 100 + g) gs (ground (arith, e, b)) c

set_zero : (f : ℕ) → set_field f 0 no_fields ≡ no_fields
set_zero f = same_fields (set_field f 0 no_fields) no_fields (λ j a b.
    get-set_field j f 0 no_fields a b
    ∙ elim (Bool-cases (j == f)) [ inl e ↦ rw e (sym (get-no_fields j)) | inr e ↦ rw e refl ])

abbrev IsBlank : Integral × List ℕ → Type 0
IsBlank r = (r.0 ≡ no_fields) × (all_zero r.1 ≡ true)

unpack_fields-IsBlank :
    (w : WireRange) (n f : ℕ) (gs : List ℕ)
    → all_zero gs ≡ true
    → IsBlank (unpack_fields w n f no_fields gs)
unfolding unpack_fields
unpack_fields-IsBlank w zero f gs h = (refl, h)
unpack_fields-IsBlank w (suc n) f gs h =
    let r = read_groups (group_width w f) 0 gs in
    let (none, rest) = read_groups-IsZero (group_width w f) 0 gs refl h in
    let blank = ap (λ (x : ℕ). set_field f x no_fields) none ∙ set_zero f in
    subst (λ (acc : Integral). IsBlank (unpack_fields w n (suc f) acc r.1)) (sym blank)
      (unpack_fields-IsBlank w n (suc f) r.1 rest)

no_nanoseconds : (odd : Bool) (p : ℕ) → (if odd then 0 / 10 else 0) * p ≡ 0
no_nanoseconds true p = omega arith
no_nanoseconds false p = omega arith

pub power_positive : (d : ℕ) → 1 ≤ power10 d
power_positive zero = omega arith
power_positive (suc d) = omega (arith, power_positive d)

pub unpack_groups-zero :
    (w : WireRange) (negative : Bool) (gs : List ℕ)
    → all_zero gs ≡ true
    → unpack_groups w negative gs ≡ done (zero_value negative)
unfolding unpack_groups
unpack_groups-zero w negative gs h =
    let (fields, rest) = unpack_fields-IsBlank w (integral_count w.range) w.range.first gs h in
    let left = (unpack_fields w (integral_count w.range) w.range.first no_fields gs).1 in
    let (none, _) = read_groups-IsZero w.fraction_pairs 0 left refl rest in
    let small : (not (w.leading_digits == 0) && leb (power10 w.leading_digits) 0) ≡ false =
      ground (arith, power_positive w.leading_digits) in
    let odd = not (w.range.fractional_digits % 2 == 0) in
    let exact : (odd && false) ≡ false = ground arith in
    rw (fields, none)
      (rw (get-no_fields w.range.first) (
        rw (exact, small)
          (ap (λ (n : ℕ). done (record (zero_value negative) { nanosecond = n }))
            (no_nanoseconds odd (power10 (9 - w.range.fractional_digits))))))
