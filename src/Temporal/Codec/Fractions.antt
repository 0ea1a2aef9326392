-- ===== src/Temporal/Codec/Fractions.antt =====
-- The fraction of a second in base-100 groups (src/sqli_temporal_codec.c).
use libsqli.Prelude.{
  ℕ, zero, suc, ◌+◌, ◌-◌, ◌*◌, ◌/◌, ◌%◌, ◌≤◌, ◌<◌, ◌≡◌, refl, true, false, ◌&&◌, not, ◌==◌,
  if◌then◌else◌, ◌⊎◌, arith,
}
use libsqli.Status.{done}
use libsqli.Temporal.{Range, check_fraction, fraction_factor}
use libsqli.Temporal.Codec.{power10}
use libsqli.Temporal.Codec.Groups.{power100}

-- The fraction in units of the last digit of its groups.
abbrev pub fraction_value : ℕ → ℕ → ℕ
fraction_value digits ns =
    if digits % 2 == 0 then ns / power10 (9 - digits) else ns / power10 (9 - digits) * 10

abbrev pub IsFraction : ℕ → ℕ → Type 0
IsFraction digits ns =
    let x = fraction_value digits ns in
    (x < power100 ((digits + 1) / 2))
    × ((not (digits % 2 == 0) && not (x % 10 == 0)) ≡ false)
    × ((if not (digits % 2 == 0) then x / 10 else x) * power10 (9 - digits) ≡ ns)

pub IsFraction-of_digits :
    (d ns : ℕ) → d ≤ 5 → ns < 1_000_000_000 → (ns % power10 (9 - d) == 0) ≡ true → IsFraction d ns
IsFraction-of_digits zero ns a b h = (ground (arith, b, h), refl, ground (arith, h))
IsFraction-of_digits (suc zero) ns a b h =
    (ground (arith, b, h), ground (arith, h), ground (arith, h))
IsFraction-of_digits (suc (suc zero)) ns a b h = (ground (arith, b, h), refl, ground (arith, h))
IsFraction-of_digits (suc (suc (suc zero))) ns a b h =
    (ground (arith, b, h), ground (arith, h), ground (arith, h))
IsFraction-of_digits (suc (suc (suc (suc zero)))) ns a b h =
    (ground (arith, b, h), refl, ground (arith, h))
IsFraction-of_digits (suc (suc (suc (suc (suc zero))))) ns a b h =
    (ground (arith, b, h), ground (arith, h), ground (arith, h))
IsFraction-of_digits (suc (suc (suc (suc (suc (suc d)))))) ns a b h = absurd (omega (arith, a))

pub nanosecond-below : (r : Range) (ns : ℕ) → check_fraction r ns ≡ done tt → ns < 1_000_000_000
unfolding check_fraction
nanosecond-below r ns h = ground (arith, h)

exact_units :
    (d ns : ℕ)
    → d ≤ 5
    → (ns ≡ 0) ⊎ (ns % fraction_factor d ≡ 0)
    → (ns % power10 (9 - d) == 0) ≡ true
unfolding fraction_factor
exact_units zero ns a h = ground (arith, h)
exact_units (suc zero) ns a h = ground (arith, h)
exact_units (suc (suc zero)) ns a h = ground (arith, h)
exact_units (suc (suc (suc zero))) ns a h = ground (arith, h)
exact_units (suc (suc (suc (suc zero)))) ns a h = ground (arith, h)
exact_units (suc (suc (suc (suc (suc zero))))) ns a h = ground (arith, h)
exact_units (suc (suc (suc (suc (suc (suc d)))))) ns a h = absurd (omega (arith, a))

exact_cases :
    (r : Range) (ns : ℕ)
    → check_fraction r ns ≡ done tt
    → (ns ≡ 0) ⊎ (ns % fraction_factor r.fractional_digits ≡ 0)
unfolding check_fraction
exact_cases r ns h = ground (arith, h)

pub nanosecond_exact :
    (r : Range) (ns : ℕ)
    → r.fractional_digits ≤ 5
    → check_fraction r ns ≡ done tt
    → (ns % power10 (9 - r.fractional_digits) == 0) ≡ true
nanosecond_exact r ns a h = exact_units r.fractional_digits ns a (exact_cases r ns h)
