-- ===== src/Decimal/Complement.antt =====
-- The radix complement of base-100 groups, applied twice (src/sqli_base100.h).
use libsqli.Prelude.{ℕ, ◌+◌, ◌-◌, ◌/◌, ◌%◌, ◌≤◌, ◌<◌, ◌≡◌, refl, List, [], ◌∷◌, arith}
use libsqli.Prelude.Bytes.{All}
use libsqli.Decimal.{radix_complement}

-- A group of two decimal digits.
abbrev pub IsGroup : ℕ → Type 0
IsGroup g = g < 100

pub carry_le : (gs : List ℕ) → (radix_complement gs).1 ≤ 1
unfolding radix_complement
carry_le [] = omega arith
carry_le (g ∷ gs) = omega (arith, carry_le gs)

group_back :
    (g c : ℕ)
    → g < 100
    → c ≤ 1
    → ((99 - (99 - g + c) % 100 + c) % 100 ≡ g)
      × ((99 - (99 - g + c) % 100 + c) / 100 ≡ (99 - g + c) / 100)
group_back g c h k = (omega (arith, h, k), omega (arith, h, k))

-- The complement has groups of two digits again, and its complement is the groups it was made of,
-- with the same carry.
pub radix_complement_twice :
    (gs : List ℕ)
    → All IsGroup gs
    → All IsGroup (radix_complement gs).0
      × (radix_complement (radix_complement gs).0 ≡ (gs, (radix_complement gs).1))
unfolding radix_complement
radix_complement_twice [] h = (tt, refl)
radix_complement_twice (g ∷ gs) (h, hs) =
    let (all, back) = radix_complement_twice gs hs in
    let (same, carry) = group_back g (radix_complement gs).1 h (carry_le gs) in
    ((omega arith, all), rw (back, same, carry) refl)
