-- ===== src/Decimal/Sizes.antt =====
-- The number of digits of limbs, and what stands behind them (src/sqli_decimal.c).
use libsqli.Prelude.{
  ℕ, zero, suc, ◌+◌, ◌-◌, ◌/◌, ◌≤◌, ◌<◌, ◌≡◌, refl, ap, ◌∙◌, true, List, [], ◌∷◌, leb, inl, inr,
  arith, Bool-cases,
}
use libsqli.Prelude.Bytes.{All}
use libsqli.Decimal.Number.{is_nil, decimal_digits}
use libsqli.Decimal.Values.{
  limbs_value, IsLimb, IsTrimmed, IsSize, tail_of, tail_of-add, tail_of-zero, decimal_digits-IsSize,
}

pub tail_of-le : (v n : ℕ) → tail_of v n ≤ v
tail_of-le v zero = omega arith
tail_of-le v (suc n) = omega (arith, tail_of-le (v / 10) n)

pub tail_of-suc : (v n : ℕ) → tail_of v (suc n) ≡ tail_of v n / 10
tail_of-suc v zero = refl
tail_of-suc v (suc n) = tail_of-suc (v / 10) n

pub tail_of-later : (v a p : ℕ) → tail_of v a ≡ 0 → a ≤ p → tail_of v p ≡ 0
tail_of-later v a p h l =
    let parts : p ≡ a + (p - a) = omega (arith, l) in
    ap (tail_of v) parts
    ∙ tail_of-add v a (p - a)
    ∙ ap (λ (n : ℕ). tail_of n (p - a)) h
    ∙ tail_of-zero (p - a)

-- A number other than 0 whose first digits from place `k` on are 0 has at most `k` digits.
pub IsSize-le : (v n k : ℕ) → IsSize v n → 0 < v → tail_of v k ≡ 0 → n ≤ k
IsSize-le v n k (p, e, a, b) h z = elim (Bool-cases (leb k p)) [
  | inl l ↦
      let none_left = tail_of-later v k p z (ground (arith, l)) in
      absurd (omega (arith, none_left, b h))
  | inr l ↦ ground (arith, l, e)
]

pub short_digits :
    (ls : List ℕ) (k : ℕ)
    → All IsLimb ls
    → IsTrimmed ls
    → 1 ≤ k
    → tail_of (limbs_value ls) k ≡ 0
    → decimal_digits ls ≤ k
unfolding decimal_digits
short_digits [] k h t l z = l
short_digits (x ∷ xs) k h (p, t) l z =
    IsSize-le (limbs_value (x ∷ xs)) (decimal_digits (x ∷ xs)) k
      (decimal_digits-IsSize (x ∷ xs) h (p, t)) p z

pub empty_zero : (ls : List ℕ) → is_nil ls ≡ true → limbs_value ls ≡ 0
empty_zero [] h = refl
empty_zero (l ∷ ls) h = cc
