-- ===== src/Decimal/Order.antt =====
-- sqli_decimal_compare orders the numbers (src/sqli_decimal.c).
use libsqli.Prelude.{
  ℕ, zero, suc, ◌+◌, ◌-◌, ◌*◌, ◌/◌, ◌%◌, ◌<◌, ◌≡◌, refl, sym, ap, ◌∙◌, true, false, ◌||◌, List, ltb,
  leb, ◌==◌, if◌then◌else◌, inl, inr, arith, Bool-cases,
}
use libsqli.Prelude.Int.{ℤ, pos}
use libsqli.Prelude.Bytes.{All}
use libsqli.Decimal.Number.{is_nil, decimal_digit}
use libsqli.Decimal.Values.{limbs_value, IsLimb, tail_of, decimal_digit-value}
use libsqli.Decimal.Sizes.{tail_of-suc}
use libsqli.Decimal.Mantissa.{shift_up}
use libsqli.Decimal.Powers.{tail_of-shift}
use libsqli.Decimal.Rescale.{tail_of-grows}
use libsqli.Decimal.Scaling.{order_of, compare_digits}

-- The order of two natural numbers, as -1, 0 or 1.
abbrev pub order_ℕ : ℕ → ℕ → ℤ
order_ℕ a b = if a == b then pos 0 else order_of (ltb a b)

tail_of-below : (a b n : ℕ) → tail_of a n < tail_of b n → a < b
tail_of-below a b n h = elim (Bool-cases (leb b a)) [
  | inl e ↦ absurd (omega (arith, h, tail_of-grows b a n (ground (arith, e))))
  | inr e ↦ ground (arith, e)
]

tail_of-low : (v k n : ℕ) → n < k → tail_of (shift_up v k) n % 10 ≡ 0
tail_of-low v zero n h = absurd (omega (arith, h))
tail_of-low v (suc k) zero h = omega arith
tail_of-low v (suc k) (suc n) h =
    let less : 10 * shift_up v k / 10 ≡ shift_up v k = omega arith in
    ap (λ (m : ℕ). tail_of m n % 10) less ∙ tail_of-low v k n (omega (arith, h))

-- A digit, with zeros behind the last one.
pub padded_digit :
    (ls : List ℕ) (n k i : ℕ)
    → All IsLimb ls
    → is_nil ls ≡ false
    → i < n + k
    → decimal_digit ls n i ≡ tail_of (shift_up (limbs_value ls) k) (n + k - i - 1) % 10
unfolding decimal_digit
padded_digit ls n k i h full l = elim (Bool-cases (leb n i)) [
  | inl e ↦
      let past : (is_nil ls || leb n i) ≡ true = rw (full, e) refl in
      rw past (sym (tail_of-low (limbs_value ls) k (n + k - i - 1) (ground (arith, e, l))))
  | inr e ↦
      let place : n + k - i - 1 ≡ k + (n - i - 1) = ground (arith, e) in
      decimal_digit-value ls n i h (ground (arith, e))
      ∙ ap (λ (m : ℕ). m % 10) (sym (tail_of-shift (limbs_value ls) k (n - i - 1)))
      ∙ ap (λ (m : ℕ). tail_of (shift_up (limbs_value ls) k) m % 10) (sym place)
]

next_prefix :
    (a b a' b' : ℕ) → a / 10 ≡ a' → b / 10 ≡ b' → a' ≡ b' → (a % 10 == b % 10) ≡ true → a ≡ b
next_prefix a b a' b' h k e d = ground (arith, h, k, e, d)

differing_prefix :
    (a b a' b' : ℕ) → a / 10 ≡ a' → b / 10 ≡ b' → a' ≡ b' → ltb (a % 10) (b % 10) ≡ true → a < b
differing_prefix a b a' b' h k e d = ground (arith, h, k, e, d)

pub order_ℕ-lt : (a b : ℕ) → a < b → order_of true ≡ order_ℕ a b
unfolding order_of
order_ℕ-lt a b h = ground (arith, h)

pub order_ℕ-gt : (a b : ℕ) → b < a → order_of false ≡ order_ℕ a b
unfolding order_of
order_ℕ-gt a b h = ground (arith, h)

not_less : (a b : ℕ) → (a == b) ≡ false → ltb a b ≡ false → ltb b a ≡ true
not_less a b h k = ground (arith, h, k)

-- Digits compared from position `c - k` on, behind digits that agree.
pub compare_digits-order :
    (x y : List ℕ) (n m c a b k i : ℕ)
    → ((j : ℕ) → j < c → decimal_digit x n j ≡ tail_of a (c - j - 1) % 10)
    → ((j : ℕ) → j < c → decimal_digit y m j ≡ tail_of b (c - j - 1) % 10)
    → i + k ≡ c
    → tail_of a k ≡ tail_of b k
    → compare_digits x y n m k i ≡ order_ℕ a b
unfolding compare_digits
compare_digits-order x y n m c a b zero i h g e same = ground (arith, same)
compare_digits-order x y n m c a b (suc k) i h g e same =
    let place : c - i - 1 ≡ k = omega (arith, e) in
    let da = h i (omega (arith, e)) ∙ ap (λ (j : ℕ). tail_of a j % 10) place in
    let db = g i (omega (arith, e)) ∙ ap (λ (j : ℕ). tail_of b j % 10) place in
    let next_a = sym (tail_of-suc a k) in
    let next_b = sym (tail_of-suc b k) in
    rw (da, db)
      (elim (Bool-cases (tail_of a k % 10 == tail_of b k % 10)) [
        | inl d ↦ rw d (
            compare_digits-order x y n m c a b k (suc i) h g (omega (arith, e))
              (next_prefix _ _ _ _ next_a next_b same d))
        | inr d ↦ elim (Bool-cases (ltb (tail_of a k % 10) (tail_of b k % 10))) [
          | inl l ↦
              rw (d, l)
                (order_ℕ-lt a b
                  (tail_of-below a b k (differing_prefix _ _ _ _ next_a next_b same l)))
          | inr l ↦
              rw (d, l)
                (order_ℕ-gt a b (
                  tail_of-below b a k
                    (differing_prefix _ _ _ _ next_b next_a (sym same) (not_less _ _ d l))))
        ]
      ])
