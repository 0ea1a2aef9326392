-- ===== src/Decimal/Magnitudes.antt =====
-- The order of two coefficients of any scales (compare in src/sqli_decimal.c).
use mathlib.Core.Path.{subst}
use libsqli.Prelude.{
  ℕ, ◌+◌, ◌-◌, ◌%◌, ◌<◌, ◌≡◌, sym, ap, ◌∙◌, false, ltb, leb, ◌==◌, if◌then◌else◌, inl, inr, arith,
  Bool-cases,
}
use libsqli.Prelude.Int.{ℤ, pos, negsuc, pos_part, neg_part, ◌-ℤ◌, ltb_ℤ, same_ℤ}
use libsqli.Decimal.Number.{Number, is_nil, decimal_digits}
use libsqli.Decimal.Values.{limbs_value, IsSize, tail_of, decimal_digits-IsSize}
use libsqli.Decimal.Stored.{IsNormal}
use libsqli.Decimal.Sizes.{tail_of-later}
use libsqli.Decimal.Mantissa.{shift_up}
use libsqli.Decimal.Powers.{tail_of-shift}
use libsqli.Decimal.Rescale.{tail_of-grows, trimmed_value}
use libsqli.Decimal.Scaling.{compare_magnitudes}
use libsqli.Decimal.Order.{order_ℕ, order_ℕ-lt, order_ℕ-gt, padded_digit, compare_digits-order}

-- The exponents, compared by the digits of the coefficients that are brought to one scale.
exponents :
    (n m : ℕ) (s t : ℤ)
    → (same_ℤ (pos n -ℤ s) (pos m -ℤ t) ≡ (n + neg_part (s -ℤ t) == m + pos_part (s -ℤ t)))
      × (ltb_ℤ (pos n -ℤ s) (pos m -ℤ t) ≡ ltb (n + neg_part (s -ℤ t)) (m + pos_part (s -ℤ t)))
unfolding ◌-ℤ◌
exponents n m (pos s) (pos t) = (ground arith, ground arith)
exponents n m (pos s) (negsuc t) = (ground arith, ground arith)
exponents n m (negsuc s) (pos t) = (ground arith, ground arith)
exponents n m (negsuc s) (negsuc t) = (ground arith, ground arith)

larger_count :
    (n m : ℕ) (d : ℤ)
    → n + neg_part d ≡ m + pos_part d
    → (if ltb m n then n else m) ≡ n + neg_part d
larger_count n m (pos x) h = ground (arith, h)
larger_count n m (negsuc x) h = ground (arith, h)

-- A number with fewer digits in front of its last place is less.
fewer_digits :
    (a b i j n m : ℕ)
    → tail_of a n ≡ 0
    → IsSize b m
    → 0 < b
    → n + i < m + j
    → shift_up a i < shift_up b j
fewer_digits a b i j n m z (p, e, y, more) h l =
    let low = tail_of-shift a i n ∙ z in
    let none = tail_of-later (shift_up a i) (i + n) (j + p) low (omega (arith, e, l)) in
    let some = tail_of-shift b j p in
    elim (Bool-cases (leb (shift_up b j) (shift_up a i))) [
      | inr less ↦ ground (arith, less)
      | inl le ↦
          let grows = tail_of-grows (shift_up b j) (shift_up a i) (j + p) (ground (arith, le)) in
          absurd (omega (arith, none, some, grows, more h))
    ]

swap : (a b : ℕ) → a + b ≡ b + a
swap a b = omega arith

pub compare_magnitudes-order :
    (l r : Number)
    → IsNormal l
    → IsNormal r
    → is_nil l.limbs ≡ false
    → is_nil r.limbs ≡ false
    → compare_magnitudes l r
      ≡ order_ℕ
          (shift_up (limbs_value l.limbs) (neg_part (l.scale -ℤ r.scale)))
          (shift_up (limbs_value r.limbs) (pos_part (l.scale -ℤ r.scale)))
unfolding compare_magnitudes
compare_magnitudes-order l r h k full some =
    let n = decimal_digits l.limbs in
    let m = decimal_digits r.limbs in
    let d = l.scale -ℤ r.scale in
    let i = neg_part d in
    let j = pos_part d in
    let a = limbs_value l.limbs in
    let b = limbs_value r.limbs in
    let size_l = decimal_digits-IsSize l.limbs h.limbs h.trimmed in
    let size_r = decimal_digits-IsSize r.limbs k.limbs k.trimmed in
    let pos_l = trimmed_value l.limbs h.trimmed full in
    let pos_r = trimmed_value r.limbs k.trimmed some in
    let (same, less) = exponents n m l.scale r.scale in
    elim (Bool-cases (n + i == m + j)) [
      | inr e ↦ elim (Bool-cases (ltb (n + i) (m + j))) [
        | inl lt ↦
            rw (same, less, e, lt)
              (order_ℕ-lt (shift_up a i) (shift_up b j)
                (fewer_digits a b i j n m size_l.2 size_r pos_r (ground (arith, lt))))
        | inr ge ↦
            rw (same, less, e, ge)
              (order_ℕ-gt (shift_up a i) (shift_up b j)
                (fewer_digits b a j i m n size_r.2 size_l pos_l (ground (arith, e, ge))))
      ]
      | inl e ↦
          let equal : n + i ≡ m + j = ground (arith, e) in
          let count = larger_count n m d equal in
          let none_l = ap (tail_of (shift_up a i)) (swap n i) ∙ tail_of-shift a i n ∙ size_l.2 in
          let none_r =
            ap (tail_of (shift_up b j)) (equal ∙ swap m j) ∙ tail_of-shift b j m ∙ size_r.2 in
          rw (same, e, count)
            (compare_digits-order l.limbs r.limbs n m (n + i) (shift_up a i) (shift_up b j) (n + i)
              0 (λ q lt. padded_digit l.limbs n i q h.limbs full lt)
              (λ q lt.
                padded_digit r.limbs m j q k.limbs some (subst (λ (c : ℕ). q < c) equal lt)
                ∙ ap (λ (c : ℕ). tail_of (shift_up b j) (c - q - 1) % 10) (sym equal))
              (omega arith) (none_l ∙ sym none_r))
    ]
