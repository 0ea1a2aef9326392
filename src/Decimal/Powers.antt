-- ===== src/Decimal/Powers.antt =====
-- Limbs multiplied and divided by a power of ten (src/sqli_decimal.c).
use mathlib.Core.Path.{subst}
use libsqli.Prelude.{
  ℕ, zero, suc, ◌+◌, ◌-◌, ◌*◌, ◌/◌, ◌%◌, ◌≤◌, ◌<◌, ◌≡◌, refl, sym, ap, ◌∙◌, List, [], ◌∷◌, ◌++◌,
  ◌==◌, length, drop, replicate, inl, inr, arith, Bool-cases, length-replicate,
}
use libsqli.Prelude.Bytes.{All, All-append, overwrite, overwrite-append}
use libsqli.Decimal.Number.{limb_base, power_of_ten}
use libsqli.Decimal.Values.{limbs_value, IsLimb, tail_of, high_tail, nine_cases}
use libsqli.Decimal.Mantissa.{shift_up, shift_up-add}
use libsqli.Decimal.Scaling.{multiply_limbs, carried, divide_limbs}

multiply_step :
    (l c v k : ℕ)
    → k < 9
    → l < limb_base
    → c < power_of_ten k
    → ((l * power_of_ten k + c) / limb_base < power_of_ten k)
      × ((l * power_of_ten k + c) % limb_base
            + limb_base * (v * power_of_ten k + (l * power_of_ten k + c) / limb_base)
          ≡ (l + limb_base * v) * power_of_ten k + c)
multiply_step l c v =
    nine_cases
      (λ k.
        l < limb_base
        → c < power_of_ten k
        → ((l * power_of_ten k + c) / limb_base < power_of_ten k)
          × ((l * power_of_ten k + c) % limb_base
                + limb_base * (v * power_of_ten k + (l * power_of_ten k + c) / limb_base)
              ≡ (l + limb_base * v) * power_of_ten k + c))
      (λ a b. (omega (arith, a, b), omega (arith, a, b)))
      (λ a b. (omega (arith, a, b), omega (arith, a, b)))
      (λ a b. (omega (arith, a, b), omega (arith, a, b)))
      (λ a b. (omega (arith, a, b), omega (arith, a, b)))
      (λ a b. (omega (arith, a, b), omega (arith, a, b)))
      (λ a b. (omega (arith, a, b), omega (arith, a, b)))
      (λ a b. (omega (arith, a, b), omega (arith, a, b)))
      (λ a b. (omega (arith, a, b), omega (arith, a, b)))
      (λ a b. (omega (arith, a, b), omega (arith, a, b)))

pub carried-value : (c : ℕ) → limbs_value (carried c) ≡ c
carried-value c = ground arith

pub carried-All : (c : ℕ) → c < limb_base → All IsLimb (carried c)
carried-All c h = elim (Bool-cases (c == 0)) [ inl e ↦ rw e tt | inr e ↦ rw e (h, tt) ]

pub power_below : (k : ℕ) → k < 9 → power_of_ten k < limb_base
power_below =
    nine_cases (λ k. power_of_ten k < limb_base) (omega arith) (omega arith) (omega arith)
      (omega arith) (omega arith) (omega arith) (omega arith) (omega arith) (omega arith)

-- The products and the carry are the product, nine digits to a limb.
pub multiply_limbs-value :
    (ls : List ℕ) (k c : ℕ)
    → k < 9
    → All IsLimb ls
    → c < power_of_ten k
    → (limbs_value (
          (multiply_limbs (power_of_ten k) c ls).0
          ++ carried (multiply_limbs (power_of_ten k) c ls).1)
        ≡ limbs_value ls * power_of_ten k + c)
      × All IsLimb (multiply_limbs (power_of_ten k) c ls).0
      × ((multiply_limbs (power_of_ten k) c ls).1 < power_of_ten k)
      × (length (multiply_limbs (power_of_ten k) c ls).0 ≡ length ls)
unfolding multiply_limbs
multiply_limbs-value [] k c h a b = (omega (arith, carried-value c), tt, b, refl)
multiply_limbs-value (l ∷ ls) k c h (a, al) b =
    let (small, exact) = multiply_step l c (limbs_value ls) k h a b in
    let (value, all, out, size) =
      multiply_limbs-value ls k ((l * power_of_ten k + c) / limb_base) h al small in
    (omega (arith, value, exact), (omega arith, all), out, ap suc size)

-- Zeros in front multiply by powers of the base of the limbs.
pub zeros-shift :
    (n : ℕ) (ls : List ℕ) → limbs_value (replicate n 0 ++ ls) ≡ shift_up (limbs_value ls) (n * 9)
zeros-shift zero ls = let none : 0 ≡ 0 * 9 = omega arith in ap (shift_up (limbs_value ls)) none
zeros-shift (suc n) ls =
    let v = limbs_value ls in
    let next : suc n * 9 ≡ 9 + n * 9 = omega arith in
    omega (arith, zeros-shift n ls, ap (shift_up v) next ∙ shift_up-add v 9 (n * 9))

pub zeros-behind : (ls : List ℕ) (n : ℕ) → limbs_value (ls ++ replicate n 0) ≡ limbs_value ls
zeros-behind [] zero = refl
zeros-behind [] (suc n) = omega (arith, zeros-behind [] n)
zeros-behind (l ∷ ls) n = omega (arith, zeros-behind ls n)

pub replicate-All : (n : ℕ) → All IsLimb (replicate n 0)
replicate-All zero = tt
replicate-All (suc n) = (omega arith, replicate-All n)

drop-zeros : (n k : ℕ) → drop k (replicate {A = ℕ} n 0) ≡ replicate (n - k) 0
drop-zeros n zero = let whole : n ≡ n - 0 = omega arith in ap (λ (m : ℕ). replicate m 0) whole
drop-zeros zero (suc k) =
    let none : 0 ≡ 0 - suc k = omega arith in ap (λ (m : ℕ). replicate m 0) none
drop-zeros (suc n) (suc k) =
    let less : n - k ≡ suc n - suc k = omega arith in
    drop-zeros n k ∙ ap (λ (m : ℕ). replicate m 0) less

-- Limbs written to cleared memory that has room for them.
pub overwrite-zeros :
    (ls : List ℕ) (n : ℕ)
    → length ls ≤ n
    → All IsLimb ls
    → (limbs_value (overwrite ls (replicate n 0)) ≡ limbs_value ls)
      × All IsLimb (overwrite ls (replicate n 0))
overwrite-zeros ls n h all =
    let same : overwrite ls (replicate n 0) ≡ ls ++ replicate (n - length ls) 0 =
      overwrite-append ls (replicate n 0) (omega (arith, h, length-replicate {A = ℕ} n 0))
      ∙ ap (◌++◌ ls) (drop-zeros n (length ls)) in
    (
      ap limbs_value same ∙ zeros-behind ls (n - length ls),
      subst (All IsLimb) (sym same)
          (All-append IsLimb ls (replicate (n - length ls) 0) all (replicate-All (n - length ls))),
    )

-- What stands behind some limbs, as a number.
pub tail_of-append :
    (xs ys : List ℕ)
    → All IsLimb xs
    → tail_of (limbs_value (xs ++ ys)) (length xs * 9) ≡ limbs_value ys
tail_of-append [] ys h = let none : 0 * 9 ≡ 0 = omega arith in ap (tail_of (limbs_value ys)) none
tail_of-append (x ∷ xs) ys (h, hs) =
    let next : suc (length xs) * 9 ≡ 9 + length xs * 9 = omega arith in
    ap (tail_of (limbs_value ((x ∷ xs) ++ ys))) next
    ∙ high_tail (length xs * 9) x (limbs_value (xs ++ ys)) h
    ∙ tail_of-append xs ys hs

pub tail_of-shift : (v k n : ℕ) → tail_of (shift_up v k) (k + n) ≡ tail_of v n
tail_of-shift v zero n = let start : 0 + n ≡ n = omega arith in ap (tail_of v) start
tail_of-shift v (suc k) n =
    let next : suc k + n ≡ suc (k + n) = omega arith in
    ap (tail_of (10 * shift_up v k)) next
    ∙ ap (λ (m : ℕ). tail_of m (k + n)) (omega arith)
    ∙ tail_of-shift v k n

divide_step :
    (l r q k : ℕ)
    → k < 9
    → l < limb_base
    → r < power_of_ten k
    → ((r * limb_base + l) / power_of_ten k < limb_base)
      × ((r * limb_base + l) % power_of_ten k < power_of_ten k)
      × (l + limb_base * (q * power_of_ten k + r)
          ≡ ((r * limb_base + l) / power_of_ten k + limb_base * q) * power_of_ten k
            + (r * limb_base + l) % power_of_ten k)
divide_step l r q =
    nine_cases
      (λ k.
        l < limb_base
        → r < power_of_ten k
        → ((r * limb_base + l) / power_of_ten k < limb_base)
          × ((r * limb_base + l) % power_of_ten k < power_of_ten k)
          × (l + limb_base * (q * power_of_ten k + r)
              ≡ ((r * limb_base + l) / power_of_ten k + limb_base * q) * power_of_ten k
                + (r * limb_base + l) % power_of_ten k))
      (λ a b. (omega (arith, a, b), omega (arith, a, b), omega (arith, a, b)))
      (λ a b. (omega (arith, a, b), omega (arith, a, b), omega (arith, a, b)))
      (λ a b. (omega (arith, a, b), omega (arith, a, b), omega (arith, a, b)))
      (λ a b. (omega (arith, a, b), omega (arith, a, b), omega (arith, a, b)))
      (λ a b. (omega (arith, a, b), omega (arith, a, b), omega (arith, a, b)))
      (λ a b. (omega (arith, a, b), omega (arith, a, b), omega (arith, a, b)))
      (λ a b. (omega (arith, a, b), omega (arith, a, b), omega (arith, a, b)))
      (λ a b. (omega (arith, a, b), omega (arith, a, b), omega (arith, a, b)))
      (λ a b. (omega (arith, a, b), omega (arith, a, b), omega (arith, a, b)))

pub power_positive : (k : ℕ) → k < 9 → 0 < power_of_ten k
power_positive =
    nine_cases (λ k. 0 < power_of_ten k) (omega arith) (omega arith) (omega arith) (omega arith)
      (omega arith) (omega arith) (omega arith) (omega arith) (omega arith)

-- The quotients and the remainder are those of the number.
pub divide_limbs-value :
    (ls : List ℕ) (k : ℕ)
    → k < 9
    → All IsLimb ls
    → (limbs_value ls
        ≡ limbs_value (divide_limbs (power_of_ten k) ls).0 * power_of_ten k
          + (divide_limbs (power_of_ten k) ls).1)
      × All IsLimb (divide_limbs (power_of_ten k) ls).0
      × ((divide_limbs (power_of_ten k) ls).1 < power_of_ten k)
unfolding divide_limbs
divide_limbs-value [] k h a = (omega arith, tt, power_positive k h)
divide_limbs-value (l ∷ ls) k h (a, al) =
    let (value, all, below) = divide_limbs-value ls k h al in
    let (q, r) = divide_limbs (power_of_ten k) ls in
    let (small, rest, exact) = divide_step l r (limbs_value q) k h a below in
    (ap (λ (n : ℕ). l + limb_base * n) value ∙ exact, (small, all), rest)
