-- ===== src/Decimal/Products.antt =====
-- decimal_multiply_power and decimal_divide_power (src/sqli_decimal.c).
use mathlib.Core.Path.{subst}
use libsqli.Prelude.{
  ℕ, zero, suc, ◌+◌, ◌-◌, ◌*◌, ◌/◌, ◌%◌, ◌≤◌, ◌<◌, ◌≡◌, refl, sym, ap, ◌∙◌, Bool, false, not, List,
  [], ◌∷◌, ◌++◌, ltb, leb, ◌==◌, if◌then◌else◌, length, get_or, take, drop, replicate, inl, inr,
  arith, Bool-cases, length-append, length-replicate,
}
use libsqli.Prelude.Bytes.{All, All-append, overwrite}
use libsqli.Status.{Status, done, reject_if}
use libsqli.Status.Chains.{>>-done, reject_if-false, done_same}
use libsqli.Decimal.Number.{
  limb_base, max_digits, power_of_ten, is_nil, limb_digits, decimal_digits,
}
use libsqli.Decimal.Values.{
  limbs_value, IsLimb, IsTrimmed, nine_cases, tail_of, decimal_digits-IsSize,
}
use libsqli.Decimal.Sizes.{tail_of-later}
use libsqli.Decimal.Mantissa.{shift_up, shift_up-add, shift_up-zero, digit_power}
use libsqli.Decimal.Scaling.{
  multiply_limbs, multiply_power, carried, divide_limbs, divide_power, any_limb,
}
use libsqli.Decimal.Powers.{
  multiply_limbs-value, zeros-shift, overwrite-zeros, replicate-All, tail_of-append, tail_of-shift,
  divide_limbs-value, carried-value, carried-All, power_below, power_positive,
}

-- All limbs but the last one are full of digits.
pub decimal_digits-long : (l : ℕ) (ls : List ℕ) → length ls * 9 + 1 ≤ decimal_digits (l ∷ ls)
unfolding decimal_digits limb_digits
decimal_digits-long l ls = omega arith

-- A carry takes a place that the digits of the product reach.
carry_room :
    (products : List ℕ) (carry v k n : ℕ)
    → All IsLimb products
    → limbs_value (products ++ carried carry) ≡ shift_up v k
    → tail_of v n ≡ 0
    → 0 < carry
    → length products * 9 < k + n
carry_room products carry v k n all same size more =
    elim (Bool-cases (leb (k + n) (length products * 9))) [
      | inr e ↦ ground (arith, e)
      | inl e ↦
          let last = tail_of-append products (carried carry) all ∙ carried-value carry in
          let none_left =
            tail_of-later (shift_up v k) (k + n) (length products * 9) (tail_of-shift v k n ∙ size)
              (ground (arith, e)) in
          absurd (
            omega
              (arith, last, more, none_left, ap (λ (m : ℕ). tail_of m (length products * 9)) same))
    ]

carried-size : (c : ℕ) → length (carried c) ≡ (if c == 0 then 0 else 1)
carried-size c = ground arith

written_room :
    (carry power digits len m : ℕ)
    → len ≡ suc m
    → m * 9 + 1 ≤ digits
    → (0 < carry → len * 9 < power % 9 + digits)
    → power / 9 + (len + length (carried carry)) ≤ (digits + power + 9 - 1) / 9
written_room zero power digits len m e h k = omega (arith, e, h)
written_room (suc carry) power digits len m e h k =
    let more = k (omega arith) in
    let one : length (carried (suc carry)) ≡ 1 = ground arith in omega (arith, e, h, more, one)

within : (a m : ℕ) → ltb m a ≡ false → a ≤ m
within a m h = ground (arith, h)

pub multiply_power-value :
    (memory : ℕ → Bool) (ls out : List ℕ) (power : ℕ)
    → All IsLimb ls
    → IsTrimmed ls
    → is_nil ls ≡ false
    → multiply_power memory ls power ≡ done out
    → (limbs_value out ≡ shift_up (limbs_value ls) power)
      × All IsLimb out
      × (power + decimal_digits ls ≤ max_digits)
unfolding multiply_power
multiply_power-value memory [] out power h t live done_out = cc
multiply_power-value memory (l ∷ ms) out power h t live done_out =
    let ls = l ∷ ms in
    let k = power % 9 in
    let shift = power / 9 in
    let digits = decimal_digits ls in
    let (p, exact, size, more) = decimal_digits-IsSize ls h t in
    let (products, carry) = multiply_limbs (power_of_ten k) 0 ls in
    let (value, all, below, len) =
      multiply_limbs-value ls k 0 (omega arith) h (power_positive k (omega arith)) in
    let scaled : limbs_value (products ++ carried carry) ≡ shift_up (limbs_value ls) k =
      omega (arith, value, digit_power (limbs_value ls) k (omega arith)) in
    let room = carry_room products carry (limbs_value ls) k digits all scaled size in
    let long = decimal_digits-long l ms in
    let tail = products ++ carried carry in
    let written = replicate shift 0 ++ tail in
    let length_written : length written ≡ shift + (length products + length (carried carry)) =
      omega (
        arith,
        length-append (replicate shift 0) tail,
        length-append products (carried carry),
        length-replicate {A = ℕ} shift 0,
      ) in
    let fits : length written ≤ (digits + power + 9 - 1) / 9 = omega (
      arith,
      length_written,
      written_room carry power digits (length products) (length ms) len long room,
    ) in
    let written_All = All-append IsLimb (replicate shift 0) tail (replicate-All shift) (
      All-append IsLimb products (carried carry) all
        (carried-All carry (omega (arith, below, power_below k (omega arith))))) in
    let (kept, limbs) = overwrite-zeros written ((digits + power + 9 - 1) / 9) fits written_All in
    let (checks, same) = >>-done _ _ out done_out in
    let (few, memory_room) =
      >>-done (reject_if (ltb max_digits (power + digits)) Status.limit_exceeded) _ tt checks in
    let bound = reject_if-false (ltb max_digits (power + digits)) Status.limit_exceeded few in
    let stored =
      done_same (overwrite written (replicate ((digits + power + 9 - 1) / 9) 0)) out same in
    let whole : shift * 9 + k ≡ power = omega arith in
    (
      ap limbs_value (sym stored)
          ∙ kept
          ∙ zeros-shift shift tail
          ∙ ap (λ (n : ℕ). shift_up n (shift * 9)) scaled
          ∙ sym (shift_up-add (limbs_value ls) (shift * 9) k)
          ∙ ap (shift_up (limbs_value ls)) whole,
      subst (All IsLimb) stored limbs,
      within (power + digits) max_digits bound,
    )

divided_lem :
    (v q r k : ℕ)
    → k < 9
    → v ≡ q * power_of_ten k + r
    → r < power_of_ten k
    → v % power_of_ten k ≡ 0
    → v ≡ shift_up q k
divided_lem v q r =
    nine_cases
      (λ k.
        v ≡ q * power_of_ten k + r → r < power_of_ten k → v % power_of_ten k ≡ 0 → v ≡ shift_up q k)
      (λ a b c. omega (arith, a, b, c)) (λ a b c. omega (arith, a, b, c))
      (λ a b c. omega (arith, a, b, c)) (λ a b c. omega (arith, a, b, c))
      (λ a b c. omega (arith, a, b, c)) (λ a b c. omega (arith, a, b, c))
      (λ a b c. omega (arith, a, b, c)) (λ a b c. omega (arith, a, b, c))
      (λ a b c. omega (arith, a, b, c))

first_limb : (l v k : ℕ) → k < 9 → l % power_of_ten k ≡ 0 → (l + limb_base * v) % power_of_ten k ≡ 0
first_limb l v =
    nine_cases (λ k. l % power_of_ten k ≡ 0 → (l + limb_base * v) % power_of_ten k ≡ 0)
      (λ a. omega (arith, a)) (λ a. omega (arith, a)) (λ a. omega (arith, a))
      (λ a. omega (arith, a)) (λ a. omega (arith, a)) (λ a. omega (arith, a))
      (λ a. omega (arith, a)) (λ a. omega (arith, a)) (λ a. omega (arith, a))

zero_mod : (k : ℕ) → k < 9 → 0 % power_of_ten k ≡ 0
zero_mod = nine_cases (λ k. 0 % power_of_ten k ≡ 0) refl refl refl refl refl refl refl refl refl

zero_of : (n : ℕ) → not (n == 0) ≡ false → n ≡ 0
zero_of n h = ground (arith, h)

no_shift : (v : ℕ) → v ≡ shift_up v (0 * 9)
no_shift v = let none : 0 ≡ 0 * 9 = omega arith in ap (shift_up v) none

drop-All : (n : ℕ) (ls : List ℕ) → All IsLimb ls → All IsLimb (drop n ls)
drop-All zero ls h = h
drop-All (suc n) [] h = tt
drop-All (suc n) (l ∷ ls) (h, hs) = drop-All n ls hs

-- Limbs of which the first ones are 0, and the next one is a multiple.
dropped-value :
    (ls : List ℕ) (shift k : ℕ)
    → k < 9
    → any_limb (take shift ls) ≡ false
    → get_or ls shift 0 % power_of_ten k ≡ 0
    → (limbs_value ls ≡ shift_up (limbs_value (drop shift ls)) (shift * 9))
      × (limbs_value (drop shift ls) % power_of_ten k ≡ 0)
dropped-value [] zero k h a b = (no_shift 0, zero_mod k h)
dropped-value [] (suc shift) k h a b = (sym (shift_up-zero (suc shift * 9)), zero_mod k h)
dropped-value (l ∷ ls) zero k h a b =
    (no_shift (limbs_value (l ∷ ls)), first_limb l (limbs_value ls) k h b)
dropped-value (l ∷ ls) (suc shift) k h a b =
    let none : any_limb (take shift ls) ≡ false = ground (arith, a) in
    let first : l ≡ 0 = ground (arith, a) in
    let (value, rest) = dropped-value ls shift k h none b in
    let v = limbs_value (drop shift ls) in
    let next : suc shift * 9 ≡ 9 + shift * 9 = omega arith in
    (omega (arith, first, value, ap (shift_up v) next ∙ shift_up-add v 9 (shift * 9)), rest)

pub divide_power-value :
    (memory : ℕ → Bool) (ls out : List ℕ) (power : ℕ)
    → All IsLimb ls
    → divide_power memory ls power ≡ done out
    → (limbs_value ls ≡ shift_up (limbs_value out) power) × All IsLimb out
unfolding divide_power
divide_power-value memory ls out power h done_out =
    let k = power % 9 in
    let shift = power / 9 in
    let behind = drop shift ls in
    let (checks, same) = >>-done _ _ out done_out in
    let (checks, memory_room) = >>-done _ _ tt checks in
    let (checks, mult) =
      >>-done _ (reject_if (not (get_or ls shift 0 % power_of_ten k == 0)) Status.inexact) tt
        checks in
    let (short, low) = >>-done _ (reject_if (any_limb (take shift ls)) Status.inexact) tt checks in
    let none = reject_if-false (any_limb (take shift ls)) Status.inexact low in
    let divides = zero_of _ (reject_if-false _ Status.inexact mult) in
    let (value, rest) = dropped-value ls shift k (omega arith) none divides in
    let (exact, all, below) = divide_limbs-value behind k (omega arith) (drop-All shift ls h) in
    let (q, r) = divide_limbs (power_of_ten k) behind in
    let quotient =
      divided_lem (limbs_value behind) (limbs_value q) r k (omega arith) exact below rest in
    let stored = done_same q out same in
    let whole : shift * 9 + k ≡ power = omega arith in
    (
      value
          ∙ ap (λ (n : ℕ). shift_up n (shift * 9)) quotient
          ∙ sym (shift_up-add (limbs_value q) (shift * 9) k)
          ∙ ap (shift_up (limbs_value q)) whole
          ∙ ap (λ (ms : List ℕ). shift_up (limbs_value ms) power) stored,
      subst (All IsLimb) stored all,
    )
