-- ===== src/Decimal/Divisible.antt =====
-- When sqli_decimal_rescale_exact succeeds (src/sqli_decimal.c).
use libsqli.Prelude.{
  ℕ, zero, suc, ◌+◌, ◌-◌, ◌*◌, ◌/◌, ◌%◌, ◌≤◌, ◌<◌, ◌≡◌, refl, sym, ap, ◌∙◌, Bool, true, false, List,
  [], ◌∷◌, ltb, leb, length, get_or, take, drop, inl, inr, arith, Bool-cases,
}
use libsqli.Prelude.Int.{ℤ, pos, pos_part, neg_part, ◌-ℤ◌, ltb_ℤ, same_ℤ}
use libsqli.Prelude.Bytes.{All}
use libsqli.Status.{Status, Result, done, ◌>>◌, reject_if}
use libsqli.Decimal.Number.{
  Number, limb_base, max_digits, max_limbs, power_of_ten, reserve, is_nil, decimal_trim,
  decimal_digits,
}
use libsqli.Decimal.Values.{limbs_value, IsLimb, tail_of, nine_cases, decimal_digits-IsSize}
use libsqli.Decimal.Sizes.{tail_of-later}
use libsqli.Decimal.Stored.{IsNormal}
use libsqli.Decimal.Mantissa.{shift_up, shift_up-add}
use libsqli.Decimal.Powers.{tail_of-shift}
use libsqli.Decimal.Scaling.{
  any_limb, divide_limbs, multiply_power, divide_power, scale_power, decimal_rescale_exact,
}
use libsqli.Decimal.Products.{decimal_digits-long}
use libsqli.Decimal.Rescale.{
  le-shift_up, trimmed_value, no_positive, shifted-positive, IsSameNumber,
  decimal_rescale_exact-same,
}
use libsqli.Decimal.ReadBack.{reserve_all}

dropped_limbs :
    (ls : List ℕ) (shift x : ℕ)
    → All IsLimb ls
    → limbs_value ls ≡ shift_up x (shift * 9)
    → (any_limb (take shift ls) ≡ false) × (limbs_value (drop shift ls) ≡ x)
dropped_limbs ls zero x h e = let none : 0 * 9 ≡ 0 = omega arith in (refl, e ∙ ap (shift_up x) none)
dropped_limbs [] (suc shift) x h e = (refl, omega (arith, e, le-shift_up x (suc shift * 9)))
dropped_limbs (l ∷ ls) (suc shift) x (h, hs) e =
    let next : suc shift * 9 ≡ 9 + shift * 9 = omega arith in
    let whole = e ∙ ap (shift_up x) next ∙ shift_up-add x 9 (shift * 9) in
    let first : l ≡ 0 = omega (arith, h, whole) in
    let (none, rest) = dropped_limbs ls shift x hs (omega (arith, h, whole)) in
    (ground (arith, first, none), rest)

first_divides : (l v x k : ℕ) → k < 9 → l + limb_base * v ≡ shift_up x k → l % power_of_ten k ≡ 0
first_divides l v x =
    nine_cases (λ k. l + limb_base * v ≡ shift_up x k → l % power_of_ten k ≡ 0)
      (λ e. omega (arith, e)) (λ e. omega (arith, e)) (λ e. omega (arith, e))
      (λ e. omega (arith, e)) (λ e. omega (arith, e)) (λ e. omega (arith, e))
      (λ e. omega (arith, e)) (λ e. omega (arith, e)) (λ e. omega (arith, e))

head_divides :
    (ls : List ℕ) (shift x k : ℕ)
    → k < 9
    → limbs_value (drop shift ls) ≡ shift_up x k
    → get_or ls shift 0 % power_of_ten k ≡ 0
head_divides [] shift x k h e =
    nine_cases (λ k. 0 % power_of_ten k ≡ 0) refl refl refl refl refl refl refl refl refl k h
head_divides (l ∷ ls) zero x k h e = first_divides l (limbs_value ls) x k h e
head_divides (l ∷ ls) (suc shift) x k h e = head_divides ls shift x k h e

limbs_few : (ls : List ℕ) → decimal_digits ls ≤ max_digits → length ls ≤ max_limbs
limbs_few [] h = omega arith
limbs_few (l ∷ ls) h = omega (arith, h, decimal_digits-long l ls)

digits_left :
    (ls : List ℕ) (x n power : ℕ)
    → tail_of (limbs_value ls) n ≡ 0
    → 0 < x
    → limbs_value ls ≡ shift_up x power
    → leb n power ≡ false
digits_left ls x n power z p e = elim (Bool-cases (leb n power)) [
  | inr out ↦ out
  | inl l ↦
      let none = tail_of-later (limbs_value ls) n power z (ground (arith, l)) in
      let whole : power + 0 ≡ power = omega arith in
      let left =
        ap (λ (m : ℕ). tail_of m power) e
        ∙ ap (tail_of (shift_up x power)) (sym whole)
        ∙ tail_of-shift x power 0 in
      absurd (omega (arith, none, left, p))
]

-- A coefficient that is a multiple of the power is divided.
divide_power-succeeds :
    (memory : ℕ → Bool) (v : Number) (x power : ℕ)
    → ((k : ℕ) → memory k ≡ true)
    → IsNormal v
    → 0 < x
    → limbs_value v.limbs ≡ shift_up x power
    → (out : List ℕ) × (divide_power memory v.limbs power ≡ done out)
unfolding divide_power
divide_power-succeeds memory v x power room h p e =
    let k = power % 9 in
    let shift = power / 9 in
    let (q, exact, size, more) = decimal_digits-IsSize v.limbs h.limbs h.trimmed in
    let whole : power ≡ shift * 9 + k = omega arith in
    let parts = e ∙ ap (shift_up x) whole ∙ shift_up-add x (shift * 9) k in
    let short = digits_left v.limbs x (decimal_digits v.limbs) power size p e in
    let (none, dropped) = dropped_limbs v.limbs shift (shift_up x k) h.limbs parts in
    let divides = head_divides v.limbs shift x k (omega arith) dropped in
    let left = length v.limbs - shift in
    let reserved =
      reserve_all memory left (room left) (omega (arith, limbs_few v.limbs h.bounded)) in
    (
      (divide_limbs (power_of_ten k) (drop shift v.limbs)).0,
      rw (short, none, divides, reserved) refl,
    )

>>-succeeds :
    {B : Type 0} (m : Result (Unit {0})) (b : B)
    → m ≡ done tt
    → (out : B) × ((m >> done b) ≡ done out)
>>-succeeds m b e = (b, ap (λ r. r >> done b) e)

multiply_power-succeeds :
    (memory : ℕ → Bool) (ls : List ℕ) (power : ℕ)
    → ((k : ℕ) → memory k ≡ true)
    → power + decimal_digits ls ≤ max_digits
    → (out : List ℕ) × (multiply_power memory ls power ≡ done out)
unfolding multiply_power
multiply_power-succeeds memory ls power room h =
    let n = (decimal_digits ls + power + 9 - 1) / 9 in
    let few : ltb max_digits (power + decimal_digits ls) ≡ false = ground (arith, h) in
    let reserved = reserve_all memory n (room n) (omega (arith, h)) in
    let refused = reject_if (ltb max_digits (power + decimal_digits ls)) Status.limit_exceeded in
    let passed : (refused >> reserve memory n) ≡ done tt = rw (few, reserved) refl in
    >>-succeeds (refused >> reserve memory n) _ passed

scale_power-succeeds :
    (memory : ℕ → Bool) (v : Number) (x : ℕ) (difference : ℤ)
    → ((k : ℕ) → memory k ≡ true)
    → IsNormal v
    → is_nil v.limbs ≡ false
    → pos_part difference + decimal_digits v.limbs ≤ max_digits
    → shift_up (limbs_value v.limbs) (pos_part difference) ≡ shift_up x (neg_part difference)
    → (out : List ℕ) × (scale_power memory v.limbs difference ≡ done out)
unfolding scale_power
scale_power-succeeds memory v x difference room h full few e =
    elim (Bool-cases (ltb_ℤ (pos 0) difference)) [
      | inl up ↦ rw up (multiply_power-succeeds memory v.limbs (pos_part difference) room few)
      | inr down ↦
          let none = no_positive difference down in
          let some = trimmed_value v.limbs h.trimmed full in
          let positive =
            shifted-positive (limbs_value v.limbs) x (pos_part difference) (neg_part difference)
              some e in
          rw down (
            divide_power-succeeds memory v x (neg_part difference) room h positive
              (sym (ap (shift_up (limbs_value v.limbs)) none) ∙ e))
    ]

decimal_rescale_exact-succeeds :
    (memory : ℕ → Bool) (v : Number) (scale : ℤ) (x : ℕ)
    → ((k : ℕ) → memory k ≡ true)
    → IsNormal v
    → v.is_null ≡ false
    → pos_part (scale -ℤ v.scale) + decimal_digits v.limbs ≤ max_digits
    → shift_up (limbs_value v.limbs) (pos_part (scale -ℤ v.scale))
      ≡ shift_up x (neg_part (scale -ℤ v.scale))
    → (w : Number) × (decimal_rescale_exact memory v scale ≡ done w)
unfolding decimal_rescale_exact
decimal_rescale_exact-succeeds memory v scale x room h live few e =
    elim (Bool-cases (same_ℤ v.scale scale)) [
      | inl same ↦ (v, simp (live, same) refl)
      | inr other ↦ elim (Bool-cases (is_nil v.limbs)) [
        | inl empty ↦ (record v { scale = scale; is_null = false }, simp (live, other, empty) refl)
        | inr full ↦
            let (out, scaled) =
              scale_power-succeeds memory v x (scale -ℤ v.scale) room h full few e in
            (
              decimal_trim
                  (record { limbs = out; scale = scale; negative = v.negative; is_null = false }),
              simp (live, other, full, scaled) refl,
            )
      ]
    ]

-- Where malloc succeeds, some coefficient stands for a normal number other than NULL at the new
-- scale, and the digits of the result are not too many, sqli_decimal_rescale_exact succeeds, with a
-- normal number that is the same number with the new scale and the same sign.
pub decimal_rescale_exact-total :
    (memory : ℕ → Bool) (v : Number) (scale : ℤ) (x : ℕ)
    → ((k : ℕ) → memory k ≡ true)
    → IsNormal v
    → v.is_null ≡ false
    → pos_part (scale -ℤ v.scale) + decimal_digits v.limbs ≤ max_digits
    → shift_up (limbs_value v.limbs) (pos_part (scale -ℤ v.scale))
      ≡ shift_up x (neg_part (scale -ℤ v.scale))
    → (w : Number) × (decimal_rescale_exact memory v scale ≡ done w)
      × IsNormal w
      × (w.scale ≡ scale)
      × (w.negative ≡ v.negative)
      × IsSameNumber v w
decimal_rescale_exact-total memory v scale x room h live few e =
    let (w, rescaled) = decimal_rescale_exact-succeeds memory v scale x room h live few e in
    let (normal, some, scaled, sign, same) =
      decimal_rescale_exact-same memory v w scale h live rescaled in
    (w, rescaled, normal, scaled, sign, same)
