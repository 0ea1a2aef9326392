-- ===== src/Decimal/Scaling.antt =====
-- The order of decimal numbers and the change of their scale (src/sqli_decimal.c).
use libsqli.Prelude.{
  ℕ, zero, suc, ◌+◌, ◌-◌, ◌*◌, ◌/◌, ◌%◌, Bool, true, false, ◌||◌, not, List, [], ◌∷◌, ◌++◌, ltb,
  leb, ◌==◌, if◌then◌else◌, length, get_or, take, drop, replicate,
}
use libsqli.Prelude.Int.{ℤ, pos, negsuc, pos_part, neg_part, ◌-ℤ◌, ltb_ℤ, same_ℤ}
use libsqli.Prelude.Bytes.{overwrite}
use libsqli.Status.{Status, Result, done, fail, ◌>>=◌, ◌>>◌, reject_if}
use libsqli.Decimal.Number.{
  Number, limb_base, max_digits, power_of_ten, reserve, is_nil, decimal_trim, decimal_digits,
  decimal_digit,
}

-- -1, 0 or 1
unfoldable pub order_of : Bool → ℤ
order_of below = if below then negsuc 0 else pos 1

unfoldable pub negate : ℤ → ℤ
negate z = pos 0 -ℤ z

-- The first of `n` digits from `i` on that differs decides.
unfoldable pub compare_digits : List ℕ → List ℕ → ℕ → ℕ → ℕ → ℕ → ℤ
compare_digits left right left_digits right_digits zero i = pos 0
compare_digits left right left_digits right_digits (suc n) i =
    let rest = compare_digits left right left_digits right_digits n (suc i) in
    let a = decimal_digit left left_digits i in
    let b = decimal_digit right right_digits i in if a == b then rest else order_of (ltb a b)

-- The order of two coefficients other than 0, whatever their signs.
unfoldable pub compare_magnitudes : Number → Number → ℤ
compare_magnitudes left right =
    let left_digits = decimal_digits left.limbs in
    let right_digits = decimal_digits right.limbs in
    let left_exponent = pos left_digits -ℤ left.scale in
    let right_exponent = pos right_digits -ℤ right.scale in
    if not (same_ℤ left_exponent right_exponent)
    then order_of (ltb_ℤ left_exponent right_exponent)
    else compare_digits left.limbs right.limbs left_digits right_digits
        (if ltb right_digits left_digits then left_digits else right_digits) 0

abbrev pub equal_signs : Bool → Bool → Bool
equal_signs true b = b
equal_signs false b = not b

unfoldable pub decimal_compare : Number → Number → Result ℤ
decimal_compare left right =
    if left.is_null || right.is_null
    then fail Status.null_value
    else done (
        if is_nil left.limbs || is_nil right.limbs
        then (if not (is_nil left.limbs)
            then order_of left.negative
            else if not (is_nil right.limbs)
            then order_of (not right.negative)
            else pos 0)
        else if not (equal_signs left.negative right.negative)
        then order_of left.negative
        else if left.negative
        then negate (compare_magnitudes left right)
        else compare_magnitudes left right)

-- The products, and what is carried out of the last one.
unfoldable pub multiply_limbs : ℕ → ℕ → List ℕ → List ℕ × ℕ
multiply_limbs factor carry [] = ([], carry)
multiply_limbs factor carry (l ∷ ls) =
    let product = l * factor + carry in
    let (rest, out) = multiply_limbs factor (product / limb_base) ls in
    (product % limb_base ∷ rest, out)

abbrev pub carried : ℕ → List ℕ
carried carry = if carry == 0 then [] else carry ∷ []

-- decimal_multiply_power: the products are written behind `shift` zeros to cleared memory.
unfoldable pub multiply_power : (ℕ → Bool) → List ℕ → ℕ → Result (List ℕ)
multiply_power memory limbs power =
    let digits = decimal_digits limbs in
    let count = (digits + power + 9 - 1) / 9 in
    let (products, carry) = multiply_limbs (power_of_ten (power % 9)) 0 limbs in
    reject_if (ltb max_digits (power + digits)) Status.limit_exceeded
    >> reserve memory count
    >> done (overwrite (replicate (power / 9) 0 ++ (products ++ carried carry)) (replicate count 0))

-- The quotients, from the most significant limb on, and the last remainder.
unfoldable pub divide_limbs : ℕ → List ℕ → List ℕ × ℕ
divide_limbs divisor [] = ([], 0)
divide_limbs divisor (l ∷ ls) =
    let (rest, remainder) = divide_limbs divisor ls in
    let dividend = remainder * limb_base + l in (dividend / divisor ∷ rest, dividend % divisor)

abbrev pub any_limb : List ℕ → Bool
any_limb [] = false
any_limb (l ∷ ls) = not (l == 0) || any_limb ls

-- decimal_divide_power
unfoldable pub divide_power : (ℕ → Bool) → List ℕ → ℕ → Result (List ℕ)
divide_power memory limbs power =
    let shift = power / 9 in
    let divisor = power_of_ten (power % 9) in
    reject_if (leb (decimal_digits limbs) power) Status.inexact
    >> reject_if (any_limb (take shift limbs)) Status.inexact
    >> reject_if (not (get_or limbs shift 0 % divisor == 0)) Status.inexact
    >> reserve memory (length limbs - shift)
    >> done (divide_limbs divisor (drop shift limbs)).0

unfoldable pub scale_power : (ℕ → Bool) → List ℕ → ℤ → Result (List ℕ)
scale_power memory limbs difference =
    if ltb_ℤ (pos 0) difference
    then multiply_power memory limbs (pos_part difference)
    else divide_power memory limbs (neg_part difference)

unfoldable pub decimal_rescale_exact : (ℕ → Bool) → Number → ℤ → Result Number
decimal_rescale_exact memory v scale =
    if v.is_null
    then fail Status.null_value
    else if same_ℤ v.scale scale
    then done v
    else if is_nil v.limbs
    then done (record v { scale = scale })
    else scale_power memory v.limbs (scale -ℤ v.scale) >>= λ limbs. done (
        decimal_trim
          (record { limbs = limbs; scale = scale; negative = v.negative; is_null = false }))
