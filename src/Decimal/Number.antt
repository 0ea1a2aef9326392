-- ===== src/Decimal/Number.antt =====
-- The decimal object of src/sqli_decimal.c: a coefficient in limbs of nine digits, its scale and its
-- sign. The limbs are those in use, the least significant one first; sqli_decimal_parts_t has the
-- same fields. Whether malloc has room for a number of limbs is a parameter, and a coefficient of up
-- to four limbs is stored in the object itself. A failed operation leaves its object alone.
use libsqli.Prelude.{
  ℕ, zero, suc, ◌+◌, ◌-◌, ◌*◌, ◌/◌, ◌%◌, ◌^◌, Bool, true, false, ◌&&◌, ◌||◌, not, List, [], ◌∷◌,
  ltb, leb, ◌==◌, if◌then◌else◌, length, get_or,
}
use libsqli.Prelude.Int.{ℤ, pos, negsuc, pos_part, neg_part, sub_ℕ, ◌-ℤ◌, ltb_ℤ, leb_ℤ}
use libsqli.Status.{Status, Result, done, fail, ◌>>=◌, ◌>>◌, reject_if}

pub record Number : Type 0 where
  pub limbs : List ℕ
  pub scale : ℤ
  pub negative : Bool
  pub is_null : Bool

abbrev pub limb_base : ℕ
limb_base = 1000000000

-- SQLI_DECIMAL_MAX_DIGITS
abbrev pub max_digits : ℕ
max_digits = 1000000

-- decimal_max_limbs
abbrev pub max_limbs : ℕ
max_limbs = (max_digits + 9 - 1) / 9

abbrev pub powers_of_ten : List ℕ
powers_of_ten = 1 ∷ 10 ∷ 100 ∷ 1000 ∷ 10000 ∷ 100000 ∷ 1000000 ∷ 10000000 ∷ 100000000 ∷ []

abbrev pub power_of_ten : ℕ → ℕ
power_of_ten n = get_or powers_of_ten n 0

-- decimal_reserve of a new temporary
unfoldable pub reserve : (ℕ → Bool) → ℕ → Result (Unit {0})
reserve memory count =
    if ltb max_limbs count
    then fail Status.limit_exceeded
    else if leb count 4 || memory count
    then done tt
    else fail Status.alloc_fail

abbrev pub is_nil : List ℕ → Bool
is_nil [] = true
is_nil (l ∷ ls) = false

-- The limbs without the zeros at the most significant end.
unfoldable pub trim : List ℕ → List ℕ
trim [] = []
trim (l ∷ ls) = let rest = trim ls in if l == 0 && is_nil rest then [] else l ∷ rest

-- decimal_trim
unfoldable pub decimal_trim : Number → Number
decimal_trim v = record v {
  limbs = trim v.limbs;
  negative = v.negative && not (is_nil (trim v.limbs));
}

-- The digits of a limb, at least one: a uint32_t has at most 10.
unfoldable pub limb_digits : ℕ → ℕ → ℕ
limb_digits zero top = 0
limb_digits (suc n) top =
    let rest = limb_digits n (top / 10) in suc (if top / 10 == 0 then 0 else rest)

-- decimal_digits
unfoldable pub decimal_digits : List ℕ → ℕ
decimal_digits limbs =
    if is_nil limbs
    then 1
    else (length limbs - 1) * 9 + limb_digits 10 (get_or limbs (length limbs - 1) 0)

-- The digit `offset` places in front of the last one.
unfoldable pub digit_at : List ℕ → ℕ → ℕ
digit_at limbs offset = get_or limbs (offset / 9) 0 / power_of_ten (offset % 9) % 10

unfoldable pub decimal_digit : List ℕ → ℕ → ℕ → ℕ
decimal_digit limbs digits position =
    if is_nil limbs || leb digits position then 0 else digit_at limbs (digits - position - 1)

-- decimal_init, sqli_decimal_create and sqli_decimal_set_null
abbrev pub null_number : Number
null_number = record { limbs = []; scale = pos 0; negative = false; is_null = true }

abbrev pub any_large : List ℕ → Bool
any_large [] = false
any_large (l ∷ ls) = leb limb_base l || any_large ls

-- What is moved to the destination.
abbrev pub stored_parts : Number → Number
stored_parts parts = record {
  limbs = trim parts.limbs;
  scale = parts.scale;
  negative = not (is_nil (trim parts.limbs)) && parts.negative;
  is_null = false;
}

unfoldable pub decimal_set_parts : (ℕ → Bool) → Number → Result Number
decimal_set_parts memory parts =
    if parts.is_null
    then done null_number
    else reject_if (ltb max_limbs (length parts.limbs)) Status.limit_exceeded
      >> reject_if (any_large parts.limbs) Status.invalid_argument
      >> reserve memory (length (trim parts.limbs))
      >> reject_if (ltb max_digits (decimal_digits (trim parts.limbs))) Status.limit_exceeded
      >> done (stored_parts parts)

-- sqli_decimal_get_parts hands out the fields as they are; sqli_decimal_copy to another object.
unfoldable pub decimal_copy : (ℕ → Bool) → Number → Result Number
decimal_copy memory source = decimal_set_parts memory source

-- A uint64_t fills at most three of the four limbs.
unfoldable pub limbs_of : ℕ → ℕ → List ℕ
limbs_of zero magnitude = []
limbs_of (suc n) magnitude =
    let rest = limbs_of n (magnitude / limb_base) in
    if magnitude == 0 then [] else magnitude % limb_base ∷ rest

abbrev pub is_below_zero : ℤ → Bool
is_below_zero z = ltb_ℤ z (pos 0)

unfoldable pub decimal_set_i64 : (ℕ → Bool) → ℤ → ℤ → Result Number
decimal_set_i64 memory coefficient scale = decimal_set_parts memory (record {
  limbs = limbs_of 4 (pos_part coefficient + neg_part coefficient);
  scale = scale;
  negative = is_below_zero coefficient;
  is_null = false;
})

-- Whether one of `n` digits from `i` on is not 0.
unfoldable pub any_digit : List ℕ → ℕ → ℕ → ℕ → Bool
any_digit limbs digits zero i = false
any_digit limbs digits (suc n) i =
    not (decimal_digit limbs digits i == 0) || any_digit limbs digits n (suc i)

-- The number that `n` digits from `i` on spell behind `magnitude`, where the limit allows it.
unfoldable pub read_magnitude : List ℕ → ℕ → ℕ → ℕ → ℕ → ℕ → Result ℕ
read_magnitude limbs digits limit zero i magnitude = done magnitude
read_magnitude limbs digits limit (suc n) i magnitude =
    let digit = decimal_digit limbs digits i in
    let rest = read_magnitude limbs digits limit n (suc i) (magnitude * 10 + digit) in
    if ltb ((limit - digit) / 10) magnitude then fail Status.out_of_range else rest

abbrev pub max_i64 : ℕ
max_i64 = 2 ^ 63 - 1

-- INT64_MIN has no magnitude in int64_t.
unfoldable pub signed_of : Bool → ℕ → ℤ
signed_of negative magnitude =
    if not negative
    then pos magnitude
    else if magnitude == max_i64 + 1
    then negsuc max_i64
    else sub_ℕ 0 magnitude

unfoldable pub decimal_to_i64 : Number → Result ℤ
decimal_to_i64 v =
    let digits = decimal_digits v.limbs in
    let whole = pos digits -ℤ v.scale in
    if v.is_null
    then fail Status.null_value
    else if is_nil v.limbs
    then done (pos 0)
    else if leb_ℤ whole (pos 0)
    then fail Status.inexact
    else if ltb_ℤ (pos 0) v.scale
        && any_digit v.limbs digits (digits - pos_part whole) (pos_part whole)
    then fail Status.inexact
    else if ltb 19 (pos_part whole)
    then fail Status.out_of_range
    else read_magnitude v.limbs digits (max_i64 + (if v.negative then 1 else 0)) (pos_part whole) 0
        0
      >>= λ magnitude. done (signed_of v.negative magnitude)
