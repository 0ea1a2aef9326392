-- ===== src/Decimal/Codec.antt =====
-- The DECIMAL wire codec of src/sqli_decimal_codec.c: a sign and exponent byte, and base-100 groups,
-- in the complement for a negative number.
-- coefficient_digits and coefficient_digit of that file are decimal_digits and digit_at here: they
-- count and read the digits of a coefficient other than 0 in the same way.
use libsqli.Prelude.{
  ℕ, zero, suc, ◌+◌, ◌-◌, ◌*◌, ◌/◌, ◌%◌, Bool, true, false, ◌&&◌, ◌||◌, not, List, [], ◌∷◌, ltb,
  leb, ◌==◌, if◌then◌else◌, length, get_or, set, replicate,
}
use libsqli.Prelude.Int.{ℤ, pos, negsuc, pos_part, sub_ℕ, ◌-ℤ◌, ◌+ℤ◌, ltb_ℤ, leb_ℤ}
use libsqli.Status.{Status, Result, done, ◌>>=◌, ◌>>◌, reject_if}
use libsqli.Decimal.{WireType, floating_scale, decode_type, radix_complement}
use libsqli.Decimal.Number.{
  Number, limb_base, is_nil, decimal_digits, digit_at, null_number, decimal_set_parts,
  decimal_set_i64,
}

-- The zeros at the end of a limb other than 0, which has at most 10 digits.
unfoldable pub limb_zeros : ℕ → ℕ → ℕ
limb_zeros zero limb = 0
limb_zeros (suc n) limb =
    let rest = limb_zeros n (limb / 10) in if limb % 10 == 0 then suc rest else 0

unfoldable pub trailing_zeros : List ℕ → ℕ
trailing_zeros [] = 0
trailing_zeros (limb ∷ limbs) =
    let rest = trailing_zeros limbs in if limb == 0 then 9 + rest else limb_zeros 10 limb

-- The `significant` digits from the most significant one on, put in the groups of `encoded` from
-- position `padding` on: two to a group, behind the first byte.
unfoldable pub put_digits : List ℕ → ℕ → ℕ → ℕ → ℕ → List ℕ → List ℕ
put_digits limbs digits padding zero i encoded = encoded
put_digits limbs digits padding (suc n) i encoded =
    let position = i + padding in
    let digit = digit_at limbs (digits - 1 - i) in
    let slot = 1 + position / 2 in
    put_digits limbs digits padding n (suc i) (
      set encoded slot
        ((get_or encoded slot 0 + (if position % 2 == 0 then digit * 10 else digit)) % 256))

-- C division by 2, towards 0.
abbrev half : ℤ → ℤ
half (pos n) = pos (n / 2)
half (negsuc n) = sub_ℕ 0 (suc n / 2)

unfoldable pub pair_exponent : ℤ → ℤ
pair_exponent integral = if leb_ℤ (pos 0) integral then half (integral +ℤ pos 1) else half integral

unfoldable pub check_precision : WireType → ℤ → ℕ → ℕ → Result (Unit {0})
check_precision t scale digits zeros =
    let reduction = scale -ℤ pos t.scale in
    if t.scale == floating_scale
    then reject_if (ltb t.precision (digits - zeros)) Status.out_of_range
    else reject_if (ltb_ℤ (pos zeros) reduction) Status.inexact
      >> reject_if (ltb_ℤ (pos t.precision) (pos digits -ℤ reduction)) Status.out_of_range

-- The first byte is exclusive-ored with 0xff and the groups are complemented.
unfoldable pub negative_bytes : List ℕ → List ℕ
negative_bytes [] = []
negative_bytes (first ∷ groups) = (255 - first) ∷ (radix_complement groups).0

-- The bytes of a coefficient other than 0, in the bytes that the descriptor gives.
unfoldable pub encode_coefficient : Number → WireType → Result (List ℕ)
encode_coefficient v t =
    let digits = decimal_digits v.limbs in
    let zeros = trailing_zeros v.limbs in
    let significant = digits - zeros in
    let integral = pos digits -ℤ v.scale in
    let exponent = pair_exponent integral in
    let padding = pos_part (exponent +ℤ exponent -ℤ integral) in
    let groups = (padding + significant + 1) / 2 in
    let first = 128 + pos_part (exponent +ℤ pos 64) in
    let encoded =
      set (put_digits v.limbs digits padding significant 0 (replicate t.width 0)) 0 first in
    check_precision t v.scale digits zeros
    >> reject_if (ltb_ℤ exponent (negsuc 63) || ltb_ℤ (pos 63) exponent) Status.out_of_range
    >> reject_if (ltb 16 groups || ltb (t.width - 1) groups) Status.out_of_range
    >> done (if v.negative then negative_bytes encoded else encoded)

unfoldable pub encode_number : Number → WireType → Result (List ℕ)
encode_number v t =
    if v.is_null
    then done (replicate t.width 0)
    else if is_nil v.limbs
    then done (set (replicate t.width 0) 0 128)
    else encode_coefficient v t

-- The bytes that are copied to the buffer, as many as the length that is handed out.
unfoldable pub decimal_encode_wire : Number → ℕ → ℕ → Result (List ℕ)
decimal_encode_wire v descriptor capacity = decode_type descriptor >>= λ t.
    (encode_number v t >>= λ encoded.
    reject_if (ltb capacity t.width) Status.buffer_too_small >> done encoded)

-- append_digit: the limbs times 10, with the digit as the carry in; what is carried out of the last
-- limb is lost.
unfoldable pub append_digit : List ℕ → ℕ → List ℕ
append_digit [] carry = []
append_digit (limb ∷ limbs) carry =
    let next = limb * 10 + carry in next % limb_base ∷ append_digit limbs (next / limb_base)

abbrev pub any_large_group : List ℕ → Bool
any_large_group [] = false
any_large_group (g ∷ gs) = leb 100 g || any_large_group gs

-- The groups without the zeros at the end.
unfoldable pub trim_groups : List ℕ → List ℕ
trim_groups [] = []
trim_groups (g ∷ gs) = let rest = trim_groups gs in if g == 0 && is_nil rest then [] else g ∷ rest

-- `n` digits of the groups from digit `i` on, appended to the limbs.
unfoldable pub append_groups : List ℕ → ℕ → ℕ → List ℕ → List ℕ
append_groups groups zero i limbs = limbs
append_groups groups (suc n) i limbs =
    let group = get_or groups (i / 2) 0 in
    append_groups groups n (suc i)
      (append_digit limbs (if i % 2 == 0 then group / 10 else group % 10))

unfoldable pub append_zeros : ℕ → List ℕ → List ℕ
append_zeros zero limbs = limbs
append_zeros (suc n) limbs = append_zeros n (append_digit limbs 0)

abbrev pub zero_scale : WireType → ℤ
zero_scale t = if t.scale == floating_scale then pos 0 else pos t.scale

-- The scale of the value, and the zeros behind its digits that this scale takes.
unfoldable pub decoded_scale : WireType → ℕ → ℤ → Result (ℤ × ℕ)
decoded_scale t digits scale =
    let extra = pos t.scale -ℤ scale in
    if t.scale == floating_scale
    then done (scale, 0)
    else reject_if (ltb_ℤ extra (pos 0) || ltb (t.precision - digits) (pos_part extra))
        Status.proto_error
      >> done (pos t.scale, pos_part extra)

-- The parts of a number of `digits` digits from digit `start` on, with its scale and the zeros that
-- are appended.
abbrev pub decoded_parts : List ℕ → ℕ → ℕ → Bool → ℤ × ℕ → Number
decoded_parts groups digits start negative scale = record {
  limbs = append_zeros scale.1 (append_groups groups digits start (0 ∷ 0 ∷ 0 ∷ 0 ∷ []));
  scale = scale.0;
  negative = negative;
  is_null = false;
}

abbrev pub drop_last_zero : List ℕ → ℕ
drop_last_zero groups = if get_or groups (length groups - 1) 0 % 10 == 0 then 1 else 0

abbrev pub first_digit : List ℕ → ℕ
first_digit groups = if ltb (get_or groups 0 0) 10 then 1 else 0

abbrev pub group_digits : List ℕ → ℕ
group_digits groups = length groups * 2 - drop_last_zero groups - first_digit groups

-- The checks of the groups; `biased` is the exponent in the first byte.
unfoldable pub group_scale : WireType → ℕ → List ℕ → Result (ℤ × ℕ)
group_scale t biased groups =
    let exponent = pos biased -ℤ pos 64 in
    reject_if (ltb 16 (length groups) || get_or groups 0 0 == 0) Status.proto_error
    >> reject_if (ltb t.precision (group_digits groups)) Status.proto_error
    >> decoded_scale t (group_digits groups)
        (pos (length groups * 2) -ℤ (exponent +ℤ exponent) -ℤ pos (drop_last_zero groups))

-- Groups of which the last one is not 0.
unfoldable pub decode_groups : (ℕ → Bool) → WireType → Bool → ℕ → List ℕ → Result Number
decode_groups memory t negative biased groups = group_scale t biased groups >>= λ scale.
    decimal_set_parts memory
      (decoded_parts groups (group_digits groups) (first_digit groups) negative scale)

-- Without groups the first byte is that of zero.
unfoldable pub decode_trimmed : (ℕ → Bool) → WireType → ℕ → List ℕ → Result Number
decode_trimmed memory t first trimmed =
    if is_nil trimmed
    then reject_if (not (first == 128)) Status.proto_error
      >> decimal_set_i64 memory (pos 0) (zero_scale t)
    else decode_groups memory t (ltb first 128) (if ltb first 128 then 127 - first else first - 128)
        trimmed

-- decode_coefficient: the bit 128 of the first byte says that the number is not negative.
unfoldable pub decode_coefficient : (ℕ → Bool) → WireType → ℕ → List ℕ → Result Number
decode_coefficient memory t first groups =
    reject_if (any_large_group groups) Status.proto_error
    >> decode_trimmed memory t first
        (trim_groups (if ltb first 128 then (radix_complement groups).0 else groups))

abbrev pub all_zero_bytes : List ℕ → Bool
all_zero_bytes [] = true
all_zero_bytes (b ∷ bs) = b == 0 && all_zero_bytes bs

-- decode_coefficient takes the first byte and the groups behind it.
unfoldable pub decode_number : (ℕ → Bool) → WireType → List ℕ → Result Number
decode_number memory t [] = done null_number
decode_number memory t (first ∷ groups) =
    if first == 0 && all_zero_bytes groups
    then done null_number
    else decode_coefficient memory t first groups

unfoldable pub decimal_decode_wire : (ℕ → Bool) → List ℕ → ℕ → Result Number
decimal_decode_wire memory bytes descriptor = decode_type descriptor >>= λ t.
    (reject_if (not (length bytes == t.width)) Status.proto_error >> decode_number memory t bytes)
