-- ===== src/Decimal/Text.antt =====
-- sqli_decimal_parse and sqli_decimal_format of src/sqli_decimal.c. A character is its byte.
use libsqli.Prelude.{
  ℕ, zero, suc, ◌+◌, ◌-◌, ◌*◌, ◌/◌, ◌%◌, ◌^◌, Bool, true, false, ◌&&◌, ◌||◌, not, List, [], ◌∷◌,
  ◌++◌, Option, none, some, ltb, leb, ◌==◌, if◌then◌else◌, length, get_or, set, replicate,
}
use libsqli.Prelude.Int.{ℤ, pos, negsuc, pos_part, neg_part, sub_ℕ, ◌-ℤ◌, ltb_ℤ}
use libsqli.Status.{Status, Result, done, fail, ◌>>=◌, ◌>>◌, reject_if}
use libsqli.Temporal.Format.{reversed_digits, reverse, Answer, Formatted}
use libsqli.Decimal.Number.{
  Number, max_digits, max_i64, power_of_ten, reserve, is_nil, is_below_zero, decimal_trim,
  decimal_digits, decimal_digit, null_number,
}

abbrev pub ascii_digit : ℕ → Bool
ascii_digit ch = leb b'0' ch && leb ch b'9'

-- SQLI_DECIMAL_MAX_TEXT
abbrev pub max_decimal_text : ℕ
max_decimal_text = max_digits + 32

-- The sign in front of a number, and the text behind it.
unfoldable pub leading_sign : List ℕ → Bool × List ℕ
leading_sign [] = (false, [])
leading_sign (c ∷ cs) = if c == b'+' || c == b'-' then (c == b'-', cs) else (false, c ∷ cs)

unfoldable pub read_exponent : ℕ → List ℕ → Result ℕ
read_exponent exponent [] = done exponent
read_exponent exponent (c ∷ cs) =
    let digit = c - b'0' in
    let rest = read_exponent (exponent * 10 + digit) cs in
    if not (ascii_digit c)
    then fail Status.invalid_argument
    else if ltb ((max_i64 - digit) / 10) exponent
    then fail Status.out_of_range
    else rest

-- parse_exponent of the text behind the mark
unfoldable pub parse_exponent : List ℕ → Result ℤ
parse_exponent text =
    let (negative, digits) = leading_sign text in
    reject_if (is_nil digits) Status.invalid_argument
    >> (read_exponent 0 digits >>= λ exponent.
        done (if negative then sub_ℕ 0 exponent else pos exponent))

-- The text up to the mark of an exponent, and the text from there on.
unfoldable pub split_mantissa : List ℕ → List ℕ × List ℕ
split_mantissa [] = ([], [])
split_mantissa (c ∷ cs) =
    let (mantissa, rest) = split_mantissa cs in
    if c == b'e' || c == b'E' then ([], c ∷ cs) else (c ∷ mantissa, rest)

pub record Counts : Type 0 where
  pub digits : ℕ
  pub fractional : ℕ
  pub significant : ℕ
  pub point : Bool

abbrev pub no_counts : Counts
no_counts = record { digits = 0; fractional = 0; significant = 0; point = false }

abbrev pub count_digit : Counts → ℕ → Counts
count_digit n ch = record n {
  digits = suc n.digits;
  significant =
      if not (ch == b'0') || not (n.significant == 0) then suc n.significant else n.significant;
  fractional = if n.point then suc n.fractional else n.fractional;
}

unfoldable pub scan_mantissa : Counts → List ℕ → Result Counts
scan_mantissa n [] = done n
scan_mantissa n (ch ∷ text) =
    let at_point = scan_mantissa (record n { point = true }) text in
    let at_digit = scan_mantissa (count_digit n ch) text in
    if ch == b'.' && not n.point
    then at_point
    else if ascii_digit ch
    then at_digit
    else fail Status.invalid_argument

-- One digit added to the limb that holds its place.
unfoldable pub add_digit : List ℕ → ℕ → ℕ → List ℕ
add_digit limbs offset digit =
    set limbs (offset / 9) (get_or limbs (offset / 9) 0 + digit * power_of_ten (offset % 9))

-- The mantissa is read backwards, from its last character on.
unfoldable pub place_digits : List ℕ → ℕ → ℕ → List ℕ → List ℕ
place_digits [] significant offset limbs = limbs
place_digits (ch ∷ text) significant offset limbs =
    let at_point = place_digits text significant offset limbs in
    let at_digit =
      place_digits text significant (suc offset) (add_digit limbs offset (ch - b'0')) in
    if not (ltb offset significant) then limbs else if ch == b'.' then at_point else at_digit

unfoldable pub mantissa_limbs : List ℕ → ℕ → ℕ → List ℕ
mantissa_limbs mantissa significant count =
    place_digits (reverse mantissa) significant 0 (replicate count 0)

-- INT32_MIN <= scale <= INT32_MAX
abbrev pub is_i32 : ℤ → Bool
is_i32 z = leb (pos_part z) (2 ^ 31 - 1) && leb (neg_part z) (2 ^ 31)

abbrev pub exponent_of : List ℕ → Result ℤ
exponent_of [] = done (pos 0)
exponent_of (mark ∷ text) = parse_exponent text

-- The scale is fractional - exponent.
unfoldable pub build_number : (ℕ → Bool) → Bool → List ℕ → Counts → ℤ → Result Number
build_number memory negative mantissa counts exponent =
    let count = (counts.significant + 9 - 1) / 9 in
    let scale = pos counts.fractional -ℤ exponent in
    reject_if (not (is_i32 scale)) Status.out_of_range
    >> reserve memory count
    >> done (
        decimal_trim (record {
          limbs = mantissa_limbs mantissa counts.significant count;
          scale = scale;
          negative = negative;
          is_null = false;
        }))

unfoldable pub parse_number : (ℕ → Bool) → List ℕ → Result Number
parse_number memory text =
    let (negative, unsigned) = leading_sign text in
    let (mantissa, rest) = split_mantissa unsigned in
    scan_mantissa no_counts mantissa >>= λ counts.
    (reject_if (counts.digits == 0) Status.invalid_argument
      >> reject_if (ltb max_digits counts.significant) Status.limit_exceeded
      >> (exponent_of rest >>= build_number memory negative mantissa counts))

unfoldable pub decimal_parse : (ℕ → Bool) → List ℕ → Bool → Result Number
decimal_parse memory text is_null =
    if is_null
    then done null_number
    else reject_if (is_nil text) Status.invalid_argument
      >> reject_if (ltb max_decimal_text (length text)) Status.limit_exceeded
      >> parse_number memory text

-- exponent_digits: the digits of the magnitude, the last one first.
unfoldable pub exponent_digits : ℤ → List ℕ
exponent_digits exponent = reversed_digits 20 (pos_part exponent + neg_part exponent)

-- The characters of `n` digits from position `i` on.
unfoldable pub digits_text : List ℕ → ℕ → ℕ → ℕ → List ℕ
digits_text limbs digits zero i = []
digits_text limbs digits (suc n) i =
    (b'0' + decimal_digit limbs digits i) ∷ digits_text limbs digits n (suc i)

-- The same with a point in front of position `point`.
unfoldable pub pointed_text : List ℕ → ℕ → ℕ → ℕ → ℕ → List ℕ
pointed_text limbs digits point zero i = []
pointed_text limbs digits point (suc n) i =
    let rest = (b'0' + decimal_digit limbs digits i) ∷ pointed_text limbs digits point n (suc i) in
    if i == point then b'.' ∷ rest else rest

abbrev pub is_scientific : Number → ℤ → Bool
is_scientific v exponent = is_below_zero v.scale || ltb_ℤ exponent (negsuc 5)

unfoldable pub exponent_text : ℤ → List ℕ
exponent_text exponent =
    b'E' ∷ (if is_below_zero exponent then b'-' else b'+') ∷ reverse (exponent_digits exponent)

-- What is written behind the sign.
unfoldable pub unsigned_text : Number → List ℕ
unsigned_text v =
    let digits = decimal_digits v.limbs in
    let exponent = pos digits -ℤ pos 1 -ℤ v.scale in
    let scale = pos_part v.scale in
    if is_scientific v exponent
    then pointed_text v.limbs digits 1 digits 0 ++ exponent_text exponent
    else if not (scale == 0) && leb digits scale
    then b'0' ∷ b'.' ∷ (replicate (scale - digits) b'0' ++ digits_text v.limbs digits digits 0)
    else if scale == 0
    then digits_text v.limbs digits digits 0
    else pointed_text v.limbs digits (digits - scale) digits 0

unfoldable pub decimal_text : Number → List ℕ
decimal_text v = if v.negative then b'-' ∷ unsigned_text v else unsigned_text v

-- The number of characters that is announced before they are written.
unfoldable pub text_length : Number → ℕ
text_length v =
    let digits = decimal_digits v.limbs in
    let exponent = pos digits -ℤ pos 1 -ℤ v.scale in
    let scale = pos_part v.scale in
    (if v.negative then 1 else 0)
    + (if is_scientific v exponent
        then digits + (if ltb 1 digits then 1 else 0) + 2 + length (exponent_digits exponent)
        else if scale == 0
        then digits
        else if ltb scale digits
        then digits + 1
        else 2 + scale)

-- A buffer of `capacity` bytes, or none. What is copied is the text with its end mark.
unfoldable pub decimal_format : Number → Option ℕ → Answer
decimal_format v buffer =
    let answer : List ℕ → Formatted =
      λ copied. record { is_null = false; required = text_length v + 1; copied = copied } in
    if v.is_null
    then (Status.ok, some (record { is_null = true; required = 0; copied = [] }))
    else elim buffer [
      | none ↦ (Status.ok, some (answer []))
      | some capacity ↦
          if ltb capacity (text_length v + 1)
          then (Status.buffer_too_small, some (answer []))
          else (Status.ok, some (answer (decimal_text v ++ (0 ∷ []))))
    ]
