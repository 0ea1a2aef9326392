-- ===== src/Temporal/Parse.antt =====
-- The parsers of temporal text in src/sqli_temporal.c. A character is its byte, and a reader is the
-- text that is left.
use libsqli.Prelude.{
  ℕ, zero, suc, ◌+◌, ◌-◌, ◌*◌, ◌/◌, ◌%◌, ◌^◌, Bool, true, false, ◌&&◌, ◌||◌, not, List, [], ◌∷◌,
  ltb, leb, ◌==◌, if◌then◌else◌, length, get_or,
}
use libsqli.Prelude.Int.{pos}
use libsqli.Status.{Status, Result, done, fail, ◌>>=◌, ◌>>◌}
use libsqli.Date.{Date, null_date}
use libsqli.Temporal.{
  Range, Fields, DatetimeParts, IntervalParts, no_fields, set_field, fraction_factor,
  validate_range, validate_fields, datetime_set_null, null_datetime, null_interval,
  interval_set_parts,
}

abbrev pub is_digit : ℕ → Bool
is_digit c = leb b'0' c && leb c b'9'

abbrev pub max_u64 : ℕ
max_u64 = 2 ^ 64 - 1

abbrev pub max_text : ℕ
max_text = 64

-- The loop of read_number behind `count` digits of the value `value`: the digits and the value it
-- stops at, and the text that is left.
unfoldable pub read_digits : ℕ → ℕ → ℕ → List ℕ → Result (ℕ × ℕ × List ℕ)
read_digits maximum count value [] = done (count, value, [])
read_digits maximum count value (c ∷ cs) =
    let digit = c - b'0' in
    let rest = read_digits maximum (suc count) (value * 10 + digit) cs in
    if not (is_digit c)
    then done (count, value, c ∷ cs)
    else if ltb ((max_u64 - digit) / 10) value
    then fail Status.out_of_range
    else if count == maximum
    then fail Status.invalid_argument
    else rest

abbrev pub end_number : ℕ → ℕ × ℕ × List ℕ → Result (ℕ × List ℕ)
end_number minimum r = if ltb r.0 minimum then fail Status.invalid_argument else done (r.1, r.2)

unfoldable pub read_number : ℕ → ℕ → List ℕ → Result (ℕ × List ℕ)
read_number minimum maximum text = read_digits maximum 0 0 text >>= end_number minimum

unfoldable pub field_separator : ℕ → Bool → ℕ
field_separator f iso =
    if f == 2 || f == 3
    then b'-'
    else if f == 4
    then if iso then b'T' else b' '
    else if f == 5 || f == 6
    then b':'
    else b'.'

-- The sign that an interval may begin with.
unfoldable pub read_sign : Bool → List ℕ → Bool × List ℕ
read_sign interval [] = (false, [])
read_sign interval (c ∷ cs) =
    if interval && (c == b'+' || c == b'-') then (c == b'-', cs) else (false, c ∷ cs)

-- The zero that may stand before the point of a text that is all fraction.
unfoldable pub skip_zero : Bool → List ℕ → List ℕ
skip_zero only_fraction [] = []
skip_zero only_fraction (c ∷ cs) = if only_fraction && c == b'0' then cs else c ∷ cs

unfoldable pub read_separator : ℕ → Bool → List ℕ → Result (List ℕ)
read_separator f interval [] = fail Status.invalid_argument
read_separator f interval (c ∷ cs) =
    if c == field_separator f false || (f == 4 && not interval && c == b'T')
    then done cs
    else fail Status.invalid_argument

-- The least and the greatest number of digits of a field.
unfoldable pub least_width : Range → Bool → ℕ → ℕ
least_width r interval f =
    if f == 7
    then r.fractional_digits
    else if interval && f == r.first
    then 1
    else if f == 1 && not interval
    then 4
    else 2

unfoldable pub greatest_width : Range → Bool → ℕ → ℕ
greatest_width r interval f =
    if f == 7
    then r.fractional_digits
    else if interval && f == r.first
    then 20
    else if f == 1 && not interval
    then 4
    else 2

-- The value of a field that was read.
unfoldable pub take_field : ℕ → ℕ → Fields → Result Fields
take_field f magnitude v =
    if f == 7
    then if leb 1_000_000_000 magnitude
      then fail Status.out_of_range
      else done (record v { nanosecond = magnitude * fraction_factor v.range.fractional_digits })
    else done (record v { integral = set_field f magnitude v.integral })

unfoldable pub read_mark : Range → ℕ → Bool → List ℕ → Result (List ℕ)
read_mark r f interval text =
    if not (f == r.first) || f == 7 then read_separator f interval text else done text

abbrev pub end_field : ℕ → Fields → ℕ × List ℕ → Result (Fields × List ℕ)
end_field f v number = take_field f number.0 v >>= λ w. done (w, number.1)

unfoldable pub read_value : Range → ℕ → Bool → Fields → List ℕ → Result (Fields × List ℕ)
read_value r f interval v text =
    read_number (least_width r interval f) (greatest_width r interval f) text >>= end_field f v

-- One turn of the loop of parse_fields, for the range `r`.
unfoldable pub read_field_of : Range → ℕ → Bool → Fields → List ℕ → Result (Fields × List ℕ)
read_field_of r f interval v text =
    read_mark r f interval (skip_zero (f == 7 && f == r.first) text) >>= read_value r f interval v

unfoldable pub read_field : ℕ → Bool → Fields → List ℕ → Result (Fields × List ℕ)
read_field f interval v text = read_field_of v.range f interval v text

-- `n` fields from `f` on.
unfoldable pub read_fields : ℕ → ℕ → Bool → Fields → List ℕ → Result (Fields × List ℕ)
read_fields zero f interval v text = done (v, text)
read_fields (suc n) f interval v text =
    read_field f interval v text >>= λ r. read_fields n (suc f) interval r.0 r.1

abbrev pub field_count : Range → ℕ
field_count r = suc r.last - r.first

abbrev pub is_empty : List ℕ → Bool
is_empty [] = true
is_empty (c ∷ cs) = false

-- The end of parse_fields: all the text was read, and the fields are valid.
unfoldable pub end_fields : Bool → Fields × List ℕ → Result Fields
end_fields interval r =
    if not (is_empty r.1)
    then fail Status.invalid_argument
    else validate_fields r.0 interval >> done r.0

unfoldable pub parse_fields : Fields → List ℕ → Bool → Result Fields
parse_fields v text interval = elim (validate_range v.range interval false) [
  | fail status ↦ fail Status.invalid_argument
  | done u ↦
      if is_empty text
      then fail Status.invalid_argument
      else if ltb max_text (length text)
      then fail Status.limit_exceeded
      else (let (sign, rest) = read_sign interval text in
          let signed : Fields = record v { negative = if interval then sign else v.negative } in
          read_fields (field_count v.range) v.range.first interval signed rest
          >>= end_fields interval)
]

abbrev pub blank_fields : Range → Fields
blank_fields r = record {
  range = r;
  integral = no_fields;
  nanosecond = 0;
  negative = false;
  is_null = false;
}

-- datetime_parts: the casts keep the low bits of a field.
unfoldable pub datetime_parts : Fields → DatetimeParts
datetime_parts v = record {
  range = v.range;
  year = pos (v.integral.year % 2 ^ 32);
  month = v.integral.month % 2 ^ 8;
  day = v.integral.day % 2 ^ 8;
  hour = v.integral.hour % 2 ^ 8;
  minute = v.integral.minute % 2 ^ 8;
  second = v.integral.second % 2 ^ 8;
  nanosecond = v.nanosecond;
  is_null = v.is_null;
}

unfoldable pub interval_parts : Fields → IntervalParts
interval_parts v = record {
  range = v.range;
  years = v.integral.year;
  months = v.integral.month;
  days = v.integral.day;
  hours = v.integral.hour;
  minutes = v.integral.minute;
  seconds = v.integral.second;
  nanosecond = v.nanosecond;
  negative = v.negative;
  is_null = false;
}

-- sqli_datetime_parse with a range: the new value of the object.
unfoldable pub datetime_parse : Range → List ℕ → Bool → Result DatetimeParts
datetime_parse r text is_null = do
  validate_range r false is_null
  if is_null
      then done (null_datetime r)
      else (parse_fields (blank_fields r) text false >>= λ v. done (datetime_parts v))

unfoldable pub interval_parse : Range → List ℕ → Bool → Result IntervalParts
interval_parse r text is_null = do
  validate_range r true is_null
  if is_null
      then done (null_interval r)
      else (parse_fields (blank_fields r) text true >>= λ v. interval_set_parts (interval_parts v))

abbrev pub date_range : Range
date_range = record { first = 1; last = 3; fractional_digits = 0 }

unfoldable pub date_parse : List ℕ → Bool → Result Date
date_parse text is_null =
    if is_null
    then done null_date
    else if not (length text == 10)
    then fail Status.invalid_argument
    else parse_fields (blank_fields date_range) text false >>= λ v. done (record {
      year = pos (v.integral.year % 2 ^ 32);
      month = v.integral.month % 2 ^ 8;
      day = v.integral.day % 2 ^ 8;
      is_null = false;
    })

-- The range of an ISO text of `n` characters whose twentieth is `mark`.
unfoldable pub iso_range : ℕ → ℕ → Result Range
iso_range n mark =
    if leb n 19
    then done (record { first = 1; last = 6; fractional_digits = 0 })
    else if leb n 20 || ltb 9 (n - 20) || not (mark == b'.')
    then fail Status.invalid_argument
    else done (record { first = 1; last = 7; fractional_digits = n - 20 })

unfoldable pub datetime_parse_iso : DatetimeParts → List ℕ → Bool → Result DatetimeParts
datetime_parse_iso v text is_null =
    if is_null
    then done (datetime_set_null v)
    else if ltb (length text) 19
    then fail Status.invalid_argument
    else if ltb max_text (length text)
    then fail Status.limit_exceeded
    else if not (get_or text 10 0 == b'T')
    then fail Status.invalid_argument
    else iso_range (length text) (get_or text 19 0) >>= λ r. datetime_parse r text false
