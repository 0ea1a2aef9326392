-- ===== src/Temporal.antt =====
-- Qualified DATETIME and INTERVAL values: the ranges, fields and parts of
-- include/libsqli/sqli_temporal.h and their checks in src/sqli_temporal.c.
-- A field is its number in sqli_temporal_field_t: 0 is unknown, 1 the year, 2 the month, 3 the day,
-- 4 the hour, 5 the minute, 6 the second and 7 the fraction.
pub mod Parse
pub mod Format
pub mod Digits
pub mod Valid
pub mod Written
pub mod Length
pub mod ReadBack
pub mod Copies
pub mod RoundTrip
pub mod Texts
pub mod Datetimes
pub mod Intervals
pub mod Parsed
pub mod Codec
mod Examples
use libsqli.Prelude.{
  ℕ, zero, suc, ◌+◌, ◌-◌, ◌*◌, ◌/◌, ◌%◌, ◌^◌, Bool, true, false, ◌&&◌, ◌||◌, not, List, [], ◌∷◌,
  ltb, leb, ◌==◌, if◌then◌else◌, get_or,
}
use libsqli.Prelude.Int.{ℤ, pos, negsuc}
use libsqli.Status.{Status, Result, done, fail, ◌>>=◌, ◌>>◌, reject_if}
use libsqli.Date.{month_days}

-- sqli_temporal_range_t
pub record Range : Type 0 where
  pub first : ℕ
  pub last : ℕ
  pub fractional_digits : ℕ

-- The array `integral`, whose entries 0 and 7 stay zero.
pub record Integral : Type 0 where
  pub year : ℕ
  pub month : ℕ
  pub day : ℕ
  pub hour : ℕ
  pub minute : ℕ
  pub second : ℕ

-- struct temporal_fields
pub record Fields : Type 0 where
  pub range : Range
  pub integral : Integral
  pub nanosecond : ℕ
  pub negative : Bool
  pub is_null : Bool

abbrev pub no_fields : Integral
no_fields = record { year = 0; month = 0; day = 0; hour = 0; minute = 0; second = 0 }

-- integral[field]
unfoldable pub get_field : ℕ → Integral → ℕ
get_field f v =
    if f == 1
    then v.year
    else if f == 2
    then v.month
    else if f == 3
    then v.day
    else if f == 4
    then v.hour
    else if f == 5
    then v.minute
    else if f == 6
    then v.second
    else 0

unfoldable pub set_field : ℕ → ℕ → Integral → Integral
set_field f n v = record {
  year = if f == 1 then n else v.year;
  month = if f == 2 then n else v.month;
  day = if f == 3 then n else v.day;
  hour = if f == 4 then n else v.hour;
  minute = if f == 5 then n else v.minute;
  second = if f == 6 then n else v.second;
}

abbrev pub fraction_factors : List ℕ
fraction_factors =
    1_000_000_000 ∷ 100_000_000 ∷ 10_000_000 ∷ 1_000_000 ∷ 100_000 ∷ 10_000 ∷ 1_000 ∷ 100 ∷ 10 ∷ 1
    ∷ []

unfoldable pub fraction_factor : ℕ → ℕ
fraction_factor digits = get_or fraction_factors digits 0

unfoldable pub validate_range : Range → Bool → Bool → Result (Unit {0})
validate_range r interval allow_unknown =
    if r.first == 0 && r.last == 0 && r.fractional_digits == 0
    then reject_if (not allow_unknown) Status.invalid_argument
    else if ltb r.first 1 || ltb 7 r.last || ltb r.last r.first
    then fail Status.invalid_argument
    else if interval && leb r.first 2 && ltb 2 r.last
    then fail Status.invalid_argument
    else if r.last == 7
    then reject_if (r.fractional_digits == 0 || ltb 9 r.fractional_digits) Status.invalid_argument
    else reject_if (not (r.fractional_digits == 0)) Status.invalid_argument

-- The largest value of a field that is not the leading field of an interval.
unfoldable pub maximum : Bool → ℕ → ℕ
maximum interval f =
    if f == 1
    then 9999
    else if f == 2
    then if interval then 11 else 12
    else if f == 3
    then 31
    else if f == 4
    then 23
    else 59

unfoldable pub minimum : Bool → ℕ → ℕ
minimum interval f = if not interval && leb f 3 then 1 else 0

-- One turn of the loop of validate_fields.
unfoldable pub check_field : Range → Bool → ℕ → ℕ → Result (Unit {0})
check_field r interval f magnitude =
    if ltb f r.first || ltb r.last f
    then reject_if (not (magnitude == 0)) Status.invalid_argument
    else if interval && f == r.first
    then done tt
    else reject_if (ltb magnitude (minimum interval f) || ltb (maximum interval f) magnitude)
        Status.out_of_range

-- `n` fields from `f` on.
unfoldable pub check_fields : Range → Bool → Integral → ℕ → ℕ → Result (Unit {0})
check_fields r interval v zero f = done tt
check_fields r interval v (suc n) f =
    check_field r interval f (get_field f v) >> check_fields r interval v n (suc f)

-- The day against the month, where both are present.
unfoldable pub check_day : Bool → Integral → Result (Unit {0})
check_day interval v =
    reject_if
      (not interval
        && not (v.month == 0)
        && not (v.day == 0)
        && ltb (month_days v.month v.year) v.day)
      Status.out_of_range

unfoldable pub check_fraction : Range → ℕ → Result (Unit {0})
check_fraction r nanosecond =
    if not (r.last == 7)
    then reject_if (not (nanosecond == 0)) Status.invalid_argument
    else if leb 1_000_000_000 nanosecond
    then fail Status.out_of_range
    else reject_if (not (nanosecond % fraction_factor r.fractional_digits == 0)) Status.inexact

unfoldable pub validate_fields : Fields → Bool → Result (Unit {0})
validate_fields v interval = do
  validate_range v.range interval v.is_null
  if v.is_null
      then done tt
      else (check_fields v.range interval v.integral 6 1
          >> (check_day interval v.integral >> check_fraction v.range v.nanosecond))

-- sqli_datetime_parts_t
pub record DatetimeParts : Type 0 where
  pub range : Range
  pub year : ℤ
  pub month : ℕ
  pub day : ℕ
  pub hour : ℕ
  pub minute : ℕ
  pub second : ℕ
  pub nanosecond : ℕ
  pub is_null : Bool

-- sqli_interval_parts_t
pub record IntervalParts : Type 0 where
  pub range : Range
  pub years : ℕ
  pub months : ℕ
  pub days : ℕ
  pub hours : ℕ
  pub minutes : ℕ
  pub seconds : ℕ
  pub nanosecond : ℕ
  pub negative : Bool
  pub is_null : Bool

abbrev pub unknown_range : Range
unknown_range = record { first = 0; last = 0; fractional_digits = 0 }

abbrev pub null_datetime : Range → DatetimeParts
null_datetime r = record {
  range = r;
  year = pos 0;
  month = 0;
  day = 0;
  hour = 0;
  minute = 0;
  second = 0;
  nanosecond = 0;
  is_null = true;
}

abbrev pub null_interval : Range → IntervalParts
null_interval r = record {
  range = r;
  years = 0;
  months = 0;
  days = 0;
  hours = 0;
  minutes = 0;
  seconds = 0;
  nanosecond = 0;
  negative = false;
  is_null = true;
}

unfoldable pub datetime_create : DatetimeParts
datetime_create = null_datetime unknown_range

unfoldable pub datetime_set_null : DatetimeParts → DatetimeParts
datetime_set_null v = null_datetime v.range

unfoldable pub interval_create : IntervalParts
interval_create = null_interval unknown_range

unfoldable pub interval_set_null : IntervalParts → IntervalParts
interval_set_null v = null_interval v.range

abbrev pub is_negative : ℤ → Bool
is_negative (pos n) = false
is_negative (negsuc n) = true

abbrev pub magnitude_of : ℤ → ℕ
magnitude_of (pos n) = n
magnitude_of (negsuc n) = 0

unfoldable pub datetime_fields : DatetimeParts → Fields
datetime_fields p = record {
  range = p.range;
  integral = record {
    year = magnitude_of p.year;
    month = p.month;
    day = p.day;
    hour = p.hour;
    minute = p.minute;
    second = p.second;
  };
  nanosecond = p.nanosecond;
  negative = false;
  is_null = p.is_null;
}

unfoldable pub interval_fields : IntervalParts → Fields
interval_fields p = record {
  range = p.range;
  integral = record {
    year = p.years;
    month = p.months;
    day = p.days;
    hour = p.hours;
    minute = p.minutes;
    second = p.seconds;
  };
  nanosecond = p.nanosecond;
  negative = p.negative;
  is_null = p.is_null;
}

-- The new value of the object.
unfoldable pub datetime_set_parts : DatetimeParts → Result DatetimeParts
datetime_set_parts p = do
  reject_if (not p.is_null && is_negative p.year) Status.out_of_range
  validate_fields (datetime_fields p) false
  done (if p.is_null then null_datetime p.range else p)

-- for (field = YEAR; field <= SECOND; field++) zero = zero && integral[field] == 0;
unfoldable pub all_zero_from : Integral → ℕ → ℕ → Bool → Bool
all_zero_from v zero f z = z
all_zero_from v (suc n) f z = all_zero_from v n (suc f) (z && get_field f v == 0)

unfoldable pub is_zero_interval : Fields → Bool
is_zero_interval v = all_zero_from v.integral 6 1 (v.nanosecond == 0)

abbrev pub unsign : Bool → IntervalParts → IntervalParts
unsign is_zero p = record p { negative = if is_zero then false else p.negative }

unfoldable pub interval_set_parts : IntervalParts → Result IntervalParts
interval_set_parts p = do
  validate_fields (interval_fields p) true
  done (
      unsign (is_zero_interval (interval_fields p))
        (if p.is_null then null_interval p.range else p))
