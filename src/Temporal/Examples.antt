-- ===== src/Temporal/Examples.antt =====
-- Runs of the functions of src/sqli_temporal.c.
use libsqli.Prelude.{ℕ, ◌≤◌, ◌≡◌, refl, true, false, List, [], ◌∷◌, length, arith}
use libsqli.Prelude.Int.{pos}
use libsqli.Status.{done}
use libsqli.Temporal.{
  DatetimeParts, IntervalParts, get_field, datetime_fields, interval_fields, datetime_set_parts,
  interval_set_parts, validate_range, validate_fields, check_fields, check_field, check_day,
  check_fraction, minimum, maximum, fraction_factor, is_zero_interval, all_zero_from, set_field,
}
use libsqli.Date.{month_days, leap_year}
use libsqli.Temporal.Parse.{
  datetime_parse, interval_parse, datetime_parts, interval_parts, parse_fields, read_fields,
  read_field, read_field_of, read_mark, read_value, read_number, read_digits, skip_zero, read_sign,
  greatest_width, least_width, take_field, read_separator, field_separator, end_fields,
}
use libsqli.Temporal.Format.{
  datetime_format, interval_format, complete_timestamp, datetime_format_iso, format_fields,
  write_character, write_fields, write_field, write_number, reversed_digits, field_value,
}
use libsqli.Temporal.Written.{IsU64}
use libsqli.Temporal.Texts.{IsWritten}
use libsqli.Temporal.Length.{format_fields-bounded}
use libsqli.Temporal.Datetimes.{datetime_parse-format}
use libsqli.Temporal.Intervals.{interval_parse-format}
use libsqli.Temporal.Parsed.{datetime_parse-stored}

-- 2024-02-29 23:59:58.125
abbrev leap_moment : DatetimeParts
leap_moment = record {
  range = record { first = 1; last = 7; fractional_digits = 3 };
  year = pos 2024;
  month = 2;
  day = 29;
  hour = 23;
  minute = 59;
  second = 58;
  nanosecond = 125_000_000;
  is_null = false;
}

-- -100 01:30
abbrev long_span : IntervalParts
long_span = record {
  range = record { first = 3; last = 5; fractional_digits = 0 };
  years = 0;
  months = 0;
  days = 100;
  hours = 1;
  minutes = 30;
  seconds = 0;
  nanosecond = 0;
  negative = true;
  is_null = false;
}

-- "-100 01:30"
abbrev span_text : List ℕ
span_text = b'-' ∷ b'1' ∷ b'0' ∷ b'0' ∷ b' ' ∷ b'0' ∷ b'1' ∷ b':' ∷ b'3' ∷ b'0' ∷ []

leap_moment_valid : datetime_set_parts leap_moment ≡ done leap_moment
unfolding datetime_set_parts datetime_fields validate_fields validate_range check_fields check_field
    get_field minimum maximum check_day month_days leap_year check_fraction fraction_factor
leap_moment_valid = refl

long_span_valid : interval_set_parts long_span ≡ done long_span
unfolding interval_set_parts interval_fields is_zero_interval all_zero_from validate_fields
    validate_range check_fields check_field get_field minimum maximum check_day check_fraction
    fraction_factor
long_span_valid = refl

long_span_written : format_fields (interval_fields long_span) true ≡ done span_text
unfolding interval_fields format_fields write_character write_fields write_field write_number
    least_width reversed_digits field_value field_separator get_field
long_span_written = refl

long_span_parsed : interval_parse long_span.range span_text false ≡ done long_span
unfolding interval_parse interval_parts interval_set_parts interval_fields is_zero_interval
    all_zero_from parse_fields read_fields read_field read_field_of read_mark read_value read_number
    read_digits skip_zero read_sign greatest_width least_width take_field read_separator
    field_separator end_fields set_field validate_fields validate_range check_fields check_field
    get_field minimum maximum check_day month_days leap_year check_fraction fraction_factor
long_span_parsed = refl

long_span-IsU64 : IsU64 (interval_fields long_span).integral
unfolding get_field interval_fields
long_span-IsU64 f = ground arith

long_span_checked : validate_fields (interval_fields long_span) true ≡ done tt
unfolding interval_fields validate_fields validate_range check_fields check_field get_field minimum
    maximum check_day check_fraction fraction_factor
long_span_checked = refl

-- The last minute of a day, without its date.
abbrev last_minute : DatetimeParts
last_minute = record {
  range = record { first = 4; last = 5; fractional_digits = 0 };
  year = pos 0;
  month = 0;
  day = 0;
  hour = 23;
  minute = 59;
  second = 0;
  nanosecond = 0;
  is_null = false;
}

abbrev minute_text : List ℕ
minute_text = b'2' ∷ b'3' ∷ b':' ∷ b'5' ∷ b'9' ∷ []

last_minute_parsed : datetime_parse last_minute.range minute_text false ≡ done last_minute
unfolding datetime_parse datetime_parts parse_fields read_fields read_field read_field_of read_mark
    read_value read_number read_digits skip_zero read_sign greatest_width least_width take_field
    read_separator field_separator end_fields set_field validate_fields validate_range check_fields
    check_field get_field minimum maximum check_day month_days leap_year check_fraction
    fraction_factor
last_minute_parsed = refl

datetime_parse-format_example :
    (text : List ℕ) × IsWritten (datetime_format leap_moment) text
    × (complete_timestamp leap_moment.range ≡ true
        → IsWritten (datetime_format_iso leap_moment) text)
    × (datetime_parse leap_moment.range text false ≡ done leap_moment)
datetime_parse-format_example = datetime_parse-format leap_moment leap_moment leap_moment_valid refl

interval_parse-format_example :
    (text : List ℕ) × IsWritten (interval_format long_span) text
    × (interval_parse long_span.range text false ≡ done long_span)
interval_parse-format_example =
    interval_parse-format long_span long_span long_span_valid refl long_span-IsU64

format_fields-bounded_example :
    (text : List ℕ) × (format_fields (interval_fields long_span) true ≡ done text)
    × (length text ≤ 46)
unfolding interval_fields
format_fields-bounded_example =
    format_fields-bounded (interval_fields long_span) true refl long_span_checked long_span-IsU64

datetime_parse-stored_example :
    (datetime_set_parts last_minute ≡ done last_minute)
    × (last_minute.range ≡ record { first = 4; last = 5; fractional_digits = 0 })
    × (last_minute.is_null ≡ false)
datetime_parse-stored_example =
    datetime_parse-stored last_minute.range minute_text last_minute last_minute_parsed
