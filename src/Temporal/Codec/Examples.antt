-- ===== src/Temporal/Codec/Examples.antt =====
-- Runs of the functions of src/sqli_temporal_codec.c.
use libsqli.Prelude.{ℕ, ◌≡◌, refl, true, false, List, [], ◌∷◌, arith}
use libsqli.Prelude.Int.{pos}
use libsqli.Status.{done}
use libsqli.Temporal.{
  DatetimeParts, IntervalParts, datetime_fields, interval_fields, datetime_set_parts,
  interval_set_parts, validate_fields, validate_range, check_fields, check_field, get_field,
  minimum, maximum, check_day, check_fraction, fraction_factor, is_zero_interval, all_zero_from,
}
use libsqli.Temporal.Codec.{
  WireRange, decode_range, qualifier_range, leading_range, datetime_decode_wire,
  interval_decode_wire,
}
use libsqli.Temporal.Codec.Encoding.{
  datetime_encode_wire, interval_encode_wire, pack, pack_bytes, pack_groups, pack_fields,
  write_groups, normal_bytes, leading_zeros, signed_bytes,
}
use libsqli.Decimal.{radix_complement}
use libsqli.Temporal.Codec.Ranges.{IsSized, decode_range-IsSized}
use libsqli.Temporal.Codec.RoundTrip.{IsLeading}
use libsqli.Temporal.Codec.Datetimes.{datetime_decode-encode_wire}
use libsqli.Temporal.Codec.Intervals.{interval_decode-encode_wire}

-- The last minute of a day, as HOUR TO MINUTE.
abbrev a_minute : DatetimeParts
a_minute = record {
  range = record { first = 4; last = 5; fractional_digits = 0 };
  year = pos 0;
  month = 0;
  day = 0;
  hour = 23;
  minute = 59;
  second = 0;
  nanosecond = 0;
  is_null = false;
}

-- -100 01:30, as DAY(3) TO MINUTE.
abbrev a_span : IntervalParts
a_span = record {
  range = record { first = 3; last = 5; fractional_digits = 0 };
  years = 0;
  months = 0;
  days = 100;
  hours = 1;
  minutes = 30;
  seconds = 0;
  nanosecond = 0;
  negative = true;
  is_null = false;
}

abbrev hour_to_minute : ℕ
hour_to_minute = 0x0468

abbrev day_to_minute : ℕ
day_to_minute = 0x0748

abbrev minute_range : WireRange
minute_range = record {
  range = a_minute.range;
  leading_digits = 2;
  integral_pairs = 2;
  fraction_pairs = 0;
  width = 3;
  exponent = 3;
}

abbrev span_range : WireRange
span_range = record {
  range = a_span.range;
  leading_digits = 3;
  integral_pairs = 4;
  fraction_pairs = 0;
  width = 5;
  exponent = 5;
}

minute_range_decoded : decode_range hour_to_minute false ≡ done minute_range
unfolding decode_range qualifier_range leading_range
minute_range_decoded = refl

span_range_decoded : decode_range day_to_minute true ≡ done span_range
unfolding decode_range qualifier_range leading_range
span_range_decoded = refl

a_minute_valid : datetime_set_parts a_minute ≡ done a_minute
unfolding datetime_set_parts datetime_fields validate_fields validate_range check_fields check_field
    get_field minimum maximum check_day check_fraction fraction_factor
a_minute_valid = refl

a_span_valid : interval_set_parts a_span ≡ done a_span
unfolding interval_set_parts interval_fields is_zero_interval all_zero_from validate_fields
    validate_range check_fields check_field get_field minimum maximum check_day check_fraction
    fraction_factor
a_span_valid = refl

a_span-IsLeading : IsLeading span_range (interval_fields a_span).integral
unfolding get_field interval_fields
a_span-IsLeading = refl

-- The sign and the exponent 5 + 64, then the complement of 01 00 01 30.
a_span_bytes : interval_encode_wire a_span day_to_minute 12 ≡ done (0x3a ∷ 98 ∷ 99 ∷ 98 ∷ 70 ∷ [])
unfolding interval_encode_wire decode_range qualifier_range leading_range interval_fields pack
    pack_bytes pack_groups pack_fields write_groups get_field normal_bytes leading_zeros
    signed_bytes radix_complement
a_span_bytes = refl

decode_range-IsSized_example : IsSized minute_range false
decode_range-IsSized_example =
    decode_range-IsSized hour_to_minute false minute_range minute_range_decoded

datetime_decode-encode_wire_example :
    (bytes : List ℕ) × (datetime_encode_wire a_minute hour_to_minute 12 ≡ done bytes)
    × (datetime_decode_wire bytes hour_to_minute ≡ done a_minute)
datetime_decode-encode_wire_example =
    datetime_decode-encode_wire a_minute a_minute hour_to_minute minute_range 12 a_minute_valid refl
      minute_range_decoded refl (omega arith)

interval_decode-encode_wire_example :
    (bytes : List ℕ) × (interval_encode_wire a_span day_to_minute 12 ≡ done bytes)
    × (interval_decode_wire bytes day_to_minute ≡ done a_span)
interval_decode-encode_wire_example =
    interval_decode-encode_wire a_span a_span day_to_minute span_range 12 a_span_valid refl
      span_range_decoded refl a_span-IsLeading (omega arith)
