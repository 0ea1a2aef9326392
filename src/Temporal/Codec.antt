-- ===== src/Temporal/Codec.antt =====
-- The wire form of DATETIME and INTERVAL values (src/sqli_temporal_codec.c): base-100 groups behind a
-- byte of sign and exponent. The exponent of C, which may be negative, is kept with its bias.
pub mod Encoding
pub mod Ranges
pub mod Groups
pub mod Bytes
pub mod Fractions
pub mod Packing
pub mod Zeros
pub mod RoundTrip
pub mod Datetimes
pub mod Intervals
mod Examples
use libsqli.Prelude.{
  ℕ, zero, suc, ◌+◌, ◌-◌, ◌*◌, ◌/◌, ◌%◌, Bool, true, false, ◌&&◌, ◌||◌, not, List, [], ◌∷◌, ◌++◌,
  ltb, leb, ◌==◌, if◌then◌else◌, length, set, drop, replicate,
}
use libsqli.Prelude.Int.{pos}
use libsqli.Status.{Status, Result, done, fail, ◌>>=◌, ◌>>◌, reject_if}
use libsqli.Decimal.{radix_complement}
use libsqli.Temporal.{
  Range, Integral, DatetimeParts, IntervalParts, no_fields, get_field, set_field, datetime_fields,
  interval_fields, datetime_set_parts, interval_set_parts,
}

-- struct wire_range
pub record WireRange : Type 0 where
  pub range : Range
  pub leading_digits : ℕ
  pub integral_pairs : ℕ
  pub fraction_pairs : ℕ
  pub width : ℕ
  pub exponent : ℕ

-- struct wire_fields
pub record WireFields : Type 0 where
  pub fields : Integral
  pub nanosecond : ℕ
  pub negative : Bool
  pub is_null : Bool

abbrev pub power10 : ℕ → ℕ
power10 zero = 1
power10 (suc digits) = power10 digits * 10

abbrev pub wire_capacity : ℕ
wire_capacity = 12

abbrev pub range_of : ℕ → ℕ → Range
range_of start end = record {
  first = start / 2 + 1;
  last = if ltb 10 end then 7 else end / 2 + 1;
  fractional_digits = if ltb 10 end then end - 10 else 0;
}

-- The sizes of a range, and the test of the width.
abbrev pub sized : Range → ℕ → ℕ → ℕ → Result WireRange
sized r leading_digits integral_pairs exponent =
    let fraction_pairs = (r.fractional_digits + 1) / 2 in
    if ltb wire_capacity (1 + integral_pairs + fraction_pairs)
    then fail Status.proto_error
    else done (record {
      range = r;
      leading_digits = leading_digits;
      integral_pairs = integral_pairs;
      fraction_pairs = fraction_pairs;
      width = 1 + integral_pairs + fraction_pairs;
      exponent = exponent;
    })

-- A range with integral fields, whose leading one has `leading_digits` digits.
unfoldable pub leading_range : Range → ℕ → ℕ → Bool → ℕ → Result WireRange
leading_range r start end interval leading_digits =
    let integral_end = if ltb 10 end then 10 else end in
    let integral_pairs = (leading_digits + 1) / 2 + (integral_end - start) / 2 in
    if (if interval
      then ltb 9 leading_digits
      else not (leading_digits == (if start == 0 then 4 else 2)))
    then fail Status.proto_error
    else sized r leading_digits integral_pairs (integral_pairs + (10 - integral_end) / 2)

-- The three parts of a qualifier: the digits of the value, and its first and its last field.
unfoldable pub qualifier_range : ℕ → ℕ → ℕ → Bool → Result WireRange
qualifier_range digits start end interval =
    let r = range_of start end in
    if ltb 12 start
      || not (start % 2 == 0)
      || (leb end 10 && (not (end % 2 == 0) || ltb end start))
      || (start == 12 && leb end 10)
    then fail Status.proto_error
    else if interval && leb r.first 2 && ltb 2 r.last
    then fail Status.proto_error
    else if start == 12
    then if not (digits == r.fractional_digits) then fail Status.proto_error else sized r 0 0 0
    else if leb digits (end - start)
    then fail Status.proto_error
    else leading_range r start end interval (digits - (end - start))

unfoldable pub decode_range : ℕ → Bool → Result WireRange
decode_range qualifier interval =
    qualifier_range (qualifier / 256) (qualifier / 16 % 16) (qualifier % 16) interval

unfoldable pub temporal_decode_range : ℕ → Bool → Result Range
temporal_decode_range qualifier interval = decode_range qualifier interval >>= λ r. done r.range

unfoldable pub temporal_wire_size : ℕ → Bool → Result ℕ
temporal_wire_size qualifier interval = decode_range qualifier interval >>= λ r. done r.width

abbrev pub all_zero : List ℕ → Bool
all_zero [] = true
all_zero (b ∷ bs) = b == 0 && all_zero bs

abbrev pub begins_zero : List ℕ → Bool
begins_zero [] = false
begins_zero (g ∷ gs) = g == 0

abbrev pub has_large_group : List ℕ → Bool
has_large_group [] = false
has_large_group (g ∷ gs) = leb 100 g || has_large_group gs

-- The groups from the `i`-th on, each written to its slot of `aligned`: the slot is `place + i` less
-- the exponent. A group that has no slot is zero.
unfoldable pub place_groups : ℕ → ℕ → ℕ → List ℕ → List ℕ → Result (List ℕ)
place_groups place exponent count [] aligned = done aligned
place_groups place exponent count (g ∷ gs) aligned =
    let outside = ltb place exponent || leb count (place - exponent) in
    let rest =
      place_groups (suc place) exponent count gs
        (if outside then aligned else set aligned (place - exponent) g) in
    if outside && not (g == 0) then fail Status.proto_error else rest

-- The number of groups of a field.
abbrev pub group_width : WireRange → ℕ → ℕ
group_width w f = if f == w.range.first then (w.leading_digits + 1) / 2 else 1

-- The value of the first `n` groups behind `value`, and the groups that are left.
unfoldable pub read_groups : ℕ → ℕ → List ℕ → ℕ × List ℕ
read_groups zero value gs = (value, gs)
read_groups (suc n) value [] = read_groups n (value * 100) []
read_groups (suc n) value (g ∷ gs) = read_groups n (value * 100 + g) gs

abbrev pub integral_count : Range → ℕ
integral_count r = suc (if ltb 6 r.last then 6 else r.last) - r.first

-- `n` fields from `f` on.
unfoldable pub unpack_fields : WireRange → ℕ → ℕ → Integral → List ℕ → Integral × List ℕ
unpack_fields w zero f v gs = (v, gs)
unpack_fields w (suc n) f v gs =
    let (magnitude, rest) = read_groups (group_width w f) 0 gs in
    unpack_fields w n (suc f) (set_field f magnitude v) rest

-- The fields of aligned groups.
unfoldable pub unpack_groups : WireRange → Bool → List ℕ → Result WireFields
unpack_groups w negative aligned =
    let (v, gs) = unpack_fields w (integral_count w.range) w.range.first no_fields aligned in
    let fraction = (read_groups w.fraction_pairs 0 gs).0 in
    let digits = w.range.fractional_digits in
    let odd = not (digits % 2 == 0) in
    if odd && not (fraction % 10 == 0)
    then fail Status.proto_error
    else if not (w.leading_digits == 0)
        && leb (power10 w.leading_digits) (get_field w.range.first v)
    then fail Status.proto_error
    else done (record {
      fields = v;
      nanosecond = (if odd then fraction / 10 else fraction) * power10 (9 - digits);
      negative = negative;
      is_null = false;
    })

abbrev pub zero_value : Bool → WireFields
zero_value negative = record {
  fields = no_fields;
  nanosecond = 0;
  negative = negative;
  is_null = false;
}

abbrev pub null_value : WireFields
null_value = record { fields = no_fields; nanosecond = 0; negative = false; is_null = true }

-- The value of a first byte and of the groups behind it, the complement already undone.
unfoldable pub unpack_value : WireRange → ℕ → Bool → List ℕ → Result WireFields
unpack_value w head negative coefficient =
    if all_zero coefficient
    then if head == 128 then done (zero_value negative) else fail Status.proto_error
    else if begins_zero coefficient
    then fail Status.proto_error
    else place_groups (w.exponent + 64) (if negative then 127 - head else head % 128)
        (length coefficient) coefficient (replicate (length coefficient) 0)
      >>= unpack_groups w negative

unfoldable pub unpack : List ℕ → WireRange → Result WireFields
unpack [] w = fail Status.proto_error
unpack (head ∷ groups) w =
    let negative = ltb head 128 in
    if not (suc (length groups) == w.width)
    then fail Status.proto_error
    else if all_zero (head ∷ groups)
    then done null_value
    else if has_large_group groups
    then fail Status.proto_error
    else unpack_value w head negative (if negative then (radix_complement groups).0 else groups)

abbrev pub datetime_of : Range → WireFields → DatetimeParts
datetime_of r v = record {
  range = r;
  year = pos v.fields.year;
  month = v.fields.month;
  day = v.fields.day;
  hour = v.fields.hour;
  minute = v.fields.minute;
  second = v.fields.second;
  nanosecond = v.nanosecond;
  is_null = v.is_null;
}

abbrev pub interval_of : Range → WireFields → IntervalParts
interval_of r v = record {
  range = r;
  years = v.fields.year;
  months = v.fields.month;
  days = v.fields.day;
  hours = v.fields.hour;
  minutes = v.fields.minute;
  seconds = v.fields.second;
  nanosecond = v.nanosecond;
  negative = v.negative;
  is_null = v.is_null;
}

-- A field that would not fit in the parts.
abbrev pub is_wide : Integral → Bool
is_wide v =
    ltb 9999 v.year
    || ltb 255 v.month
    || ltb 255 v.day
    || ltb 255 v.hour
    || ltb 255 v.minute
    || ltb 255 v.second

-- Any failure of a setter is a protocol error.
abbrev pub as_proto_error : {A : Type 0} → Result A → Result A
as_proto_error (done a) = done a
as_proto_error (fail status) = fail Status.proto_error

abbrev pub import_datetime : Range → WireFields → Result DatetimeParts
import_datetime r v =
    if v.negative || is_wide v.fields
    then fail Status.proto_error
    else as_proto_error (datetime_set_parts (datetime_of r v))

unfoldable pub datetime_decode_wire : List ℕ → ℕ → Result DatetimeParts
datetime_decode_wire bytes qualifier = decode_range qualifier false >>= λ w.
    as_proto_error (unpack bytes w) >>= λ v. import_datetime w.range v

unfoldable pub interval_decode_wire : List ℕ → ℕ → Result IntervalParts
interval_decode_wire bytes qualifier = decode_range qualifier true >>= λ w.
    unpack bytes w >>= λ v. as_proto_error (interval_set_parts (interval_of w.range v))
