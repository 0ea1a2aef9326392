-- ===== src/Temporal/Codec/Encoding.antt =====
-- The encoders of src/sqli_temporal_codec.c: pack and its callers.
use libsqli.Prelude.{
  ℕ, zero, suc, ◌+◌, ◌-◌, ◌*◌, ◌/◌, ◌%◌, Bool, true, false, ◌&&◌, ◌||◌, not, List, [], ◌∷◌, ◌++◌,
  ltb, leb, ◌==◌, if◌then◌else◌, length, drop, replicate,
}
use libsqli.Status.{Status, Result, done, fail, ◌>>=◌, ◌>>◌, reject_if}
use libsqli.Decimal.{radix_complement}
use libsqli.Temporal.{
  Range, Integral, DatetimeParts, IntervalParts, get_field, datetime_fields, interval_fields,
}
use libsqli.Temporal.Codec.{
  WireRange, WireFields, power10, decode_range, group_width, integral_count, all_zero,
}

-- The base-100 groups of a value, `n` of them.
unfoldable pub write_groups : ℕ → ℕ → List ℕ
write_groups zero value = []
write_groups (suc n) value = write_groups n (value / 100) ++ ((value % 100) ∷ [])

-- `n` fields from `f` on.
unfoldable pub pack_fields : WireRange → ℕ → ℕ → Integral → List ℕ
pack_fields w zero f v = []
pack_fields w (suc n) f v =
    write_groups (group_width w f) (get_field f v) ++ pack_fields w n (suc f) v

unfoldable pub pack_groups : WireRange → WireFields → List ℕ
pack_groups w v =
    let digits = w.range.fractional_digits in
    let fraction = v.nanosecond / power10 (9 - digits) in
    pack_fields w (integral_count w.range) w.range.first v.fields
    ++ write_groups w.fraction_pairs (if digits % 2 == 0 then fraction else fraction * 10)

unfoldable pub leading_zeros : List ℕ → ℕ
leading_zeros [] = 0
leading_zeros (g ∷ gs) = let more = leading_zeros gs in if g == 0 then suc more else 0

-- The bytes of a value that is not negative: the groups without the leading zeros, which the exponent
-- counts.
unfoldable pub normal_bytes : WireRange → List ℕ → List ℕ
normal_bytes w groups =
    let first = leading_zeros groups in
    if first == length groups
    then 128 ∷ replicate (length groups) 0
    else (128 + (w.exponent + 64 - first)) ∷ (drop first groups ++ replicate first 0)

-- The bytes of the value with the sign.
unfoldable pub signed_bytes : Bool → Bool → List ℕ → List ℕ
signed_bytes negative is_zero [] = []
signed_bytes negative is_zero (head ∷ groups) =
    if negative && not is_zero then (255 - head) ∷ (radix_complement groups).0 else head ∷ groups

unfoldable pub pack_bytes : WireRange → WireFields → Result (List ℕ)
pack_bytes w v =
    if v.is_null
    then done (replicate w.width 0)
    else if not (w.leading_digits == 0)
        && leb (power10 w.leading_digits) (get_field w.range.first v.fields)
    then fail Status.out_of_range
    else if not (v.nanosecond % power10 (9 - w.range.fractional_digits) == 0)
    then fail Status.inexact
    else done
        (signed_bytes v.negative (all_zero (pack_groups w v)) (normal_bytes w (pack_groups w v)))

-- The bytes that are copied to a buffer of `capacity` bytes.
unfoldable pub pack : WireRange → WireFields → ℕ → Result (List ℕ)
pack w v capacity = do
  bytes ← pack_bytes w v
  if ltb capacity w.width then fail Status.buffer_too_small else done bytes

abbrev pub matching_range : Range → WireRange → Bool → Bool
matching_range r w is_null =
    (is_null && r.first == 0 && r.last == 0) || (r.first == w.range.first && r.last == w.range.last)

abbrev pub datetime_wire : DatetimeParts → WireFields
datetime_wire p = record {
  fields = (datetime_fields p).integral;
  nanosecond = p.nanosecond;
  negative = false;
  is_null = p.is_null;
}

abbrev pub interval_wire : IntervalParts → WireFields
interval_wire p = record {
  fields = (interval_fields p).integral;
  nanosecond = p.nanosecond;
  negative = p.negative;
  is_null = p.is_null;
}

unfoldable pub datetime_encode_wire : DatetimeParts → ℕ → ℕ → Result (List ℕ)
datetime_encode_wire p qualifier capacity = do
  w ← decode_range qualifier false
  reject_if (not (matching_range p.range w p.is_null)) Status.invalid_argument
  pack w (datetime_wire p) capacity

unfoldable pub interval_encode_wire : IntervalParts → ℕ → ℕ → Result (List ℕ)
interval_encode_wire p qualifier capacity = do
  w ← decode_range qualifier true
  reject_if (not (matching_range p.range w p.is_null)) Status.invalid_argument
  pack w (interval_wire p) capacity
