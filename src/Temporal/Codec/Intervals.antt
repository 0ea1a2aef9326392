-- ===== src/Temporal/Codec/Intervals.antt =====
-- The wire form of INTERVAL values (src/sqli_temporal_codec.c).
use libsqli.Prelude.{ℕ, ◌≤◌, ◌≡◌, refl, sym, ap, ◌∙◌, Bool, true, false, not, List}
use libsqli.Status.{Status, Result, done, ◌>>=◌, ◌>>◌, reject_if}
use libsqli.Temporal.{
  Range, Fields, IntervalParts, no_fields, get_field, all_zero_from, is_zero_interval,
  interval_fields, interval_set_parts, unsign,
}
use libsqli.Temporal.Valid.{validate_fields-IsValid}
use libsqli.Temporal.Intervals.{interval_set_parts_again, interval_set_parts-stored}
use libsqli.Temporal.Codec.{
  WireRange, WireFields, decode_range, all_zero, zero_value, unpack, interval_of, as_proto_error,
  interval_decode_wire,
}
use libsqli.Temporal.Codec.Encoding.{
  pack_groups, normal_bytes, signed_bytes, pack, matching_range, interval_wire,
  interval_encode_wire,
}
use libsqli.Temporal.Codec.Ranges.{decode_range-IsSized}
use libsqli.Temporal.Codec.Packing.{wire_of}
use libsqli.Temporal.Codec.RoundTrip.{IsLeading, groups-zero, unpack-pack_bytes}
use libsqli.Temporal.Codec.Datetimes.{pack_lem, matching_lem}

is_zero_lem : (v : Fields) → v.integral ≡ no_fields → v.nanosecond ≡ 0 → is_zero_interval v ≡ true
unfolding is_zero_interval all_zero_from get_field
is_zero_lem v a b = rw (a, b) refl

-- A zero that is stored has no sign.
zero_unsigned :
    (p : IntervalParts)
    → interval_set_parts p ≡ done p
    → p.is_null ≡ false
    → is_zero_interval (interval_fields p) ≡ true
    → p.negative ≡ false
zero_unsigned p again present zero_value =
    let ((same, _), _) = interval_set_parts-stored p p again present in
    ap (λ (q : IntervalParts). q.negative) same
    ∙ ap (λ (b : Bool). (unsign b p).negative) zero_value

same_interval :
    (p : IntervalParts) (r : Range)
    → p.range ≡ r
    → p.is_null ≡ false
    → interval_of r (wire_of (interval_fields p)) ≡ p
unfolding interval_fields
same_interval p r same present = λ i. record p { range = sym same i; is_null = sym present i }

done_lem : {A : Type 0} {a b : A} → done a ≡ done b → a ≡ b
done_lem h = cc

-- An INTERVAL that sqli_interval_set_parts accepted and that is not NULL, whose leading field has no more
-- digits than the qualifier of its range allows, encoded to a buffer with room for its width, gives
-- bytes that decode to the same value, sign included.
pub interval_decode-encode_wire :
    (parts p : IntervalParts) (qualifier : ℕ) (w : WireRange) (capacity : ℕ)
    → interval_set_parts parts ≡ done p
    → p.is_null ≡ false
    → decode_range qualifier true ≡ done w
    → p.range ≡ w.range
    → IsLeading w (interval_fields p).integral
    → w.width ≤ capacity
    → (bytes : List ℕ) × (interval_encode_wire p qualifier capacity ≡ done bytes)
      × (interval_decode_wire bytes qualifier ≡ done p)
unfolding interval_encode_wire interval_decode_wire interval_fields
interval_decode-encode_wire parts p qualifier w capacity h present ranged same leading room =
    let (again, checked) = interval_set_parts_again parts p h present in
    let v = interval_fields p in
    let valid = validate_fields-IsValid v true present checked in
    let z = decode_range-IsSized qualifier true w ranged in
    let unsigned : all_zero (pack_groups w (wire_of v)) ≡ true → v.negative ≡ false = λ e.
      let blank : zero_value v.negative ≡ wire_of v =
        done_lem (groups-zero w v true z same valid leading e) in
      zero_unsigned p again present (
        is_zero_lem v (ap (λ (u : WireFields). u.fields) (sym blank))
          (ap (λ (u : WireFields). u.nanosecond) (sym blank))) in
    let (packed, unpacked) = unpack-pack_bytes w v true z same valid leading unsigned in
    let groups = pack_groups w (wire_of v) in
    let bytes = signed_bytes v.negative (all_zero groups) (normal_bytes w groups) in
    let wire : interval_wire p ≡ wire_of v = λ i. record (wire_of v) { is_null = present i } in
    (
      bytes,
      ap
            (λ (m : Result WireRange). m >>= λ x.
              reject_if (not (matching_range p.range x p.is_null)) Status.invalid_argument
              >> pack x (interval_wire p) capacity)
            ranged
          ∙ rw (matching_lem p.range w p.is_null same) (
              ap (λ (x : WireFields). pack w x capacity) wire
              ∙ pack_lem w (wire_of v) bytes capacity packed room),
      ap
            (λ (m : Result WireRange). m >>= λ x.
              unpack bytes x >>= λ u. as_proto_error (interval_set_parts (interval_of x.range u)))
            ranged
          ∙ ap
              (λ (m : Result WireFields).
                m >>= λ u. as_proto_error (interval_set_parts (interval_of w.range u)))
              unpacked
          ∙ ap (λ (q : IntervalParts). as_proto_error (interval_set_parts q))
              (same_interval p w.range same present)
          ∙ ap as_proto_error again,
    )
