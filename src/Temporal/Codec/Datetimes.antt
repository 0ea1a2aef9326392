-- ===== src/Temporal/Codec/Datetimes.antt =====
-- The wire form of DATETIME values (src/sqli_temporal_codec.c).
use mathlib.Core.Path.{subst}
use libsqli.Prelude.{
  ℕ, ◌≤◌, ◌≡◌, refl, sym, ap, ◌∙◌, Bool, true, false, ◌&&◌, not, List, ltb, leb, ◌==◌,
  if◌then◌else◌, inl, inr, arith, Bool-cases,
}
use libsqli.Prelude.Int.{ℤ, pos, negsuc}
use libsqli.Status.{Status, Result, done, ◌>>=◌, ◌>>◌, reject_if}
use libsqli.Temporal.{
  Range, Fields, DatetimeParts, get_field, maximum, datetime_fields, datetime_set_parts,
  magnitude_of, is_negative,
}
use libsqli.Temporal.Valid.{IsValid, IsRange, validate_fields-IsValid}
use libsqli.Temporal.Datetimes.{datetime-bounds, datetime-small, datetime_set_parts-stored}
use libsqli.Temporal.Codec.{
  WireRange, WireFields, power10, decode_range, all_zero, unpack, datetime_of, is_wide,
  as_proto_error, import_datetime, datetime_decode_wire,
}
use libsqli.Temporal.Codec.Encoding.{
  pack_groups, normal_bytes, signed_bytes, pack_bytes, pack, matching_range, datetime_wire,
  datetime_encode_wire,
}
use libsqli.Temporal.Codec.Ranges.{IsSized, decode_range-IsSized}
use libsqli.Temporal.Codec.Zeros.{power_positive}
use libsqli.Temporal.Codec.Packing.{wire_of}
use libsqli.Temporal.Codec.RoundTrip.{IsLeading, later_maximum, unpack-pack_bytes}

-- Where the leading field has the digits of a calendar field, its value fits them.
leading_fits :
    (digits first n : ℕ)
    → 1 ≤ first
    → first ≤ 6
    → digits ≡ (if first == 1 then 4 else 2)
    → n ≤ maximum false first
    → (not (digits == 0) && leb (power10 digits) n) ≡ false
unfolding maximum
leading_fits digits first n a b e h = elim (Bool-cases (first == 1)) [
  | inl one ↦ let four : digits ≡ 4 = e ∙ rw one refl in rw four (ground (arith, one, h))
  | inr more ↦
      let two : digits ≡ 2 = e ∙ rw more refl in
      rw two (ground (arith, h, later_maximum false first (ground (arith, a, more))))
]

no_leading : (digits n : ℕ) → n ≡ 0 → (not (digits == 0) && leb (power10 digits) n) ≡ false
no_leading digits n e = ground (arith, e, power_positive digits)

datetime-IsLeading :
    (w : WireRange) (v : Fields)
    → IsSized w false
    → v.range ≡ w.range
    → IsValid v false
    → IsLeading w v.integral
unfolding get_field
datetime-IsLeading w v z same h =
    let r = subst (λ (x : Range). IsRange x false) same h.in_range in
    elim (Bool-cases (w.range.first == 7)) [
      | inl e ↦ no_leading w.leading_digits (get_field w.range.first v.integral) (ground (arith, e))
      | inr e ↦
          let inner : w.range.first ≤ 6 = ground (arith, e, r.ordered, r.ends) in
          leading_fits w.leading_digits w.range.first (get_field w.range.first v.integral) r.begins
            inner (z.calendar refl e) (datetime-bounds v w.range.first h r.begins inner)
    ]

year_lem : (y : ℤ) → is_negative y ≡ false → pos (magnitude_of y) ≡ y
year_lem (pos n) h = refl
year_lem (negsuc n) h = cc

same_datetime :
    (p : DatetimeParts) (r : Range)
    → p.range ≡ r
    → p.is_null ≡ false
    → is_negative p.year ≡ false
    → datetime_of r (wire_of (datetime_fields p)) ≡ p
unfolding datetime_fields
same_datetime p r same present sign =
    λ i. record p { range = sym same i; year = year_lem p.year sign i; is_null = sym present i }

narrow : (v : Fields) → IsValid v false → is_wide v.integral ≡ false
unfolding get_field maximum
narrow v h =
    let a = datetime-small v 1 h in
    let b = datetime-bounds v 2 h (omega arith) (omega arith) in
    let c = datetime-bounds v 3 h (omega arith) (omega arith) in
    let d = datetime-bounds v 4 h (omega arith) (omega arith) in
    let e = datetime-bounds v 5 h (omega arith) (omega arith) in
    let f = datetime-bounds v 6 h (omega arith) (omega arith) in ground (arith, a, b, c, d, e, f)

pub pack_lem :
    (w : WireRange) (v : WireFields) (bytes : List ℕ) (capacity : ℕ)
    → pack_bytes w v ≡ done bytes
    → w.width ≤ capacity
    → pack w v capacity ≡ done bytes
unfolding pack
pack_lem w v bytes capacity h k =
    let room : ltb capacity w.width ≡ false = ground (arith, k) in rw (h, room) refl

pub matching_lem :
    (r : Range) (w : WireRange) (b : Bool) → r ≡ w.range → matching_range r w b ≡ true
matching_lem r w b h = ground (arith, ap (λ (x : Range). x.first) h, ap (λ (x : Range). x.last) h)

-- A DATETIME that sqli_datetime_set_parts accepted and that is not NULL, encoded for a qualifier of its
-- range to a buffer with room for its width, gives bytes that decode to the same value.
pub datetime_decode-encode_wire :
    (parts p : DatetimeParts) (qualifier : ℕ) (w : WireRange) (capacity : ℕ)
    → datetime_set_parts parts ≡ done p
    → p.is_null ≡ false
    → decode_range qualifier false ≡ done w
    → p.range ≡ w.range
    → w.width ≤ capacity
    → (bytes : List ℕ) × (datetime_encode_wire p qualifier capacity ≡ done bytes)
      × (datetime_decode_wire bytes qualifier ≡ done p)
unfolding datetime_encode_wire datetime_decode_wire datetime_fields
datetime_decode-encode_wire parts p qualifier w capacity h present ranged same room =
    let (given, sign, checked) = datetime_set_parts-stored parts p h present in
    let v = datetime_fields p in
    let valid = validate_fields-IsValid v false present checked in
    let z = decode_range-IsSized qualifier false w ranged in
    let (packed, unpacked) =
      unpack-pack_bytes w v false z same valid (datetime-IsLeading w v z same valid) (λ _. refl) in
    let bytes =
      signed_bytes false (all_zero (pack_groups w (wire_of v)))
        (normal_bytes w (pack_groups w (wire_of v))) in
    let again : datetime_set_parts p ≡ done p =
      subst (λ (q : DatetimeParts). datetime_set_parts q ≡ done p) given h in
    let wire : datetime_wire p ≡ wire_of v = λ i. record (wire_of v) { is_null = present i } in
    (
      bytes,
      ap
            (λ (m : Result WireRange). m >>= λ x.
              reject_if (not (matching_range p.range x p.is_null)) Status.invalid_argument
              >> pack x (datetime_wire p) capacity)
            ranged
          ∙ rw (matching_lem p.range w p.is_null same) (
              ap (λ (x : WireFields). pack w x capacity) wire
              ∙ pack_lem w (wire_of v) bytes capacity packed room),
      ap
            (λ (m : Result WireRange).
              m >>= λ x. as_proto_error (unpack bytes x) >>= λ u. import_datetime x.range u)
            ranged
          ∙ ap (λ (m : Result WireFields). as_proto_error m >>= λ u. import_datetime w.range u)
              unpacked
          ∙ rw (narrow v valid) (
              ap (λ (q : DatetimeParts). as_proto_error (datetime_set_parts q))
                (same_datetime p w.range same present sign)
              ∙ ap as_proto_error again),
    )
