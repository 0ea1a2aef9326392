-- ===== src/Temporal/Codec/RoundTrip.antt =====
-- The wire form of a value that can be stored, read back (src/sqli_temporal_codec.c).
use mathlib.Core.Path.{subst}
use libsqli.Prelude.{
  ℕ, zero, suc, ◌+◌, ◌-◌, ◌/◌, ◌≤◌, ◌<◌, ◌≡◌, refl, sym, ap, ◌∙◌, Bool, true, false, ◌&&◌, not, leb,
  ◌==◌, ==_iff, if◌then◌else◌, length, length-append, inl, inr, arith, Bool-cases,
}
use libsqli.Prelude.Bytes.{All, All-append}
use libsqli.Status.{done}
use libsqli.Decimal.Complement.{IsGroup}
use libsqli.Temporal.{Range, Integral, Fields, get_field, maximum, check_fraction}
use libsqli.Temporal.Valid.{IsValid, IsRange, checked-bounds}
use libsqli.Temporal.Codec.{
  WireRange, WireFields, power10, group_width, integral_count, all_zero, zero_value, unpack,
}
use libsqli.Temporal.Codec.Encoding.{
  write_groups, pack_fields, pack_groups, normal_bytes, signed_bytes, pack_bytes,
}
use libsqli.Temporal.Codec.Ranges.{IsSized}
use libsqli.Temporal.Codec.Groups.{power100, length-write_groups, write_groups-All}
use libsqli.Temporal.Codec.Fractions.{fraction_value, nanosecond_exact}
use libsqli.Temporal.Codec.Bytes.{unpack-signed_bytes}
use libsqli.Temporal.Codec.Zeros.{unpack_groups-zero}
use libsqli.Temporal.Codec.Packing.{IsGrouped, wire_of, length-pack_fields, unpack-pack_groups}

pack_fields-All : (w : WireRange) (n f : ℕ) (v : Integral) → All IsGroup (pack_fields w n f v)
unfolding pack_fields
pack_fields-All w zero f v = tt
pack_fields-All w (suc n) f v =
    All-append IsGroup (write_groups (group_width w f) (get_field f v)) (pack_fields w n (suc f) v)
      (write_groups-All (group_width w f) (get_field f v)) (pack_fields-All w n (suc f) v)

pack_groups-All : (w : WireRange) (v : WireFields) → All IsGroup (pack_groups w v)
unfolding pack_groups
pack_groups-All w v =
    All-append IsGroup (pack_fields w (integral_count w.range) w.range.first v.fields) _
      (pack_fields-All w (integral_count w.range) w.range.first v.fields)
      (write_groups-All w.fraction_pairs _)

no_groups : (w : WireRange) (v : Integral) → length (pack_fields w 0 w.range.first v) ≡ 0
unfolding pack_fields
no_groups w v = refl

-- The integral groups are as many as decode_range counts.
length-integral :
    (w : WireRange) (n : ℕ) (v : Integral)
    → length (pack_fields w (suc n) w.range.first v) ≡ (w.leading_digits + 1) / 2 + n
unfolding pack_fields
length-integral w n v =
    let first = w.range.first in
    let same : (first == first) ≡ true = ground arith in
    let width : group_width w first ≡ (w.leading_digits + 1) / 2 = rw same refl in
    omega (
      arith,
      length-append (write_groups (group_width w first) (get_field first v))
          (pack_fields w n (suc first) v),
      length-write_groups (group_width w first) (get_field first v),
      length-pack_fields w n (suc first) v (omega arith),
      width,
    )

integral_size :
    (w : WireRange) (interval : Bool) (v : Integral)
    → IsRange w.range interval
    → length (pack_fields w (integral_count w.range) w.range.first v) ≡ (
        if w.range.first == 7 then 0 else (w.leading_digits + 1) / 2 + (integral_count w.range - 1))
integral_size w interval v r = elim (Bool-cases (w.range.first == 7)) [
  | inl e ↦
      let none : integral_count w.range ≡ 0 = ground (arith, e, r.ordered, r.ends) in
      ap (λ (n : ℕ). length (pack_fields w n w.range.first v)) none ∙ rw e (no_groups w v)
  | inr e ↦
      let count : integral_count w.range ≡ suc (integral_count w.range - 1) =
        ground (arith, e, r.ordered, r.ends, r.begins) in
      ap (λ (n : ℕ). length (pack_fields w n w.range.first v)) count
      ∙ rw e (length-integral w (integral_count w.range - 1) v)
]

length-pack_groups :
    (w : WireRange) (interval : Bool) (v : WireFields)
    → IsSized w interval
    → IsRange w.range interval
    → w.width ≡ suc (length (pack_groups w v))
unfolding pack_groups
length-pack_groups w interval v z r =
    let fields = pack_fields w (integral_count w.range) w.range.first v.fields in
    let x = fraction_value w.range.fractional_digits v.nanosecond in
    omega (
      arith,
      length-append fields (write_groups w.fraction_pairs x),
      length-write_groups w.fraction_pairs x,
      integral_size w interval v.fields r,
      z.integral,
      z.width,
    )

power_fits : (d n : ℕ) → d ≤ 9 → n < power10 d → n < power100 ((d + 1) / 2)
power_fits zero n a h = omega (arith, h)
power_fits (suc zero) n a h = omega (arith, h)
power_fits (suc (suc zero)) n a h = omega (arith, h)
power_fits (suc (suc (suc zero))) n a h = omega (arith, h)
power_fits (suc (suc (suc (suc zero)))) n a h = omega (arith, h)
power_fits (suc (suc (suc (suc (suc zero))))) n a h = omega (arith, h)
power_fits (suc (suc (suc (suc (suc (suc zero)))))) n a h = omega (arith, h)
power_fits (suc (suc (suc (suc (suc (suc (suc zero))))))) n a h = omega (arith, h)
power_fits (suc (suc (suc (suc (suc (suc (suc (suc zero)))))))) n a h = omega (arith, h)
power_fits (suc (suc (suc (suc (suc (suc (suc (suc (suc zero))))))))) n a h = omega (arith, h)
power_fits (suc (suc (suc (suc (suc (suc (suc (suc (suc (suc d)))))))))) n a h =
    absurd (omega (arith, a))

-- The leading field is smaller than its digits allow.
abbrev pub IsLeading : WireRange → Integral → Type 0
IsLeading w v =
    (not (w.leading_digits == 0) && leb (power10 w.leading_digits) (get_field w.range.first v))
    ≡ false

leading_below :
    (w : WireRange) (v : Integral)
    → 1 ≤ w.leading_digits
    → IsLeading w v
    → get_field w.range.first v < power10 w.leading_digits
leading_below w v a h = ground (arith, a, h)

pub later_maximum : (interval : Bool) (f : ℕ) → 2 ≤ f → maximum interval f < 100
unfolding maximum
later_maximum true f h = ground (arith, h)
later_maximum false f h = ground (arith, h)

-- The fields of a valid value fit their groups, where the leading one has no more digits than it may.
fields-IsGrouped :
    (w : WireRange) (v : Fields) (interval : Bool)
    → IsSized w interval
    → v.range ≡ w.range
    → IsValid v interval
    → IsLeading w v.integral
    → IsGrouped w (integral_count w.range) w.range.first v.integral
fields-IsGrouped w v interval z same h leading j a b =
    let r = subst (λ (x : Range). IsRange x interval) same h.in_range in
    elim (Bool-cases (j == w.range.first)) [
      | inl e ↦
          let is_first = (==_iff j w.range.first).0 e in
          let inner : (w.range.first == 7) ≡ false = ground (arith, b, is_first) in
          rw e (
            subst (λ (k : ℕ). get_field k v.integral < power100 ((w.leading_digits + 1) / 2))
              (sym is_first)
              (power_fits w.leading_digits (get_field w.range.first v.integral) z.leading
                (leading_below w v.integral (z.positive inner) leading)))
      | inr e ↦
          let low : v.range.first ≤ j = subst (λ (x : Range). x.first ≤ j) (sym same) a in
          let within : j ≤ w.range.last = ground (arith, b, r.ordered) in
          let high : j ≤ v.range.last = subst (λ (x : Range). j ≤ x.last) (sym same) within in
          let later : 2 ≤ j = ground (arith, e, a, r.begins) in
          let inner : j ≤ 6 = ground (arith, b, r.ordered) in
          rw e (elim (checked-bounds v interval j h (omega (arith, later)) inner low high) [
            | inl (_, first) ↦
                let clash : j ≡ w.range.first = first ∙ ap (λ (x : Range). x.first) same in
                absurd (ground (arith, e, clash))
            | inr bounded ↦ omega (arith, bounded, later_maximum interval j later)
          ])
    ]

-- Only the value zero has groups that are all zero.
pub groups-zero :
    (w : WireRange) (v : Fields) (interval : Bool)
    → IsSized w interval
    → v.range ≡ w.range
    → IsValid v interval
    → IsLeading w v.integral
    → all_zero (pack_groups w (wire_of v)) ≡ true
    → done (zero_value v.negative) ≡ done (wire_of v)
groups-zero w v interval z same h leading e =
    sym (unpack_groups-zero w v.negative (pack_groups w (wire_of v)) e)
    ∙ unpack-pack_groups w v interval z same h (fields-IsGrouped w v interval z same h leading)
        leading

-- Reading what pack writes for a value gives the value, where a value whose groups are zero has no sign.
pub unpack-pack_bytes :
    (w : WireRange) (v : Fields) (interval : Bool)
    → IsSized w interval
    → v.range ≡ w.range
    → IsValid v interval
    → IsLeading w v.integral
    → (all_zero (pack_groups w (wire_of v)) ≡ true → v.negative ≡ false)
    → (pack_bytes w (wire_of v)
        ≡ done (
            signed_bytes v.negative
              (all_zero (pack_groups w (wire_of v)))
              (normal_bytes w (pack_groups w (wire_of v)))))
      × (unpack
            (signed_bytes v.negative
              (all_zero (pack_groups w (wire_of v)))
              (normal_bytes w (pack_groups w (wire_of v))))
            w
          ≡ done (wire_of v))
unfolding pack_bytes
unpack-pack_bytes w v interval z same h leading unsigned =
    let r = subst (λ (x : Range). IsRange x interval) same h.in_range in
    let g = pack_groups w (wire_of v) in
    let size = length-pack_groups w interval (wire_of v) z r in
    let checked = subst (λ (x : Range). check_fraction x v.nanosecond ≡ done tt) same h.fraction in
    let exact = nanosecond_exact w.range v.nanosecond z.digits checked in
    let back =
      unpack-pack_groups w v interval z same h (fields-IsGrouped w v interval z same h leading)
        leading in
    (
      rw (leading, exact) refl,
      unpack-signed_bytes w v.negative g (pack_groups-All w (wire_of v)) size z.exponent
            (omega (arith, size, z.capacity))
          ∙ elim (Bool-cases (all_zero g)) [
            | inr e ↦ rw e back
            | inl e ↦ rw e (
                ap (λ (b : Bool). done (zero_value b)) (sym (unsigned e))
                ∙ sym (unpack_groups-zero w v.negative g e)
                ∙ back)
          ],
    )
