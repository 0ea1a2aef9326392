-- ===== src/Temporal/Codec/Packing.antt =====
-- The fields of a value written to groups and read back (src/sqli_temporal_codec.c).
use libsqli.Prelude.{
  ℕ, zero, suc, ◌+◌, ◌/◌, ◌≤◌, ◌<◌, ◌≡◌, refl, sym, ap, ◌∙◌, Bool, false, ◌&&◌, not, List, [], ◌++◌,
  ltb, leb, ◌==◌, if◌then◌else◌, length, length-append, ◌⊎◌, inl, inr, arith, Bool-cases,
}
use mathlib.Core.Path.{subst}
use mathlib.Core.List.{append_assoc, append-nil}
use libsqli.Status.{done}
use libsqli.Temporal.{Range, Integral, Fields, no_fields, get_field, set_field, check_fraction}
use libsqli.Temporal.Codec.Ranges.{IsSized}
use libsqli.Temporal.Valid.{IsValid, checked-zero}
use libsqli.Temporal.Copies.{get-set_field, same_source, widen, get-no_fields, same_fields}
use libsqli.Temporal.Codec.{
  WireRange, WireFields, power10, group_width, integral_count, read_groups, unpack_fields,
  unpack_groups,
}
use libsqli.Temporal.Codec.Encoding.{write_groups, pack_fields, pack_groups}
use libsqli.Temporal.Codec.Groups.{power100, read-write_groups, length-write_groups}
use libsqli.Temporal.Codec.Fractions.{
  fraction_value, IsFraction-of_digits, nanosecond-below, nanosecond_exact,
}

-- The fields of `v` from `f` on, stored in `acc`.
unfoldable kept : Integral → ℕ → ℕ → Integral → Integral
kept v zero f acc = acc
kept v (suc n) f acc = kept v n (suc f) (set_field f (get_field f v) acc)

-- Every field from `f` on fits its groups.
abbrev pub IsGrouped : WireRange → ℕ → ℕ → Integral → Type 0
IsGrouped w n f v = (j : ℕ) → f ≤ j → j < f + n → get_field j v < power100 (group_width w j)

unpack-pack_fields :
    (w : WireRange) (n f : ℕ) (v acc : Integral) (rest : List ℕ)
    → IsGrouped w n f v
    → unpack_fields w n f acc (pack_fields w n f v ++ rest) ≡ (kept v n f acc, rest)
unfolding unpack_fields pack_fields kept
unpack-pack_fields w zero f v acc rest h = refl
unpack-pack_fields w (suc n) f v acc rest h =
    let more = pack_fields w n (suc f) v in
    rw (append_assoc (write_groups (group_width w f) (get_field f v)) more rest) (
      rw
        (read-write_groups (group_width w f) (get_field f v) (more ++ rest)
          (h f (omega arith) (omega arith)))
        (unpack-pack_fields w n (suc f) v (set_field f (get_field f v) acc) rest
          (λ j a b. h j (omega (arith, a)) (omega (arith, b)))))

get-kept :
    (v : Integral) (n f : ℕ) (acc : Integral) (j : ℕ)
    → 1 ≤ j
    → j ≤ 6
    → get_field j (kept v n f acc)
      ≡ (if leb f j && ltb j (f + n) then get_field j v else get_field j acc)
unfolding kept
get-kept v zero f acc j a b = ground arith
get-kept v (suc n) f acc j a b =
    get-kept v n (suc f) (set_field f (get_field f v) acc) j a b
    ∙ widen n f j (get_field j v) (get_field j acc) (get_field j (set_field f (get_field f v) acc))
        (get-set_field j f (get_field f v) acc a b ∙ same_source j f v (get_field j acc))

kept-all :
    (v : Fields) (interval : Bool)
    → IsValid v interval
    → kept v.integral (integral_count v.range) v.range.first no_fields ≡ v.integral
kept-all v interval h =
    let r = h.in_range in
    same_fields (kept v.integral (integral_count v.range) v.range.first no_fields) v.integral
      (λ j a b.
        get-kept v.integral (integral_count v.range) v.range.first no_fields j a b
        ∙ elim (Bool-cases
            (leb v.range.first j && ltb j (v.range.first + integral_count v.range))) [
              | inl e ↦ rw e refl
              | inr e ↦
                  let out : (j < v.range.first) ⊎ (v.range.last < j) =
                    ground (arith, e, r.ordered, b) in
                  rw e (get-no_fields j ∙ sym (checked-zero v interval j h a b out))
            ])

pub length-pack_fields :
    (w : WireRange) (n f : ℕ) (v : Integral) → w.range.first < f → length (pack_fields w n f v) ≡ n
unfolding pack_fields
length-pack_fields w zero f v h = refl
length-pack_fields w (suc n) f v h =
    let later : (f == w.range.first) ≡ false = ground (arith, h) in
    let gs = write_groups (group_width w f) (get_field f v) in
    let one : group_width w f ≡ 1 = rw later refl in
    omega (
      arith,
      length-append gs (pack_fields w n (suc f) v),
      length-write_groups (group_width w f) (get_field f v),
      one,
      length-pack_fields w n (suc f) v (omega (arith, h)),
    )

abbrev pub wire_of : Fields → WireFields
wire_of v = record {
  fields = v.integral;
  nanosecond = v.nanosecond;
  negative = v.negative;
  is_null = false;
}

-- What is read of the groups of a fraction.
fraction_groups :
    (w : WireRange) (ns : ℕ)
    → w.fraction_pairs ≡ (w.range.fractional_digits + 1) / 2
    → fraction_value w.range.fractional_digits ns < power100 ((w.range.fractional_digits + 1) / 2)
    → read_groups w.fraction_pairs 0
        (write_groups w.fraction_pairs (fraction_value w.range.fractional_digits ns))
      ≡ (fraction_value w.range.fractional_digits ns, [])
fraction_groups w ns e h =
    let x = fraction_value w.range.fractional_digits ns in
    ap (λ (t : List ℕ). read_groups w.fraction_pairs 0 t)
      (sym (append-nil (write_groups w.fraction_pairs x)))
    ∙ read-write_groups w.fraction_pairs x [] (subst (λ (n : ℕ). x < power100 n) (sym e) h)

-- The groups of a valid value whose fields fit them give the value back.
pub unpack-pack_groups :
    (w : WireRange) (v : Fields) (interval : Bool)
    → IsSized w interval
    → v.range ≡ w.range
    → IsValid v interval
    → IsGrouped w (integral_count w.range) w.range.first v.integral
    → (not (w.leading_digits == 0)
        && leb (power10 w.leading_digits) (get_field w.range.first v.integral))
      ≡ false
    → unpack_groups w v.negative (pack_groups w (wire_of v)) ≡ done (wire_of v)
unfolding unpack_groups pack_groups
unpack-pack_groups w v interval z same h grouped fits =
    let d = w.range.fractional_digits in
    let checked = subst (λ (r : Range). check_fraction r v.nanosecond ≡ done tt) same h.fraction in
    let (small, odd, exact) =
      IsFraction-of_digits d v.nanosecond z.digits (nanosecond-below w.range v.nanosecond checked)
        (nanosecond_exact w.range v.nanosecond z.digits checked) in
    let fields =
      subst (λ (r : Range). kept v.integral (integral_count r) r.first no_fields ≡ v.integral) same
        (kept-all v interval h) in
    rw
      (unpack-pack_fields w (integral_count w.range) w.range.first v.integral no_fields
        (write_groups w.fraction_pairs (fraction_value d v.nanosecond)) grouped)
      (rw (fraction_groups w v.nanosecond z.fraction small) (
        rw (fields, odd, fits)
          (ap (λ (n : ℕ). done (record (wire_of v) { nanosecond = n })) exact)))
