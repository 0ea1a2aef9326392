-- ===== src/Temporal/Codec/Ranges.antt =====
-- The ranges that a qualifier stands for (decode_range of src/sqli_temporal_codec.c).
use libsqli.Prelude.{
  ℕ, ◌+◌, ◌-◌, ◌/◌, ◌%◌, ◌≤◌, ◌≡◌, refl, Bool, true, false, ◌&&◌, ◌||◌, not, ltb, leb, ◌==◌,
  if◌then◌else◌, ◌⊎◌, inl, inr, arith,
}
use mathlib.Core.Path.{subst}
use libsqli.Status.{Status, Result, done, fail}
use libsqli.Temporal.{Range, validate_range}
use libsqli.Temporal.Codec.{
  WireRange, wire_capacity, range_of, sized, leading_range, qualifier_range, decode_range,
  integral_count,
}

-- A range that validate_range accepts, with the sizes that its fields ask for: the groups of the
-- leading field, one for each of the others, and those of the fraction.
pub record IsSized (w : WireRange) (interval : Bool) : Type 0 where
  pub range : validate_range w.range interval false ≡ done tt
  pub width : w.width ≡ 1 + w.integral_pairs + w.fraction_pairs
  pub capacity : w.width ≤ 12
  pub fraction : w.fraction_pairs ≡ (w.range.fractional_digits + 1) / 2
  pub integral : w.integral_pairs ≡ (
      if w.range.first == 7 then 0 else (w.leading_digits + 1) / 2 + (integral_count w.range - 1))
  pub exponent : w.exponent ≤ 11
  pub leading : w.leading_digits ≤ 9
  pub digits : w.range.fractional_digits ≤ 5
  pub positive : (w.range.first == 7) ≡ false → 1 ≤ w.leading_digits
  pub calendar :
      interval ≡ false
      → (w.range.first == 7) ≡ false
      → w.leading_digits ≡ (if w.range.first == 1 then 4 else 2)

-- The result of a computation that a test did not stop.
pub passed :
    {A : Type 0} (b : Bool) (s : Status) (m : Result A) (a : A)
    → (if b then fail s else m) ≡ done a
    → (b ≡ false) × (m ≡ done a)
passed true s m a h = cc
passed false s m a h = (refl, h)

pub branch :
    {A : Type 0} (b : Bool) (x y : Result A) (a : A)
    → (if b then x else y) ≡ done a
    → ((b ≡ true) × (x ≡ done a)) ⊎ ((b ≡ false) × (y ≡ done a))
branch true x y a h = inl (refl, h)
branch false x y a h = inr (refl, h)

abbrev sized_range : Range → ℕ → ℕ → ℕ → WireRange
sized_range r leading pairs exponent = record {
  range = r;
  leading_digits = leading;
  integral_pairs = pairs;
  fraction_pairs = (r.fractional_digits + 1) / 2;
  width = 1 + pairs + (r.fractional_digits + 1) / 2;
  exponent = exponent;
}

sized_lem :
    (r : Range) (leading pairs exponent : ℕ) (w : WireRange)
    → sized r leading pairs exponent ≡ done w
    → (sized_range r leading pairs exponent ≡ w) × (1 + pairs + (r.fractional_digits + 1) / 2 ≤ 12)
sized_lem r leading pairs exponent w h =
    let (fits, same) =
      passed (ltb wire_capacity (1 + pairs + (r.fractional_digits + 1) / 2)) _ _ w h in
    (cc, ground (arith, fits))

IsSized-of_range :
    (r : Range) (interval : Bool) (leading pairs exponent : ℕ)
    → validate_range r interval false ≡ done tt
    → 1 + pairs + (r.fractional_digits + 1) / 2 ≤ 12
    → pairs ≡ (if r.first == 7 then 0 else (leading + 1) / 2 + (integral_count r - 1))
    → exponent ≤ 11
    → leading ≤ 9
    → r.fractional_digits ≤ 5
    → ((r.first == 7) ≡ false → 1 ≤ leading)
    → (interval ≡ false → (r.first == 7) ≡ false → leading ≡ (if r.first == 1 then 4 else 2))
    → IsSized (sized_range r leading pairs exponent) interval
IsSized-of_range r interval leading pairs exponent a b c d e f g h = record {
  range = a;
  width = refl;
  capacity = b;
  fraction = refl;
  integral = c;
  exponent = d;
  leading = e;
  digits = f;
  positive = g;
  calendar = h;
}

range_of-valid :
    (start end : ℕ) (interval : Bool)
    → (ltb 12 start
        || not (start % 2 == 0)
        || (leb end 10 && (not (end % 2 == 0) || ltb end start))
        || (start == 12 && leb end 10))
      ≡ false
    → (interval && leb (start / 2 + 1) 2 && ltb 2 (if ltb 10 end then 7 else end / 2 + 1)) ≡ false
    → end ≤ 15
    → validate_range (range_of start end) interval false ≡ done tt
unfolding validate_range
range_of-valid start end interval h k l = ground (arith, h, k, l)

leading_pairs :
    (start end leading : ℕ)
    → (ltb 12 start
        || not (start % 2 == 0)
        || (leb end 10 && (not (end % 2 == 0) || ltb end start))
        || (start == 12 && leb end 10))
      ≡ false
    → (start == 12) ≡ false
    → (leading + 1) / 2 + ((if ltb 10 end then 10 else end) - start) / 2 ≡ (
        if start / 2 + 1 == 7
        then 0
        else (leading + 1) / 2 + (integral_count (range_of start end) - 1))
leading_pairs start end leading h k = ground (arith, h, k)

few_digits :
    (interval zero_start : Bool) (leading : ℕ)
    → (if interval then ltb 9 leading else not (leading == (if zero_start then 4 else 2))) ≡ false
    → leading ≤ 9
few_digits true z leading h = ground (arith, h)
few_digits false true leading h = ground (arith, h)
few_digits false false leading h = ground (arith, h)

small_exponent :
    (start end leading : ℕ)
    → leading ≤ 9
    → (leading + 1) / 2
        + ((if ltb 10 end then 10 else end) - start) / 2
        + (10 - (if ltb 10 end then 10 else end)) / 2
      ≤ 11
small_exponent start end leading h = ground (arith, h)

few_fraction : (start end : ℕ) → end ≤ 15 → (range_of start end).fractional_digits ≤ 5
few_fraction start end h = ground (arith, h)

calendar_digits :
    (start leading : ℕ) (interval : Bool)
    → not (start % 2 == 0) ≡ false
    → (if interval then ltb 9 leading else not (leading == (if start == 0 then 4 else 2))) ≡ false
    → interval ≡ false
    → leading ≡ (if start / 2 + 1 == 1 then 4 else 2)
calendar_digits start leading true e h i = cc
calendar_digits start leading false e h i = ground (arith, e, h)

even_start :
    (start end : ℕ)
    → (ltb 12 start
        || not (start % 2 == 0)
        || (leb end 10 && (not (end % 2 == 0) || ltb end start))
        || (start == 12 && leb end 10))
      ≡ false
    → not (start % 2 == 0) ≡ false
even_start start end h = ground (arith, h)

leading_range-IsSized :
    (start end leading : ℕ) (interval : Bool) (w : WireRange)
    → (ltb 12 start
        || not (start % 2 == 0)
        || (leb end 10 && (not (end % 2 == 0) || ltb end start))
        || (start == 12 && leb end 10))
      ≡ false
    → (start == 12) ≡ false
    → end ≤ 15
    → 1 ≤ leading
    → validate_range (range_of start end) interval false ≡ done tt
    → leading_range (range_of start end) start end interval leading ≡ done w
    → IsSized w interval
unfolding leading_range
leading_range-IsSized start end leading interval w a b le one valid h =
    let (c, kept) = passed _ _ _ w h in
    let (same, fits) = sized_lem (range_of start end) leading _ _ w kept in
    let few = few_digits interval (start == 0) leading c in
    subst (λ (x : WireRange). IsSized x interval) same
      (IsSized-of_range (range_of start end) interval leading _ _ valid fits
        (leading_pairs start end leading a b) (small_exponent start end leading few) few
        (few_fraction start end le) (λ _. one)
        (λ i _. calendar_digits start leading interval (even_start start end a) c i))

fraction_start : (start : ℕ) → (start == 12) ≡ true → (start / 2 + 1 == 7) ≡ true
fraction_start start h = ground (arith, h)

qualifier_range-IsSized :
    (digits start end : ℕ) (interval : Bool) (w : WireRange)
    → end ≤ 15
    → qualifier_range digits start end interval ≡ done w
    → IsSized w interval
unfolding qualifier_range
qualifier_range-IsSized digits start end interval w le h =
    let (a, h1) = passed _ _ _ w h in
    let (b, h2) = passed _ _ _ w h1 in
    let valid = range_of-valid start end interval a b le in
    elim (branch (start == 12) _ _ w h2) [
      | inl (e, k) ↦
          let (_, kept) =
            passed (not (digits == (range_of start end).fractional_digits)) Status.proto_error
              (sized (range_of start end) 0 0 0) w k in
          let (same, fits) = sized_lem (range_of start end) 0 0 0 w kept in
          subst (λ (x : WireRange). IsSized x interval) same
            (IsSized-of_range (range_of start end) interval 0 0 0 valid fits
              (rw (fraction_start start e) refl) (omega arith) (omega arith)
              (few_fraction start end le) (λ k. cc (fraction_start start e))
              (λ _ k. cc (fraction_start start e)))
      | inr (e, k) ↦
          let (more, kept) = passed (leb digits (end - start)) Status.proto_error _ w k in
          leading_range-IsSized start end (digits - (end - start)) interval w a e le
            (ground (arith, more)) valid kept
    ]

-- A qualifier that is accepted stands for a range that validate_range accepts, with at most 12 bytes on
-- the wire: a byte of sign and exponent, the groups of the leading field, one group for each later
-- integral field, and the groups of the fraction.
pub decode_range-IsSized :
    (qualifier : ℕ) (interval : Bool) (w : WireRange)
    → decode_range qualifier interval ≡ done w
    → IsSized w interval
unfolding decode_range
decode_range-IsSized qualifier interval w h =
    qualifier_range-IsSized (qualifier / 256) (qualifier / 16 % 16) (qualifier % 16) interval w
      (omega arith) h
