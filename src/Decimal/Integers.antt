-- ===== src/Decimal/Integers.antt =====
-- 64-bit integers stored as decimal numbers and read back (src/sqli_decimal.c).
use mathlib.Core.Path.{subst}
use libsqli.Prelude.{
  ℕ, zero, suc, ◌+◌, ◌-◌, ◌*◌, ◌/◌, ◌%◌, ◌^◌, ◌≤◌, ◌<◌, ◌≡◌, refl, sym, ap, ◌∙◌, Bool, true, false,
  ◌&&◌, not, List, [], ◌∷◌, ltb, ◌==◌, if◌then◌else◌, length, inl, inr, arith, Bool-cases,
}
use libsqli.Prelude.Int.{ℤ, pos, negsuc, pos_part, neg_part, ◌-ℤ◌, leb_ℤ}
use libsqli.Prelude.Bytes.{All}
use libsqli.Status.{done, ◌>>=◌}
use libsqli.Decimal.Number.{
  Number, limb_base, max_digits, max_limbs, max_i64, reserve, is_nil, trim, decimal_digits,
  decimal_digit, decimal_set_parts, decimal_set_i64, decimal_to_i64, read_magnitude, signed_of,
  limbs_of, is_below_zero, stored_parts,
}
use libsqli.Decimal.Values.{
  limbs_value, IsLimb, IsTrimmed, tail_of, trim-value, decimal_digits-IsSize, decimal_digit-value,
}
use libsqli.Decimal.Sizes.{tail_of-le, tail_of-suc, short_digits, empty_zero}
use libsqli.Decimal.Stored.{trim-All, trim-IsTrimmed, All-any_large}

-- The digits from position `i` on, read behind those in front of it.
pub read_magnitude-value :
    (ls : List ℕ) (digits limit n i : ℕ)
    → All IsLimb ls
    → i + n ≡ digits
    → limbs_value ls ≤ limit
    → read_magnitude ls digits limit n i (tail_of (limbs_value ls) n) ≡ done (limbs_value ls)
unfolding read_magnitude
read_magnitude-value ls digits limit zero i h e l = refl
read_magnitude-value ls digits limit (suc n) i h e l =
    let v = limbs_value ls in
    let place : digits - i - 1 ≡ n = omega (arith, e) in
    let digit : decimal_digit ls digits i ≡ tail_of v n % 10 =
      decimal_digit-value ls digits i h (omega (arith, e))
      ∙ ap (λ (k : ℕ). tail_of v k % 10) place in
    let shorter = tail_of-suc v n in
    let next : tail_of v (suc n) * 10 + tail_of v n % 10 ≡ tail_of v n = omega (arith, shorter) in
    let fits : ltb ((limit - tail_of v n % 10) / 10) (tail_of v (suc n)) ≡ false =
      ground (arith, shorter, l, tail_of-le v n) in
    rw (digit, fits, next) (read_magnitude-value ls digits limit n (suc i) h (omega (arith, e)) l)

-- limb_base ^ n
abbrev limb_power : ℕ → ℕ
limb_power zero = 1
limb_power (suc n) = limb_base * limb_power n

limbs_of-value : (n v : ℕ) → v < limb_power n → limbs_value (limbs_of n v) ≡ v
unfolding limbs_of
limbs_of-value zero v h = omega (arith, h)
limbs_of-value (suc n) v h = elim (Bool-cases (v == 0)) [
  | inl e ↦ rw e (ground (arith, e))
  | inr e ↦ rw e (omega (arith, limbs_of-value n (v / limb_base) (omega (arith, h))))
]

limbs_of-All : (n v : ℕ) → All IsLimb (limbs_of n v)
unfolding limbs_of
limbs_of-All zero v = tt
limbs_of-All (suc n) v = elim (Bool-cases (v == 0)) [
  | inl e ↦ rw e tt
  | inr e ↦ rw e (omega arith, limbs_of-All n (v / limb_base))
]

limbs_of-short : (n v : ℕ) → length (limbs_of n v) ≤ n
unfolding limbs_of
limbs_of-short zero v = omega arith
limbs_of-short (suc n) v = elim (Bool-cases (v == 0)) [
  | inl e ↦ rw e (omega arith)
  | inr e ↦ rw e (omega (arith, limbs_of-short n (v / limb_base)))
]

trim-short : (ls : List ℕ) → length (trim ls) ≤ length ls
unfolding trim
trim-short [] = omega arith
trim-short (l ∷ ls) = elim (Bool-cases (l == 0 && is_nil (trim ls))) [
  | inl e ↦ rw e (omega arith)
  | inr e ↦ rw e (omega (arith, trim-short ls))
]

-- The parts of an integer, which sqli_decimal_set_parts accepts.
abbrev pub integer_parts : ℤ → ℤ → Number
integer_parts c scale = record {
  limbs = limbs_of 4 (pos_part c + neg_part c);
  scale = scale;
  negative = is_below_zero c;
  is_null = false;
}

abbrev pub magnitude : ℤ → ℕ
magnitude c = pos_part c + neg_part c

limbs_of-uint64 :
    (v : ℕ)
    → v < 2 ^ 64
    → (limbs_value (trim (limbs_of 4 v)) ≡ v)
      × All IsLimb (trim (limbs_of 4 v))
      × IsTrimmed (trim (limbs_of 4 v))
limbs_of-uint64 v h = (
  trim-value (limbs_of 4 v) ∙ limbs_of-value 4 v (omega (arith, h)),
  trim-All (limbs_of 4 v) (limbs_of-All 4 v),
  trim-IsTrimmed (limbs_of 4 v),
)

reserve_few : (memory : ℕ → Bool) (n : ℕ) → n ≤ 4 → reserve memory n ≡ done tt
unfolding reserve
reserve_few memory n h = ground (arith, h)

pub decimal_set_i64_lem :
    (memory : ℕ → Bool) (c scale : ℤ)
    → magnitude c < 2 ^ 64
    → decimal_set_i64 memory c scale ≡ done (stored_parts (integer_parts c scale))
unfolding decimal_set_i64 decimal_set_parts
decimal_set_i64_lem memory c scale h =
    let ls = limbs_of 4 (magnitude c) in
    let (value, all, trimmed) = limbs_of-uint64 (magnitude c) h in
    let count : ltb max_limbs (length ls) ≡ false =
      ground (arith, limbs_of-short 4 (magnitude c)) in
    let small = All-any_large ls (limbs_of-All 4 (magnitude c)) in
    let room =
      reserve_few memory (length (trim ls))
        (omega (arith, trim-short ls, limbs_of-short 4 (magnitude c))) in
    let size =
      short_digits (trim ls) 20 all trimmed (omega arith)
        (ap (λ (n : ℕ). tail_of n 20) value ∙ omega (arith, h)) in
    let fits : ltb max_digits (decimal_digits (trim ls)) ≡ false = ground (arith, size) in
    rw (count, small, room, fits) refl

below_19 : (v : ℕ) (negative : Bool) → v ≤ max_i64 + (if negative then 1 else 0) → tail_of v 19 ≡ 0
below_19 v true h = omega (arith, h)
below_19 v false h = omega (arith, h)

whole_scale : (n : ℕ) → (pos n -ℤ pos 0) ≡ pos n
unfolding ◌-ℤ◌
whole_scale n = ground arith

magnitude_small : (c : ℤ) → pos_part c ≤ max_i64 → neg_part c ≤ max_i64 + 1 → magnitude c < 2 ^ 64
magnitude_small (pos n) h k = omega (arith, h)
magnitude_small (negsuc n) h k = omega (arith, k)

magnitude_bound :
    (c : ℤ)
    → pos_part c ≤ max_i64
    → neg_part c ≤ max_i64 + 1
    → magnitude c ≤ max_i64 + (if is_below_zero c then 1 else 0)
magnitude_bound (pos n) h k = ground (arith, h)
magnitude_bound (negsuc n) h k = ground (arith, k)

whole_number :
    (ls : List ℕ) (negative : Bool)
    → All IsLimb ls
    → IsTrimmed ls
    → is_nil ls ≡ false
    → limbs_value ls ≤ max_i64 + (if negative then 1 else 0)
    → decimal_to_i64 (record { limbs = ls; scale = pos 0; negative = negative; is_null = false })
      ≡ done (signed_of negative (limbs_value ls))
unfolding decimal_to_i64 ◌-ℤ◌
whole_number ls negative h t live fits =
    let digits = decimal_digits ls in
    let (p, size, none_left, more) = decimal_digits-IsSize ls h t in
    let short = short_digits ls 19 h t (omega arith) (below_19 (limbs_value ls) negative fits) in
    let whole : (pos digits -ℤ pos 0) ≡ pos digits = whole_scale digits in
    let some_digits : leb_ℤ (pos digits) (pos 0) ≡ false = ground (arith, size) in
    let few : ltb 19 digits ≡ false = ground (arith, short) in
    let limit = max_i64 + (if negative then 1 else 0) in
    rw (live, whole, some_digits, few)
      (ap (λ r. r >>= λ magnitude. done (signed_of negative magnitude))
        (ap (read_magnitude ls digits limit digits 0) (sym none_left)
          ∙ read_magnitude-value ls digits limit digits 0 h (omega arith) fits))

signed_back : (c : ℤ) → signed_of (is_below_zero c) (magnitude c) ≡ c
unfolding signed_of
signed_back (pos n) = ground arith
signed_back (negsuc n) = ground arith

magnitude_zero : (c : ℤ) → magnitude c ≡ 0 → pos 0 ≡ c
magnitude_zero (pos n) h = ap pos (omega (arith, h))
magnitude_zero (negsuc n) h = absurd (omega (arith, h))

not_and : (b c : Bool) → b ≡ false → (not b && c) ≡ c
not_and true c h = cc
not_and false c h = refl

keep_sign :
    (parts : Number)
    → is_nil (trim parts.limbs) ≡ false
    → stored_parts parts ≡ record {
      limbs = trim parts.limbs;
      scale = parts.scale;
      negative = parts.negative;
      is_null = false;
    }
keep_sign parts h = λ i. record (stored_parts parts) {
  negative = not_and (is_nil (trim parts.limbs)) parts.negative h i;
}

-- Every int64_t is stored whatever the memory, as a coefficient of its magnitude, and with the
-- scale 0 sqli_decimal_to_i64 gives it back.
pub decimal_to_i64-set_i64 :
    (memory : ℕ → Bool) (c : ℤ)
    → pos_part c ≤ max_i64
    → neg_part c ≤ max_i64 + 1
    → (v : Number) × (decimal_set_i64 memory c (pos 0) ≡ done v)
      × (limbs_value v.limbs ≡ magnitude c)
      × (decimal_to_i64 v ≡ done c)
unfolding decimal_to_i64
decimal_to_i64-set_i64 memory c h k =
    let ls = limbs_of 4 (magnitude c) in
    let (value, all, trimmed) = limbs_of-uint64 (magnitude c) (magnitude_small c h k) in
    (
      stored_parts (integer_parts c (pos 0)),
      decimal_set_i64_lem memory c (pos 0) (magnitude_small c h k),
      value,
      elim (Bool-cases (is_nil (trim ls))) [
        | inl e ↦ rw e (ap done (magnitude_zero c (sym value ∙ empty_zero (trim ls) e)))
        | inr e ↦
            ap decimal_to_i64 (keep_sign (integer_parts c (pos 0)) e)
            ∙ whole_number (trim ls) (is_below_zero c) all trimmed e (
                subst (λ (n : ℕ). n ≤ max_i64 + (if is_below_zero c then 1 else 0)) (sym value)
                  (magnitude_bound c h k))
            ∙ ap (λ n. done (signed_of (is_below_zero c) n)) value
            ∙ ap done (signed_back c)
      ],
    )
