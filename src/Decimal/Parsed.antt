-- ===== src/Decimal/Parsed.antt =====
-- What sqli_decimal_parse makes of a text (src/sqli_decimal.c).
use mathlib.Core.Path.{subst}
use libsqli.Prelude.{
  ℕ, ◌+◌, ◌-◌, ◌/◌, ◌≤◌, ◌≡◌, refl, sym, ap, ◌∙◌, Bool, true, false, ◌&&◌, not, List, ltb, ◌==◌,
  if◌then◌else◌, arith,
}
use libsqli.Prelude.Int.{ℤ, pos, ◌-ℤ◌}
use libsqli.Prelude.Bytes.{All}
use libsqli.Status.{Status, done, fail, reject_if}
use libsqli.Status.Chains.{>>-done, >>=-done, reject_if-false, done_same}
use libsqli.Decimal.Number.{
  Number, max_digits, is_nil, trim, decimal_trim, decimal_digits, null_number,
}
use libsqli.Decimal.Values.{limbs_value, IsLimb, IsTrimmed, tail_of, trim-value}
use libsqli.Decimal.Stored.{IsNormal, trim-All, trim-IsTrimmed, null_number-IsNormal}
use libsqli.Decimal.Sizes.{short_digits, tail_of-later}
use libsqli.Decimal.Text.{
  Counts, no_counts, scan_mantissa, leading_sign, split_mantissa, mantissa_limbs, is_i32,
  exponent_of, build_number, parse_number, decimal_parse,
}
use libsqli.Decimal.Spelling.{count, mantissa_value, significant_of, mantissa_limbs-value}
use libsqli.Decimal.Scanned.{
  is_mantissa, is_mantissa-All, counts_after, scan_mantissa_lem, fraction_of, no_counts-IsCounted,
  mantissa_value-below, tail_of-below,
}

and_not : (b c : Bool) → c ≡ true → (b && not c) ≡ false
and_not b true e = ground arith
and_not b false e = cc

true-false : (b : Bool) → b ≡ true → b ≡ false → ⊥
true-false true e h = cc
true-false false e h = cc

bounded_digits :
    (ls : List ℕ) (k m : ℕ)
    → All IsLimb ls
    → IsTrimmed ls
    → tail_of (limbs_value ls) k ≡ 0
    → k ≤ m
    → 1 ≤ m
    → decimal_digits ls ≤ m
bounded_digits ls k m h t z l p = short_digits ls m h t p (tail_of-later (limbs_value ls) k m z l)

-- Trimmed limbs of a number with at most a million digits are normal.
pub decimal_trim-IsNormal :
    (v : Number) (k : ℕ)
    → v.is_null ≡ false
    → All IsLimb v.limbs
    → tail_of (limbs_value v.limbs) k ≡ 0
    → k ≤ max_digits
    → IsNormal (decimal_trim v)
unfolding decimal_trim
decimal_trim-IsNormal v k live h z l = record {
  limbs = trim-All v.limbs h;
  trimmed = trim-IsTrimmed v.limbs;
  bounded =
      bounded_digits (trim v.limbs) k max_digits (trim-All v.limbs h) (trim-IsTrimmed v.limbs)
        (ap (λ (n : ℕ). tail_of n k) (trim-value v.limbs) ∙ z) l (omega arith);
  unsigned = λ e. and_not v.negative (is_nil (trim v.limbs)) e;
  null = λ e. absurd (true-false v.is_null e live);
}

-- The number of a mantissa with its sign and its scale.
abbrev pub number_of : Bool → List ℕ → ℤ → Number
number_of negative mantissa scale = record {
  limbs = mantissa_limbs mantissa (significant_of mantissa) ((significant_of mantissa + 9 - 1) / 9);
  scale = scale;
  negative = negative;
  is_null = false;
}

pub number_of-IsNormal :
    (negative : Bool) (cs : List ℕ) (scale : ℤ)
    → is_mantissa false cs ≡ true
    → significant_of cs ≤ max_digits
    → IsNormal (decimal_trim (number_of negative cs scale))
      × (limbs_value (decimal_trim (number_of negative cs scale)).limbs ≡ mantissa_value cs)
unfolding decimal_trim
number_of-IsNormal negative cs scale h l =
    let marks = is_mantissa-All false cs h in
    let k = significant_of cs in
    let (value, all) = mantissa_limbs-value cs k marks (omega arith) in
    let below = tail_of-below (mantissa_value cs) k (mantissa_value-below cs marks) in
    (
      decimal_trim-IsNormal (number_of negative cs scale) k refl all
          (ap (λ (n : ℕ). tail_of n k) value ∙ below) l,
      trim-value (mantissa_limbs cs k ((k + 9 - 1) / 9)) ∙ value,
    )

-- The parts of a text: its sign, its mantissa and the exponent behind it.
abbrev pub sign_of : List ℕ → Bool
sign_of text = (leading_sign text).0

abbrev pub mantissa_of : List ℕ → List ℕ
mantissa_of text = (split_mantissa (leading_sign text).1).0

abbrev pub behind_of : List ℕ → List ℕ
behind_of text = (split_mantissa (leading_sign text).1).1

-- What is asked of a text that is accepted.
abbrev pub IsAccepted : List ℕ → ℤ → Type 0
IsAccepted text exponent =
    (is_mantissa false (mantissa_of text) ≡ true)
    × (1 ≤ count (mantissa_of text))
    × (significant_of (mantissa_of text) ≤ max_digits)
    × (exponent_of (behind_of text) ≡ done exponent)
    × (is_i32 (pos (fraction_of false (mantissa_of text)) -ℤ exponent) ≡ true)

at_least_one : (a b : ℕ) → (a == 0) ≡ false → a ≡ b → 1 ≤ b
at_least_one a b h e = ground (arith, h, e)

at_most : (a b m : ℕ) → ltb m a ≡ false → a ≡ b → b ≤ m
at_most a b m h e = ground (arith, h, e)

not-false : (b : Bool) → not b ≡ false → b ≡ true
not-false true h = refl
not-false false h = cc

build_number-done :
    (memory : ℕ → Bool) (negative : Bool) (cs : List ℕ) (n : Counts) (exponent : ℤ) (v : Number)
    → n.significant ≡ significant_of cs
    → n.fractional ≡ fraction_of false cs
    → build_number memory negative cs n exponent ≡ done v
    → (is_i32 (pos (fraction_of false cs) -ℤ exponent) ≡ true)
      × (v ≡ decimal_trim (number_of negative cs (pos (fraction_of false cs) -ℤ exponent)))
unfolding build_number
build_number-done memory negative cs n exponent v s f h =
    let built : ℕ → ℕ → Number = λ k m. decimal_trim (record {
      limbs = mantissa_limbs cs k ((k + 9 - 1) / 9);
      scale = pos m -ℤ exponent;
      negative = negative;
      is_null = false;
    }) in
    let (checks, same) = >>-done _ _ v h in
    let refused = not (is_i32 (pos n.fractional -ℤ exponent)) in
    let (scale, room) = >>-done (reject_if refused Status.out_of_range) _ tt checks in
    let fits = not-false _ (reject_if-false refused Status.out_of_range scale) in
    (
      ap (λ m. is_i32 (pos m -ℤ exponent)) (sym f) ∙ fits,
      sym (done_same (built n.significant n.fractional) v same)
          ∙ ap (λ k. built k n.fractional) s
          ∙ ap (built (significant_of cs)) f,
    )

if-done :
    (b : Bool) (r n : Counts)
    → (if b then done r else fail Status.invalid_argument) ≡ done n
    → (b ≡ true) × (r ≡ n)
if-done true r n h = (refl, done_same r n h)
if-done false r n h = cc

scanned_text :
    (cs : List ℕ) (n : Counts)
    → scan_mantissa no_counts cs ≡ done n
    → (is_mantissa false cs ≡ true)
      × (n.digits ≡ count cs)
      × (n.fractional ≡ fraction_of false cs)
      × (n.significant ≡ significant_of cs)
scanned_text cs n h =
    let (marks, same) =
      if-done (is_mantissa false cs) (counts_after no_counts cs) n
        (sym (scan_mantissa_lem no_counts cs) ∙ h) in
    let (a, b, c) = no_counts-IsCounted cs marks in
    (
      marks,
      sym (ap (λ r. r.digits) same) ∙ a,
      sym (ap (λ r. r.fractional) same) ∙ b,
      sym (ap (λ r. r.significant) same) ∙ c,
    )

pub parse_number-IsAccepted :
    (memory : ℕ → Bool) (text : List ℕ) (v : Number)
    → parse_number memory text ≡ done v
    → (exponent : ℤ) × IsAccepted text exponent
      × (v
          ≡ decimal_trim (
              number_of
                (sign_of text)
                (mantissa_of text)
                (pos (fraction_of false (mantissa_of text)) -ℤ exponent)))
unfolding parse_number
parse_number-IsAccepted memory text v h =
    let m = mantissa_of text in
    let (n, scanned, rest) = >>=-done (scan_mantissa no_counts m) _ v h in
    let (marks, digits, fractional, significant) = scanned_text m n scanned in
    let (checks, last) = >>-done _ _ v rest in
    let (none, many) = >>-done (reject_if (n.digits == 0) Status.invalid_argument) _ tt checks in
    let (exponent, read, built) = >>=-done (exponent_of (behind_of text)) _ v last in
    let (scale, same) =
      build_number-done memory (sign_of text) m n exponent v significant fractional built in
    let some_digits = reject_if-false (n.digits == 0) Status.invalid_argument none in
    let few = reject_if-false (ltb max_digits n.significant) Status.limit_exceeded many in
    (
      exponent,
      (
        marks,
        at_least_one n.digits (count m) some_digits digits,
        at_most n.significant (significant_of m) max_digits few significant,
        read,
        scale,
      ),
      same,
    )

-- Every number that sqli_decimal_parse accepts is normal.
pub decimal_parse-IsNormal :
    (memory : ℕ → Bool) (text : List ℕ) (is_null : Bool) (v : Number)
    → decimal_parse memory text is_null ≡ done v
    → IsNormal v
unfolding decimal_parse
decimal_parse-IsNormal memory text true v h =
    subst IsNormal (done_same null_number v h) null_number-IsNormal
decimal_parse-IsNormal memory text false v h =
    let (checks, parsed) = >>-done _ _ v h in
    let (exponent, (marks, some_digits, few, read, scale), same) =
      parse_number-IsAccepted memory text v parsed in
    subst IsNormal (sym same)
      (number_of-IsNormal (sign_of text) (mantissa_of text)
        (pos (fraction_of false (mantissa_of text)) -ℤ exponent) marks few).0
