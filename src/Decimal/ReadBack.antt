-- ===== src/Decimal/ReadBack.antt =====
-- The texts that sqli_decimal_parse accepts, and the number that it makes of them
-- (src/sqli_decimal.c).
use libsqli.Prelude.{
  ℕ, ◌+◌, ◌-◌, ◌*◌, ◌/◌, ◌%◌, ◌≤◌, ◌≡◌, refl, ap, ◌∙◌, Bool, true, false, ◌||◌, List, [], ◌∷◌, ◌++◌,
  ltb, ◌==◌, if◌then◌else◌, arith,
}
use libsqli.Prelude.Int.{ℤ, pos, negsuc, pos_part, neg_part, sub_ℕ, ◌-ℤ◌}
use libsqli.Prelude.Bytes.{All}
use libsqli.Status.{Status, done, fail}
use libsqli.Temporal.Format.{reversed_digits, reverse}
use libsqli.Temporal.Digits.{
  spelled, le-spelled, digits-All, reverse-All, spelled-reverse, reversed_value-digits,
}
use libsqli.Decimal.Number.{
  max_digits, max_i64, max_limbs, reserve, is_nil, decimal_trim, is_below_zero,
}
use libsqli.Decimal.Text.{
  Counts, no_counts, scan_mantissa, leading_sign, read_exponent, parse_exponent, split_mantissa,
  is_i32, exponent_of, build_number, parse_number, exponent_digits, exponent_text,
}
use libsqli.Decimal.Mantissa.{IsMark}
use libsqli.Decimal.Spelling.{count, significant_of}
use libsqli.Decimal.Scanned.{
  is_mantissa, is_mantissa-All, counts_after, scan_mantissa_lem, fraction_of, no_counts-IsCounted,
}
use libsqli.Decimal.Written.{IsDigit}
use libsqli.Decimal.Parsed.{number_of}

pub reserve_all :
    (memory : ℕ → Bool) (n : ℕ) → memory n ≡ true → n ≤ max_limbs → reserve memory n ≡ done tt
unfolding reserve
reserve_all memory n h l = ground (arith, h, l)

build_number-accepts :
    (memory : ℕ → Bool) (negative : Bool) (cs : List ℕ) (n : Counts) (exponent : ℤ)
    → ((k : ℕ) → memory k ≡ true)
    → n.significant ≡ significant_of cs
    → n.fractional ≡ fraction_of false cs
    → significant_of cs ≤ max_digits
    → is_i32 (pos (fraction_of false cs) -ℤ exponent) ≡ true
    → build_number memory negative cs n exponent
      ≡ done (decimal_trim (number_of negative cs (pos (fraction_of false cs) -ℤ exponent)))
unfolding build_number
build_number-accepts memory negative cs n exponent h s f few fits =
    let size = (significant_of cs + 9 - 1) / 9 in
    let room = reserve_all memory size (h size) (omega (arith, few)) in rw (s, f, fits, room) refl

split_mantissa-append :
    (cs : List ℕ) (c : ℕ) (rest : List ℕ)
    → All IsMark cs
    → (c == b'e' || c == b'E') ≡ true
    → split_mantissa (cs ++ (c ∷ rest)) ≡ (cs, c ∷ rest)
unfolding split_mantissa
split_mantissa-append [] c rest h e = rw e refl
split_mantissa-append (x ∷ xs) c rest (h, hs) e =
    let other : (x == b'e' || x == b'E') ≡ false = ground (arith, h) in
    rw (other, split_mantissa-append xs c rest hs e) refl

split_mantissa-whole : (cs : List ℕ) → All IsMark cs → split_mantissa (cs ++ []) ≡ (cs, [])
unfolding split_mantissa
split_mantissa-whole [] h = refl
split_mantissa-whole (x ∷ xs) (h, hs) =
    let other : (x == b'e' || x == b'E') ≡ false = ground (arith, h) in
    rw (other, split_mantissa-whole xs hs) refl

-- Nothing, or a text behind the mark of an exponent.
abbrev pub IsBehind : List ℕ → Type 0
IsBehind [] = Unit
IsBehind (c ∷ rest) = (c == b'e' || c == b'E') ≡ true

split_mantissa_lem :
    (cs behind : List ℕ)
    → All IsMark cs
    → IsBehind behind
    → split_mantissa (cs ++ behind) ≡ (cs, behind)
split_mantissa_lem cs [] h b = split_mantissa-whole cs h
split_mantissa_lem cs (c ∷ rest) h b = split_mantissa-append cs c rest h b

read_sign_lem :
    (negative : Bool) (cs behind : List ℕ)
    → All IsMark cs
    → 1 ≤ count cs
    → leading_sign (if negative then b'-' ∷ (cs ++ behind) else cs ++ behind)
      ≡ (negative, cs ++ behind)
unfolding leading_sign
read_sign_lem true cs behind h k = refl
read_sign_lem false [] behind h k = absurd (omega (arith, k))
read_sign_lem false (c ∷ cs) behind (h, hs) k =
    let unsigned : (c == b'+' || c == b'-') ≡ false = ground (arith, h) in rw unsigned refl

pub parse_number-accepts :
    (memory : ℕ → Bool) (negative : Bool) (cs behind : List ℕ) (exponent : ℤ)
    → ((k : ℕ) → memory k ≡ true)
    → is_mantissa false cs ≡ true
    → 1 ≤ count cs
    → significant_of cs ≤ max_digits
    → IsBehind behind
    → exponent_of behind ≡ done exponent
    → is_i32 (pos (fraction_of false cs) -ℤ exponent) ≡ true
    → parse_number memory (if negative then b'-' ∷ (cs ++ behind) else cs ++ behind)
      ≡ done (decimal_trim (number_of negative cs (pos (fraction_of false cs) -ℤ exponent)))
unfolding parse_number
parse_number-accepts memory negative cs behind exponent h m k few b e fits =
    let marks = is_mantissa-All false cs m in
    let (digits, fractional, significant) = no_counts-IsCounted cs m in
    let n = counts_after no_counts cs in
    let scanned : scan_mantissa no_counts cs ≡ done n =
      scan_mantissa_lem no_counts cs
      ∙ ap (λ b. if b then done n else fail Status.invalid_argument) m in
    let some_digits : (n.digits == 0) ≡ false = ground (arith, digits, k) in
    let short : ltb max_digits n.significant ≡ false = ground (arith, significant, few) in
    rw (read_sign_lem negative cs behind marks k, split_mantissa_lem cs behind marks b, scanned)
      (rw (some_digits, short, e)
        (build_number-accepts memory negative cs n exponent h significant fractional few fits))

-- The digits of an exponent are read back.
read_exponent-spelled :
    (cs : List ℕ) (n : ℕ)
    → All IsDigit cs
    → spelled n cs ≤ max_i64
    → read_exponent n cs ≡ done (spelled n cs)
unfolding read_exponent
read_exponent-spelled [] n h l = refl
read_exponent-spelled (c ∷ cs) n (h, hs) l =
    let le = le-spelled cs (n * 10 + (c - b'0')) in
    let fits : ltb ((max_i64 - (c - b'0')) / 10) n ≡ false = ground (arith, h, l, le) in
    rw (h, fits) (read_exponent-spelled cs (n * 10 + (c - b'0')) hs l)

signed_same :
    (e : ℤ)
    → (if is_below_zero e then sub_ℕ 0 (pos_part e + neg_part e) else pos (pos_part e + neg_part e))
      ≡ e
signed_same (pos n) = ground arith
signed_same (negsuc n) = ground arith

append_some : (xs : List ℕ) (c : ℕ) → is_nil (xs ++ (c ∷ [])) ≡ false
append_some [] c = refl
append_some (x ∷ xs) c = refl

digits_some : (n : ℕ) → is_nil (reverse (reversed_digits 20 n)) ≡ false
unfolding reversed_digits
digits_some n =
    append_some (reverse (if n / 10 == 0 then [] else reversed_digits 19 (n / 10))) (b'0' + n % 10)

sign_back : (b : Bool) (cs : List ℕ) → leading_sign ((if b then b'-' else b'+') ∷ cs) ≡ (b, cs)
unfolding leading_sign
sign_back true cs = refl
sign_back false cs = refl

-- The exponent that sqli_decimal_format writes is read back.
pub exponent_of-text :
    (e : ℤ) → pos_part e + neg_part e ≤ max_i64 → exponent_of (exponent_text e) ≡ done e
unfolding exponent_text exponent_digits parse_exponent
exponent_of-text e h =
    let n = pos_part e + neg_part e in
    let ds = reverse (reversed_digits 20 n) in
    let same =
      spelled-reverse (reversed_digits 20 n) ∙ reversed_value-digits 20 n (omega (arith, h)) in
    let read =
      read_exponent-spelled ds 0 (reverse-All IsDigit (reversed_digits 20 n) (digits-All 20 n))
        (omega (arith, same, h))
      ∙ ap (λ (k : ℕ). done k) same in
    rw (sign_back (is_below_zero e) ds, digits_some n, read) (ap done (signed_same e))
