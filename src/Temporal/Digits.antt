-- ===== src/Temporal/Digits.antt =====
-- The decimal digits that write_number writes and read_number reads (src/sqli_temporal.c).
use native.Mathlib.Nat.{add-zero}
use libsqli.Prelude.{
  ℕ, zero, suc, ◌+◌, ◌-◌, ◌*◌, ◌/◌, ◌≤◌, ◌<◌, ◌≡◌, refl, ap, ◌∙◌, true, false, List, [], ◌∷◌, ◌++◌,
  ltb, ◌==◌, if◌then◌else◌, length, replicate, length-append, length-replicate, Bool-cases, inl,
  inr, arith,
}
use libsqli.Prelude.Bytes.{All, All-append}
use libsqli.Status.{done, ◌>>=◌}
use libsqli.Temporal.Parse.{is_digit, max_u64, end_number, read_digits, read_number}
use libsqli.Temporal.Format.{reversed_digits, reverse, digits_of}

abbrev pub IsDigit : ℕ → Type 0
IsDigit c = is_digit c ≡ true

-- 10 ^ n
abbrev pub power10 : ℕ → ℕ
power10 zero = 1
power10 (suc n) = 10 * power10 n

-- The number that digits spell behind `n`.
abbrev pub spelled : ℕ → List ℕ → ℕ
spelled n [] = n
spelled n (c ∷ cs) = spelled (n * 10 + (c - b'0')) cs

spelled-append : (n : ℕ) (xs ys : List ℕ) → spelled n (xs ++ ys) ≡ spelled (spelled n xs) ys
spelled-append n [] ys = refl
spelled-append n (x ∷ xs) ys = spelled-append (n * 10 + (x - b'0')) xs ys

spelled-zeros : (k : ℕ) → spelled 0 (replicate k b'0') ≡ 0
spelled-zeros zero = refl
spelled-zeros (suc k) = spelled-zeros k

pub le-spelled : (cs : List ℕ) (n : ℕ) → n ≤ spelled n cs
le-spelled [] n = omega arith
le-spelled (c ∷ cs) n = omega (arith, le-spelled cs (n * 10 + (c - b'0')))

zeros-All : (k : ℕ) → All IsDigit (replicate k b'0')
zeros-All zero = tt
zeros-All (suc k) = (refl, zeros-All k)

-- Reading digits that spell a uint64_t and are not too many.
read_digits-append :
    (cs rest : List ℕ) (maximum count value : ℕ)
    → All IsDigit cs
    → spelled value cs ≤ max_u64
    → count + length cs ≤ maximum
    → read_digits maximum count value (cs ++ rest)
      ≡ read_digits maximum (count + length cs) (spelled value cs) rest
unfolding read_digits
read_digits-append [] rest maximum count value h k l = rw (add-zero count) refl
read_digits-append (c ∷ cs) rest maximum count value (h, hs) k l =
    let digit = c - b'0' in
    let le = le-spelled cs (value * 10 + digit) in
    let fits : ltb ((max_u64 - digit) / 10) value ≡ false = ground (arith, h, k, le) in
    let room : (count == maximum) ≡ false = ground (arith, l) in
    rw (h, fits, room)
      (read_digits-append cs rest maximum (suc count) (value * 10 + digit) hs k (omega (arith, l))
        ∙ ap (λ (m : ℕ). read_digits maximum m (spelled (value * 10 + digit) cs) rest)
            (omega arith))

-- The value of reversed digits.
abbrev pub reversed_value : List ℕ → ℕ
reversed_value [] = 0
reversed_value (c ∷ cs) = (c - b'0') + 10 * reversed_value cs

pub spelled-reverse : (cs : List ℕ) → spelled 0 (reverse cs) ≡ reversed_value cs
spelled-reverse [] = refl
spelled-reverse (c ∷ cs) =
    spelled-append 0 (reverse cs) (c ∷ []) ∙ omega (arith, spelled-reverse cs)

pub reversed_value-digits : (n v : ℕ) → v < power10 n → reversed_value (reversed_digits n v) ≡ v
unfolding reversed_digits
reversed_value-digits zero v h = omega arith
reversed_value-digits (suc n) v h = elim (Bool-cases (v / 10 == 0)) [
  | inl last ↦ rw last (ground (arith, last))
  | inr more ↦ rw more (omega (arith, reversed_value-digits n (v / 10) (omega (arith, h))))
]

pub digits-All : (n v : ℕ) → All IsDigit (reversed_digits n v)
unfolding reversed_digits
digits-All zero v = tt
digits-All (suc n) v = (
  ground arith,
  elim (Bool-cases (v / 10 == 0)) [
    | inl last ↦ rw last tt
    | inr more ↦ rw more (digits-All n (v / 10))
  ],
)

-- A number below 10 ^ k has at most k digits, or one.
pub length-reversed_digits :
    (n k v : ℕ) → v < power10 (suc k) → length (reversed_digits n v) ≤ suc k
unfolding reversed_digits
length-reversed_digits zero k v h = omega arith
length-reversed_digits (suc n) zero v h = elim (Bool-cases (v / 10 == 0)) [
  | inl last ↦ rw last (omega arith)
  | inr more ↦ absurd (ground (arith, more, h))
]
length-reversed_digits (suc n) (suc k) v h = elim (Bool-cases (v / 10 == 0)) [
  | inl last ↦ rw last (omega arith)
  | inr more ↦ rw more (omega (arith, length-reversed_digits n k (v / 10) (omega (arith, h))))
]

pub length-reverse : (cs : List ℕ) → length (reverse cs) ≡ length cs
length-reverse [] = refl
length-reverse (c ∷ cs) = omega (arith, length-append (reverse cs) (c ∷ []), length-reverse cs)

pub reverse-All : (P : ℕ → Type 0) (cs : List ℕ) → All P cs → All P (reverse cs)
reverse-All P [] h = tt
reverse-All P (c ∷ cs) (h, hs) = All-append P (reverse cs) (c ∷ []) (reverse-All P cs hs) (h, tt)

-- What write_number writes is digits that spell the number.
pub digits_of-All : (value width : ℕ) → All IsDigit (digits_of value width)
digits_of-All value width =
    All-append IsDigit (replicate (width - length (reversed_digits 20 value)) b'0') _ (zeros-All _)
      (reverse-All IsDigit (reversed_digits 20 value) (digits-All 20 value))

pub spelled-digits_of :
    (value width : ℕ) → value ≤ max_u64 → spelled 0 (digits_of value width) ≡ value
spelled-digits_of value width h =
    let reversed = reversed_digits 20 value in
    spelled-append 0 (replicate (width - length reversed) b'0') (reverse reversed)
    ∙ ap (λ (n : ℕ). spelled n (reverse reversed)) (spelled-zeros (width - length reversed))
    ∙ spelled-reverse reversed
    ∙ reversed_value-digits 20 value (omega (arith, h))

-- The number of digits is the width, or more where the number is longer.
pub length-digits_of :
    (value width : ℕ)
    → length (digits_of value width) ≡ (
        if ltb width (length (reversed_digits 20 value))
        then length (reversed_digits 20 value)
        else width)
length-digits_of value width =
    let reversed = reversed_digits 20 value in
    let sizes = length-append (replicate (width - length reversed) b'0') (reverse reversed) in
    ground (
      arith,
      sizes,
      length-replicate {A = ℕ} (width - length reversed) b'0',
      length-reverse reversed,
    )

-- A text that does not go on with a digit.
abbrev pub Stops : List ℕ → Type 0
Stops [] = Unit
Stops (c ∷ cs) = is_digit c ≡ false

read_digits-Stops :
    (rest : List ℕ) (maximum count value : ℕ)
    → Stops rest
    → read_digits maximum count value rest ≡ done (count, value, rest)
unfolding read_digits
read_digits-Stops [] maximum count value h = refl
read_digits-Stops (c ∷ cs) maximum count value h = rw h refl

-- A number that was written is read back, where the reader allows its number of digits.
pub read-digits_of :
    (value width least greatest : ℕ) (rest : List ℕ)
    → value ≤ max_u64
    → least ≤ length (digits_of value width)
    → length (digits_of value width) ≤ greatest
    → Stops rest
    → read_number least greatest (digits_of value width ++ rest) ≡ done (value, rest)
unfolding read_number
read-digits_of value width least greatest rest fits low high stops =
    let ds = digits_of value width in
    let same = spelled-digits_of value width fits in
    let reads =
      read_digits-append ds rest greatest 0 0 (digits_of-All value width)
        (omega (arith, same, fits)) (omega (arith, high))
      ∙ read_digits-Stops rest greatest (0 + length ds) (spelled 0 ds) stops in
    let long : ltb (0 + length ds) least ≡ false = ground (arith, low) in
    ap (λ r. r >>= end_number least) reads ∙ (rw long (ap (λ (n : ℕ). done (n, rest)) same))
