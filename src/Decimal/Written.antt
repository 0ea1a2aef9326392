-- ===== src/Decimal/Written.antt =====
-- The digits that sqli_decimal_format writes (src/sqli_decimal.c).
use libsqli.Prelude.{
  ℕ, zero, suc, ◌+◌, ◌-◌, ◌*◌, ◌%◌, ◌≤◌, ◌<◌, ◌≡◌, refl, ap, ◌∙◌, Bool, true, false, List, [], ◌∷◌,
  ◌++◌, ◌==◌, if◌then◌else◌, length, inl, inr, arith, Bool-cases, replicate,
}
use libsqli.Prelude.Bytes.{All}
use libsqli.Decimal.Number.{decimal_digit}
use libsqli.Decimal.Values.{limbs_value, IsLimb, tail_of, decimal_digit-value}
use libsqli.Decimal.Sizes.{tail_of-suc}
use libsqli.Decimal.Text.{ascii_digit, digits_text, pointed_text}
use libsqli.Decimal.Mantissa.{shift_up, shift_up-zero, shift_up-sum}
use libsqli.Decimal.Spelling.{count, mantissa_value, significant_of}
use libsqli.Decimal.Scanned.{is_mantissa, fraction_of}

abbrev pub IsDigit : ℕ → Type 0
IsDigit c = ascii_digit c ≡ true

pub length-digits_text : (ls : List ℕ) (n m i : ℕ) → length (digits_text ls n m i) ≡ m
unfolding digits_text
length-digits_text ls n zero i = refl
length-digits_text ls n (suc m) i = ap suc (length-digits_text ls n m (suc i))

decimal_digit-IsDigit :
    (ls : List ℕ) (n i : ℕ) → All IsLimb ls → i < n → IsDigit (b'0' + decimal_digit ls n i)
decimal_digit-IsDigit ls n i h l = ground (arith, decimal_digit-value ls n i h l)

pub digits_text-All :
    (ls : List ℕ) (n m i : ℕ) → All IsLimb ls → i + m ≤ n → All IsDigit (digits_text ls n m i)
unfolding digits_text
digits_text-All ls n zero i h l = tt
digits_text-All ls n (suc m) i h l = (
  decimal_digit-IsDigit ls n i h (omega (arith, l)),
  digits_text-All ls n m (suc i) h (omega (arith, l)),
)

-- A text of digits, with nothing else in it.
pub digits-mantissa : (p : Bool) (cs : List ℕ) → All IsDigit cs → is_mantissa p cs ≡ true
digits-mantissa p [] h = refl
digits-mantissa p (c ∷ cs) (h, hs) =
    let other : (c == b'.') ≡ false = ground (arith, h) in rw (other, h) (digits-mantissa p cs hs)

pub digits-count : (cs : List ℕ) → All IsDigit cs → count cs ≡ length cs
digits-count [] h = refl
digits-count (c ∷ cs) (h, hs) =
    let other : (c == b'.') ≡ false = ground (arith, h) in rw other (ap suc (digits-count cs hs))

pub digits-fraction :
    (p : Bool) (cs : List ℕ) → All IsDigit cs → fraction_of p cs ≡ (if p then length cs else 0)
digits-fraction true [] h = refl
digits-fraction false [] h = refl
digits-fraction true (c ∷ cs) (h, hs) =
    let other : (c == b'.') ≡ false = ground (arith, h) in
    rw other (ap suc (digits-fraction true cs hs))
digits-fraction false (c ∷ cs) (h, hs) =
    let other : (c == b'.') ≡ false = ground (arith, h) in rw other (digits-fraction false cs hs)

-- The digits from position `i` on are those of the number behind the `i` first ones.
pub digits_text-value :
    (ls : List ℕ) (n m i : ℕ)
    → All IsLimb ls
    → i + m ≡ n
    → mantissa_value (digits_text ls n m i) + shift_up (tail_of (limbs_value ls) m) m
      ≡ limbs_value ls
unfolding digits_text
digits_text-value ls n zero i h e = omega arith
digits_text-value ls n (suc m) i h e =
    let v = limbs_value ls in
    let c = b'0' + decimal_digit ls n i in
    let place : n - i - 1 ≡ m = omega (arith, e) in
    let digit : decimal_digit ls n i ≡ tail_of v m % 10 =
      decimal_digit-value ls n i h (omega (arith, e)) ∙ ap (λ (k : ℕ). tail_of v k % 10) place in
    let here = decimal_digit-IsDigit ls n i h (omega (arith, e)) in
    let other : (c == b'.') ≡ false = ground (arith, here) in
    let later = digits_text-All ls n m (suc i) h (omega (arith, e)) in
    let size =
      digits-count (digits_text ls n m (suc i)) later ∙ length-digits_text ls n m (suc i) in
    let ih = digits_text-value ls n m (suc i) h (omega (arith, e)) in
    let sum = shift_up-sum (tail_of v m % 10) (tail_of v (suc m)) m in
    let whole : tail_of v m % 10 + 10 * tail_of v (suc m) ≡ tail_of v m =
      omega (arith, tail_of-suc v m) in
    let one : c - b'0' ≡ tail_of v m % 10 = omega (arith, digit) in
    rw (other, size, one) (omega (arith, ih, sum, ap (λ (k : ℕ). shift_up k m) whole))

-- A point between digits changes neither the number nor its size.
pub point-IsMantissa :
    (xs ys : List ℕ)
    → All IsDigit xs
    → All IsDigit ys
    → (is_mantissa false (xs ++ (b'.' ∷ ys)) ≡ true)
      × (fraction_of false (xs ++ (b'.' ∷ ys)) ≡ length ys)
      × (count (xs ++ (b'.' ∷ ys)) ≡ count (xs ++ ys))
      × (mantissa_value (xs ++ (b'.' ∷ ys)) ≡ mantissa_value (xs ++ ys))
      × (significant_of (xs ++ (b'.' ∷ ys)) ≡ significant_of (xs ++ ys))
point-IsMantissa [] ys h k =
    (digits-mantissa true ys k, digits-fraction true ys k, refl, refl, refl)
point-IsMantissa (x ∷ xs) ys (h, hs) k =
    let (a, b, c, d, e) = point-IsMantissa xs ys hs k in
    let other : (x == b'.') ≡ false = ground (arith, h) in
    rw (other, h)
      (
        a,
        b,
        ap suc c,
        rw c (ap (λ n. shift_up (x - b'0') (count (xs ++ ys)) + n) d),
        elim (Bool-cases (x == b'0')) [ inl z ↦ rw z e | inr z ↦ rw z (ap suc c) ],
      )

pub zeros_front :
    (n : ℕ) (cs : List ℕ)
    → (mantissa_value (replicate n b'0' ++ cs) ≡ mantissa_value cs)
      × (significant_of (replicate n b'0' ++ cs) ≡ significant_of cs)
zeros_front zero cs = (refl, refl)
zeros_front (suc n) cs =
    let (a, b) = zeros_front n cs in
    (omega (arith, a, shift_up-zero (count (replicate n b'0' ++ cs))), b)

pub zeros-All : (n : ℕ) → All IsDigit (replicate n b'0')
zeros-All zero = tt
zeros-All (suc n) = (refl, zeros-All n)

pub digits_text-split :
    (ls : List ℕ) (n a b i : ℕ)
    → digits_text ls n (a + b) i ≡ digits_text ls n a i ++ digits_text ls n b (i + a)
unfolding digits_text
digits_text-split ls n zero b i =
    let start : 0 + b ≡ b = omega arith in
    let here : i ≡ i + 0 = omega arith in
    ap (λ m. digits_text ls n m i) start ∙ ap (digits_text ls n b) here
digits_text-split ls n (suc a) b i =
    let start : suc a + b ≡ suc (a + b) = omega arith in
    let there : suc i + a ≡ i + suc a = omega arith in
    ap (λ m. digits_text ls n m i) start
    ∙ ap (◌∷◌ (b'0' + decimal_digit ls n i)) (
        digits_text-split ls n a b (suc i)
        ∙ ap (λ k. digits_text ls n a (suc i) ++ digits_text ls n b k) there)

pointed_text-past :
    (ls : List ℕ) (n point m i : ℕ) → point < i → pointed_text ls n point m i ≡ digits_text ls n m i
unfolding pointed_text digits_text
pointed_text-past ls n point zero i h = refl
pointed_text-past ls n point (suc m) i h =
    let past : (i == point) ≡ false = ground (arith, h) in
    rw past (
      ap (◌∷◌ (b'0' + decimal_digit ls n i))
        (pointed_text-past ls n point m (suc i) (omega (arith, h))))

-- A text that ends in front of the place of the point.
pub pointed_text-short :
    (ls : List ℕ) (n point m i : ℕ)
    → i + m ≤ point
    → pointed_text ls n point m i ≡ digits_text ls n m i
unfolding pointed_text digits_text
pointed_text-short ls n point zero i h = refl
pointed_text-short ls n point (suc m) i h =
    let before : (i == point) ≡ false = ground (arith, h) in
    rw before (
      ap (◌∷◌ (b'0' + decimal_digit ls n i))
        (pointed_text-short ls n point m (suc i) (omega (arith, h))))

pub pointed_text-split :
    (ls : List ℕ) (n a b i point m : ℕ)
    → point ≡ i + a
    → m ≡ a + suc b
    → pointed_text ls n point m i ≡ digits_text ls n a i ++ (b'.' ∷ digits_text ls n (suc b) point)
unfolding pointed_text digits_text
pointed_text-split ls n a b i point zero e k = absurd (omega (arith, k))
pointed_text-split ls n zero b i point (suc m) e k =
    let here : (i == point) ≡ true = ground (arith, e) in
    let at : i ≡ point = omega (arith, e) in
    let size : m ≡ b = omega (arith, k) in
    rw here (
      ap (λ rest. b'.' ∷ (b'0' + decimal_digit ls n i) ∷ rest)
        (pointed_text-past ls n point m (suc i) (omega (arith, at)))
      ∙ ap (λ j. b'.' ∷ digits_text ls n (suc m) j) at
      ∙ ap (λ j. b'.' ∷ digits_text ls n (suc j) point) size)
pointed_text-split ls n (suc a) b i point (suc m) e k =
    let before : (i == point) ≡ false = ground (arith, e) in
    rw before (
      ap (◌∷◌ (b'0' + decimal_digit ls n i))
        (pointed_text-split ls n a b (suc i) point m (omega (arith, e)) (omega (arith, k))))
