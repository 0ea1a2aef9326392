-- ===== src/Decimal/Values.antt =====
-- The number that limbs stand for, and its decimal digits (src/sqli_decimal.c).
use libsqli.Prelude.{
  ℕ, zero, suc, ◌+◌, ◌-◌, ◌*◌, ◌/◌, ◌%◌, ◌≤◌, ◌<◌, ◌≡◌, refl, sym, ap, ◌∙◌, true, false, ◌&&◌, List,
  [], ◌∷◌, leb, ◌==◌, length, inl, inr, arith, Bool-cases, ==_iff,
}
use mathlib.Core.Path.{subst}
use libsqli.Prelude.Bytes.{All}
use libsqli.Decimal.Number.{
  limb_base, power_of_ten, is_nil, trim, limb_digits, decimal_digits, digit_at, decimal_digit,
}

abbrev pub limbs_value : List ℕ → ℕ
limbs_value [] = 0
limbs_value (l ∷ ls) = l + limb_base * limbs_value ls

abbrev pub IsLimb : ℕ → Type 0
IsLimb l = l < limb_base

-- No zeros at the most significant end.
abbrev pub IsTrimmed : List ℕ → Type 0
IsTrimmed [] = Unit
IsTrimmed (l ∷ ls) = (0 < limbs_value (l ∷ ls)) × IsTrimmed ls

-- Trimmed limbs are determined by their number.
pub same_limbs :
    (xs ys : List ℕ)
    → All IsLimb xs
    → All IsLimb ys
    → IsTrimmed xs
    → IsTrimmed ys
    → limbs_value xs ≡ limbs_value ys
    → xs ≡ ys
same_limbs [] [] a b c d h = refl
same_limbs [] (y ∷ ys) a b c (d, ds) h = absurd (omega (arith, d, h))
same_limbs (x ∷ xs) [] a b (c, cs) d h = absurd (omega (arith, c, h))
same_limbs (x ∷ xs) (y ∷ ys) (a, al) (b, bl) (c, cs) (d, ds) h =
    ap (λ (n : ℕ). n ∷ xs) (omega (arith, a, b, h))
    ∙ ap (◌∷◌ y) (same_limbs xs ys al bl cs ds (omega (arith, a, b, h)))

empty_value :
    (l : ℕ) (rest : List ℕ) (v : ℕ)
    → (l == 0 && is_nil rest) ≡ true
    → limbs_value rest ≡ v
    → 0 ≡ l + limb_base * v
empty_value l [] v h k = ground (arith, h, k)
empty_value l (x ∷ xs) v h k = ground (arith, h)

-- trim keeps the number and leaves no zeros.
pub trim-value : (ls : List ℕ) → limbs_value (trim ls) ≡ limbs_value ls
unfolding trim
trim-value [] = refl
trim-value (l ∷ ls) = elim (Bool-cases (l == 0 && is_nil (trim ls))) [
  | inl e ↦ rw e (empty_value l (trim ls) (limbs_value ls) e (trim-value ls))
  | inr e ↦ rw e (omega (arith, trim-value ls))
]

-- `v` without its last `o` digits.
abbrev pub tail_of : ℕ → ℕ → ℕ
tail_of v zero = v
tail_of v (suc o) = tail_of (v / 10) o

pub tail_of-add : (v a b : ℕ) → tail_of v (a + b) ≡ tail_of (tail_of v a) b
tail_of-add v zero b = let none_added : 0 + b ≡ b = omega arith in ap (tail_of v) none_added
tail_of-add v (suc a) b =
    let next : suc a + b ≡ suc (a + b) = omega arith in
    ap (tail_of v) next ∙ tail_of-add (v / 10) a b

pub nine_cases :
    (P : ℕ → Type 0) → P 0 → P 1 → P 2 → P 3 → P 4 → P 5 → P 6 → P 7 → P 8 → (k : ℕ) → k < 9 → P k
nine_cases P a b c d e f g h i zero l = a
nine_cases P a b c d e f g h i (suc zero) l = b
nine_cases P a b c d e f g h i (suc (suc zero)) l = c
nine_cases P a b c d e f g h i (suc (suc (suc zero))) l = d
nine_cases P a b c d e f g h i (suc (suc (suc (suc zero)))) l = e
nine_cases P a b c d e f g h i (suc (suc (suc (suc (suc zero))))) l = f
nine_cases P a b c d e f g h i (suc (suc (suc (suc (suc (suc zero)))))) l = g
nine_cases P a b c d e f g h i (suc (suc (suc (suc (suc (suc (suc zero))))))) l = h
nine_cases P a b c d e f g h i (suc (suc (suc (suc (suc (suc (suc (suc zero)))))))) l = i
nine_cases P a b c d e f g h i (suc (suc (suc (suc (suc (suc (suc (suc (suc k))))))))) l =
    absurd (omega (arith, l))

low_digit : (l v k : ℕ) → k < 9 → l / power_of_ten k % 10 ≡ tail_of (l + limb_base * v) k % 10
low_digit l v =
    nine_cases (λ k. l / power_of_ten k % 10 ≡ tail_of (l + limb_base * v) k % 10) (omega arith)
      (omega arith) (omega arith) (omega arith) (omega arith) (omega arith) (omega arith)
      (omega arith) (omega arith)

pub high_tail : (o l v : ℕ) → l < limb_base → tail_of (l + limb_base * v) (9 + o) ≡ tail_of v o
high_tail o l v h =
    tail_of-add (l + limb_base * v) 9 o ∙ ap (λ (n : ℕ). tail_of n o) (omega (arith, h))

pub tail_of-zero : (o : ℕ) → tail_of 0 o ≡ 0
tail_of-zero zero = refl
tail_of-zero (suc o) = tail_of-zero o

no_digit : (k : ℕ) → k < 9 → 0 / power_of_ten k % 10 ≡ 0
no_digit =
    nine_cases (λ k. 0 / power_of_ten k % 10 ≡ 0) refl refl refl refl refl refl refl refl refl

-- The digit `offset` places in front of the last one is that of the number.
pub digit_at-value :
    (ls : List ℕ) (offset : ℕ)
    → All IsLimb ls
    → digit_at ls offset ≡ tail_of (limbs_value ls) offset % 10
unfolding digit_at
digit_at-value [] offset h =
    no_digit (offset % 9) (omega arith) ∙ ap (λ (n : ℕ). n % 10) (sym (tail_of-zero offset))
digit_at-value (l ∷ ls) offset (h, hs) = elim (Bool-cases (leb 9 offset)) [
  | inr low ↦
      let first : offset / 9 ≡ 0 = ground (arith, low) in
      let place : offset % 9 ≡ offset = ground (arith, low) in
      rw (first, place) (low_digit l (limbs_value ls) offset (ground (arith, low)))
  | inl high ↦
      let later : offset / 9 ≡ suc ((offset - 9) / 9) = ground (arith, high) in
      let place : offset % 9 ≡ (offset - 9) % 9 = ground (arith, high) in
      let back : 9 + (offset - 9) ≡ offset = ground (arith, high) in
      rw (later, place)
        (digit_at-value ls (offset - 9) hs
          ∙ ap (λ (n : ℕ). n % 10) (sym (high_tail (offset - 9) l (limbs_value ls) h))
          ∙ ap (λ (n : ℕ). tail_of (l + limb_base * limbs_value ls) n % 10) back)
]

-- `n` digits hold the number, and fewer do not.
abbrev pub IsSize : ℕ → ℕ → Type 0
IsSize v n = (p : ℕ) × (n ≡ suc p) × (tail_of v n ≡ 0) × (0 < v → 0 < tail_of v p)

IsSize-suc : (l m : ℕ) → 0 < l / 10 → IsSize (l / 10) m → IsSize l (suc m)
IsSize-suc l m p (k, e, a, b) = (suc k, ap suc e, a, (λ h. b p))

has_fuel : (n v : ℕ) → tail_of v n ≡ 0 → 0 < v → 1 ≤ n
has_fuel zero v h p = absurd (omega (arith, h, p))
has_fuel (suc n) v h p = omega arith

limb_digits-IsSize : (n l : ℕ) → tail_of l n ≡ 0 → 1 ≤ n → IsSize l (limb_digits n l)
unfolding limb_digits
limb_digits-IsSize zero l h k = absurd (omega (arith, k))
limb_digits-IsSize (suc n) l h k = elim (Bool-cases (l / 10 == 0)) [
  | inl last ↦ rw last (0, refl, (==_iff (l / 10) 0).0 last, (λ p. p))
  | inr more ↦ rw more (
      IsSize-suc l (limb_digits n (l / 10)) (ground (arith, more))
        (limb_digits-IsSize n (l / 10) h (has_fuel n (l / 10) h (ground (arith, more)))))
]

decimal_digits-next :
    (l m : ℕ) (ls : List ℕ) → decimal_digits (l ∷ m ∷ ls) ≡ 9 + decimal_digits (m ∷ ls)
unfolding decimal_digits
decimal_digits-next l m ls =
    let long : length (l ∷ m ∷ ls) - 1 ≡ suc (length ls) = omega arith in
    let short : length (m ∷ ls) - 1 ≡ length ls = omega arith in rw (long, short) (omega arith)

IsSize-high : (l v n : ℕ) → l < limb_base → 0 < v → IsSize v n → IsSize (l + limb_base * v) (9 + n)
IsSize-high l v n h p (k, e, a, b) = (
  9 + k,
  omega (arith, e),
  high_tail n l v h ∙ a,
  (λ q. subst (λ (x : ℕ). 0 < x) (sym (high_tail k l v h)) (b p)),
)

-- decimal_digits counts the digits of the number, and at least one.
pub decimal_digits-IsSize :
    (ls : List ℕ) → All IsLimb ls → IsTrimmed ls → IsSize (limbs_value ls) (decimal_digits ls)
unfolding decimal_digits
decimal_digits-IsSize [] h t = (0, refl, refl, (λ p. p))
decimal_digits-IsSize (l ∷ []) (h, hs) t =
    let whole : l ≡ l + limb_base * 0 = omega arith in
    let one : limb_digits 10 l ≡ 0 * 9 + limb_digits 10 l = omega arith in
    subst (λ (v : ℕ). IsSize v (decimal_digits (l ∷ []))) whole
      (subst (IsSize l) one (limb_digits-IsSize 10 l (omega (arith, h)) (omega arith)))
decimal_digits-IsSize (l ∷ m ∷ ls) (h, hs) (p, (q, t)) =
    subst (IsSize (limbs_value (l ∷ m ∷ ls))) (sym (decimal_digits-next l m ls)) (
      IsSize-high l (limbs_value (m ∷ ls)) (decimal_digits (m ∷ ls)) h q
        (decimal_digits-IsSize (m ∷ ls) hs (q, t)))

-- A digit of the number, whatever its position.
pub decimal_digit-value :
    (ls : List ℕ) (digits position : ℕ)
    → All IsLimb ls
    → position < digits
    → decimal_digit ls digits position ≡ tail_of (limbs_value ls) (digits - position - 1) % 10
unfolding decimal_digit
decimal_digit-value [] digits position h k =
    ap (λ (n : ℕ). n % 10) (sym (tail_of-zero (digits - position - 1)))
decimal_digit-value (l ∷ ls) digits position h k =
    let inside : leb digits position ≡ false = ground (arith, k) in
    rw inside (digit_at-value (l ∷ ls) (digits - position - 1) h)
