-- ===== src/Decimal/Spelling.antt =====
-- The number that a mantissa spells, and the limbs that sqli_decimal_parse makes of it
-- (src/sqli_decimal.c).
use mathlib.Core.Path.{subst}
use libsqli.Prelude.{
  ℕ, zero, suc, ◌+◌, ◌-◌, ◌/◌, ◌≤◌, ◌≡◌, refl, ap, ◌∙◌, Bool, true, false, ◌||◌, List, [], ◌∷◌,
  ◌++◌, ltb, ◌==◌, if◌then◌else◌, inl, inr, arith, Bool-cases, replicate, length-replicate,
}
use libsqli.Prelude.Bytes.{All}
use libsqli.Temporal.Format.{reverse}
use libsqli.Temporal.Digits.{reverse-All}
use libsqli.Decimal.Values.{limbs_value, IsLimb}
use libsqli.Decimal.Text.{place_digits, mantissa_limbs}
use libsqli.Decimal.Mantissa.{
  IsMark, shift_up, shift_up-zero, Filled, IsPlaced, back_value, place_digits-IsPlaced,
}

-- The digits of a text, without its point.
abbrev pub count : List ℕ → ℕ
count [] = 0
count (c ∷ cs) = let rest = count cs in if c == b'.' then rest else suc rest

-- The number that they spell.
abbrev pub mantissa_value : List ℕ → ℕ
mantissa_value [] = 0
mantissa_value (c ∷ cs) =
    let rest = mantissa_value cs in
    if c == b'.' then rest else shift_up (c - b'0') (count cs) + rest

-- The digits behind the zeros in front.
abbrev pub significant_of : List ℕ → ℕ
significant_of [] = 0
significant_of (c ∷ cs) =
    let rest = significant_of cs in if c == b'.' || c == b'0' then rest else suc (count cs)

pub significant_of-le : (cs : List ℕ) → significant_of cs ≤ count cs
significant_of-le [] = omega arith
significant_of-le (c ∷ cs) = ground (arith, significant_of-le cs)

count-append : (xs ys : List ℕ) → count (xs ++ ys) ≡ count xs + count ys
count-append [] ys = omega arith
count-append (x ∷ xs) ys = ground (arith, count-append xs ys)

count-reverse : (cs : List ℕ) → count (reverse cs) ≡ count cs
count-reverse [] = refl
count-reverse (c ∷ cs) = ground (arith, count-append (reverse cs) (c ∷ []), count-reverse cs)

-- A character behind the others of a text that is read backwards, where `n` reaches it.
back_value-point : (xs : List ℕ) (n : ℕ) → back_value (xs ++ (b'.' ∷ [])) n ≡ back_value xs n
back_value-point [] zero = refl
back_value-point [] (suc n) = refl
back_value-point (x ∷ xs) zero = refl
back_value-point (x ∷ xs) (suc n) =
    ground (arith, back_value-point xs (suc n), back_value-point xs n)

back_value-digit :
    (xs : List ℕ) (c n : ℕ)
    → (c == b'.') ≡ false
    → back_value (xs ++ (c ∷ [])) n
      ≡ back_value xs n + (if ltb (count xs) n then shift_up (c - b'0') (count xs) else 0)
back_value-digit [] c zero h = refl
back_value-digit [] c (suc n) h = ground (arith, h)
back_value-digit (x ∷ xs) c zero h = ground arith
back_value-digit (x ∷ xs) c (suc n) h = elim (Bool-cases (x == b'.')) [
  | inl e ↦ rw e (back_value-digit xs c (suc n) h)
  | inr e ↦ rw e (ground (arith, back_value-digit xs c n h))
]

zero_digit : (n d k : ℕ) (b : Bool) → d ≡ 0 → n + (if b then shift_up d k else 0) ≡ shift_up d k + n
zero_digit n d k true e = omega arith
zero_digit n d k false e = omega (arith, ap (λ (m : ℕ). shift_up m k) e, shift_up-zero k)

-- Enough digits of a text, read backwards, are the number that it spells.
back_value-reverse :
    (cs : List ℕ) (n : ℕ) → significant_of cs ≤ n → back_value (reverse cs) n ≡ mantissa_value cs
back_value-reverse [] n h = refl
back_value-reverse (c ∷ cs) n h = elim (Bool-cases (c == b'.')) [
  | inl e ↦
      let point : c ≡ b'.' = ground (arith, e) in
      rw e (
        ap (λ (m : ℕ). back_value (reverse cs ++ (m ∷ [])) n) point
        ∙ back_value-point (reverse cs) n
        ∙ back_value-reverse cs n (rw e at h))
  | inr e ↦
      let same = count-reverse cs in
      elim (Bool-cases (c == b'0')) [
        | inl z ↦
            let ih = back_value-reverse cs n (rw (e, z) at h) in
            rw e (
              back_value-digit (reverse cs) c n e
              ∙ rw (same, ih)
                  (zero_digit (mantissa_value cs) (c - b'0') (count cs) (ltb (count cs) n)
                    (ground (arith, z))))
        | inr z ↦
            let reached : suc (count cs) ≤ n = rw (e, z) at h in
            let ih = back_value-reverse cs n (omega (arith, reached, significant_of-le cs)) in
            let inside : ltb (count cs) n ≡ true = ground (arith, reached) in
            rw e (back_value-digit (reverse cs) c n e ∙ rw (same, ih, inside) (omega arith))
      ]
]

zeros-Filled : (n : ℕ) → Filled 0 (replicate n 0)
zeros-Filled zero = tt
zeros-Filled (suc n) = (omega arith, zeros-Filled n)

zeros-value : (n : ℕ) → limbs_value (replicate n 0) ≡ 0
zeros-value zero = refl
zeros-value (suc n) = omega (arith, zeros-value n)

-- The limbs of a mantissa hold the number that it spells, nine digits to a limb.
pub mantissa_limbs-value :
    (cs : List ℕ) (n : ℕ)
    → All IsMark cs
    → significant_of cs ≤ n
    → (limbs_value (mantissa_limbs cs n ((n + 9 - 1) / 9)) ≡ mantissa_value cs)
      × All IsLimb (mantissa_limbs cs n ((n + 9 - 1) / 9))
unfolding mantissa_limbs
mantissa_limbs-value cs n h k =
    let size = (n + 9 - 1) / 9 in
    let room = length-replicate {A = ℕ} size 0 in
    let start : 0 + n ≡ n = omega arith in
    let (value, all) =
      subst
        (λ (m : ℕ).
          IsPlaced (replicate size 0) (shift_up (back_value (reverse cs) n) 0)
            (place_digits (reverse cs) m 0 (replicate size 0)))
        start
        (place_digits-IsPlaced (reverse cs) n 0 (replicate size 0) (reverse-All IsMark cs h)
          (omega (arith, room)) (zeros-Filled size)) in
    (omega (arith, value, zeros-value size, back_value-reverse cs n k), all)
