-- ===== src/Decimal/Mantissa.antt =====
-- The digits of a text put in limbs (the second loop of sqli_decimal_parse in src/sqli_decimal.c).
use mathlib.Core.Path.{subst}
use libsqli.Prelude.{
  ℕ, zero, suc, ◌+◌, ◌-◌, ◌*◌, ◌/◌, ◌%◌, ◌≤◌, ◌<◌, ◌≡◌, refl, sym, ap, ◌∙◌, true, false, ◌||◌, List,
  [], ◌∷◌, ltb, ◌==◌, if◌then◌else◌, length, get_or, inl, inr, arith, Bool-cases, length-set,
}
use libsqli.Prelude.Bytes.{All}
use libsqli.Decimal.Number.{limb_base, power_of_ten}
use libsqli.Decimal.Values.{limbs_value, IsLimb, nine_cases}
use libsqli.Decimal.Text.{ascii_digit, add_digit, place_digits}

-- A character of a mantissa.
abbrev pub IsMark : ℕ → Type 0
IsMark c = (c == b'.' || ascii_digit c) ≡ true

-- d * 10 ^ o
abbrev pub shift_up : ℕ → ℕ → ℕ
shift_up d zero = d
shift_up d (suc o) = 10 * shift_up d o

pub shift_up-add : (d a b : ℕ) → shift_up d (a + b) ≡ shift_up (shift_up d b) a
shift_up-add d zero b = let none_added : 0 + b ≡ b = omega arith in ap (shift_up d) none_added
shift_up-add d (suc a) b =
    let next : suc a + b ≡ suc (a + b) = omega arith in
    ap (shift_up d) next ∙ ap (λ (n : ℕ). 10 * n) (shift_up-add d a b)

pub shift_up-sum : (a b o : ℕ) → shift_up (a + 10 * b) o ≡ shift_up a o + shift_up b (suc o)
shift_up-sum a b zero = refl
shift_up-sum a b (suc o) = omega (arith, shift_up-sum a b o)

pub shift_up-zero : (o : ℕ) → shift_up 0 o ≡ 0
shift_up-zero zero = refl
shift_up-zero (suc o) = omega (arith, shift_up-zero o)

-- `o` digits are put in the limbs: those behind them are 0.
abbrev pub Filled : ℕ → List ℕ → Type 0
Filled o [] = Unit
Filled o (l ∷ ls) = (l < (if ltb o 9 then shift_up 1 o else limb_base)) × Filled (o - 9) ls

small_power : (l o : ℕ) → o < 9 → l < shift_up 1 o → l < limb_base
small_power l =
    nine_cases (λ o. l < shift_up 1 o → l < limb_base) (λ h. omega (arith, h))
      (λ h. omega (arith, h)) (λ h. omega (arith, h)) (λ h. omega (arith, h))
      (λ h. omega (arith, h)) (λ h. omega (arith, h)) (λ h. omega (arith, h))
      (λ h. omega (arith, h)) (λ h. omega (arith, h))

Filled-All : (o : ℕ) (ls : List ℕ) → Filled o ls → All IsLimb ls
Filled-All o [] h = tt
Filled-All o (l ∷ ls) (h, hs) = (
  elim (Bool-cases (ltb o 9)) [
    | inl e ↦ small_power l o (ground (arith, e)) (rw e at h)
    | inr e ↦ rw e at h
  ],
  Filled-All (o - 9) ls hs,
)

pub digit_power : (d o : ℕ) → o < 9 → d * power_of_ten o ≡ shift_up d o
digit_power d =
    nine_cases (λ o. d * power_of_ten o ≡ shift_up d o) (omega arith) (omega arith) (omega arith)
      (omega arith) (omega arith) (omega arith) (omega arith) (omega arith) (omega arith)

next_power : (l d o : ℕ) → o < 9 → d ≤ 9 → l < shift_up 1 o → l + shift_up d o < shift_up 1 (suc o)
next_power l d =
    nine_cases (λ o. d ≤ 9 → l < shift_up 1 o → l + shift_up d o < shift_up 1 (suc o))
      (λ a b. omega (arith, a, b)) (λ a b. omega (arith, a, b)) (λ a b. omega (arith, a, b))
      (λ a b. omega (arith, a, b)) (λ a b. omega (arith, a, b)) (λ a b. omega (arith, a, b))
      (λ a b. omega (arith, a, b)) (λ a b. omega (arith, a, b)) (λ a b. omega (arith, a, b))

last_power : (o : ℕ) → o < 9 → ltb (suc o) 9 ≡ false → shift_up 1 (suc o) ≡ limb_base
last_power o h k = let last : suc o ≡ 9 = ground (arith, h, k) in ap (shift_up 1) last

add_digit-low :
    (l : ℕ) (ls : List ℕ) (o d : ℕ) → o < 9 → add_digit (l ∷ ls) o d ≡ (l + shift_up d o) ∷ ls
unfolding add_digit
add_digit-low l ls o d h =
    let first : o / 9 ≡ 0 = omega (arith, h) in
    let place : o % 9 ≡ o = omega (arith, h) in
    rw (first, place) (ap (λ (n : ℕ). (l + n) ∷ ls) (digit_power d o h))

add_digit-high :
    (l : ℕ) (ls : List ℕ) (o d : ℕ) → 9 ≤ o → add_digit (l ∷ ls) o d ≡ l ∷ add_digit ls (o - 9) d
unfolding add_digit
add_digit-high l ls o d h =
    let later : o / 9 ≡ suc ((o - 9) / 9) = omega (arith, h) in
    let place : o % 9 ≡ (o - 9) % 9 = omega (arith, h) in rw (later, place) refl

add_digit-value :
    (ls : List ℕ) (o d : ℕ)
    → o < 9 * length ls
    → limbs_value (add_digit ls o d) ≡ limbs_value ls + shift_up d o
add_digit-value [] o d h = absurd (omega (arith, h))
add_digit-value (l ∷ ls) o d h = elim (Bool-cases (ltb o 9)) [
  | inl e ↦ ap limbs_value (add_digit-low l ls o d (ground (arith, e))) ∙ omega arith
  | inr e ↦
      let back : o ≡ 9 + (o - 9) = ground (arith, e) in
      let high = ap (shift_up d) back ∙ shift_up-add d 9 (o - 9) in
      let low : o - 9 < 9 * length ls = ground (arith, e, h) in
      ap limbs_value (add_digit-high l ls o d (ground (arith, e)))
      ∙ omega (arith, add_digit-value ls (o - 9) d low, high)
]

front_bound :
    (n o : ℕ)
    → o < 9
    → n < shift_up 1 (suc o)
    → n < (if ltb (suc o) 9 then shift_up 1 (suc o) else limb_base)
front_bound n o h k = elim (Bool-cases (ltb (suc o) 9)) [
  | inl e ↦ rw e k
  | inr e ↦ rw e (subst (λ (m : ℕ). n < m) (last_power o h e) k)
]

add_digit-Filled : (ls : List ℕ) (o d : ℕ) → d ≤ 9 → Filled o ls → Filled (suc o) (add_digit ls o d)
unfolding add_digit
add_digit-Filled [] o d h f = tt
add_digit-Filled (l ∷ ls) o d h (f, fs) = elim (Bool-cases (ltb o 9)) [
  | inl e ↦
      let low : o < 9 = ground (arith, e) in
      let none_behind : o - 9 ≡ suc o - 9 = omega (arith, low) in
      subst (Filled (suc o)) (sym (add_digit-low l ls o d low)) (
        front_bound (l + shift_up d o) o low (next_power l d o low h (rw e at f)),
        subst (λ (n : ℕ). Filled n ls) none_behind fs,
      )
  | inr e ↦
      let high : 9 ≤ o = ground (arith, e) in
      let later : ltb (suc o) 9 ≡ false = ground (arith, e) in
      let next : suc (o - 9) ≡ suc o - 9 = omega (arith, high) in
      let bound : l < limb_base = rw e at f in
      subst (Filled (suc o)) (sym (add_digit-high l ls o d high)) (
        rw later bound,
        subst (λ (n : ℕ). Filled n (add_digit ls (o - 9) d)) next
            (add_digit-Filled ls (o - 9) d h fs),
      )
]

length-add_digit : (ls : List ℕ) (o d : ℕ) → length (add_digit ls o d) ≡ length ls
unfolding add_digit
length-add_digit ls o d = length-set ls (o / 9) (get_or ls (o / 9) 0 + d * power_of_ten (o % 9))

-- The value of up to `n` digits of a text that is read backwards.
abbrev pub back_value : List ℕ → ℕ → ℕ
back_value [] n = 0
back_value (c ∷ cs) zero = 0
back_value (c ∷ cs) (suc n) =
    let skipped = back_value cs (suc n) in
    let rest = back_value cs n in if c == b'.' then skipped else (c - b'0') + 10 * rest

back_value-none : (cs : List ℕ) → back_value cs 0 ≡ 0
back_value-none [] = refl
back_value-none (c ∷ cs) = refl

pub mark_digit : (c : ℕ) → IsMark c → (c == b'.') ≡ false → c - b'0' ≤ 9
mark_digit c h e = ground (arith, h, e)

abbrev pub IsPlaced : List ℕ → ℕ → List ℕ → Type 0
IsPlaced ls n out = (limbs_value out ≡ limbs_value ls + n) × All IsLimb out

IsPlaced-none : (offset : ℕ) (ls : List ℕ) → Filled offset ls → IsPlaced ls (shift_up 0 offset) ls
IsPlaced-none offset ls f = (omega (arith, shift_up-zero offset), Filled-All offset ls f)

-- `n` more digits from `offset` on add their number at that place, and fill the limbs with digits.
pub place_digits-IsPlaced :
    (cs : List ℕ) (n offset : ℕ) (ls : List ℕ)
    → All IsMark cs
    → offset + n ≤ 9 * length ls
    → Filled offset ls
    → IsPlaced ls (shift_up (back_value cs n) offset) (place_digits cs (offset + n) offset ls)
unfolding place_digits
place_digits-IsPlaced [] n offset ls h k f = IsPlaced-none offset ls f
place_digits-IsPlaced (c ∷ cs) zero offset ls h k f =
    let full : ltb offset (offset + 0) ≡ false = ground arith in rw full (IsPlaced-none offset ls f)
place_digits-IsPlaced (c ∷ cs) (suc n) offset ls (h, hs) k f =
    let more : ltb offset (offset + suc n) ≡ true = ground arith in
    elim (Bool-cases (c == b'.')) [
      | inl e ↦ rw (more, e) (place_digits-IsPlaced cs (suc n) offset ls hs k f)
      | inr e ↦
          let d = c - b'0' in
          let next : suc offset + n ≡ offset + suc n = omega arith in
          let size = length-add_digit ls offset d in
          let added = add_digit-value ls offset d (omega (arith, k)) in
          let (value, all) =
            place_digits-IsPlaced cs n (suc offset) (add_digit ls offset d) hs
              (omega (arith, k, size)) (add_digit-Filled ls offset d (mark_digit c h e) f) in
          let sum = shift_up-sum d (back_value cs n) offset in
          let there : IsPlaced ls (shift_up (d + 10 * back_value cs n) offset)
              (place_digits cs (suc offset + n) (suc offset) (add_digit ls offset d)) =
            (omega (arith, value, added, sum), all) in
          rw (more, e)
            (subst
              (λ (m : ℕ).
                IsPlaced ls (shift_up (d + 10 * back_value cs n) offset)
                  (place_digits cs m (suc offset) (add_digit ls offset d)))
              next there)
    ]
