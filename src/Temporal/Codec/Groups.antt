-- ===== src/Temporal/Codec/Groups.antt =====
-- Base-100 groups: numbers written to them and read back, and groups put in their slots
-- (src/sqli_temporal_codec.c).
use libsqli.Prelude.{
  ℕ, zero, suc, ◌+◌, ◌-◌, ◌*◌, ◌/◌, ◌%◌, ◌≤◌, ◌<◌, ◌≡◌, refl, sym, ap, ◌∙◌, Bool, true, false, ◌&&◌,
  ◌||◌, List, [], ◌∷◌, ◌++◌, ltb, leb, ◌==◌, length, length-append, length-replicate, length-drop,
  ==_iff, set, drop, replicate, inl, inr, arith, Bool-cases,
}
use mathlib.Core.List.{append_assoc}
use libsqli.Prelude.Bytes.{All, All-append}
use libsqli.Status.{done}
use libsqli.Decimal.Complement.{IsGroup}
use libsqli.Temporal.Codec.{read_groups, place_groups, all_zero, begins_zero, has_large_group}
use libsqli.Temporal.Codec.Encoding.{write_groups, leading_zeros}

-- 100 ^ n
abbrev pub power100 : ℕ → ℕ
power100 zero = 1
power100 (suc n) = 100 * power100 n

abbrev read_one : ℕ × List ℕ → ℕ × List ℕ
read_one r = read_groups 1 r.0 r.1

read_last : (n a : ℕ) (gs : List ℕ) → read_groups (suc n) a gs ≡ read_one (read_groups n a gs)
unfolding read_groups
read_last zero a [] = refl
read_last zero a (g ∷ gs) = refl
read_last (suc n) a [] = read_last n (a * 100) []
read_last (suc n) a (g ∷ gs) = read_last n (a * 100 + g) gs

-- A number below 100 ^ n is read back from its n groups.
pub read-write_groups :
    (n v : ℕ) (rest : List ℕ)
    → v < power100 n
    → read_groups n 0 (write_groups n v ++ rest) ≡ (v, rest)
unfolding write_groups read_groups
read-write_groups zero v rest h = ap (λ (n : ℕ). (n, rest)) (omega (arith, h))
read-write_groups (suc n) v rest h =
    read_last n 0 (write_groups (suc n) v ++ rest)
    ∙ ap (λ (t : List ℕ). read_one (read_groups n 0 t))
        (append_assoc (write_groups n (v / 100)) ((v % 100) ∷ []) rest)
    ∙ ap read_one (read-write_groups n (v / 100) ((v % 100) ∷ rest) (omega (arith, h)))
    ∙ ap (λ (n : ℕ). (n, rest)) (omega arith)

pub length-write_groups : (n v : ℕ) → length (write_groups n v) ≡ n
unfolding write_groups
length-write_groups zero v = refl
length-write_groups (suc n) v = omega (
  arith,
  length-append (write_groups n (v / 100)) ((v % 100) ∷ []),
  length-write_groups n (v / 100),
)

pub write_groups-All : (n v : ℕ) → All IsGroup (write_groups n v)
unfolding write_groups
write_groups-All zero v = tt
write_groups-All (suc n) v =
    All-append IsGroup (write_groups n (v / 100)) ((v % 100) ∷ []) (write_groups-All n (v / 100))
      (omega arith, tt)

-- Zeros behind the last slot change nothing.
place_zeros :
    (k place exponent count : ℕ) (aligned : List ℕ)
    → count + exponent ≤ place
    → place_groups place exponent count (replicate k 0) aligned ≡ done aligned
unfolding place_groups
place_zeros zero place exponent count aligned h = refl
place_zeros (suc k) place exponent count aligned h =
    let out : (ltb place exponent || leb count (place - exponent)) ≡ true = ground (arith, h) in
    rw out (place_zeros k (suc place) exponent count aligned (omega (arith, h)))

set-length :
    (pre : List ℕ) (x g : ℕ) (rest : List ℕ)
    → set (pre ++ (x ∷ rest)) (length pre) g ≡ (pre ++ (g ∷ [])) ++ rest
set-length [] x g rest = refl
set-length (p ∷ pre) x g rest = ap (◌∷◌ p) (set-length pre x g rest)

-- The groups fill the slots behind the first ones.
place_all :
    (gs pre : List ℕ) (k place exponent count : ℕ)
    → place ≡ exponent + length pre
    → count ≡ length pre + length gs
    → place_groups place exponent count (gs ++ replicate k 0) (pre ++ replicate (length gs) 0)
      ≡ done (pre ++ gs)
unfolding place_groups
place_all [] pre k place exponent count h c =
    place_zeros k place exponent count (pre ++ []) (omega (arith, h, c))
place_all (g ∷ gs) pre k place exponent count h c =
    let out : (ltb place exponent || leb count (place - exponent)) ≡ false = ground (arith, h, c) in
    let slot : place - exponent ≡ length pre = omega (arith, h) in
    let size = length-append pre (g ∷ []) in
    rw (out, slot)
      (rw (set-length pre 0 g (replicate (length gs) 0)) (
        place_all gs (pre ++ (g ∷ [])) k (suc place) exponent count (omega (arith, h, size))
          (omega (arith, c, size))
        ∙ ap done (append_assoc pre (g ∷ []) gs)))

pub leading_zeros-le : (gs : List ℕ) → leading_zeros gs ≤ length gs
unfolding leading_zeros
leading_zeros-le [] = omega arith
leading_zeros-le (g ∷ gs) = ground (arith, leading_zeros-le gs)

pub leading_zeros-append :
    (gs : List ℕ) → replicate (leading_zeros gs) 0 ++ drop (leading_zeros gs) gs ≡ gs
unfolding leading_zeros
leading_zeros-append [] = refl
leading_zeros-append (g ∷ gs) = elim (Bool-cases (g == 0)) [
  | inr e ↦ rw e refl
  | inl e ↦ rw (e, (==_iff g 0).0 e) (ap (◌∷◌ 0) (leading_zeros-append gs))
]

pub length-drop_zeros :
    (gs : List ℕ) → leading_zeros gs + length (drop (leading_zeros gs) gs) ≡ length gs
length-drop_zeros gs = omega (arith, leading_zeros-le gs, length-drop (leading_zeros gs) gs)

replicate-add :
    (a b : ℕ) → replicate {A = ℕ} (a + b) 0 ≡ replicate {A = ℕ} a 0 ++ replicate {A = ℕ} b 0
replicate-add zero b = ap (λ (n : ℕ). replicate n 0) (omega arith)
replicate-add (suc a) b =
    let next : suc a + b ≡ suc (a + b) = omega arith in
    ap (λ (n : ℕ). replicate n 0) next ∙ ap (◌∷◌ 0) (replicate-add a b)

zero_tail : (b c : Bool) → b ≡ true → (b && c) ≡ false → c ≡ false
zero_tail true c e h = h
zero_tail false c e h = cc

zero_both : (b c : Bool) → (b && c) ≡ true → (b ≡ true) × (c ≡ true)
zero_both true c h = (refl, h)
zero_both false c h = cc

suc_same : (a b : ℕ) → (a == b) ≡ true → (suc a == suc b) ≡ true
suc_same a b h = ground (arith, h)

same_suc : (a b : ℕ) → (a == b) ≡ false → (suc a == suc b) ≡ false
same_suc a b h = ground (arith, h)

-- The groups without the leading zeros are put back in their slots.
pub place-normal :
    (gs : List ℕ) (place : ℕ)
    → 64 ≤ place
    → length gs ≤ 11
    → place_groups place
        (place - leading_zeros gs)
        (length gs)
        (drop (leading_zeros gs) gs ++ replicate (leading_zeros gs) 0)
        (replicate (length gs) 0)
      ≡ done gs
place-normal gs place h k =
    let first = leading_zeros gs in
    let kept = drop first gs in
    let size = length-drop_zeros gs in
    let zeros = length-replicate {A = ℕ} first 0 in
    ap (place_groups place (place - first) (length gs) (kept ++ replicate first 0))
      (ap (λ (n : ℕ). replicate n 0) (sym size) ∙ replicate-add first (length kept))
    ∙ place_all kept (replicate first 0) first place (place - first) (length gs)
        (omega (arith, h, k, size, zeros)) (omega (arith, size, zeros))
    ∙ ap done (leading_zeros-append gs)

-- Behind the leading zeros there is a group other than 0, unless all are.
pub normal-begins :
    (gs : List ℕ) (rest : List ℕ)
    → all_zero gs ≡ false
    → (begins_zero (drop (leading_zeros gs) gs ++ rest) ≡ false)
      × (all_zero (drop (leading_zeros gs) gs ++ rest) ≡ false)
      × ((leading_zeros gs == length gs) ≡ false)
unfolding leading_zeros
normal-begins [] rest h = cc
normal-begins (g ∷ gs) rest h = elim (Bool-cases (g == 0)) [
  | inr e ↦ rw e (e, rw e refl, ground arith)
  | inl e ↦
      let ih = normal-begins gs rest (zero_tail (g == 0) (all_zero gs) e h) in
      rw e (ih.0, ih.1, same_suc (leading_zeros gs) (length gs) ih.2)
]

pub zeros-begins : (gs : List ℕ) → all_zero gs ≡ true → (leading_zeros gs == length gs) ≡ true
unfolding leading_zeros
zeros-begins [] h = refl
zeros-begins (g ∷ gs) h =
    let (a, b) = zero_both (g == 0) (all_zero gs) h in
    rw a (suc_same (leading_zeros gs) (length gs) (zeros-begins gs b))

pub large_lem : (gs : List ℕ) → All IsGroup gs → has_large_group gs ≡ false
large_lem [] h = refl
large_lem (g ∷ gs) (h, hs) = ground (arith, h, large_lem gs hs)

pub replicate-All : (k : ℕ) → All IsGroup (replicate k 0)
replicate-All zero = tt
replicate-All (suc k) = (omega arith, replicate-All k)

pub drop-All : (P : ℕ → Type 0) (k : ℕ) (gs : List ℕ) → All P gs → All P (drop k gs)
drop-All P zero gs h = h
drop-All P (suc k) [] h = tt
drop-All P (suc k) (g ∷ gs) (h, hs) = drop-All P k gs hs
