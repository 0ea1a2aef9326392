-- ===== src/Decimal/Stored.antt =====
-- What the operations on decimal numbers store (src/sqli_decimal.c).
use mathlib.Core.Path.{subst}
use libsqli.Prelude.{
  ℕ, ◌≤◌, ◌<◌, ◌≡◌, refl, ap, Bool, true, false, ◌&&◌, not, List, [], ◌∷◌, ltb, ◌==◌, length, inl,
  inr, arith, Bool-cases,
}
use libsqli.Prelude.Bytes.{All}
use libsqli.Status.Chains.{>>-done, reject_if-false, done_same}
use libsqli.Status.{Status, done, ◌>>◌, reject_if}
use libsqli.Decimal.Number.{
  Number, max_digits, max_limbs, reserve, is_nil, trim, any_large, decimal_digits,
  decimal_set_parts, stored_parts, null_number,
}
use libsqli.Decimal.Values.{limbs_value, IsLimb, IsTrimmed}

-- A number as it is stored: nine digits to a limb, no zeros in front, at most a million digits, and
-- no sign at zero.
pub record IsNormal (v : Number) : Type 0 where
  pub limbs : All IsLimb v.limbs
  pub trimmed : IsTrimmed v.limbs
  pub bounded : decimal_digits v.limbs ≤ max_digits
  pub unsigned : is_nil v.limbs ≡ true → v.negative ≡ false
  pub null : v.is_null ≡ true → v ≡ null_number

any_large-All : (ls : List ℕ) → any_large ls ≡ false → All IsLimb ls
any_large-All [] h = tt
any_large-All (l ∷ ls) h = (ground (arith, h), any_large-All ls (ground (arith, h)))

pub All-any_large : (ls : List ℕ) → All IsLimb ls → any_large ls ≡ false
All-any_large [] h = refl
All-any_large (l ∷ ls) (h, hs) = ground (arith, h, All-any_large ls hs)

pub trim-All : (ls : List ℕ) → All IsLimb ls → All IsLimb (trim ls)
unfolding trim
trim-All [] h = tt
trim-All (l ∷ ls) (h, hs) = elim (Bool-cases (l == 0 && is_nil (trim ls))) [
  | inl e ↦ rw e tt
  | inr e ↦ rw e (h, trim-All ls hs)
]

IsTrimmed-front :
    (l : ℕ) (rest : List ℕ)
    → (l == 0 && is_nil rest) ≡ false
    → IsTrimmed rest
    → IsTrimmed (l ∷ rest)
IsTrimmed-front l [] h t = (ground (arith, h), t)
IsTrimmed-front l (x ∷ xs) h (p, t) = (omega (arith, p), (p, t))

pub trim-IsTrimmed : (ls : List ℕ) → IsTrimmed (trim ls)
unfolding trim
trim-IsTrimmed [] = tt
trim-IsTrimmed (l ∷ ls) = elim (Bool-cases (l == 0 && is_nil (trim ls))) [
  | inl e ↦ rw e tt
  | inr e ↦ rw e (IsTrimmed-front l (trim ls) e (trim-IsTrimmed ls))
]

positive_front : (l : ℕ) (ls : List ℕ) → 0 < limbs_value (l ∷ ls) → (l == 0 && is_nil ls) ≡ false
positive_front l [] p = ground (arith, p)
positive_front l (x ∷ xs) p = ground arith

pub trim_same : (ls : List ℕ) → IsTrimmed ls → trim ls ≡ ls
unfolding trim
trim_same [] t = refl
trim_same (l ∷ ls) (p, t) =
    let same = trim_same ls t in
    let kept : (l == 0 && is_nil (trim ls)) ≡ false = rw same (positive_front l ls p) in
    rw kept (ap (◌∷◌ l) same)

ltb-le : (a b : ℕ) → ltb b a ≡ false → a ≤ b
ltb-le a b h = ground (arith, h)

pub null_number-IsNormal : IsNormal null_number
unfolding decimal_digits
null_number-IsNormal = record {
  limbs = tt;
  trimmed = tt;
  bounded = omega arith;
  unsigned = λ e. refl;
  null = λ e. refl;
}

no_sign : (b c : Bool) → b ≡ true → (not b && c) ≡ false
no_sign true c e = refl
no_sign false c e = cc

-- The parts that sqli_decimal_set_parts accepts.
pub decimal_set_parts-done :
    (memory : ℕ → Bool) (parts v : Number)
    → parts.is_null ≡ false
    → decimal_set_parts memory parts ≡ done v
    → (All IsLimb parts.limbs)
      × (decimal_digits (trim parts.limbs) ≤ max_digits)
      × (stored_parts parts ≡ v)
unfolding decimal_set_parts
decimal_set_parts-done memory parts v live h =
    let rest : (reject_if (ltb max_limbs (length parts.limbs)) Status.limit_exceeded
          >> reject_if (any_large parts.limbs) Status.invalid_argument
          >> reserve memory (length (trim parts.limbs))
          >> reject_if (ltb max_digits (decimal_digits (trim parts.limbs))) Status.limit_exceeded
          >> done (stored_parts parts))
        ≡ done v =
      rw live at h in
    let (checks, same) = >>-done _ _ _ rest in
    let (checks, short) = >>-done _ _ _ checks in
    let (checks, room) = >>-done _ _ _ checks in
    let (count, small) = >>-done _ _ _ checks in
    let fits =
      reject_if-false (ltb max_digits (decimal_digits (trim parts.limbs))) Status.limit_exceeded
        short in
    let small_enough = ltb-le (decimal_digits (trim parts.limbs)) max_digits fits in
    (any_large-All parts.limbs (reject_if-false _ _ small), small_enough, done_same _ _ same)

-- sqli_decimal_set_parts stores a normal number.
pub decimal_set_parts-IsNormal :
    (memory : ℕ → Bool) (parts v : Number) → decimal_set_parts memory parts ≡ done v → IsNormal v
unfolding decimal_set_parts
decimal_set_parts-IsNormal memory parts v h = elim (Bool-cases parts.is_null) [
  | inl e ↦ subst IsNormal (done_same null_number v (rw e at h)) null_number-IsNormal
  | inr e ↦
      let (all, bounded, same) = decimal_set_parts-done memory parts v e h in
      subst IsNormal same (record {
        limbs = trim-All parts.limbs all;
        trimmed = trim-IsTrimmed parts.limbs;
        bounded = bounded;
        unsigned = λ e. no_sign (is_nil (trim parts.limbs)) parts.negative e;
        null = λ e. cc;
      })
]
