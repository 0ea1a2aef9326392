-- ===== src/Decimal/Shapes.antt =====
-- The three shapes of the texts that sqli_decimal_format writes (src/sqli_decimal.c).
use mathlib.Core.Path.{subst}
use libsqli.Prelude.{
  ℕ, suc, ◌+◌, ◌≤◌, ◌≡◌, refl, sym, ap, ◌∙◌, true, false, List, [], ◌∷◌, ◌++◌, length, arith,
  replicate, length-append, length-replicate,
}
use libsqli.Prelude.Bytes.{All, All-append}
use libsqli.Decimal.Number.{Number, max_digits, decimal_digits}
use libsqli.Decimal.Values.{limbs_value, decimal_digits-IsSize}
use libsqli.Decimal.Stored.{IsNormal}
use libsqli.Decimal.Text.{digits_text, pointed_text}
use libsqli.Decimal.Mantissa.{shift_up, shift_up-zero}
use libsqli.Decimal.Spelling.{count, mantissa_value, significant_of, significant_of-le}
use libsqli.Decimal.Scanned.{is_mantissa, fraction_of}
use libsqli.Decimal.Written.{
  IsDigit, length-digits_text, digits_text-All, digits-mantissa, digits-count, digits-fraction,
  digits_text-value, point-IsMantissa, zeros_front, zeros-All, digits_text-split,
  pointed_text-split,
}

-- A text that stands for the number `value` with `places` digits behind the point.
pub record IsMantissa (number places : ℕ) (cs : List ℕ) : Type 0 where
  pub marks : is_mantissa false cs ≡ true
  pub some : 1 ≤ count cs
  pub few : significant_of cs ≤ max_digits
  pub fraction : fraction_of false cs ≡ places
  pub value : mantissa_value cs ≡ number

-- All digits of a number, without a point.
all_digits :
    (v : Number)
    → IsNormal v
    → (mantissa_value (digits_text v.limbs (decimal_digits v.limbs) (decimal_digits v.limbs) 0)
        ≡ limbs_value v.limbs)
all_digits v h =
    let n = decimal_digits v.limbs in
    let (p, size, none_left, more) = decimal_digits-IsSize v.limbs h.limbs h.trimmed in
    let nothing = ap (λ (k : ℕ). shift_up k n) none_left ∙ shift_up-zero n in
    let whole = digits_text-value v.limbs n n 0 h.limbs (omega arith) in
    omega (arith, nothing, whole)

pub digits_some : (v : Number) → IsNormal v → 1 ≤ decimal_digits v.limbs
digits_some v h =
    let (p, size, none_left, more) = decimal_digits-IsSize v.limbs h.limbs h.trimmed in
    omega (arith, size)

pub plain-IsMantissa :
    (v : Number)
    → IsNormal v
    → IsMantissa
        (limbs_value v.limbs)
        0
        (digits_text v.limbs (decimal_digits v.limbs) (decimal_digits v.limbs) 0)
plain-IsMantissa v h =
    let n = decimal_digits v.limbs in
    let ds = digits_text v.limbs n n 0 in
    let all = digits_text-All v.limbs n n 0 h.limbs (omega arith) in
    let size = digits-count ds all ∙ length-digits_text v.limbs n n 0 in
    record {
      marks = digits-mantissa false ds all;
      some = omega (arith, size, digits_some v h);
      few = omega (arith, significant_of-le ds, size, h.bounded);
      fraction = digits-fraction false ds all;
      value = all_digits v h;
    }

-- Digits around a point.
pub pointed-IsMantissa :
    (value : ℕ) (xs ys : List ℕ)
    → All IsDigit xs
    → All IsDigit ys
    → 1 ≤ length xs
    → significant_of (xs ++ ys) ≤ max_digits
    → mantissa_value (xs ++ ys) ≡ value
    → IsMantissa value (length ys) (xs ++ (b'.' ∷ ys))
pointed-IsMantissa value xs ys h k some few same =
    let (a, b, c, d, e) = point-IsMantissa xs ys h k in
    let size = digits-count (xs ++ ys) (All-append IsDigit xs ys h k) in
    record {
      marks = a;
      some = omega (arith, c, size, length-append xs ys, some);
      few = omega (arith, e, few);
      fraction = b;
      value = d ∙ same;
    }

-- The digits of a number with a point behind the first `a` of them.
pub split-IsMantissa :
    (v : Number) (a b : ℕ)
    → IsNormal v
    → decimal_digits v.limbs ≡ a + suc b
    → 1 ≤ a
    → IsMantissa
        (limbs_value v.limbs)
        (suc b)
        (pointed_text v.limbs (decimal_digits v.limbs) a (decimal_digits v.limbs) 0)
split-IsMantissa v a b h e k =
    let n = decimal_digits v.limbs in
    let xs = digits_text v.limbs n a 0 in
    let ys = digits_text v.limbs n (suc b) a in
    let start : 0 + a ≡ a = omega arith in
    let whole : xs ++ ys ≡ digits_text v.limbs n n 0 =
      ap (λ k. xs ++ digits_text v.limbs n (suc b) k) (sym start)
      ∙ sym (digits_text-split v.limbs n a (suc b) 0)
      ∙ ap (λ k. digits_text v.limbs n k 0) (sym e) in
    let plain = plain-IsMantissa v h in
    let shape =
      pointed-IsMantissa (limbs_value v.limbs) xs ys
        (digits_text-All v.limbs n a 0 h.limbs (omega (arith, e)))
        (digits_text-All v.limbs n (suc b) a h.limbs (omega (arith, e)))
        (omega (arith, length-digits_text v.limbs n a 0, k))
        (subst (λ t. significant_of t ≤ max_digits) (sym whole) plain.few)
        (ap mantissa_value whole ∙ plain.value) in
    subst (IsMantissa (limbs_value v.limbs) (suc b))
      (sym (pointed_text-split v.limbs n a b 0 a n (sym start) e))
      (subst (λ k. IsMantissa (limbs_value v.limbs) k (xs ++ (b'.' ∷ ys)))
        (length-digits_text v.limbs n (suc b) a) shape)

-- A zero in front of the point, and zeros behind it.
pub zeros-IsMantissa :
    (v : Number) (z : ℕ)
    → IsNormal v
    → IsMantissa (limbs_value v.limbs) (z + decimal_digits v.limbs) (
        b'0'
        ∷ b'.'
        ∷ (replicate z b'0'
            ++ digits_text v.limbs (decimal_digits v.limbs) (decimal_digits v.limbs) 0))
zeros-IsMantissa v z h =
    let n = decimal_digits v.limbs in
    let ds = digits_text v.limbs n n 0 in
    let plain = plain-IsMantissa v h in
    let (value, few) = zeros_front (suc z) ds in
    let size : length (replicate z b'0' ++ ds) ≡ z + n =
      length-append (replicate z b'0') ds
      ∙ omega (arith, length-replicate {A = ℕ} z b'0', length-digits_text v.limbs n n 0) in
    subst (λ k. IsMantissa (limbs_value v.limbs) k (b'0' ∷ b'.' ∷ (replicate z b'0' ++ ds))) size
      (pointed-IsMantissa (limbs_value v.limbs) (b'0' ∷ []) (replicate z b'0' ++ ds) (refl, tt)
        (All-append IsDigit (replicate z b'0') ds (zeros-All z)
          (digits_text-All v.limbs n n 0 h.limbs (omega arith)))
        (omega arith) (omega (arith, few, plain.few)) (value ∙ plain.value))
