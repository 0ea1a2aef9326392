-- ===== src/Decimal/TextSize.antt =====
-- The number of characters that sqli_decimal_format announces (src/sqli_decimal.c).
use libsqli.Prelude.{
  ℕ, zero, suc, ◌+◌, ◌-◌, ◌≤◌, ◌≡◌, true, false, ◌&&◌, ◌||◌, List, ltb, leb, if◌then◌else◌, length,
  inl, inr, arith, Bool-cases, replicate, length-append, length-replicate,
}
use libsqli.Prelude.Int.{ℤ, pos, negsuc, pos_part, neg_part, ◌-ℤ◌, ltb_ℤ}
use libsqli.Temporal.Digits.{length-reverse, length-reversed_digits}
use libsqli.Decimal.Number.{Number, max_digits, max_i64, decimal_digits, is_below_zero}
use libsqli.Decimal.Stored.{IsNormal}
use libsqli.Decimal.Text.{
  digits_text, pointed_text, is_i32, exponent_digits, exponent_text, is_scientific, unsigned_text,
  decimal_text, text_length, max_decimal_text,
}
use libsqli.Decimal.Written.{length-digits_text}
use libsqli.Decimal.Shapes.{digits_some}
use libsqli.Decimal.Layout.{exponent_for, exponent_small}

length-pointed_text :
    (ls : List ℕ) (n point m i : ℕ)
    → length (pointed_text ls n point m i) ≡ m + (if leb i point && ltb point (i + m) then 1 else 0)
unfolding pointed_text
length-pointed_text ls n point zero i = ground arith
length-pointed_text ls n point (suc m) i = ground (arith, length-pointed_text ls n point m (suc i))

length-exponent_text : (e : ℤ) → length (exponent_text e) ≡ 2 + length (exponent_digits e)
unfolding exponent_text
length-exponent_text e = omega (arith, length-reverse (exponent_digits e))

-- What is announced is what is written.
pub length-decimal_text : (v : Number) → IsNormal v → length (decimal_text v) ≡ text_length v
unfolding decimal_text text_length unsigned_text
length-decimal_text v h =
    let n = decimal_digits v.limbs in
    let e = exponent_for n v.scale in
    let s = pos_part v.scale in
    let some = digits_some v h in
    let plain = length-digits_text v.limbs n n 0 in
    elim (Bool-cases (is_scientific v e)) [
      | inl sci ↦ rw sci (
          ground (
            arith,
            some,
            length-append (pointed_text v.limbs n 1 n 0) (exponent_text e),
            length-pointed_text v.limbs n 1 n 0,
            length-exponent_text e,
          ))
      | inr sci ↦ rw sci (
          ground (
            arith,
            some,
            plain,
            length-append (replicate (s - n) b'0') (digits_text v.limbs n n 0),
            length-replicate {A = ℕ} (s - n) b'0',
            length-pointed_text v.limbs n (n - s) n 0,
          ))
    ]

plain_small :
    (n : ℕ) (s : ℤ)
    → n ≤ max_digits
    → 1 ≤ n
    → (is_below_zero s || ltb_ℤ (exponent_for n s) (negsuc 5)) ≡ false
    → pos_part s ≤ n + 5
unfolding ◌-ℤ◌
plain_small n (pos s) h k e = ground (arith, h, k, e)
plain_small n (negsuc s) h k e = omega arith

exponent_digits-few : (e : ℤ) → pos_part e + neg_part e ≤ max_i64 → length (exponent_digits e) ≤ 19
unfolding exponent_digits
exponent_digits-few e h = length-reversed_digits 20 18 (pos_part e + neg_part e) (omega (arith, h))

-- No text is too long for sqli_decimal_parse.
pub text_length-bounded :
    (v : Number) → IsNormal v → is_i32 v.scale ≡ true → text_length v ≤ max_decimal_text
unfolding text_length
text_length-bounded v h k =
    let n = decimal_digits v.limbs in
    let e = exponent_for n v.scale in
    let some = digits_some v h in
    elim (Bool-cases (is_scientific v e)) [
      | inl sci ↦
          let few = exponent_digits-few e (exponent_small n v.scale h.bounded k) in
          rw sci (ground (arith, few, h.bounded))
      | inr sci ↦ rw sci (ground (arith, plain_small n v.scale h.bounded some sci, h.bounded, some))
    ]

pub text_length-positive : (v : Number) → IsNormal v → 1 ≤ text_length v
unfolding text_length
text_length-positive v h = ground (arith, digits_some v h)
