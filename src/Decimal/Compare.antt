-- ===== src/Decimal/Compare.antt =====
-- sqli_decimal_compare orders the numbers, whatever their scales (src/sqli_decimal.c).
use libsqli.Prelude.{
  ℕ, ◌<◌, ◌≡◌, refl, sym, ap, ◌∙◌, Bool, true, false, not, List, if◌then◌else◌, inl, inr, arith,
  Bool-cases,
}
use libsqli.Prelude.Int.{ℤ, pos, pos_part, neg_part, sub_ℕ, ◌-ℤ◌, ltb_ℤ, same_ℤ}
use libsqli.Status.{done}
use libsqli.Decimal.Number.{Number, is_nil}
use libsqli.Decimal.Values.{limbs_value}
use libsqli.Decimal.Stored.{IsNormal}
use libsqli.Decimal.Sizes.{empty_zero}
use libsqli.Decimal.Mantissa.{shift_up, shift_up-zero}
use libsqli.Decimal.Rescale.{le-shift_up, trimmed_value}
use libsqli.Decimal.Scaling.{order_of, negate, equal_signs, compare_magnitudes, decimal_compare}
use libsqli.Decimal.Order.{order_ℕ}
use libsqli.Decimal.Magnitudes.{compare_magnitudes-order}

-- The number of a coefficient with its sign.
abbrev pub signed : Bool → ℕ → ℤ
signed negative n = if negative then sub_ℕ 0 n else pos n

-- The order of two integers, as -1, 0 or 1.
abbrev pub order_ℤ : ℤ → ℤ → ℤ
order_ℤ a b = if same_ℤ a b then pos 0 else order_of (ltb_ℤ a b)

less_order :
    (l r : Bool) (a b : ℕ)
    → 0 < a
    → 0 < b
    → (if not (equal_signs l r)
        then order_of l
        else if l
        then negate (order_ℕ a b)
        else order_ℕ a b)
      ≡ order_ℤ (signed l a) (signed r b)
unfolding order_of negate ◌-ℤ◌
less_order true true a b h k = ground (arith, h, k)
less_order true false a b h k = ground (arith, h, k)
less_order false true a b h k = ground (arith, h, k)
less_order false false a b h k = ground (arith, h, k)

zero_left : (r : Bool) (b : ℕ) → 0 < b → order_of (not r) ≡ order_ℤ (pos 0) (signed r b)
unfolding order_of
zero_left true b h = ground (arith, h)
zero_left false b h = ground (arith, h)

zero_right : (l : Bool) (a : ℕ) → 0 < a → order_of l ≡ order_ℤ (signed l a) (pos 0)
unfolding order_of
zero_right true a h = ground (arith, h)
zero_right false a h = ground (arith, h)

signed_zero : (b : Bool) → signed b 0 ≡ pos 0
signed_zero true = refl
signed_zero false = refl

shifted_zero : (ls : List ℕ) (k : ℕ) → is_nil ls ≡ true → shift_up (limbs_value ls) k ≡ 0
shifted_zero ls k e = ap (λ (n : ℕ). shift_up n k) (empty_zero ls e) ∙ shift_up-zero k

-- The number of `v` in units of 10 ^ -scale, where the scale is `k` more than its own.
abbrev pub number_at : Number → ℕ → ℤ
number_at v k = signed v.negative (shift_up (limbs_value v.limbs) k)

zero_number : (v : Number) (k : ℕ) → is_nil v.limbs ≡ true → number_at v k ≡ pos 0
zero_number v k e = ap (signed v.negative) (shifted_zero v.limbs k e) ∙ signed_zero v.negative

positive :
    (v : Number) (k : ℕ)
    → IsNormal v
    → is_nil v.limbs ≡ false
    → 0 < shift_up (limbs_value v.limbs) k
positive v k h e =
    omega (arith, trimmed_value v.limbs h.trimmed e, le-shift_up (limbs_value v.limbs) k)

order_number :
    (l r : Number) (i j : ℕ)
    → IsNormal l
    → IsNormal r
    → compare_magnitudes l r
      ≡ order_ℕ (shift_up (limbs_value l.limbs) i) (shift_up (limbs_value r.limbs) j)
    → is_nil l.limbs ≡ false
    → is_nil r.limbs ≡ false
    → (if not (equal_signs l.negative r.negative)
        then order_of l.negative
        else if l.negative
        then negate (compare_magnitudes l r)
        else compare_magnitudes l r)
      ≡ order_ℤ (number_at l i) (number_at r j)
order_number l r i j h k e full some =
    ap
      (λ (c : ℤ).
        if not (equal_signs l.negative r.negative)
        then order_of l.negative
        else if l.negative
        then negate c
        else c)
      e
    ∙ less_order l.negative r.negative _ _ (positive l i h full) (positive r j k some)

-- sqli_decimal_compare of two normal numbers other than NULL says -1, 0 or 1 as the first number is
-- less than, equal to or greater than the second one: the signed coefficients are compared when
-- each is multiplied by the power of ten that its scale lacks.
pub decimal_compare-order :
    (l r : Number)
    → IsNormal l
    → IsNormal r
    → l.is_null ≡ false
    → r.is_null ≡ false
    → decimal_compare l r
      ≡ done (
          order_ℤ
            (number_at l (neg_part (l.scale -ℤ r.scale)))
            (number_at r (pos_part (l.scale -ℤ r.scale))))
unfolding decimal_compare
decimal_compare-order l r h k live_l live_r =
    let i = neg_part (l.scale -ℤ r.scale) in
    let j = pos_part (l.scale -ℤ r.scale) in
    elim (Bool-cases (is_nil l.limbs)) [
      | inl none ↦ elim (Bool-cases (is_nil r.limbs)) [
        | inl bare ↦
            simp (live_l, live_r, none, bare)
              (ap done (
                sym (
                  ap (λ a. order_ℤ a (number_at r j)) (zero_number l i none)
                  ∙ ap (order_ℤ (pos 0)) (zero_number r j bare))))
        | inr some ↦
            simp (live_l, live_r, none, some)
              (ap done (
                zero_left r.negative _ (positive r j k some)
                ∙ ap (λ a. order_ℤ a (number_at r j)) (sym (zero_number l i none))))
      ]
      | inr full ↦ elim (Bool-cases (is_nil r.limbs)) [
        | inl bare ↦
            simp (live_l, live_r, full, bare)
              (ap done (
                zero_right l.negative _ (positive l i h full)
                ∙ ap (order_ℤ (number_at l i)) (sym (zero_number r j bare))))
        | inr some ↦
            simp (live_l, live_r, full, some)
              (ap done
                (order_number l r i j h k (compare_magnitudes-order l r h k full some) full some))
      ]
    ]
