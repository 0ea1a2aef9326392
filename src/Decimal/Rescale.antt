-- ===== src/Decimal/Rescale.antt =====
-- sqli_decimal_rescale_exact keeps the number (src/sqli_decimal.c).
use mathlib.Core.Path.{subst}
use libsqli.Prelude.{
  ℕ, zero, suc, ◌+◌, ◌/◌, ◌≤◌, ◌<◌, ◌≡◌, refl, sym, ap, ◌∙◌, Bool, true, false, ◌&&◌, not, List, [],
  ◌∷◌, inl, inr, arith, Bool-cases,
}
use libsqli.Prelude.Int.{ℤ, pos, negsuc, pos_part, neg_part, ◌-ℤ◌, ltb_ℤ, eq_of_parts, same_ℤ}
use libsqli.Prelude.Bytes.{All}
use libsqli.Status.{done}
use libsqli.Status.Chains.{>>=-done, done_same}
use libsqli.Decimal.Number.{Number, max_digits, is_nil, trim, decimal_trim, decimal_digits}
use libsqli.Decimal.Values.{
  limbs_value, IsLimb, IsTrimmed, tail_of, trim-value, decimal_digits-IsSize,
}
use libsqli.Decimal.Stored.{IsNormal}
use libsqli.Decimal.Sizes.{empty_zero}
use libsqli.Decimal.Mantissa.{shift_up, shift_up-zero}
use libsqli.Decimal.Powers.{tail_of-shift}
use libsqli.Decimal.Parsed.{decimal_trim-IsNormal}
use libsqli.Decimal.Scaling.{scale_power, decimal_rescale_exact}
use libsqli.Decimal.Products.{multiply_power-value, divide_power-value}

-- The coefficients of equal numbers, brought to the same scale.
abbrev pub IsSameNumber : Number → Number → Type 0
IsSameNumber v w =
    shift_up (limbs_value v.limbs) (pos_part (w.scale -ℤ v.scale))
    ≡ shift_up (limbs_value w.limbs) (neg_part (w.scale -ℤ v.scale))

pub tail_of-grows : (a b n : ℕ) → a ≤ b → tail_of a n ≤ tail_of b n
tail_of-grows a b zero h = h
tail_of-grows a b (suc n) h = tail_of-grows (a / 10) (b / 10) n (omega (arith, h))

pub le-shift_up : (v k : ℕ) → v ≤ shift_up v k
le-shift_up v zero = omega arith
le-shift_up v (suc k) = omega (arith, le-shift_up v k)

pub trimmed_value : (ls : List ℕ) → IsTrimmed ls → is_nil ls ≡ false → 0 < limbs_value ls
trimmed_value [] t h = cc
trimmed_value (l ∷ ls) (p, t) h = p

pub no_negative : (d : ℤ) → ltb_ℤ (pos 0) d ≡ true → neg_part d ≡ 0
no_negative (pos n) h = refl
no_negative (negsuc n) h = absurd (ground (arith, h))

pub no_positive : (d : ℤ) → ltb_ℤ (pos 0) d ≡ false → pos_part d ≡ 0
no_positive (pos n) h = ground (arith, h)
no_positive (negsuc n) h = refl

-- What is known of the limbs for a difference of scales.
abbrev IsScaled : List ℕ → ℤ → List ℕ → Type 0
IsScaled ls difference out =
    (shift_up (limbs_value ls) (pos_part difference)
      ≡ shift_up (limbs_value out) (neg_part difference))
    × All IsLimb out
    × ((k : ℕ) × (k ≤ max_digits) × (tail_of (limbs_value out) k ≡ 0))

scale_power-IsScaled :
    (memory : ℕ → Bool) (v : Number) (out : List ℕ) (difference : ℤ)
    → IsNormal v
    → is_nil v.limbs ≡ false
    → scale_power memory v.limbs difference ≡ done out
    → IsScaled v.limbs difference out
unfolding scale_power
scale_power-IsScaled memory v out difference h live done_out =
    let n = decimal_digits v.limbs in
    let (p, exact, size, more) = decimal_digits-IsSize v.limbs h.limbs h.trimmed in
    elim (Bool-cases (ltb_ℤ (pos 0) difference)) [
      | inl up ↦
          let power = pos_part difference in
          let (value, all, few) =
            multiply_power-value memory v.limbs out power h.limbs h.trimmed live
              (rw up at done_out) in
          let none : neg_part difference ≡ 0 = no_negative difference up in
          (
            sym value ∙ ap (shift_up (limbs_value out)) (sym none),
            all,
            (
              power + n,
              few,
              ap (λ (m : ℕ). tail_of m (power + n)) value
                  ∙ tail_of-shift (limbs_value v.limbs) power n
                  ∙ size,
            ),
          )
      | inr down ↦
          let power = neg_part difference in
          let (value, all) =
            divide_power-value memory v.limbs out power h.limbs (rw down at done_out) in
          let none : pos_part difference ≡ 0 = no_positive difference down in
          let less : limbs_value out ≤ limbs_value v.limbs =
            omega (arith, value, le-shift_up (limbs_value out) power) in
          (
            ap (shift_up (limbs_value v.limbs)) none ∙ value,
            all,
            (n, h.bounded, omega (arith, size, tail_of-grows _ _ n less)),
          )
    ]

and_true : (b : Bool) → (b && true) ≡ b
and_true true = refl
and_true false = refl

-- A number other than 0 keeps its sign.
kept_sign : (ls : List ℕ) (b : Bool) → 0 < limbs_value ls → (b && not (is_nil (trim ls))) ≡ b
kept_sign ls b p = elim (Bool-cases (is_nil (trim ls))) [
  | inl e ↦ absurd (omega (arith, p, trim-value ls, empty_zero (trim ls) e))
  | inr e ↦ rw e (and_true b)
]

same_scale : (a b : ℤ) → same_ℤ a b ≡ true → a ≡ b
same_scale a b h = eq_of_parts a b (ground (arith, h))

abbrev IsRescaled : Number → ℤ → Number → Type 0
IsRescaled v scale w =
    IsNormal w
    × (w.is_null ≡ false)
    × (w.scale ≡ scale)
    × (w.negative ≡ v.negative)
    × IsSameNumber v w

pub no_difference : (s : ℤ) → (pos_part (s -ℤ s) ≡ 0) × (neg_part (s -ℤ s) ≡ 0)
unfolding ◌-ℤ◌
no_difference (pos n) = (ground arith, ground arith)
no_difference (negsuc n) = (ground arith, ground arith)

unchanged-IsRescaled :
    (v : Number) (scale : ℤ)
    → IsNormal v
    → v.is_null ≡ false
    → v.scale ≡ scale
    → IsRescaled v scale v
unchanged-IsRescaled v scale h live same =
    let (a, b) = no_difference v.scale in
    (
      h,
      live,
      same,
      refl,
      ap (shift_up (limbs_value v.limbs)) a ∙ ap (shift_up (limbs_value v.limbs)) (sym b),
    )

zero-IsRescaled :
    (v : Number) (scale : ℤ)
    → IsNormal v
    → is_nil v.limbs ≡ true
    → IsRescaled v scale (record v { scale = scale; is_null = false })
zero-IsRescaled v scale h empty =
    let d = scale -ℤ v.scale in
    let none = empty_zero v.limbs empty in
    (
      record {
        limbs = h.limbs;
        trimmed = h.trimmed;
        bounded = h.bounded;
        unsigned = h.unsigned;
        null = λ e. cc;
      },
      refl,
      refl,
      refl,
      ap (λ (n : ℕ). shift_up n (pos_part d)) none
          ∙ shift_up-zero (pos_part d)
          ∙ sym (shift_up-zero (neg_part d))
          ∙ ap (λ (n : ℕ). shift_up n (neg_part d)) (sym none),
    )

pub shifted-positive : (a b m n : ℕ) → 0 < a → shift_up a m ≡ shift_up b n → 0 < b
shifted-positive a zero m n p e = absurd (omega (arith, p, e, le-shift_up a m, shift_up-zero n))
shifted-positive a (suc b) m n p e = omega arith

scaled-IsRescaled :
    (v : Number) (scale : ℤ) (out : List ℕ)
    → IsNormal v
    → is_nil v.limbs ≡ false
    → IsScaled v.limbs (scale -ℤ v.scale) out
    → IsRescaled v scale (
        decimal_trim
          (record { limbs = out; scale = scale; negative = v.negative; is_null = false }))
unfolding decimal_trim
scaled-IsRescaled v scale out h full (value, all, (k, few, size)) =
    let d = scale -ℤ v.scale in
    let some = trimmed_value v.limbs h.trimmed full in
    (
      decimal_trim-IsNormal
          (record { limbs = out; scale = scale; negative = v.negative; is_null = false }) k refl all
          size few,
      refl,
      refl,
      kept_sign out v.negative (shifted-positive _ _ (pos_part d) (neg_part d) some value),
      value ∙ ap (λ (n : ℕ). shift_up n (neg_part d)) (sym (trim-value out)),
    )

-- Rescaling a normal number other than NULL, where it succeeds, gives a normal number with the new
-- scale and the same sign that is the same number: the coefficients agree when each is multiplied by
-- the power of ten that its scale lacks.
pub decimal_rescale_exact-same :
    (memory : ℕ → Bool) (v w : Number) (scale : ℤ)
    → IsNormal v
    → v.is_null ≡ false
    → decimal_rescale_exact memory v scale ≡ done w
    → IsNormal w
      × (w.is_null ≡ false)
      × (w.scale ≡ scale)
      × (w.negative ≡ v.negative)
      × IsSameNumber v w
unfolding decimal_rescale_exact
decimal_rescale_exact-same memory v w scale h live done_w =
    let rest = simp live at done_w in
    elim (Bool-cases (same_ℤ v.scale scale)) [
      | inl same ↦
          subst (IsRescaled v scale) (done_same v w (simp same at rest))
            (unchanged-IsRescaled v scale h live (same_scale v.scale scale same))
      | inr other ↦ elim (Bool-cases (is_nil v.limbs)) [
        | inl empty ↦
            subst (IsRescaled v scale)
              (done_same (record v { scale = scale; is_null = false }) w
                (simp (other, empty) at rest))
              (zero-IsRescaled v scale h empty)
        | inr full ↦
            let (out, scaled, last) =
              >>=-done (scale_power memory v.limbs (scale -ℤ v.scale)) _ w
                (simp (other, full) at rest) in
            subst (IsRescaled v scale) (done_same _ w last) (
              scaled-IsRescaled v scale out h full
                (scale_power-IsScaled memory v out (scale -ℤ v.scale) h full scaled))
      ]
    ]
