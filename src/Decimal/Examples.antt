-- ===== src/Decimal/Examples.antt =====
-- The theorems on decimal numbers at concrete inputs.
use libsqli.Prelude.{
  ℕ, suc, ◌<◌, ◌≡◌, refl, Bool, true, false, List, [], ◌∷◌, ◌++◌, none, some, length, arith,
}
use libsqli.Prelude.Int.{pos, negsuc, pos_part, neg_part, ◌-ℤ◌}
use libsqli.Status.{Status, done}
use libsqli.Decimal.Number.{
  Number, null_number, limb_digits, decimal_digits, decimal_set_i64, decimal_to_i64, trim,
  decimal_trim, reserve,
}
use libsqli.Decimal.Values.{limbs_value}
use libsqli.Decimal.Stored.{IsNormal, null_number-IsNormal}
use libsqli.Decimal.Integers.{magnitude, decimal_to_i64-set_i64}
use libsqli.Decimal.Text.{decimal_parse, decimal_format}
use libsqli.Decimal.RoundTrip.{decimal_parse-format}
use libsqli.Decimal.Scaling.{
  divide_limbs, divide_power, scale_power, decimal_rescale_exact, decimal_compare,
}
use libsqli.Decimal.Rescale.{IsSameNumber, decimal_rescale_exact-same}
use libsqli.Decimal.Divisible.{decimal_rescale_exact-total}
use libsqli.Decimal.Compare.{order_ℤ, number_at, decimal_compare-order}
use libsqli.Decimal.History.{Call, parse, rescale_exact, run, run-IsNormal}

-- -1.20E+15 has a negative scale, 1.50 has two places and 1.5 has one.
abbrev large : Number
large = record { limbs = 120 ∷ []; scale = negsuc 12; negative = true; is_null = false }

abbrev price : Number
price = record { limbs = 150 ∷ []; scale = pos 2; negative = false; is_null = false }

abbrev short_price : Number
short_price = record { limbs = 15 ∷ []; scale = pos 1; negative = false; is_null = false }

large-IsNormal : IsNormal large
unfolding decimal_digits limb_digits
large-IsNormal = record {
  limbs = (omega arith, tt);
  trimmed = (omega arith, tt);
  bounded = omega arith;
  unsigned = λ e. cc;
  null = λ e. cc;
}

price-IsNormal : IsNormal price
unfolding decimal_digits limb_digits
price-IsNormal = record {
  limbs = (omega arith, tt);
  trimmed = (omega arith, tt);
  bounded = omega arith;
  unsigned = λ e. cc;
  null = λ e. cc;
}

-- malloc never fails.
abbrev plenty : ℕ → Bool
plenty n = true

decimal_parse-format_example :
    (text : List ℕ) × ((capacity : ℕ)
      → length text < capacity
      → decimal_format large (some capacity) ≡ (
        Status.ok,
        some (record { is_null = false; required = suc (length text); copied = text ++ (0 ∷ []) }),
      ))
    × (decimal_format large none
        ≡ (Status.ok, some (record { is_null = false; required = suc (length text); copied = [] })))
    × (decimal_parse plenty text false ≡ done large)
decimal_parse-format_example =
    decimal_parse-format plenty large (λ n. refl) large-IsNormal refl refl

decimal_to_i64-set_i64_example :
    (v : Number) × (decimal_set_i64 plenty (negsuc 1234567890123) (pos 0) ≡ done v)
    × (limbs_value v.limbs ≡ magnitude (negsuc 1234567890123))
    × (decimal_to_i64 v ≡ done (negsuc 1234567890123))
decimal_to_i64-set_i64_example =
    decimal_to_i64-set_i64 plenty (negsuc 1234567890123) (omega arith) (omega arith)

rescaled : decimal_rescale_exact plenty price (pos 1) ≡ done short_price
unfolding decimal_rescale_exact scale_power divide_power divide_limbs decimal_digits limb_digits
    reserve decimal_trim trim ◌-ℤ◌
rescaled = refl

decimal_rescale_exact-same_example :
    IsNormal short_price
    × (short_price.is_null ≡ false)
    × (short_price.scale ≡ pos 1)
    × (short_price.negative ≡ price.negative)
    × IsSameNumber price short_price
decimal_rescale_exact-same_example =
    decimal_rescale_exact-same plenty price short_price (pos 1) price-IsNormal refl rescaled

decimal_rescale_exact-total_example :
    (w : Number) × (decimal_rescale_exact plenty price (pos 1) ≡ done w)
    × IsNormal w
    × (w.scale ≡ pos 1)
    × (w.negative ≡ price.negative)
    × IsSameNumber price w
unfolding decimal_digits limb_digits ◌-ℤ◌
decimal_rescale_exact-total_example =
    decimal_rescale_exact-total plenty price (pos 1) 15 (λ k. refl) price-IsNormal refl
      (omega arith) refl

decimal_compare-order_example :
    decimal_compare large price
    ≡ done (
        order_ℤ
          (number_at large (neg_part (large.scale -ℤ price.scale)))
          (number_at price (pos_part (large.scale -ℤ price.scale))))
decimal_compare-order_example =
    decimal_compare-order large price large-IsNormal price-IsNormal refl refl

-- 1.50 is read, and brought to one place.
abbrev calls : List ((ℕ → Bool) × Call)
calls =
    (plenty, parse (b'1' ∷ b'.' ∷ b'5' ∷ b'0' ∷ []) false) ∷ (plenty, rescale_exact (pos 1)) ∷ []

run-IsNormal_example : IsNormal (run calls null_number)
run-IsNormal_example = run-IsNormal calls null_number null_number-IsNormal
