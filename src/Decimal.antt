-- ===== src/Decimal.antt =====
-- The number format of DECIMAL: the radix complement of src/sqli_base100.h, and the type
-- descriptors of src/sqli_decimal_codec.c.
pub mod Complement
pub mod Width
pub mod Number
pub mod Scaling
pub mod Values
pub mod Sizes
pub mod Integers
pub mod Mantissa
pub mod Spelling
pub mod Scanned
pub mod Parsed
pub mod Written
pub mod ReadBack
pub mod Shapes
pub mod Layout
pub mod TextSize
pub mod RoundTrip
pub mod Powers
pub mod Products
pub mod Rescale
pub mod Divisible
pub mod Order
pub mod Magnitudes
pub mod Compare
pub mod History
pub mod Stored
pub mod Text
pub mod Codec
mod Examples
use libsqli.Prelude.{
  ℕ, ◌+◌, ◌-◌, ◌/◌, ◌%◌, Bool, ◌&&◌, ◌||◌, not, List, [], ◌∷◌, ltb, ◌==◌, if◌then◌else◌,
}
use libsqli.Status.{Status, Result, done, fail, ◌>>=◌}

-- sqli_base100_radix_complement: the groups, and the carry out of the first one. The loop starts
-- behind the last group with a carry of one.
unfoldable pub radix_complement : List ℕ → List ℕ × ℕ
radix_complement [] = ([], 1)
radix_complement (group ∷ groups) =
    let (rest, carry) = radix_complement groups in
    let digit = 99 - group + carry in ((digit % 100) ∷ rest, digit / 100)

-- struct decimal_wire_type
pub record WireType : Type 0 where
  pub precision : ℕ
  pub scale : ℕ
  pub width : ℕ

abbrev pub max_precision : ℕ
max_precision = 32

abbrev pub floating_scale : ℕ
floating_scale = 255

-- A descriptor has the precision in its high byte and the scale in its low byte; `scale & 1u` is
-- the remainder by 2.
unfoldable pub decode_type : ℕ → Result WireType
decode_type descriptor =
    let precision = descriptor / 256 in
    let scale = descriptor % 256 in
    if precision == 0
      || ltb max_precision precision
      || (not (scale == floating_scale) && ltb precision scale)
    then fail Status.proto_error
    else done
        (record { precision = precision; scale = scale; width = (precision + scale % 2 + 3) / 2 })

unfoldable pub decimal_wire_size : ℕ → Result ℕ
decimal_wire_size descriptor = decode_type descriptor >>= λ t. done t.width
