-- ===== src/Decimal/Width.antt =====
-- The wire size of a DECIMAL column (src/sqli_decimal_codec.c).
use libsqli.Prelude.{ℕ, ◌+◌, ◌-◌, ◌*◌, ◌%◌, ◌≤◌, ◌≡◌, arith}
use libsqli.Status.{done}
use libsqli.Decimal.{WireType, decode_type, decimal_wire_size}

-- A descriptor of 16 bits that is accepted has a precision of 1 to 32 digits and a size of 2 to 18
-- bytes, of which all but the first have room for that many digits at any alignment of the scale.
decode_type_bounds :
    (descriptor : ℕ) (t : WireType)
    → decode_type descriptor ≡ done t
    → (1 ≤ t.precision)
      × (t.precision ≤ 32)
      × (2 ≤ t.width)
      × (t.width ≤ 18)
      × (t.precision + t.scale % 2 ≤ 2 * (t.width - 1))
      × (decimal_wire_size descriptor ≡ done t.width)
unfolding decode_type decimal_wire_size
decode_type_bounds descriptor t h = ground (arith, h)
