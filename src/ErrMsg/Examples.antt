-- ===== src/ErrMsg/Examples.antt =====
-- The lookup of messages in a small table.
use libsqli.Prelude.{zero, suc, ◌≡◌, refl, [], ◌∷◌, arith}
use libsqli.Prelude.Int.{pos, negsuc, ◌-ℤ◌}
use libsqli.ErrMsg.{
  Tables, found, find_code, search_code, error_message_lookup, errmsg_get, expand, literal,
  dict_entry, int32_min, undefined,
}
use libsqli.ErrMsg.Search.{IsAscending}
use libsqli.ErrMsg.Expansion.{IsLookedUp, error_message_lookup-IsLookedUp}

-- -201 is "no " behind "x", and 107 is "y"; the dictionary has one entry.
abbrev small_tables : Tables
small_tables = record {
  dict_blob = b'n' ∷ b'o' ∷ b' ' ∷ 0 ∷ [];
  dict_offsets = 0 ∷ [];
  msg_blob = b'x' ∷ 129 ∷ 0 ∷ b'y' ∷ 0 ∷ [];
  code_table =
      record { code = negsuc 200; offset = 0 } ∷ record { code = pos 107; offset = 3 } ∷ [];
}

small_tables-IsAscending : IsAscending small_tables.code_table
small_tables-IsAscending zero (suc zero) h l = refl
small_tables-IsAscending zero (suc (suc j)) h l = absurd (omega (arith, l))
small_tables-IsAscending zero zero h l = absurd (omega (arith, h))
small_tables-IsAscending (suc i) zero h l = absurd (omega (arith, h))
small_tables-IsAscending (suc i) (suc j) h l = absurd (omega (arith, h, l))

-- 201 has no message, and -201 has one.
other_sign : error_message_lookup small_tables 8 (pos 201) ≡ found (b'x' ∷ b'n' ∷ b'o' ∷ b' ' ∷ [])
unfolding error_message_lookup errmsg_get find_code search_code expand literal dict_entry ◌-ℤ◌
other_sign = refl

-- INT32_MIN has no message, and no code of the other sign.
no_other_sign : error_message_lookup small_tables 8 int32_min ≡ undefined
unfolding error_message_lookup errmsg_get find_code search_code
no_other_sign = refl

error_message_lookup-IsLookedUp_example :
    IsLookedUp small_tables 8 (pos 201) (error_message_lookup small_tables 8 (pos 201))
error_message_lookup-IsLookedUp_example =
    error_message_lookup-IsLookedUp small_tables 8 (pos 201) small_tables-IsAscending (λ e. cc)
