-- ===== src/Wire.antt =====
-- src/sqli_wire.c: the six-byte SL header, and strings behind a two-byte length.
-- A buffer is the list of its bytes, so its size is the list's length; an encoder hands back the
-- bytes written (0 where it refuses) and the buffer after the call. A C string is the list of its
-- bytes in front of the NUL.
pub mod Header
pub mod Strings
mod Examples
use libsqli.Prelude.{
  ℕ, ◌+◌, ◌*◌, ◌/◌, ◌%◌, ◌^◌, ◌==◌, Bool, List, [], ◌∷◌, ◌++◌, ltb, if◌then◌else◌, length, drop,
  not,
}
use libsqli.Prelude.Bytes.{overwrite}
use libsqli.Status.{Status, Result, done, fail, io_error}

pub record SlHeader : Type 0 where
  pub pdu_size : ℕ
  pub sl_type : ℕ
  pub sl_attr : ℕ
  pub sl_opts : ℕ

abbrev pub sl_header_size : ℕ
sl_header_size = 6

-- `(n + 1) & ~(size_t)1`, on a 64-bit size_t.
unfoldable pub pad_even : ℕ → ℕ
pad_even n = (n + 1) % 2 ^ 64 / 2 * 2

-- The two bytes of a uint16_t, most significant first.
abbrev pub be16 : ℕ → List ℕ
be16 v = (v / 256 % 256) ∷ (v % 256) ∷ []

unfoldable pub encode_sl_header : List ℕ → SlHeader → ℕ × List ℕ
encode_sl_header buf h = if ltb (length buf) sl_header_size then (0, buf) else (
  sl_header_size,
  overwrite (be16 h.pdu_size ++ (h.sl_type ∷ h.sl_attr ∷ be16 h.sl_opts)) buf,
)

unfoldable pub decode_sl_header : List ℕ → Result SlHeader
decode_sl_header (b0 ∷ b1 ∷ b2 ∷ b3 ∷ b4 ∷ b5 ∷ rest) = done (record {
  pdu_size = (b0 * 256 + b1) % 2 ^ 16;
  sl_type = b2;
  sl_attr = b3;
  sl_opts = (b4 * 256 + b5) % 2 ^ 16;
})
decode_sl_header _ = fail io_error

unfoldable pub asc_encode_string : List ℕ → List ℕ → ℕ × List ℕ
asc_encode_string buf s =
    let slen = length s in
    if ltb 0xffff slen
    then (0, buf)
    else if ltb (length buf) (2 + slen)
    then (0, buf)
    else (2 + slen, overwrite (be16 slen ++ s) buf)

unfoldable pub asc_encode_string_padded : List ℕ → List ℕ → ℕ × List ℕ
unfolding pad_even
asc_encode_string_padded buf s =
    let slen = length s in
    let total = pad_even (2 + slen) in
    if ltb 0xffff slen
    then (0, buf)
    else if ltb (length buf) total
    then (0, buf)
    else if slen % 2 == 0
    then (total, overwrite (be16 slen ++ s) buf)
    else (total, overwrite (be16 slen ++ (s ++ (0 ∷ []))) buf)
