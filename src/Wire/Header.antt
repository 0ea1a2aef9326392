-- ===== src/Wire/Header.antt =====
-- Encoding and decoding an SL header (src/sqli_wire.c).
use libsqli.Prelude.{ℕ, ◌^◌, ◌≤◌, ◌<◌, ◌≡◌, refl, ◌↔◌, List, [], ◌∷◌, ◌++◌, length, drop, arith}
use libsqli.Prelude.Bytes.{IsByte, overwrite-append}
use libsqli.Status.{done, fail, io_error}
use libsqli.Wire.{SlHeader, be16, encode_sl_header, decode_sl_header}

-- The C types of the four fields.
pub record InRange (h : SlHeader) : Type 0 where
  pub pdu_size : h.pdu_size < 2 ^ 16
  pub sl_type : IsByte h.sl_type
  pub sl_attr : IsByte h.sl_attr
  pub sl_opts : h.sl_opts < 2 ^ 16

-- What the encoder writes, wherever it writes.
header_bytes : SlHeader → List ℕ
header_bytes h = be16 h.pdu_size ++ (h.sl_type ∷ h.sl_attr ∷ be16 h.sl_opts)

decode-header_bytes :
    (h : SlHeader) (rest : List ℕ) → InRange h → decode_sl_header (header_bytes h ++ rest) ≡ done h
unfolding decode_sl_header header_bytes
decode-header_bytes h rest r = ground arith

encode_sl_header_fits :
    (buf : List ℕ) (h : SlHeader)
    → 6 ≤ length buf
    → encode_sl_header buf h ≡ (6, header_bytes h ++ drop 6 buf)
unfolding encode_sl_header header_bytes
encode_sl_header_fits buf h fits = ground (arith, overwrite-append (header_bytes h) buf)

-- A header whose fields fit their C types, encoded into a buffer of at least six bytes, is read
-- back from that buffer unchanged; the encoder reports six bytes, and changes no byte behind them.
pub decode-encode_sl_header :
    (buf : List ℕ) (h : SlHeader)
    → InRange h
    → 6 ≤ length buf
    → (decode_sl_header (encode_sl_header buf h).1 ≡ done h)
      × ((encode_sl_header buf h).0 ≡ 6)
      × (drop 6 (encode_sl_header buf h).1 ≡ drop 6 buf)
decode-encode_sl_header buf h r fits =
    rw (encode_sl_header_fits buf h fits)
      (decode-header_bytes h (drop 6 buf) r, refl, unfold header_bytes in refl)

-- Decoding fails exactly on inputs shorter than six bytes, and then with SQLI_IO_ERROR.
pub decode_sl_header_short :
    (buf : List ℕ) → (length buf < 6) ↔ (decode_sl_header buf ≡ fail io_error)
unfolding decode_sl_header
decode_sl_header_short [] = (λ h. refl, λ e. omega arith)
decode_sl_header_short (a ∷ []) = (λ h. refl, λ e. omega arith)
decode_sl_header_short (a ∷ b ∷ []) = (λ h. refl, λ e. omega arith)
decode_sl_header_short (a ∷ b ∷ c ∷ []) = (λ h. refl, λ e. omega arith)
decode_sl_header_short (a ∷ b ∷ c ∷ d ∷ []) = (λ h. refl, λ e. omega arith)
decode_sl_header_short (a ∷ b ∷ c ∷ d ∷ e ∷ []) = (λ h. refl, λ p. omega arith)
decode_sl_header_short (a ∷ b ∷ c ∷ d ∷ e ∷ f ∷ r) = (λ h. absurd (omega arith), λ p. cc)
