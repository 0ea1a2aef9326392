-- ===== src/Wire/Examples.antt =====
-- Runs of the wire helpers, and the theorems at concrete inputs.
use libsqli.Prelude.{ℕ, ◌≡◌, refl, List, [], ◌∷◌, drop, arith}
use libsqli.Status.{done}
use libsqli.Wire.{
  SlHeader, encode_sl_header, decode_sl_header, asc_encode_string, asc_encode_string_padded,
}
use libsqli.Wire.Header.{decode-encode_sl_header}
use libsqli.Wire.Strings.{
  read_string, read-asc_encode_string, asc_encode_string-IsContained, IsContained,
}

abbrev request : SlHeader
request = record { pdu_size = 0x1234; sl_type = 1; sl_attr = 0x3c; sl_opts = 0x0100 }

abbrev eight_bytes : List ℕ
eight_bytes = 9 ∷ 9 ∷ 9 ∷ 9 ∷ 9 ∷ 9 ∷ 7 ∷ 8 ∷ []

request_bytes :
    encode_sl_header eight_bytes request ≡ (6, 0x12 ∷ 0x34 ∷ 1 ∷ 0x3c ∷ 1 ∷ 0 ∷ 7 ∷ 8 ∷ [])
unfolding encode_sl_header
request_bytes = refl

padded_run :
    asc_encode_string_padded eight_bytes (65 ∷ []) ≡ (4, 0 ∷ 1 ∷ 65 ∷ 0 ∷ 9 ∷ 9 ∷ 7 ∷ 8 ∷ [])
unfolding asc_encode_string_padded
padded_run = refl

decode-encode_sl_header_example :
    (decode_sl_header (encode_sl_header eight_bytes request).1 ≡ done request)
    × ((encode_sl_header eight_bytes request).0 ≡ 6)
    × (drop 6 (encode_sl_header eight_bytes request).1 ≡ 7 ∷ 8 ∷ [])
decode-encode_sl_header_example =
    decode-encode_sl_header eight_bytes request
      (record {
        pdu_size = omega arith;
        sl_type = omega arith;
        sl_attr = omega arith;
        sl_opts = omega arith;
      })
      (omega arith)

abbrev odd_name : List ℕ
odd_name = 65 ∷ 66 ∷ 67 ∷ []

read-asc_encode_string_example :
    (read_string (asc_encode_string eight_bytes odd_name).1 ≡ odd_name)
    × ((asc_encode_string eight_bytes odd_name).0 ≡ 5)
    × (read_string (asc_encode_string_padded eight_bytes odd_name).1 ≡ odd_name)
    × ((asc_encode_string_padded eight_bytes odd_name).0 ≡ 6)
read-asc_encode_string_example =
    read-asc_encode_string eight_bytes odd_name (omega arith) (omega arith)

asc_encode_string-IsContained_example :
    IsContained 5 eight_bytes odd_name (asc_encode_string eight_bytes odd_name)
    × IsContained 6 eight_bytes odd_name (asc_encode_string_padded eight_bytes odd_name)
asc_encode_string-IsContained_example = asc_encode_string-IsContained eight_bytes odd_name
