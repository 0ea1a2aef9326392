-- ===== src/Uri/Decoding.antt =====
-- Percent encoding, and what url_decode makes of it (src/sqli_uri.c).
use libsqli.Prelude.{
  ℕ, zero, suc, ◌+◌, ◌-◌, ◌*◌, ◌≡◌, refl, ap, ◌∙◌, true, false, List, [], ◌∷◌, ◌==◌, take,
}
use libsqli.Prelude.Bytes.{All}
use libsqli.Uri.{is_hex, hex_value, plain_byte, next_byte, decode_bytes, c_string, url_decode}

-- A text and the bytes that it stands for: an escape is a percent sign with two hexadecimal digits,
-- a plus sign stands for a space, and any other character for itself.
pub data Encodes : List ℕ → List ℕ → Type 0 where
  nothing : Encodes [] []
  plain :
      {text bytes : List ℕ} (c : ℕ)
      → (c == b'%') ≡ false
      → (c == b'+') ≡ false
      → Encodes text bytes
      → Encodes (c ∷ text) (c ∷ bytes)
  space : {text bytes : List ℕ} → Encodes text bytes → Encodes (b'+' ∷ text) (b' ' ∷ bytes)
  escape :
      {text bytes : List ℕ} (a b : ℕ)
      → is_hex a ≡ true
      → is_hex b ≡ true
      → Encodes text bytes
      → Encodes (b'%' ∷ a ∷ b ∷ text) ((hex_value a * 16 + hex_value b) ∷ bytes)

next_byte-plain :
    (c : ℕ) (text : List ℕ) → (c == b'%') ≡ false → next_byte c text ≡ (plain_byte c, text)
unfolding next_byte
next_byte-plain c [] h = refl
next_byte-plain c (a ∷ []) h = refl
next_byte-plain c (a ∷ b ∷ cs) h = rw h refl

next_byte-escape :
    (a b : ℕ) (text : List ℕ)
    → is_hex a ≡ true
    → is_hex b ≡ true
    → next_byte b'%' (a ∷ b ∷ text) ≡ (hex_value a * 16 + hex_value b, text)
unfolding next_byte
next_byte-escape a b text h k = rw (h, k) refl

pub decode_bytes-Encodes :
    (n : ℕ) (text bytes : List ℕ) → Encodes text bytes → decode_bytes n text ≡ take n bytes
unfolding decode_bytes
decode_bytes-Encodes zero text bytes e = refl
decode_bytes-Encodes (suc n) _ _ nothing = refl
decode_bytes-Encodes (suc n) _ _ (plain c h k e) =
    rw (next_byte-plain c _ h, k, decode_bytes-Encodes n _ _ e) refl
decode_bytes-Encodes (suc n) _ _ (space e) =
    rw (next_byte-plain b'+' _ refl, decode_bytes-Encodes n _ _ e) refl
decode_bytes-Encodes (suc n) _ _ (escape a b h k e) =
    rw (next_byte-escape a b _ h k, decode_bytes-Encodes n _ _ e) refl

abbrev pub IsNonzero : ℕ → Type 0
IsNonzero c = (c == 0) ≡ false

-- A buffer of bytes other than 0 is the C string of all of them.
pub c_string-take :
    (n : ℕ) (bytes : List ℕ) → All IsNonzero bytes → c_string (take n bytes) ≡ take n bytes
unfolding c_string
c_string-take zero bytes h = refl
c_string-take (suc n) [] h = refl
c_string-take (suc n) (b ∷ bytes) (h, hs) = rw (h, c_string-take n bytes hs) refl

-- Decoding a text to a buffer of `dst_sz` bytes gives the C string of the bytes that the text stands
-- for, as many of them as fit in front of the end mark, where none of the bytes is 0.
pub url_decode-Encodes :
    (text bytes : List ℕ) (dst_sz : ℕ)
    → Encodes text bytes
    → All IsNonzero bytes
    → url_decode text dst_sz ≡ take (dst_sz - 1) bytes
unfolding url_decode
url_decode-Encodes text bytes dst_sz e h =
    ap c_string (decode_bytes-Encodes (dst_sz - 1) text bytes e)
    ∙ c_string-take (dst_sz - 1) bytes h
