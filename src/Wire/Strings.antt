-- ===== src/Wire/Strings.antt =====
-- Strings behind a two-byte length, with and without padding (src/sqli_wire.c).
use libsqli.Prelude.{
  ℕ, zero, suc, ◌+◌, ◌*◌, ◌/◌, ◌%◌, ◌≤◌, ◌<◌, ◌⊎◌, ◌≡◌, refl, false, List, [], ◌∷◌, ◌++◌, length,
  take, drop, length-append, arith, pick, ◌↔◌, ◌==◌, Bool-cases, inl, inr, ltb,
}
use libsqli.Prelude.Bytes.{overwrite, overwrite-append, length-overwrite}
use mathlib.Core.List.{append_assoc}
use libsqli.Wire.{be16, pad_even, asc_encode_string, asc_encode_string_padded}

-- Padding adds a byte to an odd size alone.
pad_even_lem : (n : ℕ) → n ≤ 0xffff → pad_even (2 + n) ≡ 2 + n + n % 2
unfolding pad_even
pad_even_lem n h = omega arith

-- The reading of what the encoders write: a two-byte length, then that many bytes.
unfoldable pub read_string : List ℕ → List ℕ
read_string (hi ∷ lo ∷ rest) = take (hi * 256 + lo) rest
read_string _ = []

take_front {ℓ} : {A : Type ℓ} (xs ys : List A) → take (length xs) (xs ++ ys) ≡ xs
take_front [] ys = refl
take_front (x ∷ xs) ys = λ i. x ∷ take_front xs ys i

read_string-front :
    (s rest : List ℕ) → length s ≤ 0xffff → read_string (be16 (length s) ++ (s ++ rest)) ≡ s
unfolding read_string
read_string-front s rest h =
    let e : length s / 256 % 256 * 256 + length s % 256 ≡ length s = omega arith in
    rw e (take_front s rest)

asc_encode_string_fits :
    (buf s : List ℕ)
    → length s ≤ 0xffff
    → 2 + length s ≤ length buf
    → asc_encode_string buf s ≡ (2 + length s, be16 (length s) ++ (s ++ drop (2 + length s) buf))
unfolding asc_encode_string
asc_encode_string_fits buf s small fits = ground (
  arith,
  overwrite-append (be16 (length s) ++ s) buf,
  append_assoc (be16 (length s)) s (drop (2 + length s) buf),
)

asc_encode_string_padded_fits :
    (buf s : List ℕ)
    → length s ≤ 0xffff
    → pad_even (2 + length s) ≤ length buf
    → (rest : List ℕ) × (asc_encode_string_padded buf s
        ≡ (pad_even (2 + length s), be16 (length s) ++ (s ++ rest)))
unfolding asc_encode_string_padded
asc_encode_string_padded_fits buf s small fits = elim (Bool-cases (length s % 2 == 0)) [
  | inl even ↦ (
    drop (2 + length s) buf,
    ground (
      arith,
      overwrite-append (be16 (length s) ++ s) buf,
      append_assoc (be16 (length s)) s (drop (2 + length s) buf),
    ),
  )
  | inr odd ↦ (
    0 ∷ drop (2 + (length s + 1)) buf,
    ground (
      arith,
      length-append s (0 ∷ []),
      overwrite-append (be16 (length s) ++ (s ++ (0 ∷ []))) buf,
      append_assoc s (0 ∷ []) (drop (2 + (length s + 1)) buf),
    ),
  )
]

-- A string of at most 65535 bytes, encoded behind its two-byte length into a buffer with room for
-- both and a byte more where the length is odd, is read back from the buffer, and the encoder reports
-- exactly the bytes of both. The same holds of the padded encoder, where the reported size has the
-- one byte more where the length is odd.
pub read-asc_encode_string :
    (buf s : List ℕ)
    → length s ≤ 0xffff
    → 2 + length s + length s % 2 ≤ length buf
    → (read_string (asc_encode_string buf s).1 ≡ s)
      × ((asc_encode_string buf s).0 ≡ 2 + length s)
      × (read_string (asc_encode_string_padded buf s).1 ≡ s)
      × ((asc_encode_string_padded buf s).0 ≡ 2 + length s + length s % 2)
read-asc_encode_string buf s small fits =
    let even = pad_even_lem (length s) small in
    let (rest, e) = asc_encode_string_padded_fits buf s small (omega (arith, even)) in
    rw (asc_encode_string_fits buf s small (omega arith), e)
      (read_string-front s _ small, refl, read_string-front s _ small, even)

-- What an encoder of `s` that needs `need` bytes promises, where it reports `out.0` bytes and leaves the
-- buffer `out.1` of `buf`.
pub record IsContained (need : ℕ) (buf s : List ℕ) (out : ℕ × List ℕ) : Type 0 where
  pub refused : (out.0 ≡ 0) ↔ ((0xffff < length s) ⊎ (length buf < need))
  pub reported : out.0 ≤ length buf
  pub size : length out.1 ≡ length buf
  pub beyond : drop out.0 out.1 ≡ drop out.0 buf

refused-IsContained :
    (need : ℕ) (buf s : List ℕ)
    → (0xffff < length s) ⊎ (length buf < need)
    → IsContained need buf s (0, buf)
refused-IsContained need buf s h = record {
  refused = (λ _. h, λ _. refl);
  reported = omega arith;
  size = refl;
  beyond = refl;
}

drop-overwrite : (n : ℕ) (bs buf : List ℕ) → length bs ≤ n → drop n (overwrite bs buf) ≡ drop n buf
drop-overwrite n [] buf h = refl
drop-overwrite n (b ∷ bs) [] h = refl
drop-overwrite zero (b ∷ bs) (x ∷ xs) h = absurd (omega arith)
drop-overwrite (suc n) (b ∷ bs) (x ∷ xs) h = drop-overwrite n bs xs (omega arith)

written-IsContained :
    (below need : ℕ) (buf s bs : List ℕ)
    → need ≡ suc below
    → length bs ≤ need
    → length s ≤ 0xffff
    → need ≤ length buf
    → IsContained need buf s (need, overwrite bs buf)
written-IsContained below need buf s bs e h short k = record {
  refused = (
    λ none_written. absurd (omega (arith, e, none_written)),
    λ either. elim either [
      | inl long ↦ absurd (omega (arith, short, long))
      | inr full ↦ absurd (omega (arith, full, k))
    ],
  );
  reported = k;
  size = length-overwrite bs buf;
  beyond = drop-overwrite need bs buf h;
}

plain-IsContained : (buf s : List ℕ) → IsContained (2 + length s) buf s (asc_encode_string buf s)
unfolding asc_encode_string
plain-IsContained buf s =
    let need : ℕ = 2 + length s in
    let P = IsContained need buf s in
    pick P (ltb 0xffff (length s)) _ _
      (λ long. refused-IsContained need buf s (inl (ground (arith, long))))
      λ short.
        pick P (ltb (length buf) need) _ _
          (λ full. refused-IsContained need buf s (inr (ground (arith, full))))
          λ e.
            written-IsContained (1 + length s) need buf s (be16 (length s) ++ s) (omega arith)
              (omega arith) (ground (arith, short)) (ground (arith, e))

-- The padded encoder behind its first test.
room-IsContained :
    (buf s : List ℕ)
    → length s ≤ 0xffff
    → IsContained (2 + length s + length s % 2) buf s (asc_encode_string_padded buf s)
unfolding asc_encode_string_padded
room-IsContained buf s short =
    let need : ℕ = 2 + length s + length s % 2 in
    let even : pad_even (2 + length s) ≡ need = pad_even_lem (length s) short in
    let small : ltb 0xffff (length s) ≡ false = ground (arith, short) in
    let P = IsContained need buf s in
    rw (small, even)
      (pick P (ltb (length buf) need) _ _
        (λ full. refused-IsContained need buf s (inr (ground (arith, full))))
        λ fits.
          pick P (length s % 2 == 0) _ _
            (λ e.
              written-IsContained (1 + length s + length s % 2) need buf s (be16 (length s) ++ s)
                (omega arith) (omega arith) short (ground (arith, fits)))
            λ odd.
              written-IsContained (1 + length s + length s % 2) need buf s
                (be16 (length s) ++ (s ++ (0 ∷ []))) (omega arith)
                (ground (arith, odd, length-append s (0 ∷ []))) short (ground (arith, fits)))

padded-IsContained :
    (buf s : List ℕ)
    → IsContained (2 + length s + length s % 2) buf s (asc_encode_string_padded buf s)
unfolding asc_encode_string_padded
padded-IsContained buf s = elim (Bool-cases (ltb 0xffff (length s))) [
  | inl long ↦
      let refusal =
        refused-IsContained (2 + length s + length s % 2) buf s (inl (ground (arith, long))) in
      rw long refusal
  | inr short ↦ room-IsContained buf s (ground (arith, short))
]

-- Whatever the buffer and the string, each of the two encoders reports 0 bytes exactly where the
-- string is longer than 65535 bytes or does not fit the buffer with its length, and for the padded
-- encoder with a byte more where the length is odd. It never reports more bytes than the buffer has,
-- leaves the buffer's size, and leaves every byte behind those that it reports: with 0 bytes reported
-- the buffer is unchanged.
pub asc_encode_string-IsContained :
    (buf s : List ℕ)
    → IsContained (2 + length s) buf s (asc_encode_string buf s)
      × IsContained (2 + length s + length s % 2) buf s (asc_encode_string_padded buf s)
asc_encode_string-IsContained buf s = (plain-IsContained buf s, padded-IsContained buf s)
