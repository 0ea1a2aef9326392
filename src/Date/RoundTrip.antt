-- ===== src/Date/RoundTrip.antt =====
-- sqli_date_encode_wire and sqli_date_decode_wire are inverse to each other.
use libsqli.Prelude.{
  ℕ, ◌+◌, ◌-◌, ◌*◌, ◌/◌, ◌%◌, ◌^◌, ◌≤◌, ◌<◌, ◌≡◌, refl, sym, ap, ◌∙◌, false, List, [], ◌∷◌, length,
  ltb, ◌==◌, if◌then◌else◌, arith, ◌⊎◌, inl, inr, Bool-cases,
}
use libsqli.Prelude.Bytes.{All, IsByte}
use libsqli.Prelude.Int.{ℤ, pos, negsuc}
use libsqli.Status.{done}
use libsqli.Date.{
  Date, days_before_year, date_validate, date_of_ordinal, null_date, null_word, epoch, be32,
  word_of, date_encode_wire, date_of_word, date_decode_wire,
}
use libsqli.Date.Calendar.{add_months-span, month_days-days_in_month}
use libsqli.Date.Ordinal.{
  IsDay, date_at, day_number, day_number-lt_end, days_before_bounds, date_of_ordinal-day_number,
  IsDay-of_number,
}

-- What sqli_date_validate accepts besides SQL NULL is exactly the days of the calendar.
pub date_validate-IsDay :
    (d : Date)
    → d.is_null ≡ false
    → date_validate d ≡ done tt
    → (y : ℕ) × (d.year ≡ pos y) × IsDay y d.month d.day
unfolding date_validate
date_validate-IsDay d h e = go d.year refl
  where
    go : (z : ℤ) → d.year ≡ z → (y : ℕ) × (d.year ≡ pos y) × IsDay y d.month d.day
    go (pos y) p = (y, p, ground (arith, month_days-days_in_month d.month y))
    go (negsuc y) p = absurd (ground arith)

pub date_at-validate : {y m d : ℕ} → IsDay y m d → date_validate (date_at y m d) ≡ done tt
unfolding date_validate
date_at-validate {y} {m} {d} v = ground (arith, month_days-days_in_month m y)

epoch_lem : epoch ≡ 693594
unfolding days_before_year
epoch_lem = refl

-- The wire word of a day: its distance from 1899-12-31, modulo 2 ^ 32.
word_of-date_at :
    {y m d : ℕ}
    → IsDay y m d
    → word_of (date_at y m d) ≡ (day_number y m d + 2 ^ 32 - epoch) % 2 ^ 32
word_of-date_at {y} {m} {d} v =
    rw add_months-span (ap (λ t. (t + 2 ^ 32 - epoch) % 2 ^ 32) (omega arith))

date_of_word-day :
    (w n : ℕ)
    → n < days_before_year (9999 + 1)
    → w ≡ (n + 2 ^ 32 - epoch) % 2 ^ 32
    → date_of_word w ≡ date_of_ordinal n
unfolding date_of_word
date_of_word-day w n h e = ground (arith, epoch_lem, days_before_bounds.1)

date_of_word-inverse :
    (w : ℕ) (d : Date)
    → w < 2 ^ 32
    → date_of_word w ≡ done d
    → ((w ≡ null_word) × (d ≡ null_date))
      ⊎ ((n : ℕ) × (n < days_before_year (9999 + 1))
          × (w ≡ (n + 2 ^ 32 - epoch) % 2 ^ 32)
          × (date_of_ordinal n ≡ done d))
unfolding date_of_word
date_of_word-inverse w d h e = elim (Bool-cases (w == null_word)) [
  | inl null ↦ inl (ground arith, ground arith)
  | inr day ↦ inr (
    w + epoch - (if ltb 0x7fff_ffff w then 2 ^ 32 else 0),
    ground (arith, epoch_lem, days_before_bounds.1),
    ground (arith, epoch_lem, days_before_bounds.1),
    ground (arith, epoch_lem, days_before_bounds.1),
  )
]

be32_word :
    (w : ℕ)
    → w < 2 ^ 32
    → ((w / 2 ^ 24 % 256 * 256 + w / 2 ^ 16 % 256) * 256 + w / 2 ^ 8 % 256) * 256 + w % 256 ≡ w
be32_word w h = omega arith

date_at-path : (d : Date) (y : ℕ) → d.is_null ≡ false → d.year ≡ pos y → date_at y d.month d.day ≡ d
date_at-path d y e f = sym λ i. record { year = f i; month = d.month; day = d.day; is_null = e i }

decode-be32 : (w : ℕ) → w < 2 ^ 32 → date_decode_wire (be32 w) ≡ date_of_word w
unfolding date_decode_wire
decode-be32 w h = ap date_of_word (be32_word w h)

-- Every valid date that is not NULL, encoded with room for at least four bytes, gives four bytes
-- that decode to the same date.
pub decode-encode_date :
    (d : Date) (capacity : ℕ)
    → d.is_null ≡ false
    → date_validate d ≡ done tt
    → 4 ≤ capacity
    → (bytes : List ℕ) × (date_encode_wire d capacity ≡ done bytes)
      × (length bytes ≡ 4)
      × (date_decode_wire bytes ≡ done d)
unfolding date_encode_wire
decode-encode_date d capacity present valid room =
    (be32 (word_of d), ground arith, refl, decode-be32 (word_of d) (ground arith) ∙ back)
  where
    back : date_of_word (word_of d) ≡ done d
    back =
        let (y, e, v) = date_validate-IsDay d present valid in
        let same = date_at-path d y present e in
        rw (← same) (
          date_of_word-day _ _ (day_number-lt_end v) (word_of-date_at v)
          ∙ date_of_ordinal-day_number v)

be32-word :
    (b0 b1 b2 b3 : ℕ)
    → All IsByte (b0 ∷ b1 ∷ b2 ∷ b3 ∷ [])
    → be32 (((b0 * 256 + b1) * 256 + b2) * 256 + b3) ≡ b0 ∷ b1 ∷ b2 ∷ b3 ∷ []
be32-word b0 b1 b2 b3 h = ground arith

null-word_of : (date_validate null_date ≡ done tt) × (word_of null_date ≡ null_word)
unfolding date_validate
null-word_of = (refl, refl)

word_of-date_of_word :
    (w : ℕ) (d : Date)
    → w < 2 ^ 32
    → date_of_word w ≡ done d
    → (date_validate d ≡ done tt) × (word_of d ≡ w)
word_of-date_of_word w d h e = elim (date_of_word-inverse w d h e) [
  | inl (null, same) ↦ rw (same, null) null-word_of
  | inr (n, low, word, found) ↦
      let (y, m, k, v, number) = IsDay-of_number n low in
      let same : date_at y m k ≡ d =
        ground (arith, found, ap date_of_ordinal number, date_of_ordinal-day_number v) in
      rw (← same) (
        date_at-validate v,
        word_of-date_at v ∙ ap (λ t. (t + 2 ^ 32 - epoch) % 2 ^ 32) (sym number) ∙ sym word,
      )
]

-- Whatever four bytes decode to a date (or to NULL), encoding the result gives back these bytes.
pub encode-decode_date :
    (bytes : List ℕ) (d : Date)
    → All IsByte bytes
    → date_decode_wire bytes ≡ done d
    → date_encode_wire d 4 ≡ done bytes
unfolding date_decode_wire date_encode_wire
encode-decode_date (b0 ∷ b1 ∷ b2 ∷ b3 ∷ []) d h e =
    let (valid, word) = word_of-date_of_word _ d (omega arith) e in
    rw (valid, word) (ap done (be32-word b0 b1 b2 b3 h))
encode-decode_date _ d h e = cc
