-- ===== src/Date.antt =====
-- DATE values: sqli_date_validate, sqli_date_set and sqli_date_set_null of src/sqli_temporal.c, and
-- the four-byte wire form of src/sqli_temporal_codec.c (sqli_date_encode_wire,
-- sqli_date_decode_wire).
-- Calendar functions take the year as a natural number: every call of them stands behind the check
-- that the year is at least 1. Pointers are present (a NULL argument is refused in C).
pub mod Calendar
pub mod Search
pub mod Ordinal
pub mod RoundTrip
mod Examples
use libsqli.Prelude.{
  ℕ, zero, suc, ◌+◌, ◌-◌, ◌*◌, ◌/◌, ◌%◌, ◌^◌, ◌==◌, Bool, true, false, ◌&&◌, ◌||◌, not, Option,
  none, some, List, [], ◌∷◌, ltb, leb, if◌then◌else◌, length, get_or,
}
use libsqli.Prelude.Int.{ℤ, pos, pos_part, sub_ℕ, ltb_ℤ}
use libsqli.Status.{
  Result, done, fail, out_of_range, buffer_too_small, proto_error, reject_if, ◌>>=◌, ◌>>◌,
}

pub record Date : Type 0 where
  pub year : ℤ
  pub month : ℕ
  pub day : ℕ
  pub is_null : Bool

abbrev pub first_year : ℕ
first_year = 1

abbrev pub last_year : ℕ
last_year = 9999

abbrev pub months_per_year : ℕ
months_per_year = 12

abbrev pub month_lengths : List ℕ
month_lengths = 31 ∷ 28 ∷ 31 ∷ 30 ∷ 31 ∷ 30 ∷ 31 ∷ 31 ∷ 30 ∷ 31 ∷ 30 ∷ 31 ∷ []

unfoldable pub leap_year : ℕ → Bool
leap_year year = year % 4 == 0 && (not (year % 100 == 0) || year % 400 == 0)

-- src/sqli_temporal.c: year 0 stands for an absent year.
unfoldable pub month_days : ℕ → ℕ → ℕ
month_days month year =
    if month == 2 && (year == 0 || leap_year year) then 29 else get_or month_lengths (month - 1) 0

-- src/sqli_temporal_codec.c
unfoldable pub days_in_month : ℕ → ℕ → ℕ
days_in_month year month =
    if month == 2 && leap_year year then 29 else get_or month_lengths (month - 1) 0

unfoldable pub date_validate : Date → Result (Unit {0})
date_validate d =
    if d.is_null
    then done tt
    else if ltb_ℤ d.year (pos first_year)
        || ltb_ℤ (pos last_year) d.year
        || ltb d.month 1
        || ltb months_per_year d.month
        || ltb d.day 1
    then fail out_of_range
    else if leb d.day (month_days d.month (pos_part d.year))
    then done tt
    else fail out_of_range

-- The new value of the date; month and day are int32_t arguments.
unfoldable pub date_set : ℤ → ℤ → ℤ → Result Date
date_set year month day = do
  reject_if
      (ltb_ℤ month (pos 1)
        || ltb_ℤ (pos months_per_year) month
        || ltb_ℤ day (pos 1)
        || ltb_ℤ (pos 31) day)
      out_of_range
  let d : Date = record { year = year; month = pos_part month; day = pos_part day; is_null = false }
  date_validate d
  done d

abbrev pub null_date : Date
null_date = record { year = pos 0; month = 0; day = 0; is_null = true }

unfoldable pub days_before_year : ℕ → ℕ
days_before_year year =
    let previous = year - 1 in previous * 365 + previous / 4 - previous / 100 + previous / 400

-- Day number of 1899-12-31, the day before the epoch's year begins.
abbrev pub epoch : ℕ
epoch = days_before_year 1900 - 1

-- for (month = m; month < m + rounds; month++) ordinal += days_in_month(year, month);
unfoldable pub add_months : ℕ → ℕ → ℕ → ℕ → ℕ
add_months zero year m ordinal = ordinal
add_months (suc rounds) year m ordinal =
    add_months rounds year (m + 1) (ordinal + days_in_month year m)

-- The wire word of SQL NULL.
abbrev pub null_word : ℕ
null_word = 0x8000_0000

abbrev pub be32 : ℕ → List ℕ
be32 w = (w / 2 ^ 24 % 256) ∷ (w / 2 ^ 16 % 256) ∷ (w / 2 ^ 8 % 256) ∷ (w % 256) ∷ []

abbrev pub word_of : Date → ℕ
word_of d =
    if d.is_null
    then null_word
    else (add_months (d.month - 1) (pos_part d.year) 1
          (days_before_year (pos_part d.year) + d.day - 1)
        + 2 ^ 32
        - epoch)
      % 2 ^ 32

-- The bytes written to the front of a buffer with room for `capacity` bytes.
unfoldable pub date_encode_wire : Date → ℕ → Result (List ℕ)
date_encode_wire d capacity = do
  date_validate d
  reject_if (ltb capacity 4) buffer_too_small
  done (be32 (word_of d))

-- while (low < high): the last year that begins on or before the day `ordinal`.
-- `none` stands for a loop that has not ended.
unfoldable pub search_year : ℕ → ℕ → ℕ → ℕ → Option ℕ
search_year zero low high ordinal = none
search_year (suc fuel) low high ordinal =
    let middle = low + (high - low + 1) / 2 in
    let upper = search_year fuel middle high ordinal in
    let lower = search_year fuel low (middle - 1) ordinal in
    if ltb low high
    then if leb (days_before_year middle) ordinal then upper else lower
    else some low

-- while (month < 12 && day >= days_in_month(year, month)) { day -= ...; month++; }
unfoldable pub find_month : ℕ → ℕ → ℕ → ℕ → ℕ × ℕ
find_month zero year month day = (month, day)
find_month (suc fuel) year month day =
    let rest = find_month fuel year (month + 1) (day - days_in_month year month) in
    if ltb month months_per_year && leb (days_in_month year month) day then rest else (month, day)

-- The date of a day number once its year is known. The status of a search that does not end is never
-- seen.
abbrev pub date_in : ℕ → Option ℕ → Result Date
date_in ordinal none = fail proto_error
date_in ordinal (some year) =
    let (month, day) = find_month 11 year 1 (ordinal - days_before_year year) in
    date_set (pos year) (pos month) (pos (day + 1))

-- From the day number to a calendar date. 14 rounds halve 9999 years down to one, and the test of the
-- loop is made once more.
unfoldable pub date_of_ordinal : ℕ → Result Date
date_of_ordinal ordinal = date_in ordinal (search_year 15 first_year last_year ordinal)

abbrev pub in_calendar : ℤ → Bool
in_calendar ordinal =
    not (ltb_ℤ ordinal (pos 0)) && ltb_ℤ ordinal (pos (days_before_year (last_year + 1)))

unfoldable pub date_of_word : ℕ → Result Date
date_of_word encoded =
    if encoded == null_word
    then done null_date
    else let ordinal = sub_ℕ (encoded + epoch) (if ltb 0x7fff_ffff encoded then 2 ^ 32 else 0) in
      if in_calendar ordinal then date_of_ordinal (pos_part ordinal) else fail proto_error

unfoldable pub date_decode_wire : List ℕ → Result Date
date_decode_wire (b0 ∷ b1 ∷ b2 ∷ b3 ∷ []) = date_of_word (((b0 * 256 + b1) * 256 + b2) * 256 + b3)
date_decode_wire _ = fail proto_error
