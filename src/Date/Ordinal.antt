-- ===== src/Date/Ordinal.antt =====
-- Day numbers: the decoder's loops undo the encoder's sum, and reach every day of the calendar.
use libsqli.Prelude.{
  ℕ, zero, suc, ◌+◌, ◌-◌, ◌≤◌, ◌<◌, ◌≡◌, refl, ◌∙◌, ap, false, some, get_or, arith,
}
use libsqli.Prelude.Int.{pos}
use libsqli.Status.{done}
use libsqli.Date.{
  Date, month_lengths, days_in_month, days_before_year, search_year, find_month, date_set,
  date_validate, date_of_ordinal,
}
use libsqli.Date.Calendar.{
  span, span-add, span_year, year_length, find_month-span, days_before_year_step,
  days_before_year_mono, month_days-days_in_month,
}
use libsqli.Date.Search.{YearOf, YearOf-unique, search_year_lem, find_month_lem}

-- A day of the Gregorian calendar between the years 1 and 9999.
pub record IsDay (y m d : ℕ) : Type 0 where
  pub year_low : 1 ≤ y
  pub year_high : y ≤ 9999
  pub month_low : 1 ≤ m
  pub month_high : m ≤ 12
  pub day_low : 1 ≤ d
  pub day_high : d ≤ days_in_month y m

abbrev pub date_at : ℕ → ℕ → ℕ → Date
date_at y m d = record { year = pos y; month = m; day = d; is_null = false }

-- Days from the first of January of the year 1.
abbrev pub day_number : ℕ → ℕ → ℕ → ℕ
day_number y m d = days_before_year y + span (m - 1) y 1 + (d - 1)

pub days_before_bounds : (days_before_year 1 ≡ 0) × (days_before_year (9999 + 1) ≡ 3652059)
unfolding days_before_year
days_before_bounds = (refl, refl)

month_lengths_le : (i : ℕ) → get_or month_lengths i 0 ≤ 31
month_lengths_le i = ground arith

days_in_month_le : (y m : ℕ) → 1 ≤ m → m ≤ 12 → days_in_month y m ≤ 31
unfolding days_in_month
days_in_month_le y m h k = ground (arith, month_lengths_le (m - 1))

pub date_set-date_at :
    {y m d : ℕ} → IsDay y m d → date_set (pos y) (pos m) (pos d) ≡ done (date_at y m d)
unfolding date_set date_validate
date_set-date_at {y} {m} {d} v = ground (arith, days_in_month_le y m, month_days-days_in_month m y)

-- A month's days stand within those of its year.
span_within : (y m : ℕ) → 1 ≤ m → m ≤ 12 → span (m - 1) y 1 + days_in_month y m ≤ year_length y
unfolding span
span_within y zero h k = absurd (omega arith)
span_within y (suc j) h k = grind (arith, span_year y, span-add j (suc (11 - j)) y 1)

pub day_number-YearOf : {y m d : ℕ} → IsDay y m d → YearOf (day_number y m d) y
day_number-YearOf {y} {m} {d} v = record {
  begun = omega arith;
  running =
      omega (arith, days_before_year_step y v.year_low, span_within y m v.month_low v.month_high);
}

pub day_number-lt_end : {y m d : ℕ} → IsDay y m d → day_number y m d < days_before_year (9999 + 1)
day_number-lt_end {y} {m} {d} v =
    let last : y + 1 + (9999 - y) ≡ 9999 + 1 = omega arith in
    omega (
      arith,
      (day_number-YearOf v).running,
      days_before_year_mono (y + 1) (9999 - y),
      ap days_before_year last,
    )

search_day : {y m d : ℕ} → IsDay y m d → search_year 15 1 9999 (day_number y m d) ≡ some y
search_day {y} {m} {d} v =
    let (z, e, low, high, found) =
      search_year_lem 14 1 9999 (day_number y m d) (omega arith) (omega arith) (omega arith)
        (omega (arith, days_before_bounds.0)) (day_number-lt_end v) in
    e ∙ ap some (YearOf-unique (day_number y m d) z y low v.year_low found (day_number-YearOf v))

find_day :
    {y m d : ℕ}
    → IsDay y m d
    → find_month 11 y 1 (day_number y m d - days_before_year y) ≡ (m, d - 1)
find_day {y} {m} {d} v = grind (arith, find_month-span (m - 1) 11 y 1 (d - 1))

pub date_of_ordinal-day_number :
    {y m d : ℕ} → IsDay y m d → date_of_ordinal (day_number y m d) ≡ done (date_at y m d)
unfolding date_of_ordinal
date_of_ordinal-day_number {y} {m} {d} v =
    let whole : d - 1 + 1 ≡ d = omega arith in
    rw (search_day v, find_day v, whole) (date_set-date_at v)

-- Every day number below that of the year 10000 is that of a day.
pub IsDay-of_number :
    (n : ℕ) → n < days_before_year (9999 + 1) → (y m d : ℕ) × IsDay y m d × (n ≡ day_number y m d)
IsDay-of_number n h =
    let (z, e, low, high, found) =
      search_year_lem 14 1 9999 n (omega arith) (omega arith) (omega arith)
        (omega (arith, days_before_bounds.0)) h in
    go z low high found
  where
    go :
        (y : ℕ) → 1 ≤ y → y ≤ 9999 → YearOf n y → (y m d : ℕ) × IsDay y m d × (n ≡ day_number y m d)
    go y low high found =
        let walk =
          find_month_lem 11 y 1 (n - days_before_year y) refl
            (omega (arith, found.begun, found.running, days_before_year_step y low, span_year y)) in
        let (m, r) = find_month 11 y 1 (n - days_before_year y) in
        let r' : r + 1 - 1 ≡ r = omega arith in
        (
          y,
          m,
          r + 1,
          record {
            year_low = low;
            year_high = high;
            month_low = walk.0;
            month_high = walk.1;
            day_low = omega arith;
            day_high = omega (arith, walk.3);
          },
          omega (arith, walk.2, found.begun, r'),
        )
