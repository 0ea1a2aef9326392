-- ===== src/Date/Calendar.antt =====
-- The calendar of the DATE codec: years, months, and the day number of a date.
use libsqli.Prelude.{ℕ, zero, suc, ◌+◌, ◌≤◌, ◌<◌, ◌≡◌, refl, ap, ◌∙◌, if◌then◌else◌, arith}
use libsqli.Date.{leap_year, month_days, days_in_month, days_before_year, add_months, find_month}

abbrev pub year_length : ℕ → ℕ
year_length year = if leap_year year then 366 else 365

-- The days before year y + 1 are those before year y and the days of year y.
pub days_before_year_step :
    (y : ℕ) → 1 ≤ y → days_before_year (y + 1) ≡ days_before_year y + year_length y
unfolding days_before_year leap_year
days_before_year_step y h = ground arith

pub days_before_year_mono : (y k : ℕ) → 1 ≤ y → days_before_year y ≤ days_before_year (y + k)
unfolding days_before_year
days_before_year_mono y k h = omega arith

-- From the year 1 on, the two source files agree on the lengths of months.
pub month_days-days_in_month : (m y : ℕ) → 1 ≤ y → month_days m y ≡ days_in_month y m
unfolding month_days days_in_month
month_days-days_in_month m y h = ground arith

-- Days of `rounds` months from month `m` on.
unfoldable pub span : ℕ → ℕ → ℕ → ℕ
span zero y m = 0
span (suc rounds) y m = days_in_month y m + span rounds y (m + 1)

pub add_months-span :
    (rounds y m ordinal : ℕ) → add_months rounds y m ordinal ≡ ordinal + span rounds y m
unfolding add_months span
add_months-span zero y m ordinal = omega arith
add_months-span (suc rounds) y m ordinal =
    omega (arith, add_months-span rounds y (m + 1) (ordinal + days_in_month y m))

pub span-add : (j k y m : ℕ) → span (j + k) y m ≡ span j y m + span k y (m + j)
unfolding span
span-add zero k y m = grind arith
span-add (suc j) k y m = grind (arith, span-add j k y (m + 1))

pub span_year : (y : ℕ) → span 12 y 1 ≡ year_length y
unfolding span days_in_month
span_year y = ground arith

-- The days of all the months of the years 1 to n.
abbrev pub days_of_years : ℕ → ℕ
days_of_years zero = 0
days_of_years (suc n) = days_of_years n + span 12 (suc n) 1

first_year_lem : days_before_year 1 ≡ 0
unfolding days_before_year
first_year_lem = refl

-- The formula for the days before a year agrees with the sum of the lengths of all the months of the
-- years from 1 to the year before it.
pub days_before_year-days_of_years : (n : ℕ) → days_before_year (suc n) ≡ days_of_years n
days_before_year-days_of_years zero = first_year_lem
days_before_year-days_of_years (suc n) =
    let next : suc (suc n) ≡ suc n + 1 = omega arith in
    ap days_before_year next
    ∙ omega (
      arith,
      days_before_year_step (suc n) (omega arith),
      span_year (suc n),
      days_before_year-days_of_years n,
    )

-- The loop of the decoder undoes the sum of the encoder.
pub find_month-span :
    (k fuel y m r : ℕ)
    → k ≤ fuel
    → m + k ≤ 12
    → r < days_in_month y (m + k)
    → find_month fuel y m (span k y m + r) ≡ (m + k, r)
unfolding find_month span
find_month-span zero zero y m r h1 h2 h3 = grind arith
find_month-span zero (suc fuel) y m r h1 h2 h3 = grind arith
find_month-span (suc k) zero y m r h1 h2 h3 = absurd (omega arith)
find_month-span (suc k) (suc fuel) y m r h1 h2 h3 =
    grind (arith, find_month-span k fuel y (m + 1) r)
