-- ===== src/Date/Search.antt =====
-- The loops of sqli_date_decode_wire: the binary search for the year, and the walk over the months.
use libsqli.Prelude.{
  ℕ, zero, suc, ◌+◌, ◌-◌, ◌*◌, ◌/◌, ◌^◌, ◌≤◌, ◌<◌, ◌≡◌, refl, ap, some, ltb, leb, Bool-cases, inl,
  inr, arith,
}
use native.Mathlib.Nat.{pow-suc}
use libsqli.Date.{days_in_month, days_before_year, search_year, find_month}
use libsqli.Date.Calendar.{span, days_before_year_mono}

-- The year `y` of the day number `ordinal`.
pub record YearOf (ordinal y : ℕ) : Type 0 where
  pub begun : days_before_year y ≤ ordinal
  pub running : ordinal < days_before_year (y + 1)

-- The binary search for the year ends: between years of which the first has begun by a day and the
-- last is not over before it, and fewer than 2 ^ n years apart, the loop leaves within n rounds, with
-- its test once more at the end, and its result is a year between them that has begun by that day and
-- is not over before it.
pub search_year_lem :
    (fuel low high ordinal : ℕ)
    → 1 ≤ low
    → low ≤ high
    → high - low < 2 ^ fuel
    → days_before_year low ≤ ordinal
    → ordinal < days_before_year (high + 1)
    → (y : ℕ) × (search_year (suc fuel) low high ordinal ≡ some y)
      × (low ≤ y)
      × (y ≤ high)
      × YearOf ordinal y
unfolding search_year
search_year_lem zero low high ordinal h1 h2 h3 h4 h5 =
    let same : high + 1 ≡ low + 1 = omega arith in
    (
      low,
      ground arith,
      omega arith,
      h2,
      record { begun = h4; running = omega (arith, ap days_before_year same) },
    )
search_year_lem (suc fuel) low high ordinal h1 h2 h3 h4 h5 =
    let middle : ℕ = low + (high - low + 1) / 2 in
    let half : high - low < 2 * 2 ^ fuel = omega (arith, pow-suc 2 fuel, h3) in
    elim (Bool-cases (ltb low high)) [
      | inr over ↦
          let same : high + 1 ≡ low + 1 = ground (arith, over) in
          (
            low,
            rw over refl,
            omega arith,
            h2,
            record { begun = h4; running = omega (arith, ap days_before_year same) },
          )
      | inl running ↦
          let lt : low < high = ground (arith, running) in
          elim (Bool-cases (leb (days_before_year middle) ordinal)) [
            | inl begun ↦
                let (y, e, a, b, c) =
                  search_year_lem fuel middle high ordinal (omega arith) (omega arith)
                    (omega (arith, half)) (ground (arith, begun)) h5 in
                (y, rw (running, begun) e, omega (arith, a), b, c)
            | inr later ↦
                let next : middle - 1 + 1 ≡ middle = omega arith in
                let (y, e, a, b, c) =
                  search_year_lem fuel low (middle - 1) ordinal h1 (omega (arith, lt))
                    (omega (arith, half, lt)) h4
                    (ground (arith, later, ap days_before_year next)) in
                (y, rw (running, later) e, a, omega (arith, b, lt), c)
          ]
    ]

pub YearOf-unique : (ordinal y z : ℕ) → 1 ≤ y → 1 ≤ z → YearOf ordinal y → YearOf ordinal z → y ≡ z
YearOf-unique ordinal y z hy hz p q = grind (
  arith,
  days_before_year_mono (y + 1) (z - (y + 1)),
  days_before_year_mono (z + 1) (y - (z + 1)),
)

-- Where the walk stops: the day lies in the month that it names.
pub find_month_lem :
    (fuel y m r : ℕ)
    → m + fuel ≡ 12
    → r < span (suc fuel) y m
    → let (m', r') = find_month fuel y m r in
      (m ≤ m') × (m' ≤ 12) × (r ≡ span (m' - m) y m + r') × (r' < days_in_month y m')
unfolding find_month span
find_month_lem zero y m r e h = grind arith
find_month_lem (suc fuel) y m r e h =
    grind (arith, find_month_lem fuel y (m + 1) (r - days_in_month y m))
