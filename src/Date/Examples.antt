-- ===== src/Date/Examples.antt =====
-- Runs of the DATE codec, and the theorems at concrete inputs.
use libsqli.Prelude.{ℕ, ◌≡◌, refl, false, some, ◌≤◌, List, [], ◌∷◌, length, arith}
use libsqli.Prelude.Int.{pos}
use libsqli.Status.{done, fail, out_of_range, proto_error}
use libsqli.Date.{
  Date, date_validate, date_set, date_encode_wire, date_decode_wire, date_of_word, date_of_ordinal,
  month_days, leap_year, days_before_year, days_in_month, add_months, search_year, find_month,
}
use libsqli.Date.Calendar.{days_of_years, days_before_year-days_of_years}
use libsqli.Date.Search.{YearOf, search_year_lem}
use libsqli.Date.RoundTrip.{decode-encode_date, encode-decode_date}

abbrev leap_day : Date
leap_day = record { year = pos 2000; month = 2; day = 29; is_null = false }

leap_day_valid : date_validate leap_day ≡ done tt
unfolding date_validate month_days leap_year
leap_day_valid = refl

leap_day_bytes : date_encode_wire leap_day 4 ≡ done (0 ∷ 0 ∷ 142 ∷ 232 ∷ [])
unfolding date_encode_wire date_validate month_days leap_year days_before_year add_months
    days_in_month
leap_day_bytes = refl

no_such_day : date_set (pos 1900) (pos 2) (pos 29) ≡ fail out_of_range
unfolding date_set date_validate month_days leap_year
no_such_day = refl

-- The day before the first of January of the year 1.
too_early : date_decode_wire (0xff ∷ 0xf5 ∷ 0x6a ∷ 0x9d ∷ []) ≡ fail proto_error
unfolding date_decode_wire date_of_word days_before_year
too_early = refl

decode-encode_date_example :
    (bytes : List ℕ) × (date_encode_wire leap_day 18 ≡ done bytes)
    × (length bytes ≡ 4)
    × (date_decode_wire bytes ≡ done leap_day)
decode-encode_date_example = decode-encode_date leap_day 18 refl leap_day_valid (omega arith)

leap_day_read : date_decode_wire (0 ∷ 0 ∷ 142 ∷ 232 ∷ []) ≡ done leap_day
unfolding date_decode_wire date_of_word date_of_ordinal date_set date_validate month_days leap_year
    days_before_year days_in_month search_year find_month
leap_day_read = refl

encode-decode_date_example : date_encode_wire leap_day 4 ≡ done (0 ∷ 0 ∷ 142 ∷ 232 ∷ [])
encode-decode_date_example =
    encode-decode_date (0 ∷ 0 ∷ 142 ∷ 232 ∷ []) leap_day (omega arith) leap_day_read

-- The 730178th day stands in the year 2000.
search_year_lem_example :
    (y : ℕ) × (search_year 15 1 9999 730178 ≡ some y) × (1 ≤ y) × (y ≤ 9999) × YearOf 730178 y
unfolding days_before_year
search_year_lem_example =
    search_year_lem 14 1 9999 730178 (omega arith) (omega arith) (omega arith) (omega arith)
      (omega arith)

days_before_year-days_of_years_example : days_before_year 5 ≡ days_of_years 4
days_before_year-days_of_years_example = days_before_year-days_of_years 4
