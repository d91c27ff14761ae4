-- ===== src/Calendar.antt =====
-- The proleptic Gregorian calendar of the language's `Date`, as far as the sources use it:
-- `Date.UTC` from 1970 on, with its carry of months and days, and the civil fields of an instant.
-- A day is its number since 1970-01-01, and months count from 0 as `getUTCMonth` does.
pub mod Walk
pub mod Months
pub mod Order
use amocrm_analytics.Base.{
  ℕ, zero, suc, ◌+◌, ◌-◌, ◌*◌, ◌/◌, ◌%◌, Bool, ◌&&◌, ◌||◌, not, List, [], ◌∷◌, ltb, ◌==◌,
  if◌then◌else◌,
}

unfoldable pub leap : ℕ → Bool
leap y = y % 4 == 0 && (not (y % 100 == 0) || y % 400 == 0)

unfoldable pub days_in_year : ℕ → ℕ
days_in_year y = if leap y then 366 else 365

-- Days from 1970-01-01 to January 1 of the year (DayFromYear of the language's specification).
unfoldable pub day_from_year : ℕ → ℕ
day_from_year y = 365 * (y - 1970) + (y - 1969) / 4 + (y - 1601) / 400 - (y - 1901) / 100

abbrev pub month_lengths : Bool → List ℕ
month_lengths leap_year =
    31 ∷ (if leap_year then 29 else 28) ∷ 31 ∷ 30 ∷ 31 ∷ 30 ∷ 31 ∷ 31 ∷ 30 ∷ 31 ∷ 30 ∷ 31 ∷ []

-- The sum of the first `m` lengths.
unfoldable pub sum_first : ℕ → List ℕ → ℕ
sum_first zero ls = 0
sum_first (suc m) [] = 0
sum_first (suc m) (l ∷ ls) = l + sum_first m ls

-- MakeDay: a month past December carries into the year, and the day may lie outside its month.
unfoldable pub make_day : ℕ → ℕ → ℕ → ℕ
make_day y m d =
    let y' = y + m / 12 in day_from_year y' + sum_first (m % 12) (month_lengths (leap y')) + d - 1

-- The year of a day, and the day within it: the years are walked from `y`, `rest` days ahead.
unfoldable pub walk_years : ℕ → ℕ → ℕ → ℕ × ℕ
walk_years zero y rest = (y, rest)
walk_years (suc fuel) y rest =
    let later = walk_years fuel (y + 1) (rest - days_in_year y) in
    if ltb rest (days_in_year y) then (y, rest) else later

unfoldable pub walk_months : List ℕ → ℕ → ℕ × ℕ
walk_months [] rest = (0, rest)
walk_months (l ∷ ls) rest =
    if ltb rest l then (0, rest) else let (m, d) = walk_months ls (rest - l) in (suc m, d)

pub record CivilDate : Type 0 where
  pub year : ℕ
  pub month : ℕ
  pub day : ℕ

-- `getUTCFullYear`, `getUTCMonth` and `getUTCDate` of a day.
unfoldable pub civil_date : ℕ → CivilDate
civil_date n =
    let (y, rest) = walk_years n 1970 n in
    let (m, d) = walk_months (month_lengths (leap y)) rest in
    record { year = y; month = m; day = d + 1 }

-- `getUTCDay` of a day: 1970-01-01 was a Thursday.
unfoldable pub week_day : ℕ → ℕ
week_day n = (n + 4) % 7
