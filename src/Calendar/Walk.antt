-- ===== src/Calendar/Walk.antt =====
-- `make_day` takes the civil fields of a day back to that day.
use amocrm_analytics.Base.{
  ℕ, zero, suc, ◌+◌, ◌-◌, ◌/◌, ◌%◌, ◌≤◌, ◌<◌, ◌≡◌, refl, List, [], ◌∷◌, arith, length, ltb,
  Bool-cases, inl, inr, ◌∙◌, lt_of_ltb, le_of_ltb,
}
use amocrm_analytics.Calendar.{
  leap, days_in_year, day_from_year, month_lengths, sum_first, make_day, walk_years, walk_months,
  civil_date,
}

pub day_from_year-suc :
    (y : ℕ) → 1970 ≤ y → day_from_year (y + 1) ≡ day_from_year y + days_in_year y
unfolding day_from_year days_in_year leap
day_from_year-suc y h = ground arith

-- The walk over the years keeps the day and ends within a year, if the fuel covers the days ahead.
pub walk_years_lem :
    (fuel y rest : ℕ)
    → 1970 ≤ y
    → rest ≤ fuel
    → (day_from_year (walk_years fuel y rest).0 + (walk_years fuel y rest).1
        ≡ day_from_year y + rest)
      × ((walk_years fuel y rest).1 < days_in_year (walk_years fuel y rest).0)
      × (1970 ≤ (walk_years fuel y rest).0)
unfolding walk_years
walk_years_lem zero y rest h k = (refl, unfold days_in_year in ground arith, h)
walk_years_lem (suc fuel) y rest h k = elim (Bool-cases (ltb rest (days_in_year y))) [
  | inl here ↦ rw here (refl, lt_of_ltb _ _ here, h)
  | inr later ↦ rw later (
      let (same, inside, after) =
        walk_years_lem fuel (y + 1) (rest - days_in_year y) (omega arith)
          (unfold days_in_year in ground arith) in
      (omega (arith, day_from_year-suc y h, le_of_ltb _ _ later), inside, after))
]

walk_months_lem :
    (ls : List ℕ) (rest : ℕ)
    → rest < sum_first (length ls) ls
    → (sum_first (walk_months ls rest).0 ls + (walk_months ls rest).1 ≡ rest)
      × ((walk_months ls rest).0 < length ls)
unfolding walk_months sum_first
walk_months_lem [] rest h = elim h [ ]
walk_months_lem (l ∷ ls) rest h = elim (Bool-cases (ltb rest l)) [
  | inl here ↦ rw here (omega arith, omega arith)
  | inr later ↦ rw later (
      let (same, inside) = walk_months_lem ls (rest - l) (omega (arith, le_of_ltb _ _ later)) in
      (omega (arith, le_of_ltb _ _ later), omega arith))
]

pub sum_first-month_lengths : (y : ℕ) → sum_first 12 (month_lengths (leap y)) ≡ days_in_year y
unfolding days_in_year sum_first
sum_first-month_lengths y = ground arith

pub day_from_year_1970 : day_from_year 1970 ≡ 0
unfolding day_from_year
day_from_year_1970 = refl

-- The year and the months of a day, walked, with what is left over.
pub walked :
    (n : ℕ)
    → (day_from_year (civil_date n).year
          + sum_first (civil_date n).month (month_lengths (leap (civil_date n).year))
          + (civil_date n).day
        ≡ n + 1)
      × ((civil_date n).month < 12)
unfolding civil_date
walked n =
    let (same, inside, after) = walk_years_lem n 1970 n (omega arith) (omega arith) in
    let (months, early) =
      walk_months_lem (month_lengths (leap (walk_years n 1970 n).0)) (walk_years n 1970 n).1
        (rw (sum_first-month_lengths (walk_years n 1970 n).0) inside) in
    (omega (arith, same, months, day_from_year_1970), early)

pub make_day_in_year :
    (y m d : ℕ)
    → m < 12
    → make_day y m d ≡ day_from_year y + sum_first m (month_lengths (leap y)) + d - 1
unfolding make_day
make_day_in_year y m d h =
    let no_carry : m / 12 ≡ 0 = omega arith in
    let same_month : m % 12 ≡ m = omega arith in
    let same_year : y + m / 12 ≡ y = omega arith in rw (same_year, same_month)

pub month-civil_date : (n : ℕ) → (civil_date n).month < 12
month-civil_date n = (walked n).1

-- A day `k` after the civil fields of day `n` is day `n + k`, also past the end of the month.
pub make_day-civil_date :
    (n k : ℕ) → make_day (civil_date n).year (civil_date n).month ((civil_date n).day + k) ≡ n + k
make_day-civil_date n k =
    make_day_in_year (civil_date n).year (civil_date n).month ((civil_date n).day + k) (walked n).1
    ∙ omega (arith, (walked n).0)
