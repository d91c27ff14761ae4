-- ===== src/Calendar/Months.antt =====
-- Where a day lies within its month.
use amocrm_analytics.Base.{
  ℕ, suc, ◌+◌, ◌-◌, ◌≤◌, ◌<◌, ◌≡◌, List, [], ◌∷◌, arith, length, ltb, Bool-cases, inl, inr, ◌∙◌,
  lt_of_ltb, le_of_ltb,
}
use amocrm_analytics.Calendar.{
  leap, day_from_year, month_lengths, sum_first, make_day, walk_years, walk_months, civil_date,
}
use amocrm_analytics.Calendar.Walk.{
  walked, make_day_in_year, walk_years_lem, day_from_year-suc, sum_first-month_lengths,
  day_from_year_1970,
}

walk_months_before :
    (ls : List ℕ) (rest : ℕ)
    → rest < sum_first (length ls) ls
    → rest < sum_first (suc (walk_months ls rest).0) ls
unfolding walk_months sum_first
walk_months_before [] rest h = elim h [ ]
walk_months_before (l ∷ ls) rest h = elim (Bool-cases (ltb rest l)) [
  | inl here ↦ rw here (omega (arith, lt_of_ltb _ _ here))
  | inr later ↦ rw later (
      let before = walk_months_before ls (rest - l) (omega (arith, le_of_ltb _ _ later)) in
      omega (arith, before, le_of_ltb _ _ later))
]

-- The months up to that of a day, with it, reach past the day.
pub month_past :
    (n : ℕ)
    → (1970 ≤ (civil_date n).year)
      × (n
          < day_from_year (civil_date n).year
            + sum_first (suc (civil_date n).month) (month_lengths (leap (civil_date n).year)))
unfolding civil_date
month_past n =
    let (same, inside, after) = walk_years_lem n 1970 n (omega arith) (omega arith) in
    let before =
      walk_months_before (month_lengths (leap (walk_years n 1970 n).0)) (walk_years n 1970 n).1
        (rw (sum_first-month_lengths (walk_years n 1970 n).0) inside) in
    (after, omega (arith, same, before, day_from_year_1970))

carried : (y : ℕ) → make_day y 12 1 ≡ day_from_year (y + 1)
unfolding make_day sum_first
carried y = omega arith

december :
    (y : ℕ) → 1970 ≤ y → make_day y 12 1 ≡ day_from_year y + sum_first 12 (month_lengths (leap y))
december y h = carried y ∙ omega (arith, day_from_year-suc y h, sum_first-month_lengths y)

pub next_month :
    (y m : ℕ)
    → 1970 ≤ y
    → m < 12
    → make_day y (m + 1) 1 ≡ day_from_year y + sum_first (suc m) (month_lengths (leap y))
next_month y m h k = elim (Bool-cases (ltb m 11)) [
  | inl early ↦
      let inside : m + 1 < 12 = omega (arith, lt_of_ltb _ _ early) in
      let same : m + 1 ≡ suc m = omega arith in
      make_day_in_year y (m + 1) 1 inside ∙ rw same (omega arith)
  | inr last ↦ let eleven : m ≡ 11 = omega (arith, le_of_ltb _ _ last) in rw eleven (december y h)
]

positive : (n : ℕ) → 1 ≤ (civil_date n).day
unfolding civil_date
positive n = omega arith

-- The first day of the month and the first day of the next one enclose a day.
pub month_encloses :
    (n : ℕ)
    → (make_day (civil_date n).year (civil_date n).month 1 ≤ n)
      × (n < make_day (civil_date n).year ((civil_date n).month + 1) 1)
month_encloses n =
    let (same, inside) = walked n in
    let (after, past) = month_past n in
    let first = make_day_in_year (civil_date n).year (civil_date n).month 1 inside in
    let later = next_month (civil_date n).year (civil_date n).month after inside in
    (omega (arith, same, first, positive n), omega (arith, past, later))
