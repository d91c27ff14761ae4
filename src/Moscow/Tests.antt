-- ===== src/Moscow/Tests.antt =====
-- The calendar on the clock three hours ahead of UTC: a Friday evening to a Monday morning.
use amocrm_analytics.Base.{ℕ, ◌+◌, ◌-◌, ◌*◌, ◌≤◌, ◌<◌, ◌≡◌, refl, true, false, arith, some}
use amocrm_analytics.Calendar.{
  make_day, civil_date, day_from_year, sum_first, walk_years, walk_months, days_in_year, leap,
  week_day,
}
use amocrm_analytics.Moscow.{
  hour_ms, is_moscow_working_time, next_moscow_business_start, add_moscow_business_time,
  moscow_business_elapsed_ms, moscow_weekday_elapsed_ms, moscow_date, moscow_parts,
  next_business_day, work_end, add_business_loop, business_elapsed_loop, weekday_elapsed_loop,
}
use amocrm_analytics.Moscow.Zone.{IsMoscowClock}
use amocrm_analytics.Moscow.Count.{count_from}
use amocrm_analytics.Moscow.Start.{next_moscow_business_start-earliest}
use amocrm_analytics.Moscow.Elapsed.{moscow_business_elapsed_ms-count}
use amocrm_analytics.Moscow.Add.{elapsed-add_moscow_business_time}

abbrev ahead3 : ℕ → ℕ
ahead3 t = t + 3 * hour_ms

ahead3-IsMoscowClock : IsMoscowClock ahead3
ahead3-IsMoscowClock t h = refl

-- Friday 2026-11-27 18:30 and Monday 2026-11-30 11:00 in Moscow.
abbrev friday : ℕ
friday = 1_795_793_400_000

abbrev monday : ℕ
monday = 1_796_025_600_000

-- Opens all that the tests run through.
calendar : Unit {0}
unfolding civil_date make_day day_from_year sum_first walk_years walk_months days_in_year leap
    week_day moscow_date moscow_parts is_moscow_working_time next_moscow_business_start
    next_business_day work_end add_business_loop add_moscow_business_time business_elapsed_loop
    moscow_business_elapsed_ms weekday_elapsed_loop moscow_weekday_elapsed_ms
calendar = tt

date_test :
    (civil_date 20784 ≡ record { year = 2026; month = 10; day = 27 })
    × (civil_date 0 ≡ record { year = 1970; month = 0; day = 1 })
    × (civil_date 11016 ≡ record { year = 2000; month = 1; day = 29 })
    × (make_day 2025 13 29 ≡ make_day 2026 2 1)
unfolding calendar
date_test = (refl, refl, refl, refl)

-- Half an hour is left on Friday, and an hour has passed on Monday.
elapsed_test :
    (moscow_business_elapsed_ms ahead3 100 friday monday ≡ some (90 * 60_000))
    × (add_moscow_business_time ahead3 100 friday (90 * 60_000) ≡ some monday)
    × (moscow_weekday_elapsed_ms ahead3 100 friday monday ≡ some (990 * 60_000))
    × (next_moscow_business_start ahead3 (friday + hour_ms) ≡ monday - hour_ms)
unfolding calendar
elapsed_test = (refl, refl, refl, refl)

next_moscow_business_start-earliest_example :
    (friday ≤ next_moscow_business_start ahead3 friday)
    × (is_moscow_working_time ahead3 (next_moscow_business_start ahead3 friday) ≡ true)
    × ((u : ℕ)
        → friday ≤ u
        → u < next_moscow_business_start ahead3 friday
        → is_moscow_working_time ahead3 u ≡ false)
next_moscow_business_start-earliest_example =
    next_moscow_business_start-earliest ahead3 ahead3-IsMoscowClock friday (omega arith)

moscow_business_elapsed_ms-count_example :
    moscow_business_elapsed_ms ahead3 400_000_000 friday monday
    ≡ some (count_from (is_moscow_working_time ahead3) friday (monday - friday))
moscow_business_elapsed_ms-count_example =
    moscow_business_elapsed_ms-count ahead3 ahead3-IsMoscowClock 400_000_000 friday monday
      (omega arith) (omega arith)

elapsed-add_moscow_business_time_example :
    (r : ℕ) × (add_moscow_business_time ahead3 6_000_000 friday 5_400_000 ≡ some r)
    × (friday ≤ r)
    × ((fuel : ℕ)
        → r - friday < fuel
        → moscow_business_elapsed_ms ahead3 fuel friday r ≡ some 5_400_000)
elapsed-add_moscow_business_time_example =
    elapsed-add_moscow_business_time ahead3 ahead3-IsMoscowClock 6_000_000 friday 5_400_000
      (omega arith) (omega arith)
