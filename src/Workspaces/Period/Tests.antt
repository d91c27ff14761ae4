-- ===== src/Workspaces/Period/Tests.antt =====
-- Weeks at the ends of a month, and texts that are no day of it.
use amocrm_analytics.Base.{◌≡◌, refl}
use amocrm_analytics.Calendar.{
  leap, days_in_year, day_from_year, sum_first, make_day, walk_years, walk_months, civil_date,
  week_day,
}
use amocrm_analytics.Workspaces.Period.{
  by_month, by_week, Month, absent, given, PeriodQuery, Period, bad_period, other_month, bad_date,
  found, wrong, performance_period,
}

abbrev february : Month
february = record { year = 2026; number = 2 }

abbrev first_week : PeriodQuery
first_week = record { period = given by_week; month = given february; day = absent }

-- February 2026 begins on a Sunday.
abbrev sunday : Period
sunday = record {
  kind = by_week;
  anchor = 20_485;
  start = 20_485;
  end = 20_486;
  month_start = 20_485;
  month_end = 20_513;
}

computed : Unit {0}
unfolding performance_period leap days_in_year day_from_year sum_first make_day walk_years
    walk_months civil_date week_day
computed = tt

this_month :
    performance_period 20_464 (record { period = absent; month = absent; day = absent })
    ≡ found (record {
      kind = by_month;
      anchor = 20_464;
      start = 20_454;
      end = 20_485;
      month_start = 20_454;
      month_end = 20_485;
    })
unfolding computed
this_month = refl

no_such_day :
    performance_period 20_464
      (record first_week { day = given (record { year = 2026; number = 2; day = 29 }) })
    ≡ wrong bad_date
unfolding computed
no_such_day = refl

day_elsewhere :
    performance_period 20_464
      (record first_week { day = given (record { year = 2026; number = 3; day = 1 }) })
    ≡ wrong other_month
unfolding computed
day_elsewhere = refl

early_month :
    performance_period 20_464
      (record first_week { month = given (record { year = 1999; number = 2 }) })
    ≡ wrong bad_period
unfolding computed
early_month = refl
