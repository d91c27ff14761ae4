-- ===== src/Workspaces/Period/Inside.antt =====
-- A period holds its day and lies in its month.
use amocrm_analytics.Base.{ℕ, ◌+◌, ◌-◌, ◌≤◌, ◌<◌, ◌≡◌, true}
use amocrm_analytics.Calendar.{civil_date}
use amocrm_analytics.Workspaces.Period.{
  PeriodKind, by_month, by_week, by_day, Month, Given, absent, given, Period, is_month,
}

-- The greatest number of days of a period.
abbrev pub size_of : PeriodKind → (month : ℕ) → ℕ
size_of by_month month = month
size_of by_week month = 7
size_of by_day month = 1

-- The period holds its day, lies in the month, and a week or a day is no longer than its name says.
pub record IsInside (p : Period) : Type 0 where
  pub from_month : p.month_start ≤ p.start
  pub from_start : p.start ≤ p.anchor
  pub to_end : p.anchor < p.end
  pub to_month : p.end ≤ p.month_end
  pub size : p.end - p.start ≤ size_of p.kind (p.month_end - p.month_start)

-- The bounds of the month hold exactly the days of a month.
pub record IsOf (month : Month) (p : Period) : Type 0 where
  pub answered : is_month month ≡ true
  pub holds :
      (n : ℕ)
      → (civil_date n).year ≡ month.year
      → (civil_date n).month + 1 ≡ month.number
      → (p.month_start ≤ n) × (n < p.month_end)
  pub only :
      (n : ℕ)
      → p.month_start ≤ n
      → n < p.month_end
      → ((civil_date n).year ≡ month.year) × ((civil_date n).month + 1 ≡ month.number)

-- The month that a query asks for: that of today if it names none.
pub data Asks (today : ℕ) (month : Month) : Given Month → Type 0 where
  named : Asks today month (given month)
  current :
      month.year ≡ (civil_date today).year
      → month.number ≡ (civil_date today).month + 1
      → Asks today month absent

-- What the answer to a query is about.
abbrev pub IsPeriodOf : Month → Period → Type 0
IsPeriodOf month p = IsInside p × IsOf month p
