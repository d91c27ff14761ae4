-- ===== src/Workspaces/Period.antt =====
-- The period of a report on performance (`performancePeriod` of
-- apps/api/src/workspaces/performance-period.ts). Days are the civil days of Moscow, which the source
-- takes to be three hours ahead of UTC; the texts of the query are given as what their patterns read.
pub mod Inside
mod Tests
use amocrm_analytics.Base.{
  ℕ, ◌+◌, ◌-◌, ◌*◌, min, max, Bool, true, false, ◌&&◌, ◌||◌, not, Option, none, some, ltb, leb,
  ◌==◌, if◌then◌else◌,
}
use amocrm_analytics.Calendar.{make_day, civil_date, week_day, CivilDate}

pub data PeriodKind : Type 0 where
  by_month by_week by_day : PeriodKind

-- A month of four digits and two.
pub record Month : Type 0 where
  pub year : ℕ
  pub number : ℕ

-- The form of the month: `20` and two digits, and a number from 01 to 12.
abbrev pub is_month : Month → Bool
is_month m = leb 2000 m.year && (leb m.year 2099 && (leb 1 m.number && leb m.number 12))

-- A day of the query, whose parts have only the right number of digits.
pub record DayText : Type 0 where
  pub year : ℕ
  pub number : ℕ
  pub day : ℕ

-- A text that is absent, that does not have the form, or what it says.
pub data Given {ℓ} (A : Type ℓ) : Type ℓ where
  absent malformed : Given A
  given : A → Given A

pub record PeriodQuery : Type 0 where
  pub period : Given PeriodKind
  pub month : Given Month
  pub day : Given DayText

pub data PeriodError : Type 0 where
  bad_period other_month bad_date : PeriodError

-- The bounds are days; `start` is also the key.
pub record Period : Type 0 where
  pub kind : PeriodKind
  pub anchor : ℕ
  pub start : ℕ
  pub end : ℕ
  pub month_start : ℕ
  pub month_end : ℕ

pub data PeriodResult : Type 0 where
  found : Period → PeriodResult
  wrong : PeriodError → PeriodResult

-- Monday is 1, and Sunday 7.
abbrev weekday : ℕ → ℕ
weekday n = if week_day n == 0 then 7 else week_day n

abbrev pub period_of : PeriodKind → (anchor month_start month_end : ℕ) → Period
period_of by_month anchor month_start month_end = record {
  kind = by_month;
  anchor = anchor;
  start = month_start;
  end = month_end;
  month_start = month_start;
  month_end = month_end;
}
period_of by_day anchor month_start month_end = record {
  kind = by_day;
  anchor = anchor;
  start = anchor;
  end = anchor + 1;
  month_start = month_start;
  month_end = month_end;
}
period_of by_week anchor month_start month_end = record {
  kind = by_week;
  anchor = anchor;
  start = max month_start (anchor - (weekday anchor - 1));
  end = min month_end (anchor + (8 - weekday anchor));
  month_start = month_start;
  month_end = month_end;
}

abbrev pub same_date : CivilDate → DayText → Bool
same_date c d = c.year == d.year && (c.month + 1 == d.number && c.day == d.day)

abbrev pub with_day : PeriodKind → Month → DayText → PeriodResult
with_day kind month day =
    let anchor = make_day day.year (day.number - 1) day.day in
    if not (day.year == month.year && day.number == month.number)
    then wrong other_month
    else if not (same_date (civil_date anchor) day)
    then wrong bad_date
    else found (
        period_of kind anchor (make_day month.year (month.number - 1) 1)
          (make_day month.year month.number 1))

-- `today`, if it lies in the month, or the first of the month.
abbrev pub default_day : Month → (today : CivilDate) → DayText
default_day month today =
    if today.year == month.year && today.month + 1 == month.number
    then record { year = today.year; number = today.month + 1; day = today.day }
    else record { year = month.year; number = month.number; day = 1 }

abbrev pub for_month : PeriodKind → Month → Given DayText → (today : CivilDate) → PeriodResult
for_month kind month absent today = with_day kind month (default_day month today)
for_month kind month malformed today = wrong other_month
for_month kind month (given day) today = with_day kind month day

abbrev pub checked_month : PeriodKind → Month → Given DayText → (today : CivilDate) → PeriodResult
checked_month kind month day today =
    if not (is_month month) then wrong bad_period else for_month kind month day today

abbrev pub for_kind : PeriodKind → Given Month → Given DayText → (today : CivilDate) → PeriodResult
for_kind kind malformed day today = wrong bad_period
for_kind kind absent day today =
    checked_month kind (record { year = today.year; number = today.month + 1 }) day today
for_kind kind (given month) day today = checked_month kind month day today

abbrev pub for_period :
    Given PeriodKind → Given Month → Given DayText → (today : CivilDate) → PeriodResult
for_period malformed month day today = wrong bad_period
for_period absent month day today = for_kind by_month month day today
for_period (given kind) month day today = for_kind kind month day today

-- `today` is the day of the clock.
unfoldable pub performance_period : (today : ℕ) → PeriodQuery → PeriodResult
performance_period today query = for_period query.period query.month query.day (civil_date today)
