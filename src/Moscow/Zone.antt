-- ===== src/Moscow/Zone.antt =====
-- What the calendar relies on of the time zone database, and the fields of an instant under it.
use amocrm_analytics.Base.{ℕ, ◌+◌, ◌-◌, ◌*◌, ◌/◌, ◌%◌, ◌≤◌, ◌≡◌, Bool, arith, ltb, leb, ◌&&◌, ◌∙◌}
use amocrm_analytics.Calendar.{make_day, civil_date, week_day}
use amocrm_analytics.Calendar.Walk.{make_day-civil_date}
use amocrm_analytics.Moscow.{
  hour_ms, day_ms, minute_ms, moscow_date, is_moscow_business_day, moscow_parts,
  is_moscow_working_time,
}

-- 2014-10-26 02:00 of the old clock, when Moscow went over to UTC+3 for good.
abbrev pub fixed_since : ℕ
fixed_since = 1_414_274_400_000

-- From then on Europe/Moscow is three hours ahead of UTC, as the time zone database has it.
abbrev pub IsMoscowClock : (ℕ → ℕ) → Type 0
IsMoscowClock civil = (t : ℕ) → fixed_since ≤ t → civil t ≡ t + 3 * hour_ms

-- The day and the time of the day of an instant, by the fixed offset.
abbrev pub local_day : ℕ → ℕ
local_day t = (t + 3 * hour_ms) / day_ms

abbrev pub local_ms : ℕ → ℕ
local_ms t = (t + 3 * hour_ms) % day_ms

-- Monday to Friday.
abbrev pub workday : ℕ → Bool
workday n = leb 1 (week_day n) && leb (week_day n) 5

-- The instant of a time of day `ms` on day `n`.
abbrev pub instant : ℕ → ℕ → ℕ
instant n ms = n * day_ms + ms - 3 * hour_ms

-- `month - 1` of the one-based month that the parts hold.
make_day_back :
    (n k : ℕ)
    → make_day (civil_date n).year ((civil_date n).month + 1 - 1) ((civil_date n).day + k) ≡ n + k
make_day_back n k =
    let zero_based : (civil_date n).month + 1 - 1 ≡ (civil_date n).month = omega arith in
    rw zero_based (make_day-civil_date n k)

make_day_same :
    (n : ℕ) → make_day (civil_date n).year ((civil_date n).month + 1 - 1) (civil_date n).day ≡ n
make_day_same n =
    let no_days : (civil_date n).day ≡ (civil_date n).day + 0 = omega arith in
    rw no_days (make_day_back n 0 ∙ omega arith)

module _ (civil : ℕ → ℕ) (clock : IsMoscowClock civil) where
  -- A time of the day `k` days after that of `t`, built from the fields of `t`.
  pub moscow_date-moscow_parts :
      (t k h : ℕ)
      → fixed_since ≤ t
      → moscow_date
          (moscow_parts civil t).year
          (moscow_parts civil t).month
          ((moscow_parts civil t).day + k)
          h
          0
          0
          0
        ≡ instant (local_day t + k) (h * hour_ms)
  unfolding moscow_date moscow_parts
  moscow_date-moscow_parts t k h later =
      rw (clock t later) (rw (make_day_back (local_day t) k) (omega arith))

  -- A time of the same day.
  pub moscow_date-same_day :
      (t h : ℕ)
      → fixed_since ≤ t
      → moscow_date
          (moscow_parts civil t).year
          (moscow_parts civil t).month
          (moscow_parts civil t).day
          h
          0
          0
          0
        ≡ instant (local_day t) (h * hour_ms)
  unfolding moscow_date moscow_parts
  moscow_date-same_day t h later =
      rw (clock t later) (rw (make_day_same (local_day t)) (omega arith))

  pub business_day-moscow_parts :
      (t : ℕ)
      → fixed_since ≤ t
      → is_moscow_business_day (moscow_parts civil t).day_of_week ≡ workday (local_day t)
  unfolding is_moscow_business_day moscow_parts
  business_day-moscow_parts t later = rw (clock t later) (rw (make_day_same (local_day t)))

  -- The minutes since midnight, as both tests below take them.
  minutes-moscow_parts :
      (t : ℕ)
      → fixed_since ≤ t
      → (moscow_parts civil t).hour * 60 + (moscow_parts civil t).minute ≡ local_ms t / minute_ms
  unfolding moscow_parts
  minutes-moscow_parts t later = rw (clock t later) (omega arith)

  -- A test on the minutes against a full hour is a test on the milliseconds.
  pub before_hour :
      (t h : ℕ)
      → fixed_since ≤ t
      → ltb ((moscow_parts civil t).hour * 60 + (moscow_parts civil t).minute) (h * 60)
        ≡ ltb (local_ms t) (h * hour_ms)
  before_hour t h later = rw (minutes-moscow_parts t later) (ground arith)

  -- Working time is 10:00 to 19:00 on a day from Monday to Friday.
  pub working_iff :
      (t : ℕ)
      → fixed_since ≤ t
      → is_moscow_working_time civil t ≡ (
          workday (local_day t)
          && leb (10 * hour_ms) (local_ms t)
          && ltb (local_ms t) (19 * hour_ms))
  unfolding is_moscow_working_time
  working_iff t later =
      rw (business_day-moscow_parts t later) (rw (minutes-moscow_parts t later) (ground arith))
