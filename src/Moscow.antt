-- ===== src/Moscow.antt =====
-- apps/api/src/common/date.util.ts: the Moscow business calendar. An instant is its number of
-- milliseconds since 1970; all instants here lie after it. `civil` is the wall clock of the zone
-- Europe/Moscow, which `Intl.DateTimeFormat` reads from the time zone database: the wall-clock
-- time of an instant, as the milliseconds from 1970-01-01 00:00 of the same clock.
pub mod Zone
pub mod Count
pub mod Start
pub mod Elapsed
pub mod Add
pub mod Weekdays
mod Tests
use amocrm_analytics.Base.{
  ℕ, zero, suc, ◌+◌, ◌-◌, ◌*◌, ◌/◌, ◌%◌, Bool, ◌&&◌, ◌||◌, not, List, [], ◌∷◌, ltb, leb, ◌==◌,
  Option, none, some, if◌then◌else◌, min, max, ◌≤◌, ◌≡◌,
}
use amocrm_analytics.Calendar.{make_day, civil_date, week_day}

abbrev pub hour_ms : ℕ
hour_ms = 3_600_000

abbrev pub minute_ms : ℕ
minute_ms = 60_000

abbrev pub day_ms : ℕ
day_ms = 86_400_000

abbrev pub moscow_workday_start_hour : ℕ
moscow_workday_start_hour = 10

abbrev pub moscow_workday_end_hour : ℕ
moscow_workday_end_hour = 19

pub record MoscowParts : Type 0 where
  pub year : ℕ
  pub month : ℕ
  pub day : ℕ
  pub hour : ℕ
  pub minute : ℕ
  pub second : ℕ
  pub day_of_week : ℕ

-- `Date.UTC(year, month - 1, day, hour - 3, minute, second, ms)`; the three hours are taken off
-- last, so that hour 0 of a day past 1970-01-01 is right on numbers that stop at 0.
unfoldable pub moscow_date : (year month day hour minute second ms : ℕ) → ℕ
moscow_date year month day hour minute second ms =
    make_day year (month - 1) day * day_ms
    + hour * hour_ms
    + minute * minute_ms
    + second * 1000
    + ms
    - 3 * hour_ms

unfoldable pub is_moscow_business_day : ℕ → Bool
is_moscow_business_day day_of_week = leb 1 day_of_week && leb day_of_week 5

module _ (civil : ℕ → ℕ) where
  unfoldable pub moscow_parts : ℕ → MoscowParts
  moscow_parts date =
      let local = civil date in
      let c = civil_date (local / day_ms) in
      record {
        year = c.year;
        month = c.month + 1;
        day = c.day;
        hour = local % day_ms / hour_ms;
        minute = local % hour_ms / minute_ms;
        second = local % minute_ms / 1000;
        day_of_week = week_day (make_day c.year (c.month + 1 - 1) c.day);
      }

  unfoldable pub is_moscow_working_time : ℕ → Bool
  unfolding is_moscow_business_day
  is_moscow_working_time date =
      let parts = moscow_parts date in
      let minutes = parts.hour * 60 + parts.minute in
      is_moscow_business_day parts.day_of_week
      && leb (moscow_workday_start_hour * 60) minutes
      && ltb minutes (moscow_workday_end_hour * 60)

  -- The loop of `nextMoscowBusinessStart`, from `offset` on, with `left` rounds to go.
  unfoldable pub next_business_day : MoscowParts → ℕ → ℕ → ℕ
  next_business_day parts offset zero =
      moscow_date parts.year parts.month (parts.day + 1) moscow_workday_start_hour 0 0 0
  next_business_day parts offset (suc left) =
      let candidate =
        moscow_parts (moscow_date parts.year parts.month (parts.day + offset) 12 0 0 0) in
      let rest = next_business_day parts (offset + 1) left in
      if is_moscow_business_day candidate.day_of_week
      then moscow_date candidate.year candidate.month candidate.day moscow_workday_start_hour 0 0 0
      else rest

  unfoldable pub next_moscow_business_start : ℕ → ℕ
  next_moscow_business_start date =
      let parts = moscow_parts date in
      let minutes = parts.hour * 60 + parts.minute in
      if is_moscow_business_day parts.day_of_week && ltb minutes (moscow_workday_start_hour * 60)
      then moscow_date parts.year parts.month parts.day moscow_workday_start_hour 0 0 0
      else if is_moscow_business_day parts.day_of_week && ltb minutes (moscow_workday_end_hour * 60)
      then date
      else next_business_day parts 1 7

  -- The end of the working day that `date` lies in, as both loops below compute it.
  unfoldable pub work_end : ℕ → ℕ
  work_end date =
      let parts = moscow_parts date in
      moscow_date parts.year parts.month parts.day moscow_workday_end_hour 0 0 0

  -- The loop of `addMoscowBusinessTime`; `none` means that the fuel ran out.
  unfoldable pub add_business_loop : ℕ → ℕ → ℕ → Option ℕ
  add_business_loop zero cursor remaining = none
  add_business_loop (suc fuel) cursor remaining =
      let day_end = work_end cursor in
      let available = day_end - cursor in
      let rest =
        add_business_loop fuel (next_moscow_business_start (day_end + 1)) (remaining - available) in
      if remaining == 0
      then some cursor
      else if leb remaining available
      then some (cursor + remaining)
      else rest

  unfoldable pub add_moscow_business_time : (fuel start milliseconds : ℕ) → Option ℕ
  add_moscow_business_time fuel start milliseconds =
      add_business_loop fuel (next_moscow_business_start start) milliseconds

  -- The loop of `moscowBusinessElapsedMs`.
  unfoldable pub business_elapsed_loop : (fuel cursor end total : ℕ) → Option ℕ
  business_elapsed_loop zero cursor end total = none
  business_elapsed_loop (suc fuel) cursor end total =
      let work_start = next_moscow_business_start cursor in
      let day_end = work_end work_start in
      let rest =
        business_elapsed_loop fuel (day_end + 1) end
          (total + ((if ltb day_end end then day_end else end) - work_start)) in
      if leb end cursor then some total else if leb end work_start then some total else rest

  unfoldable pub moscow_business_elapsed_ms : (fuel start end : ℕ) → Option ℕ
  moscow_business_elapsed_ms fuel start end =
      if leb end start then some 0 else business_elapsed_loop fuel start end 0

  -- The loop of `moscowWeekdayElapsedMs`.
  unfoldable pub weekday_elapsed_loop : (fuel cursor end total : ℕ) → Option ℕ
  weekday_elapsed_loop zero cursor end total = none
  weekday_elapsed_loop (suc fuel) cursor end total =
      let parts = moscow_parts cursor in
      let next_day = moscow_date parts.year parts.month (parts.day + 1) 0 0 0 0 in
      let chunk_end = if ltb next_day end then next_day else end in
      let rest = weekday_elapsed_loop fuel chunk_end end (
        if is_moscow_business_day parts.day_of_week then total + (chunk_end - cursor) else total) in
      if leb end cursor then some total else rest

  unfoldable pub moscow_weekday_elapsed_ms : (fuel start end : ℕ) → Option ℕ
  moscow_weekday_elapsed_ms fuel start end =
      if leb end start then some 0 else weekday_elapsed_loop fuel start end 0
