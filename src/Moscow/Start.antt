-- ===== src/Moscow/Start.antt =====
-- `nextMoscowBusinessStart` finds the earliest working instant that is not before its argument.
use amocrm_analytics.Base.{
  ℕ, suc, ◌+◌, ◌*◌, ◌≤◌, ◌<◌, ◌≡◌, sym, Bool, true, false, arith, ltb, leb, ◌==◌, Bool-cases, ◌&&◌,
  inl, inr, ◌∙◌, if◌then◌else◌,
}
use amocrm_analytics.Calendar.{week_day}
use amocrm_analytics.Moscow.{
  hour_ms, day_ms, moscow_parts, is_moscow_working_time, next_business_day,
  next_moscow_business_start, work_end,
}
use amocrm_analytics.Moscow.Zone.{
  fixed_since, IsMoscowClock, local_day, local_ms, workday, instant, moscow_date-moscow_parts,
  moscow_date-same_day, business_day-moscow_parts, before_hour, working_iff,
}

-- The first workday after a day.
abbrev following : ℕ → ℕ
following n = if week_day n == 5 then n + 3 else if week_day n == 6 then n + 2 else n + 1

following-workday : (n : ℕ) → workday (following n) ≡ true
unfolding week_day
following-workday n = ground arith

lt-following : (n : ℕ) → (n < following n) × (following n ≤ n + 3)
lt-following n = ground arith

skipped-workday : (n m : ℕ) → n < m → m < following n → workday m ≡ false
unfolding week_day
skipped-workday n m h k = ground arith

local_day-instant : (n ms : ℕ) → 0 < n → ms < day_ms → local_day (instant n ms) ≡ n
local_day-instant n ms h k = omega arith

local_ms-instant : (n ms : ℕ) → 0 < n → ms < day_ms → local_ms (instant n ms) ≡ ms
local_ms-instant n ms h k = omega arith

module _ (civil : ℕ → ℕ) (clock : IsMoscowClock civil) where
  -- One round of the loop, over the days.
  round_lem :
      (t k left : ℕ)
      → fixed_since ≤ t
      → 0 < k
      → next_business_day civil (moscow_parts civil t) k (suc left) ≡ (
          if workday (local_day t + k)
          then instant (local_day t + k) (10 * hour_ms)
          else next_business_day civil (moscow_parts civil t) (k + 1) left)
  unfolding next_business_day
  round_lem t k left later ahead =
      let noon : fixed_since ≤ instant (local_day t + k) (12 * hour_ms) = omega arith in
      let same : local_day (instant (local_day t + k) (12 * hour_ms)) ≡ local_day t + k =
        omega arith in
      rw (moscow_date-moscow_parts civil clock t k 12 later) (
        rw (business_day-moscow_parts civil clock _ noon)
          (rw (moscow_date-same_day civil clock _ 10 noon) (rw same)))

  next_business_day_lem :
      (t : ℕ)
      → fixed_since ≤ t
      → next_business_day civil (moscow_parts civil t) 1 7
        ≡ instant (following (local_day t)) (10 * hour_ms)
  unfolding week_day
  next_business_day_lem t later = rw (round_lem t 1 6 later (omega arith)) (
      rw (round_lem t 2 5 later (omega arith))
        (rw (round_lem t 3 4 later (omega arith)) (ground arith)))

  -- The three cases of the function, by the day and the time of day of its argument.
  start_lem :
      (t : ℕ)
      → fixed_since ≤ t
      → next_moscow_business_start civil t ≡ (
          if workday (local_day t) && ltb (local_ms t) (10 * hour_ms)
          then instant (local_day t) (10 * hour_ms)
          else if workday (local_day t) && ltb (local_ms t) (19 * hour_ms)
          then t
          else instant (following (local_day t)) (10 * hour_ms))
  unfolding next_moscow_business_start
  start_lem t later = rw (business_day-moscow_parts civil clock t later) (
      rw (before_hour civil clock t 10 later) (
        rw (before_hour civil clock t 19 later)
          (rw (moscow_date-same_day civil clock t 10 later) (rw (next_business_day_lem t later)))))

-- The same cases as a function of the fixed offset.
abbrev open_at : ℕ → Bool
open_at t =
    workday (local_day t) && leb (10 * hour_ms) (local_ms t) && ltb (local_ms t) (19 * hour_ms)

abbrev next_open : ℕ → ℕ
next_open t =
    if workday (local_day t) && ltb (local_ms t) (10 * hour_ms)
    then instant (local_day t) (10 * hour_ms)
    else if workday (local_day t) && ltb (local_ms t) (19 * hour_ms)
    then t
    else instant (following (local_day t)) (10 * hour_ms)

le-next_open : (t : ℕ) → t ≤ next_open t
le-next_open t = ground (arith, lt-following (local_day t))

open_at_start : (n : ℕ) → 0 < n → workday n ≡ true → open_at (instant n (10 * hour_ms)) ≡ true
open_at_start n h w =
    rw (local_day-instant n (10 * hour_ms) h (omega arith))
      (rw (local_ms-instant n (10 * hour_ms) h (omega arith)) (rw w))

open_at-next_open : (t : ℕ) → fixed_since ≤ t → open_at (next_open t) ≡ true
open_at-next_open t later = ground (
  arith,
  open_at_start (local_day t),
  open_at_start (following (local_day t)),
  following-workday (local_day t),
  lt-following (local_day t),
)

closed_before-next_open : (t u : ℕ) → t ≤ u → u < next_open t → open_at u ≡ false
closed_before-next_open t u h k =
    ground (arith, skipped-workday (local_day t) (local_day u), lt-following (local_day t))

module _ (civil : ℕ → ℕ) (clock : IsMoscowClock civil) where
  start-next_open : (t : ℕ) → fixed_since ≤ t → next_moscow_business_start civil t ≡ next_open t
  start-next_open t later = start_lem civil clock t later

  -- On the clock of Moscow, for `t` since 2014-10-26, the business start after `t` is not before `t`, it is working time, and
  -- no instant from `t` up to it is.
  pub next_moscow_business_start-earliest :
      (t : ℕ)
      → fixed_since ≤ t
      → (t ≤ next_moscow_business_start civil t)
        × (is_moscow_working_time civil (next_moscow_business_start civil t) ≡ true)
        × ((u : ℕ)
            → t ≤ u
            → u < next_moscow_business_start civil t
            → is_moscow_working_time civil u ≡ false)
  next_moscow_business_start-earliest t later =
      let le = le-next_open t in
      rw (start-next_open t later) (
        le,
        working_iff civil clock (next_open t) (omega arith) ∙ open_at-next_open t later,
        λ u from before.
            working_iff civil clock u (omega arith) ∙ closed_before-next_open t u from before,
      )

-- From working time the day goes on to 19:00, and nothing is working time from there to the next
-- start.
module _ (civil : ℕ → ℕ) (clock : IsMoscowClock civil) (s : ℕ) (later : fixed_since ≤ s)
    (working : is_moscow_working_time civil s ≡ true) where
  work_end-instant : work_end civil s ≡ instant (local_day s) (19 * hour_ms)
  unfolding work_end
  work_end-instant = moscow_date-same_day civil clock s 19 later

  is_open : open_at s ≡ true
  is_open = sym (working_iff civil clock s later) ∙ working

  pub lt-work_end : s < work_end civil s
  lt-work_end = let h : open_at s ≡ true = is_open in rw work_end-instant (ground arith)

  pub working_until-work_end :
      (u : ℕ) → s ≤ u → u < work_end civil s → is_moscow_working_time civil u ≡ true
  working_until-work_end u from before =
      let h : open_at s ≡ true = is_open in
      let ends : u < instant (local_day s) (19 * hour_ms) = rw work_end-instant at before in
      working_iff civil clock u (omega arith) ∙ ground arith

  pub idle_after-work_end :
      (u : ℕ)
      → work_end civil s ≤ u
      → u < next_moscow_business_start civil (work_end civil s + 1)
      → is_moscow_working_time civil u ≡ false
  idle_after-work_end u from before =
      let ends : work_end civil s ≡ instant (local_day s) (19 * hour_ms) = work_end-instant in
      let after : s < work_end civil s = lt-work_end in
      elim (Bool-cases (u == work_end civil s)) [
        | inl same ↦ working_iff civil clock u (omega arith) ∙ ground arith
        | inr other ↦
            (next_moscow_business_start-earliest civil clock (work_end civil s + 1) (omega arith)).2
              u (ground arith) before
      ]
