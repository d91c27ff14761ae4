-- ===== src/Control/Review.antt =====
-- Which results a person may review, and when the daily check is due
-- (apps/api/src/crm-control/crm-control.logic.ts), and how the worker stops
-- (apps/api/src/crm-control/crm-control-worker-lifecycle.ts).
use amocrm_analytics.Base.{
  ℕ, ◌/◌, ◌%◌, Bool, true, false, ◌&&◌, ◌||◌, not, Option, none, some, List, any, ltb, ◌==◌,
  if◌then◌else◌,
}
use amocrm_analytics.Calendar.{week_day}
use amocrm_analytics.Control.Types.{ResultStatus, fail, review, unknown, is_status}
use amocrm_analytics.Control.Deadline.{day}
use amocrm_analytics.Control.Rules.{
  RuleCode, intake_stage_rule, task_deadline_rule, proposal_note_rule,
}

abbrev has_day_end : RuleCode → Bool
has_day_end intake_stage_rule = true
has_day_end task_deadline_rule = true
has_day_end proposal_note_rule = true
has_day_end _ = false

-- `awaits` is the flag of the details, and `says_day_end` whether the message speaks of the end of the day.
unfoldable pub control_manual_review_allowed :
    ResultStatus → RuleCode → (awaits says_day_end : Bool) → Bool
control_manual_review_allowed status code awaits says_day_end =
    if not (is_status status fail || (is_status status review || is_status status unknown))
    then false
    else if not (is_status status unknown)
    then true
    else if awaits
    then false
    else not (has_day_end code && says_day_end)

-- The day of a daily check that is due: `time_of_day` is the minute of the day, and Sunday is 7.
unfoldable pub control_schedule_slot :
    (civil : ℕ → ℕ) (enabled : Bool) (workdays : List ℕ) (time_of_day now : ℕ) → Option ℕ
control_schedule_slot civil enabled workdays time_of_day now =
    let date = civil now / day in
    let weekday = if week_day date == 0 then 7 else week_day date in
    if not enabled
    then none
    else if not (any (λ d. d == weekday) workdays) || ltb (civil now % day / 60_000) time_of_day
    then none
    else some date

-- What a signal does: nothing if the worker is stopping; otherwise the worker drains its work, closes and
-- exits, with 1 if either of them fails.
unfoldable pub shutdown : (stopping drains closes : Bool) → Bool × Option ℕ
shutdown true drains closes = (true, none)
shutdown false drains closes = (true, some (if drains && closes then 0 else 1))
