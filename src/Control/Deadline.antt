-- ===== src/Control/Deadline.antt =====
-- The deadline of a stage (apps/api/src/crm-control/crm-control-deadline.ts). Limits are whole
-- numbers, and instants lie after 1970. `civil` is the wall clock of the configured zone, which
-- `civilTime` reads from an `Intl.DateTimeFormat`: milliseconds since 1970-01-01 00:00 of that clock.
pub mod Workdays
pub mod Sound
mod Tests
use amocrm_analytics.Base.{
  ℕ, zero, suc, ◌+◌, ◌-◌, ◌*◌, ◌/◌, ◌%◌, ◌≤◌, Bool, true, false, ◌&&◌, ◌||◌, not, Option, none,
  some, List, [], ◌∷◌, ltb, leb, ◌==◌, any, if◌then◌else◌,
}
use amocrm_analytics.Calendar.{week_day}
use amocrm_analytics.Control.Types.{
  DeadlineMode, elapsed, business_days, end_of_day, unlimited, other, StageRule,
}

abbrev pub day : ℕ
day = 86_400_000

abbrev pub hour : ℕ
hour = 3_600_000

-- The greatest time value of a `Date`.
abbrev pub max_time : ℕ
max_time = 8_640_000_000_000_000

pub data ConfigError : Type 0 where
  unknown_mode bad_hours bad_days days_not_allowed hours_missing days_incomplete limit_not_allowed :
      ConfigError

abbrev is_none : Option ℕ → Bool
is_none none = true
is_none (some _) = false

abbrev out_of_range : Option ℕ → (least most : ℕ) → Bool
out_of_range none least most = false
out_of_range (some n) least most = ltb n least || ltb most n

-- The tests from the fourth on, by the mode.
abbrev mode_error : Option DeadlineMode → (hours days : Option ℕ) → Option ConfigError
mode_error none hours days = if not (is_none days) then some days_not_allowed else none
mode_error (some elapsed) hours days =
    if not (is_none days)
    then some days_not_allowed
    else if is_none hours
    then some hours_missing
    else none
mode_error (some business_days) hours days =
    if is_none days || not (is_none hours) then some days_incomplete else none
mode_error (some end_of_day) hours days =
    if not (is_none hours) || not (is_none days) then some limit_not_allowed else none
mode_error (some unlimited) hours days =
    if not (is_none hours) || not (is_none days) then some limit_not_allowed else none
mode_error (some other) hours days = some unknown_mode

abbrev is_other : Option DeadlineMode → Bool
is_other (some other) = true
is_other _ = false

unfoldable pub stage_deadline_config_error : StageRule → Option ConfigError
stage_deadline_config_error rule =
    if is_other rule.deadline_mode
    then some unknown_mode
    else if out_of_range rule.max_duration_hours 1 87600
    then some bad_hours
    else if out_of_range rule.max_business_days 1 3650
    then some bad_days
    else mode_error rule.deadline_mode rule.max_duration_hours rule.max_business_days

abbrev no_error : Option ConfigError → Bool
no_error none = true
no_error (some _) = false

abbrev pub is_set : Option DeadlineMode → Bool
is_set none = false
is_set (some _) = true

unfoldable pub has_stage_deadline : Option StageRule → Bool
unfolding stage_deadline_config_error
has_stage_deadline none = false
has_stage_deadline (some rule) =
    no_error (stage_deadline_config_error rule)
    && (is_set rule.deadline_mode || not (is_none rule.max_duration_hours))

pub data DeadlineReason : Type 0 where
  not_configured entry_unknown out_of_dates local_time_unclear : DeadlineReason

pub record StageDeadline : Type 0 where
  pub mode : DeadlineMode
  pub deadline : Option ℕ
  pub reason : Option DeadlineReason

abbrev mode_or_elapsed : Option DeadlineMode → DeadlineMode
mode_or_elapsed none = elapsed
mode_or_elapsed (some m) = m

abbrev pub rule_mode : Option StageRule → DeadlineMode
rule_mode none = elapsed
rule_mode (some rule) = mode_or_elapsed rule.deadline_mode

abbrev or_zero : Option ℕ → ℕ
or_zero none = 0
or_zero (some n) = n

-- Saturday and Sunday are left out.
unfoldable pub is_weekday : ℕ → Bool
is_weekday n = not (week_day n == 0) && not (week_day n == 6)

-- The loop over the business days; `none` means that the fuel ran out.
unfoldable pub skip_business_days : (fuel target remaining : ℕ) → Option ℕ
skip_business_days zero target remaining = if remaining == 0 then some target else none
skip_business_days (suc fuel) target remaining =
    let rest =
      skip_business_days fuel (target + day)
        (if is_weekday ((target + day) / day) then remaining - 1 else remaining) in
    if remaining == 0 then some target else rest

-- The element of a set of one.
abbrev pub only : List ℕ → Option ℕ
only (t ∷ []) = some t
only _ = none

-- The seven probes, as hours after the earliest.
abbrev probe_hours : List ℕ
probe_hours = 0 ∷ 12 ∷ 24 ∷ 36 ∷ 48 ∷ 60 ∷ 72 ∷ []

module _ (civil : ℕ → ℕ) where
  pub candidate : ℕ → ℕ → ℕ
  candidate target h =
      target + (target + h * hour - 36 * hour) - civil (target + h * hour - 36 * hour)

  -- The set of the instants that the probes give and that have the wanted local time.
  unfoldable pub collect : ℕ → List ℕ → List ℕ → List ℕ
  collect target [] found = found
  collect target (h ∷ hs) found = collect target hs (
      if civil (candidate target h) == target && not (any (λ t. t == candidate target h) found)
      then candidate target h ∷ found
      else found)

  unfoldable pub instant_at_civil_time : ℕ → Option ℕ
  instant_at_civil_time target = only (collect target probe_hours [])

  -- The local time of the deadline; the fuel is three rounds for each business day.
  unfoldable pub civil_target : DeadlineMode → StageRule → ℕ → Option ℕ
  civil_target end_of_day rule entry = some (civil entry / day * day + 19 * hour)
  civil_target _ rule entry =
      skip_business_days (3 * or_zero rule.max_business_days) (civil entry)
        (or_zero rule.max_business_days)

  abbrev at_instant : DeadlineMode → Option ℕ → StageDeadline
  at_instant mode none = record { mode = mode; deadline = none; reason = some local_time_unclear }
  at_instant mode (some t) = record { mode = mode; deadline = some t; reason = none }

  abbrev at_civil : DeadlineMode → Option ℕ → StageDeadline
  at_civil mode none = at_instant mode none
  at_civil mode (some target) = at_instant mode (instant_at_civil_time target)

  -- From a known entry, by the mode.
  unfoldable pub deadline_from : DeadlineMode → StageRule → ℕ → StageDeadline
  deadline_from unlimited rule entry = record { mode = unlimited; deadline = none; reason = none }
  deadline_from elapsed rule entry =
      if leb (entry + or_zero rule.max_duration_hours * hour) max_time
      then record {
        mode = elapsed;
        deadline = some (entry + or_zero rule.max_duration_hours * hour);
        reason = none;
      }
      else record { mode = elapsed; deadline = none; reason = some out_of_dates }
  deadline_from mode rule entry = at_civil mode (civil_target mode rule entry)

  abbrev configured_deadline : DeadlineMode → StageRule → Option ℕ → StageDeadline
  configured_deadline unlimited rule entry = record {
    mode = unlimited;
    deadline = none;
    reason = none;
  }
  configured_deadline mode rule none = record {
    mode = mode;
    deadline = none;
    reason = some entry_unknown;
  }
  configured_deadline mode rule (some entry) = deadline_from mode rule entry

  unfoldable pub stage_deadline : Option StageRule → Option ℕ → StageDeadline
  stage_deadline none entry = record {
    mode = elapsed;
    deadline = none;
    reason = some not_configured;
  }
  stage_deadline (some rule) entry =
      if has_stage_deadline (some rule)
      then configured_deadline (rule_mode (some rule)) rule entry
      else record { mode = rule_mode (some rule); deadline = none; reason = some not_configured }
