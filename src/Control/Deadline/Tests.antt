-- ===== src/Control/Deadline/Tests.antt =====
-- Deadlines on a clock three hours ahead of UTC.
use amocrm_analytics.Base.{ℕ, ◌+◌, ◌*◌, ◌≡◌, refl, none, some}
use amocrm_analytics.Calendar.{week_day}
use amocrm_analytics.Control.Types.{StageRule, business_days, unlimited}
use amocrm_analytics.Control.Deadline.{
  day, is_weekday, skip_business_days, candidate, collect, instant_at_civil_time, civil_target,
  deadline_from, stage_deadline, has_stage_deadline,
}
use amocrm_analytics.Control.Deadline.Sound.{Meets, stage_deadline-Meets}

abbrev ahead3 : ℕ → ℕ
ahead3 t = t + 10_800_000

abbrev three_days : StageRule
three_days = record {
  allowed_task_type_ids = none;
  deadline_mode = some business_days;
  max_duration_hours = none;
  max_business_days = some 3;
}

abbrev no_limit : StageRule
no_limit = record {
  allowed_task_type_ids = none;
  deadline_mode = some unlimited;
  max_duration_hours = none;
  max_business_days = none;
}

-- Friday 2026-11-27 18:30, and the Wednesday after.
abbrev friday : ℕ
friday = 1_795_793_400_000

abbrev wednesday : ℕ
wednesday = friday + 5 * day

deadlines : Unit {0}
unfolding stage_deadline has_stage_deadline deadline_from civil_target instant_at_civil_time collect
    candidate skip_business_days is_weekday week_day
deadlines = tt

three_days_test : (stage_deadline ahead3 (some three_days) (some friday)).deadline ≡ some wednesday
unfolding deadlines
three_days_test = refl

stage_deadline-Meets_example : Meets ahead3 business_days three_days friday wednesday
stage_deadline-Meets_example =
    stage_deadline-Meets ahead3 three_days friday wednesday three_days_test
