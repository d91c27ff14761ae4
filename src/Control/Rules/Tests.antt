-- ===== src/Control/Rules/Tests.antt =====
-- A deal of the sales department that has been on its stage for two days, with a limit of one.
use amocrm_analytics.Base.{
  ℕ, ◌+◌, ◌-◌, ◌*◌, ◌≡◌, refl, true, false, Option, none, some, List, [], ◌∷◌, ◌≤◌,
}
use amocrm_analytics.Calendar.{
  make_day, civil_date, day_from_year, sum_first, walk_years, walk_months, days_in_year, leap,
}
use amocrm_analytics.Control.Types.{
  ResultStatus, fail, pass, review, unknown, na, StageRule, elapsed,
}
use amocrm_analytics.Control.Deadline.{
  hour, stage_deadline, has_stage_deadline, stage_deadline_config_error, deadline_from, rule_mode,
}
use amocrm_analytics.Control.Deadline.Sound.{Meets}
use amocrm_analytics.Control.Inputs.{
  sales, absent, unset, chosen, calendar_month, Task, RuleInput, is_blank, is_space, has_no_text,
  put_task, put_tasks, active_tasks, current_notes, next_calendar_month,
}
use amocrm_analytics.Control.Inputs.Open.{
  active_tasks-last_open, first_of, last_open, subject_count, number_of,
}
use amocrm_analytics.Control.Rules.{
  RuleResult, add_result, add_for, rule_clauses, all_unknown, is_exceeded, stage_duration_rule,
}
use amocrm_analytics.Control.Rules.Tasks.{
  task_deadline, task_type, task_text, task_stage_deadline, task_results, count_correct,
  complete_tasks, incomplete_tasks,
}
use amocrm_analytics.Control.Rules.Stages.{
  intake_stage, manager_notes, stage_duration, proposal_note, is_old, deal_age, price_limit,
  stage_communications, price_requested_duration,
}
use amocrm_analytics.Control.Rules.Evaluate.{
  facts_of, task_part, deal_part, rule_results, evaluate_crm_control_deal,
}
use amocrm_analytics.Control.Rules.Complete.{IsAnswered, evaluate_crm_control_deal-IsAnswered}
use amocrm_analytics.Control.Rules.Verdicts.{IsLate, stage_duration-Meets}

abbrev ahead : ℕ → ℕ
ahead t = t + 3 * hour

abbrev one_zone : ℕ → Option (ℕ → ℕ)
one_zone zone = some ahead

abbrev one_day : StageRule
one_day = record {
  allowed_task_type_ids = some (1 ∷ []);
  deadline_mode = some elapsed;
  max_duration_hours = some 24;
  max_business_days = none;
}

-- Monday 2026-11-30 20:00 in Moscow.
abbrev evening : ℕ
evening = 1_796_058_000_000

abbrev call_task : Task
call_task = record {
  id = 8;
  external_id = some 80;
  title = [];
  type_id = some 1;
  due_at = some (evening + 30 * hour);
  is_completed = false;
  raw_text = some (some (32 ∷ 1079 ∷ []));
}

abbrev late_deal : RuleInput
late_deal = record {
  deal = record { created_at = some (evening - 50 * hour); pipeline_id = 1; stage_id = 5 };
  tasks = call_task ∷ [];
  notes = [];
  communications = [];
  stage_entered_at = some (evening - 48 * hour);
  observed_at = some evening;
  source_completeness = record {
    deal = true;
    tasks = true;
    notes = true;
    stage_history = true;
    communications = true;
  };
  config = record { time_zone = 0; max_deal_age = calendar_month; exclude_base_from_age = true };
  scope = record {
    department = sales;
    pipeline_id = 1;
    assigned_stage_id = chosen 4;
    new_client_stage_id = unset;
    base_stage_id = unset;
    prepared_proposal_stage_id = absent;
    price_requested_stage_id = absent;
    check_deal_age = none;
    stage_rules = λ stage. some one_day;
  };
}

all_rules : Unit {0}
unfolding make_day civil_date day_from_year sum_first walk_years walk_months days_in_year leap
    stage_deadline has_stage_deadline stage_deadline_config_error deadline_from is_blank is_space
    has_no_text put_task put_tasks active_tasks current_notes next_calendar_month add_result add_for
    rule_clauses all_unknown is_exceeded task_deadline task_type task_text task_stage_deadline
    task_results count_correct complete_tasks incomplete_tasks intake_stage manager_notes
    stage_duration proposal_note is_old deal_age price_limit stage_communications
    price_requested_duration facts_of task_part deal_part rule_results evaluate_crm_control_deal
all_rules = tt

abbrev statuses : List RuleResult → List ResultStatus
statuses [] = []
statuses (r ∷ rs) = r.status ∷ statuses rs

late_deal_test :
    statuses (evaluate_crm_control_deal one_zone late_deal)
    ≡ na ∷ pass ∷ pass ∷ pass ∷ review ∷ fail ∷ fail ∷ na ∷ pass ∷ unknown ∷ unknown ∷ na ∷ []
unfolding all_rules
late_deal_test = refl

-- A month after the last day of January is the last day of February.
month_test :
    next_calendar_month (make_day 2027 0 31 * 86_400_000 + 5) ≡ make_day 2027 1 28 * 86_400_000 + 5
unfolding all_rules
month_test = refl

evaluate_crm_control_deal-IsAnswered_example :
    IsAnswered stage_duration_rule (evaluate_crm_control_deal one_zone late_deal)
evaluate_crm_control_deal-IsAnswered_example =
    evaluate_crm_control_deal-IsAnswered one_zone late_deal stage_duration_rule

late_deal_fails : (stage_duration ahead late_deal (facts_of ahead late_deal evening)).status ≡ fail
unfolding all_rules
late_deal_fails = refl

stage_duration-Meets_example :
    (rule : StageRule) × (entry : ℕ) × (d : ℕ) × (late_deal.scope.stage_rules
        late_deal.deal.stage_id
      ≡ some rule)
    × (late_deal.stage_entered_at ≡ some entry)
    × (entry ≤ evening)
    × (d ≤ evening)
    × Meets ahead (rule_mode (some rule)) rule entry d
    × IsLate ahead late_deal (facts_of ahead late_deal evening) d
stage_duration-Meets_example = stage_duration-Meets ahead late_deal evening late_deal_fails

active_tasks-last_open_example :
    (first_of 80 (active_tasks (call_task ∷ call_task ∷ []))
      ≡ last_open 80 (call_task ∷ call_task ∷ []) none)
    × (subject_count 80 (active_tasks (call_task ∷ call_task ∷ []))
        ≡ number_of (last_open 80 (call_task ∷ call_task ∷ []) none))
active_tasks-last_open_example = active_tasks-last_open 80 (call_task ∷ call_task ∷ [])
