-- ===== src/Control/Rules/Evaluate.antt =====
-- The whole check of a deal.
use amocrm_analytics.Base.{
  ℕ, ◌+◌, ◌*◌, ◌/◌, Bool, true, ◌&&◌, not, Option, none, some, List, [], ◌∷◌, ◌++◌, ltb, leb, ◌==◌,
  if◌then◌else◌,
}
use amocrm_analytics.Control.Types.{unknown}
use amocrm_analytics.Control.Deadline.{day, hour, stage_deadline}
use amocrm_analytics.Control.Inputs.{RuleInput, active_tasks}
use amocrm_analytics.Control.Rules.{
  offer_budget_rule, proposal_file_rule, plain, RuleResult, add_result, all_unknown, Facts,
  is_sales, is_chosen,
}
use amocrm_analytics.Control.Rules.Tasks.{complete_tasks, incomplete_tasks}
use amocrm_analytics.Control.Rules.Stages.{
  intake_stage, stage_duration, proposal_note, deal_age, price_requested_duration,
}

abbrev pub entry_by : Bool → Option ℕ → ℕ → Option ℕ
entry_by true (some entry) observed_at = if leb entry observed_at then some entry else none
entry_by _ _ observed_at = none

unfoldable pub facts_of : (ℕ → ℕ) → RuleInput → ℕ → Facts
facts_of civil input observed_at =
    let scope = input.scope in
    let entered =
      entry_by input.source_completeness.stage_history input.stage_entered_at observed_at in
    let stage_rule = scope.stage_rules input.deal.stage_id in
    let day_start = civil observed_at / day * day in
    record {
      department = scope.department;
      observed_at = observed_at;
      day_start = day_start;
      before_day_end = ltb (civil observed_at) (day_start + 19 * hour);
      created_at = input.deal.created_at;
      stage_entered_at = entered;
      is_base =
          not (is_sales scope.department) && is_chosen scope.base_stage_id input.deal.stage_id;
      stage_rule = stage_rule;
      limit = stage_deadline civil stage_rule entered;
    }

module _ (civil : ℕ → ℕ) (input : RuleInput) where
  unfoldable pub task_part : Facts → List RuleResult
  task_part facts =
      if input.source_completeness.tasks
      then complete_tasks civil input facts (active_tasks input.tasks)
      else incomplete_tasks civil input facts

  unfoldable pub deal_part : Facts → List RuleResult
  deal_part facts =
      stage_duration civil input facts
      ∷ proposal_note civil input facts
      ∷ deal_age civil input facts
      ∷ add_result facts.department offer_budget_rule unknown plain
      ∷ add_result facts.department proposal_file_rule unknown plain
      ∷ price_requested_duration civil input facts
      ∷ []

  unfoldable pub rule_results : Facts → List RuleResult
  rule_results facts = intake_stage civil input facts ∷ task_part facts ++ deal_part facts

abbrev pub evaluate_at : Option (ℕ → ℕ) → RuleInput → ℕ → List RuleResult
evaluate_at none input observed_at = all_unknown input.scope.department
evaluate_at (some civil) input observed_at =
    if not input.source_completeness.deal
    then all_unknown input.scope.department
    else if not (input.scope.pipeline_id == input.deal.pipeline_id)
    then all_unknown input.scope.department
    else rule_results civil input (facts_of civil input observed_at)

abbrev pub evaluate_observed : (ℕ → Option (ℕ → ℕ)) → RuleInput → Option ℕ → List RuleResult
evaluate_observed clock input none = all_unknown input.scope.department
evaluate_observed clock input (some observed_at) =
    evaluate_at (clock input.config.time_zone) input observed_at

unfoldable pub evaluate_crm_control_deal : (ℕ → Option (ℕ → ℕ)) → RuleInput → List RuleResult
evaluate_crm_control_deal clock input = evaluate_observed clock input input.observed_at
