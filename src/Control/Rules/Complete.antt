-- ===== src/Control/Rules/Complete.antt =====
-- Every rule of the catalogue is answered.
use amocrm_analytics.Base.{
  ℕ, ◌+◌, ◌≤◌, ◌≡◌, ◌⊎◌, refl, ◌∙◌, Bool, true, false, not, Option, none, some, List, [], ◌∷◌, ◌++◌,
  ◌||◌, ◌==◌, any, arith, if◌then◌else◌, both_branches,
}
use amocrm_analytics.Control.Inputs.{Department, Task, RuleInput, active_tasks}
use amocrm_analytics.Control.Rules.{
  RuleCode, intake_stage_rule, task_deadline_rule, task_count_rule, task_type_rule, task_text_rule,
  task_stage_deadline_rule, stage_duration_rule, proposal_note_rule, deal_age_rule,
  offer_budget_rule, proposal_file_rule, price_requested_duration_rule, RuleResult, all_unknown,
  add_result, add_for, Facts,
}
use amocrm_analytics.Control.Rules.Tasks.{
  task_deadline, task_type, task_text, task_stage_deadline, task_results, complete_tasks,
  incomplete_tasks,
}
use amocrm_analytics.Control.Rules.Stages.{
  intake_stage, stage_duration, proposal_note, deal_age, price_requested_duration,
}
use amocrm_analytics.Control.Rules.Evaluate.{
  task_part, deal_part, rule_results, evaluate_crm_control_deal, facts_of, evaluate_at,
  evaluate_observed,
}

abbrev rule_number : RuleCode → ℕ
rule_number intake_stage_rule = 1
rule_number task_deadline_rule = 2
rule_number task_count_rule = 3
rule_number task_type_rule = 4
rule_number task_text_rule = 5
rule_number task_stage_deadline_rule = 6
rule_number stage_duration_rule = 7
rule_number proposal_note_rule = 8
rule_number deal_age_rule = 9
rule_number offer_budget_rule = 10
rule_number proposal_file_rule = 11
rule_number price_requested_duration_rule = 12

abbrev pub is_rule : RuleCode → RuleCode → Bool
is_rule c d = rule_number c == rule_number d

-- The number of the results of a rule.
abbrev pub rule_count : RuleCode → List RuleResult → ℕ
rule_count c [] = 0
rule_count c (r ∷ rs) = (if is_rule r.rule_code c then 1 else 0) + rule_count c rs

rule_count-append :
    (c : RuleCode) (xs ys : List RuleResult)
    → rule_count c (xs ++ ys) ≡ rule_count c xs + rule_count c ys
rule_count-append c [] ys = omega arith
rule_count-append c (x ∷ xs) ys = omega (arith, rule_count-append c xs ys)

-- The rules that are answered task by task.
abbrev pub is_task_rule : RuleCode → Bool
is_task_rule c =
    any (is_rule c)
      (task_deadline_rule ∷ task_type_rule ∷ task_text_rule ∷ task_stage_deadline_rule ∷ [])

-- The answers of the part on the tasks.
abbrev InTaskPart : RuleCode → List RuleResult → Type 0
InTaskPart c rs =
    ((is_task_rule c ≡ true) → 1 ≤ rule_count c rs)
    × ((is_task_rule c ≡ false) → rule_count c rs ≡ (if is_rule c task_count_rule then 1 else 0))

-- At least one answer to the rule, and one only unless it is answered task by task.
abbrev pub IsAnswered : RuleCode → List RuleResult → Type 0
IsAnswered c rs = (1 ≤ rule_count c rs) × ((rule_count c rs ≡ 1) ⊎ (is_task_rule c ≡ true))

module _ (civil : ℕ → ℕ) (input : RuleInput) (facts : Facts) where
  intake_stage-rule_code : (intake_stage civil input facts).rule_code ≡ intake_stage_rule
  unfolding intake_stage add_result
  intake_stage-rule_code = ground arith

  stage_duration-rule_code : (stage_duration civil input facts).rule_code ≡ stage_duration_rule
  unfolding stage_duration add_result
  stage_duration-rule_code = ground arith

  proposal_note-rule_code : (proposal_note civil input facts).rule_code ≡ proposal_note_rule
  unfolding proposal_note add_result
  proposal_note-rule_code = ground arith

  deal_age-rule_code : (deal_age civil input facts).rule_code ≡ deal_age_rule
  unfolding deal_age add_result
  deal_age-rule_code = ground arith

  price_requested_duration-rule_code :
      (price_requested_duration civil input facts).rule_code ≡ price_requested_duration_rule
  unfolding price_requested_duration add_result
  price_requested_duration-rule_code = ground arith

  task_deadline-rule_code :
      (t : Task) → (task_deadline civil input facts t).rule_code ≡ task_deadline_rule
  unfolding task_deadline add_for
  task_deadline-rule_code t = ground arith

  task_type-rule_code : (t : Task) → (task_type civil input facts t).rule_code ≡ task_type_rule
  unfolding task_type add_for
  task_type-rule_code t = ground arith

  task_text-rule_code : (t : Task) → (task_text civil input facts t).rule_code ≡ task_text_rule
  unfolding task_text add_for
  task_text-rule_code t = ground arith

  task_stage_deadline-rule_code :
      (t : Task) → (task_stage_deadline civil input facts t).rule_code ≡ task_stage_deadline_rule
  unfolding task_stage_deadline add_for
  task_stage_deadline-rule_code t = ground arith

  -- The results on one task: one of each rule that is answered task by task.
  rule_count-task_results :
      (c : RuleCode) (t : Task) (ts : List Task)
      → rule_count c (task_results civil input facts (t ∷ ts))
        ≡ (if is_task_rule c then 1 else 0) + rule_count c (task_results civil input facts ts)
  unfolding task_results
  rule_count-task_results c t ts =
      rw
        (
          task_deadline-rule_code t,
          task_type-rule_code t,
          task_text-rule_code t,
          task_stage_deadline-rule_code t,
        )
        (ground arith)

  rule_count-deal_part :
      (c : RuleCode)
      → rule_count c (deal_part civil input facts) ≡ (
          if is_task_rule c || (is_rule c intake_stage_rule || is_rule c task_count_rule)
          then 0
          else 1)
  unfolding deal_part add_result
  rule_count-deal_part c =
      rw
        (
          stage_duration-rule_code, proposal_note-rule_code, deal_age-rule_code,
          price_requested_duration-rule_code,
        )
        (ground arith)

  rule_count-empty : (c : RuleCode) → rule_count c (task_results civil input facts []) ≡ 0
  unfolding task_results
  rule_count-empty c = refl

  rule_count-no_task_results :
      (c : RuleCode) (ts : List Task)
      → is_task_rule c ≡ false
      → rule_count c (task_results civil input facts ts) ≡ 0
  unfolding task_results
  rule_count-no_task_results c [] h = refl
  rule_count-no_task_results c (t ∷ ts) h =
      let others : rule_count c (task_results civil input facts ts) ≡ 0 =
        rule_count-no_task_results c ts h in
      rule_count-task_results c t ts ∙ rw (h, others) (omega arith)

  InTaskPart-complete_tasks :
      (c : RuleCode) (ts : List Task) → InTaskPart c (complete_tasks civil input facts ts)
  unfolding complete_tasks add_result
  InTaskPart-complete_tasks c [] =
      let nothing : rule_count c (task_results civil input facts []) ≡ 0 = rule_count-empty c in
      ground arith
  InTaskPart-complete_tasks c (t ∷ ts) =
      let one_task = rule_count-task_results c t ts in
      (
        (λ h.
            let one_more : 1 ≤ rule_count c (task_results civil input facts (t ∷ ts)) =
              rw one_task (rw h (omega arith)) in
            omega arith),
        (λ h.
            let no_more : rule_count c (task_results civil input facts (t ∷ ts)) ≡ 0 =
              rule_count-no_task_results c (t ∷ ts) h in
            ground arith),
      )

  InTaskPart-incomplete_tasks : (c : RuleCode) → InTaskPart c (incomplete_tasks civil input facts)
  unfolding incomplete_tasks add_result
  InTaskPart-incomplete_tasks c = ground arith

  InTaskPart-task_part : (c : RuleCode) → InTaskPart c (task_part civil input facts)
  unfolding task_part
  InTaskPart-task_part c =
      both_branches (InTaskPart c) input.source_completeness.tasks
        (InTaskPart-complete_tasks c (active_tasks input.tasks)) (InTaskPart-incomplete_tasks c)

  IsAnswered-rule_results : (c : RuleCode) → IsAnswered c (rule_results civil input facts)
  unfolding rule_results
  IsAnswered-rule_results c =
      let (least, others) = InTaskPart-task_part c in
      let count : rule_count c (rule_results civil input facts)
          ≡ (if is_rule intake_stage_rule c then 1 else 0)
            + (rule_count c (task_part civil input facts)
                + (if is_task_rule c || (is_rule c intake_stage_rule || is_rule c task_count_rule)
                    then 0
                    else 1)) =
        rw
          (
            intake_stage-rule_code,
            rule_count-append c (task_part civil input facts) (deal_part civil input facts),
            rule_count-deal_part c,
          )
          refl in
      rw count (ground arith)

IsAnswered-all_unknown : (d : Department) (c : RuleCode) → IsAnswered c (all_unknown d)
unfolding all_unknown add_result
IsAnswered-all_unknown d c = ground arith

IsAnswered-evaluate_at :
    (zone : Option (ℕ → ℕ)) (input : RuleInput) (at : ℕ) (c : RuleCode)
    → IsAnswered c (evaluate_at zone input at)
IsAnswered-evaluate_at none input at c = IsAnswered-all_unknown input.scope.department c
IsAnswered-evaluate_at (some civil) input at c =
    both_branches (IsAnswered c) (not input.source_completeness.deal)
      (IsAnswered-all_unknown input.scope.department c)
      (both_branches (IsAnswered c) (not (input.scope.pipeline_id == input.deal.pipeline_id))
        (IsAnswered-all_unknown input.scope.department c)
        (IsAnswered-rule_results civil input (facts_of civil input at) c))

IsAnswered-evaluate_observed :
    (clock : ℕ → Option (ℕ → ℕ)) (input : RuleInput) (at : Option ℕ) (c : RuleCode)
    → IsAnswered c (evaluate_observed clock input at)
IsAnswered-evaluate_observed clock input none c = IsAnswered-all_unknown input.scope.department c
IsAnswered-evaluate_observed clock input (some at) c =
    IsAnswered-evaluate_at (clock input.config.time_zone) input at c

-- Whatever is known of a deal, its check answers each of the twelve rules of the catalogue at least
-- once, and each rule that is not answered task by task exactly once.
pub evaluate_crm_control_deal-IsAnswered :
    (clock : ℕ → Option (ℕ → ℕ)) (input : RuleInput) (c : RuleCode)
    → IsAnswered c (evaluate_crm_control_deal clock input)
unfolding evaluate_crm_control_deal
evaluate_crm_control_deal-IsAnswered clock input c =
    IsAnswered-evaluate_observed clock input input.observed_at c
