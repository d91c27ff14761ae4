-- ===== src/Control/Rules/Tasks.antt =====
-- The rules on the open tasks of a deal.
use amocrm_analytics.Base.{
  ℕ, ◌*◌, ◌/◌, Bool, true, false, ◌&&◌, ◌||◌, not, Option, none, some, List, [], ◌∷◌, ◌++◌, ltb,
  leb, ◌==◌, any, length, if◌then◌else◌,
}
use amocrm_analytics.Control.Types.{ResultStatus, pass, fail, review, unknown, na, StageRule}
use amocrm_analytics.Control.Deadline.{day}
use amocrm_analytics.Control.Inputs.{
  Task, RuleInput, NoteState, current_notes, task_subject, has_no_text,
}
use amocrm_analytics.Control.Rules.{
  task_deadline_rule, task_count_rule, task_type_rule, task_text_rule, task_stage_deadline_rule,
  Clause, plain, awaiting_day_end, resolves_prior, resolves_all_subjects, evidence, RuleResult,
  clause, rule_clauses, add_result, add_for, Facts, is_end_of_day, is_unlimited, is_empty, ids,
}

abbrev number_in : Option ℕ → List ℕ → Bool
number_in none types = false
number_in (some n) types = any (λ t. t == n) types

-- `allowedTaskTypeIds`, none if it is missing.
abbrev or_empty : Option (List ℕ) → List ℕ
or_empty none = []
or_empty (some types) = types

abbrev pub allowed_types : Option StageRule → List ℕ
allowed_types none = []
allowed_types (some rule) = or_empty rule.allowed_task_type_ids

abbrev verdict : Bool → ResultStatus
verdict b = if b then pass else fail

module _ (civil : ℕ → ℕ) (input : RuleInput) (facts : Facts) where
  -- The clauses that a late task breaks.
  abbrev failed_clauses : (due_today overdue : Bool) → List Clause
  failed_clauses due_today overdue =
      (if due_today && not facts.before_day_end then clause facts.department 2 ∷ [] else [])
      ++ (if overdue then clause facts.department 3 ∷ [] else [])

  abbrev clauses_or_all : List Clause → List Clause
  clauses_or_all [] = rule_clauses facts.department task_deadline_rule
  clauses_or_all (c ∷ cs) = c ∷ cs

  abbrev deadline_result : ℕ → (due_today overdue : Bool) → RuleResult
  deadline_result subject due_today overdue =
      if due_today && (not overdue && facts.before_day_end)
      then record {
        rule_code = task_deadline_rule;
        status = unknown;
        subject_id = some subject;
        clauses = clause facts.department 2 ∷ [];
        details = awaiting_day_end;
      }
      else record {
        rule_code = task_deadline_rule;
        status = if due_today || overdue then fail else pass;
        subject_id = some subject;
        clauses = clauses_or_all (failed_clauses due_today overdue);
        details = plain;
      }

  abbrev deadline_by : ℕ → Option ℕ → RuleResult
  deadline_by subject none = add_for facts.department task_deadline_rule subject unknown plain
  deadline_by subject (some due) =
      deadline_result subject (civil due / day * day == facts.day_start) (ltb due facts.observed_at)

  unfoldable pub task_deadline : Task → RuleResult
  task_deadline task = deadline_by (task_subject task) task.due_at

  unfoldable pub task_type : Task → RuleResult
  task_type task =
      let allowed = allowed_types facts.stage_rule in
      if facts.is_base && is_empty allowed
      then add_for facts.department task_type_rule (task_subject task) na resolves_prior
      else if is_empty allowed
      then add_for facts.department task_type_rule (task_subject task) unknown plain
      else add_for facts.department task_type_rule (task_subject task)
          (verdict (number_in task.type_id allowed)) plain

  unfoldable pub task_text : Task → RuleResult
  task_text task =
      add_for facts.department task_text_rule (task_subject task)
        (if has_no_text task then fail else review) plain

  -- The due date is after the deadline of the stage, and notes may excuse it.
  abbrev excused : ℕ → NoteState → RuleResult
  excused subject state =
      if state.invalid || not input.source_completeness.notes
      then add_for facts.department task_stage_deadline_rule subject unknown plain
      else if is_empty state.notes
      then add_for facts.department task_stage_deadline_rule subject fail plain
      else add_for facts.department task_stage_deadline_rule subject review
          (evidence (ids state.notes) [])

  abbrev compare_due : ℕ → Option ℕ → Option ℕ → RuleResult
  compare_due subject (some deadline) (some due) =
      if leb due deadline
      then add_for facts.department task_stage_deadline_rule subject pass plain
      else if is_end_of_day facts.limit.mode
      then add_for facts.department task_stage_deadline_rule subject fail plain
      else excused subject (current_notes input.notes facts.stage_entered_at facts.observed_at true)
  compare_due subject _ _ = add_for facts.department task_stage_deadline_rule subject unknown plain

  unfoldable pub task_stage_deadline : Task → RuleResult
  task_stage_deadline task =
      if is_unlimited facts.limit
      then add_for facts.department task_stage_deadline_rule (task_subject task) na resolves_prior
      else compare_due (task_subject task) facts.limit.deadline task.due_at

  unfoldable pub task_results : List Task → List RuleResult
  task_results [] = []
  task_results (t ∷ ts) =
      task_deadline t ∷ task_type t ∷ task_text t ∷ task_stage_deadline t ∷ task_results ts

  unfoldable pub count_correct : List Task → Bool
  count_correct tasks = if facts.is_base then leb (length tasks) 1 else length tasks == 1

  -- The results if the list of the tasks is complete.
  unfoldable pub complete_tasks : List Task → List RuleResult
  complete_tasks tasks =
      add_result facts.department task_count_rule (verdict (count_correct tasks)) plain
        ∷ (if is_empty tasks
            then add_result facts.department task_deadline_rule pass plain
              ∷ add_result facts.department task_type_rule na plain
              ∷ add_result facts.department task_text_rule na plain
              ∷ add_result facts.department task_stage_deadline_rule na plain
              ∷ []
            else [])
      ++ task_results tasks

  unfoldable pub incomplete_tasks : List RuleResult
  incomplete_tasks =
      add_result facts.department task_deadline_rule unknown plain
      ∷ add_result facts.department task_count_rule unknown plain
      ∷ add_result facts.department task_type_rule unknown plain
      ∷ add_result facts.department task_text_rule unknown plain
      ∷ (if is_unlimited facts.limit
          then add_result facts.department task_stage_deadline_rule na resolves_all_subjects
          else add_result facts.department task_stage_deadline_rule unknown plain)
      ∷ []
