-- ===== src/Control/Rules.antt =====
-- The check of a deal (`evaluateCrmControlDeal` of apps/api/src/crm-control/crm-control.rules.ts), one
-- function for each rule, in the order of the results. Messages and the details that are only
-- shown are left out, and `clock` is the time zone database: `none` for a name it does not know.
pub mod Tasks
pub mod Stages
pub mod Evaluate
pub mod Complete
pub mod Verdicts
mod Tests
use amocrm_analytics.Base.{
  ℕ, ◌+◌, ◌-◌, ◌*◌, ◌/◌, Bool, true, false, ◌&&◌, ◌||◌, not, Option, none, some, List, [], ◌∷◌,
  ◌++◌, ltb, leb, ◌==◌, any, filter, length, if◌then◌else◌,
}
use amocrm_analytics.Control.Types.{
  ResultStatus, pass, fail, review, unknown, na, DeadlineMode, end_of_day, unlimited, StageRule,
}
use amocrm_analytics.Control.Deadline.{day, hour, DeadlineReason, StageDeadline}
use amocrm_analytics.Control.Inputs.{
  Department, sales, csm, StageChoice, absent, unset, chosen, Note, note_id, Communication,
}

pub data RuleCode : Type 0 where
  intake_stage_rule task_deadline_rule task_count_rule task_type_rule task_text_rule : RuleCode
  task_stage_deadline_rule stage_duration_rule proposal_note_rule deal_age_rule : RuleCode
  offer_budget_rule proposal_file_rule price_requested_duration_rule : RuleCode

abbrev pub rule_names : List RuleCode
rule_names =
    intake_stage_rule ∷ task_deadline_rule ∷ task_count_rule ∷ task_type_rule ∷ task_text_rule
    ∷ task_stage_deadline_rule ∷ stage_duration_rule ∷ proposal_note_rule ∷ deal_age_rule
    ∷ offer_budget_rule ∷ proposal_file_rule ∷ price_requested_duration_rule ∷ []

-- A clause of the rules of a department.
pub record Clause : Type 0 where
  pub department : Department
  pub number : ℕ

-- The details that other code reads. `resolves_all_subjects` and `delegated_to_price` carry
-- `resolvesPrior` too.
pub data Details : Type 0 where
  plain configured_absent awaiting_day_end resolves_prior resolves_all_subjects : Details
  delegated_to_price : Details
  evidence : (note_ids communication_ids : List ℕ) → Details

pub record RuleResult : Type 0 where
  pub rule_code : RuleCode
  pub status : ResultStatus
  pub subject_id : Option ℕ
  pub clauses : List Clause
  pub details : Details

abbrev pub clause : Department → ℕ → Clause
clause d n = record { department = d; number = n }

-- The clause after the first three has another number in each department.
abbrev later : Department → ℕ → List Clause
later sales n = clause sales n ∷ []
later csm n = clause csm (n + 1) ∷ []

unfoldable pub rule_clauses : Department → RuleCode → List Clause
rule_clauses d intake_stage_rule = clause d 1 ∷ []
rule_clauses d task_deadline_rule = clause d 2 ∷ clause d 3 ∷ []
rule_clauses csm task_count_rule = clause csm 4 ∷ clause csm 6 ∷ []
rule_clauses d proposal_note_rule = later d 4
rule_clauses d deal_age_rule = later d 6
rule_clauses d offer_budget_rule = later d 7
rule_clauses d proposal_file_rule = later d 8
rule_clauses d price_requested_duration_rule = clause csm 10 ∷ []
rule_clauses d _ = later d 5

unfoldable pub add_result : Department → RuleCode → ResultStatus → Details → RuleResult
add_result d code s details = record {
  rule_code = code;
  status = s;
  subject_id = none;
  clauses = rule_clauses d code;
  details = details;
}

unfoldable pub add_for : Department → RuleCode → ℕ → ResultStatus → Details → RuleResult
add_for d code subject s details = record {
  rule_code = code;
  status = s;
  subject_id = some subject;
  clauses = rule_clauses d code;
  details = details;
}

abbrev pub map_codes : (RuleCode → RuleResult) → List RuleCode → List RuleResult
map_codes f [] = []
map_codes f (c ∷ cs) = f c ∷ map_codes f cs

unfoldable pub all_unknown : Department → List RuleResult
all_unknown d = map_codes (λ code. add_result d code unknown plain) rule_names

-- What the rules share.
pub record Facts : Type 0 where
  pub department : Department
  pub observed_at : ℕ
  pub day_start : ℕ
  pub before_day_end : Bool
  pub created_at : Option ℕ
  pub stage_entered_at : Option ℕ
  pub is_base : Bool
  pub stage_rule : Option StageRule
  pub limit : StageDeadline

abbrev pub is_sales : Department → Bool
is_sales sales = true
is_sales csm = false

abbrev pub is_chosen : StageChoice → ℕ → Bool
is_chosen (chosen s) stage = s == stage
is_chosen _ stage = false

-- The four cases of a check that is bound to a stage.
abbrev pub on_stage : StageChoice → ℕ → (no_stage not_set elsewhere there : RuleResult) → RuleResult
on_stage absent stage a u e t = a
on_stage unset stage a u e t = u
on_stage (chosen s) stage a u e t = if s == stage then t else e

abbrev no_reason : Option DeadlineReason → Bool
no_reason none = true
no_reason (some _) = false

abbrev pub is_end_of_day : DeadlineMode → Bool
is_end_of_day end_of_day = true
is_end_of_day _ = false

abbrev is_unlimited_mode : DeadlineMode → Bool
is_unlimited_mode unlimited = true
is_unlimited_mode _ = false

-- `limit.mode === 'unlimited' && !limit.reason`
abbrev pub is_unlimited : StageDeadline → Bool
is_unlimited limit = is_unlimited_mode limit.mode && no_reason limit.reason

abbrev pub is_empty {ℓ} : {A : Type ℓ} → List A → Bool
is_empty [] = true
is_empty (_ ∷ _) = false

abbrev pub value : Option ℕ → ℕ
value none = 0
value (some n) = n

-- `exceeded`: the end of the day itself is late, the end of a duration is not.
unfoldable pub is_exceeded : DeadlineMode → (deadline at : ℕ) → Bool
is_exceeded mode deadline at = if is_end_of_day mode then leb deadline at else ltb deadline at

abbrev pub ids : List Note → List ℕ
ids [] = []
ids (n ∷ ns) = note_id n ∷ ids ns

abbrev pub communication_ids : List Communication → List ℕ
communication_ids [] = []
communication_ids (c ∷ cs) = c.id ∷ communication_ids cs
