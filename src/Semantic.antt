-- ===== src/Semantic.antt =====
-- The verdict over the facts that the local analysis found (`assessCrmControlSemantic` of
-- apps/api/src/crm-control/crm-control-semantic.policy.ts). `missing_note_proof` is whether the issues
-- and `crmControlMissingManagerNoteProof` show that no note of a manager exists; that proof is not
-- modelled. Dates of days are numbers of days since 1970.
pub mod Verdicts
pub mod Grounding
mod Tests
use amocrm_analytics.Base.{
  ℕ, ◌/◌, Bool, true, false, ◌&&◌, ◌||◌, not, Option, none, some, leb, if◌then◌else◌,
}
use amocrm_analytics.Control.Types.{ResultStatus, pass, fail, unknown}
use amocrm_analytics.Control.Deadline.{day}

pub data Check : Type 0 where
  task_action proposal_note deadline_agreement price_delay : Check

pub data AnalysedRule : Type 0 where
  task_text_rule proposal_note_rule task_stage_deadline_rule stage_duration_rule : AnalysedRule
  price_requested_rule other_rule : AnalysedRule

pub data FactState : Type 0 where
  present absent uncertain : FactState

-- A day is the number of the day, a minute an instant.
pub data FactDate : Type 0 where
  on_day at_minute : ℕ → FactDate

pub data Fact : Type 0 where
  action stage_relevance transfer_reason presentation_date manager_note customer_agreement : Fact
  agreed_deadline price_delay_reason : Fact

pub record Finding : Type 0 where
  pub state : FactState
  pub date : Option FactDate

pub data ValidationStatus : Type 0 where
  validated open_validation invalid : ValidationStatus

pub record Validation : Type 0 where
  pub same_request : Bool
  pub status : ValidationStatus
  pub finding : Fact → Option Finding

pub record Request : Type 0 where
  pub check : Check
  pub max_due_at : Option ℕ
  pub task_due_at : Option ℕ
  pub observed_at : Option ℕ

abbrev is_absent_state : FactState → Bool
is_absent_state absent = true
is_absent_state _ = false

abbrev is_present_state : FactState → Bool
is_present_state present = true
is_present_state _ = false

abbrev pub is_absent : Option Finding → Bool
is_absent none = false
is_absent (some f) = is_absent_state f.state

abbrev pub is_present : Option Finding → Bool
is_present none = false
is_present (some f) = is_present_state f.state

abbrev pub date_of : Option Finding → Option FactDate
date_of none = none
date_of (some f) = f.date

abbrev pub is_validated : ValidationStatus → Bool
is_validated validated = true
is_validated _ = false

abbrev pub is_invalid : ValidationStatus → Bool
is_invalid invalid = true
is_invalid _ = false

abbrev pub is_deadline_rule : AnalysedRule → Bool
is_deadline_rule task_stage_deadline_rule = true
is_deadline_rule stage_duration_rule = true
is_deadline_rule _ = false

abbrev pub is_known : Option ℕ → Bool
is_known none = false
is_known (some n) = true

abbrev pub is_agreement : Check → Bool
is_agreement deadline_agreement = true
is_agreement _ = false

module _ (civil : ℕ → ℕ) where
  -- An invalid target is covered by no date.
  unfoldable pub date_covers : FactDate → Option ℕ → Bool
  date_covers d none = false
  date_covers (at_minute t) (some target) = leb target t
  date_covers (on_day n) (some target) = leb (civil target / day) n

  abbrev pub covered : Option FactDate → Option ℕ → Bool
  covered none target = false
  covered (some d) target = date_covers d target

  abbrev pub has_fact_date : Option FactDate → Bool
  has_fact_date none = false
  has_fact_date (some d) = true

  unfoldable pub assess_task : (Fact → Option Finding) → ResultStatus
  assess_task finding =
      if is_absent (finding action)
      then fail
      else if is_absent (finding stage_relevance)
      then fail
      else if is_present (finding action) && is_present (finding stage_relevance)
      then pass
      else unknown

  unfoldable pub assess_proposal : (Fact → Option Finding) → Request → ResultStatus
  assess_proposal finding request =
      if is_absent (finding transfer_reason)
      then fail
      else if is_absent (finding presentation_date)
      then fail
      else if is_present (finding transfer_reason)
          && (is_present (finding presentation_date)
              && has_fact_date (date_of (finding presentation_date)))
      then (if covered (date_of (finding presentation_date)) request.observed_at
          then pass
          else fail)
      else unknown

  -- What the agreed date has to cover.
  abbrev pub target_of : AnalysedRule → Request → Option ℕ
  target_of task_stage_deadline_rule request = request.task_due_at
  target_of _ request = request.observed_at

  unfoldable pub assess_deadline : (Fact → Option Finding) → Request → AnalysedRule → ResultStatus
  assess_deadline finding request rule =
      if not (is_known request.max_due_at)
      then unknown
      else if is_absent (finding manager_note)
      then fail
      else if is_absent (finding customer_agreement) || is_absent (finding agreed_deadline)
      then fail
      else if has_fact_date (date_of (finding agreed_deadline))
          && (is_present (finding manager_note)
              && (is_present (finding customer_agreement) && is_present (finding agreed_deadline)))
      then (if not (is_known (target_of rule request))
          then unknown
          else if covered (date_of (finding agreed_deadline)) (target_of rule request)
          then pass
          else fail)
      else unknown

  unfoldable pub assess_price : (Fact → Option Finding) → Request → ResultStatus
  assess_price finding request =
      if not (is_known request.max_due_at)
      then unknown
      else if is_present (finding price_delay_reason)
      then pass
      else if is_absent (finding price_delay_reason)
      then fail
      else unknown

  -- The facts count only for the rule that the check belongs to.
  unfoldable pub assess_facts :
      (Fact → Option Finding) → Request → Check → AnalysedRule → ResultStatus
  assess_facts finding request task_action task_text_rule = assess_task finding
  assess_facts finding request proposal_note proposal_note_rule = assess_proposal finding request
  assess_facts finding request deadline_agreement task_stage_deadline_rule =
      assess_deadline finding request task_stage_deadline_rule
  assess_facts finding request deadline_agreement stage_duration_rule =
      assess_deadline finding request stage_duration_rule
  assess_facts finding request price_delay price_requested_rule = assess_price finding request
  assess_facts finding request _ _ = unknown

  unfoldable pub assess_crm_control_semantic :
      (missing_note_proof : Bool) → Request → Validation → AnalysedRule → ResultStatus
  assess_crm_control_semantic missing_note_proof request validation rule =
      if not validation.same_request
      then unknown
      else if not (is_invalid validation.status)
          && (is_agreement request.check
              && (is_deadline_rule rule
                  && (is_absent (validation.finding manager_note) && missing_note_proof)))
      then fail
      else if not (is_validated validation.status)
      then unknown
      else assess_facts validation.finding request request.check rule
