-- ===== src/Semantic/Grounding/Answer.antt =====
-- The whole validation of an answer.
use amocrm_analytics.Base.{
  ℕ, Bool, true, false, ◌&&◌, ◌||◌, not, Option, none, some, List, [], ◌∷◌, leb, ◌==◌, any, all,
  length, if◌then◌else◌,
}
use amocrm_analytics.Semantic.{
  Check, task_action, proposal_note, deadline_agreement, Fact, customer_agreement, agreed_deadline,
  price_delay_reason, is_present_state, ValidationStatus, validated, open_validation, invalid,
}
use amocrm_analytics.Semantic.Grounding.{
  Source, AnalysisRequest, AnalysisResponse, fact_number, required_facts, is_given,
}
use amocrm_analytics.Semantic.Grounding.Sources.{check_sources}
use amocrm_analytics.Semantic.Grounding.Validate.{
  Graded, invalid_answer, graded, GroundedFinding, check_findings,
}

pub record GroundedValidation : Type 0 where
  pub status : ValidationStatus
  pub findings : List GroundedFinding

abbrev invalid_validation : GroundedValidation
invalid_validation = record { status = invalid; findings = [] }

abbrev pub is_task_check : Check → Bool
is_task_check task_action = true
is_task_check _ = false

-- The stage is not named or not entered, or its name is an instruction.
abbrev pub stage_is_open : AnalysisRequest → Bool
stage_is_open request =
    (not (is_task_check request.check)
      && not (elim request.stage_entered_at [ none ↦ false | some t ↦ leb t request.observed_at ]))
    || (not request.stage_is_named || request.stage_is_risky)

abbrev has_present : Fact → List GroundedFinding → Bool
has_present fact findings =
    any (λ f. fact_number f.fact == fact_number fact && is_present_state f.state) findings

abbrev communication_facts : Check → List Fact
communication_facts deadline_agreement = customer_agreement ∷ agreed_deadline ∷ []
communication_facts _ = price_delay_reason ∷ []

-- A kind of sources was not read completely; what a message shows is shown all the same.
abbrev pub coverage_is_open : AnalysisRequest → List GroundedFinding → Check → Bool
coverage_is_open request findings task_action = not request.covers_tasks
coverage_is_open request findings proposal_note = not request.covers_notes
coverage_is_open request findings check =
    not request.covers_notes
    || (not request.covers_communications
        && not (all (λ fact. has_present fact findings) (communication_facts check)))

abbrev pub all_inspected : List Source → (inspected : List ℕ) → Bool
all_inspected sources inspected =
    length inspected == length sources && all (λ s. any (λ id. id == s.id) inspected) sources

abbrev pub graded_validation :
    AnalysisRequest → (is_open : Bool) → Graded (List GroundedFinding) → GroundedValidation
graded_validation request is_open invalid_answer = invalid_validation
graded_validation request is_open (graded findings open_findings) = record {
  status =
      if is_open || (open_findings || coverage_is_open request findings request.check)
      then open_validation
      else validated;
  findings = findings;
}

module _ (text_hash : ℕ → ℕ) (contains : (text quote : ℕ) → Bool) where
  abbrev pub with_sources : AnalysisRequest → AnalysisResponse → Option Bool → GroundedValidation
  with_sources request response none = invalid_validation
  with_sources request response (some is_open) =
      if not response.is_well_formed
        || (not response.same_request
            || not (length response.findings == length (required_facts request.check)))
      then invalid_validation
      else if not (all_inspected request.sources response.inspected)
      then invalid_validation
      else graded_validation request (is_open || stage_is_open request)
          (check_findings contains request [] response.findings)

  unfoldable pub validate_crm_control_semantic_response :
      AnalysisRequest → AnalysisResponse → GroundedValidation
  validate_crm_control_semantic_response request response =
      if not request.is_well_formed
        || (not request.dates_are_valid
            || ((is_task_check request.check && not (is_given request.subject))
                || not request.zone_is_known))
      then invalid_validation
      else with_sources request response (check_sources text_hash request [] 0 request.sources)
