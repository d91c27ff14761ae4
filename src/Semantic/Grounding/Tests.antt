-- ===== src/Semantic/Grounding/Tests.antt =====
-- Runs of the validation: a note of the manager that gives the reason, and answers that are not accepted.
-- The hash adds one, and a text contains a quote that is not greater.
use amocrm_analytics.Base.{
  ℕ, ◌+◌, ◌≡◌, refl, Bool, true, false, none, some, List, [], ◌∷◌, All, leb,
}
use amocrm_analytics.Semantic.{
  price_delay, present, absent, price_delay_reason, validated, open_validation, invalid,
}
use amocrm_analytics.Semantic.Grounding.{
  Source, customer_message, customer, incoming, AnalysisRequest, FindingInput, AnalysisResponse,
  required_facts, supports_fact,
}
use amocrm_analytics.Semantic.Grounding.Sources.{source_is_valid, check_sources}
use amocrm_analytics.Semantic.Grounding.Validate.{
  has_uncertain_attribution, check_evidence, finding_is_open, check_finding, check_findings,
}
use amocrm_analytics.Semantic.Grounding.Answer.{validate_crm_control_semantic_response}
use amocrm_analytics.Semantic.Grounding.Quoted.{IsGrounded}
use amocrm_analytics.Semantic.Grounding.Checked.{
  IsTrusted, validate_crm_control_semantic_response-AreGrounded,
}

abbrev hash : ℕ → ℕ
hash text = text + 1

abbrev holds_quote : ℕ → ℕ → Bool
holds_quote text quote = leb quote text

abbrev letter : Source
letter = record {
  id = 3;
  is_well_formed = true;
  source_hash = 51;
  deal = 7;
  owner = 2;
  subject = none;
  assigned = none;
  kind = customer_message;
  actor = customer;
  actor_id = some 9;
  direction = incoming;
  text = 50;
  size = 20;
  is_risky = false;
  takes_back = false;
  created_at = some 600;
}

abbrev delay_request : AnalysisRequest
delay_request = record {
  check = price_delay;
  is_well_formed = true;
  dates_are_valid = true;
  zone_is_known = true;
  deal = 7;
  owner = 2;
  subject = none;
  observed_at = 1000;
  stage_entered_at = some 500;
  stage_is_named = true;
  stage_is_risky = false;
  covers_tasks = true;
  covers_notes = true;
  covers_communications = false;
  sources = letter ∷ [];
}

abbrev reason : (quote : ℕ) → FindingInput
reason quote = record {
  is_well_formed = true;
  date_is_well_formed = true;
  fact = price_delay_reason;
  state = present;
  evidence =
      record { is_well_formed = true; source_id = 3; source_hash = 51; quote = quote; date = none }
      ∷ [];
  date = none;
}

abbrev answer : List FindingInput → AnalysisResponse
answer findings = record {
  is_well_formed = true;
  same_request = true;
  inspected = 3 ∷ [];
  findings = findings;
}

abbrev missing_reason : FindingInput
missing_reason = record {
  is_well_formed = true;
  date_is_well_formed = true;
  fact = price_delay_reason;
  state = absent;
  evidence = [];
  date = none;
}

computed : Unit {0}
unfolding required_facts validate_crm_control_semantic_response check_sources source_is_valid
    check_findings check_finding check_evidence finding_is_open supports_fact
    has_uncertain_attribution
computed = tt

-- A quote of the letter is accepted, although not all communications were read.
quoted_is_validated :
    (validate_crm_control_semantic_response hash holds_quote delay_request
      (answer (reason 40 ∷ []))).status
    ≡ validated
unfolding computed
quoted_is_validated = refl

-- A quote that no source contains makes the answer invalid.
unquoted_is_invalid :
    (validate_crm_control_semantic_response hash holds_quote delay_request
      (answer (reason 60 ∷ []))).status
    ≡ invalid
unfolding computed
unquoted_is_invalid = refl

-- An absence is open while communications are not read.
absence_is_not_shown :
    (validate_crm_control_semantic_response hash holds_quote delay_request
      (answer (missing_reason ∷ []))).status
    ≡ open_validation
unfolding computed
absence_is_not_shown = refl

validate_crm_control_semantic_response-AreGrounded_example :
    All (IsTrusted hash holds_quote delay_request) (delay_request.sources)
    × All
        (IsGrounded holds_quote delay_request)
        (validate_crm_control_semantic_response hash holds_quote delay_request
          (answer (reason 40 ∷ []))).findings
validate_crm_control_semantic_response-AreGrounded_example =
    validate_crm_control_semantic_response-AreGrounded hash holds_quote delay_request
      (answer (reason 40 ∷ [])) quoted_is_validated
