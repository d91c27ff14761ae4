-- ===== src/Semantic/Grounding.antt =====
-- What makes an answer of the analysis acceptable (`validateCrmControlSemanticResponse`, `supportsFact` and
-- `hasUncertainAttribution` of apps/api/src/crm-control/crm-control-semantic.validation.ts). The tests of the
-- shape of the JSON and of the words of a text are Booleans of the input, a citation carries the date that
-- `citedDate` reads from its quote, and the issues of the result are only whether there are any. The hash
-- of a text and whether a text contains a quote are parameters.
pub mod Sources
pub mod Validate
pub mod Answer
pub mod Quoted
pub mod Checked
mod Tests
use amocrm_analytics.Base.{
  ℕ, ◌+◌, Bool, true, false, ◌&&◌, ◌||◌, not, Option, none, some, List, [], ◌∷◌, ltb, leb, ◌==◌,
  any, all, length, if◌then◌else◌,
}
use amocrm_analytics.Semantic.{
  Check, task_action, proposal_note, deadline_agreement, price_delay, FactState, present, absent,
  uncertain, FactDate, on_day, at_minute, Fact, action, stage_relevance, transfer_reason,
  presentation_date, manager_note, customer_agreement, agreed_deadline, price_delay_reason,
  is_present_state, is_absent_state, ValidationStatus, validated, open_validation, invalid,
}

pub data SourceKind : Type 0 where
  task_source note_source customer_message supplier_message message call_transcript : SourceKind

pub data Actor : Type 0 where
  manager customer supplier bot unknown_actor : Actor

pub data Direction : Type 0 where
  incoming outgoing internal unknown_direction : Direction

-- `created_at` is `none` if it is not an instant.
pub record Source : Type 0 where
  pub id : ℕ
  pub is_well_formed : Bool
  pub source_hash : ℕ
  pub deal : ℕ
  pub owner : ℕ
  pub subject : Option ℕ
  pub assigned : Option ℕ
  pub kind : SourceKind
  pub actor : Actor
  pub actor_id : Option ℕ
  pub direction : Direction
  pub text : ℕ
  pub size : ℕ
  pub is_risky : Bool
  pub takes_back : Bool
  pub created_at : Option ℕ

pub record AnalysisRequest : Type 0 where
  pub check : Check
  pub is_well_formed : Bool
  pub dates_are_valid : Bool
  pub zone_is_known : Bool
  pub deal : ℕ
  pub owner : ℕ
  pub subject : Option ℕ
  pub observed_at : ℕ
  pub stage_entered_at : Option ℕ
  pub stage_is_named : Bool
  pub stage_is_risky : Bool
  pub covers_tasks : Bool
  pub covers_notes : Bool
  pub covers_communications : Bool
  pub sources : List Source

pub record Citation : Type 0 where
  pub is_well_formed : Bool
  pub source_id : ℕ
  pub source_hash : ℕ
  pub quote : ℕ
  pub date : Option FactDate

pub record FindingInput : Type 0 where
  pub is_well_formed : Bool
  pub date_is_well_formed : Bool
  pub fact : Fact
  pub state : FactState
  pub evidence : List Citation
  pub date : Option FactDate

pub record AnalysisResponse : Type 0 where
  pub is_well_formed : Bool
  pub same_request : Bool
  pub inspected : List ℕ
  pub findings : List FindingInput

abbrev pub fact_number : Fact → ℕ
fact_number action = 0
fact_number stage_relevance = 1
fact_number transfer_reason = 2
fact_number presentation_date = 3
fact_number manager_note = 4
fact_number customer_agreement = 5
fact_number agreed_deadline = 6
fact_number price_delay_reason = 7

unfoldable pub required_facts : Check → List Fact
required_facts task_action = action ∷ stage_relevance ∷ []
required_facts proposal_note = transfer_reason ∷ presentation_date ∷ []
required_facts deadline_agreement = manager_note ∷ customer_agreement ∷ agreed_deadline ∷ []
required_facts price_delay = price_delay_reason ∷ []

abbrev pub same_id : Option ℕ → Option ℕ → Bool
same_id none none = true
same_id (some a) (some b) = a == b
same_id _ _ = false

abbrev pub is_given : Option ℕ → Bool
is_given none = false
is_given (some n) = true

abbrev pub is_kind : SourceKind → SourceKind → Bool
is_kind task_source task_source = true
is_kind note_source note_source = true
is_kind customer_message customer_message = true
is_kind supplier_message supplier_message = true
is_kind message message = true
is_kind call_transcript call_transcript = true
is_kind _ _ = false

abbrev is_manager : Actor → Bool
is_manager manager = true
is_manager _ = false

abbrev is_nobody : Actor → Bool
is_nobody bot = true
is_nobody unknown_actor = true
is_nobody _ = false

abbrev is_incoming : Direction → Bool
is_incoming incoming = true
is_incoming _ = false

-- A message from outside, of the customer or of the supplier.
abbrev from_customer : Source → Bool
from_customer s =
    elim s.actor [ customer ↦ true | _ ↦ false ]
    && ((is_kind s.kind message || is_kind s.kind customer_message) && is_incoming s.direction)

abbrev from_supplier : Source → Bool
from_supplier s =
    elim s.actor [ supplier ↦ true | _ ↦ false ]
    && ((is_kind s.kind message || is_kind s.kind supplier_message) && is_incoming s.direction)

abbrev by_manager : Source → Bool
by_manager s = is_kind s.kind note_source && is_manager s.actor

abbrev supports : Source → AnalysisRequest → Fact → Bool
supports s request action =
    is_kind s.kind task_source
    && (same_id s.subject request.subject && same_id s.assigned (some request.owner))
supports s request stage_relevance =
    is_kind s.kind task_source
    && (same_id s.subject request.subject && same_id s.assigned (some request.owner))
supports s request transfer_reason = by_manager s
supports s request presentation_date = by_manager s
supports s request manager_note = by_manager s
supports s request customer_agreement = from_customer s
supports s request agreed_deadline = from_customer s
supports s request price_delay_reason = from_customer s || from_supplier s

abbrev pub is_task_fact : Fact → Bool
is_task_fact action = true
is_task_fact stage_relevance = true
is_task_fact _ = false

unfoldable pub supports_fact : Source → Fact → AnalysisRequest → Bool
supports_fact s fact request =
    if is_kind s.kind call_transcript
    then false
    else if is_task_fact fact
    then supports s request fact
    else if not (is_given s.actor_id) || is_nobody s.actor
    then false
    else supports s request fact
