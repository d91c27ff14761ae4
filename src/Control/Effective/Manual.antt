-- ===== src/Control/Effective/Manual.antt =====
-- The review of one result by a person (`manualReviewState`, `reviewResult` and
-- `ensureEvidenceForObservation` of apps/api/src/crm-control/crm-control.service.ts).
use amocrm_analytics.Base.{
  ℕ, suc, max, Bool, true, false, ◌&&◌, ◌||◌, not, Option, none, some, List, [], ◌∷◌, leb, ◌==◌,
  filter, if◌then◌else◌,
}
use amocrm_analytics.Control.Types.{ResultStatus, pass, fail, na, is_status, review_case}
use amocrm_analytics.Control.Cases.{Role, manager}
use amocrm_analytics.Control.Rules.{RuleCode}
use amocrm_analytics.Control.Review.{control_manual_review_allowed}
use amocrm_analytics.Control.Effective.{
  Decision, verified, is_review, newest_decision, AssessedCase, AssessedResult, decisions_of,
}

-- A row of the results, with the fields that say whether a person may review it.
pub record ResultRow : Type 0 where
  pub result : AssessedResult
  pub rule_code : RuleCode
  pub awaits : Bool
  pub says_day_end : Bool

abbrev pub id_of : Option Decision → Option ℕ
id_of none = none
id_of (some d) = some d.id

-- The decisions on the observation of the result.
abbrev pub own_decisions : AssessedResult → List Decision
own_decisions r = filter (λ d. d.observation_id == r.observation_id) (decisions_of r.case_of)

pub record ManualReviewState : Type 0 where
  pub allowed : Bool
  pub expected_decision_id : Option ℕ
  pub current : Option Decision

abbrev only_review : Option Decision → Option Decision
only_review none = none
only_review (some d) = if is_review d.action then some d else none

abbrev pub may_review : ResultRow → Bool
may_review row =
    control_manual_review_allowed row.result.status row.rule_code row.awaits row.says_day_end

unfoldable pub manual_review_state : ResultRow → ManualReviewState
manual_review_state row = record {
  allowed = may_review row;
  expected_decision_id = id_of (newest_decision (own_decisions row.result));
  current = only_review (newest_decision (own_decisions row.result));
}

-- The address of the proof: whether it is an address, of http(s), and with a name or a password.
pub record ManualReviewInput : Type 0 where
  pub outcome : ResultStatus
  pub trimmed_length : ℕ
  pub reason_length : ℕ
  pub evidence_length : ℕ
  pub is_url : Bool
  pub is_http : Bool
  pub has_credentials : Bool
  pub expected_decision_id : Option ℕ

pub data EvidenceStatus : Type 0 where
  pending disabled : EvidenceStatus

-- The row with the case and its decisions, and the screenshot of the observation.
pub record ReviewState : Type 0 where
  pub row : ResultRow
  pub evidence : Option EvidenceStatus

pub data ReviewRefusal : Type 0 where
  not_visible for_managers no_result bad_input bad_address not_reviewable changed : ReviewRefusal

pub data Reviewed : Type 0 where
  reviewed : ReviewState → Reviewed
  refused : ReviewRefusal → Reviewed

abbrev is_manager : Role → Bool
is_manager manager = true
is_manager _ = false

abbrev well_formed : ManualReviewInput → Bool
well_formed body =
    (is_status body.outcome pass || (is_status body.outcome fail || is_status body.outcome na))
    && (leb 20 body.trimmed_length
        && (leb body.reason_length 4_000 && leb body.evidence_length 2_048))

abbrev well_addressed : ManualReviewInput → Bool
well_addressed body = body.is_url && (body.is_http && not body.has_credentials)

-- The case that is linked, or a new one.
abbrev pub case_or_new : Option AssessedCase → AssessedCase
case_or_new none = record { status = review_case; decisions = [] }
case_or_new (some c) = c

abbrev pub after_last : (now : ℕ) → Option Decision → ℕ
after_last now none = now
after_last now (some d) = max now (suc d.created_at)

abbrev pub same_id : Option ℕ → Option ℕ → Bool
same_id none none = true
same_id (some a) (some b) = a == b
same_id _ _ = false

abbrev pub with_decision : AssessedResult → Decision → AssessedResult
with_decision r d = record r {
  case_of =
      some (record {
        status = (case_or_new r.case_of).status;
        decisions = d ∷ decisions_of r.case_of;
      });
}

abbrev pub review_decision : (id now : ℕ) → ManualReviewInput → AssessedResult → Decision
review_decision id now body r = record {
  id = id;
  action = verified body.outcome;
  observation_id = r.observation_id;
  created_at = after_last now (newest_decision (own_decisions r));
  valid_until = none;
}

-- `ensureEvidenceForObservation`: a row that is there stays as it is.
unfoldable pub ensure_evidence :
    (screenshots : Bool) → Option EvidenceStatus → Option EvidenceStatus
ensure_evidence screenshots none = if screenshots then some pending else some disabled
ensure_evidence screenshots (some s) = some s

-- `id` is the id of the new decision.
unfoldable pub review_result :
    (visible has_result screenshots : Bool)
    → Role
    → ManualReviewInput
    → (id now : ℕ) → ReviewState
    → Reviewed
review_result visible has_result screenshots role body id now state =
    if not visible
    then refused not_visible
    else if is_manager role
    then refused for_managers
    else if not has_result
    then refused no_result
    else if not (well_formed body)
    then refused bad_input
    else if not (well_addressed body)
    then refused bad_address
    else if not (may_review state.row)
    then refused not_reviewable
    else if not (
        same_id (id_of (newest_decision (own_decisions state.row.result)))
          body.expected_decision_id)
    then refused changed
    else reviewed (record {
      row = record state.row {
        result = with_decision state.row.result (review_decision id now body state.row.result);
      };
      evidence =
          if is_status body.outcome fail
          then ensure_evidence screenshots state.evidence
          else state.evidence;
    })
