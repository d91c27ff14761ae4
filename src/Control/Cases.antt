-- ===== src/Control/Cases.antt =====
-- The life of a violation: what a new result does to the open case of its deal, rule and subject
-- (`nextControlCaseState` of apps/api/src/crm-control/crm-control.logic.ts and the loop over the
-- results in `CrmControlService`), and what a decision of a reader does (`decide`, same service).
-- A case has its key exactly while it is `active`; one that `reviewResult` creates never has one. The texts
-- of a decision are their lengths.
pub mod Life
pub mod Rulings
mod Tests
use amocrm_analytics.Base.{
  ℕ, zero, suc, ◌+◌, ◌≤◌, ◌≡◌, Bool, true, false, ◌&&◌, ◌||◌, not, Option, none, some, List, [],
  ◌∷◌, ltb, leb, ◌==◌, any, all, if◌then◌else◌,
}
use amocrm_analytics.Control.Types.{
  ResultStatus, pass, fail, review, unknown, na, is_status, CaseStatus, open_case, review_case,
  disputed, exempted, resolved, superseded,
}

pub record Case : Type 0 where
  pub status : CaseStatus
  pub active : Bool
  pub exemption_until : Option ℕ
  pub confirmed_at : Option ℕ
  pub assessment_hash : ℕ
  pub resolved_at : Option ℕ
  pub last_detected_at : ℕ
  pub latest_observation : ℕ

-- A result as the cases see it; `resolves_prior` is `details.resolvesPrior === true`.
pub record CaseResult : Type 0 where
  pub status : ResultStatus
  pub resolves_prior : Bool

abbrev pub is_exempted : CaseStatus → Bool
is_exempted exempted = true
is_exempted _ = false

abbrev pub is_disputed : CaseStatus → Bool
is_disputed disputed = true
is_disputed _ = false

abbrev pub is_some {ℓ} : {A : Type ℓ} → Option A → Bool
is_some none = false
is_some (some _) = true

-- `previous.exemptionUntil && previous.exemptionUntil > observedAt`
abbrev pub lasts_after : Option ℕ → ℕ → Bool
lasts_after none observed_at = false
lasts_after (some until) observed_at = ltb observed_at until

abbrev pub is_violation : ResultStatus → Bool
is_violation s = is_status s fail || is_status s review

abbrev open_state : ResultStatus → CaseStatus
open_state s = if is_status s fail then open_case else review_case

-- The state of the case, if the result is a violation.
abbrev violation_state : Option Case → ResultStatus → ℕ → CaseStatus
violation_state none s observed_at = open_state s
violation_state (some p) s observed_at =
    if is_exempted p.status && lasts_after p.exemption_until observed_at
    then exempted
    else if is_disputed p.status
    then disputed
    else if is_some p.confirmed_at
    then open_case
    else open_state s

unfoldable pub next_control_case_state : Option Case → CaseResult → ℕ → Option CaseStatus
next_control_case_state previous result observed_at =
    if is_status result.status pass || (is_status result.status na && result.resolves_prior)
    then (if is_some previous then some resolved else none)
    else if not (is_violation result.status)
    then none
    else some (violation_state previous result.status observed_at)

-- The case that the result finds is set aside, if a person has ruled on another assessment.
unfoldable pub is_superseded : Case → CaseResult → ℕ → Bool
is_superseded p result hash =
    (is_some p.confirmed_at || is_exempted p.status)
    && (is_violation result.status && not (p.assessment_hash == hash))

abbrev or_else : Option ℕ → ℕ → Option ℕ
or_else none t = some t
or_else (some s) t = some s

-- The `upsert`: a new case, or the found one at its new state.
unfoldable pub write_case : Option Case → CaseStatus → (hash observed_at observation : ℕ) → Case
write_case none state hash observed_at observation = record {
  status = state;
  active = true;
  exemption_until = none;
  confirmed_at = none;
  assessment_hash = hash;
  resolved_at = none;
  last_detected_at = observed_at;
  latest_observation = observation;
}
write_case (some p) resolved hash observed_at observation = record p {
  status = resolved;
  active = false;
  assessment_hash = hash;
  resolved_at = or_else p.resolved_at observed_at;
  latest_observation = observation;
}
write_case (some p) state hash observed_at observation = record p {
  status = state;
  assessment_hash = hash;
  resolved_at = none;
  last_detected_at = observed_at;
  latest_observation = observation;
}

-- The case that `reviewResult` creates for a result without one.
unfoldable pub create_review_case : (hash observed_at observation : ℕ) → Case
create_review_case hash observed_at observation = record {
  status = review_case;
  active = false;
  exemption_until = none;
  confirmed_at = none;
  assessment_hash = hash;
  resolved_at = none;
  last_detected_at = observed_at;
  latest_observation = observation;
}

-- What one result leaves: the case that it set aside, and the case that it wrote or left alone.
pub record Recorded : Type 0 where
  pub set_aside : Option Case
  pub current : Option Case

abbrev write_state :
    Option Case → Option CaseStatus → (hash observed_at observation : ℕ) → Option Case
write_state previous none hash observed_at observation = previous
write_state previous (some state) hash observed_at observation =
    some (write_case previous state hash observed_at observation)

abbrev record_on : Option Case → CaseResult → (hash observed_at observation : ℕ) → Option Case
record_on previous result hash observed_at observation =
    write_state previous (next_control_case_state previous result observed_at) hash observed_at
      observation

unfoldable pub record_result :
    Option Case → CaseResult → (hash observed_at observation : ℕ) → Recorded
record_result none result hash observed_at observation = record {
  set_aside = none;
  current = record_on none result hash observed_at observation;
}
record_result (some p) result hash observed_at observation =
    if is_superseded p result hash
    then record {
      set_aside = some (record p { status = superseded; active = false });
      current = record_on none result hash observed_at observation;
    }
    else record {
      set_aside = none;
      current = record_on (some p) result hash observed_at observation;
    }

abbrev pub is_resolved : CaseStatus → Bool
is_resolved resolved = true
is_resolved _ = false

-- The update of the cases of tasks that are no longer open; it skips those already resolved.
unfoldable pub close_task_case : Case → (observed_at observation : ℕ) → Case
close_task_case c observed_at observation = if is_resolved c.status then c else record c {
  status = resolved;
  active = false;
  resolved_at = some observed_at;
  latest_observation = observation;
}

pub data Action : Type 0 where
  confirm exempt dispute : Action

pub data Role : Type 0 where
  owner rop manager : Role

pub data Refusal : Type 0 where
  bad_reason forbidden not_assessed finished bad_date stale_decision stale_case : Refusal

pub data Decided : Type 0 where
  decided : Case → Decided
  refused : Refusal → Decided

pub record DecisionInput : Type 0 where
  pub action : Action
  pub reason_length : ℕ
  pub trimmed_length : ℕ
  pub valid_until : Option ℕ

abbrev is_dispute : Action → Bool
is_dispute dispute = true
is_dispute _ = false

abbrev is_exempt : Action → Bool
is_exempt exempt = true
is_exempt _ = false

abbrev is_manager : Role → Bool
is_manager manager = true
is_manager _ = false

abbrev pub is_closed : CaseStatus → Bool
is_closed resolved = true
is_closed superseded = true
is_closed _ = false

-- Equality of the statuses of a case.
abbrev pub same_status : CaseStatus → CaseStatus → Bool
same_status open_case open_case = true
same_status review_case review_case = true
same_status disputed disputed = true
same_status exempted exempted = true
same_status resolved resolved = true
same_status superseded superseded = true
same_status _ _ = false

-- Equality of the ids of two decisions, each of which may be absent.
abbrev same_id : Option ℕ → Option ℕ → Bool
same_id none none = true
same_id (some a) (some b) = a == b
same_id _ _ = false

-- Every result of the case is a violation: its saved status and its effective one.
unfoldable pub is_assessed : List (ResultStatus × ResultStatus) → Bool
is_assessed [] = false
is_assessed (r ∷ rs) = all (λ p. not (is_status p.0 unknown) && is_status p.1 fail) (r ∷ rs)

abbrev pub after_action : Case → Action → Option ℕ → ℕ → Case
after_action c confirm valid_until now = record c {
  status = open_case;
  exemption_until = none;
  confirmed_at = some now;
}
after_action c exempt valid_until now = record c {
  status = exempted;
  exemption_until = valid_until;
  confirmed_at = none;
}
after_action c dispute valid_until now = record c { status = disputed; exemption_until = none }

-- `read` is the case as it was read, with the decision that the reader saw; `row` is the case under
-- the lock, with the last decision there.
unfoldable pub decide :
    Role
    → DecisionInput
    → List (ResultStatus × ResultStatus)
    → (read row : Case) → (expected last : Option ℕ) → (now : ℕ) → Decided
decide role body results read row expected last now =
    if ltb body.trimmed_length 5 || ltb 4000 body.reason_length
    then refused bad_reason
    else if is_manager role && not (is_dispute body.action)
    then refused forbidden
    else if not (is_dispute body.action) && not (is_assessed results)
    then refused not_assessed
    else if is_closed read.status
    then refused finished
    else if is_exempt body.action && not (lasts_after body.valid_until now)
    then refused bad_date
    else if not (same_id last expected)
    then refused stale_decision
    else if same_status row.status read.status && row.latest_observation == read.latest_observation
    then decided (after_action row body.action body.valid_until now)
    else refused stale_case
