-- ===== src/Control/Screenshots.antt =====
-- The queue of the screenshots of deals (`processEvidenceQueue`, `captureOwnerMatches` and `retryEvidence`
-- of apps/api/src/crm-control/crm-control.service.ts): what each statement does to a row. The row that a
-- guarded update finds is the one that was read, or the update does nothing. What the browser answers is
-- the `outcome` of an attempt.
pub mod Attempts
mod Tests
use amocrm_analytics.Base.{
  ℕ, suc, ◌+◌, ◌-◌, ◌*◌, ◌^◌, Bool, true, false, ◌&&◌, ◌||◌, not, Option, none, some, List, [], ◌∷◌,
  ltb, leb, ◌==◌, if◌then◌else◌,
}

pub data EvidenceStatus : Type 0 where
  pending running ready failed disabled : EvidenceStatus

pub record Evidence : Type 0 where
  pub status : EvidenceStatus
  pub attempts : ℕ
  pub started_at : Option ℕ
  pub next_attempt_at : Option ℕ
  pub storage_key : Option ℕ

abbrev pub silence_ms : ℕ
silence_ms = 600_000

abbrev pub max_attempts : ℕ
max_attempts = 3

abbrev pub is_running : EvidenceStatus → Bool
is_running running = true
is_running _ = false

abbrev pub is_pending : EvidenceStatus → Bool
is_pending pending = true
is_pending _ = false

abbrev pub is_failed : EvidenceStatus → Bool
is_failed failed = true
is_failed _ = false

abbrev pub is_ready : EvidenceStatus → Bool
is_ready ready = true
is_ready _ = false

abbrev started_before : Option ℕ → ℕ → Bool
started_before none now = false
started_before (some t) now = ltb (t + silence_ms) now

-- An attempt that has been silent for ten minutes has failed.
unfoldable pub expire_evidence : (now : ℕ) → Evidence → Evidence
expire_evidence now e =
    if is_running e.status && started_before e.started_at now
    then record e { status = failed; next_attempt_at = some now }
    else e

abbrev is_due : Option ℕ → ℕ → Bool
is_due none now = false
is_due (some t) now = leb t now

abbrev no_date : Option ℕ → Bool
no_date none = true
no_date (some t) = false

unfoldable pub is_waiting : (now : ℕ) → Evidence → Bool
is_waiting now e =
    (is_pending e.status && (no_date e.next_attempt_at || is_due e.next_attempt_at now))
    || (is_failed e.status && (ltb e.attempts max_attempts && is_due e.next_attempt_at now))

unfoldable pub claim_evidence : (now : ℕ) → Evidence → Option Evidence
claim_evidence now e =
    if is_waiting now e
    then some (record e {
      status = running;
      started_at = some now;
      next_attempt_at = none;
      attempts = suc e.attempts;
    })
    else none

unfoldable pub retry_at : (attempt now : ℕ) → Option ℕ
retry_at attempt now =
    if ltb attempt max_attempts then some (now + 30_000 * 2 ^ (attempt - 1)) else none

-- What a capture gives: the card has another owner now, a screenshot, a failure that may be tried again or
-- not, a collector that is switched off, or an exception.
pub data Outcome : Type 0 where
  other_owner : Outcome
  captured : (storage_key : ℕ) → Outcome
  not_captured : (retryable : Bool) → Outcome
  switched_off broken : Outcome

abbrev same_option : Option ℕ → Option ℕ → Bool
same_option (some a) (some b) = a == b
same_option _ _ = false

unfoldable pub evidence_is_leased : (lease row : Evidence) → Bool
evidence_is_leased lease row =
    is_running row.status
    && (same_option row.started_at lease.started_at && row.attempts == lease.attempts)

abbrev outcome_status : Outcome → EvidenceStatus
outcome_status (captured key) = ready
outcome_status switched_off = disabled
outcome_status _ = failed

abbrev outcome_retry : Outcome → (attempt now : ℕ) → Option ℕ
outcome_retry broken attempt now = retry_at attempt now
outcome_retry (not_captured retryable) attempt now =
    if retryable then retry_at attempt now else none
outcome_retry _ attempt now = none

-- A key that is `undefined` leaves the field as it is.
abbrev outcome_key : Outcome → Option ℕ → Option ℕ
outcome_key (captured key) old = some key
outcome_key _ old = old

unfoldable pub finish_evidence : (now : ℕ) → Outcome → (lease row : Evidence) → Evidence
finish_evidence now outcome lease row =
    if evidence_is_leased lease row
    then record row {
      status = outcome_status outcome;
      next_attempt_at = outcome_retry outcome lease.attempts now;
      storage_key = outcome_key outcome row.storage_key;
    }
    else row

abbrev may_retry : EvidenceStatus → Bool
may_retry failed = true
may_retry disabled = true
may_retry _ = false

-- A retry that a person asks for.
unfoldable pub retry_evidence : (screenshots : Bool) → Evidence → Option Evidence
retry_evidence screenshots e =
    if may_retry e.status && screenshots
    then some
        (record e { status = pending; attempts = 0; started_at = none; next_attempt_at = none })
    else none

-- Who owns the card in amoCRM now, each part `none` where the answer is not a number or is missing.
pub record SourceOwner : Type 0 where
  pub same_domain : Bool
  pub lead_matches : Bool
  pub responsible : ℕ
  pub user_is_read : Bool
  pub group : Option ℕ

abbrev same_group : Option ℕ → Option ℕ → Bool
same_group none none = true
same_group (some a) (some b) = a == b
same_group _ _ = false

pub data OwnerMatch : Type 0 where
  matches differs unverified : OwnerMatch

-- `manager` and `group` are the external ids of those of the observation, each `none` if the observation
-- has none, and `some none` if it has one that is not found.
unfoldable pub capture_owner_matches :
    (manager group : Option (Option ℕ)) → SourceOwner → OwnerMatch
capture_owner_matches none group source = differs
capture_owner_matches (some none) group source = differs
capture_owner_matches (some (some manager)) (some none) source = differs
capture_owner_matches (some (some manager)) group source =
    if not source.same_domain
    then differs
    else if not source.lead_matches || not (source.responsible == manager)
    then differs
    else if not source.user_is_read
    then unverified
    else if same_group source.group (elim group [ none ↦ none | some g ↦ g ])
    then matches
    else differs
