-- ===== src/Control/Effective.antt =====
-- What a result counts as, after the decisions of readers and the local analysis (`newestDecision`,
-- `effectiveStatus`, `effectiveCounts` and `manualReviewState` of
-- apps/api/src/crm-control/crm-control.service.ts, and apps/api/src/crm-control/crm-control-analysis.projection.ts),
-- and in the child modules the review of a result by a person. Ids are numbers in the order of their
-- texts, texts are their lengths, and `none` is an identity that is not configured.
pub mod Manual
pub mod Reviewed
mod Tests
use amocrm_analytics.Base.{
  ℕ, suc, ◌+◌, max, Bool, true, false, ◌&&◌, ◌||◌, not, Option, none, some, List, [], ◌∷◌, ltb, leb,
  ◌==◌, any, filter, if◌then◌else◌,
}
use amocrm_analytics.Control.Types.{
  ResultStatus, pass, fail, review, na, is_status, CaseStatus, open_case, review_case, disputed,
  Counts,
}
use amocrm_analytics.Control.Counts.{observation_counts, number}
use amocrm_analytics.Control.Cases.{Role, is_violation}

pub data DecisionAction : Type 0 where
  verified : ResultStatus → DecisionAction
  confirmed exempted_until disputed_by : DecisionAction

pub record Decision : Type 0 where
  pub id : ℕ
  pub action : DecisionAction
  pub observation_id : ℕ
  pub created_at : ℕ
  pub valid_until : Option ℕ

-- `a` is before `b` in the order of `newestDecision`.
abbrev pub newer : Decision → Decision → Bool
newer a b = ltb b.created_at a.created_at || (a.created_at == b.created_at && ltb b.id a.id)

-- A stable sort, the newest decision first.
abbrev pub insert_decision : Decision → List Decision → List Decision
insert_decision d [] = d ∷ []
insert_decision d (e ∷ es) = if newer e d then e ∷ insert_decision d es else d ∷ e ∷ es

abbrev pub sort_decisions : List Decision → List Decision
sort_decisions [] = []
sort_decisions (d ∷ ds) = insert_decision d (sort_decisions ds)

abbrev pub head {ℓ} : {A : Type ℓ} → List A → Option A
head [] = none
head (x ∷ xs) = some x

unfoldable pub newest_decision : List Decision → Option Decision
newest_decision ds = head (sort_decisions ds)

pub data AnalysisStatus : Type 0 where
  queued running ready failed : AnalysisStatus

-- What made an analysis: the model and the versions of the code around it.
pub record AnalysisIdentity : Type 0 where
  pub model : ℕ
  pub model_sha256 : ℕ
  pub analyzer_version : ℕ
  pub prompt_version : ℕ
  pub policy_version : Option ℕ

pub record AnalysisSummary : Type 0 where
  pub status : AnalysisStatus
  pub assessment_status : Option ResultStatus
  pub identity : AnalysisIdentity

pub record Projection : Type 0 where
  pub status : AnalysisStatus
  pub outcome : Option ResultStatus

abbrev is_ready : AnalysisStatus → Bool
is_ready ready = true
is_ready _ = false

abbrev same_option : Option ℕ → Option ℕ → Bool
same_option none none = true
same_option (some a) (some b) = a == b
same_option _ _ = false

abbrev current_identity : Option AnalysisIdentity → AnalysisIdentity → Bool
current_identity none job = false
current_identity (some options) job =
    job.model == options.model
    && (job.model_sha256 == options.model_sha256
        && (job.analyzer_version == options.analyzer_version
            && (job.prompt_version == options.prompt_version
                && same_option job.policy_version options.policy_version)))

abbrev is_outcome : Option ResultStatus → Bool
is_outcome none = false
is_outcome (some s) = is_status s pass || is_status s fail

abbrev pub accepted : Option AnalysisIdentity → AnalysisSummary → Bool
accepted options job =
    is_ready job.status
    && (current_identity options job.identity && is_outcome job.assessment_status)

-- `options` is the identity in force.
unfoldable pub analysis_projection :
    (options : Option AnalysisIdentity) → List AnalysisSummary → Option Projection
analysis_projection options [] = none
analysis_projection options (job ∷ jobs) = some record {
  status = job.status;
  outcome = if accepted options job then job.assessment_status else none;
}

pub record AssessedCase : Type 0 where
  pub status : CaseStatus
  pub decisions : List Decision

pub record AssessedResult : Type 0 where
  pub status : ResultStatus
  pub observation_id : ℕ
  pub analyses : List AnalysisSummary
  pub case_of : Option AssessedCase

abbrev pub decisions_of : Option AssessedCase → List Decision
decisions_of none = []
decisions_of (some c) = c.decisions

abbrev rules_later : DecisionAction → Bool
rules_later confirmed = true
rules_later exempted_until = true
rules_later _ = false

abbrev pub is_review : DecisionAction → Bool
is_review (verified s) = true
is_review _ = false

-- The decision counts for the result.
abbrev pub applies : (status : ResultStatus) (observation_id observed_at : ℕ) → Decision → Bool
applies status observation_id observed_at d =
    if is_review d.action
    then d.observation_id == observation_id
    else is_violation status
      && (rules_later d.action
          && (d.observation_id == observation_id || leb d.created_at observed_at))

abbrev reaches : Option ℕ → ℕ → Bool
reaches none observed_at = false
reaches (some until) observed_at = leb observed_at until

abbrev by_analysis : Option Projection → ResultStatus → ResultStatus
by_analysis none status = status
by_analysis (some p) status = elim p.outcome [ none ↦ status | some s ↦ s ]

-- `automatic` is the status without decisions.
abbrev by_action : DecisionAction → (lasts : Bool) (automatic : ResultStatus) → ResultStatus
by_action (verified s) lasts automatic = s
by_action exempted_until lasts automatic = if lasts then na else automatic
by_action confirmed lasts automatic = fail
by_action disputed_by lasts automatic = automatic

abbrev pub by_decision :
    Option Decision → (observed_at : ℕ) (automatic : ResultStatus) → ResultStatus
by_decision none observed_at automatic = automatic
by_decision (some d) observed_at automatic =
    by_action d.action (reaches d.valid_until observed_at) automatic

unfoldable pub effective_status :
    (options : Option AnalysisIdentity) → AssessedResult → (observed_at : ℕ) → ResultStatus
effective_status options result observed_at =
    by_decision
      (newest_decision (
        filter (applies result.status result.observation_id observed_at)
          (decisions_of result.case_of)))
      observed_at (by_analysis (analysis_projection options result.analyses) result.status)

abbrev is_unsettled_status : CaseStatus → Bool
is_unsettled_status open_case = true
is_unsettled_status review_case = true
is_unsettled_status disputed = true
is_unsettled_status _ = false

abbrev is_unsettled : Option AssessedCase → Bool
is_unsettled none = false
is_unsettled (some c) = is_unsettled_status c.status

abbrev statuses :
    (options : Option AnalysisIdentity)
    → List AssessedResult
    → (observed_at : ℕ) → List ResultStatus
statuses options [] observed_at = []
statuses options (r ∷ rs) observed_at =
    effective_status options r observed_at ∷ statuses options rs observed_at

unfoldable pub effective_counts :
    (options : Option AnalysisIdentity) → List AssessedResult → (observed_at : ℕ) → Counts
effective_counts options results observed_at =
    record (observation_counts (statuses options results observed_at)) {
      unresolved_deals = number (
          any
            (λ r. is_status (effective_status options r observed_at) fail && is_unsettled r.case_of)
            results);
    }
