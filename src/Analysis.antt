-- ===== src/Analysis.antt =====
-- The queue of the local analysis (`CrmControlAnalysisService` of
-- apps/api/src/crm-control/crm-control-analysis.service.ts): what its transactions do to a job and to
-- the records of its attempts. The checks of the request before a job is added, the validation of an
-- answer and its assessment are not modelled: `finish` is given what they say.
pub mod Sound
pub mod Lease
mod Tests
use amocrm_analytics.Base.{
  ℕ, ◌+◌, ◌-◌, ◌*◌, max, Bool, true, false, ◌&&◌, ◌||◌, not, Option, none, some, List, [], ◌∷◌, ltb,
  leb, ◌==◌, any, if◌then◌else◌,
}
use amocrm_analytics.Control.Types.{ResultStatus, unknown, is_status}

pub data JobStatus : Type 0 where
  queued running ready_job unknown_job error_job : JobStatus

pub data ErrorCode : Type 0 where
  unavailable timeout storage_unavailable lease_expired version_changed : ErrorCode
  identity_mismatch invalid_response other_error : ErrorCode

abbrev pub attempts_per_request : ℕ
attempts_per_request = 3

abbrev pub lease_ms : ℕ
lease_ms = 300_000

abbrev pub retire_batch_size : ℕ
retire_batch_size = 100

unfoldable pub is_transient : ErrorCode → Bool
is_transient unavailable = true
is_transient timeout = true
is_transient storage_unavailable = true
is_transient _ = false

-- The versions that a job was made for.
pub record Identity : Type 0 where
  pub analyzer_version : ℕ
  pub prompt_version : ℕ
  pub model : ℕ
  pub model_sha256 : ℕ

-- `is_active` is `activeKey === ACTIVE_KEY`, and otherwise the key is null.
pub record Job : Type 0 where
  pub identity : Identity
  pub input_hash : ℕ
  pub status : JobStatus
  pub is_active : Bool
  pub lease_token : Option ℕ
  pub lease_until : Option ℕ
  pub attempt_count : ℕ
  pub attempt_limit : ℕ
  pub next_attempt_at : Option ℕ
  pub finished_at : Option ℕ
  pub error_code : Option ErrorCode
  pub assessment_status : ResultStatus

pub record Attempt : Type 0 where
  pub attempt_no : ℕ
  pub lease_token : Option ℕ
  pub status : JobStatus
  pub error_code : Option ErrorCode
  pub retryable : Bool
  pub finished_at : ℕ

-- A job with the records of its attempts, the last first, and the keys of the retries it was granted.
pub record Entry : Type 0 where
  pub job : Job
  pub attempts : List Attempt
  pub grants : List ℕ

unfoldable pub same_identity : Identity → Identity → Bool
same_identity a b =
    a.analyzer_version == b.analyzer_version
    && a.prompt_version == b.prompt_version
    && a.model == b.model
    && a.model_sha256 == b.model_sha256

abbrev pub is_queued : JobStatus → Bool
is_queued queued = true
is_queued _ = false

abbrev pub is_running : JobStatus → Bool
is_running running = true
is_running _ = false

abbrev pub is_error : JobStatus → Bool
is_error error_job = true
is_error _ = false

-- `nextAttemptAt` is null or not after `now`.
abbrev pub is_open : Option ℕ → ℕ → Bool
is_open none now = true
is_open (some t) now = leb t now

-- `leaseUntil` is not after `now`.
abbrev pub is_over : Option ℕ → ℕ → Bool
is_over none now = false
is_over (some t) now = leb t now

abbrev pub is_after : Option ℕ → ℕ → Bool
is_after none now = false
is_after (some t) now = ltb now t

abbrev pub same_token : Option ℕ → Option ℕ → Bool
same_token none none = true
same_token (some a) (some b) = a == b
same_token _ _ = false

abbrev may_retry : Option ErrorCode → Bool
may_retry none = false
may_retry (some lease_expired) = true
may_retry (some code) = is_transient code

-- A manual retry with a request key: it returns whether a retry was granted. A key is a text of 1 to
-- 256 characters, given by its number and length after `trim`.
unfoldable pub retry_transient_error : (key key_length trimmed_length : ℕ) → Entry → Bool × Entry
retry_transient_error key key_length trimmed_length e =
    if trimmed_length == 0 || ltb 256 key_length
    then (false, e)
    else if any (λ k. k == key) e.grants
    then (false, e)
    else if not (is_error e.job.status) || not (may_retry e.job.error_code)
    then (false, e)
    else (
      true,
      record e {
        grants = key ∷ e.grants;
        job = record e.job {
          status = queued;
          attempt_limit = e.job.attempt_count + attempts_per_request;
          is_active = false;
          lease_token = none;
          lease_until = none;
          next_attempt_at = none;
          finished_at = none;
          error_code = none;
          assessment_status = unknown;
        };
      },
    )

-- The end of an attempt whose lease is over.
unfoldable pub recover_expired : (now : ℕ) → Entry → Entry
recover_expired now e =
    let retryable = ltb e.job.attempt_count e.job.attempt_limit in
    if is_running e.job.status && (e.job.is_active && is_over e.job.lease_until now)
    then record e {
      job = record e.job {
        status = if retryable then queued else error_job;
        is_active = false;
        lease_token = none;
        lease_until = none;
        next_attempt_at = if retryable then some now else none;
        finished_at = if retryable then none else some now;
        error_code = some lease_expired;
        assessment_status = unknown;
      };
      attempts =
          record {
            attempt_no = e.job.attempt_count;
            lease_token = e.job.lease_token;
            status = error_job;
            error_code = some lease_expired;
            retryable = retryable;
            finished_at = now;
          }
          ∷ e.attempts;
    }
    else e

-- A queued job of other versions is closed.
unfoldable pub retire_outdated_queued : (now : ℕ) → Identity → Entry → Entry
retire_outdated_queued now options e =
    if is_queued e.job.status && not (same_identity e.job.identity options)
    then record e {
      job = record e.job {
        status = error_job;
        error_code = some version_changed;
        finished_at = some now;
        next_attempt_at = none;
        is_active = false;
        lease_token = none;
        lease_until = none;
        assessment_status = unknown;
      };
    }
    else e

-- A worker takes the job; `other_active` says whether another job holds the unique key, and then the
-- database refuses the update. `token` is the random token that the claim draws.
unfoldable pub claim :
    (now : ℕ) → Identity → (other_active : Bool) → (token : ℕ) → Entry → Option Entry
claim now options other_active token e =
    if not (is_queued e.job.status) || not (same_identity e.job.identity options)
    then none
    else if not (ltb e.job.attempt_count e.job.attempt_limit)
    then none
    else if not (is_open e.job.next_attempt_at now) || other_active
    then none
    else some (record e {
      job = record e.job {
        status = running;
        is_active = true;
        lease_token = some token;
        lease_until = some (now + lease_ms);
        finished_at = none;
        next_attempt_at = none;
        attempt_count = e.job.attempt_count + 1;
      };
    })

-- What the model client returns.
pub data Outcome : Type 0 where
  answered : (input_hash : ℕ) (identity : Identity) → Outcome
  failed : (code : ErrorCode) (retryable : Bool) → Outcome

-- What the validation of the answer and its assessment say, and whether the result is still there.
pub record Reading : Type 0 where
  pub is_valid : Bool
  pub rule_found : Bool
  pub assessed : ResultStatus

unfoldable pub outcome_error : Job → Outcome → Reading → Option ErrorCode
outcome_error job (failed code retryable) reading = some code
outcome_error job (answered hash identity) reading =
    if not (
      hash == job.input_hash
      && identity.model_sha256 == job.identity.model_sha256
      && identity.model == job.identity.model
      && identity.prompt_version == job.identity.prompt_version)
    then some identity_mismatch
    else if not reading.is_valid
    then some invalid_response
    else none

unfoldable pub is_retryable : Job → Outcome → Bool
is_retryable job (answered hash identity) = false
is_retryable job (failed code retryable) =
    retryable && (is_transient code && ltb job.attempt_count job.attempt_limit)

abbrev pub assessment : Option ErrorCode → Reading → ResultStatus
assessment none reading = if reading.rule_found then reading.assessed else unknown
assessment (some code) reading = unknown

abbrev final_status : Option ErrorCode → ResultStatus → JobStatus
final_status (some code) s = error_job
final_status none s = if is_status s unknown then unknown_job else ready_job

-- The row is still leased to the attempt that ends.
unfoldable pub is_leased_to : Job → (now : ℕ) → Job → Bool
is_leased_to job now row =
    is_running row.status
    && (row.is_active
        && (same_token row.lease_token job.lease_token
            && (row.attempt_count == job.attempt_count && is_after row.lease_until now)))

-- The end of the attempt that claimed `job`, on the row as it is now.
unfoldable pub finish : (now : ℕ) → (job : Job) → Outcome → Reading → Entry → Entry
finish now job outcome reading e =
    let code = outcome_error job outcome reading in
    let retry = is_retryable job outcome in
    let cycle_attempt = max 1 (job.attempt_count + attempts_per_request - job.attempt_limit) in
    let status = final_status code (assessment code reading) in
    if is_leased_to job now e.job
    then record e {
      job = record e.job {
        status = if retry then queued else status;
        is_active = false;
        lease_token = none;
        lease_until = none;
        error_code = code;
        assessment_status = assessment code reading;
        next_attempt_at = if retry then some (now + 30_000 * cycle_attempt) else none;
        finished_at = if retry then none else some now;
      };
      attempts =
          record {
            attempt_no = job.attempt_count;
            lease_token = job.lease_token;
            status = status;
            error_code = code;
            retryable = retry;
            finished_at = now;
          }
          ∷ e.attempts;
    }
    else e
