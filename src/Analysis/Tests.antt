-- ===== src/Analysis/Tests.antt =====
-- A job that is claimed, lost and claimed again.
use amocrm_analytics.Base.{◌≡◌, refl, true, false, none, some, [], ◌∷◌, arith}
use amocrm_analytics.Control.Types.{unknown}
use amocrm_analytics.Analysis.{
  queued, error_job, Identity, Job, Entry, Outcome, failed, Reading, timeout, is_queued,
  same_identity, retry_transient_error, recover_expired, claim, finish, is_leased_to, is_retryable,
  is_transient, outcome_error, Attempt,
}
use amocrm_analytics.Analysis.Sound.{IsSound, IsQueue, here, next, added, Reach-IsQueue}

abbrev versions : Identity
versions = record { analyzer_version = 4; prompt_version = 7; model = 1; model_sha256 = 2 }

abbrev waiting_job : Entry
waiting_job = record {
  job = record {
    identity = versions;
    input_hash = 5;
    status = queued;
    is_active = false;
    lease_token = none;
    lease_until = none;
    attempt_count = 0;
    attempt_limit = 3;
    next_attempt_at = none;
    finished_at = none;
    error_code = none;
    assessment_status = unknown;
  };
  attempts = [];
  grants = [];
}

abbrev claimed_job : Entry
claimed_job = record waiting_job {
  job = record waiting_job.job {
    status = amocrm_analytics.Analysis.running;
    is_active = true;
    lease_token = some 77;
    lease_until = some 301_000;
    attempt_count = 1;
  };
}

queue : Unit {0}
unfolding same_identity retry_transient_error recover_expired claim finish is_leased_to is_retryable
    is_transient outcome_error
queue = tt

claimed_test : claim 1_000 versions false 77 waiting_job ≡ some claimed_job
unfolding queue
claimed_test = refl

abbrev no_answer : Outcome
no_answer = failed timeout true

abbrev no_reading : Reading
no_reading = record { is_valid = false; rule_found = false; assessed = unknown }

waiting_job-IsSound : IsSound waiting_job
waiting_job-IsSound = record {
  active_iff = refl;
  token_iff = refl;
  lease_iff = refl;
  within = omega arith;
  waiting = omega arith;
  recorded = refl;
}

Reach-IsQueue_example : IsQueue (waiting_job ∷ [])
Reach-IsQueue_example =
    Reach-IsQueue (next here (added waiting_job (refl, refl, refl, refl, refl, refl, refl)))

current_versions : same_identity versions versions ≡ true
unfolding queue
current_versions = refl

abbrev failed_job : Entry
failed_job = record waiting_job {
  job = record waiting_job.job {
    status = error_job;
    error_code = some timeout;
    attempt_count = 3;
    finished_at = some 9_000;
  };
}

retry_granted : (retry_transient_error 1 5 5 failed_job).0 ≡ true
unfolding queue
retry_granted = refl
