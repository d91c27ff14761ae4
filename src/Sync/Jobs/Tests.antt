-- ===== src/Sync/Jobs/Tests.antt =====
-- Runs of the requests for jobs, from no jobs on.
use amocrm_analytics.Base.{◌≤◌, ◌≡◌, refl, true, none, [], ◌∷◌}
use amocrm_analytics.Sync.Jobs.{
  full, incremental, webhook, SyncJob, Rows, StaleMinutes, get_stale_sync_job_ms, is_stale_job,
  expire_stale_jobs, resolve_requested_sync_type, created, already_open, waiting_full_snapshot,
  open_pull_job, open_webhook_job, trigger_webhook_queue, trigger, enqueue_pull_sync, new_job,
}
use amocrm_analytics.Sync.Jobs.Attempts.{
  start_job, touch_job, pull_resume_stage, should_run_pull_stage, get_updated_since, finish_pull,
  finish_webhook, fail_job,
}
use amocrm_analytics.Sync.Jobs.Counted.{may_start, count_jobs, pull_kind, is_open_of}
use amocrm_analytics.Sync.Jobs.Open.{here, next, triggered, begun, Reach-count_jobs}
use amocrm_analytics.Sync.Jobs.Cursor.Reads.{first_connection}

abbrev defaults : StaleMinutes
defaults = record { full_minutes = none; webhook_minutes = none; incremental_minutes = none }

abbrev empty : Rows
empty = record { jobs = []; connection = first_connection }

computed : Unit {0}
unfolding get_stale_sync_job_ms is_stale_job expire_stale_jobs resolve_requested_sync_type
    open_pull_job open_webhook_job trigger_webhook_queue trigger enqueue_pull_sync start_job
    touch_job pull_resume_stage should_run_pull_stage get_updated_since finish_pull finish_webhook
    fail_job
computed = tt

-- The first pull is a full one, whatever is asked for.
abbrev first_job : SyncJob
first_job = new_job 1 full 1_000_000

abbrev after_trigger : Rows
after_trigger = (trigger defaults true 0 incremental 1 1_000_000 empty).0

first_is_full : after_trigger.jobs ≡ first_job ∷ []
unfolding computed
first_is_full = refl

second_waits : (trigger defaults true 0 full 2 1_060_000 after_trigger).1 ≡ already_open
unfolding computed
second_waits = refl

-- After six hours without a sign of life the job is closed.
later_is_created : (trigger defaults true 0 full 2 22_700_000 after_trigger).1 ≡ created 2
unfolding computed
later_is_created = refl

webhooks_wait :
    (trigger defaults true 4 webhook 2 1_060_000 after_trigger).1 ≡ waiting_full_snapshot
unfolding computed
webhooks_wait = refl

may_start_first : may_start 1 after_trigger.jobs ≡ true
unfolding computed
may_start_first = refl

Reach-count_jobs_example :
    count_jobs (is_open_of pull_kind) ((start_job 1_001_000 first_job after_trigger).jobs) ≤ 1
Reach-count_jobs_example = Reach-count_jobs pull_kind (
    next (next here (triggered defaults true 0 incremental 1 1_000_000))
      (begun 1_001_000 first_job may_start_first))
