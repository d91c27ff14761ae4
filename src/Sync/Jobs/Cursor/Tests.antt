-- ===== src/Sync/Jobs/Cursor/Tests.antt =====
-- Runs of the pulls: a first pull, a job of the webhooks that overlaps with a full pull, and a resumed pull.
use amocrm_analytics.Base.{◌≡◌, refl, true, false, none, some, [], ◌∷◌, any, arith, inl}
use amocrm_analytics.Sync.Jobs.{
  full, incremental, webhook, deals, notes, SyncJob, StaleMinutes, get_stale_sync_job_ms,
  is_stale_job, expire_stale_jobs, resolve_requested_sync_type, open_pull_job, open_webhook_job,
  trigger_webhook_queue, trigger, enqueue_pull_sync, new_job,
}
use amocrm_analytics.Sync.Jobs.Attempts.{
  Attempt, started, start_job, touched, touch_job, pull_resume_stage, should_run_pull_stage,
  get_updated_since, finish_pull, finish_webhook, fail_job,
}
use amocrm_analytics.Sync.Jobs.Cursor.{
  has_second, World, read_of, find_job, Reach, here, next, triggered, begun, pulled,
}
use amocrm_analytics.Sync.Jobs.Cursor.Reads.{first_connection, first_world, Reach-reads}

abbrev defaults : StaleMinutes
defaults = record { full_minutes = none; webhook_minutes = none; incremental_minutes = none }

computed : Unit {0}
unfolding get_stale_sync_job_ms is_stale_job expire_stale_jobs resolve_requested_sync_type
    open_pull_job open_webhook_job trigger_webhook_queue trigger enqueue_pull_sync start_job
    touch_job pull_resume_stage should_run_pull_stage get_updated_since finish_pull finish_webhook
    fail_job
computed = tt

abbrev first_job : SyncJob
first_job = new_job 1 full 1_000_000

abbrev attempt : Attempt
attempt = record { job = first_job; connection = first_connection; started_at = 1_002_000 }

abbrev asked : World
asked = record first_world {
  rows = (trigger defaults true 0 incremental 1 1_000_000 first_world.rows).0;
}

abbrev running_pull : World
running_pull = record asked {
  rows = start_job 1_001_000 first_job asked.rows;
  attempts = attempt ∷ [];
}

abbrev ended_pull : World
ended_pull = record running_pull {
  rows = finish_pull 1_500_000 attempt running_pull.rows;
  reads = read_of attempt ∷ [];
}

found_first : find_job 1 asked.rows.jobs ≡ some first_job
unfolding computed
found_first = refl

all_stages : should_run_pull_stage deals (pull_resume_stage first_job) ≡ true
unfolding computed
all_stages = refl

cursor_is_start : ended_pull.rows.connection.last_pull_sync_at ≡ some 1_002_000
unfolding computed
cursor_is_start = refl

first_run : Reach first_world ended_pull
unfolding computed
first_run =
    next
      (next (next here (triggered defaults true 0 incremental 1 1_000_000))
        (begun 1 1_001_000 1_002_000 first_job found_first))
      (pulled 1_500_000 attempt (inl refl) refl all_stages)

Reach-reads_example : any (λ r. has_second 1002 r) ended_pull.reads ≡ true
Reach-reads_example = Reach-reads 1_002_000 1002 first_run cursor_is_start (omega arith)

-- A job of the webhooks that starts before a full pull ends writes the older date of the full pull back.
abbrev webhook_attempt : Attempt
webhook_attempt = record {
  job = new_job 5 webhook 1_600_000;
  connection = ended_pull.rows.connection;
  started_at = 1_600_000;
}

abbrev second_full : Attempt
second_full = record {
  job = new_job 6 full 1_600_500;
  connection = ended_pull.rows.connection;
  started_at = 1_601_000;
}

full_is_recorded :
    ((finish_pull 1_700_000 second_full ended_pull.rows).connection).last_full_sync_at
    ≡ some 1_700_000
unfolding computed
full_is_recorded = refl

full_is_forgotten :
    ((finish_webhook true 1_700_100 webhook_attempt
      (finish_pull 1_700_000 second_full ended_pull.rows)).connection
    ).last_full_sync_at
    ≡ some 1_500_000
unfolding computed
full_is_forgotten = refl

-- A pull that is started again after its deals skips them, and yet moves the cursor to its own start.
abbrev again : SyncJob
again = touched 1_800_000 (some notes) (started 1_601_000 (new_job 6 incremental 1_600_500))

deals_are_skipped : should_run_pull_stage deals (pull_resume_stage again) ≡ false
unfolding computed
deals_are_skipped = refl

abbrev resumed : Attempt
resumed = record { job = again; connection = ended_pull.rows.connection; started_at = 9_000_000 }

cursor_moves_all_the_same :
    ((finish_pull 9_100_000 resumed ended_pull.rows).connection).last_pull_sync_at ≡ some 9_000_000
unfolding computed
cursor_moves_all_the_same = refl
