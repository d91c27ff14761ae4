-- ===== src/Sync/Jobs/Attempts.antt =====
-- The runs of a job (`run`, `runPullJob`, `touchJob`, `pullResumeStage`, `getUpdatedSince` and the writes of
-- `runWebhookJob` in apps/api/src/amo/amo-sync.service.ts). What the stages read and write is not modelled, and
-- an error is only that it was thrown.
use amocrm_analytics.Base.{
  ℕ, ◌-◌, ◌*◌, ◌/◌, Bool, true, not, Option, none, some, List, [], ◌∷◌, leb, ◌==◌, if◌then◌else◌,
}
use amocrm_analytics.Sync.Jobs.{
  SyncJobType, full, SyncJobStatus, running, success, error, PullStage, metadata, deals, notes,
  events, tasks, contacts_companies, email_thread_state, entity_links, fact_marts, notifications,
  SyncJob, active, syncing, connection_error, SyncConnection, Rows, is_webhook, is_full, is_given,
  with_connection_status,
}

-- The rows of a job; every write is by its id.
abbrev pub update_job : (id : ℕ) → (SyncJob → SyncJob) → List SyncJob → List SyncJob
update_job id f [] = []
update_job id f (j ∷ js) = (if j.id == id then f j else j) ∷ update_job id f js

abbrev pub started : (now : ℕ) → SyncJob → SyncJob
started now j = record {
  id = j.id;
  kind = j.kind;
  status = running;
  started_at = some now;
  heartbeat_at = some now;
  finished_at = j.finished_at;
  cursor = if is_webhook j.kind then none else j.cursor;
  created_at = j.created_at;
}

-- What a run keeps of its reads before its first write: its job and the connection.
pub record Attempt : Type 0 where
  pub job : SyncJob
  pub connection : SyncConnection
  pub started_at : ℕ

unfoldable pub start_job : (now : ℕ) → SyncJob → Rows → Rows
start_job now job rows = record {
  jobs = update_job job.id (λ j. started now j) rows.jobs;
  connection = with_connection_status syncing rows.connection;
}

abbrev pub touched : (now : ℕ) → Option PullStage → SyncJob → SyncJob
touched now step j = record {
  id = j.id;
  kind = j.kind;
  status = j.status;
  started_at = j.started_at;
  heartbeat_at = some now;
  finished_at = j.finished_at;
  cursor = step;
  created_at = j.created_at;
}

unfoldable pub touch_job : (id now : ℕ) → Option PullStage → Rows → Rows
touch_job id now step rows = record {
  jobs = update_job id (λ j. touched now step j) rows.jobs;
  connection = rows.connection;
}

abbrev pub stage_number : PullStage → ℕ
stage_number metadata = 0
stage_number deals = 1
stage_number notes = 2
stage_number events = 3
stage_number tasks = 4
stage_number contacts_companies = 5
stage_number email_thread_state = 6
stage_number entity_links = 7
stage_number fact_marts = 8
stage_number notifications = 9

unfoldable pub pull_resume_stage : SyncJob → Option PullStage
pull_resume_stage j = if not (is_given j.started_at) then none else j.cursor

unfoldable pub should_run_pull_stage : PullStage → Option PullStage → Bool
should_run_pull_stage stage none = true
should_run_pull_stage stage (some resume) = leb (stage_number resume) (stage_number stage)

abbrev pub or_else : Option ℕ → Option ℕ → Option ℕ
or_else (some a) b = some a
or_else none b = b

abbrev pub last_pull_of : SyncConnection → Option ℕ
last_pull_of c = or_else c.last_pull_sync_at c.last_incremental_sync_at

-- The lower bound of the updates in seconds; `none` reads everything.
unfoldable pub get_updated_since :
    SyncJobType → (last_pull_sync_at : Option ℕ) → (now : ℕ) → Option ℕ
get_updated_since full last now = none
get_updated_since kind none now = some ((now - 5 * 60_000) / 1000)
get_updated_since kind (some last) now = some ((last - 5 * 60_000) / 1000)

abbrev pub ended : SyncJobStatus → (now : ℕ) → SyncJob → SyncJob
ended status now j = record {
  id = j.id;
  kind = j.kind;
  status = status;
  started_at = j.started_at;
  heartbeat_at = some now;
  finished_at = some now;
  cursor = j.cursor;
  created_at = j.created_at;
}

-- The end of a pull without an error; the last full synchronisation is that of the attempt's own copy.
unfoldable pub finish_pull : (finished_at : ℕ) → Attempt → Rows → Rows
finish_pull finished_at a rows = record {
  jobs = update_job a.job.id (λ j. ended success finished_at j) rows.jobs;
  connection = record {
    status = active;
    last_full_sync_at =
        if is_full a.job.kind then some finished_at else a.connection.last_full_sync_at;
    last_incremental_sync_at = some a.started_at;
    last_pull_sync_at = some a.started_at;
    last_webhook_applied_at = rows.connection.last_webhook_applied_at;
  };
}

unfoldable pub finish_webhook : (has_groups : Bool) → (finished_at : ℕ) → Attempt → Rows → Rows
finish_webhook has_groups finished_at a rows = record {
  jobs = update_job a.job.id (λ j. ended success finished_at j) rows.jobs;
  connection = record {
    status = active;
    last_full_sync_at = a.connection.last_full_sync_at;
    last_incremental_sync_at = rows.connection.last_incremental_sync_at;
    last_pull_sync_at = rows.connection.last_pull_sync_at;
    last_webhook_applied_at =
        if has_groups then some finished_at else a.connection.last_webhook_applied_at;
  };
}

-- The end of any run with an error.
unfoldable pub fail_job : (now : ℕ) → Attempt → Rows → Rows
fail_job now a rows = record {
  jobs = update_job a.job.id (λ j. ended error now j) rows.jobs;
  connection = with_connection_status connection_error rows.connection;
}
