-- ===== src/Sync/Jobs.antt =====
-- The jobs of the synchronisation (`trigger`, `enqueuePullSync`, `triggerWebhookQueue` and `expireStaleJobs`
-- in apps/api/src/amo/amo-sync.service.ts) on the rows of one connection. `locked` is whether the lock of the
-- database is taken, and `pending` how many events wait in the inbox.
pub mod Attempts
pub mod Counted
pub mod Open
pub mod Cursor
mod Tests
use amocrm_analytics.Base.{
  ℕ, ◌+◌, ◌-◌, ◌*◌, ◌/◌, Bool, true, false, ◌&&◌, ◌||◌, not, Option, none, some, List, [], ◌∷◌,
  ◌++◌, leb, ltb, ◌==◌, any, filter, if◌then◌else◌,
}

pub data SyncJobType : Type 0 where
  full incremental webhook : SyncJobType

pub data SyncJobStatus : Type 0 where
  queued running success error : SyncJobStatus

pub data PullStage : Type 0 where
  metadata deals notes events tasks contacts_companies email_thread_state entity_links : PullStage
  fact_marts notifications : PullStage

-- `cursor` is the stage that the text of the step begins with, if it is one.
pub record SyncJob : Type 0 where
  pub id : ℕ
  pub kind : SyncJobType
  pub status : SyncJobStatus
  pub started_at : Option ℕ
  pub heartbeat_at : Option ℕ
  pub finished_at : Option ℕ
  pub cursor : Option PullStage
  pub created_at : ℕ

pub data ConnectionStatus : Type 0 where
  active syncing connection_error : ConnectionStatus

pub record SyncConnection : Type 0 where
  pub status : ConnectionStatus
  pub last_full_sync_at : Option ℕ
  pub last_incremental_sync_at : Option ℕ
  pub last_pull_sync_at : Option ℕ
  pub last_webhook_applied_at : Option ℕ

pub record Rows : Type 0 where
  pub jobs : List SyncJob
  pub connection : SyncConnection

abbrev pub is_webhook : SyncJobType → Bool
is_webhook webhook = true
is_webhook _ = false

abbrev pub is_full : SyncJobType → Bool
is_full full = true
is_full _ = false

abbrev pub is_open_status : SyncJobStatus → Bool
is_open_status queued = true
is_open_status running = true
is_open_status _ = false

abbrev pub is_open_pull : SyncJob → Bool
is_open_pull j = not (is_webhook j.kind) && is_open_status j.status

abbrev pub is_open_webhook : SyncJob → Bool
is_open_webhook j = is_webhook j.kind && is_open_status j.status

abbrev pub is_open_full : SyncJob → Bool
is_open_full j = is_full j.kind && is_open_status j.status

abbrev pub is_given : Option ℕ → Bool
is_given none = false
is_given (some n) = true

-- The minutes of the settings; `none` if they are no positive number.
pub record StaleMinutes : Type 0 where
  pub full_minutes : Option ℕ
  pub webhook_minutes : Option ℕ
  pub incremental_minutes : Option ℕ

abbrev minutes_or : Option ℕ → (default_ms : ℕ) → ℕ
minutes_or none d = d
minutes_or (some m) d = m * 60_000

unfoldable pub get_stale_sync_job_ms : StaleMinutes → SyncJobType → ℕ
get_stale_sync_job_ms m full = minutes_or m.full_minutes (6 * 60 * 60 * 1000)
get_stale_sync_job_ms m webhook = minutes_or m.webhook_minutes 60_000
get_stale_sync_job_ms m incremental = minutes_or m.incremental_minutes (30 * 60_000)

abbrev last_sign : SyncJob → ℕ
last_sign j = elim j.heartbeat_at [
  | some h ↦ h
  | none ↦ elim j.started_at [ some s ↦ s | none ↦ j.created_at ]
]

unfoldable pub is_stale_job : StaleMinutes → (now : ℕ) → SyncJob → Bool
is_stale_job m now j =
    is_open_status j.status && ltb (last_sign j) (now - get_stale_sync_job_ms m j.kind)

abbrev pub with_status : SyncJobStatus → (now : ℕ) → SyncJob → SyncJob
with_status status now j = record {
  id = j.id;
  kind = j.kind;
  status = status;
  started_at = j.started_at;
  heartbeat_at = j.heartbeat_at;
  finished_at = some now;
  cursor = j.cursor;
  created_at = j.created_at;
}

abbrev pub expire_jobs : StaleMinutes → (now : ℕ) → List SyncJob → List SyncJob
expire_jobs m now [] = []
expire_jobs m now (j ∷ js) =
    (if is_stale_job m now j then with_status error now j else j) ∷ expire_jobs m now js

abbrev pub with_connection_status : ConnectionStatus → SyncConnection → SyncConnection
with_connection_status status c = record {
  status = status;
  last_full_sync_at = c.last_full_sync_at;
  last_incremental_sync_at = c.last_incremental_sync_at;
  last_pull_sync_at = c.last_pull_sync_at;
  last_webhook_applied_at = c.last_webhook_applied_at;
}

unfoldable pub expire_stale_jobs : StaleMinutes → (now : ℕ) → Rows → Rows
expire_stale_jobs m now rows = record {
  jobs = expire_jobs m now rows.jobs;
  connection =
      if any (λ j. is_stale_job m now j) rows.jobs
      then with_connection_status active rows.connection
      else rows.connection;
}

unfoldable pub resolve_requested_sync_type : SyncJobType → SyncConnection → SyncJobType
resolve_requested_sync_type full c = full
resolve_requested_sync_type kind c =
    if not (is_given c.last_full_sync_at) && not (is_given c.last_incremental_sync_at)
    then full
    else kind

abbrev pub new_job : (id : ℕ) → SyncJobType → (now : ℕ) → SyncJob
new_job id kind now = record {
  id = id;
  kind = kind;
  status = queued;
  started_at = none;
  heartbeat_at = some now;
  finished_at = none;
  cursor = none;
  created_at = now;
}

pub data TriggerResponse : Type 0 where
  busy idle ignored waiting_full_snapshot waiting_initial_snapshot already_open : TriggerResponse
  created : (id : ℕ) → TriggerResponse

abbrev pub with_job : SyncJob → Rows → Rows
with_job j rows = record { jobs = rows.jobs ++ j ∷ []; connection = rows.connection }

-- The transaction that `trigger` and `enqueuePullSync` share; the type is that of the connection read before.
unfoldable pub open_pull_job :
    (locked : Bool) → SyncJobType → (id now : ℕ) → Rows → Rows × TriggerResponse
open_pull_job locked kind id now rows =
    if not locked
    then (rows, busy)
    else if any (λ j. is_open_pull j) rows.jobs
    then (rows, already_open)
    else (with_job (new_job id kind now) rows, created id)

unfoldable pub open_webhook_job :
    (locked : Bool) (pending : ℕ) (last_full_sync_at : Option ℕ) (id now : ℕ)
    → Rows
    → Rows × TriggerResponse
open_webhook_job locked pending last_full_sync_at id now rows =
    if not locked
    then (rows, busy)
    else if pending == 0
    then (rows, idle)
    else if any (λ j. is_open_full j) rows.jobs
    then (rows, waiting_full_snapshot)
    else if not (is_given last_full_sync_at)
    then (rows, waiting_initial_snapshot)
    else if any (λ j. is_open_webhook j) rows.jobs
    then (rows, already_open)
    else (with_job (new_job id webhook now) rows, created id)

unfoldable pub trigger_webhook_queue :
    StaleMinutes → (locked : Bool) (pending id now : ℕ) → Rows → Rows × TriggerResponse
trigger_webhook_queue m locked pending id now rows =
    open_webhook_job locked pending rows.connection.last_full_sync_at id now
      (expire_stale_jobs m now rows)

-- The run of a job that is created is a step of its own.
unfoldable pub trigger :
    StaleMinutes
    → (locked : Bool) (pending : ℕ) → SyncJobType
    → (id now : ℕ) → Rows
    → Rows × TriggerResponse
trigger m locked pending webhook id now rows = trigger_webhook_queue m locked pending id now rows
trigger m locked pending kind id now rows =
    open_pull_job locked (resolve_requested_sync_type kind rows.connection) id now
      (expire_stale_jobs m now rows)

unfoldable pub enqueue_pull_sync :
    StaleMinutes → (locked : Bool) → SyncJobType → (id now : ℕ) → Rows → Rows × TriggerResponse
enqueue_pull_sync m locked webhook id now rows = (rows, ignored)
enqueue_pull_sync m locked kind id now rows =
    open_pull_job locked (resolve_requested_sync_type kind rows.connection) id now
      (expire_stale_jobs m now rows)
