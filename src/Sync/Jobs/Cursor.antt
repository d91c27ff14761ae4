-- ===== src/Sync/Jobs/Cursor.antt =====
-- The cursor of the pulls never passes a change that no pull has read.
pub mod Kept
pub mod Reads
mod Tests
use mathlib.Core.Path.{subst}
use amocrm_analytics.Base.{
  ℕ, ◌+◌, ◌-◌, ◌*◌, ◌/◌, ◌≤◌, ◌≡◌, ◌⊎◌, refl, ap, sym, ◌∙◌, Bool, true, false, ◌&&◌, ◌||◌, not,
  Option, none, some, List, [], ◌∷◌, ◌++◌, leb, ◌==◌, any, all, All, arith, if◌then◌else◌,
  Bool-cases, inl, inr,
}
use amocrm_analytics.Sync.Jobs.{
  SyncJobType, full, incremental, webhook, PullStage, deals, SyncJob, Rows, SyncConnection,
  is_webhook, is_full, is_given, is_open_pull, is_open_webhook, is_open_full, StaleMinutes,
  is_stale_job, with_status, expire_jobs, expire_stale_jobs, resolve_requested_sync_type, new_job,
  with_job, open_pull_job, open_webhook_job, trigger_webhook_queue, trigger, enqueue_pull_sync,
}
use amocrm_analytics.Sync.Jobs.Attempts.{
  update_job, started, Attempt, start_job, touched, touch_job, pull_resume_stage,
  should_run_pull_stage, or_else, last_pull_of, get_updated_since, ended, finish_pull,
  finish_webhook, fail_job,
}

-- The updates that a pull has read: those from `since` on, or all, and until the pull started.
pub record Read : Type 0 where
  pub since : Option ℕ
  pub until : ℕ

abbrev pub is_since : Option ℕ → (sec : ℕ) → Bool
is_since none sec = true
is_since (some s) sec = leb s sec

abbrev pub has_second : (sec : ℕ) → Read → Bool
has_second sec r = is_since r.since sec && leb sec (r.until / 1000)

-- Every second up to an instant was read.
abbrev pub IsRead : (t : ℕ) → List Read → Type 0
IsRead t reads = (sec : ℕ) → sec ≤ t / 1000 → any (λ r. has_second sec r) reads ≡ true

abbrev is_incremental : SyncJobType → Bool
is_incremental incremental = true
is_incremental _ = false

-- The rows, the runs that have started at any time, and what the pulls that ended without an error have read.
pub record World : Type 0 where
  pub rows : Rows
  pub attempts : List Attempt
  pub reads : List Read

abbrev pub read_of : Attempt → Read
read_of a = record {
  since = get_updated_since a.job.kind (last_pull_of a.connection) a.started_at;
  until = a.started_at;
}

some_value {ℓ} : {A : Type ℓ} {a b : A} → some a ≡ some b → a ≡ b
some_value e = cc

-- A run that has started.
abbrev pub IsAmong : Attempt → List Attempt → Type 0
IsAmong a [] = ⊥
IsAmong a (b ∷ bs) = (a ≡ b) ⊎ IsAmong a bs

abbrev pub find_job : (id : ℕ) → List SyncJob → Option SyncJob
find_job id [] = none
find_job id (j ∷ js) = if j.id == id then some j else find_job id js

-- A statement of a process; a run keeps the copies that it reads when it starts, and a pull that ends has run
-- all stages that read.
pub data Step : World → World → Type 0 where
  triggered :
      {w : World} (m : StaleMinutes) (locked : Bool) (pending : ℕ) (kind : SyncJobType) (id now : ℕ)
      → Step w (record w { rows = (trigger m locked pending kind id now w.rows).0 })
  enqueued :
      {w : World} (m : StaleMinutes) (locked : Bool) (kind : SyncJobType) (id now : ℕ)
      → Step w (record w { rows = (enqueue_pull_sync m locked kind id now w.rows).0 })
  expired :
      {w : World} (m : StaleMinutes) (now : ℕ)
      → Step w (record w { rows = expire_stale_jobs m now w.rows })
  begun :
      {w : World} (id now started_at : ℕ) (job : SyncJob)
      → find_job id w.rows.jobs ≡ some job
      → Step w (record w {
        rows = start_job now job w.rows;
        attempts =
            record { job = job; connection = w.rows.connection; started_at = started_at }
            ∷ w.attempts;
      })
  beaten :
      {w : World} (id now : ℕ) (step : Option PullStage)
      → Step w (record w { rows = touch_job id now step w.rows })
  pulled :
      {w : World} (finished_at : ℕ) (a : Attempt)
      → IsAmong a w.attempts
      → is_webhook a.job.kind ≡ false
      → should_run_pull_stage deals (pull_resume_stage a.job) ≡ true
      → Step w (record w { rows = finish_pull finished_at a w.rows; reads = read_of a ∷ w.reads })
  applied :
      {w : World} (has_groups : Bool) (finished_at : ℕ) (a : Attempt)
      → IsAmong a w.attempts
      → Step w (record w { rows = finish_webhook has_groups finished_at a w.rows })
  broken : {w : World} (now : ℕ) (a : Attempt) → Step w (record w { rows = fail_job now a w.rows })

pub data Reach (start : World) : World → Type 0 where
  here : Reach start start
  next : {b c : World} → Reach start b → Step b c → Reach start c

-- Jobs of changes exist only once a pull has ended.
abbrev knows : (given : Bool) → SyncJob → Bool
knows given j = not (is_incremental j.kind) || given

abbrev jobs_known : (given : Bool) → List SyncJob → Bool
jobs_known given js = all (λ j. knows given j) js

abbrev IsReadBefore : List Read → Attempt → Type 0
IsReadBefore reads a = (t : ℕ) → last_pull_of a.connection ≡ some t → IsRead t reads

abbrev snapshot_known : (given : Bool) → Attempt → Bool
snapshot_known given a =
    (not (is_incremental a.job.kind) || is_given (last_pull_of a.connection))
    && (not (is_given a.connection.last_full_sync_at) || given)

record IsSafe (w : World) : Type 0 where
  cursor_read : (t : ℕ) → last_pull_of w.rows.connection ≡ some t → IsRead t w.reads
  attempts_read : All (IsReadBefore w.reads) w.attempts
  known_jobs : jobs_known (is_given (last_pull_of w.rows.connection)) w.rows.jobs ≡ true
  known_full :
      (not (is_given w.rows.connection.last_full_sync_at)
        || is_given (last_pull_of w.rows.connection))
      ≡ true
  known_attempts :
      all (λ a. snapshot_known (is_given (last_pull_of w.rows.connection)) a) w.attempts ≡ true
