-- ===== src/Sync/Jobs/Cursor/Kept.antt =====
-- Writes that leave the cursors, and the jobs that there may be before the first cursor.
use mathlib.Core.Path.{subst}
use amocrm_analytics.Base.{
  ℕ, ◌≡◌, refl, sym, ◌∙◌, Bool, true, ◌||◌, not, Option, some, List, [], ◌∷◌, ◌++◌, ◌==◌, any,
  arith, Bool-cases, inl, inr,
}
use amocrm_analytics.Sync.Jobs.{
  SyncJobType, full, incremental, webhook, SyncJob, Rows, SyncConnection, is_given, is_open_pull,
  is_open_webhook, is_open_full, StaleMinutes, is_stale_job, expire_jobs, expire_stale_jobs,
  resolve_requested_sync_type, new_job, with_job, open_pull_job, open_webhook_job,
  trigger_webhook_queue, trigger, enqueue_pull_sync,
}
use amocrm_analytics.Sync.Jobs.Attempts.{update_job, last_pull_of}
use amocrm_analytics.Sync.Jobs.Cursor.{World, some_value, find_job, knows, jobs_known, IsSafe}

pub update_job-jobs_known :
    (given : Bool) (id : ℕ) (f : SyncJob → SyncJob) (js : List SyncJob)
    → ((j : SyncJob) → (f j).kind ≡ j.kind)
    → jobs_known given js ≡ true
    → jobs_known given (update_job id f js) ≡ true
update_job-jobs_known given id f [] h k = refl
update_job-jobs_known given id f (j ∷ js) h k =
    let later = update_job-jobs_known given id f js h (ground arith) in
    elim (Bool-cases (j.id == id)) [
      | inl y ↦ let same = h j in rw (y, same) (ground arith)
      | inr n ↦ rw n (ground arith)
    ]

expire_jobs-jobs_known :
    (given : Bool) (m : StaleMinutes) (now : ℕ) (js : List SyncJob)
    → jobs_known given js ≡ true
    → jobs_known given (expire_jobs m now js) ≡ true
expire_jobs-jobs_known given m now [] k = refl
expire_jobs-jobs_known given m now (j ∷ js) k =
    let later = expire_jobs-jobs_known given m now js (ground arith) in ground arith

append-jobs_known :
    (given : Bool) (js : List SyncJob) (j : SyncJob)
    → jobs_known given js ≡ true
    → knows given j ≡ true
    → jobs_known given (js ++ j ∷ []) ≡ true
append-jobs_known given [] j k h = ground arith
append-jobs_known given (i ∷ js) j k h =
    let later = append-jobs_known given js j (ground arith) h in ground arith

pub find_job-knows :
    (given : Bool) (id : ℕ) (js : List SyncJob) (job : SyncJob)
    → jobs_known given js ≡ true
    → find_job id js ≡ some job
    → knows given job ≡ true
find_job-knows given id [] job k e = cc
find_job-knows given id (j ∷ js) job k e = elim (Bool-cases (j.id == id)) [
  | inl y ↦
      let same : j ≡ job = some_value (rw y at e) in
      subst (λ i. knows given i ≡ true) same (ground arith)
  | inr n ↦ find_job-knows given id js job (ground arith) (rw n at e)
]

-- A write that leaves the cursors.
pub record Kept (before after : Rows) : Type 0 where
  pub same_full : after.connection.last_full_sync_at ≡ before.connection.last_full_sync_at
  pub same_pull : last_pull_of after.connection ≡ last_pull_of before.connection
  pub known : jobs_known (is_given (last_pull_of before.connection)) after.jobs ≡ true

pub Kept-IsSafe :
    (w : World) (rows : Rows) → IsSafe w → Kept w.rows rows → IsSafe (record w { rows = rows })
Kept-IsSafe w rows s k = record {
  cursor_read = λ t e. s.cursor_read t (sym k.same_pull ∙ e);
  attempts_read = s.attempts_read;
  known_jobs = rw k.same_pull k.known;
  known_full = rw (k.same_pull, k.same_full) s.known_full;
  known_attempts = rw k.same_pull s.known_attempts;
}

pub expire_stale_jobs-Kept :
    (m : StaleMinutes) (now : ℕ) (rows : Rows)
    → jobs_known (is_given (last_pull_of rows.connection)) rows.jobs ≡ true
    → Kept rows (expire_stale_jobs m now rows)
unfolding expire_stale_jobs
expire_stale_jobs-Kept m now rows k =
    let known =
      expire_jobs-jobs_known (is_given (last_pull_of rows.connection)) m now rows.jobs k in
    elim (Bool-cases (any (λ j. is_stale_job m now j) rows.jobs)) [
      | inl y ↦ record { same_full = rw y refl; same_pull = rw y refl; known = known }
      | inr n ↦ record { same_full = rw n refl; same_pull = rw n refl; known = known }
    ]

with_job-Kept :
    (rows start : Rows) (j : SyncJob)
    → Kept start rows
    → knows (is_given (last_pull_of start.connection)) j ≡ true
    → Kept start (with_job j rows)
with_job-Kept rows start j k h = record {
  same_full = k.same_full;
  same_pull = k.same_pull;
  known = append-jobs_known (is_given (last_pull_of start.connection)) rows.jobs j k.known h;
}

open_pull_job-Kept :
    (locked : Bool) (kind : SyncJobType) (id now : ℕ) (rows start : Rows)
    → Kept start rows
    → knows (is_given (last_pull_of start.connection)) (new_job id kind now) ≡ true
    → Kept start (open_pull_job locked kind id now rows).0
unfolding open_pull_job
open_pull_job-Kept locked kind id now rows start k h = elim (Bool-cases (not locked)) [
  | inl y ↦ rw y k
  | inr n ↦ elim (Bool-cases (any (λ j. is_open_pull j) rows.jobs)) [
    | inl y ↦ rw (n, y) k
    | inr closed ↦ rw (n, closed) (with_job-Kept rows start (new_job id kind now) k h)
  ]
]

open_webhook_job-Kept :
    (locked : Bool) (pending : ℕ) (last_full : Option ℕ) (id now : ℕ) (rows start : Rows)
    → Kept start rows
    → Kept start (open_webhook_job locked pending last_full id now rows).0
unfolding open_webhook_job
open_webhook_job-Kept locked pending last_full id now rows start k =
    elim (Bool-cases (not locked)) [
      | inl y ↦ rw y k
      | inr n ↦ elim (Bool-cases (pending == 0)) [
        | inl y ↦ rw (n, y) k
        | inr p ↦ elim (Bool-cases (any (λ j. is_open_full j) rows.jobs)) [
          | inl y ↦ rw (n, p, y) k
          | inr f ↦ elim (Bool-cases (not (is_given last_full))) [
            | inl y ↦ rw (n, p, f, y) k
            | inr g ↦ elim (Bool-cases (any (λ j. is_open_webhook j) rows.jobs)) [
              | inl y ↦ rw (n, p, f, g, y) k
              | inr c ↦
                  rw (n, p, f, g, c) (with_job-Kept rows start (new_job id webhook now) k refl)
            ]
          ]
        ]
      ]
    ]

resolve_requested_sync_type-knows :
    (kind : SyncJobType) (c : SyncConnection) (id now : ℕ)
    → (not (is_given c.last_full_sync_at) || is_given (last_pull_of c)) ≡ true
    → knows (is_given (last_pull_of c)) (new_job id (resolve_requested_sync_type kind c) now) ≡ true
unfolding resolve_requested_sync_type
resolve_requested_sync_type-knows full c id now h = refl
resolve_requested_sync_type-knows incremental c id now h = ground arith
resolve_requested_sync_type-knows webhook c id now h = ground arith

pub trigger-Kept :
    (m : StaleMinutes) (locked : Bool) (pending : ℕ) (kind : SyncJobType) (id now : ℕ) (w : World)
    → IsSafe w
    → Kept w.rows (trigger m locked pending kind id now w.rows).0
unfolding trigger trigger_webhook_queue
trigger-Kept m locked pending webhook id now w s =
    open_webhook_job-Kept locked pending w.rows.connection.last_full_sync_at id now
      (expire_stale_jobs m now w.rows) w.rows (expire_stale_jobs-Kept m now w.rows s.known_jobs)
trigger-Kept m locked pending full id now w s =
    open_pull_job-Kept locked (resolve_requested_sync_type full w.rows.connection) id now
      (expire_stale_jobs m now w.rows) w.rows (expire_stale_jobs-Kept m now w.rows s.known_jobs)
      (resolve_requested_sync_type-knows full w.rows.connection id now s.known_full)
trigger-Kept m locked pending incremental id now w s =
    open_pull_job-Kept locked (resolve_requested_sync_type incremental w.rows.connection) id now
      (expire_stale_jobs m now w.rows) w.rows (expire_stale_jobs-Kept m now w.rows s.known_jobs)
      (resolve_requested_sync_type-knows incremental w.rows.connection id now s.known_full)

pub enqueue_pull_sync-Kept :
    (m : StaleMinutes) (locked : Bool) (kind : SyncJobType) (id now : ℕ) (w : World)
    → IsSafe w
    → Kept w.rows (enqueue_pull_sync m locked kind id now w.rows).0
unfolding enqueue_pull_sync trigger
enqueue_pull_sync-Kept m locked webhook id now w s = record {
  same_full = refl;
  same_pull = refl;
  known = s.known_jobs;
}
enqueue_pull_sync-Kept m locked full id now w s = trigger-Kept m locked 0 full id now w s
enqueue_pull_sync-Kept m locked incremental id now w s =
    trigger-Kept m locked 0 incremental id now w s
