-- ===== src/Sync/Jobs/Counted.antt =====
-- How the operations on the jobs change the number of open ones.
use amocrm_analytics.Base.{
  ℕ, ◌+◌, ◌≤◌, ◌≡◌, refl, Bool, true, false, ◌||◌, not, Option, List, [], ◌∷◌, ◌++◌, ◌==◌, any, all,
  arith, if◌then◌else◌, Bool-cases, inl, inr,
}
use amocrm_analytics.Sync.Jobs.{
  SyncJobType, full, incremental, webhook, SyncJobStatus, error, PullStage, SyncJob, Rows,
  SyncConnection, is_open_status, is_webhook, is_open_pull, is_open_webhook, StaleMinutes,
  is_stale_job, with_status, expire_jobs, expire_stale_jobs, resolve_requested_sync_type, new_job,
  with_job, open_pull_job, open_webhook_job, trigger_webhook_queue, trigger, enqueue_pull_sync,
}
use amocrm_analytics.Sync.Jobs.Attempts.{update_job, started, touched, ended}

abbrev one_if : Bool → ℕ
one_if b = if b then 1 else 0

abbrev pub count_jobs : (SyncJob → Bool) → List SyncJob → ℕ
count_jobs p [] = 0
count_jobs p (j ∷ js) = one_if (p j) + count_jobs p js

count_jobs-append :
    (p : SyncJob → Bool) (xs ys : List SyncJob)
    → count_jobs p (xs ++ ys) ≡ count_jobs p xs + count_jobs p ys
count_jobs-append p [] ys = omega arith
count_jobs-append p (x ∷ xs) ys = omega (arith, count_jobs-append p xs ys)

count_jobs-none : (p : SyncJob → Bool) (js : List SyncJob) → any p js ≡ false → count_jobs p js ≡ 0
count_jobs-none p [] h = refl
count_jobs-none p (j ∷ js) h = let later = count_jobs-none p js (ground arith) in ground arith

-- A write that does not open a job.
pub update_job-count_jobs :
    (p : SyncJob → Bool) (id : ℕ) (f : SyncJob → SyncJob) (js : List SyncJob)
    → ((j : SyncJob) → one_if (p (f j)) ≤ one_if (p j))
    → count_jobs p (update_job id f js) ≤ count_jobs p js
update_job-count_jobs p id f [] h = omega arith
update_job-count_jobs p id f (j ∷ js) h = elim (Bool-cases (j.id == id)) [
  | inl y ↦ rw y (omega (arith, h j, update_job-count_jobs p id f js h))
  | inr n ↦ rw n (omega (arith, update_job-count_jobs p id f js h))
]

-- A job may start while it is open.
abbrev pub may_start : (id : ℕ) → List SyncJob → Bool
may_start id js = all (λ j. not (j.id == id) || is_open_status j.status) js

-- The two kinds of open jobs.
pub data OpenKind : Type 0 where
  pull_kind webhook_kind : OpenKind

abbrev pub is_open_of : OpenKind → SyncJob → Bool
is_open_of pull_kind j = is_open_pull j
is_open_of webhook_kind j = is_open_webhook j

pub start_job-count_jobs :
    (k : OpenKind) (id now : ℕ) (js : List SyncJob)
    → may_start id js ≡ true
    → count_jobs (is_open_of k) (update_job id (λ j. started now j) js)
      ≤ count_jobs (is_open_of k) js
start_job-count_jobs k id now [] h = omega arith
start_job-count_jobs pull_kind id now (j ∷ js) h = elim (Bool-cases (j.id == id)) [
  | inl y ↦
      rw y (let later = start_job-count_jobs pull_kind id now js (ground arith) in ground arith)
  | inr n ↦
      rw n (let later = start_job-count_jobs pull_kind id now js (ground arith) in ground arith)
]
start_job-count_jobs webhook_kind id now (j ∷ js) h = elim (Bool-cases (j.id == id)) [
  | inl y ↦
      rw y (let later = start_job-count_jobs webhook_kind id now js (ground arith) in ground arith)
  | inr n ↦
      rw n (let later = start_job-count_jobs webhook_kind id now js (ground arith) in ground arith)
]

closed_count :
    (k : OpenKind) (status : SyncJobStatus) (now : ℕ) (j : SyncJob)
    → is_open_status status ≡ false
    → one_if (is_open_of k (with_status status now j)) ≤ one_if (is_open_of k j)
closed_count pull_kind status now j h = ground arith
closed_count webhook_kind status now j h = ground arith

expire_jobs-count_jobs :
    (k : OpenKind) (m : StaleMinutes) (now : ℕ) (js : List SyncJob)
    → count_jobs (is_open_of k) (expire_jobs m now js) ≤ count_jobs (is_open_of k) js
expire_jobs-count_jobs k m now [] = omega arith
expire_jobs-count_jobs k m now (j ∷ js) = elim (Bool-cases (is_stale_job m now j)) [
  | inl y ↦ rw y (omega (arith, expire_jobs-count_jobs k m now js, closed_count k error now j refl))
  | inr n ↦ rw n (omega (arith, expire_jobs-count_jobs k m now js))
]

module _ (k : OpenKind) where
  pub touched_count :
      (now : ℕ) (step : Option PullStage) (j : SyncJob)
      → one_if (is_open_of k (touched now step j)) ≤ one_if (is_open_of k j)
  touched_count now step j = elim k [ pull_kind ↦ ground arith | webhook_kind ↦ ground arith ]

  pub ended_count :
      (status : SyncJobStatus) (now : ℕ) (j : SyncJob)
      → is_open_status status ≡ false
      → one_if (is_open_of k (ended status now j)) ≤ one_if (is_open_of k j)
  ended_count status now j h = elim k [ pull_kind ↦ ground arith | webhook_kind ↦ ground arith ]

  with_job-count_jobs :
      (j : SyncJob) (rows : Rows)
      → count_jobs (is_open_of k) (with_job j rows).jobs
        ≡ count_jobs (is_open_of k) rows.jobs + one_if (is_open_of k j)
  with_job-count_jobs j rows = omega (arith, count_jobs-append (is_open_of k) rows.jobs (j ∷ []))

  pub expire_stale_jobs-count_jobs :
      (m : StaleMinutes) (now : ℕ) (rows : Rows)
      → count_jobs (is_open_of k) (expire_stale_jobs m now rows).jobs
        ≤ count_jobs (is_open_of k) rows.jobs
  unfolding expire_stale_jobs
  expire_stale_jobs-count_jobs m now rows = expire_jobs-count_jobs k m now rows.jobs

new_pull_count :
    (k : OpenKind) (kind : SyncJobType) (id now : ℕ) (rows : Rows)
    → is_webhook kind ≡ false
    → count_jobs (is_open_of k) rows.jobs ≤ 1
    → count_jobs (λ j. is_open_pull j) rows.jobs ≡ 0
    → count_jobs (is_open_of k) rows.jobs + one_if (is_open_of k (new_job id kind now)) ≤ 1
new_pull_count pull_kind kind id now rows h one no_pull = ground arith
new_pull_count webhook_kind kind id now rows h one no_pull = ground arith

new_webhook_count :
    (k : OpenKind) (id now : ℕ) (rows : Rows)
    → count_jobs (is_open_of k) rows.jobs ≤ 1
    → count_jobs (λ j. is_open_webhook j) rows.jobs ≡ 0
    → count_jobs (is_open_of k) rows.jobs + one_if (is_open_of k (new_job id webhook now)) ≤ 1
new_webhook_count pull_kind id now rows one no_webhook = ground arith
new_webhook_count webhook_kind id now rows one no_webhook = ground arith

open_pull_job-count_jobs :
    (k : OpenKind) (locked : Bool) (kind : SyncJobType) (id now : ℕ) (rows : Rows)
    → is_webhook kind ≡ false
    → count_jobs (is_open_of k) rows.jobs ≤ 1
    → count_jobs (is_open_of k) ((open_pull_job locked kind id now rows).0).jobs ≤ 1
unfolding open_pull_job
open_pull_job-count_jobs k locked kind id now rows h one = elim (Bool-cases (not locked)) [
  | inl y ↦ rw y one
  | inr n ↦ elim (Bool-cases (any (λ j. is_open_pull j) rows.jobs)) [
    | inl y ↦ rw (n, y) one
    | inr closed ↦
        let added = with_job-count_jobs k (new_job id kind now) rows in
        let no_pull = count_jobs-none (λ j. is_open_pull j) rows.jobs closed in
        let few = new_pull_count k kind id now rows h one no_pull in
        rw (n, closed) (omega (arith, added, few))
  ]
]

open_webhook_job-count_jobs :
    (k : OpenKind) (locked : Bool) (pending : ℕ) (last_full : Option ℕ) (id now : ℕ) (rows : Rows)
    → count_jobs (is_open_of k) rows.jobs ≤ 1
    → count_jobs (is_open_of k) ((open_webhook_job locked pending last_full id now rows).0).jobs ≤ 1
unfolding open_webhook_job
open_webhook_job-count_jobs k locked pending last_full id now rows one =
    elim (Bool-cases (any (λ j. is_open_webhook j) rows.jobs)) [
      | inl y ↦ rw y (ground arith)
      | inr closed ↦
          let added = with_job-count_jobs k (new_job id webhook now) rows in
          let no_webhook = count_jobs-none (λ j. is_open_webhook j) rows.jobs closed in
          let few = new_webhook_count k id now rows one no_webhook in rw closed (ground arith)
    ]

resolve_requested_sync_type-is_webhook :
    (kind : SyncJobType) (c : SyncConnection)
    → is_webhook kind ≡ false
    → is_webhook (resolve_requested_sync_type kind c) ≡ false
unfolding resolve_requested_sync_type
resolve_requested_sync_type-is_webhook full c h = refl
resolve_requested_sync_type-is_webhook webhook c h = cc
resolve_requested_sync_type-is_webhook incremental c h = ground arith

open_resolved-count_jobs :
    (k : OpenKind) (m : StaleMinutes) (locked : Bool) (kind : SyncJobType) (id now : ℕ)
    (rows : Rows)
    → is_webhook kind ≡ false
    → count_jobs (is_open_of k) rows.jobs ≤ 1
    → count_jobs
        (is_open_of k)
        ((open_pull_job locked
            (resolve_requested_sync_type kind rows.connection)
            id
            now
            (expire_stale_jobs m now rows)).0
          ).jobs
      ≤ 1
open_resolved-count_jobs k m locked kind id now rows h one =
    let fewer = expire_stale_jobs-count_jobs k m now rows in
    open_pull_job-count_jobs k locked (resolve_requested_sync_type kind rows.connection) id now
      (expire_stale_jobs m now rows) (resolve_requested_sync_type-is_webhook kind rows.connection h)
      (omega (arith, fewer, one))

pub trigger-count_jobs :
    (k : OpenKind) (m : StaleMinutes) (locked : Bool) (pending : ℕ) (kind : SyncJobType)
    (id now : ℕ) (rows : Rows)
    → count_jobs (is_open_of k) rows.jobs ≤ 1
    → count_jobs (is_open_of k) ((trigger m locked pending kind id now rows).0).jobs ≤ 1
unfolding trigger trigger_webhook_queue
trigger-count_jobs k m locked pending webhook id now rows one =
    let fewer = expire_stale_jobs-count_jobs k m now rows in
    open_webhook_job-count_jobs k locked pending rows.connection.last_full_sync_at id now
      (expire_stale_jobs m now rows) (omega (arith, fewer, one))
trigger-count_jobs k m locked pending full id now rows one =
    open_resolved-count_jobs k m locked full id now rows refl one
trigger-count_jobs k m locked pending incremental id now rows one =
    open_resolved-count_jobs k m locked incremental id now rows refl one

pub enqueue_pull_sync-count_jobs :
    (k : OpenKind) (m : StaleMinutes) (locked : Bool) (kind : SyncJobType) (id now : ℕ)
    (rows : Rows)
    → count_jobs (is_open_of k) rows.jobs ≤ 1
    → count_jobs (is_open_of k) ((enqueue_pull_sync m locked kind id now rows).0).jobs ≤ 1
unfolding enqueue_pull_sync
enqueue_pull_sync-count_jobs k m locked webhook id now rows one = one
enqueue_pull_sync-count_jobs k m locked full id now rows one =
    open_resolved-count_jobs k m locked full id now rows refl one
enqueue_pull_sync-count_jobs k m locked incremental id now rows one =
    open_resolved-count_jobs k m locked incremental id now rows refl one
