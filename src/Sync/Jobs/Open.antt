-- ===== src/Sync/Jobs/Open.antt =====
-- At most one pull job and at most one job of the webhooks is open.
use amocrm_analytics.Base.{ℕ, ◌≤◌, ◌≡◌, refl, Bool, true, Option, [], arith}
use amocrm_analytics.Sync.Jobs.{
  SyncJobType, success, error, PullStage, SyncJob, Rows, SyncConnection, StaleMinutes,
  expire_stale_jobs, trigger, enqueue_pull_sync,
}
use amocrm_analytics.Sync.Jobs.Attempts.{
  Attempt, start_job, touched, touch_job, ended, finish_pull, finish_webhook, fail_job,
}
use amocrm_analytics.Sync.Jobs.Counted.{
  count_jobs, update_job-count_jobs, may_start, OpenKind, is_open_of, start_job-count_jobs,
  trigger-count_jobs, enqueue_pull_sync-count_jobs, expire_stale_jobs-count_jobs, touched_count,
  ended_count,
}

-- A statement of a process. A job is started while it is open; a write of a run is by any process at any time.
pub data Step : Rows → Rows → Type 0 where
  triggered :
      {rows : Rows} (m : StaleMinutes) (locked : Bool) (pending : ℕ) (kind : SyncJobType)
      (id now : ℕ)
      → Step rows (trigger m locked pending kind id now rows).0
  enqueued :
      {rows : Rows} (m : StaleMinutes) (locked : Bool) (kind : SyncJobType) (id now : ℕ)
      → Step rows (enqueue_pull_sync m locked kind id now rows).0
  expired : {rows : Rows} (m : StaleMinutes) (now : ℕ) → Step rows (expire_stale_jobs m now rows)
  begun :
      {rows : Rows} (now : ℕ) (job : SyncJob)
      → may_start job.id rows.jobs ≡ true
      → Step rows (start_job now job rows)
  beaten :
      {rows : Rows} (id now : ℕ) (step : Option PullStage) → Step rows (touch_job id now step rows)
  pulled :
      {rows : Rows} (finished_at : ℕ) (a : Attempt) → Step rows (finish_pull finished_at a rows)
  applied :
      {rows : Rows} (has_groups : Bool) (finished_at : ℕ) (a : Attempt)
      → Step rows (finish_webhook has_groups finished_at a rows)
  broken : {rows : Rows} (now : ℕ) (a : Attempt) → Step rows (fail_job now a rows)

pub data Reach (start : Rows) : Rows → Type 0 where
  here : Reach start start
  next : {b c : Rows} → Reach start b → Step b c → Reach start c

unfolded : Unit {0}
unfolding start_job touch_job finish_pull finish_webhook fail_job
unfolded = tt

Step-count_jobs :
    (k : OpenKind) {b c : Rows}
    → Step b c
    → count_jobs (is_open_of k) b.jobs ≤ 1
    → count_jobs (is_open_of k) c.jobs ≤ 1
unfolding unfolded
Step-count_jobs k (triggered {rows = rows} m locked pending kind id now) one =
    trigger-count_jobs k m locked pending kind id now rows one
Step-count_jobs k (enqueued {rows = rows} m locked kind id now) one =
    enqueue_pull_sync-count_jobs k m locked kind id now rows one
Step-count_jobs k (expired {rows = rows} m now) one =
    let fewer = expire_stale_jobs-count_jobs k m now rows in omega (arith, fewer, one)
Step-count_jobs k (begun {rows = rows} now job h) one =
    let fewer = start_job-count_jobs k job.id now rows.jobs h in omega (arith, fewer, one)
Step-count_jobs k (beaten {rows = rows} id now step) one =
    let fewer =
      update_job-count_jobs (is_open_of k) id (λ j. touched now step j) rows.jobs
        (touched_count k now step) in
    omega (arith, fewer, one)
Step-count_jobs k (pulled {rows = rows} at a) one =
    let fewer =
      update_job-count_jobs (is_open_of k) a.job.id (λ j. ended success at j) rows.jobs
        (λ j. ended_count k success at j refl) in
    omega (arith, fewer, one)
Step-count_jobs k (applied {rows = rows} has_groups at a) one =
    let fewer =
      update_job-count_jobs (is_open_of k) a.job.id (λ j. ended success at j) rows.jobs
        (λ j. ended_count k success at j refl) in
    omega (arith, fewer, one)
Step-count_jobs k (broken {rows = rows} now a) one =
    let fewer =
      update_job-count_jobs (is_open_of k) a.job.id (λ j. ended error now j) rows.jobs
        (λ j. ended_count k error now j refl) in
    omega (arith, fewer, one)

-- Whatever is requested, expires, starts and ends, and in whatever order, from no jobs on: at most one pull job
-- and at most one job of the webhooks is QUEUED or RUNNING, if a job is started only while it is.
pub Reach-count_jobs :
    (k : OpenKind) {c : SyncConnection} {rows : Rows}
    → Reach (record { jobs = []; connection = c }) rows
    → count_jobs (is_open_of k) rows.jobs ≤ 1
Reach-count_jobs k here = omega arith
Reach-count_jobs k (next r step) = Step-count_jobs k step (Reach-count_jobs k r)
