-- ===== src/Sync/Jobs/Cursor/Reads.antt =====
-- Every step keeps that what is before the cursor was read.
use mathlib.Core.Path.{subst}
use amocrm_analytics.Base.{
  ℕ, ◌/◌, ◌≤◌, ◌≡◌, refl, sym, Bool, true, false, ◌||◌, not, Option, none, some, List, [], ◌∷◌, leb,
  any, all, All, arith, Bool-cases, inl, inr,
}
use amocrm_analytics.Sync.Jobs.{
  SyncJobType, full, incremental, webhook, error, active, SyncJob, Rows, SyncConnection, is_webhook,
  is_given,
}
use amocrm_analytics.Sync.Jobs.Attempts.{
  update_job, started, Attempt, start_job, touched, touch_job, last_pull_of, get_updated_since,
  ended, finish_pull, finish_webhook, fail_job,
}
use amocrm_analytics.Sync.Jobs.Cursor.{
  Read, has_second, IsRead, is_incremental, World, read_of, IsAmong, some_value, find_job, Step,
  triggered, enqueued, expired, begun, beaten, pulled, applied, broken, Reach, here, next,
  jobs_known, IsReadBefore, snapshot_known, IsSafe,
}
use amocrm_analytics.Sync.Jobs.Cursor.Kept.{
  update_job-jobs_known, find_job-knows, Kept, Kept-IsSafe, expire_stale_jobs-Kept, trigger-Kept,
  enqueue_pull_sync-Kept,
}

unfolded : Unit {0}
unfolding start_job touch_job finish_pull finish_webhook fail_job
unfolded = tt

All-among :
    (P : Attempt → Type 0) (a : Attempt) (as_ : List Attempt) → All P as_ → IsAmong a as_ → P a
All-among P a [] h m = elim m [ ]
All-among P a (b ∷ bs) (first, rest) (inl e) = subst P (sym e) first
All-among P a (b ∷ bs) (first, rest) (inr m) = All-among P a bs rest m

all-among :
    (p : Attempt → Bool) (a : Attempt) (as_ : List Attempt)
    → all p as_ ≡ true
    → IsAmong a as_
    → p a ≡ true
all-among p a [] h m = elim m [ ]
all-among p a (b ∷ bs) h (inl e) = subst (λ x. p x ≡ true) (sym e) (ground arith)
all-among p a (b ∷ bs) h (inr m) = all-among p a bs (ground arith) m

-- A read more keeps what was read.
IsRead-more : (t : ℕ) (r : Read) (reads : List Read) → IsRead t reads → IsRead t (r ∷ reads)
IsRead-more t r reads h sec low = let before = h sec low in ground arith

attempts_read-more :
    (r : Read) (reads : List Read) (as_ : List Attempt)
    → All (IsReadBefore reads) as_
    → All (IsReadBefore (r ∷ reads)) as_
attempts_read-more r reads [] h = tt
attempts_read-more r reads (a ∷ rest) (first, later) =
    (λ t e. IsRead-more t r reads (first t e), attempts_read-more r reads rest later)

-- What a pull reads, together with what was read before its own cursor, reaches its start.
get_updated_since-IsRead :
    (kind : SyncJobType) (last : Option ℕ) (started_at : ℕ) (reads : List Read)
    → is_webhook kind ≡ false
    → (not (is_incremental kind) || is_given last) ≡ true
    → ((t : ℕ) → last ≡ some t → IsRead t reads)
    → IsRead started_at
        (record { since = get_updated_since kind last started_at; until = started_at } ∷ reads)
unfolding get_updated_since
get_updated_since-IsRead full last started_at reads p k h sec low = ground arith
get_updated_since-IsRead webhook last started_at reads p k h sec low = cc
get_updated_since-IsRead incremental none started_at reads p k h sec low = cc
get_updated_since-IsRead incremental (some l) started_at reads p k h sec low =
    elim (Bool-cases (leb sec (l / 1000))) [
      | inl y ↦ let before = h l refl sec (ground arith) in ground arith
      | inr n ↦ ground arith
    ]

write-Kept :
    (w : World) (id : ℕ) (f : SyncJob → SyncJob) (rows : Rows)
    → IsSafe w
    → ((j : SyncJob) → (f j).kind ≡ j.kind)
    → rows.jobs ≡ update_job id f w.rows.jobs
    → rows.connection.last_full_sync_at ≡ w.rows.connection.last_full_sync_at
    → last_pull_of rows.connection ≡ last_pull_of w.rows.connection
    → Kept w.rows rows
write-Kept w id f rows s h e full_ pull_ = record {
  same_full = full_;
  same_pull = pull_;
  known = rw e (
      update_job-jobs_known (is_given (last_pull_of w.rows.connection)) id f w.rows.jobs h
        s.known_jobs);
}

-- Once there is a cursor, nothing about the jobs is asked.
given-jobs_known : (js : List SyncJob) → jobs_known true js ≡ true
given-jobs_known [] = refl
given-jobs_known (j ∷ js) = let later = given-jobs_known js in ground arith

given-snapshot_known :
    (given : Bool) (as_ : List Attempt)
    → all (λ a. snapshot_known given a) as_ ≡ true
    → all (λ a. snapshot_known true a) as_ ≡ true
given-snapshot_known given [] h = refl
given-snapshot_known given (a ∷ rest) h =
    let later = given-snapshot_known given rest (ground arith) in ground arith

begun-IsSafe :
    (w : World) (id now started_at : ℕ) (job : SyncJob)
    → IsSafe w
    → find_job id w.rows.jobs ≡ some job
    → IsSafe (record w {
      rows = start_job now job w.rows;
      attempts =
          record { job = job; connection = w.rows.connection; started_at = started_at }
          ∷ w.attempts;
    })
unfolding start_job
begun-IsSafe w id now started_at job s e =
    let moved = Kept-IsSafe w (start_job now job w.rows) s (
      write-Kept w job.id (λ j. started now j) (start_job now job w.rows) s (λ j. refl) refl refl
        refl) in
    let knowing =
      find_job-knows (is_given (last_pull_of w.rows.connection)) id w.rows.jobs job s.known_jobs
        e in
    let known_full = s.known_full in
    let known_attempts = s.known_attempts in
    record {
      cursor_read = moved.cursor_read;
      attempts_read = (s.cursor_read, s.attempts_read);
      known_jobs = moved.known_jobs;
      known_full = moved.known_full;
      known_attempts = ground arith;
    }

pulled-IsSafe :
    (w : World) (finished_at : ℕ) (a : Attempt)
    → IsSafe w
    → IsAmong a w.attempts
    → is_webhook a.job.kind ≡ false
    → IsSafe (record w { rows = finish_pull finished_at a w.rows; reads = read_of a ∷ w.reads })
unfolding finish_pull
pulled-IsSafe w finished_at a s m p =
    let known =
      all-among (λ b. snapshot_known (is_given (last_pull_of w.rows.connection)) b) a w.attempts
        s.known_attempts m in
    let read =
      get_updated_since-IsRead a.job.kind (last_pull_of a.connection) a.started_at w.reads p
        (ground arith) (All-among (IsReadBefore w.reads) a w.attempts s.attempts_read m) in
    record {
      cursor_read = λ t e. subst (λ k. IsRead k (read_of a ∷ w.reads)) (some_value e) read;
      attempts_read = attempts_read-more (read_of a) w.reads w.attempts s.attempts_read;
      known_jobs = given-jobs_known (finish_pull finished_at a w.rows).jobs;
      known_full = ground arith;
      known_attempts =
          given-snapshot_known (is_given (last_pull_of w.rows.connection)) w.attempts
            s.known_attempts;
    }

applied-IsSafe :
    (w : World) (has_groups : Bool) (finished_at : ℕ) (a : Attempt)
    → IsSafe w
    → IsAmong a w.attempts
    → IsSafe (record w { rows = finish_webhook has_groups finished_at a w.rows })
unfolding finish_webhook
applied-IsSafe w has_groups finished_at a s m =
    let known =
      all-among (λ b. snapshot_known (is_given (last_pull_of w.rows.connection)) b) a w.attempts
        s.known_attempts m in
    record {
      cursor_read = s.cursor_read;
      attempts_read = s.attempts_read;
      known_jobs =
          update_job-jobs_known (is_given (last_pull_of w.rows.connection)) a.job.id _ w.rows.jobs
            (λ j. refl) s.known_jobs;
      known_full = ground arith;
      known_attempts = s.known_attempts;
    }

Step-IsSafe : {b c : World} → Step b c → IsSafe b → IsSafe c
unfolding unfolded
Step-IsSafe (triggered {w = w} m locked pending kind id now) s =
    Kept-IsSafe w _ s (trigger-Kept m locked pending kind id now w s)
Step-IsSafe (enqueued {w = w} m locked kind id now) s =
    Kept-IsSafe w _ s (enqueue_pull_sync-Kept m locked kind id now w s)
Step-IsSafe (expired {w = w} m now) s =
    Kept-IsSafe w _ s (expire_stale_jobs-Kept m now w.rows s.known_jobs)
Step-IsSafe (begun {w = w} id now started_at job e) s = begun-IsSafe w id now started_at job s e
Step-IsSafe (beaten {w = w} id now step) s = Kept-IsSafe w (touch_job id now step w.rows) s (
    write-Kept w id (λ j. touched now step j) (touch_job id now step w.rows) s (λ j. refl) refl refl
      refl)
Step-IsSafe (pulled {w = w} finished_at a m p r) s = pulled-IsSafe w finished_at a s m p
Step-IsSafe (applied {w = w} has_groups finished_at a m) s =
    applied-IsSafe w has_groups finished_at a s m
Step-IsSafe (broken {w = w} now a) s = Kept-IsSafe w (fail_job now a w.rows) s (
    write-Kept w a.job.id (λ j. ended error now j) (fail_job now a w.rows) s (λ j. refl) refl refl
      refl)

-- Before the first synchronisation.
abbrev pub first_connection : SyncConnection
first_connection = record {
  status = active;
  last_full_sync_at = none;
  last_incremental_sync_at = none;
  last_pull_sync_at = none;
  last_webhook_applied_at = none;
}

abbrev pub first_world : World
first_world = record {
  rows = record { jobs = []; connection = first_connection };
  attempts = [];
  reads = [];
}

first-IsSafe : IsSafe first_world
first-IsSafe = record {
  cursor_read = λ t e. cc;
  attempts_read = tt;
  known_jobs = refl;
  known_full = refl;
  known_attempts = refl;
}

Reach-IsSafe : {w : World} → Reach first_world w → IsSafe w
Reach-IsSafe here = first-IsSafe
Reach-IsSafe (next r step) = Step-IsSafe step (Reach-IsSafe r)

-- Whatever jobs are requested, expire, start, overlap, fail and end, from a new connection on, every second up to
-- the cursor of the pulls lies between the lower bound and the start of a pull that ended without an error, if
-- each pull that ended so ran the stage of the deals.
pub Reach-reads :
    {w : World} (t sec : ℕ)
    → Reach first_world w
    → w.rows.connection.last_pull_sync_at ≡ some t
    → sec ≤ t / 1000
    → any (λ r. has_second sec r) w.reads ≡ true
Reach-reads {w = w} t sec reach e low =
    let pull : last_pull_of w.rows.connection ≡ some t = rw e refl in
    (Reach-IsSafe reach).cursor_read t pull sec low
