-- ===== src/Control/Runs.antt =====
-- The queue of the runs (`runAttempts`, `schedule`, `processQueue`, and the lease, the heartbeat and the
-- end of `executeRun` in apps/api/src/crm-control/crm-control.service.ts): what each statement does to the
-- row of a run. The updates are guarded by what was read, so a row that has changed since is left alone.
-- A run's remarks are their number, `day` is the civil day in the zone of its settings, and `version` the
-- version of the rules.
pub mod Changes
pub mod Sound
pub mod Lease
pub mod Polling
mod Tests
use amocrm_analytics.Base.{
  ℕ, suc, ◌+◌, max, Bool, true, false, ◌&&◌, ◌||◌, not, Option, none, some, List, [], ◌∷◌, ltb, leb,
  ◌==◌, any, if◌then◌else◌,
}
use amocrm_analytics.Control.Types.{RunStatus, queued, running, completed, partial, failed, Counts}
use amocrm_analytics.Control.Counts.{empty_control_counts}

abbrev pub max_attempts : ℕ
max_attempts = 3

abbrev pub expiry_ms : ℕ
expiry_ms = 1_800_000

-- `is_active` is `activeKey === 'global'`, and otherwise the key is null.
pub record Run : Type 0 where
  pub request_key : ℕ
  pub status : RunStatus
  pub is_active : Bool
  pub scheduled_for : ℕ
  pub started_at : Option ℕ
  pub heartbeat_at : Option ℕ
  pub finished_at : Option ℕ
  pub source_sync_at : Option ℕ
  pub rule_version : ℕ
  pub execution_attempts : Option ℕ
  pub counts : Counts
  pub issues : ℕ

abbrev pub is_queued : RunStatus → Bool
is_queued queued = true
is_queued _ = false

abbrev pub is_running : RunStatus → Bool
is_running running = true
is_running _ = false

abbrev pub is_given : Option ℕ → Bool
is_given none = false
is_given (some n) = true

abbrev or_else : Option ℕ → ℕ → Option ℕ
or_else none n = some n
or_else (some m) n = some m

abbrev same_option : Option ℕ → Option ℕ → Bool
same_option none none = true
same_option (some a) (some b) = a == b
same_option _ _ = false

-- The number that is stored, if it is a positive one.
abbrev attempts_of : (stored started_at : Option ℕ) → ℕ
attempts_of none started_at = if is_given started_at then 1 else 0
attempts_of (some n) started_at = if ltb 0 n then n else if is_given started_at then 1 else 0

unfoldable pub run_attempts : Run → ℕ
run_attempts run = attempts_of run.execution_attempts run.started_at

-- A run as `enqueue` and `schedule` create it.
unfoldable pub new_run : (request_key scheduled_for version : ℕ) → Run
new_run request_key scheduled_for version = record {
  request_key = request_key;
  status = queued;
  is_active = false;
  scheduled_for = scheduled_for;
  started_at = none;
  heartbeat_at = none;
  finished_at = none;
  source_sync_at = none;
  rule_version = version;
  execution_attempts = none;
  counts = empty_control_counts;
  issues = 0;
}

-- The `upsert` by the key of the request: the newest run is last.
unfoldable pub upsert_run : (request_key scheduled_for version : ℕ) → List Run → List Run
upsert_run request_key scheduled_for version [] = new_run request_key scheduled_for version ∷ []
upsert_run request_key scheduled_for version (r ∷ rs) =
    let rest = upsert_run request_key scheduled_for version rs in
    if r.request_key == request_key then r ∷ rs else r ∷ rest

-- `schedule`: `slot` is the key of the day of the daily check, if one is due.
unfoldable pub schedule : (slot : Option ℕ) (now version : ℕ) → List Run → List Run
schedule none now version runs = runs
schedule (some key) now version runs = upsert_run key now version runs

abbrev silent_since : (heartbeat_at started_at : Option ℕ) (now : ℕ) → Bool
silent_since (some t) started_at now = ltb (t + expiry_ms) now
silent_since none (some t) now = ltb (t + expiry_ms) now
silent_since none none now = false

unfoldable pub is_expired : (now : ℕ) → Run → Bool
is_expired now run =
    is_running run.status && (run.is_active && silent_since run.heartbeat_at run.started_at now)

module _ (day : ℕ → ℕ) (version now : ℕ) where
  -- What becomes of a run that has been silent for half an hour.
  unfoldable pub recover_run : Run → Run
  recover_run run =
      let resumable =
        ltb (run_attempts run) max_attempts
        && (run.rule_version == version && day run.scheduled_for == day now) in
      if is_expired now run
      then record run {
        status = if resumable then queued else failed;
        is_active = false;
        finished_at = if resumable then none else some now;
      }
      else run

  -- The run has been tried and may not be tried again.
  unfoldable pub is_spent : Run → Bool
  is_spent run =
      ltb 0 (run_attempts run)
      && (leb max_attempts (run_attempts run) || not (run.rule_version == version))

  unfoldable pub give_up : Run → Run
  give_up run =
      if is_queued run.status then record run { status = failed; finished_at = some now } else run

  abbrev next_start : Option ℕ → ℕ
  next_start none = max now 1
  next_start (some t) = max now (suc t)

  -- The claim: nothing if another run holds the unique key.
  unfoldable pub claim_run : (other_active : Bool) → Run → Option Run
  claim_run other_active run =
      if not (is_queued run.status) || other_active
      then none
      else some (record run {
        status = running;
        is_active = true;
        started_at = some (next_start run.started_at);
        heartbeat_at = some now;
        rule_version = version;
        source_sync_at = or_else run.source_sync_at (next_start run.started_at);
        execution_attempts = some (suc (run_attempts run));
      })

  -- The copy that the attempt is started with after the claim.
  unfoldable pub leased_copy : Run → Run
  leased_copy pending = record pending {
    started_at = some (next_start pending.started_at);
    source_sync_at = or_else pending.source_sync_at (next_start pending.started_at);
    rule_version = version;
    execution_attempts = some (suc (run_attempts pending));
  }

  -- The first run that waits, and what is done with it.
  abbrev take_up : (other_active : Bool) → Run → Run
  take_up other_active run =
      if is_spent run
      then give_up run
      else elim (claim_run other_active run) [ none ↦ run | some claimed ↦ claimed ]

  unfoldable pub start_first : List Run → List Run
  start_first [] = []
  start_first (r ∷ rs) =
      let rest = start_first rs in if is_queued r.status then take_up false r ∷ rs else r ∷ rest

  unfoldable pub recover_runs : List Run → List Run
  recover_runs [] = []
  recover_runs (r ∷ rs) = recover_run r ∷ recover_runs rs

  -- `processQueue` up to `executeRun`, on the rows in the order of their creation.
  unfoldable pub process_queue : List Run → List Run
  process_queue runs =
      let recovered = recover_runs runs in
      if any (λ r. r.is_active) recovered then recovered else start_first recovered

-- The guard of every statement of an attempt; `lease` is the copy that the attempt was started with.
unfoldable pub is_leased : (lease row : Run) → Bool
is_leased lease row =
    is_running row.status && (row.is_active && same_option row.started_at lease.started_at)

unfoldable pub heartbeat : (now : ℕ) → Counts → (issues : ℕ) → (lease row : Run) → Run
heartbeat now counts issues lease row =
    if is_leased lease row
    then record row {
      heartbeat_at = some now;
      counts = counts;
      issues = issues;
      execution_attempts = some (run_attempts lease);
    }
    else row

-- A run without deals has a remark more.
abbrev pub all_issues : Counts → ℕ → ℕ
all_issues counts issues = if counts.deals == 0 then suc issues else issues

unfoldable pub complete_run :
    (now source_started_at : ℕ) → Counts → (issues : ℕ) → (lease row : Run) → Run
complete_run now source_started_at counts issues lease row =
    if is_leased lease row
    then record row {
      status =
          if ltb 0 (all_issues counts issues) || (ltb 0 counts.unknown || ltb 0 counts.review)
          then partial
          else completed;
      counts = counts;
      issues = all_issues counts issues;
      is_active = false;
      source_sync_at = some source_started_at;
      finished_at = some now;
      heartbeat_at = some now;
      execution_attempts = some (run_attempts lease);
    }
    else row

-- The `catch` after `executeRun`; `transient` says whether the error may pass.
unfoldable pub fail_run : (day : ℕ → ℕ) (now : ℕ) (transient : Bool) (lease row : Run) → Run
fail_run day now transient lease row =
    let retry =
      transient && (ltb (run_attempts lease) max_attempts && day lease.scheduled_for == day now) in
    if is_leased lease row
    then record row {
      status = if retry then queued else failed;
      is_active = false;
      finished_at = if retry then none else some now;
    }
    else row
