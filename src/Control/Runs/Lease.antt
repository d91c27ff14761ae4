-- ===== src/Control/Runs/Lease.antt =====
-- What a process that lost its run can do, when a run counts as checked, and that the queue goes on.
use amocrm_analytics.Base.{
  ℕ, ◌≤◌, ◌<◌, ◌≡◌, refl, Bool, true, false, Option, none, some, arith, ◌↔◌,
}
use amocrm_analytics.Control.Types.{completed, Counts}
use amocrm_analytics.Control.Counts.{control_completion, completion_reasons}
use amocrm_analytics.Control.Runs.{
  Run, run_attempts, is_expired, recover_run, is_spent, give_up, claim_run, is_leased, heartbeat,
  complete_run, fail_run,
}
use amocrm_analytics.Control.Runs.Changes.{
  Change, recovered, given_up, claimed, beaten, ended, broken,
}

abbrev time_of : Option ℕ → ℕ
time_of none = 0
time_of (some t) = t

unfolded : Unit {0}
unfolding recover_run is_expired run_attempts is_spent give_up claim_run is_leased heartbeat
    complete_run fail_run
unfolded = tt

Change-started :
    {other : Bool} {r r' : Run} → Change other r r' → time_of r.started_at ≤ time_of r'.started_at
unfolding unfolded
Change-started (recovered {r = r} day version now) = ground arith
Change-started (given_up {r = r} day version now spent) = ground arith
Change-started (claimed {r = r} {r' = r'} day version now fresh e) = ground arith
Change-started (beaten {r = r} now counts issues lease same) = ground arith
Change-started (ended {r = r} now source counts issues lease same) = ground arith
Change-started (broken {r = r} day now transient lease same) = ground arith

-- What any number of statements do to one row.
pub data Changes (r : Run) : Run → Type 0 where
  same_row : Changes r r
  then_change : {s t : Run} (other : Bool) → Changes r s → Change other s t → Changes r t

Changes-started : {r s : Run} → Changes r s → time_of r.started_at ≤ time_of s.started_at
Changes-started same_row = omega arith
Changes-started (then_change other before change) =
    omega (arith, Changes-started before, Change-started change)

claim_run-later :
    (day : ℕ → ℕ) (version now : ℕ) (other : Bool) (r r' : Run)
    → claim_run day version now other r ≡ some r'
    → time_of r.started_at < time_of r'.started_at
unfolding claim_run
claim_run-later day version now other r r' e = ground arith

is_leased-later :
    (lease row : Run)
    → time_of lease.started_at < time_of row.started_at
    → is_leased lease row ≡ false
unfolding is_leased
is_leased-later lease row h = ground arith

-- The lease of an attempt ends with the next claim of its run: from then on, through any statements on
-- the row, a heartbeat, an end or an error of the earlier attempt changes nothing.
pub claim_run-fences :
    (day : ℕ → ℕ) (version claimed_at : ℕ) (other : Bool) (lease row claimed_row later : Run)
    (now source_started_at : ℕ) (counts : Counts) (issues : ℕ) (transient : Bool)
    → lease.started_at ≡ row.started_at
    → claim_run day version claimed_at other row ≡ some claimed_row
    → Changes claimed_row later
    → (heartbeat now counts issues lease later ≡ later)
      × (complete_run now source_started_at counts issues lease later ≡ later)
      × (fail_run day now transient lease later ≡ later)
unfolding heartbeat complete_run fail_run
claim_run-fences day version claimed_at other lease row claimed_row later now source_started_at
      counts issues transient same e changes =
    let newer = claim_run-later day version claimed_at other row claimed_row e in
    let kept = Changes-started changes in
    let first : time_of lease.started_at < time_of later.started_at = ground arith in
    let lost = is_leased-later lease later first in (rw lost refl, rw lost refl, rw lost refl)

-- A run that ends counts as checked exactly if it is COMPLETED and every deal of it was checked.
pub complete_run-checked_iff :
    (now source_started_at : ℕ) (counts : Counts) (issues : ℕ) (lease row ended_row : Run)
    → is_leased lease row ≡ true
    → complete_run now source_started_at counts issues lease row ≡ ended_row
    → ((control_completion ended_row.status ended_row.counts ended_row.issues).checked ≡ true)
      ↔ ((ended_row.status ≡ completed) × (counts.deals ≤ counts.checked_deals))
unfolding complete_run control_completion completion_reasons
complete_run-checked_iff now source_started_at counts issues lease row ended_row leased e =
    ground arith
