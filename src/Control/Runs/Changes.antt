-- ===== src/Control/Runs/Changes.antt =====
-- What a statement does to the row of one run, and what it keeps of it.
use amocrm_analytics.Base.{
  ℕ, ◌+◌, ◌≤◌, ◌≡◌, ◌∙◌, Bool, true, false, not, Option, none, some, List, [], ◌∷◌, All, arith,
  if◌then◌else◌,
}
use amocrm_analytics.Control.Types.{RunStatus, completed, partial, failed, Counts}
use amocrm_analytics.Control.Runs.{
  max_attempts, Run, is_queued, is_running, is_given, run_attempts, is_expired, recover_run,
  is_spent, give_up, claim_run, leased_copy, is_leased, heartbeat, complete_run, fail_run,
}

abbrev pub to_number : Bool → ℕ
to_number b = if b then 1 else 0

abbrev pub is_over : RunStatus → Bool
is_over completed = true
is_over partial = true
is_over failed = true
is_over _ = false

-- A run holds the unique key exactly while it runs, it was tried at most three times and fewer while it
-- waits, its attempts are recorded since its first start, and it has an end exactly when it is over.
pub record IsSound (r : Run) : Type 0 where
  pub active_iff : r.is_active ≡ is_running r.status
  pub waiting : run_attempts r + to_number (is_queued r.status) ≤ max_attempts
  pub recorded : r.execution_attempts ≡ none → r.started_at ≡ none
  pub started : is_running r.status ≡ true → is_given r.started_at ≡ true
  pub ended_iff : is_given r.finished_at ≡ is_over r.status

-- What a statement does to one row; `other_active` is the state of the unique key elsewhere. The copy that
-- an attempt was started with has the attempts of the row while the row is leased to it.
pub data Change (other_active : Bool) : Run → Run → Type 0 where
  recovered :
      {r : Run} (day : ℕ → ℕ) (version now : ℕ)
      → Change other_active r (recover_run day version now r)
  given_up :
      {r : Run} (day : ℕ → ℕ) (version now : ℕ)
      → is_spent day version now r ≡ true
      → Change other_active r (give_up day version now r)
  claimed :
      {r r' : Run} (day : ℕ → ℕ) (version now : ℕ)
      → is_spent day version now r ≡ false
      → claim_run day version now other_active r ≡ some r'
      → Change other_active r r'
  beaten :
      {r : Run} (now : ℕ) (counts : Counts) (issues : ℕ) (lease : Run)
      → (is_leased lease r ≡ true → run_attempts lease ≡ run_attempts r)
      → Change other_active r (heartbeat now counts issues lease r)
  ended :
      {r : Run} (now source_started_at : ℕ) (counts : Counts) (issues : ℕ) (lease : Run)
      → (is_leased lease r ≡ true → run_attempts lease ≡ run_attempts r)
      → Change other_active r (complete_run now source_started_at counts issues lease r)
  broken :
      {r : Run} (day : ℕ → ℕ) (now : ℕ) (transient : Bool) (lease : Run)
      → (is_leased lease r ≡ true → run_attempts lease ≡ run_attempts r)
      → Change other_active r (fail_run day now transient lease r)

unfolded : Unit {0}
unfolding recover_run is_expired run_attempts is_spent give_up claim_run is_leased heartbeat
    complete_run fail_run
unfolded = tt

pub Change-IsSound : {other : Bool} {r r' : Run} → Change other r r' → IsSound r → IsSound r'
unfolding unfolded
Change-IsSound (recovered {r = r} day version now) s = ground arith
Change-IsSound (given_up {r = r} day version now spent) s = ground arith
Change-IsSound (claimed {r = r} {r' = r'} day version now fresh e) s = ground arith
Change-IsSound (beaten {r = r} now counts issues lease same) s = ground arith
Change-IsSound (ended {r = r} now source counts issues lease same) s = ground arith
Change-IsSound (broken {r = r} day now transient lease same) s = ground arith

-- A row takes the key only while no other row holds it.
pub Change-active :
    {other : Bool} {r r' : Run}
    → Change other r r'
    → to_number r'.is_active ≤ to_number r.is_active + to_number (not other)
unfolding unfolded
Change-active (recovered {r = r} day version now) = ground arith
Change-active (given_up {r = r} day version now spent) = ground arith
Change-active {other = other} (claimed {r = r} {r' = r'} day version now fresh e) = ground arith
Change-active (beaten {r = r} now counts issues lease same) = ground arith
Change-active (ended {r = r} now source counts issues lease same) = ground arith
Change-active (broken {r = r} day now transient lease same) = ground arith

abbrev pub start_time : Option ℕ → ℕ
start_time none = 0
start_time (some t) = t

-- A statement starts the run later, or keeps its start and its attempts.
pub Change-kept :
    {other : Bool} {r r' : Run}
    → Change other r r'
    → IsSound r
    → (start_time r.started_at ≤ start_time r'.started_at)
      × (start_time r.started_at ≡ start_time r'.started_at → run_attempts r ≡ run_attempts r')
unfolding unfolded
Change-kept (recovered {r = r} day version now) s = ground arith
Change-kept (given_up {r = r} day version now spent) s = ground arith
Change-kept (claimed {r = r} {r' = r'} day version now fresh e) s = ground arith
Change-kept (beaten {r = r} now counts issues lease same) s = ground arith
Change-kept (ended {r = r} now source counts issues lease same) s = ground arith
Change-kept (broken {r = r} day now transient lease same) s = ground arith

-- A copy that an attempt on the row was started with: of the last start, or of an earlier one.
pub record IsLease (r lease : Run) : Type 0 where
  pub reached : start_time lease.started_at ≤ start_time r.started_at
  pub same :
      start_time lease.started_at ≡ start_time r.started_at → run_attempts lease ≡ run_attempts r

pub IsLease-attempts :
    {r lease : Run}
    → IsLease r lease
    → is_leased lease r ≡ true
    → run_attempts lease ≡ run_attempts r
unfolding is_leased
IsLease-attempts {r = r} {lease = lease} l h = l.same (ground arith)

IsLease-kept :
    {r r' l : Run}
    → start_time r.started_at ≤ start_time r'.started_at
    → (start_time r.started_at ≡ start_time r'.started_at → run_attempts r ≡ run_attempts r')
    → IsLease r l
    → IsLease r' l
IsLease-kept {r = r} {r' = r'} {l = l} later kept held =
    let reached = held.reached in
    record {
      reached = omega arith;
      same = λ e.
          let first : start_time l.started_at ≡ start_time r.started_at = omega arith in
          let second : start_time r.started_at ≡ start_time r'.started_at = omega arith in
          held.same first ∙ kept second;
    }

pub Change-IsLease :
    {other : Bool} {r r' : Run}
    → Change other r r'
    → IsSound r
    → (ls : List Run) → All (IsLease r) ls
    → All (IsLease r') ls
Change-IsLease change s [] h = tt
Change-IsLease change s (l ∷ ls) (held, rest) =
    let (later, kept) = Change-kept change s in
    (IsLease-kept later kept held, Change-IsLease change s ls rest)

pub claim_run-leased_copy :
    (other : Bool) (r r' : Run) (day : ℕ → ℕ) (version now : ℕ)
    → claim_run day version now other r ≡ some r'
    → IsLease r' (leased_copy day version now r)
unfolding claim_run leased_copy run_attempts
claim_run-leased_copy other r r' day version now e = record {
  reached = ground arith;
  same = λ h. ground arith;
}
