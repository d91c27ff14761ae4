-- ===== src/Control/Runs/Sound.antt =====
-- What holds of every run of the queue, and that at most one runs.
use amocrm_analytics.Base.{
  ℕ, ◌+◌, ◌≤◌, ◌≡◌, refl, Bool, true, false, some, List, [], ◌∷◌, ◌++◌, ltb, ◌==◌, All, IsAmong,
  All-IsAmong, arith, Bool-cases, inl, inr,
}
use amocrm_analytics.Control.Types.{Counts}
use amocrm_analytics.Control.Runs.{
  Run, run_attempts, new_run, upsert_run, recover_run, is_spent, give_up, claim_run, leased_copy,
  heartbeat, complete_run, fail_run,
}
use amocrm_analytics.Control.Runs.Changes.{
  to_number, IsSound, Change, recovered, given_up, claimed, beaten, ended, broken, Change-IsSound,
  Change-active, IsLease, IsLease-attempts, Change-IsLease, claim_run-leased_copy,
}

-- The rows that hold the unique key.
abbrev pub active_count : List Run → ℕ
active_count [] = 0
active_count (r ∷ rs) = to_number r.is_active + active_count rs

-- The row of a run, with the copies that its attempts were started with.
pub record Slot : Type 0 where
  pub row : Run
  pub leases : List Run

abbrev pub rows_of : List Slot → List Run
rows_of [] = []
rows_of (s ∷ ss) = s.row ∷ rows_of ss

-- The slots with other rows; a row that is new has no attempt.
abbrev pub with_rows : List Run → List Slot → List Slot
with_rows [] ss = []
with_rows (r ∷ rs) [] = record { row = r; leases = [] } ∷ with_rows rs []
with_rows (r ∷ rs) (s ∷ ss) = record { row = r; leases = s.leases } ∷ with_rows rs ss

-- A statement of a poll, or of an attempt, which uses the copy that it was started with.
pub data Move (other_active : Bool) : Slot → Slot → Type 0 where
  recovers :
      {r : Run} {ls : List Run} (day : ℕ → ℕ) (version now : ℕ)
      → Move other_active
          (record { row = r; leases = ls })
          (record { row = recover_run day version now r; leases = ls })
  gives_up :
      {r : Run} {ls : List Run} (day : ℕ → ℕ) (version now : ℕ)
      → is_spent day version now r ≡ true
      → Move other_active
          (record { row = r; leases = ls })
          (record { row = give_up day version now r; leases = ls })
  claims :
      {r r' : Run} {ls : List Run} (day : ℕ → ℕ) (version now : ℕ)
      → is_spent day version now r ≡ false
      → claim_run day version now other_active r ≡ some r'
      → Move other_active
          (record { row = r; leases = ls })
          (record { row = r'; leases = leased_copy day version now r ∷ ls })
  beats :
      {r : Run} {ls : List Run} (now : ℕ) (counts : Counts) (issues : ℕ) {lease : Run}
      → IsAmong lease ls
      → Move other_active
          (record { row = r; leases = ls })
          (record { row = heartbeat now counts issues lease r; leases = ls })
  ends :
      {r : Run} {ls : List Run} (now source_started_at : ℕ) (counts : Counts) (issues : ℕ)
      {lease : Run}
      → IsAmong lease ls
      → Move other_active
          (record { row = r; leases = ls })
          (record { row = complete_run now source_started_at counts issues lease r; leases = ls })
  breaks :
      {r : Run} {ls : List Run} (day : ℕ → ℕ) (now : ℕ) (transient : Bool) {lease : Run}
      → IsAmong lease ls
      → Move other_active
          (record { row = r; leases = ls })
          (record { row = fail_run day now transient lease r; leases = ls })

-- The run is sound, and the copies of its attempts are up to date or of an earlier start.
abbrev IsHeld : Slot → Type 0
IsHeld s = IsSound s.row × All (IsLease s.row) s.leases

leased : {r lease : Run} {ls : List Run} → All (IsLease r) ls → IsAmong lease ls → IsLease r lease
leased {r = r} held among = All-IsAmong (IsLease r) among held

Move-Change : {other : Bool} {s s' : Slot} → Move other s s' → IsHeld s → Change other s.row s'.row
Move-Change (recovers day version now) (sound, held) = recovered day version now
Move-Change (gives_up day version now spent) (sound, held) = given_up day version now spent
Move-Change (claims day version now fresh e) (sound, held) = claimed day version now fresh e
Move-Change (beats now counts issues {lease = lease} among) (sound, held) =
    beaten now counts issues lease (λ h. IsLease-attempts (leased held among) h)
Move-Change (ends now source counts issues {lease = lease} among) (sound, held) =
    ended now source counts issues lease (λ h. IsLease-attempts (leased held among) h)
Move-Change (breaks day now transient {lease = lease} among) (sound, held) =
    broken day now transient lease (λ h. IsLease-attempts (leased held among) h)

Move-IsLease :
    {other : Bool} {s s' : Slot}
    → Move other s s'
    → IsHeld s
    → Change other s.row s'.row
    → All (IsLease s'.row) s'.leases
Move-IsLease (recovers {ls = ls} day version now) (sound, held) c = Change-IsLease c sound ls held
Move-IsLease (gives_up {ls = ls} day version now spent) (sound, held) c =
    Change-IsLease c sound ls held
Move-IsLease (claims {ls = ls} day version now fresh e) (sound, held) c =
    (claim_run-leased_copy _ _ _ day version now e, Change-IsLease c sound ls held)
Move-IsLease (beats {ls = ls} now counts issues among) (sound, held) c =
    Change-IsLease c sound ls held
Move-IsLease (ends {ls = ls} now source counts issues among) (sound, held) c =
    Change-IsLease c sound ls held
Move-IsLease (breaks {ls = ls} day now transient among) (sound, held) c =
    Change-IsLease c sound ls held

-- One statement of a process, or a request for a run; the unique key is that of the whole table.
pub data Step : List Slot → List Slot → Type 0 where
  changed :
      (before after : List Slot) {s s' : Slot}
      → Move (ltb 0 (active_count (rows_of before) + active_count (rows_of after))) s s'
      → Step (before ++ s ∷ after) (before ++ s' ∷ after)
  requested :
      {ss : List Slot} (request_key scheduled_for version : ℕ)
      → Step ss (with_rows (upsert_run request_key scheduled_for version (rows_of ss)) ss)

pub data Reach (start : List Slot) : List Slot → Type 0 where
  here : Reach start start
  next : {b c : List Slot} → Reach start b → Step b c → Reach start c

All-append :
    (P : Slot → Type 0) (xs : List Slot) (y : Slot) (ys : List Slot)
    → All P (xs ++ y ∷ ys)
    → (z : Slot) → (P y → P z)
    → All P (xs ++ z ∷ ys)
All-append P [] y ys (first, rest) z f = (f first, rest)
All-append P (x ∷ xs) y ys (first, rest) z f = (first, All-append P xs y ys rest z f)

All-within :
    (P : Slot → Type 0) (xs : List Slot) (y : Slot) (ys : List Slot) → All P (xs ++ y ∷ ys) → P y
All-within P [] y ys (first, rest) = first
All-within P (x ∷ xs) y ys (first, rest) = All-within P xs y ys rest

new_run-IsSound : (key scheduled_for version : ℕ) → IsSound (new_run key scheduled_for version)
unfolding new_run run_attempts
new_run-IsSound key scheduled_for version = record {
  active_iff = refl;
  waiting = omega arith;
  recorded = λ h. refl;
  started = λ h. cc;
  ended_iff = refl;
}

-- Every run is sound and at most one holds the key.
abbrev pub IsRunQueue : List Run → Type 0
IsRunQueue rs = All IsSound rs × (active_count rs ≤ 1)

rows_of-append :
    (xs ys : List Slot)
    → active_count (rows_of (xs ++ ys)) ≡ active_count (rows_of xs) + active_count (rows_of ys)
rows_of-append [] ys = omega arith
rows_of-append (x ∷ xs) ys = omega (arith, rows_of-append xs ys)

with_rows-same : (ss : List Slot) → with_rows (rows_of ss) ss ≡ ss
with_rows-same [] = refl
with_rows-same (s ∷ ss) = rw (with_rows-same ss) refl

upsert_run-IsHeld :
    (key scheduled_for version : ℕ) (ss : List Slot)
    → All IsHeld ss
    → All IsHeld (with_rows (upsert_run key scheduled_for version (rows_of ss)) ss)
      × (active_count (rows_of (with_rows (upsert_run key scheduled_for version (rows_of ss)) ss))
          ≡ active_count (rows_of ss))
unfolding upsert_run new_run
upsert_run-IsHeld key scheduled_for version [] h =
    (((new_run-IsSound key scheduled_for version, tt), tt), omega arith)
upsert_run-IsHeld key scheduled_for version (s ∷ ss) (first, rest) =
    let (held, count) = upsert_run-IsHeld key scheduled_for version ss rest in
    elim (Bool-cases (s.row.request_key == key)) [
      | inl old ↦ rw old (rw (with_rows-same ss) ((first, rest), refl))
      | inr other ↦ rw other ((first, held), omega arith)
    ]

Step-IsHeld :
    {b c : List Slot}
    → Step b c
    → All IsHeld b × (active_count (rows_of b) ≤ 1)
    → All IsHeld c × (active_count (rows_of c) ≤ 1)
Step-IsHeld (changed before after {s = s} {s' = s'} move) (held, one) =
    let was = rows_of-append before (s ∷ after) in
    let is = rows_of-append before (s' ∷ after) in
    let own = All-within IsHeld before s after held in
    let change = Move-Change move own in
    let takes = Change-active change in
    (
      All-append IsHeld before s after held s'
          (λ h. (Change-IsSound change h.0, Move-IsLease move h change)),
      ground arith,
    )
Step-IsHeld (requested {ss = ss} key scheduled_for version) (held, one) =
    let (later, count) = upsert_run-IsHeld key scheduled_for version ss held in (later, omega arith)

Reach-IsHeld : {ss : List Slot} → Reach [] ss → All IsHeld ss × (active_count (rows_of ss) ≤ 1)
Reach-IsHeld here = (tt, omega arith)
Reach-IsHeld (next r step) = Step-IsHeld step (Reach-IsHeld r)

rows_of-IsSound : (ss : List Slot) → All IsHeld ss → All IsSound (rows_of ss)
rows_of-IsSound [] h = tt
rows_of-IsSound (s ∷ ss) (first, rest) = (first.0, rows_of-IsSound ss rest)

-- Through any sequence of requests, recoveries, claims, heartbeats and ends of runs, in any order and by
-- any number of processes, also those that have lost their run, from an empty table: at most one run holds
-- the key, a run holds it exactly while it is RUNNING, no run is tried more than three times, one that waits
-- was tried at most twice, and a run has an end exactly when it is over.
pub Reach-IsRunQueue : {ss : List Slot} → Reach [] ss → IsRunQueue (rows_of ss)
Reach-IsRunQueue {ss = ss} r = let (held, one) = Reach-IsHeld r in (rows_of-IsSound ss held, one)
