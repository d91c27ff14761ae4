-- ===== src/Analysis/Sound.antt =====
-- What holds of every job of the queue, and that at most one is leased.
use amocrm_analytics.Base.{
  ℕ, ◌+◌, ◌≤◌, ◌≡◌, Bool, true, false, not, Option, none, some, List, [], ◌∷◌, ◌++◌, ltb, length,
  All, arith, if◌then◌else◌,
}
use amocrm_analytics.Analysis.{
  JobStatus, attempts_per_request, Identity, Job, Entry, Outcome, Reading, is_queued, is_running,
  retry_transient_error, recover_expired, retire_outdated_queued, claim, finish, is_leased_to,
  is_retryable,
}

abbrev pub to_number : Bool → ℕ
to_number b = if b then 1 else 0

abbrev pub is_given : Option ℕ → Bool
is_given none = false
is_given (some n) = true

-- A job holds the unique key, a token and a lease exactly while it runs; it has no more attempts than it
-- may have, and fewer while it waits; and each attempt but the one that runs has left one record.
pub record IsSound (e : Entry) : Type 0 where
  pub active_iff : e.job.is_active ≡ is_running e.job.status
  pub token_iff : is_given e.job.lease_token ≡ is_running e.job.status
  pub lease_iff : is_given e.job.lease_until ≡ is_running e.job.status
  pub within : e.job.attempt_count ≤ e.job.attempt_limit
  pub waiting : e.job.attempt_count + to_number (is_queued e.job.status) ≤ e.job.attempt_limit
  pub recorded : length e.attempts + to_number (is_running e.job.status) ≡ e.job.attempt_count

-- What a transaction does to one row; `other_active` is the state of the unique key elsewhere. The copy
-- that an attempt was claimed with has the limit of the row while the row has the token of that copy,
-- since a claim draws a new token and nothing else changes the limit of a leased row.
pub data Change (other_active : Bool) : Entry → Entry → Type 0 where
  retried :
      {e : Entry} (key key_length trimmed_length : ℕ)
      → Change other_active e (retry_transient_error key key_length trimmed_length e).1
  expired : {e : Entry} (now : ℕ) → Change other_active e (recover_expired now e)
  retired :
      {e : Entry} (now : ℕ) (options : Identity)
      → Change other_active e (retire_outdated_queued now options e)
  claimed :
      {e e' : Entry} (now : ℕ) (options : Identity) (token : ℕ)
      → claim now options other_active token e ≡ some e'
      → Change other_active e e'
  finished :
      {e : Entry} (now : ℕ) (job : Job) (outcome : Outcome) (reading : Reading)
      → (is_leased_to job now e.job ≡ true → job.attempt_limit ≡ e.job.attempt_limit)
      → Change other_active e (finish now job outcome reading e)

retried-IsSound :
    (key key_length trimmed_length : ℕ) (e : Entry)
    → IsSound e
    → IsSound (retry_transient_error key key_length trimmed_length e).1
unfolding retry_transient_error
retried-IsSound key key_length trimmed_length e s = ground arith

expired-IsSound : (now : ℕ) (e : Entry) → IsSound e → IsSound (recover_expired now e)
unfolding recover_expired
expired-IsSound now e s = ground arith

retired-IsSound :
    (now : ℕ) (options : Identity) (e : Entry)
    → IsSound e
    → IsSound (retire_outdated_queued now options e)
unfolding retire_outdated_queued
retired-IsSound now options e s = ground arith

claimed-IsSound :
    (now : ℕ) (options : Identity) (other : Bool) (token : ℕ) (e e' : Entry)
    → IsSound e
    → claim now options other token e ≡ some e'
    → IsSound e'
unfolding claim
claimed-IsSound now options other token e e' s h = ground arith

finished-IsSound :
    (now : ℕ) (job : Job) (outcome : Outcome) (reading : Reading) (e : Entry)
    → (is_leased_to job now e.job ≡ true → job.attempt_limit ≡ e.job.attempt_limit)
    → IsSound e
    → IsSound (finish now job outcome reading e)
unfolding finish is_leased_to is_retryable
finished-IsSound now job outcome reading e limit s = ground arith

-- The rows that hold the unique key.
abbrev pub active_count : List Entry → ℕ
active_count [] = 0
active_count (e ∷ es) = to_number e.job.is_active + active_count es

active_count-append :
    (xs ys : List Entry) → active_count (xs ++ ys) ≡ active_count xs + active_count ys
active_count-append [] ys = omega arith
active_count-append (x ∷ xs) ys = omega (arith, active_count-append xs ys)

Change-IsSound : {other : Bool} {e e' : Entry} → Change other e e' → IsSound e → IsSound e'
Change-IsSound (retried {e = e} key n m) s = retried-IsSound key n m e s
Change-IsSound (expired {e = e} now) s = expired-IsSound now e s
Change-IsSound (retired {e = e} now options) s = retired-IsSound now options e s
Change-IsSound {other = other} (claimed {e = e} {e' = e'} now options token h) s =
    claimed-IsSound now options other token e e' s h
Change-IsSound (finished {e = e} now job outcome reading limit) s =
    finished-IsSound now job outcome reading e limit s

-- A row takes the key only while no other row holds it.
Change-active :
    {other : Bool} {e e' : Entry}
    → Change other e e'
    → to_number e'.job.is_active ≤ to_number e.job.is_active + to_number (not other)
unfolding retry_transient_error recover_expired retire_outdated_queued claim finish
Change-active (retried {e = e} key n m) = ground arith
Change-active (expired {e = e} now) = ground arith
Change-active (retired {e = e} now options) = ground arith
Change-active {other = other} (claimed {e = e} {e' = e'} now options token h) = ground arith
Change-active (finished {e = e} now job outcome reading limit) = ground arith

-- A job as it is added to the queue.
abbrev pub IsNew : Entry → Type 0
IsNew e =
    (e.job.status ≡ JobStatus.queued)
    × (e.job.is_active ≡ false)
    × (e.job.lease_token ≡ none)
    × (e.job.lease_until ≡ none)
    × (e.job.attempt_count ≡ 0)
    × (e.job.attempt_limit ≡ attempts_per_request)
    × (e.attempts ≡ [])

IsNew-IsSound : (e : Entry) → IsNew e → IsSound e
IsNew-IsSound e (status, active, token, lease, count, limit, records) = ground arith

-- One transaction on the queue, or a job that is added; the unique key is that of the whole table.
pub data Step : List Entry → List Entry → Type 0 where
  changed :
      (before after : List Entry) {e e' : Entry}
      → Change (ltb 0 (active_count before + active_count after)) e e'
      → Step (before ++ e ∷ after) (before ++ e' ∷ after)
  added : {es : List Entry} (e : Entry) → IsNew e → Step es (e ∷ es)

pub data Reach (start : List Entry) : List Entry → Type 0 where
  here : Reach start start
  next : {b c : List Entry} → Reach start b → Step b c → Reach start c

All-append :
    (P : Entry → Type 0) (xs : List Entry) (y : Entry) (ys : List Entry)
    → All P (xs ++ y ∷ ys)
    → (z : Entry) → (P y → P z)
    → All P (xs ++ z ∷ ys)
All-append P [] y ys (first, rest) z f = (f first, rest)
All-append P (x ∷ xs) y ys (first, rest) z f = (first, All-append P xs y ys rest z f)

-- Every row is sound and at most one holds the key.
abbrev pub IsQueue : List Entry → Type 0
IsQueue es = All IsSound es × (active_count es ≤ 1)

Step-IsQueue : {b c : List Entry} → Step b c → IsQueue b → IsQueue c
Step-IsQueue (changed before after {e = e} {e' = e'} change) (sound, one) =
    let was = active_count-append before (e ∷ after) in
    let is = active_count-append before (e' ∷ after) in
    let takes = Change-active change in
    (All-append IsSound before e after sound e' (Change-IsSound change), ground arith)
Step-IsQueue (added e new) (sound, one) =
    ((IsNew-IsSound e new, sound), rw (new.1) (omega (arith, one)))

-- Through any sequence of retries, recoveries, retirements, claims and ends of attempts, in any order and
-- by any number of workers, from an empty queue: at most one job is leased; a job holds the key, a token
-- and a lease exactly while it runs; it has used no more attempts than it was granted, and fewer while
-- it waits; and each attempt that is over has left exactly one record.
pub Reach-IsQueue : {es : List Entry} → Reach [] es → IsQueue es
Reach-IsQueue here = (tt, omega arith)
Reach-IsQueue (next r step) = Step-IsQueue step (Reach-IsQueue r)
