-- ===== src/Control/Runs/Polling.antt =====
-- The queue goes on: who takes up the next run, and when.
use amocrm_analytics.Base.{
  ℕ, suc, ◌≡◌, refl, true, false, ◌&&◌, ◌||◌, not, none, some, List, [], ◌∷◌, ltb, leb, ◌==◌, any,
  All, arith, if◌then◌else◌, Bool-cases, inl, inr,
}
use amocrm_analytics.Control.Types.{running, failed}
use amocrm_analytics.Control.Runs.{
  Run, is_queued, run_attempts, is_expired, recover_run, is_spent, give_up, claim_run, start_first,
  recover_runs, process_queue,
}

-- Nobody holds the key, or whoever does has been silent for half an hour.
abbrev pub IsSilent : (now : ℕ) → Run → Type 0
IsSilent now r = r.is_active ≡ true → is_expired now r ≡ true

module _ (day : ℕ → ℕ) (version now : ℕ) where
  recover_run-idle : (r : Run) → IsSilent now r → (recover_run day version now r).is_active ≡ false
  unfolding recover_run
  recover_run-idle r h = ground arith

  recover_runs-idle :
      (rs : List Run)
      → All (IsSilent now) rs
      → any (λ r. r.is_active) (recover_runs day version now rs) ≡ false
  unfolding recover_runs
  recover_runs-idle [] h = refl
  recover_runs-idle (r ∷ rs) (first, rest) =
      rw (recover_run-idle r first) (recover_runs-idle rs rest)

  -- The rows before and after a run is taken up: those before it do not wait and all others are the same. It
  -- was never tried, or fewer than three times and by the same rules, and then it is tried once more now;
  -- otherwise it fails now.
  pub data IsTakenUp : List Run → List Run → Type 0 where
    passed :
        {r : Run} {rs rs' : List Run}
        → is_queued r.status ≡ false
        → IsTakenUp rs rs'
        → IsTakenUp (r ∷ rs) (r ∷ rs')
    begun :
        {r r' : Run} {rs : List Run}
        → is_queued r.status ≡ true
        → (ltb 0 (run_attempts r) && (leb 3 (run_attempts r) || not (r.rule_version == version)))
          ≡ false
        → r'.request_key ≡ r.request_key
        → r'.status ≡ running
        → r'.is_active ≡ true
        → r'.heartbeat_at ≡ some now
        → r'.rule_version ≡ version
        → run_attempts r' ≡ suc (run_attempts r)
        → IsTakenUp (r ∷ rs) (r' ∷ rs)
    stopped :
        {r r' : Run} {rs : List Run}
        → is_queued r.status ≡ true
        → (ltb 0 (run_attempts r) && (leb 3 (run_attempts r) || not (r.rule_version == version)))
          ≡ true
        → r'.request_key ≡ r.request_key
        → r'.status ≡ failed
        → r'.is_active ≡ r.is_active
        → r'.finished_at ≡ some now
        → run_attempts r' ≡ run_attempts r
        → IsTakenUp (r ∷ rs) (r' ∷ rs)

  take_up-IsTakenUp :
      (r : Run) (rs : List Run)
      → is_queued r.status ≡ true
      → IsTakenUp (r ∷ rs) (
          (if is_spent day version now r
            then give_up day version now r
            else elim (claim_run day version now false r) [ none ↦ r | some claimed ↦ claimed ])
          ∷ rs)
  unfolding give_up claim_run is_spent run_attempts
  take_up-IsTakenUp r rs h = elim (Bool-cases (is_spent day version now r)) [
    | inl spent ↦ rw (spent, h) (stopped h spent refl refl refl refl refl)
    | inr fresh ↦ rw (fresh, h) (begun h fresh refl refl refl refl refl (ground arith))
  ]

  start_first-IsTakenUp :
      (rs : List Run)
      → any (λ r. is_queued r.status) rs ≡ true
      → IsTakenUp rs (start_first day version now rs)
  unfolding start_first
  start_first-IsTakenUp [] h = cc
  start_first-IsTakenUp (r ∷ rs) h = elim (Bool-cases (is_queued r.status)) [
    | inl waits ↦ rw waits (take_up-IsTakenUp r rs waits)
    | inr other ↦ rw other (passed other (start_first-IsTakenUp rs (rw other at h)))
  ]

  -- While nobody holds the key, or whoever holds it has been silent for half an hour, and a run waits, each
  -- poll takes up the first run that waits and no other: it runs, holds the key and is tried once more, or
  -- it fails if it was tried before and that three times or by other rules.
  pub process_queue-takes :
      (rs : List Run)
      → All (IsSilent now) rs
      → any (λ r. is_queued r.status) (recover_runs day version now rs) ≡ true
      → IsTakenUp (recover_runs day version now rs) (process_queue day version now rs)
  unfolding process_queue
  process_queue-takes rs silent waits =
      rw (recover_runs-idle rs silent)
        (start_first-IsTakenUp (recover_runs day version now rs) waits)
