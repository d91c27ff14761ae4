-- ===== src/Control/Screenshots/Attempts.antt =====
-- How often a screenshot is tried, and that one that was taken stays.
use amocrm_analytics.Base.{
  ℕ, ◌≤◌, ◌≡◌, ◌∙◌, refl, ap, Bool, true, false, Option, none, some, arith, ◌⊎◌, Bool-cases, inl,
  inr,
}
use amocrm_analytics.Control.Screenshots.{
  Evidence, max_attempts, is_running, is_pending, is_ready, expire_evidence, is_waiting,
  claim_evidence, retry_at, Outcome, evidence_is_leased, finish_evidence, retry_evidence,
}

abbrev is_given : Option ℕ → Bool
is_given none = false
is_given (some n) = true

-- A row was tried at most three times since it was last asked for, a new one not yet, and one that runs
-- has a start.
pub record IsTried (e : Evidence) : Type 0 where
  pub few : e.attempts ≤ max_attempts
  pub fresh : is_pending e.status ≡ true → e.attempts ≡ 0
  pub started : is_running e.status ≡ true → is_given e.started_at ≡ true
  pub saved : is_ready e.status ≡ true → is_given e.storage_key ≡ true

-- What the statements of any process do to a row.
pub data Step : Evidence → Evidence → Type 0 where
  expired : {e : Evidence} (now : ℕ) → Step e (expire_evidence now e)
  claimed : {e e' : Evidence} (now : ℕ) → claim_evidence now e ≡ some e' → Step e e'
  finished :
      {e : Evidence} (now : ℕ) (outcome : Outcome) (lease : Evidence)
      → Step e (finish_evidence now outcome lease e)
  retried :
      {e e' : Evidence} (screenshots : Bool) → retry_evidence screenshots e ≡ some e' → Step e e'

pub data Reach (start : Evidence) : Evidence → Type 0 where
  here : Reach start start
  next : {d e : Evidence} → Reach start d → Step d e → Reach start e

unfolded : Unit {0}
unfolding expire_evidence is_waiting claim_evidence retry_at evidence_is_leased finish_evidence
    retry_evidence
unfolded = tt

Step-IsTried : {d e : Evidence} → Step d e → IsTried d → IsTried e
unfolding unfolded
Step-IsTried (expired {e = e} now) s = ground arith
Step-IsTried (claimed {e = e} {e' = e'} now h) s = ground arith
Step-IsTried (finished {e = e} now outcome lease) s = ground arith
Step-IsTried (retried {e = e} {e' = e'} screenshots h) s = ground arith

Step-ready : {d e : Evidence} → Step d e → is_ready d.status ≡ true → e ≡ d
unfolding unfolded
Step-ready (expired {e = e} now) h = ground arith
Step-ready (claimed {e = e} {e' = e'} now c) h = ground arith
Step-ready (finished {e = e} now outcome lease) h = ground arith
Step-ready (retried {e = e} {e' = e'} screenshots c) h = ground arith

Reach-IsTried : {d e : Evidence} → IsTried d → Reach d e → IsTried e
Reach-IsTried s here = s
Reach-IsTried s (next r step) = Step-IsTried step (Reach-IsTried s r)

Reach-same : {d e : Evidence} → is_ready d.status ≡ true → Reach d e → e ≡ d
Reach-same h here = refl
Reach-same {d} h (next {d = c} r step) =
    let same = Reach-same h r in Step-ready step (ap (λ x. is_ready x.status) same ∙ h) ∙ same

-- Through any attempts, expiries and retries, by any number of processes, from a sound row: a row is tried
-- at most three times for each time it is asked for, one that is READY has a file, and once it is READY it
-- is never changed again.
pub Reach-IsKept :
    {c d e : Evidence}
    → IsTried c
    → Reach c d
    → Reach d e
    → IsTried e × ((is_ready d.status ≡ false) ⊎ (e ≡ d))
Reach-IsKept {d = d} s r r' = (
  Reach-IsTried (Reach-IsTried s r) r',
  elim (Bool-cases (is_ready d.status)) [ inl y ↦ inr (Reach-same y r') | inr n ↦ inl n ],
)
