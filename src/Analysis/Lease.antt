-- ===== src/Analysis/Lease.antt =====
-- What a lease gives to the worker that claimed a job, and what it takes back.
use amocrm_analytics.Base.{
  ℕ, ◌+◌, ◌≤◌, ◌<◌, ◌≡◌, refl, Bool, true, false, ◌||◌, not, none, some, ltb, length, arith,
  if◌then◌else◌,
}
use amocrm_analytics.Analysis.{
  Identity, Entry, Outcome, Reading, lease_ms, is_running, recover_expired, claim, finish,
  is_leased_to, is_retryable, is_queued, same_identity, is_open, retry_transient_error,
}
use amocrm_analytics.Analysis.Sound.{IsSound}

-- What follows from a claim at `now`, for the row `e'` that it gives.
pub record IsLease (now : ℕ) (e e' : Entry) : Type 0 where
  pub runs : is_running e'.job.status ≡ true
  pub one_attempt : e'.job.attempt_count ≡ e.job.attempt_count + 1
  pub same_records : e'.attempts ≡ e.attempts

-- A row that is claimed at `now` runs with one attempt more; before its lease is over no recovery touches
-- it; once it is over, a recovery frees the key and leaves one record, and the attempt that was claimed
-- can no longer change anything.
pub claim-IsLease :
    (now later last : ℕ) (options : Identity) (other : Bool) (token : ℕ) (e e' : Entry)
    (outcome : Outcome) (reading : Reading)
    → claim now options other token e ≡ some e'
    → later < now + lease_ms
    → now + lease_ms ≤ last
    → IsLease now e e'
      × (recover_expired later e' ≡ e')
      × ((recover_expired last e').job.is_active ≡ false)
      × (length (recover_expired last e').attempts ≡ length e.attempts + 1)
      × (finish last e'.job outcome reading (recover_expired last e') ≡ recover_expired last e')
unfolding claim recover_expired finish is_leased_to
claim-IsLease now later last options other token e e' outcome reading h before after = ground arith

-- The attempt that was claimed ends before its lease is over: the key is free, the attempt has left one
-- record, and the job waits for another attempt exactly if the error is transient and may be tried again.
pub finish-claim :
    (now later : ℕ) (options : Identity) (other : Bool) (token : ℕ) (e e' : Entry)
    (outcome : Outcome) (reading : Reading)
    → claim now options other token e ≡ some e'
    → later < now + lease_ms
    → ((finish later e'.job outcome reading e').job.is_active ≡ false)
      × (length (finish later e'.job outcome reading e').attempts ≡ length e.attempts + 1)
      × (is_queued (finish later e'.job outcome reading e').job.status
          ≡ is_retryable e'.job outcome)
unfolding claim finish is_leased_to
finish-claim now later options other token e e' outcome reading h before = ground arith

claim_passes {ℓ} :
    {A : Type ℓ} (waits current left due : Bool) (x : A)
    → waits ≡ true
    → current ≡ true
    → left ≡ true
    → due ≡ true
    → (y : A) × ((if not waits || not current
          then none
          else if not left
          then none
          else if not due || false
          then none
          else some x)
        ≡ some y)
claim_passes waits current left due x h k l m = (x, rw (h, k, l, m) refl)

-- A sound row that waits, is of the current versions and is due is taken by the next claim, unless
-- another row holds the key: a job is never left waiting with its attempts used up.
pub claim-waiting :
    (now : ℕ) (options : Identity) (token : ℕ) (e : Entry)
    → IsSound e
    → is_queued e.job.status ≡ true
    → same_identity e.job.identity options ≡ true
    → is_open e.job.next_attempt_at now ≡ true
    → (e' : Entry) × (claim now options false token e ≡ some e')
unfolding claim
claim-waiting now options token e s waits current due =
    let left : ltb e.job.attempt_count e.job.attempt_limit ≡ true =
      let room = s.waiting in ground arith in
    claim_passes (is_queued e.job.status) _ _ (is_open e.job.next_attempt_at now) _ waits current
      left due

-- A retry that is granted gives the job three attempts more and lets it wait; the same key never grants
-- another one, and neither does any other key while the job waits.
pub retry_transient_error-once :
    (key other_key key_length trimmed_length : ℕ) (e : Entry)
    → (retry_transient_error key key_length trimmed_length e).0 ≡ true
    → (is_queued (retry_transient_error key key_length trimmed_length e).1.job.status ≡ true)
      × ((retry_transient_error key key_length trimmed_length e).1.job.attempt_limit
          ≡ e.job.attempt_count + 3)
      × (retry_transient_error other_key key_length trimmed_length
            (retry_transient_error key key_length trimmed_length e).1
          ≡ (false, (retry_transient_error key key_length trimmed_length e).1))
unfolding retry_transient_error
retry_transient_error-once key other_key key_length trimmed_length e granted = ground arith
