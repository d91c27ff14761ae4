-- ===== src/Batch/Sound.antt =====
-- A batch is worked on by one lease at a time, is retried at most twice in a row, and ends.
use amocrm_analytics.Base.{ℕ, ◌≤◌, ◌≡◌, ◌⊎◌, Bool, true, false, Option, none, some, ◌==◌, arith}
use amocrm_analytics.Batch.{
  BatchStatus, completed, failed, Batch, is_running, release_expired, claim_batch, is_owned,
  renew_lease, finish_page, fail_page,
}

abbrev is_given : Option ℕ → Bool
is_given none = false
is_given (some n) = true

abbrev is_ended : BatchStatus → Bool
is_ended completed = true
is_ended failed = true
is_ended _ = false

-- The key, the token and the lease are there exactly while the batch runs, its end date exactly when
-- it has ended, and it has failed at most three times in a row, and fewer unless it has failed for good.
pub record IsSound (b : Batch) : Type 0 where
  pub active_iff : b.is_active ≡ is_running b.status
  pub token_iff : is_given b.lease_token ≡ is_running b.status
  pub lease_iff : is_given b.lease_until ≡ is_running b.status
  pub ended_iff : is_given b.finished_at ≡ is_ended b.status
  pub retries : b.retry_count ≤ 3
  pub tries_left : (b.status ≡ failed) ⊎ (b.retry_count ≤ 2)

-- One update of the batch. The count that a failed page reads is that of the claim, which no other
-- update changes while the lease lasts.
pub data Step : Batch → Batch → Type 0 where
  released : {b : Batch} (now : ℕ) → Step b (release_expired now b)
  claimed :
      {b c : Batch} (now : ℕ) (other_active : Bool) (token : ℕ)
      → claim_batch now other_active token b ≡ some c
      → Step b c
  renewed : {b : Batch} (now token : ℕ) → Step b (renew_lease now token b).1
  page_done :
      {b : Batch} (now token rows : ℕ) (last : Option ℕ) (queued_count deferred_count : ℕ)
      → Step b (finish_page now token rows last queued_count deferred_count b)
  page_failed : {b : Batch} (now token : ℕ) → Step b (fail_page now token b.retry_count b)

pub data Progress (start : Batch) : Batch → Type 0 where
  here : Progress start start
  next : {b c : Batch} → Progress start b → Step b c → Progress start c

Step-IsSound : {b c : Batch} → Step b c → IsSound b → IsSound c
unfolding release_expired claim_batch renew_lease finish_page fail_page is_owned
Step-IsSound (released now) s = ground arith
Step-IsSound (claimed now other token e) s = ground arith
Step-IsSound (renewed now token) s = ground arith
Step-IsSound (page_done now token rows last q d) s = ground arith
Step-IsSound (page_failed now token) s = ground arith

-- Through any sequence of updates from a sound batch: key, token and lease are there exactly while the
-- batch runs, the end date exactly when it has ended, and three failures in a row end it for good.
pub Progress-IsSound : {b c : Batch} → IsSound b → Progress b c → IsSound c
Progress-IsSound s here = s
Progress-IsSound s (next r step) = Step-IsSound step (Progress-IsSound s r)

-- Once the lease of a claim has been released and another worker has claimed the batch with another
-- token, the first worker can neither renew its lease nor end or fail its page.
pub release_expired-claim_batch :
    (now token other_token later rows retries queued_count deferred_count : ℕ) (last : Option ℕ)
    (b c : Batch)
    → (other_token == token) ≡ false
    → claim_batch now false other_token (release_expired now b) ≡ some c
    → (renew_lease later token c ≡ (false, c))
      × (finish_page later token rows last queued_count deferred_count c ≡ c)
      × (fail_page later token retries c ≡ c)
unfolding release_expired claim_batch renew_lease finish_page fail_page is_owned
release_expired-claim_batch now token other_token later rows retries q d last b c differ h =
    ground arith
