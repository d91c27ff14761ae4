-- ===== src/Batch.antt =====
-- The cursor of a backfill of the local analysis (`CrmControlAnalysisBatchService` of
-- apps/api/src/crm-control/crm-control-analysis-batch.service.ts): what its updates do to one batch. The
-- observations of a page are given by their number and the identifier of the last one, and what the
-- queue of the analysis does with a result by the counts of the queued and deferred ones.
pub mod Sound
mod Tests
use amocrm_analytics.Base.{
  ℕ, ◌+◌, ◌*◌, ◌^◌, Bool, true, false, ◌&&◌, ◌||◌, not, Option, none, some, ltb, leb, ◌==◌,
  if◌then◌else◌,
}

pub data BatchStatus : Type 0 where
  queued running completed failed : BatchStatus

pub record Batch : Type 0 where
  pub status : BatchStatus
  pub is_active : Bool
  pub lease_token : Option ℕ
  pub lease_until : Option ℕ
  pub cursor : Option ℕ
  pub processed : ℕ
  pub queued_results : ℕ
  pub deferred_results : ℕ
  pub retry_count : ℕ
  pub next_attempt_at : Option ℕ
  pub finished_at : Option ℕ

abbrev pub page_size : ℕ
page_size = 20

abbrev pub batch_lease_ms : ℕ
batch_lease_ms = 120_000

abbrev pub is_running : BatchStatus → Bool
is_running running = true
is_running _ = false

abbrev pub is_queued : BatchStatus → Bool
is_queued queued = true
is_queued _ = false

abbrev is_over : Option ℕ → ℕ → Bool
is_over none now = false
is_over (some t) now = leb t now

abbrev is_after : Option ℕ → ℕ → Bool
is_after none now = false
is_after (some t) now = ltb now t

abbrev is_open : Option ℕ → ℕ → Bool
is_open none now = true
is_open (some t) now = leb t now

abbrev has_token : Option ℕ → ℕ → Bool
has_token none token = false
has_token (some t) token = t == token

-- A batch whose lease is over waits again.
unfoldable pub release_expired : (now : ℕ) → Batch → Batch
release_expired now b =
    if is_running b.status && is_over b.lease_until now
    then record b { status = queued; is_active = false; lease_token = none; lease_until = none }
    else b

-- `other_active` says whether another batch holds the unique key.
unfoldable pub claim_batch : (now : ℕ) (other_active : Bool) (token : ℕ) → Batch → Option Batch
claim_batch now other_active token b =
    if not (is_queued b.status) || (not (is_open b.next_attempt_at now) || other_active)
    then none
    else some (record b {
      status = running;
      is_active = true;
      lease_token = some token;
      lease_until = some (now + batch_lease_ms);
    })

-- The update with the condition `{ ...lease, leaseUntil: { gt: now } }`.
unfoldable pub is_owned : (now token : ℕ) → Batch → Bool
is_owned now token b =
    is_running b.status
    && (b.is_active && (has_token b.lease_token token && is_after b.lease_until now))

unfoldable pub renew_lease : (now token : ℕ) → Batch → Bool × Batch
renew_lease now token b =
    if is_owned now token b
    then (true, record b { lease_until = some (now + batch_lease_ms) })
    else (false, b)

abbrev or_else : Option ℕ → Option ℕ → Option ℕ
or_else none b = b
or_else (some a) b = some a

-- The end of a page of `rows` observations, `last` the last of them.
unfoldable pub finish_page :
    (now token : ℕ) (rows : ℕ) (last : Option ℕ) (queued_count deferred_count : ℕ) → Batch → Batch
finish_page now token rows last queued_count deferred_count b =
    if is_owned now token b
    then record b {
      status = if ltb rows page_size then completed else queued;
      is_active = false;
      lease_token = none;
      lease_until = none;
      cursor = or_else last b.cursor;
      processed = b.processed + rows;
      queued_results = b.queued_results + queued_count;
      deferred_results = b.deferred_results + deferred_count;
      finished_at = if ltb rows page_size then some now else none;
      retry_count = 0;
      next_attempt_at = none;
    }
    else b

-- The end of a page that failed; `retries` is the count of the batch as it was claimed.
unfoldable pub fail_page : (now token retries : ℕ) → Batch → Batch
fail_page now token retries b =
    let retry = ltb retries 2 in
    if is_owned now token b
    then record b {
      status = if retry then queued else failed;
      is_active = false;
      lease_token = none;
      lease_until = none;
      retry_count = b.retry_count + 1;
      next_attempt_at = if retry then some (now + 30_000 * 2 ^ retries) else none;
      finished_at = if retry then none else some now;
    }
    else b
