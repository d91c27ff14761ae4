-- ===== src/Batch/Tests.antt =====
-- A batch that fails once and loses its lease.
use amocrm_analytics.Base.{ℕ, ◌≡◌, refl, false, true, none, some, arith, inr}
use amocrm_analytics.Batch.{
  queued, running, Batch, release_expired, claim_batch, is_owned, renew_lease, finish_page,
  fail_page,
}
use amocrm_analytics.Batch.Sound.{IsSound}

abbrev waiting : Batch
waiting = record {
  status = queued;
  is_active = false;
  lease_token = none;
  lease_until = none;
  cursor = some 5;
  processed = 20;
  queued_results = 3;
  deferred_results = 1;
  retry_count = 0;
  next_attempt_at = none;
  finished_at = none;
}

abbrev held : ℕ → ℕ → Batch
held token until = record waiting {
  status = running;
  is_active = true;
  lease_token = some token;
  lease_until = some until;
}

batches : Unit {0}
unfolding release_expired claim_batch is_owned renew_lease finish_page fail_page
batches = tt

waiting-IsSound : IsSound waiting
waiting-IsSound = record {
  active_iff = refl;
  token_iff = refl;
  lease_iff = refl;
  ended_iff = refl;
  retries = omega arith;
  tries_left = inr (omega arith);
}

waiting_claimed : claim_batch 1_000 false 8 waiting ≡ some (held 8 121_000)
unfolding batches
waiting_claimed = refl

failed_test :
    fail_page 2_000 8 0 (held 8 121_000)
    ≡ record waiting { retry_count = 1; next_attempt_at = some 32_000 }
unfolding batches
failed_test = refl

held_released :
    claim_batch 200_000 false 9 (release_expired 200_000 (held 8 121_000)) ≡ some (held 9 320_000)
unfolding batches
held_released = refl
