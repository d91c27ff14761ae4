-- ===== src/Control/Runs/Tests.antt =====
-- Two runs that are asked for, one that is started, lost and started again.
use amocrm_analytics.Base.{ℕ, ◌≡◌, refl, true, false, none, some, [], ◌∷◌, any, at_head}
use amocrm_analytics.Control.Types.{queued, running, completed, Counts}
use amocrm_analytics.Control.Counts.{empty_control_counts}
use amocrm_analytics.Control.Runs.{
  Run, is_queued, new_run, upsert_run, run_attempts, is_expired, recover_run, is_spent, give_up,
  claim_run, leased_copy, start_first, recover_runs, process_queue, is_leased, heartbeat,
  complete_run, fail_run, schedule,
}
use amocrm_analytics.Control.Runs.Sound.{
  Reach, here, next, requested, changed, claims, beats, IsRunQueue, Reach-IsRunQueue,
}
use amocrm_analytics.Control.Runs.Lease.{same_row, claim_run-fences}
use amocrm_analytics.Control.Runs.Polling.{IsTakenUp, process_queue-takes}

abbrev day_of : ℕ → ℕ
day_of t = 0

abbrev waiting : Run
waiting = record {
  request_key = 5;
  status = queued;
  is_active = false;
  scheduled_for = 100;
  started_at = none;
  heartbeat_at = none;
  finished_at = none;
  source_sync_at = none;
  rule_version = 7;
  execution_attempts = none;
  counts = empty_control_counts;
  issues = 0;
}

abbrev started : Run
started = record waiting {
  status = running;
  is_active = true;
  started_at = some 200;
  heartbeat_at = some 200;
  source_sync_at = some 200;
  execution_attempts = some 1;
}

-- The run again, after half an hour without a heartbeat and another claim.
abbrev again : Run
again = record waiting {
  status = queued;
  started_at = some 200;
  heartbeat_at = some 200;
  source_sync_at = some 200;
  execution_attempts = some 1;
}

abbrev started_again : Run
started_again = record started {
  started_at = some 1_900_000;
  heartbeat_at = some 1_900_000;
  execution_attempts = some 2;
}

abbrev checked_counts : Counts
checked_counts = record empty_control_counts { deals = 3; passed = 9; checked_deals = 3 }

abbrev done : Run
done = record started {
  status = completed;
  is_active = false;
  counts = checked_counts;
  source_sync_at = some 200;
  finished_at = some 900;
  heartbeat_at = some 900;
}

computed : Unit {0}
unfolding leased_copy new_run upsert_run run_attempts is_expired recover_run is_spent give_up
    claim_run start_first recover_runs process_queue is_leased complete_run schedule
computed = tt

asks : schedule (some 5) 100 7 [] ≡ waiting ∷ []
unfolding computed
asks = refl

asks_twice : schedule (some 5) 150 8 (waiting ∷ []) ≡ waiting ∷ []
unfolding computed
asks_twice = refl

starts : process_queue day_of 7 200 (waiting ∷ []) ≡ started ∷ []
unfolding computed
starts = refl

starts_again :
    process_queue day_of 7 1_900_000 (started ∷ waiting ∷ []) ≡ started_again ∷ waiting ∷ []
unfolding computed
starts_again = refl

ends : complete_run 900 200 checked_counts 0 started started ≡ done
unfolding computed
ends = refl

waiting-fresh : is_spent day_of 7 200 waiting ≡ false
unfolding computed
waiting-fresh = refl

waiting-claim : claim_run day_of 7 200 false waiting ≡ some started
unfolding computed
waiting-claim = refl

again-claim : claim_run day_of 7 1_900_000 false again ≡ some started_again
unfolding computed
again-claim = refl

one_waits : Reach [] (record { row = waiting; leases = [] } ∷ [])
unfolding computed
one_waits = next here (requested 5 100 7)

abbrev beaten_row : Run
beaten_row = record started { heartbeat_at = some 300; counts = checked_counts }

one_beats : heartbeat 300 checked_counts 0 (leased_copy day_of 7 200 waiting) started ≡ beaten_row
unfolding computed heartbeat
one_beats = refl

-- The heartbeat of an attempt, with the copy that it was started with.
Reach-IsRunQueue_example :
    IsRunQueue (heartbeat 300 checked_counts 0 (leased_copy day_of 7 200 waiting) started ∷ [])
Reach-IsRunQueue_example = Reach-IsRunQueue (
    next (next one_waits (changed [] [] (claims day_of 7 200 waiting-fresh waiting-claim)))
      (changed [] [] (beats 300 checked_counts 0 at_head)))

claim_run-fences_example :
    (heartbeat 950 checked_counts 0 started started_again ≡ started_again)
    × (complete_run 950 200 checked_counts 0 started started_again ≡ started_again)
    × (fail_run day_of 950 true started started_again ≡ started_again)
claim_run-fences_example =
    claim_run-fences day_of 7 1_900_000 false started again started_again started_again 950 200
      checked_counts 0 true refl again-claim same_row

started-leased : is_leased started started ≡ true
unfolding computed
started-leased = refl

waits_after_recovery :
    any (λ r. is_queued r.status) (recover_runs day_of 7 1_900_000 (started ∷ waiting ∷ [])) ≡ true
unfolding computed
waits_after_recovery = refl

started-IsSilent : is_expired 1_900_000 started ≡ true
unfolding computed
started-IsSilent = refl

process_queue-takes_example :
    IsTakenUp day_of 7 1_900_000
      (recover_runs day_of 7 1_900_000 (started ∷ waiting ∷ []))
      (process_queue day_of 7 1_900_000 (started ∷ waiting ∷ []))
process_queue-takes_example =
    process_queue-takes day_of 7 1_900_000 (started ∷ waiting ∷ [])
      ((λ h. started-IsSilent), ((λ h. cc), tt)) waits_after_recovery
