-- ===== src/Sync/Windows/Tests.antt =====
-- Runs of the reading of events: two streams over a day and a second, a window that is halved, a resumed one.
use amocrm_analytics.Base.{ℕ, ◌-◌, ◌≡◌, refl, none, some, ltb, arith, if◌then◌else◌}
use amocrm_analytics.Sync.Windows.{
  Answer, fetched, too_many, done, raised, out_of_fuel, day_windows, event_time_windows,
  events_step, event_resume_position, ingest_window, ingest_windows, ingest, ingest_streams,
  sync_events,
}
use amocrm_analytics.Sync.Windows.Covered.{covering}
use amocrm_analytics.Sync.Windows.Resumed.{is_asked, sync_events-covering}

-- Windows of more than 30000 seconds are too large.
abbrev answer : (stream from to : ℕ) → Answer
answer stream from to = if ltb 30_000 (to - from) then too_many else fetched

abbrev always_large : (stream from to : ℕ) → Answer
always_large stream from to = too_many

abbrev open_answer : (stream from : ℕ) → Answer
open_answer stream from = too_many

computed : Unit {0}
unfolding day_windows event_time_windows event_resume_position ingest_window ingest_windows ingest
    ingest_streams sync_events
computed = tt

two_streams : (sync_events answer open_answer 1 (some 1000) 87_400 none).ending ≡ done
unfolding computed
two_streams = refl

-- A second of the second stream is read once, and one after the end never.
read_once :
    covering 1 87_400 ((sync_events answer open_answer 1 (some 1000) 87_400 none).windows) ≡ 1
unfolding computed
read_once = refl

not_read :
    covering 1 87_401 ((sync_events answer open_answer 1 (some 1000) 87_400 none).windows) ≡ 0
unfolding computed
not_read = refl

one_second_is_an_error :
    (sync_events always_large open_answer 1 (some 1000) 87_400 none).ending ≡ raised
unfolding computed
one_second_is_an_error = refl

-- A start in the future is one window without an end, which is never read if it is too large.
future_start : (sync_events answer open_answer 1 (some 2000) 1000 none).ending ≡ out_of_fuel
unfolding computed
future_start = refl

resumed_is_done :
    (sync_events answer open_answer 1 (some 1000) 87_400 (some (events_step 1 50_000 3))).ending
    ≡ done
unfolding computed
resumed_is_done = refl

sync_events-covering_example :
    covering 1 60_000 (
      (sync_events answer open_answer 1 (some 1000) 87_400 (some (events_step 1 50_000 3))).windows)
    ≡ is_asked (event_resume_position (some (events_step 1 50_000 3))) 2 1000 87_400 1 60_000
unfolding event_resume_position
sync_events-covering_example =
    sync_events-covering answer open_answer 1 (some 1000) 87_400 (some (events_step 1 50_000 3)) 1
      60_000 (omega arith) (omega arith) resumed_is_done
