-- ===== src/Sync/Recent/Tests.antt =====
-- Runs of the reconciliation after an outage of two hours, with a lookback of 30 minutes and an overlap of 2.
use amocrm_analytics.Base.{
  ℕ, ◌+◌, ◌*◌, ◌≤◌, ◌≡◌, refl, true, false, none, some, List, [], ◌∷◌, length, any, min, arith,
  ◌==◌, if◌then◌else◌,
}
use amocrm_analytics.Sync.Recent.{
  RecentPage, Fetched, complete, incomplete, count_stored, deals_loop, sync_recent_deals,
  events_loop, sync_recent_stage_events, Connection, reconcile_failed, recent_reconcile_from,
  span_of, reconcile_recent_changes,
}
use amocrm_analytics.Sync.Recent.Pages.{ReadsToEnd, sync_recent_deals-ReadsToEnd}
use amocrm_analytics.Sync.Recent.Gapless.{
  Attempt, run, spans_of, has_second, gained, reconcile_recent_changes-spans,
  reconcile_recent_changes-gained,
}

abbrev minute : ℕ
minute = 60_000

abbrev connection : Connection
connection = record {
  last_full_sync_at = some 5;
  recent_reconcile_at = some 6_000_000;
  last_reconcile_at = none;
  has_recent_error = false;
}

abbrev good : (since through : ℕ) → Fetched
good since through = complete []

abbrev cut_off : (since through : ℕ) → Fetched
cut_off since through = incomplete

abbrev works : (started_at : ℕ) → Attempt
works started_at = record { deals = good; events = good; refreshed = true; started_at = started_at }

abbrev fails : (started_at : ℕ) → Attempt
fails started_at = record {
  deals = cut_off;
  events = good;
  refreshed = true;
  started_at = started_at;
}

abbrev attempts : List Attempt
attempts = works 13_200_000 ∷ fails 13_260_000 ∷ works 13_320_000 ∷ works 13_380_000 ∷ []

computed : Unit {0}
unfolding recent_reconcile_from span_of reconcile_recent_changes deals_loop sync_recent_deals
    events_loop sync_recent_stage_events
computed = tt

-- Three of four succeed, and each gains 30 minutes.
three_windows :
    (run (30 * minute) (2 * minute) attempts connection).recent_reconcile_at ≡ some 11_400_000
unfolding computed
three_windows = refl

three_spans : length (spans_of (30 * minute) (2 * minute) attempts connection) ≡ 3
unfolding computed
three_spans = refl

future_cursor_fails :
    (reconcile_recent_changes (30 * minute) (2 * minute) good good true 5_000_000 connection).1
    ≡ reconcile_failed
unfolding computed
future_cursor_fails = refl

-- Two pages of ids, the last of them without a next one.
abbrev page_of : (page limit : ℕ) → RecentPage
page_of page limit =
    if page == 1
    then record { ids = 4 ∷ 7 ∷ []; has_next = true }
    else record { ids = 9 ∷ 4 ∷ []; has_next = false }

-- More pages than may be read.
abbrev endless : (page limit : ℕ) → RecentPage
endless page limit = record { ids = page ∷ []; has_next = true }

abbrev stored : List ℕ → ℕ
stored ids = length ids

two_pages : sync_recent_deals page_of stored 250 5 ≡ complete (4 ∷ 7 ∷ 9 ∷ [])
unfolding computed
two_pages = refl

too_many_rows : sync_recent_deals endless stored 250 5 ≡ incomplete
unfolding computed
too_many_rows = refl

too_many_events : sync_recent_stage_events endless stored 100 5 20 ≡ incomplete
unfolding computed
too_many_events = refl

not_all_stored : sync_recent_deals page_of (λ ids. 2) 250 5 ≡ incomplete
unfolding computed
not_all_stored = refl

sync_recent_deals-ReadsToEnd_example :
    ReadsToEnd page_of stored 250 5 1 0 [] (4 ∷ 7 ∷ 9 ∷ [])
    × (count_stored stored (4 ∷ 7 ∷ 9 ∷ []) ≡ 3)
sync_recent_deals-ReadsToEnd_example =
    sync_recent_deals-ReadsToEnd page_of stored 250 5 (4 ∷ 7 ∷ 9 ∷ []) (omega arith) two_pages

reconcile_recent_changes-spans_example :
    any (λ s. has_second 8000 s) (spans_of (30 * minute) (2 * minute) attempts connection) ≡ true
reconcile_recent_changes-spans_example =
    reconcile_recent_changes-spans (30 * minute) (2 * minute) attempts connection 6_000_000
      11_400_000 8000 refl three_windows (omega arith) (omega arith)

reconcile_recent_changes-gained_example :
    min 13_200_000
      (6_000_000 + gained (30 * minute) (spans_of (30 * minute) (2 * minute) attempts connection))
    ≤ 11_400_000
reconcile_recent_changes-gained_example =
    reconcile_recent_changes-gained (30 * minute) (2 * minute) attempts connection 6_000_000
      11_400_000 13_200_000 refl three_windows refl
