-- ===== src/Sync/Recent.antt =====
-- The reconciliation of recent changes (`reconcileRecentChanges`, `recentReconcileFrom`, `syncRecentDeals` and
-- `syncRecentStageEvents` of apps/api/src/amo/amo-sync.service.ts). The pages of amoCRM and the number of rows
-- that the database has of a list of ids are functions; what a row is made of is left out, and so is the
-- refresh of the reports. Instants are milliseconds, and the bounds of a request seconds.
pub mod Pages
pub mod Gapless
mod Tests
use amocrm_analytics.Base.{
  ℕ, zero, suc, ◌+◌, ◌-◌, ◌*◌, ◌/◌, Bool, true, false, ◌&&◌, ◌||◌, not, Option, none, some, List,
  [], ◌∷◌, ◌++◌, leb, ltb, ◌==◌, any, length, min, if◌then◌else◌,
}

-- A page of ids, and whether it names a next one.
pub record RecentPage : Type 0 where
  pub ids : List ℕ
  pub has_next : Bool

-- `incomplete` is an error after which the cursor stays.
pub data Fetched : Type 0 where
  complete : (ids : List ℕ) → Fetched
  incomplete out_of_fuel : Fetched

abbrev pub is_empty : List ℕ → Bool
is_empty [] = true
is_empty (x ∷ xs) = false

-- A map by the id: a known id is not new.
abbrev pub add_ids : List ℕ → (known : List ℕ) → List ℕ
add_ids [] known = known
add_ids (x ∷ xs) known =
    if any (λ y. y == x) known then add_ids xs known else add_ids xs (known ++ x ∷ [])

-- The rows of the database; it is not asked for no ids.
abbrev pub count_stored : (stored : List ℕ → ℕ) → List ℕ → ℕ
count_stored stored ids = if is_empty ids then 0 else stored ids

-- The tests after the loop: not cut off, and all ids in the database.
abbrev pub verified_rows :
    (stored : List ℕ → ℕ) (max_rows total : ℕ) → (has_next : Bool) → (ids : List ℕ) → Fetched
verified_rows stored max_rows total has_next ids =
    if has_next && leb max_rows total
    then incomplete
    else if count_stored stored ids == length ids
    then complete ids
    else incomplete

abbrev pub limit_at : (page_limit max_rows total : ℕ) → ℕ
limit_at page_limit max_rows total = min (min page_limit max_rows) (max_rows - total)

module _ (page_of : (page limit : ℕ) → RecentPage) (stored : List ℕ → ℕ)
    (page_limit max_rows : ℕ) where
  -- `total` counts the rows of the pages, `ids` are the different ones.
  unfoldable pub deals_loop : (fuel page total : ℕ) → (has_next : Bool) → (ids : List ℕ) → Fetched
  deals_loop zero page total has_next ids = out_of_fuel
  deals_loop (suc fuel) page total has_next ids =
      let got = page_of page (limit_at page_limit max_rows total) in
      let rest = deals_loop fuel (suc page) (total + length got.ids) true (add_ids got.ids ids) in
      if not (ltb total max_rows)
      then verified_rows stored max_rows total has_next ids
      else if is_empty got.ids
      then verified_rows stored max_rows total has_next ids
      else if not got.has_next
      then verified_rows stored max_rows (total + length got.ids) false (add_ids got.ids ids)
      else rest

  unfoldable pub sync_recent_deals : Fetched
  sync_recent_deals = deals_loop (suc max_rows) 1 0 false []

  -- The events are counted by their ids.
  unfoldable pub events_loop : (fuel page : ℕ) → (has_next : Bool) → (ids : List ℕ) → Fetched
  events_loop zero page has_next ids = out_of_fuel
  events_loop (suc fuel) page has_next ids =
      let got = page_of page (limit_at page_limit max_rows (length ids)) in
      let rest = events_loop fuel (suc page) true (add_ids got.ids ids) in
      if not (ltb (length ids) max_rows)
      then verified_rows stored max_rows (length ids) has_next ids
      else if is_empty got.ids
      then verified_rows stored max_rows (length ids) has_next ids
      else if not got.has_next
      then verified_rows stored max_rows (length (add_ids got.ids ids)) false (add_ids got.ids ids)
      else rest

  unfoldable pub sync_recent_stage_events : (fuel : ℕ) → Fetched
  sync_recent_stage_events fuel = events_loop fuel 1 false []

pub record Span : Type 0 where
  pub from : ℕ
  pub through : ℕ

pub record Connection : Type 0 where
  pub last_full_sync_at : Option ℕ
  pub recent_reconcile_at : Option ℕ
  pub last_reconcile_at : Option ℕ
  pub has_recent_error : Bool

pub data Reconciled : Type 0 where
  waiting_initial_snapshot reconcile_failed : Reconciled
  reconciled : Span → Reconciled

-- `none` is the error that the cursor is in the future.
unfoldable pub recent_reconcile_from :
    (lookback overlap started_at : ℕ) → (previous_cursor : Option ℕ) → Option ℕ
recent_reconcile_from lookback overlap started_at none = some (started_at - lookback)
recent_reconcile_from lookback overlap started_at (some cursor) =
    if ltb started_at cursor then none else some (cursor - overlap)

abbrev pub value_or : Option ℕ → ℕ → ℕ
value_or none d = d
value_or (some n) d = n

abbrev pub span_from : (lookback started_at : ℕ) → (previous_cursor from : Option ℕ) → Option Span
span_from lookback started_at cursor none = none
span_from lookback started_at cursor (some from) =
    some (record { from = from; through = min started_at (value_or cursor from + lookback) })

unfoldable pub span_of :
    (lookback overlap started_at : ℕ) → (previous_cursor : Option ℕ) → Option Span
span_of lookback overlap started_at cursor =
    span_from lookback started_at cursor (recent_reconcile_from lookback overlap started_at cursor)

abbrev pub is_complete : Fetched → Bool
is_complete (complete ids) = true
is_complete _ = false

-- What the connection keeps of an attempt that was not stopped by an error.
abbrev pub finished_reconcile : Span → (fetched_all : Bool) → Connection → Connection × Reconciled
finished_reconcile span fetched_all c =
    if fetched_all
    then (
      record {
        last_full_sync_at = c.last_full_sync_at;
        recent_reconcile_at = some span.through;
        last_reconcile_at = some span.through;
        has_recent_error = false;
      },
      reconciled span,
    )
    else (
      record {
        last_full_sync_at = c.last_full_sync_at;
        recent_reconcile_at = c.recent_reconcile_at;
        last_reconcile_at = c.last_reconcile_at;
        has_recent_error = true;
      },
      reconcile_failed,
    )

-- An error before the requests is thrown to the caller.
abbrev pub attempt_span :
    (deals events : (since through : ℕ) → Fetched)
    → (refreshed : Bool) → Option Span
    → Connection
    → Connection × Reconciled
attempt_span deals events refreshed none c = (c, reconcile_failed)
attempt_span deals events refreshed (some span) c =
    finished_reconcile span
      (is_complete (deals (span.from / 1000) (span.through / 1000))
        && (is_complete (events (span.from / 1000) (span.through / 1000)) && refreshed))
      c

abbrev pub is_given : Option ℕ → Bool
is_given none = false
is_given (some n) = true

module _ (lookback overlap : ℕ) where
  -- `refreshed` is whether the refresh of the reports returns.
  unfoldable pub reconcile_recent_changes :
      (deals events : (since through : ℕ) → Fetched)
      → (refreshed : Bool) → (started_at : ℕ) → Connection
      → Connection × Reconciled
  reconcile_recent_changes deals events refreshed started_at c =
      if not (is_given c.last_full_sync_at)
      then (c, waiting_initial_snapshot)
      else attempt_span deals events refreshed
          (span_of lookback overlap started_at c.recent_reconcile_at) c
