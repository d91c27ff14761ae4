-- ===== src/Sync/Windows.antt =====
-- The reading of the events by windows of time (`syncEvents`, `eventTimeWindows` and
-- `eventResumePosition` of apps/api/src/amo/amo-sync.service.ts). Times are seconds since 1970. A stream is
-- one type of events; `answer` is what the client makes of a window of a stream, and the type of the events
-- and the pages of a window are left out. A step is given as its parts in place of its text.
mod Tests
pub mod Covered
pub mod Resumed
use amocrm_analytics.Base.{
  ℕ, zero, suc, ◌+◌, ◌-◌, ◌*◌, ◌/◌, Bool, true, false, Option, none, some, List, [], ◌∷◌, ◌++◌, leb,
  ltb, min, max, if◌then◌else◌,
}

-- What the reading of all pages of a window ends with: `too_many` is the error 408 of amoCRM.
pub data Answer : Type 0 where
  fetched too_many failed : Answer

pub record Window : Type 0 where
  pub stream : ℕ
  pub from : ℕ
  pub to : ℕ

-- `out_of_fuel`: the rounds given are not enough, as no number of them is where the code never ends.
pub data Ending : Type 0 where
  done raised out_of_fuel : Ending

-- The windows that were read completely, in order.
pub record Ingested : Type 0 where
  pub windows : List Window
  pub ending : Ending

abbrev pub ended : Ending → Ingested
ended e = record { windows = []; ending = e }

abbrev pub and_then_after : Ending → Ingested → Ingested → Ingested
and_then_after done r s = record { windows = r.windows ++ s.windows; ending = s.ending }
and_then_after _ r s = r

abbrev pub and_then : Ingested → Ingested → Ingested
and_then r s = and_then_after r.ending r s

abbrev pub midpoint : ℕ → ℕ → ℕ
midpoint from to = (from + to) / 2

abbrev pub window_seconds : ℕ
window_seconds = 24 * 60 * 60

-- The windows of a day; `none` is the one window without an end.
unfoldable pub day_windows : (fuel stream from to : ℕ) → List Window
day_windows zero stream from to = []
day_windows (suc fuel) stream from to =
    let rest = day_windows fuel stream (from + window_seconds) to in
    if leb from to
    then record { stream = stream; from = from; to = min to (from + window_seconds - 1) } ∷ rest
    else []

unfoldable pub event_time_windows : (stream from to : ℕ) → Option (List Window)
event_time_windows stream from to =
    if ltb to from then none else some (day_windows (suc (to - from)) stream from to)

-- The start of the events: the last synchronisation, or ninety days ago.
abbrev pub events_from : Option ℕ → (now : ℕ) → ℕ
events_from none now = now - 90 * 86_400
events_from (some zero) now = now - 90 * 86_400
events_from (some (suc since)) now = suc since

pub record ResumePosition : Type 0 where
  pub stream_index : ℕ
  pub window_from : ℕ

pub data Step : Type 0 where
  events_step : (stream window page : ℕ) → Step
  legacy_events_step : (window : ℕ) → Step
  other_step : Step

unfoldable pub event_resume_position : Option Step → Option ResumePosition
event_resume_position none = none
event_resume_position (some (events_step stream window page)) =
    some (record { stream_index = stream; window_from = window })
event_resume_position (some (legacy_events_step window)) =
    some (record { stream_index = 0; window_from = window })
event_resume_position (some other_step) = none

-- What an answer leads to, with the readings of the halves.
abbrev pub ingest_answered : Answer → (stream from to : ℕ) → (first second : Ingested) → Ingested
ingest_answered fetched stream from to first second = record {
  windows = record { stream = stream; from = from; to = to } ∷ [];
  ending = done;
}
ingest_answered failed stream from to first second = ended raised
ingest_answered too_many stream from to first second =
    if leb to from then ended raised else and_then first second

-- A window without an end that is too large has no numbers as bounds of its halves, and neither have they:
-- the code goes on halving as long as the answer is 408.
abbrev pub ingest_open_after : Answer → Ingested
ingest_open_after fetched = ended done
ingest_open_after failed = ended raised
ingest_open_after too_many = ended out_of_fuel

module _ (answer : (stream from to : ℕ) → Answer) (open_answer : (stream from : ℕ) → Answer) where
  -- A window that is too large is read by halves.
  unfoldable pub ingest_window : (fuel stream from to : ℕ) → Ingested
  ingest_window zero stream from to = ended out_of_fuel
  ingest_window (suc fuel) stream from to =
      let first = ingest_window fuel stream from (midpoint from to) in
      let second = ingest_window fuel stream (suc (midpoint from to)) to in
      ingest_answered (answer stream from to) stream from to first second

  unfoldable pub ingest_windows : List Window → Ingested
  ingest_windows [] = ended done
  ingest_windows (w ∷ ws) =
      and_then (ingest_window (suc (w.to - w.from)) w.stream w.from w.to) (ingest_windows ws)

  abbrev pub ingest_open : (stream from : ℕ) → Ingested
  ingest_open stream from = ingest_open_after (open_answer stream from)

  abbrev pub ingest_listed : (stream from : ℕ) → Option (List Window) → Ingested
  ingest_listed stream from none = ingest_open stream from
  ingest_listed stream from (some ws) = ingest_windows ws

  unfoldable pub ingest : (stream from now : ℕ) → Ingested
  ingest stream from now = ingest_listed stream from (event_time_windows stream from now)

  -- One stream of those that are left: those before the position are skipped.
  abbrev pub ingest_stream : Option ResumePosition → (stream from now : ℕ) → Ingested
  ingest_stream none stream from now = ingest stream from now
  ingest_stream (some p) stream from now =
      if ltb stream p.stream_index
      then ended done
      else if leb stream p.stream_index
      then ingest stream (max from p.window_from) now
      else ingest stream from now

  -- The streams from `stream` on, `count` of them.
  unfoldable pub ingest_streams : Option ResumePosition → (stream count from now : ℕ) → Ingested
  ingest_streams resume stream zero from now = ended done
  ingest_streams resume stream (suc count) from now =
      and_then (ingest_stream resume stream from now)
        (ingest_streams resume (suc stream) count from now)

  unfoldable pub sync_events :
      (extra_types : ℕ) (updated_since : Option ℕ) (now : ℕ) (cursor : Option Step) → Ingested
  sync_events extra_types updated_since now cursor =
      ingest_streams (event_resume_position cursor) 0 (suc extra_types)
        (events_from updated_since now) now
