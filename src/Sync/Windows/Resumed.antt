-- ===== src/Sync/Windows/Resumed.antt =====
-- All streams are read over the whole time, from the position of an earlier attempt on.
use amocrm_analytics.Base.{
  ℕ, zero, suc, ◌+◌, ◌-◌, ◌≤◌, ◌≡◌, ap, ◌∙◌, false, ◌&&◌, Option, none, some, leb, ltb, ◌==◌, max,
  arith, if◌then◌else◌, Bool-cases, inl, inr,
}
use amocrm_analytics.Sync.Windows.{
  Answer, done, event_time_windows, events_from, ResumePosition, Step, event_resume_position,
  ingest, ingest_stream, ingest_streams, sync_events,
}
use amocrm_analytics.Sync.Windows.Covered.{
  in_span, covering, covering-append, and_then-done, day_windows-covering, both,
}

-- Where the reading of a stream starts; after the end if it is skipped.
abbrev pub start_of : Option ResumePosition → (stream from now : ℕ) → ℕ
start_of none stream from now = from
start_of (some p) stream from now =
    if ltb stream p.stream_index
    then suc now
    else if leb stream p.stream_index
    then max from p.window_from
    else from

-- Whether a second is asked for.
abbrev pub is_asked : Option ResumePosition → (count from now s t : ℕ) → ℕ
is_asked resume count from now s t =
    if ltb s count && (leb (start_of resume s from now) t && leb t now) then 1 else 0

-- Whether a second of one of the streams from `stream` on is asked for.
abbrev asked_of : Option ResumePosition → (stream count from now s t : ℕ) → ℕ
asked_of resume stream count from now s t =
    if leb stream s && ltb s (stream + count)
    then in_span s (start_of resume s from now) now s t
    else 0

-- The position is not after the end of the time.
abbrev pub IsReached : Option ResumePosition → (now : ℕ) → Type 0
IsReached none now = Unit {0}
IsReached (some p) now = p.window_from ≤ now

asked_of-suc :
    (resume : Option ResumePosition) (stream count from now s t : ℕ)
    → in_span stream (start_of resume stream from now) now s t
        + asked_of resume (suc stream) count from now s t
      ≡ asked_of resume stream (suc count) from now s t
asked_of-suc resume stream count from now s t = elim (Bool-cases (stream == s)) [
  | inl y ↦
      let same : stream ≡ s = ground arith in
      let start : start_of resume stream from now ≡ start_of resume s from now =
        ap (λ k. start_of resume k from now) same in
      ground arith
  | inr n ↦ ground arith
]

asked_of_all :
    (resume : Option ResumePosition) (count from now s t : ℕ)
    → asked_of resume 0 count from now s t ≡ is_asked resume count from now s t
asked_of_all resume count from now s t = ground arith

module _ (answer : (stream from to : ℕ) → Answer) (open_answer : (stream from : ℕ) → Answer) where
  ingest-covering :
      (stream from now s t : ℕ)
      → from ≤ now
      → (ingest answer open_answer stream from now).ending ≡ done
      → covering s t ((ingest answer open_answer stream from now).windows)
        ≡ in_span stream from now s t
  unfolding ingest event_time_windows
  ingest-covering stream from now s t h e =
      let bounded : ltb now from ≡ false = ground arith in
      rw bounded (
        day_windows-covering answer open_answer (suc (now - from)) stream from now s t (omega arith)
          (rw bounded at e))

  ingest_stream-covering :
      (resume : Option ResumePosition) (stream from now s t : ℕ)
      → from ≤ now
      → IsReached resume now
      → (ingest_stream answer open_answer resume stream from now).ending ≡ done
      → covering s t ((ingest_stream answer open_answer resume stream from now).windows)
        ≡ in_span stream (start_of resume stream from now) now s t
  ingest_stream-covering none stream from now s t h k e = ingest-covering stream from now s t h e
  ingest_stream-covering (some p) stream from now s t h k e =
      elim (Bool-cases (ltb stream p.stream_index)) [
        | inl before ↦ rw before (ground arith)
        | inr later ↦ elim (Bool-cases (leb stream p.stream_index)) [
          | inl same ↦
              rw (later, same)
                (ingest-covering stream (max from p.window_from) now s t (ground arith)
                  (rw (later, same) at e))
          | inr after ↦
              rw (later, after) (ingest-covering stream from now s t h (rw (later, after) at e))
        ]
      ]

  ingest_streams-covering :
      (resume : Option ResumePosition) (stream count from now s t : ℕ)
      → from ≤ now
      → IsReached resume now
      → (ingest_streams answer open_answer resume stream count from now).ending ≡ done
      → covering s t ((ingest_streams answer open_answer resume stream count from now).windows)
        ≡ asked_of resume stream count from now s t
  unfolding ingest_streams
  ingest_streams-covering resume stream zero from now s t h k e = ground arith
  ingest_streams-covering resume stream (suc count) from now s t h k e =
      let first = ingest_stream answer open_answer resume stream from now in
      let rest = ingest_streams answer open_answer resume (suc stream) count from now in
      let (first_done, rest_done, all_windows) = and_then-done first rest e in
      ap (covering s t) all_windows
      ∙ covering-append s t first.windows rest.windows
      ∙ both (ingest_stream-covering resume stream from now s t h k first_done)
          (ingest_streams-covering resume (suc stream) count from now s t h k rest_done)
          (asked_of-suc resume stream count from now s t)

-- Without an error, each second of each stream from the start to now is read in exactly one window: from the
-- position of the earlier attempt on, if there is one that is not after now, and nothing else is read.
pub sync_events-covering :
    (answer : (stream from to : ℕ) → Answer) (open_answer : (stream from : ℕ) → Answer)
    (extra_types : ℕ) (updated_since : Option ℕ) (now : ℕ) (cursor : Option Step) (s t : ℕ)
    → events_from updated_since now ≤ now
    → IsReached (event_resume_position cursor) now
    → (sync_events answer open_answer extra_types updated_since now cursor).ending ≡ done
    → covering s t ((sync_events answer open_answer extra_types updated_since now cursor).windows)
      ≡ is_asked
          (event_resume_position cursor)
          (suc extra_types)
          (events_from updated_since now)
          now
          s
          t
unfolding sync_events
sync_events-covering answer open_answer extra_types updated_since now cursor s t h k e =
    ingest_streams-covering answer open_answer (event_resume_position cursor) 0 (suc extra_types)
      (events_from updated_since now) now s t h k e
    ∙ asked_of_all (event_resume_position cursor) (suc extra_types) (events_from updated_since now)
        now s t
