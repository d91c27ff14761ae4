-- ===== src/Sync/Recent/Gapless.antt =====
-- The windows of the reconciliations leave no gap, and they catch up after an outage.
use amocrm_analytics.Base.{
  ℕ, ◌+◌, ◌-◌, ◌/◌, ◌≤◌, ◌<◌, ◌≡◌, ◌⊎◌, refl, ap, sym, ◌∙◌, Bool, true, false, ◌&&◌, not, Option,
  none, some, List, [], ◌∷◌, leb, ltb, any, all, min, arith, Bool-cases, inl, inr,
}
use amocrm_analytics.Sync.Recent.{
  Fetched, Span, Connection, Reconciled, reconciled, recent_reconcile_from, span_from, span_of,
  finished_reconcile, attempt_span, is_given, reconcile_recent_changes,
}

-- An attempt: what it reads, whether the reports are refreshed, and when it starts.
pub record Attempt : Type 0 where
  pub deals : (since through : ℕ) → Fetched
  pub events : (since through : ℕ) → Fetched
  pub refreshed : Bool
  pub started_at : ℕ

abbrev add_span : Reconciled → List Span → List Span
add_span (reconciled span) spans = span ∷ spans
add_span _ spans = spans

-- The second is within the bounds of the requests of a span.
abbrev pub has_second : (sec : ℕ) → Span → Bool
has_second sec span = leb (span.from / 1000) sec && leb sec (span.through / 1000)

-- A lookback for each reconciliation.
abbrev pub gained : (lookback : ℕ) → List Span → ℕ
gained lookback [] = 0
gained lookback (s ∷ spans) = lookback + gained lookback spans

module _ (lookback overlap : ℕ) where
  abbrev attempt : Attempt → Connection → Connection × Reconciled
  attempt a c =
      reconcile_recent_changes lookback overlap a.deals a.events a.refreshed a.started_at c

  -- The connection after some attempts.
  abbrev pub run : List Attempt → Connection → Connection
  run [] c = c
  run (a ∷ more) c = run more (attempt a c).0

  -- The spans that succeed.
  abbrev pub spans_of : List Attempt → Connection → List Span
  spans_of [] c = []
  spans_of (a ∷ more) c = add_span (attempt a c).1 (spans_of more (attempt a c).0)

  -- What one attempt makes of a cursor.
  pub data Outcome (cursor started_at : ℕ) : Connection × Reconciled → Type 0 where
    stayed :
        {c : Connection} {r : Reconciled}
        → c.recent_reconcile_at ≡ some cursor
        → ((spans : List Span) → add_span r spans ≡ spans)
        → Outcome cursor started_at (c, r)
    moved :
        {c : Connection} {span : Span}
        → cursor ≤ started_at
        → span.through ≡ min started_at (cursor + lookback)
        → span.from ≤ cursor
        → c.recent_reconcile_at ≡ some span.through
        → Outcome cursor started_at (c, reconciled span)

  finished_reconcile-Outcome :
      (cursor started_at : ℕ) (fetched_all : Bool) (c : Connection)
      → c.recent_reconcile_at ≡ some cursor
      → cursor ≤ started_at
      → Outcome cursor started_at (
          finished_reconcile
            (record { from = cursor - overlap; through = min started_at (cursor + lookback) })
            fetched_all
            c)
  finished_reconcile-Outcome cursor started_at true c e h = moved h refl (omega arith) refl
  finished_reconcile-Outcome cursor started_at false c e h = stayed e (λ spans. refl)

  span_of-cases :
      (started_at cursor : ℕ) (previous : Option ℕ)
      → previous ≡ some cursor
      → (span_of lookback overlap started_at previous ≡ none)
        ⊎ ((cursor ≤ started_at)
            × (span_of lookback overlap started_at previous
                ≡ some (record {
                  from = cursor - overlap;
                  through = min started_at (cursor + lookback);
                })))
  unfolding span_of recent_reconcile_from
  span_of-cases started_at cursor previous e = elim (Bool-cases (ltb started_at cursor)) [
    | inl future ↦
        let from : recent_reconcile_from lookback overlap started_at (some cursor) ≡ none =
          rw future refl in
        inl (rw e (ap (span_from lookback started_at (some cursor)) from))
    | inr past ↦
        let from : recent_reconcile_from lookback overlap started_at (some cursor)
            ≡ some (cursor - overlap) =
          rw past refl in
        inr (ground arith, rw e (ap (span_from lookback started_at (some cursor)) from))
  ]

  attempt_span-Outcome :
      (a : Attempt) (c : Connection) (cursor : ℕ) (span : Option Span)
      → c.recent_reconcile_at ≡ some cursor
      → (span ≡ none)
        ⊎ ((cursor ≤ a.started_at)
            × (span
                ≡ some (record {
                  from = cursor - overlap;
                  through = min a.started_at (cursor + lookback);
                })))
      → Outcome cursor a.started_at (attempt_span a.deals a.events a.refreshed span c)
  attempt_span-Outcome a c cursor span e (inl h) = rw h (stayed e (λ spans. refl))
  attempt_span-Outcome a c cursor span e (inr (past, h)) =
      rw h (finished_reconcile-Outcome cursor a.started_at _ c e past)

  attempt-Outcome :
      (a : Attempt) (c : Connection) (cursor : ℕ)
      → c.recent_reconcile_at ≡ some cursor
      → Outcome cursor a.started_at (attempt a c)
  unfolding reconcile_recent_changes
  attempt-Outcome a c cursor e = elim (Bool-cases (not (is_given c.last_full_sync_at))) [
    | inl waiting ↦ rw waiting (stayed e (λ spans. refl))
    | inr ready ↦ rw ready (
        attempt_span-Outcome a c cursor
          (span_of lookback overlap a.started_at c.recent_reconcile_at) e
          (span_of-cases a.started_at cursor c.recent_reconcile_at e))
  ]

  -- Every second after the cursor up to the new one is read.
  abbrev pub IsGapless : (cursor reached : ℕ) → List Span → Type 0
  IsGapless cursor reached spans =
      (sec : ℕ)
      → cursor / 1000 < sec
      → sec ≤ reached / 1000
      → any (λ s. has_second sec s) spans ≡ true

  run_after-IsGapless :
      (cursor started_at : ℕ) (more : List Attempt) (o : Connection × Reconciled)
      → Outcome cursor started_at o
      → ((next : ℕ)
          → (o.0).recent_reconcile_at ≡ some next
          → (reached : ℕ) × ((run more o.0).recent_reconcile_at ≡ some reached)
            × (next ≤ reached)
            × IsGapless next reached (spans_of more o.0))
      → (reached : ℕ) × ((run more o.0).recent_reconcile_at ≡ some reached)
        × (cursor ≤ reached)
        × IsGapless cursor reached (add_span o.1 (spans_of more o.0))
  run_after-IsGapless cursor started_at more (c, r) (stayed e same) ih =
      let (reached, is, above, gapless) = ih cursor e in
      (reached, is, above, λ sec low high. rw (same (spans_of more c)) (gapless sec low high))
  run_after-IsGapless cursor started_at more (c, reconciled span) (moved h t f e) ih =
      let (reached, is, above, gapless) = ih span.through e in
      (
        reached,
        is,
        omega arith,
        λ sec low high. elim (Bool-cases (leb sec (span.through / 1000))) [
          | inl here ↦ ground arith
          | inr later ↦ let covered = gapless sec (ground arith) high in ground arith
        ],
      )

  -- Whatever the attempts find and whenever they start, from a cursor on: the cursor never goes back, and each
  -- second after the old cursor up to the new one is within the bounds of a reconciliation that succeeded.
  run-IsGapless :
      (attempts : List Attempt) (c : Connection) (cursor : ℕ)
      → c.recent_reconcile_at ≡ some cursor
      → (reached : ℕ) × ((run attempts c).recent_reconcile_at ≡ some reached)
        × (cursor ≤ reached)
        × IsGapless cursor reached (spans_of attempts c)
  run-IsGapless [] c cursor e = (cursor, e, omega arith, λ sec low high. absurd (omega arith))
  run-IsGapless (a ∷ more) c cursor e =
      run_after-IsGapless cursor a.started_at more (attempt a c) (attempt-Outcome a c cursor e)
        (run-IsGapless more (attempt a c).0)

  run_after-gained :
      (cursor started_at now : ℕ) (more : List Attempt) (o : Connection × Reconciled)
      → now ≤ started_at
      → Outcome cursor started_at o
      → ((next : ℕ)
          → (o.0).recent_reconcile_at ≡ some next
          → (reached : ℕ) × ((run more o.0).recent_reconcile_at ≡ some reached)
            × (min now (next + gained lookback (spans_of more o.0)) ≤ reached))
      → (reached : ℕ) × ((run more o.0).recent_reconcile_at ≡ some reached)
        × (min now (cursor + gained lookback (add_span o.1 (spans_of more o.0))) ≤ reached)
  run_after-gained cursor started_at now more (c, r) late (stayed e same) ih =
      let (reached, is, above) = ih cursor e in (reached, is, rw (same (spans_of more c)) above)
  run_after-gained cursor started_at now more (c, reconciled span) late (moved h t f e) ih =
      let (reached, is, above) = ih span.through e in (reached, is, omega (arith, above, t, late))

  run-gained :
      (attempts : List Attempt) (c : Connection) (cursor now : ℕ)
      → c.recent_reconcile_at ≡ some cursor
      → all (λ a. leb now a.started_at) attempts ≡ true
      → (reached : ℕ) × ((run attempts c).recent_reconcile_at ≡ some reached)
        × (min now (cursor + gained lookback (spans_of attempts c)) ≤ reached)
  run-gained [] c cursor now e late = (cursor, e, omega arith)
  run-gained (a ∷ more) c cursor now e late =
      run_after-gained cursor a.started_at now more (attempt a c) (ground arith)
        (attempt-Outcome a c cursor e)
        (λ next is. run-gained more (attempt a c).0 next now is (ground arith))

some_value : {a b : ℕ} → some a ≡ some b → a ≡ b
some_value e = cc

-- Whatever the attempts find and whenever they start, from a cursor on, each second after the old cursor up to
-- the new one is within the bounds of a reconciliation that succeeded.
pub reconcile_recent_changes-spans :
    (lookback overlap : ℕ) (attempts : List Attempt) (c : Connection) (cursor reached sec : ℕ)
    → c.recent_reconcile_at ≡ some cursor
    → (run lookback overlap attempts c).recent_reconcile_at ≡ some reached
    → cursor / 1000 < sec
    → sec ≤ reached / 1000
    → any (λ s. has_second sec s) (spans_of lookback overlap attempts c) ≡ true
reconcile_recent_changes-spans lookback overlap attempts c cursor reached sec e r low high =
    let (end, is, above, gapless) = run-IsGapless lookback overlap attempts c cursor e in
    let same : end ≡ reached = some_value (sym is ∙ r) in gapless sec low (rw same high)

-- The cursor catches up: after attempts that start at an instant or later it is not before the instant, or it
-- has gained the lookback for each reconciliation that succeeded.
pub reconcile_recent_changes-gained :
    (lookback overlap : ℕ) (attempts : List Attempt) (c : Connection) (cursor reached now : ℕ)
    → c.recent_reconcile_at ≡ some cursor
    → (run lookback overlap attempts c).recent_reconcile_at ≡ some reached
    → all (λ a. leb now a.started_at) attempts ≡ true
    → min now (cursor + gained lookback (spans_of lookback overlap attempts c)) ≤ reached
reconcile_recent_changes-gained lookback overlap attempts c cursor reached now e r late =
    let (end, is, above) = run-gained lookback overlap attempts c cursor now e late in
    let same : end ≡ reached = some_value (sym is ∙ r) in rw⁻¹ same above
