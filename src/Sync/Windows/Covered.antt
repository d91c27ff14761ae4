-- ===== src/Sync/Windows/Covered.antt =====
-- The windows that are read tile the time that is asked for, and the halving ends.
use amocrm_analytics.Base.{
  ℕ, zero, suc, ◌+◌, ◌-◌, ◌≤◌, ◌<◌, ◌≡◌, ◌≢◌, refl, ap, ◌∙◌, ◌&&◌, List, [], ◌∷◌, ◌++◌, leb, ◌==◌,
  min, arith, if◌then◌else◌, Bool-cases, inl, inr,
}
use amocrm_analytics.Sync.Windows.{
  Answer, fetched, too_many, failed, Window, Ending, done, raised, out_of_fuel, Ingested, and_then,
  and_then_after, ingest_answered, midpoint, window_seconds, day_windows, ingest_window,
  ingest_windows,
}

-- Whether a second is in a span of a stream, as a number.
abbrev pub in_span : (stream from to s t : ℕ) → ℕ
in_span stream from to s t = if stream == s && (leb from t && leb t to) then 1 else 0

-- How many of the windows have the second.
abbrev pub covering : (s t : ℕ) → List Window → ℕ
covering s t [] = 0
covering s t (w ∷ ws) = in_span w.stream w.from w.to s t + covering s t ws

pub covering-append :
    (s t : ℕ) (vs ws : List Window) → covering s t (vs ++ ws) ≡ covering s t vs + covering s t ws
covering-append s t [] ws = omega arith
covering-append s t (v ∷ vs) ws = omega (arith, covering-append s t vs ws)

and_then_after-done :
    (x : Ending) (r s : Ingested)
    → r.ending ≡ x
    → (and_then_after x r s).ending ≡ done
    → (r.ending ≡ done)
      × (s.ending ≡ done)
      × ((and_then_after x r s).windows ≡ r.windows ++ s.windows)
and_then_after-done done r s h e = (h, e, refl)
and_then_after-done raised r s h e = cc
and_then_after-done out_of_fuel r s h e = cc

-- Two readings in a row are done if both are.
pub and_then-done :
    (r s : Ingested)
    → (and_then r s).ending ≡ done
    → (r.ending ≡ done) × (s.ending ≡ done) × ((and_then r s).windows ≡ r.windows ++ s.windows)
and_then-done r s e = and_then_after-done r.ending r s refl e

and_then_after-ends :
    (x : Ending) (r s : Ingested)
    → r.ending ≡ x
    → r.ending ≢ out_of_fuel
    → s.ending ≢ out_of_fuel
    → (and_then_after x r s).ending ≢ out_of_fuel
and_then_after-ends done r s h e f = f
and_then_after-ends raised r s h e f = e
and_then_after-ends out_of_fuel r s h e f = e

pub and_then-ends :
    (r s : Ingested)
    → r.ending ≢ out_of_fuel
    → s.ending ≢ out_of_fuel
    → (and_then r s).ending ≢ out_of_fuel
and_then-ends r s e f = and_then_after-ends r.ending r s refl e f

raised-done : raised ≢ done
raised-done e = cc

raised-out_of_fuel : raised ≢ out_of_fuel
raised-out_of_fuel e = cc

pub done-out_of_fuel : done ≢ out_of_fuel
done-out_of_fuel e = cc

pub both : {a b c d n : ℕ} → a ≡ c → b ≡ d → c + d ≡ n → a + b ≡ n
both p q r = omega (arith, p, q, r)

halves :
    (stream from to s t : ℕ)
    → from < to
    → in_span stream from (midpoint from to) s t + in_span stream (suc (midpoint from to)) to s t
      ≡ in_span stream from to s t
halves stream from to s t h = ground arith

next_day :
    (stream from to s t : ℕ)
    → from ≤ to
    → in_span stream from (min to (from + window_seconds - 1)) s t
        + in_span stream (from + window_seconds) to s t
      ≡ in_span stream from to s t
next_day stream from to s t h = ground arith

ingest_answered-ends :
    (a : Answer) (stream from to : ℕ) (first second : Ingested)
    → (from < to → first.ending ≢ out_of_fuel)
    → (from < to → second.ending ≢ out_of_fuel)
    → (ingest_answered a stream from to first second).ending ≢ out_of_fuel
ingest_answered-ends fetched stream from to first second f s e = cc
ingest_answered-ends failed stream from to first second f s e = cc
ingest_answered-ends too_many stream from to first second f s e = elim (Bool-cases (leb to from)) [
  | inl one ↦ raised-out_of_fuel (rw one at e)
  | inr more ↦ and_then-ends first second (f (ground arith)) (s (ground arith)) (rw more at e)
]

ingest_answered-covering :
    (a : Answer) (stream from to s t : ℕ) (first second : Ingested)
    → from ≤ to
    → (from < to
        → first.ending ≡ done
        → covering s t first.windows ≡ in_span stream from (midpoint from to) s t)
    → (from < to
        → second.ending ≡ done
        → covering s t second.windows ≡ in_span stream (suc (midpoint from to)) to s t)
    → (ingest_answered a stream from to first second).ending ≡ done
    → covering s t ((ingest_answered a stream from to first second).windows)
      ≡ in_span stream from to s t
ingest_answered-covering fetched stream from to s t first second ordered f g e = omega arith
ingest_answered-covering failed stream from to s t first second ordered f g e = cc
ingest_answered-covering too_many stream from to s t first second ordered f g e =
    elim (Bool-cases (leb to from)) [
      | inl one ↦ absurd (raised-done (rw one at e))
      | inr more ↦
          let (first_done, second_done, all_windows) = and_then-done first second (rw more at e) in
          let wide : from < to = ground arith in
          rw more (
            ap (covering s t) all_windows
            ∙ covering-append s t first.windows second.windows
            ∙ both (f wide first_done) (g wide second_done) (halves stream from to s t wide))
    ]

module _ (answer : (stream from to : ℕ) → Answer) (open_answer : (stream from : ℕ) → Answer) where
  -- The halving ends.
  ingest_window-ends :
      (fuel stream from to : ℕ)
      → from ≤ to
      → to - from < fuel
      → (ingest_window answer open_answer fuel stream from to).ending ≢ out_of_fuel
  unfolding ingest_window
  ingest_window-ends zero stream from to ordered h = absurd (omega arith)
  ingest_window-ends (suc fuel) stream from to ordered h =
      ingest_answered-ends (answer stream from to) stream from to
        (ingest_window answer open_answer fuel stream from (midpoint from to))
        (ingest_window answer open_answer fuel stream (suc (midpoint from to)) to)
        (λ wide.
          ingest_window-ends fuel stream from (midpoint from to) (ground arith) (ground arith))
        (λ wide.
          ingest_window-ends fuel stream (suc (midpoint from to)) to (ground arith) (ground arith))

  ingest_window-covering :
      (fuel stream from to s t : ℕ)
      → from ≤ to
      → (ingest_window answer open_answer fuel stream from to).ending ≡ done
      → covering s t ((ingest_window answer open_answer fuel stream from to).windows)
        ≡ in_span stream from to s t
  unfolding ingest_window
  ingest_window-covering zero stream from to s t ordered e = cc
  ingest_window-covering (suc fuel) stream from to s t ordered e =
      ingest_answered-covering (answer stream from to) stream from to s t
        (ingest_window answer open_answer fuel stream from (midpoint from to))
        (ingest_window answer open_answer fuel stream (suc (midpoint from to)) to) ordered
        (λ wide. ingest_window-covering fuel stream from (midpoint from to) s t (ground arith))
        (λ wide. ingest_window-covering fuel stream (suc (midpoint from to)) to s t (ground arith))
        e

  -- The windows of a day tile the time.
  pub day_windows-covering :
      (fuel stream from to s t : ℕ)
      → suc to - from ≤ fuel
      → (ingest_windows answer open_answer (day_windows fuel stream from to)).ending ≡ done
      → covering s t ((ingest_windows answer open_answer (day_windows fuel stream from to)).windows)
        ≡ in_span stream from to s t
  unfolding day_windows ingest_windows
  day_windows-covering zero stream from to s t h e = ground arith
  day_windows-covering (suc fuel) stream from to s t h e = elim (Bool-cases (leb from to)) [
    | inl more ↦
        let last = min to (from + window_seconds - 1) in
        let first = ingest_window answer open_answer (suc (last - from)) stream from last in
        let rest =
          ingest_windows answer open_answer (day_windows fuel stream (from + window_seconds) to) in
        let (first_done, rest_done, all_windows) = and_then-done first rest (rw more at e) in
        rw more (
          ap (covering s t) all_windows
          ∙ covering-append s t first.windows rest.windows
          ∙ both
              (ingest_window-covering (suc (last - from)) stream from last s t (ground arith)
                first_done)
              (day_windows-covering fuel stream (from + window_seconds) to s t (ground arith)
                rest_done)
              (next_day stream from to s t (ground arith)))
    | inr over ↦ rw over (ground arith)
  ]

  pub day_windows-ends :
      (fuel stream from to : ℕ)
      → (ingest_windows answer open_answer (day_windows fuel stream from to)).ending ≢ out_of_fuel
  unfolding day_windows ingest_windows
  day_windows-ends zero stream from to e = cc
  day_windows-ends (suc fuel) stream from to e = elim (Bool-cases (leb from to)) [
    | inl more ↦
        let last = min to (from + window_seconds - 1) in
        and_then-ends (ingest_window answer open_answer (suc (last - from)) stream from last)
          (ingest_windows answer open_answer (day_windows fuel stream (from + window_seconds) to))
          (ingest_window-ends (suc (last - from)) stream from last (ground arith) (ground arith))
          (day_windows-ends fuel stream (from + window_seconds) to) (rw more at e)
    | inr over ↦ done-out_of_fuel (rw over at e)
  ]
