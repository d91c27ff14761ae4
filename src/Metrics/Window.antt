-- ===== src/Metrics/Window.antt =====
-- Which samples are kept.
use amocrm_analytics.Base.{
  ℕ, zero, suc, ◌-◌, ◌≤◌, ◌≡◌, ◌∙◌, List, [], ◌∷◌, ◌++◌, ltb, length, All, arith, if◌then◌else◌,
  Bool-cases, inl, inr,
}
use amocrm_analytics.Metrics.{
  ApiRequestMetric, api_metrics_window_ms, api_metrics_max_samples, drop, shift_old, trim,
  record_request,
}

-- The samples are in the order of their times, from `from` to `now`.
abbrev pub InOrder : (from now : ℕ) → List ApiRequestMetric → Type 0
InOrder from now [] = Unit
InOrder from now (r ∷ rs) = (from ≤ r.at) × (r.at ≤ now) × InOrder r.at now rs

abbrev pub IsRecent : (now : ℕ) → ApiRequestMetric → Type 0
IsRecent now r = (now - r.at ≤ api_metrics_window_ms) × (r.at ≤ now)

InOrder-IsRecent :
    (from now : ℕ) (rs : List ApiRequestMetric)
    → now - from ≤ api_metrics_window_ms
    → InOrder from now rs
    → All (IsRecent now) rs
InOrder-IsRecent from now [] h o = tt
InOrder-IsRecent from now (r ∷ rs) h (after, before, rest) =
    let near : now - r.at ≤ api_metrics_window_ms = omega arith in
    ((near, before), InOrder-IsRecent r.at now rs near rest)

shift_old-IsRecent :
    (from now : ℕ) (rs : List ApiRequestMetric)
    → InOrder from now rs
    → All (IsRecent now) (shift_old now rs)
unfolding shift_old
shift_old-IsRecent from now [] o = tt
shift_old-IsRecent from now (r ∷ rs) (after, before, rest) =
    elim (Bool-cases (ltb api_metrics_window_ms (now - r.at))) [
      | inl old ↦ rw old (shift_old-IsRecent r.at now rs rest)
      | inr recent ↦
          let near : now - r.at ≤ api_metrics_window_ms = ground arith in
          rw recent ((near, before), InOrder-IsRecent r.at now rs near rest)
    ]

drop-All :
    (P : ApiRequestMetric → Type 0) (n : ℕ) (rs : List ApiRequestMetric)
    → All P rs
    → All P (drop n rs)
drop-All P zero rs h = h
drop-All P (suc n) [] h = h
drop-All P (suc n) (r ∷ rs) (first, rest) = drop-All P n rs rest

length-drop : (n : ℕ) (rs : List ApiRequestMetric) → length (drop n rs) ≡ length rs - n
length-drop zero rs = omega arith
length-drop (suc n) [] = omega arith
length-drop (suc n) (r ∷ rs) = length-drop n rs ∙ omega arith

add_last :
    (from now duration_ms url : ℕ) (rs : List ApiRequestMetric)
    → from ≤ now
    → InOrder from now rs
    → InOrder from now (rs ++ record { at = now; duration_ms = duration_ms; url = url } ∷ [])
add_last from now duration_ms url [] h o = (h, omega arith, tt)
add_last from now duration_ms url (r ∷ rs) h (after, before, rest) =
    (after, before, add_last r.at now duration_ms url rs before rest)

kept :
    (now : ℕ) (recent : List ApiRequestMetric)
    → All (IsRecent now) recent
    → All (IsRecent now) (
        if ltb api_metrics_max_samples (length recent)
        then drop (length recent - api_metrics_max_samples) recent
        else recent)
      × (length (
            if ltb api_metrics_max_samples (length recent)
            then drop (length recent - api_metrics_max_samples) recent
            else recent)
          ≤ api_metrics_max_samples)
kept now recent h = elim (Bool-cases (ltb api_metrics_max_samples (length recent))) [
  | inl many ↦
      let size = length-drop (length recent - api_metrics_max_samples) recent in
      rw many (
        drop-All (IsRecent now) (length recent - api_metrics_max_samples) recent h,
        rw size (omega arith),
      )
  | inr few ↦ rw few (h, ground arith)
]

-- Samples that are in the order of their times stay at most 2000 and at most five minutes old, whenever
-- one is recorded.
pub record_request-IsRecent :
    (now duration_ms url : ℕ) (rs : List ApiRequestMetric)
    → InOrder 0 now rs
    → All (IsRecent now) (record_request now duration_ms url rs)
      × (length (record_request now duration_ms url rs) ≤ api_metrics_max_samples)
unfolding record_request trim
record_request-IsRecent now duration_ms url rs o =
    kept now (shift_old now (rs ++ record { at = now; duration_ms = duration_ms; url = url } ∷ []))
      (shift_old-IsRecent 0 now _ (add_last 0 now duration_ms url rs (omega arith) o))
