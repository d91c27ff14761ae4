-- ===== src/Metrics.antt =====
-- The samples of request times and what is done after a request (`ApiRuntimeMetrics` and
-- `ApiMemoryInterceptor` of apps/api/src/common/api-memory.interceptor.ts). Sizes are megabytes, and a
-- growth of memory is what it grew by (0 if it shrank) and its distance from 0. Up to 2000 samples the
-- product with 0.95 in floating point has the same whole part as the fraction.
pub mod Window
mod Tests
use amocrm_analytics.Base.{
  ℕ, zero, suc, ◌+◌, ◌-◌, ◌*◌, ◌/◌, min, Bool, true, false, ◌&&◌, ◌||◌, not, List, [], ◌∷◌, ◌++◌,
  ltb, leb, ◌==◌, filter, length, if◌then◌else◌,
}

abbrev pub api_metrics_window_ms : ℕ
api_metrics_window_ms = 300_000

abbrev pub api_metrics_max_samples : ℕ
api_metrics_max_samples = 2_000

pub record ApiRequestMetric : Type 0 where
  pub at : ℕ
  pub duration_ms : ℕ
  pub url : ℕ

abbrev pub drop {ℓ} : {A : Type ℓ} → ℕ → List A → List A
drop zero xs = xs
drop (suc n) [] = []
drop (suc n) (x ∷ xs) = drop n xs

-- The loop that takes old samples off the front.
unfoldable pub shift_old : (now : ℕ) → List ApiRequestMetric → List ApiRequestMetric
shift_old now [] = []
shift_old now (r ∷ rs) =
    let rest = shift_old now rs in if ltb api_metrics_window_ms (now - r.at) then rest else r ∷ rs

unfoldable pub trim : (now : ℕ) → List ApiRequestMetric → List ApiRequestMetric
trim now requests =
    let recent = shift_old now requests in
    if ltb api_metrics_max_samples (length recent)
    then drop (length recent - api_metrics_max_samples) recent
    else recent

unfoldable pub record_request :
    (now duration_ms url : ℕ) → List ApiRequestMetric → List ApiRequestMetric
record_request now duration_ms url requests =
    trim now (requests ++ record { at = now; duration_ms = duration_ms; url = url } ∷ [])

abbrev insert : ℕ → List ℕ → List ℕ
insert n [] = n ∷ []
insert n (m ∷ ms) = if leb n m then n ∷ m ∷ ms else m ∷ insert n ms

abbrev durations : List ApiRequestMetric → List ℕ
durations [] = []
durations (r ∷ rs) = insert r.duration_ms (durations rs)

abbrev element : ℕ → List ℕ → ℕ
element i [] = 0
element zero (n ∷ ns) = n
element (suc i) (n ∷ ns) = element i ns

pub record Snapshot : Type 0 where
  pub window_seconds : ℕ
  pub request_count : ℕ
  pub p95_ms : ℕ
  pub slow : List ApiRequestMetric

abbrev last_of : ℕ → List ApiRequestMetric → List ApiRequestMetric
last_of n rs = drop (length rs - n) rs

-- The samples that are left, and the numbers over them.
unfoldable pub snapshot : (now : ℕ) → List ApiRequestMetric → List ApiRequestMetric × Snapshot
snapshot now requests =
    let kept = trim now requests in
    let sorted = durations kept in
    (
      kept,
      record {
        window_seconds = api_metrics_window_ms / 1_000;
        request_count = length sorted;
        p95_ms = element (min (length sorted - 1) (length sorted * 95 / 100)) sorted;
        slow = last_of 10 (filter (λ r. leb 3_000 r.duration_ms) kept);
      },
    )

-- `forced_off` is `API_FORCE_GC_AFTER_HEAVY_REQUESTS === '0'`.
unfoldable pub should_compact : (forced_off tracked : Bool) (duration_ms rss_mb grown_mb : ℕ) → Bool
should_compact forced_off tracked duration_ms rss_mb grown_mb =
    if forced_off
    then false
    else leb 128 grown_mb || ((leb 1_000 duration_ms && tracked) || (leb 1_200 rss_mb && tracked))

-- The log of high memory, at most once a minute; the state is the time of the last one.
unfoldable pub should_sample_high_rss : (now rss_mb last : ℕ) → Bool × ℕ
should_sample_high_rss now rss_mb last =
    if ltb rss_mb 900
    then (false, last)
    else if ltb (now - last) 60_000
    then (false, last)
    else (true, now)

unfoldable pub should_log : (tracked : Bool) (now duration_ms rss_mb changed_mb last : ℕ) → Bool × ℕ
should_log tracked now duration_ms rss_mb changed_mb last =
    if leb 1_000 duration_ms
      || (leb 16 changed_mb || (tracked && (leb 250 duration_ms || leb 12 changed_mb)))
    then (true, last)
    else should_sample_high_rss now rss_mb last
