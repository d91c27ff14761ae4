-- ===== src/Metrics/Tests.antt =====
-- Two samples, one of them too old.
use amocrm_analytics.Base.{ℕ, ◌≡◌, refl, List, [], ◌∷◌, arith}
use amocrm_analytics.Metrics.{ApiRequestMetric, shift_old, trim, record_request, snapshot}
use amocrm_analytics.Metrics.Window.{InOrder}

abbrev sample : ℕ → ApiRequestMetric
sample at = record { at = at; duration_ms = 4_000; url = 1 }

abbrev samples : List ApiRequestMetric
samples = sample 1_000 ∷ sample 200_000 ∷ []

samples-InOrder : InOrder 0 400_000 samples
samples-InOrder = (omega arith, omega arith, (omega arith, omega arith, tt))

record_test :
    record_request 400_000 20 2 samples
    ≡ sample 200_000 ∷ record { at = 400_000; duration_ms = 20; url = 2 } ∷ []
unfolding record_request trim shift_old
record_test = refl

snapshot_test : (snapshot 400_000 samples).1.p95_ms ≡ 4_000
unfolding snapshot trim shift_old
snapshot_test = refl
