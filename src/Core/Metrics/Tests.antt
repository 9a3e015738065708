-- ===== src/Core/Metrics/Tests.antt =====
-- The latency histogram with four buckets and an overflow bucket.
use klstream.Prelude.{ℕ, ◌≡◌, arith, List, [], ◌∷◌}
use klstream.Core.Metrics.Histogram.{LatencyHistogram, new, sum_below}
use klstream.Core.Metrics.Recording.{add_all, add_all_counts}

-- 1, 2, 2 and 9 microseconds.
abbrev latencies : List ℕ
latencies = 1500 ∷ 2000 ∷ 2999 ∷ 9000 ∷ []

abbrev counted : LatencyHistogram
counted = record { buckets = λ i. i }

add_all_counts_example :
    (sum_below (add_all 4 new latencies).buckets 3 ≡ 3)
    × (sum_below (add_all 4 new latencies).buckets 5 ≡ 4)
add_all_counts_example = add_all_counts 4 latencies 3 (omega arith) (omega arith)
