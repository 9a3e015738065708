-- ===== src/Core/Metrics/Histogram.antt =====
-- `LatencyHistogram` of include/klstream/core/metrics.hpp. The numbers HISTOGRAM_BUCKETS and
-- MAX_LATENCY_US of include/klstream/core/config.hpp are parameters; `pct * total`, which the code
-- computes in floating point and truncates, is a function of `total`.
use mathlib.Core.Option.{get_or}
use native.Mathlib.Nat.{add-zero, add-suc}
use native.Mathlib.Numerals.{add-one}
use klstream.Prelude.{
  ℕ, zero, suc, ◌+◌, ◌/◌, ◌≤◌, ◌<◌, ◌≡◌, ◌⊎◌, refl, ap, arith, Option, none, some, leb, ◌==◌,
  if◌then◌else◌, word, add_word,
}

-- The buckets, each a counter; the one numbered HISTOGRAM_BUCKETS is the overflow bucket.
pub record LatencyHistogram : Type 0 where
  pub buckets : ℕ → ℕ

-- All counters at zero.
abbrev pub new : LatencyHistogram
new = record { buckets = λ _. 0 }

-- The sum of the first `n` buckets, without wrapping.
abbrev pub sum_below : (ℕ → ℕ) → ℕ → ℕ
sum_below f zero = 0
sum_below f (suc n) = sum_below f n + f n

-- `total`: the sum of the first `n` buckets in 64 bits.
total : (ℕ → ℕ) → ℕ → ℕ
total f zero = 0
total f (suc n) = add_word (total f n) (f n)

-- The loop of `percentile` over the buckets from number `i` on, `left` of them.
scan : (ℕ → ℕ) → ℕ → ℕ → ℕ → ℕ → Option ℕ
scan f target zero i cumulative = none
scan f target (suc left) i cumulative =
    let cumulative' = add_word cumulative (f i) in
    let rest = scan f target left (i + 1) cumulative' in
    if leb target cumulative' then some i else rest

module _ (histogram_buckets : ℕ) where
  -- The bucket of a latency.
  unfoldable pub bucket_of : ℕ → ℕ
  bucket_of latency_ns =
      let idx = latency_ns / 1000 in if leb histogram_buckets idx then histogram_buckets else idx

  -- `record`
  unfoldable pub add : LatencyHistogram → ℕ → LatencyHistogram
  unfolding bucket_of
  add h latency_ns =
      let idx = bucket_of latency_ns in
      record { buckets = λ j. if j == idx then add_word (h.buckets j) 1 else h.buckets j }

module _ (histogram_buckets max_latency_us : ℕ) where
  unfoldable pub percentile : (ℕ → ℕ) → LatencyHistogram → ℕ
  unfolding total scan
  percentile target_of h =
      let t = total h.buckets (suc histogram_buckets) in
      if t == 0
      then 0
      else get_or (scan h.buckets (target_of t) histogram_buckets 0 0) max_latency_us

total-sum_below : (f : ℕ → ℕ) (n : ℕ) → sum_below f n < word → total f n ≡ sum_below f n
unfolding total
total-sum_below f zero h = refl
total-sum_below f (suc n) h = omega (arith, total-sum_below f n)

sum_below_mono : (f : ℕ → ℕ) (n k : ℕ) → sum_below f n ≤ sum_below f (n + k)
sum_below_mono f n zero = omega (arith, ap (sum_below f) (add-zero n))
sum_below_mono f n (suc k) = omega (arith, ap (sum_below f) (add-suc n k), sum_below_mono f n k)

-- What the loop finds: the first bucket by which `target` events are reached, or that none of the
-- first `limit` buckets reaches it.
abbrev pub Found : (ℕ → ℕ) → ℕ → ℕ → Option ℕ → Type 0
Found f target limit (some k) =
    (k < limit) × (target ≤ sum_below f (suc k)) × ((k ≡ 0) ⊎ (sum_below f k < target))
Found f target limit none = (limit ≡ 0) ⊎ (sum_below f limit < target)

scan-Found :
    (f : ℕ → ℕ) (target limit left i c : ℕ)
    → sum_below f limit < word
    → i + left ≡ limit
    → c ≡ sum_below f i
    → (i ≡ 0) ⊎ (sum_below f i < target)
    → Found f target limit (scan f target left i c)
unfolding scan
scan-Found f target limit zero i c small e ec prior =
    let same : i ≡ limit = omega arith in rw (← same) prior
scan-Found f target limit (suc left) i c small e ec prior =
    let step : sum_below f (i + 1) ≡ sum_below f i + f i = ap (sum_below f) (add-one i) in
    let upto : sum_below f (suc i + left) ≡ sum_below f limit = ap (sum_below f) (omega arith) in
    ground (
      arith,
      sum_below_mono f (suc i) left,
      scan-Found f target limit left (i + 1) (add_word c (f i)),
    )

module _ (histogram_buckets max_latency_us : ℕ) where
  -- With no more than 2 ^ 64 events the percentile is the first microsecond by which `target` events
  -- have been seen, or MAX_LATENCY_US if the buckets below the overflow bucket hold fewer; with no
  -- event it is 0.
  pub percentile_lem :
      (target_of : ℕ → ℕ) (h : LatencyHistogram)
      → 0 < histogram_buckets
      → sum_below h.buckets (suc histogram_buckets) < word
      → let t = sum_below h.buckets (suc histogram_buckets) in
        let p = percentile histogram_buckets max_latency_us target_of h in
        ((t ≡ 0) × (p ≡ 0))
        ⊎ ((p < histogram_buckets)
            × (target_of t ≤ sum_below h.buckets (suc p))
            × ((p ≡ 0) ⊎ (sum_below h.buckets p < target_of t)))
        ⊎ ((p ≡ max_latency_us) × (sum_below h.buckets histogram_buckets < target_of t))
  unfolding percentile
  percentile_lem target_of h pos small = ground (
    arith,
    total-sum_below h.buckets (suc histogram_buckets),
    scan-Found h.buckets (target_of (sum_below h.buckets (suc histogram_buckets))) histogram_buckets
        histogram_buckets 0 0,
  )
