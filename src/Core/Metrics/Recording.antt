-- ===== src/Core/Metrics/Recording.antt =====
-- What a latency histogram says of the latencies recorded in it.
use klstream.Prelude.{
  ℕ, zero, suc, ◌+◌, ◌/◌, ◌≤◌, ◌<◌, ◌≡◌, refl, ap, ◌∙◌, arith, List, [], ◌∷◌, length, ltb, ◌==◌,
  if◌then◌else◌, word, add_word,
}
use klstream.Core.Metrics.Histogram.{
  LatencyHistogram, new, sum_below, bucket_of, add, percentile, percentile_lem,
}

-- One counter goes up.
bump-sum_below :
    (f : ℕ → ℕ) (idx k : ℕ)
    → sum_below f k + 1 < word
    → sum_below (λ j. if j == idx then add_word (f j) 1 else f j) k
      ≡ sum_below f k + (if ltb idx k then 1 else 0)
bump-sum_below f idx zero h = ground arith
bump-sum_below f idx (suc k) h = ground (arith, bump-sum_below f idx k)

-- How many of the latencies are below `k` microseconds.
abbrev pub count_below : ℕ → List ℕ → ℕ
count_below k [] = 0
count_below k (x ∷ xs) = (if ltb (x / 1000) k then 1 else 0) + count_below k xs

module _ (histogram_buckets : ℕ) where
  abbrev pub add_all : LatencyHistogram → List ℕ → LatencyHistogram
  add_all h [] = h
  add_all h (x ∷ xs) = add_all (add histogram_buckets h x) xs

  sum_below-add :
      (h : LatencyHistogram) (x k : ℕ)
      → sum_below h.buckets k + 1 < word
      → sum_below (add histogram_buckets h x).buckets k
        ≡ sum_below h.buckets k + (if ltb (bucket_of histogram_buckets x) k then 1 else 0)
  unfolding add
  sum_below-add h x k small = bump-sum_below h.buckets (bucket_of histogram_buckets x) k small

  sum_below-add_all :
      (h : LatencyHistogram) (xs : List ℕ) (k : ℕ)
      → k ≤ histogram_buckets
      → sum_below h.buckets k + length xs < word
      → sum_below (add_all h xs).buckets k ≡ sum_below h.buckets k + count_below k xs
  unfolding bucket_of
  sum_below-add_all h [] k le small = omega arith
  sum_below-add_all h (x ∷ xs) k le small =
      ground (arith, sum_below-add h x k, sum_below-add_all (add histogram_buckets h x) xs k)

  total-add_all :
      (h : LatencyHistogram) (xs : List ℕ)
      → sum_below h.buckets (suc histogram_buckets) + length xs < word
      → sum_below (add_all h xs).buckets (suc histogram_buckets)
        ≡ sum_below h.buckets (suc histogram_buckets) + length xs
  unfolding bucket_of
  total-add_all h [] small = omega arith
  total-add_all h (x ∷ xs) small = ground (
    arith,
    sum_below-add h x (suc histogram_buckets),
    total-add_all (add histogram_buckets h x) xs,
  )

  sum_below-new : (k : ℕ) → sum_below new.buckets k ≡ 0
  sum_below-new zero = refl
  sum_below-new (suc k) = omega (arith, sum_below-new k)

  -- The histogram of fewer than 2 ^ 64 latencies counts each once: the first k buckets hold those
  -- below k microseconds, for each k up to the overflow bucket, and all buckets hold all of them.
  pub add_all_counts :
      (xs : List ℕ) (k : ℕ)
      → length xs < word
      → k ≤ histogram_buckets
      → (sum_below (add_all new xs).buckets k ≡ count_below k xs)
        × (sum_below (add_all new xs).buckets (suc histogram_buckets) ≡ length xs)
  add_all_counts xs k small le = (
    omega (arith, sum_below-add_all new xs k le, sum_below-new k),
    omega (arith, total-add_all new xs, sum_below-new (suc histogram_buckets)),
  )

  -- The percentile of one event is 0, whatever its latency, where `pct * 1` is truncated to 0: for
  -- every `pct` below 1.
  pub percentile_single :
      (max_latency_us : ℕ) (target_of : ℕ → ℕ) (x : ℕ)
      → 0 < histogram_buckets
      → target_of 1 ≡ 0
      → percentile histogram_buckets max_latency_us target_of (add histogram_buckets new x) ≡ 0
  percentile_single max_latency_us target_of x pos e =
      let t = (add_all_counts (x ∷ []) 0 (omega arith) (omega arith)).1 in
      let h = add histogram_buckets new x in
      let low : target_of (sum_below h.buckets (suc histogram_buckets)) ≡ 0 = ap target_of t ∙ e in
      ground
        (arith, percentile_lem histogram_buckets max_latency_us target_of h pos (omega (arith, t)))
