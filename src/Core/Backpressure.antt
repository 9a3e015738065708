-- ===== src/Core/Backpressure.antt =====
-- `EMAOccupancyTracker` and `TokenBucketRateLimiter` of include/klstream/core/backpressure.hpp over an
-- abstract `double`, with the thresholds of include/klstream/core/config.hpp. The clock's reading is
-- an argument, in nanoseconds; it never goes back.
use klstream.Prelude.{ℕ, ◌-◌, Bool, true, false, if◌then◌else◌}
use klstream.Core.Double.{Double}
use klstream.Core.SpscQueue.{SpscQueue, used}

module _ (d : Double) where
  open d use {Carrier, of_nat, decimal, seconds, plus, minus, times, over, lt, le}

  -- `occupancy` of a ring.
  unfoldable pub occupancy : {A : Type 0} → SpscQueue A → Carrier
  occupancy q = over (of_nat (used q)) (of_nat q.capacity)

  abbrev pub bp_soft_threshold : Carrier
  bp_soft_threshold = decimal 70 2

  abbrev pub bp_hard_threshold : Carrier
  bp_hard_threshold = decimal 95 2

  pub record EmaOccupancyTracker : Type 0 where
    pub alpha : Carrier
    pub ema : Carrier

  unfoldable pub update : Carrier → EmaOccupancyTracker → EmaOccupancyTracker
  update occ t = record t {
    ema = plus (times t.alpha occ) (times (minus (decimal 10 1) t.alpha) t.ema);
  }

  unfoldable pub soft_pressure : EmaOccupancyTracker → Bool
  soft_pressure t = lt bp_soft_threshold t.ema

  unfoldable pub hard_pressure : Carrier → Bool
  hard_pressure occ = lt bp_hard_threshold occ

  pub record TokenBucketRateLimiter : Type 0 where
    pub rate : Carrier
    pub tokens : Carrier
    pub max_tokens : Carrier
    pub last : ℕ

  -- The constructor; `max_burst` is 0.0 by default.
  unfoldable pub new_limiter : Carrier → Carrier → ℕ → TokenBucketRateLimiter
  new_limiter tokens_per_sec max_burst now = record {
    rate = tokens_per_sec;
    tokens = tokens_per_sec;
    max_tokens = if lt (of_nat 0) max_burst then max_burst else tokens_per_sec;
    last = now;
  }

  unfoldable pub refill : ℕ → TokenBucketRateLimiter → TokenBucketRateLimiter
  refill now l =
      let tokens' = plus l.tokens (times (seconds (now - l.last)) l.rate) in
      record l { last = now; tokens = if lt l.max_tokens tokens' then l.max_tokens else tokens' }

  unfoldable pub try_consume : ℕ → TokenBucketRateLimiter → Bool × TokenBucketRateLimiter
  unfolding refill
  try_consume now l =
      let l' = refill now l in
      if le (decimal 10 1) l'.tokens
      then (true, record l' { tokens = minus l'.tokens (decimal 10 1) })
      else (false, l')

  unfoldable pub set_rate : Carrier → TokenBucketRateLimiter → TokenBucketRateLimiter
  set_rate tokens_per_sec l = record l { rate = tokens_per_sec }
