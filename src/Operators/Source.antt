-- ===== src/Operators/Source.antt =====
-- `SourceOperator` of include/klstream/operators/source.hpp. What the generator function has captured
-- is a value that it returns anew; `none` is its return of false.
pub mod Emission
pub mod Starvation
mod Tests
use klstream.Prelude.{ℕ, ◌+◌, Bool, true, false, not, Option, none, some, if◌then◌else◌, add_word}
use klstream.Core.Event.{Event}
use klstream.Core.Metrics.{count_blocked, count_idle}
use klstream.Core.Operator.{OpStatus, processed, idle, blocked}
use klstream.Core.SpscQueue.{SpscQueue}
use klstream.Core.Double.{Double, min_of}
use klstream.Core.Backpressure.{
  EmaOccupancyTracker, TokenBucketRateLimiter, occupancy, update, soft_pressure, hard_pressure,
  new_limiter, try_consume, set_rate,
}
use klstream.Operators.Outlet.{Outlet, retry, emit}

module _ (d : Double) where
  open d use {Carrier, of_nat, decimal, times}

  pub record SourceOperator (G T : Type 0) : Type 0 where
    pub captured : G
    pub gen : G → ℕ → Option (Event T) × G
    pub seq : ℕ
    pub outlet : Outlet T
    pub original_rate : Carrier
    pub limiter : Option (TokenBucketRateLimiter d)
    pub ema_tracker : Option (EmaOccupancyTracker d)

  -- The new rate of the limiter, where there is one.
  unfoldable pub adapt :
      Bool → Carrier → Option (TokenBucketRateLimiter d) → Option (TokenBucketRateLimiter d)
  adapt soft original_rate none = none
  adapt soft original_rate (some l) = some (
      if soft
      then set_rate d (times l.rate (decimal 5 1)) l
      else set_rate d (min_of d (times l.rate (decimal 105 2)) original_rate) l)

  module _ {G T : Type 0} where
    -- Only the limiter and the tracker are made; `original_rate_` keeps its value.
    unfoldable pub enable_rate_limiting : Carrier → ℕ → SourceOperator G T → SourceOperator G T
    enable_rate_limiting events_per_sec now s = record s {
      limiter = some (new_limiter d events_per_sec (of_nat 0) now);
      ema_tracker = some (record { alpha = decimal 10 2; ema = of_nat 0 });
    }

    -- The constructor.
    unfoldable pub new_source : G → (G → ℕ → Option (Event T) × G) → Event T → SourceOperator G T
    new_source captured gen nothing = record {
      captured = captured;
      gen = gen;
      seq = 0;
      outlet = record { pending = nothing; has_pending = false; metrics = none };
      original_rate = of_nat 0;
      limiter = none;
      ema_tracker = none;
    }

    -- From the retry of an event held back on.
    unfoldable pub generate :
        SourceOperator G T
        → SpscQueue (Event T)
        → OpStatus × SourceOperator G T × SpscQueue (Event T)
    generate s output =
        if s.outlet.has_pending
        then (let (status, o, output') = retry s.outlet output in
            (status, record s { outlet = o }, output'))
        else (let (made, captured') = s.gen s.captured s.seq in
            let s' = record s { captured = captured'; seq = add_word s.seq 1 } in
            elim made [
              | none ↦ (
                idle,
                record s' { outlet = record (s.outlet) { metrics = count_idle s.outlet.metrics } },
                output,
              )
              | some ev ↦
                  let (status, o, output') = emit ev s.outlet output in
                  (status, record s' { outlet = o }, output')
            ])

    -- From the check of the rate limiter on.
    unfoldable pub limited :
        ℕ
        → SourceOperator G T
        → SpscQueue (Event T)
        → OpStatus × SourceOperator G T × SpscQueue (Event T)
    limited now s output = elim s.limiter [
      | none ↦ generate s output
      | some l ↦
          let (granted, l') = try_consume d now l in
          let s' = record s { limiter = some l' } in
          if not granted
          then (
            idle,
            record s' { outlet = record (s.outlet) { metrics = count_idle s.outlet.metrics } },
            output,
          )
          else generate s' output
    ]

    unfoldable pub tick :
        ℕ
        → SourceOperator G T
        → SpscQueue (Event T)
        → OpStatus × SourceOperator G T × SpscQueue (Event T)
    tick now s output = elim s.ema_tracker [
      | none ↦ limited now s output
      | some t ↦
          let t' = update d (occupancy d output) t in
          let s' = record s { ema_tracker = some t' } in
          if hard_pressure d (occupancy d output)
          then (
            blocked,
            record s' { outlet = record (s.outlet) { metrics = count_blocked s.outlet.metrics } },
            output,
          )
          else limited now
              (record s' { limiter = adapt (soft_pressure d t') s.original_rate s.limiter }) output
    ]
