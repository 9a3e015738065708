-- ===== src/Operators/Source/Starvation.antt =====
-- Rate limiting in the source: `original_rate_` is never set, so the rate that the code means to
-- recover towards is 0.
use klstream.Prelude.{
  ℕ, ◌-◌, ◌≡◌, ◌≢◌, inl, inr, refl, arith, Bool, true, false, Option, none, some, Option-cases,
  Bool-cases, if◌then◌else◌,
}
use klstream.Core.Event.{Event}
use klstream.Core.Metrics.{count_blocked, count_idle}
use klstream.Core.Operator.{processed, idle, blocked}
use klstream.Core.SpscQueue.{SpscQueue}
use klstream.Core.Double.{Double, min_of}
use klstream.Core.Backpressure.{
  EmaOccupancyTracker, TokenBucketRateLimiter, occupancy, update, soft_pressure, hard_pressure,
  try_consume, refill, set_rate, new_limiter,
}
use klstream.Operators.Source.{SourceOperator, limited, tick, adapt, generate, enable_rate_limiting}

-- The facts of the arithmetic with 0.0 that the theorems use.
pub record ZeroLaws (d : Double) : Type 0 where
  pub times_zero : (ns : ℕ) → d.times (d.seconds ns) (d.of_nat 0) ≡ d.of_nat 0
  pub zero_times : (units k : ℕ) → d.times (d.of_nat 0) (d.decimal units k) ≡ d.of_nat 0
  pub plus_zero : (x : d.Carrier) → d.plus x (d.of_nat 0) ≡ x

module _ (d : Double) where
  -- A limiter that has no token left, and gets no more.
  pub record IsDry (l : TokenBucketRateLimiter d) : Type 0 where
    pub rate : l.rate ≡ d.of_nat 0
    pub below_one : d.le (d.decimal 10 1) l.tokens ≡ false
    pub below_max : d.lt l.max_tokens l.tokens ≡ false

  abbrev adapted_rate : Bool → TokenBucketRateLimiter d → d.Carrier
  adapted_rate soft l =
      if soft
      then d.times l.rate (d.decimal 5 1)
      else min_of d (d.times l.rate (d.decimal 105 2)) (d.of_nat 0)

  adapted_rate_zero :
      ZeroLaws d
      → (soft : Bool) (l : TokenBucketRateLimiter d) → IsDry l
      → adapted_rate soft l ≡ d.of_nat 0
  adapted_rate_zero laws true l v = ground (arith, laws.zero_times 5 1, v.rate)
  adapted_rate_zero laws false l v =
      elim (Bool-cases (d.lt (d.of_nat 0) (d.times l.rate (d.decimal 105 2)))) [
        | inl h ↦ ground arith
        | inr h ↦ ground (arith, laws.zero_times 105 2, v.rate)
      ]

  adapt-IsDry :
      ZeroLaws d
      → (soft : Bool) (l : TokenBucketRateLimiter d) → IsDry l
      → (adapt d soft (d.of_nat 0) (some l) ≡ some (record l { rate = adapted_rate soft l }))
        × IsDry (record l { rate = adapted_rate soft l })
  unfolding adapt set_rate
  adapt-IsDry laws soft l v = ground (arith, adapted_rate_zero laws soft l v)

  try_consume-IsDry :
      ZeroLaws d
      → (now : ℕ) (l : TokenBucketRateLimiter d) → IsDry l
      → ((try_consume d now l).0 ≡ false) × IsDry (try_consume d now l).1
  unfolding try_consume refill
  try_consume-IsDry laws now l v =
      ground (arith, laws.times_zero (now - l.last), laws.plus_zero l.tokens)

  try_consume-rate :
      (now : ℕ) (l : TokenBucketRateLimiter d) → (try_consume d now l).1.rate ≡ l.rate
  unfolding try_consume refill
  try_consume-rate now l = elim (Bool-cases (d.le (d.decimal 10 1) (refill d now l).tokens)) [
    | inl h ↦ ground arith
    | inr h ↦ ground arith
  ]

  abbrev pub rate_of : Option (TokenBucketRateLimiter d) → Option d.Carrier
  rate_of none = none
  rate_of (some l) = some l.rate

  module _ {G T : Type 0} where
    generate-limiter :
        (s : SourceOperator d G T) (output : SpscQueue (Event T))
        → (generate d s output).1.limiter ≡ s.limiter
    unfolding generate
    generate-limiter s output = elim (Bool-cases s.outlet.has_pending) [
      | inl h ↦ ground arith
      | inr h ↦ elim (Option-cases (s.gen s.captured s.seq).0) [
        | inl e ↦ ground arith
        | inr (ev, e) ↦ ground arith
      ]
    ]

    limited-rate :
        (now : ℕ) (s : SourceOperator d G T) (output : SpscQueue (Event T))
        (l : TokenBucketRateLimiter d)
        → s.limiter ≡ some l
        → rate_of (limited d now s output).1.limiter ≡ some l.rate
    unfolding limited
    limited-rate now s output l e = ground (
      arith,
      generate-limiter (record s { limiter = some (try_consume d now l).1 }) output,
      try_consume-rate now l,
    )

    -- A source with rate limiting and an empty bucket.
    pub record IsStarved (s : SourceOperator d G T) : Type 0 where
      pub target : s.original_rate ≡ d.of_nat 0
      pub tracker : EmaOccupancyTracker d
      pub tracked : s.ema_tracker ≡ some tracker
      pub bucket : TokenBucketRateLimiter d
      pub bucketed : s.limiter ≡ some bucket
      pub dry : IsDry bucket

    -- Where the output has no pressure, the first tick of a source whose rate limiting was turned on
    -- sets the rate to 0, whatever rate was asked for: the target of the recovery is the
    -- `original_rate_` that the constructor left at 0.0.
    pub tick-enable_rate_limiting :
        (events_per_sec : d.Carrier) (made now : ℕ)
        → (s : SourceOperator d G T) → (output : SpscQueue (Event T)) → s.original_rate ≡ d.of_nat 0
        → d.lt (d.of_nat 0) (d.times events_per_sec (d.decimal 105 2)) ≡ true
        → hard_pressure d (occupancy d output) ≡ false
        → soft_pressure d
            (update d (occupancy d output) (record { alpha = d.decimal 10 2; ema = d.of_nat 0 }))
          ≡ false
        → rate_of (tick d now (enable_rate_limiting d events_per_sec made s) output).1.limiter
          ≡ some (d.of_nat 0)
    unfolding tick enable_rate_limiting limited generate adapt set_rate new_limiter
    tick-enable_rate_limiting events_per_sec made now s output e above hard soft =
        let t' =
          update d (occupancy d output) (record { alpha = d.decimal 10 2; ema = d.of_nat 0 }) in
        let l' = record (new_limiter d events_per_sec (d.of_nat 0) made) { rate = d.of_nat 0 } in
        let s' = record (enable_rate_limiting d events_per_sec made s) {
          ema_tracker = some t';
          limiter = some l';
        } in
        ground (arith, limited-rate now s' output l' refl)

    -- Once the bucket is empty a source with rate limiting makes nothing more, for ever: no tick calls
    -- the generator, pushes an event or an event held back, or gives a status but idle and blocked,
    -- and the bucket stays empty.
    pub tick-IsStarved :
        ZeroLaws d
        → (now : ℕ) (s : SourceOperator d G T) (output : SpscQueue (Event T)) → IsStarved s
        → ((tick d now s output).0 ≢ processed)
          × ((tick d now s output).1.captured ≡ s.captured)
          × ((tick d now s output).1.seq ≡ s.seq)
          × ((tick d now s output).2 ≡ output)
          × IsStarved (tick d now s output).1
    unfolding tick limited
    tick-IsStarved laws now s output v =
        let t' = update d (occupancy d output) v.tracker in
        let soft = soft_pressure d t' in
        let l' = record v.bucket { rate = adapted_rate soft v.bucket } in
        let (adapted, dry) = adapt-IsDry laws soft v.bucket v.dry in
        let (refused, dry') = try_consume-IsDry laws now l' dry in
        let s' = record s { ema_tracker = some t' } in
        let s_blocked = record s' {
          outlet = record (s.outlet) { metrics = count_blocked s.outlet.metrics };
        } in
        let s_idle = record s' {
          outlet = record (s.outlet) { metrics = count_idle s.outlet.metrics };
          limiter = some (try_consume d now l').1;
        } in
        elim (Bool-cases (hard_pressure d (occupancy d output))) [
          | inl h ↦
              let e : tick d now s output ≡ (blocked, s_blocked, output) =
                ground (arith, v.tracked) in
              rw e (
                (λ w. ground arith),
                refl,
                refl,
                refl,
                record {
                  target = v.target;
                  tracker = t';
                  tracked = refl;
                  bucket = v.bucket;
                  bucketed = v.bucketed;
                  dry = v.dry;
                },
              )
          | inr h ↦
              let e : tick d now s output ≡ (idle, s_idle, output) =
                ground (arith, v.tracked, v.bucketed, v.target, adapted, refused) in
              rw e (
                (λ w. ground arith),
                refl,
                refl,
                refl,
                record {
                  target = v.target;
                  tracker = t';
                  tracked = refl;
                  bucket = (try_consume d now l').1;
                  bucketed = refl;
                  dry = dry';
                },
              )
        ]
