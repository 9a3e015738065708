-- ===== src/Operators/Source/Emission.antt =====
-- What a tick of the source puts out.
use klstream.Prelude.{
  ℕ, ◌≡◌, ◌⊎◌, inl, inr, arith, false, none, some, List, [], ◌∷◌, ◌++◌, append-nil, add_word,
  Option-cases, Bool-cases,
}
use klstream.Core.Event.{Event}
use klstream.Core.SpscQueue.{SpscQueue}
use klstream.Core.SpscQueue.Client.{IsSound, items}
use klstream.Core.Double.{Double}
use klstream.Core.Backpressure.{try_consume, occupancy, update, hard_pressure, soft_pressure}
use klstream.Operators.Outlet.{held, items-retry, items-emit}
use klstream.Operators.Source.{SourceOperator, generate, limited, tick, adapt}

module _ (d : Double) {G T : Type 0} where
  -- All that the source has made and that has not left the output queue.
  abbrev pub made_by : SourceOperator d G T → SpscQueue (Event T) → List (Event T)
  made_by s output = items output ++ held s.outlet

  -- The generator was not called, or it was called once with the next sequence number: then what it
  -- made, if anything, is behind all that was made before.
  abbrev pub Emits :
      SourceOperator d G T
      → SpscQueue (Event T)
      → SourceOperator d G T
      → SpscQueue (Event T)
      → Type 0
  Emits s output s' output' =
      IsSound output'
      × (((s'.captured ≡ s.captured) × (s'.seq ≡ s.seq) × (made_by s' output' ≡ made_by s output))
          ⊎ ((s'.captured ≡ (s.gen s.captured s.seq).1)
              × (s'.seq ≡ add_word s.seq 1)
              × (s.outlet.has_pending ≡ false)
              × (made_by s' output'
                  ≡ items output
                    ++ elim (s.gen s.captured s.seq).0 [ none ↦ [] | some ev ↦ ev ∷ [] ])))

  generate-Emits :
      (s : SourceOperator d G T) (output : SpscQueue (Event T))
      → IsSound output
      → Emits s output (generate d s output).1 (generate d s output).2
  unfolding generate
  generate-Emits s output v = elim (Bool-cases s.outlet.has_pending) [
    | inl h ↦ ground (arith, items-retry s.outlet output v h)
    | inr h ↦ elim (Option-cases (s.gen s.captured s.seq).0) [
      | inl e ↦ ground (arith, append-nil (items output))
      | inr (ev, e) ↦ ground (arith, items-emit ev s.outlet output v h)
    ]
  ]

  limited-Emits :
      (now : ℕ) (s : SourceOperator d G T) (output : SpscQueue (Event T))
      → IsSound output
      → Emits s output (limited d now s output).1 (limited d now s output).2
  unfolding limited
  limited-Emits now s output v = elim (Option-cases s.limiter) [
    | inl e ↦ ground (arith, generate-Emits s output v)
    | inr (l, e) ↦
        ground
          (arith, generate-Emits (record s { limiter = some (try_consume d now l).1 }) output v)
  ]

  -- A tick of the source, with or without rate limiting, loses no event: one that is held back stays
  -- until it is pushed, and a new one is made only when none is held back, and goes behind all others.
  pub tick-Emits :
      (now : ℕ) (s : SourceOperator d G T) (output : SpscQueue (Event T))
      → IsSound output
      → Emits s output (tick d now s output).1 (tick d now s output).2
  unfolding tick
  tick-Emits now s output v = elim (Option-cases s.ema_tracker) [
    | inl e ↦ ground (arith, limited-Emits now s output v)
    | inr (t, e) ↦ elim (Bool-cases (hard_pressure d (occupancy d output))) [
      | inl h ↦ ground arith
      | inr h ↦
          let t' = update d (occupancy d output) t in
          ground (
            arith,
            limited-Emits now
                (record s {
                  ema_tracker = some t';
                  limiter = adapt d (soft_pressure d t') s.original_rate s.limiter;
                })
                output v,
          )
    ]
  ]

  generate-gen :
      (s : SourceOperator d G T) (output : SpscQueue (Event T))
      → (generate d s output).1.gen ≡ s.gen
  unfolding generate
  generate-gen s output = elim (Bool-cases s.outlet.has_pending) [
    | inl h ↦ ground arith
    | inr h ↦ elim (Option-cases (s.gen s.captured s.seq).0) [
      | inl e ↦ ground arith
      | inr (ev, e) ↦ ground arith
    ]
  ]

  limited-gen :
      (now : ℕ) (s : SourceOperator d G T) (output : SpscQueue (Event T))
      → (limited d now s output).1.gen ≡ s.gen
  unfolding limited
  limited-gen now s output = elim (Option-cases s.limiter) [
    | inl e ↦ ground (arith, generate-gen s output)
    | inr (l, e) ↦
        ground (arith, generate-gen (record s { limiter = some (try_consume d now l).1 }) output)
  ]

  -- A tick keeps the generator function.
  pub tick-gen :
      (now : ℕ) (s : SourceOperator d G T) (output : SpscQueue (Event T))
      → (tick d now s output).1.gen ≡ s.gen
  unfolding tick
  tick-gen now s output = elim (Option-cases s.ema_tracker) [
    | inl e ↦ ground (arith, limited-gen now s output)
    | inr (t, e) ↦ elim (Bool-cases (hard_pressure d (occupancy d output))) [
      | inl h ↦ ground arith
      | inr h ↦
          let t' = update d (occupancy d output) t in
          ground (
            arith,
            limited-gen now
                (record s {
                  ema_tracker = some t';
                  limiter = adapt d (soft_pressure d t') s.original_rate s.limiter;
                })
                output,
          )
    ]
  ]
