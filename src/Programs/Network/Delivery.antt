-- ===== src/Programs/Network/Delivery.antt =====
-- What the consumer of the sink has seen after a run, and what the generator has made.
use mathlib.Core.Path.{subst⁻¹}
use klstream.Prelude.{
  ℕ, ◌≡◌, ap, ◌∙◌, arith, Option, none, some, List, [], ◌∷◌, ◌++◌, append-nil, ◌+◌, ◌≤◌, length,
  length-append, inl, inr,
}
use klstream.Core.Double.{Double}
use klstream.Core.Event.{Event}
use klstream.Operators.Pipeline.{Chain, promise}
use klstream.Operators.Sink.{consumed}
use klstream.Operators.Source.Emission.{tick-Emits}
use klstream.Programs.Network.{
  Turn, source, operator, sink, listed, remembering, Network, turn, run, under_way, IsFresh,
}
use klstream.Programs.Network.Invariant.{Inv, turn-Inv, run-Inv, fresh-Inv}

module _ (d : Double) (G : Type 0) {A B : Type 0} (C : Type 0) (c : Chain A B) where
  -- From a fresh start, and in whatever order and at whatever times the source, the operators and the
  -- sink are ticked, the consumer of the sink has seen, in order and each once, events `out` that with
  -- those under way are exactly what the operators make of the events that the generator has made.
  pub run_delivers :
      (gen : G → ℕ → Option (Event A) × G) (start : Network d G C c) (ts : List Turn)
      → start.source.gen ≡ remembering gen
      → IsFresh d G C c start
      → let w = run d G C c start ts in
        (out : List (Event B)) × (w.sink.seen ≡ consumed start.sink.consumer start.sink.seen out)
        × (out ++ under_way d G C c w ≡ promise c start.state w.source.captured.0)
  run_delivers gen start ts g v =
      let i = run-Inv d G C c ts start (fresh-Inv d G C c gen start g v) in
      (i.out, i.seen, simp append-nil at (i.balance []))

  length-listed :
      (made : List (Event A)) (out : Option (Event A))
      → length (made ++ listed out) ≤ length made + 1
  length-listed made none = omega (arith, length-append made [])
  length-listed made (some ev) = omega (arith, length-append made (ev ∷ []))

  turn_made :
      {gen : G → ℕ → Option (Event A) × G} {start : Network d G C c} (t : Turn)
      (w : Network d G C c)
      → Inv d G C c gen start w
      → length (turn d G C c w t).source.captured.0 ≤ length w.source.captured.0 + 1
  unfolding turn
  turn_made (operator k) w v = omega arith
  turn_made sink w v = omega arith
  turn_made {gen} (source now) w v =
      let s = w.source in
      let Bounded = λ (p : List (Event A) × G). length p.0 ≤ length s.captured.0 + 1 in
      elim ((tick-Emits d now s w.input v.sound_input).1) [
        | inl (e, _, _) ↦ subst⁻¹ Bounded e (omega arith)
        | inr (e, _, _, _) ↦
            subst⁻¹ Bounded (e ∙ ap (λ f. (f s.captured s.seq).1) v.same_gen)
              (length-listed s.captured.0 (gen s.captured.1 s.seq).0)
      ]

  run_made :
      {gen : G → ℕ → Option (Event A) × G} {start : Network d G C c} (ts : List Turn)
      (w : Network d G C c)
      → Inv d G C c gen start w
      → length (run d G C c w ts).source.captured.0 ≤ length w.source.captured.0 + length ts
  unfolding run
  run_made [] w v = omega arith
  run_made (t ∷ ts) w v =
      omega (arith, turn_made t w v, run_made ts (turn d G C c w t) (turn-Inv d G C c t w v))

  -- A turn makes at most one event.
  pub made-le :
      (gen : G → ℕ → Option (Event A) × G) (start : Network d G C c) (ts : List Turn)
      → start.source.gen ≡ remembering gen
      → IsFresh d G C c start
      → length (run d G C c start ts).source.captured.0 ≤ length ts
  made-le gen start ts g v =
      omega
        (arith, run_made ts start (fresh-Inv d G C c gen start g v), ap (length {0}) v.nothing_made)

  module _ (gen : G → ℕ → Option (Event A) × G) (P : List (Event A) × G → Type 0)
      (keep : (s : List (Event A) × G) (n : ℕ) → P s → P (remembering gen s n).1) where
    turn-captured :
        {start : Network d G C c} (t : Turn) (w : Network d G C c)
        → Inv d G C c gen start w
        → P w.source.captured
        → P (turn d G C c w t).source.captured
    unfolding turn
    turn-captured (operator k) w v p = p
    turn-captured sink w v p = p
    turn-captured (source now) w v p =
        let s = w.source in
        elim ((tick-Emits d now s w.input v.sound_input).1) [
          | inl (e, _, _) ↦ subst⁻¹ P e p
          | inr (e, _, _, _) ↦
              subst⁻¹ P (e ∙ ap (λ f. (f s.captured s.seq).1) v.same_gen) (keep s.captured s.seq p)
        ]

    run_captured :
        {start : Network d G C c} (ts : List Turn) (w : Network d G C c)
        → Inv d G C c gen start w
        → P w.source.captured
        → P (run d G C c w ts).source.captured
    unfolding run
    run_captured [] w v p = p
    run_captured (t ∷ ts) w v p =
        run_captured ts (turn d G C c w t) (turn-Inv d G C c t w v) (turn-captured t w v p)

    -- What the generator keeps true of what it has captured holds throughout a run.
    pub run-captured :
        (start : Network d G C c) (ts : List Turn)
        → start.source.gen ≡ remembering gen
        → IsFresh d G C c start
        → P start.source.captured
        → P (run d G C c start ts).source.captured
    run-captured start ts g v p = run_captured ts start (fresh-Inv d G C c gen start g v) p
