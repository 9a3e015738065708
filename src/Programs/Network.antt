-- ===== src/Programs/Network.antt =====
-- What the programs under examples have in common: a source, operators in a row and a sink, which the
-- workers of include/klstream/core/worker.hpp tick in any order and at any readings of the clock.
pub mod Invariant
pub mod Delivery
use mathlib.Core.Path.{subst⁻¹}
use klstream.Prelude.{
  ℕ, ◌≡◌, refl, ap, sym, ◌∙◌, arith, false, Option, none, some, List, [], ◌∷◌, ◌++◌, append-nil,
  append_assoc, ◌+◌, ◌≤◌, length, length-append, inl, inr, Option-cases, Bool-cases,
}
use klstream.Core.Double.{Double}
use klstream.Core.Event.{Event}
use klstream.Core.SpscQueue.{SpscQueue, init}
use klstream.Core.SpscQueue.Client.{
  IsSound, items, try_pop-Popped, fresh, init-fresh, fresh-IsSound,
}
use klstream.Operators.Outlet.{held}
use klstream.Operators.Pipeline.{Chain, State, Sound, promise, tick_at, tick_at-Keeps}
use klstream.Operators.Sink
use klstream.Operators.Sink.{SinkOperator, consumed}
use klstream.Operators.Source
use klstream.Operators.Source.{SourceOperator}
use klstream.Operators.Source.Emission.{tick-Emits, tick-gen}

-- What a call of a generator has made, as a list.
abbrev pub listed : {A : Type 0} → Option A → List A
listed none = []
listed (some a) = a ∷ []

-- A generator that also remembers the events that it has made.
abbrev pub remembering :
    {G A : Type 0}
    → (G → ℕ → Option (Event A) × G)
    → List (Event A) × G
    → ℕ
    → Option (Event A) × (List (Event A) × G)
remembering gen (made, g) n = let (out, g') = gen g n in (out, (made ++ listed out, g'))

-- A queue of 4096 slots from the constructor.
abbrev pub queue : {A : Type 0} → (ℕ → Event A) → SpscQueue (Event A)
queue memory = fresh memory 4096

pub queue_made : {A : Type 0} (memory : ℕ → Event A) → init memory 4096 ≡ some (queue memory)
queue_made memory = init-fresh memory 4096 (omega arith) refl

pub queue-IsSound :
    {A : Type 0} (memory : ℕ → Event A) → IsSound (queue memory) × (items (queue memory) ≡ [])
queue-IsSound memory = fresh-IsSound memory 4096 (omega arith) (omega arith) refl

pub data Turn : Type 0 where
  source : ℕ → Turn  -- the source is ticked at a reading of the clock
  operator : ℕ → Turn  -- operator number k is ticked
  sink : Turn

module _ (d : Double) (G : Type 0) {A B : Type 0} (C : Type 0) (c : Chain A B) where
  pub record Network : Type 0 where
    pub source : SourceOperator d (List (Event A) × G) A
    pub input : SpscQueue (Event A)
    pub state : State c
    pub output : SpscQueue (Event B)
    pub sink : SinkOperator C B

  unfoldable pub turn : Network → Turn → Network
  turn w (source now) =
      let (status, s, input') = Source.tick d now w.source w.input in
      record w { source = s; input = input' }
  turn w (operator k) =
      let (status, st, input', output') = tick_at c k w.state w.input w.output in
      record w { input = input'; state = st; output = output' }
  turn w sink =
      let (status, s, output') = Sink.tick w.sink w.output in
      record w { sink = s; output = output' }

  unfoldable pub run : Network → List Turn → Network
  run w [] = w
  run w (t ∷ ts) = run (turn w t) ts

  -- What is under way: in the queues, in the operators, or held back by the source.
  abbrev pub under_way : Network → List (Event B)
  under_way w = items w.output ++ promise c w.state (items w.input ++ held w.source.outlet)

  -- The same with events to come.
  abbrev pub with_future : Network → List (Event A) → List (Event B)
  with_future w future =
      items w.output ++ promise c w.state (items w.input ++ (held w.source.outlet ++ future))

  -- Before anything has happened.
  pub record IsFresh (w : Network) : Type 0 where
    pub sound_input : IsSound w.input
    pub sound_output : IsSound w.output
    pub sound_between : Sound c w.state
    pub no_input : items w.input ≡ []
    pub no_output : items w.output ≡ []
    pub nothing_made : w.source.captured.0 ≡ []
    pub nothing_held : w.source.outlet.has_pending ≡ false
