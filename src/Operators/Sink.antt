-- ===== src/Operators/Sink.antt =====
-- `SinkOperator` of include/klstream/operators/sink.hpp. The consumer function may change what it has
-- captured: `seen` is that, and the function returns it anew.
use klstream.Prelude.{◌≡◌, ◌⊎◌, inl, inr, arith, Option, none, some, List, [], ◌∷◌, ◌++◌}
use klstream.Core.Event.{Event}
use klstream.Core.Metrics.{OperatorMetrics, count_processed, count_idle}
use klstream.Core.Operator.{OpStatus, processed, idle}
use klstream.Core.SpscQueue.{SpscQueue, try_pop}
use klstream.Core.SpscQueue.Client.{IsSound, items, try_pop-Popped}

pub record SinkOperator (C T : Type 0) : Type 0 where
  pub seen : C
  pub consumer : C → Event T → C
  pub metrics : Option OperatorMetrics

module _ {C T : Type 0} where
  unfoldable pub tick :
      SinkOperator C T → SpscQueue (Event T) → OpStatus × SinkOperator C T × SpscQueue (Event T)
  tick s input =
      let (popped, input') = try_pop input in
      elim popped [
        | none ↦ (idle, record s { metrics = count_idle s.metrics }, input')
        | some ev ↦ (
          processed,
          record s { seen = s.consumer s.seen ev; metrics = count_processed s.metrics },
          input',
        )
      ]

  -- The consumer called on each of the events in order.
  abbrev pub consumed : (C → Event T → C) → C → List (Event T) → C
  consumed f c [] = c
  consumed f c (ev ∷ xs) = consumed f (f c ev) xs

  -- A tick of the sink hands the oldest event to the consumer, once, or finds the queue empty: what
  -- the consumer will have seen of the queue and of any `future` behind it stays the same; the status
  -- says which it was.
  pub tick-consumed :
      (s : SinkOperator C T) (input : SpscQueue (Event T)) (future : List (Event T))
      → IsSound input
      → let (status, s', input') = tick s input in
        IsSound input'
        × (consumed s'.consumer s'.seen (items input' ++ future)
            ≡ consumed s.consumer s.seen (items input ++ future))
        × (((status ≡ idle) × (items input ≡ []))
            ⊎ ((status ≡ processed) × ((ev : Event T) × (items input ≡ ev ∷ items input'))))
  unfolding tick
  tick-consumed s input future v =
      let (v', _, cases) = try_pop-Popped input v in
      elim cases [
        | inl e ↦ (ground arith, ground arith, inl (ground arith))
        | inr (ev, d, e) ↦ (ground arith, ground arith, inr (ground arith, (ev, ground arith)))
      ]
