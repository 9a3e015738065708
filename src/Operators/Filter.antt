-- ===== src/Operators/Filter.antt =====
-- `FilterOperator` of include/klstream/operators/filter.hpp.
use klstream.Prelude.{arith, Bool, not, List, ◌∷◌, [], if◌then◌else◌}
use klstream.Core.Event.{Event}
use klstream.Core.Metrics.{count_processed}
use klstream.Core.Operator.{processed}
use klstream.Core.SpscQueue.{SpscQueue}
use klstream.Core.SpscQueue.Client.{IsSound}
use klstream.Operators.Outlet.{emit, emit-Pays}
use klstream.Operators.Stage.{Ticked, Keeps, Stage}
use klstream.Operators.Node
use klstream.Operators.Node.{Node, Handler, Pays, promise}

-- The operator, with its predicate.
abbrev pub FilterOperator : Type 0 → Type 0
FilterOperator T = Node (T → Bool) T

module _ {T : Type 0} where
  -- An event that the predicate refuses is counted as processed and dropped.
  unfoldable pub handle : Handler (T → Bool) T T
  handle pred ev o output =
      if not (pred ev.payload)
      then (processed, pred, record o { metrics = count_processed o.metrics }, output)
      else (let (status, o', output') = emit ev o output in (status, pred, o', output'))

  unfoldable pub tick :
      FilterOperator T → SpscQueue (Event T) → SpscQueue (Event T) → Ticked (FilterOperator T) T T
  unfolding handle
  tick = Node.tick handle

  -- What it owes for the events to come: those that pass.
  abbrev pub owed : (T → Bool) → List (Event T) → List (Event T)
  owed pred [] = []
  owed pred (ev ∷ xs) = if pred ev.payload then ev ∷ owed pred xs else owed pred xs

  handle-Pays : Pays owed handle
  unfolding handle
  handle-Pays pred ev o output rest v h = ground (arith, emit-Pays ev o output (owed pred rest) v h)

  -- The events that pass go out unchanged and in order, and no other: a tick leaves the same in all.
  pub filter_tick-Keeps :
      (n : FilterOperator T) (input output : SpscQueue (Event T)) (future : List (Event T))
      → IsSound input
      → IsSound output
      → Keeps (promise owed) n input output future (tick n input output)
  unfolding tick
  filter_tick-Keeps = Node.tick-Keeps owed handle handle-Pays

  unfoldable pub stage : Stage T T
  stage = record {
    State = FilterOperator T;
    tick = tick;
    promise = promise owed;
    tick-Keeps = filter_tick-Keeps;
  }
