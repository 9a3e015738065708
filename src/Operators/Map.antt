-- ===== src/Operators/Map.antt =====
-- `MapOperator` of include/klstream/operators/map.hpp.
use klstream.Prelude.{List, map}
use klstream.Core.Event.{Event}
use klstream.Core.SpscQueue.{SpscQueue}
use klstream.Core.SpscQueue.Client.{IsSound}
use klstream.Operators.Outlet.{emit, emit-Pays}
use klstream.Operators.Stage.{Ticked, Keeps, Stage}
use klstream.Operators.Node
use klstream.Operators.Node.{Node, Handler, Pays, promise}

-- The operator, with its function; input and output queue are arguments of `tick`.
abbrev pub MapOperator : Type 0 → Type 0 → Type 0
MapOperator In Out = Node (In → Out) Out

module _ {In Out : Type 0} where
  -- The event that goes out: the metadata are forwarded.
  unfoldable pub apply : (In → Out) → Event In → Event Out
  apply fn e = record {
    timestamp_ns = e.timestamp_ns;
    key = e.key;
    seq = e.seq;
    payload = fn e.payload;
  }

  unfoldable pub handle : Handler (In → Out) In Out
  handle fn in_ev o output =
      let (status, o', output') = emit (apply fn in_ev) o output in (status, fn, o', output')

  unfoldable pub tick :
      MapOperator In Out
      → SpscQueue (Event In)
      → SpscQueue (Event Out)
      → Ticked (MapOperator In Out) In Out
  unfolding handle
  tick = Node.tick handle

  -- What it owes for the events to come.
  abbrev pub owed : (In → Out) → List (Event In) → List (Event Out)
  owed fn xs = map (apply fn) xs

  handle-Pays : Pays owed handle
  unfolding handle
  handle-Pays fn ev o output rest v h = emit-Pays (apply fn ev) o output (owed fn rest) v h

  -- Each event is transformed once and goes out in its order, whatever the queues do: a tick leaves
  -- the same in all.
  pub map_tick-Keeps :
      (n : MapOperator In Out) (input : SpscQueue (Event In)) (output : SpscQueue (Event Out))
      (future : List (Event In))
      → IsSound input
      → IsSound output
      → Keeps (promise owed) n input output future (tick n input output)
  unfolding tick
  map_tick-Keeps = Node.tick-Keeps owed handle handle-Pays

  unfoldable pub stage : Stage In Out
  stage = record {
    State = MapOperator In Out;
    tick = tick;
    promise = promise owed;
    tick-Keeps = map_tick-Keeps;
  }
