-- ===== src/Operators/Aggregate.antt =====
-- `AggregateOperator` of include/klstream/operators/aggregate.hpp.
use klstream.Prelude.{List, ◌∷◌, [], ◌≡◌, refl, ap}
use klstream.Core.Event.{Event}
use klstream.Core.SpscQueue.{SpscQueue}
use klstream.Core.SpscQueue.Client.{IsSound}
use klstream.Operators.Outlet.{emit, emit-Pays}
use klstream.Operators.Stage.{Ticked, Keeps, Stage}
use klstream.Operators.Node
use klstream.Operators.Node.{Node, Handler, Pays, promise}

-- The running aggregate: `state_`, `accum_` and `extract_`.
pub record Aggregate (In St Out : Type 0) : Type 0 where
  pub state : St
  pub accum : St → In → St
  pub extract : St → Out

abbrev pub AggregateOperator : Type 0 → Type 0 → Type 0 → Type 0
AggregateOperator In St Out = Node (Aggregate In St Out) Out

module _ {In St Out : Type 0} where
  -- The event that goes out for `e` when the state has become `st`.
  unfoldable pub extracted : Aggregate In St Out → St → Event In → Event Out
  extracted a st e = record {
    timestamp_ns = e.timestamp_ns;
    key = e.key;
    seq = e.seq;
    payload = a.extract st;
  }

  unfoldable pub handle : Handler (Aggregate In St Out) In Out
  handle a in_ev o output =
      let st = a.accum a.state in_ev.payload in
      let (status, o', output') = emit (extracted a st in_ev) o output in
      (status, record a { state = st }, o', output')

  unfoldable pub tick :
      AggregateOperator In St Out
      → SpscQueue (Event In)
      → SpscQueue (Event Out)
      → Ticked (AggregateOperator In St Out) In Out
  unfolding handle
  tick = Node.tick handle

  -- The aggregates of the events to come, from the state `st` on.
  abbrev pub running : Aggregate In St Out → St → List (Event In) → List (Event Out)
  running a st [] = []
  running a st (e ∷ xs) = let st' = a.accum st e.payload in extracted a st' e ∷ running a st' xs

  abbrev pub owed : Aggregate In St Out → List (Event In) → List (Event Out)
  owed a xs = running a a.state xs

  running_other :
      (a : Aggregate In St Out) (t st : St) (xs : List (Event In))
      → running (record a { state = t }) st xs ≡ running a st xs
  unfolding extracted
  running_other a t st [] = refl
  running_other a t st (e ∷ xs) =
      ap (◌∷◌ (extracted a (a.accum st e.payload) e)) (running_other a t (a.accum st e.payload) xs)

  handle-Pays : Pays owed handle
  unfolding handle
  handle-Pays a ev o output rest v h =
      let st = a.accum a.state ev.payload in
      rw (running_other a st st rest)
        (emit-Pays (extracted a st ev) o output (running a st rest) v h)

  -- Each event updates the state once, in its order, and the aggregate after it goes out: a tick
  -- leaves the same in all.
  pub aggregate_tick-Keeps :
      (n : AggregateOperator In St Out) (input : SpscQueue (Event In))
      (output : SpscQueue (Event Out)) (future : List (Event In))
      → IsSound input
      → IsSound output
      → Keeps (promise owed) n input output future (tick n input output)
  unfolding tick
  aggregate_tick-Keeps = Node.tick-Keeps owed handle handle-Pays

unfoldable pub stage : {In Out : Type 0} (St : Type 0) → Stage In Out
stage {In} {Out} St = record {
  State = AggregateOperator In St Out;
  tick = tick;
  promise = promise owed;
  tick-Keeps = aggregate_tick-Keeps;
}
