-- ===== src/Operators/Progress.antt =====
-- What the status of a tick means, for the operators of `Node`: the worker of
-- include/klstream/core/worker.hpp goes by it.
use klstream.Prelude.{
  ℕ, ◌+◌, ◌-◌, ◌*◌, ◌<◌, ◌≡◌, ◌≢◌, ◌⊎◌, inl, inr, arith, Bool, true, false, [], length,
  if◌then◌else◌, Bool-cases,
}
use klstream.Core.Event.{Event}
use klstream.Core.Operator.{OpStatus, processed, idle, blocked}
use klstream.Core.SpscQueue.{SpscQueue}
use klstream.Core.SpscQueue.Client.{IsSound, items, try_push-Pushed, try_pop-Popped}
use klstream.Operators.Outlet.{Outlet, retry, emit}
use klstream.Operators.Stage.{Ticked}
use klstream.Operators.Node.{Node, Handler, take_one, tick}
use klstream.Operators.Map
use klstream.Operators.Filter
use klstream.Operators.Aggregate
use klstream.Operators.Aggregate.{Aggregate}
use klstream.Operators.CountWindow
use klstream.Operators.CountWindow.{CountWindow}

module _ {Out : Type 0} where
  abbrev pub IsFull : SpscQueue (Event Out) → Type 0
  IsFull q = length (items q) ≡ q.capacity - 1

  -- What a handler, or a retry, reports: that nothing is held back, or that the queue was full.
  abbrev pub Reports : SpscQueue (Event Out) → OpStatus → Outlet Out → Type 0
  Reports output status o' =
      ((status ≡ processed) × (o'.has_pending ≡ false))
      ⊎ ((status ≡ blocked) × (o'.has_pending ≡ true) × IsFull output)

  retry-Reports :
      (o : Outlet Out) (output : SpscQueue (Event Out))
      → IsSound output
      → o.has_pending ≡ true
      → Reports output (retry o output).0 (retry o output).1
  unfolding retry
  retry-Reports o output v h = ground (arith, try_push-Pushed o.pending output v)

  emit-Reports :
      (ev : Event Out) (o : Outlet Out) (output : SpscQueue (Event Out))
      → IsSound output
      → o.has_pending ≡ false
      → Reports output (emit ev o output).0 (emit ev o output).1
  unfolding emit
  emit-Reports ev o output v h = ground (arith, try_push-Pushed ev output v)

module _ {S In Out : Type 0} where
  -- The events that are still to be handled, those held back counting half.
  abbrev pub backlog : Node S Out → SpscQueue (Event In) → ℕ
  backlog n input = 2 * length (items input) + (if n.outlet.has_pending then 1 else 0)

  -- Idle: there was nothing to do, and nothing has changed. Blocked: the output queue was full, and
  -- an event is held back. Processed: nothing is held back, and less is left to do.
  abbrev pub Means :
      Node S Out
      → SpscQueue (Event In)
      → SpscQueue (Event Out)
      → Ticked (Node S Out) In Out
      → Type 0
  Means n input output (status, n', input', output') =
      ((status ≡ idle)
        × (n.outlet.has_pending ≡ false)
        × (items input ≡ [])
        × (items input' ≡ [])
        × (items output' ≡ items output)
        × (n'.own ≡ n.own)
        × (n'.outlet.has_pending ≡ false))
      ⊎ ((status ≡ blocked) × (n'.outlet.has_pending ≡ true) × IsFull output)
      ⊎ ((status ≡ processed)
          × (n'.outlet.has_pending ≡ false)
          × (backlog n' input' < backlog n input))

  abbrev pub HandlerReports : Handler S In Out → Type 0
  HandlerReports handle =
      (s : S) (ev : Event In) (o : Outlet Out) (output : SpscQueue (Event Out))
      → IsSound output
      → o.has_pending ≡ false
      → Reports output (handle s ev o output).0 (handle s ev o output).2

  take_one-Means :
      (handle : Handler S In Out)
      → HandlerReports handle
      → (n : Node S Out) (input : SpscQueue (Event In)) (output : SpscQueue (Event Out))
      → IsSound input
      → IsSound output
      → n.outlet.has_pending ≡ false
      → Means n input output (take_one handle n input output)
  unfolding take_one
  take_one-Means handle reports n input output vi vo h =
      let (v, _, cases) = try_pop-Popped input vi in
      elim cases [
        | inl e ↦ ground arith
        | inr (ev, e, i) ↦ ground (arith, reports n.own ev n.outlet output vo h)
      ]

  -- The status of a tick means what the documentation of `OpStatus` says.
  pub tick-Means :
      (handle : Handler S In Out)
      → HandlerReports handle
      → (n : Node S Out) (input : SpscQueue (Event In)) (output : SpscQueue (Event Out))
      → IsSound input
      → IsSound output
      → Means n input output (tick handle n input output)
  unfolding tick
  tick-Means handle reports n input output vi vo = elim (Bool-cases n.outlet.has_pending) [
    | inl h ↦ ground (arith, retry-Reports n.outlet output vo h)
    | inr h ↦ ground (arith, take_one-Means handle reports n input output vi vo h)
  ]

  -- Once an event is held back, a tick takes nothing from the input and never hands an event to the
  -- operator's own code: it only tries to push that event.
  pub tick-held :
      (handle : Handler S In Out) (n : Node S Out) (input : SpscQueue (Event In))
      (output : SpscQueue (Event Out))
      → n.outlet.has_pending ≡ true
      → let (status, n', input', output') = tick handle n input output in
        (input' ≡ input) × (n'.own ≡ n.own) × (status ≢ idle)
  unfolding tick retry
  tick-held handle n input output h = ground arith

-- The four operators between two queues.
pub map_tick-Means :
    {In Out : Type 0} (n : Node (In → Out) Out) (input : SpscQueue (Event In))
    (output : SpscQueue (Event Out))
    → IsSound input
    → IsSound output
    → Means n input output (Map.tick n input output)
unfolding Map.tick
map_tick-Means =
    tick-Means Map.handle λ fn ev o output v h. emit-Reports (Map.apply fn ev) o output v h

pub filter_tick-Means :
    {T : Type 0} (n : Node (T → Bool) T) (input output : SpscQueue (Event T))
    → IsSound input
    → IsSound output
    → Means n input output (Filter.tick n input output)
unfolding Filter.tick
filter_tick-Means =
    tick-Means Filter.handle λ pred ev o output v h. ground (arith, emit-Reports ev o output v h)

pub aggregate_tick-Means :
    {In St Out : Type 0} (n : Node (Aggregate In St Out) Out) (input : SpscQueue (Event In))
    (output : SpscQueue (Event Out))
    → IsSound input
    → IsSound output
    → Means n input output (Aggregate.tick n input output)
unfolding Aggregate.tick
aggregate_tick-Means = tick-Means Aggregate.handle λ a ev o output v h.
    emit-Reports (Aggregate.extracted a (a.accum a.state ev.payload) ev) o output v h

pub window_tick-Means :
    {T Out : Type 0} (n : Node (CountWindow T Out) Out) (input : SpscQueue (Event T))
    (output : SpscQueue (Event Out))
    → IsSound input
    → IsSound output
    → Means n input output (CountWindow.tick n input output)
unfolding CountWindow.tick
window_tick-Means = tick-Means CountWindow.handle λ w ev o output v h.
    ground (arith, emit-Reports (CountWindow.fired (CountWindow.add w ev) ev) o output v h)
