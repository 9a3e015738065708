-- ===== src/Operators/TimeWindow.antt =====
-- `TumblingTimeWindow` of include/klstream/operators/window.hpp. The clock's readings in a tick are
-- arguments: `now` is the one that the window's age is taken from, `reopened` the one of
-- `reset_window`. The duration is the count of nanoseconds cast to 64 bits.
pub mod Due
use klstream.Prelude.{
  ℕ, ◌-◌, ◌+◌, ◌%◌, ◌≡◌, ◌≢◌, ◌⊎◌, refl, arith, Bool, true, false, List, ◌∷◌, [], ◌++◌,
  append_assoc, append-nil, map, leb, if◌then◌else◌, inl, inr, Bool-cases, List-cases, Option-cases,
  ◌<◌, ◌≤◌, ◌↔◌, sym, ap, ◌∙◌, word, add_word,
}
use klstream.Core.Event.{Event}
use klstream.Core.Metrics.{count_processed}
use klstream.Core.Operator.{processed}
use klstream.Core.SpscQueue.{SpscQueue, try_pop}
use klstream.Core.SpscQueue.Client.{IsSound, items, try_pop-Popped}
use klstream.Operators.Outlet.{retry, emit, held, items-retry, items-emit}
use klstream.Operators.Stage.{Ticked}
use klstream.Operators.Node
use klstream.Operators.Node.{Node, Handler}

pub record TimeWindow (T Out : Type 0) : Type 0 where
  pub window_ns : ℕ
  pub aggr : List T → Out
  pub buffer : List T
  pub window_open_ns : ℕ
  pub window_count : ℕ

abbrev pub TumblingTimeWindow : Type 0 → Type 0 → Type 0
TumblingTimeWindow T Out = Node (TimeWindow T Out) Out

module _ {T Out : Type 0} where
  -- The first test of `tick`, with the difference of two 64-bit words.
  unfoldable pub is_expired : ℕ → TimeWindow T Out → Bool
  is_expired now w = leb w.window_ns ((now + (word - w.window_open_ns)) % word)

  -- The window whose time is up, as an event.
  unfoldable pub closed : TimeWindow T Out → Event Out
  closed w = record {
    timestamp_ns = w.window_open_ns;
    key = 0;
    seq = w.window_count;
    payload = w.aggr w.buffer;
  }

  -- `reset_window`, at the clock's reading.
  unfoldable pub reset_window : ℕ → TimeWindow T Out → TimeWindow T Out
  reset_window reopened w = record w { window_open_ns = reopened }

  -- The window after it has been closed.
  unfoldable pub restarted : ℕ → TimeWindow T Out → TimeWindow T Out
  unfolding reset_window
  restarted reopened w =
      reset_window reopened (record w { buffer = []; window_count = add_word w.window_count 1 })

  -- The end of `tick`, with the event taken in.
  unfoldable pub collect : Handler (TimeWindow T Out) T Out
  collect w in_ev o output = (
    processed,
    record w { buffer = w.buffer ++ in_ev.payload ∷ [] },
    record o { metrics = count_processed o.metrics },
    output,
  )

  -- What a tick does at the end of the window's time.
  unfoldable pub expire :
      ℕ
      → TumblingTimeWindow T Out
      → SpscQueue (Event T)
      → SpscQueue (Event Out)
      → Ticked (TumblingTimeWindow T Out) T Out
  unfolding collect reset_window restarted closed
  expire reopened n input output = elim (n.own.buffer) [
    | [] ↦ Node.take_one collect (record n { own = reset_window reopened n.own }) input output
    | _ ∷ _ ↦
        let (status, o, output') = emit (closed n.own) n.outlet output in
        (status, record { own = restarted reopened n.own; outlet = o }, input, output')
  ]

  unfoldable pub tick :
      ℕ
      → ℕ
      → TumblingTimeWindow T Out
      → SpscQueue (Event T)
      → SpscQueue (Event Out)
      → Ticked (TumblingTimeWindow T Out) T Out
  unfolding is_expired expire
  tick now reopened n input output =
      if n.outlet.has_pending
      then (let (status, o, output') = retry n.outlet output in
          (status, record n { outlet = o }, input, output'))
      else if is_expired now n.own
      then expire reopened n input output
      else Node.take_one collect n input output

  -- The elements that the events `es` tell of, as `reads` finds them in each.
  abbrev pub told : (Out → List T) → List (Event Out) → List T
  told reads [] = []
  told reads (e ∷ es) = reads e.payload ++ told reads es

  told-append :
      (reads : Out → List T) (xs ys : List (Event Out))
      → told reads (xs ++ ys) ≡ told reads xs ++ told reads ys
  told-append reads [] ys = refl
  told-append reads (x ∷ xs) ys =
      ap (λ (l : List T). reads x.payload ++ l) (told-append reads xs ys)
      ∙ sym (append_assoc (reads x.payload) (told reads xs) (told reads ys))

  -- All that has gone through the operator, oldest first: what the windows in the output queue and
  -- the one held back tell of, the open window, and the input queue.
  abbrev pub elements :
      (Out → List T)
      → TumblingTimeWindow T Out
      → SpscQueue (Event T)
      → SpscQueue (Event Out)
      → List T
  elements reads n input output =
      told reads (items output ++ held n.outlet)
      ++ (n.own.buffer ++ map (λ (e : Event T). e.payload) (items input))

  -- A tick keeps the queues sound, the aggregate, and all the elements in their order.
  abbrev pub Collects :
      (Out → List T)
      → TumblingTimeWindow T Out
      → SpscQueue (Event T)
      → SpscQueue (Event Out)
      → Ticked (TumblingTimeWindow T Out) T Out
      → Type 0
  Collects reads n input output (status, n', input', output') =
      IsSound input'
      × IsSound output'
      × (n'.own.aggr ≡ n.own.aggr)
      × (elements reads n' input' output' ≡ elements reads n input output)

  take_one-Collects :
      (reads : Out → List T) (n : TumblingTimeWindow T Out) (input : SpscQueue (Event T))
      (output : SpscQueue (Event Out))
      → IsSound input
      → IsSound output
      → n.outlet.has_pending ≡ false
      → Collects reads n input output (Node.take_one collect n input output)
  unfolding Node.take_one collect
  take_one-Collects reads n input output vi vo h =
      let (v, _, cases) = try_pop-Popped input vi in
      elim cases [
        | inl e ↦ ground arith
        | inr (ev, e, i) ↦ ground (
          arith,
          append_assoc n.own.buffer (ev.payload ∷ [])
              (map (λ (e : Event T). e.payload) (items (try_pop input).1)),
        )
      ]

  expire-Collects :
      (reads : Out → List T) (n : TumblingTimeWindow T Out) (input : SpscQueue (Event T))
      (output : SpscQueue (Event Out))
      → ((l : List T) → reads (n.own.aggr l) ≡ l)
      → (reopened : ℕ) → IsSound input
      → IsSound output
      → n.outlet.has_pending ≡ false
      → Collects reads n input output (expire reopened n input output)
  unfolding expire restarted reset_window closed
  expire-Collects reads n input output inverse reopened vi vo h = elim (List-cases n.own.buffer) [
    | inl e ↦ ground (
      arith,
      take_one-Collects reads (record n { own = reset_window reopened n.own }) input output vi vo h,
    )
    | inr (x, l, e) ↦ ground (
      arith,
      items-emit (closed n.own) n.outlet output vo h,
      told-append reads (items output) (closed n.own ∷ []),
      append-nil (items output),
      append-nil n.own.buffer,
      inverse n.own.buffer,
      append_assoc (told reads (items output)) n.own.buffer
          (map (λ (e : Event T). e.payload) (items input)),
    )
  ]

  -- Where `reads` finds in an aggregate the elements that it was made of, a tick at any readings of
  -- the clock keeps sound queues sound, keeps the aggregate function, and keeps all the elements in
  -- their order: those of the windows that went out or are held back, those of the open window, and
  -- those in the input queue.
  pub time_tick-Collects :
      (reads : Out → List T) (n : TumblingTimeWindow T Out) (input : SpscQueue (Event T))
      (output : SpscQueue (Event Out))
      → ((l : List T) → reads (n.own.aggr l) ≡ l)
      → (now reopened : ℕ) → IsSound input
      → IsSound output
      → Collects reads n input output (tick now reopened n input output)
  unfolding tick
  time_tick-Collects reads n input output inverse now reopened vi vo =
      elim (Bool-cases n.outlet.has_pending) [
        | inl h ↦ ground (arith, items-retry n.outlet output vo h)
        | inr h ↦ ground (
          arith,
          expire-Collects reads n input output inverse reopened vi vo h,
          take_one-Collects reads n input output vi vo h,
        )
      ]
