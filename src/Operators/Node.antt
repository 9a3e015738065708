-- ===== src/Operators/Node.antt =====
-- The skeleton that the `tick`s of MapOperator, FilterOperator, AggregateOperator,
-- TumblingCountWindow and InferenceOp share: an event held back is retried; else one event is taken
-- from the input, or none, and the operator's own code handles it.
use klstream.Prelude.{
  ◌≡◌, arith, false, none, some, List, ◌∷◌, ◌++◌, append_assoc, if◌then◌else◌, inl, inr, Bool-cases,
}
use klstream.Core.Event.{Event}
use klstream.Core.Metrics.{count_idle}
use klstream.Core.Operator.{OpStatus, idle}
use klstream.Core.SpscQueue.{SpscQueue, try_pop}
use klstream.Core.SpscQueue.Client.{IsSound, items, try_pop-Popped}
use klstream.Operators.Outlet.{Outlet, retry, held, items-retry}
use klstream.Operators.Stage.{Ticked, Keeps}

-- An operator's own fields, and those of its output side.
pub record Node (S Out : Type 0) : Type 0 where
  pub own : S
  pub outlet : Outlet Out

-- What an operator does with the event that it has taken in.
abbrev pub Handler : Type 0 → Type 0 → Type 0 → Type 0
Handler S In Out =
    S
    → Event In
    → Outlet Out
    → SpscQueue (Event Out)
    → OpStatus × S × Outlet Out × SpscQueue (Event Out)

module _ {S In Out : Type 0} where
  -- The part of `tick` from the pop on.
  unfoldable pub take_one :
      Handler S In Out
      → Node S Out
      → SpscQueue (Event In)
      → SpscQueue (Event Out)
      → Ticked (Node S Out) In Out
  take_one handle n input output =
      let (popped, input') = try_pop input in
      elim popped [
        | none ↦ (
          idle,
          record n { outlet = record (n.outlet) { metrics = count_idle n.outlet.metrics } },
          input',
          output,
        )
        | some in_ev ↦
            let (status, s, o, output') = handle n.own in_ev n.outlet output in
            (status, record { own = s; outlet = o }, input', output')
      ]

  unfoldable pub tick :
      Handler S In Out
      → Node S Out
      → SpscQueue (Event In)
      → SpscQueue (Event Out)
      → Ticked (Node S Out) In Out
  unfolding take_one
  tick handle n input output =
      if n.outlet.has_pending
      then (let (status, o, output') = retry n.outlet output in
          (status, record n { outlet = o }, input, output'))
      else take_one handle n input output

  -- What goes out for the events `xs` to come, if the own code owes `owed s xs` for them.
  abbrev pub promise :
      (S → List (Event In) → List (Event Out)) → Node S Out → List (Event In) → List (Event Out)
  promise owed n xs = held n.outlet ++ owed n.own xs

  -- The handler puts out what it owes for its event, in front of what it owes afterwards.
  abbrev pub Pays : (S → List (Event In) → List (Event Out)) → Handler S In Out → Type 0
  Pays owed handle =
      (s : S) (ev : Event In) (o : Outlet Out) (output : SpscQueue (Event Out))
      (rest : List (Event In))
      → IsSound output
      → o.has_pending ≡ false
      → let (status, s', o', output') = handle s ev o output in
        IsSound output'
        × (items output' ++ (held o' ++ owed s' rest) ≡ items output ++ owed s (ev ∷ rest))

  take_one-Keeps :
      (owed : S → List (Event In) → List (Event Out)) (handle : Handler S In Out)
      → Pays owed handle
      → (n : Node S Out) (input : SpscQueue (Event In)) (output : SpscQueue (Event Out))
        (future : List (Event In))
      → IsSound input
      → IsSound output
      → n.outlet.has_pending ≡ false
      → Keeps (promise owed) n input output future (take_one handle n input output)
  unfolding take_one
  take_one-Keeps owed handle pays n input output future vi vo h =
      let (v, _, cases) = try_pop-Popped input vi in
      elim cases [
        | inl e ↦ ground arith
        | inr (ev, e, i) ↦
            ground (arith, pays n.own ev n.outlet output (items (try_pop input).1 ++ future) vo h)
      ]

  -- A tick loses, repeats and reorders nothing.
  pub tick-Keeps :
      (owed : S → List (Event In) → List (Event Out)) (handle : Handler S In Out)
      → Pays owed handle
      → (n : Node S Out) (input : SpscQueue (Event In)) (output : SpscQueue (Event Out))
        (future : List (Event In))
      → IsSound input
      → IsSound output
      → Keeps (promise owed) n input output future (tick handle n input output)
  unfolding tick
  tick-Keeps owed handle pays n input output future vi vo = elim (Bool-cases n.outlet.has_pending) [
    | inl h ↦ ground (
      arith,
      items-retry n.outlet output vo h,
      append_assoc (items output) (held n.outlet) (owed n.own (items input ++ future)),
      append_assoc (items (retry n.outlet output).2) (held (retry n.outlet output).1)
          (owed n.own (items input ++ future)),
    )
    | inr h ↦ ground (arith, take_one-Keeps owed handle pays n input output future vi vo h)
  ]
