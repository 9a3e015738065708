-- ===== src/Operators/Outlet.antt =====
-- What every operator with an output does to it, in the same words in each `tick` of
-- include/klstream/operators and include/klstream/window: the retry of an event held back, and the
-- push of a new event, which is held back where the queue is full.
use klstream.Prelude.{
  ◌≡◌, arith, Bool, true, false, Option, List, [], ◌∷◌, ◌++◌, append-nil, append_assoc, sym, ap,
  ◌∙◌, if◌then◌else◌,
}
use klstream.Core.Event.{Event}
use klstream.Core.Metrics.{OperatorMetrics, count_processed, count_blocked}
use klstream.Core.Operator.{OpStatus, processed, blocked}
use klstream.Core.SpscQueue.{SpscQueue, try_push}
use klstream.Core.SpscQueue.Client.{IsSound, items, try_push-Pushed}

pub record Outlet (Out : Type 0) : Type 0 where
  pub pending : Event Out
  pub has_pending : Bool
  pub metrics : Option OperatorMetrics

module _ {Out : Type 0} where
  -- The branch of `tick` for `has_pending_`.
  unfoldable pub retry :
      Outlet Out → SpscQueue (Event Out) → OpStatus × Outlet Out × SpscQueue (Event Out)
  retry o output =
      let (done, output') = try_push o.pending output in
      if done
      then (
        processed,
        record o { has_pending = false; metrics = count_processed o.metrics },
        output',
      )
      else (blocked, record o { metrics = count_blocked o.metrics }, output')

  -- The end of `tick`, with the new event.
  unfoldable pub emit :
      Event Out → Outlet Out → SpscQueue (Event Out) → OpStatus × Outlet Out × SpscQueue (Event Out)
  emit ev o output =
      let (done, output') = try_push ev output in
      if done then (processed, record o { metrics = count_processed o.metrics }, output') else (
        blocked,
        record { pending = ev; has_pending = true; metrics = count_blocked o.metrics },
        output',
      )

  -- The event held back, if there is one.
  abbrev pub held : Outlet Out → List (Event Out)
  held o = if o.has_pending then o.pending ∷ [] else []

  -- A retry neither loses nor repeats the event held back.
  pub items-retry :
      (o : Outlet Out) (output : SpscQueue (Event Out))
      → IsSound output
      → o.has_pending ≡ true
      → let (s, o', output') = retry o output in
        IsSound output' × (items output' ++ held o' ≡ items output ++ held o)
  unfolding retry
  items-retry o output v h =
      ground
        (arith, try_push-Pushed o.pending output v, append-nil (items output ++ o.pending ∷ []))

  -- A new event goes behind all that was produced before.
  pub items-emit :
      (ev : Event Out) (o : Outlet Out) (output : SpscQueue (Event Out))
      → IsSound output
      → o.has_pending ≡ false
      → let (s, o', output') = emit ev o output in
        IsSound output' × (items output' ++ held o' ≡ items output ++ ev ∷ [])
  unfolding emit
  items-emit ev o output v h =
      ground (arith, try_push-Pushed ev output v, append-nil (items output ++ ev ∷ []))

  -- The same in front of anything that is owed after it.
  pub emit-Pays :
      (ev : Event Out) (o : Outlet Out) (output : SpscQueue (Event Out)) (rest : List (Event Out))
      → IsSound output
      → o.has_pending ≡ false
      → let (s, o', output') = emit ev o output in
        IsSound output' × (items output' ++ (held o' ++ rest) ≡ items output ++ ev ∷ rest)
  emit-Pays ev o output rest v h =
      let (v', e) = items-emit ev o output v h in
      (
        v',
        sym (append_assoc (items (emit ev o output).2) (held (emit ev o output).1) rest)
            ∙ ap (λ (l : List (Event Out)). l ++ rest) e
            ∙ append_assoc (items output) (ev ∷ []) rest,
      )
