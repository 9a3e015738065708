-- ===== src/Window/Filling.antt =====
-- The part that the ticks of `AdaptiveWindowOp` and `DataDrivenWindowOp` in include/klstream/window share:
-- the batch that fills up to `target_w_` points and then goes out.
use klstream.Prelude.{
  ℕ, zero, suc, ◌+◌, ◌≡◌, ◌≤◌, ◌<◌, ◌⊎◌, refl, arith, false, List, ◌∷◌, [], ◌++◌, append_assoc,
  append-nil, if◌then◌else◌, leb, inl, inr, Bool-cases, sym, ap, ◌∙◌,
}
use klstream.Core.Event.{Event}
use klstream.Core.Metrics.{count_processed}
use klstream.Core.Operator.{processed}
use klstream.Core.SpscQueue.{SpscQueue, store}
use klstream.Core.SpscQueue.Client.{IsSound, items}
use klstream.Operators.Outlet.{Outlet, emit, held, items-emit}
use klstream.Operators.Node.{Handler}
use klstream.Window.Batch.{FeatureVector, WindowBatch, max_window_size, push_back, full}

pub record Filling (F : Type 0) : Type 0 where
  pub buffer : WindowBatch F
  pub target_w : ℕ

module _ {F : Type 0} where
  -- The event that goes out with a full batch.
  unfoldable pub batch_event : ℕ → WindowBatch F → Event (FeatureVector F) → Event (WindowBatch F)
  batch_event key b in_ev = record {
    timestamp_ns = in_ev.timestamp_ns;
    key = key;
    seq = in_ev.seq;
    payload = b;
  }

  -- `tick` from the point on where an event has been taken; `fresh` is `WindowBatch{}`, and `key` the
  -- key of the event that goes out.
  unfoldable pub fill : ℕ → WindowBatch F → Handler (Filling F) (FeatureVector F) (WindowBatch F)
  fill key fresh f in_ev o output =
      let b = push_back in_ev.payload in_ev.seq f.buffer in
      if full f.target_w b
      then (let (status, o', output') = emit (batch_event key b in_ev) o output in
          (status, record f { buffer = fresh }, o', output'))
      else (
        processed,
        record f { buffer = b },
        record o { metrics = count_processed o.metrics },
        output,
      )

  -- The first `n` of the points.
  abbrev pub points_to : (ℕ → FeatureVector F) → ℕ → List (FeatureVector F)
  points_to p zero = []
  points_to p (suc n) = points_to p n ++ p n ∷ []

  -- The points of a batch, oldest first.
  abbrev pub points_of : WindowBatch F → List (FeatureVector F)
  points_of b = points_to b.points b.count

  -- The points of the batches of events.
  abbrev pub batched : List (Event (WindowBatch F)) → List (FeatureVector F)
  batched [] = []
  batched (e ∷ es) = points_of e.payload ++ batched es

  batched-append :
      (xs ys : List (Event (WindowBatch F))) → batched (xs ++ ys) ≡ batched xs ++ batched ys
  batched-append [] ys = refl
  batched-append (x ∷ xs) ys =
      ap (λ (l : List (FeatureVector F)). points_of x.payload ++ l) (batched-append xs ys)
      ∙ sym (append_assoc (points_of x.payload) (batched xs) (batched ys))

  points_to-store :
      (p : ℕ → FeatureVector F) (i n : ℕ) (v : FeatureVector F)
      → n ≤ i
      → points_to (store p i v) n ≡ points_to p n
  points_to-store p i zero v le = refl
  points_to-store p i (suc n) v le = ground (arith, points_to-store p i n v)

  points_of-push_back :
      (fv : FeatureVector F) (seq : ℕ) (b : WindowBatch F)
      → b.count < max_window_size
      → ((push_back fv seq b).count ≡ b.count + 1)
        × (points_of (push_back fv seq b) ≡ points_of b ++ fv ∷ [])
  unfolding push_back
  points_of-push_back fv seq b lt = (
    omega (arith, lt),
    ap (points_to (push_back fv seq b).points) {x = (push_back fv seq b).count} {y = b.count + 1}
          (omega (arith, lt))
        ∙ ground (arith, points_to-store b.points b.count b.count fv),
  )

  -- The batch starts a window, or it is not full yet.
  abbrev pub InProgress : Filling F → Type 0
  InProgress f = (f.buffer.count ≡ 0) ⊎ (f.buffer.count < f.target_w)

  -- On a sound output queue with no event held back, filling keeps the queue sound, the batch in
  -- progress and its target, and puts the new point behind all the others.
  fill-Appends :
      (key : ℕ) (fresh : WindowBatch F) (f : Filling F) (ev : Event (FeatureVector F))
      (o : Outlet (WindowBatch F)) (output : SpscQueue (Event (WindowBatch F)))
      → fresh.count ≡ 0
      → InProgress f
      → f.target_w ≤ max_window_size
      → IsSound output
      → o.has_pending ≡ false
      → let (status, f', o', output') = fill key fresh f ev o output in
        IsSound output'
        × InProgress f'
        × (f'.target_w ≡ f.target_w)
        × (batched (items output' ++ held o') ++ points_of f'.buffer
            ≡ batched (items output ++ held o) ++ (points_of f.buffer ++ ev.payload ∷ []))
  unfolding fill full batch_event
  fill-Appends key fresh f ev o output empty open_ small vo h =
      let b = push_back ev.payload ev.seq f.buffer in
      let (c, e) = points_of-push_back ev.payload ev.seq f.buffer (ground (arith, open_)) in
      elim (Bool-cases (leb f.target_w b.count)) [
        | inl g ↦ ground (
          arith,
          items-emit (batch_event key b ev) o output vo h,
          batched-append (items output) (batch_event key b ev ∷ []),
          append-nil (items output),
          append-nil (points_of b),
          append-nil (batched (items output) ++ points_of b),
        )
        | inr g ↦ ground arith
      ]

  -- The same in front of the points to come.
  pub fill-Keeps :
      (key : ℕ) (fresh : WindowBatch F) (f : Filling F) (ev : Event (FeatureVector F))
      (o : Outlet (WindowBatch F)) (output : SpscQueue (Event (WindowBatch F)))
      (rest : List (FeatureVector F))
      → fresh.count ≡ 0
      → InProgress f
      → f.target_w ≤ max_window_size
      → IsSound output
      → o.has_pending ≡ false
      → let (status, f', o', output') = fill key fresh f ev o output in
        IsSound output'
        × InProgress f'
        × (f'.target_w ≡ f.target_w)
        × (batched (items output' ++ held o') ++ (points_of f'.buffer ++ rest)
            ≡ batched (items output ++ held o) ++ (points_of f.buffer ++ ev.payload ∷ rest))
  fill-Keeps key fresh f ev o output rest empty progress small vo h =
      let (status, f', o', output') = fill key fresh f ev o output in
      let (vo', progress', same, e) =
        fill-Appends key fresh f ev o output empty progress small vo h in
      (
        vo',
        progress',
        same,
        sym (append_assoc (batched (items output' ++ held o')) (points_of f'.buffer) rest)
            ∙ ap (λ (l : List (FeatureVector F)). l ++ rest) e
            ∙ append_assoc (batched (items output ++ held o))
                (points_of f.buffer ++ ev.payload ∷ []) rest
            ∙ ap (λ (l : List (FeatureVector F)). batched (items output ++ held o) ++ l)
                (append_assoc (points_of f.buffer) (ev.payload ∷ []) rest),
      )
