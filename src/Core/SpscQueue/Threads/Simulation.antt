-- ===== src/Core/SpscQueue/Threads/Simulation.antt =====
-- Every step of the two threads is an operation of the FIFO that the ring holds, or no operation: the
-- ring is linearizable.
use klstream.Prelude.{
  ℕ, zero, suc, ◌-◌, ◌<◌, ◌≤◌, ◌≡◌, refl, ◌∙◌, append-nil, append_assoc, arith, true, false, none,
  some, List, [], ◌∷◌, ◌++◌,
}
use klstream.Core.Fifo
use klstream.Core.SpscQueue.{SpscQueue, store}
use klstream.Core.SpscQueue.Invariant.{IsValid, ahead, after, next_write, next_read}
use klstream.Core.SpscQueue.Contents.{contents, window, length-contents, window_of_pos}
use klstream.Core.SpscQueue.Threads.{
  Producer, Consumer, System, Act, silent, answer_push, answer_pop, PushStep, PopStep, Step, Run,
  idle,
}
use klstream.Core.SpscQueue.Threads.Invariant.{Inv, Step-Inv, idle-Inv}

module _ {A : Type 0} where
  -- The operation of the FIFO, with room for `room` elements, that a step stands for.
  abbrev pub Serves : ℕ → Act A → List A → List A → Type 0
  Serves room silent xs ys = xs ≡ ys
  Serves room (answer_push val done) xs ys = Fifo.push room val xs ≡ (done, ys)
  Serves room (answer_pop out) xs ys = Fifo.pop xs ≡ (out, ys)

  -- A write past the end of a window leaves it alone.
  window-store_outside :
      (buffer : ℕ → A) (capacity : ℕ) (v : A) (n i j : ℕ)
      → i < capacity
      → j < capacity
      → n ≤ ahead capacity i j
      → window (store buffer j v) capacity i n ≡ window buffer capacity i n
  window-store_outside buffer capacity v zero i j hi hj e = refl
  window-store_outside buffer capacity v (suc n) i j hi hj e =
      ground (arith, window-store_outside buffer capacity v n (after capacity i) j)

  -- A window that grows by one gets the element just past it.
  window_snoc :
      (buffer : ℕ → A) (capacity n i j : ℕ)
      → i < capacity
      → j < capacity
      → ahead capacity i j ≡ n
      → window buffer capacity i (suc n) ≡ window buffer capacity i n ++ buffer j ∷ []
  window_snoc buffer capacity zero i j hi hj e = ground arith
  window_snoc buffer capacity (suc n) i j hi hj e =
      ground (arith, window_snoc buffer capacity n (after capacity i) j)

  PushStep-Serves :
      {q q' : SpscQueue A} {p p' : Producer A} {a : Act A} (c : Consumer A)
      → PushStep q p a q' p'
      → Inv (record { queue = q; producer = p; consumer = c })
      → Serves (q.capacity - 1) a (contents q) (contents q')
  PushStep-Serves c PushStep.call v = refl
  PushStep-Serves c (PushStep.fast h) v = refl
  PushStep-Serves c (PushStep.slow h) v = refl
  PushStep-Serves {q} c (PushStep.full h) v = ground (arith, length-contents q, next_write v.valid)
  PushStep-Serves c (PushStep.room h) v = refl
  PushStep-Serves {q} c (PushStep.write {val}) v = ground (
    arith,
    window-store_outside q.buffer q.capacity val (ahead q.capacity q.read_idx q.write_idx)
        q.read_idx q.write_idx,
  )
  PushStep-Serves {q} c (PushStep.advance {val}) v = ground (
    arith,
    length-contents q,
    next_write v.valid,
    window_snoc q.buffer q.capacity (ahead q.capacity q.read_idx q.write_idx) q.read_idx
        q.write_idx,
  )

  PopStep-Serves :
      {q q' : SpscQueue A} {c c' : Consumer A} {a : Act A} (p : Producer A)
      → PopStep q c a q' c'
      → Inv (record { queue = q; producer = p; consumer = c })
      → Serves (q.capacity - 1) a (contents q) (contents q')
  PopStep-Serves p PopStep.call v = refl
  PopStep-Serves p (PopStep.fast h) v = refl
  PopStep-Serves p (PopStep.slow h) v = refl
  PopStep-Serves {q} p (PopStep.empty h) v = ground (arith, length-contents q)
  PopStep-Serves p (PopStep.ready h) v = refl
  PopStep-Serves p PopStep.read v = refl
  PopStep-Serves {q} p PopStep.advance v = ground (
    arith,
    next_read v.valid,
    window_of_pos q.buffer q.capacity q.read_idx (ahead q.capacity q.read_idx q.write_idx)
        (ahead q.capacity q.read_idx q.write_idx - 1),
  )

  pub Step-Serves :
      {s t : System A} {a : Act A}
      → Step s a t
      → Inv s
      → Serves (s.queue.capacity - 1) a (contents s.queue) (contents t.queue)
  Step-Serves {s} (Step.produce m) v = PushStep-Serves s.consumer m v
  Step-Serves {s} (Step.consume m) v = PopStep-Serves s.producer m v

  capacity-PushStep :
      {q q' : SpscQueue A} {p p' : Producer A} {a : Act A}
      → PushStep q p a q' p'
      → q'.capacity ≡ q.capacity
  capacity-PushStep PushStep.call = refl
  capacity-PushStep _ = refl

  capacity-PopStep :
      {q q' : SpscQueue A} {c c' : Consumer A} {a : Act A}
      → PopStep q c a q' c'
      → q'.capacity ≡ q.capacity
  capacity-PopStep PopStep.call = refl
  capacity-PopStep _ = refl

  capacity-Step : {s t : System A} {a : Act A} → Step s a t → t.queue.capacity ≡ s.queue.capacity
  capacity-Step (Step.produce m) = capacity-PushStep m
  capacity-Step (Step.consume m) = capacity-PopStep m

  -- The FIFO operations of a list of steps, one after the other.
  abbrev pub Replays : ℕ → List (Act A) → List A → List A → Type 0
  Replays room [] xs ys = xs ≡ ys
  Replays room (a ∷ acts) xs zs = (ys : List A) × Serves room a xs ys × Replays room acts ys zs

  Run-Replays :
      {s t : System A} {acts : List (Act A)} (room : ℕ)
      → room ≡ s.queue.capacity - 1
      → Run s acts t
      → Inv s
      → Replays room acts (contents s.queue) (contents t.queue)
  Run-Replays room e Run.start v = refl
  Run-Replays room e (Run.later {t} m r) v = (
    contents t.queue,
    rw e (Step-Serves m v),
    Run-Replays room (omega (arith, capacity-Step m)) r (Step-Inv m v),
  )

  -- However the two threads are interleaved, the answers of their calls are those of a FIFO of
  -- `capacity - 1` elements that serves the calls one at a time, in the order of the accesses that
  -- decide them; it starts and ends with what the ring holds.
  pub linearizable :
      {q : SpscQueue A} {t : System A} {acts : List (Act A)}
      → IsValid q
      → Run (idle q) acts t
      → Replays (q.capacity - 1) acts (contents q) (contents t.queue)
  linearizable v r = Run-Replays _ refl r (idle-Inv v)

  -- The elements whose push was answered by true, and those that came out, in order.
  abbrev pub accepted : List (Act A) → List A
  accepted [] = []
  accepted (answer_push val true ∷ acts) = val ∷ accepted acts
  accepted (answer_push val false ∷ acts) = accepted acts
  accepted (silent ∷ acts) = accepted acts
  accepted (answer_pop out ∷ acts) = accepted acts

  abbrev pub delivered : List (Act A) → List A
  delivered [] = []
  delivered (answer_pop (some out) ∷ acts) = out ∷ delivered acts
  delivered (answer_pop none ∷ acts) = delivered acts
  delivered (silent ∷ acts) = delivered acts
  delivered (answer_push val done ∷ acts) = delivered acts

  Replays-in_order :
      (room : ℕ) (acts : List (Act A)) (xs ys : List A)
      → Replays room acts xs ys
      → xs ++ accepted acts ≡ delivered acts ++ ys
  Replays-in_order room [] xs ys h = append-nil xs ∙ h
  Replays-in_order room (silent ∷ acts) xs zs (ys, e, h) = rw e (Replays-in_order room acts ys zs h)
  Replays-in_order room (answer_push val true ∷ acts) xs zs (ys, e, h) =
      ground (arith, Replays-in_order room acts ys zs h, append_assoc xs (val ∷ []) (accepted acts))
  Replays-in_order room (answer_push val false ∷ acts) xs zs (ys, e, h) =
      ground (arith, Replays-in_order room acts ys zs h)
  Replays-in_order room (answer_pop none ∷ acts) xs zs (ys, e, h) =
      ground (arith, Replays-in_order room acts ys zs h)
  Replays-in_order room (answer_pop (some out) ∷ acts) xs zs (ys, e, h) =
      ground (arith, Replays-in_order room acts ys zs h)

  -- Nothing is lost, repeated or reordered between the two threads: what came out, followed by what
  -- the ring holds, is what was accepted.
  pub in_order :
      {q : SpscQueue A} {t : System A} {acts : List (Act A)}
      → IsValid q
      → Run (idle q) acts t
      → contents q ++ accepted acts ≡ delivered acts ++ contents t.queue
  in_order {acts} v r = Replays-in_order _ acts _ _ (linearizable v r)
