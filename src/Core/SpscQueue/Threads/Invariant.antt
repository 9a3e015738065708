-- ===== src/Core/SpscQueue/Threads/Invariant.antt =====
-- What each thread may rely on at each point of its call, and that every step of either keeps it.
use klstream.Prelude.{ℕ, ◌<◌, ◌≡◌, ◌≢◌, arith, List}
use klstream.Core.SpscQueue.{SpscQueue}
use klstream.Core.SpscQueue.Invariant.{IsValid, after, next_write, next_read}
use klstream.Core.SpscQueue.Threads.{
  Producer, Consumer, System, Act, PushStep, PopStep, Step, Run, idle,
}

module _ {A : Type 0} where
  -- What the producer relies on: its index is the write index, the slot that it is about to fill is
  -- free by its own copy of the read index, and the slot that it has filled keeps its value.
  abbrev pub ProducerOk : SpscQueue A → Producer A → Type 0
  ProducerOk q Producer.outside = Unit {0}
  ProducerOk q (Producer.loaded val wi) = wi ≡ q.write_idx
  ProducerOk q (Producer.reread val wi) = wi ≡ q.write_idx
  ProducerOk q (Producer.writing val wi) =
      (wi ≡ q.write_idx) × (after q.capacity wi ≢ q.write_idx_cached)
  ProducerOk q (Producer.storing val wi) =
      (wi ≡ q.write_idx) × (after q.capacity wi ≢ q.write_idx_cached) × (q.buffer wi ≡ val)

  -- What the consumer relies on.
  abbrev pub ConsumerOk : SpscQueue A → Consumer A → Type 0
  ConsumerOk q Consumer.outside = Unit {0}
  ConsumerOk q (Consumer.loaded ri) = ri ≡ q.read_idx
  ConsumerOk q (Consumer.reread ri) = ri ≡ q.read_idx
  ConsumerOk q (Consumer.reading ri) = (ri ≡ q.read_idx) × (ri ≢ q.read_idx_cached)
  ConsumerOk q (Consumer.storing out ri) =
      (ri ≡ q.read_idx) × (ri ≢ q.read_idx_cached) × (q.buffer ri ≡ out)

  pub record Inv (s : System A) : Type 0 where
    pub valid : IsValid s.queue
    pub producer_ok : ProducerOk s.queue s.producer
    pub consumer_ok : ConsumerOk s.queue s.consumer

  -- A step of the producer keeps the invariant, whatever the consumer is doing.
  PushStep-Inv :
      {q q' : SpscQueue A} {p p' : Producer A} {a : Act A} (c : Consumer A)
      → PushStep q p a q' p'
      → Inv (record { queue = q; producer = p; consumer = c })
      → Inv (record { queue = q'; producer = p'; consumer = c })
  PushStep-Inv c PushStep.call v = ground arith
  PushStep-Inv {q} c (PushStep.fast {wi} h) v = ground (arith, next_write v.valid)
  PushStep-Inv c (PushStep.slow h) v = ground arith
  PushStep-Inv c (PushStep.full h) v = ground arith
  PushStep-Inv {q} c (PushStep.room h) v = ground (arith, next_write v.valid)
  PushStep-Inv c PushStep.write v = ground arith
  PushStep-Inv {q} c PushStep.advance v = ground (arith, next_write v.valid)

  -- A step of the consumer keeps the invariant, whatever the producer is doing.
  PopStep-Inv :
      {q q' : SpscQueue A} {c c' : Consumer A} {a : Act A} (p : Producer A)
      → PopStep q c a q' c'
      → Inv (record { queue = q; producer = p; consumer = c })
      → Inv (record { queue = q'; producer = p; consumer = c' })
  PopStep-Inv p PopStep.call v = ground arith
  PopStep-Inv p (PopStep.fast h) v = ground arith
  PopStep-Inv p (PopStep.slow h) v = ground arith
  PopStep-Inv p (PopStep.empty h) v = ground arith
  PopStep-Inv p (PopStep.ready h) v = ground arith
  PopStep-Inv p PopStep.read v = ground arith
  PopStep-Inv p PopStep.advance v = ground (arith, next_read v.valid)

  pub Step-Inv : {s t : System A} {a : Act A} → Step s a t → Inv s → Inv t
  Step-Inv {s} (Step.produce m) v = PushStep-Inv s.consumer m v
  Step-Inv {s} (Step.consume m) v = PopStep-Inv s.producer m v

  pub Run-Inv : {s t : System A} {acts : List (Act A)} → Run s acts t → Inv s → Inv t
  Run-Inv Run.start v = v
  Run-Inv (Run.later m r) v = Run-Inv r (Step-Inv m v)

  -- The two threads outside their calls, on a valid ring.
  pub idle-Inv : {q : SpscQueue A} → IsValid q → Inv (idle q)
  idle-Inv v = record { valid = v; producer_ok = tt; consumer_ok = tt }

  -- Whenever the producer is about to write a slot and the consumer about to read one, the slots
  -- differ and both lie in the storage: the ring has no data race and no access out of bounds.
  pub no_race :
      {q : SpscQueue A} {s : System A} {acts : List (Act A)} (val : A) (wi ri : ℕ)
      → IsValid q
      → Run (idle q) acts s
      → s.producer ≡ Producer.writing val wi
      → s.consumer ≡ Consumer.reading ri
      → (wi ≢ ri) × (wi < s.queue.capacity) × (ri < s.queue.capacity)
  no_race {s} val wi ri v r p c = ground (arith, Run-Inv r (idle-Inv v))
