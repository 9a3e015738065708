-- ===== src/Core/SpscQueue/Threads.antt =====
-- One producer and one consumer thread on a ring, interleaved in any order: the code of `try_push`
-- and `try_pop` of include/klstream/core/spsc_queue.hpp as the steps of two threads. Each step makes
-- at most one access to what the other thread can see: a load or store of an atomic index, or an
-- access to a slot. The interleaving is sequentially consistent; the release stores and acquire
-- loads of the two indices are what lets the code be read so.
pub mod Invariant
pub mod Simulation
use klstream.Prelude.{ℕ, ◌≡◌, ◌≢◌, Bool, true, false, Option, none, some, List, [], ◌∷◌, ◌++◌}
use klstream.Core.SpscQueue.{SpscQueue, store, next_index}

-- Where the producer stands in `try_push`, with the local variables that are live there.
pub data Producer (A : Type 0) : Type 0 where
  outside : Producer A
  loaded : (val : A) (wi : ℕ) → Producer A  -- before the test of the cached index
  reread : (val : A) (wi : ℕ) → Producer A  -- before the load of `read_idx_`
  writing : (val : A) (wi : ℕ) → Producer A  -- before `buffer_[wi] = val`
  storing : (val : A) (wi : ℕ) → Producer A  -- before the store of `write_idx_`

-- Where the consumer stands in `try_pop`.
pub data Consumer (A : Type 0) : Type 0 where
  outside : Consumer A
  loaded : (ri : ℕ) → Consumer A
  reread : (ri : ℕ) → Consumer A  -- before the load of `write_idx_`
  reading : (ri : ℕ) → Consumer A  -- before `*out = buffer_[ri]`
  storing : (out : A) (ri : ℕ) → Consumer A  -- before the store of `read_idx_`

pub record System (A : Type 0) : Type 0 where
  pub queue : SpscQueue A
  pub producer : Producer A
  pub consumer : Consumer A

-- What a step shows: nothing, or the answer of a call at the access that decides it.
pub data Act (A : Type 0) : Type 0 where
  silent : Act A
  answer_push : A → Bool → Act A
  answer_pop : Option A → Act A

module _ {A : Type 0} where
  -- A step of `try_push`.
  pub data PushStep (q : SpscQueue A) : Producer A → Act A → SpscQueue A → Producer A → Type 0 where
    call : {val : A} → PushStep q outside silent q (loaded val q.write_idx)
    fast :
        {val : A} {wi : ℕ}
        → next_index q.capacity wi ≢ q.write_idx_cached
        → PushStep q (loaded val wi) silent q (writing val wi)
    slow :
        {val : A} {wi : ℕ}
        → next_index q.capacity wi ≡ q.write_idx_cached
        → PushStep q (loaded val wi) silent q (reread val wi)
    full :
        {val : A} {wi : ℕ}
        → next_index q.capacity wi ≡ q.read_idx
        → PushStep q
            (reread val wi)
            (answer_push val false)
            (record q { write_idx_cached = q.read_idx })
            outside
    room :
        {val : A} {wi : ℕ}
        → next_index q.capacity wi ≢ q.read_idx
        → PushStep q
            (reread val wi)
            silent
            (record q { write_idx_cached = q.read_idx })
            (writing val wi)
    write :
        {val : A} {wi : ℕ}
        → PushStep q
            (writing val wi)
            silent
            (record q { buffer = store q.buffer wi val })
            (storing val wi)
    advance :
        {val : A} {wi : ℕ}
        → PushStep q
            (storing val wi)
            (answer_push val true)
            (record q { write_idx = next_index q.capacity wi })
            outside

  -- A step of `try_pop`.
  pub data PopStep (q : SpscQueue A) : Consumer A → Act A → SpscQueue A → Consumer A → Type 0 where
    call : PopStep q outside silent q (loaded q.read_idx)
    fast : {ri : ℕ} → ri ≢ q.read_idx_cached → PopStep q (loaded ri) silent q (reading ri)
    slow : {ri : ℕ} → ri ≡ q.read_idx_cached → PopStep q (loaded ri) silent q (reread ri)
    empty :
        {ri : ℕ}
        → ri ≡ q.write_idx
        → PopStep q
            (reread ri)
            (answer_pop none)
            (record q { read_idx_cached = q.write_idx })
            outside
    ready :
        {ri : ℕ}
        → ri ≢ q.write_idx
        → PopStep q (reread ri) silent (record q { read_idx_cached = q.write_idx }) (reading ri)
    read : {ri : ℕ} → PopStep q (reading ri) silent q (storing (q.buffer ri) ri)
    advance :
        {out : A} {ri : ℕ}
        → PopStep q
            (storing out ri)
            (answer_pop (some out))
            (record q { read_idx = next_index q.capacity ri })
            outside

  -- Either thread makes the next step.
  pub data Step (s : System A) : Act A → System A → Type 0 where
    produce :
        {a : Act A} {q : SpscQueue A} {p : Producer A}
        → PushStep s.queue s.producer a q p
        → Step s a (record { queue = q; producer = p; consumer = s.consumer })
    consume :
        {a : Act A} {q : SpscQueue A} {c : Consumer A}
        → PopStep s.queue s.consumer a q c
        → Step s a (record { queue = q; producer = s.producer; consumer = c })

  -- An execution, with what its steps show in order.
  pub data Run : System A → List (Act A) → System A → Type 0 where
    start : {s : System A} → Run s [] s
    later :
        {s t u : System A} {acts : List (Act A)} {a : Act A}
        → Step s a t
        → Run t acts u
        → Run s (a ∷ acts) u

  -- Both threads outside a call.
  abbrev pub idle : SpscQueue A → System A
  idle q = record { queue = q; producer = outside; consumer = outside }
