-- ===== src/Core/MpmcQueue/Threads.antt =====
-- Any number of threads that call `try_push` and `try_pop` of include/klstream/core/mpmc_queue.hpp,
-- interleaved in any order: each step makes at most one access to what the threads share. The
-- interleaving is sequentially consistent. What a compare-and-exchange that fails finds is the new
-- position, and it may fail for no reason.
pub mod Invariant
pub mod Moves
pub mod Others
pub mod Effects
pub mod Safety
pub mod History
use klstream.Prelude.{ℕ, ◌+◌, ◌≡◌, Option, none, some, zero, suc, ◌==◌, if◌then◌else◌, add_word}
use klstream.Prelude.Int.{ℤ, pos, negsuc}
use klstream.Core.SpscQueue.{store}
use klstream.Core.MpmcQueue.{MpmcQueue, slot, diff}

-- Where a thread stands, with the local variables that are live there.
pub data Thread (A : Type 0) : Type 0 where
  outside : Thread A
  push_load : (val : A) → Thread A  -- before the load of `enqueue_pos_`
  push_at : (val : A) (at : ℕ) → Thread A  -- before the load of the slot's number
  push_saw : (val : A) (at : ℕ) (seq : ℕ) → Thread A  -- before the tests of `diff`
  push_write : (val : A) (at : ℕ) → Thread A  -- before `slot.data = val`
  push_publish : (val : A) (at : ℕ) → Thread A  -- before the store of `pos + 1`
  pop_load : Thread A
  pop_at : (at : ℕ) → Thread A
  pop_saw : (at : ℕ) (seq : ℕ) → Thread A
  pop_read : (at : ℕ) → Thread A  -- before `*out = slot.data`
  pop_release : (out : A) (at : ℕ) → Thread A  -- before the store of `pos + mask_ + 1`

-- The queue, with the history of its positions: what has been accepted at each, and what has been
-- given out from it.
pub record World (A : Type 0) : Type 0 where
  pub queue : MpmcQueue A
  pub pushed : ℕ → Option A
  pub popped : ℕ → Option A

pub record System (A : Type 0) : Type 0 where
  pub world : World A
  pub threads : ℕ → Thread A

module _ {A : Type 0} where
  abbrev pub seq_at : MpmcQueue A → ℕ → ℕ
  seq_at q at = q.seq (slot q at)

  -- A step of a thread.
  pub data Move (w : World A) : Thread A → World A → Thread A → Type 0 where
    call_push : {val : A} → Move w outside w (push_load val)
    load_push : {val : A} → Move w (push_load val) w (push_at val w.queue.enqueue_pos)
    look_push : {val : A} {at : ℕ} → Move w (push_at val at) w (push_saw val at (seq_at w.queue at))
    full :
        {val : A} {at seq n : ℕ} → diff seq at ≡ negsuc n → Move w (push_saw val at seq) w outside
    behind_push :
        {val : A} {at seq n : ℕ}
        → diff seq at ≡ pos (suc n)
        → Move w (push_saw val at seq) w (push_load val)
    lose_push :
        {val : A} {at seq : ℕ}
        → diff seq at ≡ pos 0
        → Move w (push_saw val at seq) w (push_at val w.queue.enqueue_pos)
    claim_push :
        {val : A} {at seq : ℕ}
        → diff seq at ≡ pos 0
        → w.queue.enqueue_pos ≡ at
        → Move w
            (push_saw val at seq)
            (record w {
              queue = record (w.queue) { enqueue_pos = add_word at 1 };
              pushed = store w.pushed at (some val);
            })
            (push_write val at)
    write :
        {val : A} {at : ℕ}
        → Move w
            (push_write val at)
            (record w {
              queue = record (w.queue) {
                slot_data = store w.queue.slot_data (slot w.queue at) val;
              };
            })
            (push_publish val at)
    publish :
        {val : A} {at : ℕ}
        → Move w
            (push_publish val at)
            (record w {
              queue = record (w.queue) {
                seq = store w.queue.seq (slot w.queue at) (add_word at 1);
              };
            })
            outside
    call_pop : Move w outside w pop_load
    load_pop : Move w pop_load w (pop_at w.queue.dequeue_pos)
    look_pop : {at : ℕ} → Move w (pop_at at) w (pop_saw at (seq_at w.queue at))
    empty : {at seq n : ℕ} → diff seq (add_word at 1) ≡ negsuc n → Move w (pop_saw at seq) w outside
    behind_pop :
        {at seq n : ℕ} → diff seq (add_word at 1) ≡ pos (suc n) → Move w (pop_saw at seq) w pop_load
    lose_pop :
        {at seq : ℕ}
        → diff seq (add_word at 1) ≡ pos 0
        → Move w (pop_saw at seq) w (pop_at w.queue.dequeue_pos)
    claim_pop :
        {at seq : ℕ}
        → diff seq (add_word at 1) ≡ pos 0
        → w.queue.dequeue_pos ≡ at
        → Move w
            (pop_saw at seq)
            (record w { queue = record (w.queue) { dequeue_pos = add_word at 1 } })
            (pop_read at)
    read : {at : ℕ} → Move w (pop_read at) w (pop_release (w.queue.slot_data (slot w.queue at)) at)
    release :
        {out : A} {at : ℕ}
        → Move w
            (pop_release out at)
            (record w {
              queue = record (w.queue) {
                seq = store w.queue.seq (slot w.queue at) (add_word (add_word at w.queue.mask) 1);
              };
              popped = store w.popped at (some out);
            })
            outside

  -- Thread number `i` makes a step.
  pub data Step (s : System A) : System A → Type 0 where
    step :
        (i : ℕ) {w : World A} {t : Thread A}
        → Move s.world (s.threads i) w t
        → Step s (record { world = w; threads = store s.threads i t })

  -- An execution of so many steps.
  pub data Run (s : System A) : ℕ → System A → Type 0 where
    start : Run s zero s
    later : {t u : System A} {n : ℕ} → Run s n t → Step t u → Run s (suc n) u

  -- A fresh queue, and all threads outside a call.
  abbrev pub idle : MpmcQueue A → System A
  idle q = record {
    world = record { queue = q; pushed = λ i. none; popped = λ i. none };
    threads = λ i. outside;
  }
