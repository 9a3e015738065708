-- ===== src/Core/MpmcQueue/Threads/Invariant.antt =====
-- What holds of the queue between any two steps, and what each thread may rely on at each point of its
-- call. Positions are taken as far as `limit`, which is below the half of the word range.
use klstream.Prelude.{ℕ, ◌+◌, ◌%◌, ◌≤◌, ◌<◌, ◌≡◌, ◌≢◌, Option, none, some}
use klstream.Prelude.Bits.{IsPowerOfTwo}
use klstream.Core.MpmcQueue.{MpmcQueue}
use klstream.Core.MpmcQueue.Threads.{Thread, World}

-- Where a position falls.
abbrev pub place : {A : Type 0} → MpmcQueue A → ℕ → ℕ
place q at = at % q.capacity

abbrev pub Differ : Option ℕ → Option ℕ → Type 0
Differ (some a) (some b) = a ≢ b
Differ _ _ = Unit {0}

module _ {A : Type 0} where
  pub record Inv (limit : ℕ) (w : World A) : Type 0 where
    pub power : IsPowerOfTwo w.queue.capacity
    pub large : 2 ≤ w.queue.capacity
    pub masked : w.queue.mask + 1 ≡ w.queue.capacity
    pub bounded : w.queue.enqueue_pos ≤ limit
    pub ordered : w.queue.dequeue_pos ≤ w.queue.enqueue_pos
    pub fits : w.queue.enqueue_pos ≤ w.queue.dequeue_pos + w.queue.capacity
    -- The slot of a position that no push has claimed shows no later one.
    pub unclaimed : (at : ℕ) → w.queue.enqueue_pos ≤ at → w.queue.seq (place w.queue at) ≤ at
    pub untaken : (at : ℕ) → w.queue.dequeue_pos ≤ at → w.queue.seq (place w.queue at) ≤ at + 1
    -- A slot is at its own number or beyond.
    pub first_lap : (i : ℕ) → i < w.queue.capacity → i ≤ w.queue.seq i
    pub reach : (at : ℕ) → w.queue.seq (place w.queue at) < w.queue.enqueue_pos + w.queue.capacity
    -- A slot that shows a published element holds the one that was pushed there.
    pub published :
        (at : ℕ)
        → w.queue.seq (place w.queue at) ≡ at + 1
        → w.pushed at ≡ some (w.queue.slot_data (place w.queue at))
    pub not_pushed : (at : ℕ) → w.queue.enqueue_pos ≤ at → w.pushed at ≡ none
    pub was_pushed : (at : ℕ) → at < w.queue.enqueue_pos → w.pushed at ≢ none
    pub not_popped : (at : ℕ) → w.queue.dequeue_pos ≤ at → w.popped at ≡ none
    -- What came out is what went in, and its slot has gone on to the next lap.
    pub came_out :
        (at : ℕ)
        → w.popped at ≢ none
        → (w.popped at ≡ w.pushed at) × (at + w.queue.capacity ≤ w.queue.seq (place w.queue at))

  -- What a thread relies on.
  abbrev pub Relies : World A → Thread A → Type 0
  Relies w Thread.outside = Unit {0}
  Relies w (Thread.push_load val) = Unit {0}
  Relies w (Thread.push_at val at) = at ≤ w.queue.enqueue_pos
  Relies w (Thread.push_saw val at seq) =
      (at ≤ w.queue.enqueue_pos) × (seq ≤ w.queue.seq (place w.queue at))
  Relies w (Thread.push_write val at) =
      (at < w.queue.enqueue_pos) × (w.queue.seq (place w.queue at) ≡ at) × (w.pushed at ≡ some val)
  Relies w (Thread.push_publish val at) =
      (at < w.queue.enqueue_pos)
      × (w.queue.seq (place w.queue at) ≡ at)
      × (w.pushed at ≡ some val)
      × (w.queue.slot_data (place w.queue at) ≡ val)
  Relies w Thread.pop_load = Unit {0}
  Relies w (Thread.pop_at at) = at ≤ w.queue.dequeue_pos
  Relies w (Thread.pop_saw at seq) =
      (at ≤ w.queue.dequeue_pos) × (seq ≤ w.queue.seq (place w.queue at))
  Relies w (Thread.pop_read at) =
      (at < w.queue.dequeue_pos) × (w.queue.seq (place w.queue at) ≡ at + 1) × (w.popped at ≡ none)
  Relies w (Thread.pop_release out at) =
      (at < w.queue.dequeue_pos)
      × (w.queue.seq (place w.queue at) ≡ at + 1)
      × (w.popped at ≡ none)
      × (w.pushed at ≡ some out)

  -- The position that a thread has claimed for a push, or for a pop.
  abbrev pub pushes_at : Thread A → Option ℕ
  pushes_at (Thread.push_write val at) = some at
  pushes_at (Thread.push_publish val at) = some at
  pushes_at _ = none

  abbrev pub pops_at : Thread A → Option ℕ
  pops_at (Thread.pop_read at) = some at
  pops_at (Thread.pop_release out at) = some at
  pops_at _ = none

  -- Two threads have claimed different positions.
  abbrev pub Apart : Thread A → Thread A → Type 0
  Apart t u = Differ (pushes_at t) (pushes_at u) × Differ (pops_at t) (pops_at u)
