-- ===== src/Core/SpscQueue.antt =====
-- The ring buffer of include/klstream/core/spsc_queue.hpp, called from one thread at a time: the
-- constructor, `try_push`, `try_pop`, `empty` and the numerator of `occupancy`. `SpscQueue.Threads`
-- has `try_push` and `try_pop` as steps of two threads.
-- The storage is a function from addresses, with any values in it before the first write.
pub mod Invariant
pub mod Contents
pub mod Client
pub mod Threads
mod Tests
use klstream.Prelude.{
  ℕ, ◌+◌, ◌-◌, ◌%◌, ◌≤◌, Bool, true, false, Option, none, some, bit_and, leb, ◌==◌, if◌then◌else◌,
  ◌&&◌, word, add_word,
}

pub record SpscQueue {ℓ} (A : Type ℓ) : Type ℓ where
  pub buffer : ℕ → A
  pub capacity : ℕ
  pub write_idx : ℕ
  pub write_idx_cached : ℕ
  pub read_idx : ℕ
  pub read_idx_cached : ℕ

-- One slot of the storage is overwritten.
abbrev pub store {ℓ} : {A : Type ℓ} → (ℕ → A) → ℕ → A → ℕ → A
store buffer i v j = if j == i then v else buffer j

-- `(i + 1) & (capacity_ - 1)`
pub next_index : ℕ → ℕ → ℕ
next_index capacity i = bit_and (add_word i 1) (capacity - 1)

-- The two assertions of the constructor; `none` is a failed assertion.
pub init {ℓ} : {A : Type ℓ} → (ℕ → A) → ℕ → Option (SpscQueue A)
init memory capacity =
    if leb 2 capacity && bit_and capacity (capacity - 1) == 0
    then some (record {
      buffer = memory;
      capacity = capacity;
      write_idx = 0;
      write_idx_cached = 0;
      read_idx = 0;
      read_idx_cached = 0;
    })
    else none

module _ {ℓ} {A : Type ℓ} where
  -- `buffer_[wi] = val` and the store of the next write index.
  pub publish : SpscQueue A → A → SpscQueue A
  publish q val = record q {
    buffer = store q.buffer q.write_idx val;
    write_idx = next_index q.capacity q.write_idx;
  }

  pub try_push : A → SpscQueue A → Bool × SpscQueue A
  unfolding publish
  try_push val q =
      let next_wi = next_index q.capacity q.write_idx in
      if next_wi == q.write_idx_cached
      then (let q' = record q { write_idx_cached = q.read_idx } in
          if next_wi == q'.write_idx_cached then (false, q') else (true, publish q' val))
      else (true, publish q val)

  -- `*out = buffer_[ri]` and the store of the next read index.
  pub consume : SpscQueue A → Option A × SpscQueue A
  consume q = (some (q.buffer q.read_idx), record q { read_idx = next_index q.capacity q.read_idx })

  -- `some` is a return of true with the element written to `*out`.
  pub try_pop : SpscQueue A → Option A × SpscQueue A
  unfolding consume
  try_pop q =
      let ri = q.read_idx in
      if ri == q.read_idx_cached
      then (let q' = record q { read_idx_cached = q.write_idx } in
          if ri == q'.read_idx_cached then (none, q') else consume q')
      else consume q

  pub empty : SpscQueue A → Bool
  empty q = q.write_idx == q.read_idx

  -- The numerator of `occupancy`, `(wi - ri + capacity_) & (capacity_ - 1)`.
  unfoldable pub used : SpscQueue A → ℕ
  used q = bit_and (add_word ((q.write_idx + word - q.read_idx) % word) q.capacity) (q.capacity - 1)
