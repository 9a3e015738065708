-- ===== src/Core/SpscQueue/Invariant.antt =====
-- The representation invariant of the ring buffer, and what of it the cached indices rely on.
use klstream.Prelude.{
  word, half_word, ℕ, ◌+◌, ◌-◌, ◌%◌, ◌≤◌, ◌<◌, ◌≡◌, arith, some, leb, ◌==◌, if◌then◌else◌,
  half_word, bit_and,
}
use klstream.Prelude.Bits.{bit_and_mask, IsPowerOfTwo, power_of_mask_zero}
use klstream.Core.SpscQueue.{SpscQueue, next_index, init, try_push, try_pop}

-- How far index `b` is ahead of index `a`, going round at `capacity`.
abbrev pub ahead : ℕ → ℕ → ℕ → ℕ
ahead capacity a b = if leb a b then b - a else b + capacity - a

-- The index that follows `i` going round at `capacity`.
abbrev pub after : ℕ → ℕ → ℕ
after capacity i = if i + 1 == capacity then 0 else i + 1

pub record IsValid {ℓ} {A : Type ℓ} (q : SpscQueue A) : Type 0 where
  pub power : IsPowerOfTwo q.capacity
  pub large : 2 ≤ q.capacity
  pub addressable : q.capacity ≤ half_word
  pub write_in : q.write_idx < q.capacity
  pub read_in : q.read_idx < q.capacity
  pub write_cached_in : q.write_idx_cached < q.capacity
  pub read_cached_in : q.read_idx_cached < q.capacity
  -- The producer's copy of the read index lags: it shows no more room than there is.
  pub producer_lags :
      ahead q.capacity q.read_idx q.write_idx ≤ ahead q.capacity q.write_idx_cached q.write_idx
  -- The consumer's copy of the write index lags: it shows no more elements than there are.
  pub consumer_lags :
      ahead q.capacity q.read_idx q.read_idx_cached ≤ ahead q.capacity q.read_idx q.write_idx

-- The mask is a remainder by the capacity.
pub mask-eq : (capacity x : ℕ) → IsPowerOfTwo capacity → bit_and x (capacity - 1) ≡ x % capacity
mask-eq capacity x (k, e) = rw e (bit_and_mask k x)

-- The mask takes an index to the next one round the ring.
pub next_index_lem :
    (capacity i : ℕ)
    → IsPowerOfTwo capacity
    → capacity ≤ half_word
    → i < capacity
    → next_index capacity i ≡ after capacity i
unfolding next_index
next_index_lem capacity i p small h =
    let e : (i + 1) % word ≡ i + 1 = omega arith in rw (e, mask-eq capacity (i + 1) p) (grind arith)

module _ {ℓ} {A : Type ℓ} {q : SpscQueue A} (v : IsValid q) where
  pub next_write : next_index q.capacity q.write_idx ≡ after q.capacity q.write_idx
  next_write = next_index_lem q.capacity q.write_idx v.power v.addressable v.write_in

  pub next_read : next_index q.capacity q.read_idx ≡ after q.capacity q.read_idx
  next_read = next_index_lem q.capacity q.read_idx v.power v.addressable v.read_in

module _ {ℓ} {A : Type ℓ} where
  -- A fresh queue is valid, and the assertions of the constructor make the capacity a power of two.
  pub init-IsValid :
      (memory : ℕ → A) (capacity : ℕ) {q : SpscQueue A}
      → capacity ≤ half_word
      → init memory capacity ≡ some q
      → IsValid q × (q.capacity ≡ capacity)
  unfolding init
  init-IsValid memory capacity small e = ground (arith, power_of_mask_zero capacity)

  pub try_push-IsValid : (val : A) {q : SpscQueue A} → IsValid q → IsValid (try_push val q).1
  unfolding try_push
  try_push-IsValid val {q} v = ground (arith, next_write v)

  pub try_pop-IsValid : {q : SpscQueue A} → IsValid q → IsValid (try_pop q).1
  unfolding try_pop
  try_pop-IsValid {q} v = ground (arith, next_read v)
