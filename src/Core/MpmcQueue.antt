-- ===== src/Core/MpmcQueue.antt =====
-- The queue for many producers and consumers of include/klstream/core/mpmc_queue.hpp. Positions are
-- words that only grow; the number in a slot says which position may use it next, and how. The
-- storage is two functions from addresses, with any values of `T` in it before the first write.
pub mod Threads
mod Tests
use klstream.Prelude.{
  ℕ, ◌+◌, ◌-◌, ◌%◌, ◌==◌, ◌||◌, not, Bool, Option, none, some, if◌then◌else◌, bit_and, ltb, word,
  add_word,
}
use klstream.Prelude.Int.{ℤ, ◌-ℤ◌, signed}

pub record MpmcQueue (A : Type 0) : Type 0 where
  pub capacity : ℕ
  pub mask : ℕ
  pub seq : ℕ → ℕ
  pub slot_data : ℕ → A
  pub enqueue_pos : ℕ
  pub dequeue_pos : ℕ

-- The signed difference that both loops test.
unfoldable pub diff : ℕ → ℕ → ℤ
diff seq pos = signed seq -ℤ signed pos

module _ {A : Type 0} where
  -- The constructor; `none` is a failed assertion. The loop leaves its own number in each slot.
  unfoldable pub init : (ℕ → A) → ℕ → Option (MpmcQueue A)
  init memory capacity =
      if ltb capacity 2 || not (bit_and capacity (capacity - 1) == 0)
      then none
      else some (record {
        capacity = capacity;
        mask = capacity - 1;
        seq = λ i. i;
        slot_data = memory;
        enqueue_pos = 0;
        dequeue_pos = 0;
      })

  -- `pos & mask_`
  unfoldable pub slot : MpmcQueue A → ℕ → ℕ
  slot q pos = bit_and pos q.mask

  -- The numerator of `occupancy`, `(ep - dp + capacity_) & mask_`, with `ep` and `dp` read at one moment.
  unfoldable pub used : MpmcQueue A → ℕ
  used q = bit_and (add_word ((q.enqueue_pos + word - q.dequeue_pos) % word) q.capacity) q.mask
