-- ===== src/Core/MpmcQueue/Threads/Others.antt =====
-- What one thread relies on is kept by the steps of another.
use klstream.Prelude.{ℕ, ◌≡◌, arith}
use klstream.Prelude.Laps.{lap_apart}
use klstream.Core.MpmcQueue.Threads.{Thread, World}
use klstream.Core.MpmcQueue.Threads.Invariant.{Inv, Relies, Apart}
use klstream.Core.MpmcQueue.Threads.Moves.{
  claimed_push, claimed_pop, written, made_public, released,
}

module _ {A : Type 0} {limit : ℕ} {w : World A} (v : Inv limit w) where
  pub claim_push-Relies :
      (val : A) (at : ℕ) (other : Thread A)
      → w.queue.enqueue_pos ≡ at
      → Relies w other
      → Relies (claimed_push w val at) other
  claim_push-Relies val at Thread.outside e h = tt
  claim_push-Relies val at (Thread.pop_release out a) e h = ground (arith, v.ordered)
  claim_push-Relies val at other e h = ground arith

  pub claim_pop-Relies :
      (at : ℕ) (other : Thread A)
      → w.queue.dequeue_pos ≡ at
      → Relies w other
      → Relies (claimed_pop w at) other
  claim_pop-Relies at Thread.outside e h = tt
  claim_pop-Relies at other e h = ground arith

  pub write-Relies :
      (val : A) (at : ℕ) (other : Thread A)
      → Relies w (Thread.push_write val at)
      → Apart (Thread.push_write val at) other
      → Relies w other
      → Relies (written w val at) other
  write-Relies val at Thread.outside m d h = tt
  write-Relies val at other m d h = ground arith

  pub publish-Relies :
      (val : A) (at : ℕ) (other : Thread A)
      → Relies w (Thread.push_publish val at)
      → Apart (Thread.push_publish val at) other
      → Relies w other
      → Relies (made_public w at) other
  publish-Relies val at Thread.outside m d h = tt
  publish-Relies val at (Thread.pop_read a) m d h =
      ground (arith, lap_apart w.queue.capacity at a v.large)
  publish-Relies val at (Thread.pop_release out a) m d h =
      ground (arith, lap_apart w.queue.capacity at a v.large)
  publish-Relies val at other m d h = ground arith

  pub release-Relies :
      (out : A) (at : ℕ) (other : Thread A)
      → Relies w (Thread.pop_release out at)
      → Apart (Thread.pop_release out at) other
      → Relies w other
      → Relies (released w out at) other
  release-Relies out at Thread.outside m d h = tt
  release-Relies out at (Thread.push_write val a) m d h =
      ground (arith, lap_apart w.queue.capacity a at v.large)
  release-Relies out at (Thread.push_publish val a) m d h =
      ground (arith, lap_apart w.queue.capacity a at v.large)
  release-Relies out at other m d h = ground (arith, v.large)
