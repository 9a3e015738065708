-- ===== src/Core/SpscQueue/Contents.antt =====
-- What the ring holds, oldest first, and the contract that `try_push` and `try_pop` keep: those of a
-- FIFO of `capacity - 1` elements.
use klstream.Prelude.{
  ℕ, zero, suc, ◌+◌, ◌-◌, ◌<◌, ◌%◌, ◌≤◌, ◌≡◌, refl, ap, ap, ◌↔◌, arith, List, [], ◌∷◌, ◌++◌, length,
  true, word, half_word,
}
use native.Mathlib.Decide.{dec_le}
use native.Mathlib.Nat.{mod-eq_of_lt}
use klstream.Core.Fifo
use klstream.Core.Fifo.{Call, put, get, Reply, pushed, popped}
use klstream.Core.SpscQueue.{SpscQueue, store, try_push, try_pop, used, empty}
use klstream.Core.SpscQueue.Invariant.{
  IsValid, ahead, after, next_write, next_read, mask-eq, try_push-IsValid, try_pop-IsValid,
}

module _ {ℓ} {A : Type ℓ} where
  -- The `n` elements from index `i` on.
  abbrev pub window : (ℕ → A) → ℕ → ℕ → ℕ → List A
  window buffer capacity i zero = []
  window buffer capacity i (suc n) = buffer i ∷ window buffer capacity (after capacity i) n

  abbrev pub contents : SpscQueue A → List A
  contents q = window q.buffer q.capacity q.read_idx (ahead q.capacity q.read_idx q.write_idx)

-- `(wi - ri + capacity_)` in `size_t`, taken round the ring.
ring_distance :
    (c r w : ℕ)
    → c ≤ half_word
    → r < c
    → w < c
    → ((w + word - r) % word + c) % word % c ≡ ahead c r w
ring_distance c r w h hr hw = elim (dec_le r w) [
  | yes p ↦
      let e : ((w + word - r) % word + c) % word ≡ w - r + c = omega arith in
      rw e (grind (arith, mod-eq_of_lt))
  | no p ↦
      let e : ((w + word - r) % word + c) % word ≡ w + c - r = omega arith in
      rw e (grind (arith, mod-eq_of_lt))
]

module _ {A : Type 0} where
  length-window : (buffer : ℕ → A) (capacity i n : ℕ) → length (window buffer capacity i n) ≡ n
  length-window buffer capacity i zero = refl
  length-window buffer capacity i (suc n) =
      ap suc (length-window buffer capacity (after capacity i) n)

  pub length-contents :
      (q : SpscQueue A) → length (contents q) ≡ ahead q.capacity q.read_idx q.write_idx
  length-contents q = length-window q.buffer q.capacity q.read_idx _

  -- A write to the index just past a window extends the window.
  pub window-store :
      (buffer : ℕ → A) (capacity : ℕ) (v : A) (n i j : ℕ)
      → i < capacity
      → j < capacity
      → ahead capacity i j ≡ n
      → window (store buffer j v) capacity i (suc n) ≡ window buffer capacity i n ++ v ∷ []
  window-store buffer capacity v zero i j hi hj e = ground arith
  window-store buffer capacity v (suc n) i j hi hj e =
      ground (arith, window-store buffer capacity v n (after capacity i) j)

  -- The window that starts one index later is the tail.
  pub window_of_pos :
      (buffer : ℕ → A) (capacity i n m : ℕ)
      → n ≡ suc m
      → window buffer capacity i n ≡ buffer i ∷ window buffer capacity (after capacity i) m
  window_of_pos buffer capacity i n m e = ap (window buffer capacity i) e

  -- `try_push` on a valid queue is the push of a FIFO that holds at most `capacity - 1` elements.
  pub try_push_refines :
      (val : A) {q : SpscQueue A}
      → IsValid q
      → ((try_push val q).0, contents (try_push val q).1)
        ≡ Fifo.push (q.capacity - 1) val (contents q)
  unfolding try_push
  try_push_refines val {q} v = ground (
    arith,
    length-contents q,
    next_write v,
    window-store q.buffer q.capacity val (ahead q.capacity q.read_idx q.write_idx) q.read_idx
        q.write_idx,
  )

  pub try_pop_refines :
      {q : SpscQueue A}
      → IsValid q
      → ((try_pop q).0, contents (try_pop q).1) ≡ Fifo.pop (contents q)
  unfolding try_pop
  try_pop_refines {q} v = ground (
    arith,
    next_read v,
    window_of_pos q.buffer q.capacity q.read_idx (ahead q.capacity q.read_idx q.write_idx)
        (ahead q.capacity q.read_idx q.write_idx - 1),
  )

  -- `used`, the numerator of `occupancy`, is the number of elements held, however often the indices
  -- have gone round.
  pub used-length : {q : SpscQueue A} → IsValid q → used q ≡ length (contents q)
  unfolding used
  used-length {q} v =
      rw (length-contents q, mask-eq q.capacity _ v.power)
        (ring_distance q.capacity q.read_idx q.write_idx v.addressable v.read_in v.write_in)

  -- `empty` answers true exactly when nothing is held.
  pub empty_iff : {q : SpscQueue A} → IsValid q → (empty q ≡ true) ↔ (contents q ≡ [])
  unfolding empty
  empty_iff {q} v = ground (arith, length-contents q)

  -- A client's calls in order, with what each answers.
  unfoldable pub run : SpscQueue A → List (Call A) → List (Reply A)
  run q [] = []
  run q (put v ∷ calls) = let (done, q') = try_push v q in pushed done ∷ run q' calls
  run q (get ∷ calls) = let (out, q') = try_pop q in popped out ∷ run q' calls

  pub capacity-try_push : (val : A) (q : SpscQueue A) → (try_push val q).1.capacity ≡ q.capacity
  unfolding try_push
  capacity-try_push val q = ground arith

  pub capacity-try_pop : (q : SpscQueue A) → (try_pop q).1.capacity ≡ q.capacity
  unfolding try_pop
  capacity-try_pop q = ground arith

  -- No sequence of calls tells a valid ring from the FIFO of its contents.
  pub run_refines :
      (calls : List (Call A)) {q : SpscQueue A}
      → IsValid q
      → run q calls ≡ Fifo.run (q.capacity - 1) (contents q) calls
  unfolding run Fifo.run
  run_refines [] v = refl
  run_refines (put val ∷ calls) {q} v =
      rw (run_refines calls (try_push-IsValid val v), ← try_push_refines val v, capacity-try_push)
  run_refines (get ∷ calls) {q} v =
      rw (run_refines calls (try_pop-IsValid v), ← try_pop_refines v, capacity-try_pop)
