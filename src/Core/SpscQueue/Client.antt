-- ===== src/Core/SpscQueue/Client.antt =====
-- The ring buffer as the operators see it: sound, with the list of elements that it holds, and what a
-- push and a pop do to that list. The indices and the storage stay behind these laws.
use klstream.Prelude.{
  ℕ, ◌-◌, ◌≤◌, bit_and, half_word, ◌≡◌, ◌⊎◌, inr, refl, arith, Bool, true, false, Option, none,
  some, List, [], ◌∷◌, ◌++◌, length,
}
use klstream.Core.Fifo
use klstream.Core.SpscQueue.{SpscQueue, init, try_push, try_pop}
use klstream.Core.SpscQueue.Invariant.{IsValid, init-IsValid, try_push-IsValid, try_pop-IsValid}
use klstream.Core.SpscQueue.Contents.{
  contents, try_push_refines, try_pop_refines, capacity-try_push, capacity-try_pop,
}

module _ {A : Type 0} where
  pub IsSound : SpscQueue A → Type 0
  IsSound q = IsValid q

  pub items : SpscQueue A → List A
  items q = contents q

  pub IsSound-of_valid : {q : SpscQueue A} → IsValid q → IsSound q
  unfolding IsSound
  IsSound-of_valid v = v

  pub items-eq-contents : (q : SpscQueue A) → items q ≡ contents q
  unfolding items
  items-eq-contents q = refl

  -- What a push leads to: the element is at the end, or the queue was full and is as it was.
  abbrev pub Pushed : A → SpscQueue A → Bool × SpscQueue A → Type 0
  Pushed val q (done, q') =
      IsSound q'
      × (q'.capacity ≡ q.capacity)
      × (((done ≡ true) × (items q' ≡ items q ++ val ∷ []))
          ⊎ ((done ≡ false) × (items q' ≡ items q) × (length (items q) ≡ q.capacity - 1)))

  pub try_push-Pushed : (val : A) (q : SpscQueue A) → IsSound q → Pushed val q (try_push val q)
  unfolding IsSound items
  try_push-Pushed val q v =
      (try_push-IsValid val v, capacity-try_push val q, split _ _ _ _ (try_push_refines val v))
    where
      split :
          (done : Bool) (xs ys : List A) (n : ℕ)
          → (done, ys) ≡ Fifo.push n val xs
          → ((done ≡ true) × (ys ≡ xs ++ val ∷ [])) ⊎ ((done ≡ false) × (ys ≡ xs) × (length xs ≡ n))
      split done xs ys n e = ground arith

  -- What a pop leads to: the queue was empty, or its first element came out.
  abbrev pub Popped : SpscQueue A → Option A × SpscQueue A → Type 0
  Popped q (out, q') =
      IsSound q'
      × (q'.capacity ≡ q.capacity)
      × (((out ≡ none) × (items q ≡ []) × (items q' ≡ []))
          ⊎ ((x : A) × (out ≡ some x) × (items q ≡ x ∷ items q')))

  pub try_pop-Popped : (q : SpscQueue A) → IsSound q → Popped q (try_pop q)
  unfolding IsSound items
  try_pop-Popped q v = (try_pop-IsValid v, capacity-try_pop q, split _ _ _ (try_pop_refines v))
    where
      split :
          (out : Option A) (xs ys : List A)
          → (out, ys) ≡ Fifo.pop xs
          → ((out ≡ none) × (xs ≡ []) × (ys ≡ [])) ⊎ ((x : A) × (out ≡ some x) × (xs ≡ x ∷ ys))
      split out [] ys e = ground arith
      split out (x ∷ xs) ys e = inr (x, ground arith, ground arith)

  -- A queue from the constructor is sound and empty.
  pub init-IsSound :
      (memory : ℕ → A) (capacity : ℕ) {q : SpscQueue A}
      → capacity ≤ half_word
      → init memory capacity ≡ some q
      → IsSound q × (items q ≡ [])
  unfolding IsSound items init
  init-IsSound memory capacity {q} small e =
      ((init-IsValid memory capacity small e).0, ground arith)

  -- A queue with nothing in it yet.
  abbrev pub fresh : (ℕ → A) → ℕ → SpscQueue A
  fresh memory capacity = record {
    buffer = memory;
    capacity = capacity;
    write_idx = 0;
    write_idx_cached = 0;
    read_idx = 0;
    read_idx_cached = 0;
  }

  -- The constructor succeeds where its assertions hold.
  pub init-fresh :
      (memory : ℕ → A) (capacity : ℕ)
      → 2 ≤ capacity
      → bit_and capacity (capacity - 1) ≡ 0
      → init memory capacity ≡ some (fresh memory capacity)
  unfolding init
  init-fresh memory capacity large mask = ground arith

  pub fresh-IsSound :
      (memory : ℕ → A) (capacity : ℕ)
      → capacity ≤ half_word
      → 2 ≤ capacity
      → bit_and capacity (capacity - 1) ≡ 0
      → IsSound (fresh memory capacity) × (items (fresh memory capacity) ≡ [])
  fresh-IsSound memory capacity small large mask =
      init-IsSound memory capacity small (init-fresh memory capacity large mask)
