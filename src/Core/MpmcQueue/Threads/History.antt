-- ===== src/Core/MpmcQueue/Threads/History.antt =====
-- What any number of threads on one queue get: no race on a slot, elements in their order and once
-- each, and no refusal while there is room.
use native.Mathlib.Nat.{mod-lt, mod-eq_of_lt, le_refl}
use native.Mathlib.Decide.{dec_lt}
use klstream.Prelude.{
  ℕ, ◌+◌, ◌-◌, ◌%◌, ◌≤◌, ◌<◌, ◌≡◌, ◌==◌, inl, inr, ◌≢◌, arith, Option, some, none, half_word, word,
  add_word, Bool, true, false, Bool-cases, Option-cases, ltb, if◌then◌else◌, ◌⊎◌,
}
use klstream.Prelude.Laps.{lap_apart, lap_back}
use klstream.Prelude.Int.{negsuc}
use klstream.Core.MpmcQueue.{MpmcQueue, init, slot, diff, used}
use klstream.Core.MpmcQueue.Threads.{Thread, World, System, Move, Run, idle, seq_at}
use klstream.Core.MpmcQueue.Threads.Invariant.{Inv, place, Relies, Apart, pops_at}
use klstream.Core.MpmcQueue.Threads.Moves.{slot-eq, diff_below, seen-lt, at-lt}
use klstream.Core.MpmcQueue.Threads.Safety.{reachable}

abbrev pub is_some : {A : Type 0} → Option A → Bool
is_some none = false
is_some (some x) = true

module _ {A : Type 0} where
  -- The position at which a thread is about to access the data of a slot.
  abbrev pub touches : Thread A → Option ℕ
  touches (Thread.push_write val at) = some at
  touches (Thread.pop_read at) = some at
  touches _ = none

  touches_at :
      (t : Thread A) (at : ℕ)
      → touches t ≡ some at
      → ((val : A) × (t ≡ Thread.push_write val at)) ⊎ (t ≡ Thread.pop_read at)
  touches_at (Thread.push_write val a) at h = inl (val, ground arith)
  touches_at (Thread.pop_read a) at h = inr (ground arith)
  touches_at Thread.outside at h = cc
  touches_at t at h = cc

  -- What a push that is refused has seen.
  full_seen :
      {w : World A} {val : A} {at seq : ℕ} {w' : World A}
      → Move w (Thread.push_saw val at seq) w' Thread.outside
      → (n : ℕ) × (diff seq at ≡ negsuc n)
  full_seen (Move.full {n = n} e) = (n, e)

  touching_differ :
      {limit : ℕ} {w : World A} (v : Inv limit w) (t u : Thread A) (at at' : ℕ)
      → Relies w t
      → Relies w u
      → Apart t u
      → touches t ≡ some at
      → touches u ≡ some at'
      → place w.queue at ≢ place w.queue at'
  touching_differ {w = w} v t u at at' r r' a h k = elim (touches_at t at h) [
    | inl (val, e) ↦ elim (touches_at u at' k) [
      | inl (val', f) ↦
          (let own : Relies w (Thread.push_write val at) = rw e at r in
            let other : Relies w (Thread.push_write val' at') = rw f at r' in
            let apart : Apart {A = A} (Thread.push_write val at) (Thread.push_write val' at') =
              rw (e, f) at a in
            λ same. ground arith)
      | inr f ↦
          (let own : Relies w (Thread.push_write val at) = rw e at r in
            let other : Relies w (Thread.pop_read at') = rw f at r' in
            λ same. ground (arith, lap_apart w.queue.capacity at at' v.large))
    ]
    | inr e ↦ elim (touches_at u at' k) [
      | inl (val', f) ↦
          (let own : Relies w (Thread.pop_read at) = rw e at r in
            let other : Relies w (Thread.push_write val' at') = rw f at r' in
            λ same. ground (arith, lap_apart w.queue.capacity at' at v.large))
      | inr f ↦
          (let own : Relies w (Thread.pop_read at) = rw e at r in
            let other : Relies w (Thread.pop_read at') = rw f at r' in
            let apart : Apart {A = A} (Thread.pop_read at) (Thread.pop_read at') = rw (e, f) at a in
            λ same. ground arith)
    ]
  ]

module _ {A : Type 0} {n : ℕ} {q : MpmcQueue A} {s : System A} (memory : ℕ → A) (capacity : ℕ)
    (made : init memory capacity ≡ some q) (run : Run (idle q) n s)
    (short : n + capacity < half_word) where
  -- Two threads that are about to access the data of a slot, to write or to read it, access different
  -- slots, and these lie in the storage.
  pub slots_differ :
      (i j at at' : ℕ)
      → i ≢ j
      → touches (s.threads i) ≡ some at
      → touches (s.threads j) ≡ some at'
      → (slot s.world.queue at ≢ slot s.world.queue at')
        × (slot s.world.queue at < capacity)
        × (slot s.world.queue at' < capacity)
  slots_differ i j at at' d h k =
      let (v, size) = reachable memory capacity made run short in
      let e = slot-eq v.inv (omega arith) at in
      let e' = slot-eq v.inv (omega arith) at' in
      let differ =
        touching_differ v.inv (s.threads i) (s.threads j) at at' (v.relies i) (v.relies j)
          (v.apart i j (ground arith)) h k in
      let lt : at % capacity < capacity = mod-lt at (omega (arith, v.inv.large)) in
      let lt' : at' % capacity < capacity = mod-lt at' (omega (arith, v.inv.large)) in
      rw (e, e') (differ, rw size lt, rw size lt')

  -- What a pop is about to give out has been pushed at its position, and has not been given out.
  pub gives_out :
      (i at : ℕ) (out : A)
      → s.threads i ≡ Thread.pop_release out at
      → (s.world.pushed at ≡ some out)
        × (s.world.popped at ≡ none)
        × (at < s.world.queue.dequeue_pos)
        × (s.world.queue.dequeue_pos ≤ s.world.queue.enqueue_pos)
  gives_out i at out h =
      let (v, size) = reachable memory capacity made run short in
      let r : Relies s.world (Thread.pop_release out at) = rw h at (v.relies i) in
      ground (arith, v.inv.ordered)

  -- Once all threads are outside their calls, a position has given out its element exactly if it is
  -- below `dequeue_pos_`, and has taken one in exactly if it is below `enqueue_pos_`.
  pub quiet_balance :
      (at : ℕ)
      → ((i : ℕ) → s.threads i ≡ Thread.outside)
      → let w = s.world in
        (w.popped at ≡ (if ltb at w.queue.dequeue_pos then w.pushed at else none))
        × (is_some (w.pushed at) ≡ ltb at w.queue.enqueue_pos)
        × (w.queue.dequeue_pos ≤ w.queue.enqueue_pos)
        × (w.queue.enqueue_pos ≤ w.queue.dequeue_pos + capacity)
  quiet_balance at h =
      let (v, size) = reachable memory capacity made run short in
      let out : at < s.world.queue.dequeue_pos → s.world.popped at ≡ s.world.pushed at =
        λ lt. elim (v.served at lt) [ inl e ↦ e | inr (i, e) ↦ absurd (nobody i at (h i) e) ] in
      (
        ground (arith, out, v.inv.not_popped at),
        ground (arith, v.inv.not_pushed at, v.inv.was_pushed at),
        v.inv.ordered,
        omega (arith, v.inv.fits),
      )
    where
      nobody : (i at : ℕ) → s.threads i ≡ Thread.outside → pops_at (s.threads i) ≡ some at → ⊥
      nobody i at o e = ground arith

  -- A push is refused only for an element that is in its way: where a thread looks at the slot of its
  -- position, and leaves its call without a push by its next step, in whatever world it makes it, then at
  -- the look the position one lap before had taken an element in that had not come out yet.
  pub refused :
      (i at : ℕ) (val : A) (u u' : World A)
      → s.threads i ≡ Thread.push_at val at
      → Move u (Thread.push_saw val at (seq_at s.world.queue at)) u' Thread.outside
      → (x : A) × (capacity ≤ at)
        × (s.world.pushed (at - capacity) ≡ some x)
        × (s.world.popped (at - capacity) ≡ none)
  refused i at val u u' h leave =
      let (k, e) = full_seen leave in
      let (v, size) = reachable memory capacity made run short in
      let inv = v.inv in
      let r : Relies s.world (Thread.push_at val at) = rw h at (v.relies i) in
      let small : n + s.world.queue.capacity < half_word = omega arith in
      let seen = rw (slot-eq inv small at, seq_at) at e in
      let below =
        diff_below _ at k (seen-lt inv small at _ (le_refl _)) (at-lt inv small at r) seen in
      let small' : s.world.queue.seq (place s.world.queue at) < at = below in
      elim (dec_lt at s.world.queue.capacity) [
        | yes early ↦
            absurd (omega (arith, rw (mod-eq_of_lt early) at small', inv.first_lap at early))
        | no late ↦
            let back = lap_back s.world.queue.capacity at (omega arith) in
            elim (Option-cases (s.world.popped (at - s.world.queue.capacity))) [
              | inl none_yet ↦ elim (Option-cases (s.world.pushed (at - s.world.queue.capacity))) [
                | inl not_in ↦
                    absurd (inv.was_pushed (at - s.world.queue.capacity) (omega (arith, r)) not_in)
                | inr (x, is) ↦ (x, omega arith, rw (← size) is, rw (← size) none_yet)
              ]
              | inr (x, e) ↦
                  let (_, gone) = inv.came_out (at - s.world.queue.capacity) (λ f. cc) in
                  absurd (omega (arith, rw back at gone))
            ]
      ]

  -- Where both positions are read at one moment, the numerator of `occupancy` is how many positions have been pushed and not taken, but 0 where that
  -- is the whole capacity: a full queue shows as empty.
  pub used_wraps :
      let q' = s.world.queue in
      let held = q'.enqueue_pos - q'.dequeue_pos in
      (held ≤ capacity) × (used q' ≡ (if held == capacity then 0 else held))
  unfolding used slot
  used_wraps =
      let (v, size) = reachable memory capacity made run short in
      let inv = v.inv in
      let q' = s.world.queue in
      let held = q'.enqueue_pos - q'.dequeue_pos in
      let plain : add_word ((q'.enqueue_pos + word - q'.dequeue_pos) % word) q'.capacity
          ≡ held + q'.capacity =
        omega (arith, inv.bounded, inv.ordered) in
      let masked : used q' ≡ (held + q'.capacity) % q'.capacity =
        rw plain (slot-eq inv (omega arith) (held + q'.capacity)) in
      let once = lap_back q'.capacity (held + q'.capacity) (omega arith) in
      (
        omega (arith, inv.fits),
        elim (Bool-cases (held == q'.capacity)) [
          | inl full ↦
              let e : held ≡ q'.capacity = ground arith in
              let none_left : 0 % q'.capacity ≡ 0 = mod-eq_of_lt (omega (arith, inv.large)) in
              let back = lap_back q'.capacity held (omega arith) in
              ground (arith, masked, once, back, none_left)
          | inr less ↦
              let small : held % q'.capacity ≡ held = mod-eq_of_lt (ground (arith, inv.fits)) in
              ground (arith, masked, once, small)
        ],
      )
