-- ===== src/Core/MpmcQueue/Threads/Moves.antt =====
-- A step of one thread keeps the invariant, what the thread relies on, what any other thread relies
-- on, and that the two have claimed different positions.
use native.Mathlib.Decide.{dec_lt}
use klstream.Prelude.{ℕ, ◌+◌, ◌-◌, ◌≤◌, ◌<◌, ◌≡◌, arith, some, half_word, add_word}
use klstream.Prelude.Int.{pos, negsuc, signed_sub}
use klstream.Prelude.Laps.{lap_above, lap_apart, lap_back}
use klstream.Core.SpscQueue.{store}
use klstream.Core.SpscQueue.Invariant.{mask-eq}
use klstream.Core.MpmcQueue.{slot, diff}
use klstream.Core.MpmcQueue.Threads.{Thread, World}
use klstream.Core.MpmcQueue.Threads.Invariant.{Inv, place, Relies}

-- What a comparison of numbers in range says.
diff_zero : (a b : ℕ) → a < half_word → b < half_word → diff a b ≡ pos 0 → a ≡ b
unfolding diff
diff_zero a b h k e = ground (arith, signed_sub a b h k)

pub diff_below : (a b n : ℕ) → a < half_word → b < half_word → diff a b ≡ negsuc n → a < b
unfolding diff
diff_below a b n h k e = ground (arith, signed_sub a b h k)

-- What the steps make of the world, with positions in range.
module _ {A : Type 0} (w : World A) where
  abbrev pub claimed_push : A → ℕ → World A
  claimed_push val at = record w {
    queue = record (w.queue) { enqueue_pos = at + 1 };
    pushed = store w.pushed at (some val);
  }

  abbrev pub claimed_pop : ℕ → World A
  claimed_pop at = record w { queue = record (w.queue) { dequeue_pos = at + 1 } }

  abbrev pub written : A → ℕ → World A
  written val at = record w {
    queue = record (w.queue) { slot_data = store w.queue.slot_data (place w.queue at) val };
  }

  abbrev pub made_public : ℕ → World A
  made_public at = record w {
    queue = record (w.queue) { seq = store w.queue.seq (place w.queue at) (at + 1) };
  }

  abbrev pub released : A → ℕ → World A
  released out at = record w {
    queue = record (w.queue) { seq = store w.queue.seq (place w.queue at) (at + w.queue.capacity) };
    popped = store w.popped at (some out);
  }

module _ {A : Type 0} {limit : ℕ} {w : World A} (v : Inv limit w)
    (small : limit + w.queue.capacity < half_word) where
  pub slot-eq : (at : ℕ) → slot w.queue at ≡ place w.queue at
  unfolding slot
  slot-eq at =
      let e : w.queue.mask ≡ w.queue.capacity - 1 = omega (arith, v.masked) in
      rw e (mask-eq w.queue.capacity at v.power)

  -- The steps that change what is shared.
  -- A slot is free for a position only if the element one lap before has been taken.
  room :
      (at : ℕ)
      → w.queue.seq (place w.queue at) ≡ at
      → at + 1 ≤ w.queue.dequeue_pos + w.queue.capacity
  room at e = elim (dec_lt at (w.queue.dequeue_pos + w.queue.capacity)) [
    | yes lt ↦ omega arith
    | no ge ↦
        let back = lap_back w.queue.capacity at (omega arith) in
        let early = v.untaken (at - w.queue.capacity) (omega arith) in
        absurd (omega (arith, rw back at early, v.large))
  ]

  pub claim_push-Inv :
      (val : A) (at : ℕ)
      → w.queue.enqueue_pos ≡ at
      → w.queue.seq (place w.queue at) ≡ at
      → Inv (limit + 1) (claimed_push w val at)
  claim_push-Inv val at here e = record {
    power = v.power;
    large = v.large;
    masked = v.masked;
    bounded = omega (arith, v.bounded);
    ordered = omega (arith, v.ordered);
    fits = room at e;
    unclaimed = λ a h. v.unclaimed a (omega arith);
    untaken = v.untaken;
    first_lap = v.first_lap;
    reach = λ a. omega (arith, v.reach a);
    published = λ a h. ground (arith, v.published a h, v.unclaimed a);
    not_pushed = λ a h. ground (arith, v.not_pushed a);
    was_pushed = λ a h. ground (arith, v.was_pushed a);
    not_popped = v.not_popped;
    came_out = λ a h. ground (arith, v.came_out a h, v.not_popped a, v.ordered);
  }

  pub claim_pop-Inv :
      (at : ℕ)
      → w.queue.dequeue_pos ≡ at
      → w.queue.seq (place w.queue at) ≡ at + 1
      → Inv limit (claimed_pop w at)
  claim_pop-Inv at here e = record {
    power = v.power;
    large = v.large;
    masked = v.masked;
    bounded = v.bounded;
    ordered = ground (arith, v.ordered, v.unclaimed at);
    fits = omega (arith, v.fits);
    unclaimed = v.unclaimed;
    untaken = λ a h. v.untaken a (omega arith);
    first_lap = v.first_lap;
    reach = v.reach;
    published = v.published;
    not_pushed = v.not_pushed;
    was_pushed = v.was_pushed;
    not_popped = λ a h. v.not_popped a (omega arith);
    came_out = v.came_out;
  }

  pub write-Inv :
      (val : A) (at : ℕ) → w.queue.seq (place w.queue at) ≡ at → Inv limit (written w val at)
  write-Inv val at e = record {
    power = v.power;
    large = v.large;
    masked = v.masked;
    bounded = v.bounded;
    ordered = v.ordered;
    fits = v.fits;
    unclaimed = v.unclaimed;
    untaken = v.untaken;
    first_lap = v.first_lap;
    reach = v.reach;
    published = λ a h. ground (arith, v.published a h, lap_apart w.queue.capacity at a v.large);
    not_pushed = v.not_pushed;
    was_pushed = v.was_pushed;
    not_popped = v.not_popped;
    came_out = v.came_out;
  }

  pub publish-Inv :
      (val : A) (at : ℕ) → Relies w (Thread.push_publish val at) → Inv limit (made_public w at)
  publish-Inv val at (lt, e, p, d) = record {
    power = v.power;
    large = v.large;
    masked = v.masked;
    bounded = v.bounded;
    ordered = v.ordered;
    fits = v.fits;
    unclaimed = λ a h. ground (arith, v.unclaimed a h);
    untaken = λ a h. ground (arith, v.untaken a h, lap_apart w.queue.capacity at a v.large);
    first_lap = λ i h. ground (arith, v.first_lap i h);
    reach = λ a. ground (arith, v.reach a, v.ordered, v.large);
    published = λ a h. ground (arith, v.published a);
    not_pushed = v.not_pushed;
    was_pushed = v.was_pushed;
    not_popped = v.not_popped;
    came_out = λ a h. ground (arith, v.came_out a h);
  }

  pub release-Inv :
      (out : A) (at : ℕ) → Relies w (Thread.pop_release out at) → Inv limit (released w out at)
  release-Inv out at (lt, e, n, p) = record {
    power = v.power;
    large = v.large;
    masked = v.masked;
    bounded = v.bounded;
    ordered = v.ordered;
    fits = v.fits;
    unclaimed = λ a h. ground (arith, v.unclaimed a h, v.ordered, lap_above w.queue.capacity at a);
    untaken = λ a h. ground (arith, v.untaken a h, lap_above w.queue.capacity at a);
    first_lap = λ i h. ground (arith, v.first_lap i h);
    reach = λ a. ground (arith, v.reach a, v.ordered, v.large);
    published = λ a h. ground (
      arith,
      v.published a,
      lap_apart w.queue.capacity at a v.large,
      lap_apart w.queue.capacity a at v.large,
      lap_above w.queue.capacity at a,
    );
    not_pushed = v.not_pushed;
    was_pushed = v.was_pushed;
    not_popped = λ a h. ground (arith, v.not_popped a);
    came_out = λ a h. ground (arith, v.came_out a);
  }

  pub at-lt : (at : ℕ) → at ≤ w.queue.enqueue_pos → at < half_word
  at-lt at h = omega (arith, v.bounded)

  pub seen-lt : (at seq : ℕ) → seq ≤ w.queue.seq (place w.queue at) → seq < half_word
  seen-lt at seq h = omega (arith, v.bounded, v.reach at)

  -- A push that is about to claim its position sees that the slot is free for it.
  pub free_slot :
      (at seq : ℕ)
      → seq ≤ w.queue.seq (place w.queue at)
      → diff seq at ≡ pos 0
      → w.queue.enqueue_pos ≡ at
      → w.queue.seq (place w.queue at) ≡ at
  free_slot at seq h d e =
      omega (arith, diff_zero seq at (seen-lt at seq h) (at-lt at (omega arith)) d, v.unclaimed at)

  -- A pop that is about to claim its position sees that the slot is published for it.
  pub full_slot :
      (at seq : ℕ)
      → seq ≤ w.queue.seq (place w.queue at)
      → diff seq (at + 1) ≡ pos 0
      → w.queue.dequeue_pos ≡ at
      → w.queue.seq (place w.queue at) ≡ at + 1
  full_slot at seq h d e = omega (
    arith,
    diff_zero seq (at + 1) (seen-lt at seq h) (omega (arith, v.bounded, v.ordered, v.large)) d,
    v.untaken at,
  )

  -- Positions in range do not go round.
  pub next_pos : (at : ℕ) → at ≤ w.queue.enqueue_pos → add_word at 1 ≡ at + 1
  next_pos at h = omega (arith, v.bounded)

  pub next_lap :
      (at : ℕ)
      → at ≤ w.queue.enqueue_pos
      → add_word (add_word at w.queue.mask) 1 ≡ at + w.queue.capacity
  next_lap at h = omega (arith, v.bounded, v.masked)
