-- ===== src/Core/MpmcQueue/Threads/Safety.antt =====
-- What every run of any number of threads keeps, and what follows for the queue.
use native.Mathlib.Nat.{mod-le, mod-lt}
use klstream.Prelude.{
  ℕ, suc, ◌+◌, ◌-◌, ◌%◌, ◌≤◌, ◌<◌, ◌≡◌, sym, ◌∙◌, ap, ◌⊎◌, inl, inr, refl, arith, Option, some,
  none, half_word, ◌==◌, Bool-cases, true, false,
}
use klstream.Prelude.Bits.{IsPowerOfTwo, power_of_mask_zero}
use klstream.Core.SpscQueue.{store}
use klstream.Core.MpmcQueue.{MpmcQueue, init}
use klstream.Core.MpmcQueue.Threads.{Thread, World, System, Step, Run, idle}
use klstream.Core.MpmcQueue.Threads.Invariant.{Inv, Relies, Apart, Differ, pushes_at, pops_at}
use klstream.Core.MpmcQueue.Threads.Effects.{
  Effect, Move-Effect, Effect-Inv, Effect-Relies, Effect-Others, Effect-Apart, Effect-served,
  Effect-holder, Effect-taken, Effect-capacity,
}

store_self {ℓ} : {A : Type ℓ} (f : ℕ → A) (i : ℕ) (x : A) → store f i x i ≡ x
store_self f i x = ground arith

store_other {ℓ} :
    {A : Type ℓ} (f : ℕ → A) (i j : ℕ) (x : A) → (j == i) ≡ false → store f i x j ≡ f j
store_other f i j x h = rw h

Differ-sym : (a b : Option ℕ) → Differ a b → Differ b a
Differ-sym none none d = tt
Differ-sym none (some b) d = tt
Differ-sym (some a) none d = tt
Differ-sym (some a) (some b) d = λ e. d (sym e)

both : (i j k : ℕ) → (j == i) ≡ true → (k == i) ≡ true → (k == j) ≡ false → ⊥
both i j k h g d = ground arith

Apart-sym : {A : Type 0} (t u : Thread A) → Apart t u → Apart u t
Apart-sym t u (d, e) =
    (Differ-sym (pushes_at t) (pushes_at u) d, Differ-sym (pops_at t) (pops_at u) e)

module _ {A : Type 0} where
  pub record SystemInv (limit : ℕ) (s : System A) : Type 0 where
    pub inv : Inv limit s.world
    pub relies : (i : ℕ) → Relies s.world (s.threads i)
    pub apart : (i j : ℕ) → (j == i) ≡ false → Apart (s.threads i) (s.threads j)
    pub served :
        (p : ℕ)
        → p < s.world.queue.dequeue_pos
        → (s.world.popped p ≡ s.world.pushed p) ⊎ ((i : ℕ) × (pops_at (s.threads i) ≡ some p))

  Effect-SystemInv :
      {limit : ℕ} {s : System A} (i : ℕ) {w : World A} {t : Thread A}
      → limit + s.world.queue.capacity < half_word
      → SystemInv limit s
      → Effect s.world (s.threads i) w t
      → SystemInv (limit + 1) (record { world = w; threads = store s.threads i t })
  Effect-SystemInv {limit} {s} i {w} {t} small v m = record {
    inv = Effect-Inv v.inv small m (v.relies i);
    relies = λ j. elim (Bool-cases (j == i)) [
      | inl h ↦ rw h (Effect-Relies v.inv small m (v.relies i))
      | inr h ↦
          rw h (Effect-Others v.inv small (s.threads j) m (v.relies i) (v.apart i j h) (v.relies j))
    ];
    apart = λ j k d. elim (Bool-cases (j == i)) [
      | inl h ↦ elim (Bool-cases (k == i)) [
        | inl g ↦ absurd (both i j k h g d)
        | inr g ↦ rw (h, g) (Effect-Apart v.inv small (s.threads k) m (v.apart i k g) (v.relies k))
      ]
      | inr h ↦ elim (Bool-cases (k == i)) [
        | inl g ↦
            rw (h, g)
              (Apart-sym _ _
                (Effect-Apart v.inv small (s.threads j) m (v.apart i j h) (v.relies j)))
        | inr g ↦ rw (h, g) (v.apart j k d)
      ]
    ];
    served = λ p lt. elim (Effect-taken v.inv small p m lt) [
      | inl old ↦ elim (v.served p old) [
        | inl out ↦ inl (Effect-served v.inv small p m (v.relies i) old out)
        | inr (j, h) ↦ elim (Bool-cases (j == i)) [
          | inl here ↦ own p (Effect-holder v.inv small p m (v.relies i) (ground (arith, h)))
          | inr away ↦ inr (j, rw away h)
        ]
      ]
      | inr new ↦ own p (inr new)
    ];
  }
    where
      own :
          (p : ℕ)
          → (w.popped p ≡ w.pushed p) ⊎ (pops_at t ≡ some p)
          → (w.popped p ≡ w.pushed p) ⊎ ((i' : ℕ) × (pops_at (store s.threads i t i') ≡ some p))
      own p (inl out) = inl out
      own p (inr h) = inr (i, rw (store_self s.threads i t) h)

  Step-SystemInv :
      {limit : ℕ} {s t : System A}
      → limit + s.world.queue.capacity < half_word
      → SystemInv limit s
      → Step s t
      → SystemInv (limit + 1) t × (t.world.queue.capacity ≡ s.world.queue.capacity)
  Step-SystemInv {limit} {s} small v (Step.step i m) =
      let e = Move-Effect v.inv small m (v.relies i) in
      (Effect-SystemInv i small v e, Effect-capacity v.inv small e)

  abbrev fresh : (ℕ → A) → ℕ → MpmcQueue A
  fresh memory capacity = record {
    capacity = capacity;
    mask = capacity - 1;
    seq = λ i. i;
    slot_data = memory;
    enqueue_pos = 0;
    dequeue_pos = 0;
  }

  -- What the constructor lets through.
  init-fresh :
      (memory : ℕ → A) (capacity : ℕ) (q : MpmcQueue A)
      → init memory capacity ≡ some q
      → (q ≡ fresh memory capacity) × IsPowerOfTwo capacity × (2 ≤ capacity)
  unfolding init
  init-fresh memory capacity q e = ground (arith, power_of_mask_zero capacity)

  fresh-SystemInv :
      (memory : ℕ → A) (capacity : ℕ)
      → IsPowerOfTwo capacity
      → 2 ≤ capacity
      → SystemInv 0 (idle (fresh memory capacity))
  fresh-SystemInv memory capacity p large = record {
    inv = record {
      power = p;
      large = large;
      masked = omega arith;
      bounded = omega arith;
      ordered = omega arith;
      fits = omega arith;
      unclaimed = λ a h. mod-le a capacity;
      untaken = λ a h. omega (arith, mod-le a capacity);
      first_lap = λ i h. omega arith;
      reach = λ a. let lt : a % capacity < capacity = mod-lt a (omega arith) in omega arith;
      published = λ a h. absurd (omega (arith, mod-le a capacity));
      not_pushed = λ a h. refl;
      was_pushed = λ a h. absurd (omega arith);
      not_popped = λ a h. refl;
      came_out = λ a h. absurd (h refl);
    };
    relies = λ i. tt;
    apart = λ i j h. (tt, tt);
    served = λ a h. absurd (omega arith);
  }

  Run-SystemInv :
      {s t : System A} {n : ℕ} (capacity limit : ℕ)
      → s.world.queue.capacity ≡ capacity
      → limit + n + capacity < half_word
      → SystemInv limit s
      → Run s n t
      → SystemInv (limit + n) t × (t.world.queue.capacity ≡ capacity)
  Run-SystemInv {s} capacity limit e small v Run.start =
      let same : limit + 0 ≡ limit = omega arith in (rw same v, e)
  Run-SystemInv {s} capacity limit e small v (Run.later {t} {u} {n} r m) =
      let (before, f) = Run-SystemInv capacity limit e (omega arith) v r in
      let (after, g) = Step-SystemInv (omega arith) before m in
      let same : limit + suc n ≡ limit + n + 1 = omega arith in (rw same after, g ∙ f)

  -- A run on a queue from the constructor, of less than 2 ^ 63 - capacity steps.
  pub reachable :
      {n : ℕ} {q : MpmcQueue A} {s : System A} (memory : ℕ → A) (capacity : ℕ)
      → init memory capacity ≡ some q
      → Run (idle q) n s
      → n + capacity < half_word
      → SystemInv n s × (s.world.queue.capacity ≡ capacity)
  reachable {n} {q} memory capacity e r short =
      let (same, p, large) = init-fresh memory capacity q e in
      let begun : SystemInv 0 (idle q) = rw same (fresh-SystemInv memory capacity p large) in
      let zero_more : 0 + n ≡ n = omega arith in
      rw (← zero_more)
        (Run-SystemInv capacity 0 (ap (λ (x : MpmcQueue A). x.capacity) same) (omega arith) begun r)
