-- ===== src/Core/MpmcQueue/Threads/Effects.antt =====
-- A step in range, in the few shapes that matter, and that each keeps all that is relied on.
use klstream.Prelude.{ℕ, ◌+◌, ◌<◌, ◌≡◌, ◌∙◌, ◌⊎◌, refl, arith, some, half_word, inl, inr, add_word}
use klstream.Core.MpmcQueue.Threads.{Thread, World, Move}
use klstream.Core.MpmcQueue.Threads.Invariant.{
  Inv, place, Relies, Apart, pushes_at, pops_at, Differ,
}
use klstream.Core.MpmcQueue.Threads.Moves.{
  claimed_push, claimed_pop, written, made_public, released, slot-eq, next_pos, next_lap, free_slot,
  full_slot, claim_push-Inv, claim_pop-Inv, write-Inv, publish-Inv, release-Inv,
}
use klstream.Core.MpmcQueue.Threads.Others.{
  claim_push-Relies, claim_pop-Relies, write-Relies, publish-Relies, release-Relies,
}

-- What a step makes of the world and the thread, with the numbers in range.
pub data Effect {A : Type 0} (w : World A) : Thread A → World A → Thread A → Type 0 where
  local :
      {t t' : Thread A}
      → Relies w t'
      → pushes_at t' ≡ pushes_at t
      → pops_at t' ≡ pops_at t
      → Effect w t w t'
  claim_push :
      {val : A} {at seq : ℕ}
      → w.queue.enqueue_pos ≡ at
      → w.queue.seq (place w.queue at) ≡ at
      → Effect w (Thread.push_saw val at seq) (claimed_push w val at) (Thread.push_write val at)
  write :
      {val : A} {at : ℕ}
      → Effect w (Thread.push_write val at) (written w val at) (Thread.push_publish val at)
  publish :
      {val : A} {at : ℕ} → Effect w (Thread.push_publish val at) (made_public w at) Thread.outside
  claim_pop :
      {at seq : ℕ}
      → w.queue.dequeue_pos ≡ at
      → w.queue.seq (place w.queue at) ≡ at + 1
      → Effect w (Thread.pop_saw at seq) (claimed_pop w at) (Thread.pop_read at)
  release :
      {out : A} {at : ℕ} → Effect w (Thread.pop_release out at) (released w out at) Thread.outside

Inv-later : {A : Type 0} {limit : ℕ} {w : World A} → Inv limit w → Inv (limit + 1) w
Inv-later v = record {
  power = v.power;
  large = v.large;
  masked = v.masked;
  bounded = omega (arith, v.bounded);
  ordered = v.ordered;
  fits = v.fits;
  unclaimed = v.unclaimed;
  untaken = v.untaken;
  first_lap = v.first_lap;
  reach = v.reach;
  published = v.published;
  not_pushed = v.not_pushed;
  was_pushed = v.was_pushed;
  not_popped = v.not_popped;
  came_out = v.came_out;
}

module _ {A : Type 0} {limit : ℕ} {w : World A} (v : Inv limit w)
    (small : limit + w.queue.capacity < half_word) where
  pub Move-Effect :
      {w' : World A} {t t' : Thread A} → Move w t w' t' → Relies w t → Effect w t w' t'
  Move-Effect Move.call_push r = Effect.local tt refl refl
  Move-Effect Move.load_push r = Effect.local (omega arith) refl refl
  Move-Effect (Move.look_push {at}) r = Effect.local (ground (arith, slot-eq v small at)) refl refl
  Move-Effect (Move.full e) r = Effect.local tt refl refl
  Move-Effect (Move.behind_push e) r = Effect.local tt refl refl
  Move-Effect (Move.lose_push e) r = Effect.local (omega arith) refl refl
  Move-Effect (Move.claim_push {val} {at} {seq} e here) (le, saw) =
      rw (next_pos v small at le) (Effect.claim_push here (free_slot v small at seq saw e here))
  Move-Effect (Move.write {val} {at}) r = rw (slot-eq v small at) Effect.write
  Move-Effect (Move.publish {val} {at}) r =
      rw (slot-eq v small at, next_pos v small at (omega arith)) Effect.publish
  Move-Effect Move.call_pop r = Effect.local tt refl refl
  Move-Effect Move.load_pop r = Effect.local (omega arith) refl refl
  Move-Effect (Move.look_pop {at}) r = Effect.local (ground (arith, slot-eq v small at)) refl refl
  Move-Effect (Move.empty e) r = Effect.local tt refl refl
  Move-Effect (Move.behind_pop e) r = Effect.local tt refl refl
  Move-Effect (Move.lose_pop e) r = Effect.local (omega arith) refl refl
  Move-Effect (Move.claim_pop {at} {seq} e here) (le, saw) =
      let fits : add_word at 1 ≡ at + 1 = next_pos v small at (omega (arith, v.ordered)) in
      rw fits (Effect.claim_pop here (full_slot v small at seq saw (rw fits at e) here))
  Move-Effect (Move.read {at}) r =
      Effect.local (ground (arith, slot-eq v small at, v.published at)) refl refl
  Move-Effect (Move.release {out} {at}) r =
      rw (slot-eq v small at, next_lap v small at (omega (arith, v.ordered))) Effect.release

  pub Effect-Inv :
      {w' : World A} {t t' : Thread A} → Effect w t w' t' → Relies w t → Inv (limit + 1) w'
  Effect-Inv (Effect.local r e f) h = Inv-later v
  Effect-Inv (Effect.claim_push {val} {at} here free) h = claim_push-Inv v small val at here free
  Effect-Inv (Effect.write {val} {at}) (lt, e, p) = Inv-later (write-Inv v small val at e)
  Effect-Inv (Effect.publish {val} {at}) h = Inv-later (publish-Inv v small val at h)
  Effect-Inv (Effect.claim_pop {at} here ready) h = Inv-later (claim_pop-Inv v small at here ready)
  Effect-Inv (Effect.release {out} {at}) h = Inv-later (release-Inv v small out at h)

  pub Effect-Relies :
      {w' : World A} {t t' : Thread A} → Effect w t w' t' → Relies w t → Relies w' t'
  Effect-Relies (Effect.local r e f) h = r
  Effect-Relies (Effect.claim_push {val} {at} here free) h = ground arith
  Effect-Relies (Effect.write {val} {at}) h = ground arith
  Effect-Relies (Effect.publish {val} {at}) h = tt
  Effect-Relies (Effect.claim_pop {at} here ready) h = ground (arith, v.not_popped at)
  Effect-Relies (Effect.release {out} {at}) h = tt

  pub Effect-Others :
      {w' : World A} {t t' : Thread A} (other : Thread A)
      → Effect w t w' t'
      → Relies w t
      → Apart t other
      → Relies w other
      → Relies w' other
  Effect-Others other (Effect.local r e f) h a o = o
  Effect-Others other (Effect.claim_push {val} {at} here free) h a o =
      claim_push-Relies v val at other here o
  Effect-Others other (Effect.write {val} {at}) h a o = write-Relies v val at other h a o
  Effect-Others other (Effect.publish {val} {at}) h a o = publish-Relies v val at other h a o
  Effect-Others other (Effect.claim_pop {at} here ready) h a o = claim_pop-Relies v at other here o
  Effect-Others other (Effect.release {out} {at}) h a o = release-Relies v out at other h a o

  -- A position that is claimed now is beyond all that were claimed before.
  new_push :
      (other : Thread A) → Relies w other → Differ (some w.queue.enqueue_pos) (pushes_at other)
  new_push Thread.outside o = tt
  new_push other o = ground arith

  new_pop : (other : Thread A) → Relies w other → Differ (some w.queue.dequeue_pos) (pops_at other)
  new_pop Thread.outside o = tt
  new_pop other o = ground arith

  pub Effect-Apart :
      {w' : World A} {t t' : Thread A} (other : Thread A)
      → Effect w t w' t'
      → Apart t other
      → Relies w other
      → Apart t' other
  Effect-Apart other (Effect.local r e f) a o = rw (e, f) a
  Effect-Apart other (Effect.claim_push {val} {at} here free) a o =
      (rw here at (new_push other o), a.1)
  Effect-Apart other (Effect.write {val} {at}) a o = a
  Effect-Apart other (Effect.publish {val} {at}) a o = (tt, a.1)
  Effect-Apart other (Effect.claim_pop {at} here ready) a o = (a.0, rw here at (new_pop other o))
  Effect-Apart other (Effect.release {out} {at}) a o = (a.0, tt)

  -- What has come out stays so, and the position that a release leaves has come out.
  pub Effect-served :
      {w' : World A} {t t' : Thread A} (p : ℕ)
      → Effect w t w' t'
      → Relies w t
      → p < w.queue.dequeue_pos
      → w.popped p ≡ w.pushed p
      → w'.popped p ≡ w'.pushed p
  Effect-served p (Effect.local r e f) h lt s = s
  Effect-served p (Effect.claim_push {val} {at} here free) h lt s = ground (arith, v.ordered)
  Effect-served p (Effect.write {val} {at}) h lt s = s
  Effect-served p (Effect.publish {val} {at}) h lt s = s
  Effect-served p (Effect.claim_pop {at} here ready) h lt s = s
  Effect-served p (Effect.release {out} {at}) h lt s = ground arith

  pub Effect-holder :
      {w' : World A} {t t' : Thread A} (p : ℕ)
      → Effect w t w' t'
      → Relies w t
      → pops_at t ≡ some p
      → (w'.popped p ≡ w'.pushed p) ⊎ (pops_at t' ≡ some p)
  Effect-holder p (Effect.local r e f) h c = inr (f ∙ c)
  Effect-holder p (Effect.claim_push {val} {at} here free) h c = cc
  Effect-holder p (Effect.write {val} {at}) h c = cc
  Effect-holder p (Effect.publish {val} {at}) h c = cc
  Effect-holder p (Effect.claim_pop {at} here ready) h c = cc
  Effect-holder p (Effect.release {out} {at}) h c = inl (ground arith)

  pub Effect-taken :
      {w' : World A} {t t' : Thread A} (p : ℕ)
      → Effect w t w' t'
      → p < w'.queue.dequeue_pos
      → (p < w.queue.dequeue_pos) ⊎ (pops_at t' ≡ some p)
  Effect-taken p (Effect.local r e f) lt = inl lt
  Effect-taken p (Effect.claim_push {val} {at} here free) lt = inl lt
  Effect-taken p (Effect.write {val} {at}) lt = inl lt
  Effect-taken p (Effect.publish {val} {at}) lt = inl lt
  Effect-taken p (Effect.claim_pop {at} here ready) lt = ground arith
  Effect-taken p (Effect.release {out} {at}) lt = inl lt

  -- No step changes the size.
  pub Effect-capacity :
      {w' : World A} {t t' : Thread A} → Effect w t w' t' → w'.queue.capacity ≡ w.queue.capacity
  Effect-capacity (Effect.local r e f) = refl
  Effect-capacity (Effect.claim_push here free) = refl
  Effect-capacity Effect.write = refl
  Effect-capacity Effect.publish = refl
  Effect-capacity (Effect.claim_pop here ready) = refl
  Effect-capacity Effect.release = refl
