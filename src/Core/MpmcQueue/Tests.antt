-- ===== src/Core/MpmcQueue/Tests.antt =====
-- Two threads on a queue of four slots, and the theorems there.
use klstream.Prelude.{ℕ, suc, ◌+◌, ◌*◌, ◌<◌, ◌≤◌, ◌≡◌, refl, ◌≢◌, arith, true, none, some}
use klstream.Prelude.Int.{◌-ℤ◌}
use klstream.Core.MpmcQueue.{MpmcQueue, init, slot, diff, used}
use klstream.Core.MpmcQueue.Threads.{Thread, World, System, Move, Step, Run, idle}
use klstream.Core.MpmcQueue.Threads.History.{
  is_some, slots_differ, gives_out, quiet_balance, refused, used_wraps,
}

abbrev queue : MpmcQueue ℕ
queue = record {
  capacity = 2;
  mask = 1;
  seq = λ i. i;
  slot_data = λ i. i * 10;
  enqueue_pos = 0;
  dequeue_pos = 0;
}

made : init (λ i. i * 10) 2 ≡ some queue
unfolding init
made = refl

abbrev Reached : ℕ → Type 0
Reached n = (s : System ℕ) × Run (idle queue) n s

-- Thread number `i` makes a step.
abbrev go :
    {n : ℕ} (r : Reached n) (i : ℕ) {w : World ℕ} {t : Thread ℕ}
    → Move r.0.world (r.0.threads i) w t
    → Reached (suc n)
go (s, run) i m = (_, Run.later run (Step.step i m))

-- Thread 0 has pushed 7.
one_in : Reached 6
unfolding slot diff ◌-ℤ◌
one_in =
    go
      (go
        (go
          (go (go (go (idle queue, Run.start) 0 (Move.call_push {val = 7})) 0 Move.load_push) 0
            Move.look_push)
          0 (Move.claim_push refl refl))
        0 Move.write)
      0 Move.publish

-- Then it is about to write 8, and thread 1 to read.
both_in : Reached 14
unfolding slot diff ◌-ℤ◌ one_in
both_in =
    go
      (go
        (go
          (go
            (go (go (go (go one_in 0 (Move.call_push {val = 8})) 0 Move.load_push) 0 Move.look_push)
              0 (Move.claim_push refl refl))
            1 Move.call_pop)
          1 Move.load_pop)
        1 Move.look_pop)
      1 (Move.claim_pop refl refl)

slots_differ_example :
    (slot both_in.0.world.queue 1 ≢ slot both_in.0.world.queue 0)
    × (slot both_in.0.world.queue 1 < 2)
    × (slot both_in.0.world.queue 0 < 2)
unfolding both_in
slots_differ_example =
    slots_differ (λ i. i * 10) 2 made both_in.1 (omega arith) 0 1 1 0 (omega arith) refl refl

-- Thread 1 has read it and is about to give it out.
giving : Reached 15
unfolding slot diff ◌-ℤ◌ one_in both_in
giving = go both_in 1 Move.read

gives_out_example :
    (giving.0.world.pushed 0 ≡ some 7)
    × (giving.0.world.popped 0 ≡ none)
    × (0 < giving.0.world.queue.dequeue_pos)
    × (giving.0.world.queue.dequeue_pos ≤ giving.0.world.queue.enqueue_pos)
unfolding giving
gives_out_example = gives_out (λ i. i * 10) 2 made giving.1 (omega arith) 1 0 7 refl

-- Both calls are finished.
finished : Reached 18
unfolding slot diff ◌-ℤ◌ one_in both_in giving
finished = go (go (go giving 1 Move.release) 0 Move.write) 0 Move.publish

all_outside : (i : ℕ) → finished.0.threads i ≡ Thread.outside
unfolding finished
all_outside i = ground arith

quiet_balance_example :
    (finished.0.world.popped 0 ≡ finished.0.world.pushed 0)
    × (is_some (finished.0.world.pushed 0) ≡ true)
    × (finished.0.world.queue.dequeue_pos ≤ finished.0.world.queue.enqueue_pos)
    × (finished.0.world.queue.enqueue_pos ≤ finished.0.world.queue.dequeue_pos + 2)
unfolding finished
quiet_balance_example = quiet_balance (λ i. i * 10) 2 made finished.1 (omega arith) 0 all_outside

-- The queue is full, and thread 0 is about to see it.
at_full : Reached 14
unfolding slot diff ◌-ℤ◌ one_in
at_full =
    go
      (go
        (go
          (go
            (go (go (go (go one_in 0 (Move.call_push {val = 8})) 0 Move.load_push) 0 Move.look_push)
              0 (Move.claim_push refl refl))
            0 Move.write)
          0 Move.publish)
        0 (Move.call_push {val = 9}))
      0 Move.load_push

refused_example :
    (x : ℕ) × (2 ≤ 2) × (at_full.0.world.pushed 0 ≡ some x) × (at_full.0.world.popped 0 ≡ none)
unfolding at_full diff ◌-ℤ◌ slot
refused_example =
    refused (λ i. i * 10) 2 made at_full.1 (omega arith) 0 2 9 at_full.0.world at_full.0.world refl
      (Move.full {n = 0} refl)

used_wraps_example : (2 ≤ 2) × (used at_full.0.world.queue ≡ 0)
unfolding at_full
used_wraps_example = used_wraps (λ i. i * 10) 2 made at_full.1 (omega arith)
