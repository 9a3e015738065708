-- ===== src/Core/SpscQueue/Tests.antt =====
-- Tests of the ring buffer, and its theorems at a ring of four slots.
use klstream.Prelude.{ℕ, ◌*◌, ◌<◌, ◌≡◌, refl, ◌≢◌, arith, true, false, none, some, List, [], ◌∷◌}
use klstream.Core.Fifo
use klstream.Core.Fifo.{Call, put, get, Reply, pushed, popped}
use klstream.Core.SpscQueue.{SpscQueue, store, init, next_index, try_push, try_pop}
use klstream.Core.SpscQueue.Invariant.{IsValid, init-IsValid}
use klstream.Core.SpscQueue.Contents.{contents, run, run_refines}
use klstream.Core.SpscQueue.Threads.{
  Producer, Consumer, System, Act, silent, answer_push, answer_pop, PushStep, PopStep, Step, Run,
  idle,
}
use klstream.Core.SpscQueue.Threads.Invariant.{no_race}
use klstream.Core.SpscQueue.Threads.Simulation.{Replays, linearizable}

-- 30 and then 0 are held, round the end of the storage; both copies of the indices are stale.
abbrev ring : SpscQueue ℕ
ring = record {
  buffer = λ i. i * 10;
  capacity = 4;
  write_idx = 1;
  write_idx_cached = 2;
  read_idx = 3;
  read_idx_cached = 3;
}

ring-IsValid : IsValid ring
ring-IsValid = record {
  power = (2, refl);
  large = omega arith;
  addressable = omega arith;
  write_in = omega arith;
  read_in = omega arith;
  write_cached_in = omega arith;
  read_cached_in = omega arith;
  producer_lags = omega arith;
  consumer_lags = omega arith;
}

contents-ring : contents ring ≡ 30 ∷ 0 ∷ []
contents-ring = refl

abbrev script : List (Call ℕ)
script = put 7 ∷ put 8 ∷ get ∷ get ∷ get ∷ get ∷ []

run-ring :
    run ring script
    ≡ pushed true
      ∷ pushed false
      ∷ popped (some 30)
      ∷ popped (some 0)
      ∷ popped (some 7)
      ∷ popped none
      ∷ []
unfolding run try_push try_pop next_index
run-ring = refl

init_refuses : (init (λ (i : ℕ). i) 1 ≡ none) × (init (λ (i : ℕ). i) 6 ≡ none)
unfolding init
init_refuses = (refl, refl)

init-IsValid_example :
    let q : SpscQueue ℕ = record {
      buffer = λ i. i;
      capacity = 8;
      write_idx = 0;
      write_idx_cached = 0;
      read_idx = 0;
      read_idx_cached = 0;
    } in
    IsValid q × (q.capacity ≡ 8)
unfolding init
init-IsValid_example = init-IsValid (λ i. i) 8 (omega arith) refl

run_refines_example : run ring script ≡ Fifo.run 3 (30 ∷ 0 ∷ []) script
run_refines_example = run_refines script ring-IsValid

-- The producer looks at the ring while the consumer is in its call.
abbrev racing : System ℕ
racing = record {
  queue = record ring { read_idx_cached = 1 };
  producer = Producer.reread 7 1;
  consumer = Consumer.reading 3;
}

abbrev writing_and_reading : System ℕ
writing_and_reading = record {
  queue = record ring { read_idx_cached = 1; write_idx_cached = 3 };
  producer = Producer.writing 7 1;
  consumer = Consumer.reading 3;
}

racing-Run :
    Run (idle ring) (silent ∷ silent ∷ silent ∷ silent ∷ silent ∷ silent ∷ []) writing_and_reading
unfolding next_index
racing-Run = Run.later (Step.produce PushStep.call) (
    Run.later (Step.produce (PushStep.slow refl)) (
      Run.later (Step.consume PopStep.call) (
        Run.later (Step.consume (PopStep.slow refl)) (
          Run.later (Step.consume (PopStep.ready (omega arith)))
            (Run.later (Step.produce (PushStep.room (omega arith))) Run.start)))))

no_race_example : (◌≢◌ {A = ℕ} 1 3) × (1 < 4) × (3 < 4)
no_race_example = no_race 7 1 3 ring-IsValid racing-Run refl refl

-- Both calls are finished.
abbrev finished : SpscQueue ℕ
finished = record {
  buffer = store ring.buffer 1 7;
  capacity = 4;
  write_idx = 2;
  write_idx_cached = 3;
  read_idx = 0;
  read_idx_cached = 1;
}

abbrev answers : List (Act ℕ)
answers =
    silent
    ∷ silent
    ∷ silent
    ∷ silent
    ∷ silent
    ∷ silent
    ∷ silent
    ∷ answer_push 7 true
    ∷ silent
    ∷ answer_pop (some 30)
    ∷ []

finished-Run : Run (idle ring) answers (idle finished)
unfolding next_index
finished-Run = Run.later (Step.produce PushStep.call) (
    Run.later (Step.produce (PushStep.slow refl)) (
      Run.later (Step.consume PopStep.call) (
        Run.later (Step.consume (PopStep.slow refl)) (
          Run.later (Step.consume (PopStep.ready (omega arith))) (
            Run.later (Step.produce (PushStep.room (omega arith))) (
              Run.later (Step.produce PushStep.write) (
                Run.later (Step.produce PushStep.advance) (
                  Run.later (Step.consume PopStep.read)
                    (Run.later (Step.consume PopStep.advance) Run.start)))))))))

linearizable_example : Replays 3 answers (30 ∷ 0 ∷ []) (0 ∷ 7 ∷ [])
linearizable_example = linearizable ring-IsValid finished-Run
