-- ===== src/Core/Runtime/Tests.antt =====
-- The theorems on the runtime at a runtime of two workers.
use klstream.Prelude.{◌+◌, ◌≡◌, refl, arith, true, false, some, [], ◌∷◌, get_elem?}
use klstream.Prelude.Int.{pos}
use klstream.Core.Pinning.{any, performance, efficiency}
use klstream.Core.Worker
use klstream.Core.Worker.{WorkerThread, Call, init, tick, shutdown}
use klstream.Core.Runtime.{Runtime, ok, register_op, register_at, enlist, start}
use klstream.Core.Runtime.Registration.{register_op-CountsDown, CountsDown}
use klstream.Core.Runtime.Lifecycle.{live, live-calls}

abbrev reading : WorkerThread
reading = record {
  operators = 7 ∷ [];
  affinity = any;
  running = false;
  joinable = false;
  calls = [];
}

abbrev working : WorkerThread
working = record {
  operators = 8 ∷ 9 ∷ [];
  affinity = efficiency;
  running = false;
  joinable = false;
  calls = [];
}

abbrev two_workers : Runtime
two_workers = record {
  workers = reading ∷ working ∷ [];
  reporting = false;
  next_op_id = 3;
  started = false;
  ids = (9, 2) ∷ (8, 1) ∷ (7, 0) ∷ [];
}

abbrev three_operators : WorkerThread
three_operators = record {
  operators = 8 ∷ 9 ∷ 5 ∷ [];
  affinity = performance;
  running = false;
  joinable = false;
  calls = [];
}

abbrev with_five : Runtime
with_five = record two_workers {
  workers = reading ∷ three_operators ∷ [];
  next_op_id = 4;
  ids = (5, 3) ∷ (9, 2) ∷ (8, 1) ∷ (7, 0) ∷ [];
}

registered : register_op 5 (pos 1) performance two_workers ≡ ok with_five
unfolding register_op register_at enlist Worker.assign Worker.set_affinity
registered = refl

register_op-CountsDown_example : CountsDown with_five.ids with_five.next_op_id
register_op-CountsDown_example =
    register_op-CountsDown 5 (pos 1) performance two_workers with_five (refl, (refl, (refl, refl)))
      (omega arith) registered

abbrev begun : Runtime
begun = record two_workers {
  started = true;
  reporting = true;
  workers =
      record reading { running = true; joinable = true; calls = init 7 ∷ [] }
      ∷ record working { running = true; joinable = true; calls = init 8 ∷ init 9 ∷ [] }
      ∷ [];
}

starts : start two_workers ≡ ok begun
unfolding start Worker.start
starts = refl

live-calls_example :
    (w' : WorkerThread) × (get_elem? (live (λ i. i + 1) begun).workers 1 ≡ some w')
    × (w'.calls
        ≡ init 8
          ∷ init 9
          ∷ tick 8
          ∷ tick 9
          ∷ tick 8
          ∷ tick 9
          ∷ shutdown 8
          ∷ shutdown 9
          ∷ shutdown 8
          ∷ shutdown 9
          ∷ shutdown 8
          ∷ shutdown 9
          ∷ [])
live-calls_example = live-calls (λ i. i + 1) two_workers begun 1 working starts refl refl
