-- ===== src/Core/Worker.antt =====
-- `WorkerThread` of include/klstream/core/worker.hpp. An operator is the number by which it is
-- pointed to. The thread's steps are functions on the worker; `calls` is the history of what it has
-- called on its operators. `Worker.Backoff` has the pauses between idle rounds.
pub mod Backoff
mod Tests
use klstream.Prelude.{ℕ, Bool, true, false, List, [], ◌∷◌, ◌++◌, map, if◌then◌else◌}
use klstream.Core.Pinning.{CoreAffinity, any}

pub data Call : Type 0 where
  init : ℕ → Call
  tick : ℕ → Call
  shutdown : ℕ → Call

pub record WorkerThread : Type 0 where
  pub operators : List ℕ
  pub affinity : CoreAffinity
  pub running : Bool
  pub joinable : Bool
  pub calls : List Call

abbrev pub new : WorkerThread
new = record { operators = []; affinity = any; running = false; joinable = false; calls = [] }

unfoldable pub assign : ℕ → WorkerThread → WorkerThread
assign op w = record w { operators = w.operators ++ op ∷ [] }

unfoldable pub set_affinity : CoreAffinity → WorkerThread → WorkerThread
set_affinity aff w = record w { affinity = aff }

-- The flag and the thread, whose first calls are the `init`s.
unfoldable pub start : WorkerThread → WorkerThread
start w = record w { running = true; joinable = true; calls = w.calls ++ map init w.operators }

-- One round of the loop of `run`: the test of the flag, and a tick of each operator in turn.
unfoldable pub round : WorkerThread → WorkerThread
round w = if w.running then record w { calls = w.calls ++ map tick w.operators } else w

-- The flag is cleared, the thread joined, and each operator is shut down by the caller.
unfoldable pub stop : WorkerThread → WorkerThread
stop w = record w { running = false; joinable = false; calls = w.calls ++ map shutdown w.operators }

-- `~WorkerThread`
unfoldable pub destroy : WorkerThread → WorkerThread
unfolding stop
destroy w = stop w
