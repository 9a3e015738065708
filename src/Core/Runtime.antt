-- ===== src/Core/Runtime.antt =====
-- `Runtime` of include/klstream/core/runtime.hpp: the workers, the registration of operators, and the
-- life of a run. An operator is the number by which it is pointed to; `ids` says which `id` each
-- registration has given to its operator, newest first. The reporter's thread is its flag alone.
pub mod Registration
pub mod Lifecycle
mod Tests
use klstream.Prelude.{
  ℕ, zero, suc, ◌+◌, Bool, true, false, List, [], ◌∷◌, ◌++◌, map, leb, length, if◌then◌else◌,
  add_word,
}
use klstream.Prelude.Int.{ℤ, pos, negsuc}
use klstream.Core.Pinning.{CoreAffinity, is_given}
use klstream.Core.Worker
use klstream.Core.Worker.{WorkerThread}

pub record Runtime : Type 0 where
  pub workers : List WorkerThread
  pub reporting : Bool
  pub next_op_id : ℕ
  pub started : Bool
  pub ids : List (ℕ × ℕ)

-- The exceptions.
pub data Error : Type 0 where
  out_of_range : Error
  logic_error : Error

pub data Result (A : Type 0) : Type 0 where
  ok : A → Result A
  err : Error → Result A

abbrev pub new : Runtime
new = record { workers = []; reporting = false; next_op_id = 0; started = false; ids = [] }

-- `workers_[i]` is replaced by what `f` makes of it.
abbrev pub modify : {A : Type 0} → List A → ℕ → (A → A) → List A
modify [] i f = []
modify (x ∷ xs) zero f = f x ∷ xs
modify (x ∷ xs) (suc i) f = x ∷ modify xs i f

unfoldable pub add_worker : CoreAffinity → Runtime → ℕ × Runtime
add_worker affinity rt = (
  length rt.workers,
  record rt { workers = rt.workers ++ Worker.set_affinity affinity Worker.new ∷ [] },
)

-- What a registration does to its worker.
unfoldable pub enlist : ℕ → CoreAffinity → WorkerThread → WorkerThread
unfolding Worker.set_affinity Worker.assign
enlist op affinity w =
    Worker.assign op (if is_given affinity then Worker.set_affinity affinity w else w)

-- The registration with the worker number `i`, where it exists.
unfoldable pub register_at : ℕ → ℕ → CoreAffinity → Runtime → Result Runtime
unfolding enlist
register_at op i affinity rt =
    if leb (length rt.workers) i
    then err out_of_range
    else ok (record rt {
      ids = (op, rt.next_op_id) ∷ rt.ids;
      next_op_id = add_word rt.next_op_id 1;
      workers = modify rt.workers i (enlist op affinity);
    })

unfoldable pub register_op : ℕ → ℤ → CoreAffinity → Runtime → Result Runtime
unfolding register_at
register_op op (negsuc n) affinity rt = err out_of_range
register_op op (pos i) affinity rt = register_at op i affinity rt

unfoldable pub start : Runtime → Result Runtime
start rt =
    if rt.started
    then err logic_error
    else ok (record rt { started = true; reporting = true; workers = map Worker.start rt.workers })

unfoldable pub stop : Runtime → Runtime
stop rt = record rt { workers = map Worker.stop rt.workers; reporting = false }

-- `~Runtime`, the destructors of the workers included.
unfoldable pub destroy : Runtime → Runtime
unfolding stop
destroy rt =
    let rt' = if rt.started then stop rt else rt in
    record rt' { workers = map Worker.destroy rt'.workers; reporting = false }
