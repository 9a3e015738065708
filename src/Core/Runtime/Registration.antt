-- ===== src/Core/Runtime/Registration.antt =====
-- Which worker gets an operator, and which number the operator gets.
use klstream.Prelude.{
  ℕ, zero, suc, ◌+◌, ◌<◌, ◌≤◌, ◌≡◌, ◌==◌, refl, arith, List, [], ◌∷◌, ◌++◌, length, get_elem?, some,
  if◌then◌else◌, word,
}
use klstream.Prelude.Int.{ℤ, pos, negsuc}
use klstream.Core.Pinning.{CoreAffinity, is_given}
use klstream.Core.Worker.{WorkerThread}
use klstream.Core.Runtime.{Runtime, ok, err, out_of_range, modify, enlist, register_op}

get_elem?-modify :
    {A : Type 0} (xs : List A) (i j : ℕ) (f : A → A) (x : A)
    → get_elem? xs i ≡ some x
    → get_elem? (modify xs i f) j ≡ (if j == i then some (f x) else get_elem? xs j)
get_elem?-modify [] i j f x e = cc
get_elem?-modify (y ∷ xs) zero zero f x e = ground arith
get_elem?-modify (y ∷ xs) zero (suc j) f x e = ground arith
get_elem?-modify (y ∷ xs) (suc i) zero f x e = ground arith
get_elem?-modify (y ∷ xs) (suc i) (suc j) f x e = ground (arith, get_elem?-modify xs i j f x e)

get_elem?-lt : {A : Type 0} (xs : List A) (i : ℕ) (x : A) → get_elem? xs i ≡ some x → i < length xs
get_elem?-lt [] i x e = cc
get_elem?-lt (y ∷ xs) zero x e = omega arith
get_elem?-lt (y ∷ xs) (suc i) x e = omega (arith, get_elem?-lt xs i x e)

-- A registration with an existing worker gives the operator the next number, puts it behind that
-- worker's operators, passes a given affinity on, and changes nothing else.
pub register_op-ok :
    (op i j : ℕ) (affinity : CoreAffinity) (rt : Runtime) (w : WorkerThread)
    → get_elem? rt.workers i ≡ some w
    → rt.next_op_id + 1 < word
    → let w' : WorkerThread = record w {
      operators = w.operators ++ op ∷ [];
      affinity = if is_given affinity then affinity else w.affinity;
    } in
      (rt' : Runtime) × (register_op op (pos i) affinity rt ≡ ok rt')
      × (get_elem? rt'.workers j ≡ (if j == i then some w' else get_elem? rt.workers j))
      × (rt'.ids ≡ (op, rt.next_op_id) ∷ rt.ids)
      × (rt'.next_op_id ≡ rt.next_op_id + 1)
      × (rt'.started ≡ rt.started)
unfolding register_op
register_op-ok op i j affinity rt w e small = (
  record rt {
    ids = (op, rt.next_op_id) ∷ rt.ids;
    next_op_id = rt.next_op_id + 1;
    workers = modify rt.workers i (enlist op affinity);
  },
  ground (arith, get_elem?-lt rt.workers i w e),
  ground (arith, get_elem?-modify rt.workers i j (enlist op affinity) w e),
  refl,
  refl,
  refl,
)

-- No worker has this number.
abbrev pub NoWorker : Runtime → ℤ → Type 0
NoWorker rt (pos i) = length rt.workers ≤ i
NoWorker rt (negsuc n) = Unit {0}

-- A registration with no existing worker, also by a negative number, is refused.
pub register_op-out_of_range :
    (op : ℕ) (worker_id : ℤ) (affinity : CoreAffinity) (rt : Runtime)
    → NoWorker rt worker_id
    → register_op op worker_id affinity rt ≡ err out_of_range
unfolding register_op
register_op-out_of_range op (pos i) affinity rt h = ground arith
register_op-out_of_range op (negsuc n) affinity rt h = refl

-- The numbers given so far, newest first, are the numbers below `next_op_id`, counting down.
abbrev pub CountsDown : List (ℕ × ℕ) → ℕ → Type 0
CountsDown [] n = n ≡ 0
CountsDown ((op, id) ∷ ids) n = (n ≡ suc id) × CountsDown ids id

-- So all numbers differ, and stay so: a registration keeps this.
pub register_op-CountsDown :
    (op : ℕ) (worker_id : ℤ) (affinity : CoreAffinity) (rt rt' : Runtime)
    → CountsDown rt.ids rt.next_op_id
    → rt.next_op_id + 1 < word
    → register_op op worker_id affinity rt ≡ ok rt'
    → CountsDown rt'.ids rt'.next_op_id
unfolding register_op
register_op-CountsDown op (negsuc n) affinity rt rt' c small e = cc
register_op-CountsDown op (pos i) affinity rt rt' c small e = ground arith
