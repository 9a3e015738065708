-- ===== src/Core/Runtime/Lifecycle.antt =====
-- Which calls the operators of a worker see, from the start of a run to the end of the program.
use native.Mathlib.Nat.{zero-add}
use klstream.Prelude.{
  ℕ, zero, suc, ◌+◌, ◌≡◌, refl, ap, ◌∙◌, arith, true, false, List, [], ◌∷◌, ◌++◌, map, append_assoc,
  append-nil, get_elem?, some,
}
use klstream.Core.Worker
use klstream.Core.Worker.{WorkerThread, Call, init, tick, shutdown}
use klstream.Core.Runtime.{Runtime, ok, err, logic_error, start, stop, destroy}

-- A runtime starts once: a second start is refused.
pub start_twice :
    (rt rt' : Runtime)
    → start rt ≡ ok rt'
    → (start rt' ≡ err logic_error) × (rt.started ≡ false) × (rt'.started ≡ true)
unfolding start
start_twice rt rt' e = ground arith

-- The worker's thread makes `n` rounds.
abbrev pub rounds : ℕ → WorkerThread → WorkerThread
rounds zero w = w
rounds (suc n) w = rounds n (Worker.round w)

-- `n` rounds of ticks.
abbrev pub ticks : ℕ → List ℕ → List Call
ticks zero ops = []
ticks (suc n) ops = map tick ops ++ ticks n ops

rounds-calls :
    (n : ℕ) (w : WorkerThread)
    → w.running ≡ true
    → ((rounds n w).calls ≡ w.calls ++ ticks n w.operators) × ((rounds n w).operators ≡ w.operators)
unfolding Worker.round
rounds-calls zero w h = (simp append-nil, refl)
rounds-calls (suc n) w h = ground (
  arith,
  rounds-calls n (Worker.round w),
  append_assoc w.calls (map tick w.operators) (ticks n w.operators),
)

-- The worker number `i` makes `n i` rounds; `from` is the number of the first worker in the list.
abbrev pub work : (ℕ → ℕ) → ℕ → List WorkerThread → List WorkerThread
work n from [] = []
work n from (w ∷ ws) = rounds (n from) w ∷ work n (from + 1) ws

-- A run from `start` to the end of the program, as in the usage pattern of the header: the workers
-- run, then `stop` is called, then the runtime is destroyed.
abbrev pub live : (ℕ → ℕ) → Runtime → Runtime
live n rt = destroy (stop (record rt { workers = work n 0 rt.workers }))

get_elem?-map :
    {A B : Type 0} (f : A → B) (xs : List A) (i : ℕ) (x : A)
    → get_elem? xs i ≡ some x
    → get_elem? (map f xs) i ≡ some (f x)
get_elem?-map f [] i x e = cc
get_elem?-map f (y ∷ xs) zero x e = ground arith
get_elem?-map f (y ∷ xs) (suc i) x e = get_elem?-map f xs i x e

get_elem?-work :
    (n : ℕ → ℕ) (from : ℕ) (ws : List WorkerThread) (i : ℕ) (w : WorkerThread)
    → get_elem? ws i ≡ some w
    → get_elem? (work n from ws) i ≡ some (rounds (n (from + i)) w)
get_elem?-work n from [] i w e = cc
get_elem?-work n from (v ∷ ws) zero w e =
    let same : from + 0 ≡ from = omega arith in rw same (ground arith)
get_elem?-work n from (v ∷ ws) (suc i) w e =
    let same : from + suc i ≡ from + 1 + i = omega arith in
    rw same (get_elem?-work n (from + 1) ws i w e)

worker_life :
    (n : ℕ) (w : WorkerThread)
    → w.calls ≡ []
    → (Worker.destroy (Worker.stop (Worker.stop (rounds n (Worker.start w))))).calls
      ≡ map init w.operators
        ++ (ticks n w.operators
            ++ (map shutdown w.operators ++ (map shutdown w.operators ++ map shutdown w.operators)))
unfolding Worker.destroy Worker.stop Worker.start
worker_life n w e =
    let (c, o) = rounds-calls n (Worker.start w) refl in rw (c, o, e) (simp append_assoc)

started_workers :
    (rt rt' : Runtime)
    → start rt ≡ ok rt'
    → (rt'.started ≡ true) × (rt'.workers ≡ map Worker.start rt.workers)
unfolding start
started_workers rt rt' e = ground arith

-- In a run that starts, each worker calls `init` once on each of its operators, then ticks them in
-- rounds, in their order; after that each operator is shut down three times: by `stop`, by the
-- destructor of the runtime and by the destructor of the worker.
pub live-calls :
    (n : ℕ → ℕ) (rt rt' : Runtime) (i : ℕ) (w : WorkerThread)
    → start rt ≡ ok rt'
    → get_elem? rt.workers i ≡ some w
    → w.calls ≡ []
    → (w' : WorkerThread) × (get_elem? (live n rt').workers i ≡ some w')
      × (w'.calls
          ≡ map init w.operators
            ++ (ticks (n i) w.operators
                ++ (map shutdown w.operators
                    ++ (map shutdown w.operators ++ map shutdown w.operators))))
unfolding start stop destroy
live-calls n rt rt' i w s e c =
    let (on, ws) = started_workers rt rt' s in
    let begun = get_elem?-map Worker.start rt.workers i w e in
    let worked : get_elem? (work n 0 rt'.workers) i ≡ some (rounds (n i) (Worker.start w)) = rw ws (
      get_elem?-work n 0 (map Worker.start rt.workers) i (Worker.start w) begun
      ∙ ap (λ k. some (rounds (n k) (Worker.start w))) (zero-add i)) in
    let once = get_elem?-map Worker.stop (work n 0 rt'.workers) i _ worked in
    let twice = get_elem?-map Worker.stop _ i _ once in
    let thrice = get_elem?-map Worker.destroy _ i _ twice in
    (
      Worker.destroy (Worker.stop (Worker.stop (rounds (n i) (Worker.start w)))),
      ground (arith, thrice),
      worker_life (n i) w c,
    )
