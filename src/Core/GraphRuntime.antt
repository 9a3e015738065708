-- ===== src/Core/GraphRuntime.antt =====
-- `Runtime` of src/core/runtime.cpp, which builds the queues and operator instances of a graph and runs
-- them. The classes that it uses from headers the repository does not have (the builder, the scheduler,
-- the pool of workers, the queue) are known by the calls made on them, which `calls` records in their
-- order. A queue is its position among those made; `N` is the type of the names.
pub mod Wiring
pub mod Lifecycle
mod Tests
use klstream.Prelude.{
  ℕ, zero, suc, ◌+◌, Bool, true, false, not, ◌&&◌, Option, none, some, List, [], ◌∷◌, ◌++◌, map,
  ◌==◌, if◌then◌else◌, ◌>>=◌,
}

pub data RuntimeState : Type 0 where
  created : RuntimeState
  initialized : RuntimeState
  running : RuntimeState
  shutting_down : RuntimeState
  stopped : RuntimeState

pub record Edge (N : Type 0) : Type 0 where
  pub from_operator : N
  pub to_operator : N

-- An operator of the graph; `is_source` is what the cast to `SourceOperator*` says.
pub record GraphOperator (N : Type 0) : Type 0 where
  pub name : N
  pub is_source : Bool

-- `outputs` is what has been added to its context.
pub record OperatorInstance (N : Type 0) : Type 0 where
  pub op : GraphOperator N
  pub input : Option ℕ
  pub outputs : List ℕ

pub data Call (N : Type 0) : Type 0 where
  create_scheduler : ℕ → Call N
  init_pool : Call N
  init_operator : N → Call N
  start_pool : Call N
  start_source : N → Call N
  request_stop : N → Call N
  join_source : N → Call N
  close_queue : ℕ → Call N
  stop_pool : Call N
  shutdown_operator : N → Call N

-- A thread of a source, and whether it can still be joined.
pub record SourceThread (N : Type 0) : Type 0 where
  pub source : N
  pub joinable : Bool

pub record Runtime (N : Type 0) : Type 0 where
  pub state : RuntimeState
  pub queues : List ℕ
  pub source_operators : List N
  pub instances : List (OperatorInstance N)
  pub source_threads : List (SourceThread N)
  pub is_running : Bool
  pub calls : List (Call N)

-- The exceptions.
pub data Error : Type 0 where
  already_initialized : Error
  not_initialized : Error

pub data Result (A : Type 0) : Type 0 where
  ok : A → Result A
  err : Error → Result A

-- A graph as the builder gives it, with the operators in the order in which they are walked.
pub record Graph (N : Type 0) : Type 0 where
  pub edges : List (Edge N)
  pub operators : List (GraphOperator N)

-- The queues made so far, and the two maps from names.
pub record Queues (N : Type 0) : Type 0 where
  pub queues : List ℕ
  pub count : ℕ
  pub output_queues : List (N × List ℕ)
  pub input_queues : List (N × ℕ)

abbrev pub no_queues : {N : Type 0} → Queues N
no_queues = record { queues = []; count = 0; output_queues = []; input_queues = [] }

-- The number of threads; 0 stands for what the hardware has, which may be unknown.
unfoldable pub worker_count : ℕ → ℕ → ℕ
worker_count num_workers hardware =
    if num_workers == 0 then (if hardware == 0 then 4 else hardware) else num_workers

abbrev pub or_nil : {A : Type 0} → Option (List A) → List A
or_nil none = []
or_nil (some xs) = xs

module _ {N : Type 0} (same : N → N → Bool) where
  -- `find` on a map.
  unfoldable pub find : {A : Type 0} → N → List (N × A) → Option A
  find n [] = none
  find n ((m, a) ∷ rest) = if same m n then some a else find n rest

  -- `output_queues[n].push_back(q)`
  unfoldable pub add_output : N → ℕ → List (N × List ℕ) → List (N × List ℕ)
  add_output n q [] = (n, q ∷ []) ∷ []
  add_output n q ((m, qs) ∷ rest) =
      if same m n then (m, qs ++ q ∷ []) ∷ rest else (m, qs) ∷ add_output n q rest

  -- `input_queues[n] = q`
  unfoldable pub set_input : N → ℕ → List (N × ℕ) → List (N × ℕ)
  set_input n q [] = (n, q) ∷ []
  set_input n q ((m, p) ∷ rest) = if same m n then (m, q) ∷ rest else (m, p) ∷ set_input n q rest

  -- One queue for each edge.
  unfoldable pub make_queues : Queues N → List (Edge N) → Queues N
  make_queues w [] = w
  make_queues w (e ∷ es) =
      let q = w.count in
      make_queues
        (record {
          queues = w.queues ++ q ∷ [];
          count = q + 1;
          output_queues = add_output e.from_operator q w.output_queues;
          input_queues = set_input e.to_operator q w.input_queues;
        })
        es

  unfoldable pub make_instance : Queues N → GraphOperator N → OperatorInstance N
  unfolding find
  make_instance w op = record {
    op = op;
    input = find op.name w.input_queues;
    outputs = or_nil (find op.name w.output_queues);
  }

-- The sources among the operators.
unfoldable pub sources : {N : Type 0} → List (GraphOperator N) → List N
sources [] = []
sources (op ∷ ops) = let rest = sources ops in if op.is_source then op.name ∷ rest else rest

abbrev pub new : {N : Type 0} → Runtime N
new = record {
  state = created;
  queues = [];
  source_operators = [];
  instances = [];
  source_threads = [];
  is_running = false;
  calls = [];
}

abbrev pub name_of : {N : Type 0} → OperatorInstance N → N
name_of i = i.op.name

-- `init` after its guard.
unfoldable pub build : {N : Type 0} → (N → N → Bool) → ℕ → Graph N → Runtime N → Runtime N
unfolding make_queues make_instance sources
build same num_workers graph rt =
    let w = make_queues same no_queues graph.edges in
    let instances = map (make_instance same w) graph.operators in
    record rt {
      state = initialized;
      queues = w.queues;
      source_operators = sources graph.operators;
      instances = instances;
      calls =
          rt.calls
          ++ create_scheduler num_workers
            ∷ init_pool
            ∷ map (λ i. init_operator (name_of i)) instances;
    }

unfoldable pub init :
    {N : Type 0} → (N → N → Bool) → ℕ → ℕ → Graph N → Runtime N → Result (Runtime N)
unfolding build worker_count
init same num_workers hardware graph rt = elim rt.state [
  | created ↦ ok (build same (worker_count num_workers hardware) graph rt)
  | initialized ↦ err already_initialized
  | running ↦ err already_initialized
  | shutting_down ↦ err already_initialized
  | stopped ↦ err already_initialized
]

-- `start` after its guard, with `run_sources`.
unfoldable pub launch : {N : Type 0} → Runtime N → Runtime N
launch rt = record rt {
  state = running;
  is_running = true;
  source_threads = map (λ s. record { source = s; joinable = true }) rt.source_operators;
  calls = rt.calls ++ start_pool ∷ map start_source rt.source_operators;
}

unfoldable pub start : {N : Type 0} → Runtime N → Result (Runtime N)
unfolding launch
start rt = elim rt.state [
  | created ↦ err not_initialized
  | initialized ↦ ok (launch rt)
  | running ↦ err not_initialized
  | shutting_down ↦ err not_initialized
  | stopped ↦ err not_initialized
]

-- What the thread of a source meets in a turn of its loop: `running_`, `should_stop()`, and the answer of
-- `generate`, which is asked for only if the two let it go on.
pub record Iteration : Type 0 where
  pub is_running : Bool
  pub should_stop : Bool
  pub generates : Bool

-- The thread of a source: how many events it has counted at its end; `none` where it is still in its loop
-- after these turns.
unfoldable pub run_source : List Iteration → Option ℕ
run_source [] = none
run_source (i ∷ turns) =
    let rest = run_source turns in
    if i.is_running && not i.should_stop && i.generates then (do n ← rest; some (n + 1)) else some 0

-- The joins of the threads that can be joined; `none` where one of them does not end.
unfoldable pub joins :
    {N : Type 0} → (N → List Iteration) → List (SourceThread N) → Option (List (Call N))
unfolding run_source
joins loops [] = some []
joins loops (t ∷ ts) =
    let rest = joins loops ts in
    if t.joinable
    then (do
      events ← run_source (loops t.source)
      calls ← rest
      some (join_source t.source ∷ calls))
    else rest

abbrev pub joined : {N : Type 0} → SourceThread N → SourceThread N
joined t = record t { joinable = false }

-- The runtime after the joins.
unfoldable pub awaited : {N : Type 0} → List (Call N) → Runtime N → Runtime N
awaited calls rt = record rt {
  source_threads = map joined rt.source_threads;
  calls = rt.calls ++ calls;
}

unfoldable pub await_completion :
    {N : Type 0} → (N → List Iteration) → Runtime N → Option (Runtime N)
unfolding joins awaited
await_completion loops rt = do calls ← joins loops rt.source_threads; some (awaited calls rt)

-- One look of `drain_queues` at the queues; an entry says whether a queue is empty.
unfoldable pub has_work : List Bool → Bool
has_work [] = false
has_work (is_empty ∷ rest) = let later = has_work rest in if is_empty then later else true

-- The number of sleeps; `none` where it is still waiting after these looks.
unfoldable pub drain_queues : List (List Bool) → Option ℕ
unfolding has_work
drain_queues [] = none
drain_queues (look ∷ looks) =
    let later = drain_queues looks in if has_work look then (do n ← later; some (n + 1)) else some 0

-- `stop` after its guard, once the threads are joined and the queues are drained.
unfoldable pub halt : {N : Type 0} → List (Call N) → Runtime N → Runtime N
halt join_calls rt = record rt {
  state = stopped;
  is_running = false;
  source_threads = [];
  calls =
      rt.calls
      ++ (map request_stop rt.source_operators
          ++ (join_calls
              ++ (map close_queue rt.queues
                  ++ stop_pool ∷ map (λ i. shutdown_operator (name_of i)) rt.instances)));
}

-- `none` where a join or `drain_queues` has not ended.
unfoldable pub stop :
    {N : Type 0} → (N → List Iteration) → List (List Bool) → Runtime N → Option (Runtime N)
unfolding joins drain_queues halt
stop loops looks rt = elim rt.state [
  | created ↦ some rt
  | initialized ↦ some rt
  | running ↦ (do
    calls ← joins loops rt.source_threads
    sleeps ← drain_queues looks
    some (halt calls rt))
  | shutting_down ↦ some rt
  | stopped ↦ some rt
]

-- The destructor.
unfoldable pub destroy :
    {N : Type 0} → (N → List Iteration) → List (List Bool) → Runtime N → Option (Runtime N)
unfolding stop
destroy loops looks rt = stop loops looks rt
