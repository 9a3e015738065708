-- ===== src/Core/GraphRuntime/Lifecycle.antt =====
-- The life of a runtime under any calls of its methods, whose exceptions the caller catches.
pub mod Guards
pub mod Runs
use klstream.Prelude.{
  ℕ, zero, suc, ◌+◌, ◌≡◌, refl, ap, sym, ◌∙◌, ◌⊎◌, inl, inr, arith, Bool, true, false, not, Option,
  none, some, List, [], ◌∷◌, ◌>>=◌, ◌++◌, map, append_assoc, Bool-cases, if◌then◌else◌,
}
use klstream.Core.GraphRuntime
use klstream.Core.GraphRuntime.{
  RuntimeState, created, initialized, running, stopped, Runtime, SourceThread, Graph, GraphOperator,
  Edge, Call, Iteration, Result, ok, err, new, init, start, launch, halt, await_completion, stop,
  destroy, has_work, drain_queues, worker_count, joins, joined, sources, build, create_scheduler,
  init_pool, init_operator, start_pool, start_source, request_stop, join_source, close_queue,
  stop_pool, shutdown_operator,
}
use klstream.Core.GraphRuntime.Wiring.{wired, positions, init-wired}

-- A call of a method; the looks are those of `drain_queues`, and the turns those of the loop of each
-- source, as far as the call waits for them.
pub data Action (N : Type 0) : Type 0 where
  call_init : ℕ → ℕ → Graph N → Action N
  call_start : Action N
  call_await_completion : (N → List Iteration) → Action N
  call_stop : (N → List Iteration) → List (List Bool) → Action N
  call_destroy : (N → List Iteration) → List (List Bool) → Action N

-- How far a runtime has come, with the number of its workers and its graph; the test says whether the
-- threads of the sources have been awaited.
pub data Phase (N : Type 0) : Type 0 where
  untouched : Phase N
  set_up : ℕ → Graph N → Phase N
  going : ℕ → Graph N → Bool → Phase N
  over : ℕ → Graph N → Bool → Phase N

-- In one of its turns a source is told to stop, or does not generate.
abbrev pub Ends : List Iteration → Type 0
Ends [] = ⊥
Ends (i ∷ turns) =
    (i.is_running ≡ false) ⊎ (i.should_stop ≡ true) ⊎ (i.generates ≡ false) ⊎ Ends turns

abbrev pub AllEnd : {N : Type 0} → (N → List Iteration) → Type 0
AllEnd {N} loops = (n : N) → Ends (loops n)

-- One of the looks finds all queues empty.
abbrev pub Settles : List (List Bool) → Type 0
Settles [] = ⊥
Settles (look ∷ looks) = (has_work look ≡ false) ⊎ Settles looks

module _ {N : Type 0} where
  -- The phase after a call.
  abbrev pub next : Action N → Phase N → Phase N
  next (call_init num_workers hardware g) untouched = set_up (worker_count num_workers hardware) g
  next call_start (set_up n g) = going n g false
  next (call_await_completion loops) (going n g b) = going n g true
  next (call_stop loops looks) (going n g b) = over n g b
  next (call_destroy loops looks) (going n g b) = over n g b
  next a ph = ph

  abbrev pub phase_after : List (Action N) → Phase N → Phase N
  phase_after [] ph = ph
  phase_after (a ∷ acts) ph = phase_after acts (next a ph)

  abbrev pub state_of : Phase N → RuntimeState
  state_of untouched = created
  state_of (set_up n g) = initialized
  state_of (going n g b) = running
  state_of (over n g b) = stopped

  -- The calls of each part of a life.
  abbrev pub opening : ℕ → Graph N → List (Call N)
  opening n g =
      create_scheduler n
      ∷ init_pool
      ∷ map (λ (op : GraphOperator N). init_operator op.name) g.operators

  abbrev pub starting : Graph N → List (Call N)
  starting g = start_pool ∷ map start_source (sources g.operators)

  abbrev pub closing : Graph N → List (Call N)
  closing g =
      map close_queue (positions 0 g.edges)
      ++ stop_pool ∷ map (λ (op : GraphOperator N). shutdown_operator op.name) g.operators

  -- All calls of a life up to a phase.
  abbrev pub trace : Phase N → List (Call N)
  trace untouched = []
  trace (set_up n g) = opening n g
  trace (going n g false) = opening n g ++ starting g
  trace (going n g true) = opening n g ++ (starting g ++ map join_source (sources g.operators))
  trace (over n g false) =
      let s = sources g.operators in
      opening n g ++ (starting g ++ (map request_stop s ++ (map join_source s ++ closing g)))
  trace (over n g true) =
      let s = sources g.operators in
      opening n g ++ (starting g ++ (map join_source s ++ (map request_stop s ++ closing g)))

  -- Where a call waits for the sources they all end, and where it waits for the queues it finds them empty.
  abbrev pub CanEnd : Action N → Type 0
  CanEnd (call_await_completion loops) = AllEnd loops
  CanEnd (call_stop loops looks) = AllEnd loops × Settles looks
  CanEnd (call_destroy loops looks) = AllEnd loops × Settles looks
  CanEnd a = Unit {0}

  abbrev pub AllCanEnd : List (Action N) → Type 0
  AllCanEnd [] = Unit {0}
  AllCanEnd (a ∷ acts) = CanEnd a × AllCanEnd acts

  -- The caller catches an exception and keeps the runtime.
  abbrev pub caught : Result (Runtime N) → Runtime N → Runtime N
  caught (ok rt') rt = rt'
  caught (err e) rt = rt

  abbrev pub threads : Bool → List N → List (SourceThread N)
  threads b = map (λ s. record { source = s; joinable = b })

module _ {N : Type 0} (same : N → N → Bool) (same_sound : (a b : N) → same a b ≡ true → a ≡ b) where
  -- A call; `none` where it does not end.
  unfoldable pub act : Action N → Runtime N → Option (Runtime N)
  unfolding init start await_completion stop destroy
  act (call_init num_workers hardware g) rt = some (caught (init same num_workers hardware g rt) rt)
  act call_start rt = some (caught (start rt) rt)
  act (call_await_completion loops) rt = await_completion loops rt
  act (call_stop loops looks) rt = stop loops looks rt
  act (call_destroy loops looks) rt = destroy loops looks rt

  unfoldable pub run : List (Action N) → Runtime N → Option (Runtime N)
  run [] rt = some rt
  run (a ∷ acts) rt = do rt' ← act a rt; run acts rt'

  -- What the runtime has made of its graph.
  abbrev pub Made : Graph N → Runtime N → Type 0
  Made g rt =
      (rt.source_operators ≡ sources g.operators)
      × (rt.queues ≡ positions 0 g.edges)
      × (rt.instances ≡ map (wired same same_sound g.edges) g.operators)

  -- A runtime in a phase.
  abbrev pub At : Phase N → Runtime N → Type 0
  At untouched rt = rt ≡ new
  At (set_up n g) rt =
      (rt.state ≡ initialized)
      × (rt.source_threads ≡ [])
      × (rt.calls ≡ trace (set_up n g))
      × Made g rt
  At (going n g b) rt =
      (rt.state ≡ running)
      × (rt.source_threads ≡ threads (not b) (sources g.operators))
      × (rt.calls ≡ trace (going n g b))
      × Made g rt
  At (over n g b) rt =
      (rt.state ≡ stopped) × (rt.source_threads ≡ []) × (rt.calls ≡ trace (over n g b)) × Made g rt
