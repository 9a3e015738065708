-- ===== src/Core/GraphRuntime/Tests.antt =====
-- The theorems on the graph runtime, for two sources, an operator that both feed, and a sink.
use klstream.Prelude.{
  ℕ, ◌≡◌, ◌≢◌, refl, arith, inl, inr, Bool, true, false, some, List, [], ◌∷◌, map, ◌==◌, get_elem?,
}
use klstream.Core.GraphRuntime
use klstream.Core.GraphRuntime.{
  Edge, GraphOperator, OperatorInstance, Graph, Iteration, Runtime, Result, ok, new, init, build,
  worker_count,
}
use klstream.Core.GraphRuntime.Wiring.{wired, positions, init-wired}
use klstream.Core.GraphRuntime.Wiring.Unread.{init-unread}
use klstream.Core.GraphRuntime.Lifecycle.{
  Action, call_init, call_start, call_await_completion, call_stop, call_destroy, untouched,
  phase_after, state_of, trace, run, AllEnd, Settles,
}
use klstream.Core.GraphRuntime.Lifecycle.Runs.{run-calls}

abbrev same : ℕ → ℕ → Bool
same a b = a == b

same_sound : (a b : ℕ) → same a b ≡ true → a ≡ b
same_sound a b e = ground arith

abbrev edge : ℕ → ℕ → Edge ℕ
edge a b = record { from_operator = a; to_operator = b }

abbrev op : ℕ → Bool → GraphOperator ℕ
op name is_source = record { name = name; is_source = is_source }

-- The operators come in the order of the walk over the map.
abbrev two_sources : Graph ℕ
two_sources = record {
  edges = edge 0 2 ∷ edge 1 2 ∷ edge 2 3 ∷ [];
  operators = op 2 false ∷ op 0 true ∷ op 3 false ∷ op 1 true ∷ [];
}

init-wired_example :
    (rt : Runtime ℕ) × (init same 0 8 two_sources new ≡ ok rt)
    × (rt.queues ≡ positions 0 two_sources.edges)
    × (rt.instances ≡ map (wired same same_sound two_sources.edges) two_sources.operators)
init-wired_example = init-wired same same_sound 0 8 two_sources

abbrev ready : Runtime ℕ
ready = build same (worker_count 0 8) two_sources new

ready_made : init same 0 8 two_sources new ≡ ok ready
unfolding init
ready_made = refl

abbrev junction : OperatorInstance ℕ
junction = record { op = op 2 false; input = some 1; outputs = 2 ∷ [] }

junction_at : get_elem? ready.instances 0 ≡ some junction
unfolding build GraphRuntime.make_queues GraphRuntime.make_instance GraphRuntime.find
    GraphRuntime.set_input GraphRuntime.add_output
junction_at = refl

init-unread_example : junction.input ≢ some 0
init-unread_example =
    init-unread same same_sound 0 8 two_sources ready 0 1 (edge 0 2) (edge 1 2) ready_made refl refl
      (omega arith) refl 0 junction junction_at

-- One queue holds an event at the first look.
abbrev looks : List (List Bool)
looks = (true ∷ false ∷ true ∷ []) ∷ (true ∷ true ∷ true ∷ []) ∷ []

abbrev generating : Iteration
generating = record { is_running = true; should_stop = false; generates = true }

-- Two events and then no more; and a source that is asked to stop.
abbrev finite : ℕ → List Iteration
finite n = generating ∷ generating ∷ record generating { generates = false } ∷ []

abbrev asked : ℕ → List Iteration
asked n = generating ∷ record generating { should_stop = true } ∷ []

abbrev life : List (Action ℕ)
life =
    call_start
    ∷ call_init 0 8 two_sources
    ∷ call_start
    ∷ call_init 2 8 two_sources
    ∷ call_await_completion finite
    ∷ call_stop asked looks
    ∷ call_destroy asked looks
    ∷ []

finite_ends : AllEnd finite
finite_ends n = inr (inr (inr (inr (inr (inr (inr (inr (inl refl))))))))

asked_ends : AllEnd asked
asked_ends n = inr (inr (inr (inr (inl refl))))

seen : Settles looks
unfolding GraphRuntime.has_work
seen = inr (inl refl)

run-calls_example :
    (rt : Runtime ℕ) × (run same same_sound life new ≡ some rt)
    × (rt.state ≡ state_of (phase_after life untouched))
    × (rt.calls ≡ trace (phase_after life untouched))
run-calls_example =
    run-calls same same_sound life
      (tt, (tt, (tt, (tt, (finite_ends, ((asked_ends, seen), ((asked_ends, seen), tt)))))))
