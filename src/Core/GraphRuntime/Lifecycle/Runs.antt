-- ===== src/Core/GraphRuntime/Lifecycle/Runs.antt =====
-- Which calls a runtime makes in any life.
use mathlib.Core.Path.{subst⁻¹}
use klstream.Prelude.{
  ℕ, ◌≡◌, ◌≢◌, refl, ap, ◌∙◌, Bool, true, false, not, some, List, [], ◌∷◌, map, append_assoc,
  append-nil,
}
use klstream.Core.GraphRuntime
use klstream.Core.GraphRuntime.{
  RuntimeState, created, initialized, running, shutting_down, stopped, Runtime, SourceThread, Graph,
  GraphOperator, Edge, Call, Result, ok, err, new, init, start, launch, halt, await_completion,
  stop, destroy, has_work, drain_queues, worker_count, joins, joined, awaited, Iteration, sources,
  build, create_scheduler, init_pool, init_operator, start_pool, start_source, request_stop,
  join_source, close_queue, stop_pool, shutdown_operator,
}
use klstream.Core.GraphRuntime.Wiring.{wired, build-wired}
use klstream.Core.GraphRuntime.Lifecycle.{
  Action, call_init, call_start, call_await_completion, call_stop, call_destroy, Phase, untouched,
  set_up, going, over, next, phase_after, state_of, trace, Settles, CanEnd, AllCanEnd, AllEnd,
  caught, threads, act, run, At,
}
use klstream.Core.GraphRuntime.Lifecycle.Guards.{
  joins_of, joins-threads, joined-threads, start-kept, start-launch, await-kept, stop-kept,
  stop-halt,
}

module _ {N : Type 0} (same : N → N → Bool) (same_sound : (a b : N) → same a b ≡ true → a ≡ b) where
  -- The calls on the instances are those on the operators, in order.
  map-wired :
      (f : N → Call N) (es : List (Edge N)) (ops : List (GraphOperator N))
      → map (λ i. f (GraphRuntime.name_of i)) (map (wired same same_sound es) ops)
        ≡ map (λ (op : GraphOperator N). f op.name) ops
  map-wired f es [] = refl
  map-wired f es (op ∷ ops) = rw (map-wired f es ops)

  build-At : (n : ℕ) (g : Graph N) → At same same_sound (set_up n g) (build same n g new)
  unfolding build
  build-At n g =
      let (q, is) = build-wired same same_sound n g in
      let calls = λ (l : List (Call N)). create_scheduler n ∷ init_pool ∷ l in
      (
        refl,
        refl,
        ap (λ l. calls (map (λ i. init_operator (GraphRuntime.name_of i)) l)) is
            ∙ ap calls (map-wired init_operator g.edges g.operators),
        (refl, q, is),
      )

  init-At :
      (num_workers hardware : ℕ) (g : Graph N) (rt : Runtime N)
      → rt ≡ new
      → At same same_sound
          (set_up (worker_count num_workers hardware) g)
          (caught (init same num_workers hardware g rt) rt)
  unfolding init
  init-At num_workers hardware g rt e =
      let n = worker_count num_workers hardware in
      subst⁻¹
        (λ (r : Runtime N).
          At same same_sound (set_up n g) (caught (init same num_workers hardware g r) r))
        e (build-At n g)

  launch-At :
      (n : ℕ) (g : Graph N) (rt : Runtime N)
      → At same same_sound (set_up n g) rt
      → At same same_sound (going n g false) (launch rt)
  unfolding launch
  launch-At n g rt (s, t, c, m) = (refl, ap (threads true) m.0, rw (c, m.0), m)

  await-At :
      (loops : N → List Iteration) (n : ℕ) (g : Graph N) (b : Bool) (rt : Runtime N)
      → At same same_sound (going n g b) rt
      → AllEnd loops
      → (rt' : Runtime N) × (await_completion loops rt ≡ some rt')
        × At same same_sound (going n g true) rt'
  unfolding await_completion awaited
  await-At loops n g true rt (s, t, c, m) ends = (
    awaited [] rt,
    rw (t, joins-threads loops false (sources g.operators) ends),
    (s, rw t (joined-threads false (sources g.operators)), rw (c, append-nil), m),
  )
  await-At loops n g false rt (s, t, c, m) ends = (
    awaited (map join_source (sources g.operators)) rt,
    rw (t, joins-threads loops true (sources g.operators) ends),
    (s, rw t (joined-threads true (sources g.operators)), rw (c, append_assoc), m),
  )

  halt-At :
      (n : ℕ) (g : Graph N) (b : Bool) (rt : Runtime N)
      → At same same_sound (going n g b) rt
      → At same same_sound (over n g b) (halt (joins_of (not b) (sources g.operators)) rt)
  unfolding halt
  halt-At n g true rt (s, t, c, (so, q, is)) = (
    refl,
    refl,
    rw (c, so, q, is, map-wired shutdown_operator g.edges g.operators, append_assoc, append_assoc),
    (so, q, is),
  )
  halt-At n g false rt (s, t, c, (so, q, is)) = (
    refl,
    refl,
    rw (c, so, q, is, map-wired shutdown_operator g.edges g.operators, append_assoc),
    (so, q, is),
  )

  init-kept :
      (num_workers hardware : ℕ) (g : Graph N) (s : RuntimeState) (rt : Runtime N)
      → rt.state ≡ s
      → s ≢ created
      → caught (init same num_workers hardware g rt) rt ≡ rt
  unfolding init
  init-kept num_workers hardware g created rt e h = absurd (h refl)
  init-kept num_workers hardware g initialized rt e h = rw e
  init-kept num_workers hardware g running rt e h = rw e
  init-kept num_workers hardware g shutting_down rt e h = rw e
  init-kept num_workers hardware g stopped rt e h = rw e

  state-At : (ph : Phase N) (rt : Runtime N) → At same same_sound ph rt → rt.state ≡ state_of ph
  state-At untouched rt at = ap (λ (r : Runtime N). r.state) at
  state-At (set_up n g) rt at = at.0
  state-At (going n g b) rt at = at.0
  state-At (over n g b) rt at = at.0

  stop-At :
      (loops : N → List Iteration) (looks : List (List Bool)) (ph : Phase N) (rt : Runtime N)
      → At same same_sound ph rt
      → AllEnd loops
      → Settles looks
      → (rt' : Runtime N) × (stop loops looks rt ≡ some rt')
        × At same same_sound (next (call_stop loops looks) ph) rt'
  stop-At loops looks untouched rt at ends h =
      (rt, stop-kept loops looks created rt (state-At untouched rt at) (λ e. cc), at)
  stop-At loops looks (set_up n g) rt at ends h =
      (rt, stop-kept loops looks initialized rt at.0 (λ e. cc), at)
  stop-At loops looks (going n g b) rt at ends h = (
    halt (joins_of (not b) (sources g.operators)) rt,
    stop-halt loops looks (not b) (sources g.operators) rt at.0 at.1 ends h,
    halt-At n g b rt at,
  )
  stop-At loops looks (over n g b) rt at ends h =
      (rt, stop-kept loops looks stopped rt at.0 (λ e. cc), at)

  -- One call.
  act-At :
      (a : Action N) (ph : Phase N) (rt : Runtime N)
      → At same same_sound ph rt
      → CanEnd a
      → (rt' : Runtime N) × (act same same_sound a rt ≡ some rt')
        × At same same_sound (next a ph) rt'
  unfolding act destroy
  act-At (call_init m hw g) untouched rt at h =
      (caught (init same m hw g rt) rt, refl, init-At m hw g rt at)
  act-At (call_init m hw g) (set_up n g') rt at h =
      (rt, ap some (init-kept m hw g initialized rt at.0 (λ e. cc)), at)
  act-At (call_init m hw g) (going n g' b) rt at h =
      (rt, ap some (init-kept m hw g running rt at.0 (λ e. cc)), at)
  act-At (call_init m hw g) (over n g' b) rt at h =
      (rt, ap some (init-kept m hw g stopped rt at.0 (λ e. cc)), at)
  act-At call_start untouched rt at h =
      (rt, ap some (start-kept created rt (state-At untouched rt at) (λ e. cc)), at)
  act-At call_start (set_up n g) rt at h =
      (launch rt, ap some (start-launch rt at.0), launch-At n g rt at)
  act-At call_start (going n g b) rt at h = (rt, ap some (start-kept running rt at.0 (λ e. cc)), at)
  act-At call_start (over n g b) rt at h = (rt, ap some (start-kept stopped rt at.0 (λ e. cc)), at)
  act-At (call_await_completion loops) untouched rt at h =
      (rt, await-kept loops rt (ap (λ (r : Runtime N). r.source_threads) at), at)
  act-At (call_await_completion loops) (set_up n g) rt at h = (rt, await-kept loops rt at.1, at)
  act-At (call_await_completion loops) (going n g b) rt at h = await-At loops n g b rt at h
  act-At (call_await_completion loops) (over n g b) rt at h = (rt, await-kept loops rt at.1, at)
  act-At (call_stop loops looks) ph rt at (ends, h) = stop-At loops looks ph rt at ends h
  act-At (call_destroy loops looks) untouched rt at (ends, h) =
      stop-At loops looks untouched rt at ends h
  act-At (call_destroy loops looks) (set_up n g) rt at (ends, h) =
      stop-At loops looks (set_up n g) rt at ends h
  act-At (call_destroy loops looks) (going n g b) rt at (ends, h) =
      stop-At loops looks (going n g b) rt at ends h
  act-At (call_destroy loops looks) (over n g b) rt at (ends, h) =
      stop-At loops looks (over n g b) rt at ends h

  run-At :
      (acts : List (Action N)) (ph : Phase N) (rt : Runtime N)
      → At same same_sound ph rt
      → AllCanEnd acts
      → (rt' : Runtime N) × (run same same_sound acts rt ≡ some rt')
        × At same same_sound (phase_after acts ph) rt'
  unfolding run
  run-At [] ph rt at h = (rt, refl, at)
  run-At (a ∷ acts) ph rt at (h, hs) =
      let (rt1, e, at1) = act-At a ph rt at h in
      let (rt2, e', at2) = run-At acts (next a ph) rt1 at1 hs in (rt2, rw (e, e'), at2)

  calls-At :
      (ph : Phase N) (rt : Runtime N)
      → At same same_sound ph rt
      → (rt.state ≡ state_of ph) × (rt.calls ≡ trace ph)
  calls-At untouched rt at = (state-At untouched rt at, ap (λ (r : Runtime N). r.calls) at)
  calls-At (set_up n g) rt at = (at.0, at.2)
  calls-At (going n g b) rt at = (at.0, at.2)
  calls-At (over n g b) rt at = (at.0, at.2)

  -- Any calls of the methods of a new runtime, in any order, all end if, when a call waits for them, each
  -- source is told to stop or does not generate in one of its turns, and the queues are found empty. The runtime is then in the state, and has made exactly the calls, of the phase
  -- that they lead to: the scheduler, the pool and each operator are set up once, each source is started
  -- once, asked to stop once and joined once, each queue is closed once, and each operator is shut down
  -- once, in this order; only the joins come earlier where they are awaited.
  pub run-calls :
      (acts : List (Action N))
      → AllCanEnd acts
      → (rt : Runtime N) × (run same same_sound acts new ≡ some rt)
        × (rt.state ≡ state_of (phase_after acts untouched))
        × (rt.calls ≡ trace (phase_after acts untouched))
  run-calls acts h =
      let (rt, e, at) = run-At acts untouched new refl h in
      let (s, c) = calls-At (phase_after acts untouched) rt at in (rt, e, s, c)
