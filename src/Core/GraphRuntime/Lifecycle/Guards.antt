-- ===== src/Core/GraphRuntime/Lifecycle/Guards.antt =====
-- What the methods do where their guards hold and where they do not.
use klstream.Prelude.{
  ℕ, ◌+◌, ◌≡◌, ◌≢◌, refl, ap, sym, ◌∙◌, inl, inr, arith, Bool, true, false, not, ◌&&◌, ◌>>=◌, some,
  List, [], ◌∷◌, map, append-nil, Bool-cases,
}
use klstream.Core.GraphRuntime.{
  RuntimeState, created, initialized, running, shutting_down, stopped, Runtime, start, launch, halt,
  await_completion, stop, has_work, drain_queues, joins, joined, join_source, awaited, Iteration,
  run_source, Call,
}
use klstream.Core.GraphRuntime.Lifecycle.{Settles, Ends, AllEnd, caught, threads}

drain_queues-Settles :
    (looks : List (List Bool)) → Settles looks → (n : ℕ) × (drain_queues looks ≡ some n)
unfolding drain_queues
drain_queues-Settles [] h = elim h [ ]
drain_queues-Settles (look ∷ looks) (inl e) = (0, rw e)
drain_queues-Settles (look ∷ looks) (inr h) =
    let (n, e) = drain_queues-Settles looks h in
    elim (Bool-cases (has_work look)) [ inl f ↦ (n + 1, rw (f, e)) | inr f ↦ (0, rw f) ]

run_source-Ends : (turns : List Iteration) → Ends turns → (n : ℕ) × (run_source turns ≡ some n)
unfolding run_source
run_source-Ends [] h = elim h [ ]
run_source-Ends (i ∷ turns) h =
    elim (Bool-cases (i.is_running && not i.should_stop && i.generates)) [
      | inl go ↦ let (n, e) = run_source-Ends turns (goes_on i turns go h) in (n + 1, rw (go, e))
      | inr ended ↦ (0, rw ended)
    ]
  where
    goes_on :
        (i : Iteration) (turns : List Iteration)
        → (i.is_running && not i.should_stop && i.generates) ≡ true
        → Ends (i ∷ turns)
        → Ends turns
    goes_on i turns go h = ground arith

module _ {N : Type 0} where
  -- The joins of threads that can, or cannot, be joined.
  abbrev pub joins_of : Bool → List N → List (Call N)
  joins_of true s = map join_source s
  joins_of false s = []

  pub joins-threads :
      (loops : N → List Iteration) (b : Bool) (s : List N)
      → AllEnd loops
      → joins loops (threads b s) ≡ some (joins_of b s)
  unfolding joins
  joins-threads loops true [] h = refl
  joins-threads loops true (x ∷ xs) h =
      let (n, e) = run_source-Ends (loops x) (h x) in rw (e, joins-threads loops true xs h)
  joins-threads loops false [] h = refl
  joins-threads loops false (x ∷ xs) h = joins-threads loops false xs h

  pub joined-threads : (b : Bool) (s : List N) → map joined (threads b s) ≡ threads false s
  joined-threads b [] = refl
  joined-threads b (x ∷ xs) = rw (joined-threads b xs)

  pub start-kept :
      (s : RuntimeState) (rt : Runtime N)
      → rt.state ≡ s
      → s ≢ initialized
      → caught (start rt) rt ≡ rt
  unfolding start
  start-kept created rt e h = rw e
  start-kept initialized rt e h = absurd (h refl)
  start-kept running rt e h = rw e
  start-kept shutting_down rt e h = rw e
  start-kept stopped rt e h = rw e

  pub start-launch : (rt : Runtime N) → rt.state ≡ initialized → caught (start rt) rt ≡ launch rt
  unfolding start
  start-launch rt e = rw e

  pub await-kept :
      (loops : N → List Iteration) (rt : Runtime N)
      → rt.source_threads ≡ []
      → await_completion loops rt ≡ some rt
  unfolding await_completion joins awaited
  await-kept loops rt e =
      let ts = ap (map joined) e ∙ sym e in
      let calls = append-nil rt.calls in
      let waits : await_completion loops rt ≡ some (awaited [] rt) =
        ap (λ l. joins loops l >>= λ calls. some (awaited calls rt)) e in
      waits ∙ (λ i. some (record rt { source_threads = ts i; calls = calls i }))

  pub stop-kept :
      (loops : N → List Iteration) (looks : List (List Bool)) (s : RuntimeState) (rt : Runtime N)
      → rt.state ≡ s
      → s ≢ running
      → stop loops looks rt ≡ some rt
  unfolding stop
  stop-kept loops looks created rt e h = rw e
  stop-kept loops looks initialized rt e h = rw e
  stop-kept loops looks running rt e h = absurd (h refl)
  stop-kept loops looks shutting_down rt e h = rw e
  stop-kept loops looks stopped rt e h = rw e

  pub stop-halt :
      (loops : N → List Iteration) (looks : List (List Bool)) (b : Bool) (s : List N)
      (rt : Runtime N)
      → rt.state ≡ running
      → rt.source_threads ≡ threads b s
      → AllEnd loops
      → Settles looks
      → stop loops looks rt ≡ some (halt (joins_of b s) rt)
  unfolding stop
  stop-halt loops looks b s rt e t ends h =
      let (n, d) = drain_queues-Settles looks h in rw (e, t, joins-threads loops b s ends, d)
