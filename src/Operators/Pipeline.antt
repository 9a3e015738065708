-- ===== src/Operators/Pipeline.antt =====
-- Operators in a row, each reading the queue that the one before it writes, ticked in any order: the
-- schedules that the worker threads of include/klstream/core/worker.hpp produce, at the granularity
-- of a tick. From outside, events are pushed into the first queue and popped from the last one.
use klstream.Prelude.{
  ℕ, zero, suc, ◌≡◌, ap, ◌∙◌, Option, none, some, List, [], ◌∷◌, ◌++◌, append-nil, append_assoc,
  if◌then◌else◌, inl, inr,
}
use klstream.Core.Event.{Event}
use klstream.Core.SpscQueue.{SpscQueue, try_push, try_pop}
use klstream.Core.SpscQueue.Client.{IsSound, items, try_push-Pushed, try_pop-Popped}
use klstream.Operators.Stage.{Ticked, Keeps, Stage}

pub data Chain : Type 0 → Type 0 → Type 1 where
  last : {A B : Type 0} → Stage A B → Chain A B
  link : {A B C : Type 0} → Stage A B → Chain B C → Chain A C

-- The operators' states and the queues between them.
abbrev pub State : {A B : Type 0} → Chain A B → Type 0
State (last s) = s.State
State (link {B} s c) = s.State × SpscQueue (Event B) × State c

-- The queues in between are sound.
abbrev pub Sound : {A B : Type 0} (c : Chain A B) → State c → Type 0
Sound (last s) st = Unit {0}
Sound (link s c) (st, q, cs) = IsSound q × Sound c cs

-- What comes out at the end for the events `xs` to come.
abbrev pub promise : {A B : Type 0} (c : Chain A B) → State c → List (Event A) → List (Event B)
promise (last s) st xs = s.promise st xs
promise (link s c) (st, q, cs) xs = promise c cs (items q ++ s.promise st xs)

-- The tick of the operator number `k`; a number past the end ticks the last one.
unfoldable pub tick_at :
    {A B : Type 0} (c : Chain A B)
    → ℕ
    → State c
    → SpscQueue (Event A)
    → SpscQueue (Event B)
    → Ticked (State c) A B
tick_at (last s) k st input output = s.tick st input output
tick_at (link s c) zero (st, q, cs) input output =
    let (status, st', input', q') = s.tick st input q in (status, (st', q', cs), input', output)
tick_at (link s c) (suc k) (st, q, cs) input output =
    let (status, cs', q', output') = tick_at c k cs q output in
    (status, (st, q', cs'), input, output')

pub tick_at-Keeps :
    {A B : Type 0} (c : Chain A B) (k : ℕ) (st : State c) (input : SpscQueue (Event A))
    (output : SpscQueue (Event B)) (future : List (Event A))
    → Sound c st
    → IsSound input
    → IsSound output
    → Sound c (tick_at c k st input output).1
      × Keeps (promise c) st input output future (tick_at c k st input output)
unfolding tick_at
tick_at-Keeps (last s) k st input output future m vi vo =
    (tt, s.tick-Keeps st input output future vi vo)
tick_at-Keeps (link s c) zero (st, q, cs) input output future (mq, mc) vi vo =
    let (vi', vq', e) = s.tick-Keeps st input q future vi mq in
    ((vq', mc), (vi', vo, ap (λ xs. items output ++ promise c cs xs) e))
tick_at-Keeps (link s c) (suc k) (st, q, cs) input output future (mq, mc) vi vo =
    let (mc', (vq', vo', e)) =
      tick_at-Keeps c k cs q output (s.promise st (items input ++ future)) mc mq vo in
    ((vq', mc'), (vi, vo', e))

module _ {A B : Type 0} (c : Chain A B) where
  -- A pipeline at work, with the events that it has accepted and given out so far.
  pub record World : Type 0 where
    pub input : SpscQueue (Event A)
    pub state : State c
    pub output : SpscQueue (Event B)
    pub fed : List (Event A)
    pub drained : List (Event B)

pub data Turn (A : Type 0) : Type 0 where
  tick : ℕ → Turn A  -- operator number k is scheduled
  feed : Event A → Turn A  -- a push into the first queue, which may be full
  drain : Turn A  -- a pop from the last queue, which may be empty

-- What has been given out, with what a pop returned.
abbrev pub with_popped : {B : Type 0} → List (Event B) → Option (Event B) → List (Event B)
with_popped drained none = drained
with_popped drained (some ev) = drained ++ ev ∷ []

module _ {A B : Type 0} (c : Chain A B) where
  unfoldable pub turn : World c → Turn A → World c
  turn w (tick k) =
      let (status, st, input', output') = tick_at c k w.state w.input w.output in
      record w { input = input'; state = st; output = output' }
  turn w (feed ev) =
      let (done, input') = try_push ev w.input in
      record w { input = input'; fed = if done then w.fed ++ ev ∷ [] else w.fed }
  turn w drain =
      let (out, output') = try_pop w.output in
      record w { output = output'; drained = with_popped w.drained out }

  unfoldable pub run : World c → List (Turn A) → World c
  run w [] = w
  run w (t ∷ ts) = run (turn w t) ts

  record Inv (start : State c) (w : World c) : Type 0 where
    sound_input : IsSound w.input
    sound_output : IsSound w.output
    sound_between : Sound c w.state
    balance :
        (future : List (Event A))
        → w.drained ++ (items w.output ++ promise c w.state (items w.input ++ future))
          ≡ promise c start (w.fed ++ future)

  turn-Inv : {start : State c} (w : World c) (t : Turn A) → Inv start w → Inv start (turn w t)
  unfolding turn
  turn-Inv {start} w (tick k) v =
      let kept = λ (future : List (Event A)).
        tick_at-Keeps c k w.state w.input w.output future v.sound_between v.sound_input
          v.sound_output in
      record {
        sound_input = (kept []).1.0;
        sound_output = (kept []).1.1;
        sound_between = (kept []).0;
        balance = λ future. ap (λ xs. w.drained ++ xs) (kept future).1.2 ∙ v.balance future;
      }
  turn-Inv {start} w (feed ev) v =
      let (v', _, cases) = try_push-Pushed ev w.input v.sound_input in
      record {
        sound_input = v';
        sound_output = v.sound_output;
        sound_between = v.sound_between;
        balance = λ future. elim cases [
          | inl (d, e) ↦
              rw
                (
                  d,
                  e,
                  append_assoc (items w.input) (ev ∷ []) future,
                  append_assoc w.fed (ev ∷ []) future,
                )
                (v.balance (ev ∷ future))
          | inr (d, e, _) ↦ rw (d, e) (v.balance future)
        ];
      }
  turn-Inv {start} w drain v =
      let (v', _, cases) = try_pop-Popped w.output v.sound_output in
      record {
        sound_input = v.sound_input;
        sound_output = v';
        sound_between = v.sound_between;
        balance = λ future. elim cases [
          | inl (d, e, e') ↦ rw (d, e') (rw e at (v.balance future))
          | inr (ev, d, e) ↦
              rw
                (
                  d,
                  append_assoc w.drained (ev ∷ [])
                      (items (try_pop w.output).1 ++ promise c w.state (items w.input ++ future)),
                )
                (rw e at (v.balance future))
        ];
      }

  run-Inv :
      {start : State c} (ts : List (Turn A)) (w : World c) → Inv start w → Inv start (run w ts)
  unfolding run
  run-Inv [] w v = v
  run-Inv (t ∷ ts) w v = run-Inv ts (turn w t) (turn-Inv w t v)

  -- A pipeline that starts with empty queues between `feed` and `drain`.
  abbrev pub begin : SpscQueue (Event A) → State c → SpscQueue (Event B) → World c
  begin input st output = record {
    input = input;
    state = st;
    output = output;
    fed = [];
    drained = [];
  }

  begin-Inv :
      {input : SpscQueue (Event A)} {output : SpscQueue (Event B)} (st : State c)
      → IsSound input
      → IsSound output
      → Sound c st
      → items input ≡ []
      → items output ≡ []
      → Inv st (begin input st output)
  begin-Inv st vi vo m ei eo = record {
    sound_input = vi;
    sound_output = vo;
    sound_between = m;
    balance = λ future. rw (ei, eo);
  }

  -- Whatever the schedule, the pipeline gives out a prefix of what its operators make of the events
  -- that it accepted: the rest is in the queues and in the operators. So no event is lost, none is
  -- processed twice, and the order is kept, however often a queue is full.
  pub run_balance :
      (input : SpscQueue (Event A)) (output : SpscQueue (Event B)) (st : State c)
      (ts : List (Turn A))
      → IsSound input
      → IsSound output
      → Sound c st
      → items input ≡ []
      → items output ≡ []
      → let w = run (begin input st output) ts in
        w.drained ++ (items w.output ++ promise c w.state (items w.input)) ≡ promise c st w.fed
  run_balance input output st ts vi vo m ei eo =
      simp append-nil at
        ((run-Inv ts (begin input st output) (begin-Inv st vi vo m ei eo)).balance [])
