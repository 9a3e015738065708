-- ===== src/Programs/Network/Invariant.antt =====
-- What holds at every moment of a run: what has been seen and what is under way make up what was made.
use klstream.Prelude.{
  ℕ, ◌≡◌, refl, ap, sym, ◌∙◌, arith, Option, List, [], ◌∷◌, ◌++◌, append-nil, append_assoc, inl,
  inr,
}
use klstream.Core.Double.{Double}
use klstream.Core.Event.{Event}
use klstream.Core.SpscQueue.{SpscQueue}
use klstream.Core.SpscQueue.Client.{IsSound, items, try_pop-Popped}
use klstream.Operators.Outlet.{held}
use klstream.Operators.Pipeline.{Chain, Sound, promise, tick_at-Keeps}
use klstream.Operators.Sink
use klstream.Operators.Sink.{SinkOperator, consumed}
use klstream.Operators.Source
use klstream.Operators.Source.{SourceOperator}
use klstream.Operators.Source.Emission.{tick-Emits, tick-gen}
use klstream.Programs.Network.{
  Turn, source, operator, sink, listed, remembering, Network, turn, run, with_future, IsFresh,
}

module _ (d : Double) (G : Type 0) {A B : Type 0} (C : Type 0) (c : Chain A B) where
  -- `out` is what the consumer has seen since `start`.
  pub record Inv (gen : G → ℕ → Option (Event A) × G) (start w : Network d G C c) : Type 0 where
    pub sound_input : IsSound w.input
    pub sound_output : IsSound w.output
    pub sound_between : Sound c w.state
    pub same_gen : w.source.gen ≡ remembering gen
    pub same_consumer : w.sink.consumer ≡ start.sink.consumer
    pub out : List (Event B)
    pub seen : w.sink.seen ≡ consumed start.sink.consumer start.sink.seen out
    pub balance :
        (future : List (Event A))
        → out ++ with_future d G C c w future
          ≡ promise c start.state (w.source.captured.0 ++ future)

  -- A tick of the source puts what it has made behind all that it had made.
  source_makes :
      (gen : G → ℕ → Option (Event A) × G) (now : ℕ) (s : SourceOperator d (List (Event A) × G) A)
      (input : SpscQueue (Event A))
      → IsSound input
      → s.gen ≡ remembering gen
      → let (status, s', input') = Source.tick d now s input in
        IsSound input'
        × ((new : List (Event A)) × (s'.captured.0 ≡ s.captured.0 ++ new)
            × (items input' ++ held s'.outlet ≡ (items input ++ held s.outlet) ++ new))
  source_makes gen now s input vi g =
      let (vi', cases) = tick-Emits d now s input vi in
      let made = (gen s.captured.1 s.seq).0 in
      (
        vi',
        elim cases [
          | inl (cap, _, e) ↦ (
            [],
            ground (arith, append-nil s.captured.0),
            ground (arith, append-nil (items input ++ held s.outlet)),
          )
          | inr (cap, _, h, e) ↦ (
            listed made,
            ap (λ (p : List (Event A) × G). p.0) (cap ∙ ap (λ f. (f s.captured s.seq).1) g),
            e
                ∙ ap (λ f. items input ++ listed (f s.captured s.seq).0) g
                ∙ ap (λ xs. xs ++ listed made) (ground (arith, h, append-nil (items input))),
          )
        ],
      )

  source-Inv :
      {gen : G → ℕ → Option (Event A) × G} {start : Network d G C c} (now : ℕ) (w : Network d G C c)
      → Inv gen start w
      → Inv gen start (turn d G C c w (source now))
  unfolding turn
  source-Inv {gen} {start} now w v =
      let (vi, (new, made, e)) = source_makes gen now w.source w.input v.sound_input v.same_gen in
      let (status, s, input') = Source.tick d now w.source w.input in
      record {
        sound_input = vi;
        sound_output = v.sound_output;
        sound_between = v.sound_between;
        same_gen = tick-gen d now w.source w.input ∙ v.same_gen;
        same_consumer = v.same_consumer;
        out = v.out;
        seen = v.seen;
        balance = λ future.
            rw
              (
                ← append_assoc (items input') (held s.outlet) future,
                e,
                append_assoc (items w.input ++ held w.source.outlet) new future,
                append_assoc (items w.input) (held w.source.outlet) (new ++ future),
                made,
                append_assoc w.source.captured.0 new future,
              )
              (v.balance (new ++ future));
      }

  consumed-append :
      (f : C → Event B → C) (a : C) (xs ys : List (Event B))
      → consumed f a (xs ++ ys) ≡ consumed f (consumed f a xs) ys
  consumed-append f a [] ys = refl
  consumed-append f a (x ∷ xs) ys = consumed-append f (f a x) xs ys

  -- A tick of the sink hands the consumer what it takes from the front of the queue.
  sink_takes :
      (s : SinkOperator C B) (q : SpscQueue (Event B))
      → IsSound q
      → let (status, s', q') = Sink.tick s q in
        IsSound q'
        × (s'.consumer ≡ s.consumer)
        × ((new : List (Event B)) × (s'.seen ≡ consumed s.consumer s.seen new)
            × (items q ≡ new ++ items q'))
  unfolding Sink.tick
  sink_takes s q v =
      let (v', _, cases) = try_pop-Popped q v in
      elim cases [
        | inl (n, e, e') ↦ (ground arith, ground arith, ([], ground arith, ground arith))
        | inr (ev, n, e) ↦ (ground arith, ground arith, (ev ∷ [], ground arith, ground arith))
      ]

  operator-Inv :
      {gen : G → ℕ → Option (Event A) × G} {start : Network d G C c} (k : ℕ) (w : Network d G C c)
      → Inv gen start w
      → Inv gen start (turn d G C c w (operator k))
  unfolding turn
  operator-Inv k w v =
      let kept = λ (future : List (Event A)).
        tick_at-Keeps c k w.state w.input w.output future v.sound_between v.sound_input
          v.sound_output in
      record {
        sound_input = (kept []).1.0;
        sound_output = (kept []).1.1;
        sound_between = (kept []).0;
        same_gen = v.same_gen;
        same_consumer = v.same_consumer;
        out = v.out;
        seen = v.seen;
        balance = λ future.
            ap (λ xs. v.out ++ xs) (kept (held w.source.outlet ++ future)).1.2 ∙ v.balance future;
      }

  sink-Inv :
      {gen : G → ℕ → Option (Event A) × G} {start : Network d G C c} (w : Network d G C c)
      → Inv gen start w
      → Inv gen start (turn d G C c w sink)
  unfolding turn
  sink-Inv {start = start} w v =
      let (v', same, (new, seen, e)) = sink_takes w.sink w.output v.sound_output in
      let (status, s, output') = Sink.tick w.sink w.output in
      record {
        sound_input = v.sound_input;
        sound_output = v';
        sound_between = v.sound_between;
        same_gen = v.same_gen;
        same_consumer = same ∙ v.same_consumer;
        out = v.out ++ new;
        seen =
            seen
            ∙ (λ i. consumed (v.same_consumer i) (v.seen i) new)
            ∙ sym (consumed-append start.sink.consumer start.sink.seen v.out new);
        balance = λ future.
            let later = promise c w.state (items w.input ++ (held w.source.outlet ++ future)) in
            append_assoc v.out new (items output' ++ later)
            ∙ ap (λ xs. v.out ++ xs)
                (sym (append_assoc new (items output') later) ∙ ap (λ xs. xs ++ later) (sym e))
            ∙ v.balance future;
      }

  pub turn-Inv :
      {gen : G → ℕ → Option (Event A) × G} {start : Network d G C c} (t : Turn)
      (w : Network d G C c)
      → Inv gen start w
      → Inv gen start (turn d G C c w t)
  turn-Inv (source now) w v = source-Inv now w v
  turn-Inv (operator k) w v = operator-Inv k w v
  turn-Inv sink w v = sink-Inv w v

  pub run-Inv :
      {gen : G → ℕ → Option (Event A) × G} {start : Network d G C c} (ts : List Turn)
      (w : Network d G C c)
      → Inv gen start w
      → Inv gen start (run d G C c w ts)
  unfolding run
  run-Inv [] w v = v
  run-Inv (t ∷ ts) w v = run-Inv ts (turn d G C c w t) (turn-Inv t w v)

  pub fresh-Inv :
      (gen : G → ℕ → Option (Event A) × G) (w : Network d G C c)
      → w.source.gen ≡ remembering gen
      → IsFresh d G C c w
      → Inv gen w w
  fresh-Inv gen w g v = record {
    sound_input = v.sound_input;
    sound_output = v.sound_output;
    sound_between = v.sound_between;
    same_gen = g;
    same_consumer = refl;
    out = [];
    seen = refl;
    balance = λ future. rw (v.no_input, v.no_output, v.nothing_made, v.nothing_held);
  }
