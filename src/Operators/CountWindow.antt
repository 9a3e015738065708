-- ===== src/Operators/CountWindow.antt =====
-- `TumblingCountWindow` of include/klstream/operators/window.hpp.
use klstream.Prelude.{
  ℕ, ◌+◌, ◌≡◌, refl, arith, List, ◌∷◌, [], ◌++◌, append_assoc, length, length-append, leb,
  if◌then◌else◌,
}
use klstream.Core.Event.{Event}
use klstream.Core.Metrics.{count_processed}
use klstream.Core.Operator.{processed}
use klstream.Core.SpscQueue.{SpscQueue}
use klstream.Core.SpscQueue.Client.{IsSound}
use klstream.Operators.Outlet.{emit, emit-Pays}
use klstream.Operators.Stage.{Ticked, Keeps, Stage}
use klstream.Operators.Node
use klstream.Operators.Node.{Node, Handler, Pays, promise}

pub record CountWindow (T Out : Type 0) : Type 0 where
  pub window_size : ℕ
  pub aggr : List (Event T) → Out
  pub buffer : List (Event T)
  pub window_start_ts : ℕ

abbrev pub TumblingCountWindow : Type 0 → Type 0 → Type 0
TumblingCountWindow T Out = Node (CountWindow T Out) Out

-- `window_start_ts_` after an event has come in.
abbrev pub start_of : {T : Type 0} → List (Event T) → ℕ → Event T → ℕ
start_of [] ts in_ev = in_ev.timestamp_ns
start_of (e ∷ rest) ts in_ev = ts

-- The first of the events `xs`, with `last` behind them.
abbrev pub first_of : {T : Type 0} → List (Event T) → Event T → Event T
first_of [] last = last
first_of (x ∷ xs) last = x

start_of-append :
    {T : Type 0} (buffer : List (Event T)) (e x : Event T) (ts : ℕ)
    → start_of (buffer ++ e ∷ []) ts x ≡ ts
start_of-append [] e x ts = refl
start_of-append (b ∷ buffer) e x ts = refl

module _ {T Out : Type 0} where
  -- The window with the event in its buffer.
  unfoldable pub add : CountWindow T Out → Event T → CountWindow T Out
  add w in_ev = record w {
    buffer = w.buffer ++ in_ev ∷ [];
    window_start_ts = start_of w.buffer w.window_start_ts in_ev;
  }

  -- The event that goes out for the full window `w` at its last event.
  unfoldable pub fired : CountWindow T Out → Event T → Event Out
  fired w in_ev = record {
    timestamp_ns = w.window_start_ts;
    key = in_ev.key;
    seq = in_ev.seq;
    payload = w.aggr w.buffer;
  }

  unfoldable pub handle : Handler (CountWindow T Out) T Out
  handle w in_ev o output =
      let w' = add w in_ev in
      if leb w'.window_size (length w'.buffer)
      then (let (status, o', output') = emit (fired w' in_ev) o output in
          (status, record w' { buffer = [] }, o', output'))
      else (processed, w', record o { metrics = count_processed o.metrics }, output)

  unfoldable pub tick :
      TumblingCountWindow T Out
      → SpscQueue (Event T)
      → SpscQueue (Event Out)
      → Ticked (TumblingCountWindow T Out) T Out
  unfolding handle
  tick = Node.tick handle

  -- What the window owes for the events to come.
  abbrev pub owed : CountWindow T Out → List (Event T) → List (Event Out)
  owed w [] = []
  owed w (ev ∷ xs) =
      let w' = add w ev in
      if leb w'.window_size (length w'.buffer)
      then fired w' ev ∷ owed (record w' { buffer = [] }) xs
      else owed w' xs

  handle-Pays : Pays owed handle
  unfolding handle
  handle-Pays w ev o output rest v h = ground (
    arith,
    emit-Pays (fired (add w ev) ev) o output (owed (record (add w ev) { buffer = [] }) rest) v h,
  )

  -- A tick of the window operator leaves the same in all.
  pub window_tick-Keeps :
      (n : TumblingCountWindow T Out) (input : SpscQueue (Event T)) (output : SpscQueue (Event Out))
      (future : List (Event T))
      → IsSound input
      → IsSound output
      → Keeps (promise owed) n input output future (tick n input output)
  unfolding tick
  window_tick-Keeps = Node.tick-Keeps owed handle handle-Pays

  unfoldable pub stage : Stage T Out
  stage = record {
    State = TumblingCountWindow T Out;
    tick = tick;
    promise = promise owed;
    tick-Keeps = window_tick-Keeps;
  }

  -- The window after it has fired.
  abbrev pub cleared : CountWindow T Out → ℕ → CountWindow T Out
  cleared w ts = record w { buffer = []; window_start_ts = ts }

  owed_until_full :
      (init : List (Event T)) (last : Event T) (rest : List (Event T)) (w : CountWindow T Out)
      → length w.buffer + (length init + 1) ≡ w.window_size
      → let ts = start_of w.buffer w.window_start_ts (first_of init last) in
        owed w (init ++ last ∷ rest)
        ≡ record {
          timestamp_ns = ts;
          key = last.key;
          seq = last.seq;
          payload = w.aggr (w.buffer ++ (init ++ last ∷ []));
        }
          ∷ owed (cleared w ts) rest
  unfolding add fired
  owed_until_full [] last rest w h = ground (arith, length-append w.buffer (last ∷ []))
  owed_until_full (e ∷ init) last rest w h = ground (
    arith,
    length-append w.buffer (e ∷ []),
    owed_until_full init last rest (add w e),
    start_of-append w.buffer e (first_of init last) (start_of w.buffer w.window_start_ts e),
    append_assoc w.buffer (e ∷ []) (init ++ last ∷ []),
  )

  -- One event goes out for each `window_size` events that come in, and nothing in between: from an
  -- empty buffer the next `window_size` events give one event, with the aggregate of exactly these in
  -- their order, the timestamp of the first, and the key and number of the last; then the buffer is
  -- empty again.
  pub owed_window :
      (w : CountWindow T Out) (init : List (Event T)) (last : Event T) (rest : List (Event T))
      → w.buffer ≡ []
      → length init + 1 ≡ w.window_size
      → let ts = (first_of init last).timestamp_ns in
        owed w (init ++ last ∷ rest)
        ≡ record {
          timestamp_ns = ts;
          key = last.key;
          seq = last.seq;
          payload = w.aggr (init ++ last ∷ []);
        }
          ∷ owed (cleared w ts) rest
  owed_window w init last rest e h = ground (arith, owed_until_full init last rest w)
