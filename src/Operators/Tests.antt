-- ===== src/Operators/Tests.antt =====
-- The operators between two small queues, and their theorems there.
use klstream.Prelude.{
  ℕ, ◌+◌, ◌*◌, ◌%◌, ◌≡◌, refl, arith, Bool, true, false, none, List, [], ◌∷◌, ◌++◌, ◌==◌,
}
use klstream.Core.Event.{Event}
use klstream.Core.SpscQueue.{SpscQueue}
use klstream.Core.SpscQueue.Invariant.{IsValid}
use klstream.Core.SpscQueue.Client.{IsSound-of_valid, items, items-eq-contents}
use klstream.Operators.Outlet.{Outlet, held}
use klstream.Operators.Node.{Node}
use klstream.Operators.Map
use klstream.Operators.Map.{map_tick-Keeps}
use klstream.Operators.Filter
use klstream.Operators.Filter.{filter_tick-Keeps}
use klstream.Operators.Aggregate
use klstream.Operators.Aggregate.{Aggregate, aggregate_tick-Keeps}
use klstream.Operators.CountWindow.{CountWindow}
use klstream.Operators.TimeWindow
use klstream.Operators.TimeWindow.Due.{PutsOut, tick-due}
use klstream.Operators.TimeWindow.{TimeWindow, Collects, time_tick-Collects}
use klstream.Operators.Progress.{Means, map_tick-Means}
use klstream.Operators.Sink.{SinkOperator}
use klstream.Operators.Pipeline
use klstream.Operators.Pipeline.{Chain, World, Turn, run_balance}

abbrev number : ℕ → Event ℕ
number n = record { timestamp_ns = n * 1000; key = 0; seq = n; payload = n }

-- A queue of four slots that holds the events 1, 2 and 3: it is full.
abbrev full_queue : SpscQueue (Event ℕ)
full_queue = record {
  buffer = number;
  capacity = 4;
  write_idx = 0;
  write_idx_cached = 1;
  read_idx = 1;
  read_idx_cached = 0;
}

full-IsValid : IsValid full_queue
full-IsValid = record {
  power = (2, refl);
  large = omega arith;
  addressable = omega arith;
  write_in = omega arith;
  read_in = omega arith;
  write_cached_in = omega arith;
  read_cached_in = omega arith;
  producer_lags = omega arith;
  consumer_lags = omega arith;
}

abbrev empty_queue : SpscQueue (Event ℕ)
empty_queue = record full_queue { read_idx = 0; write_idx_cached = 0 }

empty-IsValid : IsValid empty_queue
empty-IsValid = record {
  power = (2, refl);
  large = omega arith;
  addressable = omega arith;
  write_in = omega arith;
  read_in = omega arith;
  write_cached_in = omega arith;
  read_cached_in = omega arith;
  producer_lags = omega arith;
  consumer_lags = omega arith;
}

abbrev free : Outlet ℕ
free = record { pending = number 0; has_pending = false; metrics = none }

abbrev square : ℕ → ℕ
square n = n * n

abbrev squarer : Node (ℕ → ℕ) ℕ
squarer = record { own = square; outlet = free }

abbrev even_filter : Node (ℕ → Bool) ℕ
even_filter = record { own = λ n. n % 2 == 0; outlet = free }

abbrev summer : Node (Aggregate ℕ ℕ ℕ) ℕ
summer = record {
  own = record { state = 10; accum = λ st x. st + x; extract = λ st. st };
  outlet = record free { has_pending = true };
}

abbrev sum_payloads : List (Event ℕ) → ℕ
sum_payloads [] = 0
sum_payloads (e ∷ es) = e.payload + sum_payloads es

abbrev threes : CountWindow ℕ ℕ
threes = record { window_size = 3; aggr = sum_payloads; buffer = []; window_start_ts = 0 }

abbrev window_op : Node (CountWindow ℕ ℕ) ℕ
window_op = record { own = threes; outlet = free }

map_tick-Means_example :
    Means squarer full_queue full_queue (Map.tick squarer full_queue full_queue)
map_tick-Means_example =
    map_tick-Means squarer full_queue full_queue (IsSound-of_valid full-IsValid)
      (IsSound-of_valid full-IsValid)

abbrev collector : SinkOperator (List ℕ) ℕ
collector = record { seen = []; consumer = λ seen e. e.payload ∷ seen; metrics = none }

-- Square, keep the even numbers, add them up.
abbrev pipeline : Chain ℕ ℕ
unfolding Map.stage Filter.stage Aggregate.stage
pipeline =
    Chain.link {B = ℕ} Map.stage (Chain.link {B = ℕ} Filter.stage (Chain.last (Aggregate.stage ℕ)))

abbrev at_rest : Pipeline.State pipeline
unfolding Map.stage Filter.stage Aggregate.stage
at_rest = (squarer, empty_queue, (even_filter, empty_queue, record summer { outlet = free }))

abbrev schedule : List (Turn ℕ)
schedule =
    Turn.feed (number 3)
    ∷ Turn.tick 1
    ∷ Turn.feed (number 4)
    ∷ Turn.tick 0
    ∷ Turn.tick 0
    ∷ Turn.tick 1
    ∷ Turn.tick 1
    ∷ Turn.tick 2
    ∷ Turn.drain
    ∷ []

run_balance_example :
    let w =
      Pipeline.run pipeline (Pipeline.begin pipeline empty_queue at_rest empty_queue) schedule in
    w.drained ++ (items w.output ++ Pipeline.promise pipeline w.state (items w.input))
    ≡ Pipeline.promise pipeline at_rest w.fed
unfolding Map.stage Filter.stage Aggregate.stage
run_balance_example =
    run_balance pipeline empty_queue empty_queue at_rest schedule (IsSound-of_valid empty-IsValid)
      (IsSound-of_valid empty-IsValid)
      (IsSound-of_valid empty-IsValid, (IsSound-of_valid empty-IsValid, tt))
      (items-eq-contents empty_queue) (items-eq-contents empty_queue)

abbrev no_list : Event (List ℕ)
no_list = record { timestamp_ns = 0; key = 0; seq = 0; payload = [] }

-- A time window of 500 ns, opened at 1000, in which 7 has arrived.
abbrev timed : Node (TimeWindow ℕ (List ℕ)) (List ℕ)
timed = record {
  own = record {
    window_ns = 500;
    aggr = λ (l : List ℕ). l;
    buffer = 7 ∷ [];
    window_open_ns = 1000;
    window_count = 4;
  };
  outlet = record { pending = no_list; has_pending = false; metrics = none };
}

-- An empty queue of two slots for the windows.
abbrev window_queue : SpscQueue (Event (List ℕ))
window_queue = record {
  buffer = λ (i : ℕ). no_list;
  capacity = 2;
  write_idx = 0;
  write_idx_cached = 0;
  read_idx = 0;
  read_idx_cached = 0;
}

window_queue-IsValid : IsValid window_queue
window_queue-IsValid = record {
  power = (1, refl);
  large = omega arith;
  addressable = omega arith;
  write_in = omega arith;
  read_in = omega arith;
  write_cached_in = omega arith;
  read_cached_in = omega arith;
  producer_lags = omega arith;
  consumer_lags = omega arith;
}

time_tick-Collects_example :
    Collects
      (λ (l : List ℕ). l)
      timed
      full_queue
      window_queue
      (TimeWindow.tick 1500 1501 timed full_queue window_queue)
time_tick-Collects_example =
    time_tick-Collects (λ (l : List ℕ). l) timed full_queue window_queue (λ (l : List ℕ). refl) 1500
      1501 (IsSound-of_valid full-IsValid) (IsSound-of_valid window_queue-IsValid)

tick-due_example :
    let (status, n', input', output') = TimeWindow.tick 1500 1501 timed full_queue window_queue in
    (new : List (Event (List ℕ))) × (items output' ++ held n'.outlet
      ≡ (items window_queue ++ held timed.outlet) ++ new)
    × PutsOut 1500 1501 timed n'.own new
tick-due_example =
    tick-due 1500 1501 timed full_queue window_queue (IsSound-of_valid window_queue-IsValid)
      (omega arith) (omega arith)
