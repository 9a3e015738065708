-- ===== src/Programs/BasicPipeline.antt =====
-- examples/basic_pipeline/main.cpp: numbers, their squares, the even ones of these, and the running sum.
-- The memory that a queue is made in, and the clock, are arguments.
pub mod Sums
use Prim.Native.String.{String}
use klstream.Prelude.{
  ◌>>=◌, ℕ, zero, suc, ◌+◌, ◌*◌, ◌%◌, ◌^◌, ◌≤◌, ◌<◌, ◌≡◌, refl, arith, Bool, false, Option, none,
  some, List, [], ◌∷◌, ◌++◌, map, ◌==◌, if◌then◌else◌, length, length-append, word, add_word,
}
use klstream.Core.Double.{Double}
use klstream.Core.Event.{Event, make, latency_ns}
use klstream.Core.Metrics.{OperatorMetrics}
use klstream.Core.Metrics.Histogram
use klstream.Core.Metrics.Histogram.{LatencyHistogram}
use klstream.Core.SpscQueue.{SpscQueue, init}
use klstream.Operators.Outlet.{Outlet}
use klstream.Operators.Aggregate
use klstream.Operators.Filter
use klstream.Operators.Map
use klstream.Operators.Pipeline.{Chain, State, promise}
use klstream.Operators.Source.{SourceOperator}
use klstream.Operators.Sink.{SinkOperator}
use klstream.Programs.Network
use klstream.Programs.Network.{Network, Turn, remembering, run}

-- The source's lambda; `clock` gives the reading at its call number n. `global_seq` is what it has
-- captured, and the number of the event stays 0.
unfoldable pub next_number : (ℕ → ℕ) → ℕ → ℕ → Option (Event ℕ) × ℕ
unfolding make
next_number clock global_seq seq =
    (some (make (clock global_seq) global_seq 0 0), add_word global_seq 1)

unfoldable pub square : ℕ → ℕ
square x = x * x % word

unfoldable pub is_even : ℕ → Bool
is_even x = x % 2 == 0

-- The operators between source and sink.
unfoldable pub operators : Chain ℕ ℕ
unfolding Map.stage Filter.stage Aggregate.stage
operators =
    Chain.link {B = ℕ} Map.stage (Chain.link {B = ℕ} Filter.stage (Chain.last (Aggregate.stage ℕ)))

-- `attach_metrics` with new metrics of this name.
abbrev pub metrics_of : String → Option OperatorMetrics
metrics_of name = some (record {
  events_processed = record { value = 0 };
  events_blocked = record { value = 0 };
  events_idle = record { value = 0 };
  op_name = name;
})

-- What the sink has captured: the histogram; `seen` counts the calls.
pub record Latencies : Type 0 where
  pub histogram : LatencyHistogram
  pub seen : ℕ

abbrev pub no_latencies : Latencies
no_latencies = record { histogram = Histogram.new; seen = 0 }

-- The sink's lambda; `clock` gives the reading at its call number n.
unfoldable pub record_latency : ℕ → (ℕ → ℕ) → Latencies → Event ℕ → Latencies
record_latency buckets clock l ev = record {
  histogram = Histogram.add buckets l.histogram (latency_ns (clock l.seen) ev);
  seen = l.seen + 1;
}

abbrev nothing : Event ℕ
nothing = record { timestamp_ns = 0; key = 0; seq = 0; payload = 0 }

abbrev free : String → Outlet ℕ
free name = record { pending = nothing; has_pending = false; metrics = metrics_of name }

-- The state of the operators, with the two queues between them.
unfoldable pub operators_at_rest : SpscQueue (Event ℕ) → SpscQueue (Event ℕ) → State operators
unfolding operators square is_even Map.stage Filter.stage Aggregate.stage
operators_at_rest q_map_flt q_flt_agg = (
  record { own = square; outlet = free "square_map" },
  q_map_flt,
  (
    record { own = is_even; outlet = free "even_filter" },
    q_flt_agg,
    record {
      own = record { state = 0; accum = add_word; extract = λ (st : ℕ). st };
      outlet = free "running_sum";
    },
  ),
)

module _ (d : Double) (buckets : ℕ) (made_at seen_at : ℕ → ℕ) where
  abbrev pub Program : Type 0
  Program = Network d ℕ Latencies operators

  -- `main` up to the start of the workers, between the four queues.
  unfoldable pub program :
      SpscQueue (Event ℕ)
      → SpscQueue (Event ℕ)
      → SpscQueue (Event ℕ)
      → SpscQueue (Event ℕ)
      → Program
  unfolding next_number operators_at_rest record_latency
  program q_src_map q_map_flt q_flt_agg q_agg_snk = record {
    source = record {
      captured = ([], 0);
      gen = remembering (next_number made_at);
      seq = 0;
      outlet = free "source";
      original_rate = d.of_nat 0;
      limiter = none;
      ema_tracker = none;
    };
    input = q_src_map;
    state = operators_at_rest q_map_flt q_flt_agg;
    output = q_agg_snk;
    sink = record {
      seen = no_latencies;
      consumer = record_latency buckets seen_at;
      metrics = metrics_of "sink";
    };
  }

  -- The same with its queues, each in a memory of its own.
  unfoldable pub assemble :
      (ℕ → Event ℕ) → (ℕ → Event ℕ) → (ℕ → Event ℕ) → (ℕ → Event ℕ) → Option Program
  unfolding program
  assemble m1 m2 m3 m4 = do
    q_src_map ← init m1 4096
    q_map_flt ← init m2 4096
    q_flt_agg ← init m3 4096
    q_agg_snk ← init m4 4096
    some (program q_src_map q_map_flt q_flt_agg q_agg_snk)
