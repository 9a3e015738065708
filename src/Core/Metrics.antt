-- ===== src/Core/Metrics.antt =====
-- The counters of include/klstream/core/metrics.hpp: `Counter` and `OperatorMetrics`. An operator has
-- a pointer to its metrics, or none; `Metrics.Histogram` has the latency histogram.
pub mod Histogram
pub mod Recording
mod Tests
use Prim.Native.String.{String}
use mathlib.Core.Option
use klstream.Prelude.{ℕ, Option, add_word}

pub record Counter : Type 0 where
  pub value : ℕ

unfoldable pub increment : Counter → Counter
increment c = record c { value = add_word c.value 1 }

-- `exchange(0)`: the old value, and the counter at zero.
unfoldable pub reset : Counter → ℕ × Counter
reset c = (c.value, record c { value = 0 })

pub record OperatorMetrics : Type 0 where
  pub events_processed : Counter
  pub events_blocked : Counter
  pub events_idle : Counter
  pub op_name : String

-- `if (metrics_) metrics_->events_processed.increment()`, and its two fellows.
unfoldable pub count_processed : Option OperatorMetrics → Option OperatorMetrics
unfolding increment
count_processed =
    Option.map {A = OperatorMetrics} {B = OperatorMetrics}
      λ m. record m { events_processed = increment m.events_processed }

unfoldable pub count_blocked : Option OperatorMetrics → Option OperatorMetrics
unfolding increment
count_blocked =
    Option.map {A = OperatorMetrics} {B = OperatorMetrics}
      λ m. record m { events_blocked = increment m.events_blocked }

unfoldable pub count_idle : Option OperatorMetrics → Option OperatorMetrics
unfolding increment
count_idle =
    Option.map {A = OperatorMetrics} {B = OperatorMetrics}
      λ m. record m { events_idle = increment m.events_idle }
