-- ===== src/Operators/Source/Tests.antt =====
-- The theorems on the source, with thousandths for the `double`s.
use klstream.Prelude.{
  ℕ, ◌+◌, ◌-◌, ◌*◌, ◌/◌, ◌^◌, ◌≡◌, ◌≢◌, refl, arith, false, none, some, ltb, leb,
}
use klstream.Core.Event.{Event}
use klstream.Core.Double.{Double}
use klstream.Core.Operator.{processed}
use klstream.Core.Backpressure.{occupancy, update, soft_pressure, hard_pressure}
use klstream.Core.SpscQueue.{SpscQueue, used}
use klstream.Core.SpscQueue.Invariant.{IsValid}
use klstream.Core.SpscQueue.Client.{IsSound-of_valid}
use klstream.Operators.Source.{SourceOperator, tick, enable_rate_limiting}
use klstream.Operators.Source.Emission.{Emits, tick-Emits}
use klstream.Operators.Source.Starvation.{
  ZeroLaws, IsStarved, rate_of, tick-enable_rate_limiting, tick-IsStarved,
}

abbrev thousandths : Double
thousandths = record {
  Carrier = ℕ;
  of_nat = λ n. n * 1000;
  decimal = λ units k. units * 1000 / 10 ^ k;
  seconds = λ ns. ns / 1000000;
  plus = λ x y. x + y;
  neg = λ x. 0;
  minus = λ x y. x - y;
  times = λ x y. x * y / 1000;
  over = λ x y. x * 1000 / y;
  truncate = λ x. x / 1000;
  lt = ltb;
  le = leb;
}

thousandths_laws : ZeroLaws thousandths
thousandths_laws = record {
  times_zero = λ x. omega arith;
  zero_times = λ units k. omega arith;
  plus_zero = λ x. omega arith;
}

abbrev event : ℕ → Event ℕ
event n = record { timestamp_ns = n * 1000; key = 0; seq = n; payload = n }

abbrev empty_output : SpscQueue (Event ℕ)
empty_output = record {
  buffer = event;
  capacity = 4;
  write_idx = 2;
  write_idx_cached = 2;
  read_idx = 2;
  read_idx_cached = 2;
}

empty_output-IsValid : IsValid empty_output
empty_output-IsValid = record {
  power = (2, refl);
  large = omega arith;
  addressable = omega arith;
  write_in = omega arith;
  read_in = omega arith;
  write_cached_in = omega arith;
  read_cached_in = omega arith;
  producer_lags = omega arith;
  consumer_lags = omega arith;
}

-- It counts what it has made.
abbrev counting : SourceOperator thousandths ℕ ℕ
counting = record {
  captured = 5;
  gen = λ made seq. (some (event seq), made + 1);
  seq = 5;
  outlet = record { pending = event 0; has_pending = false; metrics = none };
  original_rate = 0;
  limiter = none;
  ema_tracker = none;
}

tick-Emits_example :
    Emits thousandths counting empty_output
      (tick thousandths 100 counting empty_output).1
      (tick thousandths 100 counting empty_output).2
tick-Emits_example =
    tick-Emits thousandths 100 counting empty_output (IsSound-of_valid empty_output-IsValid)

tick-enable_rate_limiting_example :
    rate_of thousandths
      (tick thousandths 2000
        (enable_rate_limiting thousandths 50000 1000 counting)
        empty_output).1.limiter
    ≡ some 0
unfolding hard_pressure soft_pressure occupancy update used
tick-enable_rate_limiting_example =
    tick-enable_rate_limiting thousandths 50000 1000 2000 counting empty_output refl refl refl refl

abbrev starved : SourceOperator thousandths ℕ ℕ
starved = record counting {
  limiter = some (record { rate = 0; tokens = 500; max_tokens = 50000; last = 2000 });
  ema_tracker = some (record { alpha = 100; ema = 0 });
}

starved-IsStarved : IsStarved thousandths starved
starved-IsStarved = record {
  target = refl;
  tracker = record { alpha = 100; ema = 0 };
  tracked = refl;
  bucket = record { rate = 0; tokens = 500; max_tokens = 50000; last = 2000 };
  bucketed = refl;
  dry = record { rate = refl; below_one = refl; below_max = refl };
}

tick-IsStarved_example :
    ((tick thousandths 9000000000 starved empty_output).0 ≢ processed)
    × ((tick thousandths 9000000000 starved empty_output).1.captured ≡ 5)
    × ((tick thousandths 9000000000 starved empty_output).1.seq ≡ 5)
    × ((tick thousandths 9000000000 starved empty_output).2 ≡ empty_output)
    × IsStarved thousandths (tick thousandths 9000000000 starved empty_output).1
tick-IsStarved_example =
    tick-IsStarved thousandths thousandths_laws 9000000000 starved empty_output starved-IsStarved
