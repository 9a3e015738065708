-- ===== src/Window/Tests.antt =====
-- The theorems on windows, with thousandths for the `double`s.
use klstream.Prelude.{
  ℕ, ◌+◌, ◌-◌, ◌*◌, ◌/◌, ◌^◌, ◌<◌, ◌≤◌, ◌≡◌, refl, arith, false, none, List, [], ◌∷◌, ltb, leb,
  add_word,
}
use klstream.Core.Double.{Double}
use klstream.Core.Event.{Event}
use klstream.Core.SpscQueue.{SpscQueue}
use klstream.Core.SpscQueue.Invariant.{IsValid}
use klstream.Core.SpscQueue.Client.{IsSound, IsSound-of_valid}
use klstream.Operators.Node.{Node}
use klstream.Window.Batch.{FeatureVector, WindowBatch, DetectionResult, to_point}
use klstream.Window.Controller.{
  AdaptiveWindowController, neutral, FactorLaws, direction, update, update-Moves,
}
use klstream.Window.TickSource
use klstream.Window.TickSource.{
  TickRow, ReplayMode, preserve_timing, Readings, FinancialTickSource, replay,
}
use klstream.Window.TickSource.Ascent.{AscendsFrom, replay-AscendsFrom}
use klstream.Window.AdaptiveWindow
use klstream.Window.AdaptiveWindow.{AdaptiveWindow, all_points}
use klstream.Window.DataDrivenWindow
use native.Mathlib.Nat.{mul-le-mul_right}
use klstream.Prelude.{Bool-cases}
use klstream.Window.DataDrivenWindow.{DataDrivenWindow}
use klstream.Window.DataDrivenWindow.Target.{InterpolationLaws}
use klstream.Window.DataDrivenWindow.Conservation
use klstream.Window.DataDrivenWindow.Conservation.{IsFilling, data_driven_tick-IsFilling}
use klstream.Prelude.{length, map, some, inl, inr}
use klstream.Window.Inference.{Inference, OrderLaws, verdict, verdict_best}

-- Nothing is below 0 here: what would be is 0.
abbrev thousandths : Double
thousandths = record {
  Carrier = ℕ;
  of_nat = λ n. n * 1000;
  decimal = λ units k. units * 1000 / 10 ^ k;
  seconds = λ ns. ns / 1000000;
  plus = λ x y. x + y;
  neg = λ x. 0;
  minus = λ x y. x - y;
  times = λ x y. x * y / 1000;
  over = λ x y. x * 1000 / y;
  truncate = λ x. x / 1000;
  lt = ltb;
  le = leb;
}

thousandths_order : OrderLaws thousandths
thousandths_order = record {
  not_below_itself = λ x. ground arith;
  above_all = λ x y z e f. ground arith;
}

abbrev controller : AdaptiveWindowController thousandths
controller = record {
  w_min = 16;
  w_max = 256;
  occ_low = 300;
  occ_high = 700;
  shrink_factor = 700;
  grow_factor = 1150;
  current_w = 100;
  shrink_events = 3;
  grow_events = 0;
  direction_changes = 0;
  last_dir = neutral;
}

controller_factors : FactorLaws thousandths controller
controller_factors = record { shrinks = λ w h. omega arith; grows = λ w h. omega arith }

update-Moves_example :
    (16 ≤ (update thousandths 120 controller).current_w)
    × ((update thousandths 120 controller).current_w ≤ 256)
    × (100 ≤ (update thousandths 120 controller).current_w)
unfolding direction
update-Moves_example =
    update-Moves thousandths 120 controller controller_factors (omega arith) (omega arith)

abbrev point : ℕ → FeatureVector ℕ
point n = record {
  log_return = n;
  rolling_vol = 0;
  order_imbalance = 0;
  spread_bps = 0;
  volume = 1;
}

abbrev window : Event (WindowBatch ℕ)
window = record {
  timestamp_ns = 900;
  key = 0;
  seq = 12;
  payload = record { points = point; count = 3; first_seq = 10; last_seq = 12 };
}

-- Scores a point by its first number.
abbrev first_number : List ℕ → ℕ
first_number [] = 0
first_number (x ∷ xs) = 300 + x

abbrev scorer : Inference thousandths ℕ
scorer = record { anomaly_score = first_number; zero_occupancy = 0; stray_key = λ ev. 77 }

verdict_best_example :
    let r = (verdict thousandths ℕ scorer window).payload in
    (at : ℕ) × (at < 3)
    × (r.flagged_seq ≡ add_word 10 at)
    × (r.max_score ≡ 300 + at)
    × ((j : ℕ) → j < 3 → ltb r.max_score (300 + j) ≡ false)
unfolding to_point
verdict_best_example = verdict_best thousandths thousandths_order scorer window (omega arith) refl

abbrev windows : SpscQueue (Event (WindowBatch ℕ))
windows = record {
  buffer = λ i. window;
  capacity = 4;
  write_idx = 2;
  write_idx_cached = 1;
  read_idx = 1;
  read_idx_cached = 1;
}

abbrev verdicts : SpscQueue (Event (DetectionResult ℕ ℕ))
verdicts = record {
  buffer = λ i. verdict thousandths ℕ scorer window;
  capacity = 4;
  write_idx = 2;
  write_idx_cached = 2;
  read_idx = 2;
  read_idx_cached = 2;
}

windows-IsValid : IsValid windows
windows-IsValid = record {
  power = (2, refl);
  large = omega arith;
  addressable = omega arith;
  write_in = omega arith;
  read_in = omega arith;
  write_cached_in = omega arith;
  read_cached_in = omega arith;
  producer_lags = omega arith;
  consumer_lags = omega arith;
}

verdicts-IsValid : IsValid verdicts
verdicts-IsValid = record {
  power = (2, refl);
  large = omega arith;
  addressable = omega arith;
  write_in = omega arith;
  read_in = omega arith;
  write_cached_in = omega arith;
  read_cached_in = omega arith;
  producer_lags = omega arith;
  consumer_lags = omega arith;
}

abbrev inferring : Node (Inference thousandths ℕ) (DetectionResult ℕ ℕ)
inferring = record {
  own = scorer;
  outlet = record {
    pending = verdict thousandths ℕ scorer window;
    has_pending = false;
    metrics = none;
  };
}

abbrev row : ℕ → TickRow ℕ
row n = record {
  seq = n;
  timestamp_ns = n * 1000;
  features = point n;
  label = 0;
  is_burst_period = 0;
}

abbrev reading : ℕ → Readings
reading n = record { rewound_at = n; begun_at = n; paced_at = n + 1; made_at = n + 2 }

abbrev two_rows : List (TickRow ℕ)
two_rows = row 3 ∷ row 8 ∷ []

abbrev five_calls : List Readings
five_calls = reading 10 ∷ reading 20 ∷ reading 30 ∷ reading 40 ∷ reading 50 ∷ []

replay-AscendsFrom_example :
    (evs : List (Event (FeatureVector ℕ))) × (s : FinancialTickSource thousandths ℕ) × (replay
        thousandths ℕ five_calls
        (TickSource.new thousandths ℕ two_rows preserve_timing 1000)
      ≡ some (evs, s))
    × (length evs ≡ 5)
    × AscendsFrom 0 (map (λ ev. ev.seq) evs)
replay-AscendsFrom_example =
    replay-AscendsFrom thousandths two_rows preserve_timing 1000 (row 8) five_calls (omega arith)
      refl (omega arith) (omega arith)

-- An input queue of two slots with one point.
abbrev points_queue : SpscQueue (Event (FeatureVector ℕ))
points_queue = record {
  buffer = λ i. record { timestamp_ns = 5; key = 0; seq = 7; payload = point 7 };
  capacity = 2;
  write_idx = 1;
  write_idx_cached = 0;
  read_idx = 0;
  read_idx_cached = 0;
}

points_queue-IsValid : IsValid points_queue
points_queue-IsValid = record {
  power = (1, refl);
  large = omega arith;
  addressable = omega arith;
  write_in = omega arith;
  read_in = omega arith;
  write_cached_in = omega arith;
  read_cached_in = omega arith;
  producer_lags = omega arith;
  consumer_lags = omega arith;
}

abbrev no_points : WindowBatch ℕ
no_points = record { points = point; count = 0; first_seq = 0; last_seq = 0 }

-- At the start of a window.
abbrev adaptive : Node (AdaptiveWindow thousandths ℕ) (WindowBatch ℕ)
adaptive = record {
  own = record {
    controller = controller;
    tracker = record { alpha = 100; ema = 0 };
    filling = record { buffer = no_points; target_w = 0 };
    overhead_ns_sum = 0;
    overhead_samples = 0;
  };
  outlet = record { pending = window; has_pending = false; metrics = none };
}

-- Rounding down to thousandths.
thousandths_between : InterpolationLaws thousandths
thousandths_between = record {
  order = λ m n le. ground arith;
  total = λ x n number. elim (Bool-cases (ltb x (n * 1000))) [
    | inl h ↦ inl h
    | inr h ↦ inr (ground arith)
  ];
  total_above = λ x n number. elim (Bool-cases (ltb (n * 1000) x)) [
    | inl h ↦ inl h
    | inr h ↦ inr (ground arith)
  ];
  above_both = λ x m n le h. ground arith;
  below_both = λ x m n le h. ground arith;
  times_mono = λ f g n small low h high.
      let less : f ≤ g = ground arith in
      let more = mul-le-mul_right (n * 1000) less in ground (arith, more);
  times_zero = λ n small. ground arith;
  times_one = λ n small. ground arith;
  minus_mono = λ x y n small h. ground arith;
  minus_exact = λ m n small le. omega (arith, le);
  truncate_between = λ x m n small low high. ground arith;
}

-- A window of 2 to 8 points, at its start.
abbrev data_driven : Node (DataDrivenWindow thousandths) (WindowBatch ℕ)
data_driven = record {
  own = record {
    w_min = 2;
    w_max = 8;
    vol_low = 10;
    vol_high = 20;
    last_vol = 15;
    filling = record { buffer = no_points; target_w = 2 };
    overhead_ns_sum = 0;
    overhead_samples = 1;
  };
  outlet = record { pending = window; has_pending = false; metrics = none };
}

data_driven_tick-IsFilling_example :
    let (status, n', input', output') =
      DataDrivenWindow.tick thousandths 77 no_points 40 data_driven points_queue windows in
    IsSound input'
    × IsSound output'
    × IsFilling thousandths n'.own
    × Conservation.Same thousandths data_driven.own n'.own
    × Conservation.Retargets thousandths thousandths_between
        (Conservation.starts thousandths thousandths_between data_driven)
        data_driven.own
        n'.own.filling.target_w
    × (Conservation.all_points thousandths n' input' output'
        ≡ Conservation.all_points thousandths data_driven points_queue windows)
data_driven_tick-IsFilling_example =
    data_driven_tick-IsFilling thousandths thousandths_between 77 no_points 40 data_driven
      points_queue windows refl refl (omega arith, omega arith, omega arith, inl refl)
      (IsSound-of_valid points_queue-IsValid) (IsSound-of_valid windows-IsValid)
