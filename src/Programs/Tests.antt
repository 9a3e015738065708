-- ===== src/Programs/Tests.antt =====
-- The theorems on the programs at small runs, with thousandths for the `double`s.
use klstream.Prelude.{
  ℕ, zero, suc, ◌+◌, ◌-◌, ◌*◌, ◌/◌, ◌%◌, ◌^◌, ◌≤◌, ◌≡◌, ◌↔◌, arith, false, Option, none, some, List,
  [], ◌∷◌, ◌++◌, ltb, leb, length,
}
use klstream.Core.Double.{Double}
use klstream.Core.Event.{Event}
use klstream.Operators.Sink.{consumed}
use klstream.Operators.CountWindow
use klstream.Operators.Pipeline.{promise}
use klstream.Window.Batch.{FeatureVector, WindowBatch, DetectionResult}
use klstream.Window.Inference.{Inference}
use klstream.Programs.Network.{
  Network, Turn, source, operator, sink, run, under_way, queue, remembering,
}
use klstream.Programs.Detection
use klstream.Programs.Detection.{operators_at_rest}
use klstream.Programs.BasicPipeline
use klstream.Programs.BasicPipeline.{no_latencies, record_latency, Latencies}
use klstream.Programs.BasicPipeline.Sums
use klstream.Programs.BasicPipeline.Sums.{sums_delivered, payloads, sums_from}
use klstream.Programs.YahooBenchmark
use klstream.Programs.YahooBenchmark.{
  AdEvent, CampaignResult, Draws, Totals, no_totals, record_result, top_campaign,
}
use klstream.Programs.YahooBenchmark.Counting.{tally, Listed}
use klstream.Programs.YahooBenchmark.Top.{top_campaign_best}
use klstream.Programs.YahooBenchmark.Results
use klstream.Programs.YahooBenchmark.Results.{results_plausible, AllPlausible}

abbrev thousandths : Double
thousandths = record {
  Carrier = ℕ;
  of_nat = λ n. n * 1000;
  decimal = λ units k. units * 1000 / 10 ^ k;
  seconds = λ ns. ns / 1000000;
  plus = λ x y. x + y;
  neg = λ x. 0;
  minus = λ x y. x - y;
  times = λ x y. x * y / 1000;
  over = λ x y. x * 1000 / y;
  truncate = λ x. x / 1000;
  lt = ltb;
  le = leb;
}

abbrev ticking : ℕ → ℕ
ticking n = n * 100

abbrev zeros : ℕ → Event ℕ
zeros i = record { timestamp_ns = 0; key = 0; seq = 0; payload = i }

-- Three numbers are made and squared; the sums go through to the sink.
abbrev turns : List Turn
turns =
    source 5
    ∷ operator 0
    ∷ operator 1
    ∷ operator 2
    ∷ source 6
    ∷ sink
    ∷ source 7
    ∷ operator 0
    ∷ operator 0
    ∷ operator 1
    ∷ operator 1
    ∷ []

abbrev sums_start : BasicPipeline.Program thousandths 100 ticking ticking
sums_start = Sums.begin thousandths 100 ticking ticking zeros zeros zeros zeros

sums_delivered_example :
    let w = run thousandths ℕ Latencies BasicPipeline.operators sums_start turns in
    (out : List (Event ℕ)) × (w.sink.seen ≡ consumed (record_latency 100 ticking) no_latencies out)
    × (payloads (out ++ under_way thousandths ℕ Latencies BasicPipeline.operators w)
        ≡ sums_from 0 ((length w.source.captured.0 + 1) / 2))
sums_delivered_example =
    sums_delivered thousandths 100 ticking ticking zeros zeros zeros zeros turns sums_start
      (Sums.assembled thousandths 100 ticking ticking zeros zeros zeros zeros) (omega arith)

abbrev view : ℕ → Event CampaignResult
view campaign = record {
  timestamp_ns = 0;
  key = 0;
  seq = 0;
  payload = record { campaign_id = campaign; view_count = 1 };
}

abbrev stray : CampaignResult
stray = record { campaign_id = 7; view_count = 7 }

abbrev in_order : List (ℕ × ℕ) → List (ℕ × ℕ)
in_order m = m

in_order_keeps : (m : List (ℕ × ℕ)) (x : ℕ × ℕ) → Listed x (in_order m) ↔ Listed x m
in_order_keeps m x = (λ l. l, λ l. l)

top_campaign_best_example :
    let seen = view 3 ∷ view 5 ∷ view 5 ∷ [] in
    let top = top_campaign in_order stray seen in
    (top.view_count ≡ tally top.campaign_id seen) × ((c : ℕ) → tally c seen ≤ top.view_count)
top_campaign_best_example =
    top_campaign_best in_order in_order_keeps stray (view 3) (view 5 ∷ view 5 ∷ []) (omega arith)

-- Draws the numbers one after the other.
abbrev counting : Draws ℕ
counting = record { ad = λ r. (r % 1000, r + 1); type = λ r. (r % 3, r) }

abbrev no_ads : ℕ → Event AdEvent
no_ads i = record {
  timestamp_ns = 0;
  key = 0;
  seq = 0;
  payload = record { ad_id = 0; campaign_id = 0; event_type = 0 };
}

abbrev ads_start : YahooBenchmark.Program in_order stray thousandths 100 counting ticking ticking
ads_start =
    Results.begin in_order stray in_order_keeps thousandths 100 counting ticking ticking no_ads
      no_ads view view 41

results_plausible_example :
    let w = run thousandths ℕ Totals YahooBenchmark.operators ads_start turns in
    (out : List (Event CampaignResult)) × (w.sink.seen
      ≡ consumed (record_result 100 ticking) no_totals out)
    × (out ++ under_way thousandths ℕ Totals YahooBenchmark.operators w
        ≡ promise YahooBenchmark.operators ads_start.state w.source.captured.0)
    × AllPlausible out
results_plausible_example =
    results_plausible in_order stray in_order_keeps thousandths 100 counting ticking ticking no_ads
      no_ads view view 41 (λ r. omega arith) turns ads_start
      (Results.assembled in_order stray in_order_keeps thousandths 100 counting ticking ticking
        no_ads no_ads view view 41)

abbrev tick_point : ℕ → FeatureVector ℕ
tick_point n = record {
  log_return = n % 50;
  rolling_vol = 0;
  order_imbalance = 0;
  spread_bps = 0;
  volume = 1;
}

-- Numbers its ticks from its state on.
abbrev next_tick : ℕ → ℕ → Option (Event (FeatureVector ℕ)) × ℕ
next_tick g seq =
    (some (record { timestamp_ns = g * 10; key = 0; seq = g; payload = tick_point g }), g + 1)

-- Scores a point by its first number.
abbrev first_number : List ℕ → ℕ
first_number [] = 300
first_number (x ∷ xs) = 300 + x

abbrev scorer : Inference thousandths ℕ
scorer = record { anomaly_score = first_number; zero_occupancy = 0; stray_key = λ ev. 77 }

abbrev no_points : WindowBatch ℕ
no_points = record { points = tick_point; count = 0; first_seq = 0; last_seq = 0 }

abbrev no_window : Event (WindowBatch ℕ)
no_window = record { timestamp_ns = 0; key = 0; seq = 0; payload = no_points }

abbrev no_verdict : Event (DetectionResult ℕ ℕ)
no_verdict = record {
  timestamp_ns = 0;
  key = 0;
  seq = 0;
  payload = record {
    max_score = 0;
    window_size_used = 0;
    first_seq = 0;
    last_seq = 0;
    flagged_seq = 0;
    occupancy_at_decision = 0;
  };
}

-- Keeps the numbers of the flagged ticks.
abbrev keep_flagged : List ℕ → Event (DetectionResult ℕ ℕ) → List ℕ
keep_flagged seen ev = ev.payload.flagged_seq ∷ seen

abbrev detection_start : Network thousandths ℕ (List ℕ) (Detection.operators thousandths ℕ)
detection_start = record {
  source = record {
    captured = ([], 9);
    gen = remembering next_tick;
    seq = 0;
    outlet = record {
      pending = record { timestamp_ns = 0; key = 0; seq = 0; payload = tick_point 0 };
      has_pending = false;
      metrics = none;
    };
    original_rate = 0;
    limiter = none;
    ema_tracker = none;
  };
  input = queue (λ i. record { timestamp_ns = 0; key = 0; seq = 0; payload = tick_point 0 });
  state =
      operators_at_rest thousandths ℕ no_points scorer (queue (λ i. no_window)) no_window
        no_verdict;
  output = queue (λ i. no_verdict);
  sink = record { seen = []; consumer = keep_flagged; metrics = none };
}

-- A tick is made and taken into the window, so often.
abbrev rounds : ℕ → List Turn
rounds zero = operator 1 ∷ sink ∷ []
rounds (suc n) = source 5 ∷ operator 0 ∷ rounds n
