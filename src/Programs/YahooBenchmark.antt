-- ===== src/Programs/YahooBenchmark.antt =====
-- examples/yahoo_streaming_benchmark/main.cpp: advertisement events, the views among them, the campaign of
-- each, and the campaign with most views in every 1000. The random numbers, the clock, the memory
-- that a queue is made in, and the order in which an `unordered_map` is walked are arguments.
pub mod Counting
pub mod Top
pub mod Results
use Prim.Native.String.{String}
use klstream.Prelude.{
  ℕ, ◌+◌, ◌/◌, ◌%◌, ◌^◌, Bool, false, Option, none, some, List, [], ◌∷◌, ◌==◌, ltb, if◌then◌else◌,
  add_word, ◌>>=◌,
}
use klstream.Core.Double.{Double}
use klstream.Core.Event.{Event, make, latency_ns}
use klstream.Core.Metrics.Histogram
use klstream.Core.Metrics.Histogram.{LatencyHistogram}
use klstream.Core.SpscQueue.{SpscQueue, init}
use klstream.Operators.Outlet.{Outlet}
use klstream.Operators.CountWindow
use klstream.Operators.Filter
use klstream.Operators.Map
use klstream.Operators.Pipeline.{Chain, State}
use klstream.Programs.BasicPipeline.{metrics_of}
use klstream.Programs.Network.{Network, remembering}

pub record AdEvent : Type 0 where
  pub ad_id : ℕ
  pub campaign_id : ℕ
  pub event_type : ℕ

pub record CampaignResult : Type 0 where
  pub campaign_id : ℕ
  pub view_count : ℕ

abbrev pub ads_per_campaign : ℕ
ads_per_campaign = 10

abbrev pub n_campaigns : ℕ
n_campaigns = 100

-- `campaign_table[i]` after `build_campaign_table`, for `i` below `N_ADS`.
unfoldable pub campaign_table : ℕ → ℕ
campaign_table i = i / ads_per_campaign

-- What the generator of random numbers draws: an advertisement, a type, and its next state.
pub record Draws (R : Type 0) : Type 0 where
  pub ad : R → ℕ × R
  pub type : R → ℕ × R

-- The source's lambda; `clock` gives the reading at its call number `seq`.
unfoldable pub next_ad : {R : Type 0} → Draws R → (ℕ → ℕ) → R → ℕ → Option (Event AdEvent) × R
unfolding make
next_ad draws clock r seq =
    let (ad, r1) = draws.ad r in
    let (type, r2) = draws.type r1 in
    (some (make (clock seq) (record { ad_id = ad; campaign_id = 0; event_type = type }) 0 seq), r2)

unfoldable pub is_view : AdEvent → Bool
is_view e = e.event_type == 0

unfoldable pub join : AdEvent → CampaignResult
unfolding campaign_table
join e = record { campaign_id = campaign_table e.ad_id; view_count = 1 }

-- `counts[k] += n`; a missing key stands for 0.
unfoldable pub bump : ℕ → ℕ → List (ℕ × ℕ) → List (ℕ × ℕ)
bump k n [] = (k, n) ∷ []
bump k n ((j, v) ∷ m) = if j == k then (j, add_word v n) ∷ m else (j, v) ∷ bump k n m

-- The loop over the window.
unfoldable pub count_all : List (ℕ × ℕ) → List (Event CampaignResult) → List (ℕ × ℕ)
count_all m [] = m
count_all m (r ∷ rs) = count_all (bump r.payload.campaign_id r.payload.view_count m) rs

-- `std::max_element` by the second parts, from the second element on.
unfoldable pub largest : ℕ × ℕ → List (ℕ × ℕ) → ℕ × ℕ
largest best [] = best
largest best (x ∷ xs) = largest (if ltb best.1 x.1 then x else best) xs

-- The result for the entries in the order of the walk; `stray` is what is read behind the end.
unfoldable pub most : CampaignResult → List (ℕ × ℕ) → CampaignResult
most stray [] = stray
most stray (x ∷ xs) =
    let (campaign, views) = largest x xs in record { campaign_id = campaign; view_count = views }

-- The aggregate of the window; `walk` is the order of the entries.
unfoldable pub top_campaign :
    (List (ℕ × ℕ) → List (ℕ × ℕ)) → CampaignResult → List (Event CampaignResult) → CampaignResult
unfolding most count_all bump largest
top_campaign walk stray buf = most stray (walk (count_all [] buf))

-- The operators between source and sink.
unfoldable pub operators : Chain AdEvent CampaignResult
unfolding Map.stage Filter.stage CountWindow.stage
operators =
    Chain.link {B = AdEvent} Filter.stage
      (Chain.link {B = CampaignResult} Map.stage (Chain.last CountWindow.stage))

-- What the sink has captured.
pub record Totals : Type 0 where
  pub latency : LatencyHistogram
  pub total_out : ℕ

abbrev pub no_totals : Totals
no_totals = record { latency = Histogram.new; total_out = 0 }

-- The sink's lambda; `clock` reads the time by the number of results so far.
unfoldable pub record_result : ℕ → (ℕ → ℕ) → Totals → Event CampaignResult → Totals
record_result buckets clock t ev = record {
  latency = Histogram.add buckets t.latency (latency_ns (clock t.total_out) ev);
  total_out = add_word t.total_out 1;
}

abbrev no_ad : Event AdEvent
no_ad = record {
  timestamp_ns = 0;
  key = 0;
  seq = 0;
  payload = record { ad_id = 0; campaign_id = 0; event_type = 0 };
}

abbrev no_result : Event CampaignResult
no_result = record {
  timestamp_ns = 0;
  key = 0;
  seq = 0;
  payload = record { campaign_id = 0; view_count = 0 };
}

abbrev free : {T : Type 0} → Event T → String → Outlet T
free nothing name = record { pending = nothing; has_pending = false; metrics = metrics_of name }

module _ (walk : List (ℕ × ℕ) → List (ℕ × ℕ)) (stray : CampaignResult) where
  -- The state of the operators, with the two queues between them.
  unfoldable pub operators_at_rest :
      SpscQueue (Event AdEvent) → SpscQueue (Event CampaignResult) → State operators
  unfolding operators is_view join top_campaign Map.stage Filter.stage CountWindow.stage
  operators_at_rest q_flt_map q_map_win = (
    record { own = is_view; outlet = free no_ad "view_filter" },
    q_flt_map,
    (
      record { own = join; outlet = free no_result "campaign_join" },
      q_map_win,
      record {
        own = record {
          window_size = 1000;
          aggr = top_campaign walk stray;
          buffer = [];
          window_start_ts = 0;
        };
        outlet = free no_result "10sec_window";
      },
    ),
  )

  module _ (d : Double) (buckets : ℕ) {R : Type 0} (draws : Draws R) (made_at : ℕ → ℕ)
      (seen_at : ℕ → ℕ) where
    abbrev pub Program : Type 0
    Program = Network d R Totals operators

    -- `main` up to the start of the workers, between the four queues and with the state of `rng`.
    unfoldable pub program :
        R
        → SpscQueue (Event AdEvent)
        → SpscQueue (Event AdEvent)
        → SpscQueue (Event CampaignResult)
        → SpscQueue (Event CampaignResult)
        → Program
    unfolding next_ad operators_at_rest record_result
    program rng q_src_flt q_flt_map q_map_win q_win_snk = record {
      source = record {
        captured = ([], rng);
        gen = remembering (next_ad draws made_at);
        seq = 0;
        outlet = free no_ad "ysb_source";
        original_rate = d.of_nat 0;
        limiter = none;
        ema_tracker = none;
      };
      input = q_src_flt;
      state = operators_at_rest q_flt_map q_map_win;
      output = q_win_snk;
      sink = record {
        seen = no_totals;
        consumer = record_result buckets seen_at;
        metrics = metrics_of "ysb_sink";
      };
    }

    -- The same with its queues, each in a memory of its own.
    unfoldable pub assemble :
        R
        → (ℕ → Event AdEvent)
        → (ℕ → Event AdEvent)
        → (ℕ → Event CampaignResult)
        → (ℕ → Event CampaignResult)
        → Option Program
    unfolding program
    assemble rng m1 m2 m3 m4 = do
      q_src_flt ← init m1 4096
      q_flt_map ← init m2 4096
      q_map_win ← init m3 4096
      q_win_snk ← init m4 4096
      some (program rng q_src_flt q_flt_map q_map_win q_win_snk)
