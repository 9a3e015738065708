-- ===== src/Programs/YahooBenchmark/Results.antt =====
-- What the sink of examples/yahoo_streaming_benchmark/main.cpp gets.
use mathlib.Core.Path.{subst, subst⁻¹}
use klstream.Prelude.{
  ℕ, ◌≤◌, ◌<◌, ◌≡◌, ◌↔◌, refl, ap, inl, inr, arith, some, List, [], ◌∷◌, ◌++◌, leb, length,
  length-append, Bool-cases,
}
use klstream.Core.Double.{Double}
use klstream.Core.Event.{Event, make}
use klstream.Core.SpscQueue.{SpscQueue}
use klstream.Core.SpscQueue.Client.{items}
use klstream.Operators.CountWindow
use klstream.Operators.CountWindow.{CountWindow, add, fired, owed}
use klstream.Operators.Filter
use klstream.Operators.Map
use klstream.Operators.Pipeline.{promise}
use klstream.Operators.Sink.{consumed}
use klstream.Programs.Network.{
  under_way, Turn, IsFresh, remembering, run, queue, queue_made, queue-IsSound,
}
use klstream.Programs.Network.Delivery.{run_delivers, run-captured}
use klstream.Programs.YahooBenchmark.{
  AdEvent, CampaignResult, Draws, Totals, no_totals, campaign_table, next_ad, is_view, join,
  operators, operators_at_rest, record_result, top_campaign, Program, program, assemble,
}
use klstream.Programs.YahooBenchmark.Counting.{tally, views, Listed}
use klstream.Programs.YahooBenchmark.Top.{Below, top_campaign_best, tally-le-views, views-le}

-- Each of these stands for one view, of a campaign that exists.
abbrev IsJoined : List (Event CampaignResult) → Type 0
IsJoined [] = Unit {0}
IsJoined (r ∷ rs) = ((r.payload.view_count ≡ 1) × (r.payload.campaign_id < 100)) × IsJoined rs

IsJoined-append :
    (xs ys : List (Event CampaignResult)) → IsJoined xs → IsJoined ys → IsJoined (xs ++ ys)
IsJoined-append [] ys h k = k
IsJoined-append (x ∷ xs) ys (h, hs) k = (h, IsJoined-append xs ys hs k)

views-eq-length : (rs : List (Event CampaignResult)) → IsJoined rs → views rs ≡ length rs
views-eq-length [] h = refl
views-eq-length (r ∷ rs) (h, hs) = omega (arith, h, views-eq-length rs hs)

joined-Below : (rs : List (Event CampaignResult)) → IsJoined rs → Below 100 rs
joined-Below [] h = tt
joined-Below (r ∷ rs) (h, hs) = (h.1, joined-Below rs hs)

-- A campaign with views exists.
tally-lt : (c : ℕ) (rs : List (Event CampaignResult)) → IsJoined rs → 0 < tally c rs → c < 100
tally-lt c [] h pos = absurd (omega arith)
tally-lt c (r ∷ rs) (h, hs) pos = ground (arith, h, tally-lt c rs hs)

-- The events name advertisements that exist.
abbrev pub AdsExist : List (Event AdEvent) → Type 0
AdsExist [] = Unit {0}
AdsExist (e ∷ es) = (e.payload.ad_id < 1000) × AdsExist es

AdsExist-append : (xs ys : List (Event AdEvent)) → AdsExist xs → AdsExist ys → AdsExist (xs ++ ys)
AdsExist-append [] ys h k = k
AdsExist-append (x ∷ xs) ys (h, hs) k = (h, AdsExist-append xs ys hs k)

joined :
    (es : List (Event AdEvent)) → AdsExist es → IsJoined (Map.owed join (Filter.owed is_view es))
unfolding join campaign_table Map.apply
joined [] h = tt
joined (e ∷ es) (lt, h) = elim (Bool-cases (is_view e.payload)) [
  | inl v ↦ rw v ((refl, omega arith), joined es h)
  | inr v ↦ rw v (joined es h)
]

-- A result for 1000 views: a campaign that exists, with 10 to 1000 of them.
abbrev pub IsPlausible : Event CampaignResult → Type 0
IsPlausible r =
    (r.payload.campaign_id < 100) × (10 ≤ r.payload.view_count) × (r.payload.view_count ≤ 1000)

abbrev pub AllPlausible : List (Event CampaignResult) → Type 0
AllPlausible [] = Unit {0}
AllPlausible (r ∷ rs) = IsPlausible r × AllPlausible rs

plausible_prefix : (xs ys : List (Event CampaignResult)) → AllPlausible (xs ++ ys) → AllPlausible xs
plausible_prefix [] ys h = tt
plausible_prefix (x ∷ xs) ys (h, hs) = (h, plausible_prefix xs ys hs)

module _ (walk : List (ℕ × ℕ) → List (ℕ × ℕ)) (stray : CampaignResult)
    (keeps : (m : List (ℕ × ℕ)) (x : ℕ × ℕ) → Listed x (walk m) ↔ Listed x m) where
  top-IsPlausible :
      (rs : List (Event CampaignResult)) (ev : Event CampaignResult)
      → IsJoined rs
      → length rs ≡ 1000
      → ev.payload ≡ top_campaign walk stray rs
      → IsPlausible ev
  top-IsPlausible [] ev h n e = absurd (omega arith)
  top-IsPlausible (r ∷ rs) ev h n e =
      let top = top_campaign walk stray (r ∷ rs) in
      let all = views-eq-length (r ∷ rs) h in
      let (counted, above) = top_campaign_best walk keeps stray r rs (omega (arith, all, n)) in
      let enough = views-le 100 top.view_count (r ∷ rs) (joined-Below (r ∷ rs) h) above in
      let some_views : 0 < tally top.campaign_id (r ∷ rs) =
        omega (arith, enough, counted, all, n) in
      rw e (
        tally-lt top.campaign_id (r ∷ rs) h some_views,
        omega (arith, enough, all, n),
        omega (arith, counted, tally-le-views top.campaign_id (r ∷ rs), all, n),
      )

  owed_plausible :
      (w : CountWindow CampaignResult CampaignResult) (xs : List (Event CampaignResult))
      → w.window_size ≡ 1000
      → w.aggr ≡ top_campaign walk stray
      → IsJoined w.buffer
      → length w.buffer < 1000
      → IsJoined xs
      → AllPlausible (owed w xs)
  unfolding add fired
  owed_plausible w [] size aggr h n k = tt
  owed_plausible w (ev ∷ xs) size aggr h n (k, ks) =
      let w' = add w ev in
      let h' = IsJoined-append w.buffer (ev ∷ []) h (k, tt) in
      let n' = length-append w.buffer (ev ∷ []) in
      elim (Bool-cases (leb w.window_size (length w'.buffer))) [
        | inl f ↦ rw f (
          top-IsPlausible w'.buffer (fired w' ev) h' (ground (arith, n', f))
              (ap (λ g. g w'.buffer) aggr),
          owed_plausible (record w' { buffer = [] }) xs size aggr tt (omega arith) ks,
        )
        | inr f ↦ rw f (owed_plausible w' xs size aggr h' (ground (arith, n', f)) ks)
      ]

  promise_plausible :
      (q2 : SpscQueue (Event AdEvent)) (q3 : SpscQueue (Event CampaignResult))
      (xs : List (Event AdEvent))
      → items q2 ≡ []
      → items q3 ≡ []
      → AdsExist xs
      → AllPlausible (promise operators (operators_at_rest walk stray q2 q3) xs)
  unfolding operators operators_at_rest Map.stage Filter.stage CountWindow.stage
  promise_plausible q2 q3 xs e2 e3 h =
      rw (e2, e3)
        (owed_plausible
          (record {
            window_size = 1000;
            aggr = top_campaign walk stray;
            buffer = [];
            window_start_ts = 0;
          })
          (Map.owed join (Filter.owed is_view xs)) refl refl tt (omega arith) (joined xs h))

  module _ (d : Double) (buckets : ℕ) {R : Type 0} (draws : Draws R) (made_at : ℕ → ℕ)
      (seen_at : ℕ → ℕ) (m1 m2 : ℕ → Event AdEvent) (m3 m4 : ℕ → Event CampaignResult)
      (rng : R) where
    abbrev pub begin : Program walk stray d buckets draws made_at seen_at
    begin =
        program walk stray d buckets draws made_at seen_at rng (queue m1) (queue m2) (queue m3)
          (queue m4)

    pub assembled : assemble walk stray d buckets draws made_at seen_at rng m1 m2 m3 m4 ≡ some begin
    unfolding assemble
    assembled = rw (queue_made m1, queue_made m2, queue_made m3, queue_made m4)

    begin-IsFresh : IsFresh d R Totals operators begin
    unfolding program operators operators_at_rest Map.stage Filter.stage CountWindow.stage
    begin-IsFresh = record {
      sound_input = (queue-IsSound m1).0;
      sound_output = (queue-IsSound m4).0;
      sound_between = ((queue-IsSound m2).0, ((queue-IsSound m3).0, tt));
      no_input = (queue-IsSound m1).1;
      no_output = (queue-IsSound m4).1;
      nothing_made = refl;
      nothing_held = refl;
    }

    next_ad-AdsExist :
        ((r : R) → (draws.ad r).0 < 1000)
        → (s : List (Event AdEvent) × R) (n : ℕ) → AdsExist s.0
        → AdsExist (remembering (next_ad draws made_at) s n).1.0
    unfolding next_ad make
    next_ad-AdsExist range (made, r) n h = AdsExist-append made _ h (range r, tt)

    abbrev Delivers : List Turn → Program walk stray d buckets draws made_at seen_at → Type 0
    Delivers ts start =
        let w = run d R Totals operators start ts in
        (out : List (Event CampaignResult)) × (w.sink.seen
          ≡ consumed (record_result buckets seen_at) no_totals out)
        × (out ++ under_way d R Totals operators w
            ≡ promise operators start.state w.source.captured.0)
        × AllPlausible out

    begin-Delivers : ((r : R) → (draws.ad r).0 < 1000) → (ts : List Turn) → Delivers ts begin
    unfolding program
    begin-Delivers range ts =
        let (out, seen, balance) =
          run_delivers d R Totals operators (next_ad draws made_at) begin ts refl begin-IsFresh in
        let exist =
          run-captured d R Totals operators (next_ad draws made_at)
            (λ (s : List (Event AdEvent) × R). AdsExist s.0) (next_ad-AdsExist range) begin ts refl
            begin-IsFresh tt in
        let made = (run d R Totals operators begin ts).source.captured.0 in
        let all =
          promise_plausible (queue m2) (queue m3) made (queue-IsSound m2).1 (queue-IsSound m3).1
            exist in
        (out, seen, balance, plausible_prefix out _ (subst⁻¹ AllPlausible balance all))

    -- Where the generator of random numbers draws the advertisements from 0 to 999, and the walk over
    -- the counts meets exactly the entries: once the program is assembled, in any memory, and however its
    -- operators are scheduled, the sink records, in order and each once, events `out`, which with those
    -- under way are exactly what the operators make of all the advertisements drawn. These are results
    -- that name one of the 100 campaigns and give it between 10 and 1000 views.
    pub results_plausible :
        ((r : R) → (draws.ad r).0 < 1000)
        → (ts : List Turn) (start : Program walk stray d buckets draws made_at seen_at)
        → assemble walk stray d buckets draws made_at seen_at rng m1 m2 m3 m4 ≡ some start
        → let w = run d R Totals operators start ts in
          (out : List (Event CampaignResult)) × (w.sink.seen
            ≡ consumed (record_result buckets seen_at) no_totals out)
          × (out ++ under_way d R Totals operators w
              ≡ promise operators start.state w.source.captured.0)
          × AllPlausible out
    results_plausible range ts start e =
        let same : begin ≡ start = cc (e, assembled) in
        subst (Delivers ts) same (begin-Delivers range ts)
