-- ===== src/Operators/TimeWindow/Due.antt =====
-- Which window a tick of `TumblingTimeWindow` puts out.
use klstream.Prelude.{
  ℕ, ◌+◌, ◌%◌, ◌≡◌, ◌≢◌, ◌⊎◌, refl, arith, true, false, List, ◌∷◌, [], ◌++◌, append-nil, inl, inr,
  Bool-cases, List-cases, Option-cases, ◌<◌, ◌≤◌, ◌↔◌, word,
}
use klstream.Core.Event.{Event}
use klstream.Core.SpscQueue.{SpscQueue, try_pop}
use klstream.Core.SpscQueue.Client.{IsSound, items}
use klstream.Operators.Outlet.{held, items-retry, items-emit}
use klstream.Operators.Node
use klstream.Operators.Node.{Node, Handler}
use klstream.Operators.TimeWindow.{
  TimeWindow, TumblingTimeWindow, is_expired, closed, reset_window, restarted, collect, expire,
  tick,
}

module _ {T Out : Type 0} where
  -- What a tick at `now` may put out: nothing, where an event is held back, nothing has arrived, or the
  -- time is not up; else one event for the elements of the window, dated back to when it was opened and
  -- numbered by the count, and then the window is empty, counted, and opened anew at `reopened`.
  abbrev pub PutsOut :
      ℕ → ℕ → TumblingTimeWindow T Out → TimeWindow T Out → List (Event Out) → Type 0
  PutsOut now reopened n own' new =
      let w = n.own in
      ((new ≡ [])
        × ((n.outlet.has_pending ≡ true) ⊎ (w.buffer ≡ []) ⊎ (now < w.window_open_ns + w.window_ns))
        × (own'.window_count ≡ w.window_count))
      ⊎ ((new
            ≡ record {
              timestamp_ns = w.window_open_ns;
              key = 0;
              seq = w.window_count;
              payload = w.aggr w.buffer;
            }
              ∷ [])
          × (n.outlet.has_pending ≡ false)
          × (w.buffer ≢ [])
          × (w.window_open_ns + w.window_ns ≤ now)
          × (own'.buffer ≡ [])
          × (own'.window_open_ns ≡ reopened)
          × (own'.window_count ≡ (w.window_count + 1) % word))

  take_one-count :
      (n : TumblingTimeWindow T Out) (input : SpscQueue (Event T)) (output : SpscQueue (Event Out))
      → n.outlet.has_pending ≡ false
      → let (status, n', input', output') = Node.take_one collect n input output in
        (output' ≡ output)
        × (n'.outlet.has_pending ≡ false)
        × (n'.own.window_count ≡ n.own.window_count)
  unfolding Node.take_one collect
  take_one-count n input output h = elim (Option-cases (try_pop input).0) [
    | inl e ↦ ground arith
    | inr (ev, e) ↦ ground arith
  ]

  -- The test in terms of time: while the clock has not gone back, the window's time is up once
  -- `window_ns` has gone by since it was opened.
  pub is_expired_iff :
      (now : ℕ) (w : TimeWindow T Out)
      → w.window_open_ns ≤ now
      → now < word
      → (is_expired now w ≡ true) ↔ (w.window_open_ns + w.window_ns ≤ now)
  unfolding is_expired
  is_expired_iff now w le lt = ground arith

  -- Where the clock has not gone back since the window was opened, a tick on a sound output queue puts
  -- behind what was put out or held back before exactly what is due: nothing where an event is held back,
  -- where nothing has arrived, or where `window_ns` has not gone by; else one event with the aggregate of
  -- the window's elements, the time it was opened at, key 0 and the count as its number, after which the
  -- window is empty, opened anew, and counted modulo 2 ^ 64.
  pub tick-due :
      (now reopened : ℕ) (n : TumblingTimeWindow T Out) (input : SpscQueue (Event T))
      (output : SpscQueue (Event Out))
      → IsSound output
      → n.own.window_open_ns ≤ now
      → now < word
      → let (status, n', input', output') = tick now reopened n input output in
        (new : List (Event Out)) × (items output' ++ held n'.outlet
          ≡ (items output ++ held n.outlet) ++ new)
        × PutsOut now reopened n n'.own new
  unfolding tick expire restarted reset_window closed is_expired
  tick-due now reopened n input output vo back lt =
      let ripe = is_expired_iff now n.own back lt in
      elim (Bool-cases n.outlet.has_pending) [
        | inl h ↦ (
          [],
          ground
              (arith, items-retry n.outlet output vo h, append-nil (items output ++ held n.outlet)),
          inl (refl, inl h, ground (arith, h)),
        )
        | inr h ↦ elim (List-cases n.own.buffer) [
          | inl e ↦ (
            [],
            ground (
              arith,
              take_one-count n input output h,
              take_one-count (record n { own = reset_window reopened n.own }) input output h,
              append-nil (items output),
            ),
            inl (
              refl,
              inr (inl e),
              ground (
                arith,
                take_one-count n input output h,
                take_one-count (record n { own = reset_window reopened n.own }) input output h,
              ),
            ),
          )
          | inr (x, l, e) ↦ elim (Bool-cases (is_expired now n.own)) [
            | inl f ↦ (
              closed n.own ∷ [],
              ground (
                arith,
                items-emit (closed n.own) n.outlet output vo h,
                append-nil (items output),
              ),
              inr (refl, h, (λ b. cc), ripe.0 f, ground arith, ground arith, ground arith),
            )
            | inr f ↦ (
              [],
              ground (arith, take_one-count n input output h, append-nil (items output)),
              inl (
                refl,
                inr (inr (ground (arith, f))),
                ground (arith, take_one-count n input output h),
              ),
            )
          ]
        ]
      ]
