-- ===== src/Window/Inference.antt =====
-- `InferenceOp` of include/klstream/window/inference_op.hpp. The forest is known by its score of a
-- point. `out_ev.key` is never set in the code: `stray_key` stands for what it then is.
use klstream.Prelude.{
  ℕ, zero, suc, ◌+◌, ◌<◌, ◌≤◌, ◌≡◌, ◌==◌, sym, ap, ◌∙◌, ◌⊎◌, inl, inr, refl, arith, Bool, true,
  false, List, map, if◌then◌else◌, Bool-cases, add_word,
}
use klstream.Core.Double.{Double}
use klstream.Core.Event.{Event}
use klstream.Core.SpscQueue.{SpscQueue}
use klstream.Core.SpscQueue.Client.{IsSound}
use klstream.Operators.Outlet.{emit, emit-Pays}
use klstream.Operators.Stage.{Ticked, Keeps}
use klstream.Operators.Node
use klstream.Operators.Node.{Node, Handler, Pays, promise}
use klstream.Window.Batch.{WindowBatch, DetectionResult, to_point}

module _ (d : Double) where
  -- The loop over the points from `i` on, with the best so far.
  unfoldable pub scan : (ℕ → d.Carrier) → ℕ → ℕ → d.Carrier → ℕ → d.Carrier × ℕ
  scan score zero i max_score max_idx = (max_score, max_idx)
  scan score (suc left) i max_score max_idx =
      let (best, at) = if d.lt max_score (score i) then (score i, i) else (max_score, max_idx) in
      scan score left (i + 1) best at

module _ (d : Double) (F : Type 0) where
  pub record Inference : Type 0 where
    pub anomaly_score : List F → d.Carrier
    pub zero_occupancy : F  -- 0.0f
    pub stray_key : Event (WindowBatch F) → ℕ

  abbrev pub InferenceOp : Type 0
  InferenceOp = Node Inference (DetectionResult d.Carrier F)

  abbrev pub score_of : Inference → WindowBatch F → ℕ → d.Carrier
  score_of op wb i = op.anomaly_score (to_point (wb.points i))

  -- The event that goes out for a window.
  unfoldable pub verdict : Inference → Event (WindowBatch F) → Event (DetectionResult d.Carrier F)
  verdict op in_ev =
      let wb = in_ev.payload in
      let (max_score, max_idx) = scan d (score_of op wb) wb.count 0 (d.neg (d.decimal 10 1)) 0 in
      record {
        timestamp_ns = in_ev.timestamp_ns;
        key = op.stray_key in_ev;
        seq = in_ev.seq;
        payload = record {
          max_score = max_score;
          window_size_used = wb.count;
          first_seq = wb.first_seq;
          last_seq = wb.last_seq;
          flagged_seq = add_word wb.first_seq max_idx;
          occupancy_at_decision = op.zero_occupancy;
        };
      }

  unfoldable pub handle : Handler Inference (WindowBatch F) (DetectionResult d.Carrier F)
  handle op in_ev o output =
      let (status, o', output') = emit (verdict op in_ev) o output in (status, op, o', output')

  unfoldable pub tick :
      InferenceOp
      → SpscQueue (Event (WindowBatch F))
      → SpscQueue (Event (DetectionResult d.Carrier F))
      → Ticked InferenceOp (WindowBatch F) (DetectionResult d.Carrier F)
  unfolding handle
  tick = Node.tick handle

  -- What it owes for the windows to come.
  abbrev pub owed :
      Inference → List (Event (WindowBatch F)) → List (Event (DetectionResult d.Carrier F))
  owed op xs = map (verdict op) xs

  handle-Pays : Pays owed handle
  unfolding handle
  handle-Pays op ev o output rest v h = emit-Pays (verdict op ev) o output (owed op rest) v h

  -- Each window gets one verdict, in its order, whatever the queues do: a tick leaves the same in all.
  pub inference_tick-Keeps :
      (n : InferenceOp) (input : SpscQueue (Event (WindowBatch F)))
      (output : SpscQueue (Event (DetectionResult d.Carrier F)))
      (future : List (Event (WindowBatch F)))
      → IsSound input
      → IsSound output
      → Keeps (promise owed) n input output future (tick n input output)
  unfolding tick
  inference_tick-Keeps = Node.tick-Keeps owed handle handle-Pays

-- What the comparison of `double`s obeys, not-a-number included.
pub record OrderLaws (d : Double) : Type 0 where
  pub not_below_itself : (x : d.Carrier) → d.lt x x ≡ false
  pub above_all : (x y z : d.Carrier) → d.lt x y ≡ true → d.lt x z ≡ false → d.lt y z ≡ false

module _ (d : Double) (laws : OrderLaws d) where
  -- What the loop over `n` points from `i` on has found.
  record IsBest (score : ℕ → d.Carrier) (n i : ℕ) (old : d.Carrier) (old_at : ℕ) (best : d.Carrier)
      (at : ℕ) : Type 0 where
    none_above : (j : ℕ) → i ≤ j → j < i + n → d.lt best (score j) ≡ false
    attained :
        ((best ≡ old) × (at ≡ old_at))
        ⊎ ((best ≡ score at) × (i ≤ at) × (at < i + n) × (d.lt old best ≡ true))

  clash : {b : Bool} → b ≡ false → b ≡ true → ⊥
  clash f t = cc

  from_here :
      (score : ℕ → d.Carrier) (i end : ℕ) (best : d.Carrier)
      → d.lt best (score i) ≡ false
      → ((j : ℕ) → i + 1 ≤ j → j < end → d.lt best (score j) ≡ false)
      → (j : ℕ) → i ≤ j
      → j < end
      → d.lt best (score j) ≡ false
  from_here score i end best here later j le lt = elim (Bool-cases (j == i)) [
    | inl e ↦ let same : j ≡ i = ground arith in rw same here
    | inr e ↦ later j (ground arith) lt
  ]

  -- A point that is better than all before it.
  take-IsBest :
      (score : ℕ → d.Carrier) (n i : ℕ) (old : d.Carrier) (old_at : ℕ) (best : d.Carrier) (at : ℕ)
      → d.lt old (score i) ≡ true
      → IsBest score n (i + 1) (score i) i best at
      → IsBest score (suc n) i old old_at best at
  take-IsBest score n i old old_at best at h v = record {
    none_above =
        from_here score i (i + suc n) best
          (elim v.attained [
            | inl (e, a) ↦ rw e (laws.not_below_itself (score i))
            | inr (e, a, b, c) ↦
                laws.above_all (score i) best (score i) c (laws.not_below_itself (score i))
          ])
          (λ j le lt. v.none_above j le (omega arith));
    attained = inr (elim v.attained [
      | inl (e, a) ↦ (e ∙ ap score (sym a), omega arith, omega arith, rw e h)
      | inr (e, a, b, c) ↦ (
        e,
        omega arith,
        omega arith,
        elim (Bool-cases (d.lt old best)) [
          | inl t ↦ t
          | inr f ↦ absurd (clash (laws.above_all old (score i) best h f) c)
        ],
      )
    ]);
  }

  -- A point that is not.
  pass-IsBest :
      (score : ℕ → d.Carrier) (n i : ℕ) (old : d.Carrier) (old_at : ℕ) (best : d.Carrier) (at : ℕ)
      → d.lt old (score i) ≡ false
      → IsBest score n (i + 1) old old_at best at
      → IsBest score (suc n) i old old_at best at
  pass-IsBest score n i old old_at best at h v = record {
    none_above =
        from_here score i (i + suc n) best
          (elim v.attained [
            | inl (e, a) ↦ rw e h
            | inr (e, a, b, c) ↦ laws.above_all old best (score i) c h
          ])
          (λ j le lt. v.none_above j le (omega arith));
    attained = elim v.attained [
      | inl e ↦ inl e
      | inr (e, a, b, c) ↦ inr (e, omega arith, omega arith, c)
    ];
  }

  scan-IsBest :
      (score : ℕ → d.Carrier) (n i : ℕ) (old : d.Carrier) (old_at : ℕ)
      → IsBest score n i old old_at (scan d score n i old old_at).0 (scan d score n i old old_at).1
  unfolding scan
  scan-IsBest score zero i old old_at = record {
    none_above = λ j le lt. absurd (omega arith);
    attained = inl (refl, refl);
  }
  scan-IsBest score (suc n) i old old_at = elim (Bool-cases (d.lt old (score i))) [
    | inl h ↦
        let v = scan-IsBest score n (i + 1) (score i) i in
        rw (scan, h) (take-IsBest score n i old old_at _ _ h v)
    | inr h ↦
        let v = scan-IsBest score n (i + 1) old old_at in
        rw (scan, h) (pass-IsBest score n i old old_at _ _ h v)
  ]

  module _ {F : Type 0} where
    -- For a window that is not empty, and whose first score is above the -1.0 that the search starts
    -- with, the verdict names a point of the window by its distance from the first number, has the
    -- score of that point, and no point of the window scores higher.
    pub verdict_best :
        (op : Inference d F) (ev : Event (WindowBatch F))
        → 0 < ev.payload.count
        → d.lt (d.neg (d.decimal 10 1)) (score_of d F op ev.payload 0) ≡ true
        → let r = (verdict d F op ev).payload in
          (at : ℕ) × (at < ev.payload.count)
          × (r.flagged_seq ≡ add_word ev.payload.first_seq at)
          × (r.max_score ≡ score_of d F op ev.payload at)
          × ((j : ℕ)
              → j < ev.payload.count
              → d.lt r.max_score (score_of d F op ev.payload j) ≡ false)
    unfolding verdict
    verdict_best op ev some_point above =
        let score = score_of d F op ev.payload in
        let start = d.neg (d.decimal 10 1) in
        let v = scan-IsBest score ev.payload.count 0 start 0 in
        (
          (scan d score ev.payload.count 0 start 0).1,
          elim v.attained [ inl (e, a) ↦ omega arith | inr (e, a, b, c) ↦ omega arith ],
          refl,
          elim v.attained [
            | inl (e, a) ↦ absurd (clash (v.none_above 0 (omega arith) (omega arith)) (rw e above))
            | inr (e, a, b, c) ↦ e
          ],
          λ j lt. v.none_above j (omega arith) (omega arith),
        )
