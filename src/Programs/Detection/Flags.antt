-- ===== src/Programs/Detection/Flags.antt =====
-- The tick that a result of adaptive_window/main.cpp names.
use mathlib.Core.Path.{subst, subst⁻¹}
use klstream.Prelude.{
  ℕ, zero, suc, ◌+◌, ◌-◌, ◌≤◌, ◌<◌, ◌≡◌, refl, ap, sym, ◌∙◌, inl, inr, arith, true, false, some,
  List, [], ◌∷◌, ◌++◌, map, append_assoc, leb, length, length-append, get_elem?, word, Bool-cases,
}
use klstream.Core.Double.{Double}
use klstream.Core.Event.{Event}
use klstream.Core.SpscQueue.{SpscQueue}
use klstream.Core.SpscQueue.Client.{items}
use klstream.Operators.CountWindow
use klstream.Operators.CountWindow.{CountWindow, add, fired, owed}
use klstream.Operators.Pipeline.{promise}
use klstream.Window.Batch.{FeatureVector, WindowBatch, DetectionResult, to_point}
use klstream.Window.Inference.{Inference, OrderLaws, verdict, score_of, verdict_best}
use klstream.Programs.Detection.{fill_batch, operators, operators_at_rest, inference_stage}
use klstream.Programs.Detection.Batches.{
  IsConsecutive, count-fill_batch, points-fill_batch, last_seq-fill_batch,
  first_seq-fill_batch_empty,
}

module _ {ℓ} {A : Type ℓ} where
  get_elem?-append_right :
      (xs ys : List A) (i : ℕ) → get_elem? (xs ++ ys) (length xs + i) ≡ get_elem? ys i
  get_elem?-append_right [] ys i = ap (get_elem? ys) (omega arith)
  get_elem?-append_right (x ∷ xs) ys i =
      let next : length (x ∷ xs) + i ≡ suc (length xs + i) = omega arith in
      ap (get_elem? (x ∷ (xs ++ ys))) next ∙ get_elem?-append_right xs ys i

  get_elem?-append_left :
      (xs ys : List A) (i : ℕ) → i < length xs → get_elem? (xs ++ ys) i ≡ get_elem? xs i
  get_elem?-append_left [] ys i lt = absurd (omega arith)
  get_elem?-append_left (x ∷ xs) ys zero lt = refl
  get_elem?-append_left (x ∷ xs) ys (suc i) lt = get_elem?-append_left xs ys i (omega (arith, lt))

  get_elem?-some : (xs : List A) (i : ℕ) → i < length xs → (x : A) × (get_elem? xs i ≡ some x)
  get_elem?-some [] i lt = absurd (omega arith)
  get_elem?-some (x ∷ xs) zero lt = (x, refl)
  get_elem?-some (x ∷ xs) (suc i) lt = get_elem?-some xs i (omega (arith, lt))

module _ {F : Type 0} where
  seq_at :
      (s : ℕ) (es : List (Event (FeatureVector F))) (i : ℕ) {e : Event (FeatureVector F)}
      → IsConsecutive s es
      → get_elem? es i ≡ some e
      → e.seq ≡ s + i
  seq_at s [] i h g = cc
  seq_at s (x ∷ es) zero (h, hs) g = ground arith
  seq_at s (x ∷ es) (suc i) (h, hs) g = omega (arith, seq_at (s + 1) es i hs g)

  IsConsecutive-append :
      (s : ℕ) (xs ys : List (Event (FeatureVector F)))
      → IsConsecutive s (xs ++ ys)
      → IsConsecutive s xs × IsConsecutive (s + length xs) ys
  IsConsecutive-append s [] ys h = (tt, subst (λ n. IsConsecutive n ys) (omega arith) h)
  IsConsecutive-append s (x ∷ xs) ys (h, hs) =
      let (l, r) = IsConsecutive-append (s + 1) xs ys hs in
      let same : s + 1 + length xs ≡ s + length (x ∷ xs) = omega arith in
      ((h, l), subst (λ n. IsConsecutive n ys) same r)

module _ (d : Double) (laws : OrderLaws d) {F : Type 0} (fresh : WindowBatch F) (op : Inference d F)
    (empty : fresh.count ≡ 0)
    (positive : (fv : FeatureVector F)
      → d.lt (d.neg (d.decimal 10 1)) (op.anomaly_score (to_point fv)) ≡ true) where
  abbrev score : Event (FeatureVector F) → d.Carrier
  score e = op.anomaly_score (to_point e.payload)

  -- The result stands for 128 ticks in a row, names one of them by its number, has its score, and no
  -- tick among these 128 scores higher.
  abbrev pub Flags : List (Event (FeatureVector F)) → Event (DetectionResult d.Carrier F) → Type 0
  Flags ticks ev =
      let r = ev.payload in
      (r.window_size_used ≡ 128)
      × (r.last_seq ≡ r.first_seq + 127)
      × ((i : ℕ) × (e : Event (FeatureVector F)) × (get_elem? ticks i ≡ some e)
          × (e.seq ≡ r.flagged_seq)
          × (r.max_score ≡ score e))
      × ((i : ℕ) (e : Event (FeatureVector F))
          → get_elem? ticks i ≡ some e
          → r.first_seq ≤ e.seq
          → e.seq ≤ r.last_seq
          → d.lt r.max_score (score e) ≡ false)

  point_at :
      (buf : List (Event (FeatureVector F))) (i : ℕ) (e : Event (FeatureVector F))
      → length buf ≤ 256
      → get_elem? buf i ≡ some e
      → (fill_batch fresh buf).points i ≡ e.payload
  point_at buf i e small g =
      let same : i ≡ fresh.count + i = omega (arith, empty) in
      ap (fill_batch fresh buf).points same
      ∙ points-fill_batch fresh buf i e (omega (arith, empty, small)) g

  -- The score of a point of the window is that of the tick that it comes from.
  score_at :
      (ev : Event (WindowBatch F)) (buf : List (Event (FeatureVector F))) (i : ℕ)
      (e : Event (FeatureVector F))
      → length buf ≡ 128
      → ev.payload ≡ fill_batch fresh buf
      → get_elem? buf i ≡ some e
      → score_of d F op ev.payload i ≡ score e
  score_at ev buf i e n made g =
      ap (λ (b : WindowBatch F). op.anomaly_score (to_point (b.points i))) made
      ∙ ap (λ (fv : FeatureVector F). op.anomaly_score (to_point fv))
          (point_at buf i e (omega (arith, n)) g)

  -- A tick among 128 is in their list.
  within :
      (s : ℕ) (pre buf rest : List (Event (FeatureVector F))) (i : ℕ) {e : Event (FeatureVector F)}
      → IsConsecutive s (pre ++ (buf ++ rest))
      → length buf ≡ 128
      → get_elem? (pre ++ (buf ++ rest)) i ≡ some e
      → s + length pre ≤ e.seq
      → e.seq ≤ s + length pre + 127
      → (j : ℕ) × (j < 128) × (get_elem? buf j ≡ some e)
  within s pre buf rest i {e} h n g lo hi =
      let here = seq_at s (pre ++ (buf ++ rest)) i h g in
      let j : ℕ = i - length pre in
      let back : length pre + j ≡ i = omega (arith, here, lo) in
      let lt : j < 128 = omega (arith, here, lo, hi) in
      (
        j,
        lt,
        sym (get_elem?-append_left buf rest j (omega (arith, lt, n)))
            ∙ sym (get_elem?-append_right pre (buf ++ rest) j)
            ∙ ap (get_elem? (pre ++ (buf ++ rest))) back
            ∙ g,
      )

  -- The verdict on a window that stands behind the ticks `pre`.
  window_Flags :
      (s : ℕ) (pre : List (Event (FeatureVector F))) (x : Event (FeatureVector F))
      (xs rest : List (Event (FeatureVector F))) (ev : Event (WindowBatch F))
      → length (x ∷ xs) ≡ 128
      → ev.payload ≡ fill_batch fresh (x ∷ xs)
      → IsConsecutive s (pre ++ (x ∷ xs ++ rest))
      → s + length (pre ++ (x ∷ xs ++ rest)) ≤ word
      → Flags (pre ++ (x ∷ xs ++ rest)) (verdict d F op ev)
  unfolding verdict
  window_Flags s pre x xs rest ev n e h bound =
      let buf = x ∷ xs in
      let wb = fill_batch fresh buf in
      let hp = (IsConsecutive-append s pre (buf ++ rest) h).1 in
      let hb = (IsConsecutive-append (s + length pre) buf rest hp).0 in
      let small : length buf ≤ 256 = omega (arith, n) in
      let count : ev.payload.count ≡ 128 =
        ap (λ (b : WindowBatch F). b.count) e
        ∙ omega (arith, count-fill_batch fresh buf (omega (arith, empty, small)), empty, n) in
      let first : ev.payload.first_seq ≡ s + length pre =
        ap (λ (b : WindowBatch F). b.first_seq) e
        ∙ first_seq-fill_batch_empty fresh x xs empty (omega (arith, n))
        ∙ hb.0 in
      let last : ev.payload.last_seq ≡ ev.payload.first_seq + 127 =
        ap (λ (b : WindowBatch F). b.last_seq) e
        ∙ omega (arith, last_seq-fill_batch fresh x xs (s + length pre) hb, first, n) in
      let (at, lt, flagged, max, above) =
        verdict_best d laws op ev (omega (arith, count)) (positive (ev.payload.points 0)) in
      let (t, g) = get_elem?-some buf at (omega (arith, lt, count, n)) in
      (
        count,
        last,
        (
          length pre + at,
          t,
          get_elem?-append_right pre (buf ++ rest) at
              ∙ get_elem?-append_left buf rest at (omega (arith, lt, count, n))
              ∙ g,
          omega (
            arith,
            seq_at (s + length pre) buf at hb g,
            flagged,
            first,
            bound,
            length-append pre (buf ++ rest),
            length-append buf rest,
            lt,
            count,
            n,
          ),
          max ∙ score_at ev buf at t n e g,
        ),
        λ i t' g' lo hi.
            let (j, lt', gj) =
              within s pre buf rest i h n g' (omega (arith, first, lo))
                (omega (arith, first, last, hi)) in
            ap (d.lt _) (sym (score_at ev buf j t' n e gj)) ∙ above j (omega (arith, lt', count)),
      )

  full_Flags :
      (s : ℕ) (ticks pre buf rest : List (Event (FeatureVector F))) (ev : Event (WindowBatch F))
      → length buf ≡ 128
      → ev.payload ≡ fill_batch fresh buf
      → ticks ≡ pre ++ (buf ++ rest)
      → IsConsecutive s ticks
      → s + length ticks ≤ word
      → Flags ticks (verdict d F op ev)
  full_Flags s ticks pre [] rest ev n made e h bound = absurd (omega arith)
  full_Flags s ticks pre (x ∷ xs) rest ev n made e h bound =
      subst⁻¹ (λ ts. Flags ts (verdict d F op ev)) e
        (window_Flags s pre x xs rest ev n made (subst (IsConsecutive s) e h)
          (omega (arith, ap (length {0}) e, bound)))

  abbrev pub AllFlags :
      List (Event (FeatureVector F)) → List (Event (DetectionResult d.Carrier F)) → Type 0
  AllFlags ticks [] = Unit {0}
  AllFlags ticks (r ∷ rs) = Flags ticks r × AllFlags ticks rs

  pub AllFlags-prefix :
      (ticks : List (Event (FeatureVector F))) (xs ys : List (Event (DetectionResult d.Carrier F)))
      → AllFlags ticks (xs ++ ys)
      → AllFlags ticks xs
  AllFlags-prefix ticks [] ys h = tt
  AllFlags-prefix ticks (x ∷ xs) ys (h, hs) = (h, AllFlags-prefix ticks xs ys hs)

  owed-AllFlags :
      (s : ℕ) (ticks pre : List (Event (FeatureVector F)))
      (w : CountWindow (FeatureVector F) (WindowBatch F)) (xs : List (Event (FeatureVector F)))
      → w.window_size ≡ 128
      → w.aggr ≡ fill_batch fresh
      → length w.buffer < 128
      → ticks ≡ pre ++ (w.buffer ++ xs)
      → IsConsecutive s ticks
      → s + length ticks ≤ word
      → AllFlags ticks (map (verdict d F op) (owed w xs))
  unfolding add fired
  owed-AllFlags s ticks pre w [] size aggr n e h bound = tt
  owed-AllFlags s ticks pre w (ev ∷ xs) size aggr n e h bound =
      let w' = add w ev in
      let n' = length-append w.buffer (ev ∷ []) in
      let e' : ticks ≡ pre ++ (w'.buffer ++ xs) =
        e ∙ ap (λ l. pre ++ l) (sym (append_assoc w.buffer (ev ∷ []) xs)) in
      elim (Bool-cases (leb w.window_size (length w'.buffer))) [
        | inl f ↦ rw f (
          full_Flags s ticks pre w'.buffer xs (fired w' ev) (ground (arith, n', f))
              (ap (λ g. g w'.buffer) aggr) e' h bound,
          owed-AllFlags s ticks (pre ++ w'.buffer) (record w' { buffer = [] }) xs size aggr
              (omega arith) (e' ∙ sym (append_assoc pre w'.buffer xs)) h bound,
        )
        | inr f ↦
            rw f (owed-AllFlags s ticks pre w' xs size aggr (ground (arith, n', f)) e' h bound)
      ]

  pub promise_AllFlags :
      (s : ℕ) (q : SpscQueue (Event (WindowBatch F))) (no_window : Event (WindowBatch F))
      (no_result : Event (DetectionResult d.Carrier F)) (ticks : List (Event (FeatureVector F)))
      → items q ≡ []
      → IsConsecutive s ticks
      → s + length ticks ≤ word
      → AllFlags ticks
          (promise (operators d F) (operators_at_rest d F fresh op q no_window no_result) ticks)
  unfolding operators operators_at_rest inference_stage CountWindow.stage
  promise_AllFlags s q no_window no_result ticks e h bound = rw e (
      owed-AllFlags s ticks []
        (record { window_size = 128; aggr = fill_batch fresh; buffer = []; window_start_ts = 0 })
        ticks refl refl (omega arith) refl h bound)
