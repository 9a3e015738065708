-- ===== src/Programs/Detection/Batches.antt =====
-- The batch that the fixed window of adaptive_window/main.cpp makes of its events.
use klstream.Prelude.{
  ℕ, zero, suc, ◌+◌, ◌<◌, ◌≤◌, ◌≡◌, refl, ap, ◌∙◌, arith, some, List, [], ◌∷◌, length, get_elem?,
}
use klstream.Core.Event.{Event}
use klstream.Window.Batch.{FeatureVector, WindowBatch, max_window_size, push_back}
use klstream.Programs.Detection.{fill_batch}

module _ {F : Type 0} where
  -- The numbers of the events go up by one from `s` on.
  abbrev pub IsConsecutive : ℕ → List (Event (FeatureVector F)) → Type 0
  IsConsecutive s [] = Unit {0}
  IsConsecutive s (e ∷ es) = (e.seq ≡ s) × IsConsecutive (s + 1) es

  pub count-fill_batch :
      (b : WindowBatch F) (es : List (Event (FeatureVector F)))
      → b.count + length es ≤ max_window_size
      → (fill_batch b es).count ≡ b.count + length es
  unfolding fill_batch push_back
  count-fill_batch b [] small = omega arith
  count-fill_batch b (e ∷ es) small =
      omega (arith, count-fill_batch (push_back e.payload e.seq b) es (omega (arith, small)))

  -- The points already there stay.
  points_kept :
      (b : WindowBatch F) (es : List (Event (FeatureVector F))) (j : ℕ)
      → b.count + length es ≤ max_window_size
      → j < b.count
      → (fill_batch b es).points j ≡ b.points j
  unfolding fill_batch push_back
  points_kept b [] j small lt = refl
  points_kept b (e ∷ es) j small lt = ground (arith, points_kept (push_back e.payload e.seq b) es j)

  -- The event number i gives the point behind the first i.
  pub points-fill_batch :
      (b : WindowBatch F) (es : List (Event (FeatureVector F))) (i : ℕ)
      (e : Event (FeatureVector F))
      → b.count + length es ≤ max_window_size
      → get_elem? es i ≡ some e
      → (fill_batch b es).points (b.count + i) ≡ e.payload
  unfolding fill_batch push_back
  points-fill_batch b [] i e small h = cc
  points-fill_batch b (x ∷ es) zero e small h =
      ground (arith, points_kept (push_back x.payload x.seq b) es b.count)
  points-fill_batch b (x ∷ es) (suc i) e small h =
      let b' = push_back x.payload x.seq b in
      let same : b.count + suc i ≡ b'.count + i = omega (arith, small) in
      ap (fill_batch b' es).points same ∙ points-fill_batch b' es i e (omega (arith, small)) h

  pub first_seq-fill_batch :
      (b : WindowBatch F) (es : List (Event (FeatureVector F)))
      → b.count + length es ≤ max_window_size
      → 0 < b.count
      → (fill_batch b es).first_seq ≡ b.first_seq
  unfolding fill_batch push_back
  first_seq-fill_batch b [] small pos = refl
  first_seq-fill_batch b (x ∷ es) small pos =
      ground (arith, first_seq-fill_batch (push_back x.payload x.seq b) es)

  pub last_seq-fill_batch :
      (b : WindowBatch F) (x : Event (FeatureVector F)) (es : List (Event (FeatureVector F)))
      (s : ℕ)
      → IsConsecutive s (x ∷ es)
      → (fill_batch b (x ∷ es)).last_seq ≡ s + length es
  unfolding fill_batch push_back
  last_seq-fill_batch b x [] s (h, _) = omega (arith, h)
  last_seq-fill_batch b x (y ∷ es) s (h, hs) =
      omega (arith, last_seq-fill_batch (push_back x.payload x.seq b) y es (s + 1) hs)

  -- From an empty batch.
  pub first_seq-fill_batch_empty :
      (b : WindowBatch F) (x : Event (FeatureVector F)) (es : List (Event (FeatureVector F)))
      → b.count ≡ 0
      → length es + 1 ≤ max_window_size
      → (fill_batch b (x ∷ es)).first_seq ≡ x.seq
  unfolding fill_batch push_back
  first_seq-fill_batch_empty b x es empty small =
      ground (arith, first_seq-fill_batch (push_back x.payload x.seq b) es)
