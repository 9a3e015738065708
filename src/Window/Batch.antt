-- ===== src/Window/Batch.antt =====
-- `FeatureVector`, `WindowBatch` and `DetectionResult` of include/klstream/window/types.hpp. The type of
-- a `float` is a parameter. The array of points is a function from addresses, of which the first 256 are the array.
-- To write behind it is undefined; the model then leaves the points as they are, and what is proved of
-- batches stays within the array.
use klstream.Prelude.{ℕ, ◌+◌, Bool, List, [], ◌∷◌, ◌==◌, leb, ltb, if◌then◌else◌, ◌%◌, ◌^◌}
use klstream.Core.SpscQueue.{store}

pub record FeatureVector (F : Type 0) : Type 0 where
  pub log_return : F
  pub rolling_vol : F
  pub order_imbalance : F
  pub spread_bps : F
  pub volume : F

pub record WindowBatch (F : Type 0) : Type 0 where
  pub points : ℕ → FeatureVector F
  pub count : ℕ
  pub first_seq : ℕ
  pub last_seq : ℕ

pub record DetectionResult (R F : Type 0) : Type 0 where
  pub max_score : R
  pub window_size_used : ℕ
  pub first_seq : ℕ
  pub last_seq : ℕ
  pub flagged_seq : ℕ
  pub occupancy_at_decision : F

abbrev pub max_window_size : ℕ
max_window_size = 256

module _ {F : Type 0} where
  unfoldable pub to_point : FeatureVector F → List F
  to_point fv = fv.log_return ∷ fv.rolling_vol ∷ fv.order_imbalance ∷ fv.spread_bps ∷ fv.volume ∷ []

  unfoldable pub push_back : FeatureVector F → ℕ → WindowBatch F → WindowBatch F
  push_back fv seq b = record {
    points = if ltb b.count max_window_size then store b.points b.count fv else b.points;
    count = (b.count + 1) % 2 ^ 32;
    first_seq = if b.count == 0 then seq else b.first_seq;
    last_seq = seq;
  }

  unfoldable pub full : ℕ → WindowBatch F → Bool
  full target_size b = leb target_size b.count
