-- ===== src/Programs/Detection/Results.antt =====
-- What the sink of adaptive_window/main.cpp gets with the fixed architecture.
use klstream.Prelude.{ℕ, ◌+◌, ◌≡◌, Option, none, some, List, length}
use klstream.Core.Double.{Double}
use klstream.Core.Event.{Event}
use klstream.Core.SpscQueue.{SpscQueue}
use klstream.Window.Batch.{FeatureVector}
use klstream.Window.Inference.{Inference}
use klstream.Programs.Network.{Network}
use klstream.Programs.Detection.Batches.{IsConsecutive}

module _ {F : Type 0} where
  -- A call of a generator that gives the number k next: nothing, or the event with this number.
  abbrev pub GivesOut : {G : Type 0} → (G → ℕ) → ℕ → Option (Event (FeatureVector F)) × G → Type 0
  GivesOut next k (none, g') = next g' ≡ k
  GivesOut next k (some ev, g') = (ev.seq ≡ k) × (next g' ≡ k + 1)

module _ {F G : Type 0} (gen : G → ℕ → Option (Event (FeatureVector F)) × G) (next : G → ℕ)
    (numbering : (g : G) (n : ℕ) → GivesOut next (next g) (gen g n)) where
  -- The events made are numbered from `s` on, up to the number that comes next.
  abbrev Continues : ℕ → List (Event (FeatureVector F)) × G → Type 0
  Continues s (made, g) = IsConsecutive s made × (next g ≡ s + length made)
