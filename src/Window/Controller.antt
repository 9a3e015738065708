-- ===== src/Window/Controller.antt =====
-- `AdaptiveWindowController` of include/klstream/window/adaptive_window_op.hpp. The direction of the
-- last change is an enumeration where the code has -1, 0 and 1.
use klstream.Prelude.{
  ℕ, ◌≤◌, ◌≡◌, refl, arith, Bool, true, false, if◌then◌else◌, min, max, Bool-cases, inl, inr,
  add_word,
}
use klstream.Core.Double.{Double}

pub data Direction : Type 0 where
  shrinking : Direction
  neutral : Direction
  growing : Direction

-- `last_dir_ != 0 && dir != last_dir_`
abbrev pub turns : Direction → Direction → Bool
turns neutral dir = false
turns shrinking shrinking = false
turns shrinking neutral = true
turns shrinking growing = true
turns growing shrinking = true
turns growing neutral = true
turns growing growing = false

module _ (d : Double) where
  open d use {Carrier, of_nat, times, lt, truncate}

  pub record AdaptiveWindowController : Type 0 where
    pub w_min : ℕ
    pub w_max : ℕ
    pub occ_low : Carrier
    pub occ_high : Carrier
    pub shrink_factor : Carrier
    pub grow_factor : Carrier
    pub current_w : ℕ
    pub shrink_events : ℕ
    pub grow_events : ℕ
    pub direction_changes : ℕ
    pub last_dir : Direction

  -- The constructor.
  unfoldable pub new : ℕ → ℕ → Carrier → Carrier → Carrier → Carrier → AdaptiveWindowController
  new w_min w_max occ_low occ_high shrink_factor grow_factor = record {
    w_min = w_min;
    w_max = w_max;
    occ_low = occ_low;
    occ_high = occ_high;
    shrink_factor = shrink_factor;
    grow_factor = grow_factor;
    current_w = w_max;
    shrink_events = 0;
    grow_events = 0;
    direction_changes = 0;
    last_dir = neutral;
  }

  -- Where a reading lies; neutral is the dead band.
  unfoldable pub direction : AdaptiveWindowController → Carrier → Direction
  direction c ema_occupancy =
      if lt c.occ_high ema_occupancy
      then shrinking
      else (if lt ema_occupancy c.occ_low then growing else neutral)

  -- `track_direction` once `dir` is known.
  unfoldable pub turned : Direction → AdaptiveWindowController → AdaptiveWindowController
  turned neutral c = c
  turned shrinking c = record c {
    direction_changes =
        if turns c.last_dir shrinking then add_word c.direction_changes 1 else c.direction_changes;
    last_dir = shrinking;
  }
  turned growing c = record c {
    direction_changes =
        if turns c.last_dir growing then add_word c.direction_changes 1 else c.direction_changes;
    last_dir = growing;
  }

  unfoldable pub track_direction : Carrier → AdaptiveWindowController → AdaptiveWindowController
  track_direction ema_occupancy c = turned (direction c ema_occupancy) c

  -- The new size and its counter.
  unfoldable pub resize : Carrier → AdaptiveWindowController → AdaptiveWindowController
  resize ema_occupancy c =
      if lt c.occ_high ema_occupancy
      then record c {
        current_w = max c.w_min (truncate (times (of_nat c.current_w) c.shrink_factor));
        shrink_events = add_word c.shrink_events 1;
      }
      else (if lt ema_occupancy c.occ_low
          then record c {
            current_w = min c.w_max (truncate (times (of_nat c.current_w) c.grow_factor));
            grow_events = add_word c.grow_events 1;
          }
          else c)

  -- `update`; its result is `current_w` afterwards.
  unfoldable pub update : Carrier → AdaptiveWindowController → AdaptiveWindowController
  update ema_occupancy c = track_direction ema_occupancy (resize ema_occupancy c)

  -- What the sizes up to `w_max` become under the two factors.
  pub record FactorLaws (c : AdaptiveWindowController) : Type 0 where
    pub shrinks : (w : ℕ) → w ≤ c.w_max → truncate (times (of_nat w) c.shrink_factor) ≤ w
    pub grows : (w : ℕ) → w ≤ c.w_max → w ≤ truncate (times (of_nat w) c.grow_factor)

  -- How the size moves in a direction.
  abbrev pub Moves : Direction → ℕ → ℕ → Type 0
  Moves shrinking w w' = w' ≤ w
  Moves neutral w w' = w' ≡ w
  Moves growing w w' = w ≤ w'

  turned-current_w :
      (dir : Direction) (c : AdaptiveWindowController) → (turned dir c).current_w ≡ c.current_w
  unfolding turned
  turned-current_w neutral c = refl
  turned-current_w shrinking c = refl
  turned-current_w growing c = refl

  update-current_w :
      (r : Carrier) (c : AdaptiveWindowController) → (update r c).current_w ≡ (resize r c).current_w
  unfolding update track_direction
  update-current_w r c = turned-current_w (direction (resize r c) r) (resize r c)

  -- By the stated laws of the factors an update keeps the size between `w_min` and `w_max`, does not
  -- make it larger above the dead band of readings nor smaller below it, and keeps it within.
  pub update-Moves :
      (r : Carrier) (c : AdaptiveWindowController)
      → FactorLaws c
      → c.w_min ≤ c.current_w
      → c.current_w ≤ c.w_max
      → (c.w_min ≤ (update r c).current_w)
        × ((update r c).current_w ≤ c.w_max)
        × Moves (direction c r) c.current_w (update r c).current_w
  unfolding resize direction
  update-Moves r c laws low high = elim (Bool-cases (lt c.occ_high r)) [
    | inl h ↦ ground (arith, update-current_w r c, laws.shrinks c.current_w high)
    | inr h ↦ elim (Bool-cases (lt r c.occ_low)) [
      | inl g ↦ ground (arith, update-current_w r c, laws.grows c.current_w high)
      | inr g ↦ ground (arith, update-current_w r c)
    ]
  ]
