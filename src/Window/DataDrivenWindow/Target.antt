-- ===== src/Window/DataDrivenWindow/Target.antt =====
-- The size that `DataDrivenWindowOp` chooses.
use klstream.Prelude.{
  ℕ, ◌+◌, ◌-◌, ◌%◌, ◌^◌, ◌≤◌, ◌≡◌, ◌⊎◌, ap, ◌∙◌, arith, true, inl, inr, Bool-cases,
}
use mathlib.Core.Path.{subst}
use klstream.Core.Double.{Double}
use klstream.Window.Batch.{max_window_size}
use klstream.Window.DataDrivenWindow.{DataDrivenWindow, clamp, ratio, target_for}

-- Laws of `float` between whole numbers up to the size of a window, as rounding keeps the order and
-- gives these numbers exactly. A value that is not a number is not `le` itself.
pub record InterpolationLaws (d : Double) : Type 0 where
  pub order : (m n : ℕ) → m ≤ n → d.le (d.of_nat m) (d.of_nat n) ≡ true
  pub total :
      (x : d.Carrier) (n : ℕ)
      → d.le x x ≡ true
      → (d.lt x (d.of_nat n) ≡ true) ⊎ (d.le (d.of_nat n) x ≡ true)
  pub total_above :
      (x : d.Carrier) (n : ℕ)
      → d.le x x ≡ true
      → (d.lt (d.of_nat n) x ≡ true) ⊎ (d.le x (d.of_nat n) ≡ true)
  pub above_both :
      (x : d.Carrier) (m n : ℕ) → m ≤ n → d.lt (d.of_nat n) x ≡ true → d.lt (d.of_nat m) x ≡ true
  pub below_both :
      (x : d.Carrier) (m n : ℕ) → m ≤ n → d.lt x (d.of_nat m) ≡ true → d.lt x (d.of_nat n) ≡ true
  pub times_mono :
      (f g : d.Carrier) (n : ℕ)
      → n ≤ max_window_size
      → d.le (d.of_nat 0) f ≡ true
      → d.le f g ≡ true
      → d.le g (d.of_nat 1) ≡ true
      → d.le (d.times f (d.of_nat n)) (d.times g (d.of_nat n)) ≡ true
  pub times_zero : (n : ℕ) → n ≤ max_window_size → d.times (d.of_nat 0) (d.of_nat n) ≡ d.of_nat 0
  pub times_one : (n : ℕ) → n ≤ max_window_size → d.times (d.of_nat 1) (d.of_nat n) ≡ d.of_nat n
  pub minus_mono :
      (x y : d.Carrier) (n : ℕ)
      → n ≤ max_window_size
      → d.le x y ≡ true
      → d.le (d.minus (d.of_nat n) y) (d.minus (d.of_nat n) x) ≡ true
  pub minus_exact :
      (m n : ℕ) → n ≤ max_window_size → m ≤ n → d.minus (d.of_nat n) (d.of_nat m) ≡ d.of_nat (n - m)
  pub truncate_between :
      (x : d.Carrier) (m n : ℕ)
      → n ≤ max_window_size
      → d.le (d.of_nat m) x ≡ true
      → d.le x (d.of_nat n) ≡ true
      → (m ≤ d.truncate x) × (d.truncate x ≤ n)

module _ (d : Double) (laws : InterpolationLaws d) where
  abbrev fraction : DataDrivenWindow d → d.Carrier
  fraction w = clamp d (ratio d w) (d.of_nat 0) (d.of_nat 1)

  -- The size lies within the bounds. It is the largest unless the ratio is above 0, and the smallest
  -- unless the ratio is below 1.
  abbrev pub Interpolates : DataDrivenWindow d → ℕ → Type 0
  Interpolates w t =
      (w.w_min ≤ t)
      × (t ≤ w.w_max)
      × ((d.lt (d.of_nat 0) (ratio d w) ≡ true) ⊎ (t ≡ w.w_max))
      × ((d.lt (ratio d w) (d.of_nat 1) ≡ true) ⊎ (t ≡ w.w_min))

  fraction_bounds :
      (w : DataDrivenWindow d)
      → d.le (ratio d w) (ratio d w) ≡ true
      → (d.le (d.of_nat 0) (fraction w) ≡ true)
        × (d.le (fraction w) (d.of_nat 1) ≡ true)
        × ((d.lt (d.of_nat 0) (ratio d w) ≡ true) ⊎ (d.le (fraction w) (d.of_nat 0) ≡ true))
        × ((d.lt (ratio d w) (d.of_nat 1) ≡ true) ⊎ (d.le (d.of_nat 1) (fraction w) ≡ true))
  fraction_bounds w number =
      let r = ratio d w in
      elim (Bool-cases (d.lt r (d.of_nat 0))) [
        | inl below ↦ rw below (
          laws.order 0 0 (omega arith),
          laws.order 0 1 (omega arith),
          inr (laws.order 0 0 (omega arith)),
          inl (laws.below_both r 0 1 (omega arith) below),
        )
        | inr not_below ↦ elim (Bool-cases (d.lt (d.of_nat 1) r)) [
          | inl above ↦
              rw (not_below, above)
                (
                  laws.order 0 1 (omega arith),
                  laws.order 1 1 (omega arith),
                  inl (laws.above_both r 0 1 (omega arith) above),
                  inr (laws.order 1 1 (omega arith)),
                )
          | inr not_above ↦
              rw (not_below, not_above)
                (
                  ground (arith, laws.total r 0 number),
                  ground (arith, laws.total_above r 1 number),
                  laws.total_above r 0 number,
                  laws.total r 1 number,
                )
        ]
      ]

  -- The value before the cast.
  abbrev exact_size : DataDrivenWindow d → d.Carrier
  exact_size w = d.minus (d.of_nat w.w_max) (d.times (fraction w) (d.of_nat (w.w_max - w.w_min)))

  pub target_for-Interpolates :
      (w : DataDrivenWindow d)
      → w.w_min ≤ w.w_max
      → w.w_max ≤ max_window_size
      → d.le (ratio d w) (ratio d w) ≡ true
      → Interpolates w (target_for d w)
  unfolding target_for
  target_for-Interpolates w ordered small number =
      let n = w.w_max - w.w_min in
      let few : n ≤ max_window_size = omega (arith, small) in
      let span : (w.w_max + 2 ^ 32 - w.w_min) % 2 ^ 32 ≡ n = omega (arith, small, ordered) in
      let part = λ (f : d.Carrier). d.times f (d.of_nat n) in
      let rest = λ (x : d.Carrier). d.minus (d.of_nat w.w_max) x in
      let all : rest (d.of_nat 0) ≡ d.of_nat w.w_max =
        laws.minus_exact 0 w.w_max small (omega arith) ∙ ap d.of_nat (omega arith) in
      let least : rest (d.of_nat n) ≡ d.of_nat w.w_min =
        laws.minus_exact n w.w_max small (omega arith) ∙ ap d.of_nat (omega (arith, ordered)) in
      let (low, high, at_low, at_high) = fraction_bounds w number in
      let x = exact_size w in
      let mono : (f g : d.Carrier)
          → d.le (d.of_nat 0) f ≡ true
          → d.le f g ≡ true
          → d.le g (d.of_nat 1) ≡ true
          → d.le (rest (part g)) (rest (part f)) ≡ true =
        λ f g l h u.
          laws.minus_mono (part f) (part g) w.w_max small (laws.times_mono f g n few l h u) in
      let zero_zero = laws.order 0 0 (omega arith) in
      let zero_one = laws.order 0 1 (omega arith) in
      let one_one = laws.order 1 1 (omega arith) in
      let top : rest (part (d.of_nat 0)) ≡ d.of_nat w.w_max =
        ap rest (laws.times_zero n few) ∙ all in
      let bottom : rest (part (d.of_nat 1)) ≡ d.of_nat w.w_min =
        ap rest (laws.times_one n few) ∙ least in
      let above : d.le (d.of_nat w.w_min) x ≡ true =
        subst (λ y. d.le y x ≡ true) bottom (mono (fraction w) (d.of_nat 1) low high one_one) in
      let below : d.le x (d.of_nat w.w_max) ≡ true =
        subst (λ y. d.le x y ≡ true) top (mono (d.of_nat 0) (fraction w) zero_zero low high) in
      let (ge, le) = laws.truncate_between x w.w_min w.w_max small above below in
      rw (target_for, span)
        (
          ge,
          le,
          elim at_low [
            | inl h ↦ inl h
            | inr h ↦
                let up : d.le (d.of_nat w.w_max) x ≡ true =
                  subst (λ y. d.le y x ≡ true) top
                    (mono (fraction w) (d.of_nat 0) low h zero_one) in
                let (most, _) = laws.truncate_between x w.w_max w.w_max small up below in
                inr (omega (arith, le, most))
          ],
          elim at_high [
            | inl h ↦ inl h
            | inr h ↦
                let down : d.le x (d.of_nat w.w_min) ≡ true =
                  subst (λ y. d.le x y ≡ true) bottom
                    (mono (d.of_nat 1) (fraction w) zero_one h high) in
                let (_, fewest) =
                  laws.truncate_between x w.w_min w.w_min (omega (arith, ordered, small)) above
                    down in
                inr (omega (arith, ge, fewest))
          ],
        )
