-- ===== src/Core/Double.antt =====
-- What the code does with a `double`. The values and operations are a parameter of what uses them; a
-- theorem names the facts of the arithmetic that it needs.
use klstream.Prelude.{ℕ, Bool, if◌then◌else◌}

pub record Double : Type 1 where
  pub Carrier : Type 0
  pub of_nat : ℕ → Carrier  -- static_cast<double>
  pub decimal : ℕ → ℕ → Carrier  -- the literal of so many units of 10^-k
  pub seconds : ℕ → Carrier  -- duration<double> of so many nanoseconds
  pub plus : Carrier → Carrier → Carrier
  pub neg : Carrier → Carrier
  pub minus : Carrier → Carrier → Carrier
  pub times : Carrier → Carrier → Carrier
  pub over : Carrier → Carrier → Carrier
  pub truncate : Carrier → ℕ  -- static_cast to an unsigned type
  pub lt : Carrier → Carrier → Bool
  pub le : Carrier → Carrier → Bool

-- `std::min(a, b)`
abbrev pub min_of : (d : Double) → d.Carrier → d.Carrier → d.Carrier
min_of d a b = if d.lt b a then b else a
