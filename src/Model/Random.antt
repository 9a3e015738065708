-- ===== src/Model/Random.antt =====
-- What the forest takes from the language and its library: `float` and its limits, the logarithm and
-- the power of `double`, and the generator of random numbers with what is drawn from it.
use klstream.Prelude.{ℕ, Bool, List}
use klstream.Core.Double.{Double}

pub record Float : Type 1 where
  pub Carrier : Type 0
  pub zero_float : Carrier
  pub highest : Carrier  -- numeric_limits<float>::max()
  pub lowest : Carrier
  pub lt : Carrier → Carrier → Bool

pub record Maths (d : Double) : Type 0 where
  pub log : d.Carrier → d.Carrier
  pub pow : d.Carrier → d.Carrier → d.Carrier
  pub ceil_log2 : ℕ → ℕ  -- static_cast<int>(ceil(log2(x)))

pub record Random (fl : Float) : Type 1 where
  pub State : Type 0
  pub seeded : ℕ → State  -- mt19937 from its seed
  pub index : ℕ → State → ℕ × State  -- uniform_int_distribution from 0, below the bound
  pub between : fl.Carrier → fl.Carrier → State → fl.Carrier × State
  pub shuffle : List ℕ → State → List ℕ × State
