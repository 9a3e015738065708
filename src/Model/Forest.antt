-- ===== src/Model/Forest.antt =====
-- `IsolationForest` of include/klstream/model/isolation_forest.hpp: training and the score of a point.
-- `none` is an access outside an array, or a loop that does not end.
pub mod Scores
pub mod Storage
use mathlib.Core.Option
use klstream.Prelude.{
  ℕ, zero, suc, ◌+◌, max, min, ◌%◌, ◌^◌, ltb, if◌then◌else◌, Option, none, some, List, [], ◌∷◌,
  length, get_elem?, ◌>>=◌,
}
use klstream.Core.Double.{Double}
use klstream.Model.Random.{Float, Maths, Random}
use klstream.Model.Tree.{Point, IsolationTree, build, c_factor, path_length}

-- The numbers from `i` on, `n` of them.
abbrev pub upto : ℕ → ℕ → List ℕ
upto i zero = []
upto i (suc n) = i ∷ upto (i + 1) n

abbrev pub take {ℓ} : {A : Type ℓ} → ℕ → List A → List A
take zero xs = []
take (suc n) [] = []
take (suc n) (x ∷ xs) = x ∷ take n xs

-- `points[indices[i]]` for each of these.
unfoldable pub gather : {A : Type 0} → List A → List ℕ → Option (List A)
gather points [] = some []
gather points (i ∷ is) = do p ← get_elem? points i; ps ← gather points is; some (p ∷ ps)

-- `std::min(psi, static_cast<int>(n))` for a size of 64 bits, as many rounds as a loop up to it makes: the
-- cast keeps 32 bits, and what then has the sign bit is below 0.
unfoldable pub sample_size : ℕ → ℕ → ℕ
sample_size psi n = let low = n % 2 ^ 32 in if ltb low (2 ^ 31) then min psi low else 0

module _ (fl : Float) (rand : Random fl) (dim : ℕ) (d : Double) (m : Maths d) where
  pub record IsolationForest : Type 0 where
    pub n_estimators : ℕ
    pub psi : ℕ
    pub rng : rand.State
    pub c_psi : d.Carrier
    pub trees : List (IsolationTree fl)

  -- The constructor.
  unfoldable pub new : ℕ → ℕ → ℕ → IsolationForest
  new n_estimators sub_sample_size seed = record {
    n_estimators = n_estimators;
    psi = sub_sample_size;
    rng = rand.seeded seed;
    c_psi = d.decimal 10 1;
    trees = [];
  }

  -- One round of the loop of `fit`.
  unfoldable pub train_one :
      List (Point fl) → ℕ → ℕ → rand.State → Option (IsolationTree fl × rand.State)
  unfolding sample_size
  train_one points psi height_limit rng =
      let (indices, rng') = rand.shuffle (upto 0 (length points)) rng in
      gather points (take (sample_size psi (length points)) indices) >>= λ sample.
      some (build fl rand dim sample height_limit rng')

  -- The rounds left.
  unfoldable pub train :
      ℕ → List (Point fl) → ℕ → ℕ → rand.State → Option (List (IsolationTree fl) × rand.State)
  train zero points psi height_limit rng = some ([], rng)
  train (suc n) points psi height_limit rng = train_one points psi height_limit rng >>= λ made.
      train n points psi height_limit made.1 >>= λ others. some (made.0 ∷ others.0, others.1)

  unfoldable pub fit : List (Point fl) → IsolationForest → Option IsolationForest
  fit points f =
      let height_limit = m.ceil_log2 (max 2 f.psi) in
      train f.n_estimators points f.psi height_limit f.rng >>= λ made.
      some (record f { trees = made.0; rng = made.1; c_psi = c_factor fl d m f.psi })

  -- The loop of `anomaly_score`, with the total so far.
  unfoldable pub total_path : List (IsolationTree fl) → Point fl → d.Carrier → Option d.Carrier
  total_path [] x total = some total
  total_path (tree ∷ trees) x total =
      path_length fl d m tree x >>= λ len. total_path trees x (d.plus total len)

  -- The score for a total path length over so many trees.
  abbrev pub score_for : d.Carrier → ℕ → d.Carrier → d.Carrier
  score_for total n c_psi =
      m.pow (d.decimal 20 1) (d.over (d.neg (d.over total (d.of_nat n))) c_psi)

  unfoldable pub anomaly_score : IsolationForest → Point fl → Option d.Carrier
  anomaly_score f x =
      total_path f.trees x (d.of_nat 0) >>= λ total. some (score_for total (length f.trees) f.c_psi)
