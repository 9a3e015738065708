-- ===== src/Model/Forest/Scores.antt =====
-- A forest that has been trained scores every point.
use klstream.Prelude.{ℕ, ◌≤◌, ◌<◌, ◌≡◌, some, List, [], ◌∷◌, length}
use klstream.Core.Double.{Double}
use klstream.Model.Random.{Float, Maths, Random}
use klstream.Model.Tree.{Point, IsolationTree, c_factor, path_length}
use klstream.Model.Tree.Shape.{Tree, population}
use klstream.Model.Tree.Paths.{height, descend}
use klstream.Model.Forest.{upto}

-- All numbers are below the bound.
abbrev pub AllBelow : ℕ → List ℕ → Type 0
AllBelow n [] = Unit {0}
AllBelow n (i ∷ is) = (i < n) × AllBelow n is

-- What shuffling the first numbers gives: as many numbers, of the same range.
pub record ShuffleLaws (fl : Float) (rand : Random fl) : Type 0 where
  pub as_many : (n : ℕ) (rng : rand.State) → length (rand.shuffle (upto 0 n) rng).0 ≡ n
  pub in_range : (n : ℕ) (rng : rand.State) → AllBelow n (rand.shuffle (upto 0 n) rng).0

module _ (fl : Float) (rand : Random fl) (dim : ℕ) (d : Double) (m : Maths d) where
  -- The path length that the tree gives to a point.
  abbrev pub length_in : Tree fl.Carrier → Point fl → d.Carrier
  length_in t x = d.plus (d.of_nat (descend fl t x).0) (c_factor fl d m (descend fl t x).1)

  -- The stored tree gives the path lengths of this tree, which has so many points and levels.
  abbrev pub Stores : ℕ → ℕ → IsolationTree fl → Tree fl.Carrier → Type 0
  Stores points levels tree t =
      ((x : Point fl) → path_length fl d m tree x ≡ some (length_in t x))
      × (height t ≤ levels)
      × (population t ≡ points)

  abbrev pub AllStore : ℕ → ℕ → List (IsolationTree fl) → List (Tree fl.Carrier) → Type 0
  AllStore points levels [] [] = Unit {0}
  AllStore points levels (tree ∷ trees) (t ∷ ts) =
      Stores points levels tree t × AllStore points levels trees ts
  AllStore points levels _ _ = ⊥

  -- The sum that the loop takes, from the left.
  abbrev pub sum_paths : List (Tree fl.Carrier) → Point fl → d.Carrier → d.Carrier
  sum_paths [] x total = total
  sum_paths (t ∷ ts) x total = sum_paths ts x (d.plus total (length_in t x))
