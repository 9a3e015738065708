-- ===== src/Model/Tree/Shape.antt =====
-- The tree that the array of nodes stands for, and that `build` makes exactly this array.
use klstream.Prelude.{
  ℕ, zero, suc, ◌+◌, ◌≡◌, refl, arith, none, some, List, [], ◌∷◌, ◌++◌, length, length-append,
}
use klstream.Prelude.Int.{pos}
use klstream.Model.Random.{Float, Random}
use klstream.Model.Tree.{Point, Node, new_node, split_of}

pub data Tree (F : Type 0) : Type 0 where
  leaf : ℕ → Tree F
  fork : ℕ → F → Tree F → Tree F → Tree F

abbrev pub size : {F : Type 0} → Tree F → ℕ
size (leaf n) = 1
size (fork f s l r) = 1 + size l + size r

-- How many points lie in the leaves.
abbrev pub population : {F : Type 0} → Tree F → ℕ
population (leaf n) = n
population (fork f s l r) = population l + population r

module _ (fl : Float) where
  -- The tree in preorder, from the index `base` on.
  unfoldable pub encode : ℕ → Tree fl.Carrier → List (Node fl)
  encode base (leaf n) = record (new_node fl) { size_at_leaf = n } ∷ []
  encode base (fork f s l r) =
      record {
        feature = pos f;
        split = s;
        left = pos (base + 1);
        right = pos (base + 1 + size l);
        size_at_leaf = 0;
      }
      ∷ (encode (base + 1) l ++ encode (base + 1 + size l) r)

  pub length-encode : (base : ℕ) (t : Tree fl.Carrier) → length (encode base t) ≡ size t
  unfolding encode
  length-encode base (leaf n) = refl
  length-encode base (fork f s l r) = omega (
    arith,
    length-append {0} (encode (base + 1) l) (encode (base + 1 + size l) r),
    length-encode (base + 1) l,
    length-encode (base + 1 + size l) r,
  )

  module _ (rand : Random fl) (dim : ℕ) where
    -- The tree of nodes as a tree: the same choices in the same order.
    unfoldable pub grow : ℕ → List (Point fl) → rand.State → Tree fl.Carrier × rand.State
    grow zero points rng = (leaf (length points), rng)
    grow (suc levels) points rng =
        let (split, rng1) = split_of fl rand dim points rng in
        elim split [
          | none ↦ (leaf (length points), rng1)
          | some sp ↦
              let (l, rng2) = grow levels sp.left_pts rng1 in
              let (r, rng3) = grow levels sp.right_pts rng2 in (fork sp.feature sp.value l r, rng3)
        ]
