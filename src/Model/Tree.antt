-- ===== src/Model/Tree.antt =====
-- `IsolationTree` of include/klstream/model/isolation_forest.hpp: the array of nodes, its construction
-- and the path of a point. A point is a function from the numbers of its features; those from
-- `dim` on are outside the array. An `int` that is an index is an integer, with -1 for unset.
pub mod Shape
pub mod Paths
use mathlib.Core.Option
use klstream.Prelude.{
  ℕ, zero, suc, ◌+◌, ◌-◌, Bool, true, false, ◌||◌, Option, none, some, List, [], ◌∷◌, ◌++◌,
  if◌then◌else◌, length, get_elem?, leb, ◌==◌,
}
use klstream.Prelude.Int.{ℤ, pos, negsuc}
use klstream.Core.Double.{Double}
use klstream.Model.Random.{Float, Maths, Random}

module _ (fl : Float) where
  abbrev pub Point : Type 0
  Point = ℕ → fl.Carrier

  pub record Node : Type 0 where
    pub feature : ℤ
    pub split : fl.Carrier
    pub left : ℤ
    pub right : ℤ
    pub size_at_leaf : ℕ

  -- The initial values of the fields.
  abbrev pub new_node : Node
  new_node = record {
    feature = negsuc 0;
    split = fl.zero_float;
    left = negsuc 0;
    right = negsuc 0;
    size_at_leaf = 0;
  }

  pub record IsolationTree : Type 0 where
    pub nodes : List Node
    pub root : ℤ

  -- The least and the greatest value of a feature.
  unfoldable pub range_of : ℕ → List Point → fl.Carrier → fl.Carrier → fl.Carrier × fl.Carrier
  range_of f [] mn mx = (mn, mx)
  range_of f (p ∷ ps) mn mx =
      range_of f ps (if fl.lt (p f) mn then p f else mn) (if fl.lt mx (p f) then p f else mx)

  -- The points below the split value, and the others, in their order.
  unfoldable pub part : ℕ → fl.Carrier → List Point → List Point × List Point
  part f s [] = ([], [])
  part f s (p ∷ ps) =
      let (ls, rs) = part f s ps in if fl.lt (p f) s then (p ∷ ls, rs) else (ls, p ∷ rs)

  -- A leaf is pushed for the points, and its index is the result.
  unfoldable pub push_leaf : {S : Type 0} → List Point → List Node → S → ℤ × List Node × S
  push_leaf points nodes rng =
      let nodes' = nodes ++ record new_node { size_at_leaf = length points } ∷ [] in
      (pos (length nodes' - 1), nodes', rng)

  -- `nodes_[self_idx].left = left_idx; nodes_[self_idx].right = right_idx`
  unfoldable pub link : ℕ → ℤ → ℤ → List Node → List Node
  link i l r [] = []
  link zero l r (n ∷ ns) = record n { left = l; right = r } ∷ ns
  link (suc i) l r (n ∷ ns) = n ∷ link i l r ns

  -- How a set of points is split.
  pub record Split : Type 0 where
    pub feature : ℕ
    pub value : fl.Carrier
    pub left_pts : List Point
    pub right_pts : List Point

  abbrev pub is_empty : List Point → Bool
  is_empty [] = true
  is_empty (p ∷ ps) = false

  module _ (rand : Random fl) (dim : ℕ) where
    -- The attempts left to find a feature that is not constant, with its range.
    unfoldable pub pick :
        ℕ → List Point → rand.State → Option (ℕ × fl.Carrier × fl.Carrier) × rand.State
    pick zero points rng = (none, rng)
    pick (suc attempts) points rng =
        let (f, rng') = rand.index dim rng in
        let (mn, mx) = range_of f points fl.highest fl.lowest in
        let rest = pick attempts points rng' in
        if fl.lt mn mx then (some (f, mn, mx), rng') else rest

    -- The split of a node's points, or `none` where the node becomes a leaf.
    unfoldable pub split_of : List Point → rand.State → Option Split × rand.State
    unfolding pick
    split_of points rng =
        if leb (length points) 1
        then (none, rng)
        else (let (picked, rng') = pick 8 points rng in
            elim picked [
              | none ↦ (none, rng')
              | some (f, lo, hi) ↦
                  let (s, rng'') = rand.between lo hi rng' in
                  let (ls, rs) = part f s points in
                  if is_empty ls || is_empty rs then (none, rng'') else (
                    some (record { feature = f; value = s; left_pts = ls; right_pts = rs }),
                    rng'',
                  )
            ])

    -- `build_node` with so many levels left to the height limit.
    unfoldable pub build_node : ℕ → List Point → List Node → rand.State → ℤ × List Node × rand.State
    unfolding push_leaf link
    build_node zero points nodes rng = push_leaf points nodes rng
    build_node (suc levels) points nodes rng =
        let (split, rng1) = split_of points rng in
        elim split [
          | none ↦ push_leaf points nodes rng1
          | some sp ↦
              let self_idx = length nodes in
              let n = record new_node { feature = pos sp.feature; split = sp.value } in
              let (left_idx, nodes2, rng2) = build_node levels sp.left_pts (nodes ++ n ∷ []) rng1 in
              let (right_idx, nodes3, rng3) = build_node levels sp.right_pts nodes2 rng2 in
              (pos self_idx, link self_idx left_idx right_idx nodes3, rng3)
        ]

    unfoldable pub build : List Point → ℕ → rand.State → IsolationTree × rand.State
    build points height_limit rng =
        let (root, nodes, rng') = build_node height_limit points [] rng in
        (record { nodes = nodes; root = root }, rng')

  -- The loop of `path_length`: the depth and the size of the leaf that it ends at. `none` is an access
  -- outside the array or the end of the fuel.
  unfoldable pub walk : ℕ → List Node → Point → ℤ → ℕ → Option (ℕ × ℕ)
  walk zero nodes x node_idx depth = none
  walk (suc fuel) nodes x (negsuc k) depth = none
  walk (suc fuel) nodes x (pos i) depth = elim (get_elem? nodes i) [
    | none ↦ none
    | some n ↦ elim n.feature [
      | negsuc zero ↦ some (depth, n.size_at_leaf)
      | negsuc (suc k) ↦ none
      | pos f ↦ walk fuel nodes x (if fl.lt (x f) n.split then n.left else n.right) (depth + 1)
    ]
  ]

  module _ (d : Double) (m : Maths d) where
    unfoldable pub c_factor : ℕ → d.Carrier
    c_factor n =
        if leb n 1
        then d.of_nat 0
        else (if n == 2
            then d.decimal 10 1
            else d.minus
                (d.times (d.decimal 20 1)
                  (d.plus (m.log (d.of_nat (n - 1))) (d.decimal 5772156649015329 16)))
                (d.over (d.times (d.decimal 20 1) (d.of_nat (n - 1))) (d.of_nat n)))

    unfoldable pub path_length : IsolationTree → Point → Option d.Carrier
    path_length tree x =
        Option.map (λ e. d.plus (d.of_nat e.0) (c_factor e.1))
          (walk (length tree.nodes) tree.nodes x tree.root 0)
