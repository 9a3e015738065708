-- ===== src/Model/Tree/Paths.antt =====
-- The paths of points through a tree that `build` has made: they end at a leaf, within the height limit.
use klstream.Prelude.{
  ℕ, zero, suc, ◌+◌, ◌≤◌, ◌≡◌, refl, arith, some, List, [], ◌∷◌, ◌++◌, append_assoc, length,
  length-append, get_elem?, inl, inr, Option-cases, Bool-cases, max, if◌then◌else◌,
}
use klstream.Prelude.Int.{pos}
use klstream.Core.Double.{Double}
use klstream.Model.Random.{Float, Random}
use klstream.Model.Tree.{Point, Node, Split, split_of, pick, part, walk}
use klstream.Model.Tree.Shape.{Tree, leaf, fork, size, population, encode, length-encode, grow}

abbrev pub height : {F : Type 0} → Tree F → ℕ
height (leaf n) = 0
height (fork f s l r) = suc (max (height l) (height r))

module _ (fl : Float) where
  -- How deep the leaf of a point is, and how many points of the sample lie in it.
  unfoldable pub descend : Tree fl.Carrier → Point fl → ℕ × ℕ
  descend (leaf n) x = (0, n)
  descend (fork f s l r) x =
      let (dl, nl) = descend l x in
      let (dr, nr) = descend r x in if fl.lt (x f) s then (suc dl, nl) else (suc dr, nr)

  get_elem?-append :
      (pre post : List (Node fl)) (n : Node fl) (b : ℕ)
      → length pre ≡ b
      → get_elem? (pre ++ n ∷ post) b ≡ some n
  get_elem?-append [] post n b e = rw (← e) refl
  get_elem?-append (y ∷ pre) post n b e = rw (← e) (get_elem?-append pre post n (length pre) refl)

  length-snoc :
      (pre : List (Node fl)) (n : Node fl) (b : ℕ) → length pre ≡ b → length (pre ++ n ∷ []) ≡ b + 1
  length-snoc pre n b e = omega (arith, length-append {0} pre (n ∷ []))

  -- The walk through the array of a tree, wherever it stands, ends where the point belongs.
  pub walk-descend :
      (t : Tree fl.Carrier) (pre post : List (Node fl)) (x : Point fl) (fuel depth b : ℕ)
      → length pre ≡ b
      → size t ≤ fuel
      → walk fl fuel (pre ++ (encode fl b t ++ post)) x (pos b) depth
        ≡ some (depth + (descend t x).0, (descend t x).1)
  unfolding walk descend encode
  walk-descend (leaf n) pre post x zero depth b e h = absurd (omega arith)
  walk-descend (fork f s l r) pre post x zero depth b e h = absurd (omega arith)
  walk-descend (leaf n) pre post x (suc fuel) depth b e h =
      rw (get_elem?-append pre post _ b e, walk) (ground arith)
  walk-descend (fork f s l r) pre post x (suc fuel) depth b e h =
      let n : Node fl = record {
        feature = pos f;
        split = s;
        left = pos (b + 1);
        right = pos (b + 1 + size l);
        size_at_leaf = 0;
      } in
      let el = encode fl (b + 1) l in
      let er = encode fl (b + 1 + size l) r in
      let nodes = pre ++ n ∷ ((el ++ er) ++ post) in
      let to_left : nodes ≡ (pre ++ n ∷ []) ++ (el ++ (er ++ post)) = simp append_assoc in
      let to_right : nodes ≡ ((pre ++ n ∷ []) ++ el) ++ (er ++ post) = simp append_assoc in
      let at_left = length-snoc pre n b e in
      let at_right : length ((pre ++ n ∷ []) ++ el) ≡ b + 1 + size l =
        omega (arith, length-append {0} (pre ++ n ∷ []) el, length-encode fl (b + 1) l) in
      let left : walk fl fuel nodes x (pos (b + 1)) (depth + 1)
          ≡ some (depth + 1 + (descend l x).0, (descend l x).1) =
        rw to_left (
          walk-descend l (pre ++ n ∷ []) (er ++ post) x fuel (depth + 1) (b + 1) at_left
            (omega arith)) in
      let right : walk fl fuel nodes x (pos (b + 1 + size l)) (depth + 1)
          ≡ some (depth + 1 + (descend r x).0, (descend r x).1) =
        rw to_right (
          walk-descend r ((pre ++ n ∷ []) ++ el) post x fuel (depth + 1) (b + 1 + size l) at_right
            (omega arith)) in
      rw (get_elem?-append pre ((el ++ er) ++ post) n b e, walk)
        (elim (Bool-cases (fl.lt (x f) s)) [
          | inl c ↦ rw (c, left) (ground arith)
          | inr c ↦ rw (c, right) (ground arith)
        ])

  module _ (rand : Random fl) (dim : ℕ) where
    length-part :
        (f : ℕ) (s : fl.Carrier) (points : List (Point fl))
        → length (part fl f s points).0 + length (part fl f s points).1 ≡ length points
    unfolding part
    length-part f s [] = refl
    length-part f s (p ∷ ps) = ground (arith, length-part f s ps)

    length-split_of :
        (points : List (Point fl)) (rng : rand.State) (sp : Split fl)
        → (split_of fl rand dim points rng).0 ≡ some sp
        → length sp.left_pts + length sp.right_pts ≡ length points
    unfolding split_of
    length-split_of points rng sp e = elim (Option-cases (pick fl rand dim 8 points rng).0) [
      | inl none_left ↦ ground arith
      | inr ((f, lo, hi), picked) ↦
          ground
            (arith, length-part f (rand.between lo hi (pick fl rand dim 8 points rng).1).0 points)
    ]

    -- The tree is no higher than the limit, and its leaves hold the sample.
    pub grow_bounds :
        (levels : ℕ) (points : List (Point fl)) (rng : rand.State)
        → (height (grow fl rand dim levels points rng).0 ≤ levels)
          × (population (grow fl rand dim levels points rng).0 ≡ length points)
    unfolding grow
    grow_bounds zero points rng = omega arith
    grow_bounds (suc levels) points rng = elim (Option-cases (split_of fl rand dim points rng).0) [
      | inl e ↦ rw (e, grow) (omega arith)
      | inr (sp, e) ↦
          let rng1 = (split_of fl rand dim points rng).1 in
          let left = grow_bounds levels sp.left_pts rng1 in
          let right =
            grow_bounds levels sp.right_pts (grow fl rand dim levels sp.left_pts rng1).1 in
          rw (e, grow) (omega (arith, left, right, length-split_of points rng sp e))
    ]
