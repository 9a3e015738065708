-- ===== src/Model/Forest/Storage.antt =====
-- `save` and `load` of the forest and its trees. The object representation of a value is a parameter:
-- its bytes, and how they are read back. A stream is its bytes; `none` is a stream that is too short.
use klstream.Prelude.{
  ℕ, zero, suc, ◌≡◌, refl, Option, some, List, [], ◌∷◌, ◌++◌, append_assoc, length, ◌>>=◌,
}
use klstream.Prelude.Int.{ℤ}
use klstream.Core.Double.{Double}
use klstream.Model.Random.{Float, Maths, Random}
use klstream.Model.Tree.{Node, IsolationTree}
use klstream.Model.Forest.{IsolationForest}

-- The bytes of a value of the type, for the values that it `holds`.
pub record Bytes (A : Type 0) : Type 1 where
  pub holds : A → Type 0
  pub write : A → List ℕ
  pub read : List ℕ → Option (A × List ℕ)
  pub read-write : (a : A) (rest : List ℕ) → holds a → read (write a ++ rest) ≡ some (a, rest)

-- A field after the other.
module _ {A : Type 0} (b : Bytes A) where
  unfoldable pub write_all : List A → List ℕ
  write_all [] = []
  write_all (x ∷ xs) = b.write x ++ write_all xs

  unfoldable pub read_all : ℕ → List ℕ → Option (List A × List ℕ)
  read_all zero bytes = some ([], bytes)
  read_all (suc n) bytes =
      b.read bytes >>= λ first. read_all n first.1 >>= λ others. some (first.0 ∷ others.0, others.1)

  abbrev pub HoldsAll : List A → Type 0
  HoldsAll [] = Unit {0}
  HoldsAll (x ∷ xs) = b.holds x × HoldsAll xs

  read_all-write_all :
      (xs : List A) (rest : List ℕ)
      → HoldsAll xs
      → read_all (length xs) (write_all xs ++ rest) ≡ some (xs, rest)
  unfolding read_all write_all
  read_all-write_all [] rest h = refl
  read_all-write_all (x ∷ xs) rest (h, hs) =
      rw
        (
          append_assoc (b.write x) (write_all xs) rest,
          b.read-write x (write_all xs ++ rest) h,
          read_all-write_all xs rest hs,
        )
        refl

pub record Layout (fl : Float) (d : Double) : Type 1 where
  pub size_bytes : Bytes ℕ  -- std::size_t
  pub count_bytes : Bytes ℕ  -- an int that is a count
  pub int_bytes : Bytes ℤ
  pub node_bytes : Bytes (Node fl)
  pub double_bytes : Bytes d.Carrier

module _ (fl : Float) (d : Double) (y : Layout fl d) where
  unfoldable pub save_tree : IsolationTree fl → List ℕ
  save_tree t =
      y.size_bytes.write (length t.nodes)
      ++ (write_all y.node_bytes t.nodes ++ y.int_bytes.write t.root)

  unfoldable pub load_tree : List ℕ → Option (IsolationTree fl × List ℕ)
  load_tree bytes = y.size_bytes.read bytes >>= λ n. read_all y.node_bytes n.0 n.1 >>= λ ns.
      y.int_bytes.read ns.1 >>= λ root. some (record { nodes = ns.0; root = root.0 }, root.1)

  abbrev pub HoldsTree : IsolationTree fl → Type 0
  HoldsTree t =
      y.size_bytes.holds (length t.nodes) × HoldsAll y.node_bytes t.nodes × y.int_bytes.holds t.root

  pub load-save_tree :
      (t : IsolationTree fl) (rest : List ℕ)
      → HoldsTree t
      → load_tree (save_tree t ++ rest) ≡ some (t, rest)
  unfolding load_tree save_tree
  load-save_tree t rest (n, ns, r) =
      let nodes = write_all y.node_bytes t.nodes in
      let root = y.int_bytes.write t.root in
      rw
        (
          append_assoc (y.size_bytes.write (length t.nodes)) (nodes ++ root) rest,
          y.size_bytes.read-write (length t.nodes) ((nodes ++ root) ++ rest) n,
          append_assoc nodes root rest,
          read_all-write_all y.node_bytes t.nodes (root ++ rest) ns,
          y.int_bytes.read-write t.root rest r,
        )
        refl

  -- A tree as a value that is written and read.
  abbrev pub tree_bytes : Bytes (IsolationTree fl)
  tree_bytes = record {
    holds = HoldsTree;
    write = save_tree;
    read = load_tree;
    read-write = load-save_tree;
  }

  module _ (rand : Random fl) (dim : ℕ) (m : Maths d) where
    unfoldable pub save : IsolationForest fl rand dim d m → List ℕ
    save f =
        y.count_bytes.write f.n_estimators
        ++ (y.count_bytes.write f.psi
            ++ (y.double_bytes.write f.c_psi
                ++ (y.size_bytes.write (length f.trees) ++ write_all tree_bytes f.trees)))

    -- `g` is the forest that is read into.
    unfoldable pub load :
        IsolationForest fl rand dim d m → List ℕ → Option (IsolationForest fl rand dim d m × List ℕ)
    load g bytes = y.count_bytes.read bytes >>= λ n. y.count_bytes.read n.1 >>= λ psi.
        y.double_bytes.read psi.1 >>= λ c. y.size_bytes.read c.1 >>= λ k.
        read_all tree_bytes k.0 k.1 >>= λ ts.
        some (record g { n_estimators = n.0; psi = psi.0; c_psi = c.0; trees = ts.0 }, ts.1)

    -- The values of the forest have a representation.
    pub record HoldsForest (f : IsolationForest fl rand dim d m) : Type 0 where
      pub n_estimators_fits : y.count_bytes.holds f.n_estimators
      pub psi_fits : y.count_bytes.holds f.psi
      pub c_psi_fits : y.double_bytes.holds f.c_psi
      pub n_trees_fits : y.size_bytes.holds (length f.trees)
      pub trees_fit : HoldsAll tree_bytes f.trees

    -- A saved forest is read back whole into any forest, which keeps nothing of its own but the state
    -- of its random numbers; and what stands behind it in the stream is left there.
    pub load-save :
        (f g : IsolationForest fl rand dim d m) (rest : List ℕ)
        → HoldsForest f
        → load g (save f ++ rest) ≡ some (record f { rng = g.rng }, rest)
    unfolding load save
    load-save f g rest h =
        let ts = write_all tree_bytes f.trees in
        let k = y.size_bytes.write (length f.trees) in
        let c = y.double_bytes.write f.c_psi in
        let p = y.count_bytes.write f.psi in
        let n = y.count_bytes.write f.n_estimators in
        let flat : (n ++ (p ++ (c ++ (k ++ ts)))) ++ rest ≡ n ++ (p ++ (c ++ (k ++ (ts ++ rest)))) =
          simp append_assoc in
        rw
          (
            flat,
            y.count_bytes.read-write f.n_estimators (p ++ (c ++ (k ++ (ts ++ rest))))
                h.n_estimators_fits,
            y.count_bytes.read-write f.psi (c ++ (k ++ (ts ++ rest))) h.psi_fits,
            y.double_bytes.read-write f.c_psi (k ++ (ts ++ rest)) h.c_psi_fits,
            y.size_bytes.read-write (length f.trees) (ts ++ rest) h.n_trees_fits,
            read_all-write_all tree_bytes f.trees rest h.trees_fit,
          )
          refl
