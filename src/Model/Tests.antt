-- ===== src/Model/Tests.antt =====
-- The theorems on trees and forests, with numbers for the `float`s, thousandths for the `double`s and
-- a counter for the generator of random numbers.
use klstream.Prelude.{
  ℕ, ◌+◌, ◌-◌, ◌*◌, ◌/◌, ◌%◌, ◌^◌, ◌≡◌, refl, Option, none, some, List, [], ◌∷◌, ◌++◌, ltb, leb,
  ◌==◌, if◌then◌else◌,
}
use klstream.Prelude.Int.{ℤ, pos, negsuc}
use klstream.Core.Double.{Double}
use klstream.Model.Random.{Float, Maths, Random}
use klstream.Model.Tree.{Point, Node, IsolationTree, new_node}
use klstream.Model.Tree.Shape.{Tree}
use klstream.Model.Forest.{IsolationForest}
use klstream.Model.Forest.Storage.{Bytes, Layout, save, load, load-save}

abbrev thousandths : Double
thousandths = record {
  Carrier = ℕ;
  of_nat = λ n. n * 1000;
  decimal = λ units k. units * 1000 / 10 ^ k;
  seconds = λ ns. ns / 1000000;
  plus = λ x y. x + y;
  neg = λ x. 0;
  minus = λ x y. x - y;
  times = λ x y. x * y / 1000;
  over = λ x y. x * 1000 / y;
  truncate = λ x. x / 1000;
  lt = ltb;
  le = leb;
}

abbrev whole : Float
whole = record { Carrier = ℕ; zero_float = 0; highest = 1000000; lowest = 0; lt = ltb }

abbrev rough : Maths thousandths
rough = record { log = λ x. x / 2; pow = λ x y. x; ceil_log2 = λ n. n }

-- What is drawn goes up by one each time, and nothing is shuffled.
abbrev counter : Random whole
counter = record {
  State = ℕ;
  seeded = λ seed. seed;
  index = λ bound s. (s % bound, s + 1);
  between = λ lo hi s. ((lo + hi + 1) / 2, s + 1);
  shuffle = λ xs s. (xs, s + 1);
}

-- Two features, the second the same everywhere.
abbrev at_height : ℕ → Point whole
at_height n i = if i == 0 then n else 5

abbrev three_points : List (Point whole)
three_points = at_height 10 ∷ at_height 30 ∷ at_height 20 ∷ []

abbrev Small : Type 0
Small = IsolationForest whole counter 2 thousandths rough

abbrev untrained : Small
untrained = record { n_estimators = 2; psi = 2; rng = 7; c_psi = 1000; trees = [] }

-- A number is its own byte; an integer has one more for its sign.
abbrev read_one : List ℕ → Option (ℕ × List ℕ)
read_one [] = none
read_one (n ∷ bytes) = some (n, bytes)

abbrev number_bytes : Bytes ℕ
number_bytes = record {
  holds = λ n. Unit {0};
  write = λ n. n ∷ [];
  read = read_one;
  read-write = λ n rest h. refl;
}

abbrev write_integer : ℤ → List ℕ
write_integer (pos n) = 0 ∷ n ∷ []
write_integer (negsuc n) = 1 ∷ n ∷ []

abbrev read_integer : List ℕ → Option (ℤ × List ℕ)
read_integer [] = none
read_integer (s ∷ []) = none
read_integer (s ∷ n ∷ bytes) = some ((if s == 0 then pos n else negsuc n), bytes)

read-write_integer :
    (i : ℤ) (rest : List ℕ) → Unit {0} → read_integer (write_integer i ++ rest) ≡ some (i, rest)
read-write_integer (pos n) rest h = refl
read-write_integer (negsuc n) rest h = refl

abbrev integer_bytes : Bytes ℤ
integer_bytes = record {
  holds = λ i. Unit {0};
  write = write_integer;
  read = read_integer;
  read-write = read-write_integer;
}

abbrev integer : ℕ → ℕ → ℤ
integer s n = if s == 0 then pos n else negsuc n

-- A node is its eight numbers.
abbrev write_node : Node whole → List ℕ
write_node n =
    write_integer n.feature
    ++ (n.split ∷ (write_integer n.left ++ (write_integer n.right ++ n.size_at_leaf ∷ [])))

abbrev read_node : List ℕ → Option (Node whole × List ℕ)
read_node (a ∷ f ∷ v ∷ b ∷ l ∷ c ∷ r ∷ k ∷ bytes) = some (
  record {
    feature = integer a f;
    split = v;
    left = integer b l;
    right = integer c r;
    size_at_leaf = k;
  },
  bytes,
)
read_node _ = none

abbrev node_of : ℤ → ℤ → ℤ → ℕ → ℕ → Node whole
node_of f l r v k = record { feature = f; split = v; left = l; right = r; size_at_leaf = k }

read-write_node :
    (f l r : ℤ) (v k : ℕ) (rest : List ℕ)
    → read_node (write_node (node_of f l r v k) ++ rest) ≡ some (node_of f l r v k, rest)
read-write_node (pos f) (pos l) (pos r) v k rest = refl
read-write_node (pos f) (pos l) (negsuc r) v k rest = refl
read-write_node (pos f) (negsuc l) (pos r) v k rest = refl
read-write_node (pos f) (negsuc l) (negsuc r) v k rest = refl
read-write_node (negsuc f) (pos l) (pos r) v k rest = refl
read-write_node (negsuc f) (pos l) (negsuc r) v k rest = refl
read-write_node (negsuc f) (negsuc l) (pos r) v k rest = refl
read-write_node (negsuc f) (negsuc l) (negsuc r) v k rest = refl

abbrev node_bytes : Bytes (Node whole)
node_bytes = record {
  holds = λ n. Unit {0};
  write = write_node;
  read = read_node;
  read-write = λ n rest h. read-write_node n.feature n.left n.right n.split n.size_at_leaf rest;
}

abbrev layout : Layout whole thousandths
layout = record {
  size_bytes = number_bytes;
  count_bytes = number_bytes;
  int_bytes = integer_bytes;
  node_bytes = node_bytes;
  double_bytes = number_bytes;
}

abbrev two_leaves : IsolationTree whole
two_leaves = record {
  nodes =
      record { feature = pos 0; split = 20; left = pos 1; right = pos 2; size_at_leaf = 0 }
      ∷ record (new_node whole) { size_at_leaf = 1 }
      ∷ record (new_node whole) { size_at_leaf = 2 }
      ∷ [];
  root = pos 0;
}

abbrev trained : Small
trained = record { n_estimators = 1; psi = 3; rng = 9; c_psi = 1200; trees = two_leaves ∷ [] }

abbrev stored : List ℕ
stored = save whole thousandths layout counter 2 rough trained

load-save_example :
    load whole thousandths layout counter 2 rough untrained (stored ++ 42 ∷ [])
    ≡ some (record trained { rng = 7 }, 42 ∷ [])
load-save_example =
    load-save whole thousandths layout counter 2 rough trained untrained (42 ∷ []) (record {
      n_estimators_fits = tt;
      psi_fits = tt;
      c_psi_fits = tt;
      n_trees_fits = tt;
      trees_fit = ((tt, (tt, (tt, (tt, tt))), tt), tt);
    })
