-- ===== src/Core/GraphRuntime/Wiring.antt =====
-- Which queues the instances get.
pub mod Unread
use klstream.Prelude.{
  ℕ, zero, suc, ◌+◌, ◌<◌, ◌≡◌, ◌≢◌, refl, ap, sym, fun_ext, ◌∙◌, arith, inl, inr, Bool, true, false,
  Bool-cases, Option-cases, Option, none, some, List, [], ◌∷◌, ◌++◌, map, append-nil, append_assoc,
  if◌then◌else◌, get_elem?,
}
use klstream.Core.GraphRuntime.{
  Edge, GraphOperator, OperatorInstance, Queues, no_queues, or_nil, find, add_output, set_input,
  make_queues, make_instance, Graph, Runtime, ok, new, init, build, worker_count,
}

abbrev pub or_else : {A : Type 0} → Option A → Option A → Option A
or_else none b = b
or_else (some a) b = some a

or_else_if :
    {A : Type 0} (b : Bool) (a : A) (o : Option A)
    → (if b then some a else o) ≡ or_else (if b then some a else none) o
or_else_if true a o = refl
or_else_if false a o = refl

or_else-none : {A : Type 0} (o : Option A) → or_else o none ≡ o
or_else-none none = refl
or_else-none (some a) = refl

append_if :
    {A : Type 0} (b : Bool) (a : A) (xs ys : List A)
    → (xs ++ (if b then a ∷ [] else [])) ++ ys ≡ xs ++ (if b then a ∷ ys else ys)
append_if true a xs ys = append_assoc xs (a ∷ []) ys
append_if false a xs ys = ap (λ l. l ++ ys) (append-nil xs)

-- The positions of the edges.
abbrev pub positions : {N : Type 0} → ℕ → List (Edge N) → List ℕ
positions q [] = []
positions q (e ∷ es) = q ∷ positions (q + 1) es

module _ {N : Type 0} (same : N → N → Bool) (same_sound : (a b : N) → same a b ≡ true → a ≡ b) where
  -- The positions of the edges that leave `n`, the first edge being number `q`.
  abbrev pub outgoing : N → ℕ → List (Edge N) → List ℕ
  outgoing n q [] = []
  outgoing n q (e ∷ es) =
      let rest = outgoing n (q + 1) es in if same e.from_operator n then q ∷ rest else rest

  -- The position of the last edge that goes to `n`.
  abbrev pub last_to : N → ℕ → List (Edge N) → Option ℕ
  last_to n q [] = none
  last_to n q (e ∷ es) =
      or_else (last_to n (q + 1) es) (if same e.to_operator n then some q else none)

  same_left : (k m n : N) → same k m ≡ true → same k n ≡ same m n
  same_left k m n e = ap (λ x. same x n) (same_sound k m e)

  differ : (k m n : N) → same k m ≡ false → same k n ≡ true → same m n ≡ false
  differ k m n e h = elim (Bool-cases (same m n)) [
    | inl f ↦ let g = ap (same k) (same_sound m n f) in cc
    | inr f ↦ f
  ]

  find-set_input :
      (n m : N) (q : ℕ) (l : List (N × ℕ))
      → find same n (set_input same m q l) ≡ (if same m n then some q else find same n l)
  unfolding find set_input
  find-set_input n m q [] = refl
  find-set_input n m q ((k, p) ∷ l) = elim (Bool-cases (same k m)) [
    | inl e ↦
        let f = same_left k m n e in
        elim (Bool-cases (same m n)) [ inl g ↦ rw (e, f, g) | inr g ↦ rw (e, f, g) ]
    | inr e ↦ elim (Bool-cases (same k n)) [
      | inl f ↦ rw (e, f, differ k m n e f)
      | inr f ↦ rw (e, f) (find-set_input n m q l)
    ]
  ]

  find-add_output :
      (n m : N) (q : ℕ) (l : List (N × List ℕ))
      → or_nil (find same n (add_output same m q l))
        ≡ or_nil (find same n l) ++ (if same m n then q ∷ [] else [])
  unfolding find add_output
  find-add_output n m q [] = elim (Bool-cases (same m n)) [ inl e ↦ rw e | inr e ↦ rw e ]
  find-add_output n m q ((k, p) ∷ l) = elim (Bool-cases (same k m)) [
    | inl e ↦
        let f = same_left k m n e in
        elim (Bool-cases (same m n)) [ inl g ↦ rw (e, f, g) | inr g ↦ rw (e, f, g, append-nil) ]
    | inr e ↦ elim (Bool-cases (same k n)) [
      | inl f ↦ rw (e, f, differ k m n e f, append-nil)
      | inr f ↦ rw (e, f) (find-add_output n m q l)
    ]
  ]

  -- What the loop over the edges leaves in the maps.
  abbrev after : Queues N → Edge N → Queues N
  after w e = make_queues same w (e ∷ [])

  find-make_queues :
      (n : N) (w : Queues N) (es : List (Edge N))
      → find same n (make_queues same w es).input_queues
        ≡ or_else (last_to n w.count es) (find same n w.input_queues)
  unfolding make_queues
  find-make_queues n w [] = refl
  find-make_queues n w (e ∷ es) =
      let step = find-make_queues n (after w e) es in
      let one = find-set_input n e.to_operator w.count w.input_queues in
      elim (Option-cases (last_to n (w.count + 1) es)) [
        | inl f ↦
            rw (step, f, one)
              (or_else_if (same e.to_operator n) w.count (find same n w.input_queues))
        | inr (p, f) ↦ rw (step, f)
      ]

  outputs-make_queues :
      (n : N) (w : Queues N) (es : List (Edge N))
      → or_nil (find same n (make_queues same w es).output_queues)
        ≡ or_nil (find same n w.output_queues) ++ outgoing n w.count es
  unfolding make_queues
  outputs-make_queues n w [] = sym (append-nil (or_nil (find same n w.output_queues)))
  outputs-make_queues n w (e ∷ es) =
      outputs-make_queues n (after w e) es
      ∙ ap (λ l. l ++ outgoing n (w.count + 1) es)
          (find-add_output n e.from_operator w.count w.output_queues)
      ∙ append_if (same e.from_operator n) w.count (or_nil (find same n w.output_queues))
          (outgoing n (w.count + 1) es)

  -- An instance with the queues that the edges say.
  abbrev pub wired : List (Edge N) → GraphOperator N → OperatorInstance N
  wired es op = record { op = op; input = last_to op.name 0 es; outputs = outgoing op.name 0 es }

  make_instance_lem :
      (es : List (Edge N)) (op : GraphOperator N)
      → make_instance same (make_queues same no_queues es) op ≡ wired es op
  unfolding make_instance find
  make_instance_lem es op =
      let input = find-make_queues op.name no_queues es in
      let outputs = outputs-make_queues op.name no_queues es in
      let no_default = or_else-none (last_to op.name 0 es) in
      λ i. record { op = op; input = (input ∙ no_default) i; outputs = outputs i }

  queues-make_queues :
      (w : Queues N) (es : List (Edge N))
      → (make_queues same w es).queues ≡ w.queues ++ positions w.count es
  unfolding make_queues
  queues-make_queues w [] = sym (append-nil w.queues)
  queues-make_queues w (e ∷ es) =
      queues-make_queues (after w e) es
      ∙ append_assoc w.queues (w.count ∷ []) (positions (w.count + 1) es)

  pub build-wired :
      (n : ℕ) (graph : Graph N)
      → let rt = build same n graph new in
        (rt.queues ≡ positions 0 graph.edges)
        × (rt.instances ≡ map (wired graph.edges) graph.operators)
  unfolding build
  build-wired n graph = (
    queues-make_queues no_queues graph.edges,
    ap (λ f. map f graph.operators) (fun_ext (make_instance_lem graph.edges)),
  )

  -- A new runtime accepts any graph. It makes one queue for each edge; each operator gets an instance,
  -- in the order of the operators, which puts its output into the queues of exactly the edges that leave
  -- it, in order, and reads the queue of the last edge that goes to it, if there is one.
  pub init-wired :
      (num_workers hardware : ℕ) (graph : Graph N)
      → (rt : Runtime N) × (init same num_workers hardware graph new ≡ ok rt)
        × (rt.queues ≡ positions 0 graph.edges)
        × (rt.instances ≡ map (wired graph.edges) graph.operators)
  unfolding init
  init-wired num_workers hardware graph =
      let n = worker_count num_workers hardware in
      let (queues, instances) = build-wired n graph in
      (build same n graph new, refl, queues, instances)
