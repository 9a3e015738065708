-- ===== src/Core/GraphRuntime/Wiring/Unread.antt =====
-- Which queue nobody reads.
use klstream.Prelude.{
  ℕ, zero, suc, ◌+◌, ◌<◌, ◌≡◌, ◌≢◌, refl, ap, sym, ◌∙◌, arith, inl, inr, Bool, true, false,
  Bool-cases, Option-cases, Option, none, some, List, [], ◌∷◌, map, if◌then◌else◌, get_elem?,
}
use klstream.Core.GraphRuntime.{Edge, OperatorInstance, Graph, Runtime, ok, new, init}
use klstream.Core.GraphRuntime.Wiring.{or_else, last_to, wired, init-wired}

none_of_or_else :
    {A : Type 0} (b : Bool) (a : A) (o : Option A)
    → or_else o (if b then some a else none) ≡ none
    → (o ≡ none) × (b ≡ false)
none_of_or_else true a none h = cc
none_of_or_else false a none h = (refl, refl)
none_of_or_else b a (some x) h = cc

map-some :
    {A B : Type 0} (f : A → B) (xs : List A) (k : ℕ) (y : B)
    → get_elem? (map f xs) k ≡ some y
    → (x : A) × (f x ≡ y)
map-some f [] k y h = cc
map-some f (x ∷ xs) zero y h = (x, cc)
map-some f (x ∷ xs) (suc k) y h = map-some f xs k y h

module _ {N : Type 0} (same : N → N → Bool) (same_sound : (a b : N) → same a b ≡ true → a ≡ b) where
  last_to-none :
      (n : N) (q j : ℕ) (es : List (Edge N)) (e : Edge N)
      → last_to same same_sound n q es ≡ none
      → get_elem? es j ≡ some e
      → same e.to_operator n ≡ false
  last_to-none n q j [] e h g = cc
  last_to-none n q zero (x ∷ es) e h g =
      let (_, f) =
        none_of_or_else (same x.to_operator n) q (last_to same same_sound n (q + 1) es) h in
      ground arith
  last_to-none n q (suc j) (x ∷ es) e h g =
      let (f, _) =
        none_of_or_else (same x.to_operator n) q (last_to same same_sound n (q + 1) es) h in
      last_to-none n (q + 1) j es e f g

  -- The queue at position `q + k` is that of an edge to `n`, and no later edge goes there.
  abbrev IsLast : N → ℕ → List (Edge N) → Type 0
  IsLast n k es =
      ((e : Edge N) × (get_elem? es k ≡ some e) × (same e.to_operator n ≡ true))
      × ((j : ℕ) (e : Edge N) → k < j → get_elem? es j ≡ some e → same e.to_operator n ≡ false)

  above_first :
      (n : N) (q : ℕ) (x : Edge N) (es : List (Edge N))
      → last_to same same_sound n (q + 1) es ≡ none
      → (j : ℕ) (e : Edge N) → 0 < j
      → get_elem? (x ∷ es) j ≡ some e
      → same e.to_operator n ≡ false
  above_first n q x es f zero e lt g = absurd (omega (arith, lt))
  above_first n q x es f (suc j) e lt g = last_to-none n (q + 1) j es e f g

  above_next :
      {n : N} (x : Edge N) (es : List (Edge N)) (k : ℕ)
      → ((j : ℕ) (e : Edge N) → k < j → get_elem? es j ≡ some e → same e.to_operator n ≡ false)
      → (j : ℕ) (e : Edge N) → suc k < j
      → get_elem? (x ∷ es) j ≡ some e
      → same e.to_operator n ≡ false
  above_next x es k above zero e lt g = absurd (omega (arith, lt))
  above_next x es k above (suc j) e lt g = above j e (omega (arith, lt)) g

  last_to-IsLast :
      (n : N) (q p : ℕ) (es : List (Edge N))
      → last_to same same_sound n q es ≡ some p
      → (k : ℕ) × (p ≡ q + k) × IsLast n k es
  last_to-IsLast n q p [] h = cc
  last_to-IsLast n q p (x ∷ es) h = elim (Option-cases (last_to same same_sound n (q + 1) es)) [
    | inl f ↦ elim (Bool-cases (same x.to_operator n)) [
      | inl b ↦ (zero, ground arith, ((x, refl, b), above_first n q x es f))
      | inr b ↦ ground arith
    ]
    | inr (r, f) ↦
        let (k, at, ((e, g, b), above)) = last_to-IsLast n (q + 1) r es f in
        (suc k, ground arith, ((e, g, b), above_next x es k above))
  ]

  not_last :
      (es : List (Edge N)) (n : N) (i j : ℕ) (e f : Edge N)
      → get_elem? es i ≡ some e
      → get_elem? es j ≡ some f
      → i < j
      → e.to_operator ≡ f.to_operator
      → last_to same same_sound n 0 es ≢ some i
  not_last es n i j e f g g' lt same_end h =
      let (k, at, ((x, gx, b), above)) = last_to-IsLast n 0 i es h in
      let here : k ≡ i = omega (arith, at) in
      let behind = above j f (omega (arith, at, lt)) g' in
      let there : get_elem? es i ≡ some x = ap (get_elem? es) (sym here) ∙ gx in
      ground (arith, ap (λ m. same m n) same_end)

  -- Where two edges go to the same operator, no instance of the runtime reads the queue of the first.
  pub init-unread :
      (num_workers hardware : ℕ) (graph : Graph N) (rt : Runtime N) (i j : ℕ) (e f : Edge N)
      → init same num_workers hardware graph new ≡ ok rt
      → get_elem? graph.edges i ≡ some e
      → get_elem? graph.edges j ≡ some f
      → i < j
      → e.to_operator ≡ f.to_operator
      → (k : ℕ) (inst : OperatorInstance N) → get_elem? rt.instances k ≡ some inst
      → inst.input ≢ some i
  init-unread num_workers hardware graph rt i j e f made g g' lt same_end k inst at =
      let (rt', made', _, wires) = init-wired same same_sound num_workers hardware graph in
      let same_rt : rt ≡ rt' = cc in
      let here : get_elem? (map (wired same same_sound graph.edges) graph.operators) k ≡ some inst =
        ap (λ l. get_elem? l k) (sym (ap (λ (r : Runtime N). r.instances) same_rt ∙ wires)) ∙ at in
      let (op, is) = map-some (wired same same_sound graph.edges) graph.operators k inst here in
      λ input.
        not_last graph.edges op.name i j e f g g' lt same_end
          (ap (λ (x : OperatorInstance N). x.input) is ∙ input)
