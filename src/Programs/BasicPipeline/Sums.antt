-- ===== src/Programs/BasicPipeline/Sums.antt =====
-- What examples/basic_pipeline/main.cpp computes.
use mathlib.Core.Path.{subst}
use klstream.Prelude.{
  ℕ, zero, suc, ◌+◌, ◌*◌, ◌%◌, ◌/◌, ◌≤◌, ◌≡◌, refl, ap, ◌∙◌, arith, true, false, some, List, [],
  ◌∷◌, ◌++◌, map, length, length-append, word, add_word,
}
use klstream.Core.Double.{Double}
use klstream.Core.Event.{Event, make}
use klstream.Core.SpscQueue.{SpscQueue}
use klstream.Core.SpscQueue.Client.{items}
use klstream.Operators.Aggregate
use klstream.Operators.Aggregate.{Aggregate}
use klstream.Operators.Filter
use klstream.Operators.Map
use klstream.Operators.Pipeline.{promise}
use klstream.Operators.Sink.{consumed}
use klstream.Programs.Network.{
  Turn, IsFresh, remembering, run, under_way, queue, queue_made, queue-IsSound,
}
use klstream.Programs.Network.Delivery.{run_delivers, run-captured, made-le}
use klstream.Programs.BasicPipeline.{
  next_number, square, is_even, operators, operators_at_rest, record_latency, Latencies, Program,
  program, assemble, no_latencies,
}

-- The sum of the squares of the first `k` even numbers.
abbrev pub even_square_sum : ℕ → ℕ
even_square_sum zero = 0
even_square_sum (suc k) = even_square_sum k + 2 * k * (2 * k)

-- `m` such sums in 64 bits, the first of which ends with the even number 2 * j.
abbrev pub sums_from : ℕ → ℕ → List ℕ
sums_from j zero = []
sums_from j (suc m) = (even_square_sum (suc j) % word) ∷ sums_from (suc j) m

abbrev pub payloads : List (Event ℕ) → List ℕ
payloads = map (λ (e : Event ℕ). e.payload)

-- The events carry the numbers from `i` on.
abbrev IsNumbered : ℕ → List (Event ℕ) → Type 0
IsNumbered i [] = Unit {0}
IsNumbered i (e ∷ es) = (e.payload ≡ i) × IsNumbered (i + 1) es

IsNumbered-append :
    (i : ℕ) (xs : List (Event ℕ)) (e : Event ℕ)
    → IsNumbered i xs
    → e.payload ≡ i + length xs
    → IsNumbered i (xs ++ e ∷ [])
IsNumbered-append i [] e h p = (omega arith, tt)
IsNumbered-append i (x ∷ xs) e (h, t) p = (h, IsNumbered-append (i + 1) xs e t (omega arith))

-- The three operators' work, with the sum so far.
abbrev flow : ℕ → List (Event ℕ) → List (Event ℕ)
flow st xs =
    Aggregate.running (record { state = 0; accum = add_word; extract = λ (s : ℕ). s }) st
      (Filter.owed is_even (Map.owed square xs))

square_twice : (j : ℕ) → 2 * j * (2 * j) ≡ 4 * (j * j)
square_twice j = grind arith

square_odd : (j : ℕ) → (2 * j + 1) * (2 * j + 1) ≡ 4 * (j * j) + 4 * j + 1
square_odd j = grind arith

even_kept : (j : ℕ) → is_even (square (2 * j)) ≡ true
unfolding is_even square
even_kept j = ground (arith, square_twice j)

odd_dropped : (j : ℕ) → is_even (square (2 * j + 1)) ≡ false
unfolding is_even square
odd_dropped j = ground (arith, square_odd j)

sum_step :
    (j : ℕ) → add_word (even_square_sum j % word) (square (2 * j)) ≡ even_square_sum (suc j) % word
unfolding square
sum_step j = omega (arith, square_twice j)

mutual
  unfolding Aggregate.extracted Map.apply

  flow_even :
      (j : ℕ) (evs : List (Event ℕ))
      → IsNumbered (2 * j) evs
      → payloads (flow (even_square_sum j % word) evs) ≡ sums_from j ((length evs + 1) / 2)
  flow_even j [] h = refl
  flow_even j (e ∷ es) (p, h) =
      let half : suc (length es / 2) ≡ (length (e ∷ es) + 1) / 2 = omega arith in
      rw (p, even_kept j, sum_step j)
        (ap (λ l. (even_square_sum (suc j) % word) ∷ l) (flow_odd j es h) ∙ ap (sums_from j) half)

  flow_odd :
      (j : ℕ) (evs : List (Event ℕ))
      → IsNumbered (2 * j + 1) evs
      → payloads (flow (even_square_sum (suc j) % word) evs) ≡ sums_from (suc j) (length evs / 2)
  flow_odd j [] h = refl
  flow_odd j (e ∷ es) (p, h) =
      let next : 2 * j + 1 + 1 ≡ 2 * suc j = omega arith in
      let same : (length es + 1) / 2 ≡ length (e ∷ es) / 2 = omega arith in
      rw (p, odd_dropped j) (flow_even (suc j) es (rw next at h) ∙ ap (sums_from (suc j)) same)

-- What the generator has captured: the numbers made are those from 0 on, until they wrap around.
abbrev Counts : List (Event ℕ) × ℕ → Type 0
Counts (made, global_seq) =
    (global_seq ≡ length made % word) × (length made ≤ word → IsNumbered 0 made)

next_number-Counts :
    (clock : ℕ → ℕ) (s : List (Event ℕ) × ℕ) (n : ℕ)
    → Counts s
    → Counts (remembering (next_number clock) s n).1
unfolding next_number make
next_number-Counts clock (made, g) n (p, h) =
    let e = make (clock g) g 0 0 in
    let l = length-append made (e ∷ []) in
    (
      omega (arith, p, l),
      λ le. IsNumbered-append 0 made e (h (omega (arith, l, le))) (omega (arith, p, l, le)),
    )

promise_lem :
    (q1 q2 : SpscQueue (Event ℕ)) (xs : List (Event ℕ))
    → items q1 ≡ []
    → items q2 ≡ []
    → promise operators (operators_at_rest q1 q2) xs ≡ flow 0 xs
unfolding operators operators_at_rest Map.stage Filter.stage Aggregate.stage
promise_lem q1 q2 xs e1 e2 = rw (e1, e2)

module _ (d : Double) (buckets : ℕ) (made_at seen_at : ℕ → ℕ) (m1 m2 m3 m4 : ℕ → Event ℕ) where
  abbrev pub begin : Program d buckets made_at seen_at
  begin = program d buckets made_at seen_at (queue m1) (queue m2) (queue m3) (queue m4)

  pub assembled : assemble d buckets made_at seen_at m1 m2 m3 m4 ≡ some begin
  unfolding assemble
  assembled = rw (queue_made m1, queue_made m2, queue_made m3, queue_made m4)

  begin-IsFresh : IsFresh d ℕ Latencies operators begin
  unfolding program operators operators_at_rest Map.stage Filter.stage Aggregate.stage
  begin-IsFresh = record {
    sound_input = (queue-IsSound m1).0;
    sound_output = (queue-IsSound m4).0;
    sound_between = ((queue-IsSound m2).0, ((queue-IsSound m3).0, tt));
    no_input = (queue-IsSound m1).1;
    no_output = (queue-IsSound m4).1;
    nothing_made = refl;
    nothing_held = refl;
  }

  abbrev Delivers : List Turn → Program d buckets made_at seen_at → Type 0
  Delivers ts start =
      let w = run d ℕ Latencies operators start ts in
      (out : List (Event ℕ)) × (w.sink.seen
        ≡ consumed (record_latency buckets seen_at) no_latencies out)
      × (payloads (out ++ under_way d ℕ Latencies operators w)
          ≡ sums_from 0 ((length w.source.captured.0 + 1) / 2))

  begin-Delivers : (ts : List Turn) → length ts ≤ word → Delivers ts begin
  unfolding program
  begin-Delivers ts le =
      let (out, seen, balance) =
        run_delivers d ℕ Latencies operators (next_number made_at) begin ts refl begin-IsFresh in
      let counts =
        run-captured d ℕ Latencies operators (next_number made_at) Counts
          (next_number-Counts made_at) begin ts refl begin-IsFresh (refl, λ _. tt) in
      let made = (run d ℕ Latencies operators begin ts).source.captured.0 in
      let few = made-le d ℕ Latencies operators (next_number made_at) begin ts refl begin-IsFresh in
      (
        out,
        seen,
        ap payloads (
              balance
              ∙ promise_lem (queue m2) (queue m3) made (queue-IsSound m2).1 (queue-IsSound m3).1)
            ∙ flow_even 0 made (counts.1 (omega (arith, few, le))),
      )

  -- Once the program is assembled, in any memory, and however its operators are scheduled, in at
  -- most 2 ^ 64 turns: the latencies that the sink has recorded are those of
  -- events `out`, in order and each once, which with the events under way carry exactly the sums of
  -- the squares of the first 1, 2, 3 and so on even numbers, modulo 2 ^ 64, one for each even number
  -- made.
  pub sums_delivered :
      (ts : List Turn) (start : Program d buckets made_at seen_at)
      → assemble d buckets made_at seen_at m1 m2 m3 m4 ≡ some start
      → length ts ≤ word
      → let w = run d ℕ Latencies operators start ts in
        (out : List (Event ℕ)) × (w.sink.seen
          ≡ consumed (record_latency buckets seen_at) no_latencies out)
        × (payloads (out ++ under_way d ℕ Latencies operators w)
            ≡ sums_from 0 ((length w.source.captured.0 + 1) / 2))
  sums_delivered ts start e le =
      let same : begin ≡ start = cc (e, assembled) in
      subst (λ (s : Program d buckets made_at seen_at). Delivers ts s) same (begin-Delivers ts le)
