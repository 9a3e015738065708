-- ===== src/Core/Worker/Backoff.antt =====
-- The pauses of the loop of `WorkerThread::run`: include/klstream/core/worker.hpp, with the limits of
-- include/klstream/core/config.hpp. The counter `idle_rounds` is an `int`; its overflow is a fault.
use mathlib.Core.Option
use klstream.Prelude.{
  ℕ, zero, suc, ◌+◌, ◌-◌, ◌^◌, ◌<◌, ◌≤◌, ◌≡◌, refl, ap, ◌∙◌, arith, Bool, true, false, not, Option,
  none, some, List, [], ◌∷◌, ◌==◌, ltb, if◌then◌else◌, get_elem?, length,
}
use klstream.Core.Operator.{OpStatus, processed, idle, blocked}

abbrev pub spin_before_yield : ℕ
spin_before_yield = 64

abbrev pub yield_before_sleep : ℕ
yield_before_sleep = 32

abbrev pub int_max : ℕ
int_max = 2 ^ 31 - 1

pub data Pause : Type 0 where
  no_pause : Pause
  spin : Pause
  yield : Pause
  sleep : Pause

-- `any_progress` after a round whose ticks returned these.
unfoldable pub any_progress : List OpStatus → Bool
any_progress [] = false
any_progress (processed ∷ ss) = true
any_progress (idle ∷ ss) = any_progress ss
any_progress (blocked ∷ ss) = any_progress ss

abbrev pub pause_at : ℕ → Pause
pause_at idle_rounds =
    if ltb idle_rounds spin_before_yield
    then spin
    else (if ltb idle_rounds (spin_before_yield + yield_before_sleep) then yield else sleep)

-- The end of a round: the counter and the pause. `none` is the overflow of the counter.
unfoldable pub end_of_round : Bool → ℕ → Option (ℕ × Pause)
end_of_round progress idle_rounds =
    if not progress
    then (if idle_rounds == int_max
        then none
        else some (idle_rounds + 1, pause_at (idle_rounds + 1)))
    else some (0, no_pause)

-- The pauses of a sequence of rounds, each given by the statuses of its ticks.
unfoldable pub pauses : ℕ → List (List OpStatus) → Option (List Pause)
unfolding any_progress end_of_round
pauses idle_rounds [] = some []
pauses idle_rounds (round ∷ rounds) = elim (end_of_round (any_progress round) idle_rounds) [
  | none ↦ none
  | some (idle_rounds', pause) ↦ Option.map (λ ps. pause ∷ ps) (pauses idle_rounds' rounds)
]

-- Rounds in which no tick made progress.
abbrev pub AllQuiet : List (List OpStatus) → Type 0
AllQuiet [] = Unit {0}
AllQuiet (round ∷ rounds) = (any_progress round ≡ false) × AllQuiet rounds

-- What a worker does in a row of quiet rounds that starts with the counter at `c`.
abbrev pub Escalates : ℕ → ℕ → Option (List Pause) → Type 0
Escalates c n none = ⊥
Escalates c n (some ps) =
    (length ps ≡ n) × ((i : ℕ) → i < n → get_elem? ps i ≡ some (pause_at (c + i + 1)))

pauses_quiet :
    (round : List OpStatus) (rounds : List (List OpStatus)) (c : ℕ)
    → any_progress round ≡ false
    → c < int_max
    → pauses c (round ∷ rounds) ≡ Option.map (λ ps. pause_at (c + 1) ∷ ps) (pauses (c + 1) rounds)
unfolding pauses
pauses_quiet round rounds c q h =
    let e : end_of_round (any_progress round) c ≡ some (c + 1, pause_at (c + 1)) =
      rw q (ground arith) in
    rw (e, pauses) refl

nth_pause :
    (c n : ℕ) (ps : List Pause)
    → ((i : ℕ) → i < n → get_elem? ps i ≡ some (pause_at (c + 1 + i + 1)))
    → (i : ℕ) → i < suc n
    → get_elem? (pause_at (c + 1) ∷ ps) i ≡ some (pause_at (c + i + 1))
nth_pause c n ps e zero lt =
    let same : c + 1 ≡ c + 0 + 1 = omega arith in ap (λ k. some (pause_at k)) same
nth_pause c n ps e (suc i) lt =
    let same : c + 1 + i + 1 ≡ c + suc i + 1 = omega arith in
    e i (omega arith) ∙ ap (λ k. some (pause_at k)) same

cons-Escalates :
    (c n : ℕ) (r : Option (List Pause))
    → Escalates (c + 1) n r
    → Escalates c (suc n) (Option.map (λ ps. pause_at (c + 1) ∷ ps) r)
cons-Escalates c n none h = h
cons-Escalates c n (some ps) (l, e) = (ap suc l, nth_pause c n ps e)

pauses-Escalates_from :
    (rounds : List (List OpStatus)) (c : ℕ)
    → AllQuiet rounds
    → c + length rounds ≤ int_max
    → Escalates c (length rounds) (pauses c rounds)
unfolding pauses
pauses-Escalates_from [] c q h = (refl, λ i lt. absurd (omega arith))
pauses-Escalates_from (round ∷ rounds) c (q, qs) h =
    rw (pauses_quiet round rounds c q (omega arith)) (
      cons-Escalates c (length rounds) (pauses (c + 1) rounds)
        (pauses-Escalates_from rounds (c + 1) qs (omega arith)))

-- In a row of quiet rounds after one with progress, at most 2 ^ 31 - 1 of them, each ends in one
-- pause: the first 63 in a spin, the next 32 in a yield, and all later ones in a sleep.
pub pauses-Escalates :
    (busy : List OpStatus) (rounds : List (List OpStatus)) (c i : ℕ)
    → any_progress busy ≡ true
    → AllQuiet rounds
    → length rounds ≤ int_max
    → i < length rounds
    → (ps : List Pause) × (pauses c (busy ∷ rounds) ≡ some (no_pause ∷ ps))
      × (length ps ≡ length rounds)
      × (get_elem? ps i ≡ some (if ltb i 63 then spin else (if ltb i 95 then yield else sleep)))
unfolding pauses
pauses-Escalates busy rounds c i p q h lt =
    from (pauses 0 rounds) refl (pauses-Escalates_from rounds 0 q (omega arith))
  where
    from :
        (r : Option (List Pause))
        → pauses 0 rounds ≡ r
        → Escalates 0 (length rounds) r
        → (ps : List Pause) × (pauses c (busy ∷ rounds) ≡ some (no_pause ∷ ps))
          × (length ps ≡ length rounds)
          × (get_elem? ps i ≡ some (if ltb i 63 then spin else (if ltb i 95 then yield else sleep)))
    from none e v = absurd v
    from (some ps) e (l, nth) = (ps, ground arith, l, nth i lt ∙ ground arith)

-- One quiet round more overflows the counter: a worker that is idle for 2 ^ 31 rounds in a row
-- reaches undefined behaviour.
pub pauses_overflow :
    (rounds : List (List OpStatus)) (c : ℕ)
    → AllQuiet rounds
    → c ≤ int_max
    → int_max < c + length rounds
    → pauses c rounds ≡ none
unfolding pauses
pauses_overflow [] c q le h = absurd (omega arith)
pauses_overflow (round ∷ rounds) c (q, qs) le h = ground (arith, pauses_overflow rounds (c + 1) qs)
