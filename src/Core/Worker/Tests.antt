-- ===== src/Core/Worker/Tests.antt =====
-- Tests of the pauses of a worker.
use klstream.Prelude.{◌-◌, ◌≡◌, refl, arith, none, some, List, [], ◌∷◌, length, get_elem?}
use klstream.Core.Operator.{OpStatus, processed, idle, blocked}
use klstream.Core.Worker.Backoff.{
  Pause, no_pause, spin, yield, any_progress, pauses, end_of_round, int_max, pauses-Escalates,
  pauses_overflow,
}

abbrev quiet_rounds : List (List OpStatus)
quiet_rounds = (idle ∷ blocked ∷ []) ∷ [] ∷ (blocked ∷ []) ∷ []

pauses_of_five : pauses 62 (quiet_rounds) ≡ some (spin ∷ yield ∷ yield ∷ [])
unfolding pauses any_progress end_of_round
pauses_of_five = refl

pauses-Escalates_example :
    (ps : List Pause) × (pauses 40 ((idle ∷ processed ∷ []) ∷ quiet_rounds) ≡ some (no_pause ∷ ps))
    × (length ps ≡ 3)
    × (get_elem? ps 2 ≡ some spin)
unfolding any_progress
pauses-Escalates_example =
    pauses-Escalates (idle ∷ processed ∷ []) quiet_rounds 40 2 refl (refl, (refl, (refl, tt)))
      (omega arith) (omega arith)

pauses_overflow_example : pauses (int_max - 2) quiet_rounds ≡ none
unfolding any_progress
pauses_overflow_example =
    pauses_overflow quiet_rounds (int_max - 2) (refl, (refl, (refl, tt))) (omega arith)
      (omega arith)
