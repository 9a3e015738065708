-- ===== src/Window/ResultSink.antt =====
-- `ResultSink` of include/klstream/window/result_sink.hpp. The file is the bytes written to it; how a
-- number is shown is a parameter, and the clock's reading is an argument.
pub mod ReadBack
use klstream.Prelude.{
  ℕ, ◌≡◌, refl, inl, inr, arith, Option, none, some, List, [], ◌∷◌, ◌++◌, append_assoc, append-nil,
}
use klstream.Core.Event.{Event, latency_ns}
use klstream.Core.Metrics.{OperatorMetrics, count_processed, count_idle}
use klstream.Core.Operator.{OpStatus, processed, idle}
use klstream.Core.SpscQueue.{SpscQueue, try_pop}
use klstream.Core.SpscQueue.Client.{IsSound, items, try_pop-Popped}
use klstream.Window.Batch.{DetectionResult}

pub record ResultSink : Type 0 where
  pub out : List ℕ
  pub metrics : Option OperatorMetrics

-- How `<<` shows an integer, a double with eight digits, and a float.
pub record Shown (R F : Type 0) : Type 0 where
  pub nat : ℕ → List ℕ
  pub double : R → List ℕ
  pub float : F → List ℕ

-- The first line: the names of the columns.
abbrev header : List ℕ
header =
    b's' ∷ b'e' ∷ b'q' ∷ b',' ∷ b'd' ∷ b'e' ∷ b't' ∷ b'e' ∷ b'c' ∷ b't' ∷ b'_' ∷ b't' ∷ b'i' ∷ b'm'
    ∷ b'e' ∷ b's' ∷ b't' ∷ b'a' ∷ b'm' ∷ b'p' ∷ b'_' ∷ b'n' ∷ b's' ∷ b',' ∷ b'l' ∷ b'a' ∷ b't'
    ∷ b'e' ∷ b'n' ∷ b'c' ∷ b'y' ∷ b'_' ∷ b'n' ∷ b's' ∷ b',' ∷ b'm' ∷ b'a' ∷ b'x' ∷ b'_' ∷ b's'
    ∷ b'c' ∷ b'o' ∷ b'r' ∷ b'e' ∷ b',' ∷ b'w' ∷ b'i' ∷ b'n' ∷ b'd' ∷ b'o' ∷ b'w' ∷ b'_' ∷ b's'
    ∷ b'i' ∷ b'z' ∷ b'e' ∷ b'_' ∷ b'u' ∷ b's' ∷ b'e' ∷ b'd' ∷ b',' ∷ b'f' ∷ b'i' ∷ b'r' ∷ b's'
    ∷ b't' ∷ b'_' ∷ b's' ∷ b'e' ∷ b'q' ∷ b',' ∷ b'l' ∷ b'a' ∷ b's' ∷ b't' ∷ b'_' ∷ b's' ∷ b'e'
    ∷ b'q' ∷ b',' ∷ b'f' ∷ b'l' ∷ b'a' ∷ b'g' ∷ b'g' ∷ b'e' ∷ b'd' ∷ b'_' ∷ b's' ∷ b'e' ∷ b'q'
    ∷ b',' ∷ b'o' ∷ b'c' ∷ b'c' ∷ b'u' ∷ b'p' ∷ b'a' ∷ b'n' ∷ b'c' ∷ b'y' ∷ b'_' ∷ b'a' ∷ b't'
    ∷ b'_' ∷ b'd' ∷ b'e' ∷ b'c' ∷ b'i' ∷ b's' ∷ b'i' ∷ b'o' ∷ b'n' ∷ b'\n' ∷ []

-- The constructor.
unfoldable pub new : ResultSink
new = record { out = header; metrics = none }

module _ {R F : Type 0} (shown : Shown R F) where
  -- The line of a result.
  unfoldable pub line : ℕ → Event (DetectionResult R F) → List ℕ
  line now ev =
      let r = ev.payload in
      shown.nat ev.seq
      ++ b','
        ∷ (shown.nat ev.timestamp_ns
            ++ b','
              ∷ (shown.nat (latency_ns now ev)
                  ++ b','
                    ∷ (shown.double r.max_score
                        ++ b','
                          ∷ (shown.nat r.window_size_used
                              ++ b','
                                ∷ (shown.nat r.first_seq
                                    ++ b','
                                      ∷ (shown.nat r.last_seq
                                          ++ b','
                                            ∷ (shown.nat r.flagged_seq
                                                ++ b','
                                                  ∷ (shown.float r.occupancy_at_decision
                                                      ++ b'\n' ∷ []))))))))

  unfoldable pub tick :
      ℕ
      → ResultSink
      → SpscQueue (Event (DetectionResult R F))
      → OpStatus × ResultSink × SpscQueue (Event (DetectionResult R F))
  unfolding line
  tick now s input =
      let (popped, input') = try_pop input in
      elim popped [
        | none ↦ (idle, record s { metrics = count_idle s.metrics }, input')
        | some ev ↦ (
          processed,
          record s { out = s.out ++ line now ev; metrics = count_processed s.metrics },
          input',
        )
      ]

  -- The ticks at these readings of the clock.
  unfoldable pub ticks :
      List ℕ
      → ResultSink
      → SpscQueue (Event (DetectionResult R F))
      → ResultSink × SpscQueue (Event (DetectionResult R F))
  ticks [] s input = (s, input)
  ticks (now ∷ later) s input = let (status, s', input') = tick now s input in ticks later s' input'

  -- The lines of the events, one for each reading of the clock, as far as both go.
  abbrev pub written : List ℕ → List (Event (DetectionResult R F)) → List ℕ
  written nows [] = []
  written [] (ev ∷ evs) = []
  written (now ∷ nows) (ev ∷ evs) = line now ev ++ written nows evs

  written_none : (nows : List ℕ) → written nows [] ≡ []
  written_none [] = refl
  written_none (n ∷ nows) = refl

  written_nothing : (evs : List (Event (DetectionResult R F))) → written [] evs ≡ []
  written_nothing [] = refl
  written_nothing (ev ∷ evs) = refl

  -- A row of ticks on a sound queue writes behind the file one line for each event that was in the
  -- queue, as far as the ticks go, in order, and each with the latency at its own tick; nothing that
  -- was written before changes.
  pub ticks-written :
      (nows : List ℕ) (s : ResultSink) (input : SpscQueue (Event (DetectionResult R F)))
      → IsSound input
      → (ticks nows s input).0.out ≡ s.out ++ written nows (items input)
  unfolding ticks tick
  ticks-written [] s input v = ground (arith, append-nil s.out, written_nothing (items input))
  ticks-written (now ∷ nows) s input v =
      let (v', _, cases) = try_pop-Popped input v in
      elim cases [
        | inl (n, e, e') ↦ ground (
          arith,
          ticks-written nows (record s { metrics = count_idle s.metrics }) (try_pop input).1 v',
          written_none nows,
        )
        | inr (ev, n, e) ↦
            let s' = record s { out = s.out ++ line now ev; metrics = count_processed s.metrics } in
            ground (
              arith,
              ticks-written nows s' (try_pop input).1 v',
              append_assoc s.out (line now ev) (written nows (items (try_pop input).1)),
            )
      ]
