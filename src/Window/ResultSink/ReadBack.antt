-- ===== src/Window/ResultSink/ReadBack.antt =====
-- What a reader of the file of a `ResultSink` finds in it: lines, and in each the texts between commas.
use klstream.Prelude.{
  ℕ, ◌-◌, ◌≡◌, refl, ap, ◌∙◌, arith, List, [], ◌∷◌, ◌++◌, map, append_assoc, ◌==◌, if◌then◌else◌,
}
use klstream.Core.Event.{Event, latency_ns}
use klstream.Core.SpscQueue.{SpscQueue}
use klstream.Core.SpscQueue.Client.{IsSound, items}
use klstream.Window.Batch.{DetectionResult}
use klstream.Window.ReplayFile.{Bytes, lines}
use klstream.Window.ReplayFile.RoundTrip.{IsPlain, IsLine, plain_line, cell_line, lines-line}
use klstream.Window.ResultSink
use klstream.Window.ResultSink.{
  Shown, line, ticks, written, written_none, written_nothing, ticks-written,
}

-- The texts between the commas of a line.
unfoldable pub cells : Bytes → List Bytes
cells [] = [] ∷ []
cells (c ∷ text) =
    let rest = cells text in
    if c == b',' then [] ∷ rest else elim rest [ [] ↦ (c ∷ []) ∷ [] | l ∷ ls ↦ (c ∷ l) ∷ ls ]

-- The names of the columns.
abbrev pub columns : List Bytes
columns =
    (b's' ∷ b'e' ∷ b'q' ∷ [])
    ∷ (b'd' ∷ b'e' ∷ b't' ∷ b'e' ∷ b'c' ∷ b't' ∷ b'_' ∷ b't' ∷ b'i' ∷ b'm' ∷ b'e' ∷ b's' ∷ b't'
        ∷ b'a' ∷ b'm' ∷ b'p' ∷ b'_' ∷ b'n' ∷ b's' ∷ [])
    ∷ (b'l' ∷ b'a' ∷ b't' ∷ b'e' ∷ b'n' ∷ b'c' ∷ b'y' ∷ b'_' ∷ b'n' ∷ b's' ∷ [])
    ∷ (b'm' ∷ b'a' ∷ b'x' ∷ b'_' ∷ b's' ∷ b'c' ∷ b'o' ∷ b'r' ∷ b'e' ∷ [])
    ∷ (b'w' ∷ b'i' ∷ b'n' ∷ b'd' ∷ b'o' ∷ b'w' ∷ b'_' ∷ b's' ∷ b'i' ∷ b'z' ∷ b'e' ∷ b'_' ∷ b'u'
        ∷ b's' ∷ b'e' ∷ b'd' ∷ [])
    ∷ (b'f' ∷ b'i' ∷ b'r' ∷ b's' ∷ b't' ∷ b'_' ∷ b's' ∷ b'e' ∷ b'q' ∷ [])
    ∷ (b'l' ∷ b'a' ∷ b's' ∷ b't' ∷ b'_' ∷ b's' ∷ b'e' ∷ b'q' ∷ [])
    ∷ (b'f' ∷ b'l' ∷ b'a' ∷ b'g' ∷ b'g' ∷ b'e' ∷ b'd' ∷ b'_' ∷ b's' ∷ b'e' ∷ b'q' ∷ [])
    ∷ (b'o' ∷ b'c' ∷ b'c' ∷ b'u' ∷ b'p' ∷ b'a' ∷ b'n' ∷ b'c' ∷ b'y' ∷ b'_' ∷ b'a' ∷ b't' ∷ b'_'
        ∷ b'd' ∷ b'e' ∷ b'c' ∷ b'i' ∷ b's' ∷ b'i' ∷ b'o' ∷ b'n' ∷ [])
    ∷ []

abbrev AllPlain : List Bytes → Type 0
AllPlain [] = Unit {0}
AllPlain (t ∷ ts) = IsPlain t × AllPlain ts

-- A number is shown without a comma and without an end of line.
pub record IsPlainShown {R F : Type 0} (shown : Shown R F) : Type 0 where
  pub nat : (n : ℕ) → IsPlain (shown.nat n)
  pub double : (x : R) → IsPlain (shown.double x)
  pub float : (x : F) → IsPlain (shown.float x)

cells-cell : (t u : Bytes) → IsPlain t → cells (t ++ b',' ∷ u) ≡ t ∷ cells u
unfolding cells
cells-cell [] u h = refl
cells-cell (c ∷ t) u (h, _, hs) = rw (h, cells-cell t u hs)

cells-plain : (t : Bytes) → IsPlain t → cells t ≡ t ∷ []
unfolding cells
cells-plain [] h = refl
cells-plain (c ∷ t) (h, _, hs) = rw (h, cells-plain t hs)

-- Texts with commas between them.
abbrev join : Bytes → List Bytes → Bytes
join t [] = t
join t (u ∷ us) = t ++ b',' ∷ join u us

cells-join : (t : Bytes) (ts : List Bytes) → IsPlain t → AllPlain ts → cells (join t ts) ≡ t ∷ ts
cells-join t [] h hs = cells-plain t h
cells-join t (u ∷ us) h (k, ks) =
    cells-cell t (join u us) h ∙ ap (λ l. t ∷ l) (cells-join u us k ks)

join-IsLine : (t : Bytes) (ts : List Bytes) → IsPlain t → AllPlain ts → IsLine (join t ts)
join-IsLine t [] h hs = plain_line t h
join-IsLine t (u ∷ us) h (k, ks) = cell_line t (join u us) h (join-IsLine u us k ks)

module _ {R F : Type 0} (shown : Shown R F) where
  -- What the columns behind the first say of a result that is taken at this reading of the clock. A
  -- clock behind the event's time gives no latency.
  abbrev rest_of : ℕ → Event (DetectionResult R F) → List Bytes
  rest_of now ev =
      let r = ev.payload in
      shown.nat ev.timestamp_ns
      ∷ shown.nat (now - ev.timestamp_ns)
      ∷ shown.double r.max_score
      ∷ shown.nat r.window_size_used
      ∷ shown.nat r.first_seq
      ∷ shown.nat r.last_seq
      ∷ shown.nat r.flagged_seq
      ∷ shown.float r.occupancy_at_decision
      ∷ []

  abbrev pub fields : ℕ → Event (DetectionResult R F) → List Bytes
  fields now ev = shown.nat ev.seq ∷ rest_of now ev

  -- One row for each reading of the clock and each event, as far as both go.
  abbrev pub table : List ℕ → List (Event (DetectionResult R F)) → List (List Bytes)
  table nows [] = []
  table [] (ev ∷ evs) = []
  table (now ∷ nows) (ev ∷ evs) = fields now ev ∷ table nows evs

  latency_ns-eq :
      (now : ℕ) (ev : Event (DetectionResult R F)) → latency_ns now ev ≡ now - ev.timestamp_ns
  unfolding latency_ns
  latency_ns-eq now ev = ground arith

  line-eq-join :
      (now : ℕ) (ev : Event (DetectionResult R F))
      → line shown now ev ≡ join (shown.nat ev.seq) (rest_of now ev) ++ b'\n' ∷ []
  unfolding line
  line-eq-join now ev = rw (latency_ns-eq now ev) (simp append_assoc)

  rest_of-plain :
      (now : ℕ) (ev : Event (DetectionResult R F)) → IsPlainShown shown → AllPlain (rest_of now ev)
  rest_of-plain now ev p =
      let r = ev.payload in
      (
        p.nat ev.timestamp_ns,
        (
          p.nat (now - ev.timestamp_ns),
          (
            p.double r.max_score,
            (
              p.nat r.window_size_used,
              (
                p.nat r.first_seq,
                (p.nat r.last_seq, (p.nat r.flagged_seq, (p.float r.occupancy_at_decision, tt))),
              ),
            ),
          ),
        ),
      )

  cells-written :
      (nows : List ℕ) (evs : List (Event (DetectionResult R F)))
      → IsPlainShown shown
      → map cells (lines (written shown nows evs)) ≡ table nows evs
  unfolding lines
  cells-written [] [] p = refl
  cells-written (now ∷ nows) [] p = refl
  cells-written [] (ev ∷ evs) p = refl
  cells-written (now ∷ nows) (ev ∷ evs) p =
      let t = shown.nat ev.seq in
      let ts = rest_of now ev in
      let more = written shown nows evs in
      let first : line shown now ev ++ more ≡ join t ts ++ b'\n' ∷ more =
        ap (λ l. l ++ more) (line-eq-join now ev) ∙ append_assoc (join t ts) (b'\n' ∷ []) more in
      let split =
        lines-line (join t ts) more (join-IsLine t ts (p.nat ev.seq) (rest_of-plain now ev p)) in
      ap (λ l. map cells (lines l)) first ∙ ap (map cells) split ∙ (λ i.
        cells-join t ts (p.nat ev.seq) (rest_of-plain now ev p) i ∷ cells-written nows evs p i)

  header_line :
      (more : Bytes)
      → map cells (lines (ResultSink.new.out ++ more)) ≡ columns ∷ map cells (lines more)
  unfolding ResultSink.new lines cells
  header_line more = refl

  -- Where numbers are shown without commas and ends of lines, a row of ticks of a new sink on a sound queue
  -- writes a file with a line of the names of the columns and then one line for each event that was in
  -- the queue, as far as the ticks go and in order. A line has, between commas, the number and time of its
  -- event, the time from then to the tick, or 0 where the clock stands before it, the score, the size,
  -- the first, last and flagged numbers of the window, and the occupancy.
  pub lines-ticks :
      (nows : List ℕ) (input : SpscQueue (Event (DetectionResult R F)))
      → IsPlainShown shown
      → IsSound input
      → map cells (lines (ticks shown nows ResultSink.new input).0.out)
        ≡ columns ∷ table nows (items input)
  lines-ticks nows input p v =
      ap (λ l. map cells (lines l)) (ticks-written shown nows ResultSink.new input v)
      ∙ header_line (written shown nows (items input))
      ∙ ap (λ l. columns ∷ l) (cells-written nows (items input) p)
