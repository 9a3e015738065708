-- ===== src/Window/TickSource/Ascent.antt =====
-- The numbers of the events that a replay gives out.
use klstream.Prelude.{
  ℕ, zero, suc, ◌+◌, ◌*◌, ◌≤◌, ◌<◌, ◌≡◌, refl, ap, ◌∙◌, arith, some, List, [], ◌∷◌, length,
  get_elem?, leb, map, word, add_word, Bool-cases, inl, inr,
}
use klstream.Prelude.Int.{pos}
use klstream.Core.Double.{Double}
use klstream.Core.Event.{Event, make}
use klstream.Window.Batch.{FeatureVector}
use klstream.Window.TickSource.{
  TickRow, ReplayMode, back, Readings, FinancialTickSource, new, rewind, keep_time, pace, generate,
  replay,
}

-- The numbers go up, and none is below `floor`.
abbrev pub AscendsFrom : ℕ → List ℕ → Type 0
AscendsFrom floor [] = Unit {0}
AscendsFrom floor (n ∷ ns) = (floor ≤ n) × AscendsFrom (n + 1) ns

AscendsFrom-eq : {a b : ℕ} (ns : List ℕ) → a ≡ b → AscendsFrom a ns → AscendsFrom b ns
AscendsFrom-eq ns e h = rw e at h

module _ {F : Type 0} where
  abbrev pub seqs : List (TickRow F) → List ℕ
  seqs rows = map (λ r. r.seq) rows

  -- The least number that may come behind the first `i` rows.
  abbrev spent : ℕ → List (TickRow F) → ℕ → ℕ
  spent floor rows zero = floor
  spent floor [] (suc i) = floor
  spent floor (r ∷ rows) (suc i) = spent (r.seq + 1) rows i

  spent_le :
      (floor : ℕ) (rows : List (TickRow F)) (i : ℕ) (r : TickRow F)
      → AscendsFrom floor (seqs rows)
      → get_elem? rows i ≡ some r
      → spent floor rows i ≤ r.seq
  spent_le floor [] i r a e = cc
  spent_le floor (x ∷ rows) zero r (h, hs) e = ground arith
  spent_le floor (x ∷ rows) (suc i) r (h, hs) e = spent_le (x.seq + 1) rows i r hs e

  spent-suc :
      (floor : ℕ) (rows : List (TickRow F)) (i : ℕ) (r : TickRow F)
      → get_elem? rows i ≡ some r
      → spent floor rows (suc i) ≡ r.seq + 1
  spent-suc floor [] i r e = cc
  spent-suc floor (x ∷ rows) zero r e = ground arith
  spent-suc floor (x ∷ rows) (suc i) r e = spent-suc (x.seq + 1) rows i r e

  spent_all :
      (floor : ℕ) (rows : List (TickRow F)) (l : TickRow F)
      → back rows ≡ some l
      → spent floor rows (length rows) ≡ l.seq + 1
  spent_all floor [] l e = cc
  spent_all floor (x ∷ []) l e = ground arith
  spent_all floor (x ∷ y ∷ rows) l e = spent_all (x.seq + 1) (y ∷ rows) l e

  floor-le-back :
      (floor : ℕ) (rows : List (TickRow F)) (l : TickRow F)
      → AscendsFrom floor (seqs rows)
      → back rows ≡ some l
      → floor ≤ l.seq
  floor-le-back floor [] l a e = cc
  floor-le-back floor (x ∷ []) l (h, hs) e = ground arith
  floor-le-back floor (x ∷ y ∷ rows) l (h, hs) e =
      omega (arith, floor-le-back (x.seq + 1) (y ∷ rows) l hs e)

  seq-le-back :
      (floor : ℕ) (rows : List (TickRow F)) (i : ℕ) (r l : TickRow F)
      → AscendsFrom floor (seqs rows)
      → get_elem? rows i ≡ some r
      → back rows ≡ some l
      → r.seq ≤ l.seq
  seq-le-back floor [] i r l a e f = cc
  seq-le-back floor (x ∷ []) zero r l a e f = ground arith
  seq-le-back floor (x ∷ []) (suc i) r l a e f = cc
  seq-le-back floor (x ∷ y ∷ rows) zero r l (h, hs) e f =
      ground (arith, floor-le-back (x.seq + 1) (y ∷ rows) l hs f)
  seq-le-back floor (x ∷ y ∷ rows) (suc i) r l (h, hs) e f =
      seq-le-back (x.seq + 1) (y ∷ rows) i r l hs e f

fits_first : (a n w : ℕ) → a + suc n * w < word → a + w < word
fits_first a n w h = grind arith

fits_rest : (a b n w : ℕ) → a + suc n * w < word → b ≤ a + w → b + n * w < word
fits_rest a b n w h k = grind arith

module _ (d : Double) {F : Type 0} where
  -- Above all numbers given out so far.
  abbrev floor_of : FinancialTickSource d F → ℕ
  floor_of s = s.base_seq + spent 0 s.rows s.idx

  -- Keeping time changes nothing of this.
  keep_time-idle :
      (clock : Readings) (r : TickRow F) (s : FinancialTickSource d F)
      → ((keep_time d F clock r s).rows ≡ s.rows)
        × ((keep_time d F clock r s).idx ≡ s.idx)
        × ((keep_time d F clock r s).base_seq ≡ s.base_seq)
  unfolding keep_time pace
  keep_time-idle clock r s = ground arith

  front_of :
      (rows : List (TickRow F)) (l : TickRow F)
      → back rows ≡ some l
      → (r : TickRow F) × (get_elem? rows 0 ≡ some r) × (0 < length rows)
  front_of [] l e = cc
  front_of (x ∷ rows) l e = (x, refl, omega arith)

  row_at :
      (rows : List (TickRow F)) (i : ℕ)
      → i < length rows
      → (r : TickRow F) × (get_elem? rows i ≡ some r)
  row_at [] i h = absurd (omega arith)
  row_at (x ∷ rows) zero h = (x, refl)
  row_at (x ∷ rows) (suc i) h = row_at rows i (omega arith)

  -- Going back to the first row leaves the floor where it was.
  rewind_lem :
      (clock : Readings) (s : FinancialTickSource d F) (l : TickRow F)
      → back s.rows ≡ some l
      → s.idx ≤ length s.rows
      → floor_of s + (l.seq + 1) < word
      → (s' : FinancialTickSource d F) × (rewind d F clock s ≡ some s')
        × (s'.rows ≡ s.rows)
        × (s'.idx < length s.rows)
        × (s'.base_seq + spent 0 s.rows s'.idx ≡ floor_of s)
  unfolding rewind
  rewind_lem clock s l e i small = elim (Bool-cases (leb (length s.rows) s.idx)) [
    | inl over ↦
        let (r, first, some_row) = front_of s.rows l e in
        let here : s.idx ≡ length s.rows = ground arith in
        let all : spent 0 s.rows s.idx ≡ l.seq + 1 = rw here (spent_all 0 s.rows l e) in
        (
          record s {
            idx = 0;
            start_real = pos clock.rewound_at;
            start_log = r.timestamp_ns;
            loop_count = add_word s.loop_count 1;
            base_seq = s.base_seq + (l.seq + 1);
          },
          ground (arith, first, e),
          refl,
          some_row,
          omega (arith, all),
        )
    | inr inside ↦ (s, ground arith, refl, ground arith, refl)
  ]

  generate_from :
      (clock : Readings) (s s0 : FinancialTickSource d F) (r : TickRow F)
      → rewind d F clock s ≡ some s0
      → get_elem? s0.rows s0.idx ≡ some r
      → s0.idx + 1 < word
      → r.seq + s0.base_seq < word
      → generate d F clock s
        ≡ some (
          make clock.made_at r.features 0 (r.seq + s0.base_seq),
          record (keep_time d F clock r s0) { ground_truth_label = r.label; idx = s0.idx + 1 },
        )
  unfolding generate
  generate_from clock s s0 r went here inner fits =
      let (rows, idx, base) = keep_time-idle clock r s0 in
      let e1 : add_word r.seq (keep_time d F clock r s0).base_seq ≡ r.seq + s0.base_seq =
        rw base (omega arith) in
      let e2 : add_word (keep_time d F clock r s0).idx 1 ≡ s0.idx + 1 = rw idx (omega arith) in
      rw (went, generate, here, e1, e2) refl

  generate_ascends :
      (clock : Readings) (s : FinancialTickSource d F) (l : TickRow F)
      → AscendsFrom 0 (seqs s.rows)
      → back s.rows ≡ some l
      → s.idx ≤ length s.rows
      → length s.rows < word
      → floor_of s + (l.seq + 1) < word
      → (ev : Event (FeatureVector F)) × (s' : FinancialTickSource d F) × (generate d F clock s
          ≡ some (ev, s'))
        × (s'.rows ≡ s.rows)
        × (s'.idx ≤ length s.rows)
        × (floor_of s ≤ ev.seq)
        × (floor_of s' ≡ ev.seq + 1)
        × (ev.seq + 1 ≤ floor_of s + (l.seq + 1))
  unfolding generate make
  generate_ascends clock s l a e i len small =
      let (s0, went, same, inside, floor) = rewind_lem clock s l e i small in
      let (r, here) = row_at s.rows s0.idx inside in
      let s1 = keep_time d F clock r s0 in
      let (rows, idx, base) = keep_time-idle clock r s0 in
      let low = spent_le 0 s.rows s0.idx r a here in
      let high = seq-le-back 0 s.rows s0.idx r l a here e in
      let next = spent-suc 0 s.rows s0.idx r here in
      let all_rows : s1.rows ≡ s.rows = rows ∙ same in
      let step : s0.idx + 1 ≡ suc s0.idx = omega arith in
      (
        make clock.made_at r.features 0 (r.seq + s0.base_seq),
        record s1 { ground_truth_label = r.label; idx = s0.idx + 1 },
        generate_from clock s s0 r went (rw same here) (omega arith) (omega (arith, high, floor)),
        rows ∙ same,
        omega arith,
        omega (arith, low, floor),
        rw (all_rows, base, step, next) (omega arith),
        omega (arith, high, floor),
      )

  replay_step :
      (clock : Readings) (clocks : List Readings) (s s' t : FinancialTickSource d F)
      (ev : Event (FeatureVector F)) (evs : List (Event (FeatureVector F)))
      → generate d F clock s ≡ some (ev, s')
      → replay d F clocks s' ≡ some (evs, t)
      → replay d F (clock ∷ clocks) s ≡ some (ev ∷ evs, t)
  unfolding replay
  replay_step clock clocks s s' t ev evs e f = rw (e, replay, f) refl

  replay_ascends :
      (clocks : List Readings) (s : FinancialTickSource d F) (l : TickRow F)
      → AscendsFrom 0 (seqs s.rows)
      → back s.rows ≡ some l
      → s.idx ≤ length s.rows
      → length s.rows < word
      → floor_of s + length clocks * (l.seq + 1) < word
      → (evs : List (Event (FeatureVector F))) × (s' : FinancialTickSource d F) × (replay d F clocks
            s
          ≡ some (evs, s'))
        × (length evs ≡ length clocks)
        × AscendsFrom (floor_of s) (map (λ ev. ev.seq) evs)
  unfolding replay
  replay_ascends [] s l a e i len small = ([], s, refl, refl, tt)
  replay_ascends (clock ∷ clocks) s l a e i len small =
      let (ev, s', made, same, inside, low, floor, high) =
        generate_ascends clock s l a e i len
          (fits_first (floor_of s) (length clocks) (l.seq + 1) small) in
      let small' =
        fits_rest (floor_of s) (floor_of s') (length clocks) (l.seq + 1) small
          (omega (arith, floor, high)) in
      let (evs, t, more, count, up) =
        replay_ascends clocks s' l (rw same a) (rw same e) (rw same inside) (rw same len) small' in
      (
        ev ∷ evs,
        t,
        replay_step clock clocks s s' t ev evs made more,
        ap suc count,
        (low, AscendsFrom-eq (map (λ ev. ev.seq) evs) floor up),
      )

  -- A table with ascending numbers can be replayed for as long as its numbers fit the word: each call
  -- gives out an event, and the numbers go up all the time, also from one round to the next.
  pub replay-AscendsFrom :
      (rows : List (TickRow F)) (mode : ReplayMode) (speed_factor : d.Carrier) (l : TickRow F)
      → (clocks : List Readings) → AscendsFrom 0 (seqs rows)
      → back rows ≡ some l
      → length rows < word
      → length clocks * (l.seq + 1) < word
      → (evs : List (Event (FeatureVector F))) × (s : FinancialTickSource d F) × (replay d F clocks
            (new d F rows mode speed_factor)
          ≡ some (evs, s))
        × (length evs ≡ length clocks)
        × AscendsFrom 0 (map (λ ev. ev.seq) evs)
  unfolding new
  replay-AscendsFrom rows mode speed_factor l clocks a e len small =
      replay_ascends clocks (new d F rows mode speed_factor) l a e (omega arith) len (omega arith)
