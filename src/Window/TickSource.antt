-- ===== src/Window/TickSource.antt =====
-- `FinancialTickSource` of include/klstream/window/financial_tick_source.hpp: the replay of a table of
-- rows in a loop. The readings of the clock are arguments. The waits have no effect but on the base
-- of the replay's time, which `pace` moves on where a wait would be longer than ten milliseconds.
pub mod Ascent
use klstream.Prelude.{
  ℕ, ◌+◌, ◌-◌, ◌%◌, ◌==◌, ◌&&◌, Bool, true, false, Option, none, some, List, [], ◌∷◌, length,
  get_elem?, leb, ltb, if◌then◌else◌, add_word, word,
}
use klstream.Prelude.Int.{ℤ, pos, negsuc, ◌-ℤ◌, ◌+ℤ◌}
use klstream.Core.Double.{Double}
use klstream.Core.Event.{Event, make}
use klstream.Window.Batch.{FeatureVector}

pub record TickRow (F : Type 0) : Type 0 where
  pub seq : ℕ
  pub timestamp_ns : ℕ
  pub features : FeatureVector F  -- five fields
  pub label : ℕ
  pub is_burst_period : ℕ

pub data ReplayMode : Type 0 where
  preserve_timing : ReplayMode
  max_rate : ReplayMode

abbrev pub keeps_timing : ReplayMode → Bool
keeps_timing preserve_timing = true
keeps_timing max_rate = false

-- The last of a list.
abbrev pub back : {A : Type 0} → List A → Option A
back [] = none
back (x ∷ []) = some x
back (x ∷ y ∷ xs) = back (y ∷ xs)

-- What the clock reads in one call, in nanoseconds.
pub record Readings : Type 0 where
  pub rewound_at : ℕ
  pub begun_at : ℕ
  pub paced_at : ℕ
  pub made_at : ℕ

module _ (d : Double) (F : Type 0) where
  pub record FinancialTickSource : Type 0 where
    pub rows : List (TickRow F)
    pub mode : ReplayMode
    pub speed_factor : d.Carrier
    pub idx : ℕ
    pub ground_truth_label : ℕ
    pub start_real : ℤ
    pub start_log : ℕ
    pub loop_count : ℕ
    pub base_seq : ℕ

  -- The constructor. The clock's epoch is the initial time.
  unfoldable pub new : List (TickRow F) → ReplayMode → d.Carrier → FinancialTickSource
  new rows mode speed_factor = record {
    rows = rows;
    mode = mode;
    speed_factor = speed_factor;
    idx = 0;
    ground_truth_label = 0;
    start_real = pos 0;
    start_log = 0;
    loop_count = 0;
    base_seq = 0;
  }

  -- Behind the last row the replay goes back to the first. `none` is an access to a row of an empty
  -- table.
  unfoldable pub rewind : Readings → FinancialTickSource → Option FinancialTickSource
  rewind clock s =
      if leb (length s.rows) s.idx
      then elim (get_elem? s.rows 0) [
        | none ↦ none
        | some front ↦ elim (back s.rows) [
          | none ↦ none
          | some last ↦ some (record s {
            idx = 0;
            start_real = pos clock.rewound_at;
            start_log = front.timestamp_ns;
            loop_count = add_word s.loop_count 1;
            base_seq = add_word s.base_seq (add_word last.seq 1);
          })
        ]
      ]
      else some s

  -- The wait for the row's time; one of more than ten milliseconds is cut short.
  unfoldable pub pace : Readings → TickRow F → FinancialTickSource → FinancialTickSource
  unfolding ◌+ℤ◌ ◌-ℤ◌
  pace clock r s =
      let elapsed_log = (r.timestamp_ns + word - s.start_log) % word in
      let scaled_log = pos (d.truncate (d.over (d.of_nat elapsed_log) s.speed_factor)) in
      let now = pos clock.paced_at in
      elim (s.start_real +ℤ scaled_log -ℤ now) [
        | negsuc late ↦ s
        | pos sleep_dur ↦
            if ltb 10_000_000 sleep_dur
            then record s { start_real = now -ℤ scaled_log +ℤ pos 10_000_000 }
            else s
      ]

  -- The first row of the first replay sets the base of time; any other waits for its time.
  unfoldable pub keep_time : Readings → TickRow F → FinancialTickSource → FinancialTickSource
  unfolding pace
  keep_time clock r s =
      if s.idx == 0 && s.loop_count == 0
      then record s { start_real = pos clock.begun_at; start_log = r.timestamp_ns }
      else (if keeps_timing s.mode then pace clock r s else s)

  -- `operator()`
  unfoldable pub generate :
      Readings → FinancialTickSource → Option (Event (FeatureVector F) × FinancialTickSource)
  unfolding rewind keep_time
  generate clock s = elim (rewind clock s) [
    | none ↦ none
    | some s' ↦ elim (get_elem? s'.rows s'.idx) [
      | none ↦ none
      | some r ↦
          let s'' = keep_time clock r s' in
          some (
            make clock.made_at r.features 0 (add_word r.seq s''.base_seq),
            record s'' { ground_truth_label = r.label; idx = add_word s''.idx 1 },
          )
    ]
  ]

  -- The events of a row of calls.
  unfoldable pub replay :
      List Readings
      → FinancialTickSource
      → Option (List (Event (FeatureVector F)) × FinancialTickSource)
  replay [] s = some ([], s)
  replay (clock ∷ clocks) s = elim (generate clock s) [
    | none ↦ none
    | some (ev, s') ↦ elim (replay clocks s') [ none ↦ none | some (evs, t) ↦ some (ev ∷ evs, t) ]
  ]
