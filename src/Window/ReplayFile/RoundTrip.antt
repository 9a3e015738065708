-- ===== src/Window/ReplayFile/RoundTrip.antt =====
-- A replay file with a line for each row is read back, and a line that is blank is an error.
use klstream.Prelude.{
  ℕ, ◌<◌, ◌≡◌, refl, ap, ◌∙◌, arith, false, none, some, List, [], ◌∷◌, ◌++◌, map, ◌==◌, word, inl,
  inr, Option-cases,
}
use klstream.Prelude.Int.{pos}
use klstream.Window.TickSource.{TickRow}
use klstream.Window.ReplayFile.{
  Bytes, Conversions, bad_cell, rows, lines, scan, getline, parse_row, parse_rows, of_rows,
  load_lines, load_replay_csv,
}

-- No comma and no end of line.
abbrev pub IsPlain : Bytes → Type 0
IsPlain [] = Unit {0}
IsPlain (c ∷ t) = ((c == b',') ≡ false) × ((c == b'\n') ≡ false) × IsPlain t

-- No end of line.
abbrev pub IsLine : Bytes → Type 0
IsLine [] = Unit {0}
IsLine (c ∷ t) = ((c == b'\n') ≡ false) × IsLine t

-- How a file shows the values, so that the conversions read them back.
pub record Shows {F : Type 0} (conv : Conversions F) : Type 0 where
  pub nat : ℕ → Bytes
  pub float : F → Bytes
  pub nat_plain : (n : ℕ) → IsPlain (nat n)
  pub float_plain : (x : F) → IsPlain (float x)
  pub read_word : (n : ℕ) → n < word → conv.stoull (nat n) ≡ some n
  pub read_float : (x : F) → conv.stof (float x) ≡ some x
  pub read_int : (n : ℕ) → n < 256 → conv.stoi (nat n) ≡ some (pos n)

pub plain_line : (t : Bytes) → IsPlain t → IsLine t
plain_line [] h = tt
plain_line (c ∷ t) (_, h, hs) = (h, plain_line t hs)

pub cell_line : (t u : Bytes) → IsPlain t → IsLine u → IsLine (t ++ b',' ∷ u)
cell_line [] u h k = (refl, k)
cell_line (c ∷ t) u (_, h, hs) k = (h, cell_line t u hs k)

-- A cell in front of a comma, and one at the end.
scan-cell : (t u : Bytes) → IsPlain t → scan (t ++ b',' ∷ u) ≡ (t, some u)
unfolding scan
scan-cell [] u h = refl
scan-cell (c ∷ t) u (h, _, hs) = ground (arith, h, scan-cell t u hs)

scan-end : (t : Bytes) → IsPlain t → scan t ≡ (t, none)
unfolding scan
scan-end [] h = refl
scan-end (c ∷ t) (h, _, hs) = ground (arith, h, scan-end t hs)

pub lines-line : (t u : Bytes) → IsLine t → lines (t ++ b'\n' ∷ u) ≡ t ∷ lines u
unfolding lines
lines-line [] u h = refl
lines-line (c ∷ t) u (h, hs) = rw (h, lines-line t u hs)

module _ {F : Type 0} (conv : Conversions F) (show : Shows conv) where
  -- The line of a row; `mid_price` is the cell that is not used.
  abbrev pub row_line : Bytes → TickRow F → Bytes
  row_line mid_price r =
      let f = r.features in
      show.nat r.seq
      ++ b','
        ∷ (show.nat r.timestamp_ns
            ++ b','
              ∷ (mid_price
                  ++ b','
                    ∷ (show.float f.log_return
                        ++ b','
                          ∷ (show.float f.rolling_vol
                              ++ b','
                                ∷ (show.float f.order_imbalance
                                    ++ b','
                                      ∷ (show.float f.spread_bps
                                          ++ b','
                                            ∷ (show.float f.volume
                                                ++ b','
                                                  ∷ (show.nat r.label
                                                      ++ b',' ∷ show.nat r.is_burst_period))))))))

  -- The values fit their types.
  abbrev pub Fits : TickRow F → Type 0
  Fits r = (r.seq < word) × (r.timestamp_ns < word) × (r.label < 256) × (r.is_burst_period < 256)

  row-IsLine :
      (mid_price : Bytes) (r : TickRow F) → IsPlain mid_price → IsLine (row_line mid_price r)
  row-IsLine mid_price r h =
      let f = r.features in
      cell_line _ _ (show.nat_plain r.seq) (
        cell_line _ _ (show.nat_plain r.timestamp_ns) (
          cell_line _ _ h (
            cell_line _ _ (show.float_plain f.log_return) (
              cell_line _ _ (show.float_plain f.rolling_vol) (
                cell_line _ _ (show.float_plain f.order_imbalance) (
                  cell_line _ _ (show.float_plain f.spread_bps) (
                    cell_line _ _ (show.float_plain f.volume) (
                      cell_line _ _ (show.nat_plain r.label)
                        (plain_line _ (show.nat_plain r.is_burst_period))))))))))

  parse_row-row_line :
      (mid_price : Bytes) (r : TickRow F)
      → IsPlain mid_price
      → Fits r
      → parse_row conv (row_line mid_price r) ≡ some r
  unfolding parse_row
  parse_row-row_line mid_price r h (s, t, l, b) =
      let f = r.features in
      rw
        (
          scan-cell _ _ (show.nat_plain r.seq),
          show.read_word r.seq s,
          scan-cell _ _ (show.nat_plain r.timestamp_ns),
          show.read_word r.timestamp_ns t,
          scan-cell _ _ h,
          scan-cell _ _ (show.float_plain f.log_return),
          show.read_float f.log_return,
          scan-cell _ _ (show.float_plain f.rolling_vol),
          show.read_float f.rolling_vol,
          scan-cell _ _ (show.float_plain f.order_imbalance),
          show.read_float f.order_imbalance,
          scan-cell _ _ (show.float_plain f.spread_bps),
          show.read_float f.spread_bps,
          scan-cell _ _ (show.float_plain f.volume),
          show.read_float f.volume,
          scan-cell _ _ (show.nat_plain r.label),
          show.read_int r.label l,
          scan-end _ (show.nat_plain r.is_burst_period),
          show.read_int r.is_burst_period b,
        )
        (ground (arith, l, b))

  -- The lines of the rows, each with a text in the column that is not used.
  abbrev pub print_rows : List (Bytes × TickRow F) → Bytes
  print_rows [] = []
  print_rows ((mid_price, r) ∷ rs) = row_line mid_price r ++ b'\n' ∷ print_rows rs

  abbrev pub AllFit : List (Bytes × TickRow F) → Type 0
  AllFit [] = Unit {0}
  AllFit ((mid_price, r) ∷ rs) = (IsPlain mid_price × Fits r) × AllFit rs

  abbrev pub table : List (Bytes × TickRow F) → List (TickRow F)
  table = map (λ (p : Bytes × TickRow F). p.1)

  parse_rows-print_rows :
      (rs : List (Bytes × TickRow F))
      → AllFit rs
      → parse_rows conv (lines (print_rows rs)) ≡ some (table rs)
  unfolding parse_rows lines
  parse_rows-print_rows [] h = refl
  parse_rows-print_rows ((mid_price, r) ∷ rs) ((h, k), hs) = rw (
    lines-line (row_line mid_price r) (print_rows rs) (row-IsLine mid_price r h),
    parse_row-row_line mid_price r h k,
    parse_rows-print_rows rs hs,
  )

  -- Where the conversions read back what is shown, a file of a header and a line for each row, whose
  -- values fit their types, is read back whole and in order, whatever stands in the column that is
  -- not used.
  pub load_replay_csv-print_rows :
      (header : Bytes) (rs : List (Bytes × TickRow F))
      → IsLine header
      → AllFit rs
      → load_replay_csv conv (some (header ++ b'\n' ∷ print_rows rs)) ≡ rows (table rs)
  unfolding load_replay_csv load_lines of_rows
  load_replay_csv-print_rows header rs h hs =
      ap (load_lines conv) (lines-line header (print_rows rs) h)
      ∙ ap (of_rows conv) (parse_rows-print_rows rs hs)

module _ {F : Type 0} (conv : Conversions F) where
  parse_rows-blank :
      (before after : List Bytes)
      → conv.stoull [] ≡ none
      → parse_rows conv (before ++ [] ∷ after) ≡ none
  unfolding parse_rows parse_row getline scan
  parse_rows-blank [] after e = rw e
  parse_rows-blank (l ∷ ls) after e = elim (Option-cases (parse_row conv l)) [
    | inl n ↦ rw n
    | inr (r, n) ↦ rw (n, parse_rows-blank ls after e)
  ]

  -- As `stoull` throws for an empty text, a blank line anywhere behind the header makes the whole load
  -- fail, whatever the other lines hold.
  pub load_replay_csv-blank :
      (text header : Bytes) (before after : List Bytes)
      → conv.stoull [] ≡ none
      → lines text ≡ header ∷ (before ++ [] ∷ after)
      → load_replay_csv conv (some text) ≡ bad_cell
  unfolding load_replay_csv load_lines of_rows
  load_replay_csv-blank text header before after e l =
      ap (load_lines conv) l ∙ ap (of_rows conv) (parse_rows-blank before after e)
