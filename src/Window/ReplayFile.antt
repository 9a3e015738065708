-- ===== src/Window/ReplayFile.antt =====
-- `load_replay_csv` of include/klstream/window/financial_tick_source.hpp. A file is its bytes. The
-- conversions of the standard library are a parameter; `none` is one that throws.
pub mod RoundTrip
use klstream.Prelude.{
  ℕ, ◌-◌, ◌%◌, ◌≡◌, Bool, Option, none, some, List, [], ◌∷◌, ◌==◌, if◌then◌else◌, ◌>>=◌,
}
use klstream.Prelude.Int.{ℤ, pos, negsuc}
use klstream.Window.Batch.{FeatureVector}
use klstream.Window.TickSource.{TickRow}

abbrev pub Bytes : Type 0
Bytes = List ℕ

pub record Conversions (F : Type 0) : Type 0 where
  pub stoull : Bytes → Option ℕ
  pub stof : Bytes → Option F
  pub stoi : Bytes → Option ℤ

-- The exceptions: the file cannot be opened, or a cell cannot be converted.
pub data Loaded (F : Type 0) : Type 0 where
  cannot_open : Loaded F
  bad_cell : Loaded F
  rows : List (TickRow F) → Loaded F

-- The lines that `while (std::getline(f, line))` reads; the last one may lack its end.
unfoldable pub lines : Bytes → List Bytes
lines [] = []
lines (c ∷ text) =
    let rest = lines text in
    if c == b'\n' then [] ∷ rest else elim rest [ [] ↦ (c ∷ []) ∷ [] | l ∷ ls ↦ (c ∷ l) ∷ ls ]

-- The text up to the comma, and what is behind it; `none` where the end has been met.
unfoldable pub scan : Bytes → Bytes × Option Bytes
scan [] = ([], none)
scan (c ∷ text) =
    let (cell, rest) = scan text in if c == b',' then ([], some text) else (c ∷ cell, rest)

-- `std::getline(ss, cell, ',')`. A stream that has met its end leaves `cell` as it was.
unfoldable pub getline : Option Bytes → Bytes → Bytes × Option Bytes
unfolding scan
getline none cell = (cell, none)
getline (some text) cell = scan text

-- `static_cast<std::uint8_t>`
abbrev pub to_byte : ℤ → ℕ
to_byte (pos n) = n % 256
to_byte (negsuc n) = 255 - n % 256

module _ {F : Type 0} (conv : Conversions F) where
  -- The body of the loop for one line.
  unfoldable pub parse_row : Bytes → Option (TickRow F)
  unfolding getline
  parse_row line = do
    let (c1, s1) = getline (some line) []
    seq ← conv.stoull c1
    let (c2, s2) = getline s1 c1
    timestamp_ns ← conv.stoull c2
    let (c3, s3) = getline s2 c2
    let (c4, s4) = getline s3 c3
    log_return ← conv.stof c4
    let (c5, s5) = getline s4 c4
    rolling_vol ← conv.stof c5
    let (c6, s6) = getline s5 c5
    order_imbalance ← conv.stof c6
    let (c7, s7) = getline s6 c6
    spread_bps ← conv.stof c7
    let (c8, s8) = getline s7 c7
    volume ← conv.stof c8
    let (c9, s9) = getline s8 c8
    label ← conv.stoi c9
    let (c10, s10) = getline s9 c9
    is_burst_period ← conv.stoi c10
    some (record {
      seq = seq;
      timestamp_ns = timestamp_ns;
      features = record {
        log_return = log_return;
        rolling_vol = rolling_vol;
        order_imbalance = order_imbalance;
        spread_bps = spread_bps;
        volume = volume;
      };
      label = to_byte label;
      is_burst_period = to_byte is_burst_period;
    })

  unfoldable pub parse_rows : List Bytes → Option (List (TickRow F))
  parse_rows [] = some []
  parse_rows (l ∷ ls) = do r ← parse_row l; rs ← parse_rows ls; some (r ∷ rs)

  -- `none` where a conversion has thrown.
  unfoldable pub of_rows : Option (List (TickRow F)) → Loaded F
  of_rows none = bad_cell
  of_rows (some rs) = rows rs

  -- The header is skipped.
  unfoldable pub load_lines : List Bytes → Loaded F
  load_lines [] = rows []
  load_lines (header ∷ ls) = of_rows (parse_rows ls)

  unfoldable pub load_replay_csv : Option Bytes → Loaded F
  unfolding lines load_lines
  load_replay_csv none = cannot_open
  load_replay_csv (some text) = load_lines (lines text)
