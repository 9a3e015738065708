-- ===== src/Window/FileTests.antt =====
-- The theorems on the files of a window's ticks and results, with numbers in strokes.
use klstream.Prelude.{
  ℕ, zero, suc, ◌+◌, ◌≡◌, refl, arith, Option, none, some, List, [], ◌∷◌, ◌++◌, ◌==◌, if◌then◌else◌,
  ◌>>=◌,
}
use klstream.Prelude.Int.{pos}
use klstream.Core.Event.{Event}
use klstream.Core.SpscQueue.{SpscQueue}
use klstream.Core.SpscQueue.Client.{IsSound-of_valid, items}
use klstream.Core.SpscQueue.Invariant.{IsValid}
use klstream.Window.Batch.{DetectionResult}
use klstream.Window.TickSource.{TickRow}
use klstream.Window.ReplayFile.{Bytes, Conversions, rows, bad_cell, lines, load_replay_csv}
use klstream.Window.ReplayFile.RoundTrip.{
  IsPlain, Shows, print_rows, table, load_replay_csv-print_rows, load_replay_csv-blank,
}
use klstream.Prelude.{map}
use klstream.Window.ResultSink
use klstream.Window.ResultSink.ReadBack.{
  cells, columns, IsPlainShown, table as result_table, lines-ticks,
}
use klstream.Window.ResultSink.{ResultSink, Shown, ticks, written, ticks-written}

-- As many strokes as the number says, and a full stop.
abbrev strokes : ℕ → Bytes
strokes zero = b'.' ∷ []
strokes (suc n) = b'x' ∷ strokes n

unfoldable counted : Bytes → Option ℕ
counted [] = none
counted (c ∷ text) =
    let rest = counted text in if c == b'.' then some 0 else (do n ← rest; some (suc n))

counted-strokes : (n : ℕ) → counted (strokes n) ≡ some n
unfolding counted
counted-strokes zero = refl
counted-strokes (suc n) = rw (counted-strokes n)

strokes_plain : (n : ℕ) → IsPlain (strokes n)
strokes_plain zero = (refl, refl, tt)
strokes_plain (suc n) = (refl, refl, strokes_plain n)

abbrev in_strokes : Conversions ℕ
in_strokes = record {
  stoull = counted;
  stof = counted;
  stoi = λ t. (do n ← counted t; some (pos n));
}

abbrev shown_in_strokes : Shows in_strokes
shown_in_strokes = record {
  nat = strokes;
  float = strokes;
  nat_plain = strokes_plain;
  float_plain = strokes_plain;
  read_word = λ n h. counted-strokes n;
  read_float = counted-strokes;
  read_int = λ n h. rw (counted-strokes n);
}

abbrev row : ℕ → TickRow ℕ
row n = record {
  seq = n;
  timestamp_ns = n + 2;
  features = record {
    log_return = 1;
    rolling_vol = 2;
    order_imbalance = 0;
    spread_bps = 3;
    volume = 4;
  };
  label = 1;
  is_burst_period = 0;
}

abbrev two_rows : List (Bytes × TickRow ℕ)
two_rows = (b'9' ∷ [], row 1) ∷ ([], row 2) ∷ []

load_replay_csv-print_rows_example :
    load_replay_csv in_strokes
      (some ((b's' ∷ b',' ∷ []) ++ b'\n' ∷ print_rows in_strokes shown_in_strokes two_rows))
    ≡ rows (table in_strokes shown_in_strokes two_rows)
load_replay_csv-print_rows_example =
    load_replay_csv-print_rows in_strokes shown_in_strokes (b's' ∷ b',' ∷ []) two_rows
      (refl, (refl, tt))
      (
        ((refl, refl, tt), (omega arith, omega arith, omega arith, omega arith)),
        ((tt, (omega arith, omega arith, omega arith, omega arith)), tt),
      )

abbrev with_blank : Bytes
with_blank = b's' ∷ b'\n' ∷ b'x' ∷ b'\n' ∷ b'\n' ∷ b'x' ∷ []

with_blank-lines : lines with_blank ≡ (b's' ∷ []) ∷ (((b'x' ∷ []) ∷ []) ++ [] ∷ ((b'x' ∷ []) ∷ []))
unfolding lines
with_blank-lines = refl

counted-none : counted [] ≡ none
unfolding counted
counted-none = refl

load_replay_csv-blank_example : load_replay_csv in_strokes (some with_blank) ≡ bad_cell
load_replay_csv-blank_example =
    load_replay_csv-blank in_strokes with_blank (b's' ∷ []) ((b'x' ∷ []) ∷ []) ((b'x' ∷ []) ∷ [])
      counted-none with_blank-lines

abbrev plain_numbers : Shown ℕ ℕ
plain_numbers = record { nat = strokes; double = strokes; float = strokes }

abbrev result : ℕ → Event (DetectionResult ℕ ℕ)
result n = record {
  timestamp_ns = n;
  key = 0;
  seq = n;
  payload = record {
    max_score = 2;
    window_size_used = 4;
    first_seq = n;
    last_seq = n + 3;
    flagged_seq = n + 1;
    occupancy_at_decision = 1;
  };
}

abbrev two_results : SpscQueue (Event (DetectionResult ℕ ℕ))
two_results = record {
  buffer = result;
  capacity = 4;
  write_idx = 3;
  write_idx_cached = 1;
  read_idx = 1;
  read_idx_cached = 1;
}

two_results-IsValid : IsValid two_results
two_results-IsValid = record {
  power = (2, refl);
  large = omega arith;
  addressable = omega arith;
  write_in = omega arith;
  read_in = omega arith;
  write_cached_in = omega arith;
  read_cached_in = omega arith;
  producer_lags = omega arith;
  consumer_lags = omega arith;
}

strokes_shown : IsPlainShown plain_numbers
strokes_shown = record { nat = strokes_plain; double = strokes_plain; float = strokes_plain }

lines-ticks_example :
    map cells (lines (ticks plain_numbers (5 ∷ 6 ∷ 7 ∷ []) ResultSink.new two_results).0.out)
    ≡ columns ∷ result_table plain_numbers (5 ∷ 6 ∷ 7 ∷ []) (items two_results)
lines-ticks_example =
    lines-ticks plain_numbers (5 ∷ 6 ∷ 7 ∷ []) two_results strokes_shown
      (IsSound-of_valid two_results-IsValid)
