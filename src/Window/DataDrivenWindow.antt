-- ===== src/Window/DataDrivenWindow.antt =====
-- `DataDrivenWindowOp` of include/klstream/window/data_driven_window_op.hpp, where `d` is the arithmetic of
-- `float`. The time that the choice of a size takes is an argument. `out_ev.key` is never set in the
-- code: `stray_key` stands for what it then is.
pub mod Target
pub mod Conservation
use klstream.Prelude.{
  ℕ, ◌+◌, ◌-◌, ◌≡◌, ◌<◌, ◌%◌, ◌^◌, arith, false, List, ◌++◌, map, ◌==◌, if◌then◌else◌, inl, inr,
  Bool-cases, add_word,
}
use klstream.Core.Double.{Double}
use klstream.Core.Event.{Event}
use klstream.Core.SpscQueue.{SpscQueue, try_pop}
use klstream.Core.SpscQueue.Client.{IsSound, items, try_pop-Popped}
use klstream.Operators.Outlet.{retry, held, items-retry}
use klstream.Operators.Stage.{Ticked}
use klstream.Operators.Node
use klstream.Operators.Node.{Node, Handler}
use klstream.Window.Batch.{FeatureVector, WindowBatch}
use klstream.Window.Filling.{Filling, fill, points_of, batched, InProgress, fill-Keeps}

-- `std::clamp(v, lo, hi)`
abbrev pub clamp : (d : Double) → d.Carrier → d.Carrier → d.Carrier → d.Carrier
clamp d v lo hi = if d.lt v lo then lo else if d.lt hi v then hi else v

module _ (d : Double) where
  pub record DataDrivenWindow : Type 0 where
    pub w_min : ℕ
    pub w_max : ℕ
    pub vol_low : d.Carrier
    pub vol_high : d.Carrier
    pub last_vol : d.Carrier
    pub filling : Filling d.Carrier
    pub overhead_ns_sum : ℕ
    pub overhead_samples : ℕ

  abbrev pub DataDrivenWindowOp : Type 0
  DataDrivenWindowOp = Node DataDrivenWindow (WindowBatch d.Carrier)

  -- Where the volatility seen last lies between the two limits: 0 at the low one, 1 at the high one.
  abbrev pub ratio : DataDrivenWindow → d.Carrier
  ratio w = d.over (d.minus w.last_vol w.vol_low) (d.minus w.vol_high w.vol_low)

  -- The size for the volatility seen last.
  unfoldable pub target_for : DataDrivenWindow → ℕ
  target_for w =
      let frac = clamp d (ratio w) (d.of_nat 0) (d.of_nat 1) in
      let span = d.of_nat ((w.w_max + 2 ^ 32 - w.w_min) % 2 ^ 32) in
      d.truncate (d.minus (d.of_nat w.w_max) (d.times frac span))

  -- What a tick does first at the start of a window.
  unfoldable pub choose_target : ℕ → DataDrivenWindow → DataDrivenWindow
  unfolding target_for
  choose_target elapsed w = record w {
    filling = record w.filling { target_w = target_for w };
    overhead_ns_sum = add_word w.overhead_ns_sum elapsed;
    overhead_samples = add_word w.overhead_samples 1;
  }

  -- The window at the pop.
  unfoldable pub prepared : ℕ → DataDrivenWindowOp → DataDrivenWindowOp
  unfolding choose_target
  prepared elapsed n =
      if n.own.filling.buffer.count == 0 then record n { own = choose_target elapsed n.own } else n

  unfoldable pub handle :
      ℕ
      → WindowBatch d.Carrier
      → Handler DataDrivenWindow (FeatureVector d.Carrier) (WindowBatch d.Carrier)
  handle stray_key fresh w in_ev o output =
      let (status, f, o', output') = fill stray_key fresh w.filling in_ev o output in
      (status, record w { filling = f; last_vol = in_ev.payload.rolling_vol }, o', output')

  unfoldable pub tick :
      ℕ
      → WindowBatch d.Carrier
      → ℕ
      → DataDrivenWindowOp
      → SpscQueue (Event (FeatureVector d.Carrier))
      → SpscQueue (Event (WindowBatch d.Carrier))
      → Ticked DataDrivenWindowOp (FeatureVector d.Carrier) (WindowBatch d.Carrier)
  unfolding handle prepared
  tick stray_key fresh elapsed n input output =
      if n.outlet.has_pending
      then (let (status, o, output') = retry n.outlet output in
          (status, record n { outlet = o }, input, output'))
      else Node.take_one (handle stray_key fresh) (prepared elapsed n) input output
