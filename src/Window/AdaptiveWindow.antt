-- ===== src/Window/AdaptiveWindow.antt =====
-- `AdaptiveWindowOp` of include/klstream/window/adaptive_window_op.hpp. The time that the choice of a size
-- takes is an argument.
use klstream.Prelude.{ℕ, ◌≤◌, List, ◌++◌, map, ◌==◌, if◌then◌else◌, add_word}
use klstream.Core.Double.{Double}
use klstream.Core.Event.{Event}
use klstream.Core.Backpressure
use klstream.Core.Backpressure.{EmaOccupancyTracker, occupancy}
use klstream.Core.SpscQueue.{SpscQueue}
use klstream.Core.SpscQueue.Client.{items}
use klstream.Operators.Outlet.{retry, held}
use klstream.Operators.Stage.{Ticked}
use klstream.Operators.Node
use klstream.Operators.Node.{Node, Handler}
use klstream.Window.Batch.{FeatureVector, WindowBatch}
use klstream.Window.Controller
use klstream.Window.Controller.{AdaptiveWindowController}
use klstream.Window.Filling.{Filling, fill, points_of, batched, InProgress}

module _ (d : Double) (F : Type 0) where
  pub record AdaptiveWindow : Type 0 where
    pub controller : AdaptiveWindowController d
    pub tracker : EmaOccupancyTracker d
    pub filling : Filling F
    pub overhead_ns_sum : ℕ
    pub overhead_samples : ℕ

  abbrev pub AdaptiveWindowOp : Type 0
  AdaptiveWindowOp = Node AdaptiveWindow (WindowBatch F)

  -- What a tick does first at the start of a window, with the occupancy `occ` of the output queue.
  unfoldable pub choose_target : ℕ → d.Carrier → AdaptiveWindow → AdaptiveWindow
  choose_target elapsed occ w =
      let t = Backpressure.update d occ w.tracker in
      let c = Controller.update d t.ema w.controller in
      record w {
        tracker = t;
        controller = c;
        filling = record w.filling { target_w = c.current_w };
        overhead_ns_sum = add_word w.overhead_ns_sum elapsed;
        overhead_samples = add_word w.overhead_samples 1;
      }

  -- The window at the pop.
  unfoldable pub prepared :
      ℕ → AdaptiveWindowOp → SpscQueue (Event (WindowBatch F)) → AdaptiveWindowOp
  unfolding choose_target
  prepared elapsed n output =
      if n.own.filling.buffer.count == 0
      then record n { own = choose_target elapsed (occupancy d output) n.own }
      else n

  unfoldable pub handle : WindowBatch F → Handler AdaptiveWindow (FeatureVector F) (WindowBatch F)
  handle fresh w in_ev o output =
      let (status, f, o', output') = fill 0 fresh w.filling in_ev o output in
      (status, record w { filling = f }, o', output')

  unfoldable pub tick :
      WindowBatch F
      → ℕ
      → AdaptiveWindowOp
      → SpscQueue (Event (FeatureVector F))
      → SpscQueue (Event (WindowBatch F))
      → Ticked AdaptiveWindowOp (FeatureVector F) (WindowBatch F)
  unfolding handle prepared
  tick fresh elapsed n input output =
      if n.outlet.has_pending
      then (let (status, o, output') = retry n.outlet output in
          (status, record n { outlet = o }, input, output'))
      else Node.take_one (handle fresh) (prepared elapsed n output) input output

  -- The controller's size and the window's target are within the controller's bounds, and the batch
  -- is in progress.
  abbrev pub InRange : AdaptiveWindow → Type 0
  InRange w =
      (w.controller.w_min ≤ w.controller.current_w)
      × (w.controller.current_w ≤ w.controller.w_max)
      × (w.filling.target_w ≤ w.controller.w_max)
      × InProgress w.filling

  -- All the points that have gone through the operator, oldest first.
  abbrev pub all_points :
      AdaptiveWindowOp
      → SpscQueue (Event (FeatureVector F))
      → SpscQueue (Event (WindowBatch F))
      → List (FeatureVector F)
  all_points n input output =
      batched (items output ++ held n.outlet)
      ++ (points_of n.own.filling.buffer
          ++ map (λ (e : Event (FeatureVector F)). e.payload) (items input))
