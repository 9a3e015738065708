-- ===== src/Programs/Detection.antt =====
-- adaptive_window/main.cpp with its fixed architecture: windows of 128 ticks and the scores of their
-- points. The forest is known by its score of a point.
pub mod Batches
pub mod Flags
pub mod Results
use Prim.Native.String.{String}
use klstream.Prelude.{ℕ, false, List, [], ◌∷◌}
use klstream.Core.Double.{Double}
use klstream.Core.Event.{Event}
use klstream.Core.SpscQueue.{SpscQueue}
use klstream.Operators.Outlet.{Outlet}
use klstream.Operators.CountWindow
use klstream.Operators.Pipeline.{Chain, State}
use klstream.Operators.Stage.{Stage}
use klstream.Operators.Node.{promise}
use klstream.Programs.BasicPipeline.{metrics_of}
use klstream.Window.Batch.{FeatureVector, WindowBatch, DetectionResult, push_back}
use klstream.Window.Inference
use klstream.Window.Inference.{Inference, inference_tick-Keeps}

-- The loop of the fixed window's lambda, from the batch `wb` on.
unfoldable pub fill_batch :
    {F : Type 0} → WindowBatch F → List (Event (FeatureVector F)) → WindowBatch F
fill_batch wb [] = wb
fill_batch wb (ev ∷ evs) = fill_batch (push_back ev.payload ev.seq wb) evs

module _ (d : Double) (F : Type 0) where
  unfoldable pub inference_stage : Stage (WindowBatch F) (DetectionResult d.Carrier F)
  inference_stage = record {
    State = Inference.InferenceOp d F;
    tick = Inference.tick d F;
    promise = promise (Inference.owed d F);
    tick-Keeps = inference_tick-Keeps d F;
  }

  -- The window stage and the inference.
  unfoldable pub operators : Chain (FeatureVector F) (DetectionResult d.Carrier F)
  unfolding inference_stage CountWindow.stage
  operators = Chain.link {B = WindowBatch F} CountWindow.stage (Chain.last inference_stage)

  -- Their state at the start, with the queue between them; `fresh` is `WindowBatch{}`, and the last two
  -- are what `pending_` starts with.
  unfoldable pub operators_at_rest :
      WindowBatch F
      → Inference d F
      → SpscQueue (Event (WindowBatch F))
      → Event (WindowBatch F)
      → Event (DetectionResult d.Carrier F)
      → State operators
  unfolding operators fill_batch inference_stage CountWindow.stage
  operators_at_rest fresh op q_win_inf no_window no_result = (
    record {
      own = record { window_size = 128; aggr = fill_batch fresh; buffer = []; window_start_ts = 0 };
      outlet = record {
        pending = no_window;
        has_pending = false;
        metrics = metrics_of "window_op";
      };
    },
    q_win_inf,
    record {
      own = op;
      outlet = record {
        pending = no_result;
        has_pending = false;
        metrics = metrics_of "inference";
      };
    },
  )
