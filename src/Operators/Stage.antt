-- ===== src/Operators/Stage.antt =====
-- The contract of an operator with one input and one output queue: the `tick` of `IOperator` in
-- include/klstream/core/operator.hpp, with what the operator owes for events not yet taken in.
use klstream.Prelude.{◌≡◌, List, ◌++◌}
use klstream.Core.Event.{Event}
use klstream.Core.Operator.{OpStatus}
use klstream.Core.SpscQueue.{SpscQueue}
use klstream.Core.SpscQueue.Client.{IsSound, items}

-- The result of a tick: its status, the operator, and the two queues.
abbrev pub Ticked : Type 0 → Type 0 → Type 0 → Type 0
Ticked S In Out = OpStatus × S × SpscQueue (Event In) × SpscQueue (Event Out)

-- A tick keeps both queues sound, and leaves the same in all: what the output queue holds, followed
-- by what the operator makes of the input queue and of whatever `future` comes behind it.
abbrev pub Keeps :
    {S In Out : Type 0}
    → (S → List (Event In) → List (Event Out))
    → S
    → SpscQueue (Event In)
    → SpscQueue (Event Out)
    → List (Event In)
    → Ticked S In Out
    → Type 0
Keeps promise s input output future (status, s', input', output') =
    IsSound input'
    × IsSound output'
    × (items output' ++ promise s' (items input' ++ future)
        ≡ items output ++ promise s (items input ++ future))

pub record Stage (In Out : Type 0) : Type 1 where
  pub State : Type 0
  pub tick : State → SpscQueue (Event In) → SpscQueue (Event Out) → Ticked State In Out
  pub promise : State → List (Event In) → List (Event Out)
  pub tick-Keeps :
      (s : State) (input : SpscQueue (Event In)) (output : SpscQueue (Event Out))
      (future : List (Event In))
      → IsSound input
      → IsSound output
      → Keeps promise s input output future (tick s input output)
