-- ===== src/Operators.antt =====
-- include/klstream/operators: the operators of a pipeline. An operator's state is a record; the queues
-- that it points to are arguments and results of its `tick`, since other operators share them.
pub mod Outlet
pub mod Stage
pub mod Node
pub mod Map
pub mod Filter
pub mod Aggregate
pub mod CountWindow
pub mod TimeWindow
pub mod Progress
pub mod Sink
pub mod Source
pub mod Pipeline
mod Tests
