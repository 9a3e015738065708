-- ===== src/Core.antt =====
-- include/klstream/core: events, queues, metrics, the worker and the runtime.
pub mod Fifo
pub mod SpscQueue
pub mod MpmcQueue
pub mod Event
pub mod Metrics
pub mod Operator
pub mod Pinning
pub mod Double
pub mod Backpressure
pub mod Worker
pub mod Runtime
pub mod GraphRuntime
