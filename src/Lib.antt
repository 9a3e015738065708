-- ===== src/Lib.antt =====
-- KLStream: a header-only C++17 library for streams of events in one process. Operators are joined
-- by bounded ring buffers; worker threads tick the operators in turn; each tick handles at most one
-- event and says whether it made progress, had nothing to do or was blocked by a full queue.
--
-- The parts, their files here, and their code:
--
-- - Prelude: numbers, tests, lists, machine words and masks that all parts share.
-- - Core/Fifo: the contract of a bounded queue, with no code of its own.
-- - Core/SpscQueue: `SPSCQueue` of include/klstream/core/spsc_queue.hpp. `init` is the constructor,
--   `try_push`, `try_pop`, `empty` and `used` are the methods (`used` is the numerator of `occupancy`).
--   SpscQueue/Invariant and SpscQueue/Contents are about calls one at a time; SpscQueue/Client is the
--   view that the operators have of a queue. SpscQueue/Threads has one producer thread and one consumer
--   thread, with each access to shared memory a step of its own.
-- - Core/MpmcQueue: `MPMCQueue` of include/klstream/core/mpmc_queue.hpp. `init` is the constructor,
--   `slot`, `diff` and `used` are expressions of its methods; MpmcQueue/Threads has `try_push` and
--   `try_pop` as steps of any number of threads, with the history of what went in and came out at
--   each position, and its children have the invariant, its proof and what follows.
-- - Core/Event: `Event` of include/klstream/core/event.hpp.
-- - Core/Metrics: counters and the latency histogram of include/klstream/core/metrics.hpp.
-- - Core/Operator and Operators/Stage: the interface of include/klstream/core/operator.hpp.
-- - Core/Worker: `WorkerThread` of include/klstream/core/worker.hpp; Worker/Backoff has its pauses.
-- - Core/Runtime: `Runtime` of include/klstream/core/runtime.hpp; Core/Pinning has the affinity hints
--   of include/klstream/core/pinning.hpp.
-- - Core/GraphRuntime: the other `Runtime`, of src/core/runtime.cpp; GraphRuntime/Wiring is about the
--   queues that `init` gives to the operators, GraphRuntime/Lifecycle about the calls of its methods.
-- - Core/Backpressure: include/klstream/core/backpressure.hpp; Core/Double is the interface to the
--   arithmetic of `double`.
-- - Operators/Outlet and Operators/Node: what the `tick`s of include/klstream/operators share, which
--   is the retry of an event held back, the pop of one event, and the push of a new one.
-- - Operators/Map, Filter, Aggregate, CountWindow, TimeWindow, Source and Sink: the operators of
--   include/klstream/operators (`CountWindow` and `TimeWindow` are `TumblingCountWindow` and
--   `TumblingTimeWindow` of window.hpp).
--   Operators/Progress is about the statuses of their ticks.
-- - Window/Batch, Window/Controller, Window/Inference and Window/TickSource: types.hpp,
--   `AdaptiveWindowController`, `InferenceOp` and `FinancialTickSource` of include/klstream/window.
--   To `InferenceOp` the forest is its function from points to scores. Window/AdaptiveWindow and
--   Window/DataDrivenWindow: `AdaptiveWindowOp` and `DataDrivenWindowOp`, whose common part is
--   Window/Filling.
-- - Model/Tree and Model/Forest: include/klstream/model/isolation_forest.hpp, with the trees' array of
--   nodes, training, scores, and (Forest/Storage) `save` and `load`. Model/Random is the interface to
--   `float`, the library's mathematics and its random numbers.
-- - Window/ReplayFile and Window/ResultSink: `load_replay_csv` of
--   include/klstream/window/financial_tick_source.hpp and `ResultSink` of result_sink.hpp; a file is
--   the list of its bytes.
-- - Operators/Pipeline: a chain of operators joined by queues, under any order of ticks.
--
-- - Programs/Network: a source, a chain of operators and a sink, under any order of ticks. `turn` is
--   one tick by a worker; Network/Invariant and Network/Delivery are about runs of it.
-- - Programs/BasicPipeline and Programs/YahooBenchmark: examples/basic_pipeline/main.cpp and
--   examples/yahoo_streaming_benchmark/main.cpp up to the start of the workers. `assemble` makes the
--   queues and joins the operators. Programs/Detection: the window and inference stages of
--   adaptive_window/main.cpp with its fixed architecture.
--
-- How the parts interact: an operator holds its output side (`Outlet`) and its own state, and a tick
-- takes and returns the queues on both sides. A stage is an operator with the proof of its contract,
-- and a chain of stages is what a pipeline runs. The runtime and the worker know an operator by its
-- number alone, and record the calls that they make on it.
--
-- Bounds: `std::size_t` and `std::uint64_t` are numbers with remainders by 2 ^ 64 written out, `int` is
-- bounded by 2 ^ 31 - 1. A ring's capacity is a power of two from 2 to 2 ^ 63. A run of
-- the queue for many threads has less than 2 ^ 63 - capacity steps, so that positions do not reach
-- the sign. `walk`, the loop of `path_length`, has as much fuel as the tree has nodes; `build_node`
-- recurs on the levels left to the height limit. No other definition uses fuel.
-- A batch holds 256 points; a write behind them is undefined, and no theorem on windows reaches it.
--
-- Memory order: the steps of the threads are interleaved as if memory were sequentially
-- consistent. The acquire and release pairs of the code are not modelled.
--
-- Parameters: the user's functions (transform, predicate, accumulator, aggregate, generator, consumer)
-- are functions of the model, and the clock's readings are arguments. So are what the generator of
-- random numbers draws and shuffles, the bytes that represent a value in a file, the library's
-- conversions between numbers and text, the order in which an `unordered_map` is walked, and the memory
-- that a queue is made in. The operations of `double` are the fields of `Double`; a theorem that needs
-- laws of them takes them as hypotheses.
--
-- Not modelled: the reporter's output, the request to the operating system for a core, and sleeping,
-- which have no effect on values; the counter of events of src/core/runtime.cpp, and all classes
-- that this file takes from headers that the repository does not have; of the programs in Programs, the reading of arguments, the times of running and what they print;
-- the other programs under benchmarks, research, adaptive_window and tests, and the scripts.
pub mod Prelude
pub mod Core
pub mod Operators
pub mod Window
pub mod Model
pub mod Programs
