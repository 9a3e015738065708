-- ===== src/Programs.antt =====
-- The programs under examples and adaptive_window: a source, a chain of operators and a sink, and what
-- each program puts into them.
pub mod Network
pub mod BasicPipeline
pub mod YahooBenchmark
pub mod Detection
mod Tests
