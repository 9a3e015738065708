-- ===== src/Window.antt =====
-- include/klstream/window: windows of market ticks, the controller of their size, and the scoring of a
-- window.
pub mod Batch
pub mod Filling
pub mod AdaptiveWindow
pub mod DataDrivenWindow
pub mod Controller
pub mod Inference
pub mod ResultSink
pub mod TickSource
pub mod ReplayFile
mod Tests
mod FileTests
