-- ===== src/Runner.antt =====
-- internal/runner/runner.go: the pipeline from the frames of the Busy Bar to Home Assistant.
pub mod Translate
pub mod Frame
pub mod Lifecycle
pub mod Parts
pub mod Building
pub mod Wiring
pub mod Closing
