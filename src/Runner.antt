-- ===== src/Runner.antt =====
-- The runner (pkg/runner/runner.go): the collection of logs, the invocation, and what is proved of
-- them.
pub mod Logs
pub mod Bounds
pub mod Invoke
pub mod Whole
pub mod Status
pub mod Giving
pub mod Examples
mod Tests
