-- ===== src/Runner.antt =====
-- src/runner/: installer tests, their results, and the two backends that run them.
pub mod Installer
pub mod Capture
pub mod Shell
pub mod Retry
pub mod Executor
pub mod Parallel
pub mod Profile
pub mod Spec
