-- ===== src/Reporting.antt =====
-- src/reporting/: what is done with the results of a run.
pub mod Redact
pub mod History
pub mod Diff
pub mod Summary
pub mod Persist
pub mod Loaded
pub mod Metrics
pub mod Notify
pub mod Tests
