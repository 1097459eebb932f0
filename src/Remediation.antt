-- ===== src/Remediation.antt =====
-- src/remediation/: the safety check of commands, honest outcomes, and manual suggestions.
pub mod Safety
pub mod Breaker
pub mod Limiter
pub mod Claude
pub mod Outcome
pub mod Risks
pub mod Propose
pub mod Fallback
mod Tests
