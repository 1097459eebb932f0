-- ===== src/Config.antt =====
-- src/config/: how the settings are resolved.
pub mod Toml
pub mod Resolve
pub mod Scalars
mod Tests
