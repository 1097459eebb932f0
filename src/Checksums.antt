-- ===== src/Checksums.antt =====
-- src/checksums/: what is known of the installer scripts.
pub mod Ledger
