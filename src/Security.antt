-- ===== src/Security.antt =====
-- The checks on the texts that the redaction rules match.
pub mod Checksums
pub mod Windows
pub mod Merged
mod Hints
pub mod Typos
mod Tests
