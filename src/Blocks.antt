-- ===== src/Blocks.antt =====
-- Sealed memory blocks: hashing, storage, the chain and the protection of sealed members.
pub mod Hashing
pub mod Store
pub mod Chain
pub mod Verdict
pub mod Seal
pub mod Tamper
pub mod Links
pub mod Holds
pub mod Extends
pub mod Quarantine
pub mod Members
pub mod Tests
