-- ===== src/Governance.antt =====
-- The governance gates that screen content before it becomes memory, and their audit log.
pub mod Gates
pub mod Verdicts
pub mod Consolidating
pub mod Tests
