-- ===== src/Queue.antt =====
-- The durable queue of fact-extraction jobs.
pub mod Table
pub mod Ops
pub mod Done
pub mod Stays
pub mod Retry
pub mod Tests
