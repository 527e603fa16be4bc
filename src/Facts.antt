-- ===== src/Facts.antt =====
-- Bi-temporal facts: the `facts` table and the methods over it, src/mark/store/_sqlite/facts.py and
-- src/mark/store/_sqlite/facts_multi.py.
pub mod Table
pub mod Select
pub mod Ops
mod Update
pub mod Chain
pub mod Invariant
pub mod Keeps
pub mod Retracts
pub mod Import
pub mod Imported
pub mod Runs
pub mod AsOf
pub mod Writes
pub mod Again
pub mod InForce
pub mod Effect
pub mod Kept
pub mod Asserted
mod Tests
