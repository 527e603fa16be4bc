-- ===== src/Maintenance.antt =====
-- The maintenance jobs on an agent's fragments: expiry, consolidation, decay and pruning.
pub mod Listing
pub mod Working
pub mod Consolidation
pub mod Plasticity
pub mod Deduplication
pub mod Away
pub mod Sealed
pub mod Jobs
pub mod Pruning
pub mod Nodes
pub mod Merging
pub mod Provenance
pub mod Accounts
pub mod Seeds
pub mod Survivors
pub mod Runs
pub mod Counts
pub mod Decay
pub mod Tests
mod MergeTests
