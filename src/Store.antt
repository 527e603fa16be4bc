-- ===== src/Store.antt =====
-- The statement gate of the store.
pub mod Gate
pub mod Runs
pub mod Running
mod Leaving
pub mod Closing
mod Tests
