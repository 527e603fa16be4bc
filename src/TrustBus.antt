-- ===== src/TrustBus.antt =====
-- The memory bus between agents, with a level of trust on each message.
pub mod Messages
pub mod Bus
pub mod Trusted
mod Tests
