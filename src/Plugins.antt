-- ===== src/Plugins.antt =====
-- The plugin registry.
pub mod Registry
pub mod Claims
pub mod Tests
