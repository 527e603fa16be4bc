-- ===== src/Embeddings.antt =====
-- The cache of embeddings.
pub mod Cache
pub mod Transparent
pub mod Bound
pub mod Tests
