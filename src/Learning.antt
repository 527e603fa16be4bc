-- ===== src/Learning.antt =====
-- The filter on the actions of a learned policy, and the buffer of its experiences.
pub mod Buffer
pub mod Safety
pub mod Window
pub mod Tests
