-- ===== src/Types.antt =====
-- The memory types: src/mark/types (memory_enums.py, memory_fragment.py).
pub mod Enums
pub mod Fragment
pub mod Lifecycle
mod Tests
