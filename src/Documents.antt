-- ===== src/Documents.antt =====
-- Chunking of documents: src/mark/documents/chunking.py.
pub mod Packing
pub mod Packed
mod Tests
