-- ===== src/Writer.antt =====
-- The crate copc-writer.
pub mod HierarchyPages
pub mod Lod
