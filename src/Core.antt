-- ===== src/Core.antt =====
-- The crate copc-core.
pub mod Key
pub mod Hierarchy
pub mod Bounds
pub mod Dimension
pub mod Columns
pub mod Streaming
pub mod Info
