-- ===== src/Reader.antt =====
-- The reader, copc-reader/src.
pub mod Hierarchy
pub mod Pages
pub mod Chunks
pub mod Loading
pub mod Append
pub mod Decode
pub mod Query
pub mod Points
pub mod Coalesce
pub mod Coalesced
pub mod Ranged
pub mod Window
pub mod ChunkDecoder
pub mod Iter
pub mod Reach
