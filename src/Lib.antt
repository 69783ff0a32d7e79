-- ===== src/Lib.antt =====
-- Verification of copc-rust, a library that reads and writes Cloud Optimized Point Cloud (COPC)
-- files: LAS 1.4 files whose points lie in compressed chunks, one for each voxel of an octree, which
-- a tree of hierarchy pages indexes.
--
-- Parts, with the files that model them:
--   copc-core/src/hierarchy.rs      Core/Key.antt (`VoxelKey`), Core/Hierarchy.antt (`Entry`, `HierarchyPage`)
--   copc-core/src/error.rs          Prelude/Outcome.antt (the kinds of `Error`; no messages)
--   copc-writer/src/hierarchy_pages.rs  Writer/HierarchyPages.antt
--   copc-reader/src/lib.rs          Reader/Hierarchy.antt (limits, range checks, the entry check),
--     Reader/Pages.antt (`insert_hierarchy_pages`), Reader/Chunks.antt (overlap and counts),
--     Reader/Loading.antt (the part of `CopcFile::from_reader` that loads the hierarchy)
--   copc-core/src/columns.rs        Core/Dimension.antt (dimensions, scalars, selections),
--     Core/Columns.antt (specifications, data, `layout_for_las_format`, `LasColumnBatch`)
--   copc-reader/src/points.rs       Reader/Query.antt (queries, levels, the selection of chunks),
--     Reader/Append.antt (column builders, `append_columns`), Reader/Decode.antt (`decode_into`,
--     `merge_columns` and the loops over the chunks), Reader/Points.antt (`read_columns_inner` as it is
--     with and without the feature `parallel`),
--     Reader/Window.antt (`ChunkReadWindow`), Reader/ChunkDecoder.antt (`ChunkLazDecoder`),
--     Reader/Iter.antt (`PointIter`)
--   copc-reader/src/ranged.rs       Reader/Coalesce.antt (`coalesce_chunks`, `chunk_slice`, the loops of
--     `read_columns`), Reader/Coalesced.antt (`read_columns` as a whole),
--     Reader/Reach.antt (`page_may_match`),
--     Reader/Ranged.antt (`load_page`, `ensure_hierarchy_for`, `hierarchy_for`)
--   copc-core/src/bounds.rs         Core/Bounds.antt
--   copc-core/src/info.rs           Core/Info.antt (the COPC info VLR)
--   copc-core/src/streaming.rs      Core/Streaming.antt (the spill records of the points)
--   copc-writer/src/lod.rs          Writer/Lod.antt (`build_lod_index`)
-- The writer orders its points with `build_lod_index`, which hands every point to a node of the
-- octree, and makes an entry for each node. It plans its pages from entries of copc-core
-- (`plan_hierarchy_pages`), gives them offsets (`assign_hierarchy_page_offsets`) and writes them
-- (`write_hierarchy_page_tree`) with the entry codec of copc-core; the reader parses each page with
-- `HierarchyPage::from_le_bytes` and walks over the pages (`insert_hierarchy_pages`).
-- A query selects entries of the hierarchy (`select_point_chunks_from`); `read_columns` reads their
-- chunks and appends each record to the columns. The reader over ranges first loads the pages that
-- the query can reach, and fetches neighbouring chunks with one request.
--
-- Conventions: numbers are the native natural numbers, an `i32` is an integer with its bounds
-- written out, a byte list is a list of numbers below 256, `usize` has 64 bits. `Result` has the
-- error values of the source and in addition a fault for what would be a Rust panic and for a loop
-- that runs out of fuel. A seekable writer is the file up to its position. `BTreeMap` is a sorted
-- association list.
-- Fuel: the page planner recurses once for each level of the keys; 32 levels are enough for keys
-- at level 30 at most, the deepest that the writer makes. The walk of the reader over the pages reads
-- at least 32 bytes for a page and at most 256 MiB in all, so 2^23 + 1 pages are enough.
-- The index builder recurses once for each level, down to level 30, so 31 levels are enough; a round
-- of its selection takes a point or is the last.
-- The iterator over points takes a round for each chunk and for each of its points at most.
-- A round of the loop of `ensure_hierarchy_for` takes a page off the pending ones, and each page that
-- is read puts at most one there for 32 of its bytes, so rounds for the pending pages and for 32 bytes
-- each of the limit of 256 MiB are enough.
-- In the codecs, the columns and the queries an `f64` is its bits; its operations, the point source,
-- the cancellation check, the decompressor of a chunk and the answers of a range source are
-- parameters. In `Reader/Ranged.antt` a step returns the reader also where it fails.
--
-- Not modelled: the las and laz crates and the compressed points, which other code reads and writes;
-- temporary files, memory maps and HTTP, which are input and output; the parsing of LAS headers and
-- VLRs, the rows that the ranged reader returns, the views of columns, and the files that the writer
-- puts together from the modelled parts.
pub mod Prelude
pub mod Core
pub mod Writer
pub mod Reader
pub mod Tests
