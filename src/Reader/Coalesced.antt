-- ===== src/Reader/Coalesced.antt =====
-- copc-reader/src/ranged.rs: `CopcRangeReader::read_columns`.
pub mod Selection
pub mod Files
pub mod Agree
use copc_rust.Prelude.{ℕ, List, [], ◌∷◌, Option, ok}
use copc_rust.Prelude.States.{M, ◌>>=◌, lift}
use copc_rust.Core.Dimension.{ColumnSelection}
use copc_rust.Core.Bounds.{Floats, Bounds}
use copc_rust.Core.Columns.{LasColumnBatch}
use copc_rust.Reader.Append.{ExtendedPointLayout}
use copc_rust.Reader.Decode.{Decoding, Decoded}
use copc_rust.Reader.Hierarchy.{CopcDataRanges}
use copc_rust.Reader.Query.{PointQuery, QueryFloats}
use copc_rust.Reader.Points.{CopcFile, set_up, no_points, finish}
use copc_rust.Reader.Ranged.{RangeReader, Source, fetch_range, hierarchy_for}
use copc_rust.Reader.Coalesce.{
  ChunkGroup, coalesce_chunks, read_cuts, range_coalesce_gap_bytes, max_coalesced_range_bytes,
}

module _ (d : Decoding) ⦃f : Floats ℕ⦄ (layout : ExtendedPointLayout) (bounds : Option (Bounds ℕ))
    (source : Source) where
  -- The loop over the groups, each of which is one request.
  unfoldable pub fetch_groups : List ChunkGroup → Decoded → M RangeReader Decoded
  unfolding fetch_range read_cuts
  fetch_groups [] s = lift (ok s)
  fetch_groups (group ∷ groups) s = do
    bytes ← fetch_range source group.start group.end
    s' ← lift (read_cuts d layout bounds bytes group.start group.entries s)
    fetch_groups groups s'

-- The header and the info are those of `file`; its entries are not used. `fuel` is for the loading of
-- the hierarchy.
module _ (source : Source) (file_len number_of_points : ℕ) (ranges : CopcDataRanges) (d : Decoding)
    (q : QueryFloats) ⦃f : Floats ℕ⦄ (file : CopcFile) where
  unfoldable pub read_columns : PointQuery → ColumnSelection → ℕ → M RangeReader LasColumnBatch
  unfolding hierarchy_for set_up coalesce_chunks fetch_groups finish
  read_columns query selection fuel = do
    chunks ← hierarchy_for source file_len number_of_points ranges q file.copc_info query fuel
    p ← lift (set_up d file query selection chunks)
    groups ← lift (coalesce_chunks p.chunks range_coalesce_gap_bytes max_coalesced_range_bytes)
    s ← fetch_groups d p.layout query.bounds source groups (no_points p.columns)
    lift (finish s)
