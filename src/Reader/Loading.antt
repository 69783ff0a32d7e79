-- ===== src/Reader/Loading.antt =====
-- copc-reader/src/lib.rs: the part of `CopcFile::from_reader` that loads the hierarchy.
pub mod Checks
pub mod Loaded
pub mod Total
use copc_rust.Prelude.{
  ℕ, ◌≡◌, not, List, [], ◌∷◌, ltb, ◌==◌, Result, ok, invalid_data, reject_if, ◌>>=◌, ◌>>◌,
}
use copc_rust.Core.Hierarchy.{HierarchyPage, Entry}
use copc_rust.Reader.Hierarchy.{
  Hierarchy, HierarchyReadLimits, data_ranges, validate_hierarchy_page_byte_size,
  read_hierarchy_page_at,
}
use copc_rust.Reader.Pages.{insert_hierarchy_pages}
use copc_rust.Reader.Chunks.{validate_point_chunk_ranges, validate_hierarchy_point_count}

-- What `from_reader` has found of the file: the info VLR, the hierarchy EVLR and the LAS header.
pub record Found : Type 0 where
  pub root_hier_offset : ℕ
  pub root_hier_size : ℕ
  pub data_offset : ℕ
  pub data_len : ℕ
  pub offset_to_point_data : ℕ
  pub offset_to_first_evlr : ℕ
  pub number_of_points : ℕ

abbrev pub no_limits : HierarchyReadLimits
no_limits = record { total_bytes = 0 }

unfoldable pub load_hierarchy : List ℕ → Found → Result (HierarchyPage × Hierarchy)
load_hierarchy file f = do
  validate_hierarchy_page_byte_size f.root_hier_size
  reject_if (not (f.root_hier_offset == f.data_offset)) invalid_data
  reject_if (ltb f.data_len f.root_hier_size) invalid_data
  ranges ← data_ranges f.offset_to_point_data f.offset_to_first_evlr f.data_offset f.data_len
  (root, limits) ← read_hierarchy_page_at file f.root_hier_offset f.root_hier_size no_limits
  (hierarchy, visited) ←
      insert_hierarchy_pages file root [] ((f.root_hier_offset, f.root_hier_size) ∷ []) limits
        ranges
  validate_point_chunk_ranges hierarchy
  validate_hierarchy_point_count hierarchy f.number_of_points
  ok (root, hierarchy)

-- `CopcFile::hierarchy_walk`: the values of the map.
abbrev pub hierarchy_walk : Hierarchy → List Entry
hierarchy_walk [] = []
hierarchy_walk ((key, entry) ∷ rest) = entry ∷ hierarchy_walk rest
