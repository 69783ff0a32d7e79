-- ===== src/Tests/Loading.antt =====
-- The hierarchy of the reader at concrete data: a page with one entry, behind it a chunk of points.
use copc_rust.Prelude.{
  ℕ, ◌≡◌, refl, arith, ◌↔◌, ◌⊎◌, List, [], ◌∷◌, ◌++◌, replicate, true, ok, Returns,
}
use copc_rust.Prelude.Int.{pos}
use copc_rust.Prelude.Maps.{get, insert}
use copc_rust.Core.Key.{key_order}
use copc_rust.Core.Key.Tree.{voxel, IsKey}
use copc_rust.Core.Hierarchy.{Entry, is_child_page, has_point_data}
use copc_rust.Core.Hierarchy.Validity.{IsSized}
use copc_rust.Reader.Hierarchy.{
  CopcDataRanges, HierarchyReadLimits, validate_hierarchy_entry, validate_hierarchy_page_byte_size,
  add_page, checked_range_end, validate_range_in_file, read_exact_at, read_hierarchy_page_at,
  Hierarchy,
}
use copc_rust.Reader.Hierarchy.Placed.{IsPlaced, validate_hierarchy_entry_iff}
use copc_rust.Reader.Pages.{
  insert_entries, queue_children, queue_hierarchy_page, load_pages, insert_hierarchy_pages,
  PageRange, contains,
}
use copc_rust.Reader.Pages.Total.{insert_hierarchy_pages_total}
use copc_rust.Reader.Pages.Covers.{IsSound}
use copc_rust.Reader.Pages.Complete.{IsFollowed, IsLoaded, insert_hierarchy_pages_complete}
use copc_rust.Reader.Chunks.{
  last_upto, first_from, ends_behind, starts_before, insert_point_chunk_range, insert_ranges,
  validate_point_chunk_ranges, validate_hierarchy_point_count,
}
use copc_rust.Reader.Chunks.Apart.{AllApart, validate_point_chunk_ranges-AllApart}
use copc_rust.Reader.Chunks.Counts.{points, validate_hierarchy_point_count_iff}
use copc_rust.Reader.Loading.{Found, load_hierarchy}
use copc_rust.Reader.Loading.Loaded.{Loaded, load_hierarchy-Loaded}
use copc_rust.Reader.Loading.Total.{load_hierarchy-Returns}
use copc_rust.Reader.Hierarchy.{data_ranges}
use copc_rust.Tests.Keys.{sample, sample-IsEntry, child_pointer, sample_bytes, page_read}

abbrev pub ranges : CopcDataRanges
ranges = record {
  point_data_start = 32;
  point_data_end = 48;
  hierarchy_start = 0;
  hierarchy_end = 32;
}

abbrev pub file : List ℕ
file = sample_bytes ++ replicate 16 0

abbrev no_bytes : HierarchyReadLimits
no_bytes = record { total_bytes = 0 }

abbrev second : Entry
second = record { key = voxel 1 0 0 0; offset = 40; byte_size = pos 8; point_count = pos 2 }

abbrev two_chunks : Hierarchy
two_chunks = (voxel 1 0 0 0, second) ∷ (voxel 2 3 0 1, sample) ∷ []

validate_hierarchy_entry_iff_example :
    (validate_hierarchy_entry sample 48 ranges ≡ ok tt)
    ↔ (IsKey sample.key × IsSized sample × IsPlaced ranges 48 sample)
validate_hierarchy_entry_iff_example = validate_hierarchy_entry_iff ranges 48 (omega arith) sample

insert_hierarchy_pages_total_example :
    Returns (insert_hierarchy_pages file (child_pointer ∷ []) [] ((96, 32) ∷ []) no_bytes ranges)
insert_hierarchy_pages_total_example =
    insert_hierarchy_pages_total file (child_pointer ∷ []) [] ((96, 32) ∷ []) no_bytes ranges
      (omega arith)

pub sample_placed : validate_hierarchy_entry sample 48 ranges ≡ ok tt
sample_placed = validate_hierarchy_entry_iff_example.1 (ground arith, ground arith, ground arith)

pointer_placed : validate_hierarchy_entry child_pointer 48 ranges ≡ ok tt
pointer_placed =
    (validate_hierarchy_entry_iff ranges 48 (omega arith) child_pointer).1
      (ground arith, ground arith, ground arith)

abbrev loaded : Hierarchy
loaded = (voxel 1 1 0 0, child_pointer) ∷ (voxel 2 3 0 1, sample) ∷ []

loads :
    insert_hierarchy_pages file (child_pointer ∷ []) [] ((96, 32) ∷ []) no_bytes ranges
    ≡ ok (loaded, (0, 32) ∷ (96, 32) ∷ [])
unfolding insert_hierarchy_pages load_pages queue_hierarchy_page insert_entries queue_children get
    insert is_child_page read_hierarchy_page_at validate_range_in_file checked_range_end
    read_exact_at add_page validate_hierarchy_page_byte_size
loads = rw (pointer_placed, page_read, sample_placed) refl

insert_hierarchy_pages_complete_example :
    IsSound 48 ranges loaded
    × IsFollowed loaded ((0, 32) ∷ (96, 32) ∷ []) (child_pointer ∷ [])
    × ((p : PageRange)
        → contains ((0, 32) ∷ (96, 32) ∷ []) p ≡ true
        → (contains ((96, 32) ∷ []) p ≡ true) ⊎ IsLoaded file loaded ((0, 32) ∷ (96, 32) ∷ []) p)
insert_hierarchy_pages_complete_example =
    insert_hierarchy_pages_complete file (child_pointer ∷ []) ((96, 32) ∷ [])
      ((0, 32) ∷ (96, 32) ∷ []) loaded no_bytes ranges loads

no_overlap : validate_point_chunk_ranges two_chunks ≡ ok tt
unfolding validate_point_chunk_ranges insert_ranges insert_point_chunk_range starts_before
    ends_behind first_from last_upto has_point_data checked_range_end insert
no_overlap = refl

validate_point_chunk_ranges-AllApart_example : AllApart two_chunks
validate_point_chunk_ranges-AllApart_example =
    validate_point_chunk_ranges-AllApart two_chunks (λ _. omega arith, (λ _. omega arith, tt))
      no_overlap

validate_hierarchy_point_count_iff_example :
    (validate_hierarchy_point_count ((voxel 2 3 0 1, sample) ∷ []) 9 ≡ ok tt)
    ↔ (points ((voxel 2 3 0 1, sample) ∷ []) ≡ 9)
validate_hierarchy_point_count_iff_example =
    validate_hierarchy_point_count_iff ((voxel 2 3 0 1, sample) ∷ []) 9 (sample-IsEntry.1, tt)
      (omega arith)

abbrev found : Found
found = record {
  root_hier_offset = 0;
  root_hier_size = 32;
  data_offset = 0;
  data_len = 32;
  offset_to_point_data = 32;
  offset_to_first_evlr = 48;
  number_of_points = 9;
}

nine_points : validate_hierarchy_point_count ((voxel 2 3 0 1, sample) ∷ []) 9 ≡ ok tt
nine_points = validate_hierarchy_point_count_iff_example.1 refl

loads_file : load_hierarchy file found ≡ ok (sample ∷ [], (voxel 2 3 0 1, sample) ∷ [])
unfolding load_hierarchy data_ranges insert_hierarchy_pages load_pages queue_hierarchy_page
    insert_entries queue_children get insert is_child_page read_hierarchy_page_at
    validate_range_in_file checked_range_end read_exact_at add_page
    validate_hierarchy_page_byte_size validate_point_chunk_ranges insert_ranges
    insert_point_chunk_range starts_before ends_behind first_from last_upto has_point_data
loads_file = rw (page_read, sample_placed, nine_points) refl

load_hierarchy-Loaded_example : Loaded file found (sample ∷ []) ((voxel 2 3 0 1, sample) ∷ [])
load_hierarchy-Loaded_example =
    load_hierarchy-Loaded file found (sample ∷ []) ((voxel 2 3 0 1, sample) ∷ []) loads_file

load_hierarchy-Returns_example : Returns (load_hierarchy (replicate 40 0) found)
load_hierarchy-Returns_example = load_hierarchy-Returns (replicate 40 0) found
