-- ===== src/Reader/Hierarchy.antt =====
-- copc-reader/src/lib.rs: reading the hierarchy of a COPC file, with its limits and range checks.
pub mod Placed
pub mod Accepted
pub mod Reading
use copc_rust.Prelude.{
  ℕ, ◌+◌, ◌*◌, ◌%◌, ◌||◌, not, List, ltb, leb, ◌==◌, if◌then◌else◌, length, take, drop, Result, ok,
  err, invalid_data, io, reject_if, ok_or, ◌>>=◌, ◌>>◌,
}
use copc_rust.Prelude.Int.{to_unsigned, checked_add_u64}
use copc_rust.Core.Key.{VoxelKey}
use copc_rust.Core.Hierarchy.{
  Entry, EntryAvailability, empty, point_data, child_page, HierarchyPage, hierarchy_entry_bytes,
  availability, validate, page_from_le_bytes,
}

abbrev pub max_hierarchy_page_bytes : ℕ
max_hierarchy_page_bytes = 64 * 1024 * 1024

abbrev pub max_hierarchy_total_bytes : ℕ
max_hierarchy_total_bytes = 256 * 1024 * 1024

abbrev pub max_point_chunk_bytes : ℕ
max_point_chunk_bytes = 512 * 1024 * 1024

pub record CopcDataRanges : Type 0 where
  pub point_data_start : ℕ
  pub point_data_end : ℕ
  pub hierarchy_start : ℕ
  pub hierarchy_end : ℕ

pub record HierarchyReadLimits : Type 0 where
  pub total_bytes : ℕ

unfoldable pub validate_hierarchy_page_byte_size : ℕ → Result (Unit {0})
validate_hierarchy_page_byte_size byte_size =
    reject_if (ltb max_hierarchy_page_bytes byte_size) invalid_data

unfoldable pub add_page : HierarchyReadLimits → ℕ → Result HierarchyReadLimits
unfolding validate_hierarchy_page_byte_size
add_page limits byte_size = do
  validate_hierarchy_page_byte_size byte_size
  total ← ok_or (checked_add_u64 limits.total_bytes byte_size) invalid_data
  reject_if (ltb max_hierarchy_total_bytes total) invalid_data
  ok (record { total_bytes = total })

unfoldable pub checked_range_end : ℕ → ℕ → Result ℕ
checked_range_end offset byte_size = ok_or (checked_add_u64 offset byte_size) invalid_data

unfoldable pub validate_range_in_file : ℕ → ℕ → ℕ → Result ℕ
unfolding checked_range_end
validate_range_in_file offset byte_size file_len = do
  end ← checked_range_end offset byte_size
  reject_if (ltb file_len end) invalid_data
  ok end

-- `CopcDataRanges::new`, with the two offsets of the LAS header.
unfoldable pub data_ranges : ℕ → ℕ → ℕ → ℕ → Result CopcDataRanges
unfolding checked_range_end
data_ranges offset_to_point_data offset_to_first_evlr hierarchy_start hierarchy_len = do
  reject_if (ltb offset_to_first_evlr offset_to_point_data) invalid_data
  end ← checked_range_end hierarchy_start hierarchy_len
  ok (record {
    point_data_start = offset_to_point_data;
    point_data_end = offset_to_first_evlr;
    hierarchy_start = hierarchy_start;
    hierarchy_end = end;
  })

-- `seek` and `read_exact` on the bytes of the file.
unfoldable pub read_exact_at : List ℕ → ℕ → ℕ → Result (List ℕ)
read_exact_at file offset n =
    if leb (offset + n) (length file) then ok (take n (drop offset file)) else err io

-- The file is its bytes; the limits come back.
unfoldable pub read_hierarchy_page_at :
    List ℕ → ℕ → ℕ → HierarchyReadLimits → Result (HierarchyPage × HierarchyReadLimits)
unfolding add_page validate_range_in_file read_exact_at
read_hierarchy_page_at file offset byte_size limits = do
  reject_if (byte_size == 0) invalid_data
  reject_if (not (byte_size % hierarchy_entry_bytes == 0)) invalid_data
  limits' ← add_page limits byte_size
  end ← validate_range_in_file offset byte_size (length file)
  bytes ← read_exact_at file offset byte_size
  page ← page_from_le_bytes bytes
  ok (page, limits')

-- The match of `validate_hierarchy_entry`, after the validation of the entry.
pub validate_placed : Entry → ℕ → CopcDataRanges → EntryAvailability → Result (Unit {0})
unfolding validate_range_in_file
validate_placed entry file_len ranges empty = ok tt
validate_placed entry file_len ranges (point_data point_count) = do
  byte_size ← ok_or (to_unsigned entry.byte_size) invalid_data
  reject_if (ltb max_point_chunk_bytes byte_size) invalid_data
  end ← validate_range_in_file entry.offset byte_size file_len
  reject_if (ltb entry.offset ranges.point_data_start || ltb ranges.point_data_end end) invalid_data
validate_placed entry file_len ranges child_page = do
  byte_size ← ok_or (to_unsigned entry.byte_size) invalid_data
  end ← validate_range_in_file entry.offset byte_size file_len
  reject_if (ltb entry.offset ranges.hierarchy_start || ltb ranges.hierarchy_end end) invalid_data

pub validate_hierarchy_entry : Entry → ℕ → CopcDataRanges → Result (Unit {0})
unfolding validate_placed
validate_hierarchy_entry entry file_len ranges = do
  validate entry
  a ← availability entry
  validate_placed entry file_len ranges a

-- `BTreeMap<VoxelKey, Entry>`
abbrev pub Hierarchy : Type 0
Hierarchy = List (VoxelKey × Entry)
