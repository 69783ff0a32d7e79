-- ===== src/Reader/Chunks.antt =====
-- copc-reader/src/lib.rs: the point counts and the chunks of the loaded hierarchy.
pub mod Disjoint
pub mod Apart
pub mod Counts
pub mod Total
use copc_rust.Prelude.{
  ℕ, zero, suc, ◌+◌, ◌*◌, ◌/◌, ◌%◌, ◌^◌, ◌≡◌, Bool, true, false, ◌&&◌, ◌||◌, not, List, [], ◌∷◌,
  Option, none, some, ltb, leb, ◌==◌, if◌then◌else◌, length, take, drop, Result, ok, err, fault,
  out_of_fuel, invalid_data, io, reject_if, ok_or, ◌>>=◌, ◌>>◌,
}
use copc_rust.Prelude.Int.{ℤ, to_unsigned, checked_add_u64}
use copc_rust.Prelude.Maps.{get, insert}
use copc_rust.Prelude.Order.{nat_order}
use copc_rust.Core.Key.{VoxelKey, key_order}
use copc_rust.Core.Hierarchy.{
  Entry, EntryAvailability, empty, point_data, child_page, HierarchyPage, hierarchy_entry_bytes,
  availability, validate, is_child_page, has_point_data, page_from_le_bytes,
}
use copc_rust.Reader.Hierarchy.{
  CopcDataRanges, HierarchyReadLimits, read_hierarchy_page_at, validate_hierarchy_entry,
  max_hierarchy_total_bytes, checked_range_end, Hierarchy,
}

-- `u32` and `u64`: the sum of the point counts.
add_points : Hierarchy → ℕ → Result ℕ
add_points [] total = ok total
add_points ((key, entry) ∷ rest) total = do
  a ← availability entry
  total' ← elim a [
    | empty ↦ ok total
    | point_data point_count ↦ ok_or (checked_add_u64 total point_count) invalid_data
    | child_page ↦ ok total
  ]
  add_points rest total'

pub validate_hierarchy_point_count : Hierarchy → ℕ → Result (Unit {0})
unfolding add_points
validate_hierarchy_point_count hierarchy number_of_points = do
  total ← add_points hierarchy 0
  reject_if (not (total == number_of_points)) invalid_data

-- `BTreeMap<u64, (u64, VoxelKey)>`, by the start of the chunks.
abbrev pub ChunkRanges : Type 0
ChunkRanges = List (ℕ × (ℕ × VoxelKey))

-- `ranges.range(..=offset).next_back()`
unfoldable pub last_upto : ℕ → ChunkRanges → Option (ℕ × (ℕ × VoxelKey))
last_upto offset [] = none
last_upto offset (r ∷ ranges) =
    let rest = last_upto offset ranges in
    if leb r.0 offset then (elim rest [ none ↦ some r | some found ↦ some found ]) else none

-- `ranges.range(offset..).next()`
unfoldable pub first_from : ℕ → ChunkRanges → Option (ℕ × (ℕ × VoxelKey))
first_from offset [] = none
first_from offset (r ∷ ranges) = if leb offset r.0 then some r else first_from offset ranges

-- `if let Some((_, (previous_end, _))) = … { if *previous_end > entry.offset { … } }`
unfoldable pub ends_behind : ℕ → Option (ℕ × (ℕ × VoxelKey)) → Bool
ends_behind offset none = false
ends_behind offset (some (start, (end, key))) = ltb offset end

unfoldable pub starts_before : ℕ → Option (ℕ × (ℕ × VoxelKey)) → Bool
starts_before end none = false
starts_before end (some (start, rest)) = ltb start end

unfoldable pub insert_point_chunk_range : ChunkRanges → Entry → Result ChunkRanges
unfolding last_upto first_from ends_behind starts_before
insert_point_chunk_range ranges entry = do
  byte_size ← ok_or (to_unsigned entry.byte_size) invalid_data
  end ← checked_range_end entry.offset byte_size
  reject_if (ends_behind entry.offset (last_upto entry.offset ranges)) invalid_data
  reject_if (starts_before end (first_from entry.offset ranges)) invalid_data
  ok (insert entry.offset (end, entry.key) ranges)

-- The loop of `validate_point_chunk_ranges`, over the entries with points.
unfoldable pub insert_ranges : Hierarchy → ChunkRanges → Result ChunkRanges
unfolding insert_point_chunk_range
insert_ranges [] ranges = ok ranges
insert_ranges ((key, entry) ∷ rest) ranges =
    let with_points = (do
      ranges' ← insert_point_chunk_range ranges entry
      insert_ranges rest ranges') in
    if has_point_data entry then with_points else insert_ranges rest ranges

unfoldable pub validate_point_chunk_ranges : Hierarchy → Result (Unit {0})
unfolding insert_ranges
validate_point_chunk_ranges hierarchy = do ranges ← insert_ranges hierarchy []; ok tt
