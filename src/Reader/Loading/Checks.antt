-- ===== src/Reader/Loading/Checks.antt =====
-- copc-reader/src/lib.rs: lemmas on the checks around the walk over the pages, in `from_reader`.
use copc_rust.Prelude.{
  some, ℕ, ◌≡◌, ◌≤◌, ◌<◌, ◌^◌, ◌+◌, arith, true, reject_if-ok, List, [], ltb, length, ok,
  invalid_data, reject_if, >>=-eq-ok,
}
use copc_rust.Prelude.Int.{pos_part}
use copc_rust.Core.Hierarchy
use copc_rust.Core.Hierarchy.{Entry, HierarchyPage, page_from_le_bytes, has_point_data}
use copc_rust.Core.Hierarchy.Validity.{IsSized, Entry-validate_iff}
use copc_rust.Core.Key.{VoxelKey, key_order}
use copc_rust.Core.Key.Tree.{IsKey}
use copc_rust.Prelude.Maps.{get}
use copc_rust.Reader.Pages.Values.{insert_hierarchy_pages-Values}
use copc_rust.Reader.Chunks.Apart.{AllApart, validate_point_chunk_ranges-AllApart}
use copc_rust.Reader.Chunks.Counts.{points, validate_hierarchy_point_count_inv}
use copc_rust.Reader.Hierarchy.{
  CopcDataRanges, HierarchyReadLimits, Hierarchy, validate_hierarchy_entry, data_ranges,
  checked_range_end,
}
use copc_rust.Reader.Hierarchy.Placed.{IsPlaced}
use copc_rust.Reader.Hierarchy.Accepted.{accepted_valid, accepted-IsPlaced}
use copc_rust.Reader.Hierarchy.Reading.{checked_range_end-fits}
use copc_rust.Reader.Pages.{insert_hierarchy_pages, PageRange}
use copc_rust.Reader.Pages.Complete.{insert_hierarchy_pages_complete}
use copc_rust.Reader.Chunks.{validate_point_chunk_ranges, validate_hierarchy_point_count}
use copc_rust.Reader.Loading.{Found}

-- The points lie between the two offsets of the header, and the pages in the data of the EVLR.
abbrev pub ranges_of : Found → CopcDataRanges
ranges_of f = record {
  point_data_start = f.offset_to_point_data;
  point_data_end = f.offset_to_first_evlr;
  hierarchy_start = f.data_offset;
  hierarchy_end = f.data_offset + f.data_len;
}

-- What the tests before the first page say.
abbrev pub Guarded : Found → CopcDataRanges → Type 0
Guarded f ranges =
    (ranges ≡ ranges_of f)
    × (f.offset_to_point_data ≤ f.offset_to_first_evlr)
    × (f.data_offset + f.data_len < 2 ^ 64)

pub data_ranges-Guarded :
    (f : Found) (ranges : CopcDataRanges)
    → data_ranges f.offset_to_point_data f.offset_to_first_evlr f.data_offset f.data_len ≡ ok ranges
    → Guarded f ranges
unfolding data_ranges
data_ranges-Guarded f ranges h =
    let (_, ordered, h1) =
      >>=-eq-ok (reject_if (ltb f.offset_to_first_evlr f.offset_to_point_data) invalid_data) _ h in
    let (end, found, h2) = >>=-eq-ok (checked_range_end f.data_offset f.data_len) _ h1 in
    let (sum, fits) = checked_range_end-fits f.data_offset f.data_len end found in
    let in_order = reject_if-ok _ invalid_data ordered in
    let same : ranges ≡ ranges_of f = cc (rw sum at h2) in (same, ground arith, fits)

abbrev TakesBytes : Entry → Type 0
TakesBytes e = has_point_data e ≡ true → 0 < pos_part e.byte_size

accepted-TakesBytes :
    (file_len : ℕ) (ranges : CopcDataRanges) (e : Entry)
    → validate_hierarchy_entry e file_len ranges ≡ ok tt
    → TakesBytes e
unfolding has_point_data
accepted-TakesBytes file_len ranges e h points =
    let sized = ((Entry-validate_iff e).0 (accepted_valid file_len ranges e h)).1 in ground arith

-- Every entry stands at its key and is a sized one of the octree, in its section of the file.
abbrev pub ArePlaced : ℕ → CopcDataRanges → Hierarchy → Type 0
ArePlaced file_len ranges hierarchy =
    (k : VoxelKey) (e : Entry)
    → get k hierarchy ≡ some e
    → (e.key ≡ k) × IsKey e.key × IsSized e × IsPlaced ranges file_len e

-- What a walk over the pages and the checks behind it leave of the hierarchy.
module _ (file : List ℕ) (ranges : CopcDataRanges) (page : HierarchyPage)
    (seen visited : List PageRange) (loaded : Hierarchy) (limits : HierarchyReadLimits)
    (walked : insert_hierarchy_pages file page [] seen limits ranges ≡ ok (loaded, visited)) where
  pub walked-ArePlaced : ArePlaced (length file) ranges loaded
  walked-ArePlaced k e g =
      let (sound, _, _) =
        insert_hierarchy_pages_complete file page seen visited loaded limits ranges walked in
      let (at_key, accepted) = sound k e g in
      let (is_key, sized, placed) = accepted-IsPlaced (length file) ranges e accepted in
      (at_key, is_key, sized, placed)

  pub walked-AllApart : validate_point_chunk_ranges loaded ≡ ok tt → AllApart loaded
  walked-AllApart = validate_point_chunk_ranges-AllApart loaded (
      insert_hierarchy_pages-Values TakesBytes file ranges
        (accepted-TakesBytes (length file) ranges) page seen visited loaded limits walked)

  pub walked_count : (n : ℕ) → validate_hierarchy_point_count loaded n ≡ ok tt → points loaded ≡ n
  walked_count n = validate_hierarchy_point_count_inv loaded n (
      insert_hierarchy_pages-Values (λ e. Hierarchy.validate e ≡ ok tt) file ranges
        (accepted_valid (length file) ranges) page seen visited loaded limits walked)
