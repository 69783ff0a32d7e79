-- ===== src/Reader/Chunks/Total.antt =====
-- copc-reader/src/lib.rs: the checks of the loaded hierarchy, their termination.
use copc_rust.Prelude.{
  ℕ, suc, inl, inr, not, [], ◌∷◌, ◌==◌, Returns, >>=-Returns, reject_if-Returns, ok_or-Returns,
  Bool-cases, reject_if, ok_or, invalid_data,
}
use copc_rust.Prelude.Int.{to_unsigned, checked_add_u64}
use copc_rust.Core.Hierarchy.{Entry, has_point_data}
use copc_rust.Core.Hierarchy.Validity.{
  Availability-cases, no_points, some_points, a_page, bad_count,
}
use copc_rust.Reader.Hierarchy.{Hierarchy, checked_range_end}
use copc_rust.Reader.Chunks.{
  ChunkRanges, last_upto, first_from, ends_behind, starts_before, insert_point_chunk_range,
  insert_ranges, validate_point_chunk_ranges, add_points, validate_hierarchy_point_count,
}

pub insert_point_chunk_range-Returns :
    (ranges : ChunkRanges) (e : Entry) → Returns (insert_point_chunk_range ranges e)
unfolding insert_point_chunk_range checked_range_end
insert_point_chunk_range-Returns ranges e =
    >>=-Returns (ok_or (to_unsigned e.byte_size) invalid_data) _
      (ok_or-Returns (to_unsigned e.byte_size) invalid_data)
      λ n.
        >>=-Returns (ok_or (checked_add_u64 e.offset n) invalid_data) _
          (ok_or-Returns (checked_add_u64 e.offset n) invalid_data)
          λ end.
            >>=-Returns (reject_if (ends_behind e.offset (last_upto e.offset ranges)) invalid_data)
              _ (reject_if-Returns (ends_behind e.offset (last_upto e.offset ranges)) invalid_data)
              λ _.
                >>=-Returns
                  (reject_if (starts_before end (first_from e.offset ranges)) invalid_data) _
                  (reject_if-Returns (starts_before end (first_from e.offset ranges)) invalid_data)
                  λ _. tt

insert_ranges-Returns : (h : Hierarchy) (ranges : ChunkRanges) → Returns (insert_ranges h ranges)
unfolding insert_ranges
insert_ranges-Returns [] ranges = tt
insert_ranges-Returns ((key, e) ∷ h) ranges = elim (Bool-cases (has_point_data e)) [
  | inl t ↦ rw t (
      >>=-Returns (insert_point_chunk_range ranges e) _ (insert_point_chunk_range-Returns ranges e)
        (insert_ranges-Returns h))
  | inr t ↦ rw t (insert_ranges-Returns h ranges)
]

pub validate_point_chunk_ranges-Returns : (h : Hierarchy) → Returns (validate_point_chunk_ranges h)
unfolding validate_point_chunk_ranges
validate_point_chunk_ranges-Returns h =
    >>=-Returns (insert_ranges h []) _ (insert_ranges-Returns h []) λ _. tt

add_points-Returns : (h : Hierarchy) (total : ℕ) → Returns (add_points h total)
unfolding add_points
add_points-Returns [] total = tt
add_points-Returns ((key, e) ∷ h) total = elim (Availability-cases e) [
  | no_points c k ↦ rw k (add_points-Returns h total)
  | a_page c k ↦ rw k (add_points-Returns h total)
  | bad_count n c k ↦ rw k tt
  | some_points n c k ↦ rw k (
      >>=-Returns (ok_or (checked_add_u64 total (suc n)) invalid_data) _
        (ok_or-Returns (checked_add_u64 total (suc n)) invalid_data) (add_points-Returns h))
]

pub validate_hierarchy_point_count-Returns :
    (h : Hierarchy) (n : ℕ) → Returns (validate_hierarchy_point_count h n)
unfolding validate_hierarchy_point_count
validate_hierarchy_point_count-Returns h n =
    >>=-Returns (add_points h 0) _ (add_points-Returns h 0)
      λ total. reject_if-Returns (not (total == n)) invalid_data
