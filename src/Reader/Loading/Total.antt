-- ===== src/Reader/Loading/Total.antt =====
-- copc-reader/src/lib.rs: the loading of the hierarchy, its termination.
use copc_rust.Prelude.{
  ℕ, ◌==◌, inl, inr, not, List, [], ◌∷◌, ltb, Returns, >>=-Returns, reject_if-Returns,
  ok_or-Returns, Result-cases, reject_if, ok_or, invalid_data,
}
use copc_rust.Prelude.Int.{checked_add_u64}
use copc_rust.Reader.Hierarchy.{
  data_ranges, checked_range_end, validate_hierarchy_page_byte_size, read_hierarchy_page_at,
  max_hierarchy_page_bytes,
}
use copc_rust.Reader.Hierarchy.Reading.{read_hierarchy_page_at_inv, read_hierarchy_page_at-Returns}
use copc_rust.Reader.Pages.{insert_hierarchy_pages, PageRange}
use copc_rust.Reader.Pages.Total.{insert_hierarchy_pages_total}
use copc_rust.Reader.Chunks.{validate_point_chunk_ranges, validate_hierarchy_point_count}
use copc_rust.Reader.Chunks.Total.{
  validate_point_chunk_ranges-Returns, validate_hierarchy_point_count-Returns,
}
use copc_rust.Reader.Loading.{Found, no_limits, load_hierarchy}

data_ranges-Returns : (a b c d : ℕ) → Returns (data_ranges a b c d)
unfolding data_ranges checked_range_end
data_ranges-Returns a b c d =
    >>=-Returns (reject_if (ltb b a) invalid_data) _ (reject_if-Returns (ltb b a) invalid_data) λ _.
      >>=-Returns (ok_or (checked_add_u64 c d) invalid_data) _
        (ok_or-Returns (checked_add_u64 c d) invalid_data) λ end. tt

-- On any file, whatever was found of it, the loading of the hierarchy returns: it ends in a hierarchy
-- or in an error, neither in a panic nor without fuel.
pub load_hierarchy-Returns : (file : List ℕ) (f : Found) → Returns (load_hierarchy file f)
unfolding load_hierarchy validate_hierarchy_page_byte_size
load_hierarchy-Returns file f =
    let range : PageRange = (f.root_hier_offset, f.root_hier_size) in
    >>=-Returns (reject_if (ltb max_hierarchy_page_bytes f.root_hier_size) invalid_data) _
      (reject_if-Returns (ltb max_hierarchy_page_bytes f.root_hier_size) invalid_data)
      λ _.
        >>=-Returns (reject_if (not (f.root_hier_offset == f.data_offset)) invalid_data) _
          (reject_if-Returns (not (f.root_hier_offset == f.data_offset)) invalid_data)
          λ _.
            >>=-Returns (reject_if (ltb f.data_len f.root_hier_size) invalid_data) _
              (reject_if-Returns (ltb f.data_len f.root_hier_size) invalid_data)
              λ _.
                >>=-Returns
                  (data_ranges f.offset_to_point_data f.offset_to_first_evlr f.data_offset
                    f.data_len)
                  _
                  (data_ranges-Returns f.offset_to_point_data f.offset_to_first_evlr f.data_offset
                    f.data_len)
                  λ ranges.
                    elim (Result-cases
                      (read_hierarchy_page_at file f.root_hier_offset f.root_hier_size no_limits)
                      (read_hierarchy_page_at-Returns file f.root_hier_offset f.root_hier_size
                        no_limits)) [
                          | inr (kind, e) ↦ rw e tt
                          | inl ((root, limits), e) ↦
                              let read =
                                read_hierarchy_page_at_inv file f.root_hier_offset f.root_hier_size
                                  no_limits limits root e in
                              rw e (
                                >>=-Returns
                                  (insert_hierarchy_pages file root [] (range ∷ []) limits ranges) _
                                  (insert_hierarchy_pages_total file root [] (range ∷ []) limits
                                    ranges read.within_limit)
                                  λ (h, visited).
                                    >>=-Returns (validate_point_chunk_ranges h) _
                                      (validate_point_chunk_ranges-Returns h)
                                      λ _.
                                        >>=-Returns
                                          (validate_hierarchy_point_count h f.number_of_points) _
                                          (validate_hierarchy_point_count-Returns h
                                            f.number_of_points)
                                          λ _. tt)
                        ]
