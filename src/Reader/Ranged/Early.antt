-- ===== src/Reader/Ranged/Early.antt =====
-- The check of the point count at the end of `load_page`, while further relevant pages wait in the
-- local list of `ensure_hierarchy_for`.
use copc_rust.Prelude.{
  ℕ, suc, ◌≡◌, refl, arith, ◌<◌, List, [], ◌∷◌, false, ok, err, invalid_data, ltb, some, length,
  ◌==◌,
}
use copc_rust.Prelude.Int.{to_unsigned}
use copc_rust.Core.Bounds.{Floats}
use copc_rust.Core.Hierarchy.{Entry}
use copc_rust.Core.Info.{CopcInfo}
use copc_rust.Reader.Hierarchy.{CopcDataRanges}
use copc_rust.Reader.Pages.{contains}
use copc_rust.Reader.Query.{PointQuery, QueryFloats}
use copc_rust.Reader.Reach.{split_pending}
use copc_rust.Reader.Ranged.{
  RangeReader, Source, fill_page, read_page, check_points, load_page, load_all, ensure_rounds,
}

module _ (source : Source) (file_len number_of_points : ℕ) (ranges : CopcDataRanges) where
  check_points_early :
      (t : RangeReader)
      → t.pending_pages ≡ []
      → t.loaded_point_total < number_of_points
      → check_points source file_len number_of_points ranges t ≡ (err invalid_data, t)
  unfolding check_points
  check_points_early t h below =
      let not_above : ltb number_of_points t.loaded_point_total ≡ false = ground arith in
      let differs : (t.loaded_point_total == number_of_points) ≡ false = ground arith in
      rw (not_above, h, differs) refl

  module _ (q : QueryFloats) ⦃f : Floats ℕ⦄ (info : CopcInfo) (query : PointQuery) where
    -- If all pending pages are relevant to the query, and the first of them is new and its entries
    -- are loaded, but they point to no further page and the count of the header is not reached, then
    -- `ensure_hierarchy_for` fails with InvalidData, whatever the other pending pages hold: it does
    -- not load them.
    pub ensure_rounds_early :
        (fuel : ℕ) (e : Entry) (others : List Entry) (n : ℕ) (s t : RangeReader)
        → split_pending q info query s.pending_pages ≡ ok (e ∷ others, [])
        → to_unsigned e.byte_size ≡ some n
        → contains s.visited_pages (e.offset, n) ≡ false
        → fill_page source file_len number_of_points ranges e n (record s { pending_pages = [] })
          ≡ (ok tt, t)
        → t.pending_pages ≡ []
        → t.loaded_point_total < number_of_points
        → ensure_rounds source file_len number_of_points ranges q info query (suc fuel) s
          ≡ (err invalid_data, t)
    unfolding ensure_rounds load_all load_page read_page
    ensure_rounds_early fuel e others n s t split size new filled h below =
        let drained : RangeReader = record s { pending_pages = [] } in
        let read : read_page source file_len number_of_points ranges e n drained
            ≡ (err invalid_data, t) =
          rw filled (check_points_early t h below) in
        let load : load_page source file_len number_of_points ranges e drained
            ≡ (err invalid_data, t) =
          rw (size, new) read in
        let all : load_all source file_len number_of_points ranges (e ∷ others) drained
            ≡ (err invalid_data, t) =
          rw load refl in
        let some_there : (suc (length others) == 0) ≡ false = ground arith in
        rw (split, some_there, all) refl
