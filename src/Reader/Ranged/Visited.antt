-- ===== src/Reader/Ranged/Visited.antt =====
-- copc-reader/src/ranged.rs: the set of visited pages, where `load_page` fails.
use copc_rust.Prelude.{
  ℕ, ◌%◌, ◌+◌, ◌≡◌, refl, ap, sym, ◌∙◌, arith, true, ◌||◌, not, List, [], ◌∷◌, Result, ok, err,
  invalid_data, Bool-cases, inl, inr, ≡→==, ◌==◌, reject_if, Error,
}
use copc_rust.Prelude.Int.{pos}
use copc_rust.Core.Hierarchy.{Entry, HierarchyPage, hierarchy_entry_bytes, page_from_le_bytes}
use copc_rust.Reader.Hierarchy.{CopcDataRanges, validate_range_in_file}
use copc_rust.Reader.Pages.{PageRange, contains}
use copc_rust.Prelude.States.{M, continue, continue-keeps}
use copc_rust.Reader.Ranged.{
  RangeReader, Source, add_page, fetch_range, add_ranges, add_points, load_entry, load_entries,
  check_points, fill_page, read_page, load_page,
}

first_contained : (visited : List PageRange) (p : PageRange) → contains (p ∷ visited) p ≡ true
first_contained visited p = rw (≡→== p.0 p.0 refl, ≡→== p.1 p.1 refl) refl

add_page_visited : (n : ℕ) (s : RangeReader) → (add_page n s).1.visited_pages ≡ s.visited_pages
unfolding add_page
add_page_visited n s = ground arith

fetch_range_visited :
    (source : Source) (start end : ℕ) (s : RangeReader)
    → (fetch_range source start end s).1.visited_pages ≡ s.visited_pages
unfolding fetch_range
fetch_range_visited source start end s = ground arith

-- Two steps leave the visited pages alone, if both do.
continue_visited :
    {A B : Type 0} (r : Result A × RangeReader) (f : A → M RangeReader B) (visited : List PageRange)
    → r.1.visited_pages ≡ visited
    → ((a : A) (s : RangeReader) → (f a s).1.visited_pages ≡ s.visited_pages)
    → (continue r f).1.visited_pages ≡ visited
continue_visited = continue-keeps λ (s : RangeReader). s.visited_pages

module _ (source : Source) (file_len number_of_points : ℕ) (ranges : CopcDataRanges) where
  load_entry_visited :
      (e : Entry) (s : RangeReader)
      → (load_entry source file_len number_of_points ranges e s).1.visited_pages ≡ s.visited_pages
  unfolding load_entry add_ranges add_points
  load_entry_visited e s = ground arith

  load_entries_visited :
      (page : HierarchyPage) (s : RangeReader)
      → (load_entries source file_len number_of_points ranges page s).1.visited_pages
        ≡ s.visited_pages
  unfolding load_entries
  load_entries_visited [] s = refl
  load_entries_visited (e ∷ page) s =
      continue_visited (load_entry source file_len number_of_points ranges e s) _ s.visited_pages
        (load_entry_visited e s) λ _. load_entries_visited page

  check_points_visited :
      (s : RangeReader)
      → (check_points source file_len number_of_points ranges s).1.visited_pages ≡ s.visited_pages
  unfolding check_points
  check_points_visited s = ground arith

  -- A page that is read is marked, however the read ends.
  read_page_visited :
      (e : Entry) (n : ℕ) (s : RangeReader)
      → (read_page source file_len number_of_points ranges e n s).1.visited_pages
        ≡ (e.offset, n) ∷ s.visited_pages
  unfolding read_page fill_page
  read_page_visited e n s =
      let marked : RangeReader = record s { visited_pages = (e.offset, n) ∷ s.visited_pages } in
      let all = (e.offset, n) ∷ s.visited_pages in
      continue_visited (fill_page source file_len number_of_points ranges e n s) _ all
        (continue_visited
          (reject_if (n == 0 || not (n % hierarchy_entry_bytes == 0)) invalid_data, marked) _ all
          refl
          λ _ s1.
            continue_visited (add_page n s1) _ s1.visited_pages (add_page_visited n s1) λ _ s2.
              continue_visited (validate_range_in_file e.offset n file_len, s2) _ s2.visited_pages
                refl
                λ end s3.
                  continue_visited (fetch_range source e.offset (e.offset + n) s3) _
                    s3.visited_pages (fetch_range_visited source e.offset (e.offset + n) s3)
                    λ bytes s4.
                      continue_visited (page_from_le_bytes bytes, s4) _ s4.visited_pages refl
                        λ page s5. load_entries_visited page s5)
        λ _. check_points_visited

  -- After `load_page` ends in an error, for an entry with a byte size, the page counts as visited: a
  -- further `load_page` of it succeeds without a request, and changes nothing.
  pub load_page_after_failure :
      (e : Entry) (n : ℕ) (s s' : RangeReader) (kind : Error)
      → e.byte_size ≡ pos n
      → load_page source file_len number_of_points ranges e s ≡ (err kind, s')
      → load_page source file_len number_of_points ranges e s' ≡ (ok tt, s')
  unfolding load_page
  load_page_after_failure e n s s' kind size failed =
      elim (Bool-cases (contains s.visited_pages (e.offset, n))) [
        | inl h ↦
            let succeeded : (ok tt, s) ≡ (err kind, s') = rw (size, h) at failed in
            absurd (cc (ap (λ (r : Result (Unit {0}) × RangeReader). r.0) succeeded))
        | inr h ↦
            let run : read_page source file_len number_of_points ranges e n s ≡ (err kind, s') =
              rw (size, h) at failed in
            let marked : s'.visited_pages ≡ (e.offset, n) ∷ s.visited_pages =
              ap (λ (r : Result (Unit {0}) × RangeReader). r.1.visited_pages) (sym run)
              ∙ read_page_visited e n s in
            let seen : contains s'.visited_pages (e.offset, n) ≡ true =
              rw marked (first_contained s.visited_pages (e.offset, n)) in
            rw (size, seen) refl
      ]
