-- ===== src/Reader/Ranged/Ends.antt =====
-- copc-reader/src/ranged.rs: the termination of the loading of pages.
use copc_rust.Prelude.{
  ℕ, suc, ◌+◌, ◌%◌, ◌≤◌, ◌≡◌, refl, arith, List, [], ◌∷◌, length, length-append, ap, ◌∙◌, not, ◌||◌,
  ◌==◌, some, Result, ok, err, fault, Returns, invalid_data, ok_or, ok_or-Returns, Bool-cases, inl,
  inr,
}
use copc_rust.Prelude.States.{continue-Holds}
use copc_rust.Prelude.Int.{to_unsigned}
use copc_rust.Core.Key.{key_order}
use copc_rust.Core.Hierarchy.{
  Entry, HierarchyPage, hierarchy_entry_bytes, availability, page_from_le_bytes,
}
use copc_rust.Reader.Hierarchy.{CopcDataRanges, validate_range_in_file, max_hierarchy_total_bytes}
use copc_rust.Reader.Hierarchy.Placed.{validate_hierarchy_entry-Returns}
use copc_rust.Reader.Hierarchy.Reading.{validate_range_in_file-Returns}
use copc_rust.Reader.Pages.{contains}
use copc_rust.Reader.Coalesce.{checked_sub_u64}
use copc_rust.Reader.Chunks.Total.{insert_point_chunk_range-Returns}
use copc_rust.Reader.Ranged.{
  RangeReader, Source, add_page, fetch_range, add_ranges, add_points, load_entry, load_entries,
  check_points, fill_page, read_page, load_page, load_all,
}
use copc_rust.Reader.Ranged.Weights.{
  weight, Settles, Queues, Keeps, Adds, Fetches, Parses, lifted, add_page-Adds, page-Parses,
  answered, settled,
}

module _ (source : Source) (file_len number_of_points : ℕ) (ranges : CopcDataRanges) where
  load_entry-Queues :
      (e : Entry) (s : RangeReader)
      → Queues 1 s (load_entry source file_len number_of_points ranges e s)
  unfolding load_entry add_ranges add_points availability
  load_entry-Queues e s = ground (
    arith,
    validate_hierarchy_entry-Returns e file_len ranges,
    insert_point_chunk_range-Returns s.point_ranges e,
    length-append s.pending_pages (e ∷ []),
  )

  load_entries-Queues :
      (page : HierarchyPage) (s : RangeReader)
      → Queues (length page) s (load_entries source file_len number_of_points ranges page s)
  unfolding load_entries
  load_entries-Queues [] s = (refl, omega arith)
  load_entries-Queues (e ∷ page) s =
      continue-Holds (Queues 1 s) (Queues (suc (length page)) s)
        (load_entry source file_len number_of_points ranges e s) _ (load_entry-Queues e s)
        (λ done t (same, most).
          further page s t same most (load_entries source file_len number_of_points ranges page t)
            (load_entries-Queues page t))
        (λ k t h. h) (λ w t h. h)
    where
      further :
          (page : HierarchyPage) (s t : RangeReader)
          → t.limits.total_bytes ≡ s.limits.total_bytes
          → length t.pending_pages ≤ 1 + length s.pending_pages
          → (r : Result (Unit {0}) × RangeReader) → Queues (length page) t r
          → Queues (suc (length page)) s r
      further page s t same most (ok done, u) (same', most') = (omega arith, omega arith)
      further page s t same most (err k, u) h = h
      further page s t same most (fault w, u) h = h

  check_points-Settles :
      (s : RangeReader)
      → s.limits.total_bytes ≤ max_hierarchy_total_bytes
      → Settles (weight s) (check_points source file_len number_of_points ranges s)
  unfolding check_points
  check_points-Settles s bound = ground arith

  -- The source answers with as many bytes as it is asked for, or an error.
  module _ (answers : (n start len : ℕ) → Returns (source n start len))
      (fills : (n start len : ℕ) (bytes : List ℕ)
        → source n start len ≡ ok bytes
        → length bytes ≡ len) where
    fetch_range-Fetches :
        (start n : ℕ) (s : RangeReader) → Fetches n s (fetch_range source start (start + n) s)
    unfolding fetch_range
    fetch_range-Fetches start n s =
        let difference : checked_sub_u64 (start + n) start ≡ some n = ground arith in
        rw difference (
          answered n s (source s.requests start n) (answers s.requests start n)
            (fills s.requests start n))

    fill_page-Settles :
        (e : Entry) (n : ℕ) (s : RangeReader)
        → Settles (weight s) (fill_page source file_len number_of_points ranges e n s)
    unfolding fill_page
    fill_page-Settles e n s = elim (Bool-cases (n == 0 || not (n % hierarchy_entry_bytes == 0))) [
      | inl broken ↦ rw broken tt
      | inr whole ↦
          let marked : RangeReader = record s { visited_pages = (e.offset, n) ∷ s.visited_pages } in
          rw whole (
            continue-Holds (Adds n s) (Settles (weight s)) (add_page n marked) _
              (add_page-Adds n marked)
              (λ done t (total, bound, pending).
                continue-Holds (Keeps t) (Settles (weight s))
                  (validate_range_in_file e.offset n file_len, t) _
                  (lifted t (validate_range_in_file e.offset n file_len)
                    (validate_range_in_file-Returns e.offset n file_len))
                  (λ end u (total', pending').
                    continue-Holds (Fetches n u) (Settles (weight s))
                      (fetch_range source e.offset (e.offset + n) u) _
                      (fetch_range-Fetches e.offset n u)
                      (λ bytes v (total2, pending2, len).
                        continue-Holds (Parses n v) (Settles (weight s))
                          (page_from_le_bytes bytes, v) _ (page-Parses n v bytes len)
                          (λ page x (total3, pending3, most).
                            settled page n s x (total3 ∙ total2 ∙ total' ∙ total) (omega arith)
                              (pending3 ∙ pending2 ∙ pending' ∙ pending) most
                              (load_entries source file_len number_of_points ranges page x)
                              (load_entries-Queues page x))
                          (λ k w h. h) (λ k w h. h))
                      (λ k w h. h) (λ k w h. h))
                  (λ k w h. h) (λ k w h. h))
              (λ k w h. h) (λ k w h. h))
    ]

    Settles-le : (v w : ℕ) (r : Result (Unit {0}) × RangeReader) → v ≤ w → Settles v r → Settles w r
    Settles-le v w (ok done, t) h (bound, less) = (bound, omega arith)
    Settles-le v w (err e, t) h r = r
    Settles-le v w (fault why, t) h r = r

    read_page-Settles :
        (e : Entry) (n : ℕ) (s : RangeReader)
        → Settles (weight s) (read_page source file_len number_of_points ranges e n s)
    unfolding read_page
    read_page-Settles e n s =
        continue-Holds (Settles (weight s)) (Settles (weight s))
          (fill_page source file_len number_of_points ranges e n s) _ (fill_page-Settles e n s)
          (λ done t (bound, less).
            Settles-le (weight t) (weight s)
              (check_points source file_len number_of_points ranges t) less
              (check_points-Settles t bound))
          (λ k t h. h) (λ k t h. h)

    load_page-Settles :
        (e : Entry) (s : RangeReader)
        → s.limits.total_bytes ≤ max_hierarchy_total_bytes
        → Settles (weight s) (load_page source file_len number_of_points ranges e s)
    unfolding load_page
    load_page-Settles e s bound =
        continue-Holds (Keeps s) (Settles (weight s))
          (ok_or (to_unsigned e.byte_size) invalid_data, s) _
          (lifted s (ok_or (to_unsigned e.byte_size) invalid_data)
            (ok_or-Returns (to_unsigned e.byte_size) invalid_data))
          (λ n t (total, pending).
            let len : length t.pending_pages ≡ length s.pending_pages = ap length pending in
            let same : weight t ≡ weight s = omega arith in
            elim (Bool-cases (contains t.visited_pages (e.offset, n))) [
              | inl visited ↦ rw visited (omega arith, omega arith)
              | inr new ↦ rw new (
                  Settles-le (weight t) (weight s)
                    (read_page source file_len number_of_points ranges e n t) (omega arith)
                    (read_page-Settles e n t))
            ])
          (λ k t h. h) (λ k t h. h)

    pub load_all-Settles :
        (entries : List Entry) (s : RangeReader)
        → s.limits.total_bytes ≤ max_hierarchy_total_bytes
        → Settles (weight s) (load_all source file_len number_of_points ranges entries s)
    unfolding load_all
    load_all-Settles [] s bound = (bound, omega arith)
    load_all-Settles (e ∷ entries) s bound =
        continue-Holds (Settles (weight s)) (Settles (weight s))
          (load_page source file_len number_of_points ranges e s) _ (load_page-Settles e s bound)
          (λ done t (bound', less).
            Settles-le (weight t) (weight s)
              (load_all source file_len number_of_points ranges entries t) less
              (load_all-Settles entries t bound'))
          (λ k t h. h) (λ k t h. h)
