-- ===== src/Reader/Ranged.antt =====
-- copc-reader/src/ranged.rs: the reader over a source of byte ranges, which loads the pages of the
-- hierarchy when a query needs them. An error leaves the changes that were made before it.
pub mod Visited
pub mod Early
pub mod Weights
pub mod Ends
pub mod Reached
use copc_rust.Prelude.{
  ℕ, zero, suc, ◌+◌, ◌%◌, Bool, true, false, not, ◌&&◌, ◌||◌, List, [], ◌∷◌, ◌++◌, Option, none,
  some, ltb, ◌==◌, length, Result, ok, err, fault, out_of_fuel, invalid_data, reject_if, ok_or,
}
use copc_rust.Prelude.Int.{to_unsigned, checked_add_u64}
use copc_rust.Prelude.Maps.{get, insert}
use copc_rust.Prelude.States.{M, ◌>>=◌, ◌>>◌, lift, current, update}
use copc_rust.Core.Key.{key_order}
use copc_rust.Core.Bounds.{Floats}
use copc_rust.Core.Hierarchy.{
  Entry, EntryAvailability, empty, point_data, child_page, HierarchyPage, hierarchy_entry_bytes,
  availability, is_child_page, has_point_data, page_from_le_bytes,
}
use copc_rust.Core.Info.{CopcInfo}
use copc_rust.Reader.Hierarchy.{
  CopcDataRanges, HierarchyReadLimits, Hierarchy, validate_hierarchy_page_byte_size,
  validate_range_in_file, validate_hierarchy_entry, max_hierarchy_total_bytes,
}
use copc_rust.Reader.Pages.{PageRange, contains}
use copc_rust.Reader.Chunks.{ChunkRanges, insert_point_chunk_range}
use copc_rust.Reader.Loading.{hierarchy_walk}
use copc_rust.Reader.Query.{PointQuery, QueryFloats, validate_query, select_point_chunks_from}
use copc_rust.Reader.Coalesce.{checked_sub_u64}
use copc_rust.Reader.Reach.{split_pending}

-- The fields of `CopcRangeReader` that change, and the number of requests to the source so far.
pub record RangeReader : Type 0 where
  pub hierarchy : Hierarchy
  pub pending_pages : List Entry
  pub visited_pages : List PageRange
  pub limits : HierarchyReadLimits
  pub loaded_point_total : ℕ
  pub point_ranges : ChunkRanges
  pub requests : ℕ

-- A source answers its requests, by their number, with the bytes of a range or an error.
abbrev pub Source : Type 0
Source = ℕ → ℕ → ℕ → Result (List ℕ)

-- `HierarchyReadLimits::add_page` on the limits of the reader.
unfoldable pub add_page : ℕ → M RangeReader (Unit {0})
add_page byte_size = do
  lift (validate_hierarchy_page_byte_size byte_size)
  s ← current
  total ← lift (ok_or (checked_add_u64 s.limits.total_bytes byte_size) invalid_data)
  update (λ s. record s { limits = record { total_bytes = total } })
  lift (reject_if (ltb max_hierarchy_total_bytes total) invalid_data)

-- The match on `hierarchy.get(&entry.key)`.
abbrev pub clashes : Option Entry → Entry → Bool
clashes none entry = false
clashes (some previous) entry = not (is_child_page previous && not (is_child_page entry))

unfoldable pub fetch_range : Source → ℕ → ℕ → M RangeReader (List ℕ)
fetch_range source start end = do
  len ← lift (ok_or (checked_sub_u64 end start) invalid_data)
  s ← current
  update (λ s. record s { requests = s.requests + 1 })
  lift (source s.requests start len)

unfoldable pub add_ranges : Entry → M RangeReader (Unit {0})
add_ranges entry = do
  s ← current
  point_ranges ← lift (insert_point_chunk_range s.point_ranges entry)
  update (λ s. record s { point_ranges = point_ranges })

-- `if let EntryAvailability::PointData { point_count } = … { … }`
unfoldable pub add_points : EntryAvailability → M RangeReader (Unit {0})
add_points (point_data n) = do
  s ← current
  total ← lift (ok_or (checked_add_u64 s.loaded_point_total n) invalid_data)
  update (λ s. record s { loaded_point_total = total })
add_points empty = lift (ok tt)
add_points child_page = lift (ok tt)

abbrev pub when : Bool → M RangeReader (Unit {0}) → M RangeReader (Unit {0})
when true m = m
when false m = lift (ok tt)

-- The parameters are what `open` found of the file and its header.
module _ (source : Source) (file_len number_of_points : ℕ) (ranges : CopcDataRanges) where
  -- A round of the loop of `load_page`.
  unfoldable pub load_entry : Entry → M RangeReader (Unit {0})
  unfolding add_ranges add_points
  load_entry entry = do
    lift (validate_hierarchy_entry entry file_len ranges)
    s ← current
    lift (reject_if (clashes (get entry.key s.hierarchy) entry) invalid_data)
    when (has_point_data entry) (add_ranges entry)
    update (λ s. record s { hierarchy = insert entry.key entry s.hierarchy })
    a ← lift (availability entry)
    add_points a
    when (is_child_page entry)
        (update (λ s. record s { pending_pages = s.pending_pages ++ (entry ∷ []) }))

  unfoldable pub load_entries : HierarchyPage → M RangeReader (Unit {0})
  unfolding load_entry
  load_entries [] = lift (ok tt)
  load_entries (entry ∷ page) = load_entry entry >> load_entries page

  -- The checks at the end of `load_page`.
  unfoldable pub check_points : M RangeReader (Unit {0})
  check_points = do
    s ← current
    lift (reject_if (ltb number_of_points s.loaded_point_total) invalid_data)
    lift (
        reject_if (length s.pending_pages == 0 && not (s.loaded_point_total == number_of_points))
          invalid_data)

  -- `load_page` for a page that was not visited before, up to the checks at its end.
  unfoldable pub fill_page : Entry → ℕ → M RangeReader (Unit {0})
  unfolding add_page fetch_range load_entries
  fill_page page_entry byte_size = do
    update (λ s. record s { visited_pages = (page_entry.offset, byte_size) ∷ s.visited_pages })
    lift (reject_if (byte_size == 0 || not (byte_size % hierarchy_entry_bytes == 0)) invalid_data)
    add_page byte_size
    end ← lift (validate_range_in_file page_entry.offset byte_size file_len)
    bytes ← fetch_range source page_entry.offset (page_entry.offset + byte_size)
    page ← lift (page_from_le_bytes bytes)
    load_entries page

  unfoldable pub read_page : Entry → ℕ → M RangeReader (Unit {0})
  unfolding fill_page check_points
  read_page page_entry byte_size = fill_page page_entry byte_size >> check_points

  unfoldable pub load_page : Entry → M RangeReader (Unit {0})
  unfolding read_page
  load_page page_entry = do
    byte_size ← lift (ok_or (to_unsigned page_entry.byte_size) invalid_data)
    s ← current
    when (not (contains s.visited_pages (page_entry.offset, byte_size)))
        (read_page page_entry byte_size)

  unfoldable pub load_all : List Entry → M RangeReader (Unit {0})
  unfolding load_page
  load_all [] = lift (ok tt)
  load_all (entry ∷ entries) = load_page entry >> load_all entries

  module _ (q : QueryFloats) ⦃f : Floats ℕ⦄ (info : CopcInfo) (query : PointQuery) where
    -- The loop of `ensure_hierarchy_for`, for at most `fuel` rounds. The pending pages are drained
    -- before they are split.
    unfoldable pub ensure_rounds : ℕ → M RangeReader (Unit {0})
    unfolding split_pending load_all
    ensure_rounds zero = lift (fault out_of_fuel)
    ensure_rounds (suc fuel) =
        let next = ensure_rounds fuel in
        do
          s ← current
          update (λ s. record s { pending_pages = [] })
          parts ← lift (split_pending q info query s.pending_pages)
          update (λ s. record s { pending_pages = parts.1 })
          when (not (length parts.0 == 0)) (load_all parts.0 >> next)

    unfoldable pub hierarchy_for : ℕ → M RangeReader (List Entry)
    unfolding ensure_rounds
    hierarchy_for fuel = do
      lift (validate_query query)
      ensure_rounds fuel
      s ← current
      lift (select_point_chunks_from q (hierarchy_walk s.hierarchy) info query)
