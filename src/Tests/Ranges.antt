-- ===== src/Tests/Ranges.antt =====
-- Two chunks that one request fetches, a page whose first request fails, and a page with a chunk.
use mathlib.Core.Path.{subst}
use copc_rust.Prelude.{
  ℕ, List, Returns, length-replicate, ◌+◌, ◌^◌, length, zero, suc, ◌≡◌, refl, arith, [], ◌∷◌, none,
  replicate, ok, err, io, invalid_data, Same,
}
use copc_rust.Prelude.Int.{pos, negsuc}
use copc_rust.Core.Key.Tree.{voxel}
use copc_rust.Prelude.Maps.{get, insert}
use copc_rust.Core.Hierarchy.{Entry, has_point_data, is_child_page, availability}
use copc_rust.Reader.Chunks.{insert_point_chunk_range}
use copc_rust.Reader.Query.{LodSelection, level_range, select_point_chunks_from}
use copc_rust.Reader.Hierarchy.{
  validate_hierarchy_page_byte_size, validate_range_in_file, read_exact_at,
}
use copc_rust.Reader.Decode.{read_chunks}
use copc_rust.Reader.Points.{no_points, read_columns_serial}
use copc_rust.Reader.Coalesced.{read_columns}
use copc_rust.Reader.Coalesced.Files.{file_source}
use copc_rust.Reader.Coalesced.Agree.{over, read_columns-Same}
use copc_rust.Reader.Coalesce.{
  ChunkGroup, coalesce_chunks, read_groups, range_coalesce_gap_bytes, max_coalesced_range_bytes,
}
use copc_rust.Reader.Coalesce.Groups.{IsGroup, Grouped, coalesce_chunks-Grouped}
use copc_rust.Reader.Coalesce.Agree.{read_groups-Same}
use copc_rust.Reader.Reach.{split_pending}
use copc_rust.Reader.Ranged.{
  RangeReader, Source, fill_page, load_page, ensure_rounds, hierarchy_for,
}
use copc_rust.Reader.Ranged.Reached.{HasReached, ensure_rounds-HasReached}
use copc_rust.Reader.Ranged.Early.{ensure_rounds_early}
use copc_rust.Reader.Ranged.Visited.{load_page_after_failure}
use copc_rust.Tests.Keys.{child_pointer, sample, sample_bytes, page_read}
use copc_rust.Tests.Loading.{file, ranges, sample_placed}
use copc_rust.Tests.Queries.{numbers, query_numbers, unit_cube, everything, late, early}
use copc_rust.Tests.Columns.{zeros, plain_layout, eight, small_file, chosen}

coalesce_chunks-Grouped_example :
    Grouped max_coalesced_range_bytes
      (early ∷ late ∷ [])
      (coalesce_chunks (early ∷ late ∷ []) range_coalesce_gap_bytes max_coalesced_range_bytes)
coalesce_chunks-Grouped_example =
    coalesce_chunks-Grouped (early ∷ late ∷ []) range_coalesce_gap_bytes max_coalesced_range_bytes
      (omega arith, (omega arith, tt)) (omega arith, (omega arith, tt))

abbrev both : ChunkGroup
both = record { start = 0; end = 8; entries = early ∷ late ∷ [] }

both-IsGroup : IsGroup 64 both
both-IsGroup = record {
  first = early;
  others = late ∷ [];
  entries = refl;
  start = refl;
  holds = ((omega arith, omega arith), ((omega arith, omega arith), tt));
  tight = λ n h. h.1.0;
  bounded = omega arith;
}

read_groups-Same_example :
    Same
      (λ a b. a ≡ b)
      (read_chunks zeros plain_layout none none eight (early ∷ late ∷ []) (no_points []))
      (read_groups zeros plain_layout none eight (both ∷ []) (no_points []))
read_groups-Same_example =
    read_groups-Same zeros plain_layout none eight (omega arith) 64 (both ∷ []) (no_points [])
      (both-IsGroup, tt)

-- The first request fails, the later ones succeed.
abbrev flaky : Source
flaky zero start len = err io
flaky (suc n) start len = ok (replicate len 0)

abbrev new_reader : RangeReader
new_reader = record {
  hierarchy = [];
  pending_pages = [];
  visited_pages = [];
  limits = record { total_bytes = 0 };
  loaded_point_total = 0;
  point_ranges = [];
  requests = 0;
}

abbrev after_failure : RangeReader
after_failure = record new_reader {
  visited_pages = (0, 32) ∷ [];
  limits = record { total_bytes = 32 };
  requests = 1;
}

first_load : load_page flaky 48 9 ranges child_pointer new_reader ≡ (err io, after_failure)
unfolding load_page validate_hierarchy_page_byte_size validate_range_in_file
first_load = refl

load_page_after_failure_example :
    load_page flaky 48 9 ranges child_pointer after_failure ≡ (ok tt, after_failure)
load_page_after_failure_example =
    load_page_after_failure flaky 48 9 ranges child_pointer 32 new_reader after_failure io refl
      first_load

abbrev sibling : Entry
sibling = record { key = voxel 1 0 1 0; offset = 64; byte_size = pos 32; point_count = negsuc 0 }

-- Two pages, of 9 and of 11 points.
abbrev waiting : RangeReader
waiting = record new_reader { pending_pages = child_pointer ∷ sibling ∷ [] }

abbrev half_loaded : RangeReader
half_loaded = record new_reader {
  hierarchy = (voxel 2 3 0 1, sample) ∷ [];
  visited_pages = (0, 32) ∷ [];
  limits = record { total_bytes = 32 };
  loaded_point_total = 9;
  point_ranges = (32, (40, voxel 2 3 0 1)) ∷ [];
  requests = 1;
}

abbrev pages : Source
pages n start len = ok sample_bytes

both_relevant :
    split_pending query_numbers unit_cube everything (child_pointer ∷ sibling ∷ [])
    ≡ ok (child_pointer ∷ sibling ∷ [], [])
unfolding split_pending level_range
both_relevant = refl

first_filled : fill_page pages 48 20 ranges child_pointer 32 new_reader ≡ (ok tt, half_loaded)
unfolding fill_page validate_hierarchy_page_byte_size validate_range_in_file get has_point_data
    insert_point_chunk_range availability is_child_page insert
first_filled = rw (page_read, sample_placed) refl

ensure_rounds_early_example :
    ensure_rounds pages 48 20 ranges query_numbers unit_cube everything 5 waiting
    ≡ (err invalid_data, half_loaded)
ensure_rounds_early_example =
    ensure_rounds_early pages 48 20 ranges query_numbers unit_cube everything 4 child_pointer
      (sibling ∷ []) 32 waiting half_loaded both_relevant refl refl first_filled refl (omega arith)

all_levels : Returns (level_range query_numbers LodSelection.full unit_cube)
unfolding level_range
all_levels = tt

flaky_answers : (n start len : ℕ) → Returns (flaky n start len)
flaky_answers zero start len = tt
flaky_answers (suc n) start len = tt

flaky_fills : (n start len : ℕ) (bytes : List ℕ) → flaky n start len ≡ ok bytes → length bytes ≡ len
flaky_fills zero start len bytes e = cc
flaky_fills (suc n) start len bytes e =
    let same : replicate len 0 ≡ bytes = cc in
    subst (λ t. length t ≡ len) same (length-replicate len 0)

ensure_rounds-HasReached_example :
    HasReached query_numbers unit_cube everything
      (ensure_rounds flaky 48 20 ranges query_numbers unit_cube everything (2 ^ 23 + 3) waiting)
ensure_rounds-HasReached_example =
    ensure_rounds-HasReached query_numbers unit_cube everything flaky 48 20 ranges flaky_answers
      flaky_fills (2 ^ 23 + 3) waiting all_levels (omega arith) (omega arith)

-- The page of `sample` waits at the start of the file; the reader is opened and has loaded no page.
abbrev opened : RangeReader
opened = record new_reader { pending_pages = child_pointer ∷ [] }

abbrev page_loaded : RangeReader
page_loaded = record half_loaded { pending_pages = [] }

one_relevant :
    split_pending query_numbers unit_cube everything (child_pointer ∷ [])
    ≡ ok (child_pointer ∷ [], [])
unfolding split_pending level_range
one_relevant = refl

hierarchy_loaded :
    hierarchy_for (file_source file) 48 9 ranges query_numbers unit_cube everything 2 opened
    ≡ (ok (sample ∷ []), page_loaded)
unfolding hierarchy_for split_pending level_range load_page fill_page read_exact_at
    validate_hierarchy_page_byte_size validate_range_in_file get has_point_data
    insert_point_chunk_range availability is_child_page insert select_point_chunks_from
hierarchy_loaded = rw (page_read, sample_placed) refl

read_columns-Same_example :
    Same
      (λ a b. a ≡ b)
      (read_columns_serial zeros query_numbers
        (over small_file page_loaded.hierarchy)
        file
        everything
        chosen
        none)
      ((read_columns
        (file_source file)
        48
        9
        ranges
        zeros
        query_numbers
        small_file
        everything
        chosen
        2
        opened).0)
read_columns-Same_example =
    read_columns-Same zeros query_numbers small_file everything chosen file 48 9 ranges 2 opened
      page_loaded (sample ∷ []) (omega arith) hierarchy_loaded (omega arith, tt)
