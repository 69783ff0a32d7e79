-- ===== src/Tests/Queries.antt =====
-- Point queries of two entries, over natural numbers for the floats.
use copc_rust.Prelude.{
  ℕ, ◌+◌, ◌-◌, ◌*◌, ◌^◌, ◌≡◌, refl, arith, ◌↔◌, [], ◌∷◌, none, leb, ok, fault, panic,
}
use copc_rust.Prelude.Int.{ℤ, pos}
use copc_rust.Core.Key.{root}
use copc_rust.Core.Key.Tree.{voxel}
use copc_rust.Core.Bounds.{Floats}
use copc_rust.Core.Hierarchy.{Entry, has_point_data}
use copc_rust.Core.Info.{CopcInfo}
use copc_rust.Reader.Query.{
  LodSelection, PointQuery, QueryFloats, level_range, select_point_chunks_from,
}
use copc_rust.Reader.Query.Levels.{
  IsLevelRange, level_range_bounds, Overflows, level_range_panics_iff,
}
use copc_rust.Reader.Query.Selected.{IsSorted, Parts, select_point_chunks_from-Parts}

instance abbrev pub numbers : Floats ℕ
numbers = record {
  plus = λ a b. a + b;
  minus = λ a b. a - b;
  times = λ a b. a * b;
  half = 1;
  at_least = λ a b. leb b a;
}

abbrev pub query_numbers : QueryFloats
query_numbers = record {
  over_pow2 = λ a level. a;
  of_i32 = λ a. 0;
  two = 2;
  levels = λ a b. pos (2 ^ 63 - 1);
}

abbrev pub unit_cube : CopcInfo
unit_cube = record {
  center = (0, 0, 0);
  halfsize = 4607182418800017408;
  spacing = 4607182418800017408;
  root_hier_offset = 600;
  root_hier_size = 64;
  gpstime_min = 0;
  gpstime_max = 0;
}

abbrev pub late : Entry
late = record { key = voxel 1 0 0 1; offset = 4; byte_size = pos 4; point_count = pos 2 }

abbrev pub early : Entry
early = record { key = root; offset = 0; byte_size = pos 4; point_count = pos 1 }

abbrev pub everything : PointQuery
everything = record { lod = LodSelection.full; bounds = none }

three_to_seven :
    level_range query_numbers (LodSelection.level_min_max (pos 3) (pos 7)) unit_cube
    ≡ ok (pos 3, pos 7)
unfolding level_range
three_to_seven = refl

level_range_bounds_example : IsLevelRange (pos 3, pos 7)
level_range_bounds_example =
    level_range_bounds query_numbers (LodSelection.level_min_max (pos 3) (pos 7)) unit_cube
      (pos 3, pos 7) (ground arith, ground arith) three_to_seven

level_range_panics_iff_example :
    (level_range query_numbers (LodSelection.resolution 4607182418800017408) unit_cube
      ≡ fault panic)
    ↔ Overflows query_numbers (LodSelection.resolution 4607182418800017408) unit_cube
level_range_panics_iff_example =
    level_range_panics_iff query_numbers (LodSelection.resolution 4607182418800017408) unit_cube
      λ spacing wanted. ground arith

pub two_selected :
    select_point_chunks_from query_numbers (late ∷ early ∷ []) unit_cube everything
    ≡ ok (early ∷ late ∷ [])
unfolding select_point_chunks_from has_point_data
two_selected = refl

select_point_chunks_from-Parts_example :
    (levels : ℤ × ℤ) × (level_range query_numbers LodSelection.full unit_cube ≡ ok levels)
    × IsSorted (early ∷ late ∷ [])
    × Parts query_numbers unit_cube levels none (late ∷ early ∷ []) (early ∷ late ∷ [])
select_point_chunks_from-Parts_example =
    select_point_chunks_from-Parts query_numbers (late ∷ early ∷ []) unit_cube everything
      (early ∷ late ∷ []) two_selected
