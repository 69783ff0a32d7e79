-- ===== src/Reader/Query.antt =====
-- copc-reader/src/points.rs: point queries, the levels and voxels that they include, and the chunks
-- that they select. A float is its bits.
pub mod Levels
pub mod Overlaps
pub mod Selected
use copc_rust.Prelude.{
  ℕ, ◌+◌, ◌*◌, ◌-◌, ◌^◌, ◌%◌, Bool, true, false, not, ◌&&◌, ◌||◌, List, [], ◌∷◌, Option, none, some,
  ltb, ◌==◌, if◌then◌else◌, min, max, Result, ok, err, invalid_input, invalid_data, reject_if,
  ok_or, or_panic, ◌>>=◌, ◌>>◌,
}
use copc_rust.Prelude.Int.{
  ℤ, pos, pos_part, neg_part, ltb_ℤ, leb_ℤ, to_unsigned, checked_add_i32, ◌+ℤ◌,
}
use copc_rust.Prelude.Order.{and_then}
use Prim.Native.Nat.{Ordering, compare}
use Prim.Native.Nat.Ordering.{lt, eq, gt}
use copc_rust.Core.Key
use copc_rust.Core.Key.{VoxelKey, cmp_key}
use copc_rust.Core.Bounds.{Floats, Bounds, intersects}
use copc_rust.Core.Hierarchy.{Entry, has_point_data}
use copc_rust.Core.Info.{CopcInfo, is_finite, at_most_zero, above}

-- `LodSelection`; its constructor `full` is the variant `All`.
pub data LodSelection : Type 0 where
  full : LodSelection
  resolution : ℕ → LodSelection
  level : ℤ → LodSelection
  level_min_max : ℤ → ℤ → LodSelection

-- `BoundsSelection`: `none` is the variant `All`.
abbrev pub BoundsSelection : Type 0
BoundsSelection = Option (Bounds ℕ)

pub record PointQuery : Type 0 where
  pub lod : LodSelection
  pub bounds : BoundsSelection

-- The operations of `f64` beside those of `Floats`: the quotient by a power of two, the conversion of
-- an `i32`, and `(a / b).log2().ceil() as i64`.
pub record QueryFloats : Type 0 where
  pub over_pow2 : ℕ → ℤ → ℕ
  pub of_i32 : ℤ → ℕ
  pub two : ℕ
  pub levels : ℕ → ℕ → ℤ

abbrev pub finite_point : ℕ × ℕ × ℕ → Bool
finite_point p = is_finite p.0 && is_finite p.1 && is_finite p.2

unfoldable pub validate_query : PointQuery → Result (Unit {0})
validate_query query = elim query.bounds [
  | none ↦ ok tt
  | some bounds ↦
      reject_if (not (finite_point bounds.min && finite_point bounds.max)) invalid_input
      >> reject_if
          (above bounds.min.0 bounds.max.0
            || above bounds.min.1 bounds.max.1
            || above bounds.min.2 bounds.max.2)
          invalid_input
]

unfoldable pub validate_level : ℤ → Result (Unit {0})
validate_level a = reject_if (ltb_ℤ a (pos 0)) invalid_input

abbrev pub i32_max : ℕ
i32_max = 2 ^ 31 - 1

-- `checked_add` of `i64`.
abbrev pub checked_add_i64 : ℤ → ℤ → Option ℤ
checked_add_i64 a b =
    if ltb (pos_part (a +ℤ b)) (2 ^ 63) && ltb (neg_part (a +ℤ b)) (2 ^ 63 + 1)
    then some (a +ℤ b)
    else none

-- `(… + 1).max(1).min(i64::from(i32::MAX)) as i32`; the sum panics where it overflows.
unfoldable pub level_above : ℤ → Result ℤ
unfolding ◌+ℤ◌
level_above levels = do
  sum ← or_panic (checked_add_i64 levels (pos 1))
  ok (pos (min (max (pos_part sum) 1) i32_max))

module _ (q : QueryFloats) where
  unfoldable pub level_range : LodSelection → CopcInfo → Result (ℤ × ℤ)
  unfolding validate_level level_above checked_add_i32
  level_range LodSelection.full info = ok (pos 0, pos i32_max)
  level_range (LodSelection.resolution wanted) info = do
    reject_if (not (is_finite wanted) || at_most_zero wanted) invalid_input
    reject_if (not (is_finite info.spacing) || at_most_zero info.spacing) invalid_data
    level_max ← level_above (q.levels info.spacing wanted)
    ok (pos 0, level_max)
  level_range (LodSelection.level only) info = do
    validate_level only
    end ← ok_or (checked_add_i32 only (pos 1)) invalid_input
    ok (only, end)
  level_range (LodSelection.level_min_max first end) info = do
    validate_level first
    validate_level end
    reject_if (ltb_ℤ end first) invalid_input
    ok (first, end)

-- `total_candidate_points`, from a total on; `usize` has 64 bits.
unfoldable pub add_candidates : List Entry → ℕ → Result ℕ
add_candidates [] total = ok total
add_candidates (entry ∷ entries) total = do
  count ← ok_or (to_unsigned entry.point_count) invalid_data
  reject_if (not (ltb (total + count) (2 ^ 64))) invalid_data
  add_candidates entries (total + count)

unfoldable pub total_candidate_points : List Entry → Result ℕ
unfolding add_candidates
total_candidate_points entries = add_candidates entries 0

-- `(entry.offset, entry.key)`
abbrev pub cmp_chunk : Entry → Entry → Ordering
cmp_chunk a b = and_then (compare a.offset b.offset) (cmp_key a.key b.key)

-- `sort_by_key`, which is stable.
unfoldable pub insert_chunk : Entry → List Entry → List Entry
insert_chunk entry [] = entry ∷ []
insert_chunk entry (other ∷ chunks) = elim (cmp_chunk entry other) [
  | lt ↦ entry ∷ other ∷ chunks
  | eq ↦ entry ∷ other ∷ chunks
  | gt ↦ other ∷ insert_chunk entry chunks
]

unfoldable pub sort_chunks : List Entry → List Entry
unfolding insert_chunk
sort_chunks [] = []
sort_chunks (entry ∷ chunks) = insert_chunk entry (sort_chunks chunks)

module _ (q : QueryFloats) ⦃f : Floats ℕ⦄ where
  unfoldable pub voxel_bounds : VoxelKey → CopcInfo → Result (Bounds ℕ)
  voxel_bounds key info = do
    Key.validate key
    let side = q.over_pow2 (f.times info.halfsize q.two) key.level
    let x = f.plus (f.minus info.center.0 info.halfsize) (f.times (q.of_i32 key.x) side)
    let y = f.plus (f.minus info.center.1 info.halfsize) (f.times (q.of_i32 key.y) side)
    let z = f.plus (f.minus info.center.2 info.halfsize) (f.times (q.of_i32 key.z) side)
    ok (record { min = (x, y, z); max = (f.plus x side, f.plus y side, f.plus z side) })

  -- `(level_min..level_max).contains(&level)`
  abbrev pub in_levels : ℤ × ℤ → ℤ → Bool
  in_levels levels a = leb_ℤ levels.0 a && ltb_ℤ a levels.1

  -- The test of the bounds; without bounds every voxel passes.
  unfoldable pub meets : CopcInfo → BoundsSelection → VoxelKey → Result Bool
  unfolding voxel_bounds
  meets info none key = ok true
  meets info (some bounds) key = do
    node_bounds ← voxel_bounds key info
    ok (intersects node_bounds bounds)

  unfoldable pub select_entries :
      List Entry → CopcInfo → ℤ × ℤ → BoundsSelection → Result (List Entry)
  unfolding meets
  select_entries [] info levels bounds = ok []
  select_entries (entry ∷ entries) info levels bounds =
      let rest = select_entries entries info levels bounds in
      let in_reach = (do
        selected ← meets info bounds entry.key
        chunks ← rest
        ok (if selected then entry ∷ chunks else chunks)) in
      let with_points =
        reject_if (leb_ℤ entry.byte_size (pos 0)) invalid_data
        >> (if in_levels levels entry.key.level then in_reach else rest) in
      if has_point_data entry then with_points else rest

  unfoldable pub select_point_chunks_from : List Entry → CopcInfo → PointQuery → Result (List Entry)
  unfolding validate_query level_range select_entries sort_chunks
  select_point_chunks_from entries info query = do
    validate_query query
    levels ← level_range q query.lod info
    chunks ← select_entries entries info levels query.bounds
    ok (sort_chunks chunks)
