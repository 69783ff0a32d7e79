-- ===== src/Reader/Query/Overlaps.antt =====
-- copc-reader/src/points.rs: when a voxel overlaps the bounds of a query, axis by axis.
use mathlib.Core.Path.{subst}
use copc_rust.Prelude.{ℕ, ◌≡◌, ◌↔◌, arith, Bool, true, ◌&&◌, none, some, ok, >>=-eq-ok}
use copc_rust.Prelude.Int.{ℤ}
use copc_rust.Core.Key
use copc_rust.Core.Key.{VoxelKey}
use copc_rust.Core.Bounds.{Floats, Bounds, intersects}
use copc_rust.Core.Info.{CopcInfo}
use copc_rust.Reader.Query.{QueryFloats, BoundsSelection, voxel_bounds, meets}

module _ (q : QueryFloats) ⦃f : Floats ℕ⦄ (info : CopcInfo) where
  -- The voxels of a level divide the cube of the info into equal sides, from its low corner on.
  abbrev pub side_of : ℤ → ℕ
  side_of level = q.over_pow2 (f.times info.halfsize q.two) level

  abbrev pub start_of : (middle side : ℕ) → ℤ → ℕ
  start_of middle side coordinate =
      f.plus (f.minus middle info.halfsize) (f.times (q.of_i32 coordinate) side)

  -- Two closed intervals that have a value in common, by their ends.
  abbrev pub Touches : (low high low' high' : ℕ) → Type 0
  Touches low high low' high' = (f.at_least high low' ≡ true) × (f.at_least high' low ≡ true)

  abbrev pub OnAxis : (middle side low high : ℕ) → ℤ → Type 0
  OnAxis middle side low high coordinate =
      Touches (start_of middle side coordinate) (f.plus (start_of middle side coordinate) side) low
        high

  -- The voxel and the box touch on each axis.
  abbrev pub Overlaps : VoxelKey → Bounds ℕ → Type 0
  Overlaps key b =
      OnAxis info.center.0 (side_of key.level) b.min.0 b.max.0 key.x
      × OnAxis info.center.1 (side_of key.level) b.min.1 b.max.1 key.y
      × OnAxis info.center.2 (side_of key.level) b.min.2 b.max.2 key.z

  all_true :
      (a b c d e g : Bool)
      → ((a && b && c && d && e && g) ≡ true)
        ↔ (((a ≡ true) × (b ≡ true)) × ((c ≡ true) × (d ≡ true)) × ((e ≡ true) × (g ≡ true)))
  all_true a b c d e g = ground arith

  pub voxel_bounds-Overlaps :
      (key : VoxelKey) (node b : Bounds ℕ)
      → voxel_bounds q key info ≡ ok node
      → (intersects node b ≡ true) ↔ Overlaps key b
  unfolding voxel_bounds
  voxel_bounds-Overlaps key node b h =
      let (_, _, made) = >>=-eq-ok (Key.validate key) _ h in
      let side = side_of key.level in
      let x = start_of info.center.0 side key.x in
      let y = start_of info.center.1 side key.y in
      let z = start_of info.center.2 side key.z in
      let voxel : Bounds ℕ = record {
        min = (x, y, z);
        max = (f.plus x side, f.plus y side, f.plus z side);
      } in
      let same : voxel ≡ node = cc in
      subst (λ n. (intersects n b ≡ true) ↔ Overlaps key b) same
        (all_true (f.at_least voxel.max.0 b.min.0) (f.at_least b.max.0 voxel.min.0)
          (f.at_least voxel.max.1 b.min.1) (f.at_least b.max.1 voxel.min.1)
          (f.at_least voxel.max.2 b.min.2) (f.at_least b.max.2 voxel.min.2))

  -- Without bounds every voxel meets them.
  abbrev pub Meets : BoundsSelection → VoxelKey → Type 0
  Meets none key = Unit {0}
  Meets (some b) key = Overlaps key b

  pub meets-Meets :
      (bounds : BoundsSelection) (key : VoxelKey) (met : Bool)
      → meets q info bounds key ≡ ok met
      → (met ≡ true) ↔ Meets bounds key
  unfolding meets
  meets-Meets none key met h = (λ t. tt, λ t. cc)
  meets-Meets (some b) key met h =
      let (node, made, same) = >>=-eq-ok (voxel_bounds q key info) _ h in
      let (to, from) = voxel_bounds-Overlaps key node b made in (λ t. to cc, λ o. cc (from o))
