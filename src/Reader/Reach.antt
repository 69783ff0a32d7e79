-- ===== src/Reader/Reach.antt =====
-- copc-reader/src/ranged.rs: the pending hierarchy pages whose subtrees a query can reach.
use copc_rust.Prelude.{
  ℕ, Bool, true, false, ◌&&◌, List, [], ◌∷◌, none, some, if◌then◌else◌, Result, ok, ◌>>=◌,
}
use copc_rust.Prelude.Int.{pos, leb_ℤ}
use copc_rust.Core.Key.{VoxelKey}
use copc_rust.Core.Bounds.{Floats, intersects}
use copc_rust.Core.Hierarchy.{Entry}
use copc_rust.Core.Info.{CopcInfo}
use copc_rust.Reader.Query.{PointQuery, QueryFloats, BoundsSelection, level_range, voxel_bounds}

module _ (q : QueryFloats) ⦃f : Floats ℕ⦄ (info : CopcInfo) (query : PointQuery) where
  abbrev pub is_located : VoxelKey → Bool
  is_located key =
      leb_ℤ (pos 0) key.level && leb_ℤ (pos 0) key.x && leb_ℤ (pos 0) key.y && leb_ℤ (pos 0) key.z

  abbrev pub voxel_meets : VoxelKey → BoundsSelection → Result Bool
  voxel_meets key none = ok true
  voxel_meets key (some bounds) =
      if is_located key
      then voxel_bounds q key info >>= (λ node. ok (intersects node bounds))
      else ok true

  unfoldable pub page_may_match : VoxelKey → Result Bool
  page_may_match key = level_range q query.lod info >>= λ levels.
      if leb_ℤ levels.1 key.level then ok false else voxel_meets key query.bounds

  -- The relevant pages and the rest.
  unfoldable pub split_pending : List Entry → Result (List Entry × List Entry)
  unfolding page_may_match
  split_pending [] = ok ([], [])
  split_pending (entry ∷ pending) = page_may_match entry.key >>= λ relevant.
      split_pending pending >>= λ parts.
      ok (if relevant then (entry ∷ parts.0, parts.1) else (parts.0, entry ∷ parts.1))
