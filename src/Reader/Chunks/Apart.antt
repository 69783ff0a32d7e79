-- ===== src/Reader/Chunks/Apart.antt =====
-- copc-reader/src/lib.rs: `validate_point_chunk_ranges` and the overlap of chunks.
use copc_rust.Prelude.{
  ◌+◌, ◌<◌, ◌≤◌, ◌≡◌, arith, ◌⊎◌, inl, inr, true, [], ◌∷◌, All, ok, >>=-eq-ok, Bool-cases,
}
use copc_rust.Prelude.Int.{pos_part}
use copc_rust.Prelude.Order.{nat_order}
use copc_rust.Core.Key.{VoxelKey}
use copc_rust.Core.Hierarchy.{Entry, has_point_data}
use copc_rust.Reader.Hierarchy.{Hierarchy}
use copc_rust.Reader.Chunks.{
  ChunkRanges, insert_point_chunk_range, insert_ranges, validate_point_chunk_ranges,
}
use copc_rust.Reader.Chunks.Disjoint.{
  Chunk, IsChained, IsFree, insert_point_chunk_range_inv, insert-All, insert-IsChained,
}

-- The bytes of two entries do not overlap.
abbrev pub IsApart : Entry → Entry → Type 0
IsApart e e' =
    (e.offset + pos_part e.byte_size ≤ e'.offset) ⊎ (e'.offset + pos_part e'.byte_size ≤ e.offset)

-- The chunks of any two entries with points, at different places of the hierarchy, are apart.
abbrev pub AllApart : Hierarchy → Type 0
AllApart [] = Unit
AllApart ((key, e) ∷ rest) =
    (has_point_data e ≡ true → All (λ q. has_point_data q.1 ≡ true → IsApart e q.1) rest)
    × AllApart rest

-- An entry with points has bytes.
abbrev pub HasBytes : Hierarchy → Type 0
HasBytes = All (λ q. has_point_data q.1 ≡ true → 0 < pos_part q.1.byte_size)

abbrev IsClear : Hierarchy → Chunk → Type 0
IsClear rest r =
    All
      (λ q.
        has_point_data q.1 ≡ true
        → (r.1.0 ≤ q.1.offset) ⊎ (q.1.offset + pos_part q.1.byte_size ≤ r.0))
      rest

add-IsClear :
    (key : VoxelKey) (e : Entry) (rest : Hierarchy) (ranges : ChunkRanges)
    → (has_point_data e ≡ true → IsFree e.offset (e.offset + pos_part e.byte_size) ranges)
    → All (IsClear rest) ranges
    → All (IsClear ((key, e) ∷ rest)) ranges
add-IsClear key e rest [] f c = tt
add-IsClear key e rest (r ∷ ranges) f (here, c) =
    ((λ h. (f h).0, here), add-IsClear key e rest ranges (λ h. (f h).1) c)

insert_ranges_inv :
    (rest : Hierarchy) (ranges out : ChunkRanges)
    → IsChained ranges
    → HasBytes rest
    → insert_ranges rest ranges ≡ ok out
    → AllApart rest × All (IsClear rest) ranges
unfolding insert_ranges
insert_ranges_inv [] ranges out c b h = (tt, nothing ranges)
  where
    nothing : (ranges : ChunkRanges) → All (IsClear []) ranges
    nothing [] = tt
    nothing (r ∷ ranges) = (tt, nothing ranges)
insert_ranges_inv ((key, e) ∷ rest) ranges out c (bytes, b) h =
    elim (Bool-cases (has_point_data e)) [
      | inr p ↦
          let (apart, clear) = insert_ranges_inv rest ranges out c b (rw p at h) in
          (
            (λ q. absurd (cc (p, q)), apart),
            add-IsClear key e rest ranges (λ q. absurd (cc (p, q))) clear,
          )
      | inl p ↦
          let (ranges', first, more) =
            >>=-eq-ok (insert_point_chunk_range ranges e) _ (rw p at h) in
          let added = insert_point_chunk_range_inv ranges ranges' e c (bytes p) first in
          let end = e.offset + pos_part e.byte_size in
          let some_bytes : e.offset < end = omega (arith, bytes p) in
          let chained : IsChained ranges' =
            rw (← added.result)
              (insert-IsChained e.offset end e.key some_bytes ranges added.free c) in
          let (apart, clear) = insert_ranges_inv rest ranges' out chained b more in
          let (mine, others) =
            insert-All e.offset end e.key some_bytes (IsClear rest) ranges added.free c
              (rw (← added.result) at clear) in
          ((λ _. mine, apart), add-IsClear key e rest ranges (λ _. added.free) others)
    ]

-- If `validate_point_chunk_ranges` accepts a hierarchy whose entries with points have bytes, then
-- the chunks of any two of these entries are apart.
pub validate_point_chunk_ranges-AllApart :
    (hierarchy : Hierarchy)
    → HasBytes hierarchy
    → validate_point_chunk_ranges hierarchy ≡ ok tt
    → AllApart hierarchy
unfolding validate_point_chunk_ranges
validate_point_chunk_ranges-AllApart hierarchy b h =
    let (out, run, _) = >>=-eq-ok (insert_ranges hierarchy []) _ h in
    (insert_ranges_inv hierarchy [] out tt b run).0
