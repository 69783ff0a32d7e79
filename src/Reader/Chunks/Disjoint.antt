-- ===== src/Reader/Chunks/Disjoint.antt =====
-- copc-reader/src/lib.rs: `insert_point_chunk_range` and the map of the ranges.
use copc_rust.Prelude.{
  ℕ, ◌+◌, ◌<◌, ◌≤◌, ◌≡◌, refl, arith, ◌⊎◌, inl, inr, true, false, [], ◌∷◌, some, leb, All, ok,
  >>=-eq-ok, Bool-cases, Option-cases, ok_or, reject_if, reject_if-ok, invalid_data,
}
use Prim.Native.Nat.{compare}
use copc_rust.Prelude.Int.{ℤ, pos, negsuc, pos_part, to_unsigned}
use copc_rust.Prelude.Order.{nat_order, Ordering-cases}
use copc_rust.Prelude.Maps.{insert}
use copc_rust.Core.Key.{VoxelKey}
use copc_rust.Core.Hierarchy.{Entry}
use copc_rust.Reader.Hierarchy.{checked_range_end}
use copc_rust.Reader.Hierarchy.Reading.{checked_range_end_inv}
use copc_rust.Reader.Chunks.{
  ChunkRanges, last_upto, first_from, ends_behind, starts_before, insert_point_chunk_range,
}

abbrev pub Chunk : Type 0
Chunk = ℕ × (ℕ × VoxelKey)

-- Chunks with bytes, each behind the one before.
abbrev pub IsChained : ChunkRanges → Type 0
IsChained [] = Unit
IsChained (r ∷ ranges) = (r.0 < r.1.0) × All (λ s. r.1.0 ≤ s.0) ranges × IsChained ranges

-- The bytes from `offset` to `end` are free.
abbrev pub IsFree : ℕ → ℕ → ChunkRanges → Type 0
IsFree offset end = All (λ (r : Chunk). (r.1.0 ≤ offset) ⊎ (end ≤ r.0))

last_upto_inv :
    (low offset : ℕ) (ranges : ChunkRanges) (found : Chunk)
    → All (λ (s : Chunk). low ≤ s.0) ranges
    → last_upto offset ranges ≡ some found
    → low ≤ offset
unfolding last_upto
last_upto_inv low offset [] found h k = absurd (cc k)
last_upto_inv low offset (r ∷ ranges) found (h, hs) k = elim (Bool-cases (leb r.0 offset)) [
  | inl b ↦ ground (arith, b)
  | inr b ↦ absurd (cc (rw b at k))
]

All-above :
    (offset end low : ℕ) (ranges : ChunkRanges)
    → end ≤ low
    → All (λ (s : Chunk). low ≤ s.0) ranges
    → IsFree offset end ranges
All-above offset end low [] h k = tt
All-above offset end low (r ∷ ranges) h (k, ks) =
    (inr (omega arith), All-above offset end low ranges h ks)

free_lem :
    (offset end : ℕ) (ranges : ChunkRanges)
    → offset < end
    → IsChained ranges
    → ends_behind offset (last_upto offset ranges) ≡ false
    → starts_before end (first_from offset ranges) ≡ false
    → IsFree offset end ranges
unfolding last_upto first_from ends_behind starts_before
free_lem offset end [] h c low high = tt
free_lem offset end (r ∷ ranges) h (some_bytes, behind, c) low high =
    elim (Bool-cases (leb r.0 offset)) [
      | inr b ↦
          let up : leb offset r.0 ≡ true = ground (arith, b) in
          let far : end ≤ r.0 = ground (arith, rw up at high) in
          (inr far, All-above offset end r.1.0 ranges (omega arith) behind)
      | inl b ↦ elim (Bool-cases (leb offset r.0)) [
        | inl up ↦ absurd (ground (arith, rw up at high))
        | inr up ↦ elim (Option-cases (last_upto offset ranges)) [
          | inl n ↦
              let near : r.1.0 ≤ offset = ground (arith, rw (b, n) at low) in
              (inl near, free_lem offset end ranges h c (rw n refl) (rw up at high))
          | inr (found, n) ↦
              let near : r.1.0 ≤ offset = last_upto_inv r.1.0 offset ranges found behind n in
              (inl near, free_lem offset end ranges h c (rw n (rw (b, n) at low)) (rw up at high))
        ]
      ]
    ]

-- What `insert_point_chunk_range` adds.
pub record Added (ranges ranges' : ChunkRanges) (e : Entry) : Type 0 where
  pub free : IsFree e.offset (e.offset + pos_part e.byte_size) ranges
  pub result : insert e.offset (e.offset + pos_part e.byte_size, e.key) ranges ≡ ranges'

pub insert_point_chunk_range_inv :
    (ranges ranges' : ChunkRanges) (e : Entry)
    → IsChained ranges
    → 0 < pos_part e.byte_size
    → insert_point_chunk_range ranges e ≡ ok ranges'
    → Added ranges ranges' e
unfolding insert_point_chunk_range
insert_point_chunk_range_inv ranges ranges' e c some_bytes h =
    let (n, size, h1) = >>=-eq-ok (ok_or (to_unsigned e.byte_size) invalid_data) _ h in
    let (end, sum, h2) = >>=-eq-ok (checked_range_end e.offset n) _ h1 in
    let (_, low, h3) =
      >>=-eq-ok (reject_if (ends_behind e.offset (last_upto e.offset ranges)) invalid_data) _ h2 in
    let (_, high, h4) =
      >>=-eq-ok (reject_if (starts_before end (first_from e.offset ranges)) invalid_data) _ h3 in
    let n' : pos_part e.byte_size ≡ n = same_size e.byte_size n size in
    let end' = checked_range_end_inv e.offset n end sum in
    let done : insert e.offset (end, e.key) ranges ≡ ranges' = cc in
    record {
      free =
          rw (n', ← end')
            (free_lem e.offset end ranges (omega arith) c (reject_if-ok _ invalid_data low)
              (reject_if-ok _ invalid_data high));
      result = rw (n', ← end') done;
    }
  where
    same_size : (z : ℤ) (n : ℕ) → ok_or (to_unsigned z) invalid_data ≡ ok n → pos_part z ≡ n
    same_size (pos m) n h = cc
    same_size (negsuc m) n h = cc

module _ (offset end : ℕ) (key : VoxelKey) (some_bytes : offset < end) where
  pub insert-All :
      (P : Chunk → Type 0) (ranges : ChunkRanges)
      → IsFree offset end ranges
      → IsChained ranges
      → All P (insert offset (end, key) ranges)
      → P (offset, (end, key)) × All P ranges
  unfolding insert
  insert-All P [] f c a = a
  insert-All P (r ∷ ranges) (here, f) (bytes, _, c) a = elim (Ordering-cases (compare offset r.0)) [
    | inl o ↦ (rw (o, All, insert) at a)
    | inr (inl o) ↦ absurd (ground arith)
    | inr (inr o) ↦
        let (pr, rest) = rw (o, All, insert) at a in
        let (p, more) = insert-All P ranges f c rest in (p, (pr, more))
  ]

  All-insert :
      (low : ℕ) (ranges : ChunkRanges)
      → low ≤ offset
      → All (λ (s : Chunk). low ≤ s.0) ranges
      → All (λ (s : Chunk). low ≤ s.0) (insert offset (end, key) ranges)
  unfolding insert
  All-insert low [] h a = (h, tt)
  All-insert low (r ∷ ranges) h (p, a) = elim (Ordering-cases (compare offset r.0)) [
    | inl o ↦ rw (o, All, insert) (h, (p, a))
    | inr (inl o) ↦ rw (o, All, insert) (h, a)
    | inr (inr o) ↦ rw (o, All, insert) (p, All-insert low ranges h a)
  ]

  pub insert-IsChained :
      (ranges : ChunkRanges)
      → IsFree offset end ranges
      → IsChained ranges
      → IsChained (insert offset (end, key) ranges)
  unfolding insert
  insert-IsChained [] f c = (some_bytes, tt, tt)
  insert-IsChained (r ∷ ranges) (here, f) (bytes, behind, c) =
      elim (Ordering-cases (compare offset r.0)) [
        | inl o ↦
            let before : end ≤ r.0 = ground arith in
            rw (o, IsChained, insert)
              (some_bytes, (before, below r.1.0 ranges (omega arith) behind), (bytes, behind, c))
        | inr (inl o) ↦ absurd (ground arith)
        | inr (inr o) ↦
            let after : r.1.0 ≤ offset = ground arith in
            rw (o, IsChained, insert)
              (bytes, All-insert r.1.0 ranges after behind, insert-IsChained ranges f c)
      ]
    where
      below :
          (low : ℕ) (ranges : ChunkRanges)
          → end ≤ low
          → All (λ (s : Chunk). low ≤ s.0) ranges
          → All (λ (s : Chunk). end ≤ s.0) ranges
      below low [] h a = tt
      below low (s ∷ ranges) h (p, a) = (omega arith, below low ranges h a)
