-- ===== src/Reader/Coalesce.antt =====
-- copc-reader/src/ranged.rs: nearby chunks are fetched with one request and cut out of its bytes. The
-- source is a file, whose bytes `read_range` reads.
pub mod Groups
pub mod Cuts
pub mod Agree
use copc_rust.Prelude.{
  ℕ, ◌+◌, ◌*◌, ◌-◌, ◌^◌, ◌≡◌, Bool, true, false, ◌&&◌, List, [], ◌∷◌, ◌++◌, Option, none, some, leb,
  if◌then◌else◌, min, max, length, Result, ok, err, invalid_data, ok_or, or_panic, ◌>>=◌, ◌>>◌,
}
use copc_rust.Prelude.Int.{ℤ, pos_part, to_unsigned, checked_add_u64}
use copc_rust.Prelude.Slices.{slice}
use copc_rust.Core.Bounds.{Floats, Bounds}
use copc_rust.Core.Hierarchy.{Entry}
use copc_rust.Reader.Append.{ExtendedPointLayout}
use copc_rust.Reader.Hierarchy.{read_exact_at}
use copc_rust.Reader.Decode.{Decoding, Decoded, decode_into}

abbrev pub range_coalesce_gap_bytes : ℕ
range_coalesce_gap_bytes = 64 * 1024

abbrev pub max_coalesced_range_bytes : ℕ
max_coalesced_range_bytes = 64 * 1024 * 1024

pub record ChunkGroup : Type 0 where
  pub start : ℕ
  pub end : ℕ
  pub entries : List Entry

-- `entry.offset + entry.byte_size.max(0) as u64`, which panics where it overflows.
unfoldable pub chunk_end : Entry → Result ℕ
chunk_end entry = or_panic (checked_add_u64 entry.offset (pos_part entry.byte_size))

-- `saturating_add` of `u64`.
abbrev pub saturating_add : ℕ → ℕ → ℕ
saturating_add a b = min (a + b) (2 ^ 64 - 1)

abbrev pub joins : ChunkGroup → ℕ → ℕ → ℕ → ℕ → Bool
joins group start end gap max_range_bytes =
    leb start (saturating_add group.end gap) && leb (end - group.start) max_range_bytes

abbrev pub join_group : ChunkGroup → Entry → ℕ → ChunkGroup
join_group group entry end = record group {
  end = max group.end end;
  entries = group.entries ++ (entry ∷ []);
}

abbrev pub new_group : Entry → ℕ → ChunkGroup
new_group entry end = record { start = entry.offset; end = end; entries = entry ∷ [] }

-- The loop of `coalesce_chunks` with its last group; the groups before it are the first of the result.
unfoldable pub coalesce_from : ℕ → ℕ → List Entry → ChunkGroup → Result (List ChunkGroup)
unfolding chunk_end
coalesce_from gap max_range_bytes [] group = ok (group ∷ [])
coalesce_from gap max_range_bytes (entry ∷ chunks) group = do
  end ← chunk_end entry
  let joined = coalesce_from gap max_range_bytes chunks (join_group group entry end)
  let pushed = (do
    groups ← coalesce_from gap max_range_bytes chunks (new_group entry end)
    ok (group ∷ groups))
  if joins group entry.offset end gap max_range_bytes then joined else pushed

unfoldable pub coalesce_chunks : List Entry → ℕ → ℕ → Result (List ChunkGroup)
unfolding chunk_end coalesce_from
coalesce_chunks [] gap max_range_bytes = ok []
coalesce_chunks (entry ∷ chunks) gap max_range_bytes = do
  end ← chunk_end entry
  coalesce_from gap max_range_bytes chunks (new_group entry end)

-- `checked_sub` of `u64`.
abbrev pub checked_sub_u64 : ℕ → ℕ → Option ℕ
checked_sub_u64 a b = if leb b a then some (a - b) else none

unfoldable pub fetch_range : List ℕ → ℕ → ℕ → Result (List ℕ)
unfolding read_exact_at
fetch_range file start end = do
  len ← ok_or (checked_sub_u64 end start) invalid_data
  read_exact_at file start len

-- The bytes of a chunk in those of its group, and its point count.
unfoldable pub chunk_slice : List ℕ → ℕ → Entry → Result (List ℕ × ℕ)
unfolding slice
chunk_slice group_bytes group_start entry = do
  points_in_chunk ← ok_or (to_unsigned entry.point_count) invalid_data
  offset ← or_panic (checked_sub_u64 entry.offset group_start)
  byte_size ← ok_or (to_unsigned entry.byte_size) invalid_data
  end ← ok_or (checked_add_u64 offset byte_size) invalid_data
  end ← ok_or (if leb end (length group_bytes) then some end else none) invalid_data
  bytes ← slice group_bytes offset end
  ok (bytes, points_in_chunk)

module _ (d : Decoding) ⦃f : Floats ℕ⦄ (layout : ExtendedPointLayout)
    (bounds : Option (Bounds ℕ)) where
  -- The inner loop of `read_columns`, over the chunks of a group.
  unfoldable pub read_cuts : List ℕ → ℕ → List Entry → Decoded → Result Decoded
  unfolding chunk_slice decode_into
  read_cuts group_bytes start [] s = ok s
  read_cuts group_bytes start (entry ∷ entries) s = do
    (bytes, points_in_chunk) ← chunk_slice group_bytes start entry
    chunk ← decode_into d layout bounds none bytes points_in_chunk s.columns (s.polls + 1)
    read_cuts group_bytes start entries (record {
      columns = chunk.columns;
      accepted = s.accepted + chunk.accepted;
      polls = chunk.polls;
    })

  -- Its outer loop, over the groups.
  unfoldable pub read_groups : List ℕ → List ChunkGroup → Decoded → Result Decoded
  unfolding fetch_range read_cuts
  read_groups file [] s = ok s
  read_groups file (group ∷ groups) s = do
    bytes ← fetch_range file group.start group.end
    s' ← read_cuts bytes group.start group.entries s
    read_groups file groups s'
