-- ===== src/Reader/Decode.antt =====
-- copc-reader/src/points.rs: the decoding of chunks into columns, one after the other or, with the
-- feature `parallel`, in batches that are merged.
pub mod Extends
pub mod Merged
pub mod Fresh
pub mod Parallel
pub mod Reads
pub mod Values
pub mod Filled
pub mod Whole
use copc_rust.Prelude.{
  ℕ, zero, suc, ◌+◌, ◌*◌, ◌-◌, ◌%◌, ◌≡◌, ◌<◌, Bool, true, false, not, ◌&&◌, List, [], ◌∷◌, ◌++◌,
  Option, none, some, ◌==◌, if◌then◌else◌, length, take, drop, Result, ok, err, las, io,
  unsupported, invalid_data, reject_if, ok_or, ◌>>=◌, ◌>>◌, map, min,
}
use copc_rust.Prelude.Int.{ℤ, to_unsigned}
use copc_rust.Core.Dimension.{ColumnSelection, eq_dimension, eq_scalar}
use copc_rust.Core.Bounds.{Floats, Bounds, contains_xyz}
use copc_rust.Core.Columns.{ColumnSpec, ColumnData, Column, PointFormat, LasColumnBatch, validate}
use copc_rust.Core.Hierarchy.{Entry}
use copc_rust.Reader.Hierarchy.{read_exact_at}
use copc_rust.Reader.Append.{
  ExtendedPointLayout, for_format, i32_at, append_columns, selected_column_builders,
}

abbrev pub cancel_poll_stride : ℕ
cancel_poll_stride = 4096

abbrev pub max_initial_column_reserve_points : ℕ
max_initial_column_reserve_points = 4 * 1024 * 1024

-- What the laz and las crates and the arithmetic of floats give the decoding: a decompressor over
-- the bytes of a chunk, with the record size that the LASzip VLR configures or a failure, which
-- returns one record after the other or fails; the point format of a number and the length of its
-- records; and the scaling of a coordinate on each axis and of a
-- scan angle. A float is its bits.
pub record Decoding : Type 1 where
  pub Decompressor : Type 0
  pub open_chunk : List ℕ → Decompressor
  pub configured : Option ℕ
  pub decompress_next : Decompressor → Option (List ℕ × Decompressor)
  pub new_format : ℕ → Option PointFormat
  pub format_len : PointFormat → ℕ
  pub direct : (ℤ → ℕ) × (ℤ → ℕ) × (ℤ → ℕ)
  pub scale_angle : ℤ → ℕ

-- `Option<&dyn CancelCheck>`, with the number of the check.
abbrev pub Cancel : Type 0
Cancel = Option (ℕ → Result (Unit {0}))

abbrev pub check : Cancel → ℕ → Result (Unit {0})
check none polls = ok tt
check (some cancel) polls = cancel polls

-- The columns, the accepted points, and the cancellation checks so far.
pub record Decoded : Type 0 where
  pub columns : List Column
  pub accepted : ℕ
  pub polls : ℕ

-- `match bounds { None => true, Some(bounds) => bounds.contains_xyz(x, y, z) }`
abbrev pub accepts : ⦃f : Floats ℕ⦄ → Option (Bounds ℕ) → ℕ × ℕ × ℕ → Bool
accepts none p = true
accepts (some bounds) p = contains_xyz bounds p.0 p.1 p.2

-- `ColumnSpec: PartialEq`
abbrev pub eq_width : Option ℕ → Option ℕ → Bool
eq_width none none = true
eq_width (some a) (some b) = a == b
eq_width a b = false

abbrev pub eq_spec : ColumnSpec → ColumnSpec → Bool
eq_spec a b =
    eq_dimension a.dimension b.dimension
    && eq_scalar a.scalar b.scalar
    && eq_width a.byte_width b.byte_width

-- `extend_from_slice` for two columns of one type.
unfoldable pub extend_data : ColumnData → ColumnData → Result ColumnData
extend_data (ColumnData.f64 dst) (ColumnData.f64 src) = ok (ColumnData.f64 (dst ++ src))
extend_data (ColumnData.f32 dst) (ColumnData.f32 src) = ok (ColumnData.f32 (dst ++ src))
extend_data (ColumnData.i64 dst) (ColumnData.i64 src) = ok (ColumnData.i64 (dst ++ src))
extend_data (ColumnData.i32 dst) (ColumnData.i32 src) = ok (ColumnData.i32 (dst ++ src))
extend_data (ColumnData.i16 dst) (ColumnData.i16 src) = ok (ColumnData.i16 (dst ++ src))
extend_data (ColumnData.i8 dst) (ColumnData.i8 src) = ok (ColumnData.i8 (dst ++ src))
extend_data (ColumnData.u64 dst) (ColumnData.u64 src) = ok (ColumnData.u64 (dst ++ src))
extend_data (ColumnData.u32 dst) (ColumnData.u32 src) = ok (ColumnData.u32 (dst ++ src))
extend_data (ColumnData.u16 dst) (ColumnData.u16 src) = ok (ColumnData.u16 (dst ++ src))
extend_data (ColumnData.u8 dst) (ColumnData.u8 src) = ok (ColumnData.u8 (dst ++ src))
extend_data (ColumnData.bool dst) (ColumnData.bool src) = ok (ColumnData.bool (dst ++ src))
extend_data dst src = err invalid_data

-- The loop of `merge_columns`; it stops at the shorter list, as `zip` does.
unfoldable pub merge_zip : List Column → List Column → Result (List Column)
unfolding extend_data
merge_zip [] src = ok []
merge_zip (d ∷ dst) [] = ok (d ∷ dst)
merge_zip ((dst_spec, dst_data) ∷ dst) ((src_spec, src_data) ∷ src) = do
  reject_if (not (eq_spec dst_spec src_spec)) invalid_data
  merged ← extend_data dst_data src_data
  rest ← merge_zip dst src
  ok ((dst_spec, merged) ∷ rest)

unfoldable pub merge_columns : List Column → List Column → Result (List Column)
unfolding merge_zip
merge_columns dst src = do
  reject_if (not (length dst == length src)) invalid_data
  merge_zip dst src

-- Seek to the chunk and `read_exact` its bytes; returns its point count as well.
unfoldable pub read_chunk_bytes : List ℕ → Entry → Result (List ℕ × ℕ)
unfolding read_exact_at
read_chunk_bytes file entry = do
  points_in_chunk ← ok_or (to_unsigned entry.point_count) invalid_data
  byte_size ← ok_or (to_unsigned entry.byte_size) invalid_data
  bytes ← read_exact_at file entry.offset byte_size
  ok (bytes, points_in_chunk)

module _ (d : Decoding) where
  open d use {configured, format_len}

  -- `configure_layered_decompressor`
  unfoldable pub configure_layered_decompressor : Result ℕ
  configure_layered_decompressor = do
    record_size ← ok_or configured las
    reject_if (record_size == 0) unsupported
    ok record_size

  unfoldable pub validated_record_size : PointFormat → Result ℕ
  unfolding configure_layered_decompressor
  validated_record_size format = do
    record_size ← configure_layered_decompressor
    reject_if (not (record_size == format_len format)) invalid_data
    ok (format_len format)

module _ (d : Decoding) ⦃f : Floats ℕ⦄ (layout : ExtendedPointLayout) (bounds : Option (Bounds ℕ))
    (cancel : Cancel) where
  open d use {Decompressor, open_chunk, decompress_next, direct, scale_angle}

  -- The part of a round behind the decompression: a point outside the bounds is skipped.
  unfoldable pub accept_point : List ℕ → Decoded → Result Decoded
  accept_point buf s = do
    x ← i32_at buf 0
    y ← i32_at buf 4
    z ← i32_at buf 8
    let xyz : ℕ × ℕ × ℕ = (direct.0 x, direct.1 y, direct.2 z)
    let append = (do
      columns ← append_columns scale_angle s.columns buf layout xyz
      ok (record s { columns = columns; accepted = s.accepted + 1 }))
    if accepts bounds xyz then append else ok s

  -- `if decoded.is_multiple_of(CANCEL_POLL_STRIDE) { … cancel.check()?; … }`
  unfoldable pub poll : ℕ → Decoded → Result Decoded
  poll decoded s =
      if decoded % cancel_poll_stride == 0
      then check cancel s.polls >> ok (record s { polls = s.polls + 1 })
      else ok s

  -- The loop of `decode_into`, for the points left, at the number of the decoded ones.
  unfoldable pub decode_points : ℕ → ℕ → Decompressor → Decoded → Result Decoded
  unfolding accept_point poll
  decode_points zero decoded decompressor s = ok s
  decode_points (suc left) decoded decompressor s = do
    polled ← poll decoded s
    (buf, decompressor') ← ok_or (decompress_next decompressor) io
    s' ← accept_point buf polled
    decode_points left (suc decoded) decompressor' s'

  -- Returns the columns and the number of the points accepted here.
  unfoldable pub decode_into : List ℕ → ℕ → List Column → ℕ → Result Decoded
  unfolding decode_points configure_layered_decompressor
  decode_into chunk_bytes points_in_chunk columns polls = do
    record_size ← configure_layered_decompressor d
    decode_points points_in_chunk 0 (open_chunk chunk_bytes)
        (record { columns = columns; accepted = 0; polls = polls })

  -- The loop of `read_columns_inner` over the chunks.
  unfoldable pub read_chunks : List ℕ → List Entry → Decoded → Result Decoded
  unfolding read_chunk_bytes decode_into
  read_chunks file [] s = ok s
  read_chunks file (entry ∷ chunks) s = do
    check cancel s.polls
    (bytes, points_in_chunk) ← read_chunk_bytes file entry
    chunk ← decode_into bytes points_in_chunk s.columns (s.polls + 1)
    read_chunks file chunks (record {
      columns = chunk.columns;
      accepted = s.accepted + chunk.accepted;
      polls = chunk.polls;
    })

-- The reads of the chunks of a batch.
unfoldable pub read_batch : List ℕ → List Entry → Result (List (List ℕ × ℕ))
unfolding read_chunk_bytes
read_batch file [] = ok []
read_batch file (entry ∷ batch) = do
  chunk ← read_chunk_bytes file entry
  rest ← read_batch file batch
  ok (chunk ∷ rest)

-- `chunks.chunks(batch_size)`, for at most `fuel` batches.
unfoldable pub batches_of : ℕ → ℕ → List Entry → List (List Entry)
batches_of fuel batch_size [] = []
batches_of zero batch_size (entry ∷ chunks) = []
batches_of (suc fuel) batch_size (entry ∷ chunks) =
    take batch_size (entry ∷ chunks) ∷ batches_of fuel batch_size (drop batch_size (entry ∷ chunks))

module _ (d : Decoding) ⦃f : Floats ℕ⦄ (layout : ExtendedPointLayout) (bounds : Option (Bounds ℕ))
    (cancel : Cancel) (format : PointFormat) (selection : ColumnSelection) where
  -- What the closure of `par_iter().map(…)` makes of a chunk: columns of its own.
  unfoldable pub decode_chunk : List ℕ × ℕ → Result Decoded
  unfolding decode_into
  decode_chunk (chunk_bytes, points_in_chunk) = do
    columns ←
        selected_column_builders format selection
          (min points_in_chunk max_initial_column_reserve_points)
    decode_into d layout bounds none chunk_bytes points_in_chunk columns 0

  -- The loop over the decoded chunks, in their order.
  unfoldable pub merge_decoded : List (Result Decoded) → Decoded → Result Decoded
  unfolding merge_columns
  merge_decoded [] s = ok s
  merge_decoded (result ∷ decoded) s = do
    chunk ← result
    columns ← merge_columns s.columns chunk.columns
    merge_decoded decoded (record s { columns = columns; accepted = s.accepted + chunk.accepted })

  unfoldable pub read_batches : List ℕ → List (List Entry) → Decoded → Result Decoded
  unfolding read_batch decode_chunk merge_decoded
  read_batches file [] s = ok s
  read_batches file (batch ∷ batches) s = do
    check cancel s.polls
    chunks ← read_batch file batch
    s' ← merge_decoded (map decode_chunk chunks) (record s { polls = s.polls + 1 })
    read_batches file batches s'
