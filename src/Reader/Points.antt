-- ===== src/Reader/Points.antt =====
-- copc-reader/src/points.rs: `CopcReader::read_columns_inner`, in its serial and in its parallel form,
-- and copc-reader/src/lib.rs: `point_format_for`.
pub mod Agree
pub mod Whole
use copc_rust.Prelude.{
  ℕ, ◌+◌, ◌*◌, ◌-◌, ◌%◌, ◌||◌, not, List, [], Option, none, some, ltb, ◌==◌, ◌&&◌, length, min, max,
  Result, ok, las, unsupported, invalid_data, reject_if, ok_or, ◌>>=◌, ◌>>◌, leb,
}
use copc_rust.Core.Dimension.{ColumnSelection}
use copc_rust.Core.Bounds.{Floats, Bounds}
use copc_rust.Core.Columns.{PointFormat, LasColumnBatch, Column, validate}
use copc_rust.Core.Hierarchy.{Entry}
use copc_rust.Core.Info.{CopcInfo}
use copc_rust.Reader.Append.{ExtendedPointLayout, for_format, selected_column_builders}
use copc_rust.Reader.Query.{
  PointQuery, QueryFloats, BoundsSelection, select_point_chunks_from, total_candidate_points,
}
use copc_rust.Reader.Decode.{
  Decoding, Decoded, Cancel, validated_record_size, read_chunks, read_batches, batches_of,
  max_initial_column_reserve_points,
}

-- What the reads use of `CopcFile`: the values of its hierarchy, the COPC info and two fields of the
-- LAS header.
pub record CopcFile : Type 0 where
  pub entries : List Entry
  pub copc_info : CopcInfo
  pub point_data_record_format : ℕ
  pub point_data_record_length : ℕ

-- A point format of a LAS header, by its format byte and its record length.
unfoldable pub point_format_for : Decoding → CopcFile → Result PointFormat
point_format_for d file = do
  let format_id = file.point_data_record_format % 64
  reject_if (not (leb 6 format_id && leb format_id 8)) unsupported
  format ← ok_or (d.new_format format_id) las
  reject_if (ltb file.point_data_record_length (d.format_len format)) invalid_data
  ok (record format { extra_bytes = file.point_data_record_length - d.format_len format })

-- The reserve of the column builders.
unfoldable pub capacity_for : BoundsSelection → List Entry → Result ℕ
unfolding total_candidate_points
capacity_for none chunks = do
  total ← total_candidate_points chunks
  ok (min total max_initial_column_reserve_points)
capacity_for (some bounds) chunks = ok 0

-- What a read has set up before it reads the chunks.
pub record Prepared : Type 0 where
  pub chunks : List Entry
  pub format : PointFormat
  pub layout : ExtendedPointLayout
  pub columns : List Column

-- `LasColumnBatch { len, columns }`, validated.
unfoldable pub finish : Decoded → Result LasColumnBatch
unfolding validate
finish s = do
  let batch : LasColumnBatch = record { len = s.accepted; columns = s.columns }
  validate batch
  ok batch

abbrev pub no_points : List Column → Decoded
no_points columns = record { columns = columns; accepted = 0; polls = 0 }

module _ (d : Decoding) (file : CopcFile) (query : PointQuery) (selection : ColumnSelection) where
  -- Behind the selection of the chunks.
  unfoldable pub set_up : List Entry → Result Prepared
  unfolding point_format_for for_format validated_record_size capacity_for selected_column_builders
  set_up chunks = do
    format ← point_format_for d file
    layout ← for_format format
    record_size ← validated_record_size d format
    capacity ← capacity_for query.bounds chunks
    columns ← selected_column_builders format selection capacity
    ok (record { chunks = chunks; format = format; layout = layout; columns = columns })

module _ (d : Decoding) (q : QueryFloats) ⦃f : Floats ℕ⦄ (file : CopcFile) (query : PointQuery)
    (selection : ColumnSelection) where
  unfoldable pub prepare : Result Prepared
  unfolding select_point_chunks_from set_up
  prepare = do
    chunks ← select_point_chunks_from q file.entries file.copc_info query
    set_up d file query selection chunks

module _ (d : Decoding) (q : QueryFloats) ⦃f : Floats ℕ⦄ (file : CopcFile) (bytes : List ℕ)
    (query : PointQuery) (selection : ColumnSelection) (cancel : Cancel) where
  -- Without the feature `parallel`.
  unfoldable pub read_columns_serial : Result LasColumnBatch
  unfolding prepare read_chunks finish
  read_columns_serial = do
    p ← prepare d q file query selection
    s ← read_chunks d p.layout query.bounds cancel bytes p.chunks (no_points p.columns)
    finish s

  -- With it, in batches of twice the number of threads.
  unfoldable pub read_columns_parallel : ℕ → Result LasColumnBatch
  unfolding prepare read_batches batches_of finish
  read_columns_parallel threads = do
    p ← prepare d q file query selection
    s ←
        read_batches d p.layout query.bounds cancel p.format selection bytes
          (batches_of (length p.chunks) (max threads 1 * 2) p.chunks) (no_points p.columns)
    finish s
