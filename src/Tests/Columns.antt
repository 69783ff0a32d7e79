-- ===== src/Tests/Columns.antt =====
-- The columns of the three points of two chunks, with decompressors that return records of zeros.
use copc_rust.Prelude.{
  ℕ, ◌≡◌, refl, arith, List, [], ◌∷◌, none, some, replicate, ok, All, true, false, Same,
}
use copc_rust.Core.Dimension.{LasDimension, ScalarType, ColumnSelection, contains}
use copc_rust.Core.Columns.{
  PointFormat, LasColumnBatch, ColumnData, layout_for_las_format, new_spec,
}
use copc_rust.Core.Hierarchy.{has_point_data}
use copc_rust.Reader.Append.{ExtendedPointLayout}
use copc_rust.Reader.Decode.{Decoding, read_chunk_bytes}
use copc_rust.Reader.Decode.Filled.{IsFilled}
use copc_rust.Reader.Decode.Whole.{AreReadable, Decompresses}
use copc_rust.Reader.Points.{
  CopcFile, Prepared, prepare, set_up, read_columns_serial, read_columns_parallel,
}
use copc_rust.Reader.Points.Agree.{read_columns_parallel-Same}
use copc_rust.Reader.Points.Whole.{read_columns_serial-Whole}
use copc_rust.Tests.Queries.{numbers, query_numbers, unit_cube, late, early, everything}

abbrev plain : PointFormat
plain = record {
  is_extended = true;
  has_gps_time = true;
  has_color = false;
  has_nir = false;
  has_waveform = false;
  extra_bytes = 0;
}

abbrev pub plain_layout : ExtendedPointLayout
plain_layout = record {
  color_offset = none;
  nir_offset = none;
  waveform_offset = none;
  extra_offset = 30;
  extra_len = 0;
}

abbrev pub zeros : Decoding
zeros = record {
  Decompressor = List ℕ;
  open_chunk = λ bytes. bytes;
  configured = some 30;
  decompress_next = λ bytes. some (replicate 30 0, bytes);
  new_format = λ n. some plain;
  format_len = λ format. 30;
  direct = (λ a. 0, λ a. 0, λ a. 0);
  scale_angle = λ a. 0;
}

abbrev pub small_file : CopcFile
small_file = record {
  entries = late ∷ early ∷ [];
  copc_info = unit_cube;
  point_data_record_format = 134;
  point_data_record_length = 30;
}

abbrev pub chosen : ColumnSelection
chosen = LasDimension.x ∷ LasDimension.intensity ∷ []

abbrev pub eight : List ℕ
eight = replicate 8 7

read_columns_parallel-Same_example :
    Same
      (λ a b. a ≡ b)
      (read_columns_serial zeros query_numbers small_file eight everything chosen none)
      (read_columns_parallel zeros query_numbers small_file eight everything chosen none 3)
read_columns_parallel-Same_example =
    read_columns_parallel-Same chosen zeros query_numbers small_file everything (omega arith) eight
      3

abbrev two_prepared : Prepared
two_prepared = record {
  chunks = early ∷ late ∷ [];
  format = plain;
  layout = plain_layout;
  columns =
      (new_spec LasDimension.x ScalarType.f64, ColumnData.f64 [])
      ∷ (new_spec LasDimension.intensity ScalarType.u16, ColumnData.u16 [])
      ∷ [];
}

is_prepared : prepare zeros query_numbers small_file everything chosen ≡ ok two_prepared
unfolding prepare set_up has_point_data layout_for_las_format contains
is_prepared = refl

are_readable : AreReadable zeros 30 eight (early ∷ late ∷ [])
unfolding read_chunk_bytes Decompresses
are_readable = (
  (replicate 4 7, 1, refl, (replicate 30 0, replicate 4 7, refl, refl, tt)),
  (
    (
      replicate 4 7,
      2,
      refl,
      (replicate 30 0, replicate 4 7, refl, refl, (replicate 30 0, replicate 4 7, refl, refl, tt)),
    ),
    tt,
  ),
)

read_columns_serial-Whole_example :
    (batch : LasColumnBatch) × (read_columns_serial zeros query_numbers small_file eight everything
        chosen none
      ≡ ok batch)
    × All (IsFilled 0 batch.len) batch.columns
read_columns_serial-Whole_example =
    read_columns_serial-Whole zeros query_numbers small_file everything chosen (omega arith) eight
      two_prepared is_prepared are_readable
