-- ===== src/Core/Columns.antt =====
-- copc-core/src/columns.rs: column specifications and data, the layout of a point format, and batches.
-- The bits of an `f64` and an `f32` are numbers.
pub mod Layout
pub mod Distinct
use copc_rust.Prelude.{
  ℕ, zero, suc, ◌%◌, ◌/◌, ◌≡◌, refl, Bool, true, false, not, ◌&&◌, List, [], ◌∷◌, ◌++◌, Option,
  none, some, ltb, ◌==◌, if◌then◌else◌, length, Result, ok, err, invalid_input, reject_if, ok_or,
  or_panic, ◌>>=◌, ◌>>◌,
}
use copc_rust.Prelude.Int.{ℤ}
use copc_rust.Core.Dimension.{
  LasDimension, ScalarType, variant, eq_dimension, eq_scalar, default_scalar, accepts_scalar,
  contains,
}

pub record ColumnSpec : Type 0 where
  pub dimension : LasDimension
  pub scalar : ScalarType
  pub byte_width : Option ℕ

pub data ColumnData : Type 0 where
  f64 : List ℕ → ColumnData
  f32 : List ℕ → ColumnData
  i64 : List ℤ → ColumnData
  i32 : List ℤ → ColumnData
  i16 : List ℤ → ColumnData
  i8 : List ℤ → ColumnData
  u64 : List ℕ → ColumnData
  u32 : List ℕ → ColumnData
  u16 : List ℕ → ColumnData
  u8 : List ℕ → ColumnData
  bool : List Bool → ColumnData

-- `ColumnSpec::new`
abbrev pub new_spec : LasDimension → ScalarType → ColumnSpec
new_spec dimension scalar = record { dimension = dimension; scalar = scalar; byte_width = none }

-- `ColumnSpec::extra_bytes`
abbrev pub extra_bytes_spec : ℕ → ColumnSpec
extra_bytes_spec byte_width = record {
  dimension = LasDimension.extra_bytes;
  scalar = ScalarType.u8;
  byte_width = some byte_width;
}

-- `ColumnSpec::default_for`
unfoldable pub default_for : LasDimension → Option ColumnSpec
unfolding default_scalar
default_for dimension = elim (default_scalar dimension) [
  | some scalar ↦ some (new_spec dimension scalar)
  | none ↦ none
]

-- `ColumnData::len`
abbrev pub data_len : ColumnData → ℕ
data_len (ColumnData.f64 values) = length values
data_len (ColumnData.f32 values) = length values
data_len (ColumnData.i64 values) = length values
data_len (ColumnData.i32 values) = length values
data_len (ColumnData.i16 values) = length values
data_len (ColumnData.i8 values) = length values
data_len (ColumnData.u64 values) = length values
data_len (ColumnData.u32 values) = length values
data_len (ColumnData.u16 values) = length values
data_len (ColumnData.u8 values) = length values
data_len (ColumnData.bool values) = length values

-- `ColumnData::scalar`
abbrev pub data_scalar : ColumnData → ScalarType
data_scalar (ColumnData.f64 values) = ScalarType.f64
data_scalar (ColumnData.f32 values) = ScalarType.f32
data_scalar (ColumnData.i64 values) = ScalarType.i64
data_scalar (ColumnData.i32 values) = ScalarType.i32
data_scalar (ColumnData.i16 values) = ScalarType.i16
data_scalar (ColumnData.i8 values) = ScalarType.i8
data_scalar (ColumnData.u64 values) = ScalarType.u64
data_scalar (ColumnData.u32 values) = ScalarType.u32
data_scalar (ColumnData.u16 values) = ScalarType.u16
data_scalar (ColumnData.u8 values) = ScalarType.u8
data_scalar (ColumnData.bool values) = ScalarType.bool

-- `ColumnSpec::matches_data`
abbrev pub matches_data : ColumnSpec → ColumnData → Bool
matches_data spec column = eq_scalar spec.scalar (data_scalar column)

-- `self.dimension == LasDimension::ExtraBytes`
abbrev pub is_extra : LasDimension → Bool
is_extra dimension = eq_dimension dimension LasDimension.extra_bytes

abbrev pub is_some : Option ℕ → Bool
is_some none = false
is_some (some n) = true

-- A width above zero.
abbrev pub positive : Option ℕ → Option ℕ
positive none = none
positive (some zero) = none
positive (some (suc n)) = some (suc n)

abbrev pub extra_byte_width : ColumnSpec → Option ℕ
extra_byte_width spec =
    if is_extra spec.dimension && eq_scalar spec.scalar ScalarType.u8
    then positive spec.byte_width
    else none

unfoldable pub has_default_scalar : ColumnSpec → Bool
unfolding accepts_scalar
has_default_scalar spec =
    if is_extra spec.dimension
    then eq_scalar spec.scalar ScalarType.u8 && is_some spec.byte_width
    else not (is_some spec.byte_width) && accepts_scalar spec.dimension spec.scalar

unfoldable pub validate_data : ColumnSpec → ColumnData → Result (Unit {0})
validate_data spec column = do
  reject_if (not (matches_data spec column)) invalid_input
  reject_if (is_extra spec.dimension && not (is_some (extra_byte_width spec))) invalid_input
  reject_if (not (is_extra spec.dimension) && is_some spec.byte_width) invalid_input

unfoldable pub validate_default_scalar : ColumnSpec → Result (Unit {0})
unfolding has_default_scalar
validate_default_scalar spec = reject_if (not (has_default_scalar spec)) invalid_input

unfoldable pub point_count_for_data : ColumnSpec → ColumnData → Result ℕ
unfolding validate_data
point_count_for_data spec column =
    let by_width = (do
      width ← ok_or (extra_byte_width spec) invalid_input
      reject_if (not (data_len column % width == 0)) invalid_input
      ok (data_len column / width)) in
    validate_data spec column
    >> (if is_extra spec.dimension then by_width else ok (data_len column))

-- The fields of `las::point::Format` that the code reads.
pub record PointFormat : Type 0 where
  pub is_extended : Bool
  pub has_gps_time : Bool
  pub has_color : Bool
  pub has_nir : Bool
  pub has_waveform : Bool
  pub extra_bytes : ℕ

-- `expect`: a dimension without a default scalar panics.
default_column_spec : LasDimension → Result ColumnSpec
unfolding default_for
default_column_spec dimension = or_panic (default_for dimension)

-- `push_default_specs`, in front of the later columns.
push_default_specs : List LasDimension → Result (List ColumnSpec) → Result (List ColumnSpec)
unfolding default_column_spec
push_default_specs [] later = later
push_default_specs (dim ∷ dims) later = do
  spec ← default_column_spec dim
  specs ← push_default_specs dims later
  ok (spec ∷ specs)

abbrev pub fixed_dimensions : List LasDimension
fixed_dimensions =
    LasDimension.x ∷ LasDimension.y ∷ LasDimension.z ∷ LasDimension.intensity
    ∷ LasDimension.return_number ∷ LasDimension.number_of_returns ∷ LasDimension.classification
    ∷ LasDimension.scan_direction_flag ∷ LasDimension.edge_of_flight_line ∷ LasDimension.scan_angle
    ∷ LasDimension.user_data ∷ LasDimension.point_source_id ∷ LasDimension.synthetic
    ∷ LasDimension.key_point ∷ LasDimension.withheld ∷ LasDimension.overlap
    ∷ LasDimension.scan_channel ∷ []

abbrev pub color_dimensions : List LasDimension
color_dimensions = LasDimension.red ∷ LasDimension.green ∷ LasDimension.blue ∷ []

abbrev pub waveform_dimensions : List LasDimension
waveform_dimensions =
    LasDimension.waveform_packet_descriptor_index ∷ LasDimension.waveform_packet_byte_offset
    ∷ LasDimension.waveform_packet_size ∷ LasDimension.wave_packet_return_point_waveform_location
    ∷ []

-- `if present { … }`
abbrev pub when : Bool → List LasDimension → List LasDimension
when present dims = if present then dims else []

unfoldable pub layout_for_las_format : PointFormat → Result (List ColumnSpec)
unfolding push_default_specs
layout_for_las_format format =
    let extra = if ltb 0 format.extra_bytes then extra_bytes_spec format.extra_bytes ∷ [] else [] in
    push_default_specs fixed_dimensions (
      push_default_specs (when format.has_gps_time (LasDimension.gps_time ∷ [])) (
        push_default_specs (when format.has_color color_dimensions) (
          push_default_specs (when format.has_nir (LasDimension.nir ∷ []))
            (push_default_specs (when format.has_waveform waveform_dimensions) (ok extra)))))

abbrev pub Column : Type 0
Column = ColumnSpec × ColumnData

pub record LasColumnBatch : Type 0 where
  pub len : ℕ
  pub columns : List Column

-- The loop of `LasColumnBatch::validate`, with the dimensions seen.
unfoldable pub validate_columns : List Column → List LasDimension → ℕ → Result (Unit {0})
validate_columns [] dimensions len = ok tt
validate_columns ((spec, column) ∷ columns) dimensions len = do
  reject_if (contains dimensions spec.dimension) invalid_input
  point_count ← point_count_for_data spec column
  reject_if (not (point_count == len)) invalid_input
  validate_columns columns (spec.dimension ∷ dimensions) len

unfoldable pub validate : LasColumnBatch → Result (Unit {0})
unfolding validate_columns
validate batch = validate_columns batch.columns [] batch.len

validate_scalars : List Column → Result (Unit {0})
unfolding validate_default_scalar
validate_scalars [] = ok tt
validate_scalars ((spec, column) ∷ columns) = do
  validate_default_scalar spec
  validate_scalars columns

unfoldable pub validate_default_scalars : LasColumnBatch → Result (Unit {0})
unfolding validate validate_scalars
validate_default_scalars batch = do validate batch; validate_scalars batch.columns

-- The length of `LasColumnBatch::new`: the points of the first column.
first_len : List Column → Result ℕ
unfolding point_count_for_data
first_len [] = ok 0
first_len ((spec, column) ∷ columns) = point_count_for_data spec column

unfoldable pub new_batch : List Column → Result LasColumnBatch
unfolding first_len validate
new_batch columns = do
  len ← first_len columns
  let batch : LasColumnBatch = record { len = len; columns = columns }
  validate batch
  ok batch

-- `LasColumnBatch::column`
unfoldable pub find_column : List Column → LasDimension → Option ColumnData
find_column [] dimension = none
find_column ((spec, column) ∷ columns) dimension =
    if eq_dimension spec.dimension dimension then some column else find_column columns dimension
