-- ===== src/Reader/Append.antt =====
-- copc-reader/src/points.rs: column builders, and the columns that one point record is added to.
use copc_rust.Prelude.{
  ℕ, ◌+◌, ◌*◌, ◌-◌, ◌/◌, ◌%◌, ◌^◌, Bool, not, List, [], ◌∷◌, ◌++◌, Option, none, some, ltb, ◌==◌,
  if◌then◌else◌, get_elem?, Result, ok, err, invalid_input, invalid_data, unsupported, reject_if,
  ok_or, or_panic, ◌>>=◌, ◌>>◌,
}
use copc_rust.Prelude.Int.{ℤ, pos, negsuc}
use copc_rust.Prelude.Bytes.{from_le, i32_from_le}
use copc_rust.Prelude.Slices.{slice}
use copc_rust.Core.Dimension.{LasDimension, ScalarType, ColumnSelection, contains}
use copc_rust.Core.Columns.{
  ColumnSpec, ColumnData, Column, PointFormat, extra_byte_width, layout_for_las_format, is_extra,
}

-- The empty data of `empty_column`, by the scalar.
abbrev pub empty_data : ScalarType → ColumnData
empty_data ScalarType.f64 = ColumnData.f64 []
empty_data ScalarType.f32 = ColumnData.f32 []
empty_data ScalarType.i64 = ColumnData.i64 []
empty_data ScalarType.i32 = ColumnData.i32 []
empty_data ScalarType.i16 = ColumnData.i16 []
empty_data ScalarType.i8 = ColumnData.i8 []
empty_data ScalarType.u64 = ColumnData.u64 []
empty_data ScalarType.u32 = ColumnData.u32 []
empty_data ScalarType.u16 = ColumnData.u16 []
empty_data ScalarType.u8 = ColumnData.u8 []
empty_data ScalarType.bool = ColumnData.bool []

-- The checks of the capacity of a `U8` column.
unfoldable pub empty_capacity : ColumnSpec → ScalarType → ℕ → Result (Unit {0})
empty_capacity spec ScalarType.u8 capacity =
    let bytes = (do
      width ← ok_or (extra_byte_width spec) invalid_input
      reject_if (not (ltb (capacity * width) (2 ^ 64))) invalid_input) in
    if is_extra spec.dimension then bytes else ok tt
empty_capacity spec scalar capacity = ok tt

unfoldable pub empty_column : ColumnSpec → ℕ → Result Column
unfolding empty_capacity
empty_column spec capacity = do
  empty_capacity spec spec.scalar capacity
  ok (spec, empty_data spec.scalar)

-- `filter` and `map` over the layout.
unfoldable pub build_columns : List ColumnSpec → ColumnSelection → ℕ → Result (List Column)
unfolding empty_column
build_columns [] selection capacity = ok []
build_columns (spec ∷ specs) selection capacity =
    let rest = build_columns specs selection capacity in
    let taken = (do column ← empty_column spec capacity; columns ← rest; ok (column ∷ columns)) in
    if contains selection spec.dimension then taken else rest

unfoldable pub selected_column_builders : PointFormat → ColumnSelection → ℕ → Result (List Column)
unfolding build_columns
selected_column_builders format selection capacity = do
  layout ← layout_for_las_format format
  build_columns layout selection capacity

pub record ExtendedPointLayout : Type 0 where
  pub color_offset : Option ℕ
  pub nir_offset : Option ℕ
  pub waveform_offset : Option ℕ
  pub extra_offset : ℕ
  pub extra_len : ℕ

-- `if present { … Some(offset) } else { None }`, with the cursor.
abbrev pub field_at : Bool → ℕ → ℕ → Option ℕ × ℕ
field_at present width cursor = if present then (some cursor, cursor + width) else (none, cursor)

-- The `debug_assert_eq!` is left out.
unfoldable pub for_format : PointFormat → Result ExtendedPointLayout
for_format format =
    let color = field_at format.has_color 6 30 in
    let nir = field_at format.has_nir 2 color.1 in
    let waveform = field_at format.has_waveform 29 nir.1 in
    reject_if (not format.is_extended) unsupported
    >> ok (record {
      color_offset = color.0;
      nir_offset = nir.0;
      waveform_offset = waveform.0;
      extra_offset = waveform.1;
      extra_len = format.extra_bytes;
    })

-- `buf[offset]`
unfoldable pub u8_at : List ℕ → ℕ → Result ℕ
u8_at buf offset = or_panic (get_elem? buf offset)

-- `u16_at`, `u32_at`, `u64_at`, `f32_at` and `f64_at`, by the width.
unfoldable pub word_at : ℕ → List ℕ → ℕ → Result ℕ
word_at width buf offset = do bytes ← slice buf offset (offset + width); ok (from_le bytes)

unfoldable pub i32_at : List ℕ → ℕ → Result ℤ
i32_at buf offset = do bytes ← slice buf offset (offset + 4); ok (i32_from_le bytes)

unfoldable pub i16_at : List ℕ → ℕ → Result ℤ
unfolding word_at
i16_at buf offset = do
  word ← word_at 2 buf offset
  ok (if ltb word (2 ^ 15) then pos word else negsuc (2 ^ 16 - 1 - word))

pub record ColumnAppendContext : Type 0 where
  pub buf : List ℕ
  pub layout : ExtendedPointLayout
  pub xyz : ℕ × ℕ × ℕ
  pub classification : ℕ
  pub is_overlap : Bool

abbrev pub overlap_classification_code : ℕ
overlap_classification_code = 12

-- `values.push(…)`
unfoldable pub push : {A : Type 0} → (List A → ColumnData) → List A → Result A → Result ColumnData
push make values read = do value ← read; ok (make (values ++ (value ∷ [])))

-- `offset.map_or(0, |o| …)`
unfoldable pub map_or : Option ℕ → (ℕ → Result ℕ) → Result ℕ
map_or none read = ok 0
map_or (some offset) read = read offset

-- A number or a flag of the byte at an offset.
unfoldable pub part_at : List ℕ → ℕ → (ℕ → ℕ) → Result ℕ
unfolding u8_at
part_at buf offset part = do byte ← u8_at buf offset; ok (part byte)

unfoldable pub flag_at : List ℕ → ℕ → (ℕ → Bool) → Result Bool
unfolding u8_at
flag_at buf offset flag = do byte ← u8_at buf offset; ok (flag byte)

-- `buf & 2 ^ k == 2 ^ k`
abbrev pub bit_set : ℕ → ℕ → Bool
bit_set k byte = byte / 2 ^ k % 2 == 1

-- `values.extend_from_slice(…)` of the extra bytes.
unfoldable pub append_extra : ColumnSpec → List ℕ → ExtendedPointLayout → List ℕ → Result ColumnData
append_extra spec values layout buf = do
  width ← ok_or (extra_byte_width spec) invalid_data
  reject_if (not (layout.extra_len == width)) invalid_data
  bytes ← slice buf layout.extra_offset (layout.extra_offset + width)
  ok (ColumnData.u8 (values ++ bytes))

-- `f32::from(angle) * LAS_14_SCAN_ANGLE_SCALE` is a parameter.
module _ (scale_angle : ℤ → ℕ) where
  -- The match of `append_column`, on the dimension and the data.
  unfoldable pub append_value :
      ColumnSpec → LasDimension → ColumnData → ColumnAppendContext → Result ColumnData
  unfolding u8_at word_at i16_at push map_or part_at flag_at append_extra
  append_value spec LasDimension.x (ColumnData.f64 values) c =
      push ColumnData.f64 values (ok c.xyz.0)
  append_value spec LasDimension.y (ColumnData.f64 values) c =
      push ColumnData.f64 values (ok c.xyz.1)
  append_value spec LasDimension.z (ColumnData.f64 values) c =
      push ColumnData.f64 values (ok c.xyz.2)
  append_value spec LasDimension.intensity (ColumnData.u16 values) c =
      push ColumnData.u16 values (word_at 2 c.buf 12)
  append_value spec LasDimension.return_number (ColumnData.u8 values) c =
      push ColumnData.u8 values (part_at c.buf 14 (λ byte. byte % 16))
  append_value spec LasDimension.number_of_returns (ColumnData.u8 values) c =
      push ColumnData.u8 values (part_at c.buf 14 (λ byte. byte / 16 % 16))
  append_value spec LasDimension.classification (ColumnData.u8 values) c =
      push ColumnData.u8 values (ok c.classification)
  append_value spec LasDimension.scan_direction_flag (ColumnData.bool values) c =
      push ColumnData.bool values (flag_at c.buf 15 (bit_set 6))
  append_value spec LasDimension.edge_of_flight_line (ColumnData.bool values) c =
      push ColumnData.bool values (flag_at c.buf 15 (λ byte. byte / 2 ^ 7 == 1))
  append_value spec LasDimension.scan_angle (ColumnData.f32 values) c =
      push ColumnData.f32 values (i16_at c.buf 18 >>= λ angle. ok (scale_angle angle))
  append_value spec LasDimension.user_data (ColumnData.u8 values) c =
      push ColumnData.u8 values (u8_at c.buf 17)
  append_value spec LasDimension.point_source_id (ColumnData.u16 values) c =
      push ColumnData.u16 values (word_at 2 c.buf 20)
  append_value spec LasDimension.synthetic (ColumnData.bool values) c =
      push ColumnData.bool values (flag_at c.buf 15 (bit_set 0))
  append_value spec LasDimension.key_point (ColumnData.bool values) c =
      push ColumnData.bool values (flag_at c.buf 15 (bit_set 1))
  append_value spec LasDimension.withheld (ColumnData.bool values) c =
      push ColumnData.bool values (flag_at c.buf 15 (bit_set 2))
  append_value spec LasDimension.overlap (ColumnData.bool values) c =
      push ColumnData.bool values (ok c.is_overlap)
  append_value spec LasDimension.scan_channel (ColumnData.u8 values) c =
      push ColumnData.u8 values (part_at c.buf 15 (λ byte. byte / 16 % 4))
  append_value spec LasDimension.gps_time (ColumnData.f64 values) c =
      push ColumnData.f64 values (word_at 8 c.buf 22)
  append_value spec LasDimension.red (ColumnData.u16 values) c =
      push ColumnData.u16 values (map_or c.layout.color_offset (word_at 2 c.buf))
  append_value spec LasDimension.green (ColumnData.u16 values) c =
      push ColumnData.u16 values (map_or c.layout.color_offset (λ o. word_at 2 c.buf (o + 2)))
  append_value spec LasDimension.blue (ColumnData.u16 values) c =
      push ColumnData.u16 values (map_or c.layout.color_offset (λ o. word_at 2 c.buf (o + 4)))
  append_value spec LasDimension.nir (ColumnData.u16 values) c =
      push ColumnData.u16 values (map_or c.layout.nir_offset (word_at 2 c.buf))
  append_value spec LasDimension.waveform_packet_descriptor_index (ColumnData.u8 values) c =
      push ColumnData.u8 values (map_or c.layout.waveform_offset (u8_at c.buf))
  append_value spec LasDimension.waveform_packet_byte_offset (ColumnData.u64 values) c =
      push ColumnData.u64 values (map_or c.layout.waveform_offset (λ o. word_at 8 c.buf (o + 1)))
  append_value spec LasDimension.waveform_packet_size (ColumnData.u32 values) c =
      push ColumnData.u32 values (map_or c.layout.waveform_offset (λ o. word_at 4 c.buf (o + 9)))
  append_value spec LasDimension.wave_packet_return_point_waveform_location (ColumnData.f32 values)
        c =
      push ColumnData.f32 values (map_or c.layout.waveform_offset (λ o. word_at 4 c.buf (o + 13)))
  append_value spec LasDimension.extra_bytes (ColumnData.u8 values) c =
      append_extra spec values c.layout c.buf
  append_value spec dimension column c = err invalid_data

  unfoldable pub append_column : ColumnSpec → ColumnData → ColumnAppendContext → Result ColumnData
  unfolding append_value
  append_column spec column context = append_value spec spec.dimension column context

  unfoldable pub append_each : List Column → ColumnAppendContext → Result (List Column)
  unfolding append_column
  append_each [] context = ok []
  append_each ((spec, column) ∷ columns) context = do
    column' ← append_column spec column context
    columns' ← append_each columns context
    ok ((spec, column') ∷ columns')

  unfoldable pub append_columns :
      List Column → List ℕ → ExtendedPointLayout → ℕ × ℕ × ℕ → Result (List Column)
  unfolding append_each u8_at
  append_columns columns buf layout xyz = do
    raw_class ← u8_at buf 16
    flags ← u8_at buf 15
    append_each columns (record {
      buf = buf;
      layout = layout;
      xyz = xyz;
      classification = if raw_class == overlap_classification_code then 1 else raw_class;
      is_overlap = bit_set 3 flags;
    })
