-- ===== src/Core/Streaming.antt =====
-- copc-core/src/streaming.rs: the spill records of LAS points. An `f64` and an `f32` are the bits that
-- `to_le_bytes` writes.
pub mod Fields
pub mod RoundTrip
use copc_rust.Prelude.{
  ℕ, ◌-◌, ◌^◌, zero, suc, ◌+◌, ◌*◌, ◌≡◌, Bool, true, false, not, List, [], ◌∷◌, ◌++◌, map, ltb,
  ◌==◌, if◌then◌else◌, length, get_or, Result, ok, err, invalid_input, invalid_data, reject_if,
  ◌>>=◌, ◌>>◌,
}
use copc_rust.Prelude.Bytes.{to_le, from_le}
use copc_rust.Prelude.Slices.{slice, copy_from_slice}

pub record LasPointRecord : Type 0 where
  pub x : ℕ
  pub y : ℕ
  pub z : ℕ
  pub intensity : ℕ
  pub return_number : ℕ
  pub number_of_returns : ℕ
  pub classification : ℕ
  pub scan_direction_flag : Bool
  pub edge_of_flight_line : Bool
  pub scan_angle : ℕ
  pub user_data : ℕ
  pub point_source_id : ℕ
  pub synthetic : Bool
  pub key_point : Bool
  pub withheld : Bool
  pub overlap : Bool
  pub scan_channel : ℕ
  pub gps_time : ℕ
  pub red : ℕ
  pub green : ℕ
  pub blue : ℕ
  pub nir : ℕ
  pub wave_packet_descriptor_index : ℕ
  pub byte_offset_to_waveform_data : ℕ
  pub waveform_packet_size : ℕ
  pub return_point_waveform_location : ℕ
  pub extra_bytes : List ℕ

-- The fields that the record format depends on.
pub record StreamingLayout : Type 0 where
  pub has_gps : Bool
  pub has_color : Bool
  pub has_nir : Bool
  pub has_waveform : Bool
  pub extra_bytes : ℕ

abbrev pub always_bytes : ℕ
always_bytes = 8 + 8 + 8 + 2 + 1 + 1 + 1 + 1 + 1 + 4 + 1 + 2 + 1 + 1 + 1 + 1 + 1

abbrev pub waveform_bytes : ℕ
waveform_bytes = 1 + 8 + 4 + 4

abbrev pub record_width : StreamingLayout → ℕ
record_width layout =
    always_bytes
    + (if layout.has_gps then 8 else 0)
    + (if layout.has_color then 6 else 0)
    + (if layout.has_nir then 2 else 0)
    + (if layout.has_waveform then waveform_bytes else 0)
    + layout.extra_bytes

abbrev pub max_record_width : ℕ
max_record_width = always_bytes + 8 + 6 + 2 + waveform_bytes + (2 ^ 16 - 1)

-- `u8::from(flag)`
abbrev pub flag_u8 : Bool → ℕ
flag_u8 true = 1
flag_u8 false = 0

-- A field to write: its width in bytes and its value.
abbrev pub Field : Type 0
Field = ℕ × ℕ

abbrev pub always_fields : LasPointRecord → List Field
always_fields r =
    (8, r.x)
    ∷ (8, r.y)
    ∷ (8, r.z)
    ∷ (2, r.intensity)
    ∷ (1, r.return_number)
    ∷ (1, r.number_of_returns)
    ∷ (1, r.classification)
    ∷ (1, flag_u8 r.scan_direction_flag)
    ∷ (1, flag_u8 r.edge_of_flight_line)
    ∷ (4, r.scan_angle)
    ∷ (1, r.user_data)
    ∷ (2, r.point_source_id)
    ∷ (1, flag_u8 r.synthetic)
    ∷ (1, flag_u8 r.key_point)
    ∷ (1, flag_u8 r.withheld)
    ∷ (1, flag_u8 r.overlap)
    ∷ (1, r.scan_channel)
    ∷ []

abbrev pub gps_fields : LasPointRecord → List Field
gps_fields r = (8, r.gps_time) ∷ []

abbrev pub color_fields : LasPointRecord → List Field
color_fields r = (2, r.red) ∷ (2, r.green) ∷ (2, r.blue) ∷ []

abbrev pub nir_fields : LasPointRecord → List Field
nir_fields r = (2, r.nir) ∷ []

abbrev pub waveform_fields : LasPointRecord → List Field
waveform_fields r =
    (1, r.wave_packet_descriptor_index)
    ∷ (8, r.byte_offset_to_waveform_data)
    ∷ (4, r.waveform_packet_size)
    ∷ (4, r.return_point_waveform_location)
    ∷ []

-- `write_u8` to `write_f64`, for a value of `n` bytes: the offset moves behind it.
pub write_value : ℕ → ℕ → ℕ × List ℕ → Result (ℕ × List ℕ)
write_value n value (offset, dst) = do
  dst' ← copy_from_slice dst offset (offset + n) (to_le n value)
  ok (offset + n, dst')

-- One write after the other.
pub write_fields : List Field → ℕ × List ℕ → Result (ℕ × List ℕ)
unfolding write_value
write_fields [] cursor = ok cursor
write_fields ((n, value) ∷ fields) cursor = do
  cursor' ← write_value n value cursor
  write_fields fields cursor'

pub serialize_le : LasPointRecord → StreamingLayout → List ℕ → Result (List ℕ)
unfolding write_fields
serialize_le r layout dst = do
  reject_if (not (length dst == record_width layout)) invalid_input
  reject_if (not (length r.extra_bytes == layout.extra_bytes)) invalid_input
  c ← write_fields (always_fields r) (0, dst)
  c ← if layout.has_gps then write_fields (gps_fields r) c else ok c
  c ← if layout.has_color then write_fields (color_fields r) c else ok c
  c ← if layout.has_nir then write_fields (nir_fields r) c else ok c
  c ← if layout.has_waveform then write_fields (waveform_fields r) c else ok c
  copy_from_slice c.1 c.0 (c.0 + layout.extra_bytes) r.extra_bytes

-- `read_u8` to `read_f64`: the value and the offset behind it.
pub read_value : ℕ → List ℕ → ℕ → Result (ℕ × ℕ)
read_value n src offset = do bytes ← slice src offset (offset + n); ok (from_le bytes, offset + n)

-- The values of one read after the other, by their widths.
pub read_values : List ℕ → List ℕ → ℕ → Result (List ℕ × ℕ)
unfolding read_value
read_values [] src offset = ok ([], offset)
read_values (n ∷ widths) src offset = do
  (value, offset') ← read_value n src offset
  (values, end) ← read_values widths src offset'
  ok (value ∷ values, end)

-- The `k`-th of the values that were read.
abbrev pub value_at : List ℕ → ℕ → ℕ
value_at values k = get_or values k 0

-- `read_u8(…) != 0`
abbrev pub flag_at : List ℕ → ℕ → Bool
flag_at values k = not (value_at values k == 0)

abbrev pub always_widths : List ℕ
always_widths = 8 ∷ 8 ∷ 8 ∷ 2 ∷ 1 ∷ 1 ∷ 1 ∷ 1 ∷ 1 ∷ 4 ∷ 1 ∷ 2 ∷ 1 ∷ 1 ∷ 1 ∷ 1 ∷ 1 ∷ []

-- The result of `deserialize_le_into`, which writes every field of its output.
pub deserialize_le : List ℕ → StreamingLayout → Result LasPointRecord
unfolding read_values
deserialize_le src layout = do
  reject_if (not (length src == record_width layout)) invalid_data
  (always, offset) ← read_values always_widths src 0
  (gps, offset) ← if layout.has_gps then read_values (8 ∷ []) src offset else ok (0 ∷ [], offset)
  (color, offset) ←
      if layout.has_color
      then read_values (2 ∷ 2 ∷ 2 ∷ []) src offset
      else ok (0 ∷ 0 ∷ 0 ∷ [], offset)
  (nir, offset) ← if layout.has_nir then read_values (2 ∷ []) src offset else ok (0 ∷ [], offset)
  (wave, offset) ←
      if layout.has_waveform
      then read_values (1 ∷ 8 ∷ 4 ∷ 4 ∷ []) src offset
      else ok (0 ∷ 0 ∷ 0 ∷ 0 ∷ [], offset)
  extra ← if ltb 0 layout.extra_bytes then slice src offset (offset + layout.extra_bytes) else ok []
  ok (record {
    x = value_at always 0;
    y = value_at always 1;
    z = value_at always 2;
    intensity = value_at always 3;
    return_number = value_at always 4;
    number_of_returns = value_at always 5;
    classification = value_at always 6;
    scan_direction_flag = flag_at always 7;
    edge_of_flight_line = flag_at always 8;
    scan_angle = value_at always 9;
    user_data = value_at always 10;
    point_source_id = value_at always 11;
    synthetic = flag_at always 12;
    key_point = flag_at always 13;
    withheld = flag_at always 14;
    overlap = flag_at always 15;
    scan_channel = value_at always 16;
    gps_time = value_at gps 0;
    red = value_at color 0;
    green = value_at color 1;
    blue = value_at color 2;
    nir = value_at nir 0;
    wave_packet_descriptor_index = value_at wave 0;
    byte_offset_to_waveform_data = value_at wave 1;
    waveform_packet_size = value_at wave 2;
    return_point_waveform_location = value_at wave 3;
    extra_bytes = extra;
  })
