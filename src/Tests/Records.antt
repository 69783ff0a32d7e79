-- ===== src/Tests/Records.antt =====
-- A spill record with a GPS time, a color and two extra bytes.
use copc_rust.Prelude.{◌≡◌, refl, arith, true, false, [], ◌∷◌, replicate, ok, ◌>>=◌}
use copc_rust.Core.Streaming.{LasPointRecord, StreamingLayout, serialize_le, deserialize_le}
use copc_rust.Core.Streaming.RoundTrip.{IsPoint, visible, deserialize_le-serialize_le}

abbrev point : LasPointRecord
point = record {
  x = 4611686018427387904;
  y = 0;
  z = 1;
  intensity = 65535;
  return_number = 1;
  number_of_returns = 2;
  classification = 6;
  scan_direction_flag = true;
  edge_of_flight_line = false;
  scan_angle = 1065353216;
  user_data = 7;
  point_source_id = 300;
  synthetic = false;
  key_point = true;
  withheld = false;
  overlap = false;
  scan_channel = 3;
  gps_time = 99;
  red = 1;
  green = 2;
  blue = 3;
  nir = 4;
  wave_packet_descriptor_index = 5;
  byte_offset_to_waveform_data = 6;
  waveform_packet_size = 7;
  return_point_waveform_location = 8;
  extra_bytes = 17 ∷ 34 ∷ [];
}

abbrev layout : StreamingLayout
layout = record {
  has_gps = true;
  has_color = true;
  has_nir = false;
  has_waveform = false;
  extra_bytes = 2;
}

point-IsPoint : IsPoint point
point-IsPoint = ground arith

deserialize_le-serialize_le_example :
    (serialize_le point layout (replicate 59 0) >>= λ bytes. deserialize_le bytes layout)
    ≡ ok (visible point layout)
deserialize_le-serialize_le_example =
    deserialize_le-serialize_le point layout (replicate 59 0) point-IsPoint refl refl
