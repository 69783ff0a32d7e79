-- ===== src/Tests/Infos.antt =====
-- An info VLR: the root page of 64 bytes at offset 600, halfsize and spacing 1.0.
use copc_rust.Prelude.{◌≡◌, ◌↔◌, All, refl, arith, ok, ◌>>=◌}
use copc_rust.Core.Info
use copc_rust.Core.Info.{CopcInfo, any_set, from_le_bytes, write_le_bytes}
use copc_rust.Core.Info.RoundTrip.{IsU64Info, info_bytes, from_le_bytes-write_le_bytes}
use copc_rust.Core.Info.Accepted.{IsAccepted, from_le_bytes_iff}
use copc_rust.Prelude.Bytes.{IsByte, to_le}

abbrev unit_info : CopcInfo
unit_info = record {
  center = (0, 0, 0);
  halfsize = 4607182418800017408;
  spacing = 4607182418800017408;
  root_hier_offset = 600;
  root_hier_size = 64;
  gpstime_min = 0;
  gpstime_max = 4607182418800017408;
}

unit_info-IsU64Info : IsU64Info unit_info
unit_info-IsU64Info = ground arith

unit_info_valid : Info.validate unit_info ≡ ok tt
unfolding Info.validate
unit_info_valid = refl

from_le_bytes-write_le_bytes_example : (write_le_bytes unit_info >>= from_le_bytes) ≡ ok unit_info
from_le_bytes-write_le_bytes_example =
    from_le_bytes-write_le_bytes unit_info unit_info-IsU64Info unit_info_valid

unit_bytes-IsByte : All IsByte (info_bytes unit_info)
unfolding to_le
unit_bytes-IsByte = ground arith

from_le_bytes_iff_example :
    (from_le_bytes (info_bytes unit_info) ≡ ok unit_info)
    ↔ IsAccepted (info_bytes unit_info) unit_info
from_le_bytes_iff_example = from_le_bytes_iff (info_bytes unit_info) unit_info unit_bytes-IsByte
