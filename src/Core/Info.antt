-- ===== src/Core/Info.antt =====
-- copc-core/src/info.rs: the COPC info VLR. An `f64` is its bits.
pub mod RoundTrip
pub mod Valid
pub mod Accepted
use copc_rust.Prelude.{
  ℕ, zero, suc, ◌+◌, ◌*◌, ◌%◌, ◌/◌, ◌-◌, ◌^◌, ◌≡◌, Bool, true, false, not, ◌&&◌, ◌||◌, List, [],
  ◌∷◌, ltb, leb, ◌==◌, if◌then◌else◌, length, drop, replicate, Result, ok, err, invalid_data,
  reject_if, ◌>>=◌, ◌>>◌,
}
use copc_rust.Prelude.Bytes.{to_le, from_le}
use copc_rust.Prelude.Slices.{slice, copy_from_slice}
use copc_rust.Core.Hierarchy.{hierarchy_entry_bytes}

abbrev pub copc_info_bytes : ℕ
copc_info_bytes = 160

pub record CopcInfo : Type 0 where
  pub center : ℕ × ℕ × ℕ
  pub halfsize : ℕ
  pub spacing : ℕ
  pub root_hier_offset : ℕ
  pub root_hier_size : ℕ
  pub gpstime_min : ℕ
  pub gpstime_max : ℕ

-- `f64::is_finite`: not all bits of the exponent are set.
abbrev pub is_finite : ℕ → Bool
is_finite bits = not (bits / 2 ^ 52 % 2 ^ 11 == 2 ^ 11 - 1)

-- The sign bit.
abbrev pub is_signed : ℕ → Bool
is_signed bits = leb (2 ^ 63) bits

-- `value <= 0.0`, for a finite value.
abbrev pub at_most_zero : ℕ → Bool
at_most_zero bits = is_signed bits || bits == 0

-- `a > b`, for finite values; the two zeros are equal.
abbrev pub above : ℕ → ℕ → Bool
above a b =
    if is_signed a
    then is_signed b && ltb a b
    else if is_signed b
    then not (a == 0 && b == 2 ^ 63)
    else ltb b a

unfoldable pub validate : CopcInfo → Result (Unit {0})
validate info = do
  reject_if (not (is_finite info.center.0)) invalid_data
  reject_if (not (is_finite info.center.1)) invalid_data
  reject_if (not (is_finite info.center.2)) invalid_data
  reject_if (not (is_finite info.halfsize) || at_most_zero info.halfsize) invalid_data
  reject_if (not (is_finite info.spacing) || at_most_zero info.spacing) invalid_data
  reject_if (info.root_hier_offset == 0) invalid_data
  reject_if (info.root_hier_size == 0) invalid_data
  reject_if (not (info.root_hier_size % hierarchy_entry_bytes == 0)) invalid_data
  reject_if (not (is_finite info.gpstime_min) || not (is_finite info.gpstime_max)) invalid_data
  reject_if (above info.gpstime_min info.gpstime_max) invalid_data

-- `read_u64` and `read_f64`
read_at : List ℕ → ℕ → Result ℕ
read_at bytes offset = do part ← slice bytes offset (offset + 8); ok (from_le part)

-- `write_u64` and `write_f64`
write_at : List ℕ → ℕ → ℕ → Result (List ℕ)
write_at bytes offset value = copy_from_slice bytes offset (offset + 8) (to_le 8 value)

-- `bytes.iter().any(|byte| *byte != 0)`
abbrev pub any_set : List ℕ → Bool
any_set [] = false
any_set (b ∷ bytes) = not (b == 0) || any_set bytes

pub from_le_bytes : List ℕ → Result CopcInfo
unfolding validate read_at
from_le_bytes bytes = do
  reject_if (not (length bytes == copc_info_bytes)) invalid_data
  reject_if (any_set (drop 72 bytes)) invalid_data
  x ← read_at bytes 0
  y ← read_at bytes 8
  z ← read_at bytes 16
  halfsize ← read_at bytes 24
  spacing ← read_at bytes 32
  root_hier_offset ← read_at bytes 40
  root_hier_size ← read_at bytes 48
  gpstime_min ← read_at bytes 56
  gpstime_max ← read_at bytes 64
  let info : CopcInfo = record {
    center = (x, y, z);
    halfsize = halfsize;
    spacing = spacing;
    root_hier_offset = root_hier_offset;
    root_hier_size = root_hier_size;
    gpstime_min = gpstime_min;
    gpstime_max = gpstime_max;
  }
  validate info
  ok info

pub write_le_bytes : CopcInfo → Result (List ℕ)
unfolding validate write_at
write_le_bytes info = do
  validate info
  let out = replicate copc_info_bytes 0
  out ← write_at out 0 info.center.0
  out ← write_at out 8 info.center.1
  out ← write_at out 16 info.center.2
  out ← write_at out 24 info.halfsize
  out ← write_at out 32 info.spacing
  out ← write_at out 40 info.root_hier_offset
  out ← write_at out 48 info.root_hier_size
  out ← write_at out 56 info.gpstime_min
  out ← write_at out 64 info.gpstime_max
  ok out
