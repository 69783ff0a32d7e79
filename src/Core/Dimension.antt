-- ===== src/Core/Dimension.antt =====
-- copc-core/src/columns.rs: the dimensions of a point, their scalar types, and selections of them.
use copc_rust.Prelude.{
  ℕ, ◌≡◌, refl, sym, ap, ◌∙◌, Bool, true, false, ◌||◌, List, [], ◌∷◌, ◌++◌, Option, none, some,
  ◌==◌, ==→≡, ≡→==, if◌then◌else◌, get_or,
}

pub data LasDimension : Type 0 where
  x : LasDimension
  y : LasDimension
  z : LasDimension
  intensity : LasDimension
  return_number : LasDimension
  number_of_returns : LasDimension
  classification : LasDimension
  scan_direction_flag : LasDimension
  edge_of_flight_line : LasDimension
  scan_angle : LasDimension
  user_data : LasDimension
  point_source_id : LasDimension
  synthetic : LasDimension
  key_point : LasDimension
  withheld : LasDimension
  overlap : LasDimension
  scan_channel : LasDimension
  gps_time : LasDimension
  red : LasDimension
  green : LasDimension
  blue : LasDimension
  nir : LasDimension
  waveform_packet_descriptor_index : LasDimension
  waveform_packet_byte_offset : LasDimension
  waveform_packet_size : LasDimension
  wave_packet_return_point_waveform_location : LasDimension
  extra_bytes : LasDimension

pub data ScalarType : Type 0 where
  f64 f32 i64 i32 i16 i8 u64 u32 u16 u8 bool : ScalarType

-- The derived equality, by the number of the variant: `a as u8 == b as u8`.
abbrev pub variant : LasDimension → ℕ
variant LasDimension.x = 0
variant LasDimension.y = 1
variant LasDimension.z = 2
variant LasDimension.intensity = 3
variant LasDimension.return_number = 4
variant LasDimension.number_of_returns = 5
variant LasDimension.classification = 6
variant LasDimension.scan_direction_flag = 7
variant LasDimension.edge_of_flight_line = 8
variant LasDimension.scan_angle = 9
variant LasDimension.user_data = 10
variant LasDimension.point_source_id = 11
variant LasDimension.synthetic = 12
variant LasDimension.key_point = 13
variant LasDimension.withheld = 14
variant LasDimension.overlap = 15
variant LasDimension.scan_channel = 16
variant LasDimension.gps_time = 17
variant LasDimension.red = 18
variant LasDimension.green = 19
variant LasDimension.blue = 20
variant LasDimension.nir = 21
variant LasDimension.waveform_packet_descriptor_index = 22
variant LasDimension.waveform_packet_byte_offset = 23
variant LasDimension.waveform_packet_size = 24
variant LasDimension.wave_packet_return_point_waveform_location = 25
variant LasDimension.extra_bytes = 26

abbrev pub scalar_variant : ScalarType → ℕ
scalar_variant ScalarType.f64 = 0
scalar_variant ScalarType.f32 = 1
scalar_variant ScalarType.i64 = 2
scalar_variant ScalarType.i32 = 3
scalar_variant ScalarType.i16 = 4
scalar_variant ScalarType.i8 = 5
scalar_variant ScalarType.u64 = 6
scalar_variant ScalarType.u32 = 7
scalar_variant ScalarType.u16 = 8
scalar_variant ScalarType.u8 = 9
scalar_variant ScalarType.bool = 10

abbrev pub eq_dimension : LasDimension → LasDimension → Bool
eq_dimension a b = variant a == variant b

abbrev pub eq_scalar : ScalarType → ScalarType → Bool
eq_scalar a b = scalar_variant a == scalar_variant b

-- All variants, in their order: the list of `ColumnSelection::all`.
abbrev pub all_dimensions : List LasDimension
all_dimensions =
    LasDimension.x ∷ LasDimension.y ∷ LasDimension.z ∷ LasDimension.intensity
    ∷ LasDimension.return_number ∷ LasDimension.number_of_returns ∷ LasDimension.classification
    ∷ LasDimension.scan_direction_flag ∷ LasDimension.edge_of_flight_line ∷ LasDimension.scan_angle
    ∷ LasDimension.user_data ∷ LasDimension.point_source_id ∷ LasDimension.synthetic
    ∷ LasDimension.key_point ∷ LasDimension.withheld ∷ LasDimension.overlap
    ∷ LasDimension.scan_channel ∷ LasDimension.gps_time ∷ LasDimension.red ∷ LasDimension.green
    ∷ LasDimension.blue ∷ LasDimension.nir ∷ LasDimension.waveform_packet_descriptor_index
    ∷ LasDimension.waveform_packet_byte_offset ∷ LasDimension.waveform_packet_size
    ∷ LasDimension.wave_packet_return_point_waveform_location ∷ LasDimension.extra_bytes ∷ []

abbrev all_scalars : List ScalarType
all_scalars =
    ScalarType.f64 ∷ ScalarType.f32 ∷ ScalarType.i64 ∷ ScalarType.i32 ∷ ScalarType.i16
    ∷ ScalarType.i8 ∷ ScalarType.u64 ∷ ScalarType.u32 ∷ ScalarType.u16 ∷ ScalarType.u8
    ∷ ScalarType.bool ∷ []

of_variant : (d : LasDimension) → get_or all_dimensions (variant d) LasDimension.x ≡ d
of_variant LasDimension.x = refl
of_variant LasDimension.y = refl
of_variant LasDimension.z = refl
of_variant LasDimension.intensity = refl
of_variant LasDimension.return_number = refl
of_variant LasDimension.number_of_returns = refl
of_variant LasDimension.classification = refl
of_variant LasDimension.scan_direction_flag = refl
of_variant LasDimension.edge_of_flight_line = refl
of_variant LasDimension.scan_angle = refl
of_variant LasDimension.user_data = refl
of_variant LasDimension.point_source_id = refl
of_variant LasDimension.synthetic = refl
of_variant LasDimension.key_point = refl
of_variant LasDimension.withheld = refl
of_variant LasDimension.overlap = refl
of_variant LasDimension.scan_channel = refl
of_variant LasDimension.gps_time = refl
of_variant LasDimension.red = refl
of_variant LasDimension.green = refl
of_variant LasDimension.blue = refl
of_variant LasDimension.nir = refl
of_variant LasDimension.waveform_packet_descriptor_index = refl
of_variant LasDimension.waveform_packet_byte_offset = refl
of_variant LasDimension.waveform_packet_size = refl
of_variant LasDimension.wave_packet_return_point_waveform_location = refl
of_variant LasDimension.extra_bytes = refl

of_scalar_variant : (s : ScalarType) → get_or all_scalars (scalar_variant s) ScalarType.f64 ≡ s
of_scalar_variant ScalarType.f64 = refl
of_scalar_variant ScalarType.f32 = refl
of_scalar_variant ScalarType.i64 = refl
of_scalar_variant ScalarType.i32 = refl
of_scalar_variant ScalarType.i16 = refl
of_scalar_variant ScalarType.i8 = refl
of_scalar_variant ScalarType.u64 = refl
of_scalar_variant ScalarType.u32 = refl
of_scalar_variant ScalarType.u16 = refl
of_scalar_variant ScalarType.u8 = refl
of_scalar_variant ScalarType.bool = refl

pub eq_dimension→≡ : (a b : LasDimension) → eq_dimension a b ≡ true → a ≡ b
eq_dimension→≡ a b h =
    sym (of_variant a)
    ∙ ap (λ n. get_or all_dimensions n LasDimension.x) (==→≡ (variant a) (variant b) h)
    ∙ of_variant b

pub eq_dimension_self : (a : LasDimension) → eq_dimension a a ≡ true
eq_dimension_self a = ≡→== (variant a) (variant a) refl

pub eq_scalar→≡ : (a b : ScalarType) → eq_scalar a b ≡ true → a ≡ b
eq_scalar→≡ a b h =
    sym (of_scalar_variant a)
    ∙ ap (λ n. get_or all_scalars n ScalarType.f64) (==→≡ (scalar_variant a) (scalar_variant b) h)
    ∙ of_scalar_variant b

pub eq_scalar_self : (a : ScalarType) → eq_scalar a a ≡ true
eq_scalar_self a = ≡→== (scalar_variant a) (scalar_variant a) refl

unfoldable pub default_scalar : LasDimension → Option ScalarType
default_scalar LasDimension.x = some ScalarType.f64
default_scalar LasDimension.y = some ScalarType.f64
default_scalar LasDimension.z = some ScalarType.f64
default_scalar LasDimension.intensity = some ScalarType.u16
default_scalar LasDimension.return_number = some ScalarType.u8
default_scalar LasDimension.number_of_returns = some ScalarType.u8
default_scalar LasDimension.classification = some ScalarType.u8
default_scalar LasDimension.scan_direction_flag = some ScalarType.bool
default_scalar LasDimension.edge_of_flight_line = some ScalarType.bool
default_scalar LasDimension.scan_angle = some ScalarType.f32
default_scalar LasDimension.user_data = some ScalarType.u8
default_scalar LasDimension.point_source_id = some ScalarType.u16
default_scalar LasDimension.synthetic = some ScalarType.bool
default_scalar LasDimension.key_point = some ScalarType.bool
default_scalar LasDimension.withheld = some ScalarType.bool
default_scalar LasDimension.overlap = some ScalarType.bool
default_scalar LasDimension.scan_channel = some ScalarType.u8
default_scalar LasDimension.gps_time = some ScalarType.f64
default_scalar LasDimension.red = some ScalarType.u16
default_scalar LasDimension.green = some ScalarType.u16
default_scalar LasDimension.blue = some ScalarType.u16
default_scalar LasDimension.nir = some ScalarType.u16
default_scalar LasDimension.waveform_packet_descriptor_index = some ScalarType.u8
default_scalar LasDimension.waveform_packet_byte_offset = some ScalarType.u64
default_scalar LasDimension.waveform_packet_size = some ScalarType.u32
default_scalar LasDimension.wave_packet_return_point_waveform_location = some ScalarType.f32
default_scalar LasDimension.extra_bytes = none

-- `LasDimension::accepts_scalar`
unfoldable pub accepts_scalar : LasDimension → ScalarType → Bool
unfolding default_scalar
accepts_scalar dimension scalar = elim (default_scalar dimension) [
  | some default ↦ eq_scalar default scalar
  | none ↦ true
]

-- `ColumnSelection` holds its dimensions.
abbrev pub ColumnSelection : Type 0
ColumnSelection = List LasDimension

-- `ColumnSelection::contains`, which is `contains` of the `Vec`.
unfoldable pub contains : ColumnSelection → LasDimension → Bool
contains [] dim = false
contains (d ∷ dimensions) dim = eq_dimension d dim || contains dimensions dim

-- The loop of `ColumnSelection::from_dimensions`.
add_dimensions : List LasDimension → List LasDimension → ColumnSelection
unfolding contains
add_dimensions [] dimensions = dimensions
add_dimensions (dim ∷ dims) dimensions =
    add_dimensions dims (if contains dimensions dim then dimensions else dimensions ++ (dim ∷ []))

unfoldable pub from_dimensions : List LasDimension → ColumnSelection
unfolding add_dimensions
from_dimensions dims = add_dimensions dims []

-- `ColumnSelection::all` and `ColumnSelection::xyz`
unfoldable pub select_all : ColumnSelection
unfolding from_dimensions
select_all = from_dimensions all_dimensions

unfoldable pub select_xyz : ColumnSelection
unfolding from_dimensions
select_xyz = from_dimensions (LasDimension.x ∷ LasDimension.y ∷ LasDimension.z ∷ [])
