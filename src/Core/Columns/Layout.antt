-- ===== src/Core/Columns/Layout.antt =====
-- The columns that a point format has.
use copc_rust.Prelude.{
  ℕ, zero, suc, ◌<◌, ◌≡◌, refl, ap, arith, Bool, true, false, List, [], ◌∷◌, ◌++◌, map, some, ltb,
  lt→ltb, if◌then◌else◌, Result, ok, All,
}
use copc_rust.Core.Dimension.{LasDimension, ScalarType, default_scalar}
use copc_rust.Core.Columns.{
  ColumnSpec, PointFormat, new_spec, extra_bytes_spec, default_for, default_column_spec,
  push_default_specs, fixed_dimensions, color_dimensions, waveform_dimensions, when,
  layout_for_las_format,
}

-- A column of fixed width with the scalar of its dimension, or the extra bytes of the format.
pub data IsLaid (width : ℕ) : ColumnSpec → Type 0 where
  fixed :
      (d : LasDimension) (s : ScalarType) → default_scalar d ≡ some s → IsLaid width (new_spec d s)
  extra : 0 < width → IsLaid width (extra_bytes_spec width)

abbrev HasDefault : LasDimension → Type 0
HasDefault d = (s : ScalarType) × (default_scalar d ≡ some s)

abbrev Lays : ℕ → List LasDimension → Result (List ColumnSpec) → Type 0
Lays width dims run =
    (specs : List ColumnSpec) × (run ≡ ok specs)
    × All (IsLaid width) specs
    × (map (λ (s : ColumnSpec). s.dimension) specs ≡ dims)

push-Lays :
    (width : ℕ) (dims later : List LasDimension) (run : Result (List ColumnSpec))
    → All HasDefault dims
    → Lays width later run
    → Lays width (dims ++ later) (push_default_specs dims run)
unfolding push_default_specs default_column_spec default_for
push-Lays width [] later run h l = l
push-Lays width (d ∷ dims) later run ((s, e), h) l =
    let (specs, r, a, b) = push-Lays width dims later run h l in
    (new_spec d s ∷ specs, rw (e, default_for, r) refl, (fixed d s e, a), ap (λ t. d ∷ t) b)

when-HasDefault :
    (b : Bool) (dims : List LasDimension) → All HasDefault dims → All HasDefault (when b dims)
when-HasDefault true dims h = h
when-HasDefault false dims h = tt

-- The dimensions of a format.
abbrev pub format_dimensions : PointFormat → List LasDimension
format_dimensions format =
    fixed_dimensions
    ++ (when format.has_gps_time (LasDimension.gps_time ∷ [])
        ++ (when format.has_color color_dimensions
            ++ (when format.has_nir (LasDimension.nir ∷ [])
                ++ (when format.has_waveform waveform_dimensions
                    ++ when (ltb 0 format.extra_bytes) (LasDimension.extra_bytes ∷ [])))))

fixed-HasDefault : All HasDefault fixed_dimensions
unfolding default_scalar
fixed-HasDefault = (
  (ScalarType.f64, refl),
  (
    (ScalarType.f64, refl),
    (
      (ScalarType.f64, refl),
      (
        (ScalarType.u16, refl),
        (
          (ScalarType.u8, refl),
          (
            (ScalarType.u8, refl),
            (
              (ScalarType.u8, refl),
              (
                (ScalarType.bool, refl),
                (
                  (ScalarType.bool, refl),
                  (
                    (ScalarType.f32, refl),
                    (
                      (ScalarType.u8, refl),
                      (
                        (ScalarType.u16, refl),
                        (
                          (ScalarType.bool, refl),
                          (
                            (ScalarType.bool, refl),
                            (
                              (ScalarType.bool, refl),
                              ((ScalarType.bool, refl), ((ScalarType.u8, refl), tt)),
                            ),
                          ),
                        ),
                      ),
                    ),
                  ),
                ),
              ),
            ),
          ),
        ),
      ),
    ),
  ),
)

color-HasDefault : All HasDefault color_dimensions
unfolding default_scalar
color-HasDefault = ((ScalarType.u16, refl), ((ScalarType.u16, refl), ((ScalarType.u16, refl), tt)))

waveform-HasDefault : All HasDefault waveform_dimensions
unfolding default_scalar
waveform-HasDefault = (
  (ScalarType.u8, refl),
  ((ScalarType.u64, refl), ((ScalarType.u32, refl), ((ScalarType.f32, refl), tt))),
)

time-HasDefault : All HasDefault (LasDimension.gps_time ∷ [])
unfolding default_scalar
time-HasDefault = ((ScalarType.f64, refl), tt)

nir-HasDefault : All HasDefault (LasDimension.nir ∷ [])
unfolding default_scalar
nir-HasDefault = ((ScalarType.u16, refl), tt)

extra-Lays :
    (width : ℕ)
    → Lays width
        (when (ltb 0 width) (LasDimension.extra_bytes ∷ []))
        (ok (if ltb 0 width then extra_bytes_spec width ∷ [] else []))
extra-Lays zero = ([], refl, tt, refl)
extra-Lays (suc n) =
    let positive : ltb 0 (suc n) ≡ true = lt→ltb 0 (suc n) (omega arith) in
    rw positive (extra_bytes_spec (suc n) ∷ [], refl, (extra (omega arith), tt), refl)

pub layout-Lays :
    (format : PointFormat)
    → Lays format.extra_bytes (format_dimensions format) (layout_for_las_format format)
unfolding layout_for_las_format
layout-Lays format = push-Lays format.extra_bytes fixed_dimensions _ _ fixed-HasDefault (
    push-Lays format.extra_bytes _ _ _ (when-HasDefault format.has_gps_time _ time-HasDefault) (
      push-Lays format.extra_bytes _ _ _ (when-HasDefault format.has_color _ color-HasDefault) (
        push-Lays format.extra_bytes _ _ _ (when-HasDefault format.has_nir _ nir-HasDefault) (
          push-Lays format.extra_bytes _ _ _
            (when-HasDefault format.has_waveform _ waveform-HasDefault)
            (extra-Lays format.extra_bytes)))))
