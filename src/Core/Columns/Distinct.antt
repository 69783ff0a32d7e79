-- ===== src/Core/Columns/Distinct.antt =====
-- copc-core/src/columns.rs: the order of the dimensions of a layout.
use copc_rust.Prelude.{
  ℕ, suc, ◌<◌, ◌≤◌, ◌≡◌, refl, arith, Bool, true, false, List, [], ◌∷◌, ◌++◌, ltb, All,
}
use copc_rust.Core.Dimension.{LasDimension, variant, contains, eq_dimension}
use copc_rust.Core.Columns.{
  PointFormat, fixed_dimensions, color_dimensions, waveform_dimensions, when,
}
use copc_rust.Core.Columns.Layout.{format_dimensions}

-- The variants rise, from `low` on, below `high`.
abbrev pub Rises : ℕ → ℕ → List LasDimension → Type 0
Rises low high [] = low ≤ high
Rises low high (d ∷ dims) = (low ≤ variant d) × Rises (suc (variant d)) high dims

Rises-append :
    (low mid high : ℕ) (xs ys : List LasDimension)
    → Rises low mid xs
    → Rises mid high ys
    → Rises low high (xs ++ ys)
Rises-append low mid high [] [] h k = omega arith
Rises-append low mid high [] (e ∷ ys) h (k, r) = (omega arith, r)
Rises-append low mid high (d ∷ xs) ys (h, r) k =
    (h, Rises-append (suc (variant d)) mid high xs ys r k)

when-Rises :
    (low high : ℕ) (b : Bool) (dims : List LasDimension)
    → low ≤ high
    → Rises low high dims
    → Rises low high (when b dims)
when-Rises low high true dims h k = k
when-Rises low high false dims h k = h

pub format_dimensions-Rises : (format : PointFormat) → Rises 0 27 (format_dimensions format)
format_dimensions-Rises format = Rises-append 0 17 27 fixed_dimensions _ (omega arith) (
    Rises-append 17 18 27 _ _
      (when-Rises 17 18 format.has_gps_time (LasDimension.gps_time ∷ []) (omega arith)
        (omega arith))
      (Rises-append 18 21 27 _ _
        (when-Rises 18 21 format.has_color color_dimensions (omega arith) (omega arith))
        (Rises-append 21 22 27 _ _
          (when-Rises 21 22 format.has_nir (LasDimension.nir ∷ []) (omega arith) (omega arith))
          (Rises-append 22 26 27 _ _
            (when-Rises 22 26 format.has_waveform waveform_dimensions (omega arith) (omega arith))
            (when-Rises 26 27 (ltb 0 format.extra_bytes) (LasDimension.extra_bytes ∷ [])
              (omega arith) (omega arith))))))

pub Rises-from :
    (low low' high : ℕ) (dims : List LasDimension)
    → low' ≤ low
    → Rises low high dims
    → Rises low' high dims
Rises-from low low' high [] h k = omega arith
Rises-from low low' high (d ∷ dims) h (k, r) = (omega arith, r)

-- A dimension behind all those seen is not among them.
pub contains_below :
    (seen : List LasDimension) (d : LasDimension)
    → All (λ s. variant s < variant d) seen
    → contains seen d ≡ false
unfolding contains
contains_below [] d h = refl
contains_below (s ∷ seen) d (h, r) =
    let differs : eq_dimension s d ≡ false = ground arith in
    rw (differs, contains_below seen d r) refl
