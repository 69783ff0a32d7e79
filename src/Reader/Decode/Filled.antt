-- ===== src/Reader/Decode/Filled.antt =====
-- copc-reader/src/points.rs: the number of values in a column.
use native.Mathlib.Nat.{suc-mul}
use copc_rust.Prelude.{
  ℕ, zero, suc, ◌+◌, ◌*◌, ◌-◌, ◌<◌, ◌≤◌, ◌≡◌, refl, ap, ◌∙◌, arith, List, [], ◌∷◌, ◌++◌, some,
  length, length-append, Result, ok, All, take, drop, ≡→==,
}
use copc_rust.Prelude.Slices.{slice_lem, length_part}
use copc_rust.Core.Dimension.{LasDimension, ScalarType, default_scalar}
use copc_rust.Core.Columns.{
  ColumnSpec, ColumnData, Column, data_scalar, data_len, new_spec, extra_bytes_spec, positive,
}
use copc_rust.Reader.Append.{
  ColumnAppendContext, append_extra, append_value, append_column, append_each,
}
use copc_rust.Reader.Decode.Reads.{HasFields}
use copc_rust.Reader.Decode.Values.{value-Adds}
use copc_rust.Prelude.Int.{ℤ}

-- A column with the values of `n` points: one value for each in a column of fixed width, and `width`
-- bytes for each in the column of the extra bytes.
pub data IsFilled (width n : ℕ) : Column → Type 0 where
  fixed :
      (d : LasDimension) (s : ScalarType) (a : ColumnData)
      → default_scalar d ≡ some s
      → data_scalar a ≡ s
      → data_len a ≡ n
      → IsFilled width n (new_spec d s, a)
  extra :
      (bytes : List ℕ)
      → 0 < width
      → length bytes ≡ n * width
      → IsFilled width n (extra_bytes_spec width, ColumnData.u8 bytes)

abbrev pub dimensions : List Column → List LasDimension
dimensions [] = []
dimensions ((spec, a) ∷ columns) = spec.dimension ∷ dimensions columns

pub positive-some : (n : ℕ) → 0 < n → positive (some n) ≡ some n
positive-some zero h = absurd (omega arith)
positive-some (suc n) h = refl

-- A filled column after a further point.
abbrev Grows : ℕ → ℕ → ColumnSpec → Result ColumnData → Type 0
Grows width n spec run = (a : ColumnData) × (run ≡ ok a) × IsFilled width (suc n) (spec, a)

module _ (scale_angle : ℤ → ℕ) (width : ℕ) (c : ColumnAppendContext)
    (has : HasFields c.layout (length c.buf)) (extra_len : c.layout.extra_len ≡ width) where
  extra-Grows :
      (n : ℕ) (bytes : List ℕ)
      → 0 < width
      → length bytes ≡ n * width
      → Grows width n
          (extra_bytes_spec width)
          (append_extra (extra_bytes_spec width) bytes c.layout c.buf)
  unfolding append_extra
  extra-Grows n bytes some_width len =
      let from = c.layout.extra_offset in
      let inside : from + width ≤ length c.buf = omega (arith, has.extra) in
      let part : List ℕ = take (from + width - from) (drop from c.buf) in
      let sliced = slice_lem c.buf from (from + width) (omega arith) inside in
      let size : length part ≡ width =
        omega (arith, length_part c.buf from (from + width) (omega arith) inside) in
      let longer : length (bytes ++ part) ≡ suc n * width =
        length-append bytes part
        ∙ (let sum : length bytes + length part ≡ suc n * width = rw (len, size, suc-mul) refl in
            sum) in
      (
        ColumnData.u8 (bytes ++ part),
        rw (positive-some width some_width, ≡→== _ _ extra_len, sliced) refl,
        extra (bytes ++ part) some_width longer,
      )

  column-Grows :
      (n : ℕ) (spec : ColumnSpec) (a : ColumnData)
      → IsFilled width n (spec, a)
      → Grows width n spec (append_column scale_angle spec a c)
  unfolding append_column append_value
  column-Grows n _ _ (fixed d s a e k len) =
      let (b, run, scalar, more) = value-Adds scale_angle c has (new_spec d s) d s a e k in
      (b, run, fixed d s b e (scalar ∙ k) (more ∙ ap suc len))
  column-Grows n _ _ (extra bytes some_width len) = extra-Grows n bytes some_width len

  pub each-Grows :
      (n : ℕ) (columns : List Column)
      → All (IsFilled width n) columns
      → (columns' : List Column) × (append_each scale_angle columns c ≡ ok columns')
        × All (IsFilled width (suc n)) columns'
        × (dimensions columns' ≡ dimensions columns)
  unfolding append_each
  each-Grows n [] h = ([], refl, tt, refl)
  each-Grows n ((spec, a) ∷ columns) (f, h) =
      let (a', run, f') = column-Grows n spec a f in
      let (columns', runs, h', same) = each-Grows n columns h in
      ((spec, a') ∷ columns', rw (run, runs) refl, (f', h'), ap (λ t. spec.dimension ∷ t) same)
