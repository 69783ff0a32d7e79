-- ===== src/Reader/Points/Whole.antt =====
-- copc-reader/src/points.rs: the serial read of columns, over chunks that decompress.
use copc_rust.Prelude.{
  ℕ, suc, ◌+◌, ◌^◌, ◌<◌, ◌≤◌, ◌≡◌, refl, arith, List, [], ◌∷◌, map, none, ok, All, Bool-cases, inl,
  inr, Ensures, bind-Ensures, Ensures-ok, >>=-eq-ok,
}
use copc_rust.Core.Bounds.{Floats}
use copc_rust.Core.Dimension.{ScalarType, variant, contains, ColumnSelection}
use copc_rust.Core.Columns.{ColumnSpec, Column, PointFormat, LasColumnBatch, validate, data_len}
use copc_rust.Core.Columns.Layout.{IsLaid, fixed as fixed_spec, extra as extra_spec, layout-Lays}
use copc_rust.Core.Columns.Distinct.{Rises, Rises-from, format_dimensions-Rises}
use copc_rust.Reader.Append.{for_format, selected_column_builders, empty_data}
use copc_rust.Reader.Query.{PointQuery, QueryFloats, select_point_chunks_from}
use copc_rust.Reader.Decode.{
  Decoding, configure_layered_decompressor, validated_record_size,
  max_initial_column_reserve_points,
}
use copc_rust.Reader.Decode.Fresh.{builders, build_columns-ok, scalar-empty}
use copc_rust.Reader.Decode.Reads.{Reads, for_format-HasFields}
use copc_rust.Reader.Decode.Filled.{IsFilled, fixed, extra, dimensions}
use copc_rust.Reader.Decode.Whole.{validate_columns-IsFilled, AreReadable, read_chunks-Holds}
use copc_rust.Reader.Points.{
  CopcFile, Prepared, point_format_for, capacity_for, prepare, set_up, finish, no_points,
  read_columns_serial,
}
use copc_rust.Reader.Points.Agree.{extra_bytes-le, capacity_for-le}

empty-len : (s : ScalarType) → data_len (empty_data s) ≡ 0
empty-len ScalarType.f64 = refl
empty-len ScalarType.f32 = refl
empty-len ScalarType.i64 = refl
empty-len ScalarType.i32 = refl
empty-len ScalarType.i16 = refl
empty-len ScalarType.i8 = refl
empty-len ScalarType.u64 = refl
empty-len ScalarType.u32 = refl
empty-len ScalarType.u16 = refl
empty-len ScalarType.u8 = refl
empty-len ScalarType.bool = refl

-- A fresh column holds no points.
fresh-IsFilled :
    (width : ℕ) (spec : ColumnSpec)
    → IsLaid width spec
    → IsFilled width 0 (spec, empty_data spec.scalar)
fresh-IsFilled width _ (fixed_spec d s e) =
    fixed d s (empty_data s) e (scalar-empty s) (empty-len s)
fresh-IsFilled width _ (extra_spec some_width) = extra [] some_width (omega arith)

builders-IsFilled :
    (width : ℕ) (specs : List ColumnSpec) (selection : ColumnSelection)
    → All (IsLaid width) specs
    → All (IsFilled width 0) (builders specs selection)
unfolding builders
builders-IsFilled width [] selection h = tt
builders-IsFilled width (spec ∷ specs) selection (l, h) =
    elim (Bool-cases (contains selection spec.dimension)) [
      | inl c ↦ rw c (fresh-IsFilled width spec l, builders-IsFilled width specs selection h)
      | inr c ↦ rw c (builders-IsFilled width specs selection h)
    ]

builders-Rises :
    (low high : ℕ) (specs : List ColumnSpec) (selection : ColumnSelection)
    → Rises low high (map (λ (s : ColumnSpec). s.dimension) specs)
    → Rises low high (dimensions (builders specs selection))
unfolding builders
builders-Rises low high [] selection r = r
builders-Rises low high (spec ∷ specs) selection (h, r) =
    elim (Bool-cases (contains selection spec.dimension)) [
      | inl c ↦ rw c (h, builders-Rises (suc (variant spec.dimension)) high specs selection r)
      | inr c ↦ rw c (
          Rises-from (suc (variant spec.dimension)) low high _ (omega arith)
            (builders-Rises (suc (variant spec.dimension)) high specs selection r))
    ]

-- The builders of a read hold no points, and are of different dimensions.
abbrev IsEmptyBuilt : PointFormat → List Column → Type 0
IsEmptyBuilt format columns =
    All (IsFilled format.extra_bytes 0) columns × Rises 0 27 (dimensions columns)

builders-IsEmptyBuilt :
    (format : PointFormat) (selection : ColumnSelection) (capacity : ℕ)
    → format.extra_bytes < 2 ^ 16
    → capacity ≤ max_initial_column_reserve_points
    → Ensures (IsEmptyBuilt format) (selected_column_builders format selection capacity)
unfolding selected_column_builders
builders-IsEmptyBuilt format selection capacity small bound =
    let (specs, e, laid, dims) = layout-Lays format in
    rw (e, build_columns-ok format.extra_bytes specs selection capacity small bound laid)
      (
        builders-IsFilled format.extra_bytes specs selection laid,
        builders-Rises 0 27 specs selection (rw dims (format_dimensions-Rises format)),
      )

module _ (d : Decoding) (q : QueryFloats) ⦃f : Floats ℕ⦄ (file : CopcFile) (query : PointQuery)
    (selection : ColumnSelection) (small : file.point_data_record_length < 2 ^ 16) where
  -- What the preparation of a read has checked.
  abbrev IsSetUp : Prepared → Type 0
  IsSetUp p =
      (for_format p.format ≡ ok p.layout)
      × Reads (configure_layered_decompressor d)
      × IsEmptyBuilt p.format p.columns

  prepare-IsSetUp : Ensures IsSetUp (prepare d q file query selection)
  unfolding prepare set_up validated_record_size
  prepare-IsSetUp =
      bind-Ensures IsSetUp (select_point_chunks_from q file.entries file.copc_info query) _
        λ chunks _. bind-Ensures IsSetUp (point_format_for d file) _ λ format is_format.
          bind-Ensures IsSetUp (for_format format) _ λ layout is_layout.
            bind-Ensures IsSetUp (validated_record_size d format) _ λ size sized.
              bind-Ensures IsSetUp (capacity_for query.bounds chunks) _ λ capacity bound.
                bind-Ensures IsSetUp (selected_column_builders format selection capacity) _
                  λ columns built.
                    let fits : format.extra_bytes ≤ file.point_data_record_length =
                      Ensures-ok
                        (λ (t : PointFormat). t.extra_bytes ≤ file.point_data_record_length)
                        (point_format_for d file) format (extra_bytes-le d file) is_format in
                    let (record_size, configured, _) =
                      >>=-eq-ok (configure_layered_decompressor d) _ sized in
                    (
                      is_layout,
                      (record_size, configured),
                      Ensures-ok (IsEmptyBuilt format)
                          (selected_column_builders format selection capacity) columns
                          (builders-IsEmptyBuilt format selection capacity (omega (arith, fits))
                            (capacity_for-le query.bounds chunks capacity bound))
                          built,
                    )

  -- If each selected chunk can be read and decompresses to records that end with the extra bytes of
  -- the format, then the read returns a batch, each column of which has a value, or the extra bytes,
  -- for each point of the batch.
  pub read_columns_serial-Whole :
      (bytes : List ℕ) (p : Prepared)
      → prepare d q file query selection ≡ ok p
      → AreReadable d (p.layout.extra_offset + p.layout.extra_len) bytes p.chunks
      → (batch : LasColumnBatch) × (read_columns_serial d q file bytes query selection none
          ≡ ok batch)
        × All (IsFilled p.format.extra_bytes batch.len) batch.columns
  unfolding read_columns_serial finish validate
  read_columns_serial-Whole bytes p prepared readable =
      let (is_layout, configured, (fresh, rises)) =
        Ensures-ok IsSetUp (prepare d q file query selection) p prepare-IsSetUp prepared in
      let (has, extra_len) = for_format-HasFields p.format p.layout is_layout in
      let (s, run, (filled, same)) =
        read_chunks-Holds d p.layout query.bounds (dimensions p.columns)
          (p.layout.extra_offset + p.layout.extra_len) has bytes p.chunks (no_points p.columns)
          configured readable (rw extra_len fresh, refl) in
      let none_before : 0 + s.accepted ≡ s.accepted = omega arith in
      let points : All (IsFilled p.format.extra_bytes s.accepted) s.columns =
        rw (extra_len, none_before) at filled in
      let accepted =
        validate_columns-IsFilled p.format.extra_bytes s.accepted 0 27 s.columns [] points
          (rw same rises) tt in
      (record { len = s.accepted; columns = s.columns }, rw (prepared, run, accepted) refl, points)
