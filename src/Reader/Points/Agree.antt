-- ===== src/Reader/Points/Agree.antt =====
-- The serial and the parallel read of the columns.
use mathlib.Core.Path.{subst}
use copc_rust.Prelude.{
  ℕ, suc, ◌*◌, ◌-◌, ◌^◌, ◌≡◌, ◌<◌, ◌≤◌, refl, ap, ◌∙◌, arith, List, length, none, some, max, ok,
  ◌>>=◌, Same, >>=-Same, bind-Same, reject_if, ok_or, las, ◌%◌, Ensures, bind-Ensures, Ensures-ok,
  >>=-eq-ok, invalid_data, ltb, not, leb, unsupported, ◌&&◌,
}
use copc_rust.Core.Bounds.{Floats}
use copc_rust.Core.Dimension.{ColumnSelection}
use copc_rust.Core.Columns.{PointFormat, validate}
use copc_rust.Core.Hierarchy.{Entry}
use copc_rust.Reader.Append.{selected_column_builders, for_format}
use copc_rust.Reader.Query.{
  PointQuery, QueryFloats, BoundsSelection, total_candidate_points, select_point_chunks_from,
}
use copc_rust.Reader.Decode.{
  Decoding, Decoded, max_initial_column_reserve_points, batches_of, validated_record_size,
  read_chunks, read_batches,
}
use copc_rust.Reader.Decode.Fresh.{Fresh, selected_column_builders-Fresh}
use copc_rust.Reader.Decode.Parallel.{batches-Same, join-batches_of, join, Agrees}
use copc_rust.Reader.Points.{
  CopcFile, Prepared, point_format_for, capacity_for, prepare, set_up, finish, no_points,
  read_columns_serial, read_columns_parallel,
}

pub capacity_for-le :
    (bounds : BoundsSelection) (chunks : List Entry) (capacity : ℕ)
    → capacity_for bounds chunks ≡ ok capacity
    → capacity ≤ max_initial_column_reserve_points
unfolding capacity_for
capacity_for-le none chunks capacity e =
    let (total, _, h) = >>=-eq-ok (total_candidate_points chunks) _ e in ground arith
capacity_for-le (some bounds) chunks capacity e = ground arith

pub extra_bytes-le :
    (d : Decoding) (file : CopcFile)
    → Ensures
        (λ format. format.extra_bytes ≤ file.point_data_record_length)
        (point_format_for d file)
unfolding point_format_for
extra_bytes-le d file =
    let Small = λ (format : PointFormat). format.extra_bytes ≤ file.point_data_record_length in
    bind-Ensures Small
      (reject_if
        (not (
          leb 6 (file.point_data_record_format % 64) && leb (file.point_data_record_format % 64) 8))
        unsupported)
      _
      λ _ _.
        bind-Ensures Small (ok_or (d.new_format (file.point_data_record_format % 64)) las) _
          λ base _.
            bind-Ensures Small
              (reject_if (ltb file.point_data_record_length (d.format_len base)) invalid_data) _
              λ _ _.
                let below : file.point_data_record_length - d.format_len base
                    ≤ file.point_data_record_length =
                  omega arith in
                below

finish-Same : (s t : Decoded) → Agrees s t → Same (λ a b. a ≡ b) (finish s) (finish t)
unfolding finish
finish-Same s t (columns, accepted) =
    rw (columns, accepted)
      (bind-Same (λ a b. a ≡ b) (validate (record { len = t.accepted; columns = t.columns })) _ _
        λ _ _. refl)

module _ (selection : ColumnSelection) where
  -- Every reserve gives the builders that the read starts with.
  abbrev IsPrepared : Prepared → Type 0
  IsPrepared p =
      ((capacity : ℕ)
        → capacity ≤ max_initial_column_reserve_points
        → selected_column_builders p.format selection capacity ≡ ok p.columns)
      × Fresh p.columns p.columns

  module _ (d : Decoding) (q : QueryFloats) ⦃f : Floats ℕ⦄ (file : CopcFile) (query : PointQuery)
      (small : file.point_data_record_length < 2 ^ 16) where
    prepare-IsPrepared : Ensures IsPrepared (prepare d q file query selection)
    unfolding prepare set_up
    prepare-IsPrepared =
        bind-Ensures IsPrepared (select_point_chunks_from q file.entries file.copc_info query) _
          λ chunks _. bind-Ensures IsPrepared (point_format_for d file) _ λ format is_format.
            bind-Ensures IsPrepared (for_format format) _ λ layout _.
              bind-Ensures IsPrepared (validated_record_size d format) _ λ size _.
                bind-Ensures IsPrepared (capacity_for query.bounds chunks) _ λ capacity bound.
                  bind-Ensures IsPrepared (selected_column_builders format selection capacity) _
                    λ columns built.
                      let fits : format.extra_bytes ≤ file.point_data_record_length =
                        Ensures-ok
                          (λ (t : PointFormat). t.extra_bytes ≤ file.point_data_record_length)
                          (point_format_for d file) format (extra_bytes-le d file) is_format in
                      let (es, all, fresh) =
                        selected_column_builders-Fresh format selection (omega (arith, fits)) in
                      let found =
                        all capacity (capacity_for-le query.bounds chunks capacity bound) in
                      let same : es ≡ columns = cc (built, found) in
                      (λ n below. all n below ∙ ap ok same, subst (λ t. Fresh t t) same fresh)

    -- Without cancellation the serial and the parallel read of columns, with any number of threads,
    -- both return the same batch, or neither returns one.
    pub read_columns_parallel-Same :
        (bytes : List ℕ) (threads : ℕ)
        → Same
            (λ a b. a ≡ b)
            (read_columns_serial d q file bytes query selection none)
            (read_columns_parallel d q file bytes query selection none threads)
    unfolding read_columns_serial read_columns_parallel
    read_columns_parallel-Same bytes threads =
        bind-Same (λ a b. a ≡ b) (prepare d q file query selection) _ _
          λ p e.
            let (all, fresh) =
              Ensures-ok IsPrepared (prepare d q file query selection) p prepare-IsPrepared e in
            let size : max threads 1 * 2 ≡ suc (max threads 1 * 2 - 1) = omega arith in
            let batches = batches_of (length p.chunks) (max threads 1 * 2) p.chunks in
            let whole : join batches ≡ p.chunks =
              rw size (
                join-batches_of (length p.chunks) (max threads 1 * 2 - 1) p.chunks (omega arith)) in
            let Ready = λ (s t : Decoded). Agrees s t × Fresh p.columns s.columns in
            let parallel =
              read_batches d p.layout query.bounds none p.format selection bytes batches
                (no_points p.columns)
              >>= finish in
            subst
              (λ chunks.
                Same (λ a b. a ≡ b)
                  (read_chunks d p.layout query.bounds none bytes chunks (no_points p.columns)
                    >>= finish)
                  parallel)
              whole
              (>>=-Same Ready (λ a b. a ≡ b) _ _ _ _
                (batches-Same d p.layout query.bounds p.format selection p.columns all bytes batches
                  (no_points p.columns) (no_points p.columns) ((refl, refl), fresh))
                λ s t (agrees, _). finish-Same s t agrees)
