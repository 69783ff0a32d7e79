-- ===== src/Reader/Coalesced/Agree.antt =====
-- copc-reader/src/ranged.rs: `CopcRangeReader::read_columns` beside the serial read of a file.
use mathlib.Core.Path.{subst}
use copc_rust.Prelude.{
  sym, ok, ℕ, ◌^◌, ◌<◌, ◌≡◌, refl, List, length, ◌>>=◌, Same, bind-Same, >>=-Same, Same-refl, none,
  Ensures, bind-Ensures, Ensures-ok,
}
use copc_rust.Core.Dimension.{ColumnSelection}
use copc_rust.Core.Bounds.{Floats}
use copc_rust.Core.Hierarchy.{Entry}
use copc_rust.Core.Columns.{LasColumnBatch}
use copc_rust.Reader.Decode.{Decoding, read_chunks, validated_record_size}
use copc_rust.Reader.Append.{for_format, selected_column_builders}
use copc_rust.Reader.Query.{PointQuery, QueryFloats, select_point_chunks_from}
use copc_rust.Reader.Query.Selected.{select_point_chunks_from-Parts}
use copc_rust.Reader.Points.{
  CopcFile, Prepared, prepare, finish, no_points, read_columns_serial, point_format_for,
  capacity_for,
}
use copc_rust.Reader.Coalesce.{read_groups, range_coalesce_gap_bytes, max_coalesced_range_bytes}
use copc_rust.Reader.Coalesce.Groups.{end_of, OffsetsRise, EndsFit, coalesce_chunks-Grouped}
use copc_rust.Reader.Coalesce.Agree.{read_groups-Same}
use copc_rust.Reader.Coalesced.{read_columns, fetch_groups}
use copc_rust.Prelude.States.{M, continue}
use copc_rust.Reader.Hierarchy.{CopcDataRanges, Hierarchy}
use copc_rust.Reader.Loading.{hierarchy_walk}
use copc_rust.Reader.Ranged.{RangeReader, hierarchy_for}
use copc_rust.Reader.Coalesce.{coalesce_chunks}
use copc_rust.Reader.Points.{set_up}
use copc_rust.Reader.Coalesced.Selection.{select_point_chunks_from-All, sorted_offsets}
use copc_rust.Reader.Coalesced.Files.{
  continue-result, file_source, fetch_groups-file, hierarchy_for_inv,
}

module _ (d : Decoding) (file : CopcFile) (query : PointQuery) (selection : ColumnSelection) where
  abbrev HasChunks : List Entry → Prepared → Type 0
  HasChunks chunks p = p.chunks ≡ chunks

  set_up-HasChunks :
      (chunks : List Entry) → Ensures (HasChunks chunks) (set_up d file query selection chunks)
  unfolding set_up
  set_up-HasChunks chunks =
      bind-Ensures (HasChunks chunks) (point_format_for d file) _ λ format is_format.
        bind-Ensures (HasChunks chunks) (for_format format) _ λ layout is_layout.
          bind-Ensures (HasChunks chunks) (validated_record_size d format) _ λ size is_size.
            bind-Ensures (HasChunks chunks) (capacity_for query.bounds chunks) _
              λ capacity is_capacity.
                bind-Ensures (HasChunks chunks) (selected_column_builders format selection capacity)
                  _ λ columns built. refl

-- `file` with the entries of a hierarchy.
abbrev pub over : CopcFile → Hierarchy → CopcFile
over file hierarchy = record file { entries = hierarchy_walk hierarchy }

module _ (d : Decoding) (q : QueryFloats) ⦃f : Floats ℕ⦄ (file : CopcFile) (query : PointQuery)
    (selection : ColumnSelection) (bytes : List ℕ) where
  -- The reads of the chunks of a set-up, one by one and by groups.
  chunks_and_groups :
      (p : Prepared)
      → length bytes < 2 ^ 64
      → OffsetsRise 0 p.chunks
      → EndsFit p.chunks
      → Same
          (λ a b. a ≡ b)
          (read_chunks d p.layout query.bounds none bytes p.chunks (no_points p.columns) >>= finish)
          (coalesce_chunks p.chunks range_coalesce_gap_bytes max_coalesced_range_bytes >>= λ groups.
            read_groups d p.layout query.bounds bytes groups (no_points p.columns) >>= finish)
  chunks_and_groups p fits rise ends =
      let (groups, run, whole, all) =
        coalesce_chunks-Grouped p.chunks range_coalesce_gap_bytes max_coalesced_range_bytes rise
          ends in
      rw run (
        subst
          (λ chunks.
            Same (λ a b. a ≡ b)
              (read_chunks d p.layout query.bounds none bytes chunks (no_points p.columns)
                >>= finish)
              (read_groups d p.layout query.bounds bytes groups (no_points p.columns) >>= finish))
          whole
          (>>=-Same (λ a b. a ≡ b) (λ a b. a ≡ b) _ _ _ _
            (read_groups-Same d p.layout query.bounds bytes fits max_coalesced_range_bytes groups
              (no_points p.columns) all)
            λ s t same.
              subst (λ u. Same (λ a b. a ≡ b) (finish s) (finish u)) same (Same-refl (finish s))))

  module _ (file_len number_of_points : ℕ) (ranges : CopcDataRanges) where
    abbrev fetched : Prepared → M RangeReader LasColumnBatch
    fetched p t =
        continue (coalesce_chunks p.chunks range_coalesce_gap_bytes max_coalesced_range_bytes, t)
          λ groups u.
            continue
              (fetch_groups d p.layout query.bounds (file_source bytes) groups (no_points p.columns)
                u)
              λ s v. (finish s, v)

    -- The steps behind the loading, as runs that leave out the state.
    fetched_lem :
        (p : Prepared) (t : RangeReader)
        → (fetched p t).0 ≡ (
            coalesce_chunks p.chunks range_coalesce_gap_bytes max_coalesced_range_bytes
            >>= λ groups.
                read_groups d p.layout query.bounds bytes groups (no_points p.columns) >>= finish)
    fetched_lem p t =
        continue-result
          (coalesce_chunks p.chunks range_coalesce_gap_bytes max_coalesced_range_bytes, t) _
          (coalesce_chunks p.chunks range_coalesce_gap_bytes max_coalesced_range_bytes) _ refl
          λ groups u.
            continue-result
              (fetch_groups d p.layout query.bounds (file_source bytes) groups (no_points p.columns)
                u)
              _ (read_groups d p.layout query.bounds bytes groups (no_points p.columns)) _
              (fetch_groups-file d p.layout query.bounds bytes groups (no_points p.columns) u)
              λ s v. refl

    -- If the reader over byte ranges loads the hierarchy for a query, from a file whose length is a
    -- u64, and the ends of the entries loaded by then are u64 values, then its read of columns, which
    -- fetches neighbouring chunks together, and the serial read of columns of the file over these
    -- entries, without cancellation, both return the same batch, or neither returns one.
    pub read_columns-Same :
        (fuel : ℕ) (r t : RangeReader) (chunks : List Entry)
        → length bytes < 2 ^ 64
        → hierarchy_for
            (file_source bytes)
            file_len
            number_of_points
            ranges
            q
            file.copc_info
            query
            fuel
            r
          ≡ (ok chunks, t)
        → EndsFit (hierarchy_walk t.hierarchy)
        → Same
            (λ a b. a ≡ b)
            (read_columns_serial d q (over file t.hierarchy) bytes query selection none)
            ((read_columns
              (file_source bytes)
              file_len
              number_of_points
              ranges
              d
              q
              file
              query
              selection
              fuel
              r).0)
    unfolding read_columns_serial read_columns prepare set_up point_format_for
    read_columns-Same fuel r t chunks fits loaded fit =
        let selected =
          hierarchy_for_inv (file_source bytes) file_len number_of_points ranges q file.copc_info
            query fuel r t chunks loaded in
        let (levels, _, sorted, _) =
          select_point_chunks_from-Parts q (hierarchy_walk t.hierarchy) file.copc_info query chunks
            selected in
        let ends =
          Ensures-ok EndsFit
            (select_point_chunks_from q (hierarchy_walk t.hierarchy) file.copc_info query) chunks
            (select_point_chunks_from-All q (λ e. end_of e < 2 ^ 64) (hierarchy_walk t.hierarchy)
              file.copc_info query fit)
            selected in
        let set = set_up d file query selection chunks in
        let behind = continue-result (set, t) fetched set _ refl fetched_lem in
        rw (loaded, selected)
          (subst
            (λ x.
              Same (λ a b. a ≡ b)
                (set >>= λ p.
                  read_chunks d p.layout query.bounds none bytes p.chunks (no_points p.columns)
                  >>= finish)
                x)
            (sym behind)
            (bind-Same (λ a b. a ≡ b) set _ _
              λ p e.
                let same = sym (
                  Ensures-ok (HasChunks d file query selection chunks) set p
                    (set_up-HasChunks d file query selection chunks) e) in
                chunks_and_groups p fits (subst (OffsetsRise 0) same (sorted_offsets chunks sorted))
                  (subst EndsFit same ends)))
