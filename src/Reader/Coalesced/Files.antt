-- ===== src/Reader/Coalesced/Files.antt =====
-- copc-reader/src/ranged.rs: lemmas on `read_columns` over a source that reads a file.
use mathlib.Core.Path.{subst}
use copc_rust.Prelude.{
  ap, Option, Result, ok, err, fault, ok_or, ℕ, ◌≡◌, refl, List, [], ◌∷◌, ◌>>=◌, invalid_data,
}
use copc_rust.Core.Bounds.{Floats}
use copc_rust.Core.Hierarchy.{Entry}
use copc_rust.Core.Info.{CopcInfo}
use copc_rust.Reader.Decode.{Decoding}
use copc_rust.Reader.Query.{PointQuery, QueryFloats, select_point_chunks_from, validate_query}
use copc_rust.Reader.Coalesce.{read_groups, range_coalesce_gap_bytes, max_coalesced_range_bytes}
use copc_rust.Reader.Coalesced.{fetch_groups}
use copc_rust.Prelude.States.{M, continue, continue-eq-ok}
use copc_rust.Core.Bounds.{Bounds}
use copc_rust.Reader.Append.{ExtendedPointLayout}
use copc_rust.Reader.Decode.{Decoded}
use copc_rust.Reader.Hierarchy.{CopcDataRanges, read_exact_at}
use copc_rust.Reader.Loading.{hierarchy_walk}
use copc_rust.Reader.Ranged
use copc_rust.Reader.Ranged.{RangeReader, Source, hierarchy_for, ensure_rounds}
use copc_rust.Reader.Coalesce
use copc_rust.Reader.Coalesce.{ChunkGroup, coalesce_chunks, read_cuts, checked_sub_u64}

-- What a step returns, and what it is then put into.
pub continue-result :
    {S A B : Type 0} (r : Result A × S) (g : A → M S B) (run : Result A) (k : A → Result B)
    → r.0 ≡ run
    → ((a : A) (t : S) → (g a t).0 ≡ k a)
    → (continue r g).0 ≡ (run >>= k)
continue-result (ok a, t) g run k h n = subst (λ x. (g a t).0 ≡ (x >>= k)) h (n a t)
continue-result (err e, t) g run k h n = subst (λ x. err e ≡ (x >>= k)) h refl
continue-result (fault w, t) g run k h n = subst (λ x. fault w ≡ (x >>= k)) h refl

-- A source that reads a file.
abbrev pub file_source : List ℕ → Source
file_source bytes n start len = read_exact_at bytes start len

fetch_range-file :
    (bytes : List ℕ) (start end : ℕ) (r : RangeReader)
    → (Ranged.fetch_range (file_source bytes) start end r).0 ≡ Coalesce.fetch_range bytes start end
unfolding Ranged.fetch_range Coalesce.fetch_range
fetch_range-file bytes start end r =
    continue-result (ok_or (checked_sub_u64 end start) invalid_data, r) _
      (ok_or (checked_sub_u64 end start) invalid_data) _ refl λ len t. refl

module _ (d : Decoding) ⦃f : Floats ℕ⦄ (layout : ExtendedPointLayout) (bounds : Option (Bounds ℕ))
    (bytes : List ℕ) where
  pub fetch_groups-file :
      (groups : List ChunkGroup) (s : Decoded) (r : RangeReader)
      → (fetch_groups d layout bounds (file_source bytes) groups s r).0
        ≡ read_groups d layout bounds bytes groups s
  unfolding fetch_groups read_groups
  fetch_groups-file [] s r = refl
  fetch_groups-file (group ∷ groups) s r =
      continue-result (Ranged.fetch_range (file_source bytes) group.start group.end r) _
        (Coalesce.fetch_range bytes group.start group.end) _
        (fetch_range-file bytes group.start group.end r)
        λ fetched t.
          continue-result (read_cuts d layout bounds fetched group.start group.entries s, t) _
            (read_cuts d layout bounds fetched group.start group.entries s) _ refl
            λ s' u. fetch_groups-file groups s' u

module _ (source : Source) (file_len number_of_points : ℕ) (ranges : CopcDataRanges)
    (q : QueryFloats) ⦃f : Floats ℕ⦄ (info : CopcInfo) (query : PointQuery) where
  pub hierarchy_for_inv :
      (fuel : ℕ) (r t : RangeReader) (chunks : List Entry)
      → hierarchy_for source file_len number_of_points ranges q info query fuel r ≡ (ok chunks, t)
      → select_point_chunks_from q (hierarchy_walk t.hierarchy) info query ≡ ok chunks
  unfolding hierarchy_for
  hierarchy_for_inv fuel r t chunks h =
      let (_, r', _, h1) = continue-eq-ok (validate_query query, r) _ chunks t h in
      let (_, u, _, h2) =
        continue-eq-ok (ensure_rounds source file_len number_of_points ranges q info query fuel r')
          _ chunks t h1 in
      let found : select_point_chunks_from q (hierarchy_walk u.hierarchy) info query ≡ ok chunks =
        ap (λ s. s.0) h2 in
      let same : u ≡ t = ap (λ s. s.1) h2 in
      subst (λ s. select_point_chunks_from q (hierarchy_walk s.hierarchy) info query ≡ ok chunks)
        same found
