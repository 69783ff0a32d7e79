-- ===== src/Reader/Decode/Parallel.antt =====
-- The reads of the chunks one after the other and in parallel batches.
use mathlib.Core.Path.{subst, fun_ext}
use copc_rust.Prelude.{
  ℕ, zero, suc, ◌+◌, ◌≡◌, ◌≤◌, refl, sym, ap, ◌∙◌, arith, List, [], ◌∷◌, ◌++◌, map, take, drop,
  length, length-drop, take-append-drop, Result, ok, ◌>>=◌, none, Option, Same, Alike, Alike-Same,
  >>=-Same, bind-Same, swap-Same, min, >>=-assoc, Same-sym,
}
use copc_rust.Core.Bounds.{Floats, Bounds}
use copc_rust.Core.Dimension.{ColumnSelection}
use copc_rust.Core.Columns.{Column, PointFormat}
use copc_rust.Core.Hierarchy.{Entry}
use copc_rust.Reader.Append.{ExtendedPointLayout, selected_column_builders}
use copc_rust.Reader.Decode.{
  Decoding, Decoded, merge_columns, read_chunk_bytes, decode_into, read_chunks, read_batch,
  batches_of, decode_chunk, merge_decoded, read_batches, max_initial_column_reserve_points,
}
use copc_rust.Reader.Decode.Merged.{Joins-merge, Follows, decode_into-Follows}
use copc_rust.Reader.Decode.Fresh.{Fresh, Fresh-Joins, Joins-Fresh}

abbrev pub join : List (List Entry) → List Entry
join [] = []
join (batch ∷ batches) = batch ++ join batches

pub join-batches_of :
    (fuel n : ℕ) (chunks : List Entry)
    → length chunks ≤ fuel
    → join (batches_of fuel (suc n) chunks) ≡ chunks
unfolding batches_of
join-batches_of fuel n [] h = refl
join-batches_of zero n (entry ∷ chunks) h = absurd (omega arith)
join-batches_of (suc fuel) n (entry ∷ chunks) h =
    ap (λ t. entry ∷ (take n chunks ++ t))
      (join-batches_of fuel n (drop n chunks) (omega (arith, length-drop n chunks)))
    ∙ ap (λ t. entry ∷ t) (take-append-drop n chunks)

-- The same columns and the same number of points; the checks for cancellation may differ.
abbrev pub Agrees : Decoded → Decoded → Type 0
Agrees s t = (s.columns ≡ t.columns) × (s.accepted ≡ t.accepted)

module _ (d : Decoding) ⦃f : Floats ℕ⦄ (layout : ExtendedPointLayout)
    (bounds : Option (Bounds ℕ)) where
  pub read_chunks-append :
      (file : List ℕ) (xs ys : List Entry) (s : Decoded)
      → read_chunks d layout bounds none file (xs ++ ys) s
        ≡ (read_chunks d layout bounds none file xs s >>= read_chunks d layout bounds none file ys)
  unfolding read_chunks
  read_chunks-append file [] ys s = refl
  read_chunks-append file (entry ∷ xs) ys s = sym (
      >>=-assoc (read_chunk_bytes file entry) _ _
      ∙ ap (λ k. read_chunk_bytes file entry >>= k)
          (fun_ext λ c.
            >>=-assoc (decode_into d layout bounds none c.0 c.1 s.columns (s.polls + 1)) _ _
            ∙ ap (λ k. decode_into d layout bounds none c.0 c.1 s.columns (s.polls + 1) >>= k)
                (fun_ext λ chunk. sym (read_chunks-append file xs ys _))))

module _ (d : Decoding) ⦃f : Floats ℕ⦄ (layout : ExtendedPointLayout) (bounds : Option (Bounds ℕ))
    (format : PointFormat) (selection : ColumnSelection) (es : List Column)
    (fresh : (capacity : ℕ)
      → capacity ≤ max_initial_column_reserve_points
      → selected_column_builders format selection capacity ≡ ok es) where
  -- A chunk decoded into the columns so far, and a chunk decoded on its own and merged.
  chunk-Same :
      (bytes : List ℕ) (n : ℕ) (columns : List Column) (polls : ℕ)
      → Fresh es columns
      → Alike
          (Follows columns)
          (decode_chunk d layout bounds none format selection (bytes, n))
          (decode_into d layout bounds none bytes n columns polls)
  unfolding decode_chunk
  chunk-Same bytes n columns polls h =
      rw (fresh (min n max_initial_column_reserve_points) (omega arith)) (
        decode_into-Follows d layout bounds columns bytes n es columns 0 polls
          (Fresh-Joins es columns h))

  -- States that agree, with columns of the types of the builders.
  abbrev Ready : Decoded → Decoded → Type 0
  Ready s t = Agrees s t × Fresh es s.columns

  -- What the parallel code does with a batch.
  unfoldable run_batch : List ℕ → List Entry → Decoded → Result Decoded
  run_batch file batch t = read_batch file batch >>= λ chunks.
      merge_decoded d layout bounds none format selection
        (map (decode_chunk d layout bounds none format selection) chunks) t

  -- The reads of a batch come before its decoding.
  run_batch-cons :
      (file : List ℕ) (entry : Entry) (batch : List Entry) (t : Decoded)
      → run_batch file (entry ∷ batch) t ≡ (
          read_chunk_bytes file entry >>= λ c. read_batch file batch >>= λ rest.
          decode_chunk d layout bounds none format selection c >>= λ chunk.
          merge_columns t.columns chunk.columns >>= λ columns.
          merge_decoded d layout bounds none format selection
            (map (decode_chunk d layout bounds none format selection) rest)
            (record t { columns = columns; accepted = t.accepted + chunk.accepted }))
  unfolding run_batch read_batch merge_decoded
  run_batch-cons file entry batch t =
      >>=-assoc (read_chunk_bytes file entry) _ _
      ∙ ap (λ k. read_chunk_bytes file entry >>= k)
          (fun_ext λ c. >>=-assoc (read_batch file batch) _ _)

  batch-Same :
      (file : List ℕ) (batch : List Entry) (s t : Decoded)
      → Ready s t
      → Same Ready (read_chunks d layout bounds none file batch s) (run_batch file batch t)
  unfolding read_chunks run_batch read_batch merge_decoded
  batch-Same file [] s t h = h
  batch-Same file (entry ∷ batch) s t ((e, k), h) =
      subst (Same Ready (read_chunks d layout bounds none file (entry ∷ batch) s))
        (sym (run_batch-cons file entry batch t))
        (bind-Same Ready (read_chunk_bytes file entry) _ _ λ c _.
          swap-Same Ready _ (decode_chunk d layout bounds none format selection c)
            (read_batch file batch) _
            (>>=-Same (λ r chunk. Follows s.columns chunk r) Ready
              (decode_into d layout bounds none c.0 c.1 s.columns (s.polls + 1))
              (decode_chunk d layout bounds none format selection c) _ _
              (Same-sym (Follows s.columns) _ _
                (Alike-Same (Follows s.columns) _ _ (chunk-Same c.0 c.1 s.columns (s.polls + 1) h)))
              λ r chunk (j, a).
                let merged : merge_columns t.columns chunk.columns ≡ ok r.columns =
                  rw (← e) (Joins-merge s.columns chunk.columns r.columns j) in
                rw merged (
                  unfold run_batch in
                  batch-Same file batch _ _ (
                    (refl, omega (arith, k, a)),
                    Joins-Fresh es s.columns chunk.columns r.columns h j,
                  ))))

  -- Batches of any sizes.
  pub batches-Same :
      (file : List ℕ) (batches : List (List Entry)) (s t : Decoded)
      → Ready s t
      → Same Ready
          (read_chunks d layout bounds none file (join batches) s)
          (read_batches d layout bounds none format selection file batches t)
  unfolding read_batches read_chunks run_batch
  batches-Same file [] s t h = h
  batches-Same file (batch ∷ batches) s t h =
      rw (read_chunks-append d layout bounds file batch (join batches) s) (
        subst
          (Same Ready (
            read_chunks d layout bounds none file batch s
            >>= read_chunks d layout bounds none file (join batches)))
          (>>=-assoc (read_batch file batch) _ _)
          (>>=-Same Ready Ready _ _ _ _
            (batch-Same file batch s (record t { polls = t.polls + 1 }) h)
            λ s' t' h'. batches-Same file batches s' t' h'))
