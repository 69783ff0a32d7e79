-- ===== src/Reader/Coalesced/Selection.antt =====
-- copc-reader/src/ranged.rs: lemmas on the chunks that `read_columns` selects, for their groups.
use copc_rust.Prelude.{
  ℕ, ◌≤◌, ◌≢◌, refl, arith, List, [], ◌∷◌, All, inl, inr, Ensures, bind-Ensures, Ensures-ok, Bool,
  true, false, Bool-cases, reject_if, invalid_data, if◌then◌else◌,
}
use copc_rust.Prelude.Order.{Ordering-cases}
use Prim.Native.Nat.Ordering.{gt}
use Prim.Native.Nat.{compare}
use copc_rust.Core.Bounds.{Floats}
use copc_rust.Core.Hierarchy.{Entry, has_point_data}
use copc_rust.Core.Info.{CopcInfo}
use copc_rust.Prelude.Int.{ℤ, pos, leb_ℤ, ltb_ℤ}
use copc_rust.Reader.Query.{
  PointQuery, QueryFloats, BoundsSelection, cmp_chunk, select_entries, select_point_chunks_from,
  in_levels, meets, level_range, validate_query,
}
use copc_rust.Reader.Query.Selected.{IsSorted, sort_chunks-All}
use copc_rust.Reader.Coalesce.Groups.{OffsetsRise}

-- What all entries satisfy, the selected ones do.
module _ (q : QueryFloats) ⦃f : Floats ℕ⦄ (info : CopcInfo) (levels : ℤ × ℤ)
    (bounds : BoundsSelection) (P : Entry → Type 0) where
  taken :
      (e : Entry) (met : Bool) (chunks : List Entry)
      → P e
      → All P chunks
      → All P (if met then e ∷ chunks else chunks)
  taken e true chunks h hs = (h, hs)
  taken e false chunks h hs = hs

  select_entries-All :
      (entries : List Entry)
      → All P entries
      → Ensures (All P) (select_entries q entries info levels bounds)
  unfolding select_entries has_point_data
  select_entries-All [] h = tt
  select_entries-All (e ∷ entries) (h, hs) =
      let rest = select_entries-All entries hs in
      elim (Bool-cases (ltb_ℤ (pos 0) e.point_count)) [
        | inr none_there ↦ rw none_there rest
        | inl points ↦ rw points (
            bind-Ensures (All P) (reject_if (leb_ℤ e.byte_size (pos 0)) invalid_data) _ λ _ sized.
              elim (Bool-cases (in_levels q levels e.key.level)) [
                | inr outside ↦ rw outside rest
                | inl inside ↦ rw inside (
                    bind-Ensures (All P) (meets q info bounds e.key) _ λ met is_met.
                      bind-Ensures (All P) (select_entries q entries info levels bounds) _
                        λ chunks run. taken e met chunks h (
                          Ensures-ok (All P) (select_entries q entries info levels bounds) chunks
                            rest run))
              ])
      ]

module _ (q : QueryFloats) ⦃f : Floats ℕ⦄ where
  pub select_point_chunks_from-All :
      (P : Entry → Type 0) (entries : List Entry) (info : CopcInfo) (query : PointQuery)
      → All P entries
      → Ensures (All P) (select_point_chunks_from q entries info query)
  unfolding select_point_chunks_from
  select_point_chunks_from-All P entries info query h =
      bind-Ensures (All P) (validate_query query) _ λ _ valid.
        bind-Ensures (All P) (level_range q query.lod info) _ λ levels in_range.
          bind-Ensures (All P) (select_entries q entries info levels query.bounds) _ λ chunks run.
            sort_chunks-All P chunks (
              Ensures-ok (All P) (select_entries q entries info levels query.bounds) chunks
                (select_entries-All q info levels query.bounds P entries h) run)

ordered_offsets : (a b : Entry) → cmp_chunk a b ≢ gt → a.offset ≤ b.offset
ordered_offsets a b h = elim (Ordering-cases (compare a.offset b.offset)) [
  | inl c ↦ ground arith
  | inr (inl c) ↦ ground arith
  | inr (inr c) ↦ absurd (h (rw c refl))
]

IsSorted-OffsetsRise :
    (low : ℕ) (a : Entry) (chunks : List Entry)
    → low ≤ a.offset
    → IsSorted (a ∷ chunks)
    → OffsetsRise low (a ∷ chunks)
IsSorted-OffsetsRise low a [] h s = (h, tt)
IsSorted-OffsetsRise low a (b ∷ chunks) h (c, s) =
    (h, IsSorted-OffsetsRise a.offset b chunks (ordered_offsets a b c) s)

pub sorted_offsets : (chunks : List Entry) → IsSorted chunks → OffsetsRise 0 chunks
sorted_offsets [] s = tt
sorted_offsets (a ∷ chunks) s = IsSorted-OffsetsRise 0 a chunks (omega arith) s
