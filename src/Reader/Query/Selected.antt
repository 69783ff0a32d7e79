-- ===== src/Reader/Query/Selected.antt =====
-- The chunks that a query selects.
use mathlib.Core.Path.{subst}
use mathlib.Core.List.{Perm, perm_middle, perm-append_right_iff}
use mathlib.Core.List.Perm
use copc_rust.Prelude.{
  ℕ, ◌+◌, ◌<◌, ◌≤◌, ◌≡◌, ◌≢◌, refl, arith, Bool, true, false, List, [], ◌∷◌, ◌++◌, All, Result, ok,
  reject_if, reject_if-ok, invalid_data, Bool-cases, inl, inr, Ensures, bind-Ensures, Ensures-ok,
  if◌then◌else◌, Ensures-map, >>=-eq-ok,
}
use copc_rust.Prelude.Int.{ℤ, pos, pos_part, neg_part, leb_ℤ, ltb_ℤ, negsuc}
use copc_rust.Prelude.Order.{reverse, Ordering-cases, compare-reverse, and_then}
use Prim.Native.Nat.Ordering.{lt, eq, gt}
use Prim.Native.Nat.{compare, Ordering}
use copc_rust.Core.Bounds.{Floats}
use copc_rust.Core.Key.{cmp_key, cmp_key-reverse}
use copc_rust.Core.Hierarchy.{Entry, has_point_data}
use copc_rust.Core.Info.{CopcInfo}
use copc_rust.Reader.Query.Overlaps.{Meets, meets-Meets}
use copc_rust.Reader.Query.{
  PointQuery, QueryFloats, BoundsSelection, cmp_chunk, insert_chunk, sort_chunks, in_levels, meets,
  select_entries, select_point_chunks_from, level_range, validate_query,
}

-- By offset, and by key at the same offset.
abbrev pub IsSorted : List Entry → Type 0
IsSorted [] = Unit {0}
IsSorted (a ∷ []) = Unit {0}
IsSorted (a ∷ b ∷ chunks) = (cmp_chunk a b ≢ gt) × IsSorted (b ∷ chunks)

cmp_chunk-reverse : (a b : Entry) → cmp_chunk b a ≡ reverse (cmp_chunk a b)
cmp_chunk-reverse a b =
    rw (compare-reverse a.offset b.offset, cmp_key-reverse a.key b.key)
      (reversed (compare a.offset b.offset) (cmp_key a.key b.key))
  where
    reversed : (o k : Ordering) → and_then (reverse o) (reverse k) ≡ reverse (and_then o k)
    reversed lt k = refl
    reversed eq k = refl
    reversed gt k = refl

insert_chunk-Perm : (e : Entry) (chunks : List Entry) → Perm (insert_chunk e chunks) (e ∷ chunks)
unfolding insert_chunk
insert_chunk-Perm e [] = Perm.refl (e ∷ [])
insert_chunk-Perm e (o ∷ chunks) = elim (Ordering-cases (cmp_chunk e o)) [
  | inl c ↦ rw (c, insert_chunk) (Perm.refl (e ∷ o ∷ chunks))
  | inr (inl c) ↦ rw (c, insert_chunk) (Perm.refl (e ∷ o ∷ chunks))
  | inr (inr c) ↦
      rw (c, insert_chunk)
        (Perm.trans (Perm.cons o (insert_chunk-Perm e chunks)) (Perm.swap e o chunks))
]

sort_chunks-Perm : (chunks : List Entry) → Perm (sort_chunks chunks) chunks
unfolding sort_chunks
sort_chunks-Perm [] = Perm.refl []
sort_chunks-Perm (e ∷ chunks) =
    Perm.trans (insert_chunk-Perm e (sort_chunks chunks)) (Perm.cons e (sort_chunks-Perm chunks))

-- Behind `a` an insertion puts the new chunk or leaves the next one.
insert_behind :
    (a e : Entry) (chunks : List Entry)
    → cmp_chunk a e ≢ gt
    → IsSorted (a ∷ chunks)
    → IsSorted (a ∷ insert_chunk e chunks)
unfolding insert_chunk
insert_behind a e [] h s = (h, tt)
insert_behind a e (o ∷ chunks) h (k, s) = elim (Ordering-cases (cmp_chunk e o)) [
  | inl c ↦ rw (c, insert_chunk) (h, ((λ g. cc), s))
  | inr (inl c) ↦ rw (c, insert_chunk) (h, ((λ g. cc), s))
  | inr (inr c) ↦
      let below : cmp_chunk o e ≢ gt = λ g. cc (cmp_chunk-reverse e o) in
      rw (c, insert_chunk) (k, insert_behind o e chunks below s)
]

insert_chunk-IsSorted :
    (e : Entry) (chunks : List Entry) → IsSorted chunks → IsSorted (insert_chunk e chunks)
unfolding insert_chunk
insert_chunk-IsSorted e [] s = tt
insert_chunk-IsSorted e (o ∷ chunks) s = elim (Ordering-cases (cmp_chunk e o)) [
  | inl c ↦ rw (c, insert_chunk) ((λ g. cc), s)
  | inr (inl c) ↦ rw (c, insert_chunk) ((λ g. cc), s)
  | inr (inr c) ↦
      let below : cmp_chunk o e ≢ gt = λ g. cc (cmp_chunk-reverse e o) in
      rw (c, insert_chunk) (insert_behind o e chunks below s)
]

sort_chunks-IsSorted : (chunks : List Entry) → IsSorted (sort_chunks chunks)
unfolding sort_chunks
sort_chunks-IsSorted [] = tt
sort_chunks-IsSorted (e ∷ chunks) =
    insert_chunk-IsSorted e (sort_chunks chunks) (sort_chunks-IsSorted chunks)

insert_chunk-All :
    (P : Entry → Type 0) (e : Entry) (chunks : List Entry)
    → P e
    → All P chunks
    → All P (insert_chunk e chunks)
unfolding insert_chunk
insert_chunk-All P e [] p h = (p, tt)
insert_chunk-All P e (o ∷ chunks) p (k, h) = elim (Ordering-cases (cmp_chunk e o)) [
  | inl c ↦ rw (c, insert_chunk) (p, (k, h))
  | inr (inl c) ↦ rw (c, insert_chunk) (p, (k, h))
  | inr (inr c) ↦ rw (c, insert_chunk) (k, insert_chunk-All P e chunks p h)
]

pub sort_chunks-All :
    (P : Entry → Type 0) (chunks : List Entry) → All P chunks → All P (sort_chunks chunks)
unfolding sort_chunks
sort_chunks-All P [] h = tt
sort_chunks-All P (e ∷ chunks) (p, h) =
    insert_chunk-All P e (sort_chunks chunks) p (sort_chunks-All P chunks h)

no_points : (a : ℤ) → ltb_ℤ (pos 0) a ≡ false → ¬ (0 < pos_part a)
no_points (pos n) h k = absurd (ground arith)
no_points (negsuc n) h k = absurd (omega arith)

some_points : (a : ℤ) → ltb_ℤ (pos 0) a ≡ true → 0 < pos_part a
some_points (pos n) h = ground arith
some_points (negsuc n) h = ground arith

some_bytes : (a : ℤ) → leb_ℤ a (pos 0) ≡ false → 0 < pos_part a
some_bytes (pos n) h = ground arith
some_bytes (negsuc n) h = ground arith

module _ (q : QueryFloats) ⦃f : Floats ℕ⦄ (info : CopcInfo) (levels : ℤ × ℤ)
    (bounds : BoundsSelection) where
  -- Points, at a level of the query, in a voxel that meets its bounds.
  abbrev pub IsSelected : Entry → Type 0
  IsSelected e =
      (0 < pos_part e.point_count)
      × (pos_part levels.0 + neg_part e.key.level ≤ pos_part e.key.level + neg_part levels.0)
      × (pos_part e.key.level + neg_part levels.1 < pos_part levels.1 + neg_part e.key.level)
      × Meets q info bounds e.key

  -- Points take up bytes.
  abbrev pub HasBytes : Entry → Type 0
  HasBytes e = 0 < pos_part e.point_count → 0 < pos_part e.byte_size

  -- The selected entries and the others, where all entries with points have bytes.
  abbrev pub Parts : List Entry → List Entry → Type 0
  Parts entries chunks =
      (others : List Entry) × Perm (chunks ++ others) entries
      × All IsSelected chunks
      × All (λ e. ¬ IsSelected e) others
      × All HasBytes entries

  skip-Parts :
      (e : Entry) (entries chunks : List Entry)
      → ¬ IsSelected e
      → HasBytes e
      → Parts entries chunks
      → Parts (e ∷ entries) chunks
  skip-Parts e entries chunks n b (others, same, selected, rest, sized) = (
    e ∷ others,
    Perm.trans (perm_middle chunks others) (Perm.cons e same),
    selected,
    (n, rest),
    (b, sized),
  )

  take-Parts :
      (e : Entry) (entries chunks : List Entry)
      → IsSelected e
      → HasBytes e
      → Parts entries chunks
      → Parts (e ∷ entries) (e ∷ chunks)
  take-Parts e entries chunks s b (others, same, selected, rest, sized) =
      (others, Perm.cons e same, (s, selected), rest, (b, sized))

  skip_all :
      (e : Entry) (entries : List Entry) (run : Result (List Entry))
      → ¬ IsSelected e
      → HasBytes e
      → Ensures (Parts entries) run
      → Ensures (Parts (e ∷ entries)) run
  skip_all e entries run n b h =
      Ensures-map (Parts entries) (Parts (e ∷ entries)) run h
        λ chunks. skip-Parts e entries chunks n b

  met-Parts :
      (e : Entry) (entries chunks : List Entry) (met : Bool)
      → (met ≡ true → IsSelected e)
      → (met ≡ false → ¬ IsSelected e)
      → HasBytes e
      → Parts entries chunks
      → Parts (e ∷ entries) (if met then e ∷ chunks else chunks)
  met-Parts e entries chunks true s n b p = take-Parts e entries chunks (s refl) b p
  met-Parts e entries chunks false s n b p = skip-Parts e entries chunks (n refl) b p

  select_entries-Parts :
      (entries : List Entry) → Ensures (Parts entries) (select_entries q entries info levels bounds)
  unfolding select_entries has_point_data
  select_entries-Parts [] = ([], Perm.refl [], tt, tt, tt)
  select_entries-Parts (e ∷ entries) = elim (Bool-cases (ltb_ℤ (pos 0) e.point_count)) [
    | inr none_there ↦ rw none_there (
        skip_all e entries (select_entries q entries info levels bounds)
          (λ s. no_points e.point_count none_there s.0)
          (λ p. absurd (no_points e.point_count none_there p)) (select_entries-Parts entries))
    | inl points ↦ rw points (
        bind-Ensures (Parts (e ∷ entries)) (reject_if (leb_ℤ e.byte_size (pos 0)) invalid_data) _
          λ _ sized.
            let bytes = some_bytes e.byte_size (reject_if-ok _ _ sized) in
            elim (Bool-cases (in_levels q levels e.key.level)) [
              | inr outside ↦ rw outside (
                  skip_all e entries (select_entries q entries info levels bounds)
                    (λ (_, low, high, _). absurd (ground arith)) (λ p. bytes)
                    (select_entries-Parts entries))
              | inl inside ↦ rw inside (
                  bind-Ensures (Parts (e ∷ entries)) (meets q info bounds e.key) _ λ met is_met.
                    bind-Ensures (Parts (e ∷ entries)) (select_entries q entries info levels bounds)
                      _
                      λ chunks run.
                        met-Parts e entries chunks met
                          (λ t. (
                            some_points e.point_count points,
                            ground arith,
                            ground arith,
                            (meets-Meets q info bounds e.key met is_met).0 t,
                          ))
                          (λ t (_, _, _, m). cc ((meets-Meets q info bounds e.key met is_met).1 m))
                          (λ p. bytes)
                          (Ensures-ok (Parts entries) (select_entries q entries info levels bounds)
                            chunks (select_entries-Parts entries) run))
            ])
  ]

module _ (q : QueryFloats) ⦃f : Floats ℕ⦄ where
  -- If `select_point_chunks_from` returns chunks, then they are sorted by offset and key, and they are
  -- exactly the entries, each as often as it is there, that have points, at a level of the range of
  -- the query, in a voxel that overlaps its bounds on each axis, if it has bounds; and every entry
  -- that has points, selected or not, has bytes.
  pub select_point_chunks_from-Parts :
      (entries : List Entry) (info : CopcInfo) (query : PointQuery) (chunks : List Entry)
      → select_point_chunks_from q entries info query ≡ ok chunks
      → (levels : ℤ × ℤ) × (level_range q query.lod info ≡ ok levels)
        × IsSorted chunks
        × Parts q info levels query.bounds entries chunks
  unfolding select_point_chunks_from
  select_point_chunks_from-Parts entries info query chunks e =
      let (_, _, a) = >>=-eq-ok (validate_query query) _ e in
      let (levels, in_range, b) = >>=-eq-ok (level_range q query.lod info) _ a in
      let (found, run, c) = >>=-eq-ok (select_entries q entries info levels query.bounds) _ b in
      let (others, same, selected, rest, sized) =
        Ensures-ok (Parts q info levels query.bounds entries)
          (select_entries q entries info levels query.bounds) found
          (select_entries-Parts q info levels query.bounds entries) run in
      let sorted : sort_chunks found ≡ chunks = cc in
      subst
        (λ t.
          (levels : ℤ × ℤ) × (level_range q query.lod info ≡ ok levels)
          × IsSorted t
          × Parts q info levels query.bounds entries t)
        sorted
        (
          levels,
          in_range,
          sort_chunks-IsSorted found,
          (
            others,
            Perm.trans ((perm-append_right_iff others).1 (sort_chunks-Perm found)) same,
            sort_chunks-All (IsSelected q info levels query.bounds) found selected,
            rest,
            sized,
          ),
        )
