-- ===== src/Reader/Ranged/Reached.antt =====
-- copc-reader/src/ranged.rs: the rounds of `ensure_hierarchy_for`, and the pages they leave
-- pending.
use mathlib.Core.Path.{subst}
use copc_rust.Prelude.{
  ℕ, zero, suc, ◌+◌, ◌*◌, ◌<◌, ◌≤◌, ◌≡◌, refl, arith, List, [], ◌∷◌, length, Bool, true, false, not,
  ◌==◌, Result, ◌⊎◌, >>=-eq-ok, ok, err, fault, Returns, >>=-Returns, Bool-cases, inl, inr, Ensures,
  bind-Ensures, Ensures-ok, All, sym, some, none, if◌then◌else◌,
}
use copc_rust.Prelude.States.{M, ◌>>◌, update, continue-Holds}
use copc_rust.Prelude.Int.{ℤ, pos_part, neg_part, leb_ℤ}
use copc_rust.Core.Key
use copc_rust.Core.Key.{VoxelKey}
use copc_rust.Core.Key.Tree.{validate-Returns}
use copc_rust.Core.Bounds.{Floats}
use copc_rust.Core.Hierarchy.{Entry}
use copc_rust.Core.Info.{CopcInfo}
use copc_rust.Reader.Hierarchy.{CopcDataRanges, max_hierarchy_total_bytes}
use copc_rust.Reader.Query.{PointQuery, QueryFloats, BoundsSelection, level_range, voxel_bounds}
use copc_rust.Reader.Query.Overlaps.{Meets, voxel_bounds-Overlaps}
use copc_rust.Reader.Reach.{page_may_match, split_pending, voxel_meets, is_located}
use copc_rust.Reader.Ranged.{RangeReader, Source, when, load_all, ensure_rounds}
use copc_rust.Reader.Ranged.Weights.{weight, Settles}
use copc_rust.Reader.Ranged.Ends.{load_all-Settles}

module _ (q : QueryFloats) ⦃f : Floats ℕ⦄ (info : CopcInfo) (query : PointQuery) where
  -- The key of the page lies at the end of the range of levels or deeper, or its voxel does not
  -- overlap the bounds of the query on some axis.
  abbrev pub Misses : Entry → Type 0
  Misses e =
      (levels : ℤ × ℤ) × (level_range q query.lod info ≡ ok levels)
      × ((pos_part levels.1 + neg_part e.key.level ≤ pos_part e.key.level + neg_part levels.1)
          ⊎ ¬ Meets q info query.bounds e.key)

  voxel_meets-Meets :
      (bounds : BoundsSelection) (key : VoxelKey)
      → voxel_meets q info query key bounds ≡ ok false
      → ¬ Meets q info bounds key
  voxel_meets-Meets none key h = absurd (cc h)
  voxel_meets-Meets (some b) key h = elim (Bool-cases (is_located q info query key)) [
    | inr far ↦ absurd (cc (rw far at h))
    | inl located ↦
        let (node, made, same) = >>=-eq-ok (voxel_bounds q key info) _ (rw located at h) in
        λ o. cc ((voxel_bounds-Overlaps q info key node b made).1 o)
  ]

  page_may_match-Misses : (e : Entry) → page_may_match q info query e.key ≡ ok false → Misses e
  unfolding page_may_match
  page_may_match-Misses e h =
      let (levels, in_range, h1) = >>=-eq-ok (level_range q query.lod info) _ h in
      elim (Bool-cases (leb_ℤ levels.1 e.key.level)) [
        | inl deep ↦ (levels, in_range, inl (ground arith))
        | inr above ↦
            (levels, in_range, inr (voxel_meets-Meets query.bounds e.key (rw above at h1)))
      ]

  abbrev Splits : List Entry → List Entry × List Entry → Type 0
  Splits pending parts = (length parts.0 + length parts.1 ≡ length pending) × All Misses parts.1

  split_pending-Splits :
      (pending : List Entry) → Ensures (Splits pending) (split_pending q info query pending)
  unfolding split_pending
  split_pending-Splits [] = (refl, tt)
  split_pending-Splits (e ∷ pending) =
      bind-Ensures (Splits (e ∷ pending)) (page_may_match q info query e.key) _ λ relevant found.
        bind-Ensures (Splits (e ∷ pending)) (split_pending q info query pending) _ λ parts run.
          placed relevant parts found (
            Ensures-ok (Splits pending) (split_pending q info query pending) parts
              (split_pending-Splits pending) run)
    where
      placed :
          (relevant : Bool) (parts : List Entry × List Entry)
          → page_may_match q info query e.key ≡ ok relevant
          → Splits pending parts
          → Splits
              (e ∷ pending)
              (if relevant then (e ∷ parts.0, parts.1) else (parts.0, e ∷ parts.1))
      placed true parts found (same, all) = (omega arith, all)
      placed false parts found (same, all) = (omega arith, (page_may_match-Misses e found, all))

  voxel_meets-Returns :
      (key : VoxelKey) (bounds : BoundsSelection) → Returns (voxel_meets q info query key bounds)
  unfolding voxel_bounds
  voxel_meets-Returns key none = tt
  voxel_meets-Returns key (some bounds) = elim (Bool-cases (is_located q info query key)) [
    | inl located ↦ rw located (
        >>=-Returns (voxel_bounds q key info) _
          (>>=-Returns (Key.validate key) _ (validate-Returns key) λ valid. tt) λ node. tt)
    | inr far ↦ rw far tt
  ]

  split_pending-Returns :
      Returns (level_range q query.lod info)
      → (pending : List Entry) → Returns (split_pending q info query pending)
  unfolding split_pending page_may_match
  split_pending-Returns h [] = tt
  split_pending-Returns h (e ∷ pending) =
      >>=-Returns (page_may_match q info query e.key) _
        (>>=-Returns (level_range q query.lod info) _ h λ levels.
          elim (Bool-cases (leb_ℤ levels.1 e.key.level)) [
            | inl deep ↦ rw deep tt
            | inr above ↦ rw above (voxel_meets-Returns e.key query.bounds)
          ])
        λ relevant.
          >>=-Returns (split_pending q info query pending) _ (split_pending-Returns h pending)
            λ parts. tt

  -- The pages that are still pending miss the query.
  abbrev pub HasReached : Result (Unit {0}) × RangeReader → Type 0
  HasReached (ok done, t) = All Misses t.pending_pages
  HasReached (err e, t) = Unit {0}
  HasReached (fault why, t) = ⊥

  abbrev Divides : RangeReader → Result (List Entry × List Entry) × RangeReader → Type 0
  Divides s (ok parts, t) = (t ≡ record s { pending_pages = [] }) × Splits s.pending_pages parts
  Divides s (err e, t) = Unit {0}
  Divides s (fault why, t) = ⊥

  divided :
      (s : RangeReader) (run : Result (List Entry × List Entry))
      → Returns run
      → Ensures (Splits s.pending_pages) run
      → Divides s (run, record s { pending_pages = [] })
  divided s (ok parts) h splits = (refl, splits)
  divided s (err e) h splits = tt
  divided s (fault why) h splits = h

  module _ (source : Source) (file_len number_of_points : ℕ) (ranges : CopcDataRanges)
      (answers : (n start len : ℕ) → Returns (source n start len))
      (fills : (n start len : ℕ) (bytes : List ℕ)
        → source n start len ≡ ok bytes
        → length bytes ≡ len) where
    -- A round behind the split.
    abbrev after_split : ℕ → List Entry × List Entry → M RangeReader (Unit {0})
    after_split fuel parts =
        update (λ s. record s { pending_pages = parts.1 })
        >> when (not (length parts.0 == 0)) (
            load_all source file_len number_of_points ranges parts.0
            >> ensure_rounds source file_len number_of_points ranges q info query fuel)

    -- Over a source that answers each request with as many bytes, or an error, and where the range of
    -- levels of the query returns, `ensure_hierarchy_for` returns from a state within the limit of
    -- the bytes, after at most as many rounds as pages are pending and as 32 goes into the bytes left
    -- of the limit; and if it succeeds, each page that is still pending lies at the end of the range of
    -- levels or deeper, or in a voxel that does not overlap the bounds of the query on some axis.
    pub ensure_rounds-HasReached :
        (fuel : ℕ) (s : RangeReader)
        → Returns (level_range q query.lod info)
        → s.limits.total_bytes ≤ max_hierarchy_total_bytes
        → weight s < 32 * fuel
        → HasReached (ensure_rounds source file_len number_of_points ranges q info query fuel s)
    unfolding ensure_rounds
    ensure_rounds-HasReached zero s levels bound enough = absurd (omega arith)
    ensure_rounds-HasReached (suc fuel) s levels bound enough =
        let drained : RangeReader = record s { pending_pages = [] } in
        continue-Holds (Divides s) HasReached (split_pending q info query s.pending_pages, drained)
          _
          (divided s (split_pending q info query s.pending_pages)
            (split_pending-Returns levels s.pending_pages) (split_pending-Splits s.pending_pages))
          (λ parts t (same, (len, missed)).
            subst (λ u. HasReached (after_split fuel parts u)) (sym same)
              (elim (Bool-cases (length parts.0 == 0)) [
                | inl none_there ↦ rw none_there missed
                | inr some_there ↦
                    let rest : RangeReader = record s { pending_pages = parts.1 } in
                    let more : 0 < length parts.0 = ground arith in
                    rw some_there (
                      continue-Holds (Settles (weight rest)) HasReached
                        (load_all source file_len number_of_points ranges parts.0 rest) _
                        (load_all-Settles source file_len number_of_points ranges answers fills
                          parts.0 rest bound)
                        (λ done u (bound', less).
                          ensure_rounds-HasReached fuel u levels bound' (omega arith))
                        (λ k u h. h) (λ k u h. h))
              ]))
          (λ k u h. h) (λ k u h. h)
