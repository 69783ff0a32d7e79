-- ===== src/Writer/Lod/Total.antt =====
-- copc-writer/src/lod.rs: `build_lod_index`, its termination.
use copc_rust.Prelude.{
  ℕ, zero, suc, ◌+◌, ◌-◌, ◌%◌, ◌^◌, ◌<◌, ◌≤◌, arith, inl, inr, List, [], ◌∷◌, length, replicate,
  Result, Returns, >>=-Returns, reject_if-Returns, ok_or-Returns, Result-cases, reject_if, ok_or,
  invalid_input, Bool-cases, ◌==◌, leb,
}
use copc_rust.Prelude.Int.{pos_part, checked_add_u64}
use copc_rust.Core.Key
use copc_rust.Core.Key.{VoxelKey}
use copc_rust.Core.Key.Tree.{child_level, child-Returns}
use copc_rust.Core.Bounds.{Floats, Bounds, cube, center, octant}
use copc_rust.Writer.Lod.{
  LodIndexBuilder, IndexRun, append_index_to_order, add_to, select_round, child_octant, poll,
  poll_at, root_polls, push_node, append_index_run_to_order, partition_index_run,
  append_lod_selection_to_order, assign_children, assign, build_lod_index, max_octree_depth,
  indices,
}
use copc_rust.Writer.Lod.Steps.{select_round_inv}

append_index_to_order-Returns :
    (index : ℕ) (b : LodIndexBuilder) → Returns (append_index_to_order index b)
unfolding append_index_to_order
append_index_to_order-Returns index b =
    >>=-Returns (ok_or (checked_add_u64 b.order_offset 4) invalid_input) _
      (ok_or-Returns (checked_add_u64 b.order_offset 4) invalid_input) λ n. tt

select_round-Returns :
    (left : ℕ) (runs : List IndexRun) (b : LodIndexBuilder) → Returns (select_round left runs b)
unfolding select_round
select_round-Returns left [] b = tt
select_round-Returns zero (run ∷ runs) b = tt
select_round-Returns (suc left) ([] ∷ runs) b =
    >>=-Returns (select_round (suc left) runs b) _ (select_round-Returns (suc left) runs b) λ o. tt
select_round-Returns (suc left) ((index ∷ run) ∷ runs) b =
    >>=-Returns (append_index_to_order index b) _ (append_index_to_order-Returns index b)
      λ b1. >>=-Returns (select_round left runs b1) _ (select_round-Returns left runs b1) λ o. tt

module _ {F : Type 0} ⦃f : Floats F⦄ (xyz : ℕ → Result (F × F × F)) (check : ℕ → Result (Unit {0}))
    (max_points : ℕ) (has_points : (i : ℕ) → Returns (xyz i))
    (checks : (n : ℕ) → Returns (check n)) where
  poll-Returns : (b : LodIndexBuilder) → Returns (poll xyz check max_points b)
  unfolding poll
  poll-Returns b = >>=-Returns (check b.polls) _ (checks b.polls) λ _. tt

  poll_at-Returns : (i : ℕ) (b : LodIndexBuilder) → Returns (poll_at xyz check max_points i b)
  poll_at-Returns i b = elim (Bool-cases (i % 4096 == 0)) [
    | inl t ↦ rw t (poll-Returns b)
    | inr t ↦ rw t tt
  ]

  root_polls-Returns :
      (n i : ℕ) (b : LodIndexBuilder) → Returns (root_polls xyz check max_points i n b)
  unfolding root_polls
  root_polls-Returns zero i b = tt
  root_polls-Returns (suc n) i b =
      >>=-Returns (poll_at xyz check max_points i b) _ (poll_at-Returns i b)
        (root_polls-Returns n (i + 1))

  append_run-Returns :
      (i : ℕ) (run : IndexRun) (b : LodIndexBuilder)
      → Returns (append_index_run_to_order xyz check max_points i run b)
  unfolding append_index_run_to_order
  append_run-Returns i [] b = tt
  append_run-Returns i (index ∷ run) b =
      >>=-Returns (poll_at xyz check max_points i b) _ (poll_at-Returns i b) λ b1.
        >>=-Returns (append_index_to_order index b1) _ (append_index_to_order-Returns index b1)
          (append_run-Returns (i + 1) run)

  partition-Returns :
      (i : ℕ) (run : IndexRun) (c : F × F × F) (runs : List IndexRun) (b : LodIndexBuilder)
      → Returns (partition_index_run xyz check max_points i run c runs b)
  unfolding partition_index_run
  partition-Returns i [] c runs b = tt
  partition-Returns i (index ∷ run) c runs b =
      >>=-Returns (poll_at xyz check max_points i b) _ (poll_at-Returns i b) λ b1.
        >>=-Returns (xyz index) _ (has_points index) λ p.
          partition-Returns (i + 1) run c
            (add_to (child_octant xyz check max_points c p) index runs) b1

  selection-Returns :
      (fuel left : ℕ) (runs : List IndexRun) (b : LodIndexBuilder)
      → left ≤ fuel
      → Returns (append_lod_selection_to_order xyz check max_points fuel left runs b)
  unfolding append_lod_selection_to_order
  selection-Returns fuel zero runs b h = tt
  selection-Returns zero (suc left) runs b h = absurd (omega arith)
  selection-Returns (suc fuel) (suc left) runs b h =
      >>=-Returns (poll xyz check max_points b) _ (poll-Returns b) λ b1.
        elim (Result-cases (select_round (suc left) runs b1)
          (select_round-Returns (suc left) runs b1)) [
            | inr (kind, e) ↦ rw e tt
            | inl (o, e) ↦
                let s = select_round_inv (suc left) runs b1 o e in
                elim (Bool-cases (o.1 == suc left)) [
                  | inl t ↦ rw (e, t) tt
                  | inr t ↦
                      rw (e, t)
                        (selection-Returns fuel o.1 o.0 o.2 (ground (arith, s.budget, t, h)))
                ]
          ]

  -- Enough levels are left for a node at this key.
  IsDeep : ℕ → VoxelKey → Type 0
  IsDeep fuel key = 31 ≤ pos_part key.level + fuel

  children-Returns :
      (fuel : ℕ)
      → ((key : VoxelKey) (run : IndexRun) (bounds : Bounds F) (b : LodIndexBuilder)
          → IsDeep fuel key
          → Returns (assign xyz check max_points fuel key run bounds b))
      → (key : VoxelKey) (bounds : Bounds F) (o : ℕ) (runs : List IndexRun) (b : LodIndexBuilder)
      → IsDeep (suc fuel) key
      → Returns (
          assign_children xyz check max_points
            (assign xyz check max_points fuel)
            key
            bounds
            o
            runs
            b)
  unfolding assign_children IsDeep
  children-Returns fuel returns key bounds o [] b d = tt
  children-Returns fuel returns key bounds o ([] ∷ runs) b d =
      children-Returns fuel returns key bounds (o + 1) runs b d
  children-Returns fuel returns key bounds o ((index ∷ run) ∷ runs) b d =
      elim (Result-cases (Key.child key o) (child-Returns key o)) [
        | inr (kind, e) ↦ rw e tt
        | inl (k, e) ↦ rw e (
            >>=-Returns (assign xyz check max_points fuel k (index ∷ run) (octant bounds o) b) _
              (returns k (index ∷ run) (octant bounds o) b (omega (arith, child_level key k o e)))
              λ b'. children-Returns fuel returns key bounds (o + 1) runs b' d)
      ]

  assign-Returns :
      (fuel : ℕ) (key : VoxelKey) (run : IndexRun) (bounds : Bounds F) (b : LodIndexBuilder)
      → 0 < fuel
      → IsDeep fuel key
      → Returns (assign xyz check max_points fuel key run bounds b)
  unfolding assign IsDeep
  assign-Returns zero key run bounds b some d = absurd (omega arith)
  assign-Returns (suc fuel) key run bounds b some d =
      >>=-Returns (poll xyz check max_points b) _ (poll-Returns b) λ b0.
        elim (Bool-cases (length run == 0)) [
          | inl t ↦ rw t tt
          | inr t ↦ elim (Bool-cases (leb (length run) max_points)) [
            | inl s ↦
                rw (t, s)
                  (>>=-Returns (append_index_run_to_order xyz check max_points 0 run b0) _
                    (append_run-Returns 0 run b0) λ b1. tt)
            | inr s ↦ elim (Bool-cases (leb max_octree_depth (pos_part key.level))) [
              | inl deep ↦ rw (t, s, deep) tt
              | inr shallow ↦
                  let more : 0 < fuel = ground (arith, shallow, d) in
                  rw (t, s, shallow)
                    (>>=-Returns
                      (partition_index_run xyz check max_points 0 run (center bounds)
                        (replicate 8 []) b0)
                      _ (partition-Returns 0 run (center bounds) (replicate 8 []) b0)
                      λ o1.
                        >>=-Returns
                          (append_lod_selection_to_order xyz check max_points max_points max_points
                            o1.0 o1.1)
                          _ (selection-Returns max_points max_points o1.0 o1.1 (omega arith))
                          λ o2.
                            children-Returns fuel
                              (λ k r bs c deep. assign-Returns fuel k r bs c more deep) key bounds 0
                              o2.0 (push_node key o1.1.order_offset (max_points - o2.1) o2.2) d)
            ]
          ]
        ]

  -- If the source gives every point, or an error for it, and no check panics, then
  -- `build_lod_index` returns for any number of points: it does not panic, and 31 levels and one
  -- round of the selection for each point of a node are enough fuel.
  pub build_lod_index-Returns :
      (len : ℕ) (c : F × F × F) (halfsize : F)
      → Returns (build_lod_index xyz check max_points len c halfsize)
  unfolding build_lod_index IsDeep
  build_lod_index-Returns len c halfsize =
      let start : LodIndexBuilder = record {
        order = [];
        order_offset = 0;
        nodes = [];
        polls = 0;
      } in
      >>=-Returns (poll xyz check max_points start) _ (poll-Returns start) λ b0.
        >>=-Returns (reject_if (leb (2 ^ 32) len) invalid_input) _
          (reject_if-Returns (leb (2 ^ 32) len) invalid_input)
          λ _.
            >>=-Returns (reject_if (max_points == 0) invalid_input) _
              (reject_if-Returns (max_points == 0) invalid_input)
              λ _.
                >>=-Returns (root_polls xyz check max_points 0 len b0) _
                  (root_polls-Returns len 0 b0)
                  λ b1.
                    >>=-Returns
                      (assign xyz check max_points 31 Key.root (indices 0 len) (cube c halfsize) b1)
                      _
                      (assign-Returns 31 Key.root (indices 0 len) (cube c halfsize) b1 (omega arith)
                        (omega arith))
                      λ b2. tt
