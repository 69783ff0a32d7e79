-- ===== src/Writer/Lod/Build.antt =====
-- `build_lod_index`: the nodes of the index and the order of the points.
use copc_rust.Prelude.{
  ℕ, zero, suc, ◌*◌, ◌^◌, ◌<◌, ◌≤◌, ◌≡◌, refl, ap, arith, inl, inr, List, [], ◌∷◌, length, Result,
  ok, ◌>>=◌, >>=-eq-ok, Bool-cases, ◌==◌, leb, leb→le, ==→≡, reject_if, reject_if-ok, invalid_input,
}
use copc_rust.Prelude.Order.{Ordering-cases}
use copc_rust.Core.Key
use copc_rust.Core.Key.{VoxelKey, cmp_key}
use copc_rust.Core.Bounds.{Floats, cube}
use copc_rust.Writer.Lod.{
  LodIndexBuilder, LodNodeRange, IndexRun, push_node, poll, root_polls, append_index_run_to_order,
  assign, build_lod_index, insert_node, sort_nodes, indices,
}
use copc_rust.Writer.Lod.Steps.{Grows-refl, Grows-trans}
use copc_rust.Writer.Lod.Runs.{poll_inv, root_polls_inv, append_index_run_to_order_inv}
use copc_rust.Writer.Lod.Nodes.{
  IsTiled, Assigned, Grows-Assigned, push-Assigned, poll-Assigned, Assigns, assign_split,
}
use mathlib.Core.List.{Perm}
use mathlib.Core.List.Perm

insert_node-Perm :
    (node : LodNodeRange) (nodes : List LodNodeRange) → Perm (insert_node node nodes) (node ∷ nodes)
insert_node-Perm node [] = Perm.refl (node ∷ [])
insert_node-Perm node (other ∷ nodes) = elim (Ordering-cases (cmp_key node.key other.key)) [
  | inl c ↦ rw (c, insert_node) (Perm.refl (node ∷ other ∷ nodes))
  | inr (inl c) ↦ rw (c, insert_node) (Perm.refl (node ∷ other ∷ nodes))
  | inr (inr c) ↦
      rw (c, insert_node)
        (Perm.trans (Perm.cons other (insert_node-Perm node nodes)) (Perm.swap node other nodes))
]

sort_nodes-Perm : (nodes : List LodNodeRange) → Perm (sort_nodes nodes) nodes
sort_nodes-Perm [] = Perm.refl []
sort_nodes-Perm (node ∷ nodes) =
    Perm.trans (insert_node-Perm node (sort_nodes nodes)) (Perm.cons node (sort_nodes-Perm nodes))

-- The points `0 .. len` stand in the order, each once, and the nodes, in the order of their start,
-- lie in the order file one behind the other, with 1 to `max_points` points each.
pub record Indexed (max_points len : ℕ) (out : List LodNodeRange × List ℕ) : Type 0 where
  pub same : Perm out.1 (indices 0 len)
  pub by_start : List LodNodeRange
  pub nodes : Perm out.0 by_start
  pub tiled : IsTiled max_points 0 by_start (4 * length out.1)

module _ {F : Type 0} ⦃f : Floats F⦄ (xyz : ℕ → Result (F × F × F)) (check : ℕ → Result (Unit {0}))
    (max_points : ℕ) where
  no_elements : (xs : List ℕ) → length xs ≡ 0 → xs ≡ []
  no_elements [] h = refl
  no_elements (x ∷ xs) h = absurd (omega arith)

  same_builder : (a b : LodIndexBuilder) → ok a ≡ ok b → a ≡ b
  same_builder a b h = cc

  leaf-Assigned :
      (key : VoxelKey) (run : IndexRun) (b b' : LodIndexBuilder)
      → 0 < length run
      → length run ≤ max_points
      → (append_index_run_to_order xyz check max_points 0 run b >>= λ b1.
          ok (push_node key b.order_offset (length run) b1))
        ≡ ok b'
      → Assigned max_points run b b'
  leaf-Assigned key run b b' some few h =
      let (b1, appended, h') =
        >>=-eq-ok (append_index_run_to_order xyz check max_points 0 run b) _ h in
      let g = append_index_run_to_order_inv xyz check max_points 0 run b b1 appended in
      rw (← (same_builder (push_node key b.order_offset (length run) b1) b' h')) (
        push-Assigned max_points key b.order_offset (length run) b b1 run run g (Perm.refl run) refl
          refl some few)

  pub assign-Assigns :
      (fuel : ℕ) → 0 < max_points → Assigns xyz check max_points (assign xyz check max_points fuel)
  unfolding assign
  assign-Assigns zero m key run bounds b b' h = absurd (cc h)
  assign-Assigns (suc fuel) m key run bounds b b' h =
      let (b0, polled, h0) = >>=-eq-ok (poll xyz check max_points b) _ h in
      let g = poll_inv xyz check max_points b b0 polled in
      poll-Assigned xyz check max_points run b b0 b' g (elim (Bool-cases (length run == 0)) [
        | inl t ↦
            let none : run ≡ [] = no_elements run (==→≡ (length run) 0 t) in
            rw none (
              rw (← (same_builder b0 b' (rw t at h0)))
                (Grows-Assigned max_points b0 b0 (Grows-refl b0)))
        | inr t ↦ elim (Bool-cases (leb (length run) max_points)) [
          | inl s ↦
              leaf-Assigned key run b0 b' (ground (arith, t)) (leb→le (length run) max_points s)
                (rw (t, s) at h0)
          | inr s ↦
              assign_split xyz check max_points fuel (assign-Assigns fuel m) m key run bounds b0 b'
                (ground (arith, s)) (rw (t, s) at h0)
        ]
      ])

  -- When `build_lod_index` returns an index, its order holds the points, each once, and its nodes
  -- share the order without a gap or an overlap, with 1 to `max_points` points each.
  pub build_lod_index-Indexed :
      (len : ℕ) (c : F × F × F) (halfsize : F) (out : List LodNodeRange × List ℕ)
      → build_lod_index xyz check max_points len c halfsize ≡ ok out
      → Indexed max_points len out
  unfolding build_lod_index
  build_lod_index-Indexed len c halfsize out h =
      let start : LodIndexBuilder = record {
        order = [];
        order_offset = 0;
        nodes = [];
        polls = 0;
      } in
      let (b0, polled, h0) = >>=-eq-ok (poll xyz check max_points start) _ h in
      let (_, few, h1) = >>=-eq-ok (reject_if (leb (2 ^ 32) len) invalid_input) _ h0 in
      let (_, some, h2) = >>=-eq-ok (reject_if (max_points == 0) invalid_input) _ h1 in
      let (b1, written, h3) = >>=-eq-ok (root_polls xyz check max_points 0 len b0) _ h2 in
      let (b2, assigned, h4) =
        >>=-eq-ok (assign xyz check max_points 31 Key.root (indices 0 len) (cube c halfsize) b1) _
          h3 in
      let m : 0 < max_points = ground (arith, reject_if-ok (max_points == 0) invalid_input some) in
      let g =
        Grows-trans start b0 b1 [] [] (poll_inv xyz check max_points start b0 polled)
          (root_polls_inv xyz check max_points len 0 b0 b1 written) in
      let a =
        poll-Assigned xyz check max_points (indices 0 len) start b1 b2 g
          (assign-Assigns 31 m Key.root (indices 0 len) (cube c halfsize) b1 b2 assigned) in
      let same : (sort_nodes b2.nodes, b2.order) ≡ out = cc in
      let ends : b2.order_offset ≡ 4 * length b2.order =
        omega (arith, a.offset, ap length a.order) in
      rw (← same) (record {
        same = rw a.order a.same;
        by_start = a.made;
        nodes = rw (← a.nodes) (sort_nodes-Perm b2.nodes);
        tiled = rw (← ends) a.tiled;
      })
