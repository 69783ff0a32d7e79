-- ===== src/Writer/Lod/Nodes.antt =====
-- copc-writer/src/lod.rs: lemmas on the nodes of the index and the points they hold.
use copc_rust.Prelude.{
  ℕ, ◌+◌, ◌-◌, ◌*◌, ◌<◌, ◌≤◌, ◌≡◌, refl, sym, ap, ◌∙◌, arith, inl, inr, ◌⊎◌, List, [], ◌∷◌, ◌++◌,
  append-nil, append_assoc, length, length-append, replicate, Result, ok, ◌>>=◌, >>=-eq-ok,
  Bool-cases, ◌==◌, leb, reject_if, invalid_input, ==→≡,
}
use copc_rust.Prelude.Int.{pos_part}
use copc_rust.Core.Key
use copc_rust.Core.Key.{VoxelKey}
use copc_rust.Core.Bounds.{Floats, Bounds, center, octant}
use copc_rust.Writer.Lod.{
  LodIndexBuilder, LodNodeRange, IndexRun, push_node, partition_index_run,
  append_lod_selection_to_order, assign_children, assign, max_octree_depth,
}
use copc_rust.Writer.Lod.Steps.{flatten, Grows, Grows-refl, Selection, Selected}
use copc_rust.Writer.Lod.Runs.{
  partition_index_run_inv, append_lod_selection_to_order_inv, append_lod_selection_to_order_done,
}
use mathlib.Core.List.{Perm}
use mathlib.Core.List.Perm

-- The nodes lie in the order file one behind the other, from `start` to `end`, each with 1 to
-- `max_points` indices of four bytes.
abbrev pub IsTiled : ℕ → ℕ → List LodNodeRange → ℕ → Type 0
IsTiled max_points start [] end = start ≡ end
IsTiled max_points start (node ∷ nodes) end =
    (node.start ≡ start)
    × (0 < node.count)
    × (node.count ≤ max_points)
    × IsTiled max_points (start + 4 * node.count) nodes end

IsTiled-append :
    (max_points start mid end : ℕ) (xs ys : List LodNodeRange)
    → IsTiled max_points start xs mid
    → IsTiled max_points mid ys end
    → IsTiled max_points start (xs ++ ys) end
IsTiled-append max_points start mid end [] ys h k = rw h k
IsTiled-append max_points start mid end (x ∷ xs) ys (s, some, few, h) k =
    (s, some, few, IsTiled-append max_points (start + 4 * x.count) mid end xs ys h k)

-- The builder has placed the indices of a run in nodes of their own.
pub record Assigned (max_points : ℕ) (run : List ℕ) (b b' : LodIndexBuilder) : Type 0 where
  pub new : List ℕ
  pub made : List LodNodeRange
  pub order : b'.order ≡ b.order ++ new
  pub same : Perm new run
  pub nodes : b'.nodes ≡ b.nodes ++ made
  pub tiled : IsTiled max_points b.order_offset made b'.order_offset
  pub offset : b'.order_offset ≡ b.order_offset + 4 * length new

Assigned-trans :
    (max_points : ℕ) (xs ys : List ℕ) (a b c : LodIndexBuilder)
    → Assigned max_points xs a b
    → Assigned max_points ys b c
    → Assigned max_points (xs ++ ys) a c
Assigned-trans max_points xs ys a b c g h = record {
  new = g.new ++ h.new;
  made = g.made ++ h.made;
  order = h.order ∙ ap (λ t. t ++ h.new) g.order ∙ append_assoc a.order g.new h.new;
  same = Perm.append g.same h.same;
  nodes = h.nodes ∙ ap (λ t. t ++ h.made) g.nodes ∙ append_assoc a.nodes g.made h.made;
  tiled =
      IsTiled-append max_points a.order_offset b.order_offset c.order_offset g.made h.made g.tiled
        h.tiled;
  offset = omega (arith, g.offset, h.offset, length-append g.new h.new);
}

-- No index, no node.
pub Grows-Assigned :
    (max_points : ℕ) (b b' : LodIndexBuilder) → Grows b b' [] → Assigned max_points [] b b'
Grows-Assigned max_points b b' g = record {
  new = [];
  made = [];
  order = g.order;
  same = Perm.refl [];
  nodes = g.nodes ∙ sym (append-nil b.nodes);
  tiled = omega (arith, g.offset);
  offset = g.offset;
}

-- A node of the indices that the builder has just written.
pub push-Assigned :
    (max_points : ℕ) (key : VoxelKey) (start count : ℕ) (b b' : LodIndexBuilder) (new run : List ℕ)
    → Grows b b' new
    → Perm new run
    → start ≡ b.order_offset
    → count ≡ length new
    → 0 < count
    → count ≤ max_points
    → Assigned max_points run b (push_node key start count b')
push-Assigned max_points key start count b b' new run g same s c some few = record {
  new = new;
  made = record { key = key; start = start; count = count } ∷ [];
  order = g.order;
  same = same;
  nodes = ap (λ t. t ++ (record { key = key; start = start; count = count } ∷ [])) g.nodes;
  tiled = (s, some, few, omega (arith, g.offset));
  offset = g.offset;
}

module _ {F : Type 0} ⦃f : Floats F⦄ (xyz : ℕ → Result (F × F × F)) (check : ℕ → Result (Unit {0}))
    (max_points : ℕ) where
  -- A builder of nodes that places every run.
  abbrev pub Assigns :
      (VoxelKey → IndexRun → Bounds F → LodIndexBuilder → Result LodIndexBuilder) → Type 0
  Assigns assign_node =
      (key : VoxelKey) (run : IndexRun) (bounds : Bounds F) (b b' : LodIndexBuilder)
      → assign_node key run bounds b ≡ ok b'
      → Assigned max_points run b b'

  assign_children_inv :
      (assign_node : VoxelKey → IndexRun → Bounds F → LodIndexBuilder → Result LodIndexBuilder)
      → Assigns assign_node
      → (key : VoxelKey) (bounds : Bounds F) (o : ℕ) (runs : List IndexRun) (b b' : LodIndexBuilder)
      → assign_children xyz check max_points assign_node key bounds o runs b ≡ ok b'
      → Assigned max_points (flatten runs) b b'
  unfolding assign_children
  assign_children_inv assign_node places key bounds o [] b b' h =
      let same : b ≡ b' = cc in rw (← same) (Grows-Assigned max_points b b (Grows-refl b))
  assign_children_inv assign_node places key bounds o ([] ∷ runs) b b' h =
      assign_children_inv assign_node places key bounds (o + 1) runs b b' h
  assign_children_inv assign_node places key bounds o ((index ∷ run) ∷ runs) b b' h =
      let (k, child, h1) = >>=-eq-ok (Key.child key o) _ h in
      let (c, node, h2) = >>=-eq-ok (assign_node k (index ∷ run) (octant bounds o) b) _ h1 in
      Assigned-trans max_points (index ∷ run) (flatten runs) b c b'
        (places k (index ∷ run) (octant bounds o) b c node)
        (assign_children_inv assign_node places key bounds (o + 1) runs c b' h2)

  pub poll-Assigned :
      (run : List ℕ) (a b c : LodIndexBuilder)
      → Grows a b []
      → Assigned max_points run b c
      → Assigned max_points run a c
  poll-Assigned run a b c g h =
      Assigned-trans max_points [] run a b c (Grows-Assigned max_points a b g) h

  -- What `assign` selects for its node.
  some_taken :
      (run : IndexRun) (runs : List IndexRun) (b : LodIndexBuilder) (out : Selection)
      → (s : Selected max_points runs b out) → (out.1 ≡ 0) ⊎ (flatten out.0 ≡ [])
      → 0 < max_points
      → Perm (flatten runs) run
      → max_points < length run
      → 0 < length s.taken
  some_taken run runs b out s done m p large = elim (Bool-cases (length s.taken == 0)) [
    | inr t ↦ ground (arith, t)
    | inl t ↦ elim done [
      | inl z ↦ absurd (omega (arith, s.budget, z, ==→≡ (length s.taken) 0 t))
      | inr n ↦
          let nothing : s.taken ≡ [] = no_elements s.taken (==→≡ (length s.taken) 0 t) in
          let all : Perm [] run = Perm.trans (rw (nothing, n) at s.same) p in
          absurd (omega (arith, large, ap length (Perm.nil-eq all)))
    ]
  ]
    where
      no_elements : (xs : List ℕ) → length xs ≡ 0 → xs ≡ []
      no_elements [] h = refl
      no_elements (x ∷ xs) h = absurd (omega arith)

  pub assign_split :
      (fuel : ℕ)
      → Assigns (assign xyz check max_points fuel)
      → 0 < max_points
      → (key : VoxelKey) (run : IndexRun) (bounds : Bounds F) (b b' : LodIndexBuilder)
      → max_points < length run
      → (reject_if (leb max_octree_depth (pos_part key.level)) invalid_input >>= λ _.
          partition_index_run xyz check max_points 0 run (center bounds) (replicate 8 []) b
          >>= λ (runs, b1).
              append_lod_selection_to_order xyz check max_points max_points max_points runs b1
              >>= λ (runs', left, b2).
                  assign_children xyz check max_points
                    (assign xyz check max_points fuel)
                    key
                    bounds
                    0
                    runs'
                    (push_node key b1.order_offset (max_points - left) b2))
        ≡ ok b'
      → Assigned max_points run b b'
  assign_split fuel places m key run bounds b b' large h =
      let (_, shallow, h1) =
        >>=-eq-ok (reject_if (leb max_octree_depth (pos_part key.level)) invalid_input) _ h in
      let (o1, parted, h2) =
        >>=-eq-ok
          (partition_index_run xyz check max_points 0 run (center bounds) (replicate 8 []) b) _
          h1 in
      let (o2, chosen, h3) =
        >>=-eq-ok
          (append_lod_selection_to_order xyz check max_points max_points max_points o1.0 o1.1) _
          h2 in
      let p =
        partition_index_run_inv xyz check max_points 0 run (center bounds) (replicate 8 []) b o1
          (omega arith) parted in
      let s =
        append_lod_selection_to_order_inv xyz check max_points max_points max_points o1.0 o1.1 o2
          chosen in
      let done =
        append_lod_selection_to_order_done xyz check max_points max_points max_points o1.0 o1.1 o2
          chosen in
      let shared : Perm (flatten o1.0) run = rw (append-nil run) at p.same in
      let some = some_taken run o1.0 o1.1 o2 s done m shared large in
      let count : max_points - o2.1 ≡ length s.taken = omega (arith, s.budget) in
      let node =
        push-Assigned max_points key o1.1.order_offset (max_points - o2.1) o1.1 o2.2 s.taken s.taken
          s.grows (Perm.refl s.taken) refl count (omega (arith, count, some)) (omega arith) in
      let rest =
        assign_children_inv (assign xyz check max_points fuel) places key bounds 0 o2.0
          (push_node key o1.1.order_offset (max_points - o2.1) o2.2) b' h3 in
      let all =
        Assigned-trans max_points s.taken (flatten o2.0) o1.1
          (push_node key o1.1.order_offset (max_points - o2.1) o2.2) b' node rest in
      poll-Assigned run b o1.1 b' p.grows (record {
        new = all.new;
        made = all.made;
        order = all.order;
        same = Perm.trans all.same (Perm.trans s.same shared);
        nodes = all.nodes;
        tiled = all.tiled;
        offset = all.offset;
      })
