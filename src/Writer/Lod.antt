-- ===== src/Writer/Lod.antt =====
-- copc-writer/src/lod.rs: the level-of-detail index, which hands every point to a node of the octree.
pub mod Steps
pub mod Runs
pub mod Nodes
pub mod Build
pub mod Total
use copc_rust.Prelude.{
  ℕ, zero, suc, ◌+◌, ◌-◌, ◌*◌, ◌/◌, ◌%◌, ◌^◌, ◌≡◌, Bool, true, false, List, [], ◌∷◌, ◌++◌, Option,
  none, some, ltb, leb, ◌==◌, if◌then◌else◌, length, replicate, Result, ok, err, fault, out_of_fuel,
  invalid_input, reject_if, ok_or, ◌>>=◌, ◌>>◌,
}
use copc_rust.Prelude.Int.{ℤ, pos, negsuc, pos_part, checked_add_u64}
use copc_rust.Prelude.Order.{is_eq}
use Prim.Native.Nat.{Ordering}
use Prim.Native.Nat.Ordering.{lt, eq, gt}
use copc_rust.Core.Key
use copc_rust.Core.Key.{VoxelKey, cmp_key}
use copc_rust.Core.Bounds.{Floats, Bounds, cube, center, octant}

abbrev pub index_record_bytes : ℕ
index_record_bytes = 4

abbrev pub max_octree_depth : ℕ
max_octree_depth = 30

abbrev pub cancel_poll_stride : ℕ
cancel_poll_stride = 4096

pub record LodNodeRange : Type 0 where
  pub key : VoxelKey
  pub start : ℕ
  pub count : ℕ

-- `LodIndexBuilder`: the indices in the order file, its length in bytes, the nodes, and the number of
-- cancellation checks so far.
pub record LodIndexBuilder : Type 0 where
  pub order : List ℕ
  pub order_offset : ℕ
  pub nodes : List LodNodeRange
  pub polls : ℕ

-- An `IndexRun` is the list of its indices: those of its file from `start` on, `count` of them.
abbrev pub IndexRun : Type 0
IndexRun = List ℕ

unfoldable pub append_index_to_order : ℕ → LodIndexBuilder → Result LodIndexBuilder
append_index_to_order index b = do
  order_offset ← ok_or (checked_add_u64 b.order_offset index_record_bytes) invalid_input
  ok (record {
    order = b.order ++ (index ∷ []);
    order_offset = order_offset;
    nodes = b.nodes;
    polls = b.polls;
  })

abbrev pub push_node : VoxelKey → ℕ → ℕ → LodIndexBuilder → LodIndexBuilder
push_node key start count b = record {
  order = b.order;
  order_offset = b.order_offset;
  nodes = b.nodes ++ (record { key = key; start = start; count = count } ∷ []);
  polls = b.polls;
}

-- Appends an index to the run of an octant.
abbrev pub add_to : ℕ → ℕ → List IndexRun → List IndexRun
add_to o index [] = []
add_to zero index (run ∷ runs) = (run ++ (index ∷ [])) ∷ runs
add_to (suc o) index (run ∷ runs) = run ∷ add_to o index runs

-- The inner loop of `append_lod_selection_to_order`, one index of each run, while fewer than
-- `max_points_per_node` are selected. Returns what is left of the runs and of the selection.
unfoldable pub select_round :
    ℕ → List IndexRun → LodIndexBuilder → Result (List IndexRun × ℕ × LodIndexBuilder)
unfolding append_index_to_order
select_round left [] b = ok ([], left, b)
select_round zero (run ∷ runs) b = ok (run ∷ runs, zero, b)
select_round (suc left) ([] ∷ runs) b = do
  (runs', left', b') ← select_round (suc left) runs b
  ok ([] ∷ runs', left', b')
select_round (suc left) ((index ∷ run) ∷ runs) b = do
  b1 ← append_index_to_order index b
  (runs', left', b') ← select_round left runs b1
  ok (run ∷ runs', left', b')

-- The indices `from .. from + n` of the root run.
abbrev pub indices : ℕ → ℕ → IndexRun
indices from zero = []
indices from (suc n) = from ∷ indices (from + 1) n

-- `nodes.sort_by_key(|node| node.key)`
abbrev pub insert_node : LodNodeRange → List LodNodeRange → List LodNodeRange
insert_node node [] = node ∷ []
insert_node node (other ∷ nodes) = elim (cmp_key node.key other.key) [
  | lt ↦ node ∷ other ∷ nodes
  | eq ↦ node ∷ other ∷ nodes
  | gt ↦ other ∷ insert_node node nodes
]

abbrev pub sort_nodes : List LodNodeRange → List LodNodeRange
sort_nodes [] = []
sort_nodes (node ∷ nodes) = insert_node node (sort_nodes nodes)

-- The source of the points, the cancellation check by the number of the call, and the bound of a node.
module _ {F : Type 0} ⦃f : Floats F⦄ (xyz : ℕ → Result (F × F × F)) (check : ℕ → Result (Unit {0}))
    (max_points_per_node : ℕ) where
  abbrev pub child_octant : F × F × F → F × F × F → ℕ
  child_octant c p =
      (if f.at_least p.0 c.0 then 1 else 0)
      + 2 * (if f.at_least p.1 c.1 then 1 else 0)
      + 4 * (if f.at_least p.2 c.2 then 1 else 0)

  -- `cancel.check()?`
  unfoldable pub poll : LodIndexBuilder → Result LodIndexBuilder
  poll b = do
    check b.polls
    ok (record {
      order = b.order;
      order_offset = b.order_offset;
      nodes = b.nodes;
      polls = b.polls + 1;
    })

  abbrev pub poll_at : ℕ → LodIndexBuilder → Result LodIndexBuilder
  poll_at read_index b = if read_index % cancel_poll_stride == 0 then poll b else ok b

  -- `write_root_index_run`: the checks of its loop over `n` indices.
  unfoldable pub root_polls : ℕ → ℕ → LodIndexBuilder → Result LodIndexBuilder
  unfolding poll
  root_polls index zero b = ok b
  root_polls index (suc n) b = do b' ← poll_at index b; root_polls (index + 1) n b'

  unfoldable pub append_index_run_to_order : ℕ → IndexRun → LodIndexBuilder → Result LodIndexBuilder
  unfolding poll append_index_to_order
  append_index_run_to_order read_index [] b = ok b
  append_index_run_to_order read_index (index ∷ run) b = do
    b1 ← poll_at read_index b
    b2 ← append_index_to_order index b1
    append_index_run_to_order (read_index + 1) run b2

  -- The loop of `partition_index_run`, with the runs of the eight octants.
  unfoldable pub partition_index_run :
      ℕ
      → IndexRun
      → F × F × F
      → List IndexRun
      → LodIndexBuilder
      → Result (List IndexRun × LodIndexBuilder)
  unfolding poll
  partition_index_run read_index [] c runs b = ok (runs, b)
  partition_index_run read_index (index ∷ run) c runs b = do
    b' ← poll_at read_index b
    p ← xyz index
    partition_index_run (read_index + 1) run c (add_to (child_octant c p) index runs) b'

  -- The outer loop of `append_lod_selection_to_order`: `left` indices are still to be selected.
  unfoldable pub append_lod_selection_to_order :
      ℕ → ℕ → List IndexRun → LodIndexBuilder → Result (List IndexRun × ℕ × LodIndexBuilder)
  unfolding poll select_round
  append_lod_selection_to_order fuel zero runs b = ok (runs, zero, b)
  append_lod_selection_to_order zero (suc left) runs b = fault out_of_fuel
  append_lod_selection_to_order (suc fuel) (suc left) runs b = do
    b1 ← poll b
    (runs', left', b2) ← select_round (suc left) runs b1
    let more = append_lod_selection_to_order fuel left' runs' b2
    if left' == suc left then ok (runs', left', b2) else more

  -- The loop of `assign` over the octants, with what is left of their runs.
  unfoldable pub assign_children :
      (VoxelKey → IndexRun → Bounds F → LodIndexBuilder → Result LodIndexBuilder)
      → VoxelKey
      → Bounds F
      → ℕ
      → List IndexRun
      → LodIndexBuilder
      → Result LodIndexBuilder
  assign_children assign_node key bounds o [] b = ok b
  assign_children assign_node key bounds o ([] ∷ runs) b =
      assign_children assign_node key bounds (o + 1) runs b
  assign_children assign_node key bounds o ((index ∷ run) ∷ runs) b = do
    child ← Key.child key o
    b' ← assign_node child (index ∷ run) (octant bounds o) b
    assign_children assign_node key bounds (o + 1) runs b'

  -- `assign`, for at most `fuel` levels.
  unfoldable pub assign :
      ℕ → VoxelKey → IndexRun → Bounds F → LodIndexBuilder → Result LodIndexBuilder
  unfolding poll append_index_run_to_order partition_index_run append_lod_selection_to_order
      assign_children
  assign zero key run bounds b = fault out_of_fuel
  assign (suc fuel) key run bounds b = do
    b0 ← poll b
    let leaf = (do
      b1 ← append_index_run_to_order 0 run b0
      ok (push_node key b0.order_offset (length run) b1))
    let split = (do
      reject_if (leb max_octree_depth (pos_part key.level)) invalid_input
      (runs, b1) ← partition_index_run 0 run (center bounds) (replicate 8 []) b0
      (runs', left, b2) ←
          append_lod_selection_to_order max_points_per_node max_points_per_node runs b1
      let b3 = push_node key b1.order_offset (max_points_per_node - left) b2
      assign_children (assign fuel) key bounds 0 runs' b3)
    if length run == 0 then ok b0 else if leb (length run) max_points_per_node then leaf else split

  -- The root is at level 0 and no node lies below level 30: 31 levels are enough.
  unfoldable pub build_lod_index : ℕ → F × F × F → F → Result (List LodNodeRange × List ℕ)
  unfolding poll root_polls assign
  build_lod_index len c halfsize = do
    b0 ← poll (record { order = []; order_offset = 0; nodes = []; polls = 0 })
    reject_if (leb (2 ^ 32) len) invalid_input
    reject_if (max_points_per_node == 0) invalid_input
    b1 ← root_polls 0 len b0
    b2 ← assign 31 Key.root (indices 0 len) (cube c halfsize) b1
    ok (sort_nodes b2.nodes, b2.order)
