-- ===== src/Tests/Lods.antt =====
-- The level-of-detail index of three points, at most two for a node, over natural numbers.
use copc_rust.Prelude.{ℕ, ◌+◌, ◌-◌, ◌/◌, ◌≡◌, refl, arith, leb, List, [], ◌∷◌, Result, ok, Returns}
use copc_rust.Core.Key
use copc_rust.Core.Key.{VoxelKey}
use copc_rust.Core.Key.Tree.{voxel, child-voxel}
use copc_rust.Core.Bounds.{Floats}
use copc_rust.Writer.Lod.{
  LodNodeRange, append_index_to_order, select_round, poll, root_polls, append_index_run_to_order,
  partition_index_run, append_lod_selection_to_order, assign_children, assign, build_lod_index,
}
use copc_rust.Writer.Lod.Build.{Indexed, build_lod_index-Indexed}
use copc_rust.Writer.Lod.Total.{build_lod_index-Returns}

instance abbrev halves : Floats ℕ
halves = record {
  plus = λ a b. a + b;
  minus = λ a b. a - b;
  times = λ a b. a / 2;
  half = 1;
  at_least = λ a b. leb b a;
}

abbrev diagonal : ℕ → Result (ℕ × ℕ × ℕ)
diagonal i = ok (i, i, i)

abbrev never : ℕ → Result (Unit {0})
never n = ok tt

abbrev three_nodes : List LodNodeRange × List ℕ
three_nodes = (
  record { key = Key.root; start = 0; count = 2 }
      ∷ record { key = voxel 1 1 1 1; start = 8; count = 1 }
      ∷ [],
  0 ∷ 1 ∷ 2 ∷ [],
)

last_octant : Key.child Key.root 7 ≡ ok (voxel 1 1 1 1)
last_octant =
    child-voxel 0 0 0 0 (omega arith) (omega arith) (omega arith) (omega arith) 7 (omega arith)

builds : build_lod_index diagonal never 2 3 (1, 1, 1) 1 ≡ ok three_nodes
unfolding build_lod_index assign assign_children append_lod_selection_to_order partition_index_run
    append_index_run_to_order root_polls poll select_round append_index_to_order
builds = rw last_octant refl

build_lod_index-Indexed_example : Indexed 2 3 three_nodes
build_lod_index-Indexed_example =
    build_lod_index-Indexed diagonal never 2 3 (1, 1, 1) 1 three_nodes builds

build_lod_index-Returns_example : Returns (build_lod_index diagonal never 2 3 (1, 1, 1) 1)
build_lod_index-Returns_example =
    build_lod_index-Returns diagonal never 2 (λ i. tt) (λ n. tt) 3 (1, 1, 1) 1
