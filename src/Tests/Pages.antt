-- ===== src/Tests/Pages.antt =====
-- The hierarchy pages of the writer at concrete data.
use copc_rust.Prelude.{◌≡◌, ◌≢◌, arith, ◌⊎◌, [], ◌∷◌, replicate, map, true, false, ok}
use copc_rust.Prelude.Int.{pos}
use copc_rust.Core.Key
use copc_rust.Core.Key.{VoxelKey}
use copc_rust.Core.Key.Tree.{voxel}
use copc_rust.Core.Hierarchy.{Entry}
use copc_rust.Writer.HierarchyPages.{
  HierarchyPagePlan, plan, point, child, nil, cons, key_contains, assign_offsets,
  plan_hierarchy_pages,
}
use copc_rust.Writer.HierarchyPages.Contains.{Below, key_contains_cases}
use copc_rust.Writer.HierarchyPages.Split.{key_of}
use copc_rust.Writer.HierarchyPages.Plan.{Planned}
use copc_rust.Writer.HierarchyPages.Root.{plan_hierarchy_pages-Planned}
use copc_rust.Writer.HierarchyPages.Layout.{assign_offsets_lem}
use copc_rust.Writer.HierarchyPages.Readback.{Stored, write_page_tree-Stored}
use copc_rust.Tests.Keys.{sample, sample-IsEntry}
use mathlib.Core.List.{Nodup, Nodup-cons, not-mem-nil}
use mathlib.Core.List.Memᴰ
use mathlib.Core.List.Pairwise
use mathlib.Core.Logic.{∥∥₁_elim}
use mathlib.Core.HLevel.{⊥_prop}

abbrev top : Entry
top = record { key = Key.root; offset = 600; byte_size = pos 40; point_count = pos 3 }

abbrev small_tree : HierarchyPagePlan
small_tree =
    plan Key.root (cons (child (plan (voxel 1 1 0 0) (cons (point sample) nil) 0 0)) nil) 0 0

key_contains_cases_example :
    (key_contains (voxel 1 1 0 0) (voxel 2 3 0 1) ≡ ok true) × Below (voxel 1 1 0 0) (voxel 2 3 0 1)
    ⊎ (key_contains (voxel 1 1 0 0) (voxel 2 3 0 1) ≡ ok false)
      × (¬ Below (voxel 1 1 0 0) (voxel 2 3 0 1))
key_contains_cases_example =
    key_contains_cases (voxel 1 1 0 0) (voxel 2 3 0 1) (ground arith) (ground arith) (omega arith)

keys_differ : Key.root ≢ voxel 2 3 0 1
keys_differ = ground arith

top-sample-Nodup : Nodup (map key_of (top ∷ sample ∷ []))
top-sample-Nodup = Nodup-cons.1 (
  λ m. ∥∥₁_elim m ⊥_prop (λ d. keys_differ (Memᴰ.eq_of_singleton d)),
  Nodup-cons.1 (λ m. not-mem-nil m, Pairwise.nil),
)

plan_hierarchy_pages-Planned_example :
    Planned
      (λ e. Unit)
      (top ∷ sample ∷ [])
      Key.root
      (plan_hierarchy_pages (top ∷ sample ∷ []) Key.root)
plan_hierarchy_pages-Planned_example =
    plan_hierarchy_pages-Planned (λ e. Unit) (top ∷ sample ∷ [])
      ((ground arith, omega arith, tt), ((ground arith, omega arith, tt), tt)) (omega arith)
      top-sample-Nodup

assign_offsets_lem_example :
    assign_offsets small_tree 600
    ≡ ok (
      plan Key.root
          (cons (child (plan (voxel 1 1 0 0) (cons (point sample) nil) 632 32)) nil)
          600
          32,
      664,
    )
assign_offsets_lem_example = assign_offsets_lem small_tree 600 (omega arith)

write_page_tree-Stored_example : Stored small_tree (replicate 60 0)
write_page_tree-Stored_example =
    write_page_tree-Stored small_tree (replicate 60 0) (omega arith)
      (ground arith, omega arith, (((ground arith, omega arith, (sample-IsEntry, tt)), tt)))
      (omega arith, omega arith, ((omega arith, omega arith, (tt, tt)), tt))
