-- ===== src/Writer/HierarchyPages/Root.antt =====
-- `plan_hierarchy_pages` at the root of the octree, as the writer calls it.
use copc_rust.Prelude.{ℕ, ◌-◌, ◌/◌, ◌^◌, ◌<◌, ◌≤◌, ◌≡◌, arith, List, [], ◌∷◌, map, length, All}
use copc_rust.Prelude.Int.{pos_part}
use copc_rust.Core.Key
use copc_rust.Core.Key.{VoxelKey}
use copc_rust.Core.Key.Tree.{IsKey}
use copc_rust.Core.Hierarchy.{Entry}
use copc_rust.Writer.HierarchyPages.{plan_hierarchy_pages}
use copc_rust.Writer.HierarchyPages.Contains.{Below, depth}
use copc_rust.Writer.HierarchyPages.Split.{InTree, key_of}
use copc_rust.Writer.HierarchyPages.Plan.{Planned, plan_pages_lem}
use mathlib.Core.List.{Nodup}
use native.Mathlib.Nat.{div-eq_of_lt}

cut_to_zero : (x l : ℕ) → x < 2 ^ l → x / 2 ^ (l - 0) ≡ 0
cut_to_zero x l h = let same : l - 0 ≡ l = omega arith in rw same (div-eq_of_lt h)

Below-root : (k : VoxelKey) → IsKey k → depth k ≤ 30 → Below Key.root k
Below-root k h d =
    let (hx, hy, hz) = h.inside (omega arith) in
    (
      omega arith,
      cut_to_zero (pos_part k.x) (depth k) hx,
      cut_to_zero (pos_part k.y) (depth k) hy,
      cut_to_zero (pos_part k.z) (depth k) hz,
    )

root-IsKey : IsKey Key.root
root-IsKey = ground arith

-- What the writer hands to the planner: an entry of property `P` at level 30 at most.
abbrev pub IsPlannable : (Entry → Type 0) → Entry → Type 0
IsPlannable P e = IsKey e.key × (depth e.key ≤ 30) × P e

plannable-InTree :
    (P : Entry → Type 0) (es : List Entry) → All (IsPlannable P) es → All (InTree P 31 Key.root) es
plannable-InTree P [] h = tt
plannable-InTree P (e ∷ es) ((key, d, p), h) =
    ((key, omega arith, Below-root e.key key d, p), plannable-InTree P es h)

-- From one or more entries of distinct valid keys, at level 30 at most, `plan_hierarchy_pages` at the root makes
-- a tree of pages, without a panic and within the fuel: the points of its pages are the given
-- entries, each once, every page has 1 to 4096 items, and every page key is valid.
pub plan_hierarchy_pages-Planned :
    (P : Entry → Type 0) (entries : List Entry)
    → All (IsPlannable P) entries
    → 0 < length entries
    → Nodup (map key_of entries)
    → Planned P entries Key.root (plan_hierarchy_pages entries Key.root)
unfolding plan_hierarchy_pages
plan_hierarchy_pages-Planned P entries all ne nodup =
    plan_pages_lem P 32 31 Key.root entries root-IsKey (omega arith) (omega arith)
      (plannable-InTree P entries all) ne nodup
