-- ===== src/Writer/HierarchyPages/Valid.antt =====
-- copc-writer/src/hierarchy_pages.rs: the validity of the entries of a tree.
use copc_rust.Prelude.{ℕ, ◌+◌, ◌*◌, ◌^◌, ◌<◌, ◌≤◌, refl, arith, All, inr}
use copc_rust.Prelude.Int.{pos, negsuc, IsI32}
use copc_rust.Core.Key.{VoxelKey}
use copc_rust.Core.Key.Tree.{IsKey}
use copc_rust.Core.Hierarchy.Validity.{Entry-validate_iff}
use copc_rust.Core.Hierarchy.Page.{IsEntry}
use copc_rust.Writer.HierarchyPages.{
  HierarchyPagePlan, plan, HierarchyPageItem, point, child, Items, nil, cons, length_items,
}
use copc_rust.Writer.HierarchyPages.Contains.{depth}
use copc_rust.Writer.HierarchyPages.Plan.{
  IsPaged, IsPagedItem, IsPagedItems, Within, WithinItem, WithinItems,
}
use copc_rust.Writer.HierarchyPages.Layout.{
  tree_size, item_size, items_size, laid, laid_item, laid_items,
}
use copc_rust.Writer.HierarchyPages.Written.{
  item_entry, listed, Writable, WritableItem, WritableItems,
}
use native.Mathlib.Nat.{pow-le-pow_right}

shallow-IsI32 :
    (k : VoxelKey) → IsKey k → depth k ≤ 30 → IsI32 k.level × IsI32 k.x × IsI32 k.y × IsI32 k.z
shallow-IsI32 k h d =
    let size : 2 ^ depth k ≤ 2 ^ 30 = pow-le-pow_right (omega arith) d in
    let (hx, hy, hz) = h.inside (omega arith) in
    (
      (omega arith, omega (arith, h.level_pos)),
      (omega arith, omega (arith, h.x_pos)),
      (omega arith, omega (arith, h.y_pos)),
      (omega arith, omega (arith, h.z_pos)),
    )

-- The entry of a child page is valid.
page-IsEntry :
    (k : VoxelKey) (o b : ℕ)
    → IsKey k
    → depth k ≤ 30
    → o < 2 ^ 64
    → 0 < b
    → b < 2 ^ 31
    → IsEntry (record { key = k; offset = o; byte_size = pos b; point_count = negsuc 0 })
page-IsEntry k o b key d ho hb hb' =
    let (il, ix, iy, iz) = shallow-IsI32 k key d in
    (
      record {
        level_i32 = il;
        x_i32 = ix;
        y_i32 = iy;
        z_i32 = iz;
        offset_u64 = ho;
        byte_size_i32 = omega arith;
        point_count_i32 = omega arith;
      },
      (Entry-validate_iff _).1 (key, inr (inr (refl, hb))),
    )

item-IsEntry :
    (item : HierarchyPageItem) (from : ℕ)
    → from + item_size item < 2 ^ 64
    → WithinItem IsEntry item
    → IsPagedItem item
    → IsEntry (item_entry (laid_item item from))
item-IsEntry (point e) from fits w p = w
item-IsEntry (child (plan key items o b)) from fits (k, d, w) (some, few, p) =
    page-IsEntry key from (length_items items * 32) k d (omega arith) (omega arith) (omega arith)

listed-IsEntry :
    (items : Items) (from : ℕ)
    → from + items_size items < 2 ^ 64
    → WithinItems IsEntry items
    → IsPagedItems items
    → All IsEntry (listed (laid_items items from))
listed-IsEntry nil from fits w p = tt
listed-IsEntry (cons item items) from fits (w, ws) (p, ps) = (
  item-IsEntry item from (omega arith) w p,
  listed-IsEntry items (from + item_size item) (omega arith) ws ps,
)

mutual
  page-Writable :
      (page : HierarchyPagePlan) (from : ℕ)
      → from + tree_size page < 2 ^ 64
      → Within IsEntry page
      → IsPaged page
      → Writable (laid page from)
  page-Writable (plan key items o b) from fits (k, d, w) (some, few, p) =
      let inner = from + length_items items * 32 in
      (listed-IsEntry items inner (omega arith) w p, items-Writable items inner (omega arith) w p)

  item-Writable :
      (item : HierarchyPageItem) (from : ℕ)
      → from + item_size item < 2 ^ 64
      → WithinItem IsEntry item
      → IsPagedItem item
      → WritableItem (laid_item item from)
  item-Writable (point e) from fits w p = tt
  item-Writable (child page) from fits w p = page-Writable page from fits w p

  items-Writable :
      (items : Items) (from : ℕ)
      → from + items_size items < 2 ^ 64
      → WithinItems IsEntry items
      → IsPagedItems items
      → WritableItems (laid_items items from)
  items-Writable nil from fits w p = tt
  items-Writable (cons item items) from fits (w, ws) (p, ps) = (
    item-Writable item from (omega arith) w p,
    items-Writable items (from + item_size item) (omega arith) ws ps,
  )

pub laid-Writable :
    (page : HierarchyPagePlan) (from : ℕ)
    → from + tree_size page < 2 ^ 64
    → Within IsEntry page
    → IsPaged page
    → Writable (laid page from)
laid-Writable page from fits w p = page-Writable page from fits w p
