-- ===== src/Writer/HierarchyPages/Layout.antt =====
-- copc-writer/src/hierarchy_pages.rs: `assign_offsets`, the offsets of the pages.
use copc_rust.Prelude.{ℕ, ◌+◌, ◌*◌, ◌^◌, ◌<◌, ◌≡◌, ap, arith, some, lt→ltb, ok}
use copc_rust.Prelude.Int.{checked_add_u64}
use copc_rust.Writer.HierarchyPages.{
  HierarchyPagePlan, plan, HierarchyPageItem, point, child, Items, nil, cons, length_items,
  assign_offsets, assign_item, assign_items, hierarchy_page_byte_size,
}

-- The bytes of a tree: 32 for each item of each page.
abbrev mutual
  pub tree_size : HierarchyPagePlan → ℕ
  tree_size (plan key items o b) = length_items items * 32 + items_size items

  pub item_size : HierarchyPageItem → ℕ
  item_size (point e) = 0
  item_size (child page) = tree_size page

  pub items_size : Items → ℕ
  items_size nil = 0
  items_size (cons item items) = item_size item + items_size items

-- The tree with its pages laid out from an offset on: a page, then the trees of its child pages.
abbrev mutual
  pub laid : HierarchyPagePlan → ℕ → HierarchyPagePlan
  laid (plan key items o b) from =
      plan key (laid_items items (from + length_items items * 32)) from (length_items items * 32)

  pub laid_item : HierarchyPageItem → ℕ → HierarchyPageItem
  laid_item (point e) from = point e
  laid_item (child page) from = child (laid page from)

  pub laid_items : Items → ℕ → Items
  laid_items nil from = nil
  laid_items (cons item items) from =
      cons (laid_item item from) (laid_items items (from + item_size item))

page_size_fits : (n : ℕ) → n * 32 < 2 ^ 64 → hierarchy_page_byte_size n ≡ ok (n * 32)
unfolding hierarchy_page_byte_size
page_size_fits n h = rw (lt→ltb (n * 32) (2 ^ 64) h)

sum_fits_u64 : (m n : ℕ) → m + n < 2 ^ 64 → checked_add_u64 m n ≡ some (m + n)
sum_fits_u64 m n h = rw (lt→ltb (m + n) (2 ^ 64) h)

mutual
  unfolding assign_offsets

  assign_page :
      (page : HierarchyPagePlan) (from : ℕ)
      → from + tree_size page < 2 ^ 64
      → assign_offsets page from ≡ ok (laid page from, from + tree_size page)
  assign_page (plan key items o b) from fits =
      let size = length_items items * 32 in
      let end : from + size + items_size items ≡ from + (size + items_size items) = omega arith in
      rw (
        page_size_fits (length_items items) (omega arith),
        sum_fits_u64 from size (omega arith),
        assign_rest items (from + size) (omega arith),
        end,
      )

  assign_one :
      (item : HierarchyPageItem) (from : ℕ)
      → from + item_size item < 2 ^ 64
      → assign_item item from ≡ ok (laid_item item from, from + item_size item)
  assign_one (point e) from fits =
      let same : from ≡ from + 0 = omega arith in ap (λ t. ok (point e, t)) same
  assign_one (child page) from fits = rw (assign_page page from fits)

  assign_rest :
      (items : Items) (from : ℕ)
      → from + items_size items < 2 ^ 64
      → assign_items items from ≡ ok (laid_items items from, from + items_size items)
  assign_rest nil from fits = let same : from ≡ from + 0 = omega arith in ap (λ t. ok (nil, t)) same
  assign_rest (cons item items) from fits =
      let end : from + item_size item + items_size items
          ≡ from + (item_size item + items_size items) =
        omega arith in
      rw (
        assign_one item from (omega arith),
        assign_rest items (from + item_size item) (omega arith),
        end,
      )

-- While the end of the tree fits a `u64`, `assign_hierarchy_page_offsets` lays the pages out without
-- gaps and returns the offset behind the last.
pub assign_offsets_lem :
    (page : HierarchyPagePlan) (from : ℕ)
    → from + tree_size page < 2 ^ 64
    → assign_offsets page from ≡ ok (laid page from, from + tree_size page)
assign_offsets_lem page from fits = assign_page page from fits
