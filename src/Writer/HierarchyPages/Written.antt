-- ===== src/Writer/HierarchyPages/Written.antt =====
-- `write_hierarchy_page_tree`: the bytes of a tree of pages.
use copc_rust.Prelude.{
  ℕ, suc, ◌+◌, ◌*◌, ◌^◌, ◌≡◌, refl, sym, ap, ◌∙◌, arith, List, [], ◌∷◌, ◌++◌, append-nil,
  append_assoc, length, length-append, replicate, All, lt→ltb, ≡→==, ok,
}
use copc_rust.Prelude.Int.{pos, negsuc}
use copc_rust.Core.Hierarchy.{Entry}
use copc_rust.Core.Hierarchy.Codec.{entry_bytes, write_le_lem}
use copc_rust.Core.Hierarchy.Page.{IsEntry, page_bytes, length-page_bytes}
use copc_rust.Writer.HierarchyPages.{
  HierarchyPagePlan, plan, HierarchyPageItem, point, child, Items, nil, cons, length_items,
  hierarchy_page_item_entry, write_entries, write_page_tree, write_item_tree, write_children,
}
use copc_rust.Writer.HierarchyPages.Layout.{
  tree_size, item_size, items_size, laid, laid_item, laid_items,
}

-- The entry that an item has in its page, and the entries of a page.
abbrev pub item_entry : HierarchyPageItem → Entry
item_entry (point e) = e
item_entry (child (plan key items o b)) = record {
  key = key;
  offset = o;
  byte_size = pos b;
  point_count = negsuc 0;
}

abbrev pub listed : Items → List Entry
listed nil = []
listed (cons item items) = item_entry item ∷ listed items

-- The bytes of a page, then those of the trees of its child pages.
abbrev mutual
  pub tree_bytes : HierarchyPagePlan → List ℕ
  tree_bytes (plan key items o b) = page_bytes (listed items) ++ items_bytes items

  pub item_bytes : HierarchyPageItem → List ℕ
  item_bytes (point e) = []
  item_bytes (child page) = tree_bytes page

  pub items_bytes : Items → List ℕ
  items_bytes nil = []
  items_bytes (cons item items) = item_bytes item ++ items_bytes items

-- Every entry of every page is one that `write_le` accepts.
abbrev mutual
  pub Writable : HierarchyPagePlan → Type 0
  Writable (plan key items o b) = All IsEntry (listed items) × WritableItems items

  pub WritableItem : HierarchyPageItem → Type 0
  WritableItem (point e) = Unit
  WritableItem (child page) = Writable page

  pub WritableItems : Items → Type 0
  WritableItems nil = Unit
  WritableItems (cons item items) = WritableItem item × WritableItems items

length-listed : (items : Items) → length (listed items) ≡ length_items items
length-listed nil = refl
length-listed (cons item items) = ap suc (length-listed items)

length-laid_items :
    (items : Items) (from : ℕ) → length_items (laid_items items from) ≡ length_items items
length-laid_items nil from = refl
length-laid_items (cons item items) from = ap suc (length-laid_items items (from + item_size item))

pub length-page :
    (items : Items) (from : ℕ)
    → length (page_bytes (listed (laid_items items from))) ≡ length_items items * 32
length-page items from =
    length-page_bytes (listed (laid_items items from))
    ∙ ap (λ (t : ℕ). t * 32) (length-listed (laid_items items from) ∙ length-laid_items items from)

mutual
  length-tree :
      (page : HierarchyPagePlan) (from : ℕ) → length (tree_bytes (laid page from)) ≡ tree_size page
  length-tree (plan key items o b) from =
      let inner = from + length_items items * 32 in
      length-append (page_bytes (listed (laid_items items inner)))
        (items_bytes (laid_items items inner))
      ∙ omega (arith, length-page items inner, length-items items inner)

  length-item :
      (item : HierarchyPageItem) (from : ℕ)
      → length (item_bytes (laid_item item from)) ≡ item_size item
  length-item (point e) from = refl
  length-item (child page) from = length-tree page from

  length-items :
      (items : Items) (from : ℕ) → length (items_bytes (laid_items items from)) ≡ items_size items
  length-items nil from = refl
  length-items (cons item items) from =
      length-append (item_bytes (laid_item item from))
        (items_bytes (laid_items items (from + item_size item)))
      ∙ omega (arith, length-item item from, length-items items (from + item_size item))

pub length-tree_bytes :
    (page : HierarchyPagePlan) (from : ℕ) → length (tree_bytes (laid page from)) ≡ tree_size page
length-tree_bytes page from = length-tree page from

pub length-item_bytes :
    (item : HierarchyPageItem) (from : ℕ)
    → length (item_bytes (laid_item item from)) ≡ item_size item
length-item_bytes item from = length-item item from

item_entry_lem :
    (item : HierarchyPageItem)
    → IsEntry (item_entry item)
    → hierarchy_page_item_entry item ≡ ok (item_entry item)
unfolding hierarchy_page_item_entry
item_entry_lem (point e) h = refl
item_entry_lem (child (plan key items o b)) (m, v) = rw (lt→ltb b (2 ^ 31) m.byte_size_i32.0)

write_entries_lem :
    (items : Items) (file : List ℕ)
    → All IsEntry (listed items)
    → write_entries items file ≡ ok (file ++ page_bytes (listed items))
unfolding write_entries
write_entries_lem nil file h = ap ok (sym (append-nil file))
write_entries_lem (cons item items) file ((m, v), h) = rw (
  item_entry_lem item (m, v),
  write_le_lem (item_entry item) (replicate 32 0) v refl,
  write_entries_lem items (file ++ entry_bytes (item_entry item)) h,
  append_assoc file (entry_bytes (item_entry item)) (page_bytes (listed items)),
)

mutual
  unfolding write_page_tree

  write_page :
      (page : HierarchyPagePlan) (from : ℕ) (file : List ℕ)
      → length file ≡ from
      → Writable (laid page from)
      → write_page_tree (laid page from) file ≡ ok (file ++ tree_bytes (laid page from))
  write_page (plan key items o b) from file here (entries, below) =
      let inner = from + length_items items * 32 in
      let bytes = page_bytes (listed (laid_items items inner)) in
      rw (
        ≡→== (length file) from here,
        write_entries_lem (laid_items items inner) file entries,
        write_rest items inner (file ++ bytes)
            (length-append file bytes ∙ omega (arith, length-page items inner)) below,
        append_assoc file bytes (items_bytes (laid_items items inner)),
      )

  write_one :
      (item : HierarchyPageItem) (from : ℕ) (file : List ℕ)
      → length file ≡ from
      → WritableItem (laid_item item from)
      → write_item_tree (laid_item item from) file ≡ ok (file ++ item_bytes (laid_item item from))
  write_one (point e) from file here h = ap ok (sym (append-nil file))
  write_one (child page) from file here h = write_page page from file here h

  write_rest :
      (items : Items) (from : ℕ) (file : List ℕ)
      → length file ≡ from
      → WritableItems (laid_items items from)
      → write_children (laid_items items from) file
        ≡ ok (file ++ items_bytes (laid_items items from))
  write_rest nil from file here h = ap ok (sym (append-nil file))
  write_rest (cons item items) from file here (one, rest) =
      let bytes = item_bytes (laid_item item from) in
      let next = from + item_size item in
      rw (
        write_one item from file here one,
        write_rest items next (file ++ bytes)
            (length-append file bytes ∙ omega (arith, length-item item from)) rest,
        append_assoc file bytes (items_bytes (laid_items items next)),
      )

-- `write_hierarchy_page_tree` meets each page at its offset, and appends the bytes of the tree.
pub write_page_tree_lem :
    (page : HierarchyPagePlan) (file : List ℕ)
    → Writable (laid page (length file))
    → write_page_tree (laid page (length file)) file
      ≡ ok (file ++ tree_bytes (laid page (length file)))
write_page_tree_lem page file h = write_page page (length file) file refl h
