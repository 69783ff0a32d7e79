-- ===== src/Writer/HierarchyPages/Readback.antt =====
-- copc-writer/src/hierarchy_pages.rs: the pages of a written tree, as the parser reads them.
use copc_rust.Prelude.{
  ℕ, ◌+◌, ◌*◌, ◌^◌, ◌<◌, ◌≤◌, ◌≡◌, refl, sym, ap, ◌∙◌, arith, List, [], ◌++◌, append-nil,
  append_assoc, length, length-append, drop, drop-append, All, ok, ◌>>=◌,
}
use copc_rust.Prelude.Slices.{slice, slice_mid}
use copc_rust.Core.Hierarchy.{Entry, page_from_le_bytes}
use copc_rust.Core.Hierarchy.Page.{IsEntry, page_bytes, page_from_le_bytes-page_bytes}
use copc_rust.Writer.HierarchyPages.{
  HierarchyPagePlan, plan, HierarchyPageItem, point, child, Items, nil, cons, length_items,
  write_page_tree, assign_offsets,
}
use copc_rust.Writer.HierarchyPages.Plan.{IsPaged, Within}
use copc_rust.Writer.HierarchyPages.Layout.{
  tree_size, item_size, laid, laid_item, laid_items, assign_offsets_lem,
}
use copc_rust.Writer.HierarchyPages.Written.{
  listed, tree_bytes, item_bytes, items_bytes, Writable, WritableItem, WritableItems, length-page,
  length-item_bytes, write_page_tree_lem, length-tree_bytes,
}
use copc_rust.Writer.HierarchyPages.Valid.{laid-Writable}

-- Each page of the tree stands in the file at its offset, and the page parser reads its entries.
abbrev mutual
  pub Readable : List ℕ → HierarchyPagePlan → Type 0
  Readable file (plan key items o b) =
      ((slice file o (o + b) >>= page_from_le_bytes) ≡ ok (listed items)) × ReadableItems file items

  pub ReadableItem : List ℕ → HierarchyPageItem → Type 0
  ReadableItem file (point e) = Unit
  ReadableItem file (child page) = Readable file page

  pub ReadableItems : List ℕ → Items → Type 0
  ReadableItems file nil = Unit
  ReadableItems file (cons item items) = ReadableItem file item × ReadableItems file items

page_at :
    (file before bytes after : List ℕ) (es : List Entry) (from size : ℕ)
    → file ≡ before ++ (bytes ++ after)
    → length before ≡ from
    → length bytes ≡ size
    → bytes ≡ page_bytes es
    → All IsEntry es
    → (slice file from (from + size) >>= page_from_le_bytes) ≡ ok es
page_at file before bytes after es from size e here len same good =
    let rest : drop from file ≡ bytes ++ after =
      ap (drop from) e ∙ drop-append from before (bytes ++ after) here in
    let enough : from + size ≤ length file =
      rw (e, length-append before (bytes ++ after), length-append bytes after) (omega arith) in
    rw (slice_mid file bytes after from (from + size) rest (omega arith) enough (omega arith), same)
      (page_from_le_bytes-page_bytes es good)

mutual
  page-Readable :
      (page : HierarchyPagePlan) (from : ℕ) (file before after : List ℕ)
      → file ≡ before ++ (tree_bytes (laid page from) ++ after)
      → length before ≡ from
      → Writable (laid page from)
      → Readable file (laid page from)
  page-Readable (plan key items o b) from file before after e here (entries, below) =
      let inner = from + length_items items * 32 in
      let bytes = page_bytes (listed (laid_items items inner)) in
      let rest = items_bytes (laid_items items inner) in
      let e' : file ≡ before ++ (bytes ++ (rest ++ after)) =
        e ∙ ap (λ t. before ++ t) (append_assoc bytes rest after) in
      (
        page_at file before bytes (rest ++ after) (listed (laid_items items inner)) from
            (length_items items * 32) e' here (length-page items inner) refl entries,
        items-Readable items inner file (before ++ bytes) after
            (e' ∙ sym (append_assoc before bytes (rest ++ after)))
            (length-append before bytes ∙ omega (arith, length-page items inner)) below,
      )

  item-Readable :
      (item : HierarchyPageItem) (from : ℕ) (file before after : List ℕ)
      → file ≡ before ++ (item_bytes (laid_item item from) ++ after)
      → length before ≡ from
      → WritableItem (laid_item item from)
      → ReadableItem file (laid_item item from)
  item-Readable (point p) from file before after e here h = tt
  item-Readable (child page) from file before after e here h =
      page-Readable page from file before after e here h

  items-Readable :
      (items : Items) (from : ℕ) (file before after : List ℕ)
      → file ≡ before ++ (items_bytes (laid_items items from) ++ after)
      → length before ≡ from
      → WritableItems (laid_items items from)
      → ReadableItems file (laid_items items from)
  items-Readable nil from file before after e here h = tt
  items-Readable (cons item items) from file before after e here (one, more) =
      let bytes = item_bytes (laid_item item from) in
      let next = from + item_size item in
      let rest = items_bytes (laid_items items next) in
      let e' : file ≡ before ++ (bytes ++ (rest ++ after)) =
        e ∙ ap (λ t. before ++ t) (append_assoc bytes rest after) in
      (
        item-Readable item from file before (rest ++ after) e' here one,
        items-Readable items next file (before ++ bytes) after
            (e' ∙ sym (append_assoc before bytes (rest ++ after)))
            (length-append before bytes ∙ omega (arith, length-item_bytes item from)) more,
      )

-- The pages of a tree, written behind `file`.
pub record Stored (page : HierarchyPagePlan) (file : List ℕ) : Type 0 where
  pub laid_page : HierarchyPagePlan
  pub end : ℕ
  pub written : List ℕ
  pub assigns : assign_offsets page (length file) ≡ ok (laid_page, end)
  pub writes : write_page_tree laid_page file ≡ ok written
  pub kept : (rest : List ℕ) × (written ≡ file ++ rest)
  pub ends : length written ≡ end
  pub reads : Readable written laid_page

-- A planned tree of valid entries whose end fits a `u64`, with its offsets assigned from the end of
-- the file on, is written behind the file up to the assigned end; then the parser finds each page at
-- the offset and size that the tree gives, with the entries of its items.
pub write_page_tree-Stored :
    (page : HierarchyPagePlan) (file : List ℕ)
    → length file + tree_size page < 2 ^ 64
    → Within IsEntry page
    → IsPaged page
    → Stored page file
write_page_tree-Stored page file fits w p =
    let from = length file in
    let ready = laid-Writable page from fits w p in
    record {
      laid_page = laid page from;
      end = from + tree_size page;
      written = file ++ tree_bytes (laid page from);
      assigns = assign_offsets_lem page from fits;
      writes = write_page_tree_lem page file ready;
      kept = (tree_bytes (laid page from), refl);
      ends =
          length-append file (tree_bytes (laid page from))
          ∙ ap (λ (t : ℕ). from + t) (length-tree_bytes page from);
      reads =
          page-Readable page from (file ++ tree_bytes (laid page from)) file []
            (ap (λ t. file ++ t) (sym (append-nil (tree_bytes (laid page from))))) refl ready;
    }
