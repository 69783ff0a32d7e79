-- ===== src/Writer/HierarchyPages.antt =====
-- copc-writer/src/hierarchy_pages.rs: the plan of the hierarchy pages, their offsets and their bytes.
pub mod Contains
pub mod Split
pub mod Plan
pub mod Root
pub mod Layout
pub mod Written
pub mod Valid
pub mod Readback
use copc_rust.Prelude.{
  ℕ, zero, suc, ◌+◌, ◌*◌, ◌^◌, ◌≡◌, Bool, true, false, ◌&&◌, not, List, [], ◌∷◌, ◌++◌, Option, none,
  some, ltb, leb, ◌==◌, if◌then◌else◌, length, replicate, Result, ok, err, fault, panic,
  out_of_fuel, invalid_input, reject_if, ok_or, or_panic, ◌>>=◌, ◌>>◌,
}
use copc_rust.Prelude.Int.{ℤ, pos, negsuc, ltb_ℤ, eqb_ℤ, shr_ℤ, checked_sub_i32, checked_add_u64}
use copc_rust.Core.Key
use copc_rust.Core.Key.{VoxelKey, eq_key}
use copc_rust.Core.Hierarchy.{Entry, hierarchy_entry_bytes, write_le}

abbrev pub hierarchy_page_max_entries : ℕ
hierarchy_page_max_entries = 4096

mutual
  -- `plan key items offset byte_size`
  pub data HierarchyPagePlan : Type 0 where
    plan : VoxelKey → Items → ℕ → ℕ → HierarchyPagePlan

  pub data HierarchyPageItem : Type 0 where
    point : Entry → HierarchyPageItem
    child : HierarchyPagePlan → HierarchyPageItem

  -- `Vec<HierarchyPageItem>`
  pub data Items : Type 0 where
    nil : Items
    cons : HierarchyPageItem → Items → Items

-- `key.x >> shift`, with `shift` of 32 and more an overflow.
shift_of : ℤ → Option ℕ
shift_of (pos n) = if ltb n 32 then some n else none
shift_of (negsuc n) = none

pub key_contains : VoxelKey → VoxelKey → Result Bool
unfolding shift_of
key_contains ancestor key = if ltb_ℤ key.level ancestor.level then ok false else do
  difference ← or_panic (checked_sub_i32 key.level ancestor.level)
  shift ← or_panic (shift_of difference)
  ok (
      eqb_ℤ (shr_ℤ key.x shift) ancestor.x
      && eqb_ℤ (shr_ℤ key.y shift) ancestor.y
      && eqb_ℤ (shr_ℤ key.z shift) ancestor.z)

abbrev pub put_front : List Entry → Option (List (List Entry)) → Option (List (List Entry))
put_front entries none = none
put_front entries (some lists) = some (entries ∷ lists)

-- The inner loop: the entry joins the first of the child lists, from `octant` on, whose key
-- contains it; `none` if there is no such list.
pub place : VoxelKey → Entry → ℕ → List (List Entry) → Result (Option (List (List Entry)))
place key entry octant [] = ok none
place key entry octant (entries ∷ more) = do
  child_key ← Key.child key octant
  contained ← key_contains child_key entry.key
  let rest = place key entry (octant + 1) more
  if contained
      then ok (some ((entries ++ (entry ∷ [])) ∷ more))
      else rest >>= λ found. ok (put_front entries found)

-- The loop over the entries, with `point_entry` and the lists `child_entries`.
pub distribute :
    VoxelKey
    → List Entry
    → Option Entry
    → List (List Entry)
    → Result (Option Entry × List (List Entry))
unfolding place
distribute key [] point_entry lists = ok (point_entry, lists)
distribute key (entry ∷ entries) point_entry lists =
    let own = distribute key entries (some entry) lists in
    let below = (do
      placed ← place key entry 0 lists
      lists' ← ok_or placed invalid_input
      distribute key entries point_entry lists') in
    if eq_key entry.key key then own else below

abbrev pub points_of : List Entry → Items
points_of [] = nil
points_of (e ∷ es) = cons (point e) (points_of es)

abbrev pub length_items : Items → ℕ
length_items nil = 0
length_items (cons item items) = suc (length_items items)

abbrev pub push_point : Option Entry → Items → Items
push_point none items = items
push_point (some e) items = cons (point e) items

-- The second loop over the child lists: a page for each that is not empty, by `plan_page`.
pub plan_children :
    (List Entry → VoxelKey → Result HierarchyPagePlan)
    → VoxelKey
    → ℕ
    → List (List Entry)
    → Result Items
plan_children plan_page key octant [] = ok nil
plan_children plan_page key octant ([] ∷ more) = plan_children plan_page key (octant + 1) more
plan_children plan_page key octant ((e ∷ es) ∷ more) = do
  child_key ← Key.child key octant
  page ← plan_page (e ∷ es) child_key
  items ← plan_children plan_page key (octant + 1) more
  ok (cons (child page) items)

-- The recursion of `plan_hierarchy_pages`, with at most `fuel` levels of pages.
pub plan_pages : ℕ → List Entry → VoxelKey → Result HierarchyPagePlan
unfolding distribute plan_children
plan_pages zero entries key = fault out_of_fuel
plan_pages (suc fuel) entries key = do
  reject_if (length entries == 0) invalid_input
  let split = do
    (point_entry, lists) ← distribute key entries none (replicate 8 [])
    children ← plan_children (plan_pages fuel) key 0 lists
    let items = push_point point_entry children
    reject_if (ltb hierarchy_page_max_entries (length_items items)) invalid_input
    ok (plan key items 0 0)
  if leb (length entries) hierarchy_page_max_entries
      then ok (plan key (points_of entries) 0 0)
      else split

-- A page tree has a level for each level of the keys at most: 32 suffice down to level 31.
unfoldable pub plan_hierarchy_pages : List Entry → VoxelKey → Result HierarchyPagePlan
plan_hierarchy_pages entries key = plan_pages 32 entries key

-- `usize` and `u64` have 64 bits.
hierarchy_page_byte_size : ℕ → Result ℕ
hierarchy_page_byte_size entry_count =
    if ltb (entry_count * hierarchy_entry_bytes) (2 ^ 64)
    then ok (entry_count * hierarchy_entry_bytes)
    else err invalid_input

-- Returns the page with its offsets, and the offset behind the tree.
mutual
  unfolding hierarchy_page_byte_size

  pub assign_offsets : HierarchyPagePlan → ℕ → Result (HierarchyPagePlan × ℕ)
  assign_offsets (plan key items o b) offset = do
    byte_size ← hierarchy_page_byte_size (length_items items)
    next ← ok_or (checked_add_u64 offset byte_size) invalid_input
    (items', end) ← assign_items items next
    ok (plan key items' offset byte_size, end)

  assign_item : HierarchyPageItem → ℕ → Result (HierarchyPageItem × ℕ)
  assign_item (point e) next = ok (point e, next)
  assign_item (child page) next = do (page', end) ← assign_offsets page next; ok (child page', end)

  assign_items : Items → ℕ → Result (Items × ℕ)
  assign_items nil next = ok (nil, next)
  assign_items (cons item items) next = do
    (item', next') ← assign_item item next
    (items', end) ← assign_items items next'
    ok (cons item' items', end)

-- `i32::try_from` of a `u64`.
to_i32 : ℕ → Option ℤ
to_i32 n = if ltb n (2 ^ 31) then some (pos n) else none

pub hierarchy_page_item_entry : HierarchyPageItem → Result Entry
unfolding to_i32
hierarchy_page_item_entry (point e) = ok e
hierarchy_page_item_entry (child (plan key items offset byte_size)) = do
  size ← ok_or (to_i32 byte_size) invalid_input
  ok (record { key = key; offset = offset; byte_size = size; point_count = negsuc 0 })

-- The first loop of `write_hierarchy_page_tree`: the writer is the file up to its position.
write_entries : Items → List ℕ → Result (List ℕ)
write_entries nil file = ok file
write_entries (cons item items) file = do
  entry ← hierarchy_page_item_entry item
  entry_buf ← write_le entry (replicate hierarchy_entry_bytes 0)
  write_entries items (file ++ entry_buf)

mutual
  unfolding write_entries

  pub write_page_tree : HierarchyPagePlan → List ℕ → Result (List ℕ)
  write_page_tree (plan key items offset byte_size) file = do
    reject_if (not (length file == offset)) invalid_input
    file' ← write_entries items file
    write_children items file'

  -- The second loop, over the child pages.
  write_item_tree : HierarchyPageItem → List ℕ → Result (List ℕ)
  write_item_tree (point e) file = ok file
  write_item_tree (child page) file = write_page_tree page file

  write_children : Items → List ℕ → Result (List ℕ)
  write_children nil file = ok file
  write_children (cons item items) file = do
    file' ← write_item_tree item file
    write_children items file'
