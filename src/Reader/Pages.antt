-- ===== src/Reader/Pages.antt =====
-- copc-reader/src/lib.rs: the walk over the hierarchy pages.
pub mod Total
pub mod Covers
pub mod Values
pub mod Queued
pub mod Complete
use copc_rust.Prelude.{
  ℕ, zero, suc, ◌+◌, ◌*◌, ◌/◌, ◌%◌, ◌^◌, ◌≡◌, Bool, true, false, ◌&&◌, ◌||◌, not, List, [], ◌∷◌,
  Option, none, some, ltb, leb, ◌==◌, if◌then◌else◌, length, take, drop, Result, ok, err, fault,
  out_of_fuel, invalid_data, io, reject_if, ok_or, ◌>>=◌, ◌>>◌,
}
use copc_rust.Prelude.Int.{ℤ, to_unsigned, checked_add_u64}
use copc_rust.Prelude.Maps.{get, insert}
use copc_rust.Prelude.Order.{nat_order}
use copc_rust.Core.Key.{VoxelKey, key_order}
use copc_rust.Core.Hierarchy.{
  Entry, EntryAvailability, empty, point_data, child_page, HierarchyPage, hierarchy_entry_bytes,
  availability, validate, is_child_page, has_point_data, page_from_le_bytes,
}
use copc_rust.Reader.Hierarchy.{
  CopcDataRanges, HierarchyReadLimits, read_hierarchy_page_at, validate_hierarchy_entry,
  max_hierarchy_total_bytes, checked_range_end, Hierarchy,
}

-- The match on `hierarchy.get(&entry.key)`.
abbrev pub insert_entry : Hierarchy → Entry → Option Entry → Result Hierarchy
insert_entry hierarchy entry none = ok (insert entry.key entry hierarchy)
insert_entry hierarchy entry (some previous) =
    if is_child_page previous && not (is_child_page entry)
    then ok (insert entry.key entry hierarchy)
    else err invalid_data

-- The first loop of `queue_hierarchy_page`.
unfoldable pub insert_entries : HierarchyPage → Hierarchy → ℕ → CopcDataRanges → Result Hierarchy
insert_entries [] hierarchy file_len ranges = ok hierarchy
insert_entries (entry ∷ page) hierarchy file_len ranges = do
  validate_hierarchy_entry entry file_len ranges
  hierarchy' ← insert_entry hierarchy entry (get entry.key hierarchy)
  insert_entries page hierarchy' file_len ranges

-- An offset and a size in bytes.
abbrev pub PageRange : Type 0
PageRange = ℕ × ℕ

abbrev pub eq_range : PageRange → PageRange → Bool
eq_range p q = p.0 == q.0 && p.1 == q.1

-- Membership in the `HashSet` of visited pages.
abbrev pub contains : List PageRange → PageRange → Bool
contains [] p = false
contains (q ∷ visited) p = eq_range p q || contains visited p

-- `if visited_pages.insert(p) { pending.push(p); }`: the visited and the pending pages, of which
-- the first is the top of the stack.
abbrev pub push_page : PageRange → List PageRange × List PageRange → List PageRange × List PageRange
push_page p (visited, pending) =
    if contains visited p then (visited, pending) else (p ∷ visited, p ∷ pending)

-- The second loop of `queue_hierarchy_page`, over the child pages.
unfoldable pub queue_children :
    HierarchyPage → List PageRange × List PageRange → Result (List PageRange × List PageRange)
queue_children [] queue = ok queue
queue_children (entry ∷ page) queue =
    let skip = queue_children page queue in
    let push = (do
      byte_size ← ok_or (to_unsigned entry.byte_size) invalid_data
      queue_children page (push_page (entry.offset, byte_size) queue)) in
    if is_child_page entry then push else skip

pub record Walk : Type 0 where
  pub hierarchy : Hierarchy
  pub visited : List PageRange
  pub pending : List PageRange

unfoldable pub queue_hierarchy_page : HierarchyPage → Walk → ℕ → CopcDataRanges → Result Walk
unfolding insert_entries queue_children
queue_hierarchy_page page walk file_len ranges = do
  hierarchy ← insert_entries page walk.hierarchy file_len ranges
  (visited, pending) ← queue_children page (walk.visited, walk.pending)
  ok (record { hierarchy = hierarchy; visited = visited; pending = pending })

-- The loop of `insert_hierarchy_pages` over the visited and the pending pages, for at most `fuel`
-- pages. The last result is the set of visited pages.
unfoldable pub load_pages :
    ℕ
    → List ℕ
    → CopcDataRanges
    → Hierarchy
    → List PageRange
    → List PageRange
    → HierarchyReadLimits
    → Result (Hierarchy × List PageRange)
unfolding queue_hierarchy_page
load_pages fuel file ranges hierarchy visited [] limits = ok (hierarchy, visited)
load_pages zero file ranges hierarchy visited (p ∷ pending) limits = fault out_of_fuel
load_pages (suc fuel) file ranges hierarchy visited (p ∷ pending) limits = do
  (page, limits') ← read_hierarchy_page_at file p.0 p.1 limits
  walk ←
      queue_hierarchy_page page
        (record { hierarchy = hierarchy; visited = visited; pending = pending }) (length file)
        ranges
  load_pages fuel file ranges walk.hierarchy walk.visited walk.pending limits'

-- Each page that is read adds 32 bytes at least to the total, which has a limit.
abbrev pub page_fuel : ℕ
page_fuel = max_hierarchy_total_bytes / hierarchy_entry_bytes + 1

unfoldable pub insert_hierarchy_pages :
    List ℕ
    → HierarchyPage
    → Hierarchy
    → List PageRange
    → HierarchyReadLimits
    → CopcDataRanges
    → Result (Hierarchy × List PageRange)
unfolding load_pages
insert_hierarchy_pages file root_page hierarchy visited limits ranges = do
  walk ←
      queue_hierarchy_page root_page
        (record { hierarchy = hierarchy; visited = visited; pending = [] }) (length file) ranges
  load_pages page_fuel file ranges walk.hierarchy walk.visited walk.pending limits
