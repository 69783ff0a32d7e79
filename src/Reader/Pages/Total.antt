-- ===== src/Reader/Pages/Total.antt =====
-- copc-reader/src/lib.rs: the termination of the walk over the hierarchy pages.
use copc_rust.Prelude.{
  ℕ, zero, suc, ◌+◌, ◌*◌, ◌<◌, ◌≤◌, arith, List, [], ◌∷◌, length, Option, none, some, not, ◌&&◌,
  invalid_data, Returns, >>=-Returns, Result-cases, Bool-cases, ok_or, inl, inr,
}
use copc_rust.Prelude.Int.{to_unsigned, ℤ, pos, negsuc}
use copc_rust.Prelude.Maps.{get}
use copc_rust.Core.Key.{key_order}
use copc_rust.Core.Hierarchy.{Entry, HierarchyPage, is_child_page}
use copc_rust.Reader.Hierarchy.{
  CopcDataRanges, HierarchyReadLimits, read_hierarchy_page_at, validate_hierarchy_entry,
  max_hierarchy_total_bytes, Hierarchy,
}
use copc_rust.Reader.Hierarchy.Placed.{validate_hierarchy_entry-Returns}
use copc_rust.Reader.Hierarchy.Reading.{read_hierarchy_page_at_inv, read_hierarchy_page_at-Returns}
use copc_rust.Reader.Pages.{
  insert_entry, insert_entries, queue_children, queue_hierarchy_page, load_pages,
  insert_hierarchy_pages, PageRange, push_page, Walk, page_fuel,
}

insert_entry-Returns :
    (hierarchy : Hierarchy) (e : Entry) (previous : Option Entry)
    → Returns (insert_entry hierarchy e previous)
insert_entry-Returns hierarchy e none = tt
insert_entry-Returns hierarchy e (some previous) =
    elim (Bool-cases (is_child_page previous && not (is_child_page e))) [
      | inl h ↦ rw h tt
      | inr h ↦ rw h tt
    ]

insert_entries-Returns :
    (page : HierarchyPage) (hierarchy : Hierarchy) (file_len : ℕ) (ranges : CopcDataRanges)
    → Returns (insert_entries page hierarchy file_len ranges)
unfolding insert_entries
insert_entries-Returns [] hierarchy file_len ranges = tt
insert_entries-Returns (e ∷ page) hierarchy file_len ranges =
    >>=-Returns (validate_hierarchy_entry e file_len ranges) _
      (validate_hierarchy_entry-Returns e file_len ranges)
      λ _.
        >>=-Returns (insert_entry hierarchy e (get e.key hierarchy)) _
          (insert_entry-Returns hierarchy e (get e.key hierarchy))
          λ hierarchy'. insert_entries-Returns page hierarchy' file_len ranges

ok_or-Returns : (z : ℤ) → Returns (ok_or (to_unsigned z) invalid_data)
ok_or-Returns (pos n) = tt
ok_or-Returns (negsuc n) = tt

queue_children-Returns :
    (page : HierarchyPage) (queue : List PageRange × List PageRange)
    → Returns (queue_children page queue)
unfolding queue_children
queue_children-Returns [] queue = tt
queue_children-Returns (e ∷ page) queue = elim (Bool-cases (is_child_page e)) [
  | inl h ↦ rw h (
      >>=-Returns (ok_or (to_unsigned e.byte_size) invalid_data) _ (ok_or-Returns e.byte_size)
        λ n. queue_children-Returns page (push_page (e.offset, n) queue))
  | inr h ↦ rw h (queue_children-Returns page queue)
]

queue_hierarchy_page-Returns :
    (page : HierarchyPage) (walk : Walk) (file_len : ℕ) (ranges : CopcDataRanges)
    → Returns (queue_hierarchy_page page walk file_len ranges)
unfolding queue_hierarchy_page
queue_hierarchy_page-Returns page walk file_len ranges =
    >>=-Returns (insert_entries page walk.hierarchy file_len ranges) _
      (insert_entries-Returns page walk.hierarchy file_len ranges)
      λ hierarchy.
        >>=-Returns (queue_children page (walk.visited, walk.pending)) _
          (queue_children-Returns page (walk.visited, walk.pending)) λ queue. tt

load_pages-Returns :
    (fuel : ℕ) (file : List ℕ) (ranges : CopcDataRanges) (hierarchy : Hierarchy)
    (visited pending : List PageRange) (limits : HierarchyReadLimits)
    → limits.total_bytes ≤ max_hierarchy_total_bytes
    → max_hierarchy_total_bytes < limits.total_bytes + 32 * fuel
    → Returns (load_pages fuel file ranges hierarchy visited pending limits)
unfolding load_pages
load_pages-Returns fuel file ranges hierarchy visited [] limits h k = tt
load_pages-Returns zero file ranges hierarchy visited (p ∷ pending) limits h k =
    absurd (omega arith)
load_pages-Returns (suc fuel) file ranges hierarchy visited (p ∷ pending) limits h k =
    let first =
      Result-cases (read_hierarchy_page_at file p.0 p.1 limits)
        (read_hierarchy_page_at-Returns file p.0 p.1 limits) in
    elim first [
      | inl ((page, limits'), e) ↦
          let read = read_hierarchy_page_at_inv file p.0 p.1 limits limits' page e in
          rw e (
            >>=-Returns
              (queue_hierarchy_page page
                (record { hierarchy = hierarchy; visited = visited; pending = pending })
                (length file) ranges)
              _
              (queue_hierarchy_page-Returns page
                (record { hierarchy = hierarchy; visited = visited; pending = pending })
                (length file) ranges)
              λ walk.
                load_pages-Returns fuel file ranges walk.hierarchy walk.visited walk.pending limits'
                  read.within_limit (omega (arith, read.some_entries, read.total)))
      | inr (kind, e) ↦ rw e tt
    ]

-- From a byte total within its limit on, `insert_hierarchy_pages` returns on any file: it does not
-- panic, and a chain or a cycle of child pages cannot use up the fuel of the model.
pub insert_hierarchy_pages_total :
    (file : List ℕ) (root_page : HierarchyPage) (hierarchy : Hierarchy) (visited : List PageRange)
    (limits : HierarchyReadLimits) (ranges : CopcDataRanges)
    → limits.total_bytes ≤ max_hierarchy_total_bytes
    → Returns (insert_hierarchy_pages file root_page hierarchy visited limits ranges)
unfolding insert_hierarchy_pages
insert_hierarchy_pages_total file root_page hierarchy visited limits ranges h =
    >>=-Returns
      (queue_hierarchy_page root_page
        (record { hierarchy = hierarchy; visited = visited; pending = [] }) (length file) ranges)
      _
      (queue_hierarchy_page-Returns root_page
        (record { hierarchy = hierarchy; visited = visited; pending = [] }) (length file) ranges)
      λ walk.
        load_pages-Returns page_fuel file ranges walk.hierarchy walk.visited walk.pending limits h
          (omega arith)
