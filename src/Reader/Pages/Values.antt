-- ===== src/Reader/Pages/Values.antt =====
-- copc-reader/src/lib.rs: lemmas on what holds of each entry that the walk over the pages inserts.
use copc_rust.Prelude.{
  ℕ, zero, suc, ◌≡◌, ◌&&◌, not, Bool-cases, inl, inr, List, [], ◌∷◌, Option, none, some, All,
  length, ok, >>=-eq-ok,
}
use copc_rust.Prelude.Maps.{get, insert}
use copc_rust.Prelude.Order.{Ordering-cases}
use copc_rust.Core.Key.{VoxelKey, key_order, cmp_key}
use copc_rust.Core.Hierarchy.{Entry, HierarchyPage, is_child_page}
use copc_rust.Reader.Hierarchy.{
  CopcDataRanges, Hierarchy, HierarchyReadLimits, validate_hierarchy_entry, read_hierarchy_page_at,
}
use copc_rust.Reader.Pages.{
  insert_entry, insert_entries, queue_children, queue_hierarchy_page, load_pages,
  insert_hierarchy_pages, PageRange, Walk, page_fuel,
}

module _ (P : Entry → Type 0) where
  abbrev pub Values : Hierarchy → Type 0
  Values = All (λ q. P q.1)

  insert-Values :
      (k : VoxelKey) (e : Entry) (h : Hierarchy) → P e → Values h → Values (insert k e h)
  unfolding insert
  insert-Values k e [] p v = (p, tt)
  insert-Values k e ((j, o) ∷ h) p (w, v) = elim (Ordering-cases (cmp_key k j)) [
    | inl c ↦ rw (c, insert) (p, (w, v))
    | inr (inl c) ↦ rw (c, insert) (p, v)
    | inr (inr c) ↦ rw (c, insert) (w, insert-Values k e h p v)
  ]

  insert_entry-Values :
      (h h' : Hierarchy) (e : Entry) (previous : Option Entry)
      → insert_entry h e previous ≡ ok h'
      → P e
      → Values h
      → Values h'
  insert_entry-Values h h' e none r p v =
      let same : insert e.key e h ≡ h' = cc in rw (← same) (insert-Values e.key e h p v)
  insert_entry-Values h h' e (some previous) r p v =
      elim (Bool-cases (is_child_page previous && not (is_child_page e))) [
        | inl b ↦
            let put : ok (insert e.key e h) ≡ ok h' = rw b at r in
            let same : insert e.key e h ≡ h' = cc in rw (← same) (insert-Values e.key e h p v)
        | inr b ↦ absurd (cc (rw b at r))
      ]

  module _ (file_len : ℕ) (ranges : CopcDataRanges)
      (accepted : (e : Entry) → validate_hierarchy_entry e file_len ranges ≡ ok tt → P e) where
    insert_entries-Values :
        (page : HierarchyPage) (h h' : Hierarchy)
        → insert_entries page h file_len ranges ≡ ok h'
        → Values h
        → Values h'
    unfolding insert_entries
    insert_entries-Values [] h h' r v = let same : h ≡ h' = cc in rw (← same) v
    insert_entries-Values (e ∷ page) h h' r v =
        let (_, valid, r1) = >>=-eq-ok (validate_hierarchy_entry e file_len ranges) _ r in
        let (h1, put, r2) = >>=-eq-ok (insert_entry h e (get e.key h)) _ r1 in
        insert_entries-Values page h1 h' r2
          (insert_entry-Values h h1 e (get e.key h) put (accepted e valid) v)

    queue_hierarchy_page-Values :
        (page : HierarchyPage) (w w' : Walk)
        → queue_hierarchy_page page w file_len ranges ≡ ok w'
        → Values w.hierarchy
        → Values w'.hierarchy
    unfolding queue_hierarchy_page
    queue_hierarchy_page-Values page w w' r v =
        let (h, r1, r2) = >>=-eq-ok (insert_entries page w.hierarchy file_len ranges) _ r in
        let (q, _, r4) = >>=-eq-ok (queue_children page (w.visited, w.pending)) _ r2 in
        let mine : Walk = record { hierarchy = h; visited = q.0; pending = q.1 } in
        let same : mine ≡ w' = cc in rw (← same) (insert_entries-Values page w.hierarchy h r1 v)

module _ (P : Entry → Type 0) (file : List ℕ) (ranges : CopcDataRanges)
    (accepted : (e : Entry) → validate_hierarchy_entry e (length file) ranges ≡ ok tt → P e) where
  load_pages-Values :
      (fuel : ℕ) (h h' : Hierarchy) (visited pending visited' : List PageRange)
      (limits : HierarchyReadLimits)
      → load_pages fuel file ranges h visited pending limits ≡ ok (h', visited')
      → Values P h
      → Values P h'
  unfolding load_pages
  load_pages-Values fuel h h' visited [] visited' limits r v =
      let same : h ≡ h' = cc in rw (← same) v
  load_pages-Values zero h h' visited (p ∷ pending) visited' limits r v = absurd (cc r)
  load_pages-Values (suc fuel) h h' visited (p ∷ pending) visited' limits r v =
      let ((page, limits'), _, r1) = >>=-eq-ok (read_hierarchy_page_at file p.0 p.1 limits) _ r in
      let w : Walk = record { hierarchy = h; visited = visited; pending = pending } in
      let (w', queued, r2) = >>=-eq-ok (queue_hierarchy_page page w (length file) ranges) _ r1 in
      load_pages-Values fuel w'.hierarchy h' w'.visited w'.pending visited' limits' r2
        (queue_hierarchy_page-Values P (length file) ranges accepted page w w' queued v)

  pub insert_hierarchy_pages-Values :
      (root_page : HierarchyPage) (visited visited' : List PageRange) (h : Hierarchy)
      (limits : HierarchyReadLimits)
      → insert_hierarchy_pages file root_page [] visited limits ranges ≡ ok (h, visited')
      → Values P h
  unfolding insert_hierarchy_pages
  insert_hierarchy_pages-Values root_page visited visited' h limits r =
      let w : Walk = record { hierarchy = []; visited = visited; pending = [] } in
      let (w', queued, r1) =
        >>=-eq-ok (queue_hierarchy_page root_page w (length file) ranges) _ r in
      load_pages-Values page_fuel w'.hierarchy h w'.visited w'.pending visited' limits r1
        (queue_hierarchy_page-Values P (length file) ranges accepted root_page w w' queued tt)
