-- ===== src/Reader/Pages/Complete.antt =====
-- copc-reader/src/lib.rs: `insert_hierarchy_pages`, which pages it reads and what it inserts.
use copc_rust.Prelude.{
  ℕ, zero, suc, ◌≡◌, ◌⊎◌, inl, inr, true, List, [], ◌∷◌, ◌==◌, length, take, drop, All, ok,
  >>=-eq-ok, &&-true, ==→≡, Bool-cases,
}
use copc_rust.Core.Key.{key_order}
use copc_rust.Core.Hierarchy.{Entry, HierarchyPage, page_from_le_bytes}
use copc_rust.Reader.Hierarchy.{
  CopcDataRanges, Hierarchy, HierarchyReadLimits, read_hierarchy_page_at,
}
use copc_rust.Reader.Hierarchy.Reading.{read_hierarchy_page_at_inv}
use copc_rust.Reader.Pages.{
  PageRange, Walk, contains, eq_range, insert_entries, queue_children, queue_hierarchy_page,
  load_pages, insert_hierarchy_pages, page_fuel,
}
use copc_rust.Reader.Pages.Covers.{
  Covers, Extends, Extends-refl, Extends-trans, Covers-Extends, IsSound, nothing-IsSound,
  insert_entries_inv,
}
use copc_rust.Reader.Pages.Queued.{IsLinked, queue_children_inv}

-- The entries of a page are in the hierarchy, and its child pages were visited.
abbrev pub IsFollowed : Hierarchy → List PageRange → HierarchyPage → Type 0
IsFollowed h visited = All (λ e. Covers h e × IsLinked visited e)

-- The page at `p` in the file is one of entries that are followed.
abbrev pub IsLoaded : List ℕ → Hierarchy → List PageRange → PageRange → Type 0
IsLoaded file h visited p =
    (page : HierarchyPage) × (page_from_le_bytes (take p.1 (drop p.0 file)) ≡ ok page)
    × IsFollowed h visited page

-- A step of the walk.
record Step (file_len : ℕ) (ranges : CopcDataRanges) (h h' : Hierarchy)
    (visited visited' : List PageRange) : Type 0 where
  extends : Extends h h'
  keeps : (p : PageRange) → contains visited p ≡ true → contains visited' p ≡ true
  sound : IsSound file_len ranges h → IsSound file_len ranges h'

IsFollowed-Step :
    (file_len : ℕ) (ranges : CopcDataRanges) (h h' : Hierarchy) (visited visited' : List PageRange)
    → Step file_len ranges h h' visited visited'
    → (page : HierarchyPage) → IsFollowed h visited page
    → IsFollowed h' visited' page
IsFollowed-Step file_len ranges h h' visited visited' s [] f = tt
IsFollowed-Step file_len ranges h h' visited visited' s (e ∷ page) ((c, l), f) = (
  (Covers-Extends h h' e s.extends c, λ is_page. s.keeps _ (l is_page)),
  IsFollowed-Step file_len ranges h h' visited visited' s page f,
)

All-zip : (P Q : Entry → Type 0) (es : List Entry) → All P es → All Q es → All (λ e. P e × Q e) es
All-zip P Q [] h k = tt
All-zip P Q (e ∷ es) (p, h) (q, k) = ((p, q), All-zip P Q es h k)

-- One page goes into the walk.
record Entered (file_len : ℕ) (ranges : CopcDataRanges) (page : HierarchyPage) (w w' : Walk)
    : Type 0 where
  step : Step file_len ranges w.hierarchy w'.hierarchy w.visited w'.visited
  followed : IsFollowed w'.hierarchy w'.visited page
  waits : (p : PageRange) → contains w.pending p ≡ true → contains w'.pending p ≡ true
  new :
      (p : PageRange)
      → contains w'.visited p ≡ true
      → (contains w.visited p ≡ true) ⊎ (contains w'.pending p ≡ true)

queue_hierarchy_page_inv :
    (page : HierarchyPage) (w w' : Walk) (file_len : ℕ) (ranges : CopcDataRanges)
    → queue_hierarchy_page page w file_len ranges ≡ ok w'
    → Entered file_len ranges page w w'
unfolding queue_hierarchy_page
queue_hierarchy_page_inv page w w' file_len ranges r =
    let (h, r1, r2) = >>=-eq-ok (insert_entries page w.hierarchy file_len ranges) _ r in
    let (q, r3, r4) = >>=-eq-ok (queue_children page (w.visited, w.pending)) _ r2 in
    let i = insert_entries_inv file_len ranges page w.hierarchy h r1 in
    let c = queue_children_inv page (w.visited, w.pending) q r3 in
    let mine : Walk = record { hierarchy = h; visited = q.0; pending = q.1 } in
    let same : mine ≡ w' = cc in
    rw (← same) (record {
      step = record { extends = i.extends; keeps = c.keeps; sound = i.sound };
      followed = All-zip (Covers h) (IsLinked q.0) page i.covers c.linked;
      waits = c.waits;
      new = c.new;
    })

pub eq_range→≡ : (p q : PageRange) → eq_range p q ≡ true → p ≡ q
eq_range→≡ p q h =
    let (a, b) = &&-true (p.0 == q.0) (p.1 == q.1) h in cc (==→≡ p.0 q.0 a, ==→≡ p.1 q.1 b)

module _ (file : List ℕ) (ranges : CopcDataRanges) (known : List PageRange) where
  -- Every visited page was known before, waits, or is loaded.
  IsWalk : Hierarchy → List PageRange → List PageRange → Type 0
  IsWalk h visited pending =
      (p : PageRange)
      → contains visited p ≡ true
      → (contains known p ≡ true) ⊎ (contains pending p ≡ true) ⊎ IsLoaded file h visited p

  record Walked (h h' : Hierarchy) (visited visited' : List PageRange) : Type 0 where
    step : Step (length file) ranges h h' visited visited'
    walk : IsWalk h' visited' []

  Step-trans :
      (a b c : Hierarchy) (u v w : List PageRange)
      → Step (length file) ranges a b u v
      → Step (length file) ranges b c v w
      → Step (length file) ranges a c u w
  Step-trans a b c u v w s t = record {
    extends = Extends-trans a b c s.extends t.extends;
    keeps = λ p m. t.keeps p (s.keeps p m);
    sound = λ x. t.sound (s.sound x);
  }

  next_walk :
      (page : HierarchyPage) (p : PageRange) (h : Hierarchy) (visited pending : List PageRange)
      (w' : Walk)
      → page_from_le_bytes (take p.1 (drop p.0 file)) ≡ ok page
      → IsWalk h visited (p ∷ pending)
      → Entered
          (length file)
          ranges
          page
          (record { hierarchy = h; visited = visited; pending = pending })
          w'
      → IsWalk w'.hierarchy w'.visited w'.pending
  unfolding IsWalk
  next_walk page p h visited pending w' parsed walk e q m = elim (e.new q m) [
    | inr waiting ↦ inr (inl waiting)
    | inl old ↦ elim (walk q old) [
      | inl k ↦ inl k
      | inr (inl waiting) ↦ elim (Bool-cases (eq_range q p)) [
        | inl b ↦ inr (inr (page, rw (← (eq_range→≡ q p b)) at parsed, e.followed))
        | inr b ↦ inr (inl (e.waits q (rw b at waiting)))
      ]
      | inr (inr (more, parse, f)) ↦ inr (
          inr (
            more,
            parse,
            IsFollowed-Step (length file) ranges h w'.hierarchy visited w'.visited e.step more f,
          ))
    ]
  ]

  load_pages_inv :
      (fuel : ℕ) (h h' : Hierarchy) (visited pending visited' : List PageRange)
      (limits : HierarchyReadLimits)
      → IsWalk h visited pending
      → load_pages fuel file ranges h visited pending limits ≡ ok (h', visited')
      → Walked h h' visited visited'
  unfolding load_pages
  load_pages_inv fuel h h' visited [] visited' limits walk r =
      let same : h ≡ h' = cc in
      let same' : visited ≡ visited' = cc in
      rw (← same, ← same')
        (record {
          step = record { extends = Extends-refl h; keeps = λ p m. m; sound = λ x. x };
          walk = walk;
        })
  load_pages_inv zero h h' visited (p ∷ pending) visited' limits walk r = absurd (cc r)
  load_pages_inv (suc fuel) h h' visited (p ∷ pending) visited' limits walk r =
      let ((page, limits'), read, r1) =
        >>=-eq-ok (read_hierarchy_page_at file p.0 p.1 limits) _ r in
      let w : Walk = record { hierarchy = h; visited = visited; pending = pending } in
      let (w', queued, r2) = >>=-eq-ok (queue_hierarchy_page page w (length file) ranges) _ r1 in
      let entered = queue_hierarchy_page_inv page w w' (length file) ranges queued in
      let parsed = (read_hierarchy_page_at_inv file p.0 p.1 limits limits' page read).parsed in
      let rest =
        load_pages_inv fuel w'.hierarchy h' w'.visited w'.pending visited' limits'
          (next_walk page p h visited pending w' parsed walk entered) r2 in
      record {
        step = Step-trans h w'.hierarchy h' visited w'.visited visited' entered.step rest.step;
        walk = rest.walk;
      }

-- When `insert_hierarchy_pages` has loaded a file into an empty hierarchy, every entry of the
-- hierarchy stands at its key and lies where the reader accepts it; every entry of the root page,
-- and of each page that was not visited before, is in the hierarchy, unless it stands for a child
-- page and another entry has its key; and the page of each entry that stands for one was visited,
-- and read from the file unless it was visited before.
pub insert_hierarchy_pages_complete :
    (file : List ℕ) (root_page : HierarchyPage) (visited visited' : List PageRange) (h : Hierarchy)
    (limits : HierarchyReadLimits) (ranges : CopcDataRanges)
    → insert_hierarchy_pages file root_page [] visited limits ranges ≡ ok (h, visited')
    → IsSound (length file) ranges h
      × IsFollowed h visited' root_page
      × ((p : PageRange)
          → contains visited' p ≡ true
          → (contains visited p ≡ true) ⊎ IsLoaded file h visited' p)
unfolding insert_hierarchy_pages IsWalk
insert_hierarchy_pages_complete file root_page visited visited' h limits ranges r =
    let w : Walk = record { hierarchy = []; visited = visited; pending = [] } in
    let (w', queued, r1) = >>=-eq-ok (queue_hierarchy_page root_page w (length file) ranges) _ r in
    let e = queue_hierarchy_page_inv root_page w w' (length file) ranges queued in
    let start : IsWalk file ranges visited w'.hierarchy w'.visited w'.pending =
      (λ p m. elim (e.new p m) [ inl k ↦ inl k | inr k ↦ inr (inl k) ]) in
    let rest =
      load_pages_inv file ranges visited page_fuel w'.hierarchy h w'.visited w'.pending visited'
        limits start r1 in
    (
      rest.step.sound (e.step.sound (nothing-IsSound (length file) ranges)),
      IsFollowed-Step (length file) ranges w'.hierarchy h w'.visited visited' rest.step root_page
          e.followed,
      λ p m. elim (rest.walk p m) [
        | inl k ↦ inl k
        | inr (inl k) ↦ absurd (cc k)
        | inr (inr k) ↦ inr k
      ],
    )
