-- ===== src/Writer/HierarchyPages/Plan.antt =====
-- copc-writer/src/hierarchy_pages.rs: lemmas on `plan_hierarchy_pages` below any key.
use copc_rust.Prelude.{
  ℕ, zero, suc, ◌+◌, ◌<◌, ◌≤◌, ◌≡◌, refl, ap, ◌∙◌, arith, inl, inr, true, false, List, [], ◌∷◌,
  ◌++◌, map, length, All, Option, some, none, ltb, leb, ltb-false, leb→le, ◌==◌, Result, ok,
  reject_if, ◌>>=◌, ◌>>◌, Bool-cases, invalid_input, replicate,
}
use copc_rust.Core.Key.{VoxelKey}
use copc_rust.Core.Key.Tree.{IsKey}
use copc_rust.Core.Hierarchy.{Entry}
use copc_rust.Writer.HierarchyPages.{
  distribute, HierarchyPagePlan, plan, HierarchyPageItem, point, child, Items, nil, cons,
  plan_pages, plan_children, points_of, length_items, push_point, hierarchy_page_max_entries,
}
use copc_rust.Writer.HierarchyPages.Contains.{depth, kid, child-kid}
use copc_rust.Writer.HierarchyPages.Split.{
  InTree, Fits, flatten, own, IsOwn, key_of, distribute_lem,
}
use mathlib.Core.List.{Perm, Nodup}
use mathlib.Core.List.Perm
use mathlib.Core.List.Nodup

-- The entries of the points of a tree of pages, from the front to the end.
abbrev mutual
  pub plan_entries : HierarchyPagePlan → List Entry
  plan_entries (plan key items o b) = items_entries items

  pub item_entries : HierarchyPageItem → List Entry
  item_entries (point e) = e ∷ []
  item_entries (child page) = plan_entries page

  pub items_entries : Items → List Entry
  items_entries nil = []
  items_entries (cons item items) = item_entries item ++ items_entries items

-- Every page of the tree has an item, and at most the items that a page may have.
abbrev mutual
  pub IsPaged : HierarchyPagePlan → Type 0
  IsPaged (plan key items o b) =
      (0 < length_items items)
      × (length_items items ≤ hierarchy_page_max_entries)
      × IsPagedItems items

  pub IsPagedItem : HierarchyPageItem → Type 0
  IsPagedItem (point e) = Unit
  IsPagedItem (child page) = IsPaged page

  pub IsPagedItems : Items → Type 0
  IsPagedItems nil = Unit
  IsPagedItems (cons item items) = IsPagedItem item × IsPagedItems items

-- Every page of the tree has a key of the octree at level 30 at most, and every point has property `P`.
abbrev mutual
  pub Within : (Entry → Type 0) → HierarchyPagePlan → Type 0
  Within P (plan key items o b) = IsKey key × (depth key ≤ 30) × WithinItems P items

  pub WithinItem : (Entry → Type 0) → HierarchyPageItem → Type 0
  WithinItem P (point e) = P e
  WithinItem P (child page) = Within P page

  pub WithinItems : (Entry → Type 0) → Items → Type 0
  WithinItems P nil = Unit
  WithinItems P (cons item items) = WithinItem P item × WithinItems P items

points_of_entries : (es : List Entry) → items_entries (points_of es) ≡ es
points_of_entries [] = refl
points_of_entries (e ∷ es) = ap (λ t. e ∷ t) (points_of_entries es)

length-points_of : (es : List Entry) → length_items (points_of es) ≡ length es
length-points_of [] = refl
length-points_of (e ∷ es) = ap suc (length-points_of es)

points_of-IsPaged : (es : List Entry) → IsPagedItems (points_of es)
points_of-IsPaged [] = tt
points_of-IsPaged (e ∷ es) = (tt, points_of-IsPaged es)

points_of-Within :
    (P : Entry → Type 0) (bound : ℕ) (a : VoxelKey) (es : List Entry)
    → All (InTree P bound a) es
    → WithinItems P (points_of es)
points_of-Within P bound a [] h = tt
points_of-Within P bound a (e ∷ es) ((_, _, _, p), h) = (p, points_of-Within P bound a es h)

own-Within :
    (P : Entry → Type 0) (a : VoxelKey) (entry : Option Entry)
    → IsOwn P a entry
    → WithinItems P (push_point entry nil)
own-Within P a none h = tt
own-Within P a (some e) h = (h.1, tt)

-- A run of the planner that gives a tree of pages for these entries.
pub record Planned (P : Entry → Type 0) (entries : List Entry) (key : VoxelKey)
    (r : Result HierarchyPagePlan) : Type 0 where
  pub page : HierarchyPagePlan
  pub returns : r ≡ ok page
  pub same : Perm (plan_entries page) entries
  pub paged : IsPaged page
  pub within : Within P page

record PlannedItems (P : Entry → Type 0) (lists : List (List Entry)) (r : Result Items)
    : Type 0 where
  items : Items
  returns : r ≡ ok items
  same : Perm (items_entries items) (flatten lists)
  paged : IsPagedItems items
  within : WithinItems P items
  few : length_items items ≤ length lists

-- The planner at the keys of level `depth a + 1`, as the loop over the child lists calls it.
PlansBelow :
    (Entry → Type 0) → ℕ → VoxelKey → (List Entry → VoxelKey → Result HierarchyPagePlan) → Type 0
PlansBelow P bound a plan_page =
    (octant : ℕ) (entries : List Entry)
    → octant ≤ 7
    → All (InTree P bound (kid a octant)) entries
    → 0 < length entries
    → Nodup (map key_of entries)
    → Planned P entries (kid a octant) (plan_page entries (kid a octant))

map_append : (xs ys : List Entry) → map key_of (xs ++ ys) ≡ map key_of xs ++ map key_of ys
map_append [] ys = refl
map_append (x ∷ xs) ys = ap (λ t. x.key ∷ t) (map_append xs ys)

module _ (P : Entry → Type 0) (bound : ℕ) (a : VoxelKey) (good : IsKey a) (top : depth a ≤ 30)
    (plan_page : List Entry → VoxelKey → Result HierarchyPagePlan)
    (plans : PlansBelow P bound a plan_page) where
  plan_children_lem :
      (octant : ℕ) (lists : List (List Entry))
      → octant + length lists ≡ 8
      → Fits P bound a octant lists
      → Nodup (map key_of (flatten lists))
      → PlannedItems P lists (plan_children plan_page a octant lists)
  unfolding plan_children PlansBelow
  plan_children_lem octant [] eight fits nodup = record {
    items = nil;
    returns = refl;
    same = Perm.refl [];
    paged = tt;
    within = tt;
    few = omega arith;
  }
  plan_children_lem octant ([] ∷ more) eight (fit, fits) nodup =
      let rest = plan_children_lem (octant + 1) more (omega arith) fits nodup in
      record {
        items = rest.items;
        returns = rest.returns;
        same = rest.same;
        paged = rest.paged;
        within = rest.within;
        few = omega (arith, rest.few);
      }
  plan_children_lem octant ((e ∷ es) ∷ more) eight (fit, fits) nodup =
      let both = rw (map_append (e ∷ es) (flatten more)) at nodup in
      let (is_child, _) = child-kid a octant good top (omega arith) in
      let page =
        plans octant (e ∷ es) (omega arith) fit (omega arith)
          (Nodup.of_append_left (map key_of (flatten more)) both) in
      let rest =
        plan_children_lem (octant + 1) more (omega arith) fits
          (Nodup.of_append_right (map key_of (e ∷ es)) both) in
      record {
        items = cons (child page.page) rest.items;
        returns = rw (is_child, page.returns, rest.returns);
        same = Perm.append page.same rest.same;
        paged = (page.paged, rest.paged);
        within = (page.within, rest.within);
        few = omega (arith, rest.few);
      }

has_item :
    (items : Items) {entries : List Entry}
    → Perm (items_entries items) entries
    → 0 < length entries
    → 0 < length_items items
has_item nil perm ne = absurd (omega (arith, ap length (Perm.nil-eq perm)))
has_item (cons item items) perm ne = omega arith

-- A page of its own entry, if there is one, and of at most eight child pages.
split_page :
    (P : Entry → Type 0) (entries : List Entry) (a : VoxelKey) (lists : List (List Entry))
    (entry : Option Entry) (r : Result Items)
    → length lists ≡ 8
    → 0 < length entries
    → Perm (own entry ++ flatten lists) entries
    → IsKey a
    → depth a ≤ 30
    → WithinItems P (push_point entry nil)
    → PlannedItems P lists r
    → Planned P entries a (
        r >>= λ children.
        reject_if
          (ltb hierarchy_page_max_entries (length_items (push_point entry children)))
          invalid_input
        >> ok (plan a (push_point entry children) 0 0))
split_page P entries a lists none r eight ne perm key shallow w planned = record {
  page = plan a planned.items 0 0;
  returns =
      rw
        (planned.returns, ltb-false 4096 (length_items planned.items) (omega (arith, planned.few)));
  same = Perm.trans planned.same perm;
  paged = (
    has_item planned.items (Perm.trans planned.same perm) ne,
    omega (arith, planned.few),
    planned.paged,
  );
  within = (key, shallow, planned.within);
}
split_page P entries a lists (some e) r eight ne perm key shallow w planned = record {
  page = plan a (cons (point e) planned.items) 0 0;
  returns = rw (
    planned.returns,
    ltb-false 4096 (suc (length_items planned.items)) (omega (arith, planned.few)),
  );
  same = Perm.trans (Perm.cons e planned.same) perm;
  paged = (omega arith, omega (arith, planned.few), (tt, planned.paged));
  within = (key, shallow, (w.0, planned.within));
}

ne_zero : (n : ℕ) → (suc n == 0) ≡ false
ne_zero n = ground arith

plan_pages_small :
    (fuel : ℕ) (a : VoxelKey) (e : Entry) (es : List Entry)
    → leb (length (e ∷ es)) hierarchy_page_max_entries ≡ true
    → plan_pages (suc fuel) (e ∷ es) a ≡ ok (plan a (points_of (e ∷ es)) 0 0)
unfolding plan_pages
plan_pages_small fuel a e es small = rw (ne_zero (length es), small)

plan_pages_large :
    (fuel : ℕ) (a : VoxelKey) (e : Entry) (es : List Entry)
    → leb (length (e ∷ es)) hierarchy_page_max_entries ≡ false
    → plan_pages (suc fuel) (e ∷ es) a ≡ (
        distribute a (e ∷ es) none (replicate 8 []) >>= λ p.
        plan_children (plan_pages fuel) a 0 p.1 >>= λ children.
        reject_if
          (ltb hierarchy_page_max_entries (length_items (push_point p.0 children)))
          invalid_input
        >> ok (plan a (push_point p.0 children) 0 0))
unfolding plan_pages
plan_pages_large fuel a e es large = rw (ne_zero (length es), large)

pub plan_pages_lem :
    (P : Entry → Type 0) (fuel bound : ℕ) (a : VoxelKey) (entries : List Entry)
    → IsKey a
    → bound ≤ 31
    → bound ≤ depth a + fuel
    → All (InTree P bound a) entries
    → 0 < length entries
    → Nodup (map key_of entries)
    → Planned P entries a (plan_pages fuel entries a)
unfolding PlansBelow
plan_pages_lem P fuel bound a [] good top enough all ne nodup = absurd (omega arith)
plan_pages_lem P zero bound a (e ∷ es) good top enough ((key, low, below, holds), all) ne nodup =
    absurd (omega arith)
plan_pages_lem P (suc fuel) bound a (e ∷ es) good top enough all ne nodup =
    let shallow : depth a ≤ 30 = omega (arith, all.0.1, all.0.2.0) in
    elim (Bool-cases (leb (length (e ∷ es)) hierarchy_page_max_entries)) [
      | inl small ↦ record {
        page = plan a (points_of (e ∷ es)) 0 0;
        returns = plan_pages_small fuel a e es small;
        same = rw (points_of_entries (e ∷ es)) (Perm.refl (e ∷ es));
        paged = (
          omega arith,
          rw (length-points_of (e ∷ es)) (leb→le (length (e ∷ es)) 4096 small),
          points_of-IsPaged (e ∷ es),
        );
        within = (good, omega arith, points_of-Within P bound a (e ∷ es) all);
      }
      | inr large ↦
          let shared =
            distribute_lem P bound (omega arith) a good (e ∷ es) none (replicate 8 []) all
              (tt, (tt, (tt, (tt, (tt, (tt, (tt, (tt, tt)))))))) refl tt nodup in
          let distinct = Perm.nodup (Perm.map key_of (Perm.symm shared.same)) nodup in
          let children =
            plan_children_lem P bound a good shallow (plan_pages fuel)
              (λ octant es o fit some nodup.
                plan_pages_lem P fuel bound (kid a octant) es (child-kid a octant good shallow o).1
                  top (omega arith) fit some nodup)
              0 shared.lists' (omega (arith, shared.size)) shared.fits
              (Nodup.of_append_right (map key_of (own shared.entry))
                (rw (map_append (own shared.entry) (flatten shared.lists')) at distinct)) in
          let page =
            split_page P (e ∷ es) a shared.lists' shared.entry _ shared.size (omega arith)
              shared.same good (omega arith) (own-Within P a shared.entry shared.mine) children in
          record {
            page = page.page;
            returns = plan_pages_large fuel a e es large ∙ rw shared.returns page.returns;
            same = page.same;
            paged = page.paged;
            within = page.within;
          }
    ]
