-- ===== src/Reader/Pages/Queued.antt =====
-- copc-reader/src/lib.rs: `queue_hierarchy_page`, second loop, over the child pages of a page.
use copc_rust.Prelude.{
  ℕ, ◌≡◌, refl, arith, ◌⊎◌, inl, inr, true, List, [], ◌∷◌, All, ok, ok_or, invalid_data, >>=-eq-ok,
  Bool-cases,
}
use copc_rust.Prelude.Int.{ℤ, pos, negsuc, pos_part, to_unsigned}
use copc_rust.Core.Hierarchy.{Entry, HierarchyPage, is_child_page}
use copc_rust.Reader.Pages.{queue_children, push_page, PageRange, contains, eq_range}

-- The page that an entry stands for was visited.
abbrev pub IsLinked : List PageRange → Entry → Type 0
IsLinked visited e =
    is_child_page e ≡ true → contains visited (e.offset, pos_part e.byte_size) ≡ true

-- The queue `q` after the pushes of a page, `q'`.
pub record Queued (page : HierarchyPage) (q q' : List PageRange × List PageRange) : Type 0 where
  pub keeps : (p : PageRange) → contains q.0 p ≡ true → contains q'.0 p ≡ true
  pub waits : (p : PageRange) → contains q.1 p ≡ true → contains q'.1 p ≡ true
  pub new :
      (p : PageRange) → contains q'.0 p ≡ true → (contains q.0 p ≡ true) ⊎ (contains q'.1 p ≡ true)
  pub linked : All (IsLinked q'.0) page

contains_self : (p : PageRange) (ps : List PageRange) → contains (p ∷ ps) p ≡ true
contains_self p ps = ground arith

contains_behind :
    (p q : PageRange) (ps : List PageRange) → contains ps p ≡ true → contains (q ∷ ps) p ≡ true
contains_behind p q ps h = rw h (ground arith)

push_page-Queued :
    (e : Entry) (n : ℕ) (q : List PageRange × List PageRange)
    → pos_part e.byte_size ≡ n
    → Queued (e ∷ []) q (push_page (e.offset, n) q)
push_page-Queued e n (visited, pending) size = elim (Bool-cases (contains visited (e.offset, n))) [
  | inl h ↦ rw h (record {
    keeps = λ p k. k;
    waits = λ p k. k;
    new = λ p k. inl k;
    linked = ((λ c. rw size h), tt);
  })
  | inr h ↦ rw h (record {
    keeps = λ p k. contains_behind p (e.offset, n) visited k;
    waits = λ p k. contains_behind p (e.offset, n) pending k;
    new = λ p k. elim (Bool-cases (eq_range p (e.offset, n))) [
      | inl b ↦ inr (rw b refl)
      | inr b ↦ inl (rw b at k)
    ];
    linked = ((λ c. rw size (contains_self (e.offset, n) visited)), tt);
  })
]

Queued-cons :
    (e : Entry) (page : HierarchyPage) (a b c : List PageRange × List PageRange)
    → Queued (e ∷ []) a b
    → Queued page b c
    → Queued (e ∷ page) a c
Queued-cons e page a b c h k = record {
  keeps = λ p m. k.keeps p (h.keeps p m);
  waits = λ p m. k.waits p (h.waits p m);
  new = λ p m. elim (k.new p m) [
    | inl m' ↦ elim (h.new p m') [ inl m'' ↦ inl m'' | inr m'' ↦ inr (k.waits p m'') ]
    | inr m' ↦ inr m'
  ];
  linked = ((λ x. k.keeps _ (h.linked.0 x)), k.linked);
}

same_size : (z : ℤ) (n : ℕ) → ok_or (to_unsigned z) invalid_data ≡ ok n → pos_part z ≡ n
same_size (pos m) n h = cc
same_size (negsuc m) n h = cc

pub queue_children_inv :
    (page : HierarchyPage) (q q' : List PageRange × List PageRange)
    → queue_children page q ≡ ok q'
    → Queued page q q'
unfolding queue_children
queue_children_inv [] q q' h =
    let same : q ≡ q' = cc in
    rw (← same) (record { keeps = λ p k. k; waits = λ p k. k; new = λ p k. inl k; linked = tt })
queue_children_inv (e ∷ page) q q' h = elim (Bool-cases (is_child_page e)) [
  | inl b ↦
      let (n, size, h') = >>=-eq-ok (ok_or (to_unsigned e.byte_size) invalid_data) _ (rw b at h) in
      Queued-cons e page q (push_page (e.offset, n) q) q'
        (push_page-Queued e n q (same_size e.byte_size n size))
        (queue_children_inv page (push_page (e.offset, n) q) q' h')
  | inr b ↦
      let rest = queue_children_inv page q q' (rw b at h) in
      record {
        keeps = rest.keeps;
        waits = rest.waits;
        new = rest.new;
        linked = ((λ x. cc), rest.linked);
      }
]
