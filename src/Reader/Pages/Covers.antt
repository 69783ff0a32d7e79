-- ===== src/Reader/Pages/Covers.antt =====
-- `queue_hierarchy_page`, first loop: what the entries of a page become in the hierarchy.
use copc_rust.Prelude.{
  ℕ, ◌≡◌, refl, sym, ◌∙◌, arith, ◌⊎◌, inl, inr, Bool, true, false, [], ◌∷◌, Option, none, some, not,
  ◌&&◌, All, ok, >>=-eq-ok, Bool-cases,
}
use copc_rust.Prelude.Maps.{get, insert, get-insert}
use copc_rust.Core.Key.{VoxelKey, key_order, eq_key, eq_key→≡, eq_key_self}
use copc_rust.Core.Hierarchy.{Entry, HierarchyPage, is_child_page}
use copc_rust.Reader.Hierarchy.{CopcDataRanges, Hierarchy, validate_hierarchy_entry}
use copc_rust.Reader.Pages.{insert_entry, insert_entries}

-- An entry keeps its place, unless it stands for a child page and another entry takes the place.
abbrev pub Gives : Entry → Entry → Type 0
Gives e found = (found ≡ e) ⊎ (is_child_page e ≡ true) × (is_child_page found ≡ false)

abbrev pub Covers : Hierarchy → Entry → Type 0
Covers h e = (found : Entry) × (get e.key h ≡ some found) × Gives e found

-- The keys of `h` are keys of `h'`.
abbrev pub Extends : Hierarchy → Hierarchy → Type 0
Extends h h' =
    (k : VoxelKey) (e : Entry)
    → get k h ≡ some e
    → (found : Entry) × (get k h' ≡ some found) × Gives e found

pub Extends-refl : (h : Hierarchy) → Extends h h
Extends-refl h k e g = (e, g, inl refl)

Gives-trans : (a b c : Entry) → Gives a b → Gives b c → Gives a c
Gives-trans a b c g (inl h) = rw h g
Gives-trans a b c (inl h) (inr k) = inr (rw h at k)
Gives-trans a b c (inr (h, g)) (inr (k, l)) = inr (h, l)

pub Extends-trans : (a b c : Hierarchy) → Extends a b → Extends b c → Extends a c
Extends-trans a b c h h' k e g =
    let (e1, g1, r1) = h k e g in
    let (e2, g2, r2) = h' k e1 g1 in (e2, g2, Gives-trans e e1 e2 r1 r2)

pub Covers-Extends : (h h' : Hierarchy) (e : Entry) → Extends h h' → Covers h e → Covers h' e
Covers-Extends h h' e x (e1, g1, r1) =
    let (e2, g2, r2) = x e.key e1 g1 in (e2, g2, Gives-trans e e1 e2 r1 r2)

-- Every entry stands at its own key and lies where the reader accepts it.
abbrev pub IsSound : ℕ → CopcDataRanges → Hierarchy → Type 0
IsSound file_len ranges h =
    (k : VoxelKey) (e : Entry)
    → get k h ≡ some e
    → (e.key ≡ k) × (validate_hierarchy_entry e file_len ranges ≡ ok tt)

pub nothing-IsSound : (file_len : ℕ) (ranges : CopcDataRanges) → IsSound file_len ranges []
unfolding get
nothing-IsSound file_len ranges k e g = absurd (cc g)

get_new : (h : Hierarchy) (e : Entry) → get e.key (insert e.key e h) ≡ some e
get_new h e = get-insert e.key e.key e h ∙ rw (eq_key_self e.key, eq_key)

at_key :
    (h : Hierarchy) (e : Entry) (k : VoxelKey)
    → (k ≡ e.key) × (get k (insert e.key e h) ≡ some e) ⊎ (get k (insert e.key e h) ≡ get k h)
at_key h e k = elim (Bool-cases (eq_key k e.key)) [
  | inl b ↦ inl (eq_key→≡ k e.key b, get-insert k e.key e h ∙ rw b)
  | inr b ↦ inr (get-insert k e.key e h ∙ rw b)
]

-- The results of a step.
pub record Inserted (file_len : ℕ) (ranges : CopcDataRanges) (page : HierarchyPage)
    (h h' : Hierarchy) : Type 0 where
  pub extends : Extends h h'
  pub covers : All (Covers h') page
  pub sound : IsSound file_len ranges h → IsSound file_len ranges h'

module _ (file_len : ℕ) (ranges : CopcDataRanges) where
  put_equal : (h h' : Hierarchy) (e : Entry) → ok (insert e.key e h) ≡ ok h' → insert e.key e h ≡ h'
  put_equal h h' e r = cc

  replaces :
      (previous e : Entry)
      → ((is_child_page previous && not (is_child_page e)) ≡ true)
          × (is_child_page previous ≡ true)
          × (is_child_page e ≡ false)
        ⊎ ((is_child_page previous && not (is_child_page e)) ≡ false)
  replaces previous e = by_cases (is_child_page previous) (is_child_page e)
    where
      by_cases :
          (p c : Bool) → ((p && not c) ≡ true) × (p ≡ true) × (c ≡ false) ⊎ ((p && not c) ≡ false)
      by_cases p c = ground arith

  put_lem :
      (h : Hierarchy) (e : Entry)
      → validate_hierarchy_entry e file_len ranges ≡ ok tt
      → ((previous : Entry) → get e.key h ≡ some previous → Gives previous e)
      → Inserted file_len ranges (e ∷ []) h (insert e.key e h)
  put_lem h e valid kept = record {
    extends = λ k old g. elim (at_key h e k) [
      | inl (same, n) ↦ (e, n, kept old (rw same at g))
      | inr n ↦ (old, n ∙ g, inl refl)
    ];
    covers = ((e, get_new h e, inl refl), tt);
    sound = λ s k old g. elim (at_key h e k) [
      | inl (same, n) ↦ let it : e ≡ old = cc in (rw (← it) (sym same), rw (← it) valid)
      | inr n ↦ s k old (sym n ∙ g)
    ];
  }

  entry_lem :
      (h h' : Hierarchy) (e : Entry) (previous : Option Entry)
      → get e.key h ≡ previous
      → validate_hierarchy_entry e file_len ranges ≡ ok tt
      → insert_entry h e previous ≡ ok h'
      → Inserted file_len ranges (e ∷ []) h h'
  entry_lem h h' e none g valid r =
      rw (← (put_equal h h' e r)) (put_lem h e valid λ p q. absurd (cc (g, q)))
  entry_lem h h' e (some previous) g valid r = elim (replaces previous e) [
    | inl (b, was, now) ↦
        rw (← (put_equal h h' e (rw b at r))) (
          put_lem h e valid λ p q. let same : previous ≡ p = cc (g, q) in inr (rw same at was, now))
    | inr b ↦ absurd (cc (rw b at r))
  ]

  pub insert_entries_inv :
      (page : HierarchyPage) (h h' : Hierarchy)
      → insert_entries page h file_len ranges ≡ ok h'
      → Inserted file_len ranges page h h'
  unfolding insert_entries
  insert_entries_inv [] h h' r =
      let same : h ≡ h' = cc in
      rw (← same) (record { extends = Extends-refl h; covers = tt; sound = λ s. s })
  insert_entries_inv (e ∷ page) h h' r =
      let (_, valid, r1) = >>=-eq-ok (validate_hierarchy_entry e file_len ranges) _ r in
      let (h1, put, r2) = >>=-eq-ok (insert_entry h e (get e.key h)) _ r1 in
      let one = entry_lem h h1 e (get e.key h) refl valid put in
      let more = insert_entries_inv page h1 h' r2 in
      record {
        extends = Extends-trans h h1 h' one.extends more.extends;
        covers = (Covers-Extends h1 h' e more.extends one.covers.0, more.covers);
        sound = λ s. more.sound (one.sound s);
      }
