-- ===== src/Writer/HierarchyPages/Split.antt =====
-- The loops of `plan_hierarchy_pages` that hand the entries to the eight child lists.
use copc_rust.Prelude.{
  ℕ, suc, ◌+◌, ◌<◌, ◌≤◌, ◌≡◌, ◌≢◌, refl, ap, ◌∙◌, arith, inl, inr, false, List, [], ◌∷◌, ◌++◌,
  append-nil, append_assoc, map, length, All, Option, some, none, Result, ok, Bool-cases, leb,
  leb→le,
}
use copc_rust.Core.Key.{VoxelKey, eq_key, eq_key→≡, eq_key→≢}
use copc_rust.Core.Key.Tree.{IsKey}
use copc_rust.Core.Hierarchy.{Entry}
use copc_rust.Writer.HierarchyPages.{place, distribute}
use copc_rust.Writer.HierarchyPages.Contains.{
  Below, depth, kid, child-kid, octant_of, Below-octant_of, key_contains_cases, Below-same_level,
}
use mathlib.Core.List.{Perm, Mem, Nodup, Nodup-cons, mem-cons_self, mem-cons_of_mem, perm_middle}
use mathlib.Core.List.Perm

-- The entry's key is in the subtree of `a`, above level `bound`, and the entry has property `P`.
abbrev pub InTree : (Entry → Type 0) → ℕ → VoxelKey → Entry → Type 0
InTree P bound a e = IsKey e.key × (depth e.key < bound) × Below a e.key × P e

-- The list of each octant, from `octant` on, holds entries below the child of that octant.
abbrev pub Fits : (Entry → Type 0) → ℕ → VoxelKey → ℕ → List (List Entry) → Type 0
Fits P bound a octant [] = Unit
Fits P bound a octant (es ∷ more) =
    All (InTree P bound (kid a octant)) es × Fits P bound a (octant + 1) more

abbrev pub flatten : List (List Entry) → List Entry
flatten [] = []
flatten (es ∷ more) = es ++ flatten more

All-snoc :
    (P : Entry → Type 0) (es : List Entry) (e : Entry) → All P es → P e → All P (es ++ (e ∷ []))
All-snoc P [] e h p = (p, tt)
All-snoc P (x ∷ es) e (q, h) p = (q, All-snoc P es e h p)

abbrev pub key_of : Entry → VoxelKey
key_of e = e.key

abbrev pub own : Option Entry → List Entry
own none = []
own (some e) = e ∷ []

abbrev pub IsOwn : (Entry → Type 0) → VoxelKey → Option Entry → Type 0
IsOwn P a none = Unit
IsOwn P a (some e) = (e.key ≡ a) × P e

module _ (P : Entry → Type 0) (bound : ℕ) (shallow : bound ≤ 32) (a : VoxelKey)
    (good : IsKey a) where
  -- What placing an entry gives: one of the lists has it, the others are as they were.
  record Placed (e : Entry) (octant : ℕ) (lists : List (List Entry)) : Type 0 where
    lists' : List (List Entry)
    returns : place a e octant lists ≡ ok (some lists')
    fits : Fits P bound a octant lists'
    size : length lists' ≡ length lists
    same : Perm (flatten lists') (e ∷ flatten lists)

  place_lem :
      (e : Entry) (octant : ℕ) (lists : List (List Entry))
      → InTree P bound a e
      → depth a < depth e.key
      → octant + length lists ≡ 8
      → octant ≤ octant_of a e.key
      → Fits P bound a octant lists
      → Placed e octant lists
  unfolding place
  place_lem e octant [] (key, top, below, holds) deeper eight from fits =
      absurd (omega (arith, (Below-octant_of a e.key below deeper).0))
  place_lem e octant (es ∷ more) (key, top, below, holds) deeper eight from (fit, fits) =
      let (child, is_key) = child-kid a octant good (omega arith) (omega arith) in
      elim (key_contains_cases (kid a octant) e.key is_key key (omega arith)) [
        | inl (found, inside) ↦ record {
          lists' = (es ++ (e ∷ [])) ∷ more;
          returns = rw (child, found);
          fits =
              (All-snoc (InTree P bound (kid a octant)) es e fit (key, top, inside, holds), fits);
          size = refl;
          same = rw (append_assoc es (e ∷ []) (flatten more)) (perm_middle es (flatten more));
        }
        | inr (other, outside) ↦
            let later : octant ≢ octant_of a e.key =
              λ here. outside (rw here (Below-octant_of a e.key below deeper).1) in
            let rest =
              place_lem e (octant + 1) more (key, top, below, holds) deeper (omega arith)
                (omega arith) fits in
            record {
              lists' = es ∷ rest.lists';
              returns = rw (child, other, rest.returns);
              fits = (fit, rest.fits);
              size = ap suc rest.size;
              same = Perm.trans (Perm.append_left es rest.same) (perm_middle es (flatten more));
            }
      ]

  -- What the loop gives: the page's own entry and the lists share out the entries.
  pub record Shared (entries : List Entry) (before : List Entry) (lists : List (List Entry))
      (r : Result (Option Entry × List (List Entry))) : Type 0 where
    pub entry : Option Entry
    pub lists' : List (List Entry)
    pub returns : r ≡ ok (entry, lists')
    pub fits : Fits P bound a 0 lists'
    pub size : length lists' ≡ 8
    pub mine : IsOwn P a entry
    pub same : Perm (own entry ++ flatten lists') (before ++ (flatten lists ++ entries))

  -- Where the keys are distinct, the page's own entry is met once.
  only_one :
      (po : Option Entry) (e : Entry) (entries : List Entry)
      → IsOwn P a po
      → e.key ≡ a
      → Nodup (map key_of (own po ++ (e ∷ entries)))
      → po ≡ none
  only_one none e entries mine here nodup = refl
  only_one (some p) e entries mine here nodup =
      let again : Mem p.key (map key_of (e ∷ entries)) = rw (mine.0, ← here) mem-cons_self in
      absurd ((Nodup-cons.0 nodup).0 again)

  Nodup-skip :
      (po : Option Entry) (e : Entry) (entries : List Entry)
      → Nodup (map key_of (own po ++ (e ∷ entries)))
      → Nodup (map key_of (own po ++ entries))
  Nodup-skip none e entries nodup = (Nodup-cons.0 nodup).1
  Nodup-skip (some p) e entries nodup =
      let (new, rest) = Nodup-cons.0 nodup in
      Nodup-cons.1 (λ m. new (mem-cons_of_mem e.key m), (Nodup-cons.0 rest).1)

  deeper_of : (k : VoxelKey) → IsKey k → Below a k → eq_key k a ≡ false → depth a < depth k
  deeper_of k key below other = elim (Bool-cases (leb (depth k) (depth a))) [
    | inl h ↦
        absurd
          (eq_key→≢ k a other (Below-same_level a k good key below (leb→le (depth k) (depth a) h)))
    | inr h ↦ ground arith
  ]

  pub distribute_lem :
      (entries : List Entry) (point_entry : Option Entry) (lists : List (List Entry))
      → All (InTree P bound a) entries
      → Fits P bound a 0 lists
      → length lists ≡ 8
      → IsOwn P a point_entry
      → Nodup (map key_of (own point_entry ++ entries))
      → Shared entries (own point_entry) lists (distribute a entries point_entry lists)
  unfolding distribute
  distribute_lem [] po lists all fits size mine nodup = record {
    entry = po;
    lists' = lists;
    returns = refl;
    fits = fits;
    size = size;
    mine = mine;
    same = rw (append-nil (flatten lists)) (Perm.refl (own po ++ flatten lists));
  }
  distribute_lem (e ∷ entries) po lists ((key, top, below, holds), all) fits size mine nodup =
      elim (Bool-cases (eq_key e.key a)) [
        | inl here ↦
            let own_key = eq_key→≡ e.key a here in
            let first : po ≡ none = only_one po e entries mine own_key nodup in
            let rest =
              distribute_lem entries (some e) lists all fits size (own_key, holds)
                (rw first at nodup) in
            record {
              entry = rest.entry;
              lists' = rest.lists';
              returns = rw here rest.returns;
              fits = rest.fits;
              size = rest.size;
              mine = rest.mine;
              same =
                  rw first (Perm.trans rest.same (Perm.symm (perm_middle (flatten lists) entries)));
            }
        | inr other ↦
            let deeper : depth a < depth e.key = deeper_of e.key key below other in
            let placed =
              place_lem e 0 lists (key, top, below, holds) deeper (omega arith) (omega arith)
                fits in
            let rest =
              distribute_lem entries po placed.lists' all placed.fits (placed.size ∙ size) mine
                (Nodup-skip po e entries nodup) in
            record {
              entry = rest.entry;
              lists' = rest.lists';
              returns = rw (other, placed.returns) rest.returns;
              fits = rest.fits;
              size = rest.size;
              mine = rest.mine;
              same = Perm.trans rest.same (
                  Perm.append_left (own po) (
                    Perm.trans (Perm.append_right entries placed.same)
                      (Perm.symm (perm_middle (flatten lists) entries))));
            }
      ]
