-- ===== src/Writer/Lod/Steps.antt =====
-- copc-writer/src/lod.rs: lemmas on the order file and the runs in the loops of the index builder.
use copc_rust.Prelude.{
  ℕ, zero, suc, ◌+◌, ◌*◌, ◌≡◌, refl, sym, ap, ◌∙◌, arith, List, [], ◌∷◌, ◌++◌, append-nil,
  append_assoc, length, length-append, ok, >>=-eq-ok, ok_or, invalid_input,
}
use copc_rust.Prelude.Int.{checked_add_u64}
use copc_rust.Writer.Lod.{LodIndexBuilder, IndexRun, append_index_to_order, select_round}
use mathlib.Core.List.{Perm, perm_append_comm}
use mathlib.Core.List.Perm

abbrev pub flatten : List IndexRun → List ℕ
flatten [] = []
flatten (run ∷ runs) = run ++ flatten runs

-- The order file grows by these indices; the nodes stay.
pub record Grows (b b' : LodIndexBuilder) (new : List ℕ) : Type 0 where
  pub order : b'.order ≡ b.order ++ new
  pub offset : b'.order_offset ≡ b.order_offset + 4 * length new
  pub nodes : b'.nodes ≡ b.nodes

pub Grows-refl : (b : LodIndexBuilder) → Grows b b []
Grows-refl b = record { order = sym (append-nil b.order); offset = omega arith; nodes = refl }

pub Grows-trans :
    (a b c : LodIndexBuilder) (xs ys : List ℕ) → Grows a b xs → Grows b c ys → Grows a c (xs ++ ys)
Grows-trans a b c xs ys g h = record {
  order = h.order ∙ ap (λ t. t ++ ys) g.order ∙ append_assoc a.order xs ys;
  offset = omega (arith, g.offset, h.offset, length-append xs ys);
  nodes = h.nodes ∙ g.nodes;
}

pub append_index_to_order_inv :
    (index : ℕ) (b b' : LodIndexBuilder)
    → append_index_to_order index b ≡ ok b'
    → Grows b b' (index ∷ [])
unfolding append_index_to_order
append_index_to_order_inv index b b' h =
    let (n, sum, h') = >>=-eq-ok (ok_or (checked_add_u64 b.order_offset 4) invalid_input) _ h in
    let more : n ≡ b.order_offset + 4 = sum_lem b.order_offset n sum in
    let made : LodIndexBuilder = record {
      order = b.order ++ (index ∷ []);
      order_offset = n;
      nodes = b.nodes;
      polls = b.polls;
    } in
    let same : made ≡ b' = cc in rw (← same) (record { order = refl; offset = more; nodes = refl })
  where
    sum_lem : (m n : ℕ) → ok_or (checked_add_u64 m 4) invalid_input ≡ ok n → n ≡ m + 4
    sum_lem m n h = ground arith

-- A selection of at most `left` indices from the runs, with its results: the indices `taken`, what
-- is left of the runs and of the selection, and the builder.
abbrev pub Selection : Type 0
Selection = List IndexRun × ℕ × LodIndexBuilder

pub record Selected (left : ℕ) (runs : List IndexRun) (b : LodIndexBuilder) (out : Selection)
    : Type 0 where
  pub taken : List ℕ
  pub grows : Grows b out.2 taken
  pub same : Perm (taken ++ flatten out.0) (flatten runs)
  pub budget : left ≡ out.1 + length taken
  pub size : length out.0 ≡ length runs

-- `taken` and `rest` share the elements of `all`; a run stays in front of the rest.
skip_run :
    (run taken rest all : List ℕ)
    → Perm (taken ++ rest) all
    → Perm (taken ++ (run ++ rest)) (run ++ all)
skip_run run taken rest all h =
    let swapped : Perm ((taken ++ run) ++ rest) ((run ++ taken) ++ rest) =
      Perm.append_right rest (perm_append_comm taken run) in
    let there : Perm (taken ++ (run ++ rest)) (run ++ (taken ++ rest)) =
      rw (append_assoc taken run rest, append_assoc run taken rest) at swapped in
    Perm.trans there (Perm.append_left run h)

pub select_none :
    (left : ℕ) (runs : List IndexRun) (b : LodIndexBuilder) → Selected left runs b (runs, left, b)
select_none left runs b = record {
  taken = [];
  grows = Grows-refl b;
  same = Perm.refl (flatten runs);
  budget = omega arith;
  size = refl;
}

pub select_round_inv :
    (left : ℕ) (runs : List IndexRun) (b : LodIndexBuilder) (out : Selection)
    → select_round left runs b ≡ ok out
    → Selected left runs b out
unfolding select_round
select_round_inv left [] b out h =
    let same : ([], left, b) ≡ out = cc in rw (← same) (select_none left [] b)
select_round_inv zero (run ∷ runs) b out h =
    let same : (run ∷ runs, 0, b) ≡ out = cc in rw (← same) (select_none 0 (run ∷ runs) b)
select_round_inv (suc left) ([] ∷ runs) b out h =
    let (o, rest, h') = >>=-eq-ok (select_round (suc left) runs b) _ h in
    let s = select_round_inv (suc left) runs b o rest in
    let same : ([] ∷ o.0, o.1, o.2) ≡ out = cc in
    rw (← same) (record {
      taken = s.taken;
      grows = s.grows;
      same = s.same;
      budget = s.budget;
      size = ap suc s.size;
    })
select_round_inv (suc left) ((index ∷ run) ∷ runs) b out h =
    let (b1, first, h1) = >>=-eq-ok (append_index_to_order index b) _ h in
    let (o, rest, h') = >>=-eq-ok (select_round left runs b1) _ h1 in
    let s = select_round_inv left runs b1 o rest in
    let same : (run ∷ o.0, o.1, o.2) ≡ out = cc in
    rw (← same) (record {
      taken = index ∷ s.taken;
      grows =
          Grows-trans b b1 o.2 (index ∷ []) s.taken (append_index_to_order_inv index b b1 first)
            s.grows;
      same = Perm.cons index (skip_run run s.taken (flatten o.0) (flatten runs) s.same);
      budget = omega (arith, s.budget);
      size = ap suc s.size;
    })

-- A round that selects nothing leaves nothing to select.
pub select_round_stuck :
    (left : ℕ) (runs : List IndexRun) (b : LodIndexBuilder) (out : Selection)
    → select_round (suc left) runs b ≡ ok out
    → out.1 ≡ suc left
    → (flatten runs ≡ []) × (flatten out.0 ≡ [])
unfolding select_round
select_round_stuck left [] b out h k =
    let same : ([], suc left, b) ≡ out = cc in rw (← same) (refl, refl)
select_round_stuck left ([] ∷ runs) b out h k =
    let (o, rest, h') = >>=-eq-ok (select_round (suc left) runs b) _ h in
    let same : ([] ∷ o.0, o.1, o.2) ≡ out = cc in
    rw (← same) (select_round_stuck left runs b o rest (rw (← same) at k))
select_round_stuck left ((index ∷ run) ∷ runs) b out h k =
    let (b1, first, h1) = >>=-eq-ok (append_index_to_order index b) _ h in
    let (o, rest, h') = >>=-eq-ok (select_round left runs b1) _ h1 in
    let s = select_round_inv left runs b1 o rest in
    let same : (run ∷ o.0, o.1, o.2) ≡ out = cc in
    absurd (omega (arith, s.budget, (rw (← same) at k)))
