-- ===== src/Writer/Lod/Runs.antt =====
-- The loops that partition a run, append it and select from it, in terms of the indices.
use copc_rust.Prelude.{
  ℕ, zero, suc, ◌+◌, ◌*◌, ◌%◌, ◌<◌, ◌≤◌, ◌≡◌, refl, sym, ap, ◌∙◌, arith, inl, inr, ◌⊎◌, ==→≡, Bool,
  List, [], ◌∷◌, ◌++◌, append-nil, append_assoc, length, length-append, Result, ok, >>=-eq-ok,
  Bool-cases, ◌==◌, if◌then◌else◌,
}
use copc_rust.Core.Bounds.{Floats}
use copc_rust.Writer.Lod.{
  LodIndexBuilder, IndexRun, append_index_to_order, add_to, select_round, child_octant, poll,
  poll_at, root_polls, append_index_run_to_order, partition_index_run,
  append_lod_selection_to_order,
}
use mathlib.Core.List.{Perm, perm_middle}
use mathlib.Core.List.Perm
use copc_rust.Writer.Lod.Steps.{
  flatten, Grows, Grows-refl, Grows-trans, append_index_to_order_inv, Selection, Selected,
  select_none, select_round_inv, select_round_stuck,
}

stopped : (o out : Selection) → ok o ≡ ok out → o ≡ out
stopped o out h = cc

add_to-Perm :
    (o index : ℕ) (runs : List IndexRun)
    → o < length runs
    → Perm (flatten (add_to o index runs)) (index ∷ flatten runs)
add_to-Perm o index [] h = absurd (omega arith)
add_to-Perm zero index (run ∷ runs) h =
    rw (append_assoc run (index ∷ []) (flatten runs)) (perm_middle run (flatten runs))
add_to-Perm (suc o) index (run ∷ runs) h =
    Perm.trans (Perm.append_left run (add_to-Perm o index runs (omega arith)))
      (perm_middle run (flatten runs))

length-add_to : (o index : ℕ) (runs : List IndexRun) → length (add_to o index runs) ≡ length runs
length-add_to o index [] = refl
length-add_to zero index (run ∷ runs) = refl
length-add_to (suc o) index (run ∷ runs) = ap suc (length-add_to o index runs)

-- The runs of a partition, with the builder.
pub record Partitioned (run : IndexRun) (runs : List IndexRun) (b : LodIndexBuilder)
    (out : List IndexRun × LodIndexBuilder) : Type 0 where
  pub grows : Grows b out.1 []
  pub same : Perm (flatten out.0) (run ++ flatten runs)
  pub size : length out.0 ≡ length runs

module _ {F : Type 0} ⦃f : Floats F⦄ (xyz : ℕ → Result (F × F × F)) (check : ℕ → Result (Unit {0}))
    (max_points_per_node : ℕ) where
  pub poll_inv :
      (b b' : LodIndexBuilder) → poll xyz check max_points_per_node b ≡ ok b' → Grows b b' []
  unfolding poll
  poll_inv b b' h =
      let (_, checked, h') = >>=-eq-ok (check b.polls) _ h in
      let made : LodIndexBuilder = record {
        order = b.order;
        order_offset = b.order_offset;
        nodes = b.nodes;
        polls = b.polls + 1;
      } in
      let same : made ≡ b' = cc in
      rw (← same) (record { order = sym (append-nil b.order); offset = omega arith; nodes = refl })

  poll_at_inv :
      (read_index : ℕ) (b b' : LodIndexBuilder)
      → poll_at xyz check max_points_per_node read_index b ≡ ok b'
      → Grows b b' []
  poll_at_inv read_index b b' h = elim (Bool-cases (read_index % 4096 == 0)) [
    | inl t ↦ poll_inv b b' (rw t at h)
    | inr t ↦ let same : b ≡ b' = no_poll (rw t at h) in rw (← same) (Grows-refl b)
  ]
    where
      no_poll : ok b ≡ ok b' → b ≡ b'
      no_poll h = cc

  pub root_polls_inv :
      (n index : ℕ) (b b' : LodIndexBuilder)
      → root_polls xyz check max_points_per_node index n b ≡ ok b'
      → Grows b b' []
  unfolding root_polls
  root_polls_inv zero index b b' h = let same : b ≡ b' = cc in rw (← same) (Grows-refl b)
  root_polls_inv (suc n) index b b' h =
      let (b1, one, h') = >>=-eq-ok (poll_at xyz check max_points_per_node index b) _ h in
      Grows-trans b b1 b' [] [] (poll_at_inv index b b1 one) (root_polls_inv n (index + 1) b1 b' h')

  pub append_index_run_to_order_inv :
      (read_index : ℕ) (run : IndexRun) (b b' : LodIndexBuilder)
      → append_index_run_to_order xyz check max_points_per_node read_index run b ≡ ok b'
      → Grows b b' run
  unfolding append_index_run_to_order
  append_index_run_to_order_inv read_index [] b b' h =
      let same : b ≡ b' = cc in rw (← same) (Grows-refl b)
  append_index_run_to_order_inv read_index (index ∷ run) b b' h =
      let (b1, one, h1) = >>=-eq-ok (poll_at xyz check max_points_per_node read_index b) _ h in
      let (b2, two, h2) = >>=-eq-ok (append_index_to_order index b1) _ h1 in
      Grows-trans b b2 b' (index ∷ []) run
        (Grows-trans b b1 b2 [] (index ∷ []) (poll_at_inv read_index b b1 one)
          (append_index_to_order_inv index b1 b2 two))
        (append_index_run_to_order_inv (read_index + 1) run b2 b' h2)

  octant_small : (c p : F × F × F) → child_octant xyz check max_points_per_node c p < 8
  octant_small c p = by_tests (f.at_least p.0 c.0) (f.at_least p.1 c.1) (f.at_least p.2 c.2)
    where
      by_tests :
          (x y z : Bool)
          → (if x then 1 else 0) + 2 * (if y then 1 else 0) + 4 * (if z then 1 else 0) < 8
      by_tests x y z = ground arith

  pub partition_index_run_inv :
      (read_index : ℕ) (run : IndexRun) (c : F × F × F) (runs : List IndexRun) (b : LodIndexBuilder)
      (out : List IndexRun × LodIndexBuilder)
      → 8 ≤ length runs
      → partition_index_run xyz check max_points_per_node read_index run c runs b ≡ ok out
      → Partitioned run runs b out
  unfolding partition_index_run
  partition_index_run_inv read_index [] c runs b out eight h =
      let same : (runs, b) ≡ out = cc in
      rw (← same) (record { grows = Grows-refl b; same = Perm.refl (flatten runs); size = refl })
  partition_index_run_inv read_index (index ∷ run) c runs b out eight h =
      let (b1, one, h1) = >>=-eq-ok (poll_at xyz check max_points_per_node read_index b) _ h in
      let (p, point, h2) = >>=-eq-ok (xyz index) _ h1 in
      let o = child_octant xyz check max_points_per_node c p in
      let runs' = add_to o index runs in
      let size = length-add_to o index runs in
      let s =
        partition_index_run_inv (read_index + 1) run c runs' b1 out (omega (arith, size)) h2 in
      let small : o < length runs = omega (arith, octant_small c p) in
      record {
        grows = Grows-trans b b1 out.1 [] [] (poll_at_inv read_index b b1 one) s.grows;
        same = Perm.trans s.same (
            Perm.trans (Perm.append_left run (add_to-Perm o index runs small))
              (perm_middle run (flatten runs)));
        size = s.size ∙ size;
      }

  pub append_lod_selection_to_order_inv :
      (fuel left : ℕ) (runs : List IndexRun) (b : LodIndexBuilder) (out : Selection)
      → append_lod_selection_to_order xyz check max_points_per_node fuel left runs b ≡ ok out
      → Selected left runs b out
  unfolding append_lod_selection_to_order
  append_lod_selection_to_order_inv fuel zero runs b out h =
      let same : (runs, 0, b) ≡ out = cc in rw (← same) (select_none 0 runs b)
  append_lod_selection_to_order_inv zero (suc left) runs b out h = absurd (cc h)
  append_lod_selection_to_order_inv (suc fuel) (suc left) runs b out h =
      let (b1, one, h1) = >>=-eq-ok (poll xyz check max_points_per_node b) _ h in
      let (o, round, h2) = >>=-eq-ok (select_round (suc left) runs b1) _ h1 in
      let s = select_round_inv (suc left) runs b1 o round in
      let first : Selected (suc left) runs b o = record {
        taken = s.taken;
        grows = Grows-trans b b1 o.2 [] s.taken (poll_inv b b1 one) s.grows;
        same = s.same;
        budget = s.budget;
        size = s.size;
      } in
      elim (Bool-cases (o.1 == suc left)) [
        | inl t ↦ rw (← (stopped o out (rw t at h2))) first
        | inr t ↦
            let more = append_lod_selection_to_order_inv fuel o.1 o.0 o.2 out (rw t at h2) in
            record {
              taken = s.taken ++ more.taken;
              grows = Grows-trans b o.2 out.2 s.taken more.taken first.grows more.grows;
              same =
                  rw (append_assoc s.taken more.taken (flatten out.0))
                    (Perm.trans (Perm.append_left s.taken more.same) s.same);
              budget = omega (arith, s.budget, more.budget, length-append s.taken more.taken);
              size = more.size ∙ s.size;
            }
      ]

  -- The selection ends when it is full, or when nothing is left.
  pub append_lod_selection_to_order_done :
      (fuel left : ℕ) (runs : List IndexRun) (b : LodIndexBuilder) (out : Selection)
      → append_lod_selection_to_order xyz check max_points_per_node fuel left runs b ≡ ok out
      → (out.1 ≡ 0) ⊎ (flatten out.0 ≡ [])
  unfolding append_lod_selection_to_order
  append_lod_selection_to_order_done fuel zero runs b out h =
      let same : (runs, 0, b) ≡ out = cc in rw (← same) (inl refl)
  append_lod_selection_to_order_done zero (suc left) runs b out h = absurd (cc h)
  append_lod_selection_to_order_done (suc fuel) (suc left) runs b out h =
      let (b1, one, h1) = >>=-eq-ok (poll xyz check max_points_per_node b) _ h in
      let (o, round, h2) = >>=-eq-ok (select_round (suc left) runs b1) _ h1 in
      elim (Bool-cases (o.1 == suc left)) [
        | inl t ↦
            let nothing = (select_round_stuck left runs b1 o round (==→≡ o.1 (suc left) t)).1 in
            rw (← (stopped o out (rw t at h2))) (inr nothing)
        | inr t ↦ append_lod_selection_to_order_done fuel o.1 o.0 o.2 out (rw t at h2)
      ]
