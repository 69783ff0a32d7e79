-- ===== src/Reader/Iter/Items.antt =====
-- The items that the iterator over points returns, and what its `size_hint` says of them.
use mathlib.Core.Path.{subst}
use copc_rust.Prelude.{
  ℕ, zero, suc, ◌+◌, ◌<◌, ◌≤◌, ◌≡◌, refl, arith, ap, sym, ◌∙◌, Bool, true, false, List, [], ◌∷◌,
  Option, none, some, Result, ok, err, fault, Returns, IsOk, All, length, invalid_data, ok_or,
  reject_if, ltb, not, Ensures, bind-Ensures, Ensures-map, ◌^◌, Bool-cases, Option-cases,
  Ensures-ok, inl, inr, ◌==◌, las, if◌then◌else◌,
}
use copc_rust.Prelude.Int.{pos_part, to_unsigned}
use copc_rust.Core.Bounds.{Floats, Bounds}
use copc_rust.Core.Hierarchy.{Entry}
use copc_rust.Reader.Decode.{Cancel, check, accepts}
use copc_rust.Prelude.States.{M, continue-keeps, lift}
use copc_rust.Reader.Query.{total_candidate_points, add_candidates}
use copc_rust.Reader.Window.{ReadSeek}
use copc_rust.Reader.ChunkDecoder.{ChunkDecoding, Decoder}
use copc_rust.Reader.Iter.{
  Iter, new_iter, next_inner, load_from, load_chunk, load_next_chunk, poll, decompress, yielded,
  next, size_hint, map_ok, is_none,
}
use copc_rust.Reader.Iter.Counted.{candidates, rounds, IsCounted, Stepped, next_inner-Stepped}

abbrev pub ok_count : {A : Type 0} → List (Result A) → ℕ
ok_count [] = 0
ok_count (ok a ∷ items) = suc (ok_count items)
ok_count (err e ∷ items) = ok_count items
ok_count (fault w ∷ items) = ok_count items

abbrev follow : {A I : Type 0} → (I → List A) → Option A × I → List A
follow rest (none, t) = []
follow rest (some item, t) = item ∷ rest t

-- `next_inner` leaves the mark of the end to `next`.
module _ {r : ReadSeek} (d : ChunkDecoding r) where
  load_from_finished :
      (chunks : List Entry) (s : Iter d) → (load_from d chunks s).1.finished ≡ s.finished
  unfolding load_from load_chunk
  load_from_finished [] s = refl
  load_from_finished (e ∷ chunks) s =
      ground (arith, load_from_finished chunks (record s { chunks_left = chunks }))

  module _ ⦃f : Floats ℕ⦄ (bounds : Option (Bounds ℕ)) (cancel : Cancel) where
    poll_finished : (s : Iter d) → (poll d bounds cancel s).1.finished ≡ s.finished
    unfolding poll
    poll_finished s = ground arith

    decompress_finished : (s : Iter d) → (decompress d bounds cancel s).1.finished ≡ s.finished
    unfolding decompress
    decompress_finished s = ground arith

    loaded_finished :
        (loaded : Bool) (again : M (Iter d) (Option d.Point)) (t : Iter d)
        → (again t).1.finished ≡ t.finished
        → ((if loaded then again else lift (ok none)) t).1.finished ≡ t.finished
    loaded_finished true again t h = h
    loaded_finished false again t h = refl

    next_inner_finished :
        (fuel : ℕ) (s : Iter d) → (next_inner d bounds cancel fuel s).1.finished ≡ s.finished
    unfolding next_inner load_next_chunk
    next_inner_finished zero s = refl
    next_inner_finished (suc fuel) s = elim (Bool-cases (s.current_chunk_points_left == 0)) [
      | inl empty ↦ rw empty (
          continue-keeps (λ (t : Iter d). t.finished) (load_from d s.chunks_left s) _ s.finished
            (load_from_finished s.chunks_left s)
            λ loaded t. loaded_finished loaded _ t (next_inner_finished fuel t))
      | inr some_left ↦ rw some_left (
          continue-keeps (λ (t : Iter d). t.finished) (poll d bounds cancel s) _ s.finished
            (poll_finished s)
            λ polled t.
              continue-keeps (λ (t : Iter d). t.finished) (decompress d bounds cancel t) _
                t.finished (decompress_finished t)
                λ buf u.
                  continue-keeps (λ (t : Iter d). t.finished) (ok_or (d.read_from buf) las, u) _
                    u.finished refl
                    λ raw_point v. elim (Bool-cases (accepts bounds (d.direct raw_point))) [
                      | inl inside ↦ rw inside refl
                      | inr outside ↦ rw outside (next_inner_finished fuel v)
                    ])
    ]

map_ok-eq-ok :
    {A B : Type 0} (f : A → B) (r : Result A) (b : B)
    → map_ok f r ≡ ok b
    → (a : A) × (r ≡ ok a) × (f a ≡ b)
map_ok-eq-ok f (ok a) b e = (a, refl, cc)
map_ok-eq-ok f (err k) b e = absurd (cc e)
map_ok-eq-ok f (fault w) b e = absurd (cc e)

total_counts :
    (chunks : List Entry) (total : ℕ)
    → Ensures (λ n. n ≡ total + candidates chunks) (add_candidates chunks total)
unfolding add_candidates
total_counts [] total = omega arith
total_counts (e ∷ chunks) total =
    bind-Ensures (λ n. n ≡ total + candidates (e ∷ chunks))
      (ok_or (to_unsigned e.point_count) invalid_data) _
      λ count is_count.
        bind-Ensures (λ n. n ≡ total + candidates (e ∷ chunks))
          (reject_if (not (ltb (total + count) (2 ^ 64))) invalid_data) _
          λ fits is_fit.
            let same : count ≡ pos_part e.point_count = ground arith in
            Ensures-map (λ n. n ≡ total + count + candidates chunks)
              (λ n. n ≡ total + candidates (e ∷ chunks)) (add_candidates chunks (total + count))
              (total_counts chunks (total + count)) λ n h. omega arith

module _ {r : ReadSeek} (d : ChunkDecoding r) ⦃f : Floats ℕ⦄ (bounds : Option (Bounds ℕ))
    (cancel : Cancel) where
  -- What `PointIter::new` makes.
  new_iter-IsNew :
      (chunks : List Entry) (decoder : Decoder d) (s : Iter d)
      → new_iter d chunks bounds decoder ≡ ok s
      → (s.chunks_left ≡ chunks)
        × (s.current_chunk_points_left ≡ 0)
        × (s.remaining_candidate_points ≡ candidates chunks)
        × (s.exact_size ≡ is_none bounds)
        × (s.finished ≡ false)
  unfolding new_iter total_candidate_points
  new_iter-IsNew chunks decoder s made =
      let (total, counted, same) = map_ok-eq-ok _ (add_candidates chunks 0) s made in
      let count : total ≡ 0 + candidates chunks =
        Ensures-ok (λ n. n ≡ 0 + candidates chunks) (add_candidates chunks 0) total
          (total_counts chunks 0) counted in
      (
        ap (λ (t : Iter d). t.chunks_left) (sym same),
        ap (λ (t : Iter d). t.current_chunk_points_left) (sym same),
        ap (λ (t : Iter d). t.remaining_candidate_points) (sym same) ∙ count ∙ omega arith,
        ap (λ (t : Iter d). t.exact_size) (sym same),
        ap (λ (t : Iter d). t.finished) (sym same),
      )

  -- The items of at most `n` calls of `next`, which stop at the first `None`.
  unfoldable pub items : ℕ → Iter d → List (Result d.Point)
  items zero s = []
  items (suc n) s = follow (items n) (next d bounds cancel (suc (rounds s)) s)

  abbrev Delivers : ℕ → ℕ → List (Result d.Point) → Type 0
  Delivers m n found =
      All Returns found
      × (ok_count found ≤ m)
      × (length found ≤ suc m)
      × (bounds ≡ none → All IsOk found → m < n → length found ≡ m)

  items_finished : (n : ℕ) (s : Iter d) → s.finished ≡ true → items n s ≡ []
  unfolding items next
  items_finished zero s h = refl
  items_finished (suc n) s h = rw h refl

  module _ (checks : (n : ℕ) → Returns (check cancel n)) where
    after :
        (m n : ℕ) (r : Result (Option d.Point) × Iter d)
        → ((t : Iter d)
            → IsCounted t
            → t.finished ≡ false
            → Delivers t.remaining_candidate_points n (items n t))
        → r.1.finished ≡ false
        → Stepped d bounds cancel checks m r
        → Delivers m (suc n) (follow (items n) (yielded d r))
    after m n (ok (some point), t) rest live (counted, less, unbounded) =
        let (returns, upper, most, exact) = rest t counted live in
        (
          (tt, returns),
          omega arith,
          omega arith,
          λ u (a, all) below. let same = unbounded u in ap suc (exact u all (omega arith)) ∙ same,
        )
    after m n (ok none, t) rest live (counted, end, unbounded) =
        (tt, omega arith, omega arith, λ u all below. sym (unbounded u))
    after m n (err e, t) rest live less =
        let stop : items n (record t { finished = true }) ≡ [] = items_finished n _ refl in
        rw stop ((tt, tt), omega arith, omega arith, λ u all below. absurd all.0)
    after m n (fault w, t) rest live less = absurd less

    next_live :
        (fuel : ℕ) (s : Iter d)
        → s.finished ≡ false
        → next d bounds cancel fuel s ≡ yielded d (next_inner d bounds cancel fuel s)
    unfolding next
    next_live fuel s live =
        ap (λ b. if b then (none, s) else yielded d (next_inner d bounds cancel fuel s)) live

    items-Delivers :
        (n : ℕ) (s : Iter d)
        → IsCounted s
        → s.finished ≡ false
        → Delivers s.remaining_candidate_points n (items n s)
    unfolding items
    items-Delivers zero s counted live =
        (tt, omega arith, omega arith, λ u all below. absurd (omega arith))
    items-Delivers (suc n) s counted live =
        subst (λ r. Delivers s.remaining_candidate_points (suc n) (follow (items n) r))
          (sym (next_live (suc (rounds s)) s live))
          (after s.remaining_candidate_points n (next_inner d bounds cancel (suc (rounds s)) s)
            (items-Delivers n) (next_inner_finished d bounds cancel (suc (rounds s)) s ∙ live)
            (next_inner-Stepped d bounds cancel checks (suc (rounds s)) s counted (omega arith)))

    size_hint_upper : (s : Iter d) → (size_hint d s).1 ≡ some s.remaining_candidate_points
    size_hint_upper s = elim (Bool-cases s.exact_size) [ inl e ↦ rw e refl | inr e ↦ rw e refl ]

    size_hint_lower :
        {n : ℕ} (s : Iter d)
        → s.exact_size ≡ is_none bounds
        → (bounds ≡ none → n ≡ s.remaining_candidate_points)
        → (size_hint d s).0 ≤ n
    size_hint_lower s exact exactly = elim (Option-cases bounds) [
      | inl u ↦
          let known : s.exact_size ≡ true = exact ∙ ap is_none u in
          let same = exactly u in rw known (omega arith)
      | inr (box, u) ↦
          let known : s.exact_size ≡ false = exact ∙ ap is_none u in rw known (omega arith)
    ]

    -- If the cancellation check returns, then, of an iterator that
    -- `PointIter::new` has made, the upper bound of `size_hint` is the number of candidates of the
    -- chunks; the first `n` calls of `next` return, with at most that many points, and at most one item
    -- more; and if they are more calls than candidates and no item is an error, then the items are as
    -- many as the lower bound at least, and without bounds exactly as many as the candidates.
    pub size_hint_holds :
        (chunks : List Entry) (decoder : Decoder d) (s : Iter d) (n : ℕ)
        → new_iter d chunks bounds decoder ≡ ok s
        → ((size_hint d s).1 ≡ some (candidates chunks))
          × All Returns (items n s)
          × (ok_count (items n s) ≤ candidates chunks)
          × (length (items n s) ≤ suc (candidates chunks))
          × (All IsOk (items n s)
              → candidates chunks < n
              → ((size_hint d s).0 ≤ length (items n s))
                × (bounds ≡ none → length (items n s) ≡ candidates chunks))
    unfolding new_iter
    size_hint_holds chunks decoder s n made =
        let (left, none_left, total, exact, live) = new_iter-IsNew chunks decoder s made in
        let counted : IsCounted s = rw (left, none_left) (total ∙ omega arith) in
        let (returns, upper, most, equal) = items-Delivers n s counted live in
        (
          size_hint_upper s ∙ ap some total,
          returns,
          rw⁻¹ total upper,
          rw⁻¹ total most,
          λ all below.
              let exactly : bounds ≡ none → length (items n s) ≡ s.remaining_candidate_points =
                λ u. equal u all (rw total below) in
              (size_hint_lower s exact exactly, λ u. exactly u ∙ total),
        )
