-- ===== src/Reader/Iter/Counted.antt =====
-- The counters of the iterator over points.
use mathlib.Core.Path.{subst}
use copc_rust.Prelude.{
  ℕ, zero, ==→≡, ◌≢◌, suc, ◌+◌, ◌<◌, ◌≤◌, ◌≡◌, refl, arith, Bool, true, false, List, [], ◌∷◌,
  Option, none, some, ◌==◌, if◌then◌else◌, Result, ok, err, fault, Returns, ok_or, las, Bool-cases,
  Option-cases, inl, inr,
}
use copc_rust.Prelude.States.{M, continue, continue-Holds, lift}
use copc_rust.Prelude.Int.{pos, pos_part, leb_ℤ}
use copc_rust.Core.Bounds.{Floats, Bounds}
use copc_rust.Core.Hierarchy.{Entry}
use copc_rust.Reader.Decode.{Cancel, check, accepts}
use copc_rust.Reader.Window.{ReadSeek}
use copc_rust.Reader.ChunkDecoder.{ChunkDecoding, Decoder, seek_to_chunk, decompress_one}
use copc_rust.Reader.Iter.{
  PointIter, Iter, load_chunk, load_from, load_next_chunk, poll, decompress, next_inner,
}

-- The points of the chunks.
abbrev pub candidates : List Entry → ℕ
candidates [] = 0
candidates (e ∷ chunks) = pos_part e.point_count + candidates chunks

-- A round for each chunk, and for each of its points.
abbrev rounds_of : List Entry → ℕ
rounds_of [] = 0
rounds_of (e ∷ chunks) = suc (pos_part e.point_count + rounds_of chunks)

abbrev pub rounds : {D : Type 0} → PointIter D → ℕ
rounds s = s.current_chunk_points_left + rounds_of s.chunks_left

-- The remaining candidates are the points left of the current chunk and those of the other chunks.
abbrev pub IsCounted : {D : Type 0} → PointIter D → Type 0
IsCounted s = s.remaining_candidate_points ≡ s.current_chunk_points_left + candidates s.chunks_left

module _ {D : Type 0} where
  abbrev Loaded : ℕ → ℕ → Result Bool × PointIter D → Type 0
  Loaded m k (ok true, t) = IsCounted t × (t.remaining_candidate_points ≡ m) × (rounds t < k)
  Loaded m k (ok false, t) = IsCounted t × (t.remaining_candidate_points ≡ m) × (m ≡ 0)
  Loaded m k (err e, t) = t.remaining_candidate_points ≡ m
  Loaded m k (fault w, t) = ⊥

  abbrev Taken : ℕ → ℕ → Result (List ℕ) × PointIter D → Type 0
  Taken m k (ok buf, t) =
      IsCounted t × (suc t.remaining_candidate_points ≡ m) × (suc (rounds t) ≡ k)
  Taken m k (err e, t) = t.remaining_candidate_points ≡ m
  Taken m k (fault w, t) = ⊥

  abbrev Polled : PointIter D → Result (Unit {0}) × PointIter D → Type 0
  Polled s (ok done, t) =
      (t.remaining_candidate_points ≡ s.remaining_candidate_points)
      × (t.current_chunk_points_left ≡ s.current_chunk_points_left)
      × (t.chunks_left ≡ s.chunks_left)
  Polled s (err e, t) = t.remaining_candidate_points ≡ s.remaining_candidate_points
  Polled s (fault w, t) = ⊥

module _ {r : ReadSeek} (d : ChunkDecoding r) where
  -- The decoder returns.
  seeks : (offset n : ℕ) (x : Decoder d) → Returns (seek_to_chunk d offset n x)
  unfolding seek_to_chunk
  seeks offset n x = ground arith

  reads : (x : Decoder d) → Returns (decompress_one d x)
  unfolding decompress_one
  reads x = ground arith

  load_chunk-Loaded :
      (e : Entry) (s : Iter d) (k : ℕ)
      → s.current_chunk_points_left ≡ 0
      → s.remaining_candidate_points ≡ pos_part e.point_count + candidates s.chunks_left
      → pos_part e.point_count + rounds_of s.chunks_left < k
      → Loaded s.remaining_candidate_points k (load_chunk d e s)
  unfolding load_chunk
  load_chunk-Loaded e s k empty counted bound =
      ground (arith, seeks e.offset (pos_part e.byte_size) s.decoder)

  load_from-Loaded :
      (chunks : List Entry) (s : Iter d) (k : ℕ)
      → s.current_chunk_points_left ≡ 0
      → s.chunks_left ≡ chunks
      → s.remaining_candidate_points ≡ candidates chunks
      → rounds_of chunks ≤ k
      → Loaded s.remaining_candidate_points k (load_from d chunks s)
  unfolding load_from
  load_from-Loaded [] s k empty left counted bound = (rw (empty, left) counted, refl, counted)
  load_from-Loaded (e ∷ chunks) s k empty left counted bound =
      let next : Iter d = record s { chunks_left = chunks } in
      elim (Bool-cases (leb_ℤ e.point_count (pos 0))) [
        | inl none_there ↦
            let no_points : pos_part e.point_count ≡ 0 = ground arith in
            rw none_there (load_from-Loaded chunks next k empty refl (omega arith) (omega arith))
        | inr points ↦ rw points (load_chunk-Loaded e next k empty counted (omega arith))
      ]

  load_next_chunk-Loaded :
      (s : Iter d) (k : ℕ)
      → s.current_chunk_points_left ≡ 0
      → IsCounted s
      → rounds s ≤ k
      → Loaded s.remaining_candidate_points k (load_next_chunk d s)
  unfolding load_next_chunk
  load_next_chunk-Loaded s k empty counted bound =
      load_from-Loaded s.chunks_left s k empty refl (omega arith) (omega arith)

  module _ ⦃f : Floats ℕ⦄ (bounds : Option (Bounds ℕ)) (cancel : Cancel)
      (checks : (n : ℕ) → Returns (check cancel n)) where
    poll-Polled : (s : Iter d) → Polled s (poll d bounds cancel s)
    unfolding poll
    poll-Polled s = ground (arith, checks s.polls)

    decompress-Taken :
        (s : Iter d)
        → IsCounted s
        → 0 < s.current_chunk_points_left
        → Taken s.remaining_candidate_points (rounds s) (decompress d bounds cancel s)
    unfolding decompress
    decompress-Taken s counted some_left = ground (arith, reads s.decoder)

    -- From `m` remaining candidates: a point costs one at least, and exactly one without bounds, and
    -- the end is reached without candidates.
    abbrev pub Stepped : ℕ → Result (Option d.Point) × Iter d → Type 0
    Stepped m (ok (some point), t) =
        IsCounted t
        × (t.remaining_candidate_points < m)
        × (bounds ≡ none → suc t.remaining_candidate_points ≡ m)
    Stepped m (ok none, t) =
        IsCounted t × (t.remaining_candidate_points ≡ 0) × (bounds ≡ none → m ≡ 0)
    Stepped m (err e, t) = t.remaining_candidate_points ≤ m
    Stepped m (fault w, t) = ⊥

    -- A record that the bounds leave out.
    skipped :
        (m n : ℕ) (r : Result (Option d.Point) × Iter d)
        → suc n ≡ m
        → bounds ≢ none
        → Stepped n r
        → Stepped m r
    skipped m n (ok (some point), t) h b (c, l, u) = (c, omega arith, λ e. absurd (b e))
    skipped m n (ok none, t) h b (c, l, u) = (c, l, λ e. absurd (b e))
    skipped m n (err e, t) h b l = omega arith
    skipped m n (fault w, t) h b l = l

    all_accepted : (p : ℕ × ℕ × ℕ) → accepts bounds p ≡ false → bounds ≢ none
    all_accepted p h e =
        let none_left : accepts none p ≡ false = subst (λ b. accepts b p ≡ false) e h in cc

    abbrev Continues : ℕ → Type 0
    Continues fuel =
        (t : Iter d)
        → IsCounted t
        → rounds t < fuel
        → Stepped t.remaining_candidate_points (next_inner d bounds cancel fuel t)

    round_after_load :
        (fuel m k : ℕ) (loaded : Bool) (t : Iter d)
        → k ≤ fuel
        → Continues fuel
        → Loaded m k (ok loaded, t)
        → Stepped m ((if loaded then next_inner d bounds cancel fuel else lift (ok none)) t)
    round_after_load fuel m k true t bound go_on (counted, same, less) =
        subst (λ n. Stepped n (next_inner d bounds cancel fuel t)) same
          (go_on t counted (omega arith))
    round_after_load fuel m k false t bound go_on (counted, same, end) =
        (counted, omega arith, λ unbounded. end)

    -- The step behind a decompressed record.
    abbrev after_record : ℕ → List ℕ → M (Iter d) (Option d.Point)
    after_record fuel buf s =
        continue (ok_or (d.read_from buf) las, s)
          λ raw_point.
            if accepts bounds (d.direct raw_point)
            then lift (ok (some (d.new_point raw_point)))
            else next_inner d bounds cancel fuel

    round_after_record :
        (fuel m k : ℕ) (buf : List ℕ) (t : Iter d)
        → k ≤ fuel
        → Continues fuel
        → Taken m k (ok buf, t)
        → Stepped m (after_record fuel buf t)
    round_after_record fuel m k buf t bound go_on (counted, less, fewer) =
        elim (Option-cases (d.read_from buf)) [
          | inl unread ↦ rw unread (omega arith)
          | inr (raw_point, read) ↦ elim (Bool-cases (accepts bounds (d.direct raw_point))) [
            | inl inside ↦ rw (read, inside) (counted, omega arith, λ unbounded. less)
            | inr outside ↦
                rw (read, outside)
                  (skipped m t.remaining_candidate_points (next_inner d bounds cancel fuel t) less
                    (all_accepted (d.direct raw_point) outside) (go_on t counted (omega arith)))
          ]
        ]

    pub next_inner-Stepped :
        (fuel : ℕ) (s : Iter d)
        → IsCounted s
        → rounds s < fuel
        → Stepped s.remaining_candidate_points (next_inner d bounds cancel fuel s)
    unfolding next_inner
    next_inner-Stepped zero s counted enough = absurd (omega arith)
    next_inner-Stepped (suc fuel) s counted enough =
        let m = s.remaining_candidate_points in
        elim (Bool-cases (s.current_chunk_points_left == 0)) [
          | inl empty ↦
              let none_left : s.current_chunk_points_left ≡ 0 = ==→≡ _ 0 empty in
              rw empty (
                continue-Holds (Loaded m (rounds s)) (Stepped m) (load_next_chunk d s) _
                  (load_next_chunk-Loaded s (rounds s) none_left counted (omega arith))
                  (λ loaded t.
                    round_after_load fuel m (rounds s) loaded t (omega arith)
                      (next_inner-Stepped fuel))
                  (λ e t l. omega arith) (λ w t l. l))
          | inr some_left ↦
              let left : 0 < s.current_chunk_points_left = ground arith in
              let within : rounds s ≤ fuel = omega arith in
              rw some_left (
                continue-Holds (Polled s) (Stepped m) (poll d bounds cancel s) _ (poll-Polled s)
                  (λ polled t (same, left_same, chunks_same).
                    subst
                      (λ n. Stepped n (continue (decompress d bounds cancel t) (after_record fuel)))
                      same
                      (continue-Holds (Taken t.remaining_candidate_points (rounds t))
                        (Stepped t.remaining_candidate_points) (decompress d bounds cancel t) _
                        (decompress-Taken t (rw (left_same, chunks_same, same) counted)
                          (rw left_same left))
                        (λ buf u.
                          round_after_record fuel t.remaining_candidate_points (rounds t) buf u
                            (rw (left_same, chunks_same) within) (next_inner-Stepped fuel))
                        (λ e u l. omega arith) (λ w u l. l)))
                  (λ e t l. omega arith) (λ w t l. l))
        ]
