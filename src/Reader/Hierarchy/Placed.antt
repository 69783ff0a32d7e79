-- ===== src/Reader/Hierarchy/Placed.antt =====
-- copc-reader/src/lib.rs: `validate_hierarchy_entry`, which entries it accepts.
use copc_rust.Prelude.{
  ℕ, suc, ◌+◌, ◌^◌, ◌<◌, ◌≤◌, ◌≡◌, refl, arith, ◌↔◌, ◌⊎◌, inl, inr, ok, err, invalid_data, ◌>>=◌,
  Returns, >>=-Returns, Bool-cases, ltb, ◌||◌, reject_if,
}
use copc_rust.Prelude.Int.{pos, negsuc, pos_part}
use copc_rust.Core.Key.Tree.{IsKey}
use copc_rust.Core.Hierarchy
use copc_rust.Core.Hierarchy.{Entry, availability, EntryAvailability, empty, point_data, child_page}
use copc_rust.Core.Hierarchy.Validity.{
  IsSized, Entry-validate_iff, Entry-validate_cases, Availability-cases, Availability, no_points,
  some_points, a_page, bad_count,
}
use copc_rust.Reader.Hierarchy.{
  CopcDataRanges, validate_hierarchy_entry, validate_placed, validate_range_in_file,
  checked_range_end, max_point_chunk_bytes,
}

-- The bytes of an entry lie in the section that holds them, and so in the file: the point data, in
-- chunks of 512 MiB at most, or the hierarchy.
abbrev pub IsPlaced : CopcDataRanges → ℕ → Entry → Type 0
IsPlaced ranges file_len e =
    let end = e.offset + pos_part e.byte_size in
    ((0 < pos_part e.point_count)
      → (pos_part e.byte_size ≤ max_point_chunk_bytes)
        × (end ≤ file_len)
        × (ranges.point_data_start ≤ e.offset)
        × (end ≤ ranges.point_data_end))
    × (e.point_count ≡ negsuc 0
        → (end ≤ file_len) × (ranges.hierarchy_start ≤ e.offset) × (end ≤ ranges.hierarchy_end))

in_file_lem :
    (offset n file_len : ℕ)
    → offset + n ≤ file_len
    → file_len < 2 ^ 64
    → validate_range_in_file offset n file_len ≡ ok (offset + n)
unfolding validate_range_in_file checked_range_end
in_file_lem offset n file_len h k = ground arith

pub in_file_inv :
    (offset n file_len end : ℕ)
    → validate_range_in_file offset n file_len ≡ ok end
    → (offset + n ≤ file_len) × (end ≡ offset + n)
unfolding validate_range_in_file checked_range_end
in_file_inv offset n file_len end h = ground arith

in_file_cases :
    (offset n file_len : ℕ)
    → file_len < 2 ^ 64
    → (offset + n ≤ file_len) × (validate_range_in_file offset n file_len ≡ ok (offset + n))
      ⊎ (file_len < offset + n) × (validate_range_in_file offset n file_len ≡ err invalid_data)
unfolding validate_range_in_file checked_range_end
in_file_cases offset n file_len h = ground arith

module _ (ranges : CopcDataRanges) (file_len : ℕ) (fits : file_len < 2 ^ 64) where
  within_iff :
      (offset n low high : ℕ)
      → ((validate_range_in_file offset n file_len >>= λ end.
            reject_if (ltb offset low || ltb high end) invalid_data)
          ≡ ok tt)
        ↔ ((offset + n ≤ file_len) × (low ≤ offset) × (offset + n ≤ high))
  within_iff offset n low high = elim (in_file_cases offset n file_len fits) [
    | inl (h, e) ↦ rw e (λ k. ground arith, λ k. ground arith)
    | inr (h, e) ↦ rw e (λ k. ground arith, λ k. ground arith)
  ]

  chunk_iff :
      (n size : ℕ) (e : Entry)
      → e.byte_size ≡ pos size
      → (validate_placed e file_len ranges (point_data n) ≡ ok tt) ↔ (
          (size ≤ max_point_chunk_bytes)
          × (e.offset + size ≤ file_len)
          × (ranges.point_data_start ≤ e.offset)
          × (e.offset + size ≤ ranges.point_data_end))
  unfolding validate_placed
  chunk_iff n size e h =
      let (to, from) = within_iff e.offset size ranges.point_data_start ranges.point_data_end in
      rw h (elim (Bool-cases (ltb max_point_chunk_bytes size)) [
        | inl b ↦ rw b (λ k. cc, λ k. absurd (ground arith))
        | inr b ↦ rw b (
          λ k. let (inside, above, below) = to k in (ground arith, inside, above, below),
          λ (small, inside, above, below). from (inside, above, below),
        )
      ])

  page_iff :
      (size : ℕ) (e : Entry)
      → e.byte_size ≡ pos size
      → (validate_placed e file_len ranges child_page ≡ ok tt) ↔ (
          (e.offset + size ≤ file_len)
          × (ranges.hierarchy_start ≤ e.offset)
          × (e.offset + size ≤ ranges.hierarchy_end))
  unfolding validate_placed
  page_iff size e h = rw h (within_iff e.offset size ranges.hierarchy_start ranges.hierarchy_end)

  IsPlaced-iff :
      (e : Entry)
      → IsSized e
      → ((availability e >>= validate_placed e file_len ranges) ≡ ok tt)
        ↔ IsPlaced ranges file_len e
  unfolding validate_placed
  IsPlaced-iff e sized = elim (Availability-cases e) [
    | no_points h k ↦ rw (k, h) (λ c. (λ p. ground arith, λ p. cc), λ c. refl)
    | some_points n h k ↦
        let size : e.byte_size ≡ pos (pos_part e.byte_size) = ground arith in
        let (to, from) = chunk_iff (suc n) (pos_part e.byte_size) e size in
        rw k (λ c. (λ p. to c, λ p. absurd (ground arith)), λ c. from (c.0 (ground arith)))
    | a_page h k ↦
        let size : e.byte_size ≡ pos (pos_part e.byte_size) = ground arith in
        let (to, from) = page_iff (pos_part e.byte_size) e size in
        rw k (λ c. (λ p. absurd (ground arith), λ p. to c), λ c. from (c.1 h))
    | bad_count n h k ↦ absurd (ground arith)
  ]

  -- In a file whose length fits a `u64`, `validate_hierarchy_entry` accepts exactly the entries that
  -- `Entry::validate` accepts and whose bytes lie in their section of the file.
  pub validate_hierarchy_entry_iff :
      (e : Entry)
      → (validate_hierarchy_entry e file_len ranges ≡ ok tt)
        ↔ (IsKey e.key × IsSized e × IsPlaced ranges file_len e)
  unfolding validate_hierarchy_entry
  validate_hierarchy_entry_iff e = elim (Entry-validate_cases e) [
    | inl v ↦
        let (key, sized) = (Entry-validate_iff e).0 v in
        let (to, from) = IsPlaced-iff e sized in rw v (λ h. (key, sized, to h), λ (_, _, p). from p)
    | inr v ↦ rw v (λ h. cc, λ (key, sized, p). cc (v, (Entry-validate_iff e).1 (key, sized)))
  ]

placed-Returns :
    (e : Entry) (file_len : ℕ) (ranges : CopcDataRanges) (a : EntryAvailability)
    → Returns (validate_placed e file_len ranges a)
unfolding validate_placed validate_range_in_file checked_range_end
placed-Returns e file_len ranges empty = tt
placed-Returns e file_len ranges (point_data n) = ground arith
placed-Returns e file_len ranges child_page = ground arith

pub validate_hierarchy_entry-Returns :
    (e : Entry) (file_len : ℕ) (ranges : CopcDataRanges)
    → Returns (validate_hierarchy_entry e file_len ranges)
unfolding validate_hierarchy_entry
validate_hierarchy_entry-Returns e file_len ranges =
    >>=-Returns (Hierarchy.validate e) _ (returns (Entry-validate_cases e)) λ _.
      >>=-Returns (availability e) _ (by_availability (Availability-cases e))
        (placed-Returns e file_len ranges)
  where
    returns :
        (Hierarchy.validate e ≡ ok tt) ⊎ (Hierarchy.validate e ≡ err invalid_data)
        → Returns (Hierarchy.validate e)
    returns (inl h) = rw h tt
    returns (inr h) = rw h tt

    by_availability : Availability e → Returns (availability e)
    by_availability (no_points h k) = rw k tt
    by_availability (some_points n h k) = rw k tt
    by_availability (a_page h k) = rw k tt
    by_availability (bad_count n h k) = rw k tt
