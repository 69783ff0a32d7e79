-- ===== src/Reader/Hierarchy/Accepted.antt =====
-- copc-reader/src/lib.rs: lemmas on an entry that `validate_hierarchy_entry` accepts.
use copc_rust.Prelude.{
  reject_if-ok, >>=-eq-ok, ℕ, suc, ◌+◌, ◌≤◌, ◌≡◌, arith, ok, invalid_data, ◌>>=◌, ltb, ◌||◌,
  reject_if,
}
use copc_rust.Prelude.Int.{pos, pos_part}
use copc_rust.Core.Key.Tree.{IsKey}
use copc_rust.Core.Hierarchy
use copc_rust.Core.Hierarchy.{Entry, availability, EntryAvailability, empty, point_data, child_page}
use copc_rust.Core.Hierarchy.Validity.{
  IsSized, Entry-validate_iff, Availability-cases, no_points, some_points, a_page, bad_count,
}
use copc_rust.Reader.Hierarchy.{
  CopcDataRanges, validate_hierarchy_entry, validate_placed, validate_range_in_file,
  max_point_chunk_bytes,
}
use copc_rust.Reader.Hierarchy.Placed.{IsPlaced, in_file_inv}

pub accepted_valid :
    (file_len : ℕ) (ranges : CopcDataRanges) (e : Entry)
    → validate_hierarchy_entry e file_len ranges ≡ ok tt
    → Hierarchy.validate e ≡ ok tt
unfolding validate_hierarchy_entry
accepted_valid file_len ranges e h =
    let (_, valid, _) = >>=-eq-ok (Hierarchy.validate e) _ h in valid

within_inv :
    (offset n file_len low high : ℕ)
    → (validate_range_in_file offset n file_len >>= λ end.
        reject_if (ltb offset low || ltb high end) invalid_data)
      ≡ ok tt
    → (offset + n ≤ file_len) × (low ≤ offset) × (offset + n ≤ high)
within_inv offset n file_len low high h =
    let (end, found, k) = >>=-eq-ok (validate_range_in_file offset n file_len) _ h in
    let (inside, same) = in_file_inv offset n file_len end found in ground arith

chunk_inv :
    (n size file_len : ℕ) (ranges : CopcDataRanges) (e : Entry)
    → e.byte_size ≡ pos size
    → validate_placed e file_len ranges (point_data n) ≡ ok tt
    → (size ≤ max_point_chunk_bytes)
      × (e.offset + size ≤ file_len)
      × (ranges.point_data_start ≤ e.offset)
      × (e.offset + size ≤ ranges.point_data_end)
unfolding validate_placed
chunk_inv n size file_len ranges e h k =
    let (_, small, k1) =
      >>=-eq-ok (reject_if (ltb max_point_chunk_bytes size) invalid_data) _ (rw h at k) in
    let (inside, above, below) =
      within_inv e.offset size file_len ranges.point_data_start ranges.point_data_end k1 in
    let bounded = reject_if-ok _ invalid_data small in (ground arith, inside, above, below)

page_inv :
    (size file_len : ℕ) (ranges : CopcDataRanges) (e : Entry)
    → e.byte_size ≡ pos size
    → validate_placed e file_len ranges child_page ≡ ok tt
    → (e.offset + size ≤ file_len)
      × (ranges.hierarchy_start ≤ e.offset)
      × (e.offset + size ≤ ranges.hierarchy_end)
unfolding validate_placed
page_inv size file_len ranges e h k =
    within_inv e.offset size file_len ranges.hierarchy_start ranges.hierarchy_end (rw h at k)

-- An accepted entry, in a file of any length.
pub accepted-IsPlaced :
    (file_len : ℕ) (ranges : CopcDataRanges) (e : Entry)
    → validate_hierarchy_entry e file_len ranges ≡ ok tt
    → IsKey e.key × IsSized e × IsPlaced ranges file_len e
unfolding validate_hierarchy_entry
accepted-IsPlaced file_len ranges e h =
    let (_, valid, h1) = >>=-eq-ok (Hierarchy.validate e) _ h in
    let (key, sized) = (Entry-validate_iff e).0 valid in
    (
      key,
      sized,
      elim (Availability-cases e) [
        | no_points none_there k ↦ (λ p. ground arith, λ p. cc)
        | some_points n some_there k ↦
            let size : e.byte_size ≡ pos (pos_part e.byte_size) = ground arith in
            let found =
              chunk_inv (suc n) (pos_part e.byte_size) file_len ranges e size (rw k at h1) in
            (λ p. found, λ p. absurd (ground arith))
        | a_page pointer k ↦
            let size : e.byte_size ≡ pos (pos_part e.byte_size) = ground arith in
            let found = page_inv (pos_part e.byte_size) file_len ranges e size (rw k at h1) in
            (λ p. absurd (ground arith), λ p. found)
        | bad_count n wrong k ↦ absurd (ground arith)
      ],
    )
