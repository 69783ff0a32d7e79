-- ===== src/Reader/Coalesce/Cuts.antt =====
-- copc-reader/src/ranged.rs: the bytes of a chunk, cut out of those of its group.
use copc_rust.Prelude.{
  ℕ, zero, suc, ◌+◌, ◌-◌, ◌^◌, ◌<◌, ◌≤◌, ◌≡◌, refl, ap, ◌∙◌, arith, List, [], ◌∷◌, length, take,
  drop, drop-drop, length-take, length-drop, ok, err, io, some, none, leb, inl, inr, ◌⊎◌, le→leb,
  lt→ltb, true, ltb,
}
use copc_rust.Prelude.Int.{ℤ, pos, negsuc, pos_part, to_unsigned}
use copc_rust.Prelude.Slices.{slice, slice_lem}
use copc_rust.Core.Hierarchy.{Entry}
use copc_rust.Reader.Hierarchy.{read_exact_at}
use copc_rust.Reader.Decode.{read_chunk_bytes}
use copc_rust.Reader.Coalesce.{chunk_slice, fetch_range}
use copc_rust.Reader.Coalesce.Groups.{end_of}

module _ {A : Type 0} where
  take-take : (m n : ℕ) (xs : List A) → m ≤ n → take m (take n xs) ≡ take m xs
  take-take zero n xs h = refl
  take-take (suc m) zero xs h = absurd (omega arith)
  take-take (suc m) (suc n) [] h = refl
  take-take (suc m) (suc n) (x ∷ xs) h = ap (λ t. x ∷ t) (take-take m n xs (omega arith))

  take-drop-take :
      (m k n : ℕ) (xs : List A) → k + m ≤ n → take m (drop k (take n xs)) ≡ take m (drop k xs)
  take-drop-take m zero n xs h = take-take m n xs (omega arith)
  take-drop-take m (suc k) zero xs h = absurd (omega arith)
  take-drop-take m (suc k) (suc n) [] h = refl
  take-drop-take m (suc k) (suc n) (x ∷ xs) h = take-drop-take m k n xs (omega arith)

unsigned_cases : (a : ℤ) → (to_unsigned a ≡ none) ⊎ (to_unsigned a ≡ some (pos_part a))
unsigned_cases (pos n) = inr refl
unsigned_cases (negsuc n) = inl refl

-- The bytes of the file from `start` to `end`.
abbrev pub part : List ℕ → ℕ → ℕ → List ℕ
part file start end = take (end - start) (drop start file)

pub fetch_range-part :
    (file : List ℕ) (start end : ℕ)
    → start ≤ end
    → end ≤ length file
    → fetch_range file start end ≡ ok (part file start end)
unfolding fetch_range read_exact_at
fetch_range-part file start end h k = ground arith

pub fetch_range_beyond :
    (file : List ℕ) (start end : ℕ)
    → start ≤ end
    → length file < end
    → fetch_range file start end ≡ err io
unfolding fetch_range read_exact_at
fetch_range_beyond file start end h k = ground arith

module _ (file : List ℕ) (fits : length file < 2 ^ 64) (start end : ℕ) (ordered : start ≤ end)
    (inside : end ≤ length file) where
  length-part : length (part file start end) ≡ end - start
  length-part = omega (arith, length-take (end - start) (drop start file), length-drop start file)

  cut :
      (offset n : ℕ)
      → start ≤ offset
      → offset + n ≤ end
      → slice (part file start end) (offset - start) (offset - start + n)
        ≡ ok (take n (drop offset file))
  cut offset n h k =
      let size : offset - start + n - (offset - start) ≡ n = omega arith in
      let back : start + (offset - start) ≡ offset = omega arith in
      slice_lem (part file start end) (offset - start) (offset - start + n) (omega arith)
        (omega (arith, length-part))
      ∙ ap (λ m. ok (take m (drop (offset - start) (part file start end)))) size
      ∙ ap ok (
          take-drop-take n (offset - start) (end - start) (drop start file) (omega arith)
          ∙ ap (take n) (drop-drop (offset - start) start file ∙ ap (λ m. drop m file) back))

  reads_part :
      (offset n : ℕ)
      → offset + n ≤ end
      → read_exact_at file offset n ≡ ok (take n (drop offset file))
  unfolding read_exact_at
  reads_part offset n k = ground arith

  -- A chunk within the range of its group is the same, cut out of the group or read from the file.
  pub chunk_slice-read_chunk_bytes :
      (e : Entry)
      → start ≤ e.offset
      → end_of e ≤ end
      → chunk_slice (part file start end) start e ≡ read_chunk_bytes file e
  unfolding chunk_slice read_chunk_bytes
  chunk_slice-read_chunk_bytes e h k =
      let starts : leb start e.offset ≡ true = le→leb start e.offset h in
      elim (unsigned_cases e.byte_size) [
        | inl none_there ↦ rw (starts, none_there) refl
        | inr there ↦
            let n = pos_part e.byte_size in
            let offset = e.offset - start in
            let fit : ltb (offset + n) (2 ^ 64) ≡ true =
              lt→ltb (offset + n) (2 ^ 64) (omega arith) in
            let within : leb (offset + n) (length (part file start end)) ≡ true =
              le→leb (offset + n) (length (part file start end)) (omega (arith, length-part)) in
            rw (starts, there, fit, within, cut e.offset n h k, reads_part e.offset n k) refl
      ]
