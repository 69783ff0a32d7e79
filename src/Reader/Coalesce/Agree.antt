-- ===== src/Reader/Coalesce/Agree.antt =====
-- Reading the chunks group by group, and one after the other.
use mathlib.Core.Path.{fun_ext, subst}
use native.Mathlib.Decide.{dec_lt}
use copc_rust.Prelude.{
  ℕ, ◌+◌, ◌^◌, ◌<◌, ◌≤◌, ◌≡◌, refl, ap, arith, List, [], ◌∷◌, length, All, Option, none, ok, io,
  ◌>>=◌, Same, never-Same, Ensures, bind-Ensures, Ensures-map, ok_or, invalid_data, Ensures-ok,
  bind-Same,
}
use copc_rust.Prelude.Int.{pos_part, to_unsigned, ℤ, pos, negsuc}
use copc_rust.Core.Bounds.{Floats, Bounds}
use copc_rust.Core.Hierarchy.{Entry}
use copc_rust.Reader.Append.{ExtendedPointLayout}
use copc_rust.Reader.Hierarchy.{read_exact_at}
use copc_rust.Reader.Decode.{Decoding, Decoded, decode_into, read_chunk_bytes, read_chunks}
use copc_rust.Reader.Decode.Parallel.{read_chunks-append}
use copc_rust.Reader.Coalesce.{ChunkGroup, read_cuts, read_groups}
use copc_rust.Reader.Coalesce.Groups.{end_of, IsGroup, entries_of}
use copc_rust.Reader.Coalesce.Cuts.{
  part, fetch_range-part, fetch_range_beyond, chunk_slice-read_chunk_bytes,
}

unsigned_part : (a : ℤ) (n : ℕ) → ok_or (to_unsigned a) invalid_data ≡ ok n → pos_part a ≡ n
unsigned_part (pos m) n e = cc
unsigned_part (negsuc m) n e = cc

-- A chunk that is read lies in the file.
read_chunk_bytes-inside :
    (file : List ℕ) (e : Entry) → Ensures (λ c. end_of e ≤ length file) (read_chunk_bytes file e)
unfolding read_chunk_bytes read_exact_at
read_chunk_bytes-inside file e =
    let Inside = λ (c : List ℕ × ℕ). end_of e ≤ length file in
    bind-Ensures Inside (ok_or (to_unsigned e.point_count) invalid_data) _ λ points _.
      bind-Ensures Inside (ok_or (to_unsigned e.byte_size) invalid_data) _ λ n sized.
        bind-Ensures Inside (read_exact_at file e.offset n) _ λ bytes read.
          let size : pos_part e.byte_size ≡ n = unsigned_part e.byte_size n sized in
          let inside : end_of e ≤ length file = ground arith in inside

group_ordered : (limit : ℕ) (g : ChunkGroup) → IsGroup limit g → g.start ≤ g.end
group_ordered limit g is =
    let (first, _) =
      subst (All (λ e. (g.start ≤ e.offset) × (end_of e ≤ g.end))) is.entries is.holds in
    omega arith

module _ (d : Decoding) ⦃f : Floats ℕ⦄ (layout : ExtendedPointLayout) (bounds : Option (Bounds ℕ))
    (file : List ℕ) where
  read_chunks-inside :
      (entries : List Entry) (s : Decoded)
      → Ensures
          (λ t. All (λ e. end_of e ≤ length file) entries)
          (read_chunks d layout bounds none file entries s)
  unfolding read_chunks
  read_chunks-inside [] s = tt
  read_chunks-inside (e ∷ entries) s =
      let Inside = λ (t : Decoded). All (λ e. end_of e ≤ length file) (e ∷ entries) in
      bind-Ensures Inside (read_chunk_bytes file e) _ λ c read.
        bind-Ensures Inside (decode_into d layout bounds none c.0 c.1 s.columns (s.polls + 1)) _
          λ chunk _.
            Ensures-map (λ t. All (λ e. end_of e ≤ length file) entries) Inside _
              (read_chunks-inside entries _)
              λ t rest. (
                Ensures-ok (λ c. end_of e ≤ length file) (read_chunk_bytes file e) c
                    (read_chunk_bytes-inside file e) read,
                rest,
              )

  module _ (fits : length file < 2 ^ 64) where
    read_cuts-read_chunks :
        (start end : ℕ) (entries : List Entry) (s : Decoded)
        → start ≤ end
        → end ≤ length file
        → All (λ e. (start ≤ e.offset) × (end_of e ≤ end)) entries
        → read_cuts d layout bounds (part file start end) start entries s
          ≡ read_chunks d layout bounds none file entries s
    unfolding read_cuts read_chunks
    read_cuts-read_chunks start end [] s h k a = refl
    read_cuts-read_chunks start end (e ∷ entries) s h k ((b, c), a) =
        rw (chunk_slice-read_chunk_bytes file fits start end h k e b c) (
          ap (λ k. read_chunk_bytes file e >>= k)
            (fun_ext λ chunk.
              ap
                (λ k.
                  decode_into d layout bounds none chunk.0 chunk.1 s.columns (s.polls + 1) >>= k)
                (fun_ext λ r. read_cuts-read_chunks start end entries _ h k a)))

    -- In a file whose length is a u64 the chunks of some groups are read with the same result, group by
    -- group or one after the other, or neither reading succeeds.
    pub read_groups-Same :
        (limit : ℕ) (groups : List ChunkGroup) (s : Decoded)
        → All (IsGroup limit) groups
        → Same
            (λ a b. a ≡ b)
            (read_chunks d layout bounds none file (entries_of groups) s)
            (read_groups d layout bounds file groups s)
    unfolding read_groups
    read_groups-Same limit [] s h = unfold read_chunks in refl
    read_groups-Same limit (g ∷ groups) s (is, h) =
        rw (read_chunks-append d layout bounds file g.entries (entries_of groups) s)
          (elim (dec_lt (length file) g.end) [
            | yes beyond ↦
                rw (fetch_range_beyond file g.start g.end (group_ordered limit g is) beyond) (
                  never-Same (λ a b. a ≡ b) _ io
                    (bind-Ensures (λ t. ⊥) (read_chunks d layout bounds none file g.entries s) _
                      λ t run.
                        let inside =
                          Ensures-ok (λ t. All (λ e. end_of e ≤ length file) g.entries)
                            (read_chunks d layout bounds none file g.entries s) t
                            (read_chunks-inside g.entries s) run in
                        let short = is.tight (length file) inside in absurd (omega arith)))
            | no within ↦
                rw
                  (
                    fetch_range-part file g.start g.end (group_ordered limit g is) (omega arith),
                    read_cuts-read_chunks g.start g.end g.entries s (group_ordered limit g is)
                        (omega arith) is.holds,
                  )
                  (bind-Same (λ a b. a ≡ b) (read_chunks d layout bounds none file g.entries s) _ _
                    λ t _. read_groups-Same limit groups t h)
          ])
