-- ===== src/Reader/Coalesce/Groups.antt =====
-- copc-reader/src/ranged.rs: the groups that `coalesce_chunks` forms.
use copc_rust.Prelude.{
  ℕ, ◌+◌, ◌-◌, ◌^◌, ◌<◌, ◌≤◌, ◌≡◌, refl, ap, ◌∙◌, arith, List, [], ◌∷◌, ◌++◌, append_assoc, All,
  All-append, Result, ok, max, Bool-cases, inl, inr, true,
}
use copc_rust.Prelude.Int.{pos_part}
use copc_rust.Core.Hierarchy.{Entry}
use copc_rust.Reader.Coalesce.{
  ChunkGroup, chunk_end, joins, join_group, new_group, coalesce_from, coalesce_chunks,
}

abbrev pub end_of : Entry → ℕ
end_of e = e.offset + pos_part e.byte_size

-- The chunks stand in the order of their offsets, from `low` on.
abbrev pub OffsetsRise : ℕ → List Entry → Type 0
OffsetsRise low [] = Unit {0}
OffsetsRise low (e ∷ chunks) = (low ≤ e.offset) × OffsetsRise e.offset chunks

-- The end of each chunk is a `u64`.
abbrev pub EndsFit : List Entry → Type 0
EndsFit = All (λ e. end_of e < 2 ^ 64)

-- A group starts with its first chunk, holds all its chunks, ends with the last of them to end, and
-- is no longer than the limit, or than its first chunk.
pub record IsGroup (max_range_bytes : ℕ) (g : ChunkGroup) : Type 0 where
  pub first : Entry
  pub others : List Entry
  pub entries : g.entries ≡ first ∷ others
  pub start : g.start ≡ first.offset
  pub holds : All (λ e. (g.start ≤ e.offset) × (end_of e ≤ g.end)) g.entries
  pub tight : (n : ℕ) → All (λ e. end_of e ≤ n) g.entries → g.end ≤ n
  pub bounded : g.end - g.start ≤ max max_range_bytes (pos_part first.byte_size)

abbrev pub entries_of : List ChunkGroup → List Entry
entries_of [] = []
entries_of (g ∷ groups) = g.entries ++ entries_of groups

chunk_end-ok : (e : Entry) → end_of e < 2 ^ 64 → chunk_end e ≡ ok (end_of e)
unfolding chunk_end
chunk_end-ok e h = ground arith

new_group-IsGroup : (limit : ℕ) (e : Entry) → IsGroup limit (new_group e (end_of e))
new_group-IsGroup limit e = record {
  first = e;
  others = [];
  entries = refl;
  start = refl;
  holds = (omega arith, tt);
  tight = λ n h. h.0;
  bounded = omega arith;
}

holds_longer :
    (start end end' : ℕ) (entries : List Entry)
    → end ≤ end'
    → All (λ e. (start ≤ e.offset) × (end_of e ≤ end)) entries
    → All (λ e. (start ≤ e.offset) × (end_of e ≤ end')) entries
holds_longer start end end' [] h a = tt
holds_longer start end end' (e ∷ entries) h ((b, c), a) =
    ((b, omega arith), holds_longer start end end' entries h a)

All-front : (P : Entry → Type 0) (xs ys : List Entry) → All P (xs ++ ys) → All P xs × All P ys
All-front P [] ys a = (tt, a)
All-front P (x ∷ xs) ys (p, a) = let (b, c) = All-front P xs ys a in ((p, b), c)

join_group-IsGroup :
    (limit gap : ℕ) (g : ChunkGroup) (e : Entry)
    → IsGroup limit g
    → g.start ≤ e.offset
    → joins g e.offset (end_of e) gap limit ≡ true
    → IsGroup limit (join_group g e (end_of e))
join_group-IsGroup limit gap g e is behind joined =
    let near : end_of e - g.start ≤ limit = ground arith in
    record {
      first = is.first;
      others = is.others ++ (e ∷ []);
      entries = ap (λ t. t ++ (e ∷ [])) is.entries;
      start = is.start;
      holds =
          All-append (λ c. (g.start ≤ c.offset) × (end_of c ≤ max g.end (end_of e))) g.entries
            (e ∷ [])
            (holds_longer g.start g.end (max g.end (end_of e)) g.entries (omega arith) is.holds)
            ((behind, omega arith), tt);
      tight = λ n h.
          let (before, (last, _)) = All-front (λ c. end_of c ≤ n) g.entries (e ∷ []) h in
          let ends = is.tight n before in omega arith;
      bounded = omega (arith, is.bounded);
    }

-- The groups hold the chunks, in their order.
abbrev pub Grouped : ℕ → List Entry → Result (List ChunkGroup) → Type 0
Grouped limit chunks run =
    (groups : List ChunkGroup) × (run ≡ ok groups)
    × (entries_of groups ≡ chunks)
    × All (IsGroup limit) groups

coalesce_from-Grouped :
    (gap limit : ℕ) (chunks : List Entry) (g : ChunkGroup) (low : ℕ)
    → IsGroup limit g
    → g.start ≤ low
    → OffsetsRise low chunks
    → EndsFit chunks
    → Grouped limit (g.entries ++ chunks) (coalesce_from gap limit chunks g)
unfolding coalesce_from
coalesce_from-Grouped gap limit [] g low is behind r fits = (g ∷ [], refl, refl, (is, tt))
coalesce_from-Grouped gap limit (e ∷ chunks) g low is behind (above, r) (fit, fits) =
    elim (Bool-cases (joins g e.offset (end_of e) gap limit)) [
      | inl j ↦
          let (groups, run, same, all) =
            coalesce_from-Grouped gap limit chunks (join_group g e (end_of e)) e.offset
              (join_group-IsGroup limit gap g e is (omega arith) j) (omega arith) r fits in
          (
            groups,
            rw (chunk_end-ok e fit, j) run,
            same ∙ append_assoc g.entries (e ∷ []) chunks,
            all,
          )
      | inr j ↦
          let (groups, run, same, all) =
            coalesce_from-Grouped gap limit chunks (new_group e (end_of e)) e.offset
              (new_group-IsGroup limit e) (omega arith) r fits in
          (
            g ∷ groups,
            rw (chunk_end-ok e fit, j, run) refl,
            ap (λ t. g.entries ++ t) same,
            (is, all),
          )
    ]

-- Chunks in the order of their offsets, whose ends are u64 values, are split into groups without a
-- panic: in their order, each chunk in one group, within the range of the group, which starts with
-- its first chunk and is no longer than the limit, or than that chunk.
pub coalesce_chunks-Grouped :
    (chunks : List Entry) (gap max_range_bytes : ℕ)
    → OffsetsRise 0 chunks
    → EndsFit chunks
    → Grouped max_range_bytes chunks (coalesce_chunks chunks gap max_range_bytes)
unfolding coalesce_chunks
coalesce_chunks-Grouped [] gap limit r fits = ([], refl, refl, tt)
coalesce_chunks-Grouped (e ∷ chunks) gap limit (_, r) (fit, fits) =
    let (groups, run, same, all) =
      coalesce_from-Grouped gap limit chunks (new_group e (end_of e)) e.offset
        (new_group-IsGroup limit e) (omega arith) r fits in
    (groups, rw (chunk_end-ok e fit) run, same, all)
