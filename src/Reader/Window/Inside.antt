-- ===== src/Reader/Window/Inside.antt =====
-- copc-reader/src/points.rs: the reads and seeks through a `ChunkReadWindow`.
use copc_rust.Prelude.{
  Error, Ensures, bind-Ensures, Ensures-ok, ℕ, ◌+◌, ◌-◌, ◌≡◌, ◌≤◌, refl, arith, ap, sym, ◌∙◌, List,
  Option, none, some, ◌==◌, length, take, drop, min, ok, io, invalid_data, ok_or, Bool-cases, inl,
  inr,
}
use mathlib.Core.Option
use copc_rust.Prelude.Int.{checked_add_u64}
use copc_rust.Reader.Window.{ReadSeek, SeekFrom, Window, set_range, read, seek, within, target_of}

-- A source that behaves as `Read` and `Seek` document it, over the bytes of a file.
pub record IsFile (r : ReadSeek) (file : List ℕ) : Type 0 where
  pub at : r.Source → ℕ
  pub seeks : (offset : ℕ) (s s' : r.Source) → r.seek_source offset s ≡ some s' → at s' ≡ offset
  pub reads :
      (len : ℕ) (s s' : r.Source) (bytes : List ℕ)
      → r.read_source len s ≡ some (bytes, s')
      → (length bytes ≤ len)
        × (bytes ≡ take (length bytes) (drop (at s) file))
        × (at s' ≡ at s + length bytes)

ok_or-some : {A : Type 0} (o : Option A) (k : Error) (a : A) → ok_or o k ≡ ok a → o ≡ some a
ok_or-some none k a e = cc
ok_or-some (some b) k a e = let same : b ≡ a = cc in ap some same

within_range :
    (start end : ℕ) (o : Option ℕ) (target : ℕ)
    → Option.bind o (within start end) ≡ some target
    → (start ≤ target) × (target ≤ end)
unfolding Option.bind
within_range start end none target e = cc
within_range start end (some a) target e = ground arith

module _ (r : ReadSeek) where
  -- A decoder reads and seeks.
  pub data Reaches : Window r → Window r → Type 0 where
    here : (w : Window r) → Reaches w w
    reading :
        (len : ℕ) (bytes : List ℕ) (w v u : Window r)
        → Reaches w v
        → read r len v ≡ ok (bytes, u)
        → Reaches w u
    seeking :
        (position : SeekFrom) (target : ℕ) (w v u : Window r)
        → Reaches w v
        → seek r position v ≡ ok (target, u)
        → Reaches w u

module _ (r : ReadSeek) (file : List ℕ) (is : IsFile r file) where
  pub record IsInside (start end : ℕ) (w : Window r) : Type 0 where
    pub starts : w.start ≡ start
    pub ends : w.end ≡ end
    pub above : start ≤ w.position
    pub below : w.position ≤ end
    pub there : is.at w.source ≡ w.position

  set_range-IsInside :
      (start n : ℕ) (w : Window r) → Ensures (IsInside start (start + n)) (set_range r start n w)
  unfolding set_range
  set_range-IsInside start n w =
      bind-Ensures (IsInside start (start + n)) (ok_or (checked_add_u64 start n) invalid_data) _
        λ end sum.
          let same : end ≡ start + n = ground arith in
          bind-Ensures (IsInside start (start + n)) (ok_or (r.seek_source start w.source) io) _
            λ source moved. record {
              starts = refl;
              ends = same;
              above = omega arith;
              below = omega arith;
              there = is.seeks start w.source source (ok_or-some _ io source moved);
            }

  -- A read from inside returns bytes of the file from the position on, and stays inside.
  abbrev pub ReadsInside : ℕ → ℕ → ℕ → List ℕ × Window r → Type 0
  ReadsInside start end position (bytes, v) =
      IsInside start end v
      × (bytes ≡ take (length bytes) (drop position file))
      × (position + length bytes ≤ end)

  read-ReadsInside :
      (start end len : ℕ) (w : Window r)
      → IsInside start end w
      → Ensures (ReadsInside start end w.position) (read r len w)
  unfolding read
  read-ReadsInside start end len w inside =
      let ends = inside.ends in
      let below = inside.below in
      let above = inside.above in
      elim (Bool-cases ((w.end - w.position) == 0)) [
        | inl done ↦ rw done (inside, refl, omega arith)
        | inr more ↦ rw more (
            bind-Ensures (ReadsInside start end w.position)
              (ok_or (r.read_source (min (w.end - w.position) len) w.source) io) _
              λ (bytes, source) fetched.
                let (most, part, moved) =
                  is.reads (min (w.end - w.position) len) w.source source bytes
                    (ok_or-some _ io (bytes, source) fetched) in
                bind-Ensures (ReadsInside start end w.position)
                  (ok_or (checked_add_u64 w.position (length bytes)) io) _
                  λ position sum.
                    let same : position ≡ w.position + length bytes = ground arith in
                    (
                      record {
                        starts = inside.starts;
                        ends = inside.ends;
                        above = omega arith;
                        below = omega arith;
                        there = moved ∙ ap (λ k. k + length bytes) inside.there ∙ sym same;
                      },
                      rw⁻¹ inside.there part,
                      omega arith,
                    ))
      ]

  seek-IsInside :
      (start end : ℕ) (position : SeekFrom) (w : Window r)
      → IsInside start end w
      → Ensures (λ (moved : ℕ × Window r). IsInside start end moved.1) (seek r position w)
  unfolding seek Option.bind
  seek-IsInside start end position w inside =
      let Q = λ (moved : ℕ × Window r). IsInside start end moved.1 in
      bind-Ensures Q (ok_or (Option.bind (target_of r position w) (within w.start w.end)) io) _
        λ target chosen.
          let (low, high) =
            within_range w.start w.end (target_of r position w) target
              (ok_or-some _ io target chosen) in
          let starts = inside.starts in
          let ends = inside.ends in
          bind-Ensures Q (ok_or (r.seek_source target w.source) io) _ λ source moved. record {
            starts = inside.starts;
            ends = inside.ends;
            above = omega arith;
            below = omega arith;
            there = is.seeks target w.source source (ok_or-some _ io source moved);
          }

  Reaches-IsInside :
      (start end : ℕ) (w u : Window r) → Reaches r w u → IsInside start end w → IsInside start end u
  Reaches-IsInside start end w _ (here _) inside = inside
  Reaches-IsInside start end w _ (reading len bytes _ v u reached e) inside =
      (Ensures-ok (ReadsInside start end v.position) (read r len v) (bytes, u)
        (read-ReadsInside start end len v (Reaches-IsInside start end w v reached inside)) e).0
  Reaches-IsInside start end w _ (seeking position target _ v u reached e) inside =
      Ensures-ok (λ (moved : ℕ × Window r). IsInside start end moved.1) (seek r position v)
        (target, u)
        (seek-IsInside start end position v (Reaches-IsInside start end w v reached inside)) e

  -- After `set_range` of a chunk, whatever a decoder reads and seeks through the window, each read
  -- returns bytes of the file from the position of the window on, which lie within the chunk.
  pub read_stays_in_chunk :
      (start n len : ℕ) (bytes : List ℕ) (w v u t : Window r)
      → set_range r start n w ≡ ok v
      → Reaches r v u
      → read r len u ≡ ok (bytes, t)
      → (start ≤ u.position)
        × (u.position + length bytes ≤ start + n)
        × (bytes ≡ take (length bytes) (drop u.position file))
  read_stays_in_chunk start n len bytes w v u t set reached e =
      let inside = Reaches-IsInside start (start + n) v u reached (
        Ensures-ok (IsInside start (start + n)) (set_range r start n w) v
          (set_range-IsInside start n w) set) in
      let (_, part, below) =
        Ensures-ok (ReadsInside start (start + n) u.position) (read r len u) (bytes, t)
          (read-ReadsInside start (start + n) len u inside) e in
      (inside.above, below, part)
