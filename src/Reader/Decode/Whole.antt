-- ===== src/Reader/Decode/Whole.antt =====
-- copc-reader/src/points.rs: lemmas on the decoding of chunks that decompress.
use mathlib.Core.Path.{subst}
use native.Mathlib.Nat.{mul-mod_left, mul-div_cancel}
use copc_rust.Prelude.{
  ℕ, zero, suc, ◌+◌, ◌%◌, ◌<◌, ◌≤◌, ◌≡◌, refl, ◌∙◌, arith, List, [], ◌∷◌, Option, none, some,
  length, ok, All, ◌==◌, ≡→==, if◌then◌else◌, Bool-cases, inl, inr,
}
use copc_rust.Core.Bounds.{Floats, Bounds}
use copc_rust.Core.Dimension.{LasDimension, eq_scalar_self, variant}
use copc_rust.Core.Columns.{ColumnSpec, ColumnData, Column, point_count_for_data, validate_columns}
use copc_rust.Core.Columns.Distinct.{Rises, contains_below}
use copc_rust.Core.Hierarchy.{Entry}
use copc_rust.Reader.Append.{
  ExtendedPointLayout, append_columns, bit_set, overlap_classification_code,
}
use copc_rust.Reader.Decode.{
  Decoding, Decoded, accepts, accept_point, poll, decode_points, decode_into,
  configure_layered_decompressor, read_chunk_bytes, read_chunks, cancel_poll_stride,
}
use copc_rust.Reader.Decode.Fresh.{not_extra}
use copc_rust.Reader.Decode.Reads.{HasFields, u8_at-Reads, i32_at-Reads, Reads}
use copc_rust.Reader.Decode.Filled.{IsFilled, fixed, extra, dimensions, each-Grows, positive-some}

All-below :
    (low : ℕ) (d : LasDimension) (seen : List LasDimension)
    → low ≤ variant d
    → All (λ s. variant s < low) seen
    → All (λ s. variant s < variant d) seen
All-below low d [] h a = tt
All-below low d (s ∷ seen) h (b, a) = (omega arith, All-below low d seen h a)

All-suc :
    (low high : ℕ) (seen : List LasDimension)
    → low ≤ high
    → All (λ s. variant s < low) seen
    → All (λ s. variant s < high) seen
All-suc low high [] h a = tt
All-suc low high (s ∷ seen) h (b, a) = (omega arith, All-suc low high seen h a)

-- A filled column counts its points.
count-IsFilled :
    (width n : ℕ) (spec : ColumnSpec) (a : ColumnData)
    → IsFilled width n (spec, a)
    → point_count_for_data spec a ≡ ok n
unfolding point_count_for_data
count-IsFilled width n _ _ (fixed d s a e k len) =
    rw (k, eq_scalar_self s, not_extra d s e, len) refl
count-IsFilled width n _ _ (extra bytes some_width len) =
    rw (positive-some width some_width, len, mul-mod_left n width, mul-div_cancel n some_width) refl

-- A batch of filled columns of different dimensions is accepted.
pub validate_columns-IsFilled :
    (width n low high : ℕ) (columns : List Column) (seen : List LasDimension)
    → All (IsFilled width n) columns
    → Rises low high (dimensions columns)
    → All (λ s. variant s < low) seen
    → validate_columns columns seen n ≡ ok tt
unfolding validate_columns
validate_columns-IsFilled width n low high [] seen f r b = refl
validate_columns-IsFilled width n low high ((spec, a) ∷ columns) seen (f, fs) (above, r) b =
    let d = spec.dimension in
    let new = contains_below seen d (All-below low d seen above b) in
    let rest =
      validate_columns-IsFilled width n (suc (variant d)) high columns (d ∷ seen) fs r
        (omega arith, All-suc low (suc (variant d)) seen (omega arith) b) in
    rw (new, count-IsFilled width n spec a f, ≡→== n n refl) rest

-- The columns of `s` hold its points behind `k` others, and have the given dimensions.
abbrev pub HoldsPoints : ℕ → List LasDimension → ℕ → Decoded → Type 0
HoldsPoints width dims k s =
    All (IsFilled width (k + s.accepted)) s.columns × (dimensions s.columns ≡ dims)

module _ (d : Decoding) (size : ℕ) where
  -- The decompressor returns `left` records of the size of the format.
  unfoldable pub Decompresses : ℕ → d.Decompressor → Type 0
  Decompresses zero decompressor = Unit {0}
  Decompresses (suc left) decompressor =
      (buf : List ℕ) × (next : d.Decompressor) × (d.decompress_next decompressor ≡ some (buf, next))
      × (length buf ≡ size)
      × Decompresses left next

  -- Each chunk can be read from the file, and decompresses.
  abbrev pub AreReadable : List ℕ → List Entry → Type 0
  AreReadable file [] = Unit {0}
  AreReadable file (entry ∷ chunks) =
      ((bytes : List ℕ) × (n : ℕ) × (read_chunk_bytes file entry ≡ ok (bytes, n))
        × Decompresses n (d.open_chunk bytes))
      × AreReadable file chunks

module _ (d : Decoding) ⦃f : Floats ℕ⦄ (layout : ExtendedPointLayout) (bounds : Option (Bounds ℕ))
    (dims : List LasDimension) (size : ℕ) (has : HasFields layout size) where
  append_columns-IsFilled :
      (n : ℕ) (columns : List Column) (buf : List ℕ) (xyz : ℕ × ℕ × ℕ)
      → length buf ≡ size
      → All (IsFilled layout.extra_len n) columns
      → (columns' : List Column) × (append_columns d.scale_angle columns buf layout xyz
          ≡ ok columns')
        × All (IsFilled layout.extra_len (suc n)) columns'
        × (dimensions columns' ≡ dimensions columns)
  unfolding append_columns
  append_columns-IsFilled n columns buf xyz len fs =
      let (raw, e) = u8_at-Reads buf 16 (omega (arith, has.fixed)) in
      let (flags, k) = u8_at-Reads buf 15 (omega (arith, has.fixed)) in
      let (columns', run, fs', same) =
        each-Grows d.scale_angle layout.extra_len
          (record {
            buf = buf;
            layout = layout;
            xyz = xyz;
            classification = if raw == overlap_classification_code then 1 else raw;
            is_overlap = bit_set 3 flags;
          })
          (rw len has) refl n columns fs in
      (columns', rw (e, k) run, fs', same)

  accept_point-Holds :
      (k : ℕ) (buf : List ℕ) (s : Decoded)
      → length buf ≡ size
      → HoldsPoints layout.extra_len dims k s
      → (t : Decoded) × (accept_point d layout bounds none buf s ≡ ok t)
        × HoldsPoints layout.extra_len dims k t
        × (t.accepted ≤ s.accepted + 1)
  unfolding accept_point
  accept_point-Holds k buf s len (fs, same) =
      let (x, ex) = i32_at-Reads buf 0 (omega (arith, has.fixed)) in
      let (y, ey) = i32_at-Reads buf 4 (omega (arith, has.fixed)) in
      let (z, ez) = i32_at-Reads buf 8 (omega (arith, has.fixed)) in
      let xyz : ℕ × ℕ × ℕ = (d.direct.0 x, d.direct.1 y, d.direct.2 z) in
      elim (Bool-cases (accepts bounds xyz)) [
        | inl h ↦
            let (columns', run, fs', same') =
              append_columns-IsFilled (k + s.accepted) s.columns buf xyz len fs in
            let more : suc (k + s.accepted) ≡ k + (s.accepted + 1) = omega arith in
            (
              record s { columns = columns'; accepted = s.accepted + 1 },
              rw (ex, ey, ez, h, run) refl,
              (subst (λ n. All (IsFilled layout.extra_len n) columns') more fs', same' ∙ same),
              omega arith,
            )
        | inr h ↦ (s, rw (ex, ey, ez, h) refl, (fs, same), omega arith)
      ]

  -- Without a cancellation hook a poll changes nothing but its count.
  poll-quiet :
      (decoded : ℕ) (s : Decoded)
      → (t : Decoded) × (poll d layout bounds none decoded s ≡ ok t)
        × (t.columns ≡ s.columns)
        × (t.accepted ≡ s.accepted)
  unfolding poll
  poll-quiet decoded s = elim (Bool-cases (decoded % cancel_poll_stride == 0)) [
    | inl h ↦ (record s { polls = s.polls + 1 }, rw h refl, refl, refl)
    | inr h ↦ (s, rw h refl, refl, refl)
  ]

  decode_points-Holds :
      (k left decoded : ℕ) (decompressor : d.Decompressor) (s : Decoded)
      → Decompresses d size left decompressor
      → HoldsPoints layout.extra_len dims k s
      → (t : Decoded) × (decode_points d layout bounds none left decoded decompressor s ≡ ok t)
        × HoldsPoints layout.extra_len dims k t
        × (t.accepted ≤ s.accepted + left)
  unfolding decode_points Decompresses
  decode_points-Holds k zero decoded decompressor s r h = (s, refl, h, omega arith)
  decode_points-Holds k (suc left) decoded decompressor s (buf, next, run, len, r) h =
      let (p, polled, columns, accepted) = poll-quiet decoded s in
      let (t, taken, ht, most) = accept_point-Holds k buf p len (rw (columns, accepted) h) in
      let (u, rest, hu, more) = decode_points-Holds k left (suc decoded) next t r ht in
      (u, rw (polled, run, taken) rest, hu, omega (arith, accepted))

  -- A chunk that decompresses is decoded without an error, for columns filled before.
  decode_into-Holds :
      (k n : ℕ) (bytes : List ℕ) (columns : List Column) (polls : ℕ)
      → Reads (configure_layered_decompressor d)
      → Decompresses d size n (d.open_chunk bytes)
      → All (IsFilled layout.extra_len k) columns
      → dimensions columns ≡ dims
      → (t : Decoded) × (decode_into d layout bounds none bytes n columns polls ≡ ok t)
        × HoldsPoints layout.extra_len dims k t
        × (t.accepted ≤ n)
  unfolding decode_into
  decode_into-Holds k n bytes columns polls (record_size, configured) r fs same =
      let none_yet : k ≡ k + 0 = omega arith in
      let (t, run, ht, most) =
        decode_points-Holds k n 0 (d.open_chunk bytes)
          (record { columns = columns; accepted = 0; polls = polls }) r
          (subst (λ m. All (IsFilled layout.extra_len m) columns) none_yet fs, same) in
      (t, rw configured run, ht, omega arith)

  pub read_chunks-Holds :
      (file : List ℕ) (chunks : List Entry) (s : Decoded)
      → Reads (configure_layered_decompressor d)
      → AreReadable d size file chunks
      → HoldsPoints layout.extra_len dims 0 s
      → (t : Decoded) × (read_chunks d layout bounds none file chunks s ≡ ok t)
        × HoldsPoints layout.extra_len dims 0 t
  unfolding read_chunks
  read_chunks-Holds file [] s configured r h = (s, refl, h)
  read_chunks-Holds file (entry ∷ chunks) s configured ((bytes, n, read, dec), r) (fs, same) =
      let (c, run, (cs, same'), most) =
        decode_into-Holds (0 + s.accepted) n bytes s.columns (s.polls + 1) configured dec fs same in
      let sum : 0 + s.accepted + c.accepted ≡ 0 + (s.accepted + c.accepted) = omega arith in
      let (t, rest, h) =
        read_chunks-Holds file chunks
          (record { columns = c.columns; accepted = s.accepted + c.accepted; polls = c.polls })
          configured r (subst (λ m. All (IsFilled layout.extra_len m) c.columns) sum cs, same') in
      (t, rw (read, run) rest, h)
