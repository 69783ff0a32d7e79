-- ===== src/Reader/Decode/Merged.antt =====
-- copc-reader/src/points.rs: lemmas on columns that are merged from two parts.
use copc_rust.Prelude.{
  ℕ, zero, suc, ◌+◌, ◌≡◌, refl, ap, arith, List, [], ◌∷◌, ok, io, ok_or, Alike, >>=-Alike,
  bind-Alike, Bool, true, false, Bool-cases, inl, inr, none, some, Option, length, ≡→==, ◌%◌, ◌==◌,
  if◌then◌else◌,
}
use copc_rust.Prelude.Int.{ℤ}
use copc_rust.Core.Bounds.{Floats, Bounds}
use copc_rust.Core.Dimension.{eq_dimension_self, eq_scalar_self}
use copc_rust.Core.Columns.{ColumnSpec, Column}
use copc_rust.Reader.Append.{
  ColumnAppendContext, ExtendedPointLayout, append_each, append_columns, u8_at, i32_at,
}
use copc_rust.Reader.Decode.{
  Decoding, Decoded, extend_data, eq_spec, eq_width, merge_zip, merge_columns, accepts,
  accept_point, poll, decode_points, decode_into, configure_layered_decompressor,
  cancel_poll_stride,
}
use copc_rust.Reader.Decode.Extends.{column-Extends}

-- The columns of `as` with those of `bs` behind them are `cs`.
abbrev pub Joins : List Column → List Column → List Column → Type 0
Joins [] [] [] = Unit {0}
Joins ((s, a) ∷ as') ((t, b) ∷ bs) ((u, c) ∷ cs) =
    (s ≡ t) × (s ≡ u) × (extend_data a b ≡ ok c) × Joins as' bs cs
Joins _ _ _ = ⊥

eq_spec_self : (s : ColumnSpec) → eq_spec s s ≡ true
eq_spec_self s = rw (eq_dimension_self s.dimension, eq_scalar_self s.scalar) (width s.byte_width)
  where
    width : (o : Option ℕ) → eq_width o o ≡ true
    width none = refl
    width (some n) = ≡→== n n refl

Joins-zip :
    (as' bs cs : List Column)
    → Joins as' bs cs
    → (merge_zip as' bs ≡ ok cs) × (length as' ≡ length bs)
unfolding merge_zip
Joins-zip [] [] [] j = (refl, refl)
Joins-zip [] (b ∷ bs) cs j = absurd j
Joins-zip [] [] (c ∷ cs) j = absurd j
Joins-zip (a ∷ as') [] cs j = absurd j
Joins-zip (a ∷ as') (b ∷ bs) [] j = absurd j
Joins-zip ((s, a) ∷ as') ((t, b) ∷ bs) ((u, c) ∷ cs) (e, e', h, j) =
    let (zip, len) = Joins-zip as' bs cs j in
    let same : eq_spec s t ≡ true = rw (← e) (eq_spec_self s) in
    (rw (same, h, zip, e') refl, ap suc len)

pub Joins-merge : (as' bs cs : List Column) → Joins as' bs cs → merge_columns as' bs ≡ ok cs
unfolding merge_columns
Joins-merge as' bs cs j =
    let (zip, len) = Joins-zip as' bs cs j in rw (≡→== (length as') (length bs) len) zip

module _ (scale_angle : ℤ → ℕ) where
  each-Joins :
      (as' bs cs : List Column) (context : ColumnAppendContext)
      → Joins as' bs cs
      → Alike (Joins as') (append_each scale_angle bs context) (append_each scale_angle cs context)
  unfolding append_each
  each-Joins [] [] [] context j = tt
  each-Joins [] (b ∷ bs) cs context j = absurd j
  each-Joins [] [] (c ∷ cs) context j = absurd j
  each-Joins (a ∷ as') [] cs context j = absurd j
  each-Joins (a ∷ as') (b ∷ bs) [] context j = absurd j
  each-Joins ((s, a) ∷ as') ((t, b) ∷ bs) ((u, c) ∷ cs) context (e, e', h, j) =
      rw (← e, ← e')
        (>>=-Alike (λ b' c'. extend_data a b' ≡ ok c') (Joins ((s, a) ∷ as')) _ _ _ _
          (column-Extends scale_angle s a b c context h)
          λ b' c' h'.
            >>=-Alike (Joins as') (Joins ((s, a) ∷ as')) _ _ _ _ (each-Joins as' bs cs context j)
              λ bs' cs' j'. (refl, refl, h', j'))

  columns-Joins :
      (as' bs cs : List Column) (buf : List ℕ) (layout : ExtendedPointLayout) (xyz : ℕ × ℕ × ℕ)
      → Joins as' bs cs
      → Alike
          (Joins as')
          (append_columns scale_angle bs buf layout xyz)
          (append_columns scale_angle cs buf layout xyz)
  unfolding append_columns
  columns-Joins as' bs cs buf layout xyz j =
      bind-Alike (Joins as') (u8_at buf 16) _ _
        λ raw _. bind-Alike (Joins as') (u8_at buf 15) _ _ λ flags _. each-Joins as' bs cs _ j

-- Decoded points, of which the second have the columns `as` in front.
abbrev pub Follows : List Column → Decoded → Decoded → Type 0
Follows as' s t = Joins as' s.columns t.columns × (s.accepted ≡ t.accepted)

module _ (d : Decoding) ⦃f : Floats ℕ⦄ (layout : ExtendedPointLayout) (bounds : Option (Bounds ℕ))
    (as' : List Column) where
  accept-Follows :
      (buf : List ℕ) (s t : Decoded)
      → Follows as' s t
      → Alike
          (Follows as')
          (accept_point d layout bounds none buf s)
          (accept_point d layout bounds none buf t)
  unfolding accept_point
  accept-Follows buf s t (j, e) = bind-Alike (Follows as') (i32_at buf 0) _ _ λ x _.
      bind-Alike (Follows as') (i32_at buf 4) _ _ λ y _.
        bind-Alike (Follows as') (i32_at buf 8) _ _ λ z _.
          elim (Bool-cases (accepts bounds (d.direct.0 x, d.direct.1 y, d.direct.2 z))) [
            | inl h ↦ rw h (
                >>=-Alike (Joins as') (Follows as') _ _ _ _
                  (columns-Joins d.scale_angle as' s.columns t.columns buf layout _ j)
                  λ bs cs j'. (j', omega arith))
            | inr h ↦ rw h (j, e)
          ]

  points-Follows :
      (left decoded : ℕ) (decompressor : d.Decompressor) (s t : Decoded)
      → Follows as' s t
      → Alike
          (Follows as')
          (decode_points d layout bounds none left decoded decompressor s)
          (decode_points d layout bounds none left decoded decompressor t)
  unfolding decode_points poll
  points-Follows zero decoded decompressor s t h = h
  points-Follows (suc left) decoded decompressor s t h =
      >>=-Alike (Follows as') (Follows as') _ _ _ _ (polled (decoded % cancel_poll_stride == 0))
        λ s' t' h'. bind-Alike (Follows as') (ok_or (d.decompress_next decompressor) io) _ _ λ r _.
          >>=-Alike (Follows as') (Follows as') _ _ _ _ (accept-Follows r.0 s' t' h')
            λ s'' t'' h''. points-Follows left (suc decoded) r.1 s'' t'' h''
    where
      polled :
          (b : Bool)
          → Alike
              (Follows as')
              (if b then ok (record s { polls = s.polls + 1 }) else ok s)
              (if b then ok (record t { polls = t.polls + 1 }) else ok t)
      polled true = h
      polled false = h

  -- A chunk decoded behind other columns gives these columns, with what it gives on its own behind.
  pub decode_into-Follows :
      (bytes : List ℕ) (n : ℕ) (bs cs : List Column) (polls polls' : ℕ)
      → Joins as' bs cs
      → Alike
          (Follows as')
          (decode_into d layout bounds none bytes n bs polls)
          (decode_into d layout bounds none bytes n cs polls')
  unfolding decode_into
  decode_into-Follows bytes n bs cs polls polls' j =
      bind-Alike (Follows as') (configure_layered_decompressor d) _ _
        λ size _. points-Follows n 0 (d.open_chunk bytes) _ _ (j, refl)
