-- ===== src/Reader/Decode/Fresh.antt =====
-- copc-reader/src/points.rs: lemmas on fresh column builders.
use native.Mathlib.Nat.{mul-le-mul}
use copc_rust.Prelude.{
  ℕ, zero, suc, ◌*◌, ◌^◌, ◌<◌, ◌≤◌, ◌≡◌, refl, sym, ap, ◌∙◌, arith, List, [], ◌∷◌, append-nil, All,
  ok, true, false, Bool-cases, inl, inr, ltb, lt→ltb, if◌then◌else◌, some,
}
use copc_rust.Core.Dimension.{
  ScalarType, LasDimension, ColumnSelection, contains, default_scalar, eq_dimension→≡,
}
use copc_rust.Core.Columns.{
  ColumnSpec, ColumnData, Column, PointFormat, data_scalar, new_spec, is_extra,
}
use copc_rust.Core.Columns.Layout.{IsLaid, fixed, extra, layout-Lays}
use copc_rust.Reader.Append.{
  empty_data, empty_column, build_columns, selected_column_builders, empty_capacity,
}
use copc_rust.Reader.Decode.{extend_data, max_initial_column_reserve_points}
use copc_rust.Reader.Decode.Extends.{extend_data_scalar}
use copc_rust.Reader.Decode.Merged.{Joins}

-- `es` are the columns of `as` without their values.
abbrev pub Fresh : List Column → List Column → Type 0
Fresh [] [] = Unit {0}
Fresh ((s, e) ∷ es) ((t, a) ∷ as') = (s ≡ t) × (e ≡ empty_data (data_scalar a)) × Fresh es as'
Fresh _ _ = ⊥

extend_nothing : (a : ColumnData) → extend_data a (empty_data (data_scalar a)) ≡ ok a
unfolding extend_data
extend_nothing (ColumnData.f64 a) = ap (λ t. ok (ColumnData.f64 t)) (append-nil a)
extend_nothing (ColumnData.f32 a) = ap (λ t. ok (ColumnData.f32 t)) (append-nil a)
extend_nothing (ColumnData.i64 a) = ap (λ t. ok (ColumnData.i64 t)) (append-nil a)
extend_nothing (ColumnData.i32 a) = ap (λ t. ok (ColumnData.i32 t)) (append-nil a)
extend_nothing (ColumnData.i16 a) = ap (λ t. ok (ColumnData.i16 t)) (append-nil a)
extend_nothing (ColumnData.i8 a) = ap (λ t. ok (ColumnData.i8 t)) (append-nil a)
extend_nothing (ColumnData.u64 a) = ap (λ t. ok (ColumnData.u64 t)) (append-nil a)
extend_nothing (ColumnData.u32 a) = ap (λ t. ok (ColumnData.u32 t)) (append-nil a)
extend_nothing (ColumnData.u16 a) = ap (λ t. ok (ColumnData.u16 t)) (append-nil a)
extend_nothing (ColumnData.u8 a) = ap (λ t. ok (ColumnData.u8 t)) (append-nil a)
extend_nothing (ColumnData.bool a) = ap (λ t. ok (ColumnData.bool t)) (append-nil a)

pub scalar-empty : (s : ScalarType) → data_scalar (empty_data s) ≡ s
scalar-empty ScalarType.f64 = refl
scalar-empty ScalarType.f32 = refl
scalar-empty ScalarType.i64 = refl
scalar-empty ScalarType.i32 = refl
scalar-empty ScalarType.i16 = refl
scalar-empty ScalarType.i8 = refl
scalar-empty ScalarType.u64 = refl
scalar-empty ScalarType.u32 = refl
scalar-empty ScalarType.u16 = refl
scalar-empty ScalarType.u8 = refl
scalar-empty ScalarType.bool = refl

pub Fresh-Joins : (es as' : List Column) → Fresh es as' → Joins as' es as'
Fresh-Joins [] [] h = tt
Fresh-Joins [] (a ∷ as') h = absurd h
Fresh-Joins (e ∷ es) [] h = absurd h
Fresh-Joins ((s, e) ∷ es) ((t, a) ∷ as') (p, q, h) =
    (sym p, refl, ap (extend_data a) q ∙ extend_nothing a, Fresh-Joins es as' h)

-- Columns keep their types when others are merged into them.
pub Joins-Fresh : (es as' bs cs : List Column) → Fresh es as' → Joins as' bs cs → Fresh es cs
Joins-Fresh [] [] [] [] h j = tt
Joins-Fresh [] [] [] (c ∷ cs) h j = absurd j
Joins-Fresh [] [] (b ∷ bs) cs h j = absurd j
Joins-Fresh [] (a ∷ as') bs cs h j = absurd h
Joins-Fresh (e ∷ es) [] bs cs h j = absurd h
Joins-Fresh (e ∷ es) (a ∷ as') [] cs h j = absurd j
Joins-Fresh (e ∷ es) (a ∷ as') (b ∷ bs) [] h j = absurd j
Joins-Fresh ((s, e) ∷ es) ((t, a) ∷ as') ((u, b) ∷ bs) ((v, c) ∷ cs) (p, q, h) (k, l, m, j) =
    (p ∙ l, q ∙ ap empty_data (sym (extend_data_scalar a b c m)), Joins-Fresh es as' bs cs h j)

-- The builders of some specifications.
unfoldable pub builders : List ColumnSpec → ColumnSelection → List Column
builders [] selection = []
builders (spec ∷ specs) selection =
    if contains selection spec.dimension
    then (spec, empty_data spec.scalar) ∷ builders specs selection
    else builders specs selection

builders-Fresh :
    (specs : List ColumnSpec) (selection : ColumnSelection)
    → Fresh (builders specs selection) (builders specs selection)
unfolding builders
builders-Fresh [] selection = tt
builders-Fresh (spec ∷ specs) selection = elim (Bool-cases (contains selection spec.dimension)) [
  | inl h ↦
      rw h (refl, ap empty_data (sym (scalar-empty spec.scalar)), builders-Fresh specs selection)
  | inr h ↦ rw h (builders-Fresh specs selection)
]

pub not_extra : (d : LasDimension) (s : ScalarType) → default_scalar d ≡ some s → is_extra d ≡ false
unfolding default_scalar
not_extra d s e = elim (Bool-cases (is_extra d)) [
  | inl h ↦
      let same : d ≡ LasDimension.extra_bytes = eq_dimension→≡ d LasDimension.extra_bytes h in
      cc (ap default_scalar same, e)
  | inr h ↦ h
]

fixed_capacity :
    (spec : ColumnSpec) (s : ScalarType) (capacity : ℕ)
    → is_extra spec.dimension ≡ false
    → empty_capacity spec s capacity ≡ ok tt
unfolding empty_capacity
fixed_capacity spec ScalarType.u8 capacity h = rw h refl
fixed_capacity spec s capacity h = refl

-- The largest reserve times the largest width is far below the range of `usize`.
extra_capacity :
    (n capacity : ℕ)
    → suc n < 2 ^ 16
    → capacity ≤ max_initial_column_reserve_points
    → ltb (capacity * suc n) (2 ^ 64) ≡ true
extra_capacity n capacity small bound =
    let most : capacity * suc n ≤ max_initial_column_reserve_points * 2 ^ 16 =
      mul-le-mul {m₂ = 2 ^ 16} bound (omega arith) in
    lt→ltb (capacity * suc n) (2 ^ 64) (omega arith)

empty_column-ok :
    (width : ℕ) (spec : ColumnSpec) (capacity : ℕ)
    → width < 2 ^ 16
    → capacity ≤ max_initial_column_reserve_points
    → IsLaid width spec
    → empty_column spec capacity ≡ ok (spec, empty_data spec.scalar)
unfolding empty_column
empty_column-ok width _ capacity small bound (fixed dimension scalar e) =
    rw (fixed_capacity (new_spec dimension scalar) scalar capacity (not_extra dimension scalar e))
      refl
empty_column-ok zero _ capacity small bound (extra positive) = absurd (omega arith)
empty_column-ok (suc n) _ capacity small bound (extra positive) =
    unfold empty_capacity in rw (extra_capacity n capacity small bound) refl

pub build_columns-ok :
    (width : ℕ) (specs : List ColumnSpec) (selection : ColumnSelection) (capacity : ℕ)
    → width < 2 ^ 16
    → capacity ≤ max_initial_column_reserve_points
    → All (IsLaid width) specs
    → build_columns specs selection capacity ≡ ok (builders specs selection)
unfolding build_columns builders
build_columns-ok width [] selection capacity small bound h = refl
build_columns-ok width (spec ∷ specs) selection capacity small bound (l, h) =
    let rest = build_columns-ok width specs selection capacity small bound h in
    elim (Bool-cases (contains selection spec.dimension)) [
      | inl c ↦ rw (c, empty_column-ok width spec capacity small bound l, rest) refl
      | inr c ↦ rw (c, rest) refl
    ]

-- Up to the reserve limit the capacity does not matter: the builders are the fresh columns.
pub selected_column_builders-Fresh :
    (format : PointFormat) (selection : ColumnSelection)
    → format.extra_bytes < 2 ^ 16
    → (es : List Column) × ((capacity : ℕ)
        → capacity ≤ max_initial_column_reserve_points
        → selected_column_builders format selection capacity ≡ ok es)
      × Fresh es es
unfolding selected_column_builders
selected_column_builders-Fresh format selection small =
    let (specs, e, laid, _) = layout-Lays format in
    (
      builders specs selection,
      λ capacity bound.
          rw e (build_columns-ok format.extra_bytes specs selection capacity small bound laid),
      builders-Fresh specs selection,
    )
