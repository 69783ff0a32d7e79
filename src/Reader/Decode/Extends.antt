-- ===== src/Reader/Decode/Extends.antt =====
-- copc-reader/src/points.rs: lemmas on a record that is added to a column.
use copc_rust.Prelude.{
  ℕ, ◌≡◌, refl, sym, ap, ◌∙◌, List, [], ◌∷◌, ◌++◌, append_assoc, Result, ok, err, fault,
  invalid_data, reject_if, ok_or, Alike, not, ◌==◌, Bool, bind-Alike, ◌+◌,
}
use mathlib.Core.Path.{subst}
use copc_rust.Prelude.Int.{ℤ}
use copc_rust.Prelude.Slices.{slice}
use copc_rust.Core.Dimension.{LasDimension}
use copc_rust.Core.Columns.{ColumnSpec, ColumnData, extra_byte_width, data_scalar}
use copc_rust.Reader.Append.{
  ColumnAppendContext, ExtendedPointLayout, push, append_extra, append_value, append_column,
}
use copc_rust.Reader.Decode.{extend_data}

-- Two columns of one type, and their values one after the other.
data Joined : ColumnData → ColumnData → ColumnData → Type 0 where
  f64 : (a b : List ℕ) → Joined (ColumnData.f64 a) (ColumnData.f64 b) (ColumnData.f64 (a ++ b))
  f32 : (a b : List ℕ) → Joined (ColumnData.f32 a) (ColumnData.f32 b) (ColumnData.f32 (a ++ b))
  i64 : (a b : List ℤ) → Joined (ColumnData.i64 a) (ColumnData.i64 b) (ColumnData.i64 (a ++ b))
  i32 : (a b : List ℤ) → Joined (ColumnData.i32 a) (ColumnData.i32 b) (ColumnData.i32 (a ++ b))
  i16 : (a b : List ℤ) → Joined (ColumnData.i16 a) (ColumnData.i16 b) (ColumnData.i16 (a ++ b))
  i8 : (a b : List ℤ) → Joined (ColumnData.i8 a) (ColumnData.i8 b) (ColumnData.i8 (a ++ b))
  u64 : (a b : List ℕ) → Joined (ColumnData.u64 a) (ColumnData.u64 b) (ColumnData.u64 (a ++ b))
  u32 : (a b : List ℕ) → Joined (ColumnData.u32 a) (ColumnData.u32 b) (ColumnData.u32 (a ++ b))
  u16 : (a b : List ℕ) → Joined (ColumnData.u16 a) (ColumnData.u16 b) (ColumnData.u16 (a ++ b))
  u8 : (a b : List ℕ) → Joined (ColumnData.u8 a) (ColumnData.u8 b) (ColumnData.u8 (a ++ b))
  bool :
      (a b : List Bool) → Joined (ColumnData.bool a) (ColumnData.bool b) (ColumnData.bool (a ++ b))

extend_data-ok : (a b c : ColumnData) → extend_data a b ≡ ok c → Joined a b c
unfolding extend_data
extend_data-ok (ColumnData.f64 a) (ColumnData.f64 b) c e =
    let joined : ColumnData.f64 (a ++ b) ≡ c = cc in
    subst (Joined (ColumnData.f64 a) (ColumnData.f64 b)) joined (Joined.f64 a b)
extend_data-ok (ColumnData.f32 a) (ColumnData.f32 b) c e =
    let joined : ColumnData.f32 (a ++ b) ≡ c = cc in
    subst (Joined (ColumnData.f32 a) (ColumnData.f32 b)) joined (Joined.f32 a b)
extend_data-ok (ColumnData.i64 a) (ColumnData.i64 b) c e =
    let joined : ColumnData.i64 (a ++ b) ≡ c = cc in
    subst (Joined (ColumnData.i64 a) (ColumnData.i64 b)) joined (Joined.i64 a b)
extend_data-ok (ColumnData.i32 a) (ColumnData.i32 b) c e =
    let joined : ColumnData.i32 (a ++ b) ≡ c = cc in
    subst (Joined (ColumnData.i32 a) (ColumnData.i32 b)) joined (Joined.i32 a b)
extend_data-ok (ColumnData.i16 a) (ColumnData.i16 b) c e =
    let joined : ColumnData.i16 (a ++ b) ≡ c = cc in
    subst (Joined (ColumnData.i16 a) (ColumnData.i16 b)) joined (Joined.i16 a b)
extend_data-ok (ColumnData.i8 a) (ColumnData.i8 b) c e =
    let joined : ColumnData.i8 (a ++ b) ≡ c = cc in
    subst (Joined (ColumnData.i8 a) (ColumnData.i8 b)) joined (Joined.i8 a b)
extend_data-ok (ColumnData.u64 a) (ColumnData.u64 b) c e =
    let joined : ColumnData.u64 (a ++ b) ≡ c = cc in
    subst (Joined (ColumnData.u64 a) (ColumnData.u64 b)) joined (Joined.u64 a b)
extend_data-ok (ColumnData.u32 a) (ColumnData.u32 b) c e =
    let joined : ColumnData.u32 (a ++ b) ≡ c = cc in
    subst (Joined (ColumnData.u32 a) (ColumnData.u32 b)) joined (Joined.u32 a b)
extend_data-ok (ColumnData.u16 a) (ColumnData.u16 b) c e =
    let joined : ColumnData.u16 (a ++ b) ≡ c = cc in
    subst (Joined (ColumnData.u16 a) (ColumnData.u16 b)) joined (Joined.u16 a b)
extend_data-ok (ColumnData.u8 a) (ColumnData.u8 b) c e =
    let joined : ColumnData.u8 (a ++ b) ≡ c = cc in
    subst (Joined (ColumnData.u8 a) (ColumnData.u8 b)) joined (Joined.u8 a b)
extend_data-ok (ColumnData.bool a) (ColumnData.bool b) c e =
    let joined : ColumnData.bool (a ++ b) ≡ c = cc in
    subst (Joined (ColumnData.bool a) (ColumnData.bool b)) joined (Joined.bool a b)
extend_data-ok a b c e = cc

scalar-Joined : (a b c : ColumnData) → Joined a b c → data_scalar c ≡ data_scalar a
scalar-Joined _ _ _ (Joined.f64 a b) = refl
scalar-Joined _ _ _ (Joined.f32 a b) = refl
scalar-Joined _ _ _ (Joined.i64 a b) = refl
scalar-Joined _ _ _ (Joined.i32 a b) = refl
scalar-Joined _ _ _ (Joined.i16 a b) = refl
scalar-Joined _ _ _ (Joined.i8 a b) = refl
scalar-Joined _ _ _ (Joined.u64 a b) = refl
scalar-Joined _ _ _ (Joined.u32 a b) = refl
scalar-Joined _ _ _ (Joined.u16 a b) = refl
scalar-Joined _ _ _ (Joined.u8 a b) = refl
scalar-Joined _ _ _ (Joined.bool a b) = refl

pub extend_data_scalar :
    (a b c : ColumnData) → extend_data a b ≡ ok c → data_scalar c ≡ data_scalar a
extend_data_scalar a b c e = scalar-Joined a b c (extend_data-ok a b c e)

abbrev Extends : ColumnData → ColumnData → ColumnData → Type 0
Extends a b c = extend_data a b ≡ ok c

push-Extends :
    {A : Type 0} (make : List A → ColumnData) (a b : List A) (read : Result A)
    → ((xs ys : List A) → extend_data (make xs) (make ys) ≡ ok (make (xs ++ ys)))
    → Alike (Extends (make a)) (push make b read) (push make (a ++ b) read)
unfolding push
push-Extends make a b (ok v) h =
    h a (b ++ (v ∷ [])) ∙ ap (λ t. ok (make t)) (sym (append_assoc a b (v ∷ [])))
push-Extends make a b (err e) h = refl
push-Extends make a b (fault e) h = refl

append_extra-Extends :
    (spec : ColumnSpec) (a b : List ℕ) (layout : ExtendedPointLayout) (buf : List ℕ)
    → Alike
        (Extends (ColumnData.u8 a))
        (append_extra spec b layout buf)
        (append_extra spec (a ++ b) layout buf)
unfolding append_extra extend_data
append_extra-Extends spec a b layout buf =
    bind-Alike (Extends (ColumnData.u8 a)) (ok_or (extra_byte_width spec) invalid_data) _ _
      λ width _.
        bind-Alike (Extends (ColumnData.u8 a))
          (reject_if (not (layout.extra_len == width)) invalid_data) _ _
          λ _ _.
            bind-Alike (Extends (ColumnData.u8 a))
              (slice buf layout.extra_offset (layout.extra_offset + width)) _ _
              λ bytes _. ap (λ t. ok (ColumnData.u8 t)) (sym (append_assoc a b bytes))

module _ (scale_angle : ℤ → ℕ) where
  value-Extends :
      (spec : ColumnSpec) (d : LasDimension) (a b c : ColumnData) (context : ColumnAppendContext)
      → Joined a b c
      → Alike
          (Extends a)
          (append_value scale_angle spec d b context)
          (append_value scale_angle spec d c context)
  unfolding append_value extend_data
  value-Extends spec LasDimension.x _ _ _ context (Joined.f64 a b) =
      push-Extends ColumnData.f64 a b (ok context.xyz.0) (λ xs ys. refl)
  value-Extends spec LasDimension.y _ _ _ context (Joined.f64 a b) =
      push-Extends ColumnData.f64 a b (ok context.xyz.1) (λ xs ys. refl)
  value-Extends spec LasDimension.z _ _ _ context (Joined.f64 a b) =
      push-Extends ColumnData.f64 a b (ok context.xyz.2) (λ xs ys. refl)
  value-Extends spec LasDimension.intensity _ _ _ context (Joined.u16 a b) =
      push-Extends ColumnData.u16 a b _ (λ xs ys. refl)
  value-Extends spec LasDimension.return_number _ _ _ context (Joined.u8 a b) =
      push-Extends ColumnData.u8 a b _ (λ xs ys. refl)
  value-Extends spec LasDimension.number_of_returns _ _ _ context (Joined.u8 a b) =
      push-Extends ColumnData.u8 a b _ (λ xs ys. refl)
  value-Extends spec LasDimension.classification _ _ _ context (Joined.u8 a b) =
      push-Extends ColumnData.u8 a b (ok context.classification) (λ xs ys. refl)
  value-Extends spec LasDimension.scan_direction_flag _ _ _ context (Joined.bool a b) =
      push-Extends ColumnData.bool a b _ (λ xs ys. refl)
  value-Extends spec LasDimension.edge_of_flight_line _ _ _ context (Joined.bool a b) =
      push-Extends ColumnData.bool a b _ (λ xs ys. refl)
  value-Extends spec LasDimension.scan_angle _ _ _ context (Joined.f32 a b) =
      push-Extends ColumnData.f32 a b _ (λ xs ys. refl)
  value-Extends spec LasDimension.user_data _ _ _ context (Joined.u8 a b) =
      push-Extends ColumnData.u8 a b _ (λ xs ys. refl)
  value-Extends spec LasDimension.point_source_id _ _ _ context (Joined.u16 a b) =
      push-Extends ColumnData.u16 a b _ (λ xs ys. refl)
  value-Extends spec LasDimension.synthetic _ _ _ context (Joined.bool a b) =
      push-Extends ColumnData.bool a b _ (λ xs ys. refl)
  value-Extends spec LasDimension.key_point _ _ _ context (Joined.bool a b) =
      push-Extends ColumnData.bool a b _ (λ xs ys. refl)
  value-Extends spec LasDimension.withheld _ _ _ context (Joined.bool a b) =
      push-Extends ColumnData.bool a b _ (λ xs ys. refl)
  value-Extends spec LasDimension.overlap _ _ _ context (Joined.bool a b) =
      push-Extends ColumnData.bool a b (ok context.is_overlap) (λ xs ys. refl)
  value-Extends spec LasDimension.scan_channel _ _ _ context (Joined.u8 a b) =
      push-Extends ColumnData.u8 a b _ (λ xs ys. refl)
  value-Extends spec LasDimension.gps_time _ _ _ context (Joined.f64 a b) =
      push-Extends ColumnData.f64 a b _ (λ xs ys. refl)
  value-Extends spec LasDimension.red _ _ _ context (Joined.u16 a b) =
      push-Extends ColumnData.u16 a b _ (λ xs ys. refl)
  value-Extends spec LasDimension.green _ _ _ context (Joined.u16 a b) =
      push-Extends ColumnData.u16 a b _ (λ xs ys. refl)
  value-Extends spec LasDimension.blue _ _ _ context (Joined.u16 a b) =
      push-Extends ColumnData.u16 a b _ (λ xs ys. refl)
  value-Extends spec LasDimension.nir _ _ _ context (Joined.u16 a b) =
      push-Extends ColumnData.u16 a b _ (λ xs ys. refl)
  value-Extends spec LasDimension.waveform_packet_descriptor_index _ _ _ context (Joined.u8 a b) =
      push-Extends ColumnData.u8 a b _ (λ xs ys. refl)
  value-Extends spec LasDimension.waveform_packet_byte_offset _ _ _ context (Joined.u64 a b) =
      push-Extends ColumnData.u64 a b _ (λ xs ys. refl)
  value-Extends spec LasDimension.waveform_packet_size _ _ _ context (Joined.u32 a b) =
      push-Extends ColumnData.u32 a b _ (λ xs ys. refl)
  value-Extends spec LasDimension.wave_packet_return_point_waveform_location _ _ _ context
        (Joined.f32 a b) =
      push-Extends ColumnData.f32 a b _ (λ xs ys. refl)
  value-Extends spec LasDimension.extra_bytes _ _ _ context (Joined.u8 a b) =
      append_extra-Extends spec a b context.layout context.buf
  value-Extends spec d _ _ _ context j = refl

  -- To a column with values in front a record is added as to the column without them.
  pub column-Extends :
      (spec : ColumnSpec) (a b c : ColumnData) (context : ColumnAppendContext)
      → extend_data a b ≡ ok c
      → Alike
          (λ b' c'. extend_data a b' ≡ ok c')
          (append_column scale_angle spec b context)
          (append_column scale_angle spec c context)
  unfolding append_column
  column-Extends spec a b c context e =
      value-Extends spec spec.dimension a b c context (extend_data-ok a b c e)
