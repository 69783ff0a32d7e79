-- ===== src/Core/Streaming/Fields.antt =====
-- copc-core/src/streaming.rs: lemmas on runs of fields, written and read.
use copc_rust.Prelude.{
  ℕ, ◌+◌, ◌-◌, ◌^◌, ◌<◌, ◌≤◌, ◌≡◌, refl, ap, ◌∙◌, arith, Bool, true, false, List, [], ◌∷◌, ◌++◌,
  append-nil, append_assoc, length, length-append, drop, All, ok, if◌then◌else◌,
}
use copc_rust.Prelude.Bytes.{to_le, length-to_le, from_le-to_le}
use copc_rust.Prelude.Slices.{copy_behind, slice_mid, drop_mid}
use copc_rust.Core.Streaming.{Field, write_value, write_fields, read_value, read_values}

abbrev pub field_bytes : List Field → List ℕ
field_bytes [] = []
field_bytes ((n, value) ∷ fields) = to_le n value ++ field_bytes fields

abbrev pub width : List Field → ℕ
width [] = 0
width ((n, value) ∷ fields) = n + width fields

abbrev pub widths : List Field → List ℕ
widths [] = []
widths ((n, value) ∷ fields) = n ∷ widths fields

abbrev pub values : List Field → List ℕ
values [] = []
values ((n, value) ∷ fields) = value ∷ values fields

-- Every value fits the bytes of its field.
abbrev pub IsFitting : List Field → Type 0
IsFitting = All (λ (f : Field). f.1 < 256 ^ f.0)

pub length-field_bytes : (fields : List Field) → length (field_bytes fields) ≡ width fields
length-field_bytes [] = refl
length-field_bytes ((n, value) ∷ fields) = omega (
  arith,
  length-append (to_le n value) (field_bytes fields),
  length-to_le n value,
  length-field_bytes fields,
)

pub write_fields_lem :
    (fields : List Field) (orig done : List ℕ) (offset : ℕ)
    → length done ≡ offset
    → offset + width fields ≤ length orig
    → write_fields fields (offset, done ++ drop offset orig)
      ≡ ok
          (offset + width fields, (done ++ field_bytes fields) ++ drop (offset + width fields) orig)
unfolding write_fields write_value
write_fields_lem [] orig done offset at_end fits =
    let same : offset ≡ offset + 0 = omega arith in rw (append-nil done, ← same) refl
write_fields_lem ((n, value) ∷ fields) orig done offset at_end fits =
    let len : length (to_le n value) ≡ n = length-to_le n value in
    let there : length (done ++ to_le n value) ≡ offset + n =
      omega (arith, at_end, len, length-append done (to_le n value)) in
    let end : offset + n + width fields ≡ offset + (n + width fields) = omega arith in
    rw (
      copy_behind orig done (to_le n value) offset (offset + n) at_end (omega (arith, len))
          (omega arith),
      write_fields_lem fields orig (done ++ to_le n value) (offset + n) there (omega arith),
      end,
      append_assoc done (to_le n value) (field_bytes fields),
    )

-- The reads at an offset where the bytes of the fields stand.
pub record Reads (fields : List Field) (src : List ℕ) (offset : ℕ) (post : List ℕ) : Type 0 where
  pub returns : read_values (widths fields) src offset ≡ ok (values fields, offset + width fields)
  pub behind : drop (offset + width fields) src ≡ post

pub read_values_lem :
    (fields : List Field) (src post : List ℕ) (offset : ℕ)
    → IsFitting fields
    → drop offset src ≡ field_bytes fields ++ post
    → offset + width fields ≤ length src
    → Reads fields src offset post
unfolding read_values read_value
read_values_lem [] src post offset fit here inside =
    let same : offset ≡ offset + 0 = omega arith in
    record { returns = ap (λ t. ok ([], t)) same; behind = rw (← same) here }
read_values_lem ((n, value) ∷ fields) src post offset (small, fit) here inside =
    let len : length (to_le n value) ≡ offset + n - offset = omega (arith, length-to_le n value) in
    let here' : drop offset src ≡ to_le n value ++ (field_bytes fields ++ post) =
      here ∙ append_assoc (to_le n value) (field_bytes fields) post in
    let next : drop (offset + n) src ≡ field_bytes fields ++ post =
      drop_mid src (to_le n value) (field_bytes fields ++ post) offset (offset + n) here'
        (omega arith) len in
    let rest = read_values_lem fields src post (offset + n) fit next (omega arith) in
    let end : offset + n + width fields ≡ offset + (n + width fields) = omega arith in
    record {
      returns = rw (
        slice_mid src (to_le n value) (field_bytes fields ++ post) offset (offset + n) here'
            (omega arith) (omega arith) len,
        rest.returns,
        from_le-to_le n value small,
        end,
      );
      behind = rw end at rest.behind;
    }

-- The fields of a dimension that the layout may leave out.
abbrev pub present : Bool → List Field → List Field
present true fields = fields
present false fields = []

pub write_present_lem :
    (flag : Bool) (fields : List Field) (orig done : List ℕ) (offset : ℕ)
    → length done ≡ offset
    → offset + width (present flag fields) ≤ length orig
    → (if flag
        then write_fields fields (offset, done ++ drop offset orig)
        else ok (offset, done ++ drop offset orig))
      ≡ ok (
        offset + width (present flag fields),
        (done ++ field_bytes (present flag fields))
            ++ drop (offset + width (present flag fields)) orig,
      )
write_present_lem true fields orig done offset at_end fits =
    write_fields_lem fields orig done offset at_end fits
write_present_lem false fields orig done offset at_end fits =
    let same : offset ≡ offset + 0 = omega arith in rw (append-nil done, ← same) refl

pub width-present :
    (flag : Bool) (fields : List Field)
    → width (present flag fields) ≡ (if flag then width fields else 0)
width-present true fields = refl
width-present false fields = refl

-- The reads of a dimension that the layout may leave out: then its values are `zeros`.
pub record ReadsPresent (flag : Bool) (fields : List Field) (zeros : List ℕ) (src : List ℕ)
    (offset : ℕ) (post : List ℕ) : Type 0 where
  pub returns :
      (if flag then read_values (widths fields) src offset else ok (zeros, offset))
      ≡ ok ((if flag then values fields else zeros), offset + width (present flag fields))
  pub behind : drop (offset + width (present flag fields)) src ≡ post

pub read_present_lem :
    (flag : Bool) (fields : List Field) (zeros src post : List ℕ) (offset : ℕ)
    → IsFitting fields
    → drop offset src ≡ field_bytes (present flag fields) ++ post
    → offset + width (present flag fields) ≤ length src
    → ReadsPresent flag fields zeros src offset post
read_present_lem true fields zeros src post offset fit here inside =
    let r = read_values_lem fields src post offset fit here inside in
    record { returns = r.returns; behind = r.behind }
read_present_lem false fields zeros src post offset fit here inside =
    let same : offset ≡ offset + 0 = omega arith in
    record { returns = ap (λ t. ok (zeros, t)) same; behind = rw (← same) here }
