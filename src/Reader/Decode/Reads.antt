-- ===== src/Reader/Decode/Reads.antt =====
-- The reads of a point record that is as long as its format.
use mathlib.Core.Path.{subst}
use copc_rust.Prelude.{
  ℕ, zero, suc, ◌+◌, ◌-◌, ◌^◌, ◌<◌, ◌≤◌, ◌≡◌, refl, ap, arith, Bool, true, false, List, [], ◌∷◌,
  Option, none, some, length, get_elem?, Result, ok, ◌>>=◌, Bool-cases, inl, inr, ltb,
  if◌then◌else◌, unsupported, err, sym,
}
use copc_rust.Prelude.Int.{pos, negsuc}
use copc_rust.Prelude.Slices.{slice, slice_lem}
use copc_rust.Core.Columns.{PointFormat}
use copc_rust.Reader.Append.{
  ExtendedPointLayout, field_at, for_format, u8_at, word_at, i32_at, i16_at, map_or, part_at,
  flag_at,
}
use copc_rust.Prelude.Bytes.{from_le, i32_from_le}

abbrev pub Reads : {A : Type 0} → Result A → Type 0
Reads {A} run = (a : A) × (run ≡ ok a)

get_elem?-some :
    {A : Type 0} (xs : List A) (i : ℕ) → i < length xs → (a : A) × (get_elem? xs i ≡ some a)
get_elem?-some [] i h = absurd (omega arith)
get_elem?-some (x ∷ xs) zero h = (x, refl)
get_elem?-some (x ∷ xs) (suc i) h = get_elem?-some xs i (omega arith)

pub then-Reads : {A B : Type 0} (m : Result A) (g : A → B) → Reads m → Reads (m >>= λ a. ok (g a))
then-Reads m g (a, e) = (g a, rw e refl)

pub u8_at-Reads : (buf : List ℕ) (o : ℕ) → o < length buf → Reads (u8_at buf o)
unfolding u8_at
u8_at-Reads buf o h = let (a, e) = get_elem?-some buf o h in (a, rw e refl)

pub part_at-Reads :
    (buf : List ℕ) (o : ℕ) (part : ℕ → ℕ) → o < length buf → Reads (part_at buf o part)
unfolding part_at
part_at-Reads buf o part h = let (a, e) = u8_at-Reads buf o h in (part a, rw e refl)

pub flag_at-Reads :
    (buf : List ℕ) (o : ℕ) (flag : ℕ → Bool) → o < length buf → Reads (flag_at buf o flag)
unfolding flag_at
flag_at-Reads buf o flag h = let (a, e) = u8_at-Reads buf o h in (flag a, rw e refl)

pub slice-Reads : (buf : List ℕ) (o w : ℕ) → o + w ≤ length buf → Reads (slice buf o (o + w))
slice-Reads buf o w h = (_, slice_lem buf o (o + w) (omega arith) h)

pub word_at-Reads : (w : ℕ) (buf : List ℕ) (o : ℕ) → o + w ≤ length buf → Reads (word_at w buf o)
unfolding word_at
word_at-Reads w buf o h = then-Reads (slice buf o (o + w)) from_le (slice-Reads buf o w h)

pub i32_at-Reads : (buf : List ℕ) (o : ℕ) → o + 4 ≤ length buf → Reads (i32_at buf o)
unfolding i32_at
i32_at-Reads buf o h = then-Reads (slice buf o (o + 4)) i32_from_le (slice-Reads buf o 4 h)

pub i16_at-Reads : (buf : List ℕ) (o : ℕ) → o + 2 ≤ length buf → Reads (i16_at buf o)
unfolding i16_at
i16_at-Reads buf o h =
    then-Reads (word_at 2 buf o)
      (λ word. if ltb word (2 ^ 15) then pos word else negsuc (2 ^ 16 - 1 - word))
      (word_at-Reads 2 buf o h)

-- An optional field of `width` bytes lies in the record.
abbrev Within : Option ℕ → ℕ → ℕ → Type 0
Within none width len = Unit {0}
Within (some o) width len = o + width ≤ len

pub map_or-Reads :
    (offset : Option ℕ) (read : ℕ → Result ℕ) (width len : ℕ)
    → Within offset width len
    → ((o : ℕ) → o + width ≤ len → Reads (read o))
    → Reads (map_or offset read)
unfolding map_or
map_or-Reads none read width len h k = (0, refl)
map_or-Reads (some o) read width len h k = k o h

-- The fields of a record of length `len`.
pub record HasFields (layout : ExtendedPointLayout) (len : ℕ) : Type 0 where
  pub fixed : 30 ≤ len
  pub color : Within layout.color_offset 6 len
  pub nir : Within layout.nir_offset 2 len
  pub waveform : Within layout.waveform_offset 29 len
  pub extra : layout.extra_offset + layout.extra_len ≡ len

field_at-Within :
    (present : Bool) (width cursor len : ℕ)
    → (field_at present width cursor).1 ≤ len
    → Within (field_at present width cursor).0 width len
field_at-Within true width cursor len h = h
field_at-Within false width cursor len h = tt

field_at-le : (present : Bool) (width cursor : ℕ) → cursor ≤ (field_at present width cursor).1
field_at-le true width cursor = omega arith
field_at-le false width cursor = omega arith

abbrev laid : PointFormat → ExtendedPointLayout
laid format =
    let color = field_at format.has_color 6 30 in
    let nir = field_at format.has_nir 2 color.1 in
    let waveform = field_at format.has_waveform 29 nir.1 in
    record {
      color_offset = color.0;
      nir_offset = nir.0;
      waveform_offset = waveform.0;
      extra_offset = waveform.1;
      extra_len = format.extra_bytes;
    }

laid-HasFields :
    (format : PointFormat)
    → HasFields (laid format) ((laid format).extra_offset + (laid format).extra_len)
laid-HasFields format =
    let color = field_at format.has_color 6 30 in
    let nir = field_at format.has_nir 2 color.1 in
    let waveform = field_at format.has_waveform 29 nir.1 in
    let a = field_at-le format.has_color 6 30 in
    let b = field_at-le format.has_nir 2 color.1 in
    let c = field_at-le format.has_waveform 29 nir.1 in
    record {
      fixed = omega arith;
      color = field_at-Within format.has_color 6 30 _ (omega arith);
      nir = field_at-Within format.has_nir 2 color.1 _ (omega arith);
      waveform = field_at-Within format.has_waveform 29 nir.1 _ (omega arith);
      extra = refl;
    }

for_format-laid :
    (format : PointFormat) (layout : ExtendedPointLayout)
    → for_format format ≡ ok layout
    → (format.is_extended ≡ true) × (laid format ≡ layout)
unfolding for_format
for_format-laid format layout e = elim (Bool-cases format.is_extended) [
  | inl b ↦ let opened : ok (laid format) ≡ ok layout = rw b at e in (b, cc)
  | inr b ↦ let refused : err unsupported ≡ ok layout = rw b at e in cc
]

-- The layout of a format puts every field into a record that ends with the extra bytes.
pub for_format-HasFields :
    (format : PointFormat) (layout : ExtendedPointLayout)
    → for_format format ≡ ok layout
    → HasFields layout (layout.extra_offset + layout.extra_len)
      × (layout.extra_len ≡ format.extra_bytes)
for_format-HasFields format layout e =
    let (_, same) = for_format-laid format layout e in
    (
      subst (λ (l : ExtendedPointLayout). HasFields l (l.extra_offset + l.extra_len)) same
          (laid-HasFields format),
      ap (λ (l : ExtendedPointLayout). l.extra_len) (sym same),
    )
