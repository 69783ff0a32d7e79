-- ===== src/Reader/Decode/Values.antt =====
-- copc-reader/src/points.rs: lemmas on the value that a record gives to a column.
use copc_rust.Prelude.{
  ℕ, suc, ◌+◌, ◌≡◌, refl, ap, sym, ◌∙◌, arith, List, [], ◌∷◌, ◌++◌, some, length, length-append,
  Result, ok,
}
use copc_rust.Prelude.Int.{ℤ}
use copc_rust.Core.Dimension.{LasDimension, ScalarType, default_scalar}
use copc_rust.Core.Columns.{ColumnSpec, ColumnData, data_scalar, data_len}
use copc_rust.Reader.Append.{ColumnAppendContext, push, append_value, i16_at}
use copc_rust.Reader.Decode.Reads.{
  Reads, HasFields, u8_at-Reads, part_at-Reads, flag_at-Reads, word_at-Reads, i16_at-Reads,
  map_or-Reads, then-Reads,
}

-- One value is added to a column of any type.
abbrev pub Adds : ColumnData → Result ColumnData → Type 0
Adds b run =
    (c : ColumnData) × (run ≡ ok c)
    × (data_scalar c ≡ data_scalar b)
    × (data_len c ≡ suc (data_len b))

push-Adds :
    {A : Type 0} (make : List A → ColumnData) (b : List A) (read : Result A)
    → ((xs : List A) → data_scalar (make xs) ≡ data_scalar (make b))
    → ((xs : List A) → data_len (make xs) ≡ length xs)
    → Reads read
    → Adds (make b) (push make b read)
unfolding push
push-Adds make b read scalar len (v, e) = (
  make (b ++ (v ∷ [])),
  rw e refl,
  scalar (b ++ (v ∷ [])),
  len (b ++ (v ∷ []))
      ∙ length-append b (v ∷ [])
      ∙ (let more : length b + 1 ≡ suc (length b) = omega arith in more)
      ∙ ap suc (sym (len b)),
)

module _ (scale_angle : ℤ → ℕ) (c : ColumnAppendContext)
    (has : HasFields c.layout (length c.buf)) where
  pub value-Adds :
      (spec : ColumnSpec) (d : LasDimension) (s : ScalarType) (b : ColumnData)
      → default_scalar d ≡ some s
      → data_scalar b ≡ s
      → Adds b (append_value scale_angle spec d b c)
  unfolding append_value default_scalar
  value-Adds spec LasDimension.x s (ColumnData.f64 b) e k =
      push-Adds ColumnData.f64 b (ok c.xyz.0) (λ xs. refl) (λ xs. refl) (c.xyz.0, refl)
  value-Adds spec LasDimension.y s (ColumnData.f64 b) e k =
      push-Adds ColumnData.f64 b (ok c.xyz.1) (λ xs. refl) (λ xs. refl) (c.xyz.1, refl)
  value-Adds spec LasDimension.z s (ColumnData.f64 b) e k =
      push-Adds ColumnData.f64 b (ok c.xyz.2) (λ xs. refl) (λ xs. refl) (c.xyz.2, refl)
  value-Adds spec LasDimension.intensity s (ColumnData.u16 b) e k =
      push-Adds ColumnData.u16 b _ (λ xs. refl) (λ xs. refl)
        (word_at-Reads 2 c.buf 12 (omega (arith, has.fixed)))
  value-Adds spec LasDimension.return_number s (ColumnData.u8 b) e k =
      push-Adds ColumnData.u8 b _ (λ xs. refl) (λ xs. refl)
        (part_at-Reads c.buf 14 _ (omega (arith, has.fixed)))
  value-Adds spec LasDimension.number_of_returns s (ColumnData.u8 b) e k =
      push-Adds ColumnData.u8 b _ (λ xs. refl) (λ xs. refl)
        (part_at-Reads c.buf 14 _ (omega (arith, has.fixed)))
  value-Adds spec LasDimension.classification s (ColumnData.u8 b) e k =
      push-Adds ColumnData.u8 b (ok c.classification) (λ xs. refl) (λ xs. refl)
        (c.classification, refl)
  value-Adds spec LasDimension.scan_direction_flag s (ColumnData.bool b) e k =
      push-Adds ColumnData.bool b _ (λ xs. refl) (λ xs. refl)
        (flag_at-Reads c.buf 15 _ (omega (arith, has.fixed)))
  value-Adds spec LasDimension.edge_of_flight_line s (ColumnData.bool b) e k =
      push-Adds ColumnData.bool b _ (λ xs. refl) (λ xs. refl)
        (flag_at-Reads c.buf 15 _ (omega (arith, has.fixed)))
  value-Adds spec LasDimension.scan_angle s (ColumnData.f32 b) e k =
      push-Adds ColumnData.f32 b _ (λ xs. refl) (λ xs. refl)
        (then-Reads (i16_at c.buf 18) scale_angle
          (i16_at-Reads c.buf 18 (omega (arith, has.fixed))))
  value-Adds spec LasDimension.user_data s (ColumnData.u8 b) e k =
      push-Adds ColumnData.u8 b _ (λ xs. refl) (λ xs. refl)
        (u8_at-Reads c.buf 17 (omega (arith, has.fixed)))
  value-Adds spec LasDimension.point_source_id s (ColumnData.u16 b) e k =
      push-Adds ColumnData.u16 b _ (λ xs. refl) (λ xs. refl)
        (word_at-Reads 2 c.buf 20 (omega (arith, has.fixed)))
  value-Adds spec LasDimension.synthetic s (ColumnData.bool b) e k =
      push-Adds ColumnData.bool b _ (λ xs. refl) (λ xs. refl)
        (flag_at-Reads c.buf 15 _ (omega (arith, has.fixed)))
  value-Adds spec LasDimension.key_point s (ColumnData.bool b) e k =
      push-Adds ColumnData.bool b _ (λ xs. refl) (λ xs. refl)
        (flag_at-Reads c.buf 15 _ (omega (arith, has.fixed)))
  value-Adds spec LasDimension.withheld s (ColumnData.bool b) e k =
      push-Adds ColumnData.bool b _ (λ xs. refl) (λ xs. refl)
        (flag_at-Reads c.buf 15 _ (omega (arith, has.fixed)))
  value-Adds spec LasDimension.overlap s (ColumnData.bool b) e k =
      push-Adds ColumnData.bool b (ok c.is_overlap) (λ xs. refl) (λ xs. refl) (c.is_overlap, refl)
  value-Adds spec LasDimension.scan_channel s (ColumnData.u8 b) e k =
      push-Adds ColumnData.u8 b _ (λ xs. refl) (λ xs. refl)
        (part_at-Reads c.buf 15 _ (omega (arith, has.fixed)))
  value-Adds spec LasDimension.gps_time s (ColumnData.f64 b) e k =
      push-Adds ColumnData.f64 b _ (λ xs. refl) (λ xs. refl)
        (word_at-Reads 8 c.buf 22 (omega (arith, has.fixed)))
  value-Adds spec LasDimension.red s (ColumnData.u16 b) e k =
      push-Adds ColumnData.u16 b _ (λ xs. refl) (λ xs. refl)
        (map_or-Reads c.layout.color_offset _ 6 (length c.buf) has.color
          λ o h. word_at-Reads 2 c.buf o (omega arith))
  value-Adds spec LasDimension.green s (ColumnData.u16 b) e k =
      push-Adds ColumnData.u16 b _ (λ xs. refl) (λ xs. refl)
        (map_or-Reads c.layout.color_offset _ 6 (length c.buf) has.color
          λ o h. word_at-Reads 2 c.buf (o + 2) (omega arith))
  value-Adds spec LasDimension.blue s (ColumnData.u16 b) e k =
      push-Adds ColumnData.u16 b _ (λ xs. refl) (λ xs. refl)
        (map_or-Reads c.layout.color_offset _ 6 (length c.buf) has.color
          λ o h. word_at-Reads 2 c.buf (o + 4) (omega arith))
  value-Adds spec LasDimension.nir s (ColumnData.u16 b) e k =
      push-Adds ColumnData.u16 b _ (λ xs. refl) (λ xs. refl)
        (map_or-Reads c.layout.nir_offset _ 2 (length c.buf) has.nir
          λ o h. word_at-Reads 2 c.buf o h)
  value-Adds spec LasDimension.waveform_packet_descriptor_index s (ColumnData.u8 b) e k =
      push-Adds ColumnData.u8 b _ (λ xs. refl) (λ xs. refl)
        (map_or-Reads c.layout.waveform_offset _ 29 (length c.buf) has.waveform
          λ o h. u8_at-Reads c.buf o (omega arith))
  value-Adds spec LasDimension.waveform_packet_byte_offset s (ColumnData.u64 b) e k =
      push-Adds ColumnData.u64 b _ (λ xs. refl) (λ xs. refl)
        (map_or-Reads c.layout.waveform_offset _ 29 (length c.buf) has.waveform
          λ o h. word_at-Reads 8 c.buf (o + 1) (omega arith))
  value-Adds spec LasDimension.waveform_packet_size s (ColumnData.u32 b) e k =
      push-Adds ColumnData.u32 b _ (λ xs. refl) (λ xs. refl)
        (map_or-Reads c.layout.waveform_offset _ 29 (length c.buf) has.waveform
          λ o h. word_at-Reads 4 c.buf (o + 9) (omega arith))
  value-Adds spec LasDimension.wave_packet_return_point_waveform_location s (ColumnData.f32 b) e k =
      push-Adds ColumnData.f32 b _ (λ xs. refl) (λ xs. refl)
        (map_or-Reads c.layout.waveform_offset _ 29 (length c.buf) has.waveform
          λ o h. word_at-Reads 4 c.buf (o + 13) (omega arith))
  value-Adds spec d s b e k = cc
