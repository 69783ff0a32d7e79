-- ===== src/Core/Streaming/RoundTrip.antt =====
-- copc-core/src/streaming.rs: `serialize_le` and `deserialize_le` of a point record.
use copc_rust.Prelude.{
  ℕ, ◌+◌, ◌≤◌, ◌≡◌, refl, sym, ap, ◌∙◌, arith, inl, inr, Bool, true, false, not, List, [], ◌∷◌,
  ◌++◌, append-nil, append_assoc, length, length-append, drop, drop_all, ok, ◌>>=◌, if◌then◌else◌,
  ltb, ◌==◌, ≡→==, Bool-cases,
}
use copc_rust.Prelude.Slices.{slice, copy_behind, slice_mid}
use copc_rust.Core.Streaming.{
  LasPointRecord, StreamingLayout, record_width, flag_u8, always_fields, gps_fields, color_fields,
  nir_fields, waveform_fields, serialize_le, deserialize_le, value_at,
}
use copc_rust.Core.Streaming.Fields.{
  field_bytes, length-field_bytes, width, values, IsFitting, write_fields_lem, present,
  write_present_lem, width-present, read_values_lem, read_present_lem,
}

-- The values of a record fit their types.
pub record IsPoint (r : LasPointRecord) : Type 0 where
  pub always : IsFitting (always_fields r)
  pub gps : IsFitting (gps_fields r)
  pub color : IsFitting (color_fields r)
  pub nir : IsFitting (nir_fields r)
  pub waveform : IsFitting (waveform_fields r)

-- The bytes of a record: its dimensions in a row.
abbrev pub record_bytes : LasPointRecord → StreamingLayout → List ℕ
record_bytes r layout =
    field_bytes (always_fields r)
    ++ (field_bytes (present layout.has_gps (gps_fields r))
        ++ (field_bytes (present layout.has_color (color_fields r))
            ++ (field_bytes (present layout.has_nir (nir_fields r))
                ++ (field_bytes (present layout.has_waveform (waveform_fields r))
                    ++ r.extra_bytes))))

module _ (r : LasPointRecord) (layout : StreamingLayout) where
  abbrev end_always : ℕ
  end_always = 0 + width (always_fields r)

  abbrev end_gps : ℕ
  end_gps = end_always + width (present layout.has_gps (gps_fields r))

  abbrev end_color : ℕ
  end_color = end_gps + width (present layout.has_color (color_fields r))

  abbrev end_nir : ℕ
  end_nir = end_color + width (present layout.has_nir (nir_fields r))

  abbrev end_waveform : ℕ
  end_waveform = end_nir + width (present layout.has_waveform (waveform_fields r))

  record_width_lem : record_width layout ≡ end_waveform + layout.extra_bytes
  record_width_lem = omega (
    arith,
    width-present layout.has_gps (gps_fields r),
    width-present layout.has_color (color_fields r),
    width-present layout.has_nir (nir_fields r),
    width-present layout.has_waveform (waveform_fields r),
  )

  abbrev done_always : List ℕ
  done_always = [] ++ field_bytes (always_fields r)

  abbrev done_gps : List ℕ
  done_gps = done_always ++ field_bytes (present layout.has_gps (gps_fields r))

  abbrev done_color : List ℕ
  done_color = done_gps ++ field_bytes (present layout.has_color (color_fields r))

  abbrev done_nir : List ℕ
  done_nir = done_color ++ field_bytes (present layout.has_nir (nir_fields r))

  abbrev done_waveform : List ℕ
  done_waveform = done_nir ++ field_bytes (present layout.has_waveform (waveform_fields r))

  length-done_always : length done_always ≡ end_always
  length-done_always = length-field_bytes (always_fields r)

  length-done_gps : length done_gps ≡ end_gps
  length-done_gps = omega (
    arith,
    length-append done_always (field_bytes (present layout.has_gps (gps_fields r))),
    length-field_bytes (present layout.has_gps (gps_fields r)),
    length-done_always,
  )

  length-done_color : length done_color ≡ end_color
  length-done_color = omega (
    arith,
    length-append done_gps (field_bytes (present layout.has_color (color_fields r))),
    length-field_bytes (present layout.has_color (color_fields r)),
    length-done_gps,
  )

  length-done_nir : length done_nir ≡ end_nir
  length-done_nir = omega (
    arith,
    length-append done_color (field_bytes (present layout.has_nir (nir_fields r))),
    length-field_bytes (present layout.has_nir (nir_fields r)),
    length-done_color,
  )

  length-done_waveform : length done_waveform ≡ end_waveform
  length-done_waveform = omega (
    arith,
    length-append done_nir (field_bytes (present layout.has_waveform (waveform_fields r))),
    length-field_bytes (present layout.has_waveform (waveform_fields r)),
    length-done_nir,
  )

  serialize_done :
      (dst : List ℕ)
      → length dst ≡ record_width layout
      → length r.extra_bytes ≡ layout.extra_bytes
      → serialize_le r layout dst ≡ ok (done_waveform ++ r.extra_bytes)
  unfolding serialize_le
  serialize_done dst whole extra =
      let total = record_width_lem in
      let last : end_waveform + layout.extra_bytes ≡ length dst = omega (arith, total) in
      let nothing : drop (end_waveform + layout.extra_bytes) dst ≡ [] =
        drop_all (end_waveform + layout.extra_bytes) dst (omega (arith, last)) in
      rw (
        ≡→== (length dst) (record_width layout) whole,
        ≡→== (length r.extra_bytes) layout.extra_bytes extra,
        write_fields_lem (always_fields r) dst [] 0 refl (omega (arith, last)),
        write_present_lem layout.has_gps (gps_fields r) dst done_always end_always
            length-done_always (omega (arith, last)),
        write_present_lem layout.has_color (color_fields r) dst done_gps end_gps length-done_gps
            (omega (arith, last)),
        write_present_lem layout.has_nir (nir_fields r) dst done_color end_color length-done_color
            (omega (arith, last)),
        write_present_lem layout.has_waveform (waveform_fields r) dst done_nir end_nir
            length-done_nir (omega (arith, last)),
        copy_behind dst done_waveform r.extra_bytes end_waveform (end_waveform + layout.extra_bytes)
            length-done_waveform (omega (arith, extra)) (omega (arith, last)),
        nothing,
        append-nil (done_waveform ++ r.extra_bytes),
      )

  same_bytes : done_waveform ++ r.extra_bytes ≡ record_bytes r layout
  same_bytes =
      rw
        (
          append_assoc done_nir (field_bytes (present layout.has_waveform (waveform_fields r)))
              r.extra_bytes,
          append_assoc done_color (field_bytes (present layout.has_nir (nir_fields r))),
          append_assoc done_gps (field_bytes (present layout.has_color (color_fields r))),
          append_assoc done_always (field_bytes (present layout.has_gps (gps_fields r))),
        )
        refl

  -- The record without the dimensions that the layout leaves out.
  abbrev pub visible : LasPointRecord
  visible = record {
    x = r.x;
    y = r.y;
    z = r.z;
    intensity = r.intensity;
    return_number = r.return_number;
    number_of_returns = r.number_of_returns;
    classification = r.classification;
    scan_direction_flag = r.scan_direction_flag;
    edge_of_flight_line = r.edge_of_flight_line;
    scan_angle = r.scan_angle;
    user_data = r.user_data;
    point_source_id = r.point_source_id;
    synthetic = r.synthetic;
    key_point = r.key_point;
    withheld = r.withheld;
    overlap = r.overlap;
    scan_channel = r.scan_channel;
    gps_time = if layout.has_gps then r.gps_time else 0;
    red = if layout.has_color then r.red else 0;
    green = if layout.has_color then r.green else 0;
    blue = if layout.has_color then r.blue else 0;
    nir = if layout.has_nir then r.nir else 0;
    wave_packet_descriptor_index =
        if layout.has_waveform then r.wave_packet_descriptor_index else 0;
    byte_offset_to_waveform_data =
        if layout.has_waveform then r.byte_offset_to_waveform_data else 0;
    waveform_packet_size = if layout.has_waveform then r.waveform_packet_size else 0;
    return_point_waveform_location =
        if layout.has_waveform then r.return_point_waveform_location else 0;
    extra_bytes = r.extra_bytes;
  }

  flag_lem : (b : Bool) → not (flag_u8 b == 0) ≡ b
  flag_lem true = refl
  flag_lem false = refl

  at_present :
      (flag : Bool) (xs zs : List ℕ) (k : ℕ)
      → value_at (if flag then xs else zs) k ≡ (if flag then value_at xs k else value_at zs k)
  at_present true xs zs k = refl
  at_present false xs zs k = refl

  extra_lem :
      (src : List ℕ) (offset : ℕ)
      → drop offset src ≡ r.extra_bytes
      → length r.extra_bytes ≡ layout.extra_bytes
      → offset + layout.extra_bytes ≤ length src
      → (if ltb 0 layout.extra_bytes then slice src offset (offset + layout.extra_bytes) else ok [])
        ≡ ok r.extra_bytes
  extra_lem src offset here extra fits = elim (Bool-cases (ltb 0 layout.extra_bytes)) [
    | inl t ↦ rw t (
        slice_mid src r.extra_bytes [] offset (offset + layout.extra_bytes)
          (here ∙ sym (append-nil r.extra_bytes)) (omega arith) fits (omega (arith, extra)))
    | inr t ↦ rw t (ap ok (sym (no_bytes r.extra_bytes (ground (arith, extra, t)))))
  ]
    where
      no_bytes : (xs : List ℕ) → length xs ≡ 0 → xs ≡ []
      no_bytes [] h = refl
      no_bytes (x ∷ xs) h = absurd (omega arith)

  deserialize_record :
      IsPoint r
      → length r.extra_bytes ≡ layout.extra_bytes
      → deserialize_le (record_bytes r layout) layout ≡ ok visible
  unfolding deserialize_le
  deserialize_record p extra =
      let src = record_bytes r layout in
      let wave = field_bytes (present layout.has_waveform (waveform_fields r)) ++ r.extra_bytes in
      let nir = field_bytes (present layout.has_nir (nir_fields r)) ++ wave in
      let color = field_bytes (present layout.has_color (color_fields r)) ++ nir in
      let gps = field_bytes (present layout.has_gps (gps_fields r)) ++ color in
      let size : length src ≡ end_waveform + layout.extra_bytes =
        ap length (sym same_bytes)
        ∙ length-append done_waveform r.extra_bytes
        ∙ omega (arith, length-done_waveform, extra) in
      let whole : length src ≡ record_width layout = size ∙ sym record_width_lem in
      let r0 = read_values_lem (always_fields r) src gps 0 p.always refl (omega (arith, size)) in
      let r1 =
        read_present_lem layout.has_gps (gps_fields r) (0 ∷ []) src color end_always p.gps r0.behind
          (omega (arith, size)) in
      let r2 =
        read_present_lem layout.has_color (color_fields r) (0 ∷ 0 ∷ 0 ∷ []) src nir end_gps p.color
          r1.behind (omega (arith, size)) in
      let r3 =
        read_present_lem layout.has_nir (nir_fields r) (0 ∷ []) src wave end_color p.nir r2.behind
          (omega (arith, size)) in
      let r4 =
        read_present_lem layout.has_waveform (waveform_fields r) (0 ∷ 0 ∷ 0 ∷ 0 ∷ []) src
          r.extra_bytes end_nir p.waveform r3.behind (omega (arith, size)) in
      let bytes = extra_lem src end_waveform r4.behind extra (omega (arith, size)) in
      rw
        (
          ≡→== (length src) (record_width layout) whole,
          r0.returns,
          r1.returns,
          r2.returns,
          r3.returns,
          r4.returns,
          bytes,
        )
        (ap ok (
          cc (
            flag_lem r.scan_direction_flag,
            flag_lem r.edge_of_flight_line,
            flag_lem r.synthetic,
            flag_lem r.key_point,
            flag_lem r.withheld,
            flag_lem r.overlap,
            at_present layout.has_gps (values (gps_fields r)) (0 ∷ []) 0,
            at_present layout.has_color (values (color_fields r)) (0 ∷ 0 ∷ 0 ∷ []) 0,
            at_present layout.has_color (values (color_fields r)) (0 ∷ 0 ∷ 0 ∷ []) 1,
            at_present layout.has_color (values (color_fields r)) (0 ∷ 0 ∷ 0 ∷ []) 2,
            at_present layout.has_nir (values (nir_fields r)) (0 ∷ []) 0,
            at_present layout.has_waveform (values (waveform_fields r)) (0 ∷ 0 ∷ 0 ∷ 0 ∷ []) 0,
            at_present layout.has_waveform (values (waveform_fields r)) (0 ∷ 0 ∷ 0 ∷ 0 ∷ []) 1,
            at_present layout.has_waveform (values (waveform_fields r)) (0 ∷ 0 ∷ 0 ∷ 0 ∷ []) 2,
            at_present layout.has_waveform (values (waveform_fields r)) (0 ∷ 0 ∷ 0 ∷ 0 ∷ []) 3,
          )))

-- A record whose values fit their types, with as many extra bytes as the layout says, is written to a
-- destination of the width of the layout, and comes back without the dimensions that the layout
-- leaves out.
pub deserialize_le-serialize_le :
    (r : LasPointRecord) (layout : StreamingLayout) (dst : List ℕ)
    → IsPoint r
    → length r.extra_bytes ≡ layout.extra_bytes
    → length dst ≡ record_width layout
    → (serialize_le r layout dst >>= λ bytes. deserialize_le bytes layout) ≡ ok (visible r layout)
deserialize_le-serialize_le r layout dst p extra whole =
    rw (serialize_done r layout dst whole extra, same_bytes r layout)
      (deserialize_record r layout p extra)
