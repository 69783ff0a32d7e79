-- ===== src/Reader/ChunkDecoder.antt =====
-- copc-reader/src/points.rs: `ChunkLazDecoder`, a decompressor over the window of a chunk.
use copc_rust.Prelude.{
  ℕ, List, Option, ◌==◌, Result, ok, las, io, unsupported, reject_if, ok_or, ◌>>=◌, ◌>>◌,
}
use copc_rust.Reader.Window.{ReadSeek, Window, new_window, set_range}

-- The laz and las crates: a decompressor, which reads through the window, is reset, returns one record
-- after the other or fails, and has the record size that the LASzip VLR configures, or a failure; a
-- record is read as a raw point, which has coordinates and becomes a point.
pub record ChunkDecoding (r : ReadSeek) : Type 1 where
  pub Decompressor : Type 0
  pub new_decompressor : Decompressor
  pub reset : Decompressor → Decompressor
  pub configured : Option ℕ
  pub decompress_next : Decompressor × Window r → Option (List ℕ × (Decompressor × Window r))
  pub RawPoint : Type 0
  pub read_from : List ℕ → Option RawPoint
  pub direct : RawPoint → ℕ × ℕ × ℕ
  pub Point : Type 0
  pub new_point : RawPoint → Point

-- The window is held by the decompressor of the laz crate.
pub record ChunkLazDecoder (Decompressor Window : Type 0) : Type 0 where
  pub decompressor : Decompressor
  pub window : Window
  pub record_size : ℕ

module _ {r : ReadSeek} (d : ChunkDecoding r) where
  abbrev pub Decoder : Type 0
  Decoder = ChunkLazDecoder d.Decompressor (Window r)

  -- `configure_layered_decompressor`
  unfoldable pub configured_size : Result ℕ
  configured_size = do
    record_size ← ok_or d.configured las
    reject_if (record_size == 0) unsupported
    ok record_size

  -- `ChunkLazDecoder::new`
  unfoldable pub new_decoder : r.Source → Result Decoder
  unfolding configured_size
  new_decoder source = do
    record_size ← configured_size
    ok (record {
      decompressor = d.new_decompressor;
      window = new_window r source;
      record_size = record_size;
    })

  unfoldable pub seek_to_chunk : ℕ → ℕ → Decoder → Result Decoder
  unfolding set_range configured_size
  seek_to_chunk offset byte_size decoder = do
    window ← set_range r offset byte_size decoder.window
    record_size ← configured_size
    ok (record {
      decompressor = d.reset decoder.decompressor;
      window = window;
      record_size = record_size;
    })

  unfoldable pub decompress_one : Decoder → Result (List ℕ × Decoder)
  decompress_one decoder = do
    (out, (decompressor, window)) ←
        ok_or (d.decompress_next (decoder.decompressor, decoder.window)) io
    ok (out, record decoder { decompressor = decompressor; window = window })
