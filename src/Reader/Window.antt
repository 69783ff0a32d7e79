-- ===== src/Reader/Window.antt =====
-- copc-reader/src/points.rs: `ChunkReadWindow`, which keeps a decoder within the bytes of its chunk.
pub mod Inside
use copc_rust.Prelude.{
  ℕ, ◌+◌, ◌-◌, ◌^◌, ◌&&◌, List, [], Option, none, some, leb, ltb, ◌==◌, if◌then◌else◌, min, length,
  Result, ok, io, invalid_data, ok_or, ◌>>=◌,
}
use mathlib.Core.Option
use copc_rust.Prelude.Int.{ℤ, pos, checked_add_u64, pos_part, neg_part, ◌+ℤ◌}

-- `Read` and `Seek` of the source: a move to an offset, and the next bytes, at most as many as asked
-- for; either may fail.
pub record ReadSeek : Type 1 where
  pub Source : Type 0
  pub seek_source : ℕ → Source → Option Source
  pub read_source : ℕ → Source → Option (List ℕ × Source)

pub record ChunkReadWindow (Source : Type 0) : Type 0 where
  pub source : Source
  pub start : ℕ
  pub end : ℕ
  pub position : ℕ

pub data SeekFrom : Type 0 where
  from_start : ℕ → SeekFrom
  from_current : ℤ → SeekFrom
  from_end : ℤ → SeekFrom

-- `checked_add_signed` of `u64`
unfoldable pub checked_add_signed : ℕ → ℤ → Option ℕ
checked_add_signed a delta =
    let forward = a + pos_part delta in
    if leb (neg_part delta) forward && ltb (forward - neg_part delta) (2 ^ 64)
    then some (forward - neg_part delta)
    else none

-- `(self.start..=self.end).contains(target)`
abbrev pub within : ℕ → ℕ → ℕ → Option ℕ
within start end target = if leb start target && leb target end then some target else none

module _ (r : ReadSeek) where
  open r use {Source, seek_source, read_source}

  abbrev pub Window : Type 0
  Window = ChunkReadWindow Source

  -- `ChunkReadWindow::new`
  abbrev pub new_window : Source → Window
  new_window source = record { source = source; start = 0; end = 0; position = 0 }

  unfoldable pub set_range : ℕ → ℕ → Window → Result Window
  set_range start byte_size w = do
    end ← ok_or (checked_add_u64 start byte_size) invalid_data
    source ← ok_or (seek_source start w.source) io
    ok (record { source = source; start = start; end = end; position = start })

  -- `Read::read`, into a buffer of `len` bytes.
  unfoldable pub read : ℕ → Window → Result (List ℕ × Window)
  read len w =
      let remaining = w.end - w.position in
      let fetched = (do
        (bytes, source) ← ok_or (read_source (min remaining len) w.source) io
        position ← ok_or (checked_add_u64 w.position (length bytes)) io
        ok (bytes, record w { source = source; position = position })) in
      if remaining == 0 then ok ([], w) else fetched

  -- The target of a seek, before the filter.
  abbrev pub target_of : SeekFrom → Window → Option ℕ
  target_of (from_start offset) w = some offset
  target_of (from_current delta) w = checked_add_signed w.position delta
  target_of (from_end delta) w = checked_add_signed w.end delta

  -- `Seek::seek`
  unfoldable pub seek : SeekFrom → Window → Result (ℕ × Window)
  unfolding checked_add_signed Option.bind
  seek position w = do
    target ← ok_or (Option.bind (target_of position w) (within w.start w.end)) io
    source ← ok_or (seek_source target w.source) io
    ok (target, record w { source = source; position = target })
