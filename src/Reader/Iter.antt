-- ===== src/Reader/Iter.antt =====
-- copc-reader/src/points.rs: `PointIter`, the iterator over the points of the selected chunks.
pub mod Counted
pub mod Items
use copc_rust.Prelude.{
  ℕ, zero, suc, ◌+◌, ◌-◌, ◌%◌, Bool, true, false, List, [], ◌∷◌, Option, none, some, ◌==◌, leb,
  if◌then◌else◌, Result, ok, err, fault, out_of_fuel, invalid_data, las, ok_or, or_panic,
}
use copc_rust.Prelude.States.{M, ◌>>=◌, ◌>>◌, lift, current, update}
use copc_rust.Prelude.Int.{ℤ, pos, leb_ℤ, to_unsigned}
use copc_rust.Core.Bounds.{Floats, Bounds}
use copc_rust.Core.Hierarchy.{Entry}
use copc_rust.Reader.Decode.{Cancel, check, accepts, cancel_poll_stride}
use copc_rust.Reader.Window.{ReadSeek}
use copc_rust.Reader.ChunkDecoder.{ChunkDecoding, Decoder, seek_to_chunk, decompress_one}
use copc_rust.Reader.Query.{total_candidate_points}

-- The fields that change, and the number of cancellation checks so far. `chunks_left` stands for the
-- chunks from `next_chunk` on.
pub record PointIter (Decoder : Type 0) : Type 0 where
  pub chunks_left : List Entry
  pub current_chunk_points_left : ℕ
  pub remaining_candidate_points : ℕ
  pub exact_size : Bool
  pub decoder : Decoder
  pub decoded_points : ℕ
  pub polls : ℕ
  pub finished : Bool

abbrev pub is_none : {A : Type 0} → Option A → Bool
is_none none = true
is_none (some a) = false

-- `?`, and the fields from the value.
abbrev pub map_ok : {A B : Type 0} → (A → B) → Result A → Result B
map_ok f (ok a) = ok (f a)
map_ok f (err e) = err e
map_ok f (fault w) = fault w

-- A subtraction of `usize`, which panics below 0.
abbrev pub less_one : ℕ → Result ℕ
less_one n = or_panic (if leb 1 n then some (n - 1) else none)

module _ {r : ReadSeek} (d : ChunkDecoding r) where
  open d use {read_from, direct, Point, new_point}

  abbrev pub Iter : Type 0
  Iter = PointIter (Decoder d)

  -- `PointIter::new`, behind its `QuerySetup`.
  unfoldable pub new_iter : List Entry → Option (Bounds ℕ) → Decoder d → Result Iter
  new_iter chunks bounds decoder =
      map_ok
        (λ total. record {
          chunks_left = chunks;
          current_chunk_points_left = 0;
          remaining_candidate_points = total;
          exact_size = is_none bounds;
          decoder = decoder;
          decoded_points = 0;
          polls = 0;
          finished = false;
        })
        (total_candidate_points chunks)

  -- `load_next_chunk` behind the test of the point count.
  unfoldable pub load_chunk : Entry → M Iter Bool
  load_chunk entry = do
    byte_size ← lift (ok_or (to_unsigned entry.byte_size) invalid_data)
    s ← current
    decoder ← lift (seek_to_chunk d entry.offset byte_size s.decoder)
    update (λ s. record s { decoder = decoder })
    points ← lift (ok_or (to_unsigned entry.point_count) invalid_data)
    update (λ s. record s { current_chunk_points_left = points })
    lift (ok true)

  unfoldable pub load_from : List Entry → M Iter Bool
  unfolding load_chunk
  load_from [] = lift (ok false)
  load_from (entry ∷ chunks) =
      let rest = load_from chunks in
      do
        update (λ s. record s { chunks_left = chunks })
        if leb_ℤ entry.point_count (pos 0) then rest else load_chunk entry

  unfoldable pub load_next_chunk : M Iter Bool
  unfolding load_from
  load_next_chunk = do s ← current; load_from s.chunks_left

  module _ ⦃f : Floats ℕ⦄ (bounds : Option (Bounds ℕ)) (cancel : Cancel) where
    -- `if self.decoded_points.is_multiple_of(CANCEL_POLL_STRIDE) { … }`
    unfoldable pub poll : M Iter (Unit {0})
    poll = do
      s ← current
      let checked = lift (check cancel s.polls) >> update (λ s. record s { polls = s.polls + 1 })
      if s.decoded_points % cancel_poll_stride == 0 then checked else lift (ok tt)

    -- The decompression of a record, with the counters behind it.
    unfoldable pub decompress : M Iter (List ℕ)
    decompress = do
      s ← current
      (point_buf, decoder) ← lift (decompress_one d s.decoder)
      update (λ s. record s { decoder = decoder })
      left ← lift (less_one s.current_chunk_points_left)
      update (λ s. record s { current_chunk_points_left = left })
      remaining ← lift (less_one s.remaining_candidate_points)
      update (λ s. record s { remaining_candidate_points = remaining })
      update (λ s. record s { decoded_points = s.decoded_points + 1 })
      lift (ok point_buf)

    -- The two loops of `next_inner` as one, for at most `fuel` rounds: a round loads a chunk, or takes
    -- a record of the current one.
    unfoldable pub next_inner : ℕ → M Iter (Option Point)
    unfolding load_next_chunk poll decompress
    next_inner zero = lift (fault out_of_fuel)
    next_inner (suc fuel) =
        let again = next_inner fuel in
        let load = (do loaded ← load_next_chunk; if loaded then again else lift (ok none)) in
        let take_record = (do
          poll
          point_buf ← decompress
          raw_point ← lift (ok_or (read_from point_buf) las)
          let found = lift (ok (some (new_point raw_point)))
          if accepts bounds (direct raw_point) then found else again) in
        do s ← current; if s.current_chunk_points_left == 0 then load else take_record

  -- `next`, of what `next_inner` returned; a fault of the model is passed on as an item.
  abbrev yielded : Result (Option Point) × Iter → Option (Result Point) × Iter
  yielded (ok (some point), s) = (some (ok point), s)
  yielded (ok none, s) = (none, record s { finished = true })
  yielded (err kind, s) = (some (err kind), record s { finished = true })
  yielded (fault why, s) = (some (fault why), s)

  unfoldable pub next :
      ⦃f : Floats ℕ⦄ → Option (Bounds ℕ) → Cancel → ℕ → Iter → Option (Result Point) × Iter
  unfolding next_inner
  next bounds cancel fuel s =
      if s.finished then (none, s) else yielded (next_inner bounds cancel fuel s)

  -- `size_hint`
  abbrev pub size_hint : Iter → ℕ × Option ℕ
  size_hint s =
      if s.exact_size
      then (s.remaining_candidate_points, some s.remaining_candidate_points)
      else (0, some s.remaining_candidate_points)
