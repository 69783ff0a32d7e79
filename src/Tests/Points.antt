-- ===== src/Tests/Points.antt =====
-- The reader over ranges and the iterator over points, for the two chunks of `Tests/Queries.antt`.
use copc_rust.Prelude.{
  ℕ, zero, suc, ◌+◌, ap, sym, ◌∙◌, take, drop, ◌<◌, ◌≤◌, ◌≡◌, refl, arith, List, [], ◌∷◌, Option,
  none, some, ok, Returns, IsOk, All, length, true, false, replicate,
}
use copc_rust.Core.Bounds.{Bounds}
use mathlib.Core.Path.{subst}
use copc_rust.Reader.Query.{total_candidate_points}
use copc_rust.Reader.Window.{ReadSeek, Window, new_window, set_range, seek, read}
use copc_rust.Reader.Window.SeekFrom.{from_start}
use copc_rust.Reader.Window.Inside.{IsFile, read_stays_in_chunk}
use copc_rust.Reader.Window.Inside.Reaches.{here, seeking}
use copc_rust.Reader.ChunkDecoder.{ChunkDecoding, Decoder}
use copc_rust.Reader.Iter.{Iter, new_iter, size_hint}
use copc_rust.Reader.Iter.Items.{items, ok_count, size_hint_holds}
use copc_rust.Tests.Queries.{numbers, late, early}
use copc_rust.Tests.Columns.{eight}

abbrev no_bounds : Option (Bounds ℕ)
no_bounds = none

-- A file of eight bytes with its position.
abbrev eight_source : ReadSeek
eight_source = record {
  Source = ℕ;
  seek_source = λ offset at. some offset;
  read_source = λ len at. some (take len (drop at eight), at + length (take len (drop at eight)));
}

length-take_le : {A : Type 0} (n : ℕ) (xs : List A) → length (take n xs) ≤ n
length-take_le zero xs = omega arith
length-take_le (suc n) [] = omega arith
length-take_le (suc n) (x ∷ xs) = let rest = length-take_le n xs in omega arith

take-length-take : {A : Type 0} (n : ℕ) (xs : List A) → take n xs ≡ take (length (take n xs)) xs
take-length-take zero xs = refl
take-length-take (suc n) [] = refl
take-length-take (suc n) (x ∷ xs) = ap (λ t. x ∷ t) (take-length-take n xs)

eight_source-IsFile : IsFile eight_source eight
eight_source-IsFile = record {
  at = λ s. s;
  seeks = λ offset s s' e. let same : offset ≡ s' = cc in sym same;
  reads = λ len s s' bytes e.
      let found : take len (drop s eight) ≡ bytes = cc in
      let moved : s + length (take len (drop s eight)) ≡ s' = cc in
      (
        subst (λ t. length t ≤ len) found (length-take_le len (drop s eight)),
        subst (λ t. t ≡ take (length t) (drop s eight)) found (take-length-take len (drop s eight)),
        sym moved ∙ ap (λ t. s + length t) found,
      );
}

abbrev before : Window eight_source
before = new_window eight_source 0

abbrev set : Window eight_source
set = record { source = 2; start = 2; end = 5; position = 2 }

abbrev moved : Window eight_source
moved = record set { source = 4; position = 4 }

abbrev at_end : Window eight_source
at_end = record set { source = 5; position = 5 }

is_set : set_range eight_source 2 3 before ≡ ok set
unfolding set_range
is_set = refl

is_moved : seek eight_source (from_start 4) set ≡ ok (4, moved)
unfolding seek
is_moved = refl

is_read : read eight_source 100 moved ≡ ok (7 ∷ [], at_end)
unfolding read
is_read = refl

read_stays_in_chunk_example : (2 ≤ 4) × (4 + 1 ≤ 5) × ((7 ∷ []) ≡ take 1 (drop 4 eight))
read_stays_in_chunk_example =
    read_stays_in_chunk eight_source eight eight_source-IsFile 2 3 100 (7 ∷ []) before set moved
      at_end is_set (seeking (from_start 4) 4 set set moved (here set) is_moved) is_read

-- Records of zeros, each a point.
abbrev records : ChunkDecoding eight_source
records = record {
  Decompressor = ℕ;
  new_decompressor = 0;
  reset = λ a. 0;
  configured = some 30;
  decompress_next = λ x. some (replicate 30 0, (suc x.0, x.1));
  RawPoint = ℕ;
  read_from = λ bytes. some (length bytes);
  direct = λ raw. (raw, raw, raw);
  Point = ℕ;
  new_point = λ raw. raw;
}

abbrev unmoved : Decoder records
unmoved = record { decompressor = 0; window = before; record_size = 30 }

abbrev started : Iter records
started = record {
  chunks_left = early ∷ late ∷ [];
  current_chunk_points_left = 0;
  remaining_candidate_points = 3;
  exact_size = true;
  decoder = unmoved;
  decoded_points = 0;
  polls = 0;
  finished = false;
}

is_started : new_iter records (early ∷ late ∷ []) no_bounds unmoved ≡ ok started
unfolding new_iter total_candidate_points
is_started = refl

size_hint_holds_example :
    ((size_hint records started).1 ≡ some 3)
    × All Returns (items records no_bounds none 5 started)
    × (ok_count (items records no_bounds none 5 started) ≤ 3)
    × (length (items records no_bounds none 5 started) ≤ 4)
    × (All IsOk (items records no_bounds none 5 started)
        → 3 < 5
        → ((size_hint records started).0 ≤ length (items records no_bounds none 5 started))
          × (no_bounds ≡ none → length (items records no_bounds none 5 started) ≡ 3))
size_hint_holds_example =
    size_hint_holds records no_bounds none (λ n. tt) (early ∷ late ∷ []) unmoved started 5
      is_started
