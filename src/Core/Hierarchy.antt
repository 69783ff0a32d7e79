-- ===== src/Core/Hierarchy.antt =====
-- copc-core/src/hierarchy.rs: the 32-byte hierarchy entry and the hierarchy page.
pub mod Validity
pub mod Codec
pub mod RoundTrip
pub mod Page
use copc_rust.Prelude.{
  ℕ, zero, suc, ◌+◌, ◌*◌, ◌/◌, ◌%◌, ◌^◌, ◌≡◌, refl, Bool, true, false, ◌&&◌, ◌||◌, not, List, [],
  ◌∷◌, ◌++◌, some, none, ltb, leb, ◌==◌, if◌then◌else◌, length, take, drop, replicate, Result, ok,
  err, fault, panic, invalid_input, invalid_data, reject_if, ok_or, ◌>>=◌, ◌>>◌,
}
use copc_rust.Prelude.Int.{ℤ, pos, negsuc, ltb_ℤ, leb_ℤ, eqb_ℤ, to_unsigned}
use copc_rust.Prelude.Bytes.{to_le, from_le, i32_to_le, i32_from_le}
use copc_rust.Prelude.Slices.{slice, copy_from_slice}
use copc_rust.Core.Key
use copc_rust.Core.Key.{VoxelKey}

abbrev pub hierarchy_entry_bytes : ℕ
hierarchy_entry_bytes = 32

pub record Entry : Type 0 where
  pub key : VoxelKey
  pub offset : ℕ
  pub byte_size : ℤ
  pub point_count : ℤ

pub data EntryAvailability : Type 0 where
  empty : EntryAvailability
  point_data : ℕ → EntryAvailability
  child_page : EntryAvailability

-- The match of `availability`, on the point count. `u32::try_from` cannot fail on a positive `i32`.
availability_of : ℤ → Result EntryAvailability
availability_of (negsuc zero) = ok child_page
availability_of (negsuc (suc n)) = err invalid_data
availability_of (pos zero) = ok empty
availability_of (pos (suc n)) = ok (point_data (suc n))

unfoldable pub availability : Entry → Result EntryAvailability
unfolding availability_of
availability e = availability_of e.point_count

unfoldable pub has_point_data : Entry → Bool
has_point_data e = ltb_ℤ (pos 0) e.point_count

unfoldable pub is_empty : Entry → Bool
is_empty e = eqb_ℤ e.point_count (pos 0)

unfoldable pub is_child_page : Entry → Bool
is_child_page e = eqb_ℤ e.point_count (negsuc 0)

validate_for : Entry → EntryAvailability → Result (Unit {0})
validate_for e empty =
    reject_if (not (e.offset == 0) || not (eqb_ℤ e.byte_size (pos 0))) invalid_data
validate_for e (point_data n) = reject_if (leb_ℤ e.byte_size (pos 0)) invalid_data
validate_for e child_page = reject_if (leb_ℤ e.byte_size (pos 0)) invalid_data

pub validate : Entry → Result (Unit {0})
unfolding validate_for availability
validate e = do Key.validate e.key; a ← availability e; validate_for e a

-- Returns the destination after the seven copies.
pub write_le : Entry → List ℕ → Result (List ℕ)
write_le e dst = do
  validate e
  reject_if (not (length dst == hierarchy_entry_bytes)) invalid_input
  dst ← copy_from_slice dst 0 4 (i32_to_le e.key.level)
  dst ← copy_from_slice dst 4 8 (i32_to_le e.key.x)
  dst ← copy_from_slice dst 8 12 (i32_to_le e.key.y)
  dst ← copy_from_slice dst 12 16 (i32_to_le e.key.z)
  dst ← copy_from_slice dst 16 24 (to_le 8 e.offset)
  dst ← copy_from_slice dst 24 28 (i32_to_le e.byte_size)
  copy_from_slice dst 28 32 (i32_to_le e.point_count)

pub entry_from_le : List ℕ → Result Entry
entry_from_le src = do
  reject_if (not (length src == hierarchy_entry_bytes)) invalid_data
  level ← slice src 0 4
  x ← slice src 4 8
  y ← slice src 8 12
  z ← slice src 12 16
  offset ← slice src 16 24
  byte_size ← slice src 24 28
  point_count ← slice src 28 32
  let key : VoxelKey = record {
    level = i32_from_le level;
    x = i32_from_le x;
    y = i32_from_le y;
    z = i32_from_le z;
  }
  let entry : Entry = record {
    key = key;
    offset = from_le offset;
    byte_size = i32_from_le byte_size;
    point_count = i32_from_le point_count;
  }
  validate entry
  ok entry

-- `HierarchyPage` holds its entries.
abbrev pub HierarchyPage : Type 0
HierarchyPage = List Entry

-- `chunks_exact(32)` on the bytes of `n` entries, each read by `Entry::from_le`.
entries_from_le : ℕ → List ℕ → Result (List Entry)
entries_from_le zero bytes = ok []
entries_from_le (suc n) bytes = do
  entry ← entry_from_le (take hierarchy_entry_bytes bytes)
  rest ← entries_from_le n (drop hierarchy_entry_bytes bytes)
  ok (entry ∷ rest)

pub page_from_le_bytes : List ℕ → Result HierarchyPage
page_from_le_bytes bytes = do
  reject_if (not (length bytes % hierarchy_entry_bytes == 0)) invalid_data
  entries_from_le (length bytes / hierarchy_entry_bytes) bytes

-- Each entry is written over its own chunk of 32 zero bytes.
entries_write_le : List Entry → Result (List ℕ)
entries_write_le [] = ok []
entries_write_le (e ∷ es) = do
  chunk ← write_le e (replicate hierarchy_entry_bytes 0)
  rest ← entries_write_le es
  ok (chunk ++ rest)

-- `usize` has 64 bits.
pub page_write_le_bytes : HierarchyPage → Result (List ℕ)
page_write_le_bytes page = do
  reject_if (leb (2 ^ 64) (length page * hierarchy_entry_bytes)) invalid_input
  entries_write_le page
