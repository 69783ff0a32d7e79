-- ===== src/Tests/Keys.antt =====
-- The keys and the entries of copc-core at concrete data.
use copc_rust.Prelude.{
  ℕ, ◌<◌, ◌≡◌, ◌≢◌, refl, sym, ap, ◌∙◌, arith, ◌↔◌, List, [], ◌∷◌, length, replicate, All, ok, err,
  Returns, invalid_data, invalid_input, ◌>>=◌, ◌%◌,
}
use copc_rust.Prelude.Int.{pos, negsuc}
use copc_rust.Prelude.Bytes.{to_le, i32_to_le, to_word32}
use copc_rust.Core.Key
use copc_rust.Core.Key.Tree.{voxel, IsKey, validate_iff, child-voxel, child_refuses}
use copc_rust.Core.Hierarchy
use copc_rust.Core.Hierarchy.{
  Entry, write_le, entry_from_le, page_write_le_bytes, page_from_le_bytes, HierarchyPage,
}
use copc_rust.Core.Hierarchy.Validity.{IsSized, Entry-validate_iff}
use copc_rust.Core.Hierarchy.Codec.{IsMachine, entry_bytes, write_le_lem}
use copc_rust.Core.Hierarchy.RoundTrip.{entry_from_le-write_le, write_le-entry_from_le}
use copc_rust.Core.Hierarchy.Page.{
  IsEntry, page_from_le_bytes-page_write_le_bytes, page_write_le_bytes-page_from_le_bytes,
  page_from_le_bytes_total, page_bytes, page_from_le_bytes-page_bytes,
}

abbrev pub sample : Entry
sample = record { key = voxel 2 3 0 1; offset = 32; byte_size = pos 8; point_count = pos 9 }

abbrev pub child_pointer : Entry
child_pointer = record {
  key = voxel 1 1 0 0;
  offset = 0;
  byte_size = pos 32;
  point_count = negsuc 0;
}

sample-IsKey : IsKey (voxel 2 3 0 1)
sample-IsKey = ground arith

pub sample-IsEntry : IsEntry sample
sample-IsEntry = (ground arith, (Entry-validate_iff sample).1 (sample-IsKey, ground arith))

pub child_pointer-IsEntry : IsEntry child_pointer
child_pointer-IsEntry =
    (ground arith, (Entry-validate_iff child_pointer).1 (ground arith, ground arith))

validate_iff_example : (Key.validate (voxel 1 1 0 1) ≡ ok tt) ↔ IsKey (voxel 1 1 0 1)
validate_iff_example = validate_iff (voxel 1 1 0 1)

child-voxel_example : Key.child (voxel 2 3 0 1) 5 ≡ ok (voxel 3 7 0 3)
child-voxel_example =
    child-voxel 2 3 0 1 (omega arith) (omega arith) (omega arith) (omega arith) 5 (omega arith)

child_refuses_example :
    (¬ IsKey (voxel 2 3 0 1) → Key.child (voxel 2 3 0 1) 8 ≡ err invalid_data)
    × (IsKey (voxel 2 3 0 1) → 7 < 8 → Key.child (voxel 2 3 0 1) 8 ≡ err invalid_input)
child_refuses_example = child_refuses (voxel 2 3 0 1) 8

Entry-validate_iff_example :
    (Hierarchy.validate sample ≡ ok tt) ↔ (IsKey sample.key × IsSized sample)
Entry-validate_iff_example = Entry-validate_iff sample

entry_from_le-write_le_example : (write_le sample (replicate 32 7) >>= entry_from_le) ≡ ok sample
entry_from_le-write_le_example =
    entry_from_le-write_le sample (replicate 32 7) sample-IsEntry.0 sample-IsEntry.1 refl

abbrev pub sample_bytes : List ℕ
sample_bytes =
    2 ∷ 0 ∷ 0 ∷ 0 ∷ 3 ∷ 0 ∷ 0 ∷ 0 ∷ 0 ∷ 0 ∷ 0 ∷ 0 ∷ 1 ∷ 0 ∷ 0 ∷ 0 ∷ 32 ∷ 0 ∷ 0 ∷ 0 ∷ 0 ∷ 0 ∷ 0 ∷ 0
    ∷ 8 ∷ 0 ∷ 0 ∷ 0 ∷ 9 ∷ 0 ∷ 0 ∷ 0 ∷ []

sample-entry_bytes : entry_bytes sample ≡ sample_bytes
unfolding to_le i32_to_le to_word32
sample-entry_bytes = refl

sample_read : entry_from_le sample_bytes ≡ ok sample
sample_read =
    rw (write_le_lem sample (replicate 32 7) sample-IsEntry.1 refl, sample-entry_bytes) at
      entry_from_le-write_le_example

write_le-entry_from_le_example :
    IsMachine sample × (write_le sample (replicate 32 0) ≡ ok sample_bytes)
write_le-entry_from_le_example =
    write_le-entry_from_le sample_bytes (replicate 32 0) sample (ground arith) sample_read refl

page_from_le_bytes-page_write_le_bytes_example :
    (page_write_le_bytes (sample ∷ child_pointer ∷ []) >>= page_from_le_bytes)
    ≡ ok (sample ∷ child_pointer ∷ [])
page_from_le_bytes-page_write_le_bytes_example =
    page_from_le_bytes-page_write_le_bytes (sample ∷ child_pointer ∷ [])
      (sample-IsEntry, (child_pointer-IsEntry, tt)) (omega arith)

page_bytes-sample : page_bytes (sample ∷ []) ≡ sample_bytes
unfolding to_le i32_to_le to_word32
page_bytes-sample = refl

pub page_read : page_from_le_bytes sample_bytes ≡ ok (sample ∷ [])
page_read =
    ap page_from_le_bytes (sym page_bytes-sample)
    ∙ page_from_le_bytes-page_bytes (sample ∷ []) (sample-IsEntry, tt)

page_write_le_bytes-page_from_le_bytes_example :
    All IsEntry (sample ∷ []) × (page_write_le_bytes (sample ∷ []) ≡ ok sample_bytes)
page_write_le_bytes-page_from_le_bytes_example =
    page_write_le_bytes-page_from_le_bytes sample_bytes (sample ∷ []) (ground arith) (omega arith)
      page_read

page_from_le_bytes_total_example :
    Returns (page_from_le_bytes (replicate {A = ℕ} 40 0))
    × (length (replicate {A = ℕ} 40 0) % 32 ≢ 0
        → page_from_le_bytes (replicate {A = ℕ} 40 0) ≡ err invalid_data)
page_from_le_bytes_total_example = page_from_le_bytes_total (replicate {A = ℕ} 40 0)
