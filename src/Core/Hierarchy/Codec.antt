-- ===== src/Core/Hierarchy/Codec.antt =====
-- The bytes of one hierarchy entry: what `write_le` writes and `from_le` reads.
use copc_rust.Prelude.{
  ℕ, ◌+◌, ◌-◌, ◌≤◌, ◌≡◌, refl, ap, arith, inl, inr, ◌==◌, List, [], ◌++◌, append-nil, append_assoc,
  length, take, drop, length-append, drop_all, ok, ◌>>◌, ≡→==, ==→≡, Bool-cases,
}
use copc_rust.Prelude.Int.{ℤ, IsI32}
use copc_rust.Prelude.Bytes.{
  IsU64, to_le, from_le, i32_to_le, i32_from_le, length-to_le, length-i32_to_le,
}
use copc_rust.Prelude.Slices.{copy_from_slice, slice_lem, copy_behind}
use copc_rust.Core.Hierarchy.{Entry, validate, write_le, entry_from_le}

-- The fields fit their machine types.
pub record IsMachine (e : Entry) : Type 0 where
  pub level_i32 : IsI32 e.key.level
  pub x_i32 : IsI32 e.key.x
  pub y_i32 : IsI32 e.key.y
  pub z_i32 : IsI32 e.key.z
  pub offset_u64 : IsU64 e.offset
  pub byte_size_i32 : IsI32 e.byte_size
  pub point_count_i32 : IsI32 e.point_count

-- The layout of an entry.
abbrev pub entry_bytes : Entry → List ℕ
entry_bytes e =
    i32_to_le e.key.level
    ++ (i32_to_le e.key.x
        ++ (i32_to_le e.key.y
            ++ (i32_to_le e.key.z
                ++ (to_le 8 e.offset ++ (i32_to_le e.byte_size ++ i32_to_le e.point_count)))))

pub length-entry_bytes : (e : Entry) → length (entry_bytes e) ≡ 32
length-entry_bytes e = simp (length-append, length-i32_to_le, length-to_le)

abbrev layout_steps : List ℕ → Entry → List ℕ
layout_steps dst e =
    ((((((i32_to_le e.key.level ++ i32_to_le e.key.x) ++ i32_to_le e.key.y) ++ i32_to_le e.key.z)
          ++ to_le 8 e.offset)
        ++ i32_to_le e.byte_size)
      ++ i32_to_le e.point_count)
    ++ drop 32 dst

layout-steps : (dst : List ℕ) (e : Entry) → length dst ≡ 32 → layout_steps dst e ≡ entry_bytes e
layout-steps dst e h = rw (drop_all 32 dst (omega arith)) (simp (append_assoc, append-nil))

copy_i32 :
    (orig done : List ℕ) (z : ℤ) (from to : ℕ)
    → length done ≡ from
    → from + 4 ≡ to
    → to ≤ length orig
    → copy_from_slice (done ++ drop from orig) from to (i32_to_le z)
      ≡ ok ((done ++ i32_to_le z) ++ drop to orig)
copy_i32 orig done z from to h e k =
    copy_behind orig done (i32_to_le z) from to h (rw (length-i32_to_le z) e) k

ruleset lengths = (length-append, length-i32_to_le, length-to_le)

-- `write_le` writes the layout of a valid entry over the whole destination.
pub write_le_lem :
    (e : Entry) (dst : List ℕ)
    → validate e ≡ ok tt
    → length dst ≡ 32
    → write_le e dst ≡ ok (entry_bytes e)
unfolding write_le
write_le_lem e dst v h =
    let l = i32_to_le e.key.level in
    let x = i32_to_le e.key.x in
    let y = i32_to_le e.key.y in
    let z = i32_to_le e.key.z in
    let o = to_le 8 e.offset in
    let b = i32_to_le e.byte_size in
    rw
      (
        v,
        ≡→== (length dst) 32 h,
        copy_i32 dst [] e.key.level 0 4 refl refl (omega arith),
        copy_i32 dst l e.key.x 4 8 (simp lengths) refl (omega arith),
        copy_i32 dst (l ++ x) e.key.y 8 12 (simp lengths) refl (omega arith),
        copy_i32 dst ((l ++ x) ++ y) e.key.z 12 16 (simp lengths) refl (omega arith),
        copy_behind dst (((l ++ x) ++ y) ++ z) o 16 24 (simp lengths) (simp lengths) (omega arith),
        copy_i32 dst ((((l ++ x) ++ y) ++ z) ++ o) e.byte_size 24 28 (simp lengths) refl
            (omega arith),
        copy_i32 dst (((((l ++ x) ++ y) ++ z) ++ o) ++ b) e.point_count 28 32 (simp lengths) refl
            (omega arith),
      )
      (ap ok (layout-steps dst e h))

-- The entry that 32 bytes stand for, valid or not.
abbrev pub part : List ℕ → ℕ → ℕ → List ℕ
part src from to = take (to - from) (drop from src)

abbrev pub decoded : List ℕ → Entry
decoded src = record {
  key = record {
    level = i32_from_le (part src 0 4);
    x = i32_from_le (part src 4 8);
    y = i32_from_le (part src 8 12);
    z = i32_from_le (part src 12 16);
  };
  offset = from_le (part src 16 24);
  byte_size = i32_from_le (part src 24 28);
  point_count = i32_from_le (part src 28 32);
}

-- On 32 bytes `from_le` never panics: it answers with the decoded entry if that is valid.
pub entry_from_le_lem :
    (src : List ℕ)
    → length src ≡ 32
    → entry_from_le src ≡ (validate (decoded src) >> ok (decoded src))
unfolding entry_from_le
entry_from_le_lem src h = rw (
  ≡→== (length src) 32 h,
  slice_lem src 0 4 (omega arith) (omega arith),
  slice_lem src 4 8 (omega arith) (omega arith),
  slice_lem src 8 12 (omega arith) (omega arith),
  slice_lem src 12 16 (omega arith) (omega arith),
  slice_lem src 16 24 (omega arith) (omega arith),
  slice_lem src 24 28 (omega arith) (omega arith),
  slice_lem src 28 32 (omega arith) (omega arith),
)

pub entry_from_le-length : (src : List ℕ) (e : Entry) → entry_from_le src ≡ ok e → length src ≡ 32
unfolding entry_from_le
entry_from_le-length src e h = elim (Bool-cases (length src == 32)) [
  | inl is ↦ ==→≡ (length src) 32 is
  | inr other ↦ cc (rw other at h)
]
