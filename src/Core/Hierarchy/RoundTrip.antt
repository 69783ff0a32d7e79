-- ===== src/Core/Hierarchy/RoundTrip.antt =====
-- copc-core/src/hierarchy.rs: `write_le` and `from_le` of one hierarchy entry.
use copc_rust.Prelude.{
  ℕ, ◌+◌, ◌-◌, ◌≤◌, ◌≡◌, refl, sym, ap, ◌∙◌, arith, List, ◌++◌, append-nil, length, take, drop,
  length-drop, take_all, take-append, All, All-take, All-drop, ok, ◌>>=◌, >>=-eq-ok,
}
use copc_rust.Prelude.Int.{IsI32}
use copc_rust.Prelude.Bytes.{
  IsByte, to_le, i32_to_le, i32_from_le, length-to_le, length-i32_to_le, from_le-to_le,
  to_le-from_le, from_le-lt, i32_from_le-IsI32, i32_from_le-i32_to_le, i32_to_le-i32_from_le,
}
use copc_rust.Prelude.Slices.{drop_mid, drop_split, length_part}
use copc_rust.Core.Hierarchy.Codec.{
  IsMachine, part, decoded, entry_bytes, length-entry_bytes, write_le_lem, entry_from_le_lem,
  entry_from_le-length,
}
use copc_rust.Core.Hierarchy.{Entry, validate, write_le, entry_from_le}

part_mid :
    (src mid post : List ℕ) (from to : ℕ)
    → drop from src ≡ mid ++ post
    → length mid ≡ to - from
    → part src from to ≡ mid
part_mid src mid post from to e h = ap (take (to - from)) e ∙ take-append (to - from) mid post h

decoded-entry_bytes : (e : Entry) → IsMachine e → decoded (entry_bytes e) ≡ e
decoded-entry_bytes e m =
    let src = entry_bytes e in
    let l4 = length-i32_to_le in
    let d4 = drop_mid src (i32_to_le e.key.level) _ 0 4 refl (omega arith) (l4 e.key.level) in
    let d8 = drop_mid src (i32_to_le e.key.x) _ 4 8 d4 (omega arith) (l4 e.key.x) in
    let d12 = drop_mid src (i32_to_le e.key.y) _ 8 12 d8 (omega arith) (l4 e.key.y) in
    let d16 = drop_mid src (i32_to_le e.key.z) _ 12 16 d12 (omega arith) (l4 e.key.z) in
    let d24 = drop_mid src (to_le 8 e.offset) _ 16 24 d16 (omega arith) (length-to_le 8 e.offset) in
    let d28 = drop_mid src (i32_to_le e.byte_size) _ 24 28 d24 (omega arith) (l4 e.byte_size) in
    let d32 = d28 ∙ sym (append-nil (i32_to_le e.point_count)) in
    rw (
      part_mid src (i32_to_le e.key.level) _ 0 4 refl (l4 e.key.level),
      part_mid src (i32_to_le e.key.x) _ 4 8 d4 (l4 e.key.x),
      part_mid src (i32_to_le e.key.y) _ 8 12 d8 (l4 e.key.y),
      part_mid src (i32_to_le e.key.z) _ 12 16 d12 (l4 e.key.z),
      part_mid src (to_le 8 e.offset) _ 16 24 d16 (length-to_le 8 e.offset),
      part_mid src (i32_to_le e.byte_size) _ 24 28 d24 (l4 e.byte_size),
      part_mid src (i32_to_le e.point_count) _ 28 32 d32 (l4 e.point_count),
      i32_from_le-i32_to_le e.key.level m.level_i32,
      i32_from_le-i32_to_le e.key.x m.x_i32,
      i32_from_le-i32_to_le e.key.y m.y_i32,
      i32_from_le-i32_to_le e.key.z m.z_i32,
      from_le-to_le 8 e.offset m.offset_u64,
      i32_from_le-i32_to_le e.byte_size m.byte_size_i32,
      i32_from_le-i32_to_le e.point_count m.point_count_i32,
    )

part-IsByte : (src : List ℕ) (from to : ℕ) → All IsByte src → All IsByte (part src from to)
part-IsByte src from to h = All-take IsByte (to - from) (drop from src) (All-drop IsByte from src h)

part_i32 :
    (src : List ℕ) (from to : ℕ)
    → All IsByte src
    → from + 4 ≡ to
    → to ≤ length src
    → i32_to_le (i32_from_le (part src from to)) ≡ part src from to
part_i32 src from to h e k =
    i32_to_le-i32_from_le (part src from to) (part-IsByte src from to h)
      (length_part src from to (omega arith) k ∙ omega arith)

entry_bytes-decoded :
    (src : List ℕ) → length src ≡ 32 → All IsByte src → entry_bytes (decoded src) ≡ src
entry_bytes-decoded src h b = rw (
  part_i32 src 0 4 b refl (omega arith),
  part_i32 src 4 8 b refl (omega arith),
  part_i32 src 8 12 b refl (omega arith),
  part_i32 src 12 16 b refl (omega arith),
  to_le-from_le 8 (part src 16 24) (part-IsByte src 16 24 b)
      (length_part src 16 24 (omega arith) (omega arith)),
  part_i32 src 24 28 b refl (omega arith),
  part_i32 src 28 32 b refl (omega arith),
  take_all 4 (drop 28 src) (omega (arith, length-drop 28 src)),
  drop_split src 24 28 (omega arith),
  drop_split src 16 24 (omega arith),
  drop_split src 12 16 (omega arith),
  drop_split src 8 12 (omega arith),
  drop_split src 4 8 (omega arith),
  drop_split src 0 4 (omega arith),
)

decoded-IsMachine : (src : List ℕ) → length src ≡ 32 → All IsByte src → IsMachine (decoded src)
decoded-IsMachine src h b = record {
  level_i32 = i32 0 4 refl (omega arith);
  x_i32 = i32 4 8 refl (omega arith);
  y_i32 = i32 8 12 refl (omega arith);
  z_i32 = i32 12 16 refl (omega arith);
  offset_u64 =
      rw (length_part src 16 24 (omega arith) (omega arith)) at
        (from_le-lt (part src 16 24) (part-IsByte src 16 24 b));
  byte_size_i32 = i32 24 28 refl (omega arith);
  point_count_i32 = i32 28 32 refl (omega arith);
}
  where
    i32 : (from to : ℕ) → from + 4 ≡ to → to ≤ 32 → IsI32 (i32_from_le (part src from to))
    i32 from to e k =
        i32_from_le-IsI32 (part src from to) (part-IsByte src from to b)
          (length_part src from to (omega arith) (omega arith) ∙ omega arith)

-- A valid entry whose fields fit their types comes back from its bytes.
pub entry_from_le-write_le :
    (e : Entry) (dst : List ℕ)
    → IsMachine e
    → validate e ≡ ok tt
    → length dst ≡ 32
    → (write_le e dst >>= entry_from_le) ≡ ok e
entry_from_le-write_le e dst m v h = rw (
  write_le_lem e dst v h,
  entry_from_le_lem (entry_bytes e) (length-entry_bytes e),
  decoded-entry_bytes e m,
  v,
)

-- What an accepted entry is: the decoded one, which is valid.
pub entry_from_le_inv :
    (src : List ℕ) (e : Entry)
    → entry_from_le src ≡ ok e
    → (length src ≡ 32) × (e ≡ decoded src) × (validate e ≡ ok tt)
entry_from_le_inv src e h =
    let len = entry_from_le-length src e h in
    let (t, v, d) = >>=-eq-ok (validate (decoded src)) _ (sym (entry_from_le_lem src len) ∙ h) in
    let same : decoded src ≡ e = cc d in (len, sym same, rw (← same) v)

-- Bytes that `from_le` accepts are the bytes that `write_le` writes for their entry, whose fields
-- fit their types.
pub write_le-entry_from_le :
    (src dst : List ℕ) (e : Entry)
    → All IsByte src
    → entry_from_le src ≡ ok e
    → length dst ≡ 32
    → IsMachine e × (write_le e dst ≡ ok src)
write_le-entry_from_le src dst e b h k =
    let (len, d, v) = entry_from_le_inv src e h in
    (
      rw d (decoded-IsMachine src len b),
      write_le_lem e dst v k ∙ ap ok (ap entry_bytes d ∙ entry_bytes-decoded src len b),
    )
