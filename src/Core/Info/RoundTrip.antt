-- ===== src/Core/Info/RoundTrip.antt =====
-- copc-core/src/info.rs: `write_le_bytes` and `from_le_bytes` of an info.
use copc_rust.Prelude.{
  ℕ, ◌+◌, ◌^◌, ◌<◌, ◌≤◌, ◌≡◌, refl, arith, List, [], ◌++◌, append_assoc, length, length-append,
  drop, replicate, ok, ◌>>=◌, ≡→==, false,
}
use copc_rust.Prelude.Bytes.{to_le, length-to_le, from_le-to_le}
use copc_rust.Prelude.Slices.{copy_behind, slice_mid, drop_mid}
use copc_rust.Core.Info.{
  CopcInfo, validate, read_at, write_at, any_set, from_le_bytes, write_le_bytes,
}

-- The fields fit 64 bits.
pub record IsU64Info (info : CopcInfo) : Type 0 where
  pub x : info.center.0 < 2 ^ 64
  pub y : info.center.1 < 2 ^ 64
  pub z : info.center.2 < 2 ^ 64
  pub halfsize_u64 : info.halfsize < 2 ^ 64
  pub spacing_u64 : info.spacing < 2 ^ 64
  pub offset_u64 : info.root_hier_offset < 2 ^ 64
  pub size_u64 : info.root_hier_size < 2 ^ 64
  pub min_u64 : info.gpstime_min < 2 ^ 64
  pub max_u64 : info.gpstime_max < 2 ^ 64

abbrev pub info_bytes : CopcInfo → List ℕ
info_bytes info =
    to_le 8 info.center.0
    ++ (to_le 8 info.center.1
        ++ (to_le 8 info.center.2
            ++ (to_le 8 info.halfsize
                ++ (to_le 8 info.spacing
                    ++ (to_le 8 info.root_hier_offset
                        ++ (to_le 8 info.root_hier_size
                            ++ (to_le 8 info.gpstime_min
                                ++ (to_le 8 info.gpstime_max ++ replicate 88 0))))))))

after_eight : (done : List ℕ) (v n : ℕ) → length done ≡ n → length (done ++ to_le 8 v) ≡ n + 8
after_eight done v n h = omega (arith, h, length-append done (to_le 8 v), length-to_le 8 v)

abbrev blank : List ℕ
blank = replicate 160 0

step :
    (done : List ℕ) (v n : ℕ)
    → length done ≡ n
    → n + 8 ≤ 160
    → write_at (done ++ drop n blank) n v ≡ ok ((done ++ to_le 8 v) ++ drop (n + 8) blank)
unfolding write_at
step done v n h fits =
    copy_behind blank done (to_le 8 v) n (n + 8) h (omega (arith, length-to_le 8 v)) fits

write_le_bytes_lem :
    (info : CopcInfo) → validate info ≡ ok tt → write_le_bytes info ≡ ok (info_bytes info)
unfolding write_le_bytes
write_le_bytes_lem info v =
    let d1 = [] ++ to_le 8 info.center.0 in
    let l1 : length d1 ≡ 8 = after_eight [] info.center.0 0 refl in
    let d2 = d1 ++ to_le 8 info.center.1 in
    let l2 : length d2 ≡ 16 = after_eight d1 info.center.1 8 l1 in
    let d3 = d2 ++ to_le 8 info.center.2 in
    let l3 : length d3 ≡ 24 = after_eight d2 info.center.2 16 l2 in
    let d4 = d3 ++ to_le 8 info.halfsize in
    let l4 : length d4 ≡ 32 = after_eight d3 info.halfsize 24 l3 in
    let d5 = d4 ++ to_le 8 info.spacing in
    let l5 : length d5 ≡ 40 = after_eight d4 info.spacing 32 l4 in
    let d6 = d5 ++ to_le 8 info.root_hier_offset in
    let l6 : length d6 ≡ 48 = after_eight d5 info.root_hier_offset 40 l5 in
    let d7 = d6 ++ to_le 8 info.root_hier_size in
    let l7 : length d7 ≡ 56 = after_eight d6 info.root_hier_size 48 l6 in
    let d8 = d7 ++ to_le 8 info.gpstime_min in
    let l8 : length d8 ≡ 64 = after_eight d7 info.gpstime_min 56 l7 in
    let d9 = d8 ++ to_le 8 info.gpstime_max in
    let l9 : length d9 ≡ 72 = after_eight d8 info.gpstime_max 64 l8 in
    rw
      (
        v,
        step [] info.center.0 0 refl (omega arith),
        step d1 info.center.1 8 l1 (omega arith),
        step d2 info.center.2 16 l2 (omega arith),
        step d3 info.halfsize 24 l3 (omega arith),
        step d4 info.spacing 32 l4 (omega arith),
        step d5 info.root_hier_offset 40 l5 (omega arith),
        step d6 info.root_hier_size 48 l6 (omega arith),
        step d7 info.gpstime_min 56 l7 (omega arith),
        step d8 info.gpstime_max 64 l8 (omega arith),
        append_assoc d8 (to_le 8 info.gpstime_max),
        append_assoc d7 (to_le 8 info.gpstime_min),
        append_assoc d6 (to_le 8 info.root_hier_size),
        append_assoc d5 (to_le 8 info.root_hier_offset),
        append_assoc d4 (to_le 8 info.spacing),
        append_assoc d3 (to_le 8 info.halfsize),
        append_assoc d2 (to_le 8 info.center.2),
        append_assoc d1 (to_le 8 info.center.1),
      )
      refl

behind : (src post : List ℕ) (v n : ℕ) → drop n src ≡ to_le 8 v ++ post → drop (n + 8) src ≡ post
behind src post v n h =
    drop_mid src (to_le 8 v) post n (n + 8) h (omega arith) (omega (arith, length-to_le 8 v))

read_lem :
    (src post : List ℕ) (v n : ℕ)
    → drop n src ≡ to_le 8 v ++ post
    → n + 8 ≤ length src
    → v < 2 ^ 64
    → read_at src n ≡ ok v
unfolding read_at
read_lem src post v n h inside small = rw (
  slice_mid src (to_le 8 v) post n (n + 8) h (omega arith) inside (omega (arith, length-to_le 8 v)),
  from_le-to_le 8 v small,
)

pub from_le_bytes-info_bytes :
    (info : CopcInfo)
    → IsU64Info info
    → validate info ≡ ok tt
    → from_le_bytes (info_bytes info) ≡ ok info
unfolding from_le_bytes
from_le_bytes-info_bytes info m v =
    let src = info_bytes info in
    let size : length src ≡ 160 = simp (length-append, length-to_le) in
    let h1 : drop 8 src ≡ (
        to_le 8 info.center.1
        ++ (to_le 8 info.center.2
            ++ (to_le 8 info.halfsize
                ++ (to_le 8 info.spacing
                    ++ (to_le 8 info.root_hier_offset
                        ++ (to_le 8 info.root_hier_size
                            ++ (to_le 8 info.gpstime_min
                                ++ (to_le 8 info.gpstime_max ++ replicate 88 0)))))))) =
      behind src
        ((to_le 8 info.center.1
          ++ (to_le 8 info.center.2
              ++ (to_le 8 info.halfsize
                  ++ (to_le 8 info.spacing
                      ++ (to_le 8 info.root_hier_offset
                          ++ (to_le 8 info.root_hier_size
                              ++ (to_le 8 info.gpstime_min
                                  ++ (to_le 8 info.gpstime_max ++ replicate 88 0)))))))))
        info.center.0 0 refl in
    let h2 : drop 16 src ≡ (
        to_le 8 info.center.2
        ++ (to_le 8 info.halfsize
            ++ (to_le 8 info.spacing
                ++ (to_le 8 info.root_hier_offset
                    ++ (to_le 8 info.root_hier_size
                        ++ (to_le 8 info.gpstime_min
                            ++ (to_le 8 info.gpstime_max ++ replicate 88 0))))))) =
      behind src
        ((to_le 8 info.center.2
          ++ (to_le 8 info.halfsize
              ++ (to_le 8 info.spacing
                  ++ (to_le 8 info.root_hier_offset
                      ++ (to_le 8 info.root_hier_size
                          ++ (to_le 8 info.gpstime_min
                              ++ (to_le 8 info.gpstime_max ++ replicate 88 0))))))))
        info.center.1 8 h1 in
    let h3 : drop 24 src ≡ (
        to_le 8 info.halfsize
        ++ (to_le 8 info.spacing
            ++ (to_le 8 info.root_hier_offset
                ++ (to_le 8 info.root_hier_size
                    ++ (to_le 8 info.gpstime_min
                        ++ (to_le 8 info.gpstime_max ++ replicate 88 0)))))) =
      behind src
        ((to_le 8 info.halfsize
          ++ (to_le 8 info.spacing
              ++ (to_le 8 info.root_hier_offset
                  ++ (to_le 8 info.root_hier_size
                      ++ (to_le 8 info.gpstime_min
                          ++ (to_le 8 info.gpstime_max ++ replicate 88 0)))))))
        info.center.2 16 h2 in
    let h4 : drop 32 src ≡ (
        to_le 8 info.spacing
        ++ (to_le 8 info.root_hier_offset
            ++ (to_le 8 info.root_hier_size
                ++ (to_le 8 info.gpstime_min ++ (to_le 8 info.gpstime_max ++ replicate 88 0))))) =
      behind src
        ((to_le 8 info.spacing
          ++ (to_le 8 info.root_hier_offset
              ++ (to_le 8 info.root_hier_size
                  ++ (to_le 8 info.gpstime_min ++ (to_le 8 info.gpstime_max ++ replicate 88 0))))))
        info.halfsize 24 h3 in
    let h5 : drop 40 src ≡ (
        to_le 8 info.root_hier_offset
        ++ (to_le 8 info.root_hier_size
            ++ (to_le 8 info.gpstime_min ++ (to_le 8 info.gpstime_max ++ replicate 88 0)))) =
      behind src
        ((to_le 8 info.root_hier_offset
          ++ (to_le 8 info.root_hier_size
              ++ (to_le 8 info.gpstime_min ++ (to_le 8 info.gpstime_max ++ replicate 88 0)))))
        info.spacing 32 h4 in
    let h6 : drop 48 src ≡ (
        to_le 8 info.root_hier_size
        ++ (to_le 8 info.gpstime_min ++ (to_le 8 info.gpstime_max ++ replicate 88 0))) =
      behind src
        ((to_le 8 info.root_hier_size
          ++ (to_le 8 info.gpstime_min ++ (to_le 8 info.gpstime_max ++ replicate 88 0))))
        info.root_hier_offset 40 h5 in
    let h7 : drop 56 src
        ≡ (to_le 8 info.gpstime_min ++ (to_le 8 info.gpstime_max ++ replicate 88 0)) =
      behind src ((to_le 8 info.gpstime_min ++ (to_le 8 info.gpstime_max ++ replicate 88 0)))
        info.root_hier_size 48 h6 in
    let h8 : drop 64 src ≡ (to_le 8 info.gpstime_max ++ replicate 88 0) =
      behind src ((to_le 8 info.gpstime_max ++ replicate 88 0)) info.gpstime_min 56 h7 in
    let h9 : drop 72 src ≡ replicate 88 0 = behind src (replicate 88 0) info.gpstime_max 64 h8 in
    let reserved : any_set (drop 72 src) ≡ false = rw h9 refl in
    rw (
      ≡→== (length src) 160 size,
      reserved,
      read_lem src
          ((to_le 8 info.center.1
            ++ (to_le 8 info.center.2
                ++ (to_le 8 info.halfsize
                    ++ (to_le 8 info.spacing
                        ++ (to_le 8 info.root_hier_offset
                            ++ (to_le 8 info.root_hier_size
                                ++ (to_le 8 info.gpstime_min
                                    ++ (to_le 8 info.gpstime_max ++ replicate 88 0)))))))))
          info.center.0 0 refl (omega (arith, size)) m.x,
      read_lem src
          ((to_le 8 info.center.2
            ++ (to_le 8 info.halfsize
                ++ (to_le 8 info.spacing
                    ++ (to_le 8 info.root_hier_offset
                        ++ (to_le 8 info.root_hier_size
                            ++ (to_le 8 info.gpstime_min
                                ++ (to_le 8 info.gpstime_max ++ replicate 88 0))))))))
          info.center.1 8 h1 (omega (arith, size)) m.y,
      read_lem src
          ((to_le 8 info.halfsize
            ++ (to_le 8 info.spacing
                ++ (to_le 8 info.root_hier_offset
                    ++ (to_le 8 info.root_hier_size
                        ++ (to_le 8 info.gpstime_min
                            ++ (to_le 8 info.gpstime_max ++ replicate 88 0)))))))
          info.center.2 16 h2 (omega (arith, size)) m.z,
      read_lem src
          ((to_le 8 info.spacing
            ++ (to_le 8 info.root_hier_offset
                ++ (to_le 8 info.root_hier_size
                    ++ (to_le 8 info.gpstime_min
                        ++ (to_le 8 info.gpstime_max ++ replicate 88 0))))))
          info.halfsize 24 h3 (omega (arith, size)) m.halfsize_u64,
      read_lem src
          ((to_le 8 info.root_hier_offset
            ++ (to_le 8 info.root_hier_size
                ++ (to_le 8 info.gpstime_min ++ (to_le 8 info.gpstime_max ++ replicate 88 0)))))
          info.spacing 32 h4 (omega (arith, size)) m.spacing_u64,
      read_lem src
          ((to_le 8 info.root_hier_size
            ++ (to_le 8 info.gpstime_min ++ (to_le 8 info.gpstime_max ++ replicate 88 0))))
          info.root_hier_offset 40 h5 (omega (arith, size)) m.offset_u64,
      read_lem src ((to_le 8 info.gpstime_min ++ (to_le 8 info.gpstime_max ++ replicate 88 0)))
          info.root_hier_size 48 h6 (omega (arith, size)) m.size_u64,
      read_lem src ((to_le 8 info.gpstime_max ++ replicate 88 0)) info.gpstime_min 56 h7
          (omega (arith, size)) m.min_u64,
      read_lem src (replicate 88 0) info.gpstime_max 64 h8 (omega (arith, size)) m.max_u64,
      v,
    )

-- A valid info VLR whose fields fit 64 bits is written, and comes back from its 160 bytes.
pub from_le_bytes-write_le_bytes :
    (info : CopcInfo)
    → IsU64Info info
    → validate info ≡ ok tt
    → (write_le_bytes info >>= from_le_bytes) ≡ ok info
from_le_bytes-write_le_bytes info m v =
    rw (write_le_bytes_lem info v) (from_le_bytes-info_bytes info m v)
