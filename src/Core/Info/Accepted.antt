-- ===== src/Core/Info/Accepted.antt =====
-- copc-core/src/info.rs: which bytes `CopcInfo::from_le_bytes` accepts.
use mathlib.Core.Path.{subst}
use copc_rust.Prelude.{
  ℕ, ◌+◌, ◌-◌, ◌≤◌, ◌≡◌, ◌==◌, ◌↔◌, refl, sym, ap, ◌∙◌, arith, List, [], ◌∷◌, ◌++◌, All, All-take,
  All-drop, length, length-drop, take, drop, replicate, not, false, ok, reject_if, reject_if-ok,
  invalid_data, >>=-eq-ok, ◌>>◌, ≡→==,
}
use copc_rust.Prelude.Bytes.{IsByte, IsU64, to_le, from_le, to_le-from_le, from_le-lt}
use copc_rust.Prelude.Slices.{slice_lem, drop_split, length_part}
use copc_rust.Core.Info.{CopcInfo, validate, read_at, any_set, from_le_bytes}
use copc_rust.Core.Info.RoundTrip.{IsU64Info, info_bytes, from_le_bytes-info_bytes}
use copc_rust.Core.Info.Valid.{IsInfo, validate-IsInfo, IsInfo-validate}

abbrev word : List ℕ → ℕ → List ℕ
word bytes offset = take (offset + 8 - offset) (drop offset bytes)

read_at_lem :
    (bytes : List ℕ) (offset : ℕ)
    → offset + 8 ≤ length bytes
    → read_at bytes offset ≡ ok (from_le (word bytes offset))
unfolding read_at
read_at_lem bytes offset h = rw (slice_lem bytes offset (offset + 8) (omega arith) h) refl

-- The info that 160 bytes stand for, valid or not.
abbrev info_at : List ℕ → CopcInfo
info_at bytes = record {
  center = (from_le (word bytes 0), from_le (word bytes 8), from_le (word bytes 16));
  halfsize = from_le (word bytes 24);
  spacing = from_le (word bytes 32);
  root_hier_offset = from_le (word bytes 40);
  root_hier_size = from_le (word bytes 48);
  gpstime_min = from_le (word bytes 56);
  gpstime_max = from_le (word bytes 64);
}

from_le_bytes_lem :
    (bytes : List ℕ)
    → length bytes ≡ 160
    → any_set (drop 72 bytes) ≡ false
    → from_le_bytes bytes ≡ (validate (info_at bytes) >> ok (info_at bytes))
unfolding from_le_bytes
from_le_bytes_lem bytes h reserved =
    rw
      (
        ≡→== (length bytes) 160 h,
        reserved,
        read_at_lem bytes 0 (omega arith),
        read_at_lem bytes 8 (omega arith),
        read_at_lem bytes 16 (omega arith),
        read_at_lem bytes 24 (omega arith),
        read_at_lem bytes 32 (omega arith),
        read_at_lem bytes 40 (omega arith),
        read_at_lem bytes 48 (omega arith),
        read_at_lem bytes 56 (omega arith),
        read_at_lem bytes 64 (omega arith),
      )
      refl

exact_length : (n : ℕ) → not (n == 160) ≡ false → n ≡ 160
exact_length n h = ground arith

none_set : (bytes : List ℕ) → any_set bytes ≡ false → bytes ≡ replicate (length bytes) 0
none_set [] h = refl
none_set (b ∷ bytes) h =
    let zero_first : b ≡ 0 = ground arith in
    let zero_rest : any_set bytes ≡ false = ground arith in
    rw zero_first (ap (λ t. 0 ∷ t) (none_set bytes zero_rest))

word_bytes :
    (bytes : List ℕ) (offset : ℕ)
    → All IsByte bytes
    → offset + 8 ≤ length bytes
    → to_le 8 (from_le (word bytes offset)) ≡ word bytes offset
word_bytes bytes offset b h =
    to_le-from_le 8 (word bytes offset)
      (All-take IsByte (offset + 8 - offset) (drop offset bytes) (All-drop IsByte offset bytes b))
      (length_part bytes offset (offset + 8) (omega arith) h ∙ omega arith)

word-IsU64 :
    (bytes : List ℕ) (offset : ℕ)
    → All IsByte bytes
    → offset + 8 ≤ length bytes
    → IsU64 (from_le (word bytes offset))
word-IsU64 bytes offset b h =
    let size : length (word bytes offset) ≡ 8 =
      length_part bytes offset (offset + 8) (omega arith) h ∙ omega arith in
    rw size at (
      from_le-lt (word bytes offset) (
        All-take IsByte (offset + 8 - offset) (drop offset bytes) (All-drop IsByte offset bytes b)))

info_at-IsU64Info :
    (bytes : List ℕ) → length bytes ≡ 160 → All IsByte bytes → IsU64Info (info_at bytes)
info_at-IsU64Info bytes h b = record {
  x = word-IsU64 bytes 0 b (omega arith);
  y = word-IsU64 bytes 8 b (omega arith);
  z = word-IsU64 bytes 16 b (omega arith);
  halfsize_u64 = word-IsU64 bytes 24 b (omega arith);
  spacing_u64 = word-IsU64 bytes 32 b (omega arith);
  offset_u64 = word-IsU64 bytes 40 b (omega arith);
  size_u64 = word-IsU64 bytes 48 b (omega arith);
  min_u64 = word-IsU64 bytes 56 b (omega arith);
  max_u64 = word-IsU64 bytes 64 b (omega arith);
}

-- The words, one behind the other, before the rest.
abbrev words : List ℕ → List ℕ → List ℕ
words bytes rest =
    word bytes 0
    ++ (word bytes 8
        ++ (word bytes 16
            ++ (word bytes 24
                ++ (word bytes 32
                    ++ (word bytes 40
                        ++ (word bytes 48 ++ (word bytes 56 ++ (word bytes 64 ++ rest))))))))

words_lem : (bytes : List ℕ) → words bytes (drop 72 bytes) ≡ bytes
words_lem bytes =
    rw
      (
        drop_split bytes 64 72 (omega arith),
        drop_split bytes 56 64 (omega arith),
        drop_split bytes 48 56 (omega arith),
        drop_split bytes 40 48 (omega arith),
        drop_split bytes 32 40 (omega arith),
        drop_split bytes 24 32 (omega arith),
        drop_split bytes 16 24 (omega arith),
        drop_split bytes 8 16 (omega arith),
        drop_split bytes 0 8 (omega arith),
      )
      refl

info_bytes-info_at :
    (bytes : List ℕ)
    → length bytes ≡ 160
    → All IsByte bytes
    → any_set (drop 72 bytes) ≡ false
    → info_bytes (info_at bytes) ≡ bytes
info_bytes-info_at bytes h b reserved =
    let size : length (drop 72 bytes) ≡ 88 = omega (arith, length-drop 72 bytes) in
    let zeros : drop 72 bytes ≡ replicate 88 0 =
      none_set (drop 72 bytes) reserved ∙ ap (λ n. replicate n 0) size in
    rw
      (
        word_bytes bytes 0 b (omega arith),
        word_bytes bytes 8 b (omega arith),
        word_bytes bytes 16 b (omega arith),
        word_bytes bytes 24 b (omega arith),
        word_bytes bytes 32 b (omega arith),
        word_bytes bytes 40 b (omega arith),
        word_bytes bytes 48 b (omega arith),
        word_bytes bytes 56 b (omega arith),
        word_bytes bytes 64 b (omega arith),
      )
      (ap (words bytes) (sym zeros) ∙ words_lem bytes)

abbrev pub IsAccepted : List ℕ → CopcInfo → Type 0
IsAccepted bytes info = (bytes ≡ info_bytes info) × IsU64Info info × IsInfo info

from_le_bytes-IsAccepted :
    (bytes : List ℕ) (info : CopcInfo)
    → All IsByte bytes
    → from_le_bytes bytes ≡ ok info
    → IsAccepted bytes info
unfolding from_le_bytes
from_le_bytes-IsAccepted bytes info b h =
    let (_, whole, h1) = >>=-eq-ok (reject_if (not (length bytes == 160)) invalid_data) _ h in
    let (_, zeros, _) = >>=-eq-ok (reject_if (any_set (drop 72 bytes)) invalid_data) _ h1 in
    let size = exact_length (length bytes) (reject_if-ok _ invalid_data whole) in
    let reserved = reject_if-ok (any_set (drop 72 bytes)) invalid_data zeros in
    let (_, valid, found) =
      >>=-eq-ok (validate (info_at bytes)) _ (sym (from_le_bytes_lem bytes size reserved) ∙ h) in
    let same : info_at bytes ≡ info = cc found in
    let u = info_at-IsU64Info bytes size b in
    subst (IsAccepted bytes) same (
      sym (info_bytes-info_at bytes size b reserved),
      u,
      validate-IsInfo (info_at bytes) u.min_u64 u.max_u64 valid,
    )

-- `CopcInfo::from_le_bytes` returns an info for bytes exactly if they are its nine fields in their
-- order, 8 bytes each with the lowest first, and 88 zeros, and the info is one of a finite center, a
-- finite and positive halfsize and spacing, a root page of one entry or more, all whole, that is not
-- at the start of the file, and two finite GPS times, the first not above the second.
pub from_le_bytes_iff :
    (bytes : List ℕ) (info : CopcInfo)
    → All IsByte bytes
    → (from_le_bytes bytes ≡ ok info) ↔ IsAccepted bytes info
from_le_bytes_iff bytes info b = (
  from_le_bytes-IsAccepted bytes info b,
  λ (same, u, i).
      rw same (from_le_bytes-info_bytes info u (IsInfo-validate info u.min_u64 u.max_u64 i)),
)
