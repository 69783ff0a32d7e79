-- ===== src/Core/Hierarchy/Page.antt =====
-- The bytes of a hierarchy page.
use copc_rust.Prelude.{
  ◌≤◌, Ensures, bind-Ensures, Ensures-ok, Ensures-map, ℕ, zero, suc, ◌*◌, ◌/◌, ◌%◌, ◌^◌, ◌<◌, ◌≡◌,
  ◌≢◌, refl, sym, ap, ◌∙◌, arith, inl, inr, not, ◌==◌, List, [], ◌∷◌, ◌++◌, length, take, drop,
  replicate, length-append, length-drop, take-append, drop-append, take-append-drop, All, All-take,
  All-drop, ok, err, Returns, invalid_data, reject_if, ◌>>=◌, >>=-eq-ok, >>=-Returns,
  reject_if-Returns, ≡→==, ==→≡, Bool-cases, leb-false,
}
use copc_rust.Prelude.Bytes.{IsByte}
use copc_rust.Core.Hierarchy.Validity.{Entry-validate_cases}
use copc_rust.Core.Hierarchy.{
  Entry, HierarchyPage, validate, entry_from_le, entries_from_le, entries_write_le,
  page_from_le_bytes, page_write_le_bytes,
}
use copc_rust.Core.Hierarchy.Codec.{
  IsMachine, entry_bytes, length-entry_bytes, write_le_lem, decoded, entry_from_le_lem,
}
use copc_rust.Core.Hierarchy.RoundTrip.{
  entry_from_le-write_le, write_le-entry_from_le, entry_from_le_inv,
}

-- An entry that the library accepts, with fields that fit their types.
abbrev pub IsEntry : Entry → Type 0
IsEntry e = IsMachine e × (validate e ≡ ok tt)

abbrev pub page_bytes : List Entry → List ℕ
page_bytes [] = []
page_bytes (e ∷ es) = entry_bytes e ++ page_bytes es

pub length-page_bytes : (es : List Entry) → length (page_bytes es) ≡ length es * 32
length-page_bytes [] = refl
length-page_bytes (e ∷ es) =
    length-append (entry_bytes e) (page_bytes es)
    ∙ omega (arith, length-entry_bytes e, length-page_bytes es)

entries_write_le_lem : (es : List Entry) → All IsEntry es → entries_write_le es ≡ ok (page_bytes es)
unfolding entries_write_le
entries_write_le_lem [] h = refl
entries_write_le_lem (e ∷ es) ((m, v), h) =
    rw (write_le_lem e (replicate 32 0) v refl, entries_write_le_lem es h)

read_back : (e : Entry) → IsEntry e → entry_from_le (entry_bytes e) ≡ ok e
read_back e (m, v) =
    ap (λ r. r >>= entry_from_le) (sym (write_le_lem e (replicate 32 0) v refl))
    ∙ entry_from_le-write_le e (replicate 32 0) m v refl

entries_from_le-page_bytes :
    (es : List Entry) → All IsEntry es → entries_from_le (length es) (page_bytes es) ≡ ok es
unfolding entries_from_le
entries_from_le-page_bytes [] h = refl
entries_from_le-page_bytes (e ∷ es) (he, h) = rw (
  take-append 32 (entry_bytes e) (page_bytes es) (length-entry_bytes e),
  drop-append 32 (entry_bytes e) (page_bytes es) (length-entry_bytes e),
  read_back e he,
  entries_from_le-page_bytes es h,
)

pub page_from_le_bytes-page_bytes :
    (page : HierarchyPage) → All IsEntry page → page_from_le_bytes (page_bytes page) ≡ ok page
unfolding page_from_le_bytes
page_from_le_bytes-page_bytes page h =
    let len = length-page_bytes page in
    let rem : length (page_bytes page) % 32 ≡ 0 = omega (arith, len) in
    let quo : length (page_bytes page) / 32 ≡ length page = omega (arith, len) in
    rw (≡→== _ 0 rem, quo) (entries_from_le-page_bytes page h)

-- A page of entries that the library accepts comes back from its bytes, up to the size of `usize`.
pub page_from_le_bytes-page_write_le_bytes :
    (page : HierarchyPage)
    → All IsEntry page
    → length page * 32 < 2 ^ 64
    → (page_write_le_bytes page >>= page_from_le_bytes) ≡ ok page
unfolding page_write_le_bytes
page_from_le_bytes-page_write_le_bytes page h fits =
    rw (leb-false (2 ^ 64) (length page * 32) fits, entries_write_le_lem page h)
      (page_from_le_bytes-page_bytes page h)

entries_from_le_inv :
    (n : ℕ) (bytes : List ℕ) (es : List Entry)
    → All IsByte bytes
    → length bytes ≡ n * 32
    → entries_from_le n bytes ≡ ok es
    → All IsEntry es × (length es ≡ n) × (page_bytes es ≡ bytes)
unfolding entries_from_le
entries_from_le_inv zero [] es b len h = let none : [] ≡ es = cc h in rw (← none) (tt, refl, refl)
entries_from_le_inv zero (x ∷ xs) es b len h = absurd (omega arith)
entries_from_le_inv (suc n) bytes es b len h =
    let (e, he, k) = >>=-eq-ok (entry_from_le (take 32 bytes)) _ h in
    let (rest, hr, k') = >>=-eq-ok (entries_from_le n (drop 32 bytes)) _ k in
    let all : (e ∷ rest) ≡ es = cc k' in
    let (m, w) =
      write_le-entry_from_le (take 32 bytes) (replicate 32 0) e (All-take IsByte 32 bytes b) he
        refl in
    let (len32, d, v) = entry_from_le_inv (take 32 bytes) e he in
    let front : entry_bytes e ≡ take 32 bytes = cc (w, write_le_lem e (replicate 32 0) v refl) in
    let (good, size, back) =
      entries_from_le_inv n (drop 32 bytes) rest (All-drop IsByte 32 bytes b)
        (omega (arith, length-drop 32 bytes)) hr in
    rw (← all) (((m, v), good), ap suc size, rw (front, back) (take-append-drop 32 bytes))

-- Bytes that `from_le_bytes` accepts are, up to the size of `usize`, the bytes that
-- `write_le_bytes` writes for the page, and every entry of the page is valid.
pub page_write_le_bytes-page_from_le_bytes :
    (bytes : List ℕ) (page : HierarchyPage)
    → All IsByte bytes
    → length bytes < 2 ^ 64
    → page_from_le_bytes bytes ≡ ok page
    → All IsEntry page × (page_write_le_bytes page ≡ ok bytes)
unfolding page_write_le_bytes page_from_le_bytes
page_write_le_bytes-page_from_le_bytes bytes page b fits h =
    let (t, r, k) = >>=-eq-ok (reject_if (not (length bytes % 32 == 0)) invalid_data) _ h in
    let rem : length bytes % 32 ≡ 0 = ground arith in
    let len : length bytes ≡ length bytes / 32 * 32 = omega arith in
    let (good, size, same) = entries_from_le_inv (length bytes / 32) bytes page b len k in
    (
      good,
      rw (leb-false (2 ^ 64) (length page * 32) (omega arith))
          (entries_write_le_lem page good ∙ ap ok same),
    )

entry_from_le-Returns : (src : List ℕ) → Returns (entry_from_le src)
entry_from_le-Returns src = elim (Bool-cases (length src == 32)) [
  | inl is ↦
      rw (entry_from_le_lem src (==→≡ (length src) 32 is))
        (elim (Entry-validate_cases (decoded src)) [ inl v ↦ rw v tt | inr v ↦ rw v tt ])
  | inr other ↦ unfold entry_from_le in rw other tt
]

entries_from_le-Returns : (n : ℕ) (bytes : List ℕ) → Returns (entries_from_le n bytes)
unfolding entries_from_le
entries_from_le-Returns zero bytes = tt
entries_from_le-Returns (suc n) bytes =
    >>=-Returns (entry_from_le (take 32 bytes)) _ (entry_from_le-Returns (take 32 bytes)) λ e.
      >>=-Returns (entries_from_le n (drop 32 bytes)) _ (entries_from_le-Returns n (drop 32 bytes))
        λ rest. tt

-- On any bytes `from_le_bytes` returns without a panic; it refuses a length that is no multiple of
-- the 32 bytes of an entry.
pub page_from_le_bytes_total :
    (bytes : List ℕ)
    → Returns (page_from_le_bytes bytes)
      × (length bytes % 32 ≢ 0 → page_from_le_bytes bytes ≡ err invalid_data)
unfolding page_from_le_bytes
page_from_le_bytes_total bytes = (
  >>=-Returns (reject_if (not (length bytes % 32 == 0)) invalid_data) _
      (reject_if-Returns (not (length bytes % 32 == 0)) invalid_data)
      λ t. entries_from_le-Returns (length bytes / 32) bytes,
  λ h. ground arith,
)

length-entries_from_le :
    (n : ℕ) (bytes : List ℕ) → Ensures (λ es. length es ≡ n) (entries_from_le n bytes)
unfolding entries_from_le
length-entries_from_le zero bytes = refl
length-entries_from_le (suc n) bytes =
    bind-Ensures (λ es. length es ≡ suc n) (entry_from_le (take 32 bytes)) _
      λ e read.
        bind-Ensures (λ es. length es ≡ suc n) (entries_from_le n (drop 32 bytes)) _
          λ rest found. ap suc (
            Ensures-ok (λ es. length es ≡ n) (entries_from_le n (drop 32 bytes)) rest
              (length-entries_from_le n (drop 32 bytes)) found)

-- An entry for 32 bytes.
pub length-page_from_le_bytes :
    (bytes : List ℕ) → Ensures (λ page. 32 * length page ≤ length bytes) (page_from_le_bytes bytes)
unfolding page_from_le_bytes
length-page_from_le_bytes bytes =
    bind-Ensures (λ page. 32 * length page ≤ length bytes)
      (reject_if (not (length bytes % 32 == 0)) invalid_data) _
      λ _ whole.
        Ensures-map (λ page. length page ≡ length bytes / 32)
          (λ page. 32 * length page ≤ length bytes) (entries_from_le (length bytes / 32) bytes)
          (length-entries_from_le (length bytes / 32) bytes) λ page same. omega arith
