-- ===== src/Reader/Hierarchy/Reading.antt =====
-- copc-reader/src/lib.rs: lemmas on `read_hierarchy_page_at` and the checks of ranges.
use copc_rust.Prelude.{
  ◌<◌, ◌^◌, ℕ, ◌+◌, ◌%◌, ◌≤◌, ◌≡◌, arith, List, length, take, drop, not, ◌==◌, ok, invalid_data,
  Returns, reject_if, >>=-eq-ok, >>=-Returns, reject_if-Returns,
}
use copc_rust.Core.Hierarchy.{HierarchyPage, page_from_le_bytes}
use copc_rust.Core.Hierarchy.Page.{page_from_le_bytes_total}
use copc_rust.Reader.Hierarchy.{
  HierarchyReadLimits, add_page, read_hierarchy_page_at, read_exact_at, validate_range_in_file,
  validate_hierarchy_page_byte_size, checked_range_end, max_hierarchy_total_bytes,
}

add_page_inv :
    (limits limits' : HierarchyReadLimits) (n : ℕ)
    → add_page limits n ≡ ok limits'
    → (limits'.total_bytes ≡ limits.total_bytes + n)
      × (limits'.total_bytes ≤ max_hierarchy_total_bytes)
unfolding add_page validate_hierarchy_page_byte_size
add_page_inv limits limits' n h = ground arith

add_page-Returns : (limits : HierarchyReadLimits) (n : ℕ) → Returns (add_page limits n)
unfolding add_page validate_hierarchy_page_byte_size
add_page-Returns limits n = ground arith

pub validate_range_in_file-Returns :
    (offset n file_len : ℕ) → Returns (validate_range_in_file offset n file_len)
unfolding validate_range_in_file checked_range_end
validate_range_in_file-Returns offset n file_len = ground arith

pub checked_range_end_inv :
    (offset n end : ℕ) → checked_range_end offset n ≡ ok end → end ≡ offset + n
unfolding checked_range_end
checked_range_end_inv offset n end h = ground arith

pub checked_range_end-fits :
    (offset n end : ℕ)
    → checked_range_end offset n ≡ ok end
    → (end ≡ offset + n) × (offset + n < 2 ^ 64)
unfolding checked_range_end
checked_range_end-fits offset n end h = ground arith

read_exact_at-Returns : (file : List ℕ) (offset n : ℕ) → Returns (read_exact_at file offset n)
unfolding read_exact_at
read_exact_at-Returns file offset n = ground arith

read_exact_at_inv :
    (file bytes : List ℕ) (offset n : ℕ)
    → read_exact_at file offset n ≡ ok bytes
    → (offset + n ≤ length file) × (take n (drop offset file) ≡ bytes)
unfolding read_exact_at
read_exact_at_inv file bytes offset n h = ground arith

full_entries :
    (n : ℕ) {a b : Unit {0}}
    → reject_if (n == 0) invalid_data ≡ ok a
    → reject_if (not (n % 32 == 0)) invalid_data ≡ ok b
    → 32 ≤ n
full_entries n h k = ground arith

-- A page of some entries within the limits, read from the file.
pub record PageRead (file : List ℕ) (offset n : ℕ) (limits limits' : HierarchyReadLimits)
    (page : HierarchyPage) : Type 0 where
  pub some_entries : 32 ≤ n
  pub total : limits'.total_bytes ≡ limits.total_bytes + n
  pub within_limit : limits'.total_bytes ≤ max_hierarchy_total_bytes
  pub in_file : offset + n ≤ length file
  pub parsed : page_from_le_bytes (take n (drop offset file)) ≡ ok page

pub read_hierarchy_page_at_inv :
    (file : List ℕ) (offset n : ℕ) (limits limits' : HierarchyReadLimits) (page : HierarchyPage)
    → read_hierarchy_page_at file offset n limits ≡ ok (page, limits')
    → PageRead file offset n limits limits' page
unfolding read_hierarchy_page_at
read_hierarchy_page_at_inv file offset n limits limits' page h =
    let (_, some, h1) = >>=-eq-ok (reject_if (n == 0) invalid_data) _ h in
    let (_, whole, h2) = >>=-eq-ok (reject_if (not (n % 32 == 0)) invalid_data) _ h1 in
    let (l, added, h3) = >>=-eq-ok (add_page limits n) _ h2 in
    let (end, _, h4) = >>=-eq-ok (validate_range_in_file offset n (length file)) _ h3 in
    let (bytes, read, h5) = >>=-eq-ok (read_exact_at file offset n) _ h4 in
    let (p, parse, h6) = >>=-eq-ok (page_from_le_bytes bytes) _ h5 in
    let (total, small) = add_page_inv limits l n added in
    let (inside, same) = read_exact_at_inv file bytes offset n read in
    let l' : l ≡ limits' = cc in
    let p' : p ≡ page = cc in
    record {
      some_entries = full_entries n some whole;
      total = rw l' at total;
      within_limit = rw l' at small;
      in_file = inside;
      parsed = rw same (rw p' at parse);
    }

pub read_hierarchy_page_at-Returns :
    (file : List ℕ) (offset n : ℕ) (limits : HierarchyReadLimits)
    → Returns (read_hierarchy_page_at file offset n limits)
unfolding read_hierarchy_page_at
read_hierarchy_page_at-Returns file offset n limits =
    >>=-Returns (reject_if (n == 0) invalid_data) _ (reject_if-Returns (n == 0) invalid_data) λ _.
      >>=-Returns (reject_if (not (n % 32 == 0)) invalid_data) _
        (reject_if-Returns (not (n % 32 == 0)) invalid_data)
        λ _. >>=-Returns (add_page limits n) _ (add_page-Returns limits n) λ l.
          >>=-Returns (validate_range_in_file offset n (length file)) _
            (validate_range_in_file-Returns offset n (length file))
            λ end.
              >>=-Returns (read_exact_at file offset n) _ (read_exact_at-Returns file offset n)
                λ bytes.
                  >>=-Returns (page_from_le_bytes bytes) _ (page_from_le_bytes_total bytes).0
                    λ page. tt
