-- ===== src/Reader/Loading/Loaded.antt =====
-- copc-reader/src/lib.rs: what a hierarchy that `CopcFile::from_reader` loaded holds.
use mathlib.Core.Path.{subst}
use copc_rust.Prelude.{
  ℕ, ◌≡◌, ◌==◌, ◌≤◌, ◌<◌, ◌^◌, ◌+◌, arith, inl, inr, true, false, not, reject_if-ok, List, [], ◌∷◌,
  ltb, length, take, drop, ok, invalid_data, reject_if, >>=-eq-ok, Bool-cases,
}
use copc_rust.Core.Hierarchy.{HierarchyPage, page_from_le_bytes}
use copc_rust.Core.Key.{key_order}
use copc_rust.Reader.Chunks.Apart.{AllApart}
use copc_rust.Reader.Chunks.Counts.{points}
use copc_rust.Reader.Hierarchy.{
  Hierarchy, data_ranges, validate_hierarchy_page_byte_size, read_hierarchy_page_at,
}
use copc_rust.Reader.Hierarchy.Reading.{read_hierarchy_page_at_inv}
use copc_rust.Reader.Pages.{insert_hierarchy_pages, PageRange, contains, eq_range}
use copc_rust.Reader.Pages.Complete.{
  IsFollowed, IsLoaded, insert_hierarchy_pages_complete, eq_range→≡,
}
use copc_rust.Reader.Chunks.{validate_point_chunk_ranges, validate_hierarchy_point_count}
use copc_rust.Reader.Loading.Checks.{
  ranges_of, data_ranges-Guarded, ArePlaced, walked-ArePlaced, walked-AllApart, walked_count,
}
use copc_rust.Reader.Loading.{Found, no_limits, load_hierarchy}

-- A hierarchy that was loaded from the root page on.
pub record Loaded (file : List ℕ) (f : Found) (root : HierarchyPage) (hierarchy : Hierarchy)
    : Type 0 where
  pub visited : List PageRange
  pub ordered : f.offset_to_point_data ≤ f.offset_to_first_evlr
  pub fits : f.data_offset + f.data_len < 2 ^ 64
  pub at_start : f.root_hier_offset ≡ f.data_offset
  pub root_inside : f.root_hier_size ≤ f.data_len
  pub placed : ArePlaced (length file) (ranges_of f) hierarchy
  pub root_read :
      page_from_le_bytes (take f.root_hier_size (drop f.root_hier_offset file)) ≡ ok root
  pub followed : IsFollowed hierarchy visited root
  pub pages : (p : PageRange) → contains visited p ≡ true → IsLoaded file hierarchy visited p
  pub apart : AllApart hierarchy
  pub counted : points hierarchy ≡ f.number_of_points

at_offset : (a b : ℕ) → not (a == b) ≡ false → a ≡ b
at_offset a b h = ground arith

one_page : (p q : PageRange) → contains (q ∷ []) p ≡ true → p ≡ q
one_page p q h = elim (Bool-cases (eq_range p q)) [
  | inl t ↦ eq_range→≡ p q t
  | inr t ↦ absurd (cc (rw t at h))
]

returned :
    (file : List ℕ) (f : Found) (a b : HierarchyPage × Hierarchy)
    → Loaded file f a.0 a.1
    → ok a ≡ ok b
    → Loaded file f b.0 b.1
returned file f a b l h = let same : a ≡ b = cc in rw (← same) l

-- When the hierarchy of a file is loaded, the root page stands where the info VLR says; every entry
-- of it, and of each page that its entries lead to, is in the hierarchy, unless it stands for a child
-- page and another entry has its key; every entry of the hierarchy stands at its key, which is one of
-- the octree, is sized, and lies within the file: a chunk of 512 MiB at most between the offsets of the
-- points and of the first EVLR, in this order, or a page in the data of the hierarchy EVLR, at whose
-- start the root page lies and whose end is a u64; the chunks of any two entries with points are
-- apart; and the points of all entries are as many as the header counts.
pub load_hierarchy-Loaded :
    (file : List ℕ) (f : Found) (root : HierarchyPage) (hierarchy : Hierarchy)
    → load_hierarchy file f ≡ ok (root, hierarchy)
    → Loaded file f root hierarchy
unfolding load_hierarchy
load_hierarchy-Loaded file f root hierarchy h =
    let at_root : PageRange = (f.root_hier_offset, f.root_hier_size) in
    let (_, _, h1) = >>=-eq-ok (validate_hierarchy_page_byte_size f.root_hier_size) _ h in
    let (_, placed, h2) =
      >>=-eq-ok (reject_if (not (f.root_hier_offset == f.data_offset)) invalid_data) _ h1 in
    let (_, small, h3) =
      >>=-eq-ok (reject_if (ltb f.data_len f.root_hier_size) invalid_data) _ h2 in
    let (ranges, is_range, h4) =
      >>=-eq-ok (data_ranges f.offset_to_point_data f.offset_to_first_evlr f.data_offset f.data_len)
        _ h3 in
    let ((page, limits), read, h5) =
      >>=-eq-ok (read_hierarchy_page_at file f.root_hier_offset f.root_hier_size no_limits) _ h4 in
    let ((loaded, visited), walked, h6) =
      >>=-eq-ok (insert_hierarchy_pages file page [] (at_root ∷ []) limits ranges) _ h5 in
    let (_, apart, h7) = >>=-eq-ok (validate_point_chunk_ranges loaded) _ h6 in
    let (_, counted, h8) =
      >>=-eq-ok (validate_hierarchy_point_count loaded f.number_of_points) _ h7 in
    let (_, followed, pages) =
      insert_hierarchy_pages_complete file page (at_root ∷ []) visited loaded limits ranges
        walked in
    let parsed =
      (read_hierarchy_page_at_inv file f.root_hier_offset f.root_hier_size no_limits limits page
        read).parsed in
    let (same, ordered, fits) = data_ranges-Guarded f ranges is_range in
    let start = at_offset f.root_hier_offset f.data_offset (reject_if-ok _ invalid_data placed) in
    let within = reject_if-ok _ invalid_data small in
    returned file f (page, loaded) (root, hierarchy)
      (record {
        visited = visited;
        ordered = ordered;
        fits = fits;
        at_start = start;
        root_inside = ground arith;
        placed =
            subst (λ r. ArePlaced (length file) r loaded) same
              (walked-ArePlaced file ranges page (at_root ∷ []) visited loaded limits walked);
        root_read = parsed;
        followed = followed;
        pages = λ p m. elim (pages p m) [
          | inr l ↦ l
          | inl k ↦ rw (one_page p at_root k) (page, parsed, followed)
        ];
        apart = walked-AllApart file ranges page (at_root ∷ []) visited loaded limits walked apart;
        counted =
            walked_count file ranges page (at_root ∷ []) visited loaded limits walked
              f.number_of_points counted;
      })
      h8
