-- ===== src/Reader/Ranged/Weights.antt =====
-- What a step of the loading of pages does to the pending pages and to the bytes left of the limit.
use copc_rust.Prelude.{
  ℕ, ◌+◌, ◌-◌, ◌*◌, ◌≤◌, ◌≡◌, refl, arith, List, length, ap, Ensures, Result, ok, err, fault,
  Returns,
}
use copc_rust.Core.Key.{key_order}
use copc_rust.Core.Hierarchy.{HierarchyPage, page_from_le_bytes}
use copc_rust.Core.Hierarchy.Page.{length-page_from_le_bytes, page_from_le_bytes_total}
use copc_rust.Reader.Hierarchy.{max_hierarchy_total_bytes, validate_hierarchy_page_byte_size}
use copc_rust.Reader.Ranged.{RangeReader, add_page}

-- 32 for each pending page, and the bytes left of the limit.
abbrev pub weight : RangeReader → ℕ
weight s = 32 * length s.pending_pages + (max_hierarchy_total_bytes - s.limits.total_bytes)

-- The step returns; if it succeeds, then within the limit and the weight `w`.
abbrev pub Settles : ℕ → Result (Unit {0}) × RangeReader → Type 0
Settles w (ok done, t) = (t.limits.total_bytes ≤ max_hierarchy_total_bytes) × (weight t ≤ w)
Settles w (err e, t) = Unit {0}
Settles w (fault why, t) = ⊥

-- A step leaves the limits, and at most `n` pending pages more.
abbrev pub Queues : ℕ → RangeReader → Result (Unit {0}) × RangeReader → Type 0
Queues n s (ok done, t) =
    (t.limits.total_bytes ≡ s.limits.total_bytes)
    × (length t.pending_pages ≤ n + length s.pending_pages)
Queues n s (err e, t) = Unit {0}
Queues n s (fault why, t) = ⊥

abbrev pub Keeps : {A : Type 0} → RangeReader → Result A × RangeReader → Type 0
Keeps s (ok a, t) =
    (t.limits.total_bytes ≡ s.limits.total_bytes) × (t.pending_pages ≡ s.pending_pages)
Keeps s (err e, t) = Unit {0}
Keeps s (fault why, t) = ⊥

abbrev pub Adds : ℕ → RangeReader → Result (Unit {0}) × RangeReader → Type 0
Adds n s (ok done, t) =
    (t.limits.total_bytes ≡ s.limits.total_bytes + n)
    × (t.limits.total_bytes ≤ max_hierarchy_total_bytes)
    × (t.pending_pages ≡ s.pending_pages)
Adds n s (err e, t) = Unit {0}
Adds n s (fault why, t) = ⊥

abbrev pub Fetches : ℕ → RangeReader → Result (List ℕ) × RangeReader → Type 0
Fetches n s (ok bytes, t) =
    (t.limits.total_bytes ≡ s.limits.total_bytes)
    × (t.pending_pages ≡ s.pending_pages)
    × (length bytes ≡ n)
Fetches n s (err e, t) = Unit {0}
Fetches n s (fault why, t) = ⊥

abbrev pub Parses : ℕ → RangeReader → Result HierarchyPage × RangeReader → Type 0
Parses n s (ok page, t) =
    (t.limits.total_bytes ≡ s.limits.total_bytes)
    × (t.pending_pages ≡ s.pending_pages)
    × (32 * length page ≤ n)
Parses n s (err e, t) = Unit {0}
Parses n s (fault why, t) = ⊥

pub lifted : {A : Type 0} (s : RangeReader) (run : Result A) → Returns run → Keeps s (run, s)
lifted s (ok a) h = (refl, refl)
lifted s (err e) h = tt
lifted s (fault why) h = h

pub add_page-Adds : (n : ℕ) (s : RangeReader) → Adds n s (add_page n s)
unfolding add_page validate_hierarchy_page_byte_size
add_page-Adds n s = ground arith

pub page-Parses :
    (n : ℕ) (s : RangeReader) (bytes : List ℕ)
    → length bytes ≡ n
    → Parses n s (page_from_le_bytes bytes, s)
page-Parses n s bytes len =
    parsed (page_from_le_bytes bytes) (page_from_le_bytes_total bytes).0
      (length-page_from_le_bytes bytes)
  where
    parsed :
        (run : Result HierarchyPage)
        → Returns run
        → Ensures (λ page. 32 * length page ≤ length bytes) run
        → Parses n s (run, s)
    parsed (ok page) h most = (refl, refl, omega arith)
    parsed (err e) h most = tt
    parsed (fault why) h most = h

pub answered :
    (n : ℕ) (s : RangeReader) (run : Result (List ℕ))
    → Returns run
    → ((bytes : List ℕ) → run ≡ ok bytes → length bytes ≡ n)
    → Fetches n s (run, record s { requests = s.requests + 1 })
answered n s (ok bytes) h len = (refl, refl, len bytes refl)
answered n s (err e) h len = tt
answered n s (fault why) h len = h

-- A page of `n` bytes behind its entries.
pub settled :
    (page : HierarchyPage) (n : ℕ) (s t : RangeReader)
    → t.limits.total_bytes ≡ s.limits.total_bytes + n
    → t.limits.total_bytes ≤ max_hierarchy_total_bytes
    → t.pending_pages ≡ s.pending_pages
    → 32 * length page ≤ n
    → (r : Result (Unit {0}) × RangeReader) → Queues (length page) t r
    → Settles (weight s) r
settled page n s t total bound pending most (ok done, u) (same, queued) =
    let len : length t.pending_pages ≡ length s.pending_pages = ap length pending in
    (omega arith, omega arith)
settled page n s t total bound pending most (err k, u) h = tt
settled page n s t total bound pending most (fault w, u) h = h
