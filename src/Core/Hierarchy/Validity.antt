-- ===== src/Core/Hierarchy/Validity.antt =====
-- Which entries `validate` accepts.
use copc_rust.Prelude.{
  ℕ, zero, suc, ◌<◌, ◌≡◌, refl, ap, arith, ◌↔◌, ◌⊎◌, inl, inr, ok, err, invalid_data, ◌>>=◌,
}
use copc_rust.Prelude.Int.{ℤ, pos, negsuc, pos_part}
use copc_rust.Core.Key.Tree.{IsKey, validate_iff, validate_cases}
use copc_rust.Core.Hierarchy.{
  Entry, validate, validate_for, availability, availability_of, empty, point_data, child_page,
}

-- An empty entry has no bytes; one with points, and one that stands for a child page, has some.
abbrev pub IsSized : Entry → Type 0
IsSized e =
    (e.point_count ≡ pos 0) × (e.offset ≡ 0) × (e.byte_size ≡ pos 0)
    ⊎ (0 < pos_part e.point_count) × (0 < pos_part e.byte_size)
    ⊎ (e.point_count ≡ negsuc 0) × (0 < pos_part e.byte_size)

IsSized-iff :
    (n : ℤ) (e : Entry)
    → e.point_count ≡ n
    → ((availability_of n >>= validate_for e) ≡ ok tt) ↔ IsSized e
unfolding availability_of validate_for
IsSized-iff (negsuc zero) e h = (λ k. ground arith, λ k. ground arith)
IsSized-iff (negsuc (suc n)) e h = (λ k. ground arith, λ k. ground arith)
IsSized-iff (pos zero) e h = (λ k. ground arith, λ k. ground arith)
IsSized-iff (pos (suc n)) e h = (λ k. ground arith, λ k. ground arith)

sized_returns :
    (n : ℤ) (e : Entry)
    → (((availability_of n >>= validate_for e) ≡ ok tt)
        ⊎ ((availability_of n >>= validate_for e) ≡ err invalid_data))
unfolding availability_of validate_for
sized_returns (negsuc zero) e = ground arith
sized_returns (negsuc (suc n)) e = ground arith
sized_returns (pos zero) e = ground arith
sized_returns (pos (suc n)) e = ground arith

-- `Entry::validate` accepts an entry exactly if its key is one of the octree and it is sized: empty
-- with the offset 0 and no bytes, or with points or a child page and some bytes.
pub Entry-validate_iff : (e : Entry) → (validate e ≡ ok tt) ↔ (IsKey e.key × IsSized e)
unfolding validate availability
Entry-validate_iff e = (
  λ h. elim (validate_cases e.key) [
    | inl k ↦
        ((validate_iff e.key).0 k, (IsSized-iff e.point_count e refl).0 (rw (k, validate) at h))
    | inr k ↦ cc (rw (k, validate) at h)
  ],
  λ (k, s). rw ((validate_iff e.key).1 k) ((IsSized-iff e.point_count e refl).1 s),
)

-- It never panics, and refuses with `InvalidData`.
pub Entry-validate_cases : (e : Entry) → (validate e ≡ ok tt) ⊎ (validate e ≡ err invalid_data)
unfolding validate availability
Entry-validate_cases e = elim (validate_cases e.key) [
  | inl k ↦ rw k (sized_returns e.point_count e)
  | inr k ↦ inr (rw k)
]

-- The availability of an entry, by its point count.
pub data Availability (e : Entry) : Type 0 where
  no_points : e.point_count ≡ pos 0 → availability e ≡ ok empty → Availability e
  some_points :
      (n : ℕ)
      → e.point_count ≡ pos (suc n)
      → availability e ≡ ok (point_data (suc n))
      → Availability e
  a_page : e.point_count ≡ negsuc 0 → availability e ≡ ok child_page → Availability e
  bad_count :
      (n : ℕ) → e.point_count ≡ negsuc (suc n) → availability e ≡ err invalid_data → Availability e

Availability-by : (n : ℤ) (e : Entry) → e.point_count ≡ n → Availability e
unfolding availability availability_of
Availability-by (negsuc zero) e h = a_page h (ap availability_of h)
Availability-by (negsuc (suc n)) e h = bad_count n h (ap availability_of h)
Availability-by (pos zero) e h = no_points h (ap availability_of h)
Availability-by (pos (suc n)) e h = some_points n h (ap availability_of h)

pub Availability-cases : (e : Entry) → Availability e
Availability-cases e = Availability-by e.point_count e refl
