-- ===== src/Reader/Chunks/Counts.antt =====
-- `validate_hierarchy_point_count`: the sum of the point counts.
use copc_rust.Prelude.{
  ℕ, suc, ◌+◌, ◌^◌, ◌<◌, ◌≤◌, ◌≡◌, refl, ap, arith, ◌↔◌, ◌⊎◌, inl, inr, [], ◌∷◌, All, ok, err,
  invalid_data, some, none,
}
use copc_rust.Prelude.Int.{pos_part, checked_add_u64}
use copc_rust.Core.Hierarchy
use copc_rust.Core.Hierarchy.{Entry, availability, EntryAvailability, empty, point_data, child_page}
use copc_rust.Core.Hierarchy.Validity.{
  Availability-cases, no_points, some_points, a_page, bad_count, Entry-validate_iff,
}
use copc_rust.Core.Key.{VoxelKey}
use copc_rust.Reader.Hierarchy.{Hierarchy}
use copc_rust.Reader.Chunks.{add_points, validate_hierarchy_point_count}

-- The points of all entries; an entry for a child page has a negative count, and adds none.
abbrev pub points : Hierarchy → ℕ
points [] = 0
points ((key, e) ∷ rest) = pos_part e.point_count + points rest

abbrev pub IsValid : Hierarchy → Type 0
IsValid = All (λ q. Hierarchy.validate q.1 ≡ ok tt)

abbrev Adds : Hierarchy → ℕ → Type 0
Adds h total =
    (total + points h < 2 ^ 64) × (add_points h total ≡ ok (total + points h))
    ⊎ (2 ^ 64 ≤ total + points h) × (add_points h total ≡ err invalid_data)

step :
    (h : Hierarchy) (key : VoxelKey) (e : Entry) (total : ℕ)
    → pos_part e.point_count ≡ 0
    → add_points ((key, e) ∷ h) total ≡ add_points h total
    → Adds h total
    → Adds ((key, e) ∷ h) total
step h key e total zero_points same r =
    let skip : points ((key, e) ∷ h) ≡ points h = omega (arith, zero_points) in rw (same, skip) r

sum_cases :
    (a b : ℕ)
    → (a + b < 2 ^ 64) × (checked_add_u64 a b ≡ some (a + b))
      ⊎ (2 ^ 64 ≤ a + b) × (checked_add_u64 a b ≡ none)
sum_cases a b = ground arith

add_step :
    (h : Hierarchy) (key : VoxelKey) (e : Entry) (total n : ℕ)
    → pos_part e.point_count ≡ n
    → availability e ≡ ok (point_data n)
    → total < 2 ^ 64
    → (total + n < 2 ^ 64 → Adds h (total + n))
    → Adds ((key, e) ∷ h) total
unfolding add_points
add_step h key e total n count k fits rest = elim (sum_cases total n) [
  | inr (large, sum) ↦ inr (omega (arith, count), rw (k, sum))
  | inl (small, sum) ↦
      let more : total + n + points h ≡ total + (n + points h) = omega arith in
      elim (rest small) [
        | inl (low, r) ↦ inl (omega (arith, count), rw (k, sum, count, ← more) r)
        | inr (high, r) ↦ inr (omega (arith, count), rw (k, sum) r)
      ]
]

add_points_lem : (h : Hierarchy) (total : ℕ) → total < 2 ^ 64 → IsValid h → Adds h total
unfolding add_points
add_points_lem [] total fits v =
    let same : total ≡ total + 0 = omega arith in inl (omega arith, ap ok same)
add_points_lem ((key, e) ∷ h) total fits (valid, v) = elim (Availability-cases e) [
  | no_points c k ↦ step h key e total (rw c refl) (rw k) (add_points_lem h total fits v)
  | a_page c k ↦ step h key e total (rw c refl) (rw k) (add_points_lem h total fits v)
  | bad_count n c k ↦ let sized = ((Entry-validate_iff e).0 valid).1 in absurd (ground arith)
  | some_points n c k ↦
      add_step h key e total (suc n) (rw c refl) k fits
        λ small. add_points_lem h (total + suc n) small v
]

-- The count of an accepted hierarchy, also where the wanted one is no u64.
pub validate_hierarchy_point_count_inv :
    (hierarchy : Hierarchy) (number_of_points : ℕ)
    → IsValid hierarchy
    → validate_hierarchy_point_count hierarchy number_of_points ≡ ok tt
    → points hierarchy ≡ number_of_points
unfolding validate_hierarchy_point_count
validate_hierarchy_point_count_inv hierarchy number_of_points v h =
    elim (add_points_lem hierarchy 0 (omega arith) v) [
      | inl (k, r) ↦ let h1 = rw r at h in ground arith
      | inr (k, r) ↦ absurd (cc (rw r at h))
    ]

-- On a hierarchy of valid entries `validate_hierarchy_point_count` accepts exactly the `u64` that is
-- the number of points of the entries.
pub validate_hierarchy_point_count_iff :
    (hierarchy : Hierarchy) (number_of_points : ℕ)
    → IsValid hierarchy
    → number_of_points < 2 ^ 64
    → (validate_hierarchy_point_count hierarchy number_of_points ≡ ok tt)
      ↔ (points hierarchy ≡ number_of_points)
unfolding validate_hierarchy_point_count
validate_hierarchy_point_count_iff hierarchy number_of_points v fits =
    elim (add_points_lem hierarchy 0 (omega arith) v) [
      | inl (k, r) ↦ rw r (λ c. ground arith, λ c. ground arith)
      | inr (k, r) ↦ rw r (λ c. absurd (cc c), λ c. absurd (omega arith))
    ]
