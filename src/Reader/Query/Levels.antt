-- ===== src/Reader/Query/Levels.antt =====
-- The octree levels that a query includes.
use mathlib.Core.Path.{subst}
use native.Mathlib.Decide.{dec_lt}
use copc_rust.Prelude.{
  ℕ, ◌+◌, ◌-◌, ◌^◌, ◌<◌, ◌≤◌, ◌≡◌, ◌≢◌, refl, arith, ◌⊎◌, inl, inr, ◌↔◌, Bool, false, ok, fault,
  panic, min, max, not, ◌||◌, reject_if, invalid_input, invalid_data, Bool-cases, >>=-eq-ok,
  or_panic, ok_or, ap, sym, ◌∙◌, some, none,
}
use copc_rust.Prelude.Int.{ℤ, pos, negsuc, pos_part, neg_part, IsI32, checked_add_i32, ◌+ℤ◌}
use copc_rust.Core.Info.{CopcInfo, is_finite, at_most_zero}
use copc_rust.Reader.Query.{
  LodSelection, QueryFloats, level_range, level_above, validate_level, i32_max, checked_add_i64,
}

-- The levels of a selection are values of `i32`.
abbrev pub HasI32Levels : LodSelection → Type 0
HasI32Levels (LodSelection.level only) = IsI32 only
HasI32Levels (LodSelection.level_min_max first end) = IsI32 first × IsI32 end
HasI32Levels other = Unit {0}

-- `0 ≤ first ≤ end ≤ i32::MAX`
abbrev pub IsLevelRange : ℤ × ℤ → Type 0
IsLevelRange levels =
    (first : ℕ) × (end : ℕ) × (levels ≡ (pos first, pos end)) × (first ≤ end) × (end ≤ i32_max)

level_above-range : (a level : ℤ) → level_above a ≡ ok level → IsLevelRange (pos 0, level)
unfolding level_above
level_above-range a level e =
    let (sum, _, k) = >>=-eq-ok (or_panic (checked_add_i64 a (pos 1))) _ e in
    let top : ℕ = min (max (pos_part sum) 1) i32_max in
    let found : pos top ≡ level = cc in
    (0, top, ap (λ t. (pos 0, t)) (sym found), omega arith, omega arith)

next_level :
    (n : ℕ) (end : ℤ)
    → ok_or (checked_add_i32 (pos n) (pos 1)) invalid_input ≡ ok end
    → (end ≡ pos (n + 1)) × (n + 1 ≤ i32_max)
unfolding checked_add_i32
next_level n end e = ground arith

single_range :
    (only : ℤ) (levels : ℤ × ℤ) (q : QueryFloats) (info : CopcInfo)
    → IsI32 only
    → level_range q (LodSelection.level only) info ≡ ok levels
    → IsLevelRange levels
unfolding level_range
single_range (pos n) levels q info h e =
    let (_, _, k) = >>=-eq-ok (validate_level (pos n)) _ e in
    let (end, added, l) = >>=-eq-ok (ok_or (checked_add_i32 (pos n) (pos 1)) invalid_input) _ k in
    let (next, fits) = next_level n end added in
    (
      n,
      n + 1,
      (let found : (pos n, end) ≡ levels = cc in sym found ∙ ap (λ t. (pos n, t)) next),
      omega arith,
      fits,
    )
single_range (negsuc n) levels q info h e = absurd (ground arith)

min_max_range :
    (first end : ℤ) (levels : ℤ × ℤ) (q : QueryFloats) (info : CopcInfo)
    → IsI32 first × IsI32 end
    → level_range q (LodSelection.level_min_max first end) info ≡ ok levels
    → IsLevelRange levels
unfolding level_range
min_max_range (pos m) (pos n) levels q info h e = (m, n, ground arith, ground arith, ground arith)
min_max_range (pos m) (negsuc n) levels q info h e = absurd (ground arith)
min_max_range (negsuc m) end levels q info h e = absurd (ground arith)

-- A range that `level_range` returns lies in `0..=i32::MAX`, and does not end before it starts.
pub level_range_bounds :
    (q : QueryFloats) (selection : LodSelection) (info : CopcInfo) (levels : ℤ × ℤ)
    → HasI32Levels selection
    → level_range q selection info ≡ ok levels
    → IsLevelRange levels
unfolding level_range
level_range_bounds q LodSelection.full info levels h e = (
  0,
  i32_max,
  (let found : (pos 0, pos i32_max) ≡ levels = cc in sym found),
  omega arith,
  omega arith,
)
level_range_bounds q (LodSelection.resolution wanted) info levels h e =
    let (_, _, a) =
      >>=-eq-ok (reject_if (not (is_finite wanted) || at_most_zero wanted) invalid_input) _ e in
    let (_, _, b) =
      >>=-eq-ok (reject_if (not (is_finite info.spacing) || at_most_zero info.spacing) invalid_data)
        _ a in
    let (level, above, c) = >>=-eq-ok (level_above (q.levels info.spacing wanted)) _ b in
    let found : (pos 0, level) ≡ levels = cc in
    subst IsLevelRange found (level_above-range (q.levels info.spacing wanted) level above)
level_range_bounds q (LodSelection.level only) info levels h e = single_range only levels q info h e
level_range_bounds q (LodSelection.level_min_max first end) info levels h e =
    min_max_range first end levels q info h e

abbrev pub IsI64 : ℤ → Type 0
IsI64 a = (pos_part a < 2 ^ 63) × (neg_part a ≤ 2 ^ 63)

abbrev pub is_bad : ℕ → Bool
is_bad value = not (is_finite value) || at_most_zero value

sum_fits : (n : ℕ) → n + 1 < 2 ^ 63 → checked_add_i64 (pos n) (pos 1) ≡ some (pos (n + 1))
unfolding ◌+ℤ◌
sum_fits n h = ground arith

sum_overflows : (n : ℕ) → n + 1 ≡ 2 ^ 63 → checked_add_i64 (pos n) (pos 1) ≡ none
unfolding ◌+ℤ◌
sum_overflows n h = ground arith

sum_below : (n : ℕ) → n < 2 ^ 63 → checked_add_i64 (negsuc n) (pos 1) ≡ some (negsuc n +ℤ pos 1)
unfolding ◌+ℤ◌
sum_below n h = ground arith

level_above_sum :
    (a sum : ℤ) → checked_add_i64 a (pos 1) ≡ some sum → (level : ℤ) × (level_above a ≡ ok level)
unfolding level_above
level_above_sum a sum e = (pos (min (max (pos_part sum) 1) i32_max), rw e refl)

level_above_cases :
    (a : ℤ)
    → IsI64 a
    → (a ≡ pos (2 ^ 63 - 1)) × (level_above a ≡ fault panic)
      ⊎ (a ≢ pos (2 ^ 63 - 1)) × ((level : ℤ) × (level_above a ≡ ok level))
unfolding level_above
level_above_cases (pos n) h = elim (dec_lt (n + 1) (2 ^ 63)) [
  | yes small ↦ inr (λ e. absurd (ground arith), level_above_sum (pos n) _ (sum_fits n small))
  | no large ↦ inl (ground arith, rw (sum_overflows n (omega arith)) refl)
]
level_above_cases (negsuc n) h =
    inr (λ e. cc, level_above_sum (negsuc n) _ (sum_below n (omega arith)))

-- The resolution and the spacing are finite and positive, and the levels between them the largest
-- `i64`.
abbrev pub Overflows : QueryFloats → LodSelection → CopcInfo → Type 0
Overflows q (LodSelection.resolution wanted) info =
    (is_bad wanted ≡ false)
    × (is_bad info.spacing ≡ false)
    × (q.levels info.spacing wanted ≡ pos (2 ^ 63 - 1))
Overflows q other info = ⊥

resolution_panics :
    (q : QueryFloats) (wanted : ℕ) (info : CopcInfo)
    → IsI64 (q.levels info.spacing wanted)
    → (level_range q (LodSelection.resolution wanted) info ≡ fault panic)
      ↔ Overflows q (LodSelection.resolution wanted) info
unfolding level_range
resolution_panics q wanted info bounded = elim (Bool-cases (is_bad wanted)) [
  | inl h ↦ rw h (λ e. cc, λ (o, _, _). cc)
  | inr h ↦ elim (Bool-cases (is_bad info.spacing)) [
    | inl k ↦ rw (h, k) (λ e. cc, λ (_, o, _). cc)
    | inr k ↦ elim (level_above_cases (q.levels info.spacing wanted) bounded) [
      | inl (large, panics) ↦ rw (h, k, panics) (λ e. (refl, refl, large), λ o. refl)
      | inr (small, (level, returns)) ↦ rw (h, k, returns) (λ e. cc, λ (_, _, o). absurd (small o))
    ]
  ]
]

-- Where the levels are values of `i64`, `level_range` panics exactly for a finite and positive
-- resolution and spacing with the largest `i64` of levels between them.
pub level_range_panics_iff :
    (q : QueryFloats) (selection : LodSelection) (info : CopcInfo)
    → ((spacing wanted : ℕ) → IsI64 (q.levels spacing wanted))
    → (level_range q selection info ≡ fault panic) ↔ Overflows q selection info
unfolding level_range validate_level checked_add_i32
level_range_panics_iff q LodSelection.full info bounded = (λ e. cc, λ o. absurd o)
level_range_panics_iff q (LodSelection.resolution wanted) info bounded =
    resolution_panics q wanted info (bounded info.spacing wanted)
level_range_panics_iff q (LodSelection.level only) info bounded = (λ e. ground arith, λ o. absurd o)
level_range_panics_iff q (LodSelection.level_min_max first end) info bounded =
    (λ e. ground arith, λ o. absurd o)
