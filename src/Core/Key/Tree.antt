-- ===== src/Core/Key/Tree.antt =====
-- The octree of voxel keys: children of valid keys, and the keys below a key.
use copc_rust.Prelude.{
  reject_if, ok_or, ltb, ok, Returns, >>=-Returns, reject_if-Returns, ok_or-Returns, >>=-eq-ok,
}
use copc_rust.Prelude.{
  ℕ, ◌+◌, ◌*◌, ◌/◌, ◌%◌, ◌^◌, ◌<◌, ◌≤◌, ◌≡◌, arith, ◌↔◌, ◌⊎◌, inl, inr, err, invalid_input,
  invalid_data, ltb-false, lt→ltb,
}
use copc_rust.Prelude.Int.{
  ℤ, checked_add_i32, checked_mul_i32, pos, pos_part, neg_part, double_fits, sum_fits,
}
use copc_rust.Core.Key.{VoxelKey, validate, child, child_axis, octant_bit}
use mathlib.Core.Option
use native.Mathlib.Nat.{pow-suc, pow-le-pow_right}
use native.Mathlib.Numerals.{towards_suc}

-- The key at level `l` and position (`x`, `y`, `z`).
abbrev pub voxel : ℕ → ℕ → ℕ → ℕ → VoxelKey
voxel l x y z = record { level = pos l; x = pos x; y = pos y; z = pos z }

-- A key of the octree: from level 31 on every position that an i32 can hold is allowed.
pub record IsKey (k : VoxelKey) : Type 0 where
  pub level_pos : neg_part k.level ≡ 0
  pub x_pos : neg_part k.x ≡ 0
  pub y_pos : neg_part k.y ≡ 0
  pub z_pos : neg_part k.z ≡ 0
  pub inside :
      pos_part k.level < 31
      → (pos_part k.x < 2 ^ pos_part k.level)
        × (pos_part k.y < 2 ^ pos_part k.level)
        × (pos_part k.z < 2 ^ pos_part k.level)

-- `validate` accepts exactly the keys of the octree.
pub validate_iff : (k : VoxelKey) → (validate k ≡ ok tt) ↔ IsKey k
unfolding validate
validate_iff k = (λ h. ground arith, λ h. ground arith)

pub validate_cases : (k : VoxelKey) → (validate k ≡ ok tt) ⊎ (validate k ≡ err invalid_data)
unfolding validate
validate_cases k = ground arith

child_axis_lem :
    (x bit : ℕ) → 2 * x + bit < 2 ^ 31 → child_axis (pos x) bit ≡ ok (pos (2 * x + bit))
unfolding child_axis
child_axis_lem x bit h = rw (double_fits x (omega arith), sum_fits (2 * x) bit h)

twice_pow : (l : ℕ) → 2 ^ (l + 1) ≡ 2 * 2 ^ l
twice_pow l = simp towards_suc (omega (arith, pow-suc 2 l))

module _ (l x y z : ℕ) (shallow : l ≤ 30) (hx : x < 2 ^ l) (hy : y < 2 ^ l) (hz : z < 2 ^ l) where
  voxel-IsKey : IsKey (voxel l x y z)
  voxel-IsKey = ground arith

  size_fits : 2 ^ l ≤ 2 ^ 30
  size_fits = pow-le-pow_right (omega arith) shallow

  pub child-IsKey :
      (a b c : ℕ)
      → a < 2
      → b < 2
      → c < 2
      → IsKey (voxel (l + 1) (2 * x + a) (2 * y + b) (2 * z + c))
  child-IsKey a b c ha hb hc = ground (arith, twice_pow l)

  -- A key above level 31 has its eight children, and the checks of `child` refuse none of them.
  pub child-voxel :
      (octant : ℕ)
      → octant ≤ 7
      → child (voxel l x y z) octant
        ≡ ok (
            voxel
              (l + 1)
              (2 * x + octant_bit octant 0)
              (2 * y + octant_bit octant 1)
              (2 * z + octant_bit octant 2))
  unfolding child
  child-voxel octant h = rw (
    (validate_iff (voxel l x y z)).1 voxel-IsKey,
    sum_fits l 1 (omega arith),
    child_axis_lem x (octant / 1 % 2) (omega (arith, size_fits)),
    child_axis_lem y (octant / 2 % 2) (omega (arith, size_fits)),
    child_axis_lem z (octant / 4 % 2) (omega (arith, size_fits)),
    ltb-false 7 octant h,
    (validate_iff (
          voxel (l + 1) (2 * x + octant / 1 % 2) (2 * y + octant / 2 % 2)
            (2 * z + octant / 4 % 2))).1
        (child-IsKey (octant / 1 % 2) (octant / 2 % 2) (octant / 4 % 2) (omega arith) (omega arith)
          (omega arith)),
  )

-- Any other octant, and any key that is not one of the octree, is refused.
pub child_refuses :
    (k : VoxelKey) (octant : ℕ)
    → (¬ IsKey k → child k octant ≡ err invalid_data)
      × (IsKey k → 7 < octant → child k octant ≡ err invalid_input)
unfolding child
child_refuses k octant = (
  λ bad. elim (validate_cases k) [ inl e ↦ absurd (bad ((validate_iff k).0 e)) | inr e ↦ rw e ],
  λ good h. rw ((validate_iff k).1 good, lt→ltb 7 octant h),
)

next_level :
    (a b : ℤ)
    → neg_part a ≡ 0
    → ok_or (checked_add_i32 a (pos 1)) invalid_input ≡ ok b
    → pos_part b ≡ pos_part a + 1
unfolding checked_add_i32
next_level a b z h = ground arith

-- A child lies one level deeper.
pub child_level :
    (k c : VoxelKey) (octant : ℕ) → child k octant ≡ ok c → pos_part c.level ≡ pos_part k.level + 1
unfolding child
child_level k c octant h =
    let (t, valid, h1) = >>=-eq-ok (validate k) _ h in
    let (_, _, h2) = >>=-eq-ok (reject_if (ltb 7 octant) invalid_input) _ h1 in
    let (level, deeper, h3) =
      >>=-eq-ok (ok_or (checked_add_i32 k.level (pos 1)) invalid_input) _ h2 in
    let (x, _, h4) = >>=-eq-ok (child_axis k.x (octant_bit octant 0)) _ h3 in
    let (y, _, h5) = >>=-eq-ok (child_axis k.y (octant_bit octant 1)) _ h4 in
    let (z, _, h6) = >>=-eq-ok (child_axis k.z (octant_bit octant 2)) _ h5 in
    let made : VoxelKey = record { level = level; x = x; y = y; z = z } in
    let (_, _, h7) = >>=-eq-ok (validate made) _ h6 in
    let same : made ≡ c = cc in
    rw (← same) (next_level k.level level ((validate_iff k).0 valid).level_pos deeper)

child_axis-Returns : (x : ℤ) (bit : ℕ) → Returns (child_axis x bit)
unfolding child_axis
child_axis-Returns x bit =
    ok_or-Returns (Option.bind (checked_mul_i32 x (pos 2)) (λ a. checked_add_i32 a (pos bit)))
      invalid_input

pub validate-Returns : (k : VoxelKey) → Returns (validate k)
validate-Returns k = elim (validate_cases k) [ inl h ↦ rw h tt | inr h ↦ rw h tt ]

pub child-Returns : (k : VoxelKey) (octant : ℕ) → Returns (child k octant)
unfolding child
child-Returns k octant = >>=-Returns (validate k) _ (validate-Returns k) λ _.
    >>=-Returns (reject_if (ltb 7 octant) invalid_input) _
      (reject_if-Returns (ltb 7 octant) invalid_input)
      λ _.
        >>=-Returns (ok_or (checked_add_i32 k.level (pos 1)) invalid_input) _
          (ok_or-Returns (checked_add_i32 k.level (pos 1)) invalid_input)
          λ level.
            >>=-Returns (child_axis k.x (octant_bit octant 0)) _
              (child_axis-Returns k.x (octant_bit octant 0))
              λ x.
                >>=-Returns (child_axis k.y (octant_bit octant 1)) _
                  (child_axis-Returns k.y (octant_bit octant 1))
                  λ y.
                    >>=-Returns (child_axis k.z (octant_bit octant 2)) _
                      (child_axis-Returns k.z (octant_bit octant 2))
                      λ z.
                        >>=-Returns (validate (record { level = level; x = x; y = y; z = z })) _
                          (validate-Returns (record { level = level; x = x; y = y; z = z })) λ _. tt
