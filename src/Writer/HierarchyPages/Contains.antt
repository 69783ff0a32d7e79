-- ===== src/Writer/HierarchyPages/Contains.antt =====
-- `key_contains` on the keys of the octree, and the octant that a deeper key lies in.
use copc_rust.Prelude.{
  ℕ, ◌+◌, ◌-◌, ◌*◌, ◌/◌, ◌%◌, ◌^◌, ◌<◌, ◌≤◌, ◌≡◌, refl, sym, ap, ◌∙◌, arith, ◌⊎◌, inl, inr, true,
  false, ◌&&◌, leb, ◌==◌, ok, ltb-false, lt→ltb, Bool-cases,
}
use copc_rust.Prelude.Int.{ℤ, pos, negsuc, pos_part, neg_part, difference_fits}
use copc_rust.Core.Key
use copc_rust.Core.Key.{VoxelKey, octant_bit}
use copc_rust.Core.Key.Tree.{voxel, IsKey, child-voxel, child-IsKey}
use copc_rust.Writer.HierarchyPages.{key_contains}
use mathlib.Core.Path.{subst₂}
use native.Mathlib.Nat.{pow-suc, div-div-eq-div-mul}
use native.Mathlib.Numerals.{towards_suc}

-- `k` lies in the subtree of `a`: its position, cut to the level of `a`, is that of `a`.
abbrev pub Below : VoxelKey → VoxelKey → Type 0
Below a k =
    let cut = 2 ^ (pos_part k.level - pos_part a.level) in
    (pos_part a.level ≤ pos_part k.level)
    × (pos_part k.x / cut ≡ pos_part a.x)
    × (pos_part k.y / cut ≡ pos_part a.y)
    × (pos_part k.z / cut ≡ pos_part a.z)

abbrev pub depth : VoxelKey → ℕ
depth k = pos_part k.level

-- A key of the octree as a voxel of natural numbers.
abbrev pub natural : VoxelKey → VoxelKey
natural k = voxel (pos_part k.level) (pos_part k.x) (pos_part k.y) (pos_part k.z)

pos_lem : (a : ℤ) → neg_part a ≡ 0 → a ≡ pos (pos_part a)
pos_lem (pos n) h = refl
pos_lem (negsuc n) h = absurd (omega arith)

pub natural_lem : (k : VoxelKey) → IsKey k → k ≡ natural k
natural_lem k h =
    cc (pos_lem k.level h.level_pos, pos_lem k.x h.x_pos, pos_lem k.y h.y_pos, pos_lem k.z h.z_pos)

contains_voxel :
    (la xa ya za l x y z : ℕ)
    → la ≤ l
    → l ≤ 31
    → key_contains (voxel la xa ya za) (voxel l x y z)
      ≡ ok (x / 2 ^ (l - la) == xa && y / 2 ^ (l - la) == ya && z / 2 ^ (l - la) == za)
unfolding key_contains
contains_voxel la xa ya za l x y z h k =
    rw (ltb-false (l + 0) (la + 0) (omega arith), difference_fits l la h (omega arith))
      (ground arith)

abbrev Decides : VoxelKey → VoxelKey → Type 0
Decides a k =
    (key_contains a k ≡ ok true) × Below a k ⊎ (key_contains a k ≡ ok false) × (¬ Below a k)

contains_shallow :
    (la xa ya za l x y z : ℕ) → l < la → key_contains (voxel la xa ya za) (voxel l x y z) ≡ ok false
unfolding key_contains
contains_shallow la xa ya za l x y z h = rw (lt→ltb (l + 0) (la + 0) (omega arith))

voxel-Decides : (la xa ya za l x y z : ℕ) → l ≤ 31 → Decides (voxel la xa ya za) (voxel l x y z)
voxel-Decides la xa ya za l x y z d = elim (Bool-cases (leb la l)) [
  | inl h ↦ ground (arith, contains_voxel la xa ya za l x y z)
  | inr h ↦ ground (arith, contains_shallow la xa ya za l x y z)
]

-- On keys of the octree down to level 31 `key_contains` never panics and decides `Below`.
pub key_contains_cases :
    (a k : VoxelKey)
    → IsKey a
    → IsKey k
    → depth k ≤ 31
    → (key_contains a k ≡ ok true) × Below a k ⊎ (key_contains a k ≡ ok false) × (¬ Below a k)
key_contains_cases a k ha hk d = subst₂ Decides (sym (natural_lem a ha)) (sym (natural_lem k hk)) (
    voxel-Decides (depth a) (pos_part a.x) (pos_part a.y) (pos_part a.z) (depth k) (pos_part k.x)
      (pos_part k.y) (pos_part k.z) d)

-- The child of `a` in an octant.
abbrev pub kid : VoxelKey → ℕ → VoxelKey
kid a octant =
    voxel (depth a + 1) (2 * pos_part a.x + octant_bit octant 0)
      (2 * pos_part a.y + octant_bit octant 1) (2 * pos_part a.z + octant_bit octant 2)

pub child-kid :
    (a : VoxelKey) (octant : ℕ)
    → IsKey a
    → depth a ≤ 30
    → octant ≤ 7
    → (Key.child a octant ≡ ok (kid a octant)) × IsKey (kid a octant)
child-kid a octant h d o = (
  ap (λ k. Key.child k octant) (natural_lem a h)
      ∙ child-voxel (depth a) (pos_part a.x) (pos_part a.y) (pos_part a.z) d
          (h.inside (omega arith)).0 (h.inside (omega arith)).1 (h.inside (omega arith)).2 octant o,
  child-IsKey (depth a) (pos_part a.x) (pos_part a.y) (pos_part a.z) d (h.inside (omega arith)).0
      (h.inside (omega arith)).1 (h.inside (omega arith)).2 (octant_bit octant 0)
      (octant_bit octant 1) (octant_bit octant 2) (omega arith) (omega arith) (omega arith),
)

-- The bit of `q` that goes between a position and the position one level deeper.
next_cut : (x d : ℕ) → x / 2 ^ d ≡ 2 * (x / 2 ^ (d + 1)) + x / 2 ^ d % 2
next_cut x d =
    let half : x / 2 ^ d / 2 ≡ x / 2 ^ (d + 1) =
      simp towards_suc (rw pow-suc (div-div-eq-div-mul x (2 ^ d) 2)) in
    omega arith

axis_cut :
    (x xa la l : ℕ)
    → la < l
    → x / 2 ^ (l - la) ≡ xa
    → x / 2 ^ (l - (la + 1)) ≡ 2 * xa + x / 2 ^ (l - (la + 1)) % 2
axis_cut x xa la l h e =
    let up : l - la ≡ l - (la + 1) + 1 = omega arith in
    let e' : x / 2 ^ (l - (la + 1) + 1) ≡ xa = rw up at e in
    omega (arith, next_cut x (l - (la + 1)))

-- The octant of `a` that a deeper key below it lies in.
abbrev pub octant_of : VoxelKey → VoxelKey → ℕ
octant_of a k =
    let cut = 2 ^ (depth k - (depth a + 1)) in
    pos_part k.x / cut % 2 + 2 * (pos_part k.y / cut % 2) + 4 * (pos_part k.z / cut % 2)

pub Below-octant_of :
    (a k : VoxelKey)
    → Below a k
    → depth a < depth k
    → (octant_of a k ≤ 7) × Below (kid a (octant_of a k)) k
Below-octant_of a k (h, bx, by, bz) d =
    let cx = axis_cut (pos_part k.x) (pos_part a.x) (depth a) (depth k) d bx in
    let cy = axis_cut (pos_part k.y) (pos_part a.y) (depth a) (depth k) d by in
    let cz = axis_cut (pos_part k.z) (pos_part a.z) (depth a) (depth k) d bz in
    (omega arith, (omega arith, omega arith, omega arith, omega arith))

-- The children of a key do not overlap.
pub kid_disjoint :
    (a k : VoxelKey) (o o' : ℕ) → o ≤ 7 → o' ≤ 7 → Below (kid a o) k → Below (kid a o') k → o ≡ o'
kid_disjoint a k o o' h h' (_, bx, by, bz) (_, bx', by', bz') = omega arith

-- A key below a child is below the parent.
pub Below-parent : (a k : VoxelKey) (o : ℕ) → o ≤ 7 → Below (kid a o) k → Below a k
Below-parent a k o h (l, bx, by, bz) =
    let up : depth k - depth a ≡ depth k - (depth a + 1) + 1 = omega arith in
    let nx = next_cut (pos_part k.x) (depth k - (depth a + 1)) in
    let ny = next_cut (pos_part k.y) (depth k - (depth a + 1)) in
    let nz = next_cut (pos_part k.z) (depth k - (depth a + 1)) in
    (omega arith, rw up (omega arith), rw up (omega arith), rw up (omega arith))

-- A key at the level of `a` that is below it is `a`.
pub Below-same_level : (a k : VoxelKey) → IsKey a → IsKey k → Below a k → depth k ≤ depth a → k ≡ a
Below-same_level a k ha hk (l, bx, by, bz) h =
    let same : depth k ≡ depth a = omega arith in
    let none : depth k - depth a ≡ 0 = omega arith in
    natural_lem k hk
    ∙ cc (
      same,
      uncut (pos_part k.x) (pos_part a.x) (rw none at bx),
      uncut (pos_part k.y) (pos_part a.y) (rw none at by),
      uncut (pos_part k.z) (pos_part a.z) (rw none at bz),
    )
    ∙ sym (natural_lem a ha)
  where
    uncut : (x y : ℕ) → x / 2 ^ 0 ≡ y → x ≡ y
    uncut x y e = omega arith
