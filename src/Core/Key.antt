-- ===== src/Core/Key.antt =====
-- copc-core/src/hierarchy.rs: `VoxelKey`, its child keys and its validation.
pub mod Tree
use copc_rust.Prelude.{
  ℕ, suc, ◌+◌, ◌*◌, ◌/◌, ◌%◌, ◌^◌, ◌<◌, ◌≤◌, ◌≡◌, ◌≢◌, ap, refl, true, false, arith, Bool, ◌&&◌,
  ◌||◌, Option, none, some, ltb, leb, if◌then◌else◌, Result, ok, err, Error, invalid_input,
  invalid_data, reject_if, ok_or, ◌>>=◌, ◌>>◌,
}
use copc_rust.Prelude.Int.{
  ℤ, pos, negsuc, pos_part, neg_part, ltb_ℤ, leb_ℤ, IsI32, checked_add_i32, checked_mul_i32,
}
use mathlib.Core.Option
use copc_rust.Prelude.Order.{
  Sortable, order_ℤ, and_then, reverse, IsChain, order_ℤ-IsChain, and_then-IsChain, is_eq, is_eq→≡,
}
use Prim.Native.Nat.{Ordering}
use Prim.Native.Nat.Ordering.{eq, lt, gt}

pub record VoxelKey : Type 0 where
  pub level : ℤ
  pub x : ℤ
  pub y : ℤ
  pub z : ℤ

abbrev pub root : VoxelKey
root = record { level = pos 0; x = pos 0; y = pos 0; z = pos 0 }

-- `1i32 << level`, for a level in 0..31.
abbrev pub axis_limit : ℤ → ℤ
axis_limit level = pos (2 ^ pos_part level)

abbrev pub is_negative : ℤ → Bool
is_negative a = ltb_ℤ a (pos 0)

abbrev pub is_outside : VoxelKey → Bool
is_outside key =
    leb_ℤ (axis_limit key.level) key.x
    || leb_ℤ (axis_limit key.level) key.y
    || leb_ℤ (axis_limit key.level) key.z

pub validate : VoxelKey → Result (Unit {0})
validate key = do
  reject_if (is_negative key.level || is_negative key.x || is_negative key.y || is_negative key.z)
      invalid_data
  reject_if (ltb_ℤ key.level (pos 31) && is_outside key) invalid_data

-- `axis.checked_mul(2).and_then(|axis| axis.checked_add(i32::from(bit)))`
child_axis : ℤ → ℕ → Result ℤ
unfolding checked_mul_i32 checked_add_i32 Option.bind
child_axis axis bit =
    ok_or (Option.bind (checked_mul_i32 axis (pos 2)) (λ a. checked_add_i32 a (pos bit)))
      invalid_input

-- `octant >> k & 1`
abbrev pub octant_bit : ℕ → ℕ → ℕ
octant_bit octant k = octant / 2 ^ k % 2

pub child : VoxelKey → ℕ → Result VoxelKey
unfolding validate child_axis
child key octant = do
  validate key
  reject_if (ltb 7 octant) invalid_input
  level ← ok_or (checked_add_i32 key.level (pos 1)) invalid_input
  x ← child_axis key.x (octant_bit octant 0)
  y ← child_axis key.y (octant_bit octant 1)
  z ← child_axis key.z (octant_bit octant 2)
  let c : VoxelKey = record { level = level; x = x; y = y; z = z }
  validate c
  ok c

-- `#[derive(PartialOrd, Ord)]`: the fields compare in their order.
abbrev pub cmp_key : VoxelKey → VoxelKey → Ordering
cmp_key a b =
    and_then (order_ℤ a.level b.level)
      (and_then (order_ℤ a.x b.x) (and_then (order_ℤ a.y b.y) (order_ℤ a.z b.z)))

pub cmp_key-IsChain : (a b c : VoxelKey) → IsChain (cmp_key a b) (cmp_key b c) (cmp_key a c)
cmp_key-IsChain a b c =
    let level = order_ℤ-IsChain a.level b.level c.level in
    let x = order_ℤ-IsChain a.x b.x c.x in
    let y = order_ℤ-IsChain a.y b.y c.y in
    let z = order_ℤ-IsChain a.z b.z c.z in
    and_then-IsChain _ _ _ _ _ _ level
      (and_then-IsChain _ _ _ _ _ _ x (and_then-IsChain _ _ _ _ _ _ y z))

pub cmp_key-reverse : (a b : VoxelKey) → cmp_key b a ≡ reverse (cmp_key a b)
cmp_key-reverse a b = ground arith

pub cmp_key_equal : (a b : VoxelKey) → cmp_key a b ≡ eq → a ≡ b
cmp_key_equal a b h = ground arith

pub cmp_key_self : (a : VoxelKey) → cmp_key a a ≡ eq
cmp_key_self a = ground arith

pub cmp_key_below : (a b c : VoxelKey) → cmp_key a b ≡ lt → cmp_key b c ≡ lt → cmp_key a c ≡ lt
cmp_key_below a b c h k = (cmp_key-IsChain a b c).0 h (rw k λ e. cc)

instance abbrev pub key_order : Sortable VoxelKey
key_order = record {
  order = cmp_key;
  reversed = cmp_key-reverse;
  below = cmp_key_below;
  equal = cmp_key_equal;
  itself = cmp_key_self;
}

-- `self.key == other`
abbrev pub eq_key : VoxelKey → VoxelKey → Bool
eq_key a b = is_eq (cmp_key a b)

pub eq_key→≡ : (a b : VoxelKey) → eq_key a b ≡ true → a ≡ b
eq_key→≡ a b h = cmp_key_equal a b (is_eq→≡ (cmp_key a b) h)

pub eq_key→≢ : (a b : VoxelKey) → eq_key a b ≡ false → a ≢ b
eq_key→≢ a b h e = cc (h, ap is_eq (cmp_key_self b))

pub eq_key_self : (a : VoxelKey) → eq_key a a ≡ true
eq_key_self a = ap is_eq (cmp_key_self a)
