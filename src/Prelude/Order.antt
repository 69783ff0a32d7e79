-- ===== src/Prelude/Order.antt =====
-- The trait `Ord`, as far as `BTreeMap` and `#[derive(Ord)]` rely on it.
use Prim.Native.Nat.{ℕ, compare, Ordering, ◌+◌}
use Prim.Native.Nat.Ordering.{lt, eq, gt}
use mathlib.Core.Path.{◌≡◌, refl}
use mathlib.Core.Bool.{Bool, true, false}
use mathlib.Core.Logic.{◌⊎◌, ◌≢◌, inl, inr}
use native.Mathlib.Omega.{arith}
use copc_rust.Prelude.Int.{ℤ, pos_part, neg_part}

-- `Ordering::reverse`
abbrev pub reverse : Ordering → Ordering
reverse lt = gt
reverse eq = eq
reverse gt = lt

-- `Ordering::then`
abbrev pub and_then : Ordering → Ordering → Ordering
and_then eq second = second
and_then first _ = first

-- `Ordering::is_eq`
abbrev pub is_eq : Ordering → Bool
is_eq eq = true
is_eq _ = false

pub is_eq→≡ : (c : Ordering) → is_eq c ≡ true → c ≡ eq
is_eq→≡ lt h = cc
is_eq→≡ eq h = refl
is_eq→≡ gt h = cc

pub Ordering-cases : (c : Ordering) → (c ≡ lt) ⊎ (c ≡ eq) ⊎ (c ≡ gt)
Ordering-cases lt = inl refl
Ordering-cases eq = inr (inl refl)
Ordering-cases gt = inr (inr refl)

-- A type of map keys, whose comparison agrees with the equality of the type.
pub record Sortable (K : Type 0) : Type 0 where
  pub order : K → K → Ordering
  pub reversed : (a b : K) → order b a ≡ reverse (order a b)
  pub below : (a b c : K) → order a b ≡ lt → order b c ≡ lt → order a c ≡ lt
  pub equal : (a b : K) → order a b ≡ eq → a ≡ b
  pub itself : (a : K) → order a a ≡ eq

pub compare-reverse : (a b : ℕ) → compare b a ≡ reverse (compare a b)
compare-reverse a b = ground arith

pub compare_below : (a b c : ℕ) → compare a b ≡ lt → compare b c ≡ lt → compare a c ≡ lt
compare_below a b c = ground arith

pub compare_equal : (a b : ℕ) → compare a b ≡ eq → a ≡ b
compare_equal a b = ground arith

pub compare_self : (a : ℕ) → compare a a ≡ eq
compare_self a = ground arith

-- `u64::cmp`
instance abbrev pub nat_order : Sortable ℕ
nat_order = record {
  order = compare;
  reversed = compare-reverse;
  below = compare_below;
  equal = compare_equal;
  itself = compare_self;
}

-- `i32::cmp`
abbrev pub order_ℤ : ℤ → ℤ → Ordering
order_ℤ a b = compare (pos_part a + neg_part b) (pos_part b + neg_part a)

-- How the comparisons of three values in a row, `a b`, `b c` and `a c`, hang together.
abbrev pub IsChain : Ordering → Ordering → Ordering → Type 0
IsChain p q r = (p ≡ lt → q ≢ gt → r ≡ lt) × (p ≢ gt → q ≡ lt → r ≡ lt) × (p ≡ eq → q ≡ eq → r ≡ eq)

pub order_ℤ-IsChain : (a b c : ℤ) → IsChain (order_ℤ a b) (order_ℤ b c) (order_ℤ a c)
order_ℤ-IsChain a b c = ground arith

pub and_then-IsChain :
    (p q r p' q' r' : Ordering)
    → IsChain p q r
    → IsChain p' q' r'
    → IsChain (and_then p p') (and_then q q') (and_then r r')
and_then-IsChain p q r p' q' r' h h' = ground arith
