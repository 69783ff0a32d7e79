-- ===== src/Prelude/Int.antt =====
-- Signed machine integers: a value is an integer, and `IsI32` is the range of `i32`.
use Prim.Native.Nat.{ℕ, suc, ◌+◌, ◌-◌, ◌*◌, ◌/◌, ◌^◌, ◌≤◌, ◌<◌}
use mathlib.Core.Path.{◌≡◌}
use mathlib.Core.Bool.{Bool, ◌&&◌}
use mathlib.Core.Option.{Option, none, some}
use native.Mathlib.Omega.{arith}
use copc_rust.Prelude.Tests.{ltb, leb, ◌==◌ as nat_eq, if◌then◌else◌}

-- `negsuc n` is -(n + 1).
pub data ℤ : Type 0 where
  pos : ℕ → ℤ
  negsuc : ℕ → ℤ

abbrev pub pos_part : ℤ → ℕ
pos_part (pos n) = n
pos_part (negsuc n) = 0

abbrev pub neg_part : ℤ → ℕ
neg_part (pos n) = 0
neg_part (negsuc n) = suc n

-- a < b, a ≤ b and a == b.
abbrev pub ltb_ℤ : ℤ → ℤ → Bool
ltb_ℤ a b = ltb (pos_part a + neg_part b) (pos_part b + neg_part a)

abbrev pub leb_ℤ : ℤ → ℤ → Bool
leb_ℤ a b = leb (pos_part a + neg_part b) (pos_part b + neg_part a)

abbrev pub eqb_ℤ : ℤ → ℤ → Bool
eqb_ℤ a b = nat_eq (pos_part a + neg_part b) (pos_part b + neg_part a)

-- -2 ^ 31 ≤ a < 2 ^ 31
abbrev pub IsI32 : ℤ → Type 0
IsI32 a = (pos_part a < 2 ^ 31) × (neg_part a ≤ 2 ^ 31)

-- a - b, as an integer.
abbrev pub sub_ℕ : ℕ → ℕ → ℤ
sub_ℕ a b = if leb b a then pos (a - b) else negsuc (b - a - 1)

infixl 65 ◌+ℤ◌ ◌-ℤ◌
infixl 70 ◌*ℤ◌
unfoldable pub ◌+ℤ◌ : ℤ → ℤ → ℤ
a +ℤ b = sub_ℕ (pos_part a + pos_part b) (neg_part a + neg_part b)

unfoldable pub ◌-ℤ◌ : ℤ → ℤ → ℤ
a -ℤ b = sub_ℕ (pos_part a + neg_part b) (neg_part a + pos_part b)

unfoldable pub ◌*ℤ◌ : ℤ → ℤ → ℤ
a *ℤ b =
    sub_ℕ (pos_part a * pos_part b + neg_part a * neg_part b)
      (pos_part a * neg_part b + neg_part a * pos_part b)

abbrev pub in_i32 : ℤ → Option ℤ
in_i32 a = if ltb (pos_part a) (2 ^ 31) && leb (neg_part a) (2 ^ 31) then some a else none

-- `checked_add` and `checked_mul` of `i32`.
unfoldable pub checked_add_i32 : ℤ → ℤ → Option ℤ
unfolding ◌+ℤ◌
checked_add_i32 a b = in_i32 (a +ℤ b)

unfoldable pub checked_mul_i32 : ℤ → ℤ → Option ℤ
unfolding ◌*ℤ◌
checked_mul_i32 a b = in_i32 (a *ℤ b)

unfoldable pub checked_sub_i32 : ℤ → ℤ → Option ℤ
unfolding ◌-ℤ◌
checked_sub_i32 a b = in_i32 (a -ℤ b)

-- `a >> shift`, which rounds down.
abbrev pub shr_ℤ : ℤ → ℕ → ℤ
shr_ℤ (pos n) shift = pos (n / 2 ^ shift)
shr_ℤ (negsuc n) shift = negsuc (n / 2 ^ shift)

-- `u64::try_from(a)`, `usize::try_from(a)` and `u32::try_from(a)` of an `i32`.
abbrev pub to_unsigned : ℤ → Option ℕ
to_unsigned (pos n) = some n
to_unsigned (negsuc n) = none

-- `checked_add` of `u64`.
abbrev pub checked_add_u64 : ℕ → ℕ → Option ℕ
checked_add_u64 a b = if ltb (a + b) (2 ^ 64) then some (a + b) else none

pub double_fits : (n : ℕ) → 2 * n < 2 ^ 31 → checked_mul_i32 (pos n) (pos 2) ≡ some (pos (2 * n))
unfolding checked_mul_i32
double_fits n h = ground arith

pub sum_fits : (m n : ℕ) → m + n < 2 ^ 31 → checked_add_i32 (pos m) (pos n) ≡ some (pos (m + n))
unfolding checked_add_i32
sum_fits m n h = ground arith

pub difference_fits :
    (m n : ℕ) → n ≤ m → m < 2 ^ 31 → checked_sub_i32 (pos m) (pos n) ≡ some (pos (m - n))
unfolding checked_sub_i32
difference_fits m n h k = ground arith
