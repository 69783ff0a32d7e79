-- ===== src/Prelude/Bytes.antt =====
-- Little-endian bytes, `to_le_bytes` and `from_le_bytes`, and writes into a byte slice.
use Prim.Native.Nat.{ℕ, zero, suc, ◌+◌, ◌-◌, ◌*◌, ◌/◌, ◌%◌, ◌^◌, ◌<◌}
use mathlib.Core.Path.{◌≡◌, refl, ap, ◌∙◌}
use mathlib.Core.List.{List, [], ◌∷◌}
use native.Mathlib.Omega.{arith}
use native.Mathlib.Nat.{pow-suc}
use copc_rust.Prelude.Tests.{ltb, if◌then◌else◌}
use copc_rust.Prelude.Lists.{length, All}
use copc_rust.Prelude.Int.{ℤ, pos, negsuc, IsI32}

abbrev pub IsByte : ℕ → Type 0
IsByte b = b < 256

abbrev pub IsU64 : ℕ → Type 0
IsU64 v = v < 2 ^ 64

-- The `n` low bytes of `v`, lowest first.
unfoldable pub to_le : ℕ → ℕ → List ℕ
to_le zero v = []
to_le (suc n) v = (v % 256) ∷ to_le n (v / 256)

unfoldable pub from_le : List ℕ → ℕ
from_le [] = 0
from_le (b ∷ bs) = b + 256 * from_le bs

pub length-to_le : (n v : ℕ) → length (to_le n v) ≡ n
unfolding to_le
length-to_le zero v = refl
length-to_le (suc n) v = ap suc (length-to_le n (v / 256))

pub to_le-IsByte : (n v : ℕ) → All IsByte (to_le n v)
unfolding to_le
to_le-IsByte zero v = tt
to_le-IsByte (suc n) v = (omega arith, to_le-IsByte n (v / 256))

pub from_le-to_le : (n v : ℕ) → v < 256 ^ n → from_le (to_le n v) ≡ v
unfolding to_le from_le
from_le-to_le zero v h = omega arith
from_le-to_le (suc n) v h =
    let below : v < 256 ^ n * 256 = rw (← pow-suc) h in
    omega (arith, from_le-to_le n (v / 256) (omega arith))

pub from_le-lt : (bs : List ℕ) → All IsByte bs → from_le bs < 256 ^ length bs
unfolding from_le
from_le-lt [] h = omega arith
from_le-lt (b ∷ bs) (hb, h) = rw pow-suc (omega (arith, from_le-lt bs h))

pub to_le-from_le :
    (n : ℕ) (bs : List ℕ) → All IsByte bs → length bs ≡ n → to_le n (from_le bs) ≡ bs
unfolding to_le from_le
to_le-from_le zero [] h e = refl
to_le-from_le zero (b ∷ bs) h e = absurd (omega arith)
to_le-from_le (suc n) [] h e = absurd (omega arith)
to_le-from_le (suc n) (b ∷ bs) (hb, h) e =
    let low : (b + 256 * from_le bs) % 256 ≡ b = omega arith in
    let high : (b + 256 * from_le bs) / 256 ≡ from_le bs = omega arith in
    rw (low, high, to_le-from_le n bs h (omega arith))

-- An `i32` and its two's complement pattern.
unfoldable pub to_word32 : ℤ → ℕ
to_word32 (pos n) = n
to_word32 (negsuc n) = 2 ^ 32 - 1 - n

unfoldable pub from_word32 : ℕ → ℤ
from_word32 w = if ltb w (2 ^ 31) then pos w else negsuc (2 ^ 32 - 1 - w)

pub from_word32-to_word32 : (z : ℤ) → IsI32 z → from_word32 (to_word32 z) ≡ z
unfolding to_word32 from_word32
from_word32-to_word32 (pos n) h = ground arith
from_word32-to_word32 (negsuc n) h = ground arith

pub to_word32-from_word32 : (w : ℕ) → w < 2 ^ 32 → to_word32 (from_word32 w) ≡ w
unfolding to_word32 from_word32
to_word32-from_word32 w h = ground arith

pub to_word32-lt : (z : ℤ) → IsI32 z → to_word32 z < 2 ^ 32
unfolding to_word32
to_word32-lt (pos n) h = omega arith
to_word32-lt (negsuc n) h = omega arith

pub from_word32-IsI32 : (w : ℕ) → w < 2 ^ 32 → IsI32 (from_word32 w)
unfolding from_word32
from_word32-IsI32 w h = ground arith

unfoldable pub i32_to_le : ℤ → List ℕ
i32_to_le z = to_le 4 (to_word32 z)

unfoldable pub i32_from_le : List ℕ → ℤ
i32_from_le bs = from_word32 (from_le bs)

pub length-i32_to_le : (z : ℤ) → length (i32_to_le z) ≡ 4
unfolding i32_to_le
length-i32_to_le z = length-to_le 4 (to_word32 z)

pub i32_from_le-i32_to_le : (z : ℤ) → IsI32 z → i32_from_le (i32_to_le z) ≡ z
unfolding i32_to_le i32_from_le
i32_from_le-i32_to_le z h =
    ap from_word32 (from_le-to_le 4 (to_word32 z) (to_word32-lt z h)) ∙ from_word32-to_word32 z h

pub i32_to_le-i32_from_le :
    (bs : List ℕ) → All IsByte bs → length bs ≡ 4 → i32_to_le (i32_from_le bs) ≡ bs
unfolding i32_to_le i32_from_le
i32_to_le-i32_from_le bs h e =
    let below : from_le bs < 256 ^ 4 = rw e at (from_le-lt bs h) in
    ap (to_le 4) (to_word32-from_word32 (from_le bs) below) ∙ to_le-from_le 4 bs h e

pub i32_from_le-IsI32 : (bs : List ℕ) → All IsByte bs → length bs ≡ 4 → IsI32 (i32_from_le bs)
unfolding i32_from_le
i32_from_le-IsI32 bs h e =
    let below : from_le bs < 256 ^ 4 = rw e at (from_le-lt bs h) in
    from_word32-IsI32 (from_le bs) below
