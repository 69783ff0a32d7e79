-- ===== src/Prelude/Slices.antt =====
-- Reads `&src[from..to]` and writes `dst[from..to].copy_from_slice(src)`, which panic out of range.
use Prim.Native.Nat.{ℕ, ◌+◌, ◌-◌, ◌≤◌, ◌<◌}
use mathlib.Core.Path.{◌≡◌, ap, sym, ◌∙◌, ap₂}
use mathlib.Core.Bool.{◌&&◌}
use mathlib.Core.List.{List, ◌++◌, append_assoc}
use native.Mathlib.Omega.{arith}
use copc_rust.Prelude.Tests.{leb, ◌==◌, if◌then◌else◌}
use copc_rust.Prelude.Lists.{
  length, take, drop, take-append-drop, take-append, drop-append, drop-drop, length-append,
  length-take, length-drop,
}
use copc_rust.Prelude.Outcome.{Result, ok, fault, panic}

module _ {A : Type 0} where
  unfoldable pub slice : List A → ℕ → ℕ → Result (List A)
  slice src from to =
      if leb from to && leb to (length src)
      then ok (take (to - from) (drop from src))
      else fault panic

  unfoldable pub copy_from_slice : List A → ℕ → ℕ → List A → Result (List A)
  copy_from_slice dst from to src =
      if leb from to && leb to (length dst) && to - from == length src
      then ok (take from dst ++ (src ++ drop to dst))
      else fault panic

  pub slice_lem :
      (src : List A) (from to : ℕ)
      → from ≤ to
      → to ≤ length src
      → slice src from to ≡ ok (take (to - from) (drop from src))
  unfolding slice
  slice_lem src from to h k = ground arith

  pub slice_panics :
      (src : List A) (from to : ℕ) → length src < to → slice src from to ≡ fault panic
  unfolding slice
  slice_panics src from to h = ground arith

  -- A read at an offset where the source goes on with `mid`.
  pub slice_mid :
      (src mid post : List A) (from to : ℕ)
      → drop from src ≡ mid ++ post
      → from ≤ to
      → to ≤ length src
      → length mid ≡ to - from
      → slice src from to ≡ ok mid
  slice_mid src mid post from to e h k l =
      slice_lem src from to h k
      ∙ ap (λ t. ok (take (to - from) t)) e
      ∙ ap ok (take-append (to - from) mid post l)

  pub drop_mid :
      (src mid post : List A) (from to : ℕ)
      → drop from src ≡ mid ++ post
      → from ≤ to
      → length mid ≡ to - from
      → drop to src ≡ post
  drop_mid src mid post from to e h l =
      let n : to ≡ from + (to - from) = omega arith in
      ap (λ t. drop t src) n
      ∙ sym (drop-drop (to - from) from src)
      ∙ ap (drop (to - from)) e
      ∙ drop-append (to - from) mid post l

  -- A write just behind what is written already.
  pub copy_behind :
      (orig done src : List A) (from to : ℕ)
      → length done ≡ from
      → from + length src ≡ to
      → to ≤ length orig
      → copy_from_slice (done ++ drop from orig) from to src ≡ ok ((done ++ src) ++ drop to orig)
  copy_behind orig done src from to l e k =
      opened
      ∙ ap ok (ap₂ (λ a b. a ++ (src ++ b)) front back ∙ sym (append_assoc done src (drop to orig)))
    where
      dst : List A
      dst = done ++ drop from orig

      front : take from dst ≡ done
      front = take-append from done (drop from orig) l

      back : drop to dst ≡ drop to orig
      back =
          let n : to ≡ from + (to - from) = omega arith in
          ap (λ t. drop t dst) n
          ∙ sym (drop-drop (to - from) from dst)
          ∙ ap (drop (to - from)) (drop-append from done (drop from orig) l)
          ∙ drop-drop (to - from) from orig
          ∙ ap (λ t. drop t orig) (sym n)

      opened : copy_from_slice dst from to src ≡ ok (take from dst ++ (src ++ drop to dst))
      opened =
          unfold copy_from_slice in
          ground (arith, length-append done (drop from orig), length-drop from orig)

  -- The part from `from` on is its first elements and the part behind them.
  pub drop_split :
      (xs : List A) (from to : ℕ)
      → from ≤ to
      → take (to - from) (drop from xs) ++ drop to xs ≡ drop from xs
  drop_split xs from to h =
      let n : to ≡ from + (to - from) = omega arith in
      ap (λ t. take (to - from) (drop from xs) ++ t)
        (ap (λ t. drop t xs) n ∙ sym (drop-drop (to - from) from xs))
      ∙ take-append-drop (to - from) (drop from xs)

  pub length_part :
      (xs : List A) (from to : ℕ)
      → from ≤ to
      → to ≤ length xs
      → length (take (to - from) (drop from xs)) ≡ to - from
  length_part xs from to h k =
      omega (arith, length-take (to - from) (drop from xs), length-drop from xs)
