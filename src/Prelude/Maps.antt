-- ===== src/Prelude/Maps.antt =====
-- `BTreeMap` as an association list in the order of its keys.
use Prim.Native.Nat.Ordering.{lt, eq, gt}
use mathlib.Core.Path.{◌≡◌, refl, ap, ◌∙◌}
use mathlib.Core.Logic.{inl, inr}
use mathlib.Core.Option.{Option, none, some}
use mathlib.Core.List.{List, [], ◌∷◌}
use native.Mathlib.Omega.{arith}
use copc_rust.Prelude.Tests.{if◌then◌else◌}
use copc_rust.Prelude.Lists.{All}
use copc_rust.Prelude.Order.{Sortable, reverse, is_eq, Ordering-cases}

module _ {K V : Type 0} ⦃o : Sortable K⦄ where
  unfoldable pub get : K → List (K × V) → Option V
  get k [] = none
  get k ((j, w) ∷ m) = if is_eq (o.order k j) then some w else get k m

  unfoldable pub insert : K → V → List (K × V) → List (K × V)
  insert k v [] = (k, v) ∷ []
  insert k v ((j, w) ∷ m) = elim (o.order k j) [
    | lt ↦ (k, v) ∷ (j, w) ∷ m
    | eq ↦ (k, v) ∷ m
    | gt ↦ (j, w) ∷ insert k v m
  ]

  -- Every key of `m` lies above `k`.
  abbrev pub IsAbove : K → List (K × V) → Type 0
  IsAbove k = All (λ e. o.order k e.0 ≡ lt)

  abbrev pub IsSorted : List (K × V) → Type 0
  IsSorted [] = Unit
  IsSorted (e ∷ m) = IsAbove e.0 m × IsSorted m

  -- A map after an insertion, at each key.
  pub get-insert :
      (j k : K) (v : V) (m : List (K × V))
      → get j (insert k v m) ≡ (if is_eq (o.order j k) then some v else get j m)
  unfolding get insert
  get-insert j k v [] = refl
  get-insert j k v ((i, w) ∷ m) =
      ground (arith, get-insert j k v m, o.equal k i, o.equal j k, o.equal j i, o.itself k)

  IsAbove-trans : (j k : K) (m : List (K × V)) → o.order j k ≡ lt → IsAbove k m → IsAbove j m
  IsAbove-trans j k [] h a = tt
  IsAbove-trans j k (e ∷ m) h (a, b) = (o.below j k e.0 h a, IsAbove-trans j k m h b)

  IsAbove-insert :
      (j k : K) (v : V) (m : List (K × V))
      → o.order j k ≡ lt
      → IsAbove j m
      → IsAbove j (insert k v m)
  unfolding insert
  IsAbove-insert j k v [] h a = (h, tt)
  IsAbove-insert j k v ((i, w) ∷ m) h (a, b) = elim (Ordering-cases (o.order k i)) [
    | inl e ↦ rw (e, insert) (h, (a, b))
    | inr (inl e) ↦ rw (e, insert) (h, b)
    | inr (inr e) ↦ rw (e, insert) (a, IsAbove-insert j k v m h b)
  ]

  pub insert-IsSorted : (k : K) (v : V) (m : List (K × V)) → IsSorted m → IsSorted (insert k v m)
  unfolding insert
  insert-IsSorted k v [] s = (tt, tt)
  insert-IsSorted k v ((i, w) ∷ m) (a, s) = elim (Ordering-cases (o.order k i)) [
    | inl e ↦ rw (e, insert) ((e, IsAbove-trans k i m e a), (a, s))
    | inr (inl e) ↦ rw (e, insert) (rw (o.equal k i e) a, s)
    | inr (inr e) ↦
        rw (e, insert)
          (IsAbove-insert i k v m (o.reversed k i ∙ ap reverse e) a, insert-IsSorted k v m s)
  ]
