-- ===== src/Prelude/States.antt =====
-- Steps that change a state and may fail; the state comes back also where a step fails.
use mathlib.Core.Path.{◌≡◌, ◌∙◌, refl, ap}
use copc_rust.Prelude.Outcome.{Result, ok, err, fault, Error, Fault}

abbrev pub M : Type 0 → Type 0 → Type 0
M S A = S → Result A × S

module _ {S A : Type 0} where
  abbrev pub continue : {B : Type 0} → Result A × S → (A → M S B) → Result B × S
  continue (fault why, s) next = (fault why, s)
  continue (err kind, s) next = (err kind, s)
  continue (ok value, s) next = next value s

  infixl 5 ◌>>=◌
  abbrev pub ◌>>=◌ : {B : Type 0} → M S A → (A → M S B) → M S B
  ◌>>=◌ m next s = continue (m s) next

  abbrev pub lift : Result A → M S A
  lift run s = (run, s)

infixl 5 ◌>>◌
abbrev pub ◌>>◌ : {S A B : Type 0} → M S A → M S B → M S B
◌>>◌ m k = m >>= λ done. k

abbrev pub current : {S : Type 0} → M S S
current s = (ok s, s)

abbrev pub update : {S : Type 0} → (S → S) → M S (Unit {0})
update change s = (ok tt, change s)

-- What holds of a step, and of the next one from each of its outcomes.
pub continue-Holds :
    {S A B : Type 0} (P : Result A × S → Type 0) (Q : Result B × S → Type 0) (r : Result A × S)
    (f : A → M S B)
    → P r
    → ((a : A) (t : S) → P (ok a, t) → Q (f a t))
    → ((e : Error) (t : S) → P (err e, t) → Q (err e, t))
    → ((w : Fault) (t : S) → P (fault w, t) → Q (fault w, t))
    → Q (continue r f)
continue-Holds P Q (ok a, t) f p next stop fail = next a t p
continue-Holds P Q (err e, t) f p next stop fail = stop e t p
continue-Holds P Q (fault w, t) f p next stop fail = fail w t p

-- A step that succeeds before one that does.
pub continue-eq-ok :
    {S A B : Type 0} (r : Result A × S) (f : A → M S B) (b : B) (t : S)
    → continue r f ≡ (ok b, t)
    → (a : A) × (u : S) × (r ≡ (ok a, u)) × (f a u ≡ (ok b, t))
continue-eq-ok (ok a, u) f b t h = (a, u, refl, h)
continue-eq-ok (err e, u) f b t h = let same = ap (λ r. r.0) h in absurd (cc same)
continue-eq-ok (fault w, u) f b t h = let same = ap (λ r. r.0) h in absurd (cc same)

-- Two steps keep a part of the state, if both do.
pub continue-keeps :
    {S A B X : Type 0} (part : S → X) (r : Result A × S) (f : A → M S B) (x : X)
    → part r.1 ≡ x
    → ((a : A) (s : S) → part (f a s).1 ≡ part s)
    → part (continue r f).1 ≡ x
continue-keeps part (fault w, s) f x h k = h
continue-keeps part (err e, s) f x h k = h
continue-keeps part (ok a, s) f x h k = k a s ∙ h
