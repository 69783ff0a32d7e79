-- ===== src/Prelude/Outcome.antt =====
-- copc-core/src/error.rs: `Result` and the kinds of `Error`; the messages are left out.
use mathlib.Core.Path.{◌≡◌, refl}
use mathlib.Core.Logic.{◌⊎◌, inl, inr}
use mathlib.Core.Bool.{Bool, true, false}
use mathlib.Core.Option.{Option, none, some}

pub data Error : Type 0 where
  invalid_input invalid_data las io cancelled unsupported : Error

-- What a run of the model can end in beside the values of the source's `Result`: a Rust panic (a
-- slice or an arithmetic operation out of range), or a loop that used up the fuel of the model.
pub data Fault : Type 0 where
  panic out_of_fuel : Fault

pub data Result {ℓ} (A : Type ℓ) : Type ℓ where
  ok : A → Result A
  err : Error → Result A
  fault : Fault → Result A

module _ {ℓ κ} {A : Type ℓ} {B : Type κ} where
  infixl 5 ◌>>=◌
  -- The operator `?`.
  abbrev pub ◌>>=◌ : Result A → (A → Result B) → Result B
  fault why >>= next = fault why
  err kind >>= next = err kind
  ok value >>= next = next value

infixl 5 ◌>>◌
abbrev pub ◌>>◌ {ℓ} : {B : Type ℓ} → Result (Unit {0}) → Result B → Result B
check >> next = check >>= λ done. next

-- `if test { return Err(e); }`
abbrev pub reject_if : Bool → Error → Result (Unit {0})
reject_if true e = err e
reject_if false e = ok tt

-- `option.ok_or_else(|| e)`
abbrev pub ok_or {ℓ} : {A : Type ℓ} → Option A → Error → Result A
ok_or none e = err e
ok_or (some a) e = ok a

-- An operation that panics where it has no result.
abbrev pub or_panic {ℓ} : {A : Type ℓ} → Option A → Result A
or_panic none = fault panic
or_panic (some a) = ok a

abbrev pub IsOk {ℓ} : {A : Type ℓ} → Result A → Type 0
IsOk (ok a) = Unit
IsOk (err e) = ⊥
IsOk (fault e) = ⊥

-- The code returns: it neither panics nor uses up the fuel.
abbrev pub Returns {ℓ} : {A : Type ℓ} → Result A → Type 0
Returns (ok a) = Unit
Returns (err e) = Unit
Returns (fault e) = ⊥

module _ {ℓ κ} {A : Type ℓ} {B : Type κ} where
  -- What `?` let through.
  pub >>=-eq-ok :
      (run : Result A) (next : A → Result B) {end : B}
      → (run >>= next) ≡ ok end
      → (value : A) × (run ≡ ok value) × (next value ≡ ok end)
  >>=-eq-ok (fault why) next e = cc
  >>=-eq-ok (err kind) next e = cc
  >>=-eq-ok (ok value) next e = (value, refl, e)

pub reject_if-ok : (b : Bool) (e : Error) {t : Unit {0}} → reject_if b e ≡ ok t → b ≡ false
reject_if-ok true e h = cc
reject_if-ok false e h = refl

pub Result-cases {ℓ} :
    {A : Type ℓ} (run : Result A)
    → Returns run
    → ((value : A) × (run ≡ ok value)) ⊎ ((kind : Error) × (run ≡ err kind))
Result-cases (fault why) returns = absurd returns
Result-cases (err kind) returns = inr (kind, refl)
Result-cases (ok value) returns = inl (value, refl)

pub >>=-Returns {ℓ κ} :
    {A : Type ℓ} {B : Type κ} (m : Result A) (f : A → Result B)
    → Returns m
    → ((a : A) → Returns (f a))
    → Returns (m >>= f)
>>=-Returns (ok a) f h k = k a
>>=-Returns (err e) f h k = tt
>>=-Returns (fault e) f h k = absurd h

pub reject_if-Returns : (b : Bool) (e : Error) → Returns (reject_if b e)
reject_if-Returns true e = tt
reject_if-Returns false e = tt

pub ok_or-Returns {ℓ} : {A : Type ℓ} (o : Option A) (e : Error) → Returns (ok_or o e)
ok_or-Returns none e = tt
ok_or-Returns (some a) e = tt
