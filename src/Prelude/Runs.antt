-- ===== src/Prelude/Runs.antt =====
-- Two runs of the model that end in the same way.
use mathlib.Core.Path.{◌≡◌, refl, subst}
use copc_rust.Prelude.Outcome.{Result, Error, ok, err, fault, ◌>>=◌}

-- Two runs end alike: with the same error, or with values that `R` relates.
abbrev pub Alike : {A B : Type 0} (R : A → B → Type 0) → Result A → Result B → Type 0
Alike R (ok a) (ok b) = R a b
Alike R (err e) (err e') = e ≡ e'
Alike R (fault e) (fault e') = e ≡ e'
Alike R run run' = ⊥

pub >>=-Alike :
    {A B A' B' : Type 0} (R : A → B → Type 0) (S : A' → B' → Type 0) (m : Result A) (m' : Result B)
    (f : A → Result A') (f' : B → Result B')
    → Alike R m m'
    → ((a : A) (b : B) → R a b → Alike S (f a) (f' b))
    → Alike S (m >>= f) (m' >>= f')
>>=-Alike R S (ok a) (ok b) f f' h k = k a b h
>>=-Alike R S (ok a) (err e) f f' h k = absurd h
>>=-Alike R S (ok a) (fault e) f f' h k = absurd h
>>=-Alike R S (err e) (ok b) f f' h k = absurd h
>>=-Alike R S (err e) (err e') f f' h k = h
>>=-Alike R S (err e) (fault e') f f' h k = absurd h
>>=-Alike R S (fault e) (ok b) f f' h k = absurd h
>>=-Alike R S (fault e) (err e') f f' h k = absurd h
>>=-Alike R S (fault e) (fault e') f f' h k = h

-- The same run first.
pub bind-Alike :
    {A A' B' : Type 0} (S : A' → B' → Type 0) (m : Result A) (f : A → Result A')
    (f' : A → Result B')
    → ((a : A) → m ≡ ok a → Alike S (f a) (f' a))
    → Alike S (m >>= f) (m >>= f')
bind-Alike S (ok a) f f' k = k a refl
bind-Alike S (err e) f f' k = refl
bind-Alike S (fault e) f f' k = refl

pub Alike-map :
    {A B : Type 0} (R S : A → B → Type 0) (m : Result A) (m' : Result B)
    → Alike R m m'
    → ((a : A) (b : B) → R a b → S a b)
    → Alike S m m'
Alike-map R S (ok a) (ok b) h k = k a b h
Alike-map R S (ok a) (err e) h k = absurd h
Alike-map R S (ok a) (fault e) h k = absurd h
Alike-map R S (err e) (ok b) h k = absurd h
Alike-map R S (err e) (err e') h k = h
Alike-map R S (err e) (fault e') h k = absurd h
Alike-map R S (fault e) (ok b) h k = absurd h
Alike-map R S (fault e) (err e') h k = absurd h
Alike-map R S (fault e) (fault e') h k = h

-- Both runs succeed, with values that `R` relates, or neither does.
abbrev pub Same : {A B : Type 0} (R : A → B → Type 0) → Result A → Result B → Type 0
Same R (ok a) (ok b) = R a b
Same R (ok a) run = ⊥
Same R run (ok b) = ⊥
Same R run run' = Unit {0}

pub Alike-Same :
    {A B : Type 0} (R : A → B → Type 0) (m : Result A) (m' : Result B) → Alike R m m' → Same R m m'
Alike-Same R (ok a) (ok b) h = h
Alike-Same R (ok a) (err e) h = h
Alike-Same R (ok a) (fault e) h = h
Alike-Same R (err e) (ok b) h = h
Alike-Same R (err e) (err e') h = tt
Alike-Same R (err e) (fault e') h = tt
Alike-Same R (fault e) (ok b) h = h
Alike-Same R (fault e) (err e') h = tt
Alike-Same R (fault e) (fault e') h = tt

pub >>=-Same :
    {A B A' B' : Type 0} (R : A → B → Type 0) (S : A' → B' → Type 0) (m : Result A) (m' : Result B)
    (f : A → Result A') (f' : B → Result B')
    → Same R m m'
    → ((a : A) (b : B) → R a b → Same S (f a) (f' b))
    → Same S (m >>= f) (m' >>= f')
>>=-Same R S (ok a) (ok b) f f' h k = k a b h
>>=-Same R S (ok a) (err e) f f' h k = absurd h
>>=-Same R S (ok a) (fault e) f f' h k = absurd h
>>=-Same R S (err e) (ok b) f f' h k = absurd h
>>=-Same R S (err e) (err e') f f' h k = tt
>>=-Same R S (err e) (fault e') f f' h k = tt
>>=-Same R S (fault e) (ok b) f f' h k = absurd h
>>=-Same R S (fault e) (err e') f f' h k = tt
>>=-Same R S (fault e) (fault e') f f' h k = tt

-- The same run first, on both sides.
pub bind-Same :
    {A A' B' : Type 0} (S : A' → B' → Type 0) (m : Result A) (f : A → Result A')
    (f' : A → Result B')
    → ((a : A) → m ≡ ok a → Same S (f a) (f' a))
    → Same S (m >>= f) (m >>= f')
bind-Same S (ok a) f f' k = k a refl
bind-Same S (err e) f f' k = tt
bind-Same S (fault e) f f' k = tt

fails_alike :
    {A B : Type 0} (S : A → B → Type 0) (m : Result A) (k k' : Result B)
    → Same S m k
    → ((b : B) → k ≡ ok b → ⊥)
    → ((b : B) → k' ≡ ok b → ⊥)
    → Same S m k'
fails_alike S m (ok b) k' h p q = absurd (p b refl)
fails_alike S m k (ok b) h p q = absurd (q b refl)
fails_alike S (ok a) (err e) (err e') h p q = h
fails_alike S (ok a) (err e) (fault e') h p q = h
fails_alike S (ok a) (fault e) (err e') h p q = h
fails_alike S (ok a) (fault e) (fault e') h p q = h
fails_alike S (err a) (err e) (err e') h p q = tt
fails_alike S (err a) (err e) (fault e') h p q = tt
fails_alike S (err a) (fault e) (err e') h p q = tt
fails_alike S (err a) (fault e) (fault e') h p q = tt
fails_alike S (fault a) (err e) (err e') h p q = tt
fails_alike S (fault a) (err e) (fault e') h p q = tt
fails_alike S (fault a) (fault e) (err e') h p q = tt
fails_alike S (fault a) (fault e) (fault e') h p q = tt

-- Two steps that do not depend on one another may change places.
pub swap-Same :
    {A B C D : Type 0} (S : C → D → Type 0) (x : Result C) (m : Result A) (n : Result B)
    (k : A → B → Result D)
    → Same S x (m >>= λ a. n >>= λ b. k a b)
    → Same S x (n >>= λ b. m >>= λ a. k a b)
swap-Same S x (ok a) (ok b) k h = h
swap-Same S x (ok a) (err e) k h = h
swap-Same S x (ok a) (fault e) k h = h
swap-Same S x (err e) (ok b) k h = h
swap-Same S x (fault e) (ok b) k h = h
swap-Same S x (err e) (err e') k h = fails_alike S x (err e) (err e') h (λ b p. cc) (λ b p. cc)
swap-Same S x (err e) (fault e') k h = fails_alike S x (err e) (fault e') h (λ b p. cc) (λ b p. cc)
swap-Same S x (fault e) (err e') k h = fails_alike S x (fault e) (err e') h (λ b p. cc) (λ b p. cc)
swap-Same S x (fault e) (fault e') k h =
    fails_alike S x (fault e) (fault e') h (λ b p. cc) (λ b p. cc)

pub Same-sym :
    {A B : Type 0} (R : A → B → Type 0) (m : Result A) (m' : Result B)
    → Same R m m'
    → Same (λ b a. R a b) m' m
Same-sym R (ok a) (ok b) h = h
Same-sym R (ok a) (err e) h = h
Same-sym R (ok a) (fault e) h = h
Same-sym R (err e) (ok b) h = h
Same-sym R (err e) (err e') h = tt
Same-sym R (err e) (fault e') h = tt
Same-sym R (fault e) (ok b) h = h
Same-sym R (fault e) (err e') h = tt
Same-sym R (fault e) (fault e') h = tt

pub >>=-assoc :
    {A B C : Type 0} (m : Result A) (f : A → Result B) (g : B → Result C)
    → ((m >>= f) >>= g) ≡ (m >>= λ a. f a >>= g)
>>=-assoc (ok a) f g = refl
>>=-assoc (err e) f g = refl
>>=-assoc (fault e) f g = refl

-- A value that the run returns satisfies `Q`.
abbrev pub Ensures : {A : Type 0} (Q : A → Type 0) → Result A → Type 0
Ensures Q (ok a) = Q a
Ensures Q (err e) = Unit {0}
Ensures Q (fault e) = Unit {0}

pub bind-Ensures :
    {A B : Type 0} (Q : B → Type 0) (m : Result A) (f : A → Result B)
    → ((a : A) → m ≡ ok a → Ensures Q (f a))
    → Ensures Q (m >>= f)
bind-Ensures Q (ok a) f k = k a refl
bind-Ensures Q (err e) f k = tt
bind-Ensures Q (fault e) f k = tt

pub Ensures-ok : {A : Type 0} (Q : A → Type 0) (m : Result A) (a : A) → Ensures Q m → m ≡ ok a → Q a
Ensures-ok Q (ok b) a h e = let same : b ≡ a = cc in subst Q same h
Ensures-ok Q (err k) a h e = cc
Ensures-ok Q (fault k) a h e = cc

pub Ensures-map :
    {A : Type 0} (P Q : A → Type 0) (m : Result A)
    → Ensures P m
    → ((a : A) → P a → Q a)
    → Ensures Q m
Ensures-map P Q (ok a) h k = k a h
Ensures-map P Q (err e) h k = tt
Ensures-map P Q (fault e) h k = tt

pub never-Same :
    {A B : Type 0} (R : A → B → Type 0) (m : Result A) (e : Error)
    → Ensures (λ a. ⊥) m
    → Same R m (err e)
never-Same R (ok a) e h = h
never-Same R (err k) e h = tt
never-Same R (fault k) e h = tt

pub Same-refl : {A : Type 0} (m : Result A) → Same (λ a b. a ≡ b) m m
Same-refl (ok a) = refl
Same-refl (err e) = tt
Same-refl (fault e) = tt
