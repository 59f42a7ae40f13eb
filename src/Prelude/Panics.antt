-- ===== src/Prelude/Panics.antt =====
-- A Go computation that may stop in a run-time panic (a nil pointer that is read).
use mathlib.Core.Path.{◌≡◌, refl, ap}
use mathlib.Core.List.{List, [], ◌∷◌, map}
use mathlib.Core.Option.{Option, none, some}

pub data Go {ℓ} (A : Type ℓ) : Type ℓ where
  ret : A → Go A
  panic : Go A

infixl 5 ◌>>=◌
abbrev pub ◌>>=◌ {ℓ κ} : {A : Type ℓ} {B : Type κ} → Go A → (A → Go B) → Go B
ret a >>= f = f a
panic >>= f = panic

-- A field of a pointer that may be nil.
abbrev pub deref {ℓ} : {A : Type ℓ} → Option A → Go A
deref none = panic
deref (some a) = ret a

-- `xs[0]`
abbrev pub first {ℓ} : {A : Type ℓ} → List A → Go A
first [] = panic
first (x ∷ xs) = ret x

pub >>=-eq-ret {ℓ κ} :
    {A : Type ℓ} {B : Type κ} (m : Go A) (f : A → Go B) {b : B}
    → (m >>= f) ≡ ret b
    → (a : A) × (m ≡ ret a) × (f a ≡ ret b)
>>=-eq-ret (ret a) f h = (a, refl, h)
>>=-eq-ret panic f h = cc

-- `m` does not panic.
abbrev pub Returns {ℓ} : {A : Type ℓ} → Go A → Type ℓ
Returns {A} m = (a : A) × (m ≡ ret a)

pub Returns-bind {ℓ κ} :
    {A : Type ℓ} {B : Type κ} (m : Go A) (f : A → Go B)
    → Returns m
    → ((a : A) → m ≡ ret a → Returns (f a))
    → Returns (m >>= f)
Returns-bind (ret a) f h k = k a refl
Returns-bind panic f h k = cc (h.1)

-- A branch on an `Option` whose nil case returns.
pub Returns-case {ℓ κ} :
    {A : Type ℓ} {B : Type κ} (o : Option A) (b : B) (f : A → Go B)
    → ((a : A) → Returns (f a))
    → Returns (elim o as (λ _. Go B) [ none ↦ ret b | some a ↦ f a ])
Returns-case none b f h = (b, refl)
Returns-case (some a) b f h = h a

-- `m` does not panic, and what it returns is as `P` says.
abbrev pub Yields {ℓ κ} : {A : Type ℓ} → (A → Type κ) → Go A → Type ((ℓ ⊔ κ))
Yields {A} P m = (a : A) × (m ≡ ret a) × P a

pub Yields-bind {ℓ κ ι υ} :
    {A : Type ℓ} {B : Type κ} {P : A → Type ι} {Q : B → Type υ} (m : Go A) (f : A → Go B)
    → Yields P m
    → ((a : A) → m ≡ ret a → P a → Yields Q (f a))
    → Yields Q (m >>= f)
Yields-bind m f (a, e, p) k = rw e (k a e p)

-- The pointers of a list that are not nil.
abbrev pub present {ℓ} : {A : Type ℓ} → List (Option A) → List A
present [] = []
present (none ∷ os) = present os
present (some a ∷ os) = a ∷ present os

pub present-map {ℓ} : {A : Type ℓ} (xs : List A) → present (map some xs) ≡ xs
present-map [] = refl
present-map (x ∷ xs) = ap (λ l. x ∷ l) (present-map xs)

-- One of the pointers is nil.
abbrev pub HasNil {ℓ} : {A : Type ℓ} → List (Option A) → Type 0
HasNil [] = ⊥
HasNil (none ∷ os) = Unit
HasNil (some a ∷ os) = HasNil os

-- A panic that a return follows comes from before.
pub >>=-ret-panic {ℓ κ} :
    {A : Type ℓ} {B : Type κ} (m : Go A) (f : A → B) → (m >>= λ a. ret (f a)) ≡ panic → m ≡ panic
>>=-ret-panic (ret a) f h = absurd (cc)
>>=-ret-panic panic f h = refl
