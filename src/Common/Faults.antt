-- ===== src/Common/Faults.antt =====
-- Code that can go wrong: `none` stands for a read through a null or dangling pointer, or for a
-- failed assertion.

use mathlib.Core.Path.{◌≡◌, refl}
use mathlib.Core.Bool.{Bool, true, false}
use mathlib.Core.Logic.{◌≢◌}
use mathlib.Core.Option.{Option, none, some}

infixl 5 ◌>>=◌ ◌>>◌
abbrev pub ◌>>=◌ {ℓ κ} : {A : Type ℓ} {B : Type κ} → Option A → (A → Option B) → Option B
none >>= f = none
some a >>= f = f a

abbrev pub ◌>>◌ {ℓ} : {B : Type ℓ} → Option (Unit {0}) → Option B → Option B
m >> k = m >>= λ _. k

-- An assertion.
abbrev pub check : Bool → Option (Unit {0})
check true = some tt
check false = none

-- What a run that ends without a fault has to satisfy; a fault satisfies nothing.
abbrev pub Returns {ℓ} : {A : Type ℓ} → Option A → (A → Type 0) → Type 0
Returns none P = ⊥
Returns (some a) P = P a

pub Returns-some {ℓ} :
    {A : Type ℓ} (P : A → Type 0) (m : Option A) → Returns m P → (a : A) × (m ≡ some a) × P a
Returns-some P none h = elim h [ ]
Returns-some P (some a) h = (a, refl, h)

pub some_eq {ℓ} : {A : Type ℓ} {a b : A} → some a ≡ some b → a ≡ b
some_eq h = cc

-- A run that ends, taken apart at its first step.
pub bind_inv {ℓ κ} :
    {A : Type ℓ} {B : Type κ} (m : Option A) (f : A → Option B) {b : B}
    → (m >>= f) ≡ some b
    → (a : A) × (m ≡ some a) × (f a ≡ some b)
bind_inv none f h = cc
bind_inv (some a) f h = (a, refl, h)

pub check_inv : (b : Bool) → check b ≡ some tt → b ≡ true
check_inv true h = refl
check_inv false h = cc

pub some_ne_none {ℓ} : {A : Type ℓ} (a : A) → some a ≢ none
some_ne_none a e = cc
