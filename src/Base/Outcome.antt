-- ===== src/Base/Outcome.antt =====
-- The outcome of code that may read outside an array or run out of its fuel.

use mathlib.Core.Path.{◌≡◌, refl}

-- `fault` is an access outside an array, which C leaves undefined. `stuck` is no outcome of
-- the C code: the fuel of the model ran out.
pub data Run {ℓ} (A : Type ℓ) : Type ℓ where
  done : A → Run A
  fault : Run A
  stuck : Run A

infixl 5 ◌>>=◌
abbrev pub ◌>>=◌ {ℓ κ} : {A : Type ℓ} {B : Type κ} → Run A → (A → Run B) → Run B
done a >>= f = f a
fault >>= f = fault
stuck >>= f = stuck

-- Total correctness: the code returns normally, with a value of which `P` holds.
pub data Returns {ℓ κ} {A : Type ℓ} (P : A → Type κ) : Run A → Type (ℓ ⊔ κ) where
  returns : {a : A} → P a → Returns P (done a)

pub Returns-bind {ℓ κ μ ν} :
    {A : Type ℓ} {B : Type κ} {P : A → Type μ} {Q : B → Type ν} (f : A → Run B) {m : Run A}
    → Returns P m
    → ((a : A) → P a → Returns Q (f a))
    → Returns Q (m >>= f)
Returns-bind f (returns {a = a} p) k = k a p

pub Returns-value {ℓ κ} :
    {A : Type ℓ} {P : A → Type κ} {m : Run A} → Returns P m → (a : A) × (m ≡ done a) × P a
Returns-value (returns {a = a} p) = (a, refl, p)

pub Returns-at {ℓ κ} : {A : Type ℓ} {P : A → Type κ} {a : A} → Returns P (done a) → P a
Returns-at (returns p) = p

-- The code faults, or returns a value of which `P` holds; it does not run out of fuel.
pub data FaultsOr {ℓ κ} {A : Type ℓ} (P : A → Type κ) : Run A → Type (ℓ ⊔ κ) where
  faults : FaultsOr P fault
  gives : {a : A} → P a → FaultsOr P (done a)

pub FaultsOr-bind {ℓ κ μ ν} :
    {A : Type ℓ} {B : Type κ} {P : A → Type μ} {Q : B → Type ν} (f : A → Run B) {m : Run A}
    → FaultsOr P m
    → ((a : A) → P a → FaultsOr Q (f a))
    → FaultsOr Q (m >>= f)
FaultsOr-bind f faults k = faults
FaultsOr-bind f (gives {a = a} p) k = k a p

pub FaultsOr-fault {ℓ} : {A : Type ℓ} {m : Run A} → FaultsOr {A = A} (λ _. ⊥) m → m ≡ fault
FaultsOr-fault faults = refl
FaultsOr-fault (gives p) = absurd p

pub FaultsOr-mono {ℓ κ μ} :
    {A : Type ℓ} {P : A → Type κ} {Q : A → Type μ} {m : Run A}
    → FaultsOr P m
    → ((a : A) → P a → Q a)
    → FaultsOr Q m
FaultsOr-mono faults k = faults
FaultsOr-mono (gives p) k = gives (k _ p)
