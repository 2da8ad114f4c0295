-- ===== src/Base/Run.antt =====
-- The result of a C call: a value, or one of the faults that end the run. `out_of_fuel` is no fault of
-- the code: a loop of the model has used up its rounds.
use mathlib.Core.Path.{◌≡◌, refl}

pub data Fault : Type 0 where
  dangling : Fault
  assertion : Fault
  out_of_bounds : Fault
  reported : Fault
  out_of_fuel : Fault

pub data Run {ℓ} (A : Type ℓ) : Type ℓ where
  ok : A → Run A
  fault : Fault → Run A

infixl 5 ◌>>=◌ ◌>>◌
abbrev pub ◌>>=◌ {ℓ κ} : {A : Type ℓ} {B : Type κ} → Run A → (A → Run B) → Run B
ok a >>= f = f a
fault e >>= f = fault e

abbrev pub ◌>>◌ {ℓ} : {B : Type ℓ} → Run (Unit {0}) → Run B → Run B
m >> k = m >>= λ _. k

-- The call returns, and its result satisfies the predicate.
pub data Returns {ℓ κ} {A : Type ℓ} (P : A → Type κ) : Run A → Type (ℓ ⊔ κ) where
  returns : {a : A} → P a → Returns P (ok a)

pub bind {ℓ κ μ ν} :
    {A : Type ℓ} {B : Type κ} {P : A → Type μ} {Q : B → Type ν} {m : Run A} {f : A → Run B}
    → Returns P m
    → ((a : A) → P a → Returns Q (f a))
    → Returns Q (m >>= f)
bind (returns p) next = next _ p

pub value {ℓ μ} :
    {A : Type ℓ} {P : A → Type μ} {m : Run A} → Returns P m → (a : A) × (m ≡ ok a) × P a
value (returns p) = (_, refl, p)

pub mono {ℓ μ ν} :
    {A : Type ℓ} {P : A → Type μ} {Q : A → Type ν} {m : Run A}
    → Returns P m
    → ((a : A) → P a → Q a)
    → Returns Q m
mono (returns p) weaken = returns (weaken _ p)
