-- ===== src/Common/Outcomes.antt =====
-- What a C++ handler can end in: a value, or a fault that stops the process.
use mathlib.Core.Path.{◌≡◌, refl}
use mathlib.Core.Bool.{Bool, true, false}
use mathlib.Core.Option.{Option, none, some}

-- `assert` fails, a vector or pointer is read out of bounds (undefined behaviour), `exit(-1)` is
-- called, or a loop has used up the fuel of its model.
pub data Fault : Type 0 where
  assert_failed out_of_bounds exit_called out_of_fuel : Fault

pub data Outcome {ℓ} (A : Type ℓ) : Type ℓ where
  ok : A → Outcome A
  fault : Fault → Outcome A

infixl 5 ◌>>=◌ ◌>>◌
abbrev pub ◌>>=◌ {ℓ κ} : {A : Type ℓ} {B : Type κ} → Outcome A → (A → Outcome B) → Outcome B
ok a >>= f = f a
fault e >>= f = fault e

abbrev pub assert : Bool → Outcome (Unit {0})
assert true = ok tt
assert false = fault assert_failed

-- The element that `operator[]` finds.
abbrev pub in_bounds {ℓ} : {A : Type ℓ} → Option A → Outcome A
in_bounds none = fault out_of_bounds
in_bounds (some a) = ok a

abbrev pub ◌>>◌ {ℓ} : {B : Type ℓ} → Outcome (Unit {0}) → Outcome B → Outcome B
m >> k = m >>= λ _. k

-- The computation returns, with a value of which `P` holds.
abbrev pub Returns {ℓ} : {A : Type ℓ} → (A → Type 0) → Outcome A → Type 0
Returns P (ok a) = P a
Returns P (fault f) = ⊥

-- The computation returns such a value, or calls `exit`; it reads nothing out of bounds and fails
-- no assertion.
abbrev pub ReturnsOrExits {ℓ} : {A : Type ℓ} → (A → Type 0) → Outcome A → Type 0
ReturnsOrExits P (ok a) = P a
ReturnsOrExits P (fault exit_called) = Unit
ReturnsOrExits P (fault _) = ⊥

module _ {ℓ κ} {A : Type ℓ} {B : Type κ} where
  pub ReturnsOrExits->>= :
      (P : A → Type 0) (Q : B → Type 0) (m : Outcome A) (f : A → Outcome B)
      → ReturnsOrExits P m
      → ((a : A) → P a → ReturnsOrExits Q (f a))
      → ReturnsOrExits Q (m >>= f)
  ReturnsOrExits->>= P Q (ok a) f h k = k a h
  ReturnsOrExits->>= P Q (fault exit_called) f h k = h
  ReturnsOrExits->>= P Q (fault assert_failed) f h k = h
  ReturnsOrExits->>= P Q (fault out_of_bounds) f h k = h
  ReturnsOrExits->>= P Q (fault out_of_fuel) f h k = h

module _ {ℓ} {A : Type ℓ} where
  pub Returns-mono :
      (P Q : A → Type 0) (m : Outcome A) → Returns P m → ((a : A) → P a → Q a) → Returns Q m
  Returns-mono P Q (ok a) h k = k a h
  Returns-mono P Q (fault x) h k = h

  -- The value of a computation that returns.
  pub Returns-ok : (P : A → Type 0) (m : Outcome A) → Returns P m → (a : A) × (m ≡ ok a) × P a
  Returns-ok P (ok a) h = (a, refl, h)
  Returns-ok P (fault x) h = absurd h

-- If the computation returns, `P` holds of its value.
abbrev pub IfReturns {ℓ} : {A : Type ℓ} → (A → Type 0) → Outcome A → Type 0
IfReturns P (ok a) = P a
IfReturns P (fault f) = Unit

module _ {ℓ κ} {A : Type ℓ} {B : Type κ} where
  pub IfReturns->>= :
      (P : A → Type 0) (Q : B → Type 0) (m : Outcome A) (f : A → Outcome B)
      → IfReturns P m
      → ((a : A) → P a → IfReturns Q (f a))
      → IfReturns Q (m >>= f)
  IfReturns->>= P Q (ok a) f h k = k a h
  IfReturns->>= P Q (fault x) f h k = tt

  pub IfReturns-all :
      (Q : B → Type 0) (m : Outcome A) (f : A → Outcome B)
      → ((a : A) → IfReturns Q (f a))
      → IfReturns Q (m >>= f)
  IfReturns-all Q (ok a) f k = k a
  IfReturns-all Q (fault x) f k = tt

module _ {ℓ} {A : Type ℓ} where
  pub Returns-IfReturns : (P : A → Type 0) (m : Outcome A) → Returns P m → IfReturns P m
  Returns-IfReturns P (ok a) h = h
  Returns-IfReturns P (fault x) h = tt

module _ {ℓ κ} {A : Type ℓ} {B : Type κ} where
  -- The parts of a computation that returns.
  pub >>=-eq-ok :
      (first : Outcome A) (rest : A → Outcome B) {b : B}
      → (first >>= rest) ≡ ok b
      → (a : A) × (first ≡ ok a) × (rest a ≡ ok b)
  >>=-eq-ok (fault stop) rest h = absurd (cc)
  >>=-eq-ok (ok a) rest h = (a, refl, h)
