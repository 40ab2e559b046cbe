-- ===== src/Base/Results.antt =====
-- What a run of C++ code comes to: a result, or the reason why there is none.
use mathlib.Core.Path.{◌≡◌, refl}
use mathlib.Core.Bool.{Bool, true, false}
use mathlib.Core.Option.{Option, none, some}

-- `assertion` is a failed `assert`, `memory` an access out of bounds or through a bad pointer,
-- `past_end` a read through an iterator at the end, `arithmetic` a division by zero, and `fuel` a loop
-- that the model cut off.
pub data Stop : Type 0 where
  assertion memory past_end arithmetic fuel : Stop

pub data Outcome {ℓ} (A : Type ℓ) : Type ℓ where
  ok : A → Outcome A
  stop : Stop → Outcome A

infixl 5 ◌>>=◌ ◌>>◌
abbrev pub ◌>>=◌ {ℓ κ} : {A : Type ℓ} {B : Type κ} → Outcome A → (A → Outcome B) → Outcome B
ok a >>= f = f a
stop s >>= f = stop s

abbrev pub ◌>>◌ {ℓ} : {B : Type ℓ} → Outcome (Unit {0}) → Outcome B → Outcome B
m >> k = m >>= λ _. k

-- The run succeeds, and its result satisfies `P`.
abbrev pub Returns {ℓ} : {A : Type ℓ} → (A → Type 0) → Outcome A → Type 0
Returns P (ok a) = P a
Returns P (stop s) = ⊥

pub Returns-mono {ℓ} :
    {A : Type ℓ} (P Q : A → Type 0) (r : Outcome A)
    → Returns P r
    → ((a : A) → P a → Q a)
    → Returns Q r
Returns-mono P Q (ok a) p f = f a p
Returns-mono P Q (stop s) p f = p

pub Returns-bind {ℓ κ} :
    {A : Type ℓ} {B : Type κ} (P : A → Type 0) (Q : B → Type 0) (r : Outcome A) (f : A → Outcome B)
    → Returns P r
    → ((a : A) → P a → Returns Q (f a))
    → Returns Q (r >>= f)
Returns-bind P Q (ok a) f p k = k a p
Returns-bind P Q (stop s) f p k = absurd p

-- A pointer that is followed: null faults.
abbrev pub deref {ℓ} : {A : Type ℓ} → Option A → Outcome A
deref none = stop memory
deref (some a) = ok a

-- `assert`.
abbrev pub assert : Bool → Outcome (Unit {0})
assert true = ok tt
assert false = stop assertion

-- The result of a run that succeeds.
pub Returns-result {ℓ} :
    {A : Type ℓ} (P : A → Type 0) (r : Outcome A) → Returns P r → (a : A) × (r ≡ ok a) × P a
Returns-result P (ok a) p = (a, refl, p)
Returns-result P (stop s) p = absurd p

pub Returns-both {ℓ} :
    {A : Type ℓ} (P Q : A → Type 0) (r : Outcome A)
    → Returns P r
    → Returns Q r
    → Returns (λ a. P a × Q a) r
Returns-both P Q (ok a) p q = (p, q)
Returns-both P Q (stop s) p q = p

-- If the run succeeds, its result satisfies `P`.
abbrev pub Post {ℓ} : {A : Type ℓ} → (A → Type 0) → Outcome A → Type 0
Post P (ok a) = P a
Post P (stop s) = Unit

-- What holds of every result of the second part.
pub Post-bind {ℓ κ} :
    {A : Type ℓ} {B : Type κ} (Q : B → Type 0) (r : Outcome A) (f : A → Outcome B)
    → ((a : A) → Post Q (f a))
    → Post Q (r >>= f)
Post-bind Q (ok a) f k = k a
Post-bind Q (stop s) f k = tt

pub Post-then {ℓ κ} :
    {A : Type ℓ} {B : Type κ} (P : A → Type 0) (Q : B → Type 0) (r : Outcome A) (f : A → Outcome B)
    → Post P r
    → ((a : A) → P a → Post Q (f a))
    → Post Q (r >>= f)
Post-then P Q (ok a) f p k = k a p
Post-then P Q (stop s) f p k = tt

-- A run that succeeds, of whose result more is known.
pub Returns-Post {ℓ} :
    {A : Type ℓ} (P Q : A → Type 0) (r : Outcome A)
    → Returns P r
    → Post Q r
    → Returns (λ a. P a × Q a) r
Returns-Post P Q (ok a) p q = (p, q)
Returns-Post P Q (stop s) p q = p
