-- ===== src/Base/Faults.antt =====
-- What a run of C++ code can come to, besides a result.
use mathlib.Core.Path.{◌≡◌, refl}
use mathlib.Core.Logic.{◌⊎◌, inl, inr}
use mathlib.Core.Bool.{Bool, true, false}

-- Undefined behaviour that the code may run into, a failed `assert`, an exception of the standard
-- library or of Boost, and a loop that has used up the rounds it was given.
pub data Fault : Type 0 where
  null_pointer dangling_iterator missing_entry empty_container unterminated : Fault
  assertion out_of_range invalid_argument out_of_fuel uninitialised system_error : Fault

pub data Outcome {ℓ} (A : Type ℓ) : Type ℓ where
  ok : A → Outcome A
  fault : Fault → Outcome A

infixl 5 ◌>>=◌ ◌>>◌
abbrev pub ◌>>=◌ {ℓ κ} : {A : Type ℓ} {B : Type κ} → Outcome A → (A → Outcome B) → Outcome B
ok a >>= f = f a
fault e >>= f = fault e

abbrev pub ◌>>◌ {ℓ} : {B : Type ℓ} → Outcome (Unit {0}) → Outcome B → Outcome B
m >> k = m >>= λ _. k

-- `assert (b)`
abbrev pub assert : Bool → Outcome (Unit {0})
assert true = ok tt
assert false = fault Fault.assertion

pub Outcome-cases {ℓ} :
    {A : Type ℓ} (m : Outcome A) → ((a : A) × (m ≡ ok a)) ⊎ ((e : Fault) × (m ≡ fault e))
Outcome-cases (ok a) = inl (a, refl)
Outcome-cases (fault e) = inr (e, refl)
