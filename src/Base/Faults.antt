-- ===== src/Base/Faults.antt =====
-- What a call may end in: a value, or one of C++'s undefined behaviours.
use mathlib.Core.Path.{◌≡◌, refl}
use mathlib.Core.Logic.{◌⊎◌, inl, inr}

pub data Fault : Type 0 where
  null_deref : Fault
  out_of_bounds : Fault
  use_after_free : Fault
  missing_return : Fault
  bad_cast : Fault
  assert_failed : Fault

-- `fault` stands for undefined behaviour, whatever the machine goes on to do.
pub data Outcome {ℓ} (A : Type ℓ) : Type ℓ where
  ok : A → Outcome A
  fault : Fault → Outcome A

-- The first fault of a sequence of calls is its outcome.
infixl 5 ◌>>=◌
abbrev pub ◌>>=◌ {ℓ κ} :
    {A : Type ℓ} {B : Type κ} (call : Outcome A) (rest : A → Outcome B) → Outcome B
fault x >>= rest = fault x
ok value >>= rest = rest value

-- To split on the outcome of a call and keep the equation.
pub Outcome-cases {ℓ} :
    {A : Type ℓ} (m : Outcome A) → ((a : A) × (m ≡ ok a)) ⊎ ((e : Fault) × (m ≡ fault e))
Outcome-cases (ok a) = inl (a, refl)
Outcome-cases (fault e) = inr (e, refl)

-- The call ends in a value.
abbrev pub Returns {ℓ} : {A : Type ℓ} → Outcome A → Type 0
Returns (ok a) = Unit {0}
Returns (fault x) = ⊥

pub Returns-ok {ℓ} : {A : Type ℓ} (m : Outcome A) → Returns m → (a : A) × (m ≡ ok a)
Returns-ok (ok a) h = (a, refl)
Returns-ok (fault x) h = absurd h
