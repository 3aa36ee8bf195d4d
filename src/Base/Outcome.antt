-- ===== src/Base/Outcome.antt =====
-- The outcome of a C++ call that may end the process: a failed `assert` or `REQ_…`, an exception
-- that nothing catches, or a step that the language leaves undefined.
use mathlib.Core.Path.{◌≡◌, refl}
use mathlib.Core.Logic.{◌⊎◌, inl, inr}
use mathlib.Core.Bool.{Bool, true, false}

pub data Fault : Type 0 where
  assertion out_of_range undefined : Fault

pub data Exec {ℓ} (A : Type ℓ) : Type ℓ where
  ok : A → Exec A
  fault : Fault → Exec A

infixl 5 ◌>>=◌ ◌>>◌
abbrev pub ◌>>=◌ {ℓ κ} : {A : Type ℓ} {B : Type κ} → Exec A → (A → Exec B) → Exec B
ok a >>= f = f a
fault e >>= f = fault e

abbrev pub ◌>>◌ {ℓ} : {B : Type ℓ} → Exec (Unit {0}) → Exec B → Exec B
m >> k = m >>= λ _. k

abbrev pub require : Bool → Fault → Exec (Unit {0})
require true e = ok tt
require false e = fault e

pub Exec-cases {ℓ} :
    {A : Type ℓ} (m : Exec A) → ((f : Fault) × (m ≡ fault f)) ⊎ ((a : A) × (m ≡ ok a))
Exec-cases (ok a) = inr (a, refl)
Exec-cases (fault f) = inl (f, refl)
