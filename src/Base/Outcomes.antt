-- ===== src/Base/Outcomes.antt =====
-- What a call does besides returning: `fails` is Rust's `fail!`, a failed `assert!` or an index
-- out of bounds, `runs_out` is a model loop whose fuel is spent.
use mathlib.Core.List.{List, []}
use mathlib.Core.Path.{◌≡◌, refl}

pub data Run {ℓ} (A : Type ℓ) : Type ℓ where
  returns : A → Run A
  fails : Run A
  runs_out : Run A

infixl 5 ◌>>=◌
abbrev pub ◌>>=◌ {ℓ κ} : {A : Type ℓ} {B : Type κ} → Run A → (A → Run B) → Run B
returns a >>= f = f a
fails >>= f = fails
runs_out >>= f = runs_out

-- The same under a name, where `>>=` is that of another monad.
abbrev pub and_then {ℓ κ} : {A : Type ℓ} {B : Type κ} → Run A → (A → Run B) → Run B
and_then m f = m >>= f

-- What was written, where nothing failed.
abbrev pub output {ℓ} : {A : Type ℓ} → Run (List A) → List A
output (returns w) = w
output _ = []

-- Inversion of a bind that returns.
pub >>=-eq-returns {ℓ κ} :
    {A : Type ℓ} {B : Type κ} (m : Run A) (f : A → Run B) {b : B}
    → (m >>= f) ≡ returns b
    → (a : A) × (m ≡ returns a) × (f a ≡ returns b)
>>=-eq-returns (returns a) f h = (a, refl, h)
>>=-eq-returns fails f h = cc
>>=-eq-returns runs_out f h = cc

-- `Result<A, E>`
pub data Result (A E : Type 0) : Type 0 where
  ok : A → Result A E
  err : E → Result A E
