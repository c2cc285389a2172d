-- ===== src/Prelude/Errors.antt =====
-- Go's `(value, error)` pairs, with the error as a value.
use mathlib.Core.Path.{◌≡◌, refl}
use mathlib.Core.Option.{Option, none, some}

-- What can go wrong is a parameter: each component names its own faults.
pub data Except {ℓ κ} (Fault : Type κ) (Value : Type ℓ) : Type (ℓ ⊔ κ) where
  ok : Value → Except Fault Value
  err : Fault → Except Fault Value

module _ {ℓ κ ι} {Fault : Type ι} {Value : Type ℓ} {Next : Type κ} where
  infixl 5 ◌>>=◌
  -- `if err != nil { return err }`, and on with the value
  abbrev pub ◌>>=◌ : Except Fault Value → (Value → Except Fault Next) → Except Fault Next
  err fault >>= next = err fault
  ok value >>= next = next value

  -- A chain that succeeds is made of steps that do.
  pub >>=-eq-ok :
      (step : Except Fault Value) (next : Value → Except Fault Next) {last : Next}
      → (step >>= next) ≡ ok last
      → (value : Value) × (step ≡ ok value) × (next value ≡ ok last)
  >>=-eq-ok (err fault) next chain = cc
  >>=-eq-ok (ok value) next chain = (value, refl, chain)

module _ {ℓ κ} {Fault : Type κ} {Value : Type ℓ} where
  -- a value, or the fault of its absence
  abbrev pub or_fail : Option Value → Fault → Except Fault Value
  or_fail none fault = err fault
  or_fail (some value) fault = ok value

  pub or_fail-ok :
      (found : Option Value) (fault : Fault) {value : Value}
      → or_fail found fault ≡ ok value
      → found ≡ some value
  or_fail-ok none fault h = cc
  or_fail-ok (some value) fault h = cc
