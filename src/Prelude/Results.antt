-- ===== src/Prelude/Results.antt =====
-- Rust's `Result`, with `?` as the bind of a `do` block.
use mathlib.Core.Path.{◌≡◌, refl}
use mathlib.Core.Logic.{◌⊎◌, inl, inr}
use mathlib.Core.Bool.{Bool, true, false}
use mathlib.Core.Option.{Option, none, some}

pub data Result {ℓ κ} (E : Type ℓ) (T : Type κ) : Type (ℓ ⊔ κ) where
  ok : T → Result E T
  err : E → Result E T

module _ {ℓ} {E : Type ℓ} where
  infixl 5 ◌>>=◌ ◌>>◌
  -- `step?; rest`, with the value of the step and without one.
  abbrev pub ◌>>=◌ {κ μ} : {T : Type κ} {U : Type μ} → Result E T → (T → Result E U) → Result E U
  err fault >>= rest = err fault
  ok value >>= rest = rest value

  abbrev pub ◌>>◌ {κ} : {U : Type κ} → Result E (Unit {0}) → Result E U → Result E U
  err fault >> rest = err fault
  ok nothing >> rest = rest

  -- `if bad { return Err(fault) }`
  abbrev pub reject : Bool → E → Result E (Unit {0})
  reject true fault = err fault
  reject false fault = ok tt

  -- `ok_or(fault)`
  abbrev pub ok_or {κ} : {T : Type κ} → Option T → E → Result E T
  ok_or (some value) fault = ok value
  ok_or none fault = err fault

  -- A call that goes through splits at a bind.
  pub >>=-eq-ok {κ μ} :
      {T : Type κ} {U : Type μ} {u : U} (step : Result E T) (rest : T → Result E U)
      → (step >>= rest) ≡ ok u
      → (value : T) × (step ≡ ok value) × (rest value ≡ ok u)
  >>=-eq-ok (err fault) rest went = cc
  >>=-eq-ok (ok value) rest went = (value, refl, went)

  pub >>-eq-ok {κ} :
      {U : Type κ} {u : U} (step : Result E (Unit {0})) (rest : Result E U)
      → (step >> rest) ≡ ok u
      → (step ≡ ok tt) × (rest ≡ ok u)
  >>-eq-ok (err fault) rest went = cc
  >>-eq-ok (ok value) rest went = (refl, went)

  pub reject-ok : (bad : Bool) (fault : E) → reject bad fault ≡ ok tt → bad ≡ false
  reject-ok true fault went = cc
  reject-ok false fault went = refl

  pub ok_or-ok {κ} :
      {T : Type κ} {value : T} (o : Option T) (fault : E)
      → ok_or o fault ≡ ok value
      → o ≡ some value
  ok_or-ok none fault went = cc
  ok_or-ok (some value) fault went = cc

  pub ok_injective {κ} : {T : Type κ} (a b : T) (r : Result E T) → r ≡ ok a → r ≡ ok b → a ≡ b
  ok_injective a b r left right = cc

  pub Result-cases {κ} :
      {T : Type κ} (r : Result E T)
      → ((fault : E) × (r ≡ err fault)) ⊎ ((value : T) × (r ≡ ok value))
  Result-cases (ok value) = inr (value, refl)
  Result-cases (err fault) = inl (fault, refl)
