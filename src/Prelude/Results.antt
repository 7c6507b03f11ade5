-- ===== src/Prelude/Results.antt =====
-- A call that returns, or throws an exception.
use mathlib.Core.Path.{◌≡◌, refl, ap}
use oati.Prelude.Texts.{Text}

-- The exceptions of the modelled code: `TypeError`, `RangeError` and `Error` with their messages.
pub data Error : Type 0 where
  type_error range_error plain_error : Text → Error

pub data Result {ℓ} (Value : Type ℓ) : Type ℓ where
  throw : Error → Result Value
  ok : Value → Result Value

infixl 6 ◌>>=◌
-- What follows a call runs if the call returns.
abbrev pub ◌>>=◌ {κ ℓ} : {A : Type κ} {B : Type ℓ} → Result A → (A → Result B) → Result B
throw exception >>= rest = throw exception
ok value >>= rest = rest value

module _ {κ ℓ} {A : Type κ} {B : Type ℓ} where
  pub >>=-eq-ok :
      (call : Result A) (rest : A → Result B) {b : B}
      → (call >>= rest) ≡ ok b
      → (a : A) × (call ≡ ok a) × (rest a ≡ ok b)
  >>=-eq-ok (ok value) rest h = (value, refl, h)
  >>=-eq-ok (throw exception) rest h = cc

abbrev ok_value {ℓ} : {A : Type ℓ} → A → Result A → A
ok_value default (ok value) = value
ok_value default (throw exception) = default

pub ok-injective {ℓ} : {A : Type ℓ} {a b : A} → ok a ≡ ok b → a ≡ b
ok-injective {a} h = ap (ok_value a) h
