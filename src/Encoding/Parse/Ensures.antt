-- ===== src/Encoding/Parse/Ensures.antt =====
-- Postconditions of parsers: the run kept within its fuel, and what it returns has the property.
use mathlib.Core.Path.{subst₂}
use cbr.Prelude.{◌≡◌, refl, Bool, true, false, if◌then◌else◌}
use cbr.Encoding.Parse.Steps.{Cursor, Parser, Outcome, ok, fail, out_of_fuel, ◌>>=◌}

pub data Ensures {ℓ κ} {A : Type ℓ} (P : A → Cursor → Type κ) : Outcome A → Type (ℓ ⊔ κ) where
  holds : {a : A} {c : Cursor} → P a c → Ensures P (ok a c)
  rejected : {e : cbr.Encoding.Errors.Error} → Ensures P (fail e)

module _ {ℓ κ} {A : Type ℓ} {P : A → Cursor → Type κ} where
  pub Ensures-bind {ℓ' κ'} :
      {B : Type ℓ'} {Q : B → Cursor → Type κ'} {o : Outcome A} {f : A → Parser B}
      → Ensures P o
      → ((a : A) (c : Cursor) → P a c → Ensures Q (f a c))
      → Ensures Q (o >>= f)
  Ensures-bind (holds {a} {c} h) k = k a c h
  Ensures-bind rejected k = rejected

  pub Ensures-if :
      (b : Bool) {x y : Outcome A}
      → (b ≡ true → Ensures P x)
      → (b ≡ false → Ensures P y)
      → Ensures P (if b then x else y)
  Ensures-if true hx hy = hx refl
  Ensures-if false hx hy = hy refl

  pub Ensures-ok : {o : Outcome A} {a : A} {c : Cursor} → Ensures P o → o ≡ ok a c → P a c
  Ensures-ok {a} {c} (holds {a = b} {c = d} h) e =
      let p : b ≡ a = cc in let q : d ≡ c = cc in subst₂ P p q h
  Ensures-ok rejected e = cc

  pub Ensures-out_of_fuel : {o : Outcome A} → Ensures P o → o ≡ out_of_fuel → ⊥
  Ensures-out_of_fuel (holds h) e = cc
  Ensures-out_of_fuel rejected e = cc

  pub Ensures-weaken {κ'} :
      {Q : A → Cursor → Type κ'} {o : Outcome A}
      → Ensures P o
      → ((a : A) (c : Cursor) → P a c → Ensures Q (ok a c))
      → Ensures Q o
  Ensures-weaken (holds {a} {c} h) k = k a c h
  Ensures-weaken rejected k = rejected
