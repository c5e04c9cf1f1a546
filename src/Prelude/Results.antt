-- ===== src/Prelude/Results.antt =====
-- Rust's `Result`, with the chains of `?`.
use mathlib.Core.Path.{◌≡◌, subst}

pub data Result {ℓ κ} (A : Type ℓ) (E : Type κ) : Type (ℓ ⊔ κ) where
  ok : A → Result A E
  err : E → Result A E

infixl 5 ◌>>=◌
abbrev pub ◌>>=◌ {ℓ κ ι} :
    {A : Type ℓ} {B : Type κ} {E : Type ι} → Result A E → (A → Result B E) → Result B E
err e >>= f = err e
ok a >>= f = f a

-- A property of the value, if there is one.
abbrev pub Ensures {ℓ κ ι} : {A : Type ℓ} {E : Type κ} → (A → Type ι) → Result A E → Type ι
Ensures P (ok value) = P value
Ensures P (err e) = Unit

pub Ensures-bind {ℓ κ ι υ ν} :
    {A : Type ℓ} {B : Type κ} {E : Type ι} (P : A → Type υ) (Q : B → Type ν) (m : Result A E)
    (f : A → Result B E)
    → Ensures P m
    → ((value : A) → P value → Ensures Q (f value))
    → Ensures Q (m >>= f)
Ensures-bind P Q (ok value) f p next = next value p
Ensures-bind P Q (err e) f p next = tt

pub Ensures-ok {ℓ κ ι} :
    {A : Type ℓ} {E : Type κ} (P : A → Type ι) (m : Result A E) (value : A)
    → Ensures P m
    → m ≡ ok value
    → P value
Ensures-ok P m value p e = subst (Ensures P) e p

pub Ensures-weaken {ℓ κ ι υ} :
    {A : Type ℓ} {E : Type κ} (P : A → Type ι) (Q : A → Type υ) (m : Result A E)
    → ((value : A) → P value → Q value)
    → Ensures P m
    → Ensures Q m
Ensures-weaken P Q (ok value) h p = h value p
Ensures-weaken P Q (err e) h p = tt

pub Ensures-any {ℓ κ} : {A : Type ℓ} {E : Type κ} (m : Result A E) → Ensures (λ value. Unit {0}) m
Ensures-any (ok value) = tt
Ensures-any (err e) = tt
