-- ===== src/Prelude/Results.antt =====
-- Results of code that may raise, over any type of errors, with `do` and postconditions.
use mathlib.Core.Path.{◌≡◌, refl}
use mathlib.Core.Logic.{◌⊎◌, inl, inr}
use mathlib.Core.Bool.{Bool, true, false, not}

pub data Result {ℓ κ} (E : Type κ) (A : Type ℓ) : Type (ℓ ⊔ κ) where
  ok : A → Result E A
  err : E → Result E A

infixl 5 ◌>>=◌ ◌>>◌
abbrev pub ◌>>=◌ {ℓ κ μ} :
    {E : Type κ} {A : Type ℓ} {B : Type μ} → Result E A → (A → Result E B) → Result E B
ok a >>= f = f a
err e >>= f = err e

abbrev pub ◌>>◌ {ℓ κ} : {E : Type κ} {B : Type ℓ} → Result E (Unit {0}) → Result E B → Result E B
m >> k = m >>= λ _. k

-- `if bad: raise e`
abbrev pub raise_if {κ} : {E : Type κ} → Bool → E → Result E (Unit {0})
raise_if true e = err e
raise_if false e = ok tt

pub raise_if-ok {κ} : {E : Type κ} (b : Bool) (e : E) → raise_if b e ≡ ok tt → b ≡ false
raise_if-ok true e h = cc
raise_if-ok false e h = refl

pub raise_if_not-ok {κ} : {E : Type κ} (b : Bool) (e : E) → raise_if (not b) e ≡ ok tt → b ≡ true
raise_if_not-ok true e h = refl
raise_if_not-ok false e h = cc

-- What holds of a value that is returned, and of an error that is raised.
abbrev pub Post {ℓ κ μ} :
    {E : Type κ} {A : Type ℓ} → (A → Type μ) → (E → Type μ) → Result E A → Type μ
Post P Q (ok a) = P a
Post P Q (err e) = Q e

pub ok_injective {ℓ κ} :
    {E : Type κ} {A : Type ℓ} (a b : A) → ◌≡◌ {A = Result E A} (ok a) (ok b) → a ≡ b
ok_injective a b h = cc

module _ {ℓ κ μ ν} {E : Type κ} {A : Type ℓ} {B : Type ν} where
  pub Post-bind :
      (P : A → Type μ) (Q : B → Type μ) (X : E → Type μ) (r : Result E A) (f : A → Result E B)
      → Post P X r
      → ((a : A) → P a → Post Q X (f a))
      → Post Q X (r >>= f)
  Post-bind P Q X (ok a) f h k = k a h
  Post-bind P Q X (err e) f h k = h

module _ {ℓ κ ν} {E : Type κ} {A : Type ℓ} {B : Type ν} where
  pub bind-ok_inv :
      (r : Result E A) (f : A → Result E B) (b : B)
      → (r >>= f) ≡ ok b
      → (a : A) × (r ≡ ok a) × (f a ≡ ok b)
  bind-ok_inv (ok a) f b h = (a, refl, h)
  bind-ok_inv (err e) f b h = cc

module _ {ℓ κ μ} {E : Type κ} {A : Type ℓ} where
  pub Post-weaken :
      (P Q : A → Type μ) (X Y : E → Type μ) (r : Result E A)
      → Post P X r
      → ((a : A) → P a → Q a)
      → ((e : E) → X e → Y e)
      → Post Q Y r
  Post-weaken P Q X Y (ok a) h f g = f a h
  Post-weaken P Q X Y (err e) h f g = g e h

module _ {ℓ κ} {E : Type κ} {A : Type ℓ} where
  pub Result-cases : (r : Result E A) → ((a : A) × (r ≡ ok a)) ⊎ ((e : E) × (r ≡ err e))
  Result-cases (ok a) = inl (a, refl)
  Result-cases (err e) = inr (e, refl)
