-- ===== src/Prelude/Outcome.antt =====
-- What a Go call that may fail does: it returns a value, returns an error, or panics.
use mathlib.Core.Path.{◌≡◌, refl}
use mathlib.Core.Logic.{◌⊎◌, inl, inr, ◌≢◌}
use native.Mathlib.Omega.{arith}

pub data Outcome {ℓ κ} (E : Type κ) (A : Type ℓ) : Type (ℓ ⊔ κ) where
  ok : A → Outcome E A
  err : E → Outcome E A
  panic : Outcome E A

-- `abbrev`, so that `ok a >>= f` computes wherever it stands.
infixl 5 ◌>>=◌
abbrev pub ◌>>=◌ {ℓ κ μ} :
    {E : Type μ} {A : Type ℓ} {B : Type κ} → Outcome E A → (A → Outcome E B) → Outcome E B
ok a >>= f = f a
err e >>= f = err e
panic >>= f = panic

pub Outcome-cases {ℓ κ} :
    {E : Type κ} {A : Type ℓ} (o : Outcome E A)
    → ((a : A) × (o ≡ ok a)) ⊎ (((e : E) × (o ≡ err e)) ⊎ (o ≡ panic))
Outcome-cases (ok a) = inl (a, refl)
Outcome-cases (err e) = inr (inl (e, refl))
Outcome-cases panic = inr (inr refl)

-- A bind that returns returned twice.
pub bound_ok {ℓ κ μ} :
    {E : Type μ} {A : Type ℓ} {B : Type κ} (o : Outcome E A) (f : A → Outcome E B) (b : B)
    → (o >>= f) ≡ ok b
    → (a : A) × (o ≡ ok a) × (f a ≡ ok b)
bound_ok (ok a) f b h = (a, refl, h)
bound_ok (err e) f b h = absurd (ground arith)
bound_ok panic f b h = absurd (ground arith)

pub ok_injective {ℓ κ} :
    {E : Type κ} {A : Type ℓ} (o : Outcome E A) (a b : A) → o ≡ ok a → o ≡ ok b → a ≡ b
ok_injective o a b h k = cc

-- A bind does not panic where neither part does.
pub bind_ends {ℓ κ μ} :
    {E : Type μ} {A : Type ℓ} {B : Type κ} (o : Outcome E A) (f : A → Outcome E B)
    → o ≢ panic
    → ((a : A) → f a ≢ panic)
    → (o >>= f) ≢ panic
bind_ends (ok a) f h g = g a
bind_ends (err e) f h g = λ k. absurd (ground arith)
bind_ends panic f h g = λ k. h refl
