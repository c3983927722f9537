-- ===== src/Prelude/Partial.antt =====
-- Code that may panic: `none` is the panic. The bind stays shut, so that a chain of them can be
-- taken apart with `bound`.
use mathlib.Core.Path.{◌≡◌, refl}
use mathlib.Core.Option.{Option, none, some}
use native.Mathlib.Omega.{arith}

infixl 5 ◌>>=◌
unfoldable pub ◌>>=◌ : {A B : Type 0} → Option A → (A → Option B) → Option B
none >>= f = none
some a >>= f = f a

pub bound :
    {A B : Type 0} (o : Option A) (f : A → Option B) (b : B)
    → (o >>= f) ≡ some b
    → (a : A) × (o ≡ some a) × (f a ≡ some b)
unfolding ◌>>=◌
bound none f b h = absurd (ground arith)
bound (some a) f b h = (a, refl, h)
