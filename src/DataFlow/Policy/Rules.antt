-- ===== src/DataFlow/Policy/Rules.antt =====
-- Invariants of the actions of the policy, one rule for each way to build an action.
use erebus_redgiant.Prelude.{
  Option-cases, inl, inr, ◌≡◌, Bool, true, false, Option, none, some, if◌then◌else◌,
}
use erebus_redgiant.DataFlow.Policy.{
  Trackers, M, pure, ◌>>=◌, when, lift, gets, gets_some, modify, modify_some,
}

-- The predicate on the state where the action returned.
abbrev pub After : {A : Type 0} → (Trackers → Type 0) → Option (A × Trackers) → Type 0
After P none = Unit
After P (some (a, s)) = P s

-- Where the action returns, it keeps `P`.
pub record Keeps {A : Type 0} (P : Trackers → Type 0) (m : M A) : Type 0 where
  pub at : (s : Trackers) → P s → After P (m s)

module _ {A : Type 0} {P : Trackers → Type 0} where
  pub Keeps-pure : (a : A) → Keeps P (pure a)
  unfolding pure
  Keeps-pure a = record { at = λ s h. h }

  pub Keeps-lift : (o : Option A) → Keeps P (lift o)
  unfolding lift
  Keeps-lift none = record { at = λ s h. tt }
  Keeps-lift (some a) = record { at = λ s h. h }

  pub Keeps-gets : (f : Trackers → A) → Keeps P (gets f)
  unfolding gets
  Keeps-gets f = record { at = λ s h. h }

  pub Keeps-gets_some : (f : Trackers → Option A) → Keeps P (gets_some f)
  unfolding gets_some
  Keeps-gets_some f = record {
    at = λ s h. elim (Option-cases (f s)) [
      | inl e ↦ rw (e, gets_some) tt
      | inr (x, e) ↦ rw (e, gets_some) h
    ];
  }

  pub Keeps-if : (b : Bool) (m n : M A) → Keeps P m → Keeps P n → Keeps P (if b then m else n)
  Keeps-if true m n km kn = km
  Keeps-if false m n km kn = kn

module _ {P : Trackers → Type 0} where
  pub Keeps-when : (b : Bool) (m : M (Unit {0})) → Keeps P m → Keeps P (when b m)
  unfolding when
  Keeps-when true m km = km
  Keeps-when false m km = Keeps-pure tt

module _ {P : Trackers → Type 0} where
  pub Keeps-modify :
      (f : Trackers → Trackers) → ((s : Trackers) → P s → P (f s)) → Keeps P (modify f)
  unfolding modify
  Keeps-modify f h = record { at = h }

  pub Keeps-modify_some :
      {X : Type 0} (f : Trackers → Option X) (g : X → Trackers → Trackers)
      → ((s : Trackers) (x : X) → P s → f s ≡ some x → P (g x s))
      → Keeps P (modify_some f g)
  unfolding modify_some
  Keeps-modify_some f g h = record {
    at = λ s p. elim (Option-cases (f s)) [
      | inl e ↦ rw (e, modify_some) tt
      | inr (x, e) ↦ rw (e, modify_some) (h s x p e)
    ];
  }

module _ {A B : Type 0} {P : Trackers → Type 0} where
  after_bind :
      (o : Option (A × Trackers)) (f : A → M B)
      → After P o
      → ((a : A) → Keeps P (f a))
      → After P (elim o as (λ _. Option (B × Trackers)) [ none ↦ none | some (a, s) ↦ f a s ])
  after_bind none f h k = tt
  after_bind (some (a, s)) f h k = (k a).at s h

  pub Keeps-bind :
      (m : M A) (f : A → M B) → Keeps P m → ((a : A) → Keeps P (f a)) → Keeps P (m >>= f)
  unfolding ◌>>=◌
  Keeps-bind m f km kf = record { at = λ s h. after_bind (m s) f (km.at s h) kf }

pub ruleset keeps_rules =
    (Keeps-pure, Keeps-lift, Keeps-gets, Keeps-gets_some, Keeps-if, Keeps-when, Keeps-bind)
