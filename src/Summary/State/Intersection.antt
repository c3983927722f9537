-- ===== src/Summary/State/Intersection.antt =====
-- What IntersectWith of state.go returns.
use erebus_redgiant.Prelude.{
  ◌≡◌, refl, ◌∙◌, Option, none, some, [], ◌∷◌, ◌++◌, arith, if◌then◌else◌,
}
use erebus_redgiant.Summary.State.{StateVariable, StateVariables, same, matches_of, intersect_with}
use erebus_redgiant.Summary.State.Lists.{entry_of, entry_of_congr, same_sym}

-- The first of two options that is there.
abbrev pub or_else : Option StateVariable → Option StateVariable → Option StateVariable
or_else none y = y
or_else (some x) y = some x

-- The second option, where the first is there.
abbrev pub only_if : Option StateVariable → Option StateVariable → Option StateVariable
only_if none y = none
only_if (some x) y = y

entry_of-append :
    (p : StateVariable) (xs ys : StateVariables)
    → entry_of p (xs ++ ys) ≡ or_else (entry_of p xs) (entry_of p ys)
unfolding entry_of
entry_of-append p [] ys = refl
entry_of-append p (x ∷ xs) ys = ground (arith, entry_of-append p xs ys)

entry_of-matches_of :
    (p v : StateVariable) (other : StateVariables)
    → entry_of p (matches_of v other).0
      ≡ only_if (entry_of v other) (if same v p then some v else none)
unfolding entry_of matches_of
entry_of-matches_of p v [] = refl
entry_of-matches_of p v (w ∷ other) = ground (arith, entry_of-matches_of p v other, same_sym v w)

none-only_if : (o : Option StateVariable) → none ≡ only_if o none
none-only_if none = refl
none-only_if (some x) = refl

-- Of every variable, the first result of IntersectWith has the first entry of the list itself where
-- the other list has the variable too, and nothing where it has not.
pub entry_of-intersect_with :
    (p : StateVariable) (vs other : StateVariables)
    → entry_of p (intersect_with vs other).0 ≡ only_if (entry_of p other) (entry_of p vs)
unfolding intersect_with entry_of
entry_of-intersect_with p [] other = none-only_if (entry_of p other)
entry_of-intersect_with p (v ∷ vs) other =
    entry_of-append p (matches_of v other).0 (intersect_with vs other).0
    ∙ ground (
      arith,
      entry_of-matches_of p v other,
      entry_of-intersect_with p vs other,
      entry_of_congr v p other,
    )
