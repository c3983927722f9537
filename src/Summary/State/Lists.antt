-- ===== src/Summary/State/Lists.antt =====
-- What AddWithOverride and AddIfAbsent of state.go keep of a list.
use erebus_redgiant.Prelude.{
  ◌≡◌, refl, ap, sym, ◌∙◌, true, Option, none, some, [], ◌∷◌, arith, if◌then◌else◌, Bool-cases, inl,
  inr,
}
use erebus_redgiant.Summary.State.{
  StateVariable, StateVariables, of_storage, of_balance, of_code, same, copy_variable, override_one,
  add_with_override, add_one_absent, add_if_absent,
}

same_refl : (v : StateVariable) → same v v ≡ true
unfolding same
same_refl (of_storage s) = ground arith
same_refl (of_balance b) = ground arith
same_refl (of_code c) = ground arith

-- Two variables that are the same are the same as the same ones.
pub same_congr : (v w p : StateVariable) → same v w ≡ true → same v p ≡ same w p
unfolding same
same_congr (of_storage s) (of_storage t) (of_storage p) h = ground (arith, h)
same_congr (of_balance s) (of_balance t) (of_balance p) h = ground (arith, h)
same_congr (of_code s) (of_code t) (of_code p) h = ground (arith, h)
same_congr _ _ _ h = ground (arith, h)

same_join : (v w p : StateVariable) → same v p ≡ true → same w p ≡ true → same v w ≡ true
unfolding same
same_join (of_storage s) (of_storage t) (of_storage p) h k = ground (arith, h, k)
same_join (of_balance s) (of_balance t) (of_balance p) h k = ground (arith, h, k)
same_join (of_code s) (of_code t) (of_code p) h k = ground (arith, h, k)
same_join _ _ _ h k = absurd (ground (arith, h, k))

same-copy_variable : (v w : StateVariable) → same (copy_variable v) w ≡ same v w
unfolding same copy_variable
same-copy_variable (of_storage s) w = refl
same-copy_variable (of_balance b) w = refl
same-copy_variable (of_code c) (of_storage s) = refl
same-copy_variable (of_code c) (of_balance s) = refl
same-copy_variable (of_code c) (of_code d) = refl

-- The first entry of a list that is the same variable as `p`.
unfoldable pub entry_of : StateVariable → StateVariables → Option StateVariable
entry_of p [] = none
entry_of p (v ∷ vs) = if same v p then some v else entry_of p vs

-- The last of the elements that is the same variable, copied; without one, what there was.
unfoldable pub last_entry :
    StateVariable → StateVariables → Option StateVariable → Option StateVariable
last_entry p [] old = old
last_entry p (e ∷ es) old = last_entry p es (if same e p then some (copy_variable e) else old)

-- What there was; without it, the first of the elements that is the same variable, copied.
unfoldable pub first_entry :
    StateVariable → StateVariables → Option StateVariable → Option StateVariable
first_entry p es (some v) = some v
first_entry p [] none = none
first_entry p (e ∷ es) none = if same e p then some (copy_variable e) else first_entry p es none

entry_of-override_one :
    (p e : StateVariable) (vs : StateVariables)
    → entry_of p (override_one vs e) ≡ (if same e p then some e else entry_of p vs)
unfolding entry_of override_one
entry_of-override_one p e [] = refl
entry_of-override_one p e (v ∷ vs) =
    ground (arith, entry_of-override_one p e vs, same_congr v e p, same_join v e p)

entry_of-add_one_absent :
    (p e : StateVariable) (vs : StateVariables)
    → entry_of p (add_one_absent vs e)
      ≡ elim (entry_of p vs) [ some v ↦ some v | none ↦ if same e p then some e else none ]
unfolding entry_of add_one_absent
entry_of-add_one_absent p e [] = refl
entry_of-add_one_absent p e (v ∷ vs) =
    ground (arith, entry_of-add_one_absent p e vs, same_congr v e p, same_join v e p)

-- After AddWithOverride a list has, of every variable, the last of the elements that are added,
-- and what it had before where none of them is that variable.
pub entry_of-add_with_override :
    (p : StateVariable) (vs es : StateVariables)
    → entry_of p (add_with_override vs es) ≡ last_entry p es (entry_of p vs)
unfolding add_with_override last_entry
entry_of-add_with_override p vs [] = refl
entry_of-add_with_override p vs (e ∷ es) =
    entry_of-add_with_override p (override_one vs (copy_variable e)) es
    ∙ ap (last_entry p es)
        (entry_of-override_one p (copy_variable e) vs ∙ rw same-copy_variable refl)

pub first_entry_nil : (p : StateVariable) (o : Option StateVariable) → first_entry p [] o ≡ o
unfolding first_entry
first_entry_nil p none = refl
first_entry_nil p (some v) = refl

first_entry_cons :
    (p e : StateVariable) (es : StateVariables) (o : Option StateVariable)
    → first_entry p es
        (elim o [ some v ↦ some v | none ↦ if same e p then some (copy_variable e) else none ])
      ≡ first_entry p (e ∷ es) o
unfolding first_entry
first_entry_cons p e es none = elim (Bool-cases (same e p)) [
  | inl h ↦ rw (h, first_entry) (ground (arith, h))
  | inr h ↦ rw (h, first_entry) (ground (arith, h))
]
first_entry_cons p e es (some v) = refl

-- After AddIfAbsent a list has, of every variable, what it had before, and the first of the
-- elements that are added where it had none.
pub entry_of-add_if_absent :
    (p : StateVariable) (vs es : StateVariables)
    → entry_of p (add_if_absent vs es) ≡ first_entry p es (entry_of p vs)
unfolding add_if_absent
entry_of-add_if_absent p vs [] = sym (first_entry_nil p (entry_of p vs))
entry_of-add_if_absent p vs (e ∷ es) =
    entry_of-add_if_absent p (add_one_absent vs (copy_variable e)) es
    ∙ ap (first_entry p es) (
        entry_of-add_one_absent p (copy_variable e) vs
        ∙ ap
            (λ b. elim (entry_of p vs) [
              | some v ↦ some v
              | none ↦ if b then some (copy_variable e) else none
            ])
            (same-copy_variable e p))
    ∙ first_entry_cons p e es (entry_of p vs)

-- No two entries of the list are the same variable.
abbrev pub Distinct : StateVariables → Type 0
Distinct [] = Unit
Distinct (v ∷ vs) = (entry_of v vs ≡ none) × Distinct vs

pub same_sym : (v w : StateVariable) → same v w ≡ same w v
unfolding same
same_sym (of_storage s) (of_storage t) = ground arith
same_sym (of_balance s) (of_balance t) = ground arith
same_sym (of_code s) (of_code t) = ground arith
same_sym _ _ = ground arith

pub entry_of_congr :
    (v w : StateVariable) (vs : StateVariables) → same v w ≡ true → entry_of v vs ≡ entry_of w vs
unfolding entry_of
entry_of_congr v w [] h = refl
entry_of_congr v w (x ∷ vs) h =
    ground (arith, entry_of_congr v w vs h, same_congr v w x h, same_sym v x, same_sym w x)

override_one-Distinct :
    (vs : StateVariables) (e : StateVariable) → Distinct vs → Distinct (override_one vs e)
unfolding override_one entry_of
override_one-Distinct [] e d = (refl, tt)
override_one-Distinct (v ∷ vs) e d = elim (Bool-cases (same v e)) [
  | inl h ↦ rw h (sym (entry_of_congr v e vs h) ∙ d.0, d.1)
  | inr h ↦ rw h (
    entry_of-override_one v e vs ∙ ground (arith, same_sym v e, h, d.0),
    override_one-Distinct vs e d.1,
  )
]

-- AddWithOverride keeps the entries of a list distinct.
pub add_with_override-Distinct :
    (vs es : StateVariables) → Distinct vs → Distinct (add_with_override vs es)
unfolding add_with_override
add_with_override-Distinct vs [] d = d
add_with_override-Distinct vs (e ∷ es) d =
    add_with_override-Distinct (override_one vs (copy_variable e)) es
      (override_one-Distinct vs (copy_variable e) d)
