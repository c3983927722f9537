-- ===== src/Summary/Calls/Defs.antt =====
-- The overall definitions of summary.go, against the Data in the order of execution.
use erebus_redgiant.Prelude.{
  ◌≡◌, ◌⊎◌, refl, ap, sym, ◌∙◌, Bool, Bool-cases, inl, inr, true, false, Option, none, some, List,
  [], ◌∷◌, ◌++◌, arith, if◌then◌else◌,
}
use erebus_redgiant.Prelude.Int.{pos}
use erebus_redgiant.Summary.State.{
  StateVariable, StateVariables, of_storage, of_balance, of_code, same, copy_variable,
  add_with_override,
}
use erebus_redgiant.Summary.State.Lists.{
  entry_of, last_entry, Distinct, entry_of-add_with_override, add_with_override-Distinct,
  entry_of_congr,
}
use erebus_redgiant.Summary.Calls.{
  Data, CallSummary, NestedSummaries, call_summary, no_summaries, nested_summary, merged_defs,
  defs_along, PreState, is_changed, changed_defs, overall_defs,
}
use erebus_redgiant.Summary.Calls.Exposed.{exposed, exposed_along}

unfoldable pub defs_in : List Data → StateVariables
defs_in [] = []
defs_in (d ∷ ds) = d.defs ++ defs_in ds

-- The second, where there is none in the first.
unfoldable pub over : Option StateVariable → Option StateVariable → Option StateVariable
over (some v) old = some v
over none old = old

unfoldable pub copied : Option StateVariable → Option StateVariable
copied (some v) = some (copy_variable v)
copied none = none

pub copy_copy : (v : StateVariable) → copy_variable (copy_variable v) ≡ copy_variable v
unfolding copy_variable
copy_copy (of_storage s) = refl
copy_copy (of_balance b) = refl
copy_copy (of_code c) = refl

last_entry_append :
    (p : StateVariable) (l m : StateVariables) (old : Option StateVariable)
    → last_entry p (l ++ m) old ≡ last_entry p m (last_entry p l old)
unfolding last_entry
last_entry_append p [] m old = refl
last_entry_append p (e ∷ l) m old =
    last_entry_append p l m (if same e p then some (copy_variable e) else old)

over-over :
    (x : Option StateVariable) (v : StateVariable) (old : Option StateVariable)
    → over x (some v) ≡ over (over x (some v)) old
unfolding over
over-over (some w) v old = refl
over-over none v old = refl

-- What there was counts only where none of the elements is the variable.
last_entry-over :
    (p : StateVariable) (es : StateVariables) (old : Option StateVariable)
    → last_entry p es old ≡ over (last_entry p es none) old
unfolding last_entry over
last_entry-over p [] old = refl
last_entry-over p (e ∷ es) old = elim (Bool-cases (same e p)) [
  | inl h ↦ rw h (
      last_entry-over p es (some (copy_variable e))
      ∙ over-over (last_entry p es none) (copy_variable e) old
      ∙ ap (λ x. over x old) (sym (last_entry-over p es (some (copy_variable e)))))
  | inr h ↦ rw h (last_entry-over p es old)
]

copied-last_entry :
    (p : StateVariable) (es : StateVariables) (old : Option StateVariable)
    → copied old ≡ old
    → copied (last_entry p es old) ≡ last_entry p es old
unfolding last_entry copied
copied-last_entry p [] old h = h
copied-last_entry p (e ∷ es) old h = elim (Bool-cases (same e p)) [
  | inl k ↦ rw k (copied-last_entry p es (some (copy_variable e)) (ap some (copy_copy e)))
  | inr k ↦ rw k (copied-last_entry p es old h)
]

-- In a list of distinct entries, the last of the variable is the first one.
last_entry-Distinct :
    (p : StateVariable) (vs : StateVariables) (old : Option StateVariable)
    → Distinct vs
    → last_entry p vs old ≡ over (copied (entry_of p vs)) old
unfolding last_entry entry_of over copied
last_entry-Distinct p [] old d = refl
last_entry-Distinct p (v ∷ vs) old d = elim (Bool-cases (same v p)) [
  | inl h ↦ rw h (
      last_entry-Distinct p vs (some (copy_variable v)) d.1
      ∙ rw (sym (entry_of_congr v p vs h) ∙ d.0) refl)
  | inr h ↦ rw h (last_entry-Distinct p vs old d.1)
]

last_entry-defs_in :
    (p : StateVariable) (l m : List Data) (old : Option StateVariable)
    → last_entry p (defs_in (l ++ m)) old ≡ last_entry p (defs_in m) (last_entry p (defs_in l) old)
unfolding defs_in last_entry
last_entry-defs_in p [] m old = refl
last_entry-defs_in p (d ∷ l) m old =
    last_entry_append p d.defs (defs_in (l ++ m)) old
    ∙ last_entry-defs_in p l m (last_entry p d.defs old)
    ∙ ap (last_entry p (defs_in m)) (sym (last_entry_append p d.defs (defs_in l) old))

mutual
  unfolding merged_defs defs_along

  merged_defs-Distinct : (c : CallSummary) → Distinct (merged_defs c)
  merged_defs-Distinct (call_summary true d rest) = tt
  merged_defs-Distinct (call_summary false d rest) =
      defs_along-Distinct rest (add_with_override [] d.defs)
        (add_with_override-Distinct [] d.defs tt)

  defs_along-Distinct :
      (rest : NestedSummaries) (defs : StateVariables)
      → Distinct defs
      → Distinct (defs_along defs rest)
  defs_along-Distinct no_summaries defs h = h
  defs_along-Distinct (nested_summary s d rest) defs h =
      let merged = add_with_override defs (merged_defs s) in
      defs_along-Distinct rest (add_with_override merged d.defs) (
        add_with_override-Distinct merged d.defs
          (add_with_override-Distinct defs (merged_defs s) h))

-- Definitions that were merged before are as good as the list that they come from.
merged_once :
    (p : StateVariable) (vs es : StateVariables) (old : Option StateVariable)
    → Distinct vs
    → entry_of p vs ≡ last_entry p es none
    → last_entry p vs old ≡ last_entry p es old
unfolding copied
merged_once p vs es old d h =
    last_entry-Distinct p vs old d
    ∙ ap (λ x. over (copied x) old) h
    ∙ ap (λ x. over x old) (copied-last_entry p es none refl)
    ∙ sym (last_entry-over p es old)

mutual
  unfolding merged_defs defs_along exposed exposed_along defs_in entry_of last_entry

  merged_entry :
      (p : StateVariable) (c : CallSummary)
      → entry_of p (merged_defs c) ≡ last_entry p (defs_in (exposed c)) none
  merged_entry p (call_summary true d rest) = refl
  merged_entry p (call_summary false d rest) =
      let later = defs_in (exposed_along rest) in
      along_entry p rest (add_with_override [] d.defs)
      ∙ ap (last_entry p later) (entry_of-add_with_override p [] d.defs)
      ∙ sym (last_entry_append p d.defs later none)

  along_entry :
      (p : StateVariable) (rest : NestedSummaries) (defs : StateVariables)
      → entry_of p (defs_along defs rest)
        ≡ last_entry p (defs_in (exposed_along rest)) (entry_of p defs)
  along_entry p no_summaries defs = refl
  along_entry p (nested_summary s d rest) defs =
      let merged = add_with_override defs (merged_defs s) in
      let below = defs_in (exposed s) in
      let later = defs_in (exposed_along rest) in
      let old = entry_of p defs in
      along_entry p rest (add_with_override merged d.defs)
      ∙ ap (last_entry p later) (
          entry_of-add_with_override p merged d.defs
          ∙ ap (last_entry p d.defs) (
              entry_of-add_with_override p defs (merged_defs s)
              ∙ merged_once p (merged_defs s) below old (merged_defs-Distinct s)
                  (merged_entry p s)))
      ∙ sym (last_entry_append p d.defs later (last_entry p below old))
      ∙ sym (last_entry-defs_in p (exposed s) (d ∷ exposed_along rest) old)

-- An entry that stands for a change.
unfoldable if_changed : PreState → Option StateVariable → Option StateVariable
if_changed pre none = none
if_changed pre (some v) = if is_changed pre v then some v else none

entry_of-changed_defs :
    (pre : PreState) (p : StateVariable) (vs : StateVariables)
    → Distinct vs
    → entry_of p (changed_defs pre vs) ≡ if_changed pre (entry_of p vs)
unfolding changed_defs entry_of if_changed
entry_of-changed_defs pre p [] d = refl
entry_of-changed_defs pre p (v ∷ vs) d =
    let ih = entry_of-changed_defs pre p vs d.1 in
    elim (Bool-cases (is_changed pre v)) [
      | inl c ↦ ground (arith, c, ih)
      | inr c ↦ elim (Bool-cases (same v p)) [
        | inl h ↦
            rw (c, h) (ih ∙ ap (if_changed pre) (sym (entry_of_congr v p vs h) ∙ d.0) ∙ rw c refl)
        | inr h ↦ rw (c, h) ih
      ]
    ]

-- The variable has the value that it had before the call; of code this is never known.
unfoldable pub Unchanged : PreState → StateVariable → Type 0
Unchanged pre (of_storage s) = pre.get_state s.address s.storage ≡ s.value
Unchanged pre (of_balance b) = pos (pre.get_balance b.address) ≡ b.value
Unchanged pre (of_code c) = ⊥

is_changed-Unchanged :
    (pre : PreState) (v : StateVariable)
    → (Unchanged pre v × (is_changed pre v ≡ false))
      ⊎ ((Unchanged pre v → ⊥) × (is_changed pre v ≡ true))
unfolding is_changed Unchanged
is_changed-Unchanged pre (of_storage s) = ground arith
is_changed-Unchanged pre (of_balance b) = ground arith
is_changed-Unchanged pre (of_code c) = inr (λ h. h, refl)

-- What OverallDefs has of a variable, by the last definition of it: on the root, only one that changes
-- the value.
unfoldable pub Has : Bool → PreState → Option StateVariable → Option StateVariable → Type 0
Has false pre last found = found ≡ last
Has true pre none found = found ≡ none
Has true pre (some v) found =
    (Unchanged pre v × (found ≡ none)) ⊎ ((Unchanged pre v → ⊥) × (found ≡ some v))

if_changed-Has :
    (pre : PreState) (last found : Option StateVariable)
    → found ≡ if_changed pre last
    → Has true pre last found
unfolding if_changed Has
if_changed-Has pre none found e = e
if_changed-Has pre (some v) found e = elim (is_changed-Unchanged pre v) [
  | inl (u, c) ↦ inl (u, ground (arith, c, e))
  | inr (u, c) ↦ inr (u, ground (arith, c, e))
]

-- OverallDefs has, of every variable, the last definition among the Data of the call and of the
-- calls below it, in the order of execution and without the calls that failed and those below
-- them, copied. On the root it has it only where the value is not the one before the call; code
-- always counts as changed.
pub entry_of-overall_defs :
    (pre : PreState) (is_root : Bool) (p : StateVariable) (c : CallSummary)
    → Has is_root pre
        (last_entry p (defs_in (exposed c)) none)
        (entry_of p (overall_defs pre is_root c))
unfolding overall_defs Has
entry_of-overall_defs pre true p c = if_changed-Has pre _ _ (
    entry_of-changed_defs pre p (merged_defs c) (merged_defs-Distinct c)
    ∙ ap (if_changed pre) (merged_entry p c))
entry_of-overall_defs pre false p c = merged_entry p c
