-- ===== src/Summary/Calls/Uses.antt =====
-- The overall uses of summary.go, against the Data in the order of execution.
use erebus_redgiant.Prelude.{
  ◌≡◌, refl, ap, sym, ◌∙◌, Bool-cases, inl, inr, Option, none, some, List, [], ◌∷◌, ◌++◌,
}
use erebus_redgiant.Summary.State.{StateVariable, StateVariables, same, add_if_absent}
use erebus_redgiant.Summary.State.Lists.{
  entry_of, first_entry, first_entry_nil, entry_of-add_if_absent,
}
use erebus_redgiant.Summary.Calls.{
  Data, CallSummary, NestedSummaries, call_summary, no_summaries, nested_summary, overall_uses,
  uses_along,
}
use erebus_redgiant.Summary.Calls.Defs.{over, copied, copy_copy}

-- The Data of a call and of all calls below it, in the order of execution.
unfoldable mutual
  pub every_data : CallSummary → List Data
  every_data (call_summary failed d rest) = d ∷ data_along rest

  pub data_along : NestedSummaries → List Data
  data_along no_summaries = []
  data_along (nested_summary s d rest) = every_data s ++ (d ∷ data_along rest)

unfoldable pub uses_in : List Data → StateVariables
uses_in [] = []
uses_in (d ∷ ds) = d.uses ++ uses_in ds

first_entry_append :
    (p : StateVariable) (l m : StateVariables) (old : Option StateVariable)
    → first_entry p (l ++ m) old ≡ first_entry p m (first_entry p l old)
unfolding first_entry
first_entry_append p l m (some v) = refl
first_entry_append p [] m none = refl
first_entry_append p (e ∷ l) m none = elim (Bool-cases (same e p)) [
  | inl h ↦ rw h refl
  | inr h ↦ rw h (first_entry_append p l m none)
]

first_entry-over :
    (p : StateVariable) (es : StateVariables) (old : Option StateVariable)
    → first_entry p es old ≡ over old (first_entry p es none)
unfolding first_entry over
first_entry-over p es (some v) = refl
first_entry-over p es none = refl

copied-first_entry :
    (p : StateVariable) (es : StateVariables)
    → copied (first_entry p es none) ≡ first_entry p es none
unfolding first_entry copied
copied-first_entry p [] = refl
copied-first_entry p (e ∷ es) = elim (Bool-cases (same e p)) [
  | inl h ↦ rw h (ap some (copy_copy e))
  | inr h ↦ rw h (copied-first_entry p es)
]

first_entry-entry_of :
    (p : StateVariable) (vs : StateVariables) → first_entry p vs none ≡ copied (entry_of p vs)
unfolding first_entry entry_of copied
first_entry-entry_of p [] = refl
first_entry-entry_of p (v ∷ vs) = elim (Bool-cases (same v p)) [
  | inl h ↦ rw h refl
  | inr h ↦ rw h (first_entry-entry_of p vs)
]

-- Uses that were collected before are as good as the list that they come from.
collected_once :
    (p : StateVariable) (vs es : StateVariables) (old : Option StateVariable)
    → entry_of p vs ≡ first_entry p es none
    → first_entry p vs old ≡ first_entry p es old
collected_once p vs es old h =
    first_entry-over p vs old
    ∙ ap (over old) (first_entry-entry_of p vs ∙ ap copied h ∙ copied-first_entry p es)
    ∙ sym (first_entry-over p es old)

first_entry-uses_in :
    (p : StateVariable) (l m : List Data) (old : Option StateVariable)
    → first_entry p (uses_in (l ++ m)) old
      ≡ first_entry p (uses_in m) (first_entry p (uses_in l) old)
unfolding uses_in
first_entry-uses_in p [] m old = ap (first_entry p (uses_in m)) (sym (first_entry_nil p old))
first_entry-uses_in p (d ∷ l) m old =
    first_entry_append p d.uses (uses_in (l ++ m)) old
    ∙ first_entry-uses_in p l m (first_entry p d.uses old)
    ∙ ap (first_entry p (uses_in m)) (sym (first_entry_append p d.uses (uses_in l) old))

mutual
  unfolding overall_uses uses_along every_data data_along uses_in entry_of

  call_entry :
      (p : StateVariable) (c : CallSummary)
      → entry_of p (overall_uses c) ≡ first_entry p (uses_in (every_data c)) none
  call_entry p (call_summary failed d rest) =
      let later = uses_in (data_along rest) in
      along_entry p rest (add_if_absent [] d.uses)
      ∙ ap (first_entry p later) (entry_of-add_if_absent p [] d.uses)
      ∙ sym (first_entry_append p d.uses later none)

  along_entry :
      (p : StateVariable) (rest : NestedSummaries) (uses : StateVariables)
      → entry_of p (uses_along uses rest)
        ≡ first_entry p (uses_in (data_along rest)) (entry_of p uses)
  along_entry p no_summaries uses = sym (first_entry_nil p (entry_of p uses))
  along_entry p (nested_summary s d rest) uses =
      let merged = add_if_absent uses (overall_uses s) in
      let below = uses_in (every_data s) in
      let later = uses_in (data_along rest) in
      let old = entry_of p uses in
      along_entry p rest (add_if_absent merged d.uses)
      ∙ ap (first_entry p later) (
          entry_of-add_if_absent p merged d.uses
          ∙ ap (first_entry p d.uses) (
              entry_of-add_if_absent p uses (overall_uses s)
              ∙ collected_once p (overall_uses s) below old (call_entry p s)))
      ∙ sym (first_entry_append p d.uses later (first_entry p below old))
      ∙ sym (first_entry-uses_in p (every_data s) (d ∷ data_along rest) old)

-- OverallUses has, of every variable, the first use among the Data of the call and of all calls
-- below it, in the order of execution, copied; those of calls that failed count.
pub entry_of-overall_uses :
    (p : StateVariable) (c : CallSummary)
    → entry_of p (overall_uses c) ≡ first_entry p (uses_in (every_data c)) none
entry_of-overall_uses p c = call_entry p c
