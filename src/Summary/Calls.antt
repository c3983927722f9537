-- ===== src/Summary/Calls.antt =====
-- analysis/summary/summary.go: what a call defines, uses, earns and transfers with the calls below
-- it. A call has one Data more than nested summaries, as the field's comment says; here the first
-- Data stands alone, and each nested summary stands with the Data that follows it. The Overall
-- operations are taken with their caches empty, as InvalidateCache leaves them.
pub mod Exposed
pub mod Defs
pub mod Uses
mod Tests
use erebus_redgiant.Prelude.{
  ℕ, Bool, true, false, not, List, [], ◌∷◌, ◌++◌, ◌==◌, if◌then◌else◌, Address, Hash,
}
use erebus_redgiant.Prelude.Int.{ℤ, pos}
use erebus_redgiant.Prelude.Outcome.{Outcome, ok, ◌>>=◌}
use erebus_redgiant.Summary.Profit.{ProfitError}
use erebus_redgiant.Summary.Profits.{Profits, add, compact}
use erebus_redgiant.Summary.State.{
  StateVariable, StateVariables, of_storage, of_balance, of_code, equal_ints, add_with_override,
  add_if_absent,
}
use erebus_redgiant.Summary.Transfer.{Transfer}

-- Without the execution path.
pub record Data : Type 0 where
  pub defs : StateVariables
  pub uses : StateVariables
  pub transfers : List Transfer
  pub profits : Profits

-- A call that failed or not, its first Data, and what follows.
mutual
  pub data CallSummary : Type 0 where
    call_summary : Bool → Data → NestedSummaries → CallSummary

  pub data NestedSummaries : Type 0 where
    no_summaries : NestedSummaries
    nested_summary : CallSummary → Data → NestedSummaries → NestedSummaries

-- OverallDefs of a call that is not the root, and its loop.
unfoldable mutual
  pub merged_defs : CallSummary → StateVariables
  merged_defs (call_summary failed d rest) =
      let all = defs_along (add_with_override [] d.defs) rest in if failed then [] else all

  pub defs_along : StateVariables → NestedSummaries → StateVariables
  defs_along defs no_summaries = defs
  defs_along defs (nested_summary s d rest) =
      defs_along (add_with_override (add_with_override defs (merged_defs s)) d.defs) rest

-- What OverallDefs reads of the state before the call, which the engine's state gives.
pub record PreState : Type 0 where
  pub get_state : Address → Hash → Hash
  pub get_balance : Address → ℕ

unfoldable pub is_changed : PreState → StateVariable → Bool
is_changed pre (of_storage s) = not (pre.get_state s.address s.storage == s.value)
is_changed pre (of_balance b) = not (equal_ints (pos (pre.get_balance b.address)) b.value)
is_changed pre (of_code c) = true

-- The loop over the merged definitions of the root.
unfoldable pub changed_defs : PreState → StateVariables → StateVariables
unfolding is_changed
changed_defs pre [] = []
changed_defs pre (v ∷ vs) =
    let rest = changed_defs pre vs in if is_changed pre v then v ∷ rest else rest

unfoldable pub overall_defs : PreState → Bool → CallSummary → StateVariables
unfolding merged_defs changed_defs
overall_defs pre is_root c =
    let defs = merged_defs c in if is_root then changed_defs pre defs else defs

unfoldable mutual
  pub overall_uses : CallSummary → StateVariables
  overall_uses (call_summary failed d rest) = uses_along (add_if_absent [] d.uses) rest

  pub uses_along : StateVariables → NestedSummaries → StateVariables
  uses_along uses no_summaries = uses
  uses_along uses (nested_summary s d rest) =
      uses_along (add_if_absent (add_if_absent uses (overall_uses s)) d.uses) rest

unfoldable mutual
  pub overall_profits : CallSummary → Outcome ProfitError Profits
  overall_profits (call_summary failed d rest) =
      let all = add [] d.profits >>= λ ps. profits_along ps rest >>= compact in
      if failed then ok [] else all

  pub profits_along : Profits → NestedSummaries → Outcome ProfitError Profits
  profits_along ps no_summaries = ok ps
  profits_along ps (nested_summary s d rest) = overall_profits s >>= λ qs.
      add ps qs >>= λ rs. add rs d.profits >>= λ next. profits_along next rest

unfoldable mutual
  pub overall_transfers : CallSummary → List Transfer
  overall_transfers (call_summary failed d rest) =
      let all = transfers_along d.transfers rest in if failed then [] else all

  pub transfers_along : List Transfer → NestedSummaries → List Transfer
  transfers_along ts no_summaries = ts
  transfers_along ts (nested_summary s d rest) =
      transfers_along ((ts ++ overall_transfers s) ++ d.transfers) rest
