-- ===== src/Summary/Calls/Tests.antt =====
-- A call with a failed call and a call that returns below it, for summary.go.
use erebus_redgiant.Prelude.{ℕ, true, false, none, [], ◌∷◌, ◌≡◌, refl}
use erebus_redgiant.Prelude.Int.{pos, negsuc, ◌+ℤ◌}
use erebus_redgiant.Prelude.Outcome.{ok}
use erebus_redgiant.Summary.Profit.{ether_profit, erc20_profit}
use erebus_redgiant.Summary.Profit.Amount.{Holding}
use erebus_redgiant.Summary.Profits.{Profits, add, compact}
use erebus_redgiant.Summary.Profits.Conservation.{total, NoSingleTokens}
use erebus_redgiant.Summary.State.{
  StateVariable, of_storage, same, copy_variable, override_one, add_with_override, add_one_absent,
  add_if_absent,
}
use erebus_redgiant.Summary.State.Lists.{entry_of, last_entry, first_entry}
use erebus_redgiant.Summary.Calls.{
  Data, CallSummary, call_summary, no_summaries, nested_summary, PreState, overall_defs,
  overall_uses, overall_profits,
}
use erebus_redgiant.Summary.Calls.Exposed.{exposed, profits_in, total-overall_profits}
use erebus_redgiant.Summary.Calls.Defs.{defs_in, Has, entry_of-overall_defs}
use erebus_redgiant.Summary.Calls.Uses.{every_data, uses_in, entry_of-overall_uses}

abbrev slot : ℕ → StateVariable
slot n = of_storage (record { address = 7; storage = 1; value = n; location = none })

abbrev earns : StateVariable → Profits → Data
earns v ps = record { defs = v ∷ []; uses = v ∷ []; transfers = []; profits = ps }

abbrev fails : CallSummary
fails = call_summary true (earns (slot 9) (ether_profit 7 (pos 100) ∷ [])) no_summaries

abbrev returns : CallSummary
returns =
    call_summary false (earns (slot 2) (ether_profit 7 (negsuc 1) ∷ erc20_profit 7 20 (pos 3) ∷ []))
      no_summaries

abbrev root : CallSummary
root = call_summary false (earns (slot 1) (ether_profit 7 (pos 5) ∷ [])) (
    nested_summary fails (earns (slot 3) [])
      (nested_summary returns (earns (slot 4) (ether_profit 8 (pos 0) ∷ [])) no_summaries))

abbrev before : PreState
before = record { get_state = λ a k. 1; get_balance = λ a. 0 }

root_earns : overall_profits root ≡ ok (ether_profit 7 (pos 3) ∷ erc20_profit 7 20 (pos 3) ∷ [])
unfolding overall_profits add compact ◌+ℤ◌
root_earns = refl

root_defines : overall_defs before true root ≡ slot 4 ∷ []
unfolding overall_defs add_with_override override_one same copy_variable
root_defines = refl

root_uses : overall_uses root ≡ slot 1 ∷ []
unfolding overall_uses add_if_absent add_one_absent same copy_variable
root_uses = refl

root-NoSingleTokens : NoSingleTokens (profits_in (exposed root))
unfolding profits_in exposed
root-NoSingleTokens = (refl, (refl, (refl, (refl, tt))))

total-overall_profits_example :
    (qs : Profits) × (overall_profits root ≡ ok qs)
    × NoSingleTokens qs
    × ((k : Holding) → total k qs ≡ total k (profits_in (exposed root)))
total-overall_profits_example = total-overall_profits root root-NoSingleTokens

entry_of-overall_defs_example :
    Has true before
      (last_entry (slot 0) (defs_in (exposed root)) none)
      (entry_of (slot 0) (overall_defs before true root))
entry_of-overall_defs_example = entry_of-overall_defs before true (slot 0) root

entry_of-overall_uses_example :
    entry_of (slot 0) (overall_uses root) ≡ first_entry (slot 0) (uses_in (every_data root)) none
entry_of-overall_uses_example = entry_of-overall_uses (slot 0) root
