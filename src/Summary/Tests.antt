-- ===== src/Summary/Tests.antt =====
-- Small inputs for profit.go.
use erebus_redgiant.Prelude.{ℕ, none, some, ◌≡◌, refl, [], ◌∷◌}
use erebus_redgiant.Prelude.Int.{pos, negsuc, ◌+ℤ◌}
use erebus_redgiant.Prelude.Outcome.{ok, err}
use erebus_redgiant.Summary.State.Intersection.{entry_of-intersect_with}
use erebus_redgiant.Summary.State.{
  intersect_with, StateVariable, of_storage, same, copy_variable, add_with_override,
}
use erebus_redgiant.Summary.State.Lists.{entry_of, last_entry, entry_of-add_with_override}
use erebus_redgiant.Summary.Profit.{
  ProfitError, zero_profit, ether_profit, erc20_profit, erc777_profit, cmp, merge,
}
use erebus_redgiant.Summary.Profit.Amount.{Holding, amount, amount-merge}
use erebus_redgiant.Summary.Profit.Compare
use erebus_redgiant.Summary.Profits.{
  Profits, add, compact, cmp_all, inner_cmp, agree, ether_profit_of, erc20_profit_of,
  erc777_profit_of, profits_of,
}
use erebus_redgiant.Summary.Profits.Conservation.{total, total-add, add_safe, NoSingleTokens}
use erebus_redgiant.Summary.Profits.Sums.{AllOf, sums_total, profits_of-total}
use erebus_redgiant.Summary.Profits.Comparison.{cmp_all-opposite, cmp_all_unmerged}

abbrev gains : Profits
gains = ether_profit 7 (pos 5) ∷ erc20_profit 7 20 (negsuc 2) ∷ ether_profit 8 (pos 1) ∷ []

abbrev more : Profits
more = erc20_profit 7 20 (pos 10) ∷ ether_profit 7 (negsuc 0) ∷ zero_profit ∷ []

abbrev together : Profits
together =
    ether_profit 7 (pos 4) ∷ erc20_profit 7 20 (pos 7) ∷ ether_profit 8 (pos 1) ∷ zero_profit ∷ []

added : add gains more ≡ ok together
unfolding add ◌+ℤ◌
added = refl

total-add_example :
    total (Holding.ether 7) together ≡ total (Holding.ether 7) gains +ℤ total (Holding.ether 7) more
total-add_example = total-add (Holding.ether 7) gains more added

add_safe_example : (qs : Profits) × (add gains more ≡ ok qs) × NoSingleTokens qs
add_safe_example = add_safe gains more (refl, (refl, (refl, tt))) (refl, (refl, (refl, tt)))

amount-merge_example :
    amount (Holding.ether 7) (ether_profit 7 (pos 4))
    ≡ amount (Holding.ether 7) (ether_profit 7 (pos 5))
      +ℤ amount (Holding.ether 7) (ether_profit 7 (negsuc 0))
unfolding merge ◌+ℤ◌
amount-merge_example =
    amount-merge (Holding.ether 7) (ether_profit 7 (pos 5)) (ether_profit 7 (negsuc 0)) refl

sums_total_example :
    (ether_profit_of gains 7 ≡ ok (ether_profit 7 (total (Holding.ether 7) gains)))
    × (erc20_profit_of gains 20 7 ≡ ok (erc20_profit 7 20 (total (Holding.erc20 7 20) gains)))
    × (erc777_profit_of gains 20 7 ≡ ok (erc777_profit 7 20 (total (Holding.erc777 7 20) gains)))
sums_total_example = sums_total gains 7 20

mine : profits_of gains 7 ≡ ok (ether_profit 7 (pos 5) ∷ erc20_profit 7 20 (negsuc 2) ∷ [])
unfolding profits_of
mine = refl

profits_of-total_example :
    AllOf 7 (ether_profit 7 (pos 5) ∷ erc20_profit 7 20 (negsuc 2) ∷ [])
    × (total (Holding.erc20 7 20) (ether_profit 7 (pos 5) ∷ erc20_profit 7 20 (negsuc 2) ∷ [])
        ≡ total (Holding.erc20 7 20) gains)
profits_of-total_example = profits_of-total (Holding.erc20 7 20) gains mine

profit_order_opposite : cmp (ether_profit 7 (pos 2)) (ether_profit 7 (pos 5)) ≡ ok (negsuc 0)
unfolding cmp
profit_order_opposite =
    Compare.cmp_profit_opposite (ether_profit 7 (pos 5)) (ether_profit 7 (pos 2)) (λ e. cc) refl

profit_order_trans : cmp (ether_profit 7 (negsuc 2)) (ether_profit 7 (pos 5)) ≡ ok (negsuc 0)
unfolding cmp
profit_order_trans =
    Compare.cmp_profit_trans (ether_profit 7 (negsuc 2)) (ether_profit 7 (pos 1))
      (ether_profit 7 (pos 5)) (λ e. cc) (λ e. cc) refl refl

more_is_more : cmp_all gains [] ≡ err ProfitError.not_comparable
unfolding cmp_all compact inner_cmp agree
more_is_more = refl

abbrev less : Profits
less = ether_profit 7 (pos 3) ∷ []

cmp_all-opposite_example : cmp_all less (ether_profit 7 (pos 5) ∷ []) ≡ ok (negsuc 0)
unfolding cmp_all compact inner_cmp agree
cmp_all-opposite_example = cmp_all-opposite (ether_profit 7 (pos 5) ∷ []) less refl

cmp_all_unmerged_example :
    cmp_all (ether_profit 7 (pos 5) ∷ ether_profit 7 (negsuc 4) ∷ []) []
    ≡ err ProfitError.not_comparable
cmp_all_unmerged_example = cmp_all_unmerged 7 (pos 5) (negsuc 4) refl refl refl

abbrev slot : ℕ → ℕ → StateVariable
slot key value = of_storage (record { address = 1; storage = key; value = value; location = none })

entry_of-add_with_override_example :
    entry_of (slot 5 0) (add_with_override (slot 5 1 ∷ slot 6 2 ∷ []) (slot 5 3 ∷ slot 7 4 ∷ []))
    ≡ some (slot 5 3)
unfolding last_entry entry_of same copy_variable
entry_of-add_with_override_example =
    entry_of-add_with_override (slot 5 0) (slot 5 1 ∷ slot 6 2 ∷ []) (slot 5 3 ∷ slot 7 4 ∷ [])

entry_of-intersect_with_example :
    entry_of (slot 6 0) (intersect_with (slot 5 1 ∷ slot 6 2 ∷ []) (slot 6 3 ∷ [])).0
    ≡ some (slot 6 2)
unfolding entry_of same
entry_of-intersect_with_example =
    entry_of-intersect_with (slot 6 0) (slot 5 1 ∷ slot 6 2 ∷ []) (slot 6 3 ∷ [])
