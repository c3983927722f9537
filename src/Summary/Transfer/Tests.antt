-- ===== src/Summary/Transfer/Tests.antt =====
-- Small transfers of analysis/summary/transfer.go.
use erebus_redgiant.Prelude.{◌≡◌, refl, List, [], ◌∷◌, arith, map}
use erebus_redgiant.Prelude.Int.{pos, ◌+ℤ◌, ◌-ℤ◌}
use erebus_redgiant.Summary.Profit.Amount.{Holding}
use erebus_redgiant.Summary.Profits.Conservation.{total}
use erebus_redgiant.Summary.Transfer.{
  FungibleTransfer, transfer, ether_transfer, erc20_transfer, merge_fungible, merge_through,
  merge_transfers, merge_as, profits,
}
use erebus_redgiant.Summary.Transfer.Fungible.{AllMove, merge_fungible-AllMove}
use erebus_redgiant.Summary.Transfer.Conservation.{
  gains, gains-merge_transfers, merge_transfers-Ends, Ends,
}

-- 7 go from account 1 to account 2, which passes 5 on to account 3.
abbrev brought : FungibleTransfer
brought = transfer 1 2 (pos 7)

abbrev passed_on : FungibleTransfer
passed_on = transfer 2 3 (pos 5)

abbrev merged : List FungibleTransfer
merged = transfer 1 3 (pos 5) ∷ transfer 1 2 (pos 2) ∷ []

gains-merge_transfers_example :
    gains (Holding.erc20 2 90) (map (λ f. erc20_transfer f 90) merged)
    ≡ total (Holding.erc20 2 90) (profits (erc20_transfer brought 90))
      +ℤ total (Holding.erc20 2 90) (profits (erc20_transfer passed_on 90))
unfolding merge_transfers merge_as merge_fungible merge_through ◌-ℤ◌
gains-merge_transfers_example =
    gains-merge_transfers (Holding.erc20 2 90) (erc20_transfer brought 90)
      (erc20_transfer passed_on 90) (map (λ f. erc20_transfer f 90) merged) refl

merge_transfers-Ends_example :
    Ends (merge_transfers (ether_transfer brought) (ether_transfer passed_on))
merge_transfers-Ends_example =
    merge_transfers-Ends (ether_transfer brought) (ether_transfer passed_on)

merge_fungible-AllMove_example : AllMove merged
unfolding merge_fungible merge_through ◌-ℤ◌
merge_fungible-AllMove_example =
    merge_fungible-AllMove 2 brought passed_on merged (omega arith, omega arith)
      (omega arith, omega arith) refl
