-- ===== src/Summary/Transfer.antt =====
-- analysis/summary/transfer.go: transfers of assets, the profits that they bring, and how two of them merge. The
-- interface ITransfer is a data type with a constructor for each type that implements it.

pub mod Fungible
pub mod Conservation
mod Tests
use erebus_redgiant.Prelude.{
  ℕ, Bool, true, false, not, ◌&&◌, ◌||◌, Option, none, some, List, [], ◌∷◌, ◌++◌, ◌==◌,
  if◌then◌else◌, Address, Hash, map, zero, suc,
}
use erebus_redgiant.Prelude.Int.{ℤ, pos, negsuc, ◌+ℤ◌, ◌-ℤ◌, ltb_ℤ}
use erebus_redgiant.Prelude.Outcome.{Outcome, ok, err, panic, ◌>>=◌}
use erebus_redgiant.Tracers.Call.{Location}
use erebus_redgiant.Summary.Profit.{
  AssetType, ProfitError, Profit, ether_profit, erc20_profit, erc777_profit, erc1155_profit,
  erc721_combined_profit, is_zero,
}

-- fungibleTransfer; the location is nil where the transaction itself sends ether.
pub record FungibleTransfer : Type 0 where
  pub from_account : Address
  pub to_account : Address
  pub amount : ℤ
  pub contract_location : Option Location

-- A transfer as the code builds it, without a location.
abbrev pub transfer : Address → Address → ℤ → FungibleTransfer
transfer from to amount = record {
  from_account = from;
  to_account = to;
  amount = amount;
  contract_location = none;
}

unfoldable pub copy_fungible : FungibleTransfer → FungibleTransfer
copy_fungible f = transfer f.from_account f.to_account f.amount

-- The transfers go back and forth between two accounts.
unfoldable pub merge_mutual : FungibleTransfer → FungibleTransfer → List FungibleTransfer
merge_mutual f other =
    if ltb_ℤ other.amount f.amount
    then transfer f.from_account other.from_account (f.amount -ℤ other.amount) ∷ []
    else if ltb_ℤ f.amount other.amount
    then transfer other.from_account f.from_account (other.amount -ℤ f.amount) ∷ []
    else []

-- The transfer `f` passes on what `other` brings.
unfoldable pub merge_through : FungibleTransfer → FungibleTransfer → List FungibleTransfer
merge_through f other =
    if ltb_ℤ other.amount f.amount
    then transfer other.from_account f.to_account other.amount
      ∷ transfer f.from_account f.to_account (f.amount -ℤ other.amount)
      ∷ []
    else if ltb_ℤ f.amount other.amount
    then transfer other.from_account f.to_account f.amount
      ∷ transfer other.from_account f.from_account (other.amount -ℤ f.amount)
      ∷ []
    else transfer other.from_account f.to_account f.amount ∷ []

-- fungibleTransfer.merge, which calls itself with the two turned round; panic where the calls are deeper than the fuel.
unfoldable pub merge_fungible :
    ℕ → FungibleTransfer → FungibleTransfer → Outcome ProfitError (List FungibleTransfer)
merge_fungible zero f other = panic
merge_fungible (suc fuel) f other =
    let turned = merge_fungible fuel other f in
    if f.from_account == other.to_account && f.to_account == other.from_account
    then ok (merge_mutual f other)
    else if f.from_account == other.from_account && f.to_account == other.to_account
    then ok (transfer f.from_account f.to_account (f.amount +ℤ other.amount) ∷ [])
    else if f.from_account == other.to_account
    then ok (merge_through f other)
    else if f.to_account == other.from_account
    then turned
    else err ProfitError.merge_not_possible

pub data Transfer : Type 0 where
  ether_transfer : FungibleTransfer → Transfer
  erc20_transfer : FungibleTransfer → Address → Transfer
  erc777_transfer : FungibleTransfer → Address → Transfer
  erc721_transfer : Address → Address → Address → Hash → Option Location → Transfer
  erc1155_transfer : FungibleTransfer → Address → Hash → Transfer

unfoldable pub transfer_type : Transfer → AssetType
transfer_type (ether_transfer f) = AssetType.ether_asset
transfer_type (erc20_transfer f c) = AssetType.erc20_asset
transfer_type (erc777_transfer f c) = AssetType.erc777_asset
transfer_type (erc721_transfer a b c t l) = AssetType.erc721_asset
transfer_type (erc1155_transfer f c t) = AssetType.erc1155_asset

unfoldable pub transfer_location : Transfer → Option Location
transfer_location (ether_transfer f) = f.contract_location
transfer_location (erc20_transfer f c) = f.contract_location
transfer_location (erc777_transfer f c) = f.contract_location
transfer_location (erc721_transfer a b c t l) = l
transfer_location (erc1155_transfer f c t) = f.contract_location

unfoldable pub copy_transfer : Transfer → Transfer
copy_transfer (ether_transfer f) = ether_transfer (copy_fungible f)
copy_transfer (erc20_transfer f c) = erc20_transfer (copy_fungible f) c
copy_transfer (erc777_transfer f c) = erc777_transfer (copy_fungible f) c
copy_transfer (erc721_transfer a b c t l) = erc721_transfer a b c t l
copy_transfer (erc1155_transfer f c t) = erc1155_transfer (copy_fungible f) c t

unfoldable pub from_of : Transfer → Address
from_of (ether_transfer f) = f.from_account
from_of (erc20_transfer f c) = f.from_account
from_of (erc777_transfer f c) = f.from_account
from_of (erc721_transfer a b c t l) = a
from_of (erc1155_transfer f c t) = f.from_account

unfoldable pub to_of : Transfer → Address
to_of (ether_transfer f) = f.to_account
to_of (erc20_transfer f c) = f.to_account
to_of (erc777_transfer f c) = f.to_account
to_of (erc721_transfer a b c t l) = b
to_of (erc1155_transfer f c t) = f.to_account

-- Burn and Mint: ether is neither burnt nor minted.
unfoldable pub burn : Transfer → Bool
burn (ether_transfer f) = false
burn (erc20_transfer f c) = f.to_account == 0
burn (erc777_transfer f c) = f.to_account == 0
burn (erc721_transfer a b c t l) = b == 0
burn (erc1155_transfer f c t) = f.to_account == 0

unfoldable pub mint : Transfer → Bool
mint (ether_transfer f) = false
mint (erc20_transfer f c) = f.from_account == 0
mint (erc777_transfer f c) = f.from_account == 0
mint (erc721_transfer a b c t l) = a == 0
mint (erc1155_transfer f c t) = f.from_account == 0

unfoldable pub is_zero_fungible : FungibleTransfer → Bool
is_zero_fungible f = is_zero f.amount || f.from_account == f.to_account

unfoldable pub is_zero_transfer : Transfer → Bool
is_zero_transfer (ether_transfer f) = is_zero_fungible f
is_zero_transfer (erc20_transfer f c) = is_zero_fungible f
is_zero_transfer (erc777_transfer f c) = is_zero_fungible f
is_zero_transfer (erc721_transfer a b c t l) = false
is_zero_transfer (erc1155_transfer f c t) = is_zero_fungible f

-- The profit of the sender and of the receiver, where the transfer is not Zero, Mint or Burn.
abbrev pub two_sided : Bool → Bool → Bool → Profit → Profit → List Profit
two_sided none_moved minted burnt from to =
    if none_moved then [] else (if minted then [] else from ∷ []) ++ (if burnt then [] else to ∷ [])

abbrev pub negated : ℤ → ℤ
negated x = pos 0 -ℤ x

abbrev ether_profits : FungibleTransfer → List Profit
ether_profits f =
    two_sided (is_zero_fungible f) false false (ether_profit f.from_account (negated f.amount))
      (ether_profit f.to_account f.amount)

abbrev erc20_profits : FungibleTransfer → Address → List Profit
erc20_profits f c =
    two_sided (is_zero_fungible f) (f.from_account == 0) (f.to_account == 0)
      (erc20_profit f.from_account c (negated f.amount)) (erc20_profit f.to_account c f.amount)

abbrev erc777_profits : FungibleTransfer → Address → List Profit
erc777_profits f c =
    two_sided (is_zero_fungible f) (f.from_account == 0) (f.to_account == 0)
      (erc777_profit f.from_account c (negated f.amount)) (erc777_profit f.to_account c f.amount)

-- A token is given and received whatever the accounts: Zero is false.
abbrev erc721_profits : Address → Address → Address → Hash → List Profit
erc721_profits a b c t =
    two_sided false (a == 0) (b == 0) (erc721_combined_profit a c [] (t ∷ []))
      (erc721_combined_profit b c (t ∷ []) [])

abbrev erc1155_profits : FungibleTransfer → Address → Hash → List Profit
erc1155_profits f c t =
    two_sided (is_zero_fungible f) (f.from_account == 0) (f.to_account == 0)
      (erc1155_profit f.from_account c t (negated f.amount))
      (erc1155_profit f.to_account c t f.amount)

unfoldable pub profits : Transfer → List Profit
unfolding is_zero_fungible
profits (ether_transfer f) = ether_profits f
profits (erc20_transfer f c) = erc20_profits f c
profits (erc777_transfer f c) = erc777_profits f c
profits (erc721_transfer a b c t l) = erc721_profits a b c t
profits (erc1155_transfer f c t) = erc1155_profits f c t

-- The transfers that `merge` gives, each wrapped as the kind of asset; the fuel is enough.
unfoldable pub merge_as :
    (FungibleTransfer → Transfer)
    → FungibleTransfer
    → FungibleTransfer
    → Outcome ProfitError (List Transfer)
merge_as wrap f other = merge_fungible 2 f other >>= λ merged. ok (map wrap merged)

abbrev pub same_asset :
    Bool → Outcome ProfitError (List Transfer) → Outcome ProfitError (List Transfer)
same_asset b merged = if b then merged else err ProfitError.merge_not_possible

-- The tokens that go on from the receiver; two transfers from one account to another do not merge.
unfoldable pub erc721_merge :
    Address → Address → Address → Address → Address → Hash → Outcome ProfitError (List Transfer)
erc721_merge from to other_from other_to c t =
    if from == other_to && to == other_from
    then ok []
    else if from == other_to
    then ok (erc721_transfer other_from to c t none ∷ [])
    else if to == other_from
    then ok (erc721_transfer from other_to c t none ∷ [])
    else err ProfitError.merge_not_possible

abbrev ether_merge : FungibleTransfer → FungibleTransfer → Outcome ProfitError (List Transfer)
ether_merge f g = merge_as ether_transfer f g

abbrev erc20_merge :
    FungibleTransfer → Address → FungibleTransfer → Address → Outcome ProfitError (List Transfer)
erc20_merge f c g d = same_asset (d == c) (merge_as (λ x. erc20_transfer x c) f g)

abbrev erc777_merge :
    FungibleTransfer → Address → FungibleTransfer → Address → Outcome ProfitError (List Transfer)
erc777_merge f c g d = same_asset (d == c) (merge_as (λ x. erc777_transfer x c) f g)

abbrev erc1155_merge :
    FungibleTransfer
    → Address
    → Hash
    → FungibleTransfer
    → Address
    → Hash
    → Outcome ProfitError (List Transfer)
erc1155_merge f c t g d u =
    same_asset (d == c && u == t) (merge_as (λ x. erc1155_transfer x c t) f g)

unfoldable pub merge_transfers : Transfer → Transfer → Outcome ProfitError (List Transfer)
unfolding merge_as erc721_merge
merge_transfers (ether_transfer f) (ether_transfer g) = ether_merge f g
merge_transfers (erc20_transfer f c) (erc20_transfer g d) = erc20_merge f c g d
merge_transfers (erc777_transfer f c) (erc777_transfer g d) = erc777_merge f c g d
merge_transfers (erc721_transfer a b c t l) (erc721_transfer a' b' d u l') =
    same_asset (d == c && u == t) (erc721_merge a b a' b' c t)
merge_transfers (erc1155_transfer f c t) (erc1155_transfer g d u) = erc1155_merge f c t g d u
merge_transfers _ _ = err ProfitError.merge_not_possible
