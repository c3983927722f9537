-- ===== src/Summary/Events.antt =====
-- LogToTransfers of analysis/summary/transfer.go, with the events of contract/abi.go as the ABI
-- files of contract/assets declare them. The topics are hashes of their signatures, which
-- go-ethereum computes; ERC20 and ERC721 have the same one.
pub mod Arguments
pub mod Safety
mod Tests
use erebus_redgiant.Prelude.{
  ℕ, suc, ◌^◌, ◌%◌, ◌+◌, Bool, true, false, not, Option, none, some, List, [], ◌∷◌, ◌==◌,
  if◌then◌else◌, get_elem?, Address, Hash,
}
use erebus_redgiant.Prelude.Int.{ℤ, pos, negsuc}
use erebus_redgiant.Prelude.Outcome.{Outcome, ok, err, panic, ◌>>=◌}
use erebus_redgiant.Tracers.Call.{Location}
use erebus_redgiant.Contract.Encoding.{
  AbiType, uint_ty, address_ty, bytes_ty, slice_ty, Value, integer, integers, Input, Log,
  parse_event,
}
use erebus_redgiant.Summary.Transfer.{
  FungibleTransfer, Transfer, erc20_transfer, erc777_transfer, erc721_transfer, erc1155_transfer,
}

pub record Topics : Type 0 where
  pub transfer : Hash
  pub erc777_sent : Hash
  pub erc777_minted : Hash
  pub erc777_burned : Hash
  pub erc1155_transfer_single : Hash
  pub erc1155_transfer_batch : Hash
  pub weth9_deposit : Hash
  pub weth9_withdrawal : Hash

abbrev pub weth9_address : Address
weth9_address = 0xC02aaA39b223FE8D0A0e5C4F27eAD9083C756Cc2

abbrev topic_of : AbiType → Input
topic_of t = record { indexed = true; typ = t }

abbrev data_of : AbiType → Input
data_of t = record { indexed = false; typ = t }

abbrev pub erc20_transfer_event : List Input
erc20_transfer_event = topic_of address_ty ∷ topic_of address_ty ∷ data_of (uint_ty 256) ∷ []

abbrev pub erc721_transfer_event : List Input
erc721_transfer_event = topic_of address_ty ∷ topic_of address_ty ∷ topic_of (uint_ty 256) ∷ []

abbrev pub erc777_sent_event : List Input
erc777_sent_event =
    topic_of address_ty
    ∷ topic_of address_ty
    ∷ topic_of address_ty
    ∷ data_of (uint_ty 256)
    ∷ data_of bytes_ty
    ∷ data_of bytes_ty
    ∷ []

-- Minted and Burned.
abbrev pub erc777_supply_event : List Input
erc777_supply_event =
    topic_of address_ty
    ∷ topic_of address_ty
    ∷ data_of (uint_ty 256)
    ∷ data_of bytes_ty
    ∷ data_of bytes_ty
    ∷ []

abbrev pub erc1155_single_event : List Input
erc1155_single_event =
    topic_of address_ty
    ∷ topic_of address_ty
    ∷ topic_of address_ty
    ∷ data_of (uint_ty 256)
    ∷ data_of (uint_ty 256)
    ∷ []

abbrev pub erc1155_batch_event : List Input
erc1155_batch_event =
    topic_of address_ty
    ∷ topic_of address_ty
    ∷ topic_of address_ty
    ∷ data_of (slice_ty (uint_ty 256))
    ∷ data_of (slice_ty (uint_ty 256))
    ∷ []

-- Deposit and Withdrawal.
abbrev pub weth9_event : List Input
weth9_event = topic_of address_ty ∷ data_of (uint_ty 256) ∷ []

-- ErrNotTransfer is the only error that LogToTransfers returns.
pub data TransferError : Type 0 where
  not_transfer : TransferError

abbrev pub Result : Type 0 → Type 0
Result A = Outcome TransferError A

-- The type assertions on the arguments; a value of another type panics, as an index out of range.
unfoldable pub address_at : List Value → ℕ → Result Address
address_at args k = elim (get_elem? args k) [ some (Value.address a) ↦ ok a | _ ↦ panic ]

unfoldable pub big_int_at : List Value → ℕ → Result ℤ
big_int_at args k = elim (get_elem? args k) [ some (integer x) ↦ ok x | _ ↦ panic ]

unfoldable pub big_ints_at : List Value → ℕ → Result (List ℤ)
big_ints_at args k = elim (get_elem? args k) [ some (integers xs) ↦ ok xs | _ ↦ panic ]

-- common.BigToHash: the last 32 bytes of the absolute value.
abbrev pub big_to_hash : ℤ → Hash
big_to_hash (pos n) = n % 2 ^ 256
big_to_hash (negsuc n) = (n + 1) % 2 ^ 256

abbrev pub fungible : Option Location → Address → Address → ℤ → FungibleTransfer
fungible location from to amount = record {
  from_account = from;
  to_account = to;
  amount = amount;
  contract_location = location;
}

-- The loop over the ids of a batch, with the values that are left.
unfoldable pub batch_transfers : (ℤ → ℤ → Transfer) → List ℤ → List ℤ → Result (List Transfer)
batch_transfers one [] values = ok []
batch_transfers one (id ∷ ids) [] = panic
batch_transfers one (id ∷ ids) (v ∷ values) =
    batch_transfers one ids values >>= λ rest. ok (one id v ∷ rest)

module _ (unpack : List Input → List ℕ → Option (List Value))
    (read_integer : AbiType → Hash → Value) where
  -- ParseEvent, where every error means that the log is no transfer.
  unfoldable pub arguments : List Input → Log → Result (List Value)
  arguments inputs log = elim (parse_event unpack read_integer inputs log) [
    | ok args ↦ ok args
    | err e ↦ err TransferError.not_transfer
    | panic ↦ panic
  ]

  module _ (log : Log) (location : Option Location) where
    unfoldable pub erc721_log : Result (List Transfer)
    unfolding arguments address_at big_int_at
    erc721_log = arguments erc721_transfer_event log >>= λ args. address_at args 0 >>= λ from.
        address_at args 1 >>= λ to. big_int_at args 2 >>= λ id.
        ok (erc721_transfer from to log.address (big_to_hash id) location ∷ [])

    -- A log that does not parse as an ERC20 transfer may be one of ERC721.
    unfoldable pub transfer_log : Result (List Transfer)
    unfolding erc721_log address_at big_int_at
    transfer_log = elim (parse_event unpack read_integer erc20_transfer_event log) [
      | ok args ↦ address_at args 0 >>= λ from. address_at args 1 >>= λ to.
          big_int_at args 2 >>= λ amount.
          ok (erc20_transfer (fungible location from to amount) log.address ∷ [])
      | err e ↦ erc721_log
      | panic ↦ panic
    ]

    unfoldable pub erc777_sent_log : Result (List Transfer)
    unfolding arguments address_at big_int_at
    erc777_sent_log = arguments erc777_sent_event log >>= λ args. address_at args 1 >>= λ from.
        address_at args 2 >>= λ to. big_int_at args 3 >>= λ amount.
        ok (erc777_transfer (fungible location from to amount) log.address ∷ [])

    unfoldable pub erc777_minted_log : Result (List Transfer)
    unfolding arguments address_at big_int_at
    erc777_minted_log = arguments erc777_supply_event log >>= λ args. address_at args 1 >>= λ to.
        big_int_at args 2 >>= λ amount.
        ok (erc777_transfer (fungible location 0 to amount) log.address ∷ [])

    unfoldable pub erc777_burned_log : Result (List Transfer)
    unfolding arguments address_at big_int_at
    erc777_burned_log = arguments erc777_supply_event log >>= λ args. address_at args 1 >>= λ from.
        big_int_at args 2 >>= λ amount.
        ok (erc777_transfer (fungible location from 0 amount) log.address ∷ [])

    unfoldable pub erc1155_single_log : Result (List Transfer)
    unfolding arguments address_at big_int_at
    erc1155_single_log = arguments erc1155_single_event log >>= λ args. big_int_at args 3 >>= λ id.
        address_at args 1 >>= λ from. address_at args 2 >>= λ to. big_int_at args 4 >>= λ amount.
        ok (erc1155_transfer (fungible location from to amount) log.address (big_to_hash id) ∷ [])

    -- The accounts are read in the loop.
    unfoldable pub erc1155_batch_log : Result (List Transfer)
    unfolding arguments address_at big_ints_at batch_transfers
    erc1155_batch_log = arguments erc1155_batch_event log >>= λ args. big_ints_at args 3 >>= λ ids.
        big_ints_at args 4 >>= λ values. address_at args 1 >>= λ from. address_at args 2 >>= λ to.
        batch_transfers
          (λ id v. erc1155_transfer (fungible location from to v) log.address (big_to_hash id)) ids
          values

    unfoldable pub weth9_deposit_log : Result (List Transfer)
    unfolding arguments address_at big_int_at
    weth9_deposit_log = arguments weth9_event log >>= λ args. address_at args 0 >>= λ to.
        big_int_at args 1 >>= λ amount.
        ok (erc20_transfer (fungible location 0 to amount) log.address ∷ [])

    unfoldable pub weth9_withdrawal_log : Result (List Transfer)
    unfolding arguments address_at big_int_at
    weth9_withdrawal_log = arguments weth9_event log >>= λ args. address_at args 0 >>= λ from.
        big_int_at args 1 >>= λ amount.
        ok (erc20_transfer (fungible location from 0 amount) log.address ∷ [])

    abbrev only_weth9 : Result (List Transfer) → Result (List Transfer)
    only_weth9 r = if log.address == weth9_address then r else err TransferError.not_transfer

    -- The switch on the first topic.
    unfoldable pub log_of_topic : Topics → Hash → Result (List Transfer)
    unfolding transfer_log erc777_sent_log erc777_minted_log erc777_burned_log erc1155_single_log
        erc1155_batch_log weth9_deposit_log weth9_withdrawal_log
    log_of_topic t topic =
        if topic == t.transfer
        then transfer_log
        else if topic == t.erc777_sent
        then erc777_sent_log
        else if topic == t.erc777_minted
        then erc777_minted_log
        else if topic == t.erc777_burned
        then erc777_burned_log
        else if topic == t.erc1155_transfer_single
        then erc1155_single_log
        else if topic == t.erc1155_transfer_batch
        then erc1155_batch_log
        else if topic == t.weth9_deposit
        then only_weth9 weth9_deposit_log
        else if topic == t.weth9_withdrawal
        then only_weth9 weth9_withdrawal_log
        else err TransferError.not_transfer

    unfoldable pub log_to_transfers : Topics → Result (List Transfer)
    unfolding log_of_topic
    log_to_transfers t = elim log.topics [
      | [] ↦ err TransferError.not_transfer
      | topic ∷ _ ↦ log_of_topic t topic
    ]
