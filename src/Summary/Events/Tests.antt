-- ===== src/Summary/Events/Tests.antt =====
-- Logs of tokens, for LogToTransfers of transfer.go, with a decoder that keeps to the types.
use mathlib.Core.Path.{subst}
use erebus_redgiant.Prelude.{
  ℕ, ◌≤◌, ◌≡◌, refl, Bool, ◌⊎◌, Option, none, some, List, [], ◌∷◌, arith, length, map, Hash,
}
use erebus_redgiant.Prelude.Int.{ℤ, pos}
use erebus_redgiant.Prelude.Outcome.{ok, err, panic}
use erebus_redgiant.Contract.Encoding.{
  AbiType, uint_ty, address_ty, slice_ty, Value, integer, integers, bytes, Input, Log, non_indexed,
  parse_event, merge_arguments, indexed_argument, first,
}
use erebus_redgiant.Contract.Encoding.Typed.{OfType, AllOfType, UnpackOfType, ReadBigInt}
use erebus_redgiant.Summary.Transfer.{Transfer, erc20_transfer}
use erebus_redgiant.Summary.Events.{Topics, fungible, TransferError, log_to_transfers, big_ints_at}
use erebus_redgiant.Summary.Events.Arguments.{AllFrom}
use erebus_redgiant.Summary.Events.Safety.{
  BatchOf, log_to_transfers_safe, log_to_transfers-short_batch,
}

-- Numbers from the payload: the first for an integer, all of them for the first list.
abbrev head : List ℕ → ℕ
head [] = 0
head (n ∷ ns) = n

abbrev sample : AbiType → List ℕ → Value
sample (uint_ty n) payload = integer (pos (head payload))
sample address_ty payload = Value.address (head payload)
sample (slice_ty t) payload = integers (map pos payload)
sample _ payload = bytes payload

abbrev after : AbiType → List ℕ → List ℕ
after (slice_ty t) payload = []
after _ payload = payload

abbrev samples : List Input → List ℕ → List Value
samples [] payload = []
samples (i ∷ is) payload = sample i.typ payload ∷ samples is (after i.typ payload)

abbrev unpack : List Input → List ℕ → Option (List Value)
unpack inputs payload = some (samples (non_indexed inputs) payload)

abbrev read_integer : AbiType → Hash → Value
read_integer t topic = integer (pos topic)

sample-OfType : (b : Bool) (t : AbiType) (payload : List ℕ) → OfType b t (sample t payload)
sample-OfType b (uint_ty n) payload = λ e. (_, refl)
sample-OfType b address_ty payload = (_, refl)
sample-OfType b (slice_ty t) payload = λ e h. (_, refl)
sample-OfType b _ payload = tt

samples-AllOfType : (is : List Input) (payload : List ℕ) → AllOfType is (samples is payload)
samples-AllOfType [] payload = tt
samples-AllOfType (i ∷ is) payload =
    (sample-OfType i.indexed i.typ payload, samples-AllOfType is (after i.typ payload))

read_big : ReadBigInt read_integer
read_big topic = (pos topic, refl)

unpack-OfType : UnpackOfType unpack
unpack-OfType inputs payload values h =
    subst (AllOfType (non_indexed inputs)) (same h) (samples-AllOfType (non_indexed inputs) payload)
  where
    same :
        some (samples (non_indexed inputs) payload) ≡ some values
        → samples (non_indexed inputs) payload ≡ values
    same k = cc

abbrev topics : Topics
topics = record {
  transfer = 1;
  erc777_sent = 2;
  erc777_minted = 3;
  erc777_burned = 4;
  erc1155_transfer_single = 5;
  erc1155_transfer_batch = 6;
  weth9_deposit = 7;
  weth9_withdrawal = 8;
}

-- 30 tokens of contract 20 go from 7 to 8, or the token 30.
abbrev erc20_log : Log
erc20_log = record { address = 20; topics = 1 ∷ 7 ∷ 8 ∷ []; payload = 30 ∷ [] }

abbrev erc721_log : Log
erc721_log = record { address = 20; topics = 1 ∷ 7 ∷ 8 ∷ 30 ∷ []; payload = [] }

abbrev batch_log : Log
batch_log = record { address = 20; topics = 6 ∷ 9 ∷ 7 ∷ 8 ∷ []; payload = 1 ∷ 2 ∷ [] }

erc20_moves :
    log_to_transfers unpack read_integer erc20_log none topics
    ≡ ok (erc20_transfer (fungible none 7 8 (pos 30)) 20 ∷ [])
unfolding log_to_transfers parse_event
erc20_moves = refl

uncovered :
    (ids values : List ℤ)
    → BatchOf unpack read_integer read_big unpack-OfType erc20_log none ids values
    → length ids ≤ length values
unfolding parse_event merge_arguments indexed_argument first
uncovered ids values (args, h, i, v) = absurd (ground (arith, h))

log_to_transfers_safe_example :
    (log_to_transfers unpack read_integer erc20_log none topics ≡ err TransferError.not_transfer)
    ⊎ ((ts : List Transfer) × (log_to_transfers unpack read_integer erc20_log none topics ≡ ok ts)
        × AllFrom 20 none ts)
log_to_transfers_safe_example =
    log_to_transfers_safe unpack read_integer read_big unpack-OfType erc20_log none topics uncovered

short_batch :
    BatchOf unpack read_integer read_big unpack-OfType batch_log none (pos 1 ∷ pos 2 ∷ []) []
unfolding parse_event merge_arguments indexed_argument first big_ints_at
short_batch = (_, refl, refl, refl)

log_to_transfers-short_batch_example :
    log_to_transfers unpack read_integer batch_log none topics ≡ panic
log_to_transfers-short_batch_example =
    log_to_transfers-short_batch unpack read_integer read_big unpack-OfType batch_log none topics
      (9 ∷ 7 ∷ 8 ∷ []) (pos 1 ∷ pos 2 ∷ []) [] refl refl refl refl refl refl short_batch
      (omega arith)
