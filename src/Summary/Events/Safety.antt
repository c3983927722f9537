-- ===== src/Summary/Events/Safety.antt =====
-- What LogToTransfers of transfer.go makes of any log.
use erebus_redgiant.Prelude.{
  ℕ, ◌≤◌, ◌<◌, ◌≡◌, refl, true, false, ◌⊎◌, inl, inr, Option, List, [], ◌∷◌, arith, ◌==◌,
  if◌then◌else◌, length, Hash,
}
use erebus_redgiant.Prelude.Int.{ℤ}
use erebus_redgiant.Prelude.Outcome.{ok, err, panic, Outcome-cases}
use erebus_redgiant.Tracers.Call.{Location}
use erebus_redgiant.Contract.Encoding.{AbiType, Value, Input, Log, parse_event}
use erebus_redgiant.Contract.Encoding.Typed.{
  AllOfType, UnpackOfType, ReadBigInt, parse_event-AllOfType, parse_event-ends,
}
use erebus_redgiant.Summary.Transfer.{
  Transfer, erc20_transfer, erc777_transfer, erc721_transfer, erc1155_transfer,
}
use erebus_redgiant.Summary.Events.{
  Topics, erc20_transfer_event, erc721_transfer_event, erc777_sent_event, erc777_supply_event,
  erc1155_single_event, erc1155_batch_event, weth9_event, TransferError, Result, big_ints_at,
  big_to_hash, fungible, arguments, erc721_log, transfer_log, erc777_sent_log, erc777_minted_log,
  erc777_burned_log, erc1155_single_log, erc1155_batch_log, weth9_deposit_log, weth9_withdrawal_log,
  weth9_address, log_of_topic, log_to_transfers,
}
use erebus_redgiant.Summary.Events.Arguments.{
  AllFrom, IsRecognised, has_address, has_integer, has_integers, one, self_eq, batch-AllFrom,
  batch_short, either,
}

module _ (unpack : List Input → List ℕ → Option (List Value))
    (read_integer : AbiType → Hash → Value) (read_big : ReadBigInt read_integer)
    (unpack_typed : UnpackOfType unpack) (log : Log) (location : Option Location) where
  -- With the arguments of the event, or without.
  abbrev Parsed : List Input → Type 0
  Parsed inputs =
      (arguments unpack read_integer inputs log ≡ err TransferError.not_transfer)
      ⊎ ((args : List Value) × (arguments unpack read_integer inputs log ≡ ok args)
          × AllOfType inputs args)

  parse : (inputs : List Input) → Parsed inputs
  unfolding arguments
  parse inputs = elim (Outcome-cases (parse_event unpack read_integer inputs log)) [
    | inl (args, h) ↦ inr (
      args,
      rw (h, arguments) refl,
      parse_event-AllOfType unpack read_integer read_big unpack_typed inputs log args h,
    )
    | inr (inl (e, h)) ↦ inl (rw (h, arguments) refl)
    | inr (inr h) ↦ absurd (parse_event-ends unpack read_integer read_big unpack_typed inputs log h)
  ]

  erc721 : IsRecognised log.address location (erc721_log unpack read_integer log location)
  unfolding erc721_log IsRecognised
  erc721 = elim (parse erc721_transfer_event) [
    | inl h ↦ inl (rw (h, erc721_log) refl)
    | inr (args, h, t) ↦
        let (from, f) = has_address erc721_transfer_event args 0 true t refl in
        let (to, g) = has_address erc721_transfer_event args 1 true t refl in
        let (id, k) = has_integer erc721_transfer_event args 2 true t refl in
        one log.address location (erc721_transfer from to log.address (big_to_hash id) location) _
          (refl, refl) (rw (h, f, g, k, erc721_log) refl)
  ]

  sent : IsRecognised log.address location (erc777_sent_log unpack read_integer log location)
  unfolding erc777_sent_log IsRecognised
  sent = elim (parse erc777_sent_event) [
    | inl h ↦ inl (rw (h, erc777_sent_log) refl)
    | inr (args, h, t) ↦
        let (from, f) = has_address erc777_sent_event args 1 true t refl in
        let (to, g) = has_address erc777_sent_event args 2 true t refl in
        let (x, k) = has_integer erc777_sent_event args 3 false t refl in
        one log.address location (erc777_transfer (fungible location from to x) log.address) _
          (refl, refl) (rw (h, f, g, k, erc777_sent_log) refl)
  ]

  minted : IsRecognised log.address location (erc777_minted_log unpack read_integer log location)
  unfolding erc777_minted_log IsRecognised
  minted = elim (parse erc777_supply_event) [
    | inl h ↦ inl (rw (h, erc777_minted_log) refl)
    | inr (args, h, t) ↦
        let (to, g) = has_address erc777_supply_event args 1 true t refl in
        let (x, k) = has_integer erc777_supply_event args 2 false t refl in
        one log.address location (erc777_transfer (fungible location 0 to x) log.address) _
          (refl, refl) (rw (h, g, k, erc777_minted_log) refl)
  ]

  burned : IsRecognised log.address location (erc777_burned_log unpack read_integer log location)
  unfolding erc777_burned_log IsRecognised
  burned = elim (parse erc777_supply_event) [
    | inl h ↦ inl (rw (h, erc777_burned_log) refl)
    | inr (args, h, t) ↦
        let (from, g) = has_address erc777_supply_event args 1 true t refl in
        let (x, k) = has_integer erc777_supply_event args 2 false t refl in
        one log.address location (erc777_transfer (fungible location from 0 x) log.address) _
          (refl, refl) (rw (h, g, k, erc777_burned_log) refl)
  ]

  single : IsRecognised log.address location (erc1155_single_log unpack read_integer log location)
  unfolding erc1155_single_log IsRecognised
  single = elim (parse erc1155_single_event) [
    | inl h ↦ inl (rw (h, erc1155_single_log) refl)
    | inr (args, h, t) ↦
        let (id, i) = has_integer erc1155_single_event args 3 false t refl in
        let (from, f) = has_address erc1155_single_event args 1 true t refl in
        let (to, g) = has_address erc1155_single_event args 2 true t refl in
        let (x, k) = has_integer erc1155_single_event args 4 false t refl in
        one log.address location
          (erc1155_transfer (fungible location from to x) log.address (big_to_hash id)) _
          (refl, refl) (rw (h, i, f, g, k, erc1155_single_log) refl)
  ]

  deposit : IsRecognised log.address location (weth9_deposit_log unpack read_integer log location)
  unfolding weth9_deposit_log IsRecognised
  deposit = elim (parse weth9_event) [
    | inl h ↦ inl (rw (h, weth9_deposit_log) refl)
    | inr (args, h, t) ↦
        let (to, g) = has_address weth9_event args 0 true t refl in
        let (x, k) = has_integer weth9_event args 1 false t refl in
        one log.address location (erc20_transfer (fungible location 0 to x) log.address) _
          (refl, refl) (rw (h, g, k, weth9_deposit_log) refl)
  ]

  withdrawal :
      IsRecognised log.address location (weth9_withdrawal_log unpack read_integer log location)
  unfolding weth9_withdrawal_log IsRecognised
  withdrawal = elim (parse weth9_event) [
    | inl h ↦ inl (rw (h, weth9_withdrawal_log) refl)
    | inr (args, h, t) ↦
        let (from, g) = has_address weth9_event args 0 true t refl in
        let (x, k) = has_integer weth9_event args 1 false t refl in
        one log.address location (erc20_transfer (fungible location from 0 x) log.address) _
          (refl, refl) (rw (h, g, k, weth9_withdrawal_log) refl)
  ]

  transfer_of : IsRecognised log.address location (transfer_log unpack read_integer log location)
  unfolding transfer_log
  transfer_of = elim (Outcome-cases (parse_event unpack read_integer erc20_transfer_event log)) [
    | inl (args, h) ↦
        let t =
          parse_event-AllOfType unpack read_integer read_big unpack_typed erc20_transfer_event log
            args h in
        let (from, f) = has_address erc20_transfer_event args 0 true t refl in
        let (to, g) = has_address erc20_transfer_event args 1 true t refl in
        let (x, k) = has_integer erc20_transfer_event args 2 false t refl in
        one log.address location (erc20_transfer (fungible location from to x) log.address) _
          (refl, refl) (rw (h, f, g, k, transfer_log) refl)
    | inr (inl (e, h)) ↦ rw (h, transfer_log) erc721
    | inr (inr h) ↦
        absurd
          (parse_event-ends unpack read_integer read_big unpack_typed erc20_transfer_event log h)
  ]

  -- The ids and the values of a batch, where the log parses as one.
  abbrev pub BatchOf : List ℤ → List ℤ → Type 0
  BatchOf ids values =
      (args : List Value) × (parse_event unpack read_integer erc1155_batch_event log ≡ ok args)
      × (big_ints_at args 3 ≡ ok ids)
      × (big_ints_at args 4 ≡ ok values)

  parsed_arguments :
      (args : List Value)
      → arguments unpack read_integer erc1155_batch_event log ≡ ok args
      → parse_event unpack read_integer erc1155_batch_event log ≡ ok args
  unfolding arguments
  parsed_arguments args h = ground (arith, h)

  batch :
      ((ids values : List ℤ) → BatchOf ids values → length ids ≤ length values)
      → IsRecognised log.address location (erc1155_batch_log unpack read_integer log location)
  unfolding erc1155_batch_log IsRecognised
  batch covered = elim (parse erc1155_batch_event) [
    | inl h ↦ inl (rw (h, erc1155_batch_log) refl)
    | inr (args, h, t) ↦
        let (ids, i) = has_integers erc1155_batch_event args 3 t refl in
        let (values, v) = has_integers erc1155_batch_event args 4 t refl in
        let (from, f) = has_address erc1155_batch_event args 1 true t refl in
        let (to, g) = has_address erc1155_batch_event args 2 true t refl in
        let (ts, e, a) =
          batch-AllFrom log.address location
            (λ id x. erc1155_transfer (fungible location from to x) log.address (big_to_hash id))
            ids values (λ id x. (refl, refl))
            (covered ids values (args, parsed_arguments args h, i, v)) in
        inr (ts, rw (h, i, v, f, g, e, erc1155_batch_log) refl, a)
  ]

  -- Where Unpack and ReadInteger keep to the types of the event, and a batch has at least as many
  -- values as ids, LogToTransfers does not panic: the log is no transfer, or it gives transfers
  -- of the contract of the log, at the given location.
  pub log_to_transfers_safe :
      (t : Topics)
      → ((ids values : List ℤ) → BatchOf ids values → length ids ≤ length values)
      → (log_to_transfers unpack read_integer log location t ≡ err TransferError.not_transfer)
        ⊎ ((ts : List Transfer) × (log_to_transfers unpack read_integer log location t ≡ ok ts)
            × AllFrom log.address location ts)
  unfolding log_to_transfers log_of_topic IsRecognised
  log_to_transfers_safe t covered = by_topic log.topics
    where
      weth9 :
          (r : Result (List Transfer))
          → IsRecognised log.address location r
          → IsRecognised log.address location
              (if log.address == weth9_address then r else err TransferError.not_transfer)
      weth9 r h = either log.address location (log.address == weth9_address) r _ h (inl refl)

      by_topic :
          (topics : List Hash)
          → IsRecognised log.address location (elim topics [
            | [] ↦ err TransferError.not_transfer
            | topic ∷ _ ↦ log_of_topic unpack read_integer log location t topic
          ])
      by_topic [] = inl refl
      by_topic (topic ∷ _) = either _ _ (topic == t.transfer) _ _ transfer_of (
          either _ _ (topic == t.erc777_sent) _ _ sent (
            either _ _ (topic == t.erc777_minted) _ _ minted (
              either _ _ (topic == t.erc777_burned) _ _ burned (
                either _ _ (topic == t.erc1155_transfer_single) _ _ single (
                  either _ _ (topic == t.erc1155_transfer_batch) _ _ (batch covered) (
                    either _ _ (topic == t.weth9_deposit) _ _ (weth9 _ deposit) (
                      either _ _ (topic == t.weth9_withdrawal) _ _ (weth9 _ withdrawal)
                        (inl refl))))))))

  batch_panics :
      (ids values : List ℤ)
      → BatchOf ids values
      → length values < length ids
      → erc1155_batch_log unpack read_integer log location ≡ panic
  unfolding erc1155_batch_log arguments
  batch_panics ids values (args, h, i, v) lt =
      let t =
        parse_event-AllOfType unpack read_integer read_big unpack_typed erc1155_batch_event log args
          h in
      let (from, f) = has_address erc1155_batch_event args 1 true t refl in
      let (to, g) = has_address erc1155_batch_event args 2 true t refl in
      let p =
        batch_short
          (λ id x. erc1155_transfer (fungible location from to x) log.address (big_to_hash id)) ids
          values lt in
      rw (h, arguments, i, v, f, g, p, erc1155_batch_log) refl

  -- A TransferBatch with fewer values than ids panics, whatever contract emits it, where its topic
  -- is none of those that are looked for before.
  pub log_to_transfers-short_batch :
      (t : Topics) (rest : List Hash) (ids values : List ℤ)
      → log.topics ≡ t.erc1155_transfer_batch ∷ rest
      → (t.erc1155_transfer_batch == t.transfer) ≡ false
      → (t.erc1155_transfer_batch == t.erc777_sent) ≡ false
      → (t.erc1155_transfer_batch == t.erc777_minted) ≡ false
      → (t.erc1155_transfer_batch == t.erc777_burned) ≡ false
      → (t.erc1155_transfer_batch == t.erc1155_transfer_single) ≡ false
      → BatchOf ids values
      → length values < length ids
      → log_to_transfers unpack read_integer log location t ≡ panic
  unfolding log_to_transfers log_of_topic
  log_to_transfers-short_batch t rest ids values e a b c d f (args, h, i, v) lt =
      rw (e, log_to_transfers, a, b, c, d, f, self_eq t.erc1155_transfer_batch)
        (batch_panics ids values (args, h, i, v) lt)
