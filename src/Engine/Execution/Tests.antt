-- ===== src/Engine/Execution/Tests.antt =====
-- ApplyTransactions of dyengine/exevm.go on a small machine.
use erebus_redgiant.Prelude.{
  ℕ, ◌+◌, ◌≡◌, refl, ◌⊎◌, true, false, ◌==◌, none, some, List, [], ◌∷◌, length, if◌then◌else◌,
}
use erebus_redgiant.Engine.Execution.{
  VmConfig, VmContext, Tx, result, failure, valid, refused, panics, Machine, Outcomes,
  apply_transactions, apply_each, apply_transaction, apply_tx, execute, settle,
}
use erebus_redgiant.Engine.Execution.Receipts.{Numbered, Split, apply_transactions_lem}

abbrev transfer : ℕ → ℕ → Tx ℕ
transfer nonce gas = record {
  fields = record {
    from = 0;
    to = some 8;
    nonce = nonce;
    value = 3;
    gas = gas;
    gas_price = 1;
    gas_fee_cap = 1;
    gas_tip_cap = 0;
    input = [];
    access_list = [];
    is_fake = false;
  };
  hash = 100 + nonce;
  tx_type = 0;
  signed = true;
  is_pseudo = false;
  pseudo_exec = none;
}

-- The state is the balance of account 8. A message without gas fails, with 7 gas the EVM panics, and
-- the nonce 99 has no sender.
abbrev small_machine : Machine ℕ
small_machine = record {
  prepare = λ h i w. w;
  snapshot = λ w. (w, w);
  revert_to_snapshot = λ id w. id;
  last_error = λ w. none;
  finalise = λ b w. w;
  intermediate_root = λ b w. (w, w);
  get_logs = λ h b w. [];
  commit = λ b w. (none, w);
  is_byzantium = λ n. true;
  is_eip158 = λ n. true;
  create_address = λ a n. a + n;
  sender = λ tx n. if tx.fields.nonce == 99 then refused 1 else valid 7;
  as_message = λ tx n b. valid tx.fields;
  apply_message = λ c m w.
      if m.gas == 0
      then (failure 2, c.gas_pool, w + 1)
      else if m.gas == 7
      then (panics, c.gas_pool, w + 1)
      else (
        result (record { err = none; used_gas = m.gas; return_data = [] }),
        c.gas_pool,
        w + m.value,
      );
}

abbrev plain : VmConfig
plain = record {
  no_base_fee = false;
  bypass_nonce_and_sender_check = false;
  cap_gas_to_block_limit = false;
  force_zero_gas_price = false;
  regulate_base_fee = true;
}

abbrev context : VmContext
context = record {
  block_number = 5;
  base_fee = some 2;
  gas_pool = 1000;
  block_hash = 55;
  gas_used = 10;
  transaction_index = 0;
}

abbrev sent : List (Tx ℕ)
sent = transfer 1 20 ∷ transfer 2 0 ∷ transfer 99 20 ∷ transfer 3 7 ∷ transfer 4 30 ∷ []

sent_counts :
    let o = apply_each small_machine plain sent 0 context true 0 in
    (length o.included ≡ 2)
    × (length o.rejected ≡ 3)
    × (o.context.gas_used ≡ 60)
    × (o.context.transaction_index ≡ 2)
    × (o.state ≡ 7)
unfolding apply_each apply_transaction apply_tx execute settle
sent_counts = (refl, refl, refl, refl, refl)

apply_transactions_lem_example :
    ((o : Outcomes ℕ) × ((apply_transactions small_machine plain sent context true true 0).0
        ≡ valid o)
      × Numbered context o.included o.receipts o.context
      × Split 0 sent o.included o.rejected)
    ⊎ ((e : ℕ) × ((apply_transactions small_machine plain sent context true true 0).0 ≡ refused e)
        × (true ≡ true))
apply_transactions_lem_example = apply_transactions_lem small_machine plain sent context true 0
