-- ===== src/Engine/Execution.antt =====
-- ExeVM of dyengine/exevm.go over the transactions of dyengine/transaction.go: in which order a
-- transaction is prepared, executed, reverted and given its receipt. The state, the EVM and the
-- rules of the chain are parameters. The tracer, which only watches, and the bloom filter are left
-- out. A panic of the EVM, which the code recovers from, is a value; errors are numbers.
pub mod Receipts
mod Tests
use erebus_redgiant.Prelude.{
  ℕ, ◌+◌, ◌%◌, ◌^◌, Bool, true, false, ◌&&◌, ltb, Option, none, some, List, [], ◌∷◌, if◌then◌else◌,
  Address, Hash,
}
use erebus_redgiant.Tracers.Call.{ExecutionResult}

pub record VmConfig : Type 0 where
  pub no_base_fee : Bool
  pub bypass_nonce_and_sender_check : Bool
  pub cap_gas_to_block_limit : Bool
  pub force_zero_gas_price : Bool
  pub regulate_base_fee : Bool

pub record VmContext : Type 0 where
  pub block_number : ℕ
  pub base_fee : Option ℕ
  pub gas_pool : ℕ
  pub block_hash : Hash
  pub gas_used : ℕ
  pub transaction_index : ℕ

-- types.Message of go-ethereum.
pub record Message : Type 0 where
  pub from : Address
  pub to : Option Address
  pub nonce : ℕ
  pub value : ℕ
  pub gas : ℕ
  pub gas_price : ℕ
  pub gas_fee_cap : ℕ
  pub gas_tip_cap : ℕ
  pub input : List ℕ
  pub access_list : List ℕ
  pub is_fake : Bool

-- `fields` are what the methods of types.Transaction give, and From of Tx.
pub record Tx (W : Type 0) : Type 0 where
  pub fields : Message
  pub hash : Hash
  pub tx_type : ℕ
  pub signed : Bool
  pub is_pseudo : Bool
  pub pseudo_exec : Option (W → List ℕ × Option ℕ × W)

pub record Receipt : Type 0 where
  pub tx_type : ℕ
  pub post_state : Option Hash
  pub cumulative_gas_used : ℕ
  pub successful : Bool
  pub tx_hash : Hash
  pub gas_used : ℕ
  pub contract_address : Option Address
  pub logs : List ℕ
  pub transaction_index : ℕ
  pub block_hash : Hash
  pub block_number : ℕ

pub data TxError : Type 0 where
  bad_sender : ℕ → TxError
  bad_message : ℕ → TxError
  evm_error : ℕ → TxError
  state_error : ℕ → TxError
  commit_error : ℕ → TxError
  recovered : TxError

-- How core.ApplyMessage ends.
pub data Applied : Type 0 where
  result : ExecutionResult → Applied
  failure : ℕ → Applied
  panics : Applied

pub data Checked (A : Type 0) : Type 0 where
  valid : A → Checked A
  refused : ℕ → Checked A

-- What exevm.go uses of State, of go-ethereum and of the rules of the chain.
pub record Machine (W : Type 0) : Type 0 where
  pub prepare : Hash → ℕ → W → W
  pub snapshot : W → ℕ × W
  pub revert_to_snapshot : ℕ → W → W
  pub last_error : W → Option ℕ
  pub finalise : Bool → W → W
  pub intermediate_root : Bool → W → Hash × W
  pub get_logs : Hash → Hash → W → List ℕ
  pub commit : Bool → W → Option ℕ × W
  pub is_byzantium : ℕ → Bool
  pub is_eip158 : ℕ → Bool
  pub create_address : Address → ℕ → Address
  pub sender : Tx W → ℕ → Checked Address
  pub as_message : Tx W → ℕ → Option ℕ → Checked Message
  pub apply_message : VmContext → Message → W → Applied × ℕ × W

pub record Executed (W : Type 0) : Type 0 where
  pub msg_result : Option ExecutionResult
  pub receipt : Option Receipt
  pub error : Option TxError
  pub context : VmContext
  pub state : W

-- The message with the fees and the gas that the configuration asks for.
unfoldable pub new_message : VmConfig → VmContext → Message → Message
new_message config c m =
    let fee_cap = if config.no_base_fee then 0 else m.gas_fee_cap in
    record m {
      gas = if config.cap_gas_to_block_limit && ltb c.gas_pool m.gas then c.gas_pool else m.gas;
      gas_price = if config.force_zero_gas_price then 0 else m.gas_price;
      gas_fee_cap =
          if config.regulate_base_fee
          then elim c.base_fee [ none ↦ fee_cap | some b ↦ if ltb fee_cap b then b else fee_cap ]
          else fee_cap;
      gas_tip_cap = if config.no_base_fee then 0 else m.gas_tip_cap;
      is_fake = config.bypass_nonce_and_sender_check;
    }

module _ {W : Type 0} (vm : Machine W) (config : VmConfig) where
  -- A signed transaction is read by AsMessage.
  abbrev pub source_message : VmContext → Tx W → Checked Message
  source_message c tx =
      if tx.signed then vm.as_message tx c.block_number c.base_fee else valid tx.fields

  -- Before Byzantium a receipt has the root of the state.
  abbrev pub finish : VmContext → W → Option Hash × W
  finish c w =
      if vm.is_byzantium c.block_number
      then (none, vm.finalise true w)
      else (let root = vm.intermediate_root (vm.is_eip158 c.block_number) w in
          (some root.0, root.1))

  -- `c` has the gas that was used, the transaction's included.
  unfoldable pub new_receipt :
      Tx W → Message → VmContext → ExecutionResult → Option Hash → W → Receipt
  new_receipt tx msg c r root w = record {
    tx_type = tx.tx_type;
    post_state = root;
    cumulative_gas_used = c.gas_used;
    successful = elim r.err [ none ↦ true | some _ ↦ false ];
    tx_hash = tx.hash;
    gas_used = r.used_gas;
    contract_address = elim msg.to [
      | none ↦ some (vm.create_address msg.from tx.fields.nonce)
      | some _ ↦ none
    ];
    logs = vm.get_logs tx.hash c.block_hash w;
    transaction_index = c.transaction_index;
    block_hash = c.block_hash;
    block_number = c.block_number;
  }

  -- What follows a message that the EVM has applied.
  unfoldable pub settle :
      Tx W → Message → Bool → Bool → ExecutionResult → VmContext → W → Executed W
  settle tx msg commit gen_receipt r c w =
      let used = record c { gas_used = (c.gas_used + r.used_gas) % 2 ^ 64 } in
      let finished = finish c w in
      let receipt =
        if gen_receipt then some (new_receipt tx msg used r finished.0 finished.1) else none in
      let next = record used { transaction_index = (c.transaction_index + 1) % 2 ^ 64 } in
      let committed =
        if commit then vm.commit (vm.is_eip158 c.block_number) finished.1 else (none, finished.1) in
      elim committed.0 [
        | some e ↦ record {
          msg_result = none;
          receipt = none;
          error = some (commit_error e);
          context = next;
          state = committed.1;
        }
        | none ↦ record {
          msg_result = some r;
          receipt = receipt;
          error = none;
          context = next;
          state = committed.1;
        }
      ]

  -- Without a receipt; where the EVM panics nothing is reverted.
  unfoldable pub execute : Tx W → Message → Bool → Bool → VmContext → W → Executed W
  execute tx msg commit gen_receipt c w =
      let taken = vm.snapshot (vm.prepare tx.hash c.transaction_index w) in
      let applied = vm.apply_message c msg taken.1 in
      let c' = record c { gas_pool = applied.1 } in
      elim applied.0 [
        | panics ↦ record {
          msg_result = none;
          receipt = none;
          error = some recovered;
          context = c';
          state = applied.2;
        }
        | failure e ↦ record {
          msg_result = none;
          receipt = none;
          error = some (evm_error e);
          context = c';
          state = vm.revert_to_snapshot taken.0 applied.2;
        }
        | result r ↦ elim (vm.last_error applied.2) [
          | some e ↦ record {
            msg_result = some r;
            receipt = none;
            error = some (state_error e);
            context = c';
            state = vm.revert_to_snapshot taken.0 applied.2;
          }
          | none ↦ settle tx msg commit gen_receipt r c' applied.2
        ]
      ]

  -- A pseudo transaction changes the state only.
  abbrev pub run_pseudo : Tx W → VmContext → W → Executed W
  run_pseudo tx c w = elim tx.pseudo_exec [
    | none ↦ record {
      msg_result = some (record { err = none; used_gas = 0; return_data = [] });
      receipt = none;
      error = none;
      context = c;
      state = w;
    }
    | some exec ↦
        let x = exec w in
        record {
          msg_result = some (record { err = x.1; used_gas = 0; return_data = x.0 });
          receipt = none;
          error = none;
          context = c;
          state = x.2;
        }
  ]

  unfoldable pub apply_tx : Tx W → VmContext → Bool → Bool → W → Executed W
  unfolding new_message
  apply_tx tx c commit gen_receipt w =
      if tx.is_pseudo then run_pseudo tx c w else elim (source_message c tx) [
        | refused e ↦ record {
          msg_result = none;
          receipt = none;
          error = some (bad_message e);
          context = c;
          state = w;
        }
        | valid m ↦ execute tx (new_message config c m) commit gen_receipt c w
      ]

  -- `tx` is a types.Transaction: TxFromTransactionWithSigner signs it with its sender.
  unfoldable pub apply_transaction : Tx W → VmContext → Bool → Bool → W → Executed W
  apply_transaction tx c commit gen_receipt w = elim (vm.sender tx c.block_number) [
    | refused e ↦ record {
      msg_result = none;
      receipt = none;
      error = some (bad_sender e);
      context = c;
      state = w;
    }
    | valid a ↦
        apply_tx
          (record tx {
            fields = record tx.fields { from = a };
            signed = true;
            is_pseudo = false;
            pseudo_exec = none;
          })
          c commit gen_receipt w
  ]

pub record Outcomes (W : Type 0) : Type 0 where
  pub included : List (Tx W)
  pub receipts : List (Option Receipt)
  pub rejected : List (ℕ × TxError)
  pub context : VmContext
  pub state : W

module _ {W : Type 0} (vm : Machine W) (config : VmConfig) where
  -- The loop of ApplyTransactions, from the i-th transaction on.
  unfoldable pub apply_each : List (Tx W) → ℕ → VmContext → Bool → W → Outcomes W
  apply_each [] i c gen_receipt w = record {
    included = [];
    receipts = [];
    rejected = [];
    context = c;
    state = w;
  }
  apply_each (tx ∷ txs) i c gen_receipt w = elim (vm.as_message tx c.block_number c.base_fee) [
    | refused e ↦
        let later = apply_each txs (i + 1) c gen_receipt w in
        record later { rejected = (i, bad_message e) ∷ later.rejected }
    | valid _ ↦
        let x = apply_transaction vm config tx c false gen_receipt w in
        let later = apply_each txs (i + 1) x.context gen_receipt x.state in
        elim x.error [
          | some e ↦ record later { rejected = (i, e) ∷ later.rejected }
          | none ↦ record later {
            included = tx ∷ later.included;
            receipts = if gen_receipt then x.receipt ∷ later.receipts else later.receipts;
          }
        ]
  ]

  -- An error of the last Commit gives up the results.
  unfoldable pub apply_transactions :
      List (Tx W) → VmContext → Bool → Bool → W → Checked (Outcomes W) × W
  unfolding apply_each
  apply_transactions txs c commit gen_receipt w =
      let done = apply_each txs 0 c gen_receipt w in
      let eip158 = vm.is_eip158 done.context.block_number in
      let rooted = (vm.intermediate_root eip158 done.state).1 in
      let committed = if commit then vm.commit eip158 rooted else (none, rooted) in
      elim committed.0 [
        | some e ↦ (refused e, committed.1)
        | none ↦ (valid (record done { state = committed.1 }), committed.1)
      ]
