-- ===== src/Summary/Tracer/Hooks.antt =====
-- The hooks of TxSummaryTracer of analysis/summary/summary_tracer.go; CaptureStart and CaptureEnd
-- only call those of the tracer of calls. Offsets and lengths in memory are below 2 ^ 63: the EVM
-- has paid for that memory.
use erebus_redgiant.Prelude.{
  ℕ, zero, suc, ◌+◌, ◌-◌, Bool, true, false, ◌||◌, ◌&&◌, Option, none, some, List, [], ◌∷◌, ◌++◌,
  ◌==◌, leb, ltb, if◌then◌else◌, get_elem?, length, take, replicate, Address, Hash, nat_eq,
}
use erebus_redgiant.Prelude.Int.{pos, ◌-ℤ◌}
use erebus_redgiant.Prelude.Map.{insert}
use erebus_redgiant.Prelude.Outcome.{ok, err, panic}
use erebus_redgiant.Prelude.Partial.{◌>>=◌}
use erebus_redgiant.Tracers.Call.{Location, ExecutionResult}
use erebus_redgiant.Tracers.Nested
use erebus_redgiant.Tracers.Nested.{top, op_call}
use erebus_redgiant.Contract.Encoding.{AbiType, Value, Input, Log}
use erebus_redgiant.Summary.Events.{Topics, log_to_transfers}
use erebus_redgiant.Summary.Tracer.{
  Config, TxSummaryTracer, Scope, StateView, add_def, add_use, record_ether, open_summary, clear_if,
  with_transfers, on_current, empty_data,
}
use erebus_redgiant.Summary.Tracer.Reads.{balance_variable, record_def, record_use}

-- `n` words of the stack from `Back(i)` on.
unfoldable pub words_from : List ℕ → ℕ → ℕ → Option (List ℕ)
words_from stack i zero = some []
words_from stack i (suc n) = do
  w ← get_elem? stack i
  ws ← words_from stack (suc i) n
  some (w ∷ ws)

-- memory.GetPtr, TxContext hashing and the ABI are go-ethereum's.
module _ (get_ptr : List ℕ → ℕ → ℕ → Option (List ℕ))
    (unpack : List Input → List ℕ → Option (List Value)) (read_integer : AbiType → Hash → Value)
    (topics : Topics) where
  -- helpers.GetMemoryCopyWithPadding, whose second branch takes the overshoot for the length.
  unfoldable pub get_memory_copy_with_padding : List ℕ → ℕ → ℕ → Option (List ℕ)
  get_memory_copy_with_padding memory offset size = do
    part ←
        get_ptr memory offset
          (if leb (offset + size) (length memory) then size else offset + size - length memory)
    some (take size (part ++ replicate size 0))

  -- The log of LOG0 to LOG4, with as many topics.
  unfoldable pub log_of : Scope → ℕ → Option Log
  log_of scope count = do
    words ← words_from scope.stack 2 count
    offset ← get_elem? scope.stack 0
    size ← get_elem? scope.stack 1
    payload ← get_memory_copy_with_padding scope.memory offset size
    some (record { address = scope.contract; topics = words; payload = payload })

  unfoldable pub record_log :
      Config → Option Location → ℕ → Log → TxSummaryTracer → Option TxSummaryTracer
  record_log cfg l p log t = elim (log_to_transfers unpack read_integer log l topics) [
    | ok ts ↦ on_current (with_transfers cfg.include_profit ts) p t
    | err e ↦ some t
    | panic ↦ none
  ]

  unfoldable pub logs_of :
      Config → Scope → ℕ → Option Location → ℕ → TxSummaryTracer → Option TxSummaryTracer
  logs_of cfg scope op l p t = do log ← log_of scope (op - 0xa0); record_log cfg l p log t

  unfoldable pub record_logs :
      Config → Scope → ℕ → Option Location → ℕ → TxSummaryTracer → Option TxSummaryTracer
  record_logs cfg scope op l p t =
      if (cfg.include_transfer || cfg.include_profit) && (leb 0xa0 op && leb op 0xa4)
      then logs_of cfg scope op l p t
      else some t

  unfoldable pub capture_state :
      Config → StateView → Scope → ℕ → ℕ → ℕ → ℕ → TxSummaryTracer → Option TxSummaryTracer
  capture_state cfg view scope pc op gas cost t = do
    nested ← Nested.capture_state pc op gas cost t.nested
    p ← top nested.stack
    c ← get_elem? nested.calls p
    defined ←
        if cfg.include_def
        then record_def scope op c.current_location p (record t { nested = nested })
        else some (record t { nested = nested })
    used ←
        if cfg.include_use
        then record_use view scope op c.current_location p defined
        else some defined
    record_logs cfg scope op c.current_location p used

-- The balances of both sides after a message call has moved its value.
unfoldable pub define_balances :
    StateView
    → Address
    → Address
    → ℕ
    → Option Location
    → ℕ
    → TxSummaryTracer
    → Option TxSummaryTracer
unfolding ◌-ℤ◌
define_balances view from to value l p t = do
  u ← add_def (balance_variable to (pos (view.get_balance to + value)) l) p t
  add_def (balance_variable from (pos (view.get_balance from) -ℤ pos value) l) p u

-- What a message call with a value defines and transfers.
unfoldable pub record_value :
    Config
    → StateView
    → Address
    → Address
    → ℕ
    → Option Location
    → ℕ
    → TxSummaryTracer
    → Option TxSummaryTracer
record_value cfg view from to value l p t = do
  u ← if cfg.include_def then define_balances view from to value l p t else some t
  record_ether cfg from to value l p u

abbrev pub value_of : Option ℕ → ℕ
value_of none = 0
value_of (some v) = v

unfoldable pub capture_enter :
    Config
    → StateView
    → ℕ
    → Address
    → Address
    → List ℕ
    → Option ℕ
    → TxSummaryTracer
    → Option TxSummaryTracer
capture_enter cfg view typ from to input value t = do
  parent ← top t.nested.stack
  c ← get_elem? t.nested.calls parent
  nested ← Nested.capture_enter typ from to input value t.nested
  p ← top nested.stack
  opened ← open_summary parent p (record t { nested = nested })
  if ltb 0 (value_of value)
      then record_value cfg view from to (value_of value) c.current_location p opened
      else some opened

abbrev pub has_error : ExecutionResult → Bool
has_error r = elim r.err [ none ↦ false | some e ↦ true ]

unfoldable pub capture_exit : ExecutionResult → TxSummaryTracer → Option TxSummaryTracer
capture_exit r t = do
  p ← top t.nested.stack
  cleared ← clear_if (has_error r) p t
  nested ← Nested.capture_exit r cleared.nested
  some (record cleared { nested = nested })

-- The fields of a transaction that the tracer reads, its sender with them.
pub record Tx : Type 0 where
  pub from : Address
  pub to : Option Address
  pub value : ℕ
  pub input : List ℕ

unfoldable pub transaction_start :
    (Address → ℕ → Address) → ℕ → Tx → TxSummaryTracer → Option TxSummaryTracer
transaction_start create_address nonce tx t = do
  let nested =
      Nested.transaction_start create_address nonce tx.from tx.to tx.input tx.value t.nested
  p ← top nested.stack
  some (record t { nested = nested; summaries = insert p (empty_data ∷ []) t.summaries })

pub record Receipt : Type 0 where
  pub status : ℕ
  pub contract_address : Address
  pub number : ℕ

abbrev pub receiver : Tx → Receipt → Address
receiver tx receipt = elim tx.to [ none ↦ receipt.contract_address | some a ↦ a ]

-- The balances that the end of the transaction shows.
unfoldable pub final_balances :
    StateView → Address → Address → ℕ → TxSummaryTracer → Option TxSummaryTracer
final_balances view from to p t = do
  u ← add_def (balance_variable from (pos (view.get_balance from)) none) p t
  add_def (balance_variable to (pos (view.get_balance to)) none) p u

-- What the value of a transaction that succeeded uses, defines and transfers.
unfoldable pub record_tx_value :
    Config → StateView → Tx → Receipt → ℕ → TxSummaryTracer → Option TxSummaryTracer
unfolding ◌-ℤ◌
record_tx_value cfg view tx receipt p t = do
  used ←
      if cfg.include_use
      then add_use true
          (balance_variable tx.from (pos (view.get_balance tx.from) -ℤ pos tx.value) none) p t
      else some t
  defined ←
      if cfg.include_def
      then final_balances view tx.from (receiver tx receipt) p used
      else some used
  record_ether cfg tx.from (receiver tx receipt) tx.value none p defined

unfoldable pub finish_data :
    Config → StateView → Tx → Receipt → ℕ → TxSummaryTracer → Option TxSummaryTracer
finish_data cfg view tx receipt p t =
    if receipt.status == 0
    then clear_if true p t
    else if ltb 0 tx.value
    then record_tx_value cfg view tx receipt p t
    else some t

unfoldable pub transaction_end :
    Config → StateView → Tx → ExecutionResult → Receipt → TxSummaryTracer → Option TxSummaryTracer
transaction_end cfg view tx r receipt t = do
  p ← top t.nested.stack
  finished ← finish_data cfg view tx receipt p t
  nested ← Nested.transaction_end r (some receipt.number) finished.nested
  some (record finished { nested = nested })

-- A new TxSummaryTracer.
abbrev pub fresh : TxSummaryTracer
fresh = record { nested = Nested.fresh; summaries = []; defined = [] }

-- The hooks that the EVM calls between the start and the end of a transaction.
pub data Event : Type 0 where
  state : StateView → Scope → ℕ → ℕ → ℕ → ℕ → Event
  enter : StateView → ℕ → Address → Address → List ℕ → Option ℕ → Event
  exit : ExecutionResult → Event

module _ (get_ptr : List ℕ → ℕ → ℕ → Option (List ℕ))
    (unpack : List Input → List ℕ → Option (List Value)) (read_integer : AbiType → Hash → Value)
    (topics : Topics) (cfg : Config) where
  unfoldable pub step : Event → TxSummaryTracer → Option TxSummaryTracer
  step (Event.state view scope pc op gas cost) t =
      capture_state get_ptr unpack read_integer topics cfg view scope pc op gas cost t
  step (Event.enter view typ from to input value) t =
      capture_enter cfg view typ from to input value t
  step (Event.exit r) t = capture_exit r t

  unfoldable pub run : List Event → TxSummaryTracer → Option TxSummaryTracer
  run [] t = some t
  run (e ∷ es) t = do u ← step e t; run es u
