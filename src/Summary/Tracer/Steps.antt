-- ===== src/Summary/Tracer/Steps.antt =====
-- Every hook of the tracer of summary_tracer.go keeps the Data of all calls balanced.
use erebus_redgiant.Prelude.{ℕ, ◌≡◌, true, Option, inl, inr, List, nat_eq, Address, Hash}
use erebus_redgiant.Summary.State.{StateVariable}
use erebus_redgiant.Tracers.Call.{Location}
use erebus_redgiant.Summary.Tracer.{Config, TxSummaryTracer, Scope, StateView}
use erebus_redgiant.Summary.Tracer.Reads.{
  sstore_def, record_def, account_use, sload_use, call_use, record_use,
}
use erebus_redgiant.Summary.Tracer.Hooks.{
  record_log, logs_of, record_logs, define_balances, record_value, Tx, Receipt, final_balances,
  record_tx_value, finish_data,
}
use erebus_redgiant.Prelude.Outcome.{Outcome-cases}
use erebus_redgiant.Summary.Events.{Topics, log_to_transfers}
use erebus_redgiant.Contract.Encoding.{AbiType, Value, Input, Log}
use erebus_redgiant.Summary.Tracer.Store.{
  AlwaysKeeps, keeping, keeps_same, keeps_none, record_ether-Keeps, transfers-Keeps,
}

account_use-Keeps :
    (make : Address → StateVariable) (scope : Scope) (p : ℕ) (t : TxSummaryTracer)
    → AlwaysKeeps t (account_use make scope p t)
unfolding account_use
account_use-Keeps make scope p t = search keeping

sload_use-Keeps :
    (view : StateView) (scope : Scope) (l : Option Location) (p : ℕ) (t : TxSummaryTracer)
    → AlwaysKeeps t (sload_use view scope l p t)
unfolding sload_use
sload_use-Keeps view scope l p t = search keeping

call_use-Keeps :
    (view : StateView) (scope : Scope) (l : Option Location) (p : ℕ) (t : TxSummaryTracer)
    → AlwaysKeeps t (call_use view scope l p t)
unfolding call_use
call_use-Keeps view scope l p t = search keeping depth 20

pub record_def-Keeps :
    (scope : Scope) (op : ℕ) (l : Option Location) (p : ℕ) (t : TxSummaryTracer)
    → AlwaysKeeps t (record_def scope op l p t)
unfolding record_def sstore_def
record_def-Keeps scope op l p t = search keeping depth 20

pub record_use-Keeps :
    (view : StateView) (scope : Scope) (op : ℕ) (l : Option Location) (p : ℕ) (t : TxSummaryTracer)
    → AlwaysKeeps t (record_use view scope op l p t)
unfolding record_use
record_use-Keeps view scope op l p t =
    search (keeping, account_use-Keeps, sload_use-Keeps, call_use-Keeps) depth 40

pub define_balances-Keeps :
    (view : StateView) (from to : Address) (value : ℕ) (l : Option Location) (p : ℕ)
    (t : TxSummaryTracer)
    → AlwaysKeeps t (define_balances view from to value l p t)
unfolding define_balances
define_balances-Keeps view from to value l p t = search keeping depth 20

pub record_value-Keeps :
    (cfg : Config) (view : StateView) (from to : Address) (value : ℕ) (l : Option Location) (p : ℕ)
    (t : TxSummaryTracer)
    → cfg.include_profit ≡ true
    → AlwaysKeeps t (record_value cfg view from to value l p t)
unfolding record_value
record_value-Keeps cfg view from to value l p t h =
    search (keeping, define_balances-Keeps, record_ether-Keeps) depth 20

final_balances-Keeps :
    (view : StateView) (from to : Address) (p : ℕ) (t : TxSummaryTracer)
    → AlwaysKeeps t (final_balances view from to p t)
unfolding final_balances
final_balances-Keeps view from to p t = search keeping depth 20

record_tx_value-Keeps :
    (cfg : Config) (view : StateView) (tx : Tx) (receipt : Receipt) (p : ℕ) (t : TxSummaryTracer)
    → cfg.include_profit ≡ true
    → AlwaysKeeps t (record_tx_value cfg view tx receipt p t)
unfolding record_tx_value
record_tx_value-Keeps cfg view tx receipt p t h =
    search (keeping, final_balances-Keeps, record_ether-Keeps) depth 20

pub finish_data-Keeps :
    (cfg : Config) (view : StateView) (tx : Tx) (receipt : Receipt) (p : ℕ) (t : TxSummaryTracer)
    → cfg.include_profit ≡ true
    → AlwaysKeeps t (finish_data cfg view tx receipt p t)
unfolding finish_data
finish_data-Keeps cfg view tx receipt p t h = search (keeping, record_tx_value-Keeps) depth 20

module _ (get_ptr : List ℕ → ℕ → ℕ → Option (List ℕ))
    (unpack : List Input → List ℕ → Option (List Value)) (read_integer : AbiType → Hash → Value)
    (topics : Topics) (cfg : Config) (profit : cfg.include_profit ≡ true) where
  record_log-Keeps :
      (l : Option Location) (p : ℕ) (log : Log) (t : TxSummaryTracer)
      → AlwaysKeeps t (record_log get_ptr unpack read_integer topics cfg l p log t)
  unfolding record_log
  record_log-Keeps l p log t =
      elim (Outcome-cases (log_to_transfers unpack read_integer log l topics)) [
        | inl (ts, h) ↦ rw (h, record_log) (transfers-Keeps cfg.include_profit ts p t profit)
        | inr (inl (e, h)) ↦ rw (h, record_log) (keeps_same t)
        | inr (inr h) ↦ rw (h, record_log) (keeps_none t)
      ]

  pub record_logs-Keeps :
      (scope : Scope) (op : ℕ) (l : Option Location) (p : ℕ) (t : TxSummaryTracer)
      → AlwaysKeeps t (record_logs get_ptr unpack read_integer topics cfg scope op l p t)
  unfolding record_logs logs_of
  record_logs-Keeps scope op l p t = search (keeping, record_log-Keeps) depth 20
