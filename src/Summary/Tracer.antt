-- ===== src/Summary/Tracer.antt =====
-- TxSummaryTracer of analysis/summary/summary_tracer.go, on top of the tracer of calls, without
-- execution paths: its state, and the changes of the Data of a call. `none` is a panic.
pub mod Reads
pub mod Hooks
pub mod Balance
pub mod Store
pub mod Steps
pub mod Nesting
pub mod Runs
pub mod Tree
pub mod Totals
mod Tests
use erebus_redgiant.Prelude.{
  ℕ, zero, suc, ◌+◌, ◌-◌, ◌%◌, ◌^◌, Bool, true, false, not, ◌||◌, ◌&&◌, Option, none, some, List,
  [], ◌∷◌, ◌++◌, ◌==◌, leb, ltb, if◌then◌else◌, get_elem?, length, take, replicate, Address, Hash,
  nat_eq,
}
use erebus_redgiant.Prelude.Int.{ℤ, pos, ◌-ℤ◌}
use erebus_redgiant.Prelude.Map.{lookup, insert}
use erebus_redgiant.Prelude.Outcome.{Outcome, ok, err, panic}
use erebus_redgiant.Prelude.Partial.{◌>>=◌}
use erebus_redgiant.Tracers.Call.{Location, MsgCall, ExecutionResult}
use erebus_redgiant.Tracers.Nested
use erebus_redgiant.Tracers.Nested.{top, op_call}
use erebus_redgiant.Contract.Encoding.{AbiType, Value, Input, Log}
use erebus_redgiant.Summary.Profits.{Profits, add}
use erebus_redgiant.Summary.State.{
  StateVariable, StateVariables, of_storage, of_balance, of_code, add_with_override, add_if_absent,
}
use erebus_redgiant.Summary.Transfer.{Transfer, ether_transfer, profits}
use erebus_redgiant.Summary.Events.{Topics, fungible, log_to_transfers}
use erebus_redgiant.Summary.Calls.{Data}

-- Without IncludeTrace.
pub record Config : Type 0 where
  pub include_def : Bool
  pub include_use : Bool
  pub include_transfer : Bool
  pub include_profit : Bool

-- ID of a state variable, without its spelling as a string.
pub data VariableId : Type 0 where
  storage_id : Address → Hash → VariableId
  balance_id : Address → VariableId
  code_id : Address → VariableId

unfoldable pub id_of : StateVariable → VariableId
id_of (of_storage s) = storage_id s.address s.storage
id_of (of_balance b) = balance_id b.address
id_of (of_code c) = code_id c.address

abbrev pub same_id : VariableId → VariableId → Bool
same_id (storage_id a k) (storage_id b j) = a == b && k == j
same_id (balance_id a) (balance_id b) = a == b
same_id (code_id a) (code_id b) = a == b
same_id _ _ = false

-- `_, defined := t.defs[id]`; the values of the map are not read.
unfoldable pub is_defined : VariableId → List VariableId → Bool
is_defined v [] = false
is_defined v (w ∷ ids) = same_id w v || is_defined v ids

-- `summaries` has the Data of the CallSummary of a message call, by the pointer of the call.
pub record TxSummaryTracer : Type 0 where
  pub nested : Nested.Tracer
  pub summaries : List (ℕ × List Data)
  pub defined : List VariableId

abbrev pub empty_data : Data
empty_data = record { defs = []; uses = []; transfers = []; profits = [] }

-- What the hooks read of engine.State.
pub record StateView : Type 0 where
  pub get_state : Address → Hash → Hash
  pub get_balance : Address → ℕ
  pub get_code_size : Address → ℕ
  pub get_code : Address → List ℕ
  pub get_code_hash : Address → Hash

-- What they read of vm.ScopeContext; the top of the stack comes first.
pub record Scope : Type 0 where
  pub stack : List ℕ
  pub memory : List ℕ
  pub contract : Address
  pub code_addr : Address

-- A change of currentData, the last Data of the summary.
unfoldable pub change_current : (Data → Option Data) → List Data → Option (List Data)
change_current f [] = none
change_current f (d ∷ []) = do e ← f d; some (e ∷ [])
change_current f (d ∷ ds) = do es ← change_current f ds; some (d ∷ es)

unfoldable pub on_current : (Data → Option Data) → ℕ → TxSummaryTracer → Option TxSummaryTracer
on_current f p t = do
  ds ← lookup p t.summaries
  es ← change_current f ds
  some (record t { summaries = insert p es t.summaries })

abbrev pub clear_changes : Data → Data
clear_changes d = record d { defs = []; transfers = []; profits = [] }

abbrev pub with_def : StateVariable → Data → Data
with_def v d = record d { defs = add_with_override d.defs (v ∷ []) }

abbrev pub with_use : StateVariable → Data → Data
with_use v d = record d { uses = add_if_absent d.uses (v ∷ []) }

-- addProfits for the profits of one transfer; a panic of Add goes through.
unfoldable pub add_profits : Profits → Transfer → Option Profits
unfolding add profits
add_profits ps t = elim (add ps (profits t)) [ ok qs ↦ some qs | err e ↦ none | panic ↦ none ]

unfoldable pub add_all_profits : Profits → List Transfer → Option Profits
add_all_profits ps [] = some ps
add_all_profits ps (t ∷ ts) = do qs ← add_profits ps t; add_all_profits qs ts

-- addTransfers, and addProfits of each transfer where profits are wanted.
unfoldable pub with_transfers : Bool → List Transfer → Data → Option Data
with_transfers include_profit ts d = do
  ps ← if include_profit then add_all_profits d.profits ts else some d.profits
  some (record d { transfers = d.transfers ++ ts; profits = ps })

unfoldable pub add_def : StateVariable → ℕ → TxSummaryTracer → Option TxSummaryTracer
add_def v p t = do
  u ← on_current (λ d. some (with_def v d)) p t
  some (record u { defined = id_of v ∷ u.defined })

-- Only def-clear uses are added, where the code looks.
unfoldable pub add_use : Bool → StateVariable → ℕ → TxSummaryTracer → Option TxSummaryTracer
add_use looks v p t =
    if looks && is_defined (id_of v) t.defined
    then some t
    else on_current (λ d. some (with_use v d)) p t

-- Ether that a call or a transaction moves.
unfoldable pub record_ether :
    Config → Address → Address → ℕ → Option Location → ℕ → TxSummaryTracer → Option TxSummaryTracer
record_ether cfg from to value l p t =
    let moved : Transfer = ether_transfer (fungible l from to (pos value)) in
    if cfg.include_transfer || cfg.include_profit
    then on_current (with_transfers cfg.include_profit (moved ∷ [])) p t
    else some t

-- A new summary for the call, and one Data more for its parent.
unfoldable pub open_summary : ℕ → ℕ → TxSummaryTracer → Option TxSummaryTracer
open_summary parent p t = do
  ds ← lookup parent t.summaries
  some (record t {
    summaries = insert p (empty_data ∷ []) (insert parent (ds ++ empty_data ∷ []) t.summaries);
  })

-- A call that reverts loses the changes of its last Data.
unfoldable pub clear_if : Bool → ℕ → TxSummaryTracer → Option TxSummaryTracer
clear_if b p t = if b then on_current (λ d. some (clear_changes d)) p t else some t
