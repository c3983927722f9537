-- ===== src/Summary/Tracer/Reads.antt =====
-- What an operation defines and reads of the state, in CaptureState of
-- analysis/summary/summary_tracer.go. The hooks read the EVM's state as it is then.
use erebus_redgiant.Prelude.{
  ℕ, ◌%◌, ◌^◌, true, false, Option, none, some, List, [], ◌==◌, ltb, if◌then◌else◌, get_elem?,
  Address, Hash, nat_eq,
}
use erebus_redgiant.Prelude.Int.{ℤ, pos}
use erebus_redgiant.Prelude.Partial.{◌>>=◌}
use erebus_redgiant.Tracers.Call.{Location}
use erebus_redgiant.Tracers.Nested.{op_call}
use erebus_redgiant.Summary.State.{StateVariable, of_storage, of_balance, of_code}
use erebus_redgiant.Summary.Tracer.{TxSummaryTracer, Scope, StateView, add_def, add_use}

-- A location of a variable is known by its index.
abbrev pub index_of : Option Location → Option ℕ
index_of none = none
index_of (some l) = some l.index

-- common.BigToAddress
abbrev pub to_address : ℕ → Address
to_address w = w % 2 ^ 160

abbrev pub storage_variable : Address → Hash → Hash → Option Location → StateVariable
storage_variable a k v l =
    of_storage (record { address = a; storage = k; value = v; location = index_of l })

abbrev pub balance_variable : Address → ℤ → Option Location → StateVariable
balance_variable a v l = of_balance (record { address = a; value = v; location = index_of l })

abbrev pub code_variable : Address → ℕ → List ℕ → ℕ → Hash → Option Location → StateVariable
code_variable a op code size hash l = of_code (record {
  address = a;
  op = op;
  code = code;
  code_size = pos size;
  code_hash = hash;
  location = index_of l;
})

-- The definition that an SSTORE makes.
unfoldable pub sstore_def : Scope → Option Location → ℕ → TxSummaryTracer → Option TxSummaryTracer
sstore_def scope l p t = do
  key ← get_elem? scope.stack 0
  value ← get_elem? scope.stack 1
  add_def (storage_variable scope.contract key value l) p t

unfoldable pub record_def :
    Scope → ℕ → Option Location → ℕ → TxSummaryTracer → Option TxSummaryTracer
record_def scope op l p t = if op == 0x55 then sstore_def scope l p t else some t

-- The first word of the stack, as an address.
unfoldable pub account_use :
    (Address → StateVariable) → Scope → ℕ → TxSummaryTracer → Option TxSummaryTracer
account_use make scope p t = do w ← get_elem? scope.stack 0; add_use true (make (to_address w)) p t

unfoldable pub sload_use :
    StateView → Scope → Option Location → ℕ → TxSummaryTracer → Option TxSummaryTracer
sload_use view scope l p t = do
  key ← get_elem? scope.stack 0
  add_use true (storage_variable scope.contract key (view.get_state scope.contract key) l) p t

-- An ether transfer reads the balance of the sender.
unfoldable pub call_use :
    StateView → Scope → Option Location → ℕ → TxSummaryTracer → Option TxSummaryTracer
call_use view scope l p t = do
  value ← get_elem? scope.stack 2
  let read = balance_variable scope.contract (pos (view.get_balance scope.contract)) l
  if ltb 0 value then add_use true read p t else some t

-- The switch on SLOAD, BALANCE, SELFBALANCE, CODESIZE, CODECOPY, EXTCODESIZE, EXTCODECOPY,
-- EXTCODEHASH and CALL. CODESIZE does not look whether the code was defined before.
unfoldable pub record_use :
    StateView → Scope → ℕ → Option Location → ℕ → TxSummaryTracer → Option TxSummaryTracer
record_use view scope op l p t =
    if op == 0x54
    then sload_use view scope l p t
    else if op == 0x31
    then account_use (λ a. balance_variable a (pos (view.get_balance a)) l) scope p t
    else if op == 0x47
    then add_use true (balance_variable scope.contract (pos (view.get_balance scope.contract)) l) p
        t
    else if op == 0x38
    then add_use false
        (code_variable scope.code_addr op [] (view.get_code_size scope.code_addr) 0 l) p t
    else if op == 0x39
    then add_use true (code_variable scope.code_addr op (view.get_code scope.code_addr) 0 0 l) p t
    else if op == 0x3b
    then account_use (λ a. code_variable a op [] (view.get_code_size a) 0 l) scope p t
    else if op == 0x3c
    then account_use (λ a. code_variable a op (view.get_code a) 0 0 l) scope p t
    else if op == 0x3f
    then account_use (λ a. code_variable a op [] 0 (view.get_code_hash a) l) scope p t
    else if op == op_call
    then call_use view scope l p t
    else some t
