-- ===== src/DataFlow/Tracer/Tests.antt =====
-- A small transaction for the tracer of analysis/data_flow/tracer.go: PUSH1, PUSH1, ADD, a call that runs PUSH1
-- in its callee, and one more operation of the caller.
use erebus_redgiant.Prelude.{
  ℕ, ◌≡◌, refl, Option, none, some, List, [], ◌∷◌, ◌==◌, Address, if◌then◌else◌,
}
use erebus_redgiant.Tracers.Nested
use erebus_redgiant.Prelude.Partial.{◌>>=◌}
use erebus_redgiant.DataFlow.Policy.{Operation, Analyzer}
use erebus_redgiant.DataFlow.Tracer.{
  InstructionSet, Scope, DataFlowTracer, transaction_start, capture_state, feed_callback,
  run_callback, operands, operation, apply_policy, get_stack_effects, trackers, put_trackers,
  new_data, capture_enter, put_collection, child_data, storage_of, capture_exit,
}
use erebus_redgiant.Prelude.Map.{lookup, insert}
use erebus_redgiant.Tracers.Call.{gen_child_position, count_contracts}
use erebus_redgiant.DataFlow.Stack.{push, pop}
use erebus_redgiant.DataFlow.Node.{new_raw_flow_node, add_upstream, add_entries, id_of, is_tainted}
use erebus_redgiant.DataFlow.Memory.{load, store_call_data, word_range, regulate}
use erebus_redgiant.Tracers.Position.{call_cmp, cmp}
use erebus_redgiant.DataFlow.Call.{
  new_call, set_flow_source, match_msg_call, store_data, copy_from_memory, get_success,
  storage_clear, storage_store,
}
use erebus_redgiant.DataFlow.Policy
use erebus_redgiant.DataFlow.Policy.Flows
use erebus_redgiant.DataFlow.Policy.Table.{
  gen_default_flow_policy, flow, environment_flow, machine_flow, system_flow,
}
use erebus_redgiant.DataFlow.Tracer.Mirror.{
  EvmEvent, state, enter, exit, trace, trace_step, evm_run, Mirrors, transaction-Mirrors,
}

-- CALLER is the source of the flow, and SSTORE its sink.
abbrev caller_analyzer : Analyzer
caller_analyzer = record {
  label = 1;
  is_source = λ op. op.opcode == 0x33;
  is_sink = λ op. op.opcode == 0x55;
}

abbrev instructions : InstructionSet
instructions op =
    if op == 0x60
    then some (0, 1023)
    else if op == 0x33
    then some (0, 1023)
    else if op == 0x01
    then some (2, 1025)
    else if op == 0x55
    then some (2, 1026)
    else if op == 0xfa
    then some (6, 1029)
    else none

abbrev idle : DataFlowTracer
idle = record {
  nested = Nested.fresh;
  inner = [];
  nodes = [];
  calls = [];
  storages = [];
  chain = record { balances = []; codes = [] };
  sinks = [];
  global_storages = [];
}

abbrev scope_of : List ℕ → Scope
scope_of evm = record { evm = evm; contract = 300; code_addr = 300 }

-- A PUSH1 of the root call.
abbrev pushed : ℕ → List ℕ → EvmEvent
pushed pc evm = state pc 0x60 1000 3 (scope_of evm)

abbrev events : List EvmEvent
events =
    pushed 0 []
    ∷ pushed 2 (0 ∷ [])
    ∷ pushed 4 (0 ∷ 0 ∷ [])
    ∷ pushed 6 (0 ∷ 0 ∷ 0 ∷ [])
    ∷ pushed 8 (0 ∷ 0 ∷ 0 ∷ 0 ∷ [])
    ∷ pushed 10 (0 ∷ 0 ∷ 0 ∷ 0 ∷ 400 ∷ [])
    ∷ state 12 0x33 900 2 (scope_of (0 ∷ 0 ∷ 0 ∷ 0 ∷ 400 ∷ 1 ∷ []))
    ∷ state 13 0x01 800 3 (scope_of (0 ∷ 0 ∷ 0 ∷ 0 ∷ 400 ∷ 1 ∷ 7 ∷ []))
    ∷ state 14 0xfa 700 100 (scope_of (0 ∷ 0 ∷ 0 ∷ 0 ∷ 400 ∷ 8 ∷ []))
    ∷ enter 0xfa 300 400 [] none
    ∷ state 0 0x60 600 3 (record { evm = []; contract = 400; code_addr = 400 })
    ∷ exit (record { err = none; used_gas = 3; return_data = [] })
    ∷ pushed 15 (1 ∷ [])
    ∷ state 17 0x55 500 100 (scope_of (1 ∷ 5 ∷ []))
    ∷ []

-- The tracer, where it does not panic.
abbrev or_idle : Option DataFlowTracer → DataFlowTracer
or_idle none = idle
or_idle (some t) = t

abbrev contract_of : Address → ℕ → Address
contract_of from nonce = 300

abbrev traced : Option DataFlowTracer
traced = transaction_start contract_of 0 7 (some 300) [] 0 idle >>= λ u.
    trace caller_analyzer 10 instructions events u

transaction-Mirrors_example :
    (ds : List ℕ) × (evm_run instructions events (0 ∷ []) ≡ some ds) × Mirrors (or_idle traced) ds
unfolding ◌>>=◌ trace trace_step transaction_start capture_state feed_callback run_callback operands
    operation apply_policy get_stack_effects trackers put_trackers new_data capture_enter
    put_collection child_data storage_of capture_exit Nested.transaction_start Nested.capture_state
    Nested.current_msg_call Nested.capture_enter Nested.capture_exit Nested.is_precompiled_contract
    Nested.context_address gen_child_position count_contracts lookup insert push pop
    gen_default_flow_policy flow environment_flow machine_flow system_flow Flows.push_flow
    Flows.pure_op_flow Flows.tx_const_read_to_stack_op_flow Flows.static_call_flow
    Flows.message_call Flows.callee Flows.start_child Flows.sstore_flow Flows.derived_result
    Flows.report Flows.run_hook Policy.pure Policy.◌>>=◌ Policy.when Policy.lift Policy.gets
    Policy.gets_some Policy.modify Policy.modify_some Policy.back Policy.back_node
    Policy.upstream_of Policy.add_upstreams Policy.put_result Policy.set_result Policy.sink_tainted
    Policy.on_storage Policy.call_at Policy.child_call Policy.put_child_call Policy.memory_load
    Policy.memory_copy Policy.new_flow_node Policy.fresh_result new_call set_flow_source
    match_msg_call store_data copy_from_memory get_success storage_clear storage_store
    new_raw_flow_node add_upstream add_entries id_of is_tainted load store_call_data call_cmp cmp
    word_range regulate
transaction-Mirrors_example =
    transaction-Mirrors caller_analyzer 10 instructions contract_of 0 7 (some 300) [] 0 events idle
      (or_idle traced) refl refl
