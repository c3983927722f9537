-- ===== src/DataFlow/Policy/Balanced.antt =====
-- The flow functions of analysis/data_flow/policy.go keep the depth of the shadow stack and the
-- number of results: the tracer alone pops the arguments and pushes the results.
use erebus_redgiant.Prelude.{ℕ, ◌+◌, Bool, List, Address}
use erebus_redgiant.DataFlow.Node.{FlowNode}
use erebus_redgiant.DataFlow.Policy.{
  Operation, Analyzer, M, back, back_node, back_slice, back_slice_to,
}
use erebus_redgiant.DataFlow.Policy.Rules.{Keeps, Keeps-bind, Keeps-lift}
use erebus_redgiant.DataFlow.Policy.Depth.{HasShape, shape_rules}
use erebus_redgiant.DataFlow.Policy.Flows
use erebus_redgiant.DataFlow.Policy.Table
use erebus_redgiant.DataFlow.Policy.Table.{FlowName, flow}

module _ {d k : ℕ} where
  Shape-back : (evm : List ℕ) (i : ℕ) → Keeps (HasShape d k) (back evm i)
  unfolding back
  Shape-back evm i = Keeps-lift _

  Shape-back_node : (l : List FlowNode) (i : ℕ) → Keeps (HasShape d k) (back_node l i)
  unfolding back_node
  Shape-back_node l i = Keeps-lift _

  Shape-back_slice : (l : List FlowNode) (i : ℕ) → Keeps (HasShape d k) (back_slice l i)
  unfolding back_slice
  Shape-back_slice l i = Keeps-lift _

  Shape-back_slice_to : (l : List FlowNode) (i j : ℕ) → Keeps (HasShape d k) (back_slice_to l i j)
  unfolding back_slice_to
  Shape-back_slice_to l i j = Keeps-lift _

ruleset reads = (shape_rules, Shape-back, Shape-back_node, Shape-back_slice, Shape-back_slice_to)

module _ {d k : ℕ} (a : Analyzer) (fuel : ℕ) (op : Operation) where
  Shape-derived_result :
      (tainted : Bool) (first second : List FlowNode)
      → Keeps (HasShape d k) (Flows.derived_result a fuel op tainted first second)
  unfolding Flows.derived_result
  Shape-derived_result tainted first second = search shape_rules depth 30 fits 3000

  Shape-report :
      (first second : List FlowNode) → Keeps (HasShape d k) (Flows.report a fuel op first second)
  unfolding Flows.report
  Shape-report first second = search shape_rules depth 30 fits 3000

ruleset derived = (reads, Shape-derived_result, Shape-report)

module _ {d k : ℕ} (a : Analyzer) (fuel : ℕ) (op : Operation) (evm : List ℕ)
    (args : List FlowNode) where
  Shape-noop_flow : Keeps (HasShape d k) (Flows.noop_flow a fuel op evm args)
  unfolding Flows.noop_flow
  Shape-noop_flow = search derived depth 30 fits 3000

  Shape-push_flow : Keeps (HasShape d k) (Flows.push_flow a fuel op evm args)
  unfolding Flows.push_flow
  Shape-push_flow = search derived depth 30 fits 3000

  Shape-dup_flow : Keeps (HasShape d k) (Flows.dup_flow a fuel op evm args)
  unfolding Flows.dup_flow
  Shape-dup_flow = search derived depth 30 fits 3000

  Shape-swap_flow : Keeps (HasShape d k) (Flows.swap_flow a fuel op evm args)
  unfolding Flows.swap_flow
  Shape-swap_flow = search derived depth 30 fits 3000

  Shape-log_flow : Keeps (HasShape d k) (Flows.log_flow a fuel op evm args)
  unfolding Flows.log_flow
  Shape-log_flow = search derived depth 30 fits 3000

  Shape-pure_op_flow : Keeps (HasShape d k) (Flows.pure_op_flow a fuel op evm args)
  unfolding Flows.pure_op_flow
  Shape-pure_op_flow = search derived depth 30 fits 3000

  Shape-hash_op_flow : Keeps (HasShape d k) (Flows.hash_op_flow a fuel op evm args)
  unfolding Flows.hash_op_flow
  Shape-hash_op_flow = search derived depth 30 fits 3000

  Shape-balance_flow_of :
      (addr : Address) → Keeps (HasShape d k) (Flows.balance_flow_of a fuel op evm args addr)
  unfolding Flows.balance_flow_of
  Shape-balance_flow_of addr = search derived depth 30 fits 3000

  Shape-tx_const_read_to_stack_op_flow :
      Keeps (HasShape d k) (Flows.tx_const_read_to_stack_op_flow a fuel op evm args)
  unfolding Flows.tx_const_read_to_stack_op_flow
  Shape-tx_const_read_to_stack_op_flow = search derived depth 30 fits 3000

  Shape-balance_flow : Keeps (HasShape d k) (Flows.balance_flow a fuel op evm args)
  unfolding Flows.balance_flow
  Shape-balance_flow = search (derived, Shape-balance_flow_of) depth 30 fits 3000

  Shape-code_read_to_stack_op_flow :
      (addr : Address)
      → Keeps (HasShape d k) (Flows.code_read_to_stack_op_flow a fuel op evm args addr)
  unfolding Flows.code_read_to_stack_op_flow
  Shape-code_read_to_stack_op_flow addr = search derived depth 30 fits 3000

  Shape-write_code :
      (dest : ℕ) (size : ℕ) (code : FlowNode)
      → Keeps (HasShape d k) (Flows.write_code a fuel op evm args dest size code)
  unfolding Flows.write_code
  Shape-write_code dest size code = search derived depth 30 fits 3000

  Shape-code_read_to_memory_op_flow :
      (addr : Address) (dest : ℕ) (size : ℕ)
      → Keeps (HasShape d k) (Flows.code_read_to_memory_op_flow a fuel op evm args addr dest size)
  unfolding Flows.code_read_to_memory_op_flow
  Shape-code_read_to_memory_op_flow addr dest size =
      search (derived, Shape-write_code) depth 30 fits 3000

  Shape-call_value_flow : Keeps (HasShape d k) (Flows.call_value_flow a fuel op evm args)
  unfolding Flows.call_value_flow
  Shape-call_value_flow = search derived depth 30 fits 3000

  Shape-call_data_load_flow : Keeps (HasShape d k) (Flows.call_data_load_flow a fuel op evm args)
  unfolding Flows.call_data_load_flow
  Shape-call_data_load_flow = search derived depth 30 fits 3000

  Shape-mark_source :
      (dest : ℕ) (size : ℕ) → Keeps (HasShape d k) (Flows.mark_source a fuel op evm args dest size)
  unfolding Flows.mark_source
  Shape-mark_source dest size = search derived depth 30 fits 3000

  Shape-call_data_copy_flow : Keeps (HasShape d k) (Flows.call_data_copy_flow a fuel op evm args)
  unfolding Flows.call_data_copy_flow
  Shape-call_data_copy_flow = search (derived, Shape-mark_source) depth 30 fits 3000

  Shape-code_size_flow : Keeps (HasShape d k) (Flows.code_size_flow a fuel op evm args)
  unfolding Flows.code_size_flow
  Shape-code_size_flow = search (derived, Shape-code_read_to_stack_op_flow) depth 30 fits 3000

  Shape-code_copy_flow : Keeps (HasShape d k) (Flows.code_copy_flow a fuel op evm args)
  unfolding Flows.code_copy_flow
  Shape-code_copy_flow = search (derived, Shape-code_read_to_memory_op_flow) depth 30 fits 3000

  Shape-ext_code_size_flow : Keeps (HasShape d k) (Flows.ext_code_size_flow a fuel op evm args)
  unfolding Flows.ext_code_size_flow
  Shape-ext_code_size_flow = search (derived, Shape-code_read_to_stack_op_flow) depth 30 fits 3000

  Shape-ext_code_copy_flow : Keeps (HasShape d k) (Flows.ext_code_copy_flow a fuel op evm args)
  unfolding Flows.ext_code_copy_flow
  Shape-ext_code_copy_flow = search (derived, Shape-code_read_to_memory_op_flow) depth 30 fits 3000

  Shape-return_data_copy_flow :
      Keeps (HasShape d k) (Flows.return_data_copy_flow a fuel op evm args)
  unfolding Flows.return_data_copy_flow
  Shape-return_data_copy_flow = search (derived, Shape-mark_source) depth 30 fits 3000

  Shape-ext_code_hash_flow : Keeps (HasShape d k) (Flows.ext_code_hash_flow a fuel op evm args)
  unfolding Flows.ext_code_hash_flow
  Shape-ext_code_hash_flow = search (derived, Shape-code_read_to_stack_op_flow) depth 30 fits 3000

  Shape-self_balance_flow : Keeps (HasShape d k) (Flows.self_balance_flow a fuel op evm args)
  unfolding Flows.self_balance_flow
  Shape-self_balance_flow = search (derived, Shape-balance_flow_of) depth 30 fits 3000

  Shape-mload_flow : Keeps (HasShape d k) (Flows.mload_flow a fuel op evm args)
  unfolding Flows.mload_flow
  Shape-mload_flow = search derived depth 30 fits 3000

  Shape-write_flow : (size : ℕ) → Keeps (HasShape d k) (Flows.write_flow a fuel op evm args size)
  unfolding Flows.write_flow
  Shape-write_flow size = search derived depth 30 fits 3000

  Shape-mstore_flow : Keeps (HasShape d k) (Flows.mstore_flow a fuel op evm args)
  unfolding Flows.mstore_flow
  Shape-mstore_flow = search (derived, Shape-write_flow) depth 30 fits 3000

  Shape-mstore8_flow : Keeps (HasShape d k) (Flows.mstore8_flow a fuel op evm args)
  unfolding Flows.mstore8_flow
  Shape-mstore8_flow = search (derived, Shape-write_flow) depth 30 fits 3000

  Shape-sload_flow : Keeps (HasShape d k) (Flows.sload_flow a fuel op evm args)
  unfolding Flows.sload_flow
  Shape-sload_flow = search derived depth 30 fits 3000

  Shape-sstore_flow : Keeps (HasShape d k) (Flows.sstore_flow a fuel op evm args)
  unfolding Flows.sstore_flow
  Shape-sstore_flow = search derived depth 30 fits 3000

  Shape-jump_flow : Keeps (HasShape d k) (Flows.jump_flow a fuel op evm args)
  unfolding Flows.jump_flow
  Shape-jump_flow = search derived depth 30 fits 3000

  Shape-jumpi_flow : Keeps (HasShape d k) (Flows.jumpi_flow a fuel op evm args)
  unfolding Flows.jumpi_flow
  Shape-jumpi_flow = search derived depth 30 fits 3000

  Shape-start_child :
      (precompiled : Bool) (offset : ℕ) (size : ℕ)
      → Keeps (HasShape d k) (Flows.start_child a fuel op evm args precompiled offset size)
  unfolding Flows.start_child
  Shape-start_child precompiled offset size = search derived depth 30 fits 3000

  Shape-create_flow : Keeps (HasShape d k) (Flows.create_flow a fuel op evm args)
  unfolding Flows.create_flow
  Shape-create_flow = search (derived, Shape-start_child) depth 30 fits 3000

  Shape-message_call :
      (first : ℕ) (checked : M (List FlowNode)) (addr : ℕ) (keep_source : Bool)
      → Keeps (HasShape d k) checked
      → Keeps (HasShape d k) (Flows.message_call a fuel op evm args first checked addr keep_source)
  unfolding Flows.message_call
  Shape-message_call first checked addr keep_source kept =
      Keeps-bind _ _ (Shape-back evm first) λ o.
        Keeps-bind _ _ (Shape-back evm (first + 1))
          λ l. search (derived, Shape-start_child) depth 30 fits 5000

  Shape-call_flow : Keeps (HasShape d k) (Flows.call_flow a fuel op evm args)
  unfolding Flows.call_flow
  Shape-call_flow = search (derived, Shape-message_call) depth 30 fits 3000

  Shape-call_code_flow : Keeps (HasShape d k) (Flows.call_code_flow a fuel op evm args)
  unfolding Flows.call_code_flow
  Shape-call_code_flow = search (derived, Shape-message_call) depth 30 fits 3000

  Shape-callee : Keeps (HasShape d k) (Flows.callee a fuel op evm args)
  unfolding Flows.callee
  Shape-callee = search derived depth 30 fits 3000

  Shape-delegate_call_flow : Keeps (HasShape d k) (Flows.delegate_call_flow a fuel op evm args)
  unfolding Flows.delegate_call_flow
  Shape-delegate_call_flow = search (derived, Shape-message_call, Shape-callee) depth 30 fits 3000

  Shape-static_call_flow : Keeps (HasShape d k) (Flows.static_call_flow a fuel op evm args)
  unfolding Flows.static_call_flow
  Shape-static_call_flow = search (derived, Shape-message_call, Shape-callee) depth 30 fits 3000

  Shape-return_flow : Keeps (HasShape d k) (Flows.return_flow a fuel op evm args)
  unfolding Flows.return_flow
  Shape-return_flow = search derived depth 30 fits 3000

  Shape-revert_flow : Keeps (HasShape d k) (Flows.revert_flow a fuel op evm args)
  unfolding Flows.revert_flow Flows.return_flow
  Shape-revert_flow = search derived depth 30 fits 3000

  Shape-invalid_flow : Keeps (HasShape d k) (Flows.invalid_flow a fuel op evm args)
  unfolding Flows.invalid_flow
  Shape-invalid_flow = search derived depth 30 fits 3000

  Shape-self_destruct_flow : Keeps (HasShape d k) (Flows.self_destruct_flow a fuel op evm args)
  unfolding Flows.self_destruct_flow
  Shape-self_destruct_flow = search derived depth 30 fits 3000

  -- Every flow function of the default policy keeps the depth of the shadow stack and the number
  -- of results, whatever the operation, the analyzer and the state, where it returns.
  pub Shape-flow : (name : FlowName) → Keeps (HasShape d k) (flow a fuel op evm args name)
  unfolding flow
  Shape-flow Table.noop = Shape-noop_flow
  Shape-flow Table.push = Shape-push_flow
  Shape-flow Table.dup = Shape-dup_flow
  Shape-flow Table.swap = Shape-swap_flow
  Shape-flow Table.log = Shape-log_flow
  Shape-flow Table.pure_op = Shape-pure_op_flow
  Shape-flow Table.hash_op = Shape-hash_op_flow
  Shape-flow Table.tx_const = Shape-tx_const_read_to_stack_op_flow
  Shape-flow Table.balance = Shape-balance_flow
  Shape-flow Table.call_value = Shape-call_value_flow
  Shape-flow Table.call_data_load = Shape-call_data_load_flow
  Shape-flow Table.call_data_copy = Shape-call_data_copy_flow
  Shape-flow Table.code_size = Shape-code_size_flow
  Shape-flow Table.code_copy = Shape-code_copy_flow
  Shape-flow Table.ext_code_size = Shape-ext_code_size_flow
  Shape-flow Table.ext_code_copy = Shape-ext_code_copy_flow
  Shape-flow Table.return_data_copy = Shape-return_data_copy_flow
  Shape-flow Table.ext_code_hash = Shape-ext_code_hash_flow
  Shape-flow Table.self_balance = Shape-self_balance_flow
  Shape-flow Table.mload = Shape-mload_flow
  Shape-flow Table.mstore = Shape-mstore_flow
  Shape-flow Table.mstore8 = Shape-mstore8_flow
  Shape-flow Table.sload = Shape-sload_flow
  Shape-flow Table.sstore = Shape-sstore_flow
  Shape-flow Table.jump = Shape-jump_flow
  Shape-flow Table.jumpi = Shape-jumpi_flow
  Shape-flow Table.create = Shape-create_flow
  Shape-flow Table.call = Shape-call_flow
  Shape-flow Table.call_code = Shape-call_code_flow
  Shape-flow Table.return_op = Shape-return_flow
  Shape-flow Table.delegate_call = Shape-delegate_call_flow
  Shape-flow Table.static_call = Shape-static_call_flow
  Shape-flow Table.revert = Shape-revert_flow
  Shape-flow Table.invalid = Shape-invalid_flow
  Shape-flow Table.self_destruct = Shape-self_destruct_flow

-- So does every hook.
pub Shape-run_hook :
    {d k : ℕ} (a : Analyzer) (fuel : ℕ) (hook : Flows.Hook) (evm : List ℕ)
    → Keeps (HasShape d k) (Flows.run_hook a fuel hook evm)
unfolding Flows.run_hook
Shape-run_hook a fuel Flows.no_hook evm = search derived depth 30 fits 3000
Shape-run_hook a fuel (Flows.create_hook op args) evm = search derived depth 30 fits 3000
Shape-run_hook a fuel (Flows.call_hook source op offset length) evm =
    search derived depth 30 fits 3000
