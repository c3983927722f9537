-- ===== src/DataFlow/Policy/Flows.antt =====
-- The flow functions of analysis/data_flow/policy.go. A hook, which runs after the operation, is
-- known by the variables that its closure captures.
use erebus_redgiant.Prelude.{
  ℕ, ◌+◌, ◌-◌, Bool, true, false, ◌&&◌, ◌||◌, not, none, some, List, [], ◌∷◌, leb, if◌then◌else◌,
  Address,
}
use erebus_redgiant.DataFlow.Node.{FlowNode, is_tainted}
use erebus_redgiant.DataFlow.Call.{
  new_call, set_flow_source, store_data, store_return_data, get_data, get_success,
  get_all_return_data, return_data_is_tainted, storage_load, storage_store, storage_clear,
  get_balance, set_balance, get_code, set_code,
}
use erebus_redgiant.Tracers.Nested.{is_precompiled_contract}
use erebus_redgiant.DataFlow.Policy.{
  Operation, arg, Analyzer, M, pure, ◌>>=◌, ◌>>◌, when, lift, gets, back, uint64, bytes20,
  back_node, back_slice, back_slice_to, upstream_of, set_result, stack_get, stack_swap,
  sink_tainted, on_chain, current_storage, on_storage, current_call, child_call, on_current_call,
  put_child_call, memory_load, memory_store, memory_clear, memory_copy, new_flow_node, fresh_result,
}

pub data Hook : Type 0 where
  no_hook : Hook
  create_hook : Operation → List FlowNode → Hook
  call_hook : Bool → Operation → ℕ → ℕ → Hook

-- `v != UntaintedValue`
abbrev pub is_node : FlowNode → Bool
is_node none = false
is_node (some p) = true

module _ (a : Analyzer) (fuel : ℕ) (op : Operation) where
  -- A new node over two lists of values, which becomes the result and is reported at a sink; at a
  -- source, a new node without upstream.
  unfoldable pub derived_result : Bool → List FlowNode → List FlowNode → M Hook
  derived_result tainted first second =
      if tainted
      then (do
        n ← new_flow_node a op
        upstream_of n first
        upstream_of n second
        set_result n
        when (a.is_sink op) (sink_tainted n)
        pure no_hook)
      else do when (a.is_source op) (fresh_result a op); pure no_hook

  -- A new node over two lists of values, which is reported.
  unfoldable pub report : List FlowNode → List FlowNode → M (Unit {0})
  report first second = do
    n ← new_flow_node a op
    upstream_of n first
    upstream_of n second
    sink_tainted n

  module _ (evm : List ℕ) (args : List FlowNode) where
    unfoldable pub noop_flow : M Hook
    noop_flow = pure no_hook

    unfoldable pub push_flow : M Hook
    push_flow = do when (a.is_source op) (fresh_result a op); pure no_hook

    unfoldable pub dup_flow : M Hook
    dup_flow = do
      v ← stack_get (op.opcode - 0x80)
      set_result v
      when (a.is_source op && not (is_node v)) (fresh_result a op)
      pure no_hook

    unfoldable pub swap_flow : M Hook
    swap_flow = do stack_swap (op.opcode - 0x90 + 1); pure no_hook

    unfoldable pub log_flow : M Hook
    log_flow =
        if a.is_sink op
        then (do
          offset ← back evm 0
          length ← back evm 1
          payload ← memory_load fuel (uint64 offset) (uint64 length)
          topics ← back_slice args 2
          when (is_tainted payload || is_tainted topics) (report topics payload)
          pure no_hook)
        else pure no_hook

    unfoldable pub pure_op_flow : M Hook
    pure_op_flow = derived_result (is_tainted args) args []

    unfoldable pub hash_op_flow : M Hook
    hash_op_flow = do
      offset ← lift (arg op 0)
      length ← lift (arg op 1)
      payload ← memory_load fuel (uint64 offset) (uint64 length)
      derived_result (is_tainted payload) payload []

    unfoldable pub balance_flow_of : Address → M Hook
    balance_flow_of addr = do
      balance ← gets (λ s. get_balance s.chain addr)
      derived_result (is_node balance || is_tainted args) args (balance ∷ [])

    unfoldable pub tx_const_read_to_stack_op_flow : M Hook
    tx_const_read_to_stack_op_flow = do when (a.is_source op) (fresh_result a op); pure no_hook

    unfoldable pub balance_flow : M Hook
    balance_flow = do addr ← back evm 0; balance_flow_of (bytes20 addr)

    unfoldable pub code_read_to_stack_op_flow : Address → M Hook
    code_read_to_stack_op_flow addr = do
      code ← gets (λ s. get_code s.chain addr)
      derived_result (is_node code || is_tainted args) args (code ∷ [])

    -- What is written for the code of an account that is copied to memory.
    unfoldable pub write_code : ℕ → ℕ → FlowNode → M (Unit {0})
    write_code dest length code =
        if is_tainted args
        then (do
          n ← new_flow_node a op
          upstream_of n args
          upstream_of n (code ∷ [])
          memory_store fuel dest length n)
        else if is_node code
        then memory_store fuel dest length code
        else if a.is_source op
        then (do n ← new_flow_node a op; memory_store fuel dest length n)
        else memory_clear fuel dest length

    unfoldable pub code_read_to_memory_op_flow : Address → ℕ → ℕ → M Hook
    code_read_to_memory_op_flow addr dest length = do
      code ← gets (λ s. get_code s.chain addr)
      write_code dest length code
      pure no_hook

    unfoldable pub call_value_flow : M Hook
    call_value_flow = do
      c ← current_call
      (if is_node c.value then set_result c.value else when (a.is_source op) (fresh_result a op))
      pure no_hook

    unfoldable pub call_data_load_flow : M Hook
    call_data_load_flow = do
      start ← back evm 0
      c ← current_call
      payload ← lift (get_data fuel (uint64 start) 32 c)
      (if is_tainted payload || is_tainted args
          then (do n ← new_flow_node a op; upstream_of n payload; upstream_of n args; set_result n)
          else when (a.is_source op) (fresh_result a op))
      pure no_hook

    -- At a source the written memory gets a new node, where nothing tainted was written.
    unfoldable pub mark_source : ℕ → ℕ → M (Unit {0})
    mark_source dest length = when (a.is_source op) do
      mem ← memory_load fuel dest length
      when (not (is_tainted mem)) do n ← new_flow_node a op; memory_store fuel dest length n

    unfoldable pub call_data_copy_flow : M Hook
    call_data_copy_flow = do
      dest ← back evm 0
      offset ← back evm 1
      length ← back evm 2
      c ← current_call
      memory_copy fuel c.payload (uint64 dest) (uint64 offset) (uint64 length)
      mark_source (uint64 dest) (uint64 length)
      pure no_hook

    unfoldable pub code_size_flow : M Hook
    code_size_flow = code_read_to_stack_op_flow op.code_addr

    unfoldable pub code_copy_flow : M Hook
    code_copy_flow = do
      dest ← back evm 0
      offset ← back evm 1
      length ← back evm 2
      code_read_to_memory_op_flow op.code_addr (uint64 dest) (uint64 length)

    unfoldable pub ext_code_size_flow : M Hook
    ext_code_size_flow = do addr ← back evm 0; code_read_to_stack_op_flow (bytes20 addr)

    unfoldable pub ext_code_copy_flow : M Hook
    ext_code_copy_flow = do
      addr ← back evm 0
      dest ← back evm 1
      offset ← back evm 2
      length ← back evm 3
      code_read_to_memory_op_flow (bytes20 addr) (uint64 dest) (uint64 length)

    unfoldable pub return_data_copy_flow : M Hook
    return_data_copy_flow = do
      dest ← back evm 0
      offset ← back evm 1
      length ← back evm 2
      c ← child_call
      memory_copy fuel c.return_data (uint64 dest) (uint64 offset) (uint64 length)
      mark_source (uint64 dest) (uint64 length)
      pure no_hook

    unfoldable pub ext_code_hash_flow : M Hook
    ext_code_hash_flow = do addr ← back evm 0; code_read_to_stack_op_flow (bytes20 addr)

    unfoldable pub self_balance_flow : M Hook
    self_balance_flow = balance_flow_of op.contract

    unfoldable pub mload_flow : M Hook
    mload_flow = do
      start ← back evm 0
      payload ← memory_load fuel (uint64 start) 32
      derived_result (is_tainted payload || is_tainted args) payload args

    -- MSTORE and MSTORE8 by the number of bytes that they write.
    unfoldable pub write_flow : ℕ → M Hook
    write_flow length = do
      start ← back evm 0
      v ← back_node args 1
      memory_store fuel (uint64 start) length v
      when (a.is_source op && not (is_node v))
          do n ← new_flow_node a op; memory_store fuel (uint64 start) length n
      pure no_hook

    unfoldable pub mstore_flow : M Hook
    mstore_flow = write_flow 32

    unfoldable pub mstore8_flow : M Hook
    mstore8_flow = write_flow 1

    unfoldable pub sload_flow : M Hook
    sload_flow = do
      key ← back evm 0
      s ← current_storage
      derived_result (is_node (storage_load s key) || is_tainted args) (storage_load s key ∷ [])
          args

    unfoldable pub sstore_flow : M Hook
    sstore_flow = do
      key ← back evm 0
      (if is_tainted args
          then (do
            n ← new_flow_node a op
            upstream_of n args
            on_storage (storage_store key n)
            when (a.is_sink op) (sink_tainted n))
          else if a.is_source op
          then (do n ← new_flow_node a op; on_storage (storage_store key n))
          else on_storage (storage_clear key))
      pure no_hook

    unfoldable pub jump_flow : M Hook
    jump_flow = do
      dest ← back_node args 0
      when (is_node dest && a.is_sink op) (report (dest ∷ []) [])
      pure no_hook

    unfoldable pub jumpi_flow : M Hook
    jumpi_flow = do
      condition ← back_node args 1
      dest ← back_node args 0
      when ((is_node condition || is_node dest) && a.is_sink op) (report (condition ∷ dest ∷ []) [])
      pure no_hook

    -- `collection.ChildCall = newCall(…)`, with its source and its data.
    unfoldable pub start_child : Bool → ℕ → ℕ → M (Unit {0})
    start_child precompiled offset length = do
      source ← (if a.is_source op then new_flow_node a op else pure none)
      mem ← gets (λ s. s.memory)
      c ← lift (
          store_data fuel mem offset length
            (set_flow_source source (new_call (op.child_position precompiled))))
      put_child_call c

    unfoldable pub create_flow : M Hook
    create_flow = do
      offset ← back evm 1
      length ← back evm 2
      payload ← memory_load fuel (uint64 offset) (uint64 length)
      start_child false (uint64 offset) (uint64 length)
      operands ← back_slice_to args 0 3
      when (is_tainted payload || is_tainted operands) do
        n ← new_flow_node a op
        upstream_of n payload
        upstream_of n operands
        when (a.is_sink op)
            do value ← back_node args 0; when (is_node value || is_tainted payload) (sink_tainted n)
      pure (create_hook op args)

    -- What CALL, CALLCODE, DELEGATECALL and STATICCALL do after the balances: `checked` reads the
    -- operands that are looked at.
    unfoldable pub message_call : ℕ → M (List FlowNode) → ℕ → Bool → M Hook
    message_call first checked addr keep_source = do
      args_offset ← back evm first
      args_length ← back evm (first + 1)
      payload ← memory_load fuel (uint64 args_offset) (uint64 args_length)
      out_offset ← back evm (first + 2)
      out_length ← back evm (first + 3)
      start_child (is_precompiled_contract (bytes20 addr)) (uint64 args_offset) (uint64 args_length)
      when (a.is_sink op) do
        operands ← checked
        when (is_tainted operands || is_tainted payload) (report operands payload)
      pure (call_hook (keep_source && a.is_source op) op (uint64 out_offset) (uint64 out_length))

    unfoldable pub call_flow : M Hook
    call_flow = do
      addr ← back evm 1
      amount ← lift (arg op 2)
      when (leb 1 amount) do
        value ← back_node args 2
        on_chain (set_balance (bytes20 addr) value)
        on_chain (set_balance op.contract value)
      message_call 3 (back_slice_to args 1 3) addr true

    unfoldable pub call_code_flow : M Hook
    call_code_flow = do
      amount ← lift (arg op 2)
      when (leb 1 amount) do value ← back_node args 2; on_chain (set_balance op.contract value)
      addr ← back evm 1
      message_call 3 (back_slice_to args 1 3) addr false

    -- The address that is called, as a list.
    unfoldable pub callee : M (List FlowNode)
    callee = do v ← back_node args 1; pure (v ∷ [])

    unfoldable pub delegate_call_flow : M Hook
    delegate_call_flow = do addr ← back evm 1; message_call 2 callee addr false

    unfoldable pub static_call_flow : M Hook
    static_call_flow = do addr ← back evm 1; message_call 2 callee addr false

    unfoldable pub return_flow : M Hook
    return_flow = do
      offset ← back evm 0
      length ← back evm 1
      mem ← gets (λ s. s.memory)
      on_current_call (store_return_data fuel mem (uint64 offset) (uint64 length))
      (if a.is_source op
          then (do n ← new_flow_node a op; on_current_call (λ c. some (record c { success = n })))
          else do
            c ← current_call
            nodes ← gets (λ s. s.nodes)
            when (a.is_sink op && return_data_is_tainted nodes c)
                (report (get_all_return_data c) []))
      pure no_hook

    unfoldable pub revert_flow : M Hook
    revert_flow = return_flow

    unfoldable pub invalid_flow : M Hook
    invalid_flow = do
      (if a.is_sink op
          then (do n ← new_flow_node a op; sink_tainted n)
          else when (a.is_source op)
              do n ← new_flow_node a op; on_current_call (λ c. some (record c { success = n })))
      pure no_hook

    unfoldable pub self_destruct_flow : M Hook
    self_destruct_flow = do
      (if a.is_source op
          then (do
            n ← new_flow_node a op
            on_chain (set_code op.contract n)
            m ← new_flow_node a op
            on_current_call (λ c. some (record c { success = m })))
          else when (a.is_sink op)
              do heir ← back_node args 0; when (is_node heir) (report (heir ∷ []) []))
      addr ← back evm 0
      on_chain (λ c. set_balance (bytes20 addr) (get_balance c op.contract) c)
      n ← new_flow_node a op
      on_chain (set_balance op.contract n)
      pure no_hook

-- The hook that a flow function returned, with the stack of the EVM after the operation.
module _ (a : Analyzer) (fuel : ℕ) where
  unfoldable pub run_hook : Hook → List ℕ → M (Unit {0})
  run_hook no_hook evm = pure tt
  run_hook (create_hook op args) evm = do
    address ← back evm 0
    c ← child_call
    (if is_tainted (get_all_return_data c)
        then (do
          n ← new_flow_node a op
          upstream_of n (get_all_return_data c)
          on_chain (set_code (bytes20 address) n))
        else on_chain (set_code (bytes20 address) none))
    value ← back_node args 0
    on_chain (set_balance (bytes20 address) value)
  run_hook (call_hook source op offset length) evm = do
    c ← child_call
    (if source
        then (do n ← new_flow_node a op; upstream_of n (get_success c ∷ []); set_result n)
        else set_result (get_success c))
    memory_copy fuel c.return_data offset 0 length
