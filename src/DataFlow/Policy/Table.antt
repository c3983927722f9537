-- ===== src/DataFlow/Policy/Table.antt =====
-- GenDefaultFlowPolicy of analysis/data_flow/policy.go: which flow function an opcode has.
use erebus_redgiant.Prelude.{ℕ, Bool, ◌&&◌, Option, none, some, List, leb, ◌==◌, if◌then◌else◌}
use erebus_redgiant.DataFlow.Node.{FlowNode}
use erebus_redgiant.DataFlow.Policy.{Operation, Analyzer, M}
use erebus_redgiant.DataFlow.Policy.Flows

pub data FlowName : Type 0 where
  noop push dup swap log pure_op hash_op tx_const balance call_value call_data_load call_data_copy
        code_size code_copy ext_code_size ext_code_copy return_data_copy ext_code_hash self_balance
        mload mstore mstore8 sload sstore jump jumpi create call call_code return_op delegate_call
        static_call revert invalid self_destruct :
      FlowName

abbrev within : ℕ → ℕ → ℕ → Bool
within lo hi n = leb lo n && leb n hi

-- The opcodes from 0x30 to 0x48.
unfoldable pub environment_flow : ℕ → FlowName
environment_flow opcode =
    if opcode == 0x31
    then balance
    else if opcode == 0x34
    then call_value
    else if opcode == 0x35
    then call_data_load
    else if opcode == 0x37
    then call_data_copy
    else if opcode == 0x38
    then code_size
    else if opcode == 0x39
    then code_copy
    else if opcode == 0x3b
    then ext_code_size
    else if opcode == 0x3c
    then ext_code_copy
    else if opcode == 0x3e
    then return_data_copy
    else if opcode == 0x3f
    then ext_code_hash
    else if opcode == 0x47
    then self_balance
    else tx_const

-- The opcodes from 0x50 to 0x5b.
unfoldable pub machine_flow : ℕ → FlowName
machine_flow opcode =
    if opcode == 0x50
    then noop
    else if opcode == 0x51
    then mload
    else if opcode == 0x52
    then mstore
    else if opcode == 0x53
    then mstore8
    else if opcode == 0x54
    then sload
    else if opcode == 0x55
    then sstore
    else if opcode == 0x56
    then jump
    else if opcode == 0x57
    then jumpi
    else if opcode == 0x5b
    then noop
    else tx_const

-- The opcodes from 0xf0 on.
unfoldable pub system_flow : ℕ → Option FlowName
system_flow opcode =
    if opcode == 0xf0
    then some create
    else if opcode == 0xf1
    then some call
    else if opcode == 0xf2
    then some call_code
    else if opcode == 0xf3
    then some return_op
    else if opcode == 0xf4
    then some delegate_call
    else if opcode == 0xf5
    then some create
    else if opcode == 0xfa
    then some static_call
    else if opcode == 0xfd
    then some revert
    else if opcode == 0xfe
    then some invalid
    else if opcode == 0xff
    then some self_destruct
    else none

unfoldable pub gen_default_flow_policy : ℕ → Option FlowName
unfolding environment_flow machine_flow system_flow
gen_default_flow_policy opcode =
    if opcode == 0
    then some noop
    else if within 0x01 0x0b opcode
    then some pure_op
    else if within 0x10 0x1d opcode
    then some pure_op
    else if opcode == 0x20
    then some hash_op
    else if within 0x30 0x48 opcode
    then some (environment_flow opcode)
    else if within 0x50 0x5b opcode
    then some (machine_flow opcode)
    else if within 0x60 0x7f opcode
    then some push
    else if within 0x80 0x8f opcode
    then some dup
    else if within 0x90 0x9f opcode
    then some swap
    else if within 0xa0 0xa4 opcode
    then some log
    else system_flow opcode

module _ (a : Analyzer) (fuel : ℕ) (op : Operation) (evm : List ℕ) (args : List FlowNode) where
  -- `policy(analyzer, scope, collection, operation, stackArgs, stackResults)`
  unfoldable pub flow : FlowName → M Flows.Hook
  flow noop = Flows.noop_flow a fuel op evm args
  flow push = Flows.push_flow a fuel op evm args
  flow dup = Flows.dup_flow a fuel op evm args
  flow swap = Flows.swap_flow a fuel op evm args
  flow log = Flows.log_flow a fuel op evm args
  flow pure_op = Flows.pure_op_flow a fuel op evm args
  flow hash_op = Flows.hash_op_flow a fuel op evm args
  flow tx_const = Flows.tx_const_read_to_stack_op_flow a fuel op evm args
  flow balance = Flows.balance_flow a fuel op evm args
  flow call_value = Flows.call_value_flow a fuel op evm args
  flow call_data_load = Flows.call_data_load_flow a fuel op evm args
  flow call_data_copy = Flows.call_data_copy_flow a fuel op evm args
  flow code_size = Flows.code_size_flow a fuel op evm args
  flow code_copy = Flows.code_copy_flow a fuel op evm args
  flow ext_code_size = Flows.ext_code_size_flow a fuel op evm args
  flow ext_code_copy = Flows.ext_code_copy_flow a fuel op evm args
  flow return_data_copy = Flows.return_data_copy_flow a fuel op evm args
  flow ext_code_hash = Flows.ext_code_hash_flow a fuel op evm args
  flow self_balance = Flows.self_balance_flow a fuel op evm args
  flow mload = Flows.mload_flow a fuel op evm args
  flow mstore = Flows.mstore_flow a fuel op evm args
  flow mstore8 = Flows.mstore8_flow a fuel op evm args
  flow sload = Flows.sload_flow a fuel op evm args
  flow sstore = Flows.sstore_flow a fuel op evm args
  flow jump = Flows.jump_flow a fuel op evm args
  flow jumpi = Flows.jumpi_flow a fuel op evm args
  flow create = Flows.create_flow a fuel op evm args
  flow call = Flows.call_flow a fuel op evm args
  flow call_code = Flows.call_code_flow a fuel op evm args
  flow return_op = Flows.return_flow a fuel op evm args
  flow delegate_call = Flows.delegate_call_flow a fuel op evm args
  flow static_call = Flows.static_call_flow a fuel op evm args
  flow revert = Flows.revert_flow a fuel op evm args
  flow invalid = Flows.invalid_flow a fuel op evm args
  flow self_destruct = Flows.self_destruct_flow a fuel op evm args
