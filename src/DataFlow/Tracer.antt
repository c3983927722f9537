-- ===== src/DataFlow/Tracer.antt =====
-- DataFlowTracer of analysis/data_flow/tracer.go, for one analyzer with the default policy, and
-- GetStackEffects of helpers/opcode.go. Each analyzer has its trackers to itself. `none` is a panic.

pub mod Depths
pub mod Mirror
mod Tests
use erebus_redgiant.Prelude.{
  ℕ, suc, ◌+◌, ◌-◌, Bool, true, false, ◌&&◌, Option, none, some, List, [], ◌∷◌, ◌++◌, length,
  get_elem?, take, drop, leb, if◌then◌else◌, Address, replicate, nat_eq,
}
use erebus_redgiant.Prelude.Map.{lookup, insert, erase}
use erebus_redgiant.Prelude.Partial.{◌>>=◌}
use erebus_redgiant.Tracers.Call.{Location, MsgCall, ExecutionResult, gen_child_position}
use erebus_redgiant.Tracers.Nested
use erebus_redgiant.Tracers.Nested.{is_precompiled_contract, top}
use erebus_redgiant.DataFlow.Node.{FlowNode, Store}
use erebus_redgiant.DataFlow.Stack.{push, pop}
use erebus_redgiant.DataFlow.Memory.{Memory}
use erebus_redgiant.DataFlow.Call.{Call, Chain, Storage, new_call, match_msg_call}
use erebus_redgiant.DataFlow.Policy.{Operation, Analyzer, Trackers}
use erebus_redgiant.DataFlow.Policy.Flows.{Hook, run_hook}
use erebus_redgiant.DataFlow.Policy.Table.{gen_default_flow_policy, flow}

-- What go-ethereum's instruction table says of an opcode: minStack and maxStack, where it is there.
abbrev pub InstructionSet : Type 0
InstructionSet = ℕ → Option (ℕ × ℕ)

-- The pops and the pushes of an opcode.
unfoldable pub get_stack_effects : InstructionSet → ℕ → ℕ × ℕ
get_stack_effects instructions op = elim (instructions op) as (λ _. ℕ × ℕ) [
  | none ↦ (0, 0)
  | some (min_stack, max_stack) ↦
      if leb 0x80 op && leb op 0x8f
      then (0, 1)
      else if leb 0x90 op && leb op 0x9f
      then (0, 0)
      else (min_stack, 1024 + min_stack - max_stack)
]

-- What the tracer reads of vm.ScopeContext: the EVM stack, its top last, and the contract.
pub record Scope : Type 0 where
  pub evm : List ℕ
  pub contract : Address
  pub code_addr : Address

-- The callback of the last operation: the hook of its flow function and its stack results.
pub record Callback : Type 0 where
  pub hook : Hook
  pub results : List FlowNode

-- The InnerData of a message call: its TrackerCollection and the callback. The chain is shared.
pub record InnerData : Type 0 where
  pub stack : List FlowNode
  pub memory : Memory
  pub storage : ℕ
  pub call : ℕ
  pub child_call : Option ℕ
  pub callback : Option Callback

-- `inner` has the InnerData by the pointer of the message call, where it is not nil.
pub record DataFlowTracer : Type 0 where
  pub nested : Nested.Tracer
  pub inner : List (ℕ × InnerData)
  pub nodes : Store
  pub calls : List Call
  pub storages : List Storage
  pub chain : Chain
  pub sinks : List FlowNode
  pub global_storages : List (Address × ℕ)

-- The trackers that a flow function or a hook works on.
unfoldable pub trackers : DataFlowTracer → InnerData → List FlowNode → Trackers
trackers t d results = record {
  nodes = t.nodes;
  calls = t.calls;
  storages = t.storages;
  chain = t.chain;
  sinks = t.sinks;
  stack = d.stack;
  memory = d.memory;
  storage = d.storage;
  call = d.call;
  child_call = d.child_call;
  results = results;
}

unfoldable pub put_trackers :
    ℕ → List FlowNode → Option Callback → Trackers → DataFlowTracer → DataFlowTracer
put_trackers p stack callback s t = record t {
  inner =
      insert p
        (record {
          stack = stack;
          memory = s.memory;
          storage = s.storage;
          call = s.call;
          child_call = s.child_call;
          callback = callback;
        })
        t.inner;
  nodes = s.nodes;
  calls = s.calls;
  storages = s.storages;
  chain = s.chain;
  sinks = s.sinks;
}

-- The arguments of an operation, the top-most last.
unfoldable pub operands : ℕ → List ℕ → Option (List ℕ)
operands pops evm = if leb pops (length evm) then some (drop (length evm - pops) evm) else none

-- The operation, where the location is the last one captured.
unfoldable pub operation : ℕ → List ℕ → Scope → Nested.Tracer → MsgCall → Operation
operation op args scope n c = record {
  id = n.total_operations - 1;
  opcode = op;
  arguments = args;
  contract = scope.contract;
  code_addr = scope.code_addr;
  child_position = gen_child_position n.calls c;
}

module _ (a : Analyzer) (fuel : ℕ) where
  -- The callback of the last operation of a message call runs once, and pushes the results.
  unfoldable pub run_callback :
      ℕ → List ℕ → DataFlowTracer → InnerData → Option Callback → Option DataFlowTracer
  run_callback p evm t d none = some t
  run_callback p evm t d (some c) = do
    ran ← run_hook a fuel c.hook evm (trackers t d c.results)
    stack ← push ran.1.results ran.1.stack
    some (put_trackers p stack none ran.1 t)

  unfoldable pub feed_callback : ℕ → List ℕ → DataFlowTracer → Option DataFlowTracer
  feed_callback p evm t = do d ← lookup p t.inner; run_callback p evm t d d.callback

  -- The flow function of the opcode, with its arguments popped and its results unset.
  unfoldable pub apply_policy :
      Operation → ℕ → ℕ → Scope → ℕ → DataFlowTracer → Option DataFlowTracer
  apply_policy op pops pushes scope p t = do
    d ← lookup p t.inner
    popped ← pop pops d.stack
    policy ← gen_default_flow_policy op.opcode
    ran ←
        flow a fuel op scope.evm popped.0 policy
          (trackers t (record d { stack = popped.1 }) (replicate pushes none))
    let c : Callback = record { hook = ran.0; results = ran.1.results }
    some (put_trackers p ran.1.stack (some c) ran.1 t)

  unfoldable pub capture_state :
      InstructionSet → ℕ → ℕ → ℕ → ℕ → Scope → DataFlowTracer → Option DataFlowTracer
  capture_state instructions pc op gas cost scope t = do
    p ← top t.nested.stack
    fed ← feed_callback p scope.evm t
    nested ← Nested.capture_state pc op gas cost fed.nested
    c ← Nested.current_msg_call nested
    args ← operands (get_stack_effects instructions op).0 scope.evm
    apply_policy (operation op args scope nested c) (get_stack_effects instructions op).0
        (get_stack_effects instructions op).1 scope p (record fed { nested = nested })

-- The call data of a new message call: what the call operation prepared, or else a new call.
unfoldable pub child_data : DataFlowTracer → InnerData → MsgCall → MsgCall → Address → List Call × ℕ
child_data t d parent c to =
    let made : List Call × ℕ = (
      t.calls
          ++ new_call (gen_child_position t.nested.calls parent (is_precompiled_contract to)) ∷ [],
      length t.calls,
    ) in
    elim d.child_call as (λ _. List Call × ℕ) [
      | none ↦ made
      | some q ↦ elim (get_elem? t.calls q) as (λ _. List Call × ℕ) [
        | none ↦ made
        | some prepared ↦ if match_msg_call prepared c.position then (t.calls, q) else made
      ]
    ]

-- The storage of an account, registered at its first call.
unfoldable pub storage_of : Address → DataFlowTracer → DataFlowTracer × ℕ
storage_of addr t = elim (lookup addr t.global_storages) as (λ _. DataFlowTracer × ℕ) [
  | some q ↦ (t, q)
  | none ↦ (
    record t {
      storages = t.storages ++ [] ∷ [];
      global_storages = insert addr (length t.storages) t.global_storages;
    },
    length t.storages,
  )
]

unfoldable pub new_data : ℕ → ℕ → InnerData
new_data storage call = record {
  stack = [];
  memory = [];
  storage = storage;
  call = call;
  child_call = none;
  callback = none;
}

-- The collection of a new message call `c` at the pointer `p`, by the data of its parent.
unfoldable pub put_collection :
    Address → Nested.Tracer → ℕ → MsgCall → MsgCall → InnerData → DataFlowTracer → DataFlowTracer
put_collection to nested p c parent d t =
    let made : List Call × ℕ = child_data (record t { nested = nested }) d parent c to in
    let found : DataFlowTracer × ℕ =
      storage_of c.state_addr (record t { nested = nested; calls = made.0 }) in
    record (found.0) { inner = insert p (new_data (found.1) (made.1)) t.inner }

unfoldable pub capture_enter :
    ℕ → Address → Address → List ℕ → Option ℕ → DataFlowTracer → Option DataFlowTracer
capture_enter typ from to input value t = do
  nested ← Nested.capture_enter typ from to input value t.nested
  p ← top nested.stack
  c ← get_elem? nested.calls p
  q ← c.parent
  parent ← get_elem? nested.calls q
  d ← lookup q t.inner
  some (put_collection to nested p c parent d t)

unfoldable pub capture_exit : ExecutionResult → DataFlowTracer → Option DataFlowTracer
capture_exit r t = do nested ← Nested.capture_exit r t.nested; some (record t { nested = nested })

unfoldable pub transaction_start :
    (Address → ℕ → Address)
    → ℕ
    → Address
    → Option Address
    → List ℕ
    → ℕ
    → DataFlowTracer
    → Option DataFlowTracer
transaction_start create_address nonce from to input value t = do
  let nested = Nested.transaction_start create_address nonce from to input value t.nested
  let root = new_call (record { position = []; compact_position = [] })
  p ← top nested.stack
  some (record t {
    nested = nested;
    inner = insert p (new_data (length t.storages) (length t.calls)) t.inner;
    calls = t.calls ++ root ∷ [];
    storages = t.storages ++ [] ∷ [];
    chain = record { balances = []; codes = [] };
    global_storages = [];
  })

unfoldable pub transaction_end : ExecutionResult → Option ℕ → DataFlowTracer → Option DataFlowTracer
transaction_end r receipt t = do
  nested ← Nested.transaction_end r receipt t.nested
  p ← top nested.stack
  some (record t { nested = nested; inner = erase p t.inner })
