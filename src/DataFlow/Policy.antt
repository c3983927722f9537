-- ===== src/DataFlow/Policy.antt =====
-- The state that the flow functions of analysis/data_flow/policy.go work on, for one analyzer
-- (DataFlowTracer keeps them apart), and the actions that they are made of. An action gives
-- `none` where the Go code panics, or where a loop over memory words does not end within the fuel.
pub mod Flows
pub mod Table
pub mod Rules
pub mod Depth
pub mod Balanced
pub mod Effects
mod Tests
use erebus_redgiant.Prelude.{
  ℕ, zero, suc, ◌+◌, ◌-◌, ◌%◌, ◌^◌, ◌≤◌, Bool, true, false, Option, none, some, List, [], ◌∷◌, ◌++◌,
  length, get_elem?, set, take, drop, ltb, leb, ◌==◌, if◌then◌else◌, Address, Hash, map,
}
use erebus_redgiant.Tracers.Position.{CallPosition}
use erebus_redgiant.DataFlow.Node.{FlowNode, Store, new_raw_flow_node, add_upstream, is_tainted}
use erebus_redgiant.DataFlow.Stack.{peek, swap}
use erebus_redgiant.DataFlow.Memory.{Memory, load, store, clear, store_call_data}
use erebus_redgiant.DataFlow.Call.{Call, Chain, Storage, new_call, set_flow_source}

-- Operation of value.go: its ID and opcode by number, the arguments with the top-most last, and of
-- its message call the contract, the code address and the positions of calls made by it.
pub record Operation : Type 0 where
  pub id : ℕ
  pub opcode : ℕ
  pub arguments : List ℕ
  pub contract : Address
  pub code_addr : Address
  pub child_position : Bool → CallPosition

-- Operation.Arg; none is the panic of an index out of range.
unfoldable pub arg : Operation → ℕ → Option ℕ
arg op i =
    if ltb i (length op.arguments)
    then get_elem? op.arguments (length op.arguments - i - 1)
    else none

-- What the analyzers implement: the label of their nodes, and which operations are a source and
-- which a sink of the flow.
pub record Analyzer : Type 0 where
  pub label : ℕ
  pub is_source : Operation → Bool
  pub is_sink : Operation → Bool

-- Calls and storages are objects behind pointers, which are numbers of places in a list. `results`
-- is stackResults, `sinks` the nodes that SinkTainted was called with.
pub record Trackers : Type 0 where
  pub nodes : Store
  pub calls : List Call
  pub storages : List Storage
  pub chain : Chain
  pub sinks : List FlowNode
  pub stack : List FlowNode
  pub memory : Memory
  pub storage : ℕ
  pub call : ℕ
  pub child_call : Option ℕ
  pub results : List FlowNode

abbrev pub M : Type 0 → Type 0
M A = Trackers → Option (A × Trackers)

unfoldable pub pure : {A : Type 0} → A → M A
pure a s = some (a, s)

infixl 5 ◌>>=◌ ◌>>◌
unfoldable pub ◌>>=◌ : {A B : Type 0} → M A → (A → M B) → M B
◌>>=◌ m f s = elim (m s) [ none ↦ none | some (a, s') ↦ f a s' ]

abbrev pub ◌>>◌ : {B : Type 0} → M (Unit {0}) → M B → M B
m >> k = m >>= λ _. k

unfoldable pub when : Bool → M (Unit {0}) → M (Unit {0})
when true m = m
when false m = pure tt

-- A value that the code reads from the state, or a panic.
unfoldable pub lift : {A : Type 0} → Option A → M A
lift none s = none
lift (some a) s = some (a, s)

unfoldable pub gets : {A : Type 0} → (Trackers → A) → M A
gets f s = some (f s, s)

unfoldable pub gets_some : {A : Type 0} → (Trackers → Option A) → M A
gets_some f s = elim (f s) [ none ↦ none | some a ↦ some (a, s) ]

unfoldable pub modify : (Trackers → Trackers) → M (Unit {0})
modify f s = some (tt, f s)

unfoldable pub modify_some :
    {X : Type 0} → (Trackers → Option X) → (X → Trackers → Trackers) → M (Unit {0})
modify_some f g s = elim (f s) [ none ↦ none | some x ↦ some (tt, g x s) ]

-- scope.Stack.Back
unfoldable pub back : List ℕ → ℕ → M ℕ
back evm i = lift (if ltb i (length evm) then get_elem? evm (length evm - i - 1) else none)

-- Uint64, Bytes20 of a word.
abbrev pub uint64 : ℕ → ℕ
uint64 v = v % 2 ^ 64

abbrev pub bytes20 : ℕ → Address
bytes20 v = v % 2 ^ 160

-- FlowNodeList.Back and BackSlice.
unfoldable pub back_node : List FlowNode → ℕ → M FlowNode
back_node l i = lift (if ltb i (length l) then get_elem? l (length l - i - 1) else none)

unfoldable pub back_slice : List FlowNode → ℕ → M (List FlowNode)
back_slice l from = lift (if leb from (length l) then some (take (length l - from) l) else none)

unfoldable pub back_slice_to : List FlowNode → ℕ → ℕ → M (List FlowNode)
back_slice_to l from to = lift (
    if leb from to
    then if leb to (length l) then some (take (to - from) (drop (length l - to) l)) else none
    else none)

-- AddUpstream on a node.
unfoldable pub add_upstreams : FlowNode → List FlowNode → Store → Store
add_upstreams none l nodes = nodes
add_upstreams (some p) l nodes = add_upstream p l nodes

unfoldable pub upstream_of : FlowNode → List FlowNode → M (Unit {0})
upstream_of n l = modify (λ s. record s { nodes = add_upstreams n l s.nodes })

unfoldable pub put_result : FlowNode → List FlowNode → Option (List FlowNode)
put_result v [] = none
put_result v (x ∷ xs) = some (v ∷ xs)

-- `stackResults[0] = v`
unfoldable pub set_result : FlowNode → M (Unit {0})
set_result v = modify_some (λ s. put_result v s.results) (λ r s. record s { results = r })

unfoldable pub stack_get : ℕ → M FlowNode
stack_get i = gets_some (λ s. peek i s.stack)

unfoldable pub stack_swap : ℕ → M (Unit {0})
stack_swap i = modify_some (λ s. swap i s.stack) (λ t s. record s { stack = t })

unfoldable pub sink_tainted : FlowNode → M (Unit {0})
sink_tainted n = modify (λ s. record s { sinks = s.sinks ++ n ∷ [] })

unfoldable pub on_chain : (Chain → Chain) → M (Unit {0})
on_chain f = modify (λ s. record s { chain = f s.chain })

-- The storage of the call.
unfoldable pub current_storage : M Storage
current_storage = gets_some (λ s. get_elem? s.storages s.storage)

unfoldable pub on_storage : (Storage → Storage) → M (Unit {0})
on_storage f =
    modify_some (λ s. get_elem? s.storages s.storage)
      (λ t s. record s { storages = set s.storages s.storage (f t) })

-- A call object by its pointer; a nil pointer is a panic.
unfoldable pub call_at : Option ℕ → Trackers → Option Call
call_at none s = none
call_at (some p) s = get_elem? s.calls p

unfoldable pub current_call : M Call
current_call = gets_some (λ s. call_at (some s.call) s)

unfoldable pub child_call : M Call
child_call = gets_some (λ s. call_at s.child_call s)

unfoldable pub on_current_call : (Call → Option Call) → M (Unit {0})
on_current_call f =
    modify_some (λ s. elim (call_at (some s.call) s) [ none ↦ none | some c ↦ f c ])
      (λ c s. record s { calls = set s.calls s.call c })

-- `collection.ChildCall = call`, a new object.
unfoldable pub put_child_call : Call → M (Unit {0})
put_child_call c =
    modify (λ s. record s { calls = s.calls ++ c ∷ []; child_call = some (length s.calls) })

-- The operations of memory.go on the tracker's memory.
module _ (fuel : ℕ) where
  unfoldable pub memory_load : ℕ → ℕ → M (List FlowNode)
  memory_load start length = gets_some λ s. elim (load fuel start length s.memory) [
    | none ↦ none
    | some l ↦ some (map (λ p. some p) l)
  ]

  unfoldable pub memory_store : ℕ → ℕ → FlowNode → M (Unit {0})
  memory_store start length v =
      modify_some (λ s. store fuel start length v s.memory s.nodes)
        (λ x s. record s { memory = x.0; nodes = x.1 })

  unfoldable pub memory_clear : ℕ → ℕ → M (Unit {0})
  memory_clear start length = memory_store start length none

  -- StoreCallData and StoreCallReturnData, from a map of a call.
  unfoldable pub memory_copy : Memory → ℕ → ℕ → ℕ → M (Unit {0})
  memory_copy source dest offset length =
      modify_some (λ s. store_call_data fuel source dest offset length s.memory s.nodes)
        (λ x s. record s { memory = x.0; nodes = x.1 })

module _ (a : Analyzer) where
  -- analyzer.NewFlowNode
  unfoldable pub new_flow_node : Operation → M FlowNode
  new_flow_node op s =
      let (p, nodes) = new_raw_flow_node op.id a.label s.nodes in
      some (some p, record s { nodes = nodes })

  -- `stackResults[0] = analyzer.NewFlowNode(operation)`
  unfoldable pub fresh_result : Operation → M (Unit {0})
  fresh_result op = do n ← new_flow_node op; set_result n
