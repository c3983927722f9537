-- ===== src/Tracers/Nested.antt =====
-- BasicNestedCallTracer of dyengine/tracers/nested.go. `none` is a panic: a nil current call or an
-- empty stack is dereferenced. The stack holds pointers, its top first.
pub mod Chain
pub mod Creation
pub mod Ordering
pub mod Total
use erebus_redgiant.Prelude.{
  ℕ, suc, ◌+◌, ◌≡◌, Bool, true, false, ◌||◌, Option, none, some, List, [], ◌∷◌, ◌++◌, length,
  get_elem?, set, ◌==◌, leb, if◌then◌else◌, Address,
}
use erebus_redgiant.Tracers.Position.{CallPosition}
use erebus_redgiant.Tracers.Call.{
  Location, MsgCallCaller, ExecutionResult, MsgCall, gen_child_position,
}

-- vm.CREATE, vm.CALL, vm.CALLCODE, vm.DELEGATECALL, vm.CREATE2 and vm.STATICCALL.
abbrev pub op_create : ℕ
op_create = 0xf0

abbrev pub op_call : ℕ
op_call = 0xf1

abbrev pub op_callcode : ℕ
op_callcode = 0xf2

abbrev pub op_delegatecall : ℕ
op_delegatecall = 0xf4

abbrev pub op_create2 : ℕ
op_create2 = 0xf5

abbrev pub op_staticcall : ℕ
op_staticcall = 0xfa

pub record Tracer : Type 0 where
  pub calls : List MsgCall
  pub stack : List ℕ
  pub total_operations : ℕ

-- A new(BasicNestedCallTracer).
abbrev pub fresh : Tracer
fresh = record { calls = []; stack = []; total_operations = 0 }

abbrev pub top : List ℕ → Option ℕ
top [] = none
top (p ∷ ps) = some p

unfoldable pub current_msg_call : Tracer → Option MsgCall
current_msg_call t = elim (top t.stack) [ none ↦ none | some p ↦ get_elem? t.calls p ]

unfoldable pub capture_state : ℕ → ℕ → ℕ → ℕ → Tracer → Option Tracer
capture_state pc op gas cost t = elim (top t.stack) [
  | none ↦ none
  | some p ↦ elim (get_elem? t.calls p) [
    | none ↦ none
    | some c ↦
        let here : Location = record {
          pos = c.position;
          code_addr = c.code_addr;
          pc = pc;
          opcode = op;
          gas_available = gas;
          gas_used = cost;
          index = t.total_operations;
        } in
        some (record t {
          calls = set t.calls p (record c { current_location = some here });
          total_operations = t.total_operations + 1;
        })
  ]
]

-- The account whose storage the callee works on; no case of the switch leaves the zero address.
unfoldable pub context_address : ℕ → Address → Address → Address
context_address typ from to =
    if typ == op_call || (typ == op_create || (typ == op_create2 || typ == op_staticcall))
    then to
    else if typ == op_callcode || typ == op_delegatecall
    then from
    else 0

abbrev pub value_or_zero : Option ℕ → ℕ
value_or_zero none = 0
value_or_zero (some v) = v

-- helpers/contract.go: an address of one byte.
unfoldable pub is_precompiled_contract : Address → Bool
is_precompiled_contract addr = leb addr 255

unfoldable pub capture_enter : ℕ → Address → Address → List ℕ → Option ℕ → Tracer → Option Tracer
unfolding context_address gen_child_position is_precompiled_contract
capture_enter typ from to input value t = elim (top t.stack) [
  | none ↦ none
  | some p ↦ elim (get_elem? t.calls p) [
    | none ↦ none
    | some c ↦
        let child : MsgCall = record {
          position = gen_child_position t.calls c (is_precompiled_contract to);
          result = none;
          receipt = none;
          opcode = typ;
          caller = record {
            code_addr = some c.code_addr;
            state_addr = c.state_addr;
            call_site = c.current_location;
          };
          precompiled = is_precompiled_contract to;
          code_addr = to;
          state_addr = context_address typ from to;
          input = input;
          value = value_or_zero value;
          parent = some p;
          nested_calls = [];
          current_location = none;
        } in
        let fresh_pointer = length t.calls in
        some (record t {
          calls =
              set t.calls p (record c { nested_calls = c.nested_calls ++ fresh_pointer ∷ [] })
              ++ child ∷ [];
          stack = fresh_pointer ∷ t.stack;
        })
  ]
]

-- The root call. `create_address` is crypto.CreateAddress, and `nonce` the sender's nonce.
unfoldable pub transaction_start :
    (Address → ℕ → Address) → ℕ → Address → Option Address → List ℕ → ℕ → Tracer → Tracer
unfolding is_precompiled_contract
transaction_start create_address nonce from to input value t =
    let contract : Address = elim to [ none ↦ create_address from nonce | some a ↦ a ] in
    let root : MsgCall = record {
      position = record { position = []; compact_position = [] };
      result = none;
      receipt = none;
      opcode = elim to [ none ↦ op_create | some a ↦ op_call ];
      caller = record { code_addr = none; state_addr = from; call_site = none };
      precompiled = is_precompiled_contract contract;
      code_addr = contract;
      state_addr = contract;
      input = input;
      value = value;
      parent = none;
      nested_calls = [];
      current_location = none;
    } in
    record t { calls = t.calls ++ root ∷ []; stack = length t.calls ∷ t.stack }

unfoldable pub capture_exit : ExecutionResult → Tracer → Option Tracer
capture_exit r t = elim t.stack [
  | [] ↦ none
  | p ∷ ps ↦ elim (get_elem? t.calls p) [
    | none ↦ none
    | some c ↦ some (record t { calls = set t.calls p (record c { result = some r }); stack = ps })
  ]
]

-- `transaction_end` leaves the root call on the stack.
unfoldable pub transaction_end : ExecutionResult → Option ℕ → Tracer → Option Tracer
transaction_end r receipt t = elim (top t.stack) [
  | none ↦ none
  | some p ↦ elim (get_elem? t.calls p) [
    | none ↦ none
    | some c ↦
        some (record t { calls = set t.calls p (record c { result = some r; receipt = receipt }) })
  ]
]
