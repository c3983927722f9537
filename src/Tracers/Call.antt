-- ===== src/Tracers/Call.antt =====
-- dyengine/tracers/msgcall.go and the location record of location.go: one message call as the
-- tracers record it. Calls are objects behind pointers; a pointer is the index of the call in the
-- list of all calls made, so `*MsgCall` is `ℕ`.
use erebus_redgiant.Prelude.{
  ℕ, ◌+◌, Bool, true, false, Option, none, some, List, [], ◌∷◌, ◌++◌, length, get_elem?,
  if◌then◌else◌, Address,
}
use erebus_redgiant.Tracers.Position.{CallPosition}

pub record Location : Type 0 where
  pub pos : CallPosition
  pub code_addr : Address
  pub pc : ℕ
  pub opcode : ℕ
  pub gas_available : ℕ
  pub gas_used : ℕ
  pub index : ℕ

-- `code_addr` and `call_site` are nil where the caller is an externally owned account.
pub record MsgCallCaller : Type 0 where
  pub code_addr : Option Address
  pub state_addr : Address
  pub call_site : Option Location

-- core.ExecutionResult; an error is known by its number.
pub record ExecutionResult : Type 0 where
  pub err : Option ℕ
  pub used_gas : ℕ
  pub return_data : List ℕ

-- The receipt is go-ethereum's object, known by its number.
pub record MsgCall : Type 0 where
  pub position : CallPosition
  pub result : Option ExecutionResult
  pub receipt : Option ℕ
  pub opcode : ℕ
  pub caller : MsgCallCaller
  pub precompiled : Bool
  pub code_addr : Address
  pub state_addr : Address
  pub input : List ℕ
  pub value : ℕ
  pub parent : Option ℕ
  pub nested_calls : List ℕ
  pub current_location : Option Location

abbrev pub is_root : MsgCall → Bool
is_root c = elim c.caller.code_addr [ none ↦ true | some _ ↦ false ]

-- `len(lo.Filter(nested, !c.Precompiled))`, over the list of all calls.
unfoldable pub count_contracts : List MsgCall → List ℕ → ℕ
count_contracts calls [] = 0
count_contracts calls (p ∷ ps) =
    let rest = count_contracts calls ps in
    elim (get_elem? calls p) [ none ↦ rest | some c ↦ if c.precompiled then rest else rest + 1 ]

unfoldable pub gen_child_position : List MsgCall → MsgCall → Bool → CallPosition
gen_child_position calls c is_precompiled = record {
  position = c.position.position ++ length c.nested_calls ∷ [];
  compact_position =
      if is_precompiled
      then c.position.compact_position
      else c.position.compact_position ++ count_contracts calls c.nested_calls ∷ [];
}
