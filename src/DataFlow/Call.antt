-- ===== src/DataFlow/Call.antt =====
-- analysis/data_flow/call.go, storage.go and chain.go: the taint of what passes between message
-- calls. A call is an object behind a pointer; its maps are those of memory.go.
use erebus_redgiant.Prelude.{
  ℕ, zero, suc, ◌+◌, Bool, true, false, Option, none, some, List, [], ◌∷◌, ltb, ◌==◌, nat_eq,
  if◌then◌else◌, Address, Hash, map,
}
use erebus_redgiant.Prelude.Map.{lookup, insert}
use erebus_redgiant.Tracers.Position.{CallPosition, call_cmp}
use erebus_redgiant.Prelude.Int.{pos, negsuc}
use erebus_redgiant.DataFlow.Node.{FlowNode, Store, upstream}
use erebus_redgiant.DataFlow.Memory.{
  Memory, granularity, u64, regulate, or_nil, read, word_range, tainted_words,
}

pub record Call : Type 0 where
  pub position : CallPosition
  pub value : FlowNode
  pub payload : Memory
  pub return_data : Memory
  pub success : FlowNode
  pub source : FlowNode

unfoldable pub new_call : CallPosition → Call
new_call p = record {
  position = p;
  value = none;
  payload = [];
  return_data = [];
  success = none;
  source = none;
}

unfoldable pub set_flow_source : FlowNode → Call → Call
set_flow_source v c = record c { source = v }

unfoldable pub match_msg_call : Call → CallPosition → Bool
match_msg_call c p = elim (call_cmp c.position p) [ pos n ↦ n == 0 | negsuc n ↦ false ]

-- The values of `i` in `for i := 0; start+i < end; i += 32`.
unfoldable pub offset_range : ℕ → ℕ → ℕ → ℕ → Option (List ℕ)
offset_range zero start i end = none
offset_range (suc fuel) start i end =
    let rest =
      elim (offset_range fuel start (u64 (i + granularity)) end) as (λ _. Option (List ℕ)) [
        | none ↦ none
        | some ws ↦ some (i ∷ ws)
      ] in
    if ltb (u64 (start + i)) end then rest else some []

-- `to[i] = memory.mem[start+i]` for each of the offsets.
unfoldable pub copy_offsets : Memory → ℕ → List ℕ → Memory → Memory
copy_offsets mem start [] to = to
copy_offsets mem start (i ∷ is) to =
    copy_offsets mem start is (insert i (read mem (u64 (start + i))) to)

-- The loop of StoreData and StoreReturnData.
unfoldable pub copy_from_memory : ℕ → Memory → ℕ → ℕ → Memory → Option Memory
copy_from_memory fuel mem offset length to =
    if length == 0
    then some to
    else elim (offset_range fuel (regulate offset) 0 (u64 (offset + length))) [
      | none ↦ none
      | some is ↦ some (copy_offsets mem (regulate offset) is to)
    ]

unfoldable pub store_data : ℕ → Memory → ℕ → ℕ → Call → Option Call
store_data fuel mem offset length c = elim (copy_from_memory fuel mem offset length c.payload) [
  | none ↦ none
  | some m ↦ some (record c { payload = m })
]

unfoldable pub store_return_data : ℕ → Memory → ℕ → ℕ → Call → Option Call
store_return_data fuel mem offset length c =
    elim (copy_from_memory fuel mem offset length c.return_data) [
      | none ↦ none
      | some m ↦ some (record c { return_data = m })
    ]

-- The flow source stands for a list with no tainted value.
unfoldable pub or_source : FlowNode → List ℕ → List FlowNode
or_source none [] = []
or_source (some p) [] = some p ∷ []
or_source source (q ∷ ps) = map (λ p. some p) (q ∷ ps)

-- The loop of GetData and GetReturnData.
unfoldable pub get_words : ℕ → Memory → FlowNode → ℕ → ℕ → Option (List FlowNode)
get_words fuel m source start length =
    if length == 0
    then some []
    else elim (word_range fuel (regulate start) (u64 (start + length))) [
      | none ↦ none
      | some ws ↦ some (or_source source (tainted_words (read m) ws))
    ]

unfoldable pub get_data : ℕ → ℕ → ℕ → Call → Option (List FlowNode)
get_data fuel start length c = get_words fuel c.payload c.source start length

unfoldable pub get_return_data : ℕ → ℕ → ℕ → Call → Option (List FlowNode)
get_return_data fuel start length c = get_words fuel c.return_data c.source start length

unfoldable pub get_success : Call → FlowNode
get_success c = elim c.success [ some p ↦ some p | none ↦ c.source ]

unfoldable pub tainted_values : Memory → List ℕ
tainted_values [] = []
tainted_values ((i, none) ∷ m) = tainted_values m
tainted_values ((i, some p) ∷ m) = p ∷ tainted_values m

unfoldable pub get_all_return_data : Call → List FlowNode
get_all_return_data c = or_source c.source (tainted_values c.return_data)

-- Whether some of the nodes has an upstream.
unfoldable pub some_derived : Store → List ℕ → Bool
some_derived nodes [] = false
some_derived nodes (p ∷ ps) =
    let rest = some_derived nodes ps in elim (upstream nodes p) [ [] ↦ rest | q ∷ qs ↦ true ]

unfoldable pub return_data_is_tainted : Store → Call → Bool
return_data_is_tainted nodes c = some_derived nodes (tainted_values c.return_data)

-- storage.go
abbrev pub Storage : Type 0
Storage = List (Hash × FlowNode)

unfoldable pub storage_load : Storage → Hash → FlowNode
storage_load s key = or_nil (lookup key s)

unfoldable pub storage_store : Hash → FlowNode → Storage → Storage
storage_store key value s = insert key value s

unfoldable pub storage_clear : Hash → Storage → Storage
storage_clear key s = storage_store key none s

-- chain.go
pub record Chain : Type 0 where
  pub balances : List (Address × FlowNode)
  pub codes : List (Address × FlowNode)

unfoldable pub get_balance : Chain → Address → FlowNode
get_balance c addr = or_nil (lookup addr c.balances)

unfoldable pub set_balance : Address → FlowNode → Chain → Chain
set_balance addr v c = record c { balances = insert addr v c.balances }

unfoldable pub get_code : Chain → Address → FlowNode
get_code c addr = or_nil (lookup addr c.codes)

unfoldable pub set_code : Address → FlowNode → Chain → Chain
set_code addr v c = record c { codes = insert addr v c.codes }
