-- ===== src/DataFlow/Memory.antt =====
-- analysis/data_flow/memory.go: taint of the EVM memory, kept for whole words of 32 bytes. Addresses
-- are uint64, and their sums wrap. A loop over words is the list of the addresses that it visits,
-- `word_range`, and a body for one word; the list takes fuel, since a wrapping sum may loop for ever.
pub mod Words
pub mod Merging
pub mod Stores
use erebus_redgiant.Prelude.{
  ℕ, zero, suc, ◌+◌, ◌-◌, ◌%◌, ◌^◌, Bool, true, false, ◌&&◌, ◌||◌, Option, none, some, List, [],
  ◌∷◌, ltb, ◌==◌, nat_eq, if◌then◌else◌,
}
use erebus_redgiant.Prelude.Map.{lookup, insert}
use erebus_redgiant.DataFlow.Node.{
  FlowNode, Store, node_at, memory_merge, new_raw_flow_node, add_upstream,
}

abbrev pub granularity : ℕ
granularity = 32

-- uint64 arithmetic.
abbrev pub u64 : ℕ → ℕ
u64 n = n % 2 ^ 64

unfoldable pub regulate : ℕ → ℕ
regulate index = index - index % granularity

-- map[uint64]FlowNode.
abbrev pub Memory : Type 0
Memory = List (ℕ × FlowNode)

-- A missing word reads as nil.
abbrev pub or_nil : Option FlowNode → FlowNode
or_nil none = none
or_nil (some v) = v

unfoldable pub read : Memory → ℕ → FlowNode
read mem i = or_nil (lookup i mem)

-- The values of `i` in `for i := from; i < end; i += 32`.
unfoldable pub word_range : ℕ → ℕ → ℕ → Option (List ℕ)
word_range zero i end = none
word_range (suc fuel) i end =
    let rest = elim (word_range fuel (u64 (i + granularity)) end) as (λ _. Option (List ℕ)) [
      | none ↦ none
      | some ws ↦ some (i ∷ ws)
    ] in
    if ltb i end then rest else some []

unfoldable pub tainted_words : (ℕ → FlowNode) → List ℕ → List ℕ
tainted_words at [] = []
tainted_words at (i ∷ ws) =
    let rest = tainted_words at ws in elim (at i) [ none ↦ rest | some p ↦ p ∷ rest ]

unfoldable pub load : ℕ → ℕ → ℕ → Memory → Option (List ℕ)
load fuel start length mem =
    if length == 0
    then some []
    else elim (word_range fuel (regulate start) (u64 (start + length))) [
      | none ↦ none
      | some ws ↦ some (tainted_words (read mem) ws)
    ]

-- A new "memory_merge" node for the operation of `value`, over `value` and the old node.
unfoldable pub merge_node : ℕ → ℕ → Store → ℕ × Store
merge_node value old store =
    let (node, store') = new_raw_flow_node (node_at store value).operation memory_merge store in
    (node, add_upstream node (some value ∷ some old ∷ []) store')

-- What a write puts into one word: `partial` says that it covers the word in part.
unfoldable pub write_word : Bool → FlowNode → FlowNode → Store → FlowNode × Store
write_word false old value store = (value, store)
write_word true none value store = (value, store)
write_word true (some p) none store = (some p, store)
write_word true (some p) (some v) store = let (n, store') = merge_node v p store in (some n, store')

-- `i < start || i + 32 > start + length`.
abbrev pub is_partial : ℕ → ℕ → ℕ → Bool
is_partial start length i = ltb i start || ltb (u64 (start + length)) (u64 (i + granularity))

unfoldable pub store_words : ℕ → ℕ → FlowNode → List ℕ → Memory → Store → Memory × Store
store_words start length value [] mem nodes = (mem, nodes)
store_words start length value (i ∷ ws) mem nodes =
    let (v, nodes') = write_word (is_partial start length i) (read mem i) value nodes in
    store_words start length value ws (insert i v mem) nodes'

unfoldable pub store : ℕ → ℕ → ℕ → FlowNode → Memory → Store → Option (Memory × Store)
store fuel start length value mem nodes =
    if length == 0
    then some (mem, nodes)
    else elim (word_range fuel (regulate start) (u64 (start + length))) [
      | none ↦ none
      | some ws ↦ some (store_words start length value ws mem nodes)
    ]

unfoldable pub clear : ℕ → ℕ → ℕ → Memory → Store → Option (Memory × Store)
clear fuel start length mem nodes = store fuel start length none mem nodes

unfoldable pub get : Memory → ℕ → FlowNode
get mem index = read mem (regulate index)

-- `Set` shadows the node it was given by the merge node: that becomes its own upstream.
unfoldable pub set_merge_node : ℕ → ℕ → Store → ℕ × Store
set_merge_node value old nodes =
    let (node, nodes') = new_raw_flow_node (node_at nodes value).operation memory_merge nodes in
    (node, add_upstream node (some node ∷ some old ∷ []) nodes')

abbrev set_word : Bool → FlowNode → FlowNode → Store → FlowNode × Store
set_word false old value nodes = (value, nodes)
set_word true none value nodes = (value, nodes)
set_word true (some p) none nodes = (some p, nodes)
set_word true (some p) (some v) nodes =
    let (n, nodes') = set_merge_node v p nodes in (some n, nodes')

unfoldable pub set : Memory → ℕ → FlowNode → Store → Memory × Store
set mem index value nodes =
    let i = regulate index in
    let (v, nodes') = set_word (ltb i index) (read mem i) value nodes in (insert i v mem, nodes')

-- StoreCallData and StoreCallReturnData: `source` is the call's map, read from `offset` on. There is
-- no test for an empty range.
unfoldable pub copy_words : ℕ → ℕ → Memory → ℕ → List ℕ → Memory → Store → Memory × Store
copy_words dest length source index [] mem nodes = (mem, nodes)
copy_words dest length source index (i ∷ ws) mem nodes =
    let (v, nodes') =
      write_word (is_partial dest length index) (read mem index) (read source i) nodes in
    copy_words dest length source (u64 (index + granularity)) ws (insert index v mem) nodes'

unfoldable pub store_call_data : ℕ → Memory → ℕ → ℕ → ℕ → Memory → Store → Option (Memory × Store)
store_call_data fuel source dest offset length mem nodes =
    elim (word_range fuel (regulate offset) (u64 (offset + length))) [
      | none ↦ none
      | some ws ↦ some (copy_words dest length source (regulate dest) ws mem nodes)
    ]
