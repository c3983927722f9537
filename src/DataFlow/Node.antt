-- ===== src/DataFlow/Node.antt =====
-- RawFlowNode and FlowNodeList of analysis/data_flow/value.go. Nodes are objects that are changed
-- after they are made; a node is the number of its place in a store that only grows, and nil,
-- UntaintedValue, is `none`.
pub mod Upstream
use erebus_redgiant.Prelude.{
  ℕ, ◌+◌, ◌≡◌, ◌↔◌, Bool, true, false, ◌&&◌, Option, none, some, List, [], ◌∷◌, ◌++◌, arith, ==_iff,
  length, get_elem?, set, ◌==◌, Eq, if◌then◌else◌,
}
use erebus_redgiant.Prelude.Map.{insert}

-- `label-operation`, the text that ID() prints; labels and operations are known by number.
abbrev pub NodeId : Type 0
NodeId = ℕ × ℕ

abbrev pub same_id : NodeId → NodeId → Bool
same_id x y = x.0 == y.0 && x.1 == y.1

pub same_id_iff : (x y : NodeId) → (same_id x y ≡ true) ↔ (x ≡ y)
same_id_iff x y = ground arith

instance abbrev pub node_id_eq : Eq NodeId
node_id_eq = record { beq = same_id; beq_iff = same_id_iff }

-- The label "memory_merge".
abbrev pub memory_merge : ℕ
memory_merge = 0

pub record RawFlowNode : Type 0 where
  pub label : ℕ
  pub operation : ℕ
  pub from : List (NodeId × ℕ)

abbrev pub Store : Type 0
Store = List RawFlowNode

abbrev pub FlowNode : Type 0
FlowNode = Option ℕ

-- A pointer that leads nowhere does not occur; it reads as the zero node.
abbrev pub node_at : Store → ℕ → RawFlowNode
node_at [] p = record { label = 0; operation = 0; from = [] }
node_at (n ∷ ns) p = elim (get_elem? (n ∷ ns) p) [
  | none ↦ record { label = 0; operation = 0; from = [] }
  | some m ↦ m
]

unfoldable pub id_of : Store → ℕ → NodeId
id_of store p = ((node_at store p).label, (node_at store p).operation)

unfoldable pub new_raw_flow_node : ℕ → ℕ → Store → ℕ × Store
new_raw_flow_node operation label store =
    (length store, store ++ record { label = label; operation = operation; from = [] } ∷ [])

-- `n.from[flowNode.ID()] = flowNode`, for each node of the list that is not nil.
unfoldable pub add_entries : Store → List FlowNode → List (NodeId × ℕ) → List (NodeId × ℕ)
add_entries store [] from = from
add_entries store (none ∷ nodes) from = add_entries store nodes from
add_entries store (some p ∷ nodes) from = add_entries store nodes (insert (id_of store p) p from)

-- `AddUpstream` on the node `n`. The identities are those that the nodes have before the call; the
-- call changes upstreams alone, so they do not move.
unfoldable pub add_upstream : ℕ → List FlowNode → Store → Store
add_upstream n nodes store = elim (get_elem? store n) [
  | none ↦ store
  | some node ↦ set store n (record node { from = add_entries store nodes node.from })
]

abbrev values : List (NodeId × ℕ) → List ℕ
values [] = []
values ((k, p) ∷ m) = p ∷ values m

-- `From()`: the upstream nodes. No nil is ever put into the map.
unfoldable pub upstream : Store → ℕ → List ℕ
upstream store n = values (node_at store n).from

-- IsTainted of a list: some element is not UntaintedValue.
unfoldable pub is_tainted : List FlowNode → Bool
is_tainted [] = false
is_tainted (none ∷ l) = is_tainted l
is_tainted (some p ∷ l) = true
