-- ===== src/DataFlow/Node/Upstream.antt =====
-- What a "memory_merge" node of value.go and memory.go records of the nodes that it joins.
use erebus_redgiant.Prelude.{
  ℕ, ◌<◌, ◌≡◌, ◌≢◌, refl, ap, some, List, [], ◌∷◌, ◌++◌, arith, length, set, get_elem?-append_left,
  get_elem?-length_append,
}
use erebus_redgiant.Prelude.Map.{lookup, insert}
use erebus_redgiant.DataFlow.Node.{
  same_id_iff, node_id_eq, RawFlowNode, Store, node_at, id_of, add_entries, new_raw_flow_node,
  add_upstream,
}

node_at-append :
    (store : Store) (n : RawFlowNode) (p : ℕ)
    → p < length store
    → node_at (store ++ n ∷ []) p ≡ node_at store p
node_at-append [] n p h = absurd (omega arith)
node_at-append (m ∷ ms) n p h = ground (arith, get_elem?-append_left (m ∷ ms) (n ∷ []) p h)

id_of-append :
    (store : Store) (n : RawFlowNode) (p : ℕ)
    → p < length store
    → id_of (store ++ n ∷ []) p ≡ id_of store p
unfolding id_of
id_of-append store n p h = rw (node_at-append store n p h)

set-length_append {ℓ} :
    {A : Type ℓ} (xs : List A) (x y : A) → set (xs ++ x ∷ []) (length xs) y ≡ xs ++ y ∷ []
set-length_append [] x y = refl
set-length_append (z ∷ xs) x y = ap (λ l. z ∷ l) (set-length_append xs x y)

-- The node that joins `v` and `p`: the older node's entry is written last.
abbrev pub joined : Store → ℕ → ℕ → ℕ → ℕ → RawFlowNode
joined store label operation v p = record {
  label = label;
  operation = operation;
  from = insert (id_of store p) p (insert (id_of store v) v []);
}

entries-new :
    (store : Store) (n : RawFlowNode) (v p : ℕ)
    → v < length store
    → p < length store
    → add_entries (store ++ n ∷ []) (some v ∷ some p ∷ []) []
      ≡ insert (id_of store p) p (insert (id_of store v) v [])
unfolding add_entries
entries-new store n v p hv hp = rw (id_of-append store n v hv, id_of-append store n p hp)

-- A new node that is given two older nodes as its upstream.
pub add_upstream-new :
    (store : Store) (label operation v p : ℕ)
    → v < length store
    → p < length store
    → let (n, store') = new_raw_flow_node operation label store in
      add_upstream n (some v ∷ some p ∷ []) store' ≡ store ++ joined store label operation v p ∷ []
unfolding new_raw_flow_node add_upstream
add_upstream-new store label operation v p hv hp =
    let n : RawFlowNode = record { label = label; operation = operation; from = [] } in
    rw (get_elem?-length_append store [] n, add_upstream, set-length_append store n)
      (ap (λ from. store ++ record { label = label; operation = operation; from = from } ∷ [])
        (entries-new store n v p hv hp))

-- With different identities both nodes are upstream of the joined one.
pub joined_both :
    (store : Store) (label operation v p : ℕ)
    → id_of store v ≢ id_of store p
    → (lookup (id_of store v) (joined store label operation v p).from ≡ some v)
      × (lookup (id_of store p) (joined store label operation v p).from ≡ some p)
unfolding lookup insert
joined_both store label operation v p h = ground (
  arith,
  same_id_iff (id_of store v) (id_of store p),
  same_id_iff (id_of store p) (id_of store p),
  same_id_iff (id_of store v) (id_of store v),
  same_id_iff (id_of store p) (id_of store v),
)

-- With one identity for both, the older node alone is upstream: the written value is lost.
pub joined_lost :
    (store : Store) (label operation v p : ℕ)
    → id_of store v ≡ id_of store p
    → (joined store label operation v p).from ≡ (id_of store p, p) ∷ []
unfolding insert
joined_lost store label operation v p h =
    ground (arith, same_id_iff (id_of store v) (id_of store p))
