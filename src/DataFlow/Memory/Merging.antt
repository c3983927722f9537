-- ===== src/DataFlow/Memory/Merging.antt =====
-- One word that Store of memory.go writes, on every branch of the loop's body, and the store of nodes.
use erebus_redgiant.Prelude.{
  ℕ, zero, suc, ◌≤◌, ◌<◌, ◌≡◌, refl, ◌∙◌, ap, sym, Bool, true, false, none, some, inl, inr, [], ◌∷◌,
  ◌++◌, arith, get_elem?, length, get_elem?-append_left, get_elem?-length_append, length-append,
  get_elem?-lt, nat_eq, Option-cases,
}
use erebus_redgiant.DataFlow.Node.{
  FlowNode, Store, RawFlowNode, node_at, id_of, memory_merge, new_raw_flow_node,
}
use erebus_redgiant.DataFlow.Node.Upstream.{joined, add_upstream-new}
use erebus_redgiant.DataFlow.Memory.{Memory, read, merge_node, write_word}

-- Every node of `old` is in `new`, at its place and unchanged.
abbrev pub Grows : Store → Store → Type 0
Grows old new =
    (length old ≤ length new) × ((q : ℕ) → q < length old → get_elem? new q ≡ get_elem? old q)

pub Grows-refl : (s : Store) → Grows s s
Grows-refl s = (omega arith, λ q h. refl)

pub Grows-trans : (r s t : Store) → Grows r s → Grows s t → Grows r t
Grows-trans r s t g h = (omega arith, λ q l. h.1 q (omega arith) ∙ g.1 q l)

Grows-append : (s : Store) (n : RawFlowNode) → Grows s (s ++ n ∷ [])
Grows-append s n =
    (omega (arith, length-append s (n ∷ [])), λ q h. get_elem?-append_left s (n ∷ []) q h)

merge_node_lem :
    (v p : ℕ) (nodes : Store)
    → v < length nodes
    → p < length nodes
    → merge_node v p nodes
      ≡ (length nodes, nodes ++ joined nodes memory_merge (node_at nodes v).operation v p ∷ [])
unfolding merge_node new_raw_flow_node
merge_node_lem v p nodes hv hp =
    ap (λ s. (length nodes, s))
      (add_upstream-new nodes memory_merge (node_at nodes v).operation v p hv hp)

abbrev pub IsNode : Store → FlowNode → Type 0
IsNode nodes none = Unit
IsNode nodes (some p) = p < length nodes

-- Every word of the memory holds nil or a node of the store.
abbrev pub IsValid : Store → Memory → Type 0
IsValid nodes mem = (j : ℕ) → IsNode nodes (read mem j)

pub IsNode-Grows : (r s : Store) (v : FlowNode) → Grows r s → IsNode r v → IsNode s v
IsNode-Grows r s none g h = tt
IsNode-Grows r s (some p) g h = omega arith

node_at-get : (s : Store) (q : ℕ) {n : RawFlowNode} → get_elem? s q ≡ some n → node_at s q ≡ n
node_at-get [] q h = absurd (ground arith)
node_at-get (m ∷ ms) q h = ground arith

node_at-Grows : (r s : Store) (q : ℕ) → Grows r s → q < length r → node_at s q ≡ node_at r q
node_at-Grows r s q g h = elim (Option-cases (get_elem? r q)) [
  | inl gone ↦ absurd (none_beyond r q gone h)
  | inr (n, e) ↦ node_at-get s q (g.1 q h ∙ e) ∙ sym (node_at-get r q e)
]
  where
    none_beyond : (r : Store) (q : ℕ) → get_elem? r q ≡ none → q < length r → ⊥
    none_beyond [] q e h = omega arith
    none_beyond (x ∷ xs) zero e h = ground arith
    none_beyond (x ∷ xs) (suc q) e h = none_beyond xs q e (omega arith)

joined-Grows :
    (r s : Store) (v p : ℕ)
    → Grows r s
    → v < length r
    → p < length r
    → joined s memory_merge (node_at s v).operation v p
      ≡ joined r memory_merge (node_at r v).operation v p
unfolding id_of
joined-Grows r s v p g hv hp = rw (node_at-Grows r s v g hv, node_at-Grows r s p g hp)

-- What a word holds after a write of `value`, by its coverage and what it held: a word covered in
-- full takes the value; one covered in part keeps its node if the value is nil, takes the value if
-- it held nil, and else holds a new "memory_merge" node over both.
abbrev pub WordIs : Bool → FlowNode → FlowNode → Store → Store → FlowNode → Type 0
WordIs false old value nodes nodes' result = result ≡ value
WordIs true none value nodes nodes' result = result ≡ value
WordIs true (some p) none nodes nodes' result = result ≡ some p
WordIs true (some p) (some v) nodes nodes' result =
    (n : ℕ) × (result ≡ some n)
    × (get_elem? nodes' n ≡ some (joined nodes memory_merge (node_at nodes v).operation v p))

pub WordIs-Grows :
    (partial : Bool) (old value : FlowNode) (r s t t' : Store) (result : FlowNode)
    → Grows r s
    → Grows t t'
    → IsNode r old
    → IsNode r value
    → WordIs partial old value s t result
    → WordIs partial old value r t' result
WordIs-Grows false old value r s t t' result g k ho hv w = w
WordIs-Grows true none value r s t t' result g k ho hv w = w
WordIs-Grows true (some p) none r s t t' result g k ho hv w = w
WordIs-Grows true (some p) (some v) r s t t' result g k ho hv (n, e, f) =
    (n, e, k.1 n (get_elem?-lt t n f) ∙ f ∙ ap some (joined-Grows r s v p g hv ho))

-- One word: the store grows, the result is a node of it, and is what `WordIs` says.
pub write_word_lem :
    (partial : Bool) (old value : FlowNode) (nodes : Store)
    → IsNode nodes old
    → IsNode nodes value
    → let (v, nodes') = write_word partial old value nodes in
      Grows nodes nodes' × IsNode nodes' v × WordIs partial old value nodes nodes' v
unfolding write_word
write_word_lem false old value nodes ho hv = (Grows-refl nodes, hv, refl)
write_word_lem true none value nodes ho hv = (Grows-refl nodes, hv, refl)
write_word_lem true (some p) none nodes ho hv = (Grows-refl nodes, ho, refl)
write_word_lem true (some p) (some v) nodes ho hv =
    let n = joined nodes memory_merge (node_at nodes v).operation v p in
    rw (merge_node_lem v p nodes hv ho) (
      Grows-append nodes n,
      omega (arith, length-append nodes (n ∷ [])),
      (length nodes, refl, get_elem?-length_append nodes [] n),
    )
