-- ===== src/DataFlow/Policy/Depth.antt =====
-- Flow functions do not change the depth of the shadow stack, nor the number of results.
use erebus_redgiant.Prelude.{
  ℕ, ◌-◌, ◌≡◌, refl, ap, ◌∙◌, ◌&&◌, Option, none, some, List, [], ◌∷◌, length, length-set,
  get_elem?, set, sym, arith, ltb, Bool-cases, inl, inr,
}
use erebus_redgiant.DataFlow.Node.{FlowNode}
use erebus_redgiant.DataFlow.Stack.{swap, swapped}
use erebus_redgiant.DataFlow.Memory.{Memory}
use erebus_redgiant.DataFlow.Call.{Call, Chain, Storage}
use erebus_redgiant.DataFlow.Policy.{
  Operation, Analyzer, Trackers, upstream_of, put_result, set_result, stack_swap, stack_get,
  sink_tainted, on_chain, current_storage, on_storage, current_call, child_call, on_current_call,
  put_child_call, memory_load, memory_store, memory_clear, memory_copy, new_flow_node, fresh_result,
}
use erebus_redgiant.DataFlow.Policy.Rules.{
  After, Keeps, Keeps-gets_some, Keeps-modify, Keeps-modify_some, keeps_rules,
}

pub record HasShape (d k : ℕ) (s : Trackers) : Type 0 where
  pub depth : length s.stack ≡ d
  pub width : length s.results ≡ k

length-put_result :
    (v : FlowNode) (l m : List FlowNode) → put_result v l ≡ some m → length m ≡ length l
unfolding put_result
length-put_result v [] m h = absurd (ground arith)
length-put_result v (x ∷ l) m h = ground (arith, h)

the_same :
    (l : List FlowNode) (i : ℕ) (x y : FlowNode) (m : List FlowNode)
    → swapped l i (some x) (some y) ≡ some m
    → m ≡ set (set l (length l - 1) y) (length l - i - 1) x
the_same l i x y m h = cc

length-swapped :
    (l : List FlowNode) (i : ℕ) (x y : Option FlowNode) (m : List FlowNode)
    → swapped l i x y ≡ some m
    → length m ≡ length l
length-swapped l i (some x) (some y) m h =
    ap length (the_same l i x y m h) ∙ length-set (set l (length l - 1) y) _ x ∙ length-set l _ y
length-swapped l i none y m h = absurd (ground arith)
length-swapped l i (some x) none m h = absurd (ground arith)

not_none : (l m : List FlowNode) → none ≡ some m → ⊥
not_none l m h = cc

length-swap : (i : ℕ) (l m : List FlowNode) → swap i l ≡ some m → length m ≡ length l
unfolding swap
length-swap i l m h = elim (Bool-cases (ltb 0 i && ltb i (length l))) [
  | inl b ↦
      let run : swap i l
          ≡ swapped l i (get_elem? l (length l - 1)) (get_elem? l (length l - i - 1)) =
        rw (b, swap) refl in
      length-swapped l i _ _ m (sym run ∙ h)
  | inr b ↦ let run : swap i l ≡ none = rw (b, swap) refl in absurd (not_none l m (sym run ∙ h))
]

module _ {d k : ℕ} where
  pub Shape-upstream_of :
      (n : FlowNode) (l : List FlowNode) → Keeps (HasShape d k) (upstream_of n l)
  unfolding upstream_of
  Shape-upstream_of n l = Keeps-modify _ (λ s h. record { depth = h.depth; width = h.width })

  pub Shape-set_result : (v : FlowNode) → Keeps (HasShape d k) (set_result v)
  unfolding set_result
  Shape-set_result v =
      Keeps-modify_some _ _
        (λ s r h e. record { depth = h.depth; width = length-put_result v s.results r e ∙ h.width })

  pub Shape-stack_swap : (i : ℕ) → Keeps (HasShape d k) (stack_swap i)
  unfolding stack_swap
  Shape-stack_swap i =
      Keeps-modify_some _ _
        (λ s t h e. record { depth = length-swap i s.stack t e ∙ h.depth; width = h.width })

  pub Shape-stack_get : (i : ℕ) → Keeps (HasShape d k) (stack_get i)
  unfolding stack_get
  Shape-stack_get i = Keeps-gets_some _

  pub Shape-sink_tainted : (n : FlowNode) → Keeps (HasShape d k) (sink_tainted n)
  unfolding sink_tainted
  Shape-sink_tainted n = Keeps-modify _ (λ s h. record { depth = h.depth; width = h.width })

  pub Shape-on_chain : (f : Chain → Chain) → Keeps (HasShape d k) (on_chain f)
  unfolding on_chain
  Shape-on_chain f = Keeps-modify _ (λ s h. record { depth = h.depth; width = h.width })

  pub Shape-current_storage : Keeps (HasShape d k) current_storage
  unfolding current_storage
  Shape-current_storage = Keeps-gets_some _

  pub Shape-on_storage : (f : Storage → Storage) → Keeps (HasShape d k) (on_storage f)
  unfolding on_storage
  Shape-on_storage f =
      Keeps-modify_some _ _ (λ s t h e. record { depth = h.depth; width = h.width })

  pub Shape-current_call : Keeps (HasShape d k) current_call
  unfolding current_call
  Shape-current_call = Keeps-gets_some _

  pub Shape-child_call : Keeps (HasShape d k) child_call
  unfolding child_call
  Shape-child_call = Keeps-gets_some _

  pub Shape-on_current_call : (f : Call → Option Call) → Keeps (HasShape d k) (on_current_call f)
  unfolding on_current_call
  Shape-on_current_call f =
      Keeps-modify_some _ _ (λ s t h e. record { depth = h.depth; width = h.width })

  pub Shape-put_child_call : (c : Call) → Keeps (HasShape d k) (put_child_call c)
  unfolding put_child_call
  Shape-put_child_call c = Keeps-modify _ (λ s h. record { depth = h.depth; width = h.width })

  module _ (fuel : ℕ) where
    pub Shape-memory_load : (start size : ℕ) → Keeps (HasShape d k) (memory_load fuel start size)
    unfolding memory_load
    Shape-memory_load start size = Keeps-gets_some _

    pub Shape-memory_store :
        (start size : ℕ) (v : FlowNode) → Keeps (HasShape d k) (memory_store fuel start size v)
    unfolding memory_store
    Shape-memory_store start size v =
        Keeps-modify_some _ _ (λ s t h e. record { depth = h.depth; width = h.width })

    pub Shape-memory_copy :
        (source : Memory) (dest offset size : ℕ)
        → Keeps (HasShape d k) (memory_copy fuel source dest offset size)
    unfolding memory_copy
    Shape-memory_copy source dest offset size =
        Keeps-modify_some _ _ (λ s t h e. record { depth = h.depth; width = h.width })

    pub Shape-memory_clear : (start size : ℕ) → Keeps (HasShape d k) (memory_clear fuel start size)
    unfolding memory_clear
    Shape-memory_clear start size = Shape-memory_store start size none

  module _ (a : Analyzer) (op : Operation) where
    pub Shape-new_flow_node : Keeps (HasShape d k) (new_flow_node a op)
    unfolding new_flow_node
    Shape-new_flow_node = record { at = λ s h. record { depth = h.depth; width = h.width } }

    pub Shape-fresh_result : Keeps (HasShape d k) (fresh_result a op)
    unfolding fresh_result
    Shape-fresh_result = search (keeps_rules, Shape-new_flow_node, Shape-set_result)

pub ruleset shape_rules = (
  keeps_rules, Shape-upstream_of, Shape-set_result, Shape-stack_swap, Shape-stack_get,
  Shape-sink_tainted, Shape-on_chain, Shape-current_storage, Shape-on_storage, Shape-current_call,
  Shape-child_call, Shape-on_current_call, Shape-put_child_call, Shape-memory_load,
  Shape-memory_store, Shape-memory_copy, Shape-memory_clear, Shape-new_flow_node,
  Shape-fresh_result,
)
