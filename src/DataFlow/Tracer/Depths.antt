-- ===== src/DataFlow/Tracer/Depths.antt =====
-- How CaptureState changes the depth of a shadow stack: the arguments are popped at once, the results are
-- pushed by the callback, before the next operation of the same message call.
use mathlib.Core.Path.{subst}
use erebus_redgiant.Prelude.{
  ℕ, ◌+◌, ◌-◌, ◌≡◌, ◌≢◌, refl, sym, ap, ◌∙◌, Option, none, some, List, length, length-append,
  length-set, length-take, length-replicate, arith, nat_eq,
}
use erebus_redgiant.Prelude.Map.{lookup}
use erebus_redgiant.Tracers.Nested
use erebus_redgiant.Tracers.Nested.{top}
use erebus_redgiant.Prelude.Partial.{bound}
use erebus_redgiant.Prelude.Map.{self-insert, other-insert}
use erebus_redgiant.DataFlow.Node.{FlowNode}
use erebus_redgiant.DataFlow.Stack.{push, pop}
use erebus_redgiant.DataFlow.Policy.{Operation, Analyzer, Trackers}
use erebus_redgiant.DataFlow.Policy.Rules.{After}
use erebus_redgiant.DataFlow.Policy.Depth.{HasShape}
use erebus_redgiant.DataFlow.Policy.Balanced.{Shape-flow, Shape-run_hook}
use erebus_redgiant.DataFlow.Tracer.{
  InstructionSet, get_stack_effects, Scope, Callback, InnerData, DataFlowTracer, trackers,
  put_trackers, run_callback, feed_callback, apply_policy, capture_state,
}

After-some :
    {A : Type 0} (P : Trackers → Type 0) (o : Option (A × Trackers)) (r : A × Trackers)
    → o ≡ some r
    → After P o
    → P r.1
After-some P o (a, s) e h = subst (After P) e h

length-push {ℓ} :
    {A : Type ℓ} (elements s t : List A)
    → push elements s ≡ some t
    → length t ≡ length s + length elements
unfolding push
length-push elements s t h = ground (arith, length-append s elements)

length-pop {ℓ} :
    {A : Type ℓ} (n : ℕ) (s : List A) (r : List A × List A)
    → pop n s ≡ some r
    → length (r.1) + n ≡ length s
unfolding pop
length-pop n s r h = ground (arith, length-take (length s - n) s)

unfoldable pub width : Option Callback → ℕ
width none = 0
width (some c) = length c.results

-- The tracer after a step of the message call `p`, whose shadow stack is then `n` deep, with `k` results
-- to come; the other message calls have their data, and no call is entered or left.
pub record Steps (p n k : ℕ) (t t' : DataFlowTracer) : Type 0 where
  pub data' : InnerData
  pub found : lookup p t'.inner ≡ some data'
  pub depth : length data'.stack ≡ n
  pub coming : width data'.callback ≡ k
  pub others : (q : ℕ) → q ≢ p → lookup q t'.inner ≡ lookup q t.inner
  pub calls : length t'.nested.calls ≡ length t.nested.calls
  pub stack : t'.nested.stack ≡ t.nested.stack

abbrev pub full_depth : InnerData → ℕ
full_depth d = length d.stack + width d.callback

one_of : (o : Option ℕ) (q p : ℕ) → o ≡ some q → o ≡ some p → q ≡ p
one_of o q p eq ep = cc

same_full_depth :
    (o : Option InnerData) (c d : InnerData) → o ≡ some c → o ≡ some d → full_depth c ≡ full_depth d
same_full_depth o c d ec ed = let one : c ≡ d = cc in ap full_depth one

same_depth :
    (o : Option InnerData) (c d : InnerData)
    → o ≡ some c
    → o ≡ some d
    → length c.stack ≡ length d.stack
same_depth o c d ec ed = let one : c ≡ d = cc in ap (λ x. length x.stack) one

nested-capture_state :
    (pc op gas cost : ℕ) (n n' : Nested.Tracer)
    → Nested.capture_state pc op gas cost n ≡ some n'
    → (n'.stack ≡ n.stack) × (length n'.calls ≡ length n.calls)
unfolding Nested.capture_state
nested-capture_state pc op gas cost n n' h = grind (arith, length-set)

put_trackers-Steps :
    (p : ℕ) (stack : List FlowNode) (c : Option Callback) (s : Trackers) (t : DataFlowTracer)
    → Steps p (length stack) (width c) t (put_trackers p stack c s t)
unfolding put_trackers
put_trackers-Steps p stack c s t = record {
  data' = _;
  found = self-insert p _ t.inner;
  depth = refl;
  coming = refl;
  others = λ q d. other-insert p q _ t.inner d;
  calls = refl;
  stack = refl;
}

Steps-same :
    (p n m k j : ℕ) (t u t' : DataFlowTracer)
    → some u ≡ some t'
    → n ≡ m
    → k ≡ j
    → Steps p n k t u
    → Steps p m j t t'
Steps-same p n m k j t u t' e d w h =
    subst (λ x. Steps p m x t t') w
      (subst (λ x. Steps p x k t t') d (subst (Steps p n k t) (same u t' e) h))
  where
    same : (u v : DataFlowTracer) → some u ≡ some v → u ≡ v
    same u v e = cc

module _ (a : Analyzer) (fuel : ℕ) where
  run_callback-Steps :
      (p : ℕ) (evm : List ℕ) (t : DataFlowTracer) (d : InnerData) (c : Option Callback)
      (t' : DataFlowTracer)
      → lookup p t.inner ≡ some d
      → d.callback ≡ c
      → run_callback a fuel p evm t d c ≡ some t'
      → Steps p (length d.stack + width c) 0 t t'
  unfolding run_callback width trackers
  run_callback-Steps p evm t d none t' e ec h =
      Steps-same p _ _ _ 0 t t t' h (omega arith) refl (record {
        data' = d;
        found = e;
        depth = refl;
        coming = rw ec refl;
        others = λ q _. refl;
        calls = refl;
        stack = refl;
      })
  run_callback-Steps p evm t d (some c) t' e ec h =
      let ran = bound _ _ _ h in
      let pushed = bound _ _ _ (ran.2) in
      let shape : HasShape (length d.stack) (length c.results) (ran.0.1) =
        After-some _ _ (ran.0) (ran.1) (
          (Shape-run_hook a fuel c.hook evm).at (trackers t d c.results)
            (record { depth = refl; width = refl })) in
      let grown = length-push _ _ (pushed.0) (pushed.1) in
      Steps-same p _ _ _ 0 t _ t' (pushed.2) (omega (arith, grown, shape.depth, shape.width)) refl
        (put_trackers-Steps p (pushed.0) none (ran.0.1) t)

  apply_policy-Steps :
      (op : Operation) (pops pushes : ℕ) (scope : Scope) (p : ℕ) (t : DataFlowTracer)
      (d : InnerData) (t' : DataFlowTracer)
      → lookup p t.inner ≡ some d
      → apply_policy a fuel op pops pushes scope p t ≡ some t'
      → (m : ℕ) × (m + pops ≡ length d.stack) × Steps p m pushes t t'
  unfolding apply_policy trackers width
  apply_policy-Steps op pops pushes scope p t d t' e h =
      let got = bound _ _ _ h in
      let popped = bound _ _ _ (got.2) in
      let policy = bound _ _ _ (popped.2) in
      let ran = bound _ _ _ (policy.2) in
      let shape : HasShape (length (popped.0.1)) pushes (ran.0.1) = After-some _ _ (ran.0) (ran.1) (
        (Shape-flow a fuel op scope.evm (popped.0.0) (policy.0)).at _
          (record { depth = refl; width = length-replicate pushes none })) in
      let one : length (got.0.stack) ≡ length d.stack = same_depth _ _ _ (got.1) e in
      (
        length (popped.0.1),
        length-pop pops _ (popped.0) (popped.1) ∙ one,
        Steps-same p _ _ _ pushes t _ t' (ran.2) shape.depth shape.width (
            put_trackers-Steps p (ran.0.1.stack)
              (some (record { hook = ran.0.0; results = ran.0.1.results })) (ran.0.1) t),
      )

  feed_callback-Steps :
      (p : ℕ) (evm : List ℕ) (t : DataFlowTracer) (d : InnerData) (t' : DataFlowTracer)
      → lookup p t.inner ≡ some d
      → feed_callback a fuel p evm t ≡ some t'
      → Steps p (full_depth d) 0 t t'
  unfolding feed_callback
  feed_callback-Steps p evm t d t' e h =
      let got = bound _ _ _ h in
      Steps-same p _ _ _ 0 t t' t' refl (same_full_depth _ _ _ (got.1) e) refl
        (run_callback-Steps p evm t (got.0) _ t' (got.1) refl (got.2))

  fed_apply-Steps :
      (op : Operation) (pops pushes : ℕ) (scope : Scope) (p k : ℕ) (n : Nested.Tracer)
      (t u t' : DataFlowTracer)
      → Steps p k 0 t u
      → (n.stack ≡ u.nested.stack) × (length n.calls ≡ length u.nested.calls)
      → apply_policy a fuel op pops pushes scope p (record u { nested = n }) ≡ some t'
      → (m : ℕ) × (m + pops ≡ k) × Steps p m pushes t t'
  fed_apply-Steps op pops pushes scope p k n t u t' f c h =
      let (m, sum, r) = apply_policy-Steps op pops pushes scope p _ f.data' t' f.found h in
      (
        m,
        sum ∙ f.depth,
        record {
          data' = r.data';
          found = r.found;
          depth = r.depth;
          coming = r.coming;
          others = λ q d. r.others q d ∙ f.others q d;
          calls = r.calls ∙ c.1 ∙ f.calls;
          stack = r.stack ∙ c.0 ∙ f.stack;
        },
      )

  -- Where the tracer captures an operation, it pops the operation's arguments off the shadow stack on which the
  -- results of the last operation have been pushed, and holds as many results as the operation pushes.
  pub capture_state-Steps :
      (instructions : InstructionSet) (pc op gas cost : ℕ) (scope : Scope) (p : ℕ)
      (t : DataFlowTracer) (d : InnerData) (t' : DataFlowTracer)
      → top t.nested.stack ≡ some p
      → lookup p t.inner ≡ some d
      → capture_state a fuel instructions pc op gas cost scope t ≡ some t'
      → (m : ℕ) × (m + (get_stack_effects instructions op).0 ≡ full_depth d)
        × Steps p m (get_stack_effects instructions op).1 t t'
  unfolding capture_state feed_callback
  capture_state-Steps instructions pc op gas cost scope p t d t' ep e h =
      let here = bound _ _ _ h in
      let fed = bound _ _ _ (here.2) in
      let nested = bound _ _ _ (fed.2) in
      let call = bound _ _ _ (nested.2) in
      let args = bound _ _ _ (call.2) in
      let same : here.0 ≡ p = one_of _ _ _ (here.1) ep in
      let known : lookup (here.0) t.inner ≡ some d =
        subst (λ q. lookup q t.inner ≡ some d) (sym same) e in
      subst
        (λ q.
          (m : ℕ) × (m + (get_stack_effects instructions op).0 ≡ full_depth d)
          × Steps q m (get_stack_effects instructions op).1 t t')
        same
        (fed_apply-Steps _ _ _ scope (here.0) (full_depth d) (nested.0) t (fed.0) t'
          (feed_callback-Steps (here.0) scope.evm t d (fed.0) known (fed.1))
          (nested-capture_state pc op gas cost _ _ (nested.1)) (args.2))
