-- ===== src/DataFlow/Tracer/Mirror.antt =====
-- The shadow stacks of DataFlowTracer (analysis/data_flow/tracer.go) mirror the stacks of the EVM through all
-- the calls of a transaction: the sanity check that CaptureState has commented out.
use mathlib.Core.Path.{subst}
use erebus_redgiant.Prelude.{
  ℕ, ◌+◌, ◌-◌, ◌≤◌, ◌<◌, ◌≡◌, ◌≢◌, refl, sym, ap, ◌∙◌, Option, none, some, List, [], ◌∷◌, length,
  length-append, length-set, arith, if◌then◌else◌, leb, nat_eq, Address,
}
use erebus_redgiant.Prelude.Map.{lookup, insert}
use erebus_redgiant.Tracers.Call.{MsgCall, ExecutionResult}
use erebus_redgiant.Tracers.Nested
use erebus_redgiant.Tracers.Nested.{top}
use erebus_redgiant.Prelude.Map.{self-insert, other-insert}
use erebus_redgiant.Prelude.Partial.{◌>>=◌, bound}
use erebus_redgiant.DataFlow.Policy.{Analyzer}
use erebus_redgiant.DataFlow.Tracer.{
  InstructionSet, get_stack_effects, Scope, InnerData, DataFlowTracer, capture_state, capture_enter,
  capture_exit, child_data, storage_of, put_collection, new_data, transaction_start,
}
use erebus_redgiant.DataFlow.Tracer.Depths.{width, full_depth, capture_state-Steps}

-- What the EVM reports to the tracer within a transaction.
pub data EvmEvent : Type 0 where
  state : ℕ → ℕ → ℕ → ℕ → Scope → EvmEvent
  enter : ℕ → Address → Address → List ℕ → Option ℕ → EvmEvent
  exit : ExecutionResult → EvmEvent

module _ (a : Analyzer) (fuel : ℕ) (instructions : InstructionSet) where
  unfoldable pub trace_step : EvmEvent → DataFlowTracer → Option DataFlowTracer
  trace_step (state pc op gas cost scope) t =
      capture_state a fuel instructions pc op gas cost scope t
  trace_step (enter typ from to input value) t = capture_enter typ from to input value t
  trace_step (exit r) t = capture_exit r t

  unfoldable pub trace : List EvmEvent → DataFlowTracer → Option DataFlowTracer
  trace [] t = some t
  trace (e ∷ es) t = trace_step e t >>= λ u. trace es u

-- The depths of the EVM's own stacks, of the calls that are running, the current one first: an operation
-- that has its arguments pops them and pushes its results.
unfoldable pub evm_step : InstructionSet → EvmEvent → List ℕ → Option (List ℕ)
evm_step instructions (state pc op gas cost scope) [] = none
evm_step instructions (state pc op gas cost scope) (d ∷ ds) =
    if leb (get_stack_effects instructions op).0 d
    then some
        ((d - (get_stack_effects instructions op).0 + (get_stack_effects instructions op).1) ∷ ds)
    else none
evm_step instructions (enter typ from to input value) ds = some (0 ∷ ds)
evm_step instructions (exit r) [] = none
evm_step instructions (exit r) (d ∷ ds) = some ds

unfoldable pub evm_run : InstructionSet → List EvmEvent → List ℕ → Option (List ℕ)
evm_run instructions [] ds = some ds
evm_run instructions (e ∷ es) ds = evm_step instructions e ds >>= λ cs. evm_run instructions es cs

-- The shadow stacks of the message calls of a stack of pointers are as deep as `depths` says, the results
-- that a callback is to push counted; the pointers decrease, below `limit`.
abbrev pub MirrorsFrom : List (ℕ × InnerData) → ℕ → List ℕ → List ℕ → Type 0
MirrorsFrom inner limit [] [] = Unit
MirrorsFrom inner limit (p ∷ ps) (d ∷ ds) =
    (p < limit)
    × ((c : InnerData) × (lookup p inner ≡ some c) × (full_depth c ≡ d))
    × MirrorsFrom inner p ps ds
MirrorsFrom inner limit (p ∷ ps) [] = ⊥
MirrorsFrom inner limit [] (d ∷ ds) = ⊥

abbrev pub Mirrors : DataFlowTracer → List ℕ → Type 0
Mirrors t depths = MirrorsFrom t.inner (length t.nested.calls) t.nested.stack depths

-- Message calls below a pointer do not see what is done at or above it.
MirrorsFrom-below :
    (inner inner' : List (ℕ × InnerData)) (limit : ℕ) (ps ds : List ℕ)
    → ((q : ℕ) → q < limit → lookup q inner' ≡ lookup q inner)
    → MirrorsFrom inner limit ps ds
    → MirrorsFrom inner' limit ps ds
MirrorsFrom-below inner inner' limit [] [] same h = h
MirrorsFrom-below inner inner' limit (p ∷ ps) (d ∷ ds) same h = (
  h.0,
  (h.1.0, same p h.0 ∙ h.1.1, h.1.2),
  MirrorsFrom-below inner inner' p ps ds (λ q l. same q (omega (arith, l, h.0))) h.2,
)
MirrorsFrom-below inner inner' limit (p ∷ ps) [] same h = h
MirrorsFrom-below inner inner' limit [] (d ∷ ds) same h = h

MirrorsFrom-limit :
    (inner : List (ℕ × InnerData)) (n m : ℕ) (ps ds : List ℕ)
    → n ≤ m
    → MirrorsFrom inner n ps ds
    → MirrorsFrom inner m ps ds
MirrorsFrom-limit inner n m [] [] l h = h
MirrorsFrom-limit inner n m (p ∷ ps) (d ∷ ds) l h = (omega (arith, l, h.0), h.1, h.2)
MirrorsFrom-limit inner n m (p ∷ ps) [] l h = h
MirrorsFrom-limit inner n m [] (d ∷ ds) l h = h

nested-capture_enter :
    (typ : ℕ) (from to : Address) (input : List ℕ) (value : Option ℕ) (n n' : Nested.Tracer)
    → Nested.capture_enter typ from to input value n ≡ some n'
    → (n'.stack ≡ length n.calls ∷ n.stack) × (length n'.calls ≡ length n.calls + 1)
unfolding Nested.capture_enter
nested-capture_enter typ from to input value n n' h = grind (arith, length-set, length-append)

nested-capture_exit :
    (r : ExecutionResult) (p : ℕ) (ps : List ℕ) (n n' : Nested.Tracer)
    → n.stack ≡ p ∷ ps
    → Nested.capture_exit r n ≡ some n'
    → (n'.stack ≡ ps) × (length n'.calls ≡ length n.calls)
unfolding Nested.capture_exit
nested-capture_exit r p ps n n' e h = grind (arith, length-set)

nested-storage_of : (addr : Address) (t : DataFlowTracer) → (storage_of addr t).0.nested ≡ t.nested
unfolding storage_of
nested-storage_of addr t = ground arith

not_me : {p q : ℕ} → q < p → q ≢ p
not_me l = λ e. omega (arith, l, e)

-- The depths after an event are mirrored by the tracer after it.
abbrev pub Mirrored : InstructionSet → List EvmEvent → List ℕ → DataFlowTracer → Type 0
Mirrored instructions es ds t' =
    (cs : List ℕ) × (evm_run instructions es ds ≡ some cs) × Mirrors t' cs

Mirrors-at :
    (t : DataFlowTracer) (n : ℕ) (ps ds : List ℕ)
    → t.nested.stack ≡ ps
    → length t.nested.calls ≡ n
    → MirrorsFrom t.inner n ps ds
    → Mirrors t ds
Mirrors-at t n ps ds e c h =
    subst (λ x. MirrorsFrom t.inner (length t.nested.calls) x ds) (sym e)
      (subst (λ x. MirrorsFrom t.inner x ps ds) (sym c) h)

module _ (instructions : InstructionSet) (op pc gas cost : ℕ) (scope : Scope) where
  evm_step_state :
      (n d : ℕ) (ds : List ℕ)
      → n + (get_stack_effects instructions op).0 ≡ d
      → evm_run instructions (state pc op gas cost scope ∷ []) (d ∷ ds)
        ≡ some ((n + (get_stack_effects instructions op).1) ∷ ds)
  unfolding evm_step evm_run ◌>>=◌
  evm_step_state n d ds h = ground (arith, h)

capture_state-running :
    (a : Analyzer) (fuel : ℕ) (instructions : InstructionSet) (pc op gas cost : ℕ) (scope : Scope)
    (t t' : DataFlowTracer)
    → t.nested.stack ≡ []
    → capture_state a fuel instructions pc op gas cost scope t ≡ some t'
    → ⊥
unfolding capture_state
capture_state-running a fuel instructions pc op gas cost scope t t' e h =
    let got = bound _ _ _ h in no_top _ (ap top e) (got.1)
  where
    no_top : {p : ℕ} (o : Option ℕ) → o ≡ none → o ≡ some p → ⊥
    no_top o e h = cc

same_tracer : (t u : DataFlowTracer) → some t ≡ some u → t ≡ u
same_tracer t u h = cc

module _ (a : Analyzer) (fuel : ℕ) (instructions : InstructionSet) where
  state-Mirrors :
      (pc op gas cost : ℕ) (scope : Scope) (t t' : DataFlowTracer) (ps ds : List ℕ)
      → t.nested.stack ≡ ps
      → MirrorsFrom t.inner (length t.nested.calls) ps ds
      → capture_state a fuel instructions pc op gas cost scope t ≡ some t'
      → Mirrored instructions (state pc op gas cost scope ∷ []) ds t'
  state-Mirrors pc op gas cost scope t t' [] [] e m h =
      absurd (capture_state-running a fuel instructions pc op gas cost scope t t' e h)
  state-Mirrors pc op gas cost scope t t' (p ∷ ps) [] e m h = absurd m
  state-Mirrors pc op gas cost scope t t' [] (d ∷ ds) e m h = absurd m
  state-Mirrors pc op gas cost scope t t' (p ∷ ps) (d ∷ ds) e m h =
      let (n, sum, s) =
        capture_state-Steps a fuel instructions pc op gas cost scope p t (m.1.0) t' (ap top e)
          (m.1.1) h in
      let within : p < length t.nested.calls = m.0 in
      (
        (n + (get_stack_effects instructions op).1) ∷ ds,
        evm_step_state instructions op pc gas cost scope n d ds (sum ∙ m.1.2),
        Mirrors-at t' (length t.nested.calls) (p ∷ ps) _ (s.stack ∙ e) s.calls (
          within,
          (s.data', s.found, omega (arith, s.depth, s.coming)),
          MirrorsFrom-below t.inner t'.inner p ps ds (λ q l. s.others q (not_me l)) (m.2),
        ),
      )

evm_step_enter :
    (instructions : InstructionSet) (typ : ℕ) (from to : Address) (input : List ℕ)
    (value : Option ℕ) (ds : List ℕ)
    → evm_run instructions (enter typ from to input value ∷ []) ds ≡ some (0 ∷ ds)
unfolding evm_step evm_run ◌>>=◌
evm_step_enter instructions typ from to input value ds = refl

top_is : (stack ps : List ℕ) (x p : ℕ) → stack ≡ x ∷ ps → top stack ≡ some p → p ≡ x
top_is stack ps x p e h = one_pointer _ _ _ (ap top e) h
  where
    one_pointer : (o : Option ℕ) (x p : ℕ) → o ≡ some x → o ≡ some p → p ≡ x
    one_pointer o x p e h = cc

-- A tracer that has entered the message call `p`, the next one, with new data.
entered-Mirrors :
    (t u : DataFlowTracer) (p storage call : ℕ) (ds : List ℕ)
    → u.nested.stack ≡ length t.nested.calls ∷ t.nested.stack
    → length u.nested.calls ≡ length t.nested.calls + 1
    → p ≡ length t.nested.calls
    → u.inner ≡ insert p (new_data storage call) t.inner
    → Mirrors t ds
    → Mirrors u (0 ∷ ds)
unfolding width new_data
entered-Mirrors t u p storage call ds st ca ep ei m =
    let inner' : u.inner ≡ insert (length t.nested.calls) (new_data storage call) t.inner =
      subst (λ x. u.inner ≡ insert x (new_data storage call) t.inner) ep ei in
    Mirrors-at u (length t.nested.calls + 1) (length t.nested.calls ∷ t.nested.stack) (0 ∷ ds) st ca
      (
        omega arith,
        (
          new_data storage call,
          ap (lookup (length t.nested.calls)) inner'
              ∙ self-insert (length t.nested.calls) _ t.inner,
          refl,
        ),
        MirrorsFrom-below t.inner u.inner (length t.nested.calls) t.nested.stack ds
            (λ q l.
              ap (lookup q) inner' ∙ other-insert (length t.nested.calls) q _ t.inner (not_me l))
            m,
      )

put_collection-Mirrors :
    (to : Address) (n : Nested.Tracer) (p : ℕ) (c parent : MsgCall) (d : InnerData)
    (t : DataFlowTracer) (ds : List ℕ)
    → (n.stack ≡ length t.nested.calls ∷ t.nested.stack)
      × (length n.calls ≡ length t.nested.calls + 1)
    → top n.stack ≡ some p
    → Mirrors t ds
    → Mirrors (put_collection to n p c parent d t) (0 ∷ ds)
unfolding put_collection
put_collection-Mirrors to n p c parent d t ds g h m =
    let u : DataFlowTracer = record t {
      nested = n;
      calls = (child_data (record t { nested = n }) d parent c to).0;
    } in
    let kept : (storage_of c.state_addr u).0.nested ≡ n = nested-storage_of c.state_addr u in
    entered-Mirrors t (put_collection to n p c parent d t) p _ _ ds (ap (λ x. x.stack) kept ∙ g.0)
      (ap (λ x. length x.calls) kept ∙ g.1) (top_is n.stack t.nested.stack _ p g.0 h) refl m

enter-Mirrors :
    (instructions : InstructionSet) (typ : ℕ) (from to : Address) (input : List ℕ)
    (value : Option ℕ) (t t' : DataFlowTracer) (ds : List ℕ)
    → Mirrors t ds
    → capture_enter typ from to input value t ≡ some t'
    → Mirrored instructions (enter typ from to input value ∷ []) ds t'
unfolding capture_enter
enter-Mirrors instructions typ from to input value t t' ds m h =
    let nested = bound _ _ _ h in
    let here = bound _ _ _ (nested.2) in
    let child = bound {A = MsgCall} _ _ _ (here.2) in
    let pointer = bound _ _ _ (child.2) in
    let parent = bound _ _ _ (pointer.2) in
    let found = bound _ _ _ (parent.2) in
    (
      0 ∷ ds,
      evm_step_enter instructions typ from to input value ds,
      subst (λ u. Mirrors u (0 ∷ ds)) (same_tracer _ _ (found.2))
          (put_collection-Mirrors to (nested.0) (here.0) (child.0) (parent.0) (found.0) t ds
            (nested-capture_enter typ from to input value t.nested (nested.0) (nested.1)) (here.1)
            m),
    )

nested_exit-running :
    (r : ExecutionResult) (n n' : Nested.Tracer)
    → n.stack ≡ []
    → Nested.capture_exit r n ≡ some n'
    → ⊥
unfolding Nested.capture_exit
nested_exit-running r n n' e h = absurd (ground (arith, e, h))

exit-Mirrors :
    (instructions : InstructionSet) (r : ExecutionResult) (t t' : DataFlowTracer) (ps ds : List ℕ)
    → t.nested.stack ≡ ps
    → MirrorsFrom t.inner (length t.nested.calls) ps ds
    → capture_exit r t ≡ some t'
    → Mirrored instructions (exit r ∷ []) ds t'
unfolding capture_exit evm_step evm_run ◌>>=◌
exit-Mirrors instructions r t t' [] [] e m h =
    absurd (nested_exit-running r _ _ e (bound _ _ _ h).1)
exit-Mirrors instructions r t t' (p ∷ ps) [] e m h = absurd m
exit-Mirrors instructions r t t' [] (d ∷ ds) e m h = absurd m
exit-Mirrors instructions r t t' (p ∷ ps) (d ∷ ds) e m h =
    let got = bound _ _ _ h in
    let (st, ca) = nested-capture_exit r p ps t.nested (got.0) e (got.1) in
    (
      ds,
      refl,
      subst (λ u. Mirrors u ds) (same_tracer _ _ (got.2))
          (Mirrors-at (record t { nested = got.0 }) (length t.nested.calls) ps ds st ca
            (MirrorsFrom-limit t.inner p _ ps ds (omega (arith, m.0)) (m.2))),
    )

trace_step-Mirrors :
    (a : Analyzer) (fuel : ℕ) (instructions : InstructionSet) (e : EvmEvent) (t t' : DataFlowTracer)
    (ds : List ℕ)
    → Mirrors t ds
    → trace_step a fuel instructions e t ≡ some t'
    → Mirrored instructions (e ∷ []) ds t'
unfolding trace_step
trace_step-Mirrors a fuel instructions (state pc op gas cost scope) t t' ds m h =
    state-Mirrors a fuel instructions pc op gas cost scope t t' _ ds refl m h
trace_step-Mirrors a fuel instructions (enter typ from to input value) t t' ds m h =
    enter-Mirrors instructions typ from to input value t t' ds m h
trace_step-Mirrors a fuel instructions (exit r) t t' ds m h =
    exit-Mirrors instructions r t t' _ ds refl m h

evm_run-cons :
    (instructions : InstructionSet) (e : EvmEvent) (es : List EvmEvent) (ds bs cs : List ℕ)
    → evm_run instructions (e ∷ []) ds ≡ some bs
    → evm_run instructions es bs ≡ some cs
    → evm_run instructions (e ∷ es) ds ≡ some cs
unfolding evm_run ◌>>=◌
evm_run-cons instructions e es ds bs cs h k = ground (arith, h, k)

trace-Mirrors :
    (a : Analyzer) (fuel : ℕ) (instructions : InstructionSet) (es : List EvmEvent)
    (t t' : DataFlowTracer) (ds : List ℕ)
    → Mirrors t ds
    → trace a fuel instructions es t ≡ some t'
    → Mirrored instructions es ds t'
unfolding trace evm_run
trace-Mirrors a fuel instructions [] t t' ds m h =
    (ds, refl, subst (λ u. Mirrors u ds) (same_tracer _ _ h) m)
trace-Mirrors a fuel instructions (e ∷ es) t t' ds m h =
    let one = bound _ _ _ h in
    let (bs, hb, mb) = trace_step-Mirrors a fuel instructions e t (one.0) ds m (one.1) in
    let (cs, hc, mc) = trace-Mirrors a fuel instructions es (one.0) t' bs mb (one.2) in
    (cs, evm_run-cons instructions e es ds bs cs hb hc, mc)

start-Mirrors :
    (create_address : Address → ℕ → Address) (nonce : ℕ) (from : Address) (to : Option Address)
    (input : List ℕ) (value : ℕ) (t t' : DataFlowTracer)
    → t.nested.stack ≡ []
    → transaction_start create_address nonce from to input value t ≡ some t'
    → Mirrors t' (0 ∷ [])
unfolding transaction_start Nested.transaction_start ◌>>=◌
start-Mirrors create_address nonce from to input value t t' e h =
    let q = same_tracer _ t' h in
    entered-Mirrors t t' (length t.nested.calls) (length t.storages) (length t.calls) []
      (sym (ap (λ u. u.nested.stack) q))
      (sym (ap (λ u. length u.nested.calls) q) ∙ length-append t.nested.calls _) refl
      (sym (ap (λ u. u.inner) q)) (Mirrors-at t _ [] [] e refl tt)

-- In a transaction that a tracer without a running call begins, whatever operations, entries and exits of calls the
-- EVM reports: where the tracer does not panic, the depths of the EVM's stacks, which an operation changes by its
-- pops and pushes, are defined, and the shadow stacks of all the running calls have those depths, the results counted
-- that a callback is to push.
pub transaction-Mirrors :
    (a : Analyzer) (fuel : ℕ) (instructions : InstructionSet)
    (create_address : Address → ℕ → Address) (nonce : ℕ) (from : Address) (to : Option Address)
    (input : List ℕ) (value : ℕ) (es : List EvmEvent) (t t' : DataFlowTracer)
    → t.nested.stack ≡ []
    → (transaction_start create_address nonce from to input value t >>= λ u.
        trace a fuel instructions es u)
      ≡ some t'
    → (ds : List ℕ) × (evm_run instructions es (0 ∷ []) ≡ some ds) × Mirrors t' ds
transaction-Mirrors a fuel instructions create_address nonce from to input value es t t' e h =
    let started = bound _ _ _ h in
    trace-Mirrors a fuel instructions es (started.0) t' (0 ∷ [])
      (start-Mirrors create_address nonce from to input value t (started.0) e (started.1))
      (started.2)
