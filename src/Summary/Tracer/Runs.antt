-- ===== src/Summary/Tracer/Runs.antt =====
-- A whole run of the tracer of summary_tracer.go keeps the Data of all calls balanced.
use mathlib.Core.Path.{subst}
use erebus_redgiant.Prelude.{
  ℕ, zero, suc, ◌≡◌, refl, sym, ap, ◌∙◌, true, Option, some, List, [], ◌∷◌, ◌++◌, arith, length,
  get_elem?, if◌then◌else◌, nat_eq, Address, Hash, ltb,
}
use erebus_redgiant.Prelude.Map.{lookup, insert}
use erebus_redgiant.Prelude.Partial.{◌>>=◌, bound}
use erebus_redgiant.Tracers.Call.{MsgCall, ExecutionResult}
use erebus_redgiant.Tracers.Nested
use erebus_redgiant.Tracers.Nested.{top}
use erebus_redgiant.Contract.Encoding.{AbiType, Value, Input}
use erebus_redgiant.Summary.Calls.{Data}
use erebus_redgiant.Summary.Events.{Topics}
use erebus_redgiant.Summary.Tracer.{
  Config, TxSummaryTracer, Scope, StateView, empty_data, open_summary, clear_if,
}
use erebus_redgiant.Summary.Tracer.Reads.{record_def, record_use}
use erebus_redgiant.Summary.Tracer.Hooks.{
  Event, step, run, capture_state, capture_enter, capture_exit, value_of, has_error, Tx, Receipt,
  transaction_start, transaction_end, finish_data, fresh,
}
use erebus_redgiant.Summary.Tracer.Store.{
  AllSummed, AllNewer, Keeps, AlwaysKeeps, keeps_if, keeps_same, clear_if-Keeps, same_tracer,
}
use erebus_redgiant.Summary.Tracer.Steps.{
  record_def-Keeps, record_use-Keeps, record_logs-Keeps, record_value-Keeps, finish_data-Keeps,
}
use erebus_redgiant.Summary.Tracer.Nesting.{
  SameTree, AllSummed-SameTree, capture_state-SameTree, capture_exit-SameTree,
  transaction_end-SameTree, capture_enter-Grows, Grows-AllSummed, IsBalanced-empty_data,
}

-- The summary of every call has one Data more than the call has calls below it, and all are
-- balanced.
abbrev pub IsSound : TxSummaryTracer → Type 0
IsSound t = AllSummed t.nested.calls t.summaries

Keeps-IsSound : (t u : TxSummaryTracer) → Keeps t u → IsSound t → IsSound u
unfolding Keeps
Keeps-IsSound t u (e, f) h =
    subst (λ (n : Nested.Tracer). AllSummed n.calls u.summaries) (sym e) (f t.nested.calls h)

always :
    (t u : TxSummaryTracer) (o : Option TxSummaryTracer)
    → AlwaysKeeps t o
    → o ≡ some u
    → IsSound t
    → IsSound u
unfolding AlwaysKeeps
always t u o k e h = Keeps-IsSound t u (k u e) h

-- Another state of the tracer of calls, with the same tree.
moved :
    (t : TxSummaryTracer) (n : Nested.Tracer)
    → SameTree t.nested.calls n.calls
    → IsSound t
    → IsSound (record t { nested = n })
moved t n same h = AllSummed-SameTree t.nested.calls n.calls t.summaries same h

opened-Is :
    (parent p : ℕ) (t u : TxSummaryTracer)
    → open_summary parent p t ≡ some u
    → (ds : List Data) × (lookup parent t.summaries ≡ some ds)
      × (record t {
        summaries = insert p (empty_data ∷ []) (insert parent (ds ++ empty_data ∷ []) t.summaries);
      }
          ≡ u)
unfolding open_summary
opened-Is parent p t u h =
    let (ds, l, e) = bound (lookup parent t.summaries) _ u h in (ds, l, same_tracer _ u e)

top_of : (p : ℕ) (ps qs : List ℕ) (q : ℕ) → ps ≡ p ∷ qs → top ps ≡ some q → q ≡ p
top_of p ps qs q e h = cc

capture_enter-IsSound :
    (cfg : Config) (view : StateView) (typ : ℕ) (from to : Address) (input : List ℕ)
    (value : Option ℕ) (t t' : TxSummaryTracer)
    → cfg.include_profit ≡ true
    → capture_enter cfg view typ from to input value t ≡ some t'
    → IsSound t
    → IsSound t'
unfolding capture_enter
capture_enter-IsSound cfg view typ from to input value t t' profit h sound =
    let (parent, e, h1) = bound (top t.nested.stack) _ t' h in
    let (c, f, h2) = bound (get_elem? t.nested.calls parent) _ t' h1 in
    let (n, entered, h3) = bound (Nested.capture_enter typ from to input value t.nested) _ t' h2 in
    let (p, g, h4) = bound (top n.stack) _ t' h3 in
    let (u, o, h5) = bound (open_summary parent p (record t { nested = n })) _ t' h4 in
    let (grows, stack) =
      capture_enter-Grows typ from to input value t.nested n parent c entered e f in
    let (ds, l, is) = opened-Is parent p (record t { nested = n }) u o in
    let at_end : p ≡ length t.nested.calls = top_of _ n.stack _ p stack g in
    let opened : IsSound u = subst IsSound is (
      subst
        (λ q.
          AllSummed n.calls
            (insert q (empty_data ∷ []) (insert parent (ds ++ empty_data ∷ []) t.summaries)))
        (sym at_end)
        (Grows-AllSummed t.nested.calls n.calls t.summaries parent c ds f l grows sound)) in
    always u t' _
      (keeps_if u (ltb 0 (value_of value)) _ _
        (record_value-Keeps cfg view from to (value_of value) c.current_location p u profit)
        (keeps_same u))
      h5 opened

capture_exit-IsSound :
    (r : ExecutionResult) (t t' : TxSummaryTracer)
    → capture_exit r t ≡ some t'
    → IsSound t
    → IsSound t'
unfolding capture_exit
capture_exit-IsSound r t t' h sound =
    let (p, e, h1) = bound (top t.nested.stack) _ t' h in
    let (u, c, h2) = bound (clear_if (has_error r) p t) _ t' h1 in
    let (n, x, h3) = bound (Nested.capture_exit r u.nested) _ t' h2 in
    subst IsSound (same_tracer (record u { nested = n }) t' h3) (
      moved u n (capture_exit-SameTree r u.nested n x)
        (always t u _ (clear_if-Keeps (has_error r) p t) c sound))

pub transaction_end-IsSound :
    (cfg : Config) (view : StateView) (tx : Tx) (r : ExecutionResult) (receipt : Receipt)
    (t t' : TxSummaryTracer)
    → cfg.include_profit ≡ true
    → transaction_end cfg view tx r receipt t ≡ some t'
    → IsSound t
    → IsSound t'
unfolding transaction_end
transaction_end-IsSound cfg view tx r receipt t t' profit h sound =
    let (p, e, h1) = bound (top t.nested.stack) _ t' h in
    let (u, f, h2) = bound (finish_data cfg view tx receipt p t) _ t' h1 in
    let (n, x, h3) = bound (Nested.transaction_end r (some receipt.number) u.nested) _ t' h2 in
    subst IsSound (same_tracer (record u { nested = n }) t' h3) (
      moved u n (transaction_end-SameTree r (some receipt.number) u.nested n x)
        (always t u _ (finish_data-Keeps cfg view tx receipt p t profit) f sound))

same_call : (c d : MsgCall) → some c ≡ some d → c ≡ d
same_call c d h = cc

root_summed :
    (root : MsgCall)
    → root.nested_calls ≡ []
    → AllSummed (root ∷ []) (insert 0 (empty_data ∷ []) [])
unfolding insert lookup
root_summed root leaf zero c e =
    let known : c.nested_calls ≡ [] =
      ap (λ (x : MsgCall). x.nested_calls) (sym (same_call root c e)) ∙ leaf in
    (
      (
        empty_data ∷ [],
        refl,
        ap (λ (x : List ℕ). suc (length x)) (sym known),
        (IsBalanced-empty_data, tt),
      ),
      subst (AllNewer 0 1) (sym known) tt,
    )
root_summed root leaf (suc p) c e = absurd (ground (arith, e))

pub transaction_start-IsSound :
    (create_address : Address → ℕ → Address) (nonce : ℕ) (tx : Tx) (t : TxSummaryTracer)
    → transaction_start create_address nonce tx fresh ≡ some t
    → IsSound t
unfolding transaction_start Nested.transaction_start ◌>>=◌
transaction_start-IsSound create_address nonce tx t h =
    subst IsSound (same_tracer _ t h) (root_summed _ refl)

module _ (get_ptr : List ℕ → ℕ → ℕ → Option (List ℕ))
    (unpack : List Input → List ℕ → Option (List Value)) (read_integer : AbiType → Hash → Value)
    (topics : Topics) (cfg : Config) (profit : cfg.include_profit ≡ true) where
  capture_state-IsSound :
      (view : StateView) (scope : Scope) (pc op gas cost : ℕ) (t t' : TxSummaryTracer)
      → capture_state get_ptr unpack read_integer topics cfg view scope pc op gas cost t ≡ some t'
      → IsSound t
      → IsSound t'
  unfolding capture_state
  capture_state-IsSound view scope pc op gas cost t t' h sound =
      let (n, x, h1) = bound (Nested.capture_state pc op gas cost t.nested) _ t' h in
      let (p, _, h2) = bound (top n.stack) _ t' h1 in
      let (c, _, h3) = bound (get_elem? n.calls p) _ t' h2 in
      let s = record t { nested = n } in
      let l = c.current_location in
      let (d, e, h4) =
        bound (if cfg.include_def then record_def scope op l p s else some s) _ t' h3 in
      let (u, f, h5) =
        bound (if cfg.include_use then record_use view scope op l p d else some d) _ t' h4 in
      always u t' _ (record_logs-Keeps get_ptr unpack read_integer topics cfg profit scope op l p u)
        h5
        (always d u _
          (keeps_if d cfg.include_use _ _ (record_use-Keeps view scope op l p d) (keeps_same d)) f
          (always s d _
            (keeps_if s cfg.include_def _ _ (record_def-Keeps scope op l p s) (keeps_same s)) e
            (moved t n (capture_state-SameTree pc op gas cost t.nested n x) sound)))

  step-IsSound :
      (e : Event) (t t' : TxSummaryTracer)
      → step get_ptr unpack read_integer topics cfg e t ≡ some t'
      → IsSound t
      → IsSound t'
  unfolding step
  step-IsSound (Event.state view scope pc op gas cost) t t' h =
      capture_state-IsSound view scope pc op gas cost t t' h
  step-IsSound (Event.enter view typ from to input value) t t' h =
      capture_enter-IsSound cfg view typ from to input value t t' profit h
  step-IsSound (Event.exit r) t t' h = capture_exit-IsSound r t t' h

  pub run-IsSound :
      (es : List Event) (t t' : TxSummaryTracer)
      → run get_ptr unpack read_integer topics cfg es t ≡ some t'
      → IsSound t
      → IsSound t'
  unfolding run
  run-IsSound [] t t' h sound = subst IsSound (same_tracer t t' h) sound
  run-IsSound (e ∷ es) t t' h sound =
      let (u, x, k) = bound (step get_ptr unpack read_integer topics cfg e t) _ t' h in
      run-IsSound es u t' k (step-IsSound e t u x sound)
