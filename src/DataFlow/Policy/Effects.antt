-- ===== src/DataFlow/Policy/Effects.antt =====
-- Where taint goes by the flow functions of analysis/data_flow/policy.go: pure operations, and the storage between
-- SSTORE and SLOAD.
use erebus_redgiant.Prelude.{
  ℕ, ◌+◌, ◌-◌, ◌≡◌, refl, ap, ◌∙◌, Bool, true, false, ◌||◌, ◌&&◌, none, some, List, [], ◌∷◌, ◌++◌,
  length, length-append, get_elem?, get_elem?-length_append, set, get_elem?-set_self, get_elem?-lt,
  arith, if◌then◌else◌, nat_eq, ltb,
}
use erebus_redgiant.Prelude.Map.{insert, lookup-insert}
use erebus_redgiant.DataFlow.Node.{FlowNode, Store, is_tainted, new_raw_flow_node}
use erebus_redgiant.DataFlow.Call.{Storage, storage_load, storage_store, storage_clear}
use erebus_redgiant.DataFlow.Policy.{
  ◌>>◌, Operation, Analyzer, Trackers, M, pure, ◌>>=◌, when, lift, gets_some, modify, modify_some,
  back, add_upstreams, upstream_of, put_result, set_result, sink_tainted, current_storage,
  on_storage, new_flow_node, fresh_result,
}
use erebus_redgiant.DataFlow.Policy.Flows.{
  no_hook, is_node, derived_result, pure_op_flow, sload_flow, sstore_flow,
}

-- The state after a flow that gave its operation one result: the result is a node where `tainted` says so, and is
-- reported where `sunk` says so; nothing but nodes, results and reports has changed.
pub record HasResult (tainted sunk : Bool) (s s' : Trackers) : Type 0 where
  pub result : FlowNode
  pub results : s'.results ≡ result ∷ []
  pub taint : is_node result ≡ tainted
  pub sinks : s'.sinks ≡ (if sunk then s.sinks ++ result ∷ [] else s.sinks)
  pub stack : s'.stack ≡ s.stack
  pub memory : s'.memory ≡ s.memory
  pub storages : s'.storages ≡ s.storages
  pub chain : s'.chain ≡ s.chain
  pub calls : s'.calls ≡ s.calls

-- The state in which an operation with one result starts.
abbrev pub one_result : Trackers → Trackers
one_result s = record s { results = none ∷ [] }

abbrev made : Trackers → FlowNode → Store → List FlowNode → Trackers
made s r nodes sinks = record s { nodes = nodes; results = r ∷ []; sinks = sinks }

made-HasResult :
    (tainted sunk : Bool) (s : Trackers) (r : FlowNode) (nodes : Store) (sinks : List FlowNode)
    → is_node r ≡ tainted
    → sinks ≡ (if sunk then s.sinks ++ r ∷ [] else s.sinks)
    → HasResult tainted sunk s (made s r nodes sinks)
made-HasResult tainted sunk s r nodes sinks ht hs = record {
  result = r;
  results = refl;
  taint = ht;
  sinks = hs;
  stack = refl;
  memory = refl;
  storages = refl;
  chain = refl;
  calls = refl;
}

module _ (a : Analyzer) (fuel : ℕ) (op : Operation) (first second : List FlowNode)
    (s : Trackers) where
  -- The nodes after a new one that has the two lists as its upstream.
  abbrev derived_nodes : Store
  derived_nodes =
      let p = some (length s.nodes) in
      add_upstreams p second (add_upstreams p first (new_raw_flow_node op.id a.label s.nodes).1)

  derived_result_cases :
      (tainted source sink : Bool)
      → a.is_source op ≡ source
      → a.is_sink op ≡ sink
      → (s' : Trackers) × (derived_result a fuel op tainted first second (one_result s)
          ≡ some (no_hook, s'))
        × HasResult (tainted || source) (tainted && sink) s s'
  unfolding derived_result pure ◌>>=◌ when modify modify_some upstream_of put_result set_result
      sink_tainted new_flow_node fresh_result new_raw_flow_node
  derived_result_cases true source true hs hk = (
    made s _ derived_nodes _,
    rw (hk, derived_result) refl,
    made-HasResult true true s (some (length s.nodes)) _ _ refl refl,
  )
  derived_result_cases true source false hs hk = (
    made s _ derived_nodes _,
    rw (hk, derived_result) refl,
    made-HasResult true false s (some (length s.nodes)) _ _ refl refl,
  )
  derived_result_cases false true sink hs hk = (
    made s _ (new_raw_flow_node op.id a.label s.nodes).1 _,
    rw (hs, derived_result) refl,
    made-HasResult true false s (some (length s.nodes)) _ _ refl refl,
  )
  derived_result_cases false false sink hs hk = (
    made s none s.nodes s.sinks,
    rw (hs, derived_result) refl,
    made-HasResult false false s none _ _ refl refl,
  )

  -- A flow that derives its result returns: the result is tainted where the operands are or the operation is a source,
  -- and it is reported at a sink where the operands are tainted.
  derived_result_lem :
      (tainted : Bool)
      → (s' : Trackers) × (derived_result a fuel op tainted first second (one_result s)
          ≡ some (no_hook, s'))
        × HasResult (tainted || a.is_source op) (tainted && a.is_sink op) s s'
  derived_result_lem tainted = derived_result_cases tainted _ _ refl refl

-- The flow of a pure operation with one result returns, without a hook: the result is a node just where some argument
-- is tainted or the operation is a source; it is reported just where some argument is tainted and the operation is a
-- sink; stack, memory, storages, chain and calls are as before.
pub pure_op-HasResult :
    (a : Analyzer) (fuel : ℕ) (op : Operation) (evm : List ℕ) (args : List FlowNode) (s : Trackers)
    → (s' : Trackers) × (pure_op_flow a fuel op evm args (one_result s) ≡ some (no_hook, s'))
      × HasResult (is_tainted args || a.is_source op) (is_tainted args && a.is_sink op) s s'
unfolding pure_op_flow
pure_op-HasResult a fuel op evm args s = derived_result_lem a fuel op args [] s (is_tainted args)

back_top : (rest : List ℕ) (key : ℕ) (s : Trackers) → back (rest ++ key ∷ []) 0 s ≡ some (key, s)
unfolding back lift
back_top rest key s =
    let size : length (rest ++ key ∷ []) ≡ length rest + 1 = length-append rest (key ∷ []) in
    let index : length (rest ++ key ∷ []) - 0 - 1 ≡ length rest = omega (arith, size) in
    let inside : ltb 0 (length (rest ++ key ∷ [])) ≡ true = ground (arith, size) in
    rw (inside, index, get_elem?-length_append rest [] key, back) refl

bind_run :
    {A B : Type 0} (m : M A) (f : A → M B) (s t : Trackers) (x : A)
    → m s ≡ some (x, t)
    → (m >>= f) s ≡ f x t
unfolding ◌>>=◌
bind_run m f s t x h = rw (h, ◌>>=◌) refl

on_storage_run :
    (f : Storage → Storage) (st : Storage) (s : Trackers)
    → get_elem? s.storages s.storage ≡ some st
    → on_storage f s ≡ some (tt, record s { storages = set s.storages s.storage (f st) })
unfolding on_storage modify_some
on_storage_run f st s h = rw (h, modify_some) refl

current_storage_run :
    (st : Storage) (s : Trackers)
    → get_elem? s.storages s.storage ≡ some st
    → current_storage s ≡ some (st, s)
unfolding current_storage gets_some
current_storage_run st s h = rw (h, gets_some) refl

module _ (a : Analyzer) (fuel : ℕ) (op : Operation) (rest : List ℕ) (key : ℕ) (args : List FlowNode)
    (s : Trackers) (st : Storage) where
  abbrev kept : Store → FlowNode → List FlowNode → Trackers
  kept nodes v sinks = record s {
    nodes = nodes;
    storages = set s.storages s.storage (insert key v st);
    sinks = sinks;
  }

  abbrev stored_nodes : Store
  stored_nodes =
      add_upstreams (some (length s.nodes)) args (new_raw_flow_node op.id a.label s.nodes).1

  abbrev reports : Bool → List FlowNode
  reports b = if b then s.sinks ++ some (length s.nodes) ∷ [] else s.sinks

  tainted_store :
      (b : Bool)
      → get_elem? s.storages s.storage ≡ some st
      → (new_flow_node a op >>= λ n.
            upstream_of n args >> (on_storage (storage_store key n) >> when b (sink_tainted n)))
          s
        ≡ some (tt, kept stored_nodes (some (length s.nodes)) (reports b))
  unfolding new_flow_node new_raw_flow_node upstream_of modify when pure sink_tainted storage_store
  tainted_store b e =
      let s1 = record s { nodes = (new_raw_flow_node op.id a.label s.nodes).1 } in
      let s2 = record s { nodes = stored_nodes } in
      bind_run _ _ s s1 (some (length s.nodes)) refl
      ∙ (bind_run _ _ s1 s2 tt refl
          ∙ (bind_run _ _ s2 _ tt
                (on_storage_run (storage_store key (some (length s.nodes))) st s2 e)
              ∙ last b))
    where
      last :
          (b : Bool)
          → when b
              (sink_tainted (some (length s.nodes)))
              (kept stored_nodes (some (length s.nodes)) s.sinks)
            ≡ some (tt, kept stored_nodes (some (length s.nodes)) (reports b))
      last true = refl
      last false = refl

  source_store :
      get_elem? s.storages s.storage ≡ some st
      → (new_flow_node a op >>= λ n. on_storage (storage_store key n)) s
        ≡ some
            (tt, kept (new_raw_flow_node op.id a.label s.nodes).1 (some (length s.nodes)) s.sinks)
  unfolding ◌>>=◌ new_flow_node new_raw_flow_node on_storage modify_some storage_store
  source_store e = rw (e, modify_some) refl

  sstore_cases :
      (tainted source sink : Bool)
      → is_tainted args ≡ tainted
      → a.is_source op ≡ source
      → a.is_sink op ≡ sink
      → get_elem? s.storages s.storage ≡ some st
      → (s' : Trackers) × (v : FlowNode) × (sstore_flow a fuel op (rest ++ key ∷ []) args s
          ≡ some (no_hook, s'))
        × (is_node v ≡ (tainted || source))
        × (s'.storage ≡ s.storage)
        × (s'.storages ≡ set s.storages s.storage (insert key v st))
  unfolding sstore_flow pure storage_store storage_clear
  sstore_cases true source true ht hs hk e = (
    kept stored_nodes (some (length s.nodes)) (s.sinks ++ some (length s.nodes) ∷ []),
    some (length s.nodes),
    bind_run _ _ s s key (back_top rest key s)
        ∙ bind_run _ _ s _ tt (rw (ht, hk) (tainted_store true e)),
    refl,
    refl,
    refl,
  )
  sstore_cases true source false ht hs hk e = (
    kept stored_nodes (some (length s.nodes)) s.sinks,
    some (length s.nodes),
    bind_run _ _ s s key (back_top rest key s)
        ∙ bind_run _ _ s _ tt (rw (ht, hk) (tainted_store false e)),
    refl,
    refl,
    refl,
  )
  sstore_cases false true sink ht hs hk e = (
    kept (new_raw_flow_node op.id a.label s.nodes).1 (some (length s.nodes)) s.sinks,
    some (length s.nodes),
    bind_run _ _ s s key (back_top rest key s) ∙ bind_run _ _ s _ tt (rw (ht, hs) (source_store e)),
    refl,
    refl,
    refl,
  )
  sstore_cases false false sink ht hs hk e = (
    kept s.nodes none s.sinks,
    none,
    bind_run _ _ s s key (back_top rest key s)
        ∙ bind_run _ _ s _ tt (rw (ht, hs) (on_storage_run (storage_clear key) st s e)),
    refl,
    refl,
    refl,
  )

  -- SSTORE in a storage that is there returns, and leaves at the key a node just where the value or the key is
  -- tainted or the operation is a source.
  sstore_lem :
      get_elem? s.storages s.storage ≡ some st
      → (s' : Trackers) × (v : FlowNode) × (sstore_flow a fuel op (rest ++ key ∷ []) args s
          ≡ some (no_hook, s'))
        × (is_node v ≡ (is_tainted args || a.is_source op))
        × (s'.storage ≡ s.storage)
        × (s'.storages ≡ set s.storages s.storage (insert key v st))
  sstore_lem e = sstore_cases _ _ _ refl refl refl e

sload_lem :
    (a : Analyzer) (fuel : ℕ) (op : Operation) (rest : List ℕ) (key : ℕ) (args : List FlowNode)
    (s : Trackers) (st : Storage)
    → get_elem? s.storages s.storage ≡ some st
    → (s' : Trackers) × (sload_flow a fuel op (rest ++ key ∷ []) args (one_result s)
        ≡ some (no_hook, s'))
      × HasResult
          ((is_node (storage_load st key) || is_tainted args) || a.is_source op)
          ((is_node (storage_load st key) || is_tainted args) && a.is_sink op)
          s
          s'
unfolding sload_flow
sload_lem a fuel op rest key args s st e =
    let (s', run, r) =
      derived_result_lem a fuel op (storage_load st key ∷ []) args s
        (is_node (storage_load st key) || is_tainted args) in
    (
      s',
      bind_run _ _ _ _ key (back_top rest key (one_result s))
          ∙ (bind_run _ _ _ (one_result s) st (current_storage_run st (one_result s) e) ∙ run),
      r,
    )

taint_of : (l : List FlowNode) (v : FlowNode) → l ≡ v ∷ [] → is_tainted l ≡ is_node v
unfolding is_tainted
taint_of l none h = rw h refl
taint_of l (some p) h = rw h refl

load-insert : (key : ℕ) (v : FlowNode) (st : Storage) → storage_load (insert key v st) key ≡ v
unfolding storage_load
load-insert key v st = ground (arith, lookup-insert key key v st)

-- An SLOAD after an SSTORE of the same storage with the same key, whatever the other operands and the two analyses of
-- sources and sinks: both return, and the loaded value is a node just where an operand of the SSTORE or of the SLOAD is
-- tainted or one of the two operations is a source, so that a clean SSTORE clears the slot.
pub sload-sstore :
    (a : Analyzer) (fuel : ℕ) (store_op load_op : Operation) (below rest : List ℕ) (key : ℕ)
    (stored loaded : List FlowNode) (s : Trackers) (st : Storage)
    → get_elem? s.storages s.storage ≡ some st
    → (t : Trackers) × (u : Trackers) × (sstore_flow a fuel store_op (below ++ key ∷ []) stored s
        ≡ some (no_hook, t))
      × (sload_flow a fuel load_op (rest ++ key ∷ []) loaded (one_result t) ≡ some (no_hook, u))
      × (is_tainted u.results
          ≡ ((is_tainted stored || a.is_source store_op) || is_tainted loaded)
            || a.is_source load_op)
sload-sstore a fuel store_op load_op below rest key stored loaded s st e =
    let (t, v, run, hv, hp, hs) = sstore_lem a fuel store_op below key stored s st e in
    let there : get_elem? t.storages t.storage ≡ some (insert key v st) =
      ap (get_elem? t.storages) hp
      ∙ ap (λ l. get_elem? l s.storage) hs
      ∙ get_elem?-set_self s.storages s.storage _ (get_elem?-lt s.storages s.storage e) in
    let (u, ran, r) = sload_lem a fuel load_op rest key loaded t (insert key v st) there in
    (
      t,
      u,
      run,
      ran,
      taint_of _ _ r.results
          ∙ r.taint
          ∙ ap (λ b. (b || is_tainted loaded) || a.is_source load_op)
              (ap is_node (load-insert key v st) ∙ hv),
    )
