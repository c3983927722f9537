-- ===== src/DataFlow/Policy/Tests.antt =====
-- Small runs of the flow functions of analysis/data_flow/policy.go.
use erebus_redgiant.Prelude.{◌≡◌, refl, true, false, ◌||◌, none, some, [], ◌∷◌, ◌++◌, ◌&&◌}
use erebus_redgiant.DataFlow.Node.{is_tainted}
use erebus_redgiant.DataFlow.Policy.{Operation, Analyzer, Trackers}
use erebus_redgiant.DataFlow.Policy.Flows.{no_hook, pure_op_flow, sload_flow, sstore_flow}
use erebus_redgiant.DataFlow.Policy.Effects.{HasResult, one_result, pure_op-HasResult, sload-sstore}

-- An analyzer without sources, for which SSTORE is the sink.
abbrev watcher : Analyzer
watcher = record { label = 2; is_source = λ op. false; is_sink = λ op. true }

abbrev add_op : Operation
add_op = record {
  id = 5;
  opcode = 0x01;
  arguments = 3 ∷ 4 ∷ [];
  contract = 300;
  code_addr = 300;
  child_position = λ b. record { position = []; compact_position = [] };
}

-- One node, and one storage with nothing in it.
abbrev small : Trackers
small = record {
  nodes = record { label = 2; operation = 1; from = [] } ∷ [];
  calls = [];
  storages = [] ∷ [];
  chain = record { balances = []; codes = [] };
  sinks = [];
  stack = [];
  memory = [];
  storage = 0;
  call = 0;
  child_call = none;
  results = [];
}

pure_op-HasResult_example :
    (s' : Trackers) × (pure_op_flow watcher 0 add_op
        (3 ∷ 4 ∷ [])
        (some 0 ∷ none ∷ [])
        (one_result small)
      ≡ some (no_hook, s'))
    × HasResult
        (is_tainted (some 0 ∷ none ∷ []) || false)
        (is_tainted (some 0 ∷ none ∷ []) && true)
        small
        s'
pure_op-HasResult_example =
    pure_op-HasResult watcher 0 add_op (3 ∷ 4 ∷ []) (some 0 ∷ none ∷ []) small

-- A tainted value is stored at 9 and loaded from there.
sload-sstore_example :
    (t : Trackers) × (u : Trackers) × (sstore_flow watcher 0 add_op
        ((7 ∷ []) ++ 9 ∷ [])
        (some 0 ∷ none ∷ [])
        small
      ≡ some (no_hook, t))
    × (sload_flow watcher 0 add_op ([] ++ 9 ∷ []) (none ∷ []) (one_result t) ≡ some (no_hook, u))
    × (is_tainted u.results
        ≡ ((is_tainted (some 0 ∷ none ∷ []) || false) || is_tainted (none ∷ [])) || false)
sload-sstore_example =
    sload-sstore watcher 0 add_op add_op (7 ∷ []) [] 9 (some 0 ∷ none ∷ []) (none ∷ []) small []
      refl
