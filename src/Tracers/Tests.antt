-- ===== src/Tracers/Tests.antt =====
-- Runs of the call tracer on small inputs.
use erebus_redgiant.Prelude.{suc, length, ◌+◌, ◌≡◌, refl, none, some, List, [], ◌∷◌, arith}
use erebus_redgiant.Prelude.Int.{negsuc}
use erebus_redgiant.Tracers.Position.{cmp}
use erebus_redgiant.Tracers.Position.Order.{cmp-opposite, cmp_trans, opposite}
use erebus_redgiant.Tracers.Call.{ExecutionResult, gen_child_position, count_contracts}
use erebus_redgiant.Tracers.Nested.{Tracer, transaction_end, fresh, transaction_start, op_call}
use erebus_redgiant.Tracers.Nested.Creation.{Event, run}
use erebus_redgiant.Tracers.Nested.Ordering.{started, run-ordered}
use erebus_redgiant.Tracers.Nested.Total.{Nests, depth_after, transaction_total}
use erebus_redgiant.Tracers.Nested.Chain.{positions}

abbrev done : ExecutionResult
done = record { err = none; used_gas = 0; return_data = [] }

-- A call to 0x1000, in it a call of a precompiled contract, and then a second nested call.
abbrev two_calls : List Event
two_calls =
    Event.state 0 op_call 100 10
    ∷ Event.enter op_call 1000 1 [] none
    ∷ Event.exit done
    ∷ Event.enter op_call 1000 2000 [] (some 5)
    ∷ Event.enter op_call 2000 3000 [] none
    ∷ []

abbrev first : Tracer
first = started (λ a n. a + n) 0 7 (some 1000) [] 0

abbrev after : Tracer
after = elim (run two_calls first) [ none ↦ fresh | some t ↦ t ]

two_calls_positions :
    (positions after.calls ≡ [] ∷ (0 ∷ []) ∷ (1 ∷ []) ∷ (1 ∷ 0 ∷ []) ∷ [])
    × (after.stack ≡ 3 ∷ 2 ∷ 0 ∷ [])
unfolding run transaction_start positions gen_child_position count_contracts
two_calls_positions = (refl, refl)

run-ordered_example : cmp (0 ∷ []) (1 ∷ 0 ∷ []) ≡ negsuc 0
unfolding run transaction_start gen_child_position count_contracts
run-ordered_example =
    run-ordered (λ x n. x + n) 0 7 (some 1000) [] 0 two_calls after 1 3 refl (omega arith) refl refl

transaction_total_example :
    (t : Tracer) × (run two_calls first ≡ some t)
    × (length t.stack ≡ suc (depth_after 0 two_calls))
    × ((t' : Tracer) × (transaction_end done none t ≡ some t'))
unfolding Nests
transaction_total_example =
    transaction_total (λ a n. a + n) 0 7 (some 1000) [] 0 two_calls done none tt

cmp-opposite_example : cmp (1 ∷ []) (0 ∷ 2 ∷ []) ≡ opposite (cmp (0 ∷ 2 ∷ []) (1 ∷ []))
cmp-opposite_example = cmp-opposite (0 ∷ 2 ∷ []) (1 ∷ [])

cmp_trans_example : cmp (0 ∷ []) (1 ∷ 0 ∷ []) ≡ negsuc 0
unfolding cmp
cmp_trans_example = cmp_trans (0 ∷ []) (1 ∷ []) (1 ∷ 0 ∷ []) refl refl
