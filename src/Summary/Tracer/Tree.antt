-- ===== src/Summary/Tracer/Tree.antt =====
-- The tree of summaries that the tracer of summary_tracer.go leaves: NestedSummaries of summary.go
-- takes the InnerData of the calls below a call. `none` is a nil pointer, or too little fuel; the
-- number of calls is enough.
use erebus_redgiant.Prelude.{
  ℕ, zero, suc, ◌+◌, ◌≤◌, ◌<◌, ◌≡◌, refl, Bool, Option, none, some, List, [], ◌∷◌, ◌++◌, arith,
  length, get_elem?, nat_eq,
}
use erebus_redgiant.Prelude.Map.{lookup}
use erebus_redgiant.Prelude.Partial.{◌>>=◌}
use erebus_redgiant.Tracers.Call.{MsgCall, ExecutionResult}
use erebus_redgiant.Tracers.Nested.{top}
use erebus_redgiant.Summary.Calls.{
  Data, CallSummary, NestedSummaries, call_summary, no_summaries, nested_summary,
}
use erebus_redgiant.Summary.Calls.Uses.{every_data, data_along}
use erebus_redgiant.Summary.Tracer.{TxSummaryTracer}
use erebus_redgiant.Summary.Tracer.Hooks.{has_error}
use erebus_redgiant.Summary.Tracer.Store.{AllBalanced, AllNewer}
use erebus_redgiant.Summary.Tracer.Runs.{IsSound}

-- The calls below, each with the Data that follows it.
unfoldable pub nested_of : (ℕ → Option CallSummary) → List ℕ → List Data → Option NestedSummaries
nested_of summary [] [] = some no_summaries
nested_of summary [] (d ∷ ds) = none
nested_of summary (q ∷ qs) [] = none
nested_of summary (q ∷ qs) (d ∷ ds) = do
  s ← summary q
  rest ← nested_of summary qs ds
  some (nested_summary s d rest)

unfoldable pub call_of : (ℕ → Option CallSummary) → Bool → List ℕ → List Data → Option CallSummary
unfolding nested_of
call_of summary failed qs [] = none
call_of summary failed qs (d ∷ ds) = do
  rest ← nested_of summary qs ds
  some (call_summary failed d rest)

-- CallFailed reads the result of the call.
unfoldable pub summary_of : ℕ → TxSummaryTracer → ℕ → Option CallSummary
unfolding call_of
summary_of zero t p = none
summary_of (suc fuel) t p = do
  c ← get_elem? t.nested.calls p
  r ← c.result
  ds ← lookup p t.summaries
  call_of (summary_of fuel t) (has_error r) c.nested_calls ds

-- The field Summary, which TransactionEnd sets.
unfoldable pub tx_summary : TxSummaryTracer → Option CallSummary
unfolding summary_of
tx_summary t = do p ← top t.nested.stack; summary_of (length t.nested.calls) t p

-- Every call has ended.
abbrev pub AllEnded : List MsgCall → Type 0
AllEnded calls =
    (p : ℕ) (c : MsgCall) → get_elem? calls p ≡ some c → (r : ExecutionResult) × (c.result ≡ some r)

found :
    (calls : List MsgCall) (p : ℕ) → p < length calls → (c : MsgCall) × (get_elem? calls p ≡ some c)
found [] p lt = absurd (omega arith)
found (c ∷ calls) zero lt = (c, refl)
found (c ∷ calls) (suc p) lt = found calls p (omega arith)

-- A summary of balanced Data.
abbrev pub AllDataBalanced : CallSummary → Type 0
AllDataBalanced c = AllBalanced (every_data c)

pub AllBalanced-append : (l m : List Data) → AllBalanced l → AllBalanced m → AllBalanced (l ++ m)
AllBalanced-append [] m h k = k
AllBalanced-append (d ∷ l) m h k = (h.0, AllBalanced-append l m h.1 k)

nested_of-AllBalanced :
    (summary : ℕ → Option CallSummary) (p n : ℕ) (qs : List ℕ) (ds : List Data)
    → AllNewer p n qs
    → length ds ≡ length qs
    → AllBalanced ds
    → ((q : ℕ) → p < q → q < n → (s : CallSummary) × (summary q ≡ some s) × AllDataBalanced s)
    → (rest : NestedSummaries) × (nested_of summary qs ds ≡ some rest)
      × AllBalanced (data_along rest)
unfolding nested_of every_data data_along ◌>>=◌
nested_of-AllBalanced summary p n [] [] h l b k = (no_summaries, refl, tt)
nested_of-AllBalanced summary p n [] (d ∷ ds) h l b k = absurd (omega (arith, l))
nested_of-AllBalanced summary p n (q ∷ qs) [] h l b k = absurd (omega (arith, l))
nested_of-AllBalanced summary p n (q ∷ qs) (d ∷ ds) h l b k =
    let (s, e, bs) = k q h.0 h.1 in
    let (rest, f, br) = nested_of-AllBalanced summary p n qs ds h.2 (omega (arith, l)) b.1 k in
    (
      nested_summary s d rest,
      rw (e, f) refl,
      AllBalanced-append (every_data s) (d ∷ data_along rest) bs (b.0, br),
    )

call_of-AllBalanced :
    (summary : ℕ → Option CallSummary) (failed : Bool) (p n : ℕ) (qs : List ℕ) (ds : List Data)
    → AllNewer p n qs
    → length ds ≡ suc (length qs)
    → AllBalanced ds
    → ((q : ℕ) → p < q → q < n → (s : CallSummary) × (summary q ≡ some s) × AllDataBalanced s)
    → (c : CallSummary) × (call_of summary failed qs ds ≡ some c) × AllDataBalanced c
unfolding call_of every_data ◌>>=◌
call_of-AllBalanced summary failed p n qs [] h l b k = absurd (omega (arith, l))
call_of-AllBalanced summary failed p n qs (d ∷ ds) h l b k =
    let (rest, f, br) = nested_of-AllBalanced summary p n qs ds h (omega (arith, l)) b.1 k in
    (call_summary failed d rest, rw f refl, (b.0, br))

-- Where every call has ended, the tree of summaries below a call is complete, and all its Data are
-- balanced.
pub summary_of-AllBalanced :
    (fuel : ℕ) (t : TxSummaryTracer) (p : ℕ)
    → IsSound t
    → AllEnded t.nested.calls
    → p < length t.nested.calls
    → length t.nested.calls ≤ p + fuel
    → (c : CallSummary) × (summary_of fuel t p ≡ some c) × AllDataBalanced c
unfolding summary_of ◌>>=◌
summary_of-AllBalanced zero t p sound ended lt le = absurd (omega arith)
summary_of-AllBalanced (suc fuel) t p sound ended lt le =
    let (c, e) = found t.nested.calls p lt in
    let (r, f) = ended p c e in
    let ((ds, l, m, b), newer) = sound p c e in
    let (s, h, bs) =
      call_of-AllBalanced (summary_of fuel t) (has_error r) p (length t.nested.calls) c.nested_calls
        ds newer m b
        (λ q after before. summary_of-AllBalanced fuel t q sound ended before (omega arith)) in
    (s, rw (e, f, l) h, bs)
