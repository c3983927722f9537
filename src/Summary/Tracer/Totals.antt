-- ===== src/Summary/Tracer/Totals.antt =====
-- What a transaction earns and what it transfers, by summary.go and summary_tracer.go together.
use mathlib.Core.Path.{subst}
use erebus_redgiant.Prelude.{
  ℕ, ◌<◌, ◌≡◌, refl, sym, ap, ◌∙◌, true, false, Option, some, inl, inr, List, [], ◌∷◌, ◌++◌, arith,
  length, get_elem?, get_elem?-lt, Option-cases, Address, Hash, length-set,
}
use erebus_redgiant.Prelude.Int.{◌+ℤ◌}
use erebus_redgiant.Prelude.Outcome.{ok}
use erebus_redgiant.Prelude.Partial.{◌>>=◌, bound}
use erebus_redgiant.Tracers.Call.{ExecutionResult}
use erebus_redgiant.Tracers.Nested
use erebus_redgiant.Tracers.Nested.{top}
use erebus_redgiant.Contract.Encoding.{AbiType, Value, Input}
use erebus_redgiant.Summary.Profit.Amount.{Holding}
use erebus_redgiant.Summary.Profits.{Profits}
use erebus_redgiant.Summary.Profits.Conservation.{total, NoSingleTokens}
use erebus_redgiant.Summary.Transfer.{Transfer}
use erebus_redgiant.Summary.Transfer.Conservation.{gains}
use erebus_redgiant.Summary.Calls.{
  Data, CallSummary, NestedSummaries, call_summary, no_summaries, nested_summary, overall_profits,
  overall_transfers, transfers_along,
}
use erebus_redgiant.Summary.Calls.Exposed.{
  exposed, exposed_along, profits_in, total_append, total-overall_profits,
}
use erebus_redgiant.Summary.Calls.Uses.{every_data, data_along}
use erebus_redgiant.Summary.Events.{Topics}
use erebus_redgiant.Summary.Tracer.{Config, TxSummaryTracer, StateView}
use erebus_redgiant.Summary.Tracer.Balance.{gains_append}
use erebus_redgiant.Summary.Tracer.Hooks.{
  Event, run, Tx, Receipt, transaction_start, transaction_end, fresh, finish_data,
}
use erebus_redgiant.Summary.Tracer.Store.{AllBalanced, same_tracer}
use erebus_redgiant.Summary.Tracer.Runs.{
  IsSound, transaction_start-IsSound, transaction_end-IsSound, run-IsSound,
}
use erebus_redgiant.Summary.Tracer.Tree.{
  tx_summary, AllEnded, AllDataBalanced, AllBalanced-append, summary_of-AllBalanced,
}

unfoldable pub transfers_in : List Data → List Transfer
transfers_in [] = []
transfers_in (d ∷ ds) = d.transfers ++ transfers_in ds

join : (a b c : List Transfer) → (a ++ b) ++ c ≡ a ++ (b ++ c)
join [] b c = refl
join (x ∷ a) b c = ap (λ l. x ∷ l) (join a b c)

right : (a : List Transfer) → a ++ [] ≡ a
right [] = refl
right (x ∷ a) = ap (λ l. x ∷ l) (right a)

transfers_in-append : (l m : List Data) → transfers_in (l ++ m) ≡ transfers_in l ++ transfers_in m
unfolding transfers_in
transfers_in-append [] m = refl
transfers_in-append (d ∷ l) m =
    ap (λ x. d.transfers ++ x) (transfers_in-append l m)
    ∙ sym (join d.transfers (transfers_in l) (transfers_in m))

mutual
  unfolding overall_transfers transfers_along exposed exposed_along transfers_in

  call_transfers : (c : CallSummary) → overall_transfers c ≡ transfers_in (exposed c)
  call_transfers (call_summary true d rest) = refl
  call_transfers (call_summary false d rest) = along_transfers rest d.transfers

  along_transfers :
      (rest : NestedSummaries) (ts : List Transfer)
      → transfers_along ts rest ≡ ts ++ transfers_in (exposed_along rest)
  along_transfers no_summaries ts = sym (right ts)
  along_transfers (nested_summary s d rest) ts =
      let later = transfers_in (exposed_along rest) in
      along_transfers rest ((ts ++ overall_transfers s) ++ d.transfers)
      ∙ join (ts ++ overall_transfers s) d.transfers later
      ∙ join ts (overall_transfers s) (d.transfers ++ later)
      ∙ ap (λ x. ts ++ (x ++ (d.transfers ++ later))) (call_transfers s)
      ∙ ap (λ x. ts ++ x) (sym (transfers_in-append (exposed s) (d ∷ exposed_along rest)))

AllBalanced-split : (l m : List Data) → AllBalanced (l ++ m) → AllBalanced l × AllBalanced m
AllBalanced-split [] m h = (tt, h)
AllBalanced-split (d ∷ l) m h = let (a, b) = AllBalanced-split l m h.1 in ((h.0, a), b)

mutual
  unfolding every_data data_along exposed exposed_along

  exposed-AllBalanced : (c : CallSummary) → AllBalanced (every_data c) → AllBalanced (exposed c)
  exposed-AllBalanced (call_summary true d rest) h = tt
  exposed-AllBalanced (call_summary false d rest) h = (h.0, along-AllBalanced rest h.1)

  along-AllBalanced :
      (rest : NestedSummaries) → AllBalanced (data_along rest) → AllBalanced (exposed_along rest)
  along-AllBalanced no_summaries h = tt
  along-AllBalanced (nested_summary s d rest) h =
      let (a, b) = AllBalanced-split (every_data s) (d ∷ data_along rest) h in
      AllBalanced-append (exposed s) (d ∷ exposed_along rest) (exposed-AllBalanced s a)
        (b.0, along-AllBalanced rest b.1)

NoSingleTokens-append :
    (l m : Profits) → NoSingleTokens l → NoSingleTokens m → NoSingleTokens (l ++ m)
NoSingleTokens-append [] m h k = k
NoSingleTokens-append (p ∷ l) m h k = (h.0, NoSingleTokens-append l m h.1 k)

balanced_totals :
    (ds : List Data)
    → AllBalanced ds
    → NoSingleTokens (profits_in ds)
      × ((k : Holding) → total k (profits_in ds) ≡ gains k (transfers_in ds))
unfolding profits_in transfers_in total gains
balanced_totals [] h = (tt, λ k. refl)
balanced_totals (d ∷ ds) h =
    let (safe, even) = balanced_totals ds h.1 in
    (
      NoSingleTokens-append d.profits (profits_in ds) h.0.0 safe,
      λ k.
          total_append k d.profits (profits_in ds)
          ∙ ap (λ x. x +ℤ total k (profits_in ds)) (h.0.1 k)
          ∙ ap (λ x. gains k d.transfers +ℤ x) (even k)
          ∙ sym (gains_append k d.transfers (transfers_in ds)),
    )

balanced_call :
    (c : CallSummary)
    → AllDataBalanced c
    → (qs : Profits) × (overall_profits c ≡ ok qs)
      × ((k : Holding) → total k qs ≡ gains k (overall_transfers c))
balanced_call c h =
    let (safe, even) = balanced_totals (exposed c) (exposed-AllBalanced c h) in
    let (qs, e, _, t) = total-overall_profits c safe in
    (qs, e, λ k. t k ∙ even k ∙ ap (gains k) (sym (call_transfers c)))

-- The call that the end of the transaction leaves on the stack.
ended_call :
    (r : ExecutionResult) (receipt : Option ℕ) (n n' : Nested.Tracer)
    → Nested.transaction_end r receipt n ≡ some n'
    → (p : ℕ) × (top n'.stack ≡ some p) × (p < length n'.calls)
unfolding Nested.transaction_end
ended_call r receipt n n' h = elim (Option-cases (top n.stack)) [
  | inl e ↦ absurd (ground (arith, rw (e, Nested.transaction_end) at h))
  | inr (p, e) ↦ elim (Option-cases (get_elem? n.calls p)) [
    | inl f ↦ absurd (ground (arith, rw (e, f, Nested.transaction_end) at h))
    | inr (c, f) ↦
        subst (λ (x : Nested.Tracer). (p : ℕ) × (top x.stack ≡ some p) × (p < length x.calls))
          (same_nested _ n' (rw (e, f, Nested.transaction_end) at h))
          (
            p,
            e,
            omega (
              arith,
              get_elem?-lt n.calls p f,
              length-set n.calls p (record c { result = some r; receipt = receipt }),
            ),
          )
  ]
]
  where
    same_nested : (x y : Nested.Tracer) → some x ≡ some y → x ≡ y
    same_nested x y k = cc

final_call :
    (cfg : Config) (view : StateView) (tx : Tx) (r : ExecutionResult) (receipt : Receipt)
    (u t : TxSummaryTracer)
    → transaction_end cfg view tx r receipt u ≡ some t
    → (p : ℕ) × (top t.nested.stack ≡ some p) × (p < length t.nested.calls)
unfolding transaction_end
final_call cfg view tx r receipt u t h =
    let (p, e, h1) = bound (top u.nested.stack) _ t h in
    let (v, f, h2) = bound (finish_data cfg view tx receipt p u) _ t h1 in
    let (n, x, h3) = bound (Nested.transaction_end r (some receipt.number) v.nested) _ t h2 in
    subst
      (λ (y : TxSummaryTracer).
        (p : ℕ) × (top y.nested.stack ≡ some p) × (p < length y.nested.calls))
      (same_tracer (record v { nested = n }) t h3) (ended_call r (some receipt.number) v.nested n x)

-- Where profits are included, and the tracer does not panic from the start of a transaction over
-- whatever the EVM reports to its end, with every call ended: the summary of the transaction is
-- there, OverallProfits of it returns, and its result amounts, in every fungible asset (ether, ERC20,
-- ERC777 and ERC1155) of every account, to what the transfers of OverallTransfers bring.
pub overall_profits-transfers :
    (get_ptr : List ℕ → ℕ → ℕ → Option (List ℕ))
    (unpack : List Input → List ℕ → Option (List Value)) (read_integer : AbiType → Hash → Value)
    (topics : Topics) (cfg : Config) (create_address : Address → ℕ → Address) (nonce : ℕ) (tx : Tx)
    (es : List Event) (view : StateView) (r : ExecutionResult) (receipt : Receipt)
    (s u t : TxSummaryTracer)
    → cfg.include_profit ≡ true
    → transaction_start create_address nonce tx fresh ≡ some s
    → run get_ptr unpack read_integer topics cfg es s ≡ some u
    → transaction_end cfg view tx r receipt u ≡ some t
    → AllEnded t.nested.calls
    → (c : CallSummary) × (tx_summary t ≡ some c)
      × ((qs : Profits) × (overall_profits c ≡ ok qs)
          × ((k : Holding) → total k qs ≡ gains k (overall_transfers c)))
unfolding tx_summary ◌>>=◌
overall_profits-transfers get_ptr unpack read_integer topics cfg create_address nonce tx es view r
      receipt s u t profit started ran done ended =
    let sound : IsSound t = transaction_end-IsSound cfg view tx r receipt u t profit done (
      run-IsSound get_ptr unpack read_integer topics cfg profit es s u ran
        (transaction_start-IsSound create_address nonce tx s started)) in
    let (p, e, lt) = final_call cfg view tx r receipt u t done in
    let (c, f, b) =
      summary_of-AllBalanced (length t.nested.calls) t p sound ended lt (omega arith) in
    (c, rw e f, balanced_call c b)
