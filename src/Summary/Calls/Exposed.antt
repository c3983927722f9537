-- ===== src/Summary/Calls/Exposed.antt =====
-- What of a call's Data counts for the caller, and the overall profits of summary.go.
use mathlib.Core.Path.{subst}
use erebus_redgiant.Prelude.{
  ◌≡◌, refl, ap, sym, ◌∙◌, Bool-cases, inl, inr, true, false, List, [], ◌∷◌, ◌++◌, arith, Bool,
}
use erebus_redgiant.Prelude.Int.{ℤ, pos, negsuc, ◌+ℤ◌, +ℤ_assoc}
use erebus_redgiant.Prelude.Outcome.{ok}
use erebus_redgiant.Summary.Profit.{
  Profit, ether_profit, erc20_profit, erc777_profit, erc1155_profit, is_zero_profit, is_zero,
}
use erebus_redgiant.Summary.Profit.Amount.{Holding, amount, only}
use erebus_redgiant.Summary.Profits.{Profits, non_zero, compact}
use erebus_redgiant.Summary.Profits.Conservation.{
  total, total-add, add_safe, NoSingleTokens, zero_left, zero_right,
}
use erebus_redgiant.Summary.Calls.{
  Data, CallSummary, NestedSummaries, call_summary, no_summaries, nested_summary, overall_profits,
  profits_along,
}

-- The Data of a call and of the calls below it, in the order of execution, without the calls that
-- failed and those below them.
unfoldable mutual
  pub exposed : CallSummary → List Data
  exposed (call_summary true d rest) = []
  exposed (call_summary false d rest) = d ∷ exposed_along rest

  pub exposed_along : NestedSummaries → List Data
  exposed_along no_summaries = []
  exposed_along (nested_summary s d rest) = exposed s ++ (d ∷ exposed_along rest)

unfoldable pub profits_in : List Data → Profits
profits_in [] = []
profits_in (d ∷ ds) = d.profits ++ profits_in ds

append_assoc : (a b c : Profits) → (a ++ b) ++ c ≡ a ++ (b ++ c)
append_assoc [] b c = refl
append_assoc (x ∷ a) b c = ap (λ t. x ∷ t) (append_assoc a b c)

profits_in_append : (l m : List Data) → profits_in (l ++ m) ≡ profits_in l ++ profits_in m
unfolding profits_in
profits_in_append [] m = refl
profits_in_append (d ∷ l) m =
    ap (λ t. d.profits ++ t) (profits_in_append l m)
    ∙ sym (append_assoc d.profits (profits_in l) (profits_in m))

pub total_append : (k : Holding) (l m : Profits) → total k (l ++ m) ≡ total k l +ℤ total k m
unfolding total
total_append k [] m = sym (zero_left (total k m))
total_append k (p ∷ l) m =
    ap (λ t. amount k p +ℤ t) (total_append k l m)
    ∙ sym (+ℤ_assoc (amount k p) (total k l) (total k m))

NoSingleTokens-append :
    (l m : Profits) → NoSingleTokens (l ++ m) → NoSingleTokens l × NoSingleTokens m
NoSingleTokens-append [] m h = (tt, h)
NoSingleTokens-append (p ∷ l) m h = let (hl, hm) = NoSingleTokens-append l m h.1 in ((h.0, hl), hm)

only_none : (b : Bool) (x : ℤ) → is_zero x ≡ true → only b x ≡ pos 0
only_none b (pos n) h = ground (arith, h)
only_none b (negsuc n) h = absurd (ground (arith, h))

amount_none : (k : Holding) (p : Profit) → is_zero_profit p ≡ true → amount k p ≡ pos 0
unfolding amount is_zero_profit
amount_none (Holding.ether a) (ether_profit b x) h = only_none _ x h
amount_none (Holding.erc20 a c) (erc20_profit b d x) h = only_none _ x h
amount_none (Holding.erc777 a c) (erc777_profit b d x) h = only_none _ x h
amount_none (Holding.erc1155 a c t) (erc1155_profit b d u x) h = only_none _ x h
amount_none _ _ h = refl

total-non_zero : (k : Holding) (ps : Profits) → total k (non_zero ps) ≡ total k ps
unfolding total non_zero
total-non_zero k [] = refl
total-non_zero k (p ∷ ps) = elim (Bool-cases (is_zero_profit p)) [
  | inl h ↦ ground (arith, total-non_zero k ps, amount_none k p h, zero_left (total k ps))
  | inr h ↦ ground (arith, total-non_zero k ps)
]

non_zero-NoSingleTokens : (ps : Profits) → NoSingleTokens ps → NoSingleTokens (non_zero ps)
unfolding non_zero
non_zero-NoSingleTokens [] h = tt
non_zero-NoSingleTokens (p ∷ ps) h = elim (Bool-cases (is_zero_profit p)) [
  | inl e ↦ rw e (non_zero-NoSingleTokens ps h.1)
  | inr e ↦ rw e (h.0, non_zero-NoSingleTokens ps h.1)
]

compact_safe :
    (ps : Profits)
    → NoSingleTokens ps
    → (qs : Profits) × (compact ps ≡ ok qs)
      × NoSingleTokens qs
      × ((k : Holding) → total k qs ≡ total k ps)
unfolding compact
compact_safe ps h =
    let (merged, r, _) = add_safe [] ps tt h in
    (non_zero ps, rw r refl, non_zero-NoSingleTokens ps h, λ k. total-non_zero k ps)

-- The profits of a list of Data amount, on top of a list, to what the list amounts to with them.
Amounts : Profits → Profits → Profits → Type 0
Amounts qs ps es = (k : Holding) → total k qs ≡ total k ps +ℤ total k es

Amounts-step :
    (ps qs rs next out es fs : Profits) (d : Data)
    → ((k : Holding) → total k qs ≡ total k es)
    → Amounts rs ps qs
    → Amounts next rs d.profits
    → Amounts out next fs
    → Amounts out ps (es ++ (d.profits ++ fs))
unfolding Amounts
Amounts-step ps qs rs next out es fs d h1 h2 h3 h4 = λ k.
    h4 k
    ∙ ap (λ t. t +ℤ total k fs)
        (h3 k ∙ ap (λ t. t +ℤ total k d.profits) (h2 k ∙ ap (λ t. total k ps +ℤ t) (h1 k)))
    ∙ +ℤ_assoc (total k ps +ℤ total k es) (total k d.profits) (total k fs)
    ∙ +ℤ_assoc (total k ps) (total k es) (total k d.profits +ℤ total k fs)
    ∙ ap (λ t. total k ps +ℤ t)
        (sym (
          total_append k es (d.profits ++ fs)
          ∙ ap (λ t. total k es +ℤ t) (total_append k d.profits fs)))

mutual
  unfolding overall_profits profits_along exposed exposed_along profits_in Amounts total

  total-call :
      (c : CallSummary)
      → NoSingleTokens (profits_in (exposed c))
      → (qs : Profits) × (overall_profits c ≡ ok qs)
        × NoSingleTokens qs
        × ((k : Holding) → total k qs ≡ total k (profits_in (exposed c)))
  total-call (call_summary true d rest) h = ([], refl, tt, λ k. refl)
  total-call (call_summary false d rest) h =
      let (hd, hr) = NoSingleTokens-append d.profits (profits_in (exposed_along rest)) h in
      let (ps, p, hp) = add_safe [] d.profits tt hd in
      let (qs, q, hq, t) = total-profits_along rest ps hp hr in
      let (rs, r, hs, u) = compact_safe qs hq in
      (
        rs,
        rw (p, q, r) refl,
        hs,
        λ k.
            u k
            ∙ t k
            ∙ ap (λ x. x +ℤ total k (profits_in (exposed_along rest)))
                (total-add k [] d.profits p ∙ zero_left (total k d.profits))
            ∙ sym (total_append k d.profits (profits_in (exposed_along rest))),
      )

  total-profits_along :
      (rest : NestedSummaries) (ps : Profits)
      → NoSingleTokens ps
      → NoSingleTokens (profits_in (exposed_along rest))
      → (qs : Profits) × (profits_along ps rest ≡ ok qs)
        × NoSingleTokens qs
        × Amounts qs ps (profits_in (exposed_along rest))
  total-profits_along no_summaries ps hp h = (ps, refl, hp, λ k. sym (zero_right (total k ps)))
  total-profits_along (nested_summary s d rest) ps hp h =
      let below = exposed s in
      let e = profits_in_append below (d ∷ exposed_along rest) in
      let (hb, hc) =
        NoSingleTokens-append (profits_in below) (profits_in (d ∷ exposed_along rest))
          (subst NoSingleTokens e h) in
      let (hd, hr) = NoSingleTokens-append d.profits (profits_in (exposed_along rest)) hc in
      let (qs, q, hq, t) = total-call s hb in
      let (rs, r, hs) = add_safe ps qs hp hq in
      let (next, n, hn) = add_safe rs d.profits hs hd in
      let (out, o, ho, u) = total-profits_along rest next hn hr in
      (
        out,
        rw (q, r, n, o) refl,
        ho,
        subst (Amounts out ps) (sym e) (
            Amounts-step ps qs rs next out (profits_in below) (profits_in (exposed_along rest)) d t
              (λ k. total-add k ps qs r) (λ k. total-add k rs d.profits n) u),
      )

-- Take the Data of a call and of the calls below it, without the calls that failed and those
-- below them. Where none of these Data has one of the deprecated single-token profits,
-- OverallProfits of the call returns a list without them, which amounts, in every fungible asset
-- (ether, ERC20, ERC777 and ERC1155) of every account, to what the profits of these Data amount to
-- together.
pub total-overall_profits :
    (c : CallSummary)
    → NoSingleTokens (profits_in (exposed c))
    → (qs : Profits) × (overall_profits c ≡ ok qs)
      × NoSingleTokens qs
      × ((k : Holding) → total k qs ≡ total k (profits_in (exposed c)))
total-overall_profits c h = total-call c h
