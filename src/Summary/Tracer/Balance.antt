-- ===== src/Summary/Tracer/Balance.antt =====
-- The profits of a Data are those of its transfers.
use erebus_redgiant.Prelude.{
  ◌≡◌, refl, sym, ap, ◌∙◌, Bool, true, false, some, List, [], ◌∷◌, ◌++◌, ◌==◌,
}
use erebus_redgiant.Prelude.Int.{ℤ, ◌+ℤ◌, +ℤ_assoc}
use erebus_redgiant.Prelude.Partial.{◌>>=◌}
use erebus_redgiant.Summary.Profit.{
  Profit, ether_profit, erc20_profit, erc777_profit, erc1155_profit, erc721_combined_profit,
}
use erebus_redgiant.Summary.Profit.Amount.{Holding}
use erebus_redgiant.Summary.Profits.{Profits}
use erebus_redgiant.Summary.Profits.Conservation.{
  total, total-add, add_safe, NoSingleTokens, is_single_token, zero_left, zero_right,
}
use erebus_redgiant.Summary.Transfer.{
  Transfer, ether_transfer, erc20_transfer, erc777_transfer, erc721_transfer, erc1155_transfer,
  profits, two_sided, is_zero_fungible, negated,
}
use erebus_redgiant.Summary.Transfer.Conservation.{gains, gain}
use erebus_redgiant.Summary.Calls.{Data}
use erebus_redgiant.Summary.Tracer.{add_profits, add_all_profits, with_transfers}

-- The profits of the Data amount, in every fungible asset of every account, to those of its transfers, and
-- none is a deprecated single-token profit.
abbrev pub IsBalanced : Data → Type 0
IsBalanced d = NoSingleTokens d.profits × ((k : Holding) → total k d.profits ≡ gains k d.transfers)

two_sided-NoSingleTokens :
    (z m b : Bool) (p q : Profit)
    → is_single_token p ≡ false
    → is_single_token q ≡ false
    → NoSingleTokens (two_sided z m b p q)
two_sided-NoSingleTokens true m b p q h k = tt
two_sided-NoSingleTokens false true true p q h k = tt
two_sided-NoSingleTokens false true false p q h k = (k, tt)
two_sided-NoSingleTokens false false true p q h k = (h, tt)
two_sided-NoSingleTokens false false false p q h k = (h, (k, tt))

profits-NoSingleTokens : (t : Transfer) → NoSingleTokens (profits t)
unfolding profits
profits-NoSingleTokens (ether_transfer f) =
    two_sided-NoSingleTokens (is_zero_fungible f) false false
      (ether_profit f.from_account (negated f.amount)) (ether_profit f.to_account f.amount) refl
      refl
profits-NoSingleTokens (erc20_transfer f c) =
    two_sided-NoSingleTokens (is_zero_fungible f) (f.from_account == 0) (f.to_account == 0)
      (erc20_profit f.from_account c (negated f.amount)) (erc20_profit f.to_account c f.amount) refl
      refl
profits-NoSingleTokens (erc777_transfer f c) =
    two_sided-NoSingleTokens (is_zero_fungible f) (f.from_account == 0) (f.to_account == 0)
      (erc777_profit f.from_account c (negated f.amount)) (erc777_profit f.to_account c f.amount)
      refl refl
profits-NoSingleTokens (erc721_transfer a b c t l) =
    two_sided-NoSingleTokens false (a == 0) (b == 0) (erc721_combined_profit a c [] (t ∷ []))
      (erc721_combined_profit b c (t ∷ []) []) refl refl
profits-NoSingleTokens (erc1155_transfer f c t) =
    two_sided-NoSingleTokens (is_zero_fungible f) (f.from_account == 0) (f.to_account == 0)
      (erc1155_profit f.from_account c t (negated f.amount))
      (erc1155_profit f.to_account c t f.amount) refl refl

-- What `qs` amounts to, beyond `ps`.
Adds : Profits → Profits → (Holding → ℤ) → Type 0
Adds ps qs more = NoSingleTokens qs × ((k : Holding) → total k qs ≡ total k ps +ℤ more k)

add_profits-Adds :
    (ps : Profits) (t : Transfer)
    → NoSingleTokens ps
    → (qs : Profits) × (add_profits ps t ≡ some qs) × Adds ps qs (λ k. gain k t)
unfolding add_profits Adds
add_profits-Adds ps t h =
    let (qs, e, safe) = add_safe ps (profits t) h (profits-NoSingleTokens t) in
    (qs, rw (e, add_profits) refl, (safe, λ k. total-add k ps (profits t) e))

add_all_profits-Adds :
    (ps : Profits) (ts : List Transfer)
    → NoSingleTokens ps
    → (qs : Profits) × (add_all_profits ps ts ≡ some qs) × Adds ps qs (λ k. gains k ts)
unfolding add_all_profits Adds gains ◌>>=◌
add_all_profits-Adds ps [] h = (ps, refl, (h, λ k. sym (zero_right (total k ps))))
add_all_profits-Adds ps (t ∷ ts) h =
    let (qs, e, (safe, more)) = add_profits-Adds ps t h in
    let (rs, f, (safe', rest)) = add_all_profits-Adds qs ts safe in
    (
      rs,
      rw (e, f) refl,
      (
        safe',
        λ k.
            rest k
            ∙ ap (λ x. x +ℤ gains k ts) (more k)
            ∙ +ℤ_assoc (total k ps) (gain k t) (gains k ts),
      ),
    )

pub gains_append : (k : Holding) (l m : List Transfer) → gains k (l ++ m) ≡ gains k l +ℤ gains k m
unfolding gains
gains_append k [] m = sym (zero_left (gains k m))
gains_append k (t ∷ l) m =
    ap (λ x. gain k t +ℤ x) (gains_append k l m) ∙ sym (+ℤ_assoc (gain k t) (gains k l) (gains k m))

-- Transfers are added with their profits, and adding them does not panic.
pub with_transfers-IsBalanced :
    (ts : List Transfer) (d : Data)
    → IsBalanced d
    → (e : Data) × (with_transfers true ts d ≡ some e) × IsBalanced e
unfolding with_transfers ◌>>=◌ Adds
with_transfers-IsBalanced ts d (safe, even) =
    let (qs, e, (safe', more)) = add_all_profits-Adds d.profits ts safe in
    (
      record d { transfers = d.transfers ++ ts; profits = qs },
      rw e refl,
      (
        safe',
        λ k. more k ∙ ap (λ x. x +ℤ gains k ts) (even k) ∙ sym (gains_append k d.transfers ts),
      ),
    )
