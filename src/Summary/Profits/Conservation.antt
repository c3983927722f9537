-- ===== src/Summary/Profits/Conservation.antt =====
-- `Add`, `Compact`, `ProfitsOf` and the sums per asset of profit.go neither lose nor invent value.
use erebus_redgiant.Prelude.{
  ◌≡◌, ◌⊎◌, ◌&&◌, refl, Bool, true, false, inl, inr, [], ◌∷◌, arith, ◌==◌, Bool-cases,
}
use erebus_redgiant.Prelude.Int.{ℤ, pos, ◌+ℤ◌, +ℤ_comm, +ℤ_assoc, int_laws}
use erebus_redgiant.Prelude.Outcome.{ok, err, Outcome-cases}
use erebus_redgiant.Summary.Profit.{
  Profit, ProfitError, zero_profit, ether_profit, erc20_profit, erc777_profit, erc1155_profit,
  erc721_profit, erc721_combined_profit, merge, merge_sets,
}
use erebus_redgiant.Summary.Profit.Amount.{Holding, amount, amount-merge}
use erebus_redgiant.Summary.Profits.{Profits, add_one, add}

-- What a list of profits amounts to in one asset.
unfoldable pub total : Holding → Profits → ℤ
unfolding amount
total k [] = pos 0
total k (p ∷ ps) = amount k p +ℤ total k ps

regroup : (x y z : ℤ) → (x +ℤ y) +ℤ z ≡ (x +ℤ z) +ℤ y
regroup x y z = omega int_laws

pub zero_left : (x : ℤ) → pos 0 +ℤ x ≡ x
zero_left x = omega int_laws

pub zero_right : (x : ℤ) → x +ℤ pos 0 ≡ x
zero_right x = omega int_laws

pub total-add_one :
    (k : Holding) (ps : Profits) (e : Profit) {qs : Profits}
    → add_one ps e ≡ ok qs
    → total k qs ≡ total k ps +ℤ amount k e
unfolding add_one total
total-add_one k [] e h = ground (arith, +ℤ_comm (pos 0) (amount k e))
total-add_one k (p ∷ ps) e {qs} h = elim (Outcome-cases (merge p e)) [
  | inl (m, r) ↦
      ground (arith, amount-merge k p e r, regroup (amount k p) (amount k e) (total k ps))
  | inr (inl (x, r)) ↦ elim (Outcome-cases (add_one ps e)) [
    | inl (rest, s) ↦
        ground (arith, total-add_one k ps e s, +ℤ_assoc (amount k p) (total k ps) (amount k e))
    | inr (inl (y, s)) ↦ absurd (ground arith)
    | inr (inr s) ↦ absurd (ground arith)
  ]
  | inr (inr r) ↦ absurd (ground arith)
]

-- Where `Add` returns, its result amounts, in every fungible asset of every account, to what the receiver
-- and the new profits amount to together.
pub total-add :
    (k : Holding) (ps es : Profits) {qs : Profits}
    → add ps es ≡ ok qs
    → total k qs ≡ total k ps +ℤ total k es
unfolding add total
total-add k ps [] h = ground (arith, zero_right (total k ps))
total-add k ps (e ∷ es) {qs} h = elim (Outcome-cases (add_one ps e)) [
  | inl (rest, s) ↦ ground (
    arith,
    total-add k rest es {qs = qs},
    total-add_one k ps e s,
    +ℤ_assoc (total k ps) (amount k e) (total k es),
  )
  | inr (inl (y, s)) ↦ absurd (ground arith)
  | inr (inr s) ↦ absurd (ground arith)
]

-- The deprecated single-token profits, whose `Cmp` may panic.
abbrev pub is_single_token : Profit → Bool
is_single_token (erc721_profit a c t r) = true
is_single_token _ = false

abbrev pub NoSingleTokens : Profits → Type 0
NoSingleTokens [] = Unit
NoSingleTokens (p ∷ ps) = (is_single_token p ≡ false) × NoSingleTokens ps

pub merge_safe :
    (p q : Profit)
    → is_single_token p ≡ false
    → is_single_token q ≡ false
    → ((m : Profit) × (merge p q ≡ ok m) × (is_single_token m ≡ false))
      ⊎ (merge p q ≡ err ProfitError.merge_not_possible)
unfolding merge
merge_safe zero_profit q hp hq = inl (q, refl, hq)
merge_safe (ether_profit a x) (ether_profit b y) hp hq = elim (Bool-cases (a == b)) [
  | inl e ↦ inl (ether_profit a (x +ℤ y), ground arith, refl)
  | inr n ↦ inr (ground arith)
]
merge_safe (erc20_profit a c x) (erc20_profit b d y) hp hq = elim (Bool-cases (a == b && c == d)) [
  | inl e ↦ inl (erc20_profit a c (x +ℤ y), ground arith, refl)
  | inr n ↦ inr (ground arith)
]
merge_safe (erc777_profit a c x) (erc777_profit b d y) hp hq =
    elim (Bool-cases (a == b && c == d)) [
      | inl e ↦ inl (erc777_profit a c (x +ℤ y), ground arith, refl)
      | inr n ↦ inr (ground arith)
    ]
merge_safe (erc1155_profit a c t x) (erc1155_profit b d u y) hp hq =
    elim (Bool-cases (a == b && (c == d && t == u))) [
      | inl e ↦ inl (erc1155_profit a c t (x +ℤ y), ground arith, refl)
      | inr n ↦ inr (ground arith)
    ]
merge_safe (erc721_combined_profit a c r g) (erc721_combined_profit b d r' g') hp hq =
    elim (Bool-cases (a == b && c == d)) [
      | inl e ↦
          let sets = merge_sets r g r' g' in
          inl (erc721_combined_profit a c sets.0 sets.1, ground arith, refl)
      | inr n ↦ inr (ground arith)
    ]
merge_safe (erc721_profit a c t r) _ hp hq = absurd (ground arith)
merge_safe _ _ hp hq = ground arith

pub add_one_safe :
    (ps : Profits) (e : Profit)
    → NoSingleTokens ps
    → is_single_token e ≡ false
    → (qs : Profits) × (add_one ps e ≡ ok qs) × NoSingleTokens qs
unfolding add_one
add_one_safe [] e hs he = (e ∷ [], refl, (he, tt))
add_one_safe (p ∷ ps) e hs he =
    let (rest, r, hr) = add_one_safe ps e hs.1 he in
    elim (merge_safe p e hs.0 he) [
      | inl (m, k, hm) ↦ (m ∷ ps, ground arith, (hm, hs.1))
      | inr k ↦ (p ∷ rest, ground arith, (hs.0, hr))
    ]

-- Without the deprecated single-token profits `Add` always returns: it neither fails nor panics.
pub add_safe :
    (ps es : Profits)
    → NoSingleTokens ps
    → NoSingleTokens es
    → (qs : Profits) × (add ps es ≡ ok qs) × NoSingleTokens qs
unfolding add
add_safe ps [] hp he = (ps, refl, hp)
add_safe ps (e ∷ es) hp he =
    let (rest, r, hr) = add_one_safe ps e hp he.0 in
    let (qs, k, hq) = add_safe rest es hr he.1 in (qs, ground arith, hq)
