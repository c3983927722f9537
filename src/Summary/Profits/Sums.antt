-- ===== src/Summary/Profits/Sums.antt =====
-- EtherProfitOf, ERC20ProfitOf, ERC777ProfitOf and ProfitsOf of profit.go against the total of an
-- asset over a list of profits.
use mathlib.Core.Path.{subst}
use erebus_redgiant.Prelude.{
  ◌≡◌, ◌⊎◌, ◌&&◌, refl, ◌∙◌, false, inl, inr, [], ◌∷◌, arith, ◌==◌, Bool-cases, Address,
}
use erebus_redgiant.Prelude.Int.{ℤ, pos, ◌+ℤ◌, +ℤ_assoc}
use erebus_redgiant.Prelude.Outcome.{ok, err, Outcome-cases}
use erebus_redgiant.Summary.Profit.{
  Profit, ProfitError, ether_profit, erc20_profit, erc777_profit, erc1155_profit, erc721_profit,
  erc721_combined_profit, zero_profit, merge, beneficiary,
}
use erebus_redgiant.Summary.Profit.Amount.{Holding, amount}
use erebus_redgiant.Summary.Profits.{
  Profits, add_one, ether_profit_of, erc20_profit_of, erc777_profit_of, profits_of, profits_of_from,
  fold_profits,
}
use erebus_redgiant.Summary.Profits.Conservation.{total, total-add_one, zero_left, zero_right}

-- Merging into an ether profit adds the other's ether of that account, and nothing else.
merge-ether :
    (a : Address) (x : ℤ) (q : Profit)
    → (merge (ether_profit a x) q ≡ ok (ether_profit a (x +ℤ amount (Holding.ether a) q)))
      ⊎ ((merge (ether_profit a x) q ≡ err ProfitError.merge_not_possible)
          × (amount (Holding.ether a) q ≡ pos 0))
unfolding merge amount
merge-ether a x (ether_profit b y) = elim (Bool-cases (a == b)) [
  | inl e ↦ inl (ground arith)
  | inr n ↦ inr (ground arith, ground arith)
]
merge-ether a x _ = inr (refl, refl)

merge-erc20 :
    (a c : Address) (x : ℤ) (q : Profit)
    → (merge (erc20_profit a c x) q ≡ ok (erc20_profit a c (x +ℤ amount (Holding.erc20 a c) q)))
      ⊎ ((merge (erc20_profit a c x) q ≡ err ProfitError.merge_not_possible)
          × (amount (Holding.erc20 a c) q ≡ pos 0))
unfolding merge amount
merge-erc20 a c x (erc20_profit b d y) = elim (Bool-cases (a == b && c == d)) [
  | inl e ↦ inl (ground arith)
  | inr n ↦ inr (ground arith, ground arith)
]
merge-erc20 a c x _ = inr (refl, refl)

merge-erc777 :
    (a c : Address) (x : ℤ) (q : Profit)
    → (merge (erc777_profit a c x) q ≡ ok (erc777_profit a c (x +ℤ amount (Holding.erc777 a c) q)))
      ⊎ ((merge (erc777_profit a c x) q ≡ err ProfitError.merge_not_possible)
          × (amount (Holding.erc777 a c) q ≡ pos 0))
unfolding merge amount
merge-erc777 a c x (erc777_profit b d y) = elim (Bool-cases (a == b && c == d)) [
  | inl e ↦ inl (ground arith)
  | inr n ↦ inr (ground arith, ground arith)
]
merge-erc777 a c x _ = inr (refl, refl)

-- A fold from a profit that grows by the asset `k` alone ends at the total of `k`.
fold-total :
    (k : Holding) (mk : ℤ → Profit)
    → ((x : ℤ) (q : Profit)
        → (merge (mk x) q ≡ ok (mk (x +ℤ amount k q)))
          ⊎ ((merge (mk x) q ≡ err ProfitError.merge_not_possible) × (amount k q ≡ pos 0)))
    → (x : ℤ) (ps : Profits) → fold_profits (mk x) ps ≡ ok (mk (x +ℤ total k ps))
unfolding fold_profits total
fold-total k mk grow x [] = rw zero_right
fold-total k mk grow x (q ∷ qs) = elim (grow x q) [
  | inl e ↦ rw (e, fold_profits) (fold-total k mk grow (x +ℤ amount k q) qs ∙ rw +ℤ_assoc)
  | inr (e, z) ↦ rw (e, fold_profits, z, zero_left) (fold-total k mk grow x qs)
]

-- The three sums per asset return the account's total of that asset, for every list of profits.
pub sums_total :
    (ps : Profits) (account contract : Address)
    → (ether_profit_of ps account ≡ ok (ether_profit account (total (Holding.ether account) ps)))
      × (erc20_profit_of ps contract account
          ≡ ok (erc20_profit account contract (total (Holding.erc20 account contract) ps)))
      × (erc777_profit_of ps contract account
          ≡ ok (erc777_profit account contract (total (Holding.erc777 account contract) ps)))
unfolding ether_profit_of erc20_profit_of erc777_profit_of
sums_total ps account contract = (
  fold-total _ (ether_profit account) (merge-ether account) (pos 0) ps ∙ rw zero_left,
  fold-total _ (erc20_profit account contract) (merge-erc20 account contract) (pos 0) ps
      ∙ rw zero_left,
  fold-total _ (erc777_profit account contract) (merge-erc777 account contract) (pos 0) ps
      ∙ rw zero_left,
)

-- The account that has the asset.
abbrev pub owner : Holding → Address
owner (Holding.ether a) = a
owner (Holding.erc20 a c) = a
owner (Holding.erc777 a c) = a
owner (Holding.erc1155 a c t) = a

amount_elsewhere :
    (k : Holding) (p : Profit) → (beneficiary p == owner k) ≡ false → amount k p ≡ pos 0
unfolding amount
amount_elsewhere k p h = ground arith

profits_of_from-total :
    (k : Holding) (r ps : Profits) {qs : Profits}
    → profits_of_from r ps (owner k) ≡ ok qs
    → total k qs ≡ total k r +ℤ total k ps
unfolding profits_of_from total
profits_of_from-total k r [] h = ground (arith, zero_right (total k r))
profits_of_from-total k r (p ∷ ps) {qs} h = elim (Bool-cases (beneficiary p == owner k)) [
  | inl mine ↦ elim (Outcome-cases (add_one r p)) [
    | inl (r', e) ↦ ground (
      arith,
      profits_of_from-total k r' ps {qs = qs},
      total-add_one k r p e,
      +ℤ_assoc (total k r) (amount k p) (total k ps),
    )
    | inr (inl (x, e)) ↦ absurd (ground arith)
    | inr (inr e) ↦ absurd (ground arith)
  ]
  | inr other ↦ ground (
    arith,
    profits_of_from-total k r ps {qs = qs},
    amount_elsewhere k p other,
    zero_left (total k ps),
  )
]

-- Every profit of the list is the account's.
unfoldable pub AllOf : Address → Profits → Type 0
AllOf a [] = Unit
AllOf a (p ∷ ps) = (beneficiary p ≡ a) × AllOf a ps

merge-beneficiary :
    (a : Address) (p q : Profit) {m : Profit}
    → beneficiary p ≡ a
    → beneficiary q ≡ a
    → merge p q ≡ ok m
    → beneficiary m ≡ a
unfolding merge
merge-beneficiary a zero_profit q x y h = ground (arith, x, y, h)
merge-beneficiary a (ether_profit b n) (ether_profit c m) x y h = ground (arith, x, y, h)
merge-beneficiary a (erc20_profit b d n) (erc20_profit c e m) x y h = ground (arith, x, y, h)
merge-beneficiary a (erc777_profit b d n) (erc777_profit c e m) x y h = ground (arith, x, y, h)
merge-beneficiary a (erc1155_profit b d t n) (erc1155_profit c e u m) x y h =
    ground (arith, x, y, h)
merge-beneficiary a (erc721_profit b d t r) (erc721_profit c e u s) x y h = ground (arith, x, y, h)
merge-beneficiary a (erc721_combined_profit b d r g) (erc721_combined_profit c e r' g') x y h =
    ground (arith, x, y, h)
merge-beneficiary a _ _ x y h = absurd (ground (arith, h))

add_one-AllOf :
    (a : Address) (ps : Profits) (e : Profit) {qs : Profits}
    → AllOf a ps
    → beneficiary e ≡ a
    → add_one ps e ≡ ok qs
    → AllOf a qs
unfolding add_one AllOf
add_one-AllOf a [] e {qs} x y h = subst (AllOf a) {x = e ∷ []} (ground (arith, h)) (y, tt)
add_one-AllOf a (p ∷ ps) e {qs} (x, xs) y h = elim (Outcome-cases (merge p e)) [
  | inl (m, r) ↦
      subst (AllOf a) {x = m ∷ ps} (ground (arith, r, h)) (merge-beneficiary a p e x y r, xs)
  | inr (inl (w, r)) ↦ elim (Outcome-cases (add_one ps e)) [
    | inl (rest, s) ↦
        subst (AllOf a) {x = p ∷ rest} (ground (arith, r, s, h)) (x, add_one-AllOf a ps e xs y s)
    | inr (inl (z, s)) ↦ absurd (ground arith)
    | inr (inr s) ↦ absurd (ground arith)
  ]
  | inr (inr r) ↦ absurd (ground arith)
]

profits_of_from-AllOf :
    (a : Address) (r ps : Profits) {qs : Profits}
    → AllOf a r
    → profits_of_from r ps a ≡ ok qs
    → AllOf a qs
unfolding profits_of_from
profits_of_from-AllOf a r [] x h = subst (AllOf a) (ground (arith, h)) x
profits_of_from-AllOf a r (p ∷ ps) {qs} x h = elim (Bool-cases (beneficiary p == a)) [
  | inl mine ↦ elim (Outcome-cases (add_one r p)) [
    | inl (r', e) ↦
        profits_of_from-AllOf a r' ps (add_one-AllOf a r p x (ground (arith, mine)) e)
          (rw (mine, e, profits_of_from) at h)
    | inr (inl (z, e)) ↦ absurd (ground arith)
    | inr (inr e) ↦ absurd (ground arith)
  ]
  | inr other ↦ profits_of_from-AllOf a r ps x (rw (other, profits_of_from) at h)
]

-- Where ProfitsOf of an account returns, all profits of its result are that account's, and amount, in
-- each fungible asset of the account, to what the whole list amounts to.
pub profits_of-total :
    (k : Holding) (ps : Profits) {qs : Profits}
    → profits_of ps (owner k) ≡ ok qs
    → AllOf (owner k) qs × (total k qs ≡ total k ps)
unfolding profits_of AllOf
profits_of-total k ps h = (
  profits_of_from-AllOf (owner k) [] ps tt h,
  profits_of_from-total k [] ps h ∙ unfold total in rw zero_left,
)
