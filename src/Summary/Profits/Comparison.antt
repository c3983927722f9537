-- ===== src/Summary/Profits/Comparison.antt =====
-- `Compact` and `Cmp` on lists of profits of profit.go.
use erebus_redgiant.Prelude.{
  ◌≡◌, refl, sym, ap, ◌∙◌, true, false, inl, inr, [], ◌∷◌, arith, Address,
}
use erebus_redgiant.Prelude.Int.{ℤ, pos, ◌-ℤ◌}
use erebus_redgiant.Prelude.Outcome.{Outcome, ok, err, ◌>>=◌, Outcome-cases}
use erebus_redgiant.Tracers.Position.Order.{opposite}
use erebus_redgiant.Summary.Profit.{
  Profit, ProfitError, zero_profit, ether_profit, is_zero_profit, is_pos, is_zero,
}
use erebus_redgiant.Summary.Profit.Amount.{Holding, amount}
use erebus_redgiant.Summary.Profits.{
  Profits, compact, non_zero, inner_cmp, or_zero, negate, agree, cmp_all, same_ℤ,
}
use erebus_redgiant.Summary.Profits.Conservation.{total, zero_left, NoSingleTokens, add_safe}

negate-opposite : (x : ℤ) → negate x ≡ opposite x
unfolding negate ◌-ℤ◌
negate-opposite x = ground arith

same_ℤ_eq : (x y : ℤ) → same_ℤ x y ≡ true → x ≡ y
same_ℤ_eq x y h = ground arith

same_ℤ_refl : (x : ℤ) → same_ℤ x x ≡ true
same_ℤ_refl x = ground arith

opposite_twice : (x : ℤ) → opposite (opposite x) ≡ x
opposite_twice x = ground arith

agree_turned : (x y : ℤ) {z : ℤ} → agree x y ≡ ok z → (z ≡ x) × (agree y x ≡ ok (opposite x))
unfolding agree
agree_turned x y h = ground (
  arith,
  negate-opposite x,
  negate-opposite y,
  same_ℤ_eq x (opposite y),
  opposite_twice y,
  opposite_twice x,
  same_ℤ_refl y,
)

cmp_compacted :
    (ps qs this other : Profits)
    → compact ps ≡ ok this
    → compact qs ≡ ok other
    → cmp_all ps qs ≡ (
        inner_cmp (pos 0) (or_zero this) (or_zero other) >>= λ result.
        inner_cmp (pos 0) (or_zero other) (or_zero this) >>= λ reverse. agree result reverse)
unfolding cmp_all
cmp_compacted ps qs this other a b = rw (a, b)

turned :
    (this other : Profits) {x : ℤ} {c : Outcome ProfitError ℤ}
    → (inner_cmp (pos 0) (or_zero this) (or_zero other) >>= λ result.
        inner_cmp (pos 0) (or_zero other) (or_zero this) >>= λ reverse. agree result reverse)
      ≡ ok x
    → c ≡ (
        inner_cmp (pos 0) (or_zero other) (or_zero this) >>= λ result.
        inner_cmp (pos 0) (or_zero this) (or_zero other) >>= λ reverse. agree result reverse)
    → c ≡ ok (opposite x)
turned this other h e = elim (Outcome-cases (inner_cmp (pos 0) (or_zero this) (or_zero other))) [
  | inl (r, a) ↦ elim (Outcome-cases (inner_cmp (pos 0) (or_zero other) (or_zero this))) [
    | inl (s, b) ↦
        let k = agree_turned r s (rw (a, b) at h) in
        e ∙ rw (a, b) (k.1 ∙ ap (λ z. ok (opposite z)) (sym k.0))
    | inr w ↦ absurd (ground arith)
  ]
  | inr w ↦ absurd (ground arith)
]

-- Comparing two lists of profits the other way round gives the opposite answer.
pub cmp_all-opposite :
    (ps qs : Profits) {x : ℤ} → cmp_all ps qs ≡ ok x → cmp_all qs ps ≡ ok (opposite x)
unfolding cmp_all
cmp_all-opposite ps qs {x} h = elim (Outcome-cases (compact ps)) [
  | inl (this, a) ↦ elim (Outcome-cases (compact qs)) [
    | inl (other, b) ↦
        turned this other (sym (cmp_compacted ps qs this other a b) ∙ h)
          (cmp_compacted qs ps other this b a)
    | inr r ↦ absurd (ground arith)
  ]
  | inr r ↦ absurd (ground arith)
]

-- `Compact` drops the zero profits and merges nothing.
pub compact_lem : (ps : Profits) → NoSingleTokens ps → compact ps ≡ ok (non_zero ps)
unfolding compact
compact_lem ps h = let (merged, e, kept) = add_safe [] ps tt h in rw e

-- It keeps what the list amounts to, in every fungible asset.
total-non_zero : (k : Holding) (ps : Profits) → total k (non_zero ps) ≡ total k ps
unfolding total non_zero
total-non_zero k [] = refl
total-non_zero k (p ∷ ps) =
    ground (arith, total-non_zero k ps, zero_amount k p, zero_left (total k ps))
  where
    zero_amount : (k : Holding) (p : Profit) → is_zero_profit p ≡ true → amount k p ≡ pos 0
    zero_amount k p h = unfold amount is_zero_profit in ground arith

-- Two ether profits of one account with opposite signs are comparable with no profit at all only as
-- "not comparable", whatever they amount to together.
pub cmp_all_unmerged :
    (a : Address) (x y : ℤ)
    → is_pos x ≡ true
    → is_pos y ≡ false
    → is_zero y ≡ false
    → cmp_all (ether_profit a x ∷ ether_profit a y ∷ []) [] ≡ err ProfitError.not_comparable
unfolding non_zero
cmp_all_unmerged a x y hx hy hz =
    let both = ether_profit a x ∷ ether_profit a y ∷ [] in
    cmp_compacted both [] both [] (compact_lem both (refl, (refl, tt)) ∙ kept) (compact_lem [] tt)
    ∙ refused
  where
    kept :
        ◌≡◌ {A = Outcome ProfitError Profits}
          (ok (non_zero (ether_profit a x ∷ ether_profit a y ∷ [])))
          (ok (ether_profit a x ∷ ether_profit a y ∷ []))
    kept = unfold non_zero in ground arith

    refused :
        (inner_cmp (pos 0) (ether_profit a x ∷ ether_profit a y ∷ []) (zero_profit ∷ [])
          >>= λ result.
              inner_cmp (pos 0) (zero_profit ∷ []) (ether_profit a x ∷ ether_profit a y ∷ [])
              >>= λ reverse. agree result reverse)
        ≡ err ProfitError.not_comparable
    refused = unfold inner_cmp in ground arith
