-- ===== src/Summary/Transfer/Fungible.antt =====
-- fungibleTransfer.merge of transfer.go: it ends, it loses and invents nothing, and it gives no zero transfer.
use erebus_redgiant.Prelude.{
  ℕ, suc, ◌≡◌, ◌≢◌, ◌⊎◌, zero, inl, inr, sym, Bool, true, false, List, [], ◌∷◌, arith, ◌==◌,
  Bool-cases, Address,
}
use erebus_redgiant.Prelude.Int.{ℤ, pos, ◌+ℤ◌, ◌-ℤ◌, ltb_ℤ, int_laws, pos_part, eq_of_parts}
use erebus_redgiant.Prelude.Outcome.{ok, err, panic, Outcome-cases}
use erebus_redgiant.Summary.Profit.{ProfitError}
use erebus_redgiant.Summary.Profit.Amount.{only}
use erebus_redgiant.Summary.Transfer.{
  FungibleTransfer, transfer, merge_mutual, merge_through, merge_fungible,
}

-- What an account receives by a transfer, less what it gives.
unfoldable pub flow : Address → FungibleTransfer → ℤ
flow x f = only (x == f.to_account) f.amount -ℤ only (x == f.from_account) f.amount

unfoldable pub flows : Address → List FungibleTransfer → ℤ
flows x [] = pos 0
flows x (f ∷ fs) = flow x f +ℤ flows x fs

-- The sums below, where an account takes part or not.
linear_more :
    (p q : Bool) (u v : ℤ)
    → (only q (u -ℤ v) -ℤ only p (u -ℤ v)) +ℤ pos 0
      ≡ (only q u -ℤ only p u) +ℤ (only p v -ℤ only q v)
linear_more true true u v = omega int_laws
linear_more true false u v = omega int_laws
linear_more false true u v = omega int_laws
linear_more false false u v = omega int_laws

linear_less :
    (p q : Bool) (u v : ℤ)
    → (only p (v -ℤ u) -ℤ only q (v -ℤ u)) +ℤ pos 0
      ≡ (only q u -ℤ only p u) +ℤ (only p v -ℤ only q v)
linear_less true true u v = omega int_laws
linear_less true false u v = omega int_laws
linear_less false true u v = omega int_laws
linear_less false false u v = omega int_laws

linear_even : (a b : ℤ) → pos 0 ≡ (a -ℤ b) +ℤ (b -ℤ a)
linear_even a b = omega int_laws

linear_sum :
    (p q : Bool) (u v : ℤ)
    → (only q (u +ℤ v) -ℤ only p (u +ℤ v)) +ℤ pos 0
      ≡ (only q u -ℤ only p u) +ℤ (only q v -ℤ only p v)
linear_sum true true u v = omega int_laws
linear_sum true false u v = omega int_laws
linear_sum false true u v = omega int_laws
linear_sum false false u v = omega int_laws

-- `r` sends `v` to `p`, and `p` sends `u` to `q`.
linear_pass_more :
    (p q r : Bool) (u v : ℤ)
    → (only q v -ℤ only r v) +ℤ ((only q (u -ℤ v) -ℤ only p (u -ℤ v)) +ℤ pos 0)
      ≡ (only q u -ℤ only p u) +ℤ (only p v -ℤ only r v)
linear_pass_more true true r u v = omega int_laws
linear_pass_more true false r u v = omega int_laws
linear_pass_more false true r u v = omega int_laws
linear_pass_more false false r u v = omega int_laws

linear_pass_less :
    (p q r : Bool) (u v : ℤ)
    → (only q u -ℤ only r u) +ℤ ((only p (v -ℤ u) -ℤ only r (v -ℤ u)) +ℤ pos 0)
      ≡ (only q u -ℤ only p u) +ℤ (only p v -ℤ only r v)
linear_pass_less true q true u v = omega int_laws
linear_pass_less true q false u v = omega int_laws
linear_pass_less false q true u v = omega int_laws
linear_pass_less false q false u v = omega int_laws

linear_pass_even : (a b c : ℤ) → (b -ℤ c) +ℤ pos 0 ≡ (b -ℤ a) +ℤ (a -ℤ c)
linear_pass_even a b c = omega int_laws

swap_sum : (a b : ℤ) → a +ℤ b ≡ b +ℤ a
swap_sum a b = omega int_laws

-- Amounts of which neither is less are equal.
same_amount : (u v : ℤ) → ltb_ℤ u v ≡ false → ltb_ℤ v u ≡ false → u ≡ v
same_amount u v h k = eq_of_parts u v (ground (arith, h, k))

flows-merge_mutual :
    (x : Address) (f g : FungibleTransfer)
    → f.from_account ≡ g.to_account
    → f.to_account ≡ g.from_account
    → flows x (merge_mutual f g) ≡ flow x f +ℤ flow x g
unfolding merge_mutual flows flow
flows-merge_mutual x f g h k = elim (Bool-cases (ltb_ℤ g.amount f.amount)) [
  | inl l ↦
      rw (l, merge_mutual, sym h, sym k)
        (linear_more (x == f.from_account) (x == f.to_account) f.amount g.amount)
  | inr l ↦ elim (Bool-cases (ltb_ℤ f.amount g.amount)) [
    | inl m ↦
        rw (l, m, merge_mutual, sym h, sym k)
          (linear_less (x == f.from_account) (x == f.to_account) f.amount g.amount)
    | inr m ↦
        rw (l, m, merge_mutual, sym h, sym k, same_amount g.amount f.amount l m)
          (linear_even (only (x == f.to_account) f.amount) (only (x == f.from_account) f.amount))
  ]
]

flows-merge_through :
    (x : Address) (f g : FungibleTransfer)
    → f.from_account ≡ g.to_account
    → flows x (merge_through f g) ≡ flow x f +ℤ flow x g
unfolding merge_through flows flow
flows-merge_through x f g h = elim (Bool-cases (ltb_ℤ g.amount f.amount)) [
  | inl l ↦
      rw (l, merge_through, sym h)
        (linear_pass_more (x == f.from_account) (x == f.to_account) (x == g.from_account) f.amount
          g.amount)
  | inr l ↦ elim (Bool-cases (ltb_ℤ f.amount g.amount)) [
    | inl m ↦
        rw (l, m, merge_through, sym h)
          (linear_pass_less (x == f.from_account) (x == f.to_account) (x == g.from_account) f.amount
            g.amount)
    | inr m ↦
        rw (l, m, merge_through, sym h, same_amount g.amount f.amount l m)
          (linear_pass_even (only (x == f.from_account) f.amount)
            (only (x == f.to_account) f.amount) (only (x == g.from_account) f.amount))
  ]
]

flows-merge_same :
    (x : Address) (f g : FungibleTransfer)
    → f.from_account ≡ g.from_account
    → f.to_account ≡ g.to_account
    → flows x (transfer f.from_account f.to_account (f.amount +ℤ g.amount) ∷ [])
      ≡ flow x f +ℤ flow x g
unfolding flows flow
flows-merge_same x f g h k =
    rw (sym h, sym k) (linear_sum (x == f.from_account) (x == f.to_account) f.amount g.amount)

-- Where merge returns, every account receives by the merged transfers what it receives by the two together.
pub merge_fungible-flows :
    (fuel : ℕ) (x : Address) (f g : FungibleTransfer) (fs : List FungibleTransfer)
    → merge_fungible fuel f g ≡ ok fs
    → flows x fs ≡ flow x f +ℤ flow x g
unfolding merge_fungible
merge_fungible-flows zero x f g fs h = absurd (ground arith)
merge_fungible-flows (suc fuel) x f g fs h = ground (
  arith,
  flows-merge_mutual x f g,
  flows-merge_same x f g,
  flows-merge_through x f g,
  merge_fungible-flows fuel x g f fs,
  swap_sum (flow x g) (flow x f),
)

never_panics : (f g : FungibleTransfer) → merge_fungible 2 f g ≢ panic
unfolding merge_fungible
never_panics f g = ground arith

only_error :
    (f g : FungibleTransfer) (e : ProfitError)
    → merge_fungible 2 f g ≡ err e
    → merge_fungible 2 f g ≡ err ProfitError.merge_not_possible
unfolding merge_fungible
only_error f g e h = ground (arith, h)

-- Turned round, a transfer that passes on is met by the third case.
pub merge_fungible-ends :
    (f g : FungibleTransfer)
    → ((fs : List FungibleTransfer) × (merge_fungible 2 f g ≡ ok fs))
      ⊎ (merge_fungible 2 f g ≡ err ProfitError.merge_not_possible)
merge_fungible-ends f g = elim (Outcome-cases (merge_fungible 2 f g)) [
  | inl x ↦ inl x
  | inr (inl (e, h)) ↦ inr (only_error f g e h)
  | inr (inr h) ↦ absurd (never_panics f g h)
]

abbrev pub Moves : FungibleTransfer → Type 0
Moves f = (pos_part f.amount ≢ 0) × (f.from_account ≢ f.to_account)

-- Every transfer of the list moves a positive amount from one account to another.
unfoldable pub AllMove : List FungibleTransfer → Type 0
AllMove [] = Unit
AllMove (f ∷ fs) = Moves f × AllMove fs

merge_mutual-AllMove :
    (f g : FungibleTransfer)
    → Moves f
    → Moves g
    → f.to_account ≡ g.from_account
    → AllMove (merge_mutual f g)
unfolding AllMove merge_mutual ◌-ℤ◌
merge_mutual-AllMove f g mf mg h = ground (arith, mf.0, mf.1, mg.0, mg.1, h)

merge_through-AllMove :
    (f g : FungibleTransfer)
    → Moves f
    → Moves g
    → f.from_account ≡ g.to_account
    → g.from_account ≢ f.to_account
    → AllMove (merge_through f g)
unfolding AllMove merge_through ◌-ℤ◌
merge_through-AllMove f g mf mg h k = ground (arith, mf.0, mf.1, mg.0, mg.1, h, k)

merge_same-AllMove :
    (f g : FungibleTransfer)
    → Moves f
    → Moves g
    → AllMove (transfer f.from_account f.to_account (f.amount +ℤ g.amount) ∷ [])
unfolding AllMove ◌+ℤ◌
merge_same-AllMove f g mf mg = ground (arith, mf.0, mf.1, mg.0, mg.1)

-- Transfers that move a positive amount from one account to another merge into such transfers: no zero transfer is
-- returned.
pub merge_fungible-AllMove :
    (fuel : ℕ) (f g : FungibleTransfer) (fs : List FungibleTransfer)
    → Moves f
    → Moves g
    → merge_fungible fuel f g ≡ ok fs
    → AllMove fs
unfolding merge_fungible
merge_fungible-AllMove zero f g fs mf mg h = absurd (ground arith)
merge_fungible-AllMove (suc fuel) f g fs mf mg h = ground (
  arith,
  h,
  merge_mutual-AllMove f g mf mg,
  merge_through-AllMove f g mf mg,
  merge_same-AllMove f g mf mg,
  merge_fungible-AllMove fuel g f fs mg mf,
)
