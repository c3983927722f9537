-- ===== src/Summary/Profits.antt =====
-- analysis/summary/profit.go: lists of profits. `Add` writes merged profits into the receiver's own
-- array; what the receiver's slice shows afterwards is `added_in_place`.
pub mod Conservation
pub mod Comparison
pub mod Sums
use erebus_redgiant.Prelude.{
  ℕ, suc, ◌+◌, ◌≡◌, Bool, true, false, not, Option, none, some, List, [], ◌∷◌, ◌++◌, length, take,
  ltb, ◌==◌, if◌then◌else◌, Address, Hash,
}
use erebus_redgiant.Prelude.Int.{ℤ, pos, negsuc, ◌-ℤ◌}
use erebus_redgiant.Prelude.Outcome.{Outcome, ok, err, panic, ◌>>=◌}
use erebus_redgiant.Summary.Profit.{
  Profit, ProfitError, zero_profit, ether_profit, erc20_profit, erc777_profit, beneficiary, cmp,
  merge, is_zero_profit, is_positive,
}

abbrev pub Profits : Type 0
Profits = List Profit

-- The inner loop of `Add`, for one new profit: the first profit that merges with it is replaced,
-- and with none it goes to the end. Any other error than ErrMergeNotPossible panics.
unfoldable pub add_one : Profits → Profit → Outcome ProfitError Profits
unfolding merge
add_one [] elem = ok (elem ∷ [])
add_one (p ∷ ps) elem =
    let rest = add_one ps elem in
    elim (merge p elem) [
      | ok merged ↦ ok (merged ∷ ps)
      | err ProfitError.merge_not_possible ↦ (rest >>= λ qs. ok (p ∷ qs))
      | err ProfitError.not_comparable ↦ panic
      | panic ↦ panic
    ]

unfoldable pub add : Profits → Profits → Outcome ProfitError Profits
unfolding add_one
add ps [] = ok ps
add ps (e ∷ es) = add_one ps e >>= λ qs. add qs es

unfoldable pub added_in_place : Profits → Profits → Outcome ProfitError Profits
unfolding add
added_in_place ps es = add ps es >>= λ qs. ok (take (length ps) qs)

unfoldable pub non_zero : Profits → Profits
unfolding is_zero_profit
non_zero [] = []
non_zero (p ∷ ps) = let rest = non_zero ps in if is_zero_profit p then rest else p ∷ rest

-- `Compact` builds the merged list, and then filters the list that it was given.
unfoldable pub compact : Profits → Outcome ProfitError Profits
unfolding add non_zero
compact ps = add [] ps >>= λ merged. ok (non_zero ps)

-- The loop over the other set in `innerCmp`: the first comparable profit decides, and without one
-- the profit is compared with zero. A panic of `Cmp` goes through.
unfoldable pub cmp_with : Profit → Profits → Outcome ProfitError ℤ
unfolding cmp is_positive is_zero_profit
cmp_with p [] = ok (if is_positive p then pos 1 else if is_zero_profit p then pos 0 else negsuc 0)
cmp_with p (q ∷ qs) =
    let rest = cmp_with p qs in elim (cmp p q) [ ok x ↦ ok x | err e ↦ rest | panic ↦ panic ]

abbrev pub is_nil : ℤ → Bool
is_nil (pos n) = n == 0
is_nil (negsuc n) = false

abbrev pub same_ℤ : ℤ → ℤ → Bool
same_ℤ (pos m) (pos n) = m == n
same_ℤ (negsuc m) (negsuc n) = m == n
same_ℤ _ _ = false

-- The label `update`: the running result takes the comparison, or stands against it.
unfoldable pub update : ℤ → ℤ → Outcome ProfitError ℤ
update result c =
    if is_nil result
    then ok c
    else if is_nil c
    then ok result
    else if same_ℤ result c
    then ok result
    else err ProfitError.not_comparable

unfoldable pub inner_cmp : ℤ → Profits → Profits → Outcome ProfitError ℤ
unfolding cmp_with update
inner_cmp result [] others = ok result
inner_cmp result (p ∷ ps) others =
    cmp_with p others >>= λ c. update result c >>= λ next. inner_cmp next ps others

abbrev pub or_zero : Profits → Profits
or_zero [] = zero_profit ∷ []
or_zero (p ∷ ps) = p ∷ ps

-- `-x`, for a comparison result.
unfoldable pub negate : ℤ → ℤ
unfolding ◌-ℤ◌
negate x = pos 0 -ℤ x

unfoldable pub agree : ℤ → ℤ → Outcome ProfitError ℤ
unfolding negate
agree result reverse =
    if same_ℤ result (negate reverse) then ok result else err ProfitError.not_comparable

unfoldable pub cmp_all : Profits → Profits → Outcome ProfitError ℤ
cmp_all ps others = compact ps >>= λ this. compact others >>= λ other.
    inner_cmp (pos 0) (or_zero this) (or_zero other) >>= λ result.
    inner_cmp (pos 0) (or_zero other) (or_zero this) >>= λ reverse. agree result reverse

-- The sum of all that one account holds of an asset, starting from nothing. A profit that does not
-- merge is passed over.
fold_profits : Profit → Profits → Outcome ProfitError Profit
unfolding merge
fold_profits p [] = ok p
fold_profits p (q ∷ qs) = elim (merge p q) [
  | ok m ↦ fold_profits m qs
  | err e ↦ fold_profits p qs
  | panic ↦ panic
]

unfoldable pub ether_profit_of : Profits → Address → Outcome ProfitError Profit
unfolding fold_profits
ether_profit_of ps account = fold_profits (ether_profit account (pos 0)) ps

unfoldable pub erc20_profit_of : Profits → Address → Address → Outcome ProfitError Profit
unfolding fold_profits
erc20_profit_of ps contract account = fold_profits (erc20_profit account contract (pos 0)) ps

unfoldable pub erc777_profit_of : Profits → Address → Address → Outcome ProfitError Profit
unfolding fold_profits
erc777_profit_of ps contract account = fold_profits (erc777_profit account contract (pos 0)) ps

-- `r = r.Add(p)` over the profits of the account.
unfoldable pub profits_of_from : Profits → Profits → Address → Outcome ProfitError Profits
unfolding add_one
profits_of_from r [] account = ok r
profits_of_from r (p ∷ ps) account =
    (if beneficiary p == account then add_one r p else ok r) >>= λ r'. profits_of_from r' ps account

unfoldable pub profits_of : Profits → Address → Outcome ProfitError Profits
unfolding profits_of_from
profits_of ps account = profits_of_from [] ps account
