-- ===== src/Summary/Profit.antt =====
-- analysis/summary/profit.go: the single profits. The interface Profit is a data type with a
-- constructor for each type that implements it; a failed type assertion is a panic.
pub mod Compare
pub mod Amount
use erebus_redgiant.Prelude.{
  ℕ, ◌+◌, ◌-◌, Bool, true, false, not, ◌&&◌, ◌||◌, Option, none, some, List, [], ◌∷◌, ◌++◌, length,
  ltb, ◌==◌, if◌then◌else◌, Address, Hash,
}
use erebus_redgiant.Prelude.Int.{ℤ, pos, negsuc, ◌+ℤ◌, ltb_ℤ, sub_ℕ}
use erebus_redgiant.Prelude.Outcome.{Outcome, ok, err, panic}

pub data AssetType : Type 0 where
  zero_asset ether_asset erc20_asset erc777_asset erc721_asset erc1155_asset : AssetType

-- ErrNotComparable and ErrMergeNotPossible.
pub data ProfitError : Type 0 where
  not_comparable merge_not_possible : ProfitError

-- The token sets of a combined ERC721 profit are the keys of its two maps.
pub data Profit : Type 0 where
  zero_profit : Profit
  ether_profit : Address → ℤ → Profit
  erc20_profit : Address → Address → ℤ → Profit
  erc777_profit : Address → Address → ℤ → Profit
  erc1155_profit : Address → Address → Hash → ℤ → Profit
  erc721_profit : Address → Address → Option Hash → Bool → Profit
  erc721_combined_profit : Address → Address → List Hash → List Hash → Profit

abbrev pub type_of : Profit → AssetType
type_of zero_profit = AssetType.zero_asset
type_of (ether_profit a x) = AssetType.ether_asset
type_of (erc20_profit a c x) = AssetType.erc20_asset
type_of (erc777_profit a c x) = AssetType.erc777_asset
type_of (erc1155_profit a c t x) = AssetType.erc1155_asset
type_of (erc721_profit a c t r) = AssetType.erc721_asset
type_of (erc721_combined_profit a c r g) = AssetType.erc721_asset

abbrev pub beneficiary : Profit → Address
beneficiary zero_profit = 0
beneficiary (ether_profit a x) = a
beneficiary (erc20_profit a c x) = a
beneficiary (erc777_profit a c x) = a
beneficiary (erc1155_profit a c t x) = a
beneficiary (erc721_profit a c t r) = a
beneficiary (erc721_combined_profit a c r g) = a

-- (*big.Int).Cmp.
abbrev pub cmp_ℤ : ℤ → ℤ → ℤ
cmp_ℤ x y = if ltb_ℤ x y then negsuc 0 else if ltb_ℤ y x then pos 1 else pos 0

abbrev pub is_pos : ℤ → Bool
is_pos (pos n) = ltb 0 n
is_pos (negsuc n) = false

abbrev pub is_zero : ℤ → Bool
is_zero (pos n) = n == 0
is_zero (negsuc n) = false

abbrev pub is_none : Option Hash → Bool
is_none none = true
is_none (some t) = false

-- `len(receiveTokens) - len(giveTokens)`.
abbrev pub net_tokens : List Hash → List Hash → ℤ
net_tokens r g = sub_ℕ (length r) (length g)

unfoldable pub is_zero_profit : Profit → Bool
is_zero_profit zero_profit = true
is_zero_profit (ether_profit a x) = is_zero x
is_zero_profit (erc20_profit a c x) = is_zero x
is_zero_profit (erc777_profit a c x) = is_zero x
is_zero_profit (erc1155_profit a c t x) = is_zero x
is_zero_profit (erc721_profit a c t r) = is_none t
is_zero_profit (erc721_combined_profit a c r g) = is_zero (net_tokens r g)

unfoldable pub is_positive : Profit → Bool
is_positive zero_profit = false
is_positive (ether_profit a x) = is_pos x
is_positive (erc20_profit a c x) = is_pos x
is_positive (erc777_profit a c x) = is_pos x
is_positive (erc1155_profit a c t x) = is_pos x
is_positive (erc721_profit a c t r) = not (is_none t) && r
is_positive (erc721_combined_profit a c r g) = is_pos (net_tokens r g)

abbrev guarded : Bool → ℤ → Outcome ProfitError ℤ
guarded true x = ok x
guarded false x = err ProfitError.not_comparable

-- The two nested switches of ERC721Profit.Cmp: on the other's direction, then on this one's.
abbrev cmp_directions : Bool → Bool → ℤ
cmp_directions true true = pos 0
cmp_directions true false = pos 1
cmp_directions false true = negsuc 0
cmp_directions false false = pos 0

-- ERC721Profit.Cmp reads the other's token before it looks at its type.
cmp_erc721 : Address → Address → Option Hash → Bool → Profit → Outcome ProfitError ℤ
cmp_erc721 a c none r other = err ProfitError.not_comparable
cmp_erc721 a c (some t) r (erc721_profit b d none s) = err ProfitError.not_comparable
cmp_erc721 a c (some t) r (erc721_profit b d (some u) s) =
    guarded (a == b && (c == d && t == u)) (cmp_directions r s)
cmp_erc721 a c (some t) r _ = panic

-- ERC721CombinedProfit.Cmp checks type and beneficiary before the type assertion.
cmp_combined : Address → Address → ℤ → Profit → Outcome ProfitError ℤ
cmp_combined a c n (erc721_combined_profit b d r g) =
    guarded (a == b && c == d) (cmp_ℤ n (net_tokens r g))
cmp_combined a c n (erc721_profit b d t s) =
    if a == b then panic else err ProfitError.not_comparable
cmp_combined a c n _ = err ProfitError.not_comparable

-- ZeroProfit.Cmp, from the other profit's sign alone.
cmp_zero : Profit → Outcome ProfitError ℤ
unfolding is_positive is_zero_profit
cmp_zero other =
    if is_positive other
    then ok (negsuc 0)
    else if is_zero_profit other
    then ok (pos 0)
    else ok (pos 1)

cmp_ether : Address → ℤ → Profit → Outcome ProfitError ℤ
cmp_ether a x (ether_profit b y) = guarded (a == b) (cmp_ℤ x y)
cmp_ether a x _ = err ProfitError.not_comparable

cmp_erc20 : Address → Address → ℤ → Profit → Outcome ProfitError ℤ
cmp_erc20 a c x (erc20_profit b d y) = guarded (a == b && c == d) (cmp_ℤ x y)
cmp_erc20 a c x _ = err ProfitError.not_comparable

cmp_erc777 : Address → Address → ℤ → Profit → Outcome ProfitError ℤ
cmp_erc777 a c x (erc777_profit b d y) = guarded (a == b && c == d) (cmp_ℤ x y)
cmp_erc777 a c x _ = err ProfitError.not_comparable

cmp_erc1155 : Address → Address → Hash → ℤ → Profit → Outcome ProfitError ℤ
cmp_erc1155 a c t x (erc1155_profit b d u y) = guarded (a == b && (c == d && t == u)) (cmp_ℤ x y)
cmp_erc1155 a c t x _ = err ProfitError.not_comparable

-- The method `Cmp` of the interface.
unfoldable pub cmp : Profit → Profit → Outcome ProfitError ℤ
unfolding cmp_zero cmp_ether cmp_erc20 cmp_erc777 cmp_erc1155 cmp_erc721 cmp_combined
cmp zero_profit other = cmp_zero other
cmp (ether_profit a x) other = cmp_ether a x other
cmp (erc20_profit a c x) other = cmp_erc20 a c x other
cmp (erc777_profit a c x) other = cmp_erc777 a c x other
cmp (erc1155_profit a c t x) other = cmp_erc1155 a c t x other
cmp (erc721_profit a c t r) other = cmp_erc721 a c t r other
cmp (erc721_combined_profit a c r g) other = cmp_combined a c (net_tokens r g) other

-- `_, ok := m[t]`, `delete(m, t)` and `m[t] = struct{}{}` on a token set.
unfoldable pub has : Hash → List Hash → Bool
has t [] = false
has t (u ∷ us) = u == t || has t us

unfoldable pub drop_token : Hash → List Hash → List Hash
drop_token t [] = []
drop_token t (u ∷ us) = if u == t then drop_token t us else u ∷ drop_token t us

-- One round of the first loop of ERC721CombinedProfit.Merge: a token that was given and comes back
-- is struck out. The second loop does the same with the two sets exchanged.
unfoldable pub settle : Hash → List Hash × List Hash → List Hash × List Hash
unfolding has drop_token
settle t (here, there) =
    if has t there
    then (here, drop_token t there)
    else if has t here
    then (here, there)
    else (t ∷ here, there)

unfoldable pub settle_all : List Hash → List Hash × List Hash → List Hash × List Hash
unfolding settle
settle_all [] sets = sets
settle_all (t ∷ ts) sets = settle_all ts (settle t sets)

abbrev pub merge_sets : List Hash → List Hash → List Hash → List Hash → List Hash × List Hash
merge_sets r g r' g' =
    let (received, given) = settle_all r' (r, g) in
    let (given', received') = settle_all g' (given, received) in (received', given')

-- `&&` of the checks that Merge repeats after Cmp, in front of the merged value.
abbrev checked : Bool → Profit → Outcome ProfitError Profit
checked true p = ok p
checked false p = err ProfitError.merge_not_possible

-- One receive and one give cancel; two of a kind are called impossible, and panic.
abbrev merge_directions : Profit → Bool → Bool → Outcome ProfitError Profit
merge_directions p true true = panic
merge_directions p false false = panic
merge_directions p _ _ = ok p

-- The body of ERC721Profit.Merge, where account and contract agree.
merge_tokens :
    Address → Address → Option Hash → Bool → Option Hash → Bool → Outcome ProfitError Profit
merge_tokens a c none r u s = ok (erc721_profit a c u s)
merge_tokens a c (some t) r none s = ok (erc721_profit a c (some t) r)
merge_tokens a c (some t) r (some u) s =
    if t == u
    then merge_directions (erc721_profit a c none false) r s
    else err ProfitError.merge_not_possible

-- Every Merge but that of ZeroProfit first asks Cmp, and turns its error into its own.
abbrev after_cmp : Outcome ProfitError ℤ → Outcome ProfitError Profit → Outcome ProfitError Profit
after_cmp (ok x) merged = merged
after_cmp (err e) merged = err ProfitError.merge_not_possible
after_cmp panic merged = panic

sum_ether : Address → ℤ → Profit → Outcome ProfitError Profit
sum_ether a x (ether_profit b y) = checked (a == b) (ether_profit a (x +ℤ y))
sum_ether a x _ = err ProfitError.merge_not_possible

merge_ether : Address → ℤ → Profit → Outcome ProfitError Profit
unfolding cmp_ether sum_ether
merge_ether a x other = after_cmp (cmp_ether a x other) (sum_ether a x other)

sum_erc20 : Address → Address → ℤ → Profit → Outcome ProfitError Profit
sum_erc20 a c x (erc20_profit b d y) = checked (a == b && c == d) (erc20_profit a c (x +ℤ y))
sum_erc20 a c x _ = err ProfitError.merge_not_possible

merge_erc20 : Address → Address → ℤ → Profit → Outcome ProfitError Profit
unfolding cmp_erc20 sum_erc20
merge_erc20 a c x other = after_cmp (cmp_erc20 a c x other) (sum_erc20 a c x other)

sum_erc777 : Address → Address → ℤ → Profit → Outcome ProfitError Profit
sum_erc777 a c x (erc777_profit b d y) = checked (a == b && c == d) (erc777_profit a c (x +ℤ y))
sum_erc777 a c x _ = err ProfitError.merge_not_possible

merge_erc777 : Address → Address → ℤ → Profit → Outcome ProfitError Profit
unfolding cmp_erc777 sum_erc777
merge_erc777 a c x other = after_cmp (cmp_erc777 a c x other) (sum_erc777 a c x other)

sum_erc1155 : Address → Address → Hash → ℤ → Profit → Outcome ProfitError Profit
sum_erc1155 a c t x (erc1155_profit b d u y) =
    checked (a == b && (c == d && t == u)) (erc1155_profit a c t (x +ℤ y))
sum_erc1155 a c t x _ = err ProfitError.merge_not_possible

merge_erc1155 : Address → Address → Hash → ℤ → Profit → Outcome ProfitError Profit
unfolding cmp_erc1155 sum_erc1155
merge_erc1155 a c t x other = after_cmp (cmp_erc1155 a c t x other) (sum_erc1155 a c t x other)

sum_erc721 : Address → Address → Option Hash → Bool → Profit → Outcome ProfitError Profit
unfolding merge_tokens
sum_erc721 a c t r (erc721_profit b d u s) =
    if a == b && c == d then merge_tokens a c t r u s else err ProfitError.merge_not_possible
sum_erc721 a c t r _ = err ProfitError.merge_not_possible

merge_erc721 : Address → Address → Option Hash → Bool → Profit → Outcome ProfitError Profit
unfolding cmp_erc721 sum_erc721
merge_erc721 a c t r other = after_cmp (cmp_erc721 a c t r other) (sum_erc721 a c t r other)

-- The type assertion cannot fail behind a Cmp that has succeeded.
sum_combined : Address → Address → List Hash → List Hash → Profit → Outcome ProfitError Profit
unfolding settle_all
sum_combined a c r g (erc721_combined_profit b d r' g') =
    let (received, given) = merge_sets r g r' g' in ok (erc721_combined_profit a c received given)
sum_combined a c r g _ = panic

merge_combined : Address → Address → List Hash → List Hash → Profit → Outcome ProfitError Profit
unfolding cmp_combined sum_combined
merge_combined a c r g other =
    after_cmp (cmp_combined a c (net_tokens r g) other) (sum_combined a c r g other)

-- The method `Merge` of the interface; ZeroProfit returns a copy of the other profit.
unfoldable pub merge : Profit → Profit → Outcome ProfitError Profit
unfolding merge_ether merge_erc20 merge_erc777 merge_erc1155 merge_erc721 merge_combined
merge zero_profit other = ok other
merge (ether_profit a x) other = merge_ether a x other
merge (erc20_profit a c x) other = merge_erc20 a c x other
merge (erc777_profit a c x) other = merge_erc777 a c x other
merge (erc1155_profit a c t x) other = merge_erc1155 a c t x other
merge (erc721_profit a c t r) other = merge_erc721 a c t r other
merge (erc721_combined_profit a c r g) other = merge_combined a c r g other
