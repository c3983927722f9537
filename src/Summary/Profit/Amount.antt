-- ===== src/Summary/Profit/Amount.antt =====
-- What a profit amounts to: the fungible assets of an account, as signed quantities. `Merge` of
-- profit.go adds them up.
use erebus_redgiant.Prelude.{◌≡◌, refl, Bool, List, arith, if◌then◌else◌, ◌==◌, ◌&&◌, Address, Hash}
use erebus_redgiant.Prelude.Int.{ℤ, pos, ◌+ℤ◌}
use erebus_redgiant.Prelude.Outcome.{ok}
use erebus_redgiant.Summary.Profit.{
  Profit, zero_profit, ether_profit, erc20_profit, erc777_profit, erc1155_profit, erc721_profit,
  erc721_combined_profit, merge, merge_sets,
}

-- A fungible asset in an account's hands.
pub data Holding : Type 0 where
  ether : Address → Holding
  erc20 : Address → Address → Holding
  erc777 : Address → Address → Holding
  erc1155 : Address → Address → Hash → Holding

abbrev pub only : Bool → ℤ → ℤ
only b x = if b then x else pos 0

unfoldable pub amount : Holding → Profit → ℤ
amount (Holding.ether a) (ether_profit b x) = only (a == b) x
amount (Holding.erc20 a c) (erc20_profit b d x) = only (a == b && c == d) x
amount (Holding.erc777 a c) (erc777_profit b d x) = only (a == b && c == d) x
amount (Holding.erc1155 a c t) (erc1155_profit b d u x) = only (a == b && (c == d && t == u)) x
amount _ _ = pos 0

zero_zero : pos 0 +ℤ pos 0 ≡ pos 0
unfolding ◌+ℤ◌
zero_zero = refl

zero_left : (x : ℤ) → pos 0 +ℤ x ≡ x
unfolding ◌+ℤ◌
zero_left x = ground arith

amount-zero_profit : (k : Holding) → amount k zero_profit ≡ pos 0
unfolding amount
amount-zero_profit (Holding.ether a) = refl
amount-zero_profit _ = refl

amount-combined :
    (k : Holding) (a c : Address) (r g : List Hash)
    → amount k (erc721_combined_profit a c r g) ≡ pos 0
unfolding amount
amount-combined (Holding.ether _) a c r g = refl
amount-combined _ a c r g = refl

amount-merge_combined :
    (k : Holding) (a c : Address) (r g : List Hash) (b d : Address) (r' g' : List Hash) {m : Profit}
    → merge (erc721_combined_profit a c r g) (erc721_combined_profit b d r' g') ≡ ok m
    → amount k m ≡ pos 0
unfolding merge
amount-merge_combined k a c r g b d r' g' h =
    let sets = merge_sets r g r' g' in ground (arith, amount-combined k a c sets.0 sets.1)

-- A merged profit amounts to the sum of the two, in every fungible asset.
pub amount-merge :
    (k : Holding) (p q : Profit) {m : Profit}
    → merge p q ≡ ok m
    → amount k m ≡ amount k p +ℤ amount k q
unfolding merge amount
amount-merge k zero_profit q h = ground (arith, amount-zero_profit k, zero_left (amount k q))
amount-merge k (ether_profit a x) (ether_profit b y) h = ground (arith, zero_zero)
amount-merge k (erc20_profit a c x) (erc20_profit b d y) h = ground (arith, zero_zero)
amount-merge k (erc777_profit a c x) (erc777_profit b d y) h = ground (arith, zero_zero)
amount-merge k (erc1155_profit a c t x) (erc1155_profit b d u y) h = ground (arith, zero_zero)
amount-merge k (erc721_profit a c t r) (erc721_profit b d u s) h = ground (arith, zero_zero)
amount-merge k (erc721_combined_profit a c r g) (erc721_combined_profit b d r' g') h = ground (
  arith,
  zero_zero,
  amount-merge_combined k a c r g b d r' g' h,
  amount-combined k a c r g,
  amount-combined k b d r' g',
)
amount-merge k _ _ h = absurd (ground arith)
