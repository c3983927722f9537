-- ===== src/Summary/Profit/Compare.antt =====
-- How `Cmp` and `Merge` of the single profits in profit.go behave.
use erebus_redgiant.Prelude.{◌≡◌, ◌≢◌, refl, arith}
use erebus_redgiant.Prelude.Int.{ℤ, negsuc}
use erebus_redgiant.Prelude.Outcome.{ok}
use erebus_redgiant.Summary.Profit.{
  Profit, zero_profit, ether_profit, erc20_profit, erc777_profit, erc1155_profit, erc721_profit,
  erc721_combined_profit, cmp, cmp_ℤ, net_tokens,
}
use erebus_redgiant.Tracers.Position.Order.{opposite}

cmp_ℤ-opposite : (x y : ℤ) → cmp_ℤ y x ≡ opposite (cmp_ℤ x y)
cmp_ℤ-opposite x y = ground arith

cmp_ℤ_trans : (x y z : ℤ) → cmp_ℤ x y ≡ negsuc 0 → cmp_ℤ y z ≡ negsuc 0 → cmp_ℤ x z ≡ negsuc 0
cmp_ℤ_trans x y z h k = ground arith

-- Between two profits of which neither is the ZeroProfit, a comparison that succeeds succeeds the
-- other way round, with the opposite sign.
pub cmp_profit_opposite :
    (p q : Profit) {x : ℤ} → p ≢ zero_profit → cmp p q ≡ ok x → cmp q p ≡ ok (opposite x)
unfolding cmp
cmp_profit_opposite zero_profit q n h = absurd (n refl)
cmp_profit_opposite (ether_profit a x) (ether_profit b y) n h = ground (arith, cmp_ℤ-opposite x y)
cmp_profit_opposite (erc20_profit a c x) (erc20_profit b d y) n h =
    ground (arith, cmp_ℤ-opposite x y)
cmp_profit_opposite (erc777_profit a c x) (erc777_profit b d y) n h =
    ground (arith, cmp_ℤ-opposite x y)
cmp_profit_opposite (erc1155_profit a c t x) (erc1155_profit b d u y) n h =
    ground (arith, cmp_ℤ-opposite x y)
cmp_profit_opposite (erc721_profit a c t r) (erc721_profit b d u s) n h = ground arith
cmp_profit_opposite (erc721_combined_profit a c r g) (erc721_combined_profit b d r' g') n h =
    ground (arith, cmp_ℤ-opposite (net_tokens r g) (net_tokens r' g'))
cmp_profit_opposite _ _ n h = ground arith

-- Between profits that are no ZeroProfit, "less" is transitive.
pub cmp_profit_trans :
    (p q r : Profit)
    → p ≢ zero_profit
    → q ≢ zero_profit
    → cmp p q ≡ ok (negsuc 0)
    → cmp q r ≡ ok (negsuc 0)
    → cmp p r ≡ ok (negsuc 0)
unfolding cmp
cmp_profit_trans zero_profit q r np nq h k = absurd (np refl)
cmp_profit_trans (ether_profit a x) (ether_profit b y) (ether_profit c z) np nq h k =
    ground (arith, cmp_ℤ_trans x y z)
cmp_profit_trans (erc20_profit a _ x) (erc20_profit b _ y) (erc20_profit c _ z) np nq h k =
    ground (arith, cmp_ℤ_trans x y z)
cmp_profit_trans (erc777_profit a _ x) (erc777_profit b _ y) (erc777_profit c _ z) np nq h k =
    ground (arith, cmp_ℤ_trans x y z)
cmp_profit_trans (erc1155_profit a _ _ x) (erc1155_profit b _ _ y) (erc1155_profit c _ _ z) np nq h
      k =
    ground (arith, cmp_ℤ_trans x y z)
cmp_profit_trans (erc721_profit a c t r) (erc721_profit b d u s) (erc721_profit _ _ _ _) np nq h k =
    ground arith
cmp_profit_trans (erc721_combined_profit a c r g) (erc721_combined_profit b d r' g')
      (erc721_combined_profit _ _ r'' g'') np nq h k =
    ground (arith, cmp_ℤ_trans (net_tokens r g) (net_tokens r' g') (net_tokens r'' g''))
cmp_profit_trans _ _ _ np nq h k = ground arith
