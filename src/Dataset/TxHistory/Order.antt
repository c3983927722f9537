-- ===== src/Dataset/TxHistory/Order.antt =====
-- Cmp and ID of transaction positions.
use erebus_redgiant.Prelude.{◌<◌, ◌≡◌, ◌↔◌, ◌⊎◌, true, arith}
use erebus_redgiant.Prelude.Int.{pos, negsuc, ltb_ℤ}
use erebus_redgiant.Dataset.TxHistory.{TxPosition, cmp_positions, record_id}

-- In the order of the chain.
abbrev pub Before : TxPosition → TxPosition → Type 0
Before p q =
    (p.block_number < q.block_number)
    ⊎ ((p.block_number ≡ q.block_number) × (p.tx_index < q.tx_index))

-- Where both indexes are below 10000 and both block numbers below 922337203685477, so that no ID
-- passes the int64 range: a record's ID is below another's exactly where Cmp gives -1 for their
-- positions.
pub record_id-cmp_positions :
    (p q : TxPosition)
    → p.tx_index < 10000
    → q.tx_index < 10000
    → p.block_number < 922337203685477
    → q.block_number < 922337203685477
    → (cmp_positions p q ≡ negsuc 0) ↔ (ltb_ℤ (record_id p) (record_id q) ≡ true)
unfolding cmp_positions record_id
record_id-cmp_positions p q h k hb kb = ground arith

pub cmp-Before : (p q : TxPosition) → Before p q → cmp_positions p q ≡ negsuc 0
unfolding cmp_positions
cmp-Before p q h = ground arith

pub cmp-not_Before :
    (p q : TxPosition)
    → (Before p q → ⊥)
    → (cmp_positions p q ≡ pos 0) ⊎ (cmp_positions p q ≡ pos 1)
unfolding cmp_positions
cmp-not_Before p q h = ground (arith, h)

pub Before-cases : (p q : TxPosition) → Before p q ⊎ (Before p q → ⊥)
Before-cases p q = ground arith
