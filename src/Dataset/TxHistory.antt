-- ===== src/Dataset/TxHistory.antt =====
-- dataset/tx_history.go: transaction positions, and the sessions over a window of blocks. A block
-- is a list of records; of a record the session reads what `R` holds.
pub mod Order
pub mod Slices
pub mod Forget
use erebus_redgiant.Prelude.{
  ℕ, zero, suc, ◌+◌, ◌-◌, ◌*◌, ◌%◌, ◌^◌, Bool, true, false, ◌||◌, Option, none, some, List, [], ◌∷◌,
  ◌++◌, length, get_elem?, ltb, leb, ◌==◌, if◌then◌else◌, Address, Hash, nat_eq, take, drop,
}
use erebus_redgiant.Prelude.Int.{ℤ, pos, negsuc}
use erebus_redgiant.Prelude.Map.{erase}

pub record TxPosition : Type 0 where
  pub block_number : ℕ
  pub tx_index : ℕ

unfoldable pub cmp_positions : TxPosition → TxPosition → ℤ
cmp_positions p q =
    if ltb p.block_number q.block_number
    then negsuc 0
    else if ltb q.block_number p.block_number
    then pos 1
    else if ltb p.tx_index q.tx_index
    then negsuc 0
    else if ltb q.tx_index p.tx_index
    then pos 1
    else pos 0

-- The int64 with the bits of a number, whose bits from 64 on are dropped.
abbrev pub int64 : ℕ → ℤ
int64 n = let w = n % 2 ^ 64 in if ltb w (2 ^ 63) then pos w else negsuc (2 ^ 64 - w - 1)

-- TxRecord.ID: the conversions, the product and the sum wrap.
unfoldable pub record_id : TxPosition → ℤ
record_id p = int64 (p.block_number * 10000 + p.tx_index)

-- The steps of the loop of SliceTxRecords.
abbrev pub next_block : TxPosition → TxPosition
next_block p = record { block_number = (p.block_number + 1) % 2 ^ 64; tx_index = 0 }

abbrev pub next_index : TxPosition → TxPosition
next_index p = record p { tx_index = (p.tx_index + 1) % 2 ^ 64 }

-- The block range of ForgetBlockRange.
unfoldable pub block_range : ℕ → ℕ → List ℕ
block_range from zero = []
block_range from (suc n) = from ∷ block_range ((from + 1) % 2 ^ 64) n

module _ {ℓ} {B : Type ℓ} where
  -- `h.blocks.Delete(bn)` for each number.
  unfoldable pub forget_blocks : List ℕ → List (ℕ × B) → List (ℕ × B)
  forget_blocks [] cache = cache
  forget_blocks (n ∷ l) cache = forget_blocks l (erase n cache)

  -- `make([]uint64, to-from+1)`, with the last block included.
  unfoldable pub forget_block_range : ℕ → ℕ → List (ℕ × B) → List (ℕ × B)
  forget_block_range from to cache =
      forget_blocks (block_range from ((to + 2 ^ 64 - from + 1) % 2 ^ 64)) cache

pub record Session {ℓ} (R : Type ℓ) : Type ℓ where
  pub from : ℕ
  pub blocks : List (List R)

module _ {ℓ} {R : Type ℓ} where
  unfoldable pub end_of : Session R → ℕ
  end_of s = (s.from + length s.blocks) % 2 ^ 64

  -- TryGetTxRecord; none is either of its errors.
  unfoldable pub try_get_tx_record : Session R → TxPosition → Option R
  try_get_tx_record s p =
      if ltb p.block_number s.from || leb (end_of s) p.block_number
      then none
      else elim (get_elem? s.blocks (p.block_number - s.from)) [
        | none ↦ none
        | some block ↦ get_elem? block p.tx_index
      ]

  abbrev pub cons_record : R → Option (List R) → Option (List R)
  cons_record r none = none
  cons_record r (some l) = some (r ∷ l)

  -- The loop of SliceTxRecords, on fuel; none is the end of the fuel.
  unfoldable pub slice_loop : ℕ → Session R → TxPosition → TxPosition → Option (List R)
  slice_loop zero s p to = none
  slice_loop (suc fuel) s p to = elim (cmp_positions p to) [
    | negsuc n ↦ elim (try_get_tx_record s p) [
      | none ↦ slice_loop fuel s (next_block p) to
      | some r ↦ cons_record r (slice_loop fuel s (next_index p) to)
    ]
    | pos n ↦ some []
  ]

  -- SliceTxRecords by the number of its arguments; more than two panic, which the type rules out.
  unfoldable pub slice_tx_records :
      ℕ → Session R → Option (TxPosition × Option TxPosition) → Option (List R)
  slice_tx_records fuel s none =
      slice_loop fuel s (record { block_number = s.from; tx_index = 0 })
        (record { block_number = end_of s; tx_index = 0 })
  slice_tx_records fuel s (some (p, none)) =
      slice_loop fuel s p (record { block_number = end_of s; tx_index = 0 })
  slice_tx_records fuel s (some (p, some to)) = slice_loop fuel s p to

  -- Close, on the blocks of the history.
  unfoldable pub close {κ} : {B : Type κ} → Session R → List (ℕ × B) → List (ℕ × B)
  close s cache = forget_block_range s.from (end_of s) cache
