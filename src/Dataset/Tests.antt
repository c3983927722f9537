-- ===== src/Dataset/Tests.antt =====
-- Runs of the session functions.
use erebus_redgiant.Prelude.{
  false, true, Address, inl, ℕ, zero, suc, ◌+◌, ◌<◌, ◌≡◌, refl, ◌↔◌, ap, Option, none, some, List,
  [], ◌∷◌, ◌&&◌, length, leb, if◌then◌else◌, arith, nat_eq, get_elem?, ◌^◌,
}
use erebus_redgiant.Prelude.Int.{negsuc, ltb_ℤ}
use erebus_redgiant.Prelude.Map.{lookup}
use erebus_redgiant.Dataset.Involved.{TxRecord, summary, no_calls, nested, naive_overlap_with}
use erebus_redgiant.Dataset.Involved.Overlap.{Involves, naive_overlap_with_iff}
use erebus_redgiant.Dataset.TxHistory.{
  TxPosition, Session, cmp_positions, record_id, slice_tx_records, close, forget_block_range,
}
use erebus_redgiant.Dataset.TxHistory.Order.{record_id-cmp_positions}
use erebus_redgiant.Dataset.TxHistory.Slices.{
  InRange, slice_tx_records-span, slice_tx_records-concat,
}
use erebus_redgiant.Dataset.TxHistory.Forget.{lookup-forget_block_range, lookup-close}

abbrev at : ℕ → ℕ → TxPosition
at b i = record { block_number = b; tx_index = i }

-- Three blocks from number 10 on; their records are numbers.
abbrev window : Session ℕ
window = record { from = 10; blocks = (1 ∷ 2 ∷ []) ∷ [] ∷ (3 ∷ 4 ∷ 5 ∷ []) ∷ [] }

abbrev cached_blocks : List (ℕ × ℕ)
cached_blocks = (9, 0) ∷ (10, 1) ∷ (13, 2) ∷ (14, 3) ∷ []

abbrev size_of : Option (List ℕ) → ℕ
size_of none = 0
size_of (some block) = length block

window_lengths :
    (i : ℕ) (block : List ℕ) → get_elem? window.blocks i ≡ some block → length block < 2 ^ 64
window_lengths zero block h = omega (arith, ap size_of h)
window_lengths (suc zero) block h = omega (arith, ap size_of h)
window_lengths (suc (suc zero)) block h = omega (arith, ap size_of h)
window_lengths (suc (suc (suc i))) block h = absurd (ground arith)

window-InRange : (to : TxPosition) → to.block_number + 1 < 2 ^ 64 → InRange window to
window-InRange to h = (omega arith, (h, window_lengths))

record_id_example :
    (cmp_positions (at 3 9999) (at 4 0) ≡ negsuc 0)
    ↔ (ltb_ℤ (record_id (at 3 9999)) (record_id (at 4 0)) ≡ true)
record_id_example =
    record_id-cmp_positions (at 3 9999) (at 4 0) (omega arith) (omega arith) (omega arith)
      (omega arith)

slice_tx_records-span_example :
    slice_tx_records 20 window (some (at 10 1, some (at 12 2))) ≡ some (2 ∷ 3 ∷ 4 ∷ [])
slice_tx_records-span_example =
    slice_tx_records-span 20 window (at 10 1) (at 12 2) (window-InRange (at 12 2) (omega arith))
      (omega arith) (omega arith) (omega arith)

slice_tx_records-concat_example : slice_tx_records 20 window none ≡ some (1 ∷ 2 ∷ 3 ∷ 4 ∷ 5 ∷ [])
slice_tx_records-concat_example =
    slice_tx_records-concat 20 window (window-InRange (at 13 0) (omega arith)) (omega arith)

lookup-close_example :
    lookup 13 (close window cached_blocks)
    ≡ (if leb 10 13 && leb 13 (10 + 3) then none else lookup 13 cached_blocks)
lookup-close_example = lookup-close window cached_blocks 13 (omega arith)

lookup-forget_block_range_example :
    lookup 13 (forget_block_range 10 12 cached_blocks)
    ≡ (if leb 10 13 && leb 13 12 then none else lookup 13 cached_blocks)
lookup-forget_block_range_example =
    lookup-forget_block_range 10 12 cached_blocks 13 (omega arith) (omega arith)

abbrev transfer_record : TxRecord
transfer_record = record {
  is_pseudo = false;
  tx_summary = summary 1 2 (nested (summary 2 3 no_calls) no_calls);
  cached_addresses = none;
}

abbrev other_record : TxRecord
other_record = record {
  is_pseudo = false;
  tx_summary = summary 4 3 no_calls;
  cached_addresses = none;
}

naive_overlap_with_iff_example : (naive_overlap_with transfer_record other_record ≡ true) ↔ (
    (transfer_record.is_pseudo ≡ false)
    × (other_record.is_pseudo ≡ false)
    × ((a : Address) × Involves transfer_record.tx_summary a × Involves other_record.tx_summary a))
naive_overlap_with_iff_example =
    naive_overlap_with_iff transfer_record other_record (inl refl) (inl refl)
