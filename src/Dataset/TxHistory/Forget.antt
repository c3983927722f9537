-- ===== src/Dataset/TxHistory/Forget.antt =====
-- Which blocks of the cache ForgetBlockRange removes.
use erebus_redgiant.Prelude.{
  ℕ, zero, suc, ◌+◌, ◌-◌, ◌%◌, ◌^◌, ◌<◌, ◌≤◌, ◌≡◌, ◌&&◌, none, List, arith, length, ltb, leb,
  if◌then◌else◌, nat_eq,
}
use erebus_redgiant.Prelude.Map.{lookup, erase, lookup-erase}
use erebus_redgiant.Dataset.TxHistory.{
  Session, end_of, close, block_range, forget_blocks, forget_block_range,
}

module _ {B : Type 0} where
  forget_range :
      (n from : ℕ) (cache : List (ℕ × B)) (j : ℕ)
      → from + n < 2 ^ 64
      → lookup j (forget_blocks (block_range from n) cache)
        ≡ (if leb from j && ltb j (from + n) then none else lookup j cache)
  unfolding block_range forget_blocks
  forget_range zero from cache j h = ground (arith, h)
  forget_range (suc n) from cache j h =
      let q : (from + 1) % 2 ^ 64 ≡ from + 1 = omega arith in
      rw q (
        ground
          (arith, forget_range n (from + 1) (erase from cache) j, lookup-erase from j cache, h))

  -- ForgetBlockRange removes the blocks from the first to the last, both included, and no other.
  pub lookup-forget_block_range :
      (from to : ℕ) (cache : List (ℕ × B)) (j : ℕ)
      → from ≤ to
      → to + 1 < 2 ^ 64
      → lookup j (forget_block_range from to cache)
        ≡ (if leb from j && leb j to then none else lookup j cache)
  unfolding forget_block_range
  lookup-forget_block_range from to cache j h k =
      let q : (to + 2 ^ 64 - from + 1) % 2 ^ 64 ≡ to + 1 - from = omega arith in
      rw q (ground (arith, forget_range (to + 1 - from) from cache j, h, k))

module _ {B R : Type 0} where
  -- Where the second block after the window is within uint64, Close removes the blocks of the window
  -- and the block after it, and no other.
  pub lookup-close :
      (s : Session R) (cache : List (ℕ × B)) (j : ℕ)
      → s.from + length s.blocks + 1 < 2 ^ 64
      → lookup j (close s cache)
        ≡ (if leb s.from j && leb j (s.from + length s.blocks) then none else lookup j cache)
  unfolding close end_of
  lookup-close s cache j h =
      let q : (s.from + length s.blocks) % 2 ^ 64 ≡ s.from + length s.blocks = omega arith in
      rw q (lookup-forget_block_range s.from _ cache j (omega arith) h)
