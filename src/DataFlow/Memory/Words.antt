-- ===== src/DataFlow/Memory/Words.antt =====
-- Which words the loops of memory.go visit: each word that the byte range touches, once.
use erebus_redgiant.Prelude.{
  ℕ, zero, suc, ◌+◌, ◌-◌, ◌*◌, ◌/◌, ◌%◌, ◌^◌, ◌≤◌, ◌<◌, ◌≡◌, refl, true, some, List, [], ◌∷◌, arith,
  ltb,
}
use erebus_redgiant.DataFlow.Memory.{u64, regulate, word_range}

-- `k` words from address `i` on.
abbrev pub multiples : ℕ → ℕ → List ℕ
multiples i zero = []
multiples i (suc k) = i ∷ multiples (i + 32) k

-- The number of words from `i` to the one that holds the byte before `end`.
abbrev pub word_count : ℕ → ℕ → ℕ
word_count i end = (end + 31 - i) / 32

-- As long as the addresses do not wrap, the loop visits the words from `i` up to `end` in order, and
-- one more round of fuel than there are words is enough.
word_range_lem :
    (fuel i k end : ℕ)
    → k < fuel
    → end ≤ i + 32 * k
    → i + 32 * k < end + 32
    → end + 32 ≤ 2 ^ 64
    → word_range fuel i end ≡ some (multiples i k)
unfolding word_range
word_range_lem zero i k end h e l b = absurd (omega arith)
word_range_lem (suc fuel) i zero end h e l b = ground arith
word_range_lem (suc fuel) i (suc k) end h e l b =
    let next : (i + 32) % 2 ^ 64 ≡ i + 32 = omega arith in
    let rest = word_range_lem fuel (i + 32) k end (omega arith) (omega arith) (omega arith) b in
    let inside : ltb i end ≡ true = ground arith in rw (next, rest, inside) refl

pub regulate-le : (index : ℕ) → (regulate index ≤ index) × (index < regulate index + 32)
unfolding regulate
regulate-le index = omega arith

-- The loop over a byte range that does not wrap visits the words of the range.
pub word_range-words :
    (fuel start length : ℕ)
    → start + length + 32 ≤ 2 ^ 64
    → word_count (regulate start) (start + length) < fuel
    → word_range fuel (regulate start) (u64 (start + length))
      ≡ some (multiples (regulate start) (word_count (regulate start) (start + length)))
word_range-words fuel start length b h =
    let (low, high) = regulate-le start in
    let plain : (start + length) % 2 ^ 64 ≡ start + length = omega arith in
    rw plain (
      word_range_lem fuel (regulate start) (word_count (regulate start) (start + length))
        (start + length) h (omega arith) (omega arith) b)
