-- ===== src/DataFlow/Memory/Stores.antt =====
-- What Store of memory.go leaves in each word, on every branch of its body.
use mathlib.Core.Path.{subst}
use erebus_redgiant.Prelude.{
  ℕ, zero, suc, ◌+◌, ◌*◌, ◌^◌, ◌≤◌, ◌<◌, ◌≡◌, ◌≢◌, refl, ◌∙◌, true, false, ◌⊎◌, ◌%◌, some, inl, inr,
  arith, ◌==◌, if◌then◌else◌, length, Bool-cases, nat_eq,
}
use erebus_redgiant.Prelude.Map.{insert, lookup-insert}
use erebus_redgiant.DataFlow.Node.{FlowNode, Store}
use erebus_redgiant.DataFlow.Memory.{
  Memory, regulate, read, is_partial, write_word, store_words, store,
}
use erebus_redgiant.DataFlow.Memory.Words.{regulate-le, multiples, word_count, word_range-words}
use erebus_redgiant.DataFlow.Memory.Merging.{
  Grows, Grows-refl, Grows-trans, IsNode, IsValid, IsNode-Grows, WordIs, WordIs-Grows,
  write_word_lem,
}

pub read-insert :
    (mem : Memory) (i j : ℕ) (v : FlowNode)
    → read (insert i v mem) j ≡ (if i == j then v else read mem j)
unfolding read
read-insert mem i j v = rw lookup-insert (ground arith)

-- Word `z` of the state `r` after a write that began at `mem` and `nodes`.
abbrev WordOf : ℕ → ℕ → FlowNode → Memory → Store → Memory × Store → ℕ → Type 0
WordOf start length value mem nodes r z =
    WordIs (is_partial start length z) (read mem z) value nodes r.1 (read r.0 z)

-- The state after the loop over `k` words from `i` on.
abbrev Written : ℕ → ℕ → FlowNode → ℕ → ℕ → Memory → Store → Memory × Store → Type 0
Written start length value i k mem nodes r =
    Grows nodes r.1
    × ((m : ℕ) → m < k → WordOf start length value mem nodes r (i + 32 * m))
    × ((j : ℕ) → ((m : ℕ) → m < k → i + 32 * m ≢ j) → read r.0 j ≡ read mem j)

insert-IsValid :
    (nodes nodes' : Store) (mem : Memory) (i : ℕ) (v : FlowNode)
    → Grows nodes nodes'
    → IsNode nodes' v
    → IsValid nodes mem
    → IsValid nodes' (insert i v mem)
insert-IsValid nodes nodes' mem i v g hv ok j = elim (Bool-cases (i == j)) [
  | inl e ↦ rw (read-insert mem i j v, e) hv
  | inr n ↦ rw (read-insert mem i j v, n) (IsNode-Grows nodes nodes' (read mem j) g (ok j))
]

-- The first word written, and then the rest.
Written-cons :
    (start length : ℕ) (value v : FlowNode) (k i : ℕ) (mem : Memory) (nodes nodes1 : Store)
    (r : Memory × Store)
    → IsValid nodes mem
    → IsNode nodes value
    → Grows nodes nodes1
    → WordIs (is_partial start length i) (read mem i) value nodes nodes1 v
    → Written start length value (i + 32) k (insert i v mem) nodes1 r
    → Written start length value i (suc k) mem nodes r
Written-cons start length value v k i mem nodes nodes1 r ok hv grown word (grown', words, others) =
    (
      Grows-trans nodes nodes1 r.1 grown grown',
      word_at,
      λ j h.
          others j (λ m l e. h (suc m) (omega arith) (omega arith))
          ∙ ground (arith, read-insert mem i j v, h 0),
    )
  where
    first : read r.0 i ≡ v
    first = others i (λ m l e. omega arith) ∙ ground (arith, read-insert mem i i v)

    kept : (z : ℕ) → i < z → read (insert i v mem) z ≡ read mem z
    kept z h = ground (arith, read-insert mem i z v)

    at_first : WordOf start length value mem nodes r i
    at_first = rw first (
        WordIs-Grows (is_partial start length i) (read mem i) value nodes nodes nodes1 r.1 v
          (Grows-refl nodes) grown' (ok i) hv word)

    at_later :
        (z : ℕ)
        → i < z
        → WordOf start length value (insert i v mem) nodes1 r z
        → WordOf start length value mem nodes r z
    at_later z h w =
        WordIs-Grows (is_partial start length z) (read mem z) value nodes nodes1 r.1 r.1
          (read r.0 z) grown (Grows-refl r.1) (ok z) hv
          (subst (λ old. WordIs (is_partial start length z) old value nodes1 r.1 (read r.0 z))
            (kept z h) w)

    word_at : (m : ℕ) → m < suc k → WordOf start length value mem nodes r (i + 32 * m)
    word_at zero h = subst (λ z. WordOf start length value mem nodes r z) (omega arith) at_first
    word_at (suc m) h =
        subst (λ z. WordOf start length value mem nodes r z) {x = i + 32 + 32 * m} (omega arith)
          (at_later (i + 32 + 32 * m) (omega arith) (words m (omega arith)))

store_words_lem :
    (start length : ℕ) (value : FlowNode) (k i : ℕ) (mem : Memory) (nodes : Store)
    → IsValid nodes mem
    → IsNode nodes value
    → Written start length value i k mem nodes
        (store_words start length value (multiples i k) mem nodes)
unfolding store_words
store_words_lem start length value zero i mem nodes ok hv =
    (Grows-refl nodes, λ m h. absurd (omega arith), λ j h. refl)
store_words_lem start length value (suc k) i mem nodes ok hv =
    let partial = is_partial start length i in
    let w = write_word partial (read mem i) value nodes in
    let (grown, is_node, word) = write_word_lem partial (read mem i) value nodes (ok i) hv in
    Written-cons start length value w.0 k i mem nodes w.1 _ ok hv grown word (
      store_words_lem start length value k (i + 32) (insert i w.0 mem) w.1
        (insert-IsValid nodes w.1 mem i w.0 grown is_node ok)
        (IsNode-Grows nodes w.1 value grown hv))

-- The range covers the word `z` in full.
abbrev pub Covers : ℕ → ℕ → ℕ → Type 0
Covers start length z = (start ≤ z) × (z + 32 ≤ start + length)

-- A word that the range covers in full holds the value; one that it covers in part is as `WordIs`
-- says of such a word.
abbrev pub Stored : ℕ → ℕ → FlowNode → Memory → Store → Memory × Store → ℕ → Type 0
Stored start length value mem nodes r z =
    (Covers start length z × (read r.0 z ≡ value))
    ⊎ ((Covers start length z → ⊥) × WordIs true (read mem z) value nodes r.1 (read r.0 z))

is_partial-Covers :
    (start length z : ℕ)
    → start + length + 32 ≤ 2 ^ 64
    → z < start + length
    → (Covers start length z × (is_partial start length z ≡ false))
      ⊎ ((Covers start length z → ⊥) × (is_partial start length z ≡ true))
is_partial-Covers start length z b h =
    let below : (start + length) % 2 ^ 64 ≡ start + length = omega arith in
    let next : (z + 32) % 2 ^ 64 ≡ z + 32 = omega arith in rw (below, next) (ground arith)

WordOf-Stored :
    (start length : ℕ) (value : FlowNode) (mem : Memory) (nodes : Store) (r : Memory × Store)
    (z : ℕ)
    → start + length + 32 ≤ 2 ^ 64
    → z < start + length
    → WordOf start length value mem nodes r z
    → Stored start length value mem nodes r z
WordOf-Stored start length value mem nodes r z b h w = elim (is_partial-Covers start length z b h) [
  | inl (full, e) ↦ inl (full, subst (λ p. WordIs p (read mem z) value nodes r.1 (read r.0 z)) e w)
  | inr (part, e) ↦ inr (part, subst (λ p. WordIs p (read mem z) value nodes r.1 (read r.0 z)) e w)
]

-- A write of at least one byte to a range that ends 32 bytes or more below 2 ^ 64, with enough fuel,
-- ends; the store of nodes only grows; every word that the range touches is as `Stored` says, by
-- whether the range covers it in full, by what it held and by the value; and every other word is as
-- before.
pub store_lem :
    (fuel start length : ℕ) (value : FlowNode) (mem : Memory) (nodes : Store)
    → 0 < length
    → start + length + 32 ≤ 2 ^ 64
    → word_count (regulate start) (start + length) < fuel
    → IsValid nodes mem
    → IsNode nodes value
    → let k = word_count (regulate start) (start + length) in
      (r : Memory × Store) × (store fuel start length value mem nodes ≡ some r)
      × Grows nodes r.1
      × ((m : ℕ) → m < k → Stored start length value mem nodes r (regulate start + 32 * m))
      × ((j : ℕ) → ((m : ℕ) → m < k → regulate start + 32 * m ≢ j) → read r.0 j ≡ read mem j)
unfolding store
store_lem fuel start length value mem nodes pos b h ok hv =
    let k = word_count (regulate start) (start + length) in
    let (low, high) = regulate-le start in
    let (grows, words, others) =
      store_words_lem start length value k (regulate start) mem nodes ok hv in
    (
      store_words start length value (multiples (regulate start) k) mem nodes,
      ground (arith, word_range-words fuel start length b h),
      grows,
      λ m less.
          WordOf-Stored start length value mem nodes _ (regulate start + 32 * m) b (omega arith)
            (words m less),
      others,
    )
