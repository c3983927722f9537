-- ===== src/Dataset/TxHistory/Slices.antt =====
-- Which records SliceTxRecords returns.
use mathlib.Core.Path.{subst}
use erebus_redgiant.Prelude.{
  lt→ltb, ℕ, zero, suc, ◌+◌, ◌-◌, ◌%◌, ◌^◌, ◌<◌, ◌≤◌, ◌≡◌, refl, ap, ◌∙◌, false, none, some, List,
  [], ◌∷◌, ◌++◌, length, get_elem?, take, drop, length-append, get_elem?-length_append, arith, ltb,
  leb, ◌==◌, take-append-drop, length-take, Bool-cases, Option-cases, get_elem?-lt, get_elem?-none,
  sym, inl, inr, if◌then◌else◌,
}
use erebus_redgiant.Dataset.TxHistory.Order.{Before, cmp-Before, cmp-not_Before, Before-cases}
use erebus_redgiant.Dataset.TxHistory.{
  TxPosition, Session, slice_tx_records, cmp_positions, end_of, try_get_tx_record, cons_record,
  slice_loop, next_block, next_index,
}

append_assoc {ℓ} : {A : Type ℓ} (xs ys zs : List A) → (xs ++ ys) ++ zs ≡ xs ++ (ys ++ zs)
append_assoc [] ys zs = refl
append_assoc (x ∷ xs) ys zs = ap (λ l. x ∷ l) (append_assoc xs ys zs)

module _ {R : Type 0} where
  -- The records of block `b` from index `i` on that are before `to`.
  abbrev pub part : List R → ℕ → ℕ → TxPosition → List R
  part block b i to =
      if ltb b to.block_number
      then drop i block
      else if b == to.block_number
      then take (to.tx_index - i) (drop i block)
      else []

  -- The same for block `b` and those after it.
  abbrev pub span : List (List R) → ℕ → ℕ → TxPosition → List R
  span [] b i to = []
  span (block ∷ rest) b i to = part block b i to ++ span rest (b + 1) 0 to

  -- How much fuel the loop needs.
  abbrev pub need : List (List R) → ℕ → ℕ → TxPosition → ℕ
  need [] b i to = to.block_number + 4 - b + 1
  need (block ∷ rest) b i to = length block + 1 - i + 1 + need rest (b + 1) 0 to

  -- The numbers of the window and the indexes are machine integers.
  abbrev pub InRange : Session R → TxPosition → Type 0
  InRange s to =
      (s.from + length s.blocks < 2 ^ 64)
      × ((to.block_number + 1 < 2 ^ 64)
          × ((i : ℕ) (block : List R) → get_elem? s.blocks i ≡ some block → length block < 2 ^ 64))

  beyond_lem :
      (fuel : ℕ) (s : Session R) (p to : TxPosition)
      → to.block_number + 1 < 2 ^ 64
      → s.from + length s.blocks < 2 ^ 64
      → s.from + length s.blocks ≤ p.block_number
      → to.block_number + 3 ≤ fuel + p.block_number
      → 0 < fuel
      → slice_loop fuel s p to ≡ some []
  unfolding slice_loop cmp_positions try_get_tx_record end_of
  beyond_lem zero s p to h g k l m = absurd (omega arith)
  beyond_lem (suc fuel) s p to h g k l m = ground (arith, beyond_lem fuel s (next_block p) to)

  drop_beyond : (i : ℕ) (l : List R) → length l ≤ i → drop i l ≡ []
  drop_beyond zero [] h = refl
  drop_beyond (suc i) [] h = refl
  drop_beyond zero (x ∷ l) h = absurd (omega arith)
  drop_beyond (suc i) (x ∷ l) h = drop_beyond i l (omega arith)

  drop_cons : (i : ℕ) (l : List R) (r : R) → get_elem? l i ≡ some r → drop i l ≡ r ∷ drop (suc i) l
  drop_cons i [] r h = absurd (ground arith)
  drop_cons zero (x ∷ l) r h = ground arith
  drop_cons (suc i) (x ∷ l) r h = drop_cons i l r h

  take-drop_beyond : (n i : ℕ) (l : List R) → length l ≤ i → take n (drop i l) ≡ []
  take-drop_beyond zero i l h = refl
  take-drop_beyond (suc n) i l h = rw (drop_beyond i l h) refl

  -- The loop, step by step.
  loop_stop :
      (fuel : ℕ) (s : Session R) (p to : TxPosition)
      → (Before p to → ⊥)
      → slice_loop (suc fuel) s p to ≡ some []
  unfolding slice_loop
  loop_stop fuel s p to h = elim (cmp-not_Before p to h) [
    | inl e ↦ rw (e, slice_loop) refl
    | inr e ↦ rw (e, slice_loop) refl
  ]

  loop_skip :
      (fuel : ℕ) (s : Session R) (p to : TxPosition)
      → Before p to
      → try_get_tx_record s p ≡ none
      → slice_loop (suc fuel) s p to ≡ slice_loop fuel s (next_block p) to
  unfolding slice_loop
  loop_skip fuel s p to h e = rw (cmp-Before p to h, e, slice_loop) refl

  loop_take :
      (fuel : ℕ) (s : Session R) (p to : TxPosition) (r : R)
      → Before p to
      → try_get_tx_record s p ≡ some r
      → slice_loop (suc fuel) s p to ≡ cons_record r (slice_loop fuel s (next_index p) to)
  unfolding slice_loop
  loop_take fuel s p to r h e = rw (cmp-Before p to h, e, slice_loop) refl

  try_get_at :
      (s : Session R) (pre rest : List (List R)) (block : List R) (i : ℕ)
      → s.blocks ≡ pre ++ block ∷ rest
      → s.from + length s.blocks < 2 ^ 64
      → try_get_tx_record s (record { block_number = s.from + length pre; tx_index = i })
        ≡ get_elem? block i
  unfolding try_get_tx_record end_of
  try_get_at s pre rest block i e h =
      let l : length s.blocks ≡ length pre + suc (length rest) =
        ap length e ∙ length-append pre (block ∷ rest) in
      let below : ltb (s.from + length pre) s.from ≡ false = ground arith in
      let above : leb ((s.from + length s.blocks) % 2 ^ 64) (s.from + length pre) ≡ false =
        ground (arith, l, h) in
      let n : s.from + length pre - s.from ≡ length pre = omega arith in
      let at : get_elem? s.blocks (length pre) ≡ some block =
        ap (λ x. get_elem? x (length pre)) e ∙ get_elem?-length_append pre rest block in
      rw (below, above, n, at) refl

  part_nil :
      (block : List R) (b i : ℕ) (to : TxPosition)
      → (Before (record { block_number = b; tx_index = i }) to → ⊥)
      → part block b i to ≡ []
  part_nil block b i to h = elim (Bool-cases (b == to.block_number)) [
    | inl p ↦ let n : to.tx_index - i ≡ 0 = ground (arith, h, p) in rw (p, n) (ground (arith, h, p))
    | inr p ↦ ground (arith, h, p)
  ]

  span_nil :
      (rest : List (List R)) (b i : ℕ) (to : TxPosition)
      → (Before (record { block_number = b; tx_index = i }) to → ⊥)
      → span rest b i to ≡ []
  span_nil [] b i to h = refl
  span_nil (block ∷ rest) b i to h =
      rw (part_nil block b i to h, span_nil rest (b + 1) 0 to (λ k. h (ground (arith, k)))) refl

  span_skip :
      (block : List R) (rest : List (List R)) (b i : ℕ) (to : TxPosition)
      → length block ≤ i
      → span (block ∷ rest) b i to ≡ span rest (b + 1) 0 to
  span_skip block rest b i to h =
      ground (arith, drop_beyond i block h, take-drop_beyond (to.tx_index - i) i block h)

  span_take :
      (block : List R) (rest : List (List R)) (b i : ℕ) (to : TxPosition) (r : R)
      → get_elem? block i ≡ some r
      → Before (record { block_number = b; tx_index = i }) to
      → span (block ∷ rest) b i to ≡ r ∷ span (block ∷ rest) b (suc i) to
  span_take block rest b i to r e h = elim h [
    | inl k ↦ rw (drop_cons i block r e) (ground (arith, k))
    | inr k ↦
        let n : to.tx_index - i ≡ suc (to.tx_index - suc i) = omega arith in
        rw (drop_cons i block r e, n) (ground (arith, k))
  ]

  slice_lem :
      (fuel : ℕ) (s : Session R) (pre rest : List (List R)) (i : ℕ) (to : TxPosition)
      → s.blocks ≡ pre ++ rest
      → InRange s to
      → need rest (s.from + length pre) i to ≤ fuel
      → slice_loop fuel s (record { block_number = s.from + length pre; tx_index = i }) to
        ≡ some (span rest (s.from + length pre) i to)
  slice_lem fuel s pre [] i to e r h =
      let l : length s.blocks ≡ length pre + 0 = ap length e ∙ length-append pre [] in
      beyond_lem fuel s _ to r.1.0 r.0 (omega (arith, l)) (omega arith) (omega arith)
  slice_lem zero s pre (block ∷ rest) i to e r h = absurd (omega arith)
  slice_lem (suc fuel) s pre (block ∷ rest) i to e r h =
      let b = s.from + length pre in
      let p : TxPosition = record { block_number = b; tx_index = i } in
      let at = try_get_at s pre rest block i e r.0 in
      elim (Before-cases p to) [
        | inr n ↦ loop_stop fuel s p to n ∙ sym (ap some (span_nil (block ∷ rest) b i to n))
        | inl k ↦ elim (Option-cases (get_elem? block i)) [
          | inl n ↦
              let i_beyond = get_elem?-none block i n in
              let l : length s.blocks ≡ length pre + suc (length rest) =
                ap length e ∙ length-append pre (block ∷ rest) in
              let m : length (pre ++ block ∷ []) ≡ length pre + 1 =
                length-append pre (block ∷ []) in
              let q : (b + 1) % 2 ^ 64 ≡ s.from + length (pre ++ block ∷ []) =
                omega (arith, l, m, r.0) in
              let t : s.from + length (pre ++ block ∷ []) ≡ b + 1 = omega (arith, m) in
              loop_skip fuel s p to k (at ∙ n)
              ∙ ap (λ c. slice_loop fuel s (record { block_number = c; tx_index = 0 }) to) q
              ∙ slice_lem fuel s (pre ++ block ∷ []) rest 0 to
                  (e ∙ sym (append_assoc pre (block ∷ []) rest)) r (rw t (omega arith))
              ∙ ap (λ c. some (span rest c 0 to)) t
              ∙ sym (ap some (span_skip block rest b i to i_beyond))
          | inr (x, n) ↦
              let i_within = get_elem?-lt block i n in
              let q : (i + 1) % 2 ^ 64 ≡ suc i = omega (
                arith,
                i_within,
                r.1.1 (length pre) block
                    (ap (λ y. get_elem? y (length pre)) e ∙ get_elem?-length_append pre rest block),
              ) in
              loop_take fuel s p to x k (at ∙ n)
              ∙ ap
                  (λ j.
                    cons_record x
                      (slice_loop fuel s (record { block_number = b; tx_index = j }) to))
                  q
              ∙ ap (cons_record x)
                  (slice_lem fuel s pre (block ∷ rest) (suc i) to e r (omega arith))
              ∙ sym (ap some (span_take block rest b i to x n k))
        ]
      ]

  slice_at :
      (fuel : ℕ) (s : Session R) (pre rest : List (List R)) (b i : ℕ) (to : TxPosition)
      → s.from + length pre ≡ b
      → s.blocks ≡ pre ++ rest
      → InRange s to
      → need rest b i to ≤ fuel
      → slice_loop fuel s (record { block_number = b; tx_index = i }) to ≡ some (span rest b i to)
  slice_at fuel s pre rest b i to q e r f =
      subst
        (λ c.
          need rest c i to ≤ fuel
          → slice_loop fuel s (record { block_number = c; tx_index = i }) to
            ≡ some (span rest c i to))
        q (slice_lem fuel s pre rest i to e r) f

  -- Where block numbers and block lengths stay within uint64 and the fuel is `need`,
  -- SliceTxRecords from a position within the window to any other ends and returns exactly the
  -- records between the two, block by block and in order.
  pub slice_tx_records-span :
      (fuel : ℕ) (s : Session R) (p to : TxPosition)
      → InRange s to
      → s.from ≤ p.block_number
      → p.block_number ≤ s.from + length s.blocks
      → need (drop (p.block_number - s.from) s.blocks) p.block_number p.tx_index to ≤ fuel
      → slice_tx_records fuel s (some (p, some to))
        ≡ some (span (drop (p.block_number - s.from) s.blocks) p.block_number p.tx_index to)
  unfolding slice_tx_records
  slice_tx_records-span fuel s p to r h k f =
      let n = p.block_number - s.from in
      let q : s.from + length (take n s.blocks) ≡ p.block_number =
        omega (arith, length-take n s.blocks) in
      slice_at fuel s (take n s.blocks) (drop n s.blocks) p.block_number p.tx_index to q
        (sym (take-append-drop n s.blocks)) r f

  abbrev pub concat : List (List R) → List R
  concat [] = []
  concat (block ∷ rest) = block ++ concat rest

  span_all :
      (rest : List (List R)) (b n : ℕ)
      → b + length rest ≤ n
      → span rest b 0 (record { block_number = n; tx_index = 0 }) ≡ concat rest
  span_all [] b n h = refl
  span_all (block ∷ rest) b n h =
      rw (lt→ltb b n (omega arith), span_all rest (b + 1) n (omega arith)) refl

  -- Where block numbers and block lengths stay within uint64 and the fuel is `need`,
  -- SliceTxRecords without arguments ends and returns every record of the window, in order.
  pub slice_tx_records-concat :
      (fuel : ℕ) (s : Session R)
      → InRange s (record { block_number = s.from + length s.blocks; tx_index = 0 })
      → need s.blocks s.from 0 (record { block_number = s.from + length s.blocks; tx_index = 0 })
        ≤ fuel
      → slice_tx_records fuel s none ≡ some (concat s.blocks)
  unfolding slice_tx_records end_of
  slice_tx_records-concat fuel s r f =
      let e : (s.from + length s.blocks) % 2 ^ 64 ≡ s.from + length s.blocks = omega (arith, r.0) in
      rw e (
        slice_at fuel s [] s.blocks s.from 0 _ (omega arith) refl r f
        ∙ ap some (span_all s.blocks s.from _ (omega arith)))
