-- ===== src/Engine/Execution/Receipts.antt =====
-- What ApplyTransactions of dyengine/exevm.go counts.
use erebus_redgiant.Prelude.{
  ℕ, ◌+◌, ◌%◌, ◌^◌, ◌≡◌, refl, ap, ◌∙◌, ◌⊎◌, inl, inr, Bool, true, false, Option, none, some,
  Option-cases, List, [], ◌∷◌, Hash,
}
use erebus_redgiant.Tracers.Call.{ExecutionResult}
use erebus_redgiant.Engine.Execution.{
  VmConfig, VmContext, Message, Tx, Receipt, TxError, bad_message, Applied, result, failure, panics,
  Checked, valid, refused, Machine, Executed, Outcomes, new_message, new_receipt, settle, execute,
  apply_tx, apply_transaction, apply_each, apply_transactions,
}

-- The counters of the context have not moved.
abbrev SameCounts : VmContext → VmContext → Type 0
SameCounts c c' = (c'.gas_used ≡ c.gas_used) × (c'.transaction_index ≡ c.transaction_index)

-- The receipt of the transaction with this hash counts on from the first context to the second.
abbrev pub Follows : Hash → VmContext → Receipt → VmContext → Type 0
Follows h c r c' =
    (r.tx_hash ≡ h)
    × (r.transaction_index ≡ c.transaction_index)
    × (r.cumulative_gas_used ≡ (c.gas_used + r.gas_used) % 2 ^ 64)
    × (c'.gas_used ≡ r.cumulative_gas_used)
    × (c'.transaction_index ≡ (c.transaction_index + 1) % 2 ^ 64)

-- The receipts are those of the transactions, in order, each of which counts on from the one before.
unfoldable pub Numbered :
    {W : Type 0} → VmContext → List (Tx W) → List (Option Receipt) → VmContext → Type 0
Numbered c [] [] c' = SameCounts c c'
Numbered c [] (r ∷ rs) c' = ⊥
Numbered c (tx ∷ txs) [] c' = ⊥
Numbered c (tx ∷ txs) (none ∷ rs) c' = ⊥
Numbered c (tx ∷ txs) (some r ∷ rs) c' =
    (d : VmContext) × Follows tx.hash c r d × Numbered d txs rs c'

Numbered-moved :
    {W : Type 0} (c d c' : VmContext) (txs : List (Tx W)) (rs : List (Option Receipt))
    → SameCounts c d
    → Numbered d txs rs c'
    → Numbered c txs rs c'
unfolding Numbered
Numbered-moved c d c' [] [] s (g, t) = (cc, cc)
Numbered-moved c d c' [] (r ∷ rs) s n = n
Numbered-moved c d c' (tx ∷ txs) [] s n = n
Numbered-moved c d c' (tx ∷ txs) (none ∷ rs) s n = n
Numbered-moved c d c' (tx ∷ txs) (some r ∷ rs) (g, t) (e, (h, i, u, a, b), n) = (
  e,
  (h, i ∙ t, u ∙ ap (λ x. (x + r.gas_used) % 2 ^ 64) g, a, b ∙ ap (λ x. (x + 1) % 2 ^ 64) t),
  n,
)

-- Every transaction is one of the included ones, or is rejected with its index, counted from `i`;
-- both are in the order of the transactions.
unfoldable pub Split : {W : Type 0} → ℕ → List (Tx W) → List (Tx W) → List (ℕ × TxError) → Type 0
Split i [] included rejected = (included ≡ []) × (rejected ≡ [])
Split {W = W} i (tx ∷ txs) included rejected =
    ((later : List (Tx W)) × (included ≡ tx ∷ later) × Split (i + 1) txs later rejected)
    ⊎ ((e : TxError) × (later : List (ℕ × TxError)) × (rejected ≡ (i, e) ∷ later)
        × Split (i + 1) txs included later)

-- How a transaction that was executed for its receipt counts.
CountsAs : {W : Type 0} → Option TxError → Hash → VmContext → Executed W → Type 0
CountsAs (some e) h c x = SameCounts c x.context
CountsAs none h c x = (r : Receipt) × (x.receipt ≡ some r) × Follows h c r x.context

Counts : {W : Type 0} → Hash → VmContext → Executed W → Type 0
unfolding CountsAs
Counts h c x = CountsAs x.error h c x

Checked-cases :
    {A : Type 0} (o : Checked A) → ((a : A) × (o ≡ valid a)) ⊎ ((e : ℕ) × (o ≡ refused e))
Checked-cases (valid a) = inl (a, refl)
Checked-cases (refused e) = inr (e, refl)

Applied-cases :
    (a : Applied)
    → ((r : ExecutionResult) × (a ≡ result r)) ⊎ (((e : ℕ) × (a ≡ failure e)) ⊎ (a ≡ panics))
Applied-cases (result r) = inl (r, refl)
Applied-cases (failure e) = inr (inl (e, refl))
Applied-cases panics = inr (inr refl)

module _ {W : Type 0} (vm : Machine W) (config : VmConfig) where
  execute-Counts :
      (tx : Tx W) (m : Message) (c : VmContext) (w : W)
      → Counts tx.hash c (execute vm config tx m false true c w)
  unfolding Counts CountsAs settle new_receipt execute
  execute-Counts tx m c w =
      let taken = vm.snapshot (vm.prepare tx.hash c.transaction_index w) in
      let applied = vm.apply_message c m taken.1 in
      elim (Applied-cases applied.0) [
        | inl (r, h) ↦ elim (Option-cases (vm.last_error applied.2)) [
          | inl quiet ↦ rw (h, quiet, execute) (_, refl, (refl, refl, refl, refl, refl))
          | inr (e, loud) ↦ rw (h, loud, execute) (refl, refl)
        ]
        | inr (inl (e, h)) ↦ rw (h, execute) (refl, refl)
        | inr (inr h) ↦ rw (h, execute) (refl, refl)
      ]

  apply_transaction-Counts :
      (tx : Tx W) (c : VmContext) (w : W)
      → Counts tx.hash c (apply_transaction vm config tx c false true w)
  unfolding Counts CountsAs apply_tx apply_transaction
  apply_transaction-Counts tx c w = elim (Checked-cases (vm.sender tx c.block_number)) [
    | inr (e, bad) ↦ rw (bad, apply_transaction) (refl, refl)
    | inl (a, from) ↦
        let sent = record tx {
          fields = record tx.fields { from = a };
          signed = true;
          is_pseudo = false;
          pseudo_exec = none;
        } in
        elim (Checked-cases (vm.as_message sent c.block_number c.base_fee)) [
          | inr (e, bad) ↦ rw (from, bad, apply_transaction) (refl, refl)
          | inl (m, read) ↦
              rw (from, read, apply_transaction) (execute-Counts sent (new_message config c m) c w)
        ]
  ]

  -- Every transaction is included or rejected, and the included ones have their receipts.
  abbrev Accounts : List (Tx W) → ℕ → VmContext → Outcomes W → Type 0
  Accounts txs i c o =
      Numbered c o.included o.receipts o.context × Split i txs o.included o.rejected

  apply_each-Accounts :
      (txs : List (Tx W)) (i : ℕ) (c : VmContext) (w : W)
      → Accounts txs i c (apply_each vm config txs i c true w)
  unfolding apply_each Numbered Counts CountsAs Split
  apply_each-Accounts [] i c w = ((refl, refl), (refl, refl))
  apply_each-Accounts (tx ∷ txs) i c w =
      elim (Checked-cases (vm.as_message tx c.block_number c.base_fee)) [
        | inr (e, bad) ↦
            let (n, split) = apply_each-Accounts txs (i + 1) c w in
            rw (bad, apply_each) (n, inr (bad_message e, _, refl, split))
        | inl (m, read) ↦
            let x = apply_transaction vm config tx c false true w in
            let counts = apply_transaction-Counts tx c w in
            let (n, split) = apply_each-Accounts txs (i + 1) x.context x.state in
            elim (Option-cases x.error) [
              | inr (e, bad) ↦
                  let same = rw (bad, CountsAs) at counts in
                  rw (read, bad, apply_each)
                    (Numbered-moved c x.context _ _ _ same n, inr (e, _, refl, split))
              | inl good ↦
                  let (r, has, follows) = rw (good, CountsAs) at counts in
                  rw (read, good, has, apply_each) ((x.context, follows, n), inl (_, refl, split))
            ]
      ]

  -- ApplyTransactions with receipts, whatever the EVM does: it gives its results, or the Commit at the
  -- end, which was asked for, fails. In the results every transaction is included, or rejected with its
  -- index in the list, both in order; there is
  -- a receipt for each included one, in order; its index and its cumulative gas count on from the
  -- receipt before, the first from the context that was given, and the context counts on from the last.
  pub apply_transactions_lem :
      (txs : List (Tx W)) (c : VmContext) (commit : Bool) (w : W)
      → ((o : Outcomes W) × ((apply_transactions vm config txs c commit true w).0 ≡ valid o)
          × Numbered c o.included o.receipts o.context
          × Split 0 txs o.included o.rejected)
        ⊎ ((e : ℕ) × ((apply_transactions vm config txs c commit true w).0 ≡ refused e)
            × (commit ≡ true))
  unfolding apply_transactions
  apply_transactions_lem txs c false w =
      let (n, split) = apply_each-Accounts txs 0 c w in inl (_, refl, n, split)
  apply_transactions_lem txs c true w =
      let done = apply_each vm config txs 0 c true w in
      let eip158 = vm.is_eip158 done.context.block_number in
      let rooted = (vm.intermediate_root eip158 done.state).1 in
      elim (Option-cases (vm.commit eip158 rooted).0) [
        | inl saved ↦
            let (n, split) = apply_each-Accounts txs 0 c w in
            inl (
              record done { state = (vm.commit eip158 rooted).1 },
              rw (saved, apply_transactions) refl,
              n,
              split,
            )
        | inr (e, failed) ↦ inr (e, rw (failed, apply_transactions) refl, refl)
      ]
