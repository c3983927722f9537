-- ===== src/Engine/Forked/Faults.antt =====
-- What ForkedState does where the chain's reader fails.
use erebus_redgiant.Prelude.{
  ℕ, ◌≡◌, refl, ap, ◌∙◌, Bool, false, Option, none, some, ◌==◌, Address, Hash, nat_eq, Bool-cases,
  inl, inr,
}
use erebus_redgiant.Prelude.Map.{lookup}
use erebus_redgiant.Engine.StateDb.{StateDb, Remote, Reply, value, fault}
use erebus_redgiant.Engine.Forked.{
  Core, flag, row, set_state, with_storage, with_account, inherit_account_state, inherit_balance,
  inherit_account_storage, inherit_word, note_error, mark_cleared,
}

module _ (g : StateDb) (r : Remote) where
  note_error_dirty :
      (p : Core g × Option ℕ) → (note_error g r p).dirty_cleared_storage ≡ p.0.dirty_cleared_storage
  unfolding note_error
  note_error_dirty (c, none) = refl
  note_error_dirty (c, some e) = refl

  inherit_word_dirty :
      (a : Address) (k : Hash) (x : Reply Hash) (c : Core g)
      → (inherit_word g r a k x c).0.dirty_cleared_storage ≡ c.dirty_cleared_storage
  unfolding inherit_word
  inherit_word_dirty a k (fault e) c = refl
  inherit_word_dirty a k (value v) c = refl

  storage_dirty :
      (a : Address) (k : Hash) (c : Core g)
      → (inherit_account_storage g r a k c).0.dirty_cleared_storage ≡ c.dirty_cleared_storage
  unfolding inherit_account_storage
  storage_dirty a k c = elim (Bool-cases (flag k (row a c.storage_inherited))) [
    | inl p ↦ rw p refl
    | inr p ↦ rw p (inherit_word_dirty a k (r.storage_at a k) c)
  ]

  account_fault :
      (a : Address) (e : ℕ) (c : Core g)
      → r.balance_at a ≡ fault e
      → flag a c.state_inherited ≡ false
      → (g.account c.db a).exist ≡ false
      → inherit_account_state g r a c ≡ (c, some e)
  unfolding inherit_account_state inherit_balance
  account_fault a e c h p q = rw (p, q, h) refl

  fault_dirty :
      (a : Address) (k : Hash) (e : ℕ) (c : Core g)
      → r.balance_at a ≡ fault e
      → flag a c.state_inherited ≡ false
      → (g.account c.db a).exist ≡ false
      → (with_storage g r a k c).dirty_cleared_storage ≡ c.dirty_cleared_storage
  unfolding with_storage with_account
  fault_dirty a k e c h p q =
      note_error_dirty _
      ∙ storage_dirty a k _
      ∙ note_error_dirty _
      ∙ ap (λ x. x.0.dirty_cleared_storage) (account_fault a e c h p q)

  mark_cleared-none :
      (a : Address) (k : Hash) (b : Bool) (c : Core g)
      → lookup a c.dirty_cleared_storage ≡ none
      → mark_cleared g r a k b c ≡ none
  unfolding mark_cleared
  mark_cleared-none a k b c h = rw (h, mark_cleared) refl

  -- SetState of an account that is not in memory and has no map of cleared slots, while the reader
  -- cannot give the balance of the account, panics: the map was not made.
  pub set_state-fault :
      (a : Address) (k v : Hash) (e : ℕ) (c : Core g)
      → r.balance_at a ≡ fault e
      → flag a c.state_inherited ≡ false
      → (g.account c.db a).exist ≡ false
      → lookup a c.dirty_cleared_storage ≡ none
      → set_state g r a k v c ≡ none
  unfolding set_state
  set_state-fault a k v e c h p q m =
      mark_cleared-none a k (v == 0) _ (ap (lookup a) (fault_dirty a k e c h p q) ∙ m)
