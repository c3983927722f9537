-- ===== src/Engine/Forked/Words.antt =====
-- What inheritAccountStorage leaves in the in-memory state.
use erebus_redgiant.Prelude.{
  ◌≡◌, refl, true, false, ◌&&◌, ◌∙◌, arith, ◌==◌, if◌then◌else◌, Address, Hash, nat_eq, Bool-cases,
  inl, inr,
}
use erebus_redgiant.Prelude.Map.{insert}
use erebus_redgiant.Engine.StateDb.{StateDb, Chain, reader_of}
use erebus_redgiant.Engine.World.{World}
use erebus_redgiant.Engine.Forked.{
  flag, row, Core, inherit_word, inherit_account_storage, note_error, with_account, with_storage,
}
use erebus_redgiant.Engine.Forked.Inherit.{Shows, flag-insert, row-insert, with_account-Shows}

module _ (g : StateDb) (n : Chain) where
  word_stage :
      (a : Address) (k v : Hash) (s : g.Db) (b : Address)
      → (g.account s a).storage k ≡ 0
      → ((g.account (if v == 0 then s else g.set_state a k v s) b).balance
          ≡ (g.account s b).balance)
        × (((g.account (if v == 0 then s else g.set_state a k v s) b).nonce ≡ (g.account s b).nonce)
            × (((g.account (if v == 0 then s else g.set_state a k v s) b).code
                  ≡ (g.account s b).code)
                × ((j : Hash)
                    → (g.account (if v == 0 then s else g.set_state a k v s) b).storage j
                      ≡ (if a == b && k == j then v else (g.account s b).storage j))))
  word_stage a k v s b h = elim (Bool-cases (v == 0)) [
    | inl p ↦ rw p (refl, (refl, (refl, λ j. ground (arith, h, p))))
    | inr p ↦
        rw (p, g.account_set_state)
          (ground arith, (ground arith, (ground arith, λ j. ground arith)))
  ]

  word_other :
      (a b : Address) (k v : Hash) (s : g.Db)
      → (a == b) ≡ false
      → g.account (if v == 0 then s else g.set_state a k v s) b ≡ g.account s b
  word_other a b k v s h = elim (Bool-cases (v == 0)) [
    | inl p ↦ rw p refl
    | inr p ↦ rw (p, g.account_set_state, h) refl
  ]

  word-Shows :
      (a : Address) (k : Hash) (c : Core g) (w : World)
      → Shows g n c w
      → flag a c.state_inherited ≡ true
      → flag k (row a c.storage_inherited) ≡ false
      → Shows g n
          (record c {
            db = if n.storage a k == 0 then c.db else g.set_state a k (n.storage a k) c.db;
            storage_inherited =
                insert a (insert k true (row a c.storage_inherited)) c.storage_inherited;
          })
          w
  word-Shows a k c w s p q =
      let m = row a c.storage_inherited in
      let f = λ (b : Address). word_stage a k (n.storage a k) c.db b (s.unfetched a k q) in
      let i : (b : Address)
          → row b (insert a (insert k true m) c.storage_inherited)
            ≡ (if a == b then insert k true m else row b c.storage_inherited) =
        λ b. row-insert a b (insert k true m) c.storage_inherited in
      let j : (l : Hash) → flag l (insert k true m) ≡ (if k == l then true else flag l m) =
        λ l. flag-insert k l true m in
      record {
        fresh_db =
            λ b r. word_other a b k (n.storage a k) c.db (ground (arith, p, r)) ∙ s.fresh_db b r;
        fresh_row = λ b l r. ground (arith, i b, j l, p, r, s.fresh_row b l);
        has_dirty = s.has_dirty;
        unfetched = λ b l r. ground (arith, i b, j l, (f b).1.1.1 l, s.unfetched b l);
        balance = λ b. rw ((f b).0) (s.balance b);
        nonce = λ b. rw ((f b).1.0) (s.nonce b);
        code = λ b. rw ((f b).1.1.0) (s.code b);
        storage = λ b l. ground (arith, i b, j l, (f b).1.1.1 l, s.storage b l, s.storage a l);
      }

  -- What every method of the storage does first.
  pub with_storage-Shows :
      (a : Address) (k : Hash) (c : Core g) (w : World)
      → Shows g n c w
      → Shows g n (with_storage g (reader_of n) a k c) w
        × ((flag a (with_storage g (reader_of n) a k c).state_inherited ≡ true)
            × (flag k (row a (with_storage g (reader_of n) a k c).storage_inherited) ≡ true))
  unfolding with_storage inherit_account_storage inherit_word note_error
  with_storage-Shows a k c w s =
      let d = with_account g (reader_of n) a c in
      let h = with_account-Shows g n a c w s in
      elim (Bool-cases (flag k (row a d.storage_inherited))) [
        | inl p ↦ rw p (h.0, (h.1, p))
        | inr p ↦ rw p (
          word-Shows a k d w h.0 h.1 p,
          (
            h.1,
            ground (
              arith,
              row-insert a a (insert k true (row a d.storage_inherited)) d.storage_inherited,
              flag-insert k k true (row a d.storage_inherited),
            ),
          ),
        )
      ]
