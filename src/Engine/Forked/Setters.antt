-- ===== src/Engine/Forked/Setters.antt =====
-- What the methods of ForkedState do to the world that the state shows.
use erebus_redgiant.Prelude.{
  ℕ, ◌≡◌, refl, Bool, true, some, List, [], ◌∷◌, arith, Address, Hash, nat_eq, Option-cases, inl,
  inr,
}
use erebus_redgiant.Prelude.Int.{ℤ, ◌+ℤ◌, ◌-ℤ◌}
use erebus_redgiant.Prelude.Map.{lookup, insert, lookup-insert}
use erebus_redgiant.Engine.StateDb.{StateDb, Chain, reader_of, changed_at}
use erebus_redgiant.Engine.World.{World}
use erebus_redgiant.Engine.Forked.{
  flag, row, Core, mark_cleared, add_address_to_access_list, add_addresses, prepare, copy, restore,
}
use erebus_redgiant.Engine.Forked.Inherit.{Shows}

module _ (g : StateDb) (n : Chain) (c : Core g) (w : World) (s : Shows g n c w) (a : Address) where
  module _ (p : flag a c.state_inherited ≡ true) where
    pub add_balance-Shows :
        (x : ℤ)
        → Shows g n
            (record c { db = g.add_balance a x c.db })
            (record w { balance = changed_at a (w.balance a +ℤ x) w.balance })
    add_balance-Shows x = record {
      fresh_db = λ b r. rw g.account_add_balance (ground (arith, p, r, s.fresh_db b));
      fresh_row = s.fresh_row;
      has_dirty = s.has_dirty;
      unfetched = λ b l r. rw g.account_add_balance (ground (arith, s.unfetched b l));
      balance = λ b. rw g.account_add_balance (ground (arith, p, s.balance a, s.balance b));
      nonce = λ b. rw g.account_add_balance (ground (arith, s.nonce b));
      code = λ b. rw g.account_add_balance (ground (arith, s.code b));
      storage = λ b l. rw g.account_add_balance (ground (arith, s.storage b l));
    }

    pub sub_balance-Shows :
        (x : ℤ)
        → Shows g n
            (record c { db = g.sub_balance a x c.db })
            (record w { balance = changed_at a (w.balance a -ℤ x) w.balance })
    sub_balance-Shows x = record {
      fresh_db = λ b r. rw g.account_sub_balance (ground (arith, p, r, s.fresh_db b));
      fresh_row = s.fresh_row;
      has_dirty = s.has_dirty;
      unfetched = λ b l r. rw g.account_sub_balance (ground (arith, s.unfetched b l));
      balance = λ b. rw g.account_sub_balance (ground (arith, p, s.balance a, s.balance b));
      nonce = λ b. rw g.account_sub_balance (ground (arith, s.nonce b));
      code = λ b. rw g.account_sub_balance (ground (arith, s.code b));
      storage = λ b l. rw g.account_sub_balance (ground (arith, s.storage b l));
    }

    pub set_nonce-Shows :
        (i : ℕ)
        → Shows g n
            (record c { db = g.set_nonce a i c.db })
            (record w { nonce = changed_at a i w.nonce })
    set_nonce-Shows i = record {
      fresh_db = λ b r. rw g.account_set_nonce (ground (arith, p, r, s.fresh_db b));
      fresh_row = s.fresh_row;
      has_dirty = s.has_dirty;
      unfetched = λ b l r. rw g.account_set_nonce (ground (arith, s.unfetched b l));
      balance = λ b. rw g.account_set_nonce (ground (arith, s.balance b));
      nonce = λ b. rw g.account_set_nonce (ground (arith, p, s.nonce b));
      code = λ b. rw g.account_set_nonce (ground (arith, s.code b));
      storage = λ b l. rw g.account_set_nonce (ground (arith, s.storage b l));
    }

    pub set_code-Shows :
        (d : List ℕ)
        → Shows g n
            (record c { db = g.set_code a d c.db })
            (record w { code = changed_at a d w.code })
    set_code-Shows d = record {
      fresh_db = λ b r. rw g.account_set_code (ground (arith, p, r, s.fresh_db b));
      fresh_row = s.fresh_row;
      has_dirty = s.has_dirty;
      unfetched = λ b l r. rw g.account_set_code (ground (arith, s.unfetched b l));
      balance = λ b. rw g.account_set_code (ground (arith, s.balance b));
      nonce = λ b. rw g.account_set_code (ground (arith, s.nonce b));
      code = λ b. rw g.account_set_code (ground (arith, p, s.code b));
      storage = λ b l. rw g.account_set_code (ground (arith, s.storage b l));
    }

    pub set_state-Shows :
        (k v : Hash)
        → flag k (row a c.storage_inherited) ≡ true
        → Shows g n
            (record c { db = g.set_state a k v c.db })
            (record w { storage = changed_at a (changed_at k v (w.storage a)) w.storage })
    set_state-Shows k v q = record {
      fresh_db = λ b r. rw g.account_set_state (ground (arith, p, r, s.fresh_db b));
      fresh_row = s.fresh_row;
      has_dirty = s.has_dirty;
      unfetched = λ b l r. rw g.account_set_state (ground (arith, q, r, s.unfetched b l));
      balance = λ b. rw g.account_set_state (ground (arith, s.balance b));
      nonce = λ b. rw g.account_set_state (ground (arith, s.nonce b));
      code = λ b. rw g.account_set_state (ground (arith, s.code b));
      storage = λ b l. rw g.account_set_state (ground (arith, q, s.storage b l, s.storage a l));
    }

  -- Where the account is known, SetState does not write to the nil map.
  pub mark_cleared-Shows :
      (k : Hash) (b : Bool)
      → flag a c.state_inherited ≡ true
      → (d : Core g) × ((mark_cleared g (reader_of n) a k b c ≡ some d) × Shows g n d w)
  unfolding mark_cleared
  mark_cleared-Shows k b p = elim (Option-cases (lookup a c.dirty_cleared_storage)) [
    | inl q ↦ absurd (s.has_dirty a p q)
    | inr (m, q) ↦ (
      record c { dirty_cleared_storage = insert a (insert k b m) c.dirty_cleared_storage },
      (
        rw (q, mark_cleared) refl,
        record {
          fresh_db = s.fresh_db;
          fresh_row = s.fresh_row;
          has_dirty = λ e r.
              ground
                (arith, lookup-insert a e (insert k b m) c.dirty_cleared_storage, s.has_dirty e);
          unfetched = s.unfetched;
          balance = s.balance;
          nonce = s.nonce;
          code = s.code;
          storage = s.storage;
        },
      ),
    )
  ]

module _ (g : StateDb) (n : Chain) (w : World) where
  -- What a state shows depends on its accounts and on what it has fetched.
  same-Shows :
      (c d : Core g)
      → ((b : Address) → g.account d.db b ≡ g.account c.db b)
      → d.state_inherited ≡ c.state_inherited
      → d.storage_inherited ≡ c.storage_inherited
      → d.dirty_cleared_storage ≡ c.dirty_cleared_storage
      → Shows g n c w
      → Shows g n d w
  same-Shows c d h p q r s = record {
    fresh_db = λ b. rw (p, h) (s.fresh_db b);
    fresh_row = λ b k. rw (p, q) (s.fresh_row b k);
    has_dirty = λ b. rw (p, r) (s.has_dirty b);
    unfetched = λ b k. rw (q, h) (s.unfetched b k);
    balance = λ b. rw (p, h) (s.balance b);
    nonce = λ b. rw (p, h) (s.nonce b);
    code = λ b. rw (p, h) (s.code b);
    storage = λ b k. rw (q, h) (s.storage b k);
  }

  pub add_address_to_access_list-Shows :
      (a : Address) (c : Core g)
      → Shows g n c w
      → Shows g n (add_address_to_access_list g (reader_of n) a c) w
  unfolding add_address_to_access_list
  add_address_to_access_list-Shows a c s =
      same-Shows c _ (g.account_add_address a c.db) refl refl refl s

  add_addresses-Shows :
      (l : List Address) (c : Core g)
      → Shows g n c w
      → Shows g n (add_addresses g (reader_of n) l c) w
  unfolding add_addresses
  add_addresses-Shows [] c s = s
  add_addresses-Shows (a ∷ l) c s =
      add_addresses-Shows l (add_address_to_access_list g (reader_of n) a c)
        (add_address_to_access_list-Shows a c s)

  pub prepare-Shows :
      (t : Hash) (i : ℕ) (c : Core g) → Shows g n c w → Shows g n (prepare g (reader_of n) t i c) w
  unfolding prepare
  prepare-Shows t i c s = same-Shows c _ (g.account_prepare t i c.db) refl refl refl s

  pub copy-Shows : (c : Core g) → Shows g n c w → Shows g n (copy g (reader_of n) c) w
  unfolding copy
  copy-Shows c s =
      add_addresses-Shows c.access_list _
        (prepare-Shows c.thash c.tx_index _ (same-Shows c _ (λ b. refl) refl refl refl s))

  pub restore-Shows : (c d : Core g) → Shows g n d w → Shows g n (restore g (reader_of n) c d) w
  unfolding restore
  restore-Shows c d s = same-Shows d _ (λ b. refl) refl refl refl s
