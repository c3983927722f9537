-- ===== src/Engine/Forked/Inherit.antt =====
-- What inheritAccountState leaves in the in-memory state.
use erebus_redgiant.Prelude.{
  ℕ, ◌≡◌, ◌≢◌, refl, Bool, true, false, ◌||◌, ◌∙◌, none, [], ◌∷◌, arith, ltb, lt→ltb, length, ◌==◌,
  if◌then◌else◌, Address, Hash, nat_eq, List, Bool-cases, inl, inr,
}
use erebus_redgiant.Prelude.Int.{ℤ, pos, ◌+ℤ◌}
use erebus_redgiant.Prelude.Map.{lookup, insert, lookup-insert}
use erebus_redgiant.Engine.StateDb.{no_account, StateDb, Chain, reader_of}
use erebus_redgiant.Engine.World.{World}
use erebus_redgiant.Engine.Forked.{
  flag, row, Core, is_positive, inherit_nonce, inherit_code, inherit_balance, inherit_account_state,
  note_error, with_account,
}

pub flag-insert :
    (k j : ℕ) (b : Bool) (m : List (ℕ × Bool))
    → flag j (insert k b m) ≡ (if k == j then b else flag j m)
unfolding flag
flag-insert k j b m = ground (arith, lookup-insert k j b m)

flag_nil : (k : ℕ) → flag k [] ≡ false
unfolding flag lookup
flag_nil k = refl

pub row-insert :
    (a b : ℕ) (l : List (Hash × Bool)) (m : List (Address × List (Hash × Bool)))
    → row b (insert a l m) ≡ (if a == b then l else row b m)
unfolding row
row-insert a b l m = ground (arith, lookup-insert a b l m)

module _ (g : StateDb) (n : Chain) where
  -- The core `c` shows the world `w`: what is in memory agrees with `w`, and what is not is as on
  -- the chain. The first four fields are the invariant of the lazy fetching.
  pub record Shows (c : Core g) (w : World) : Type 0 where
    pub fresh_db : (a : Address) → flag a c.state_inherited ≡ false → g.account c.db a ≡ no_account
    pub fresh_row :
        (a : Address) (k : Hash)
        → flag a c.state_inherited ≡ false
        → flag k (row a c.storage_inherited) ≡ false
    pub has_dirty :
        (a : Address) → flag a c.state_inherited ≡ true → lookup a c.dirty_cleared_storage ≢ none
    pub unfetched :
        (a : Address) (k : Hash)
        → flag k (row a c.storage_inherited) ≡ false
        → (g.account c.db a).storage k ≡ 0
    pub balance :
        (a : Address)
        → (if flag a c.state_inherited then (g.account c.db a).balance else pos (n.balance a))
          ≡ w.balance a
    pub nonce :
        (a : Address)
        → (if flag a c.state_inherited then (g.account c.db a).nonce else n.nonce a) ≡ w.nonce a
    pub code :
        (a : Address)
        → (if flag a c.state_inherited then (g.account c.db a).code else n.code a) ≡ w.code a
    pub storage :
        (a : Address) (k : Hash)
        → (if flag k (row a c.storage_inherited)
            then (g.account c.db a).storage k
            else n.storage a k)
          ≡ w.storage a k

  -- The account as each of the three fetches leaves it, over one that does not exist.
  balance_stage :
      (a : Address) (x : ℕ) (s : g.Db)
      → g.account s a ≡ no_account
      → g.account (if is_positive (pos x) then g.add_balance a (pos x) s else s) a
        ≡ record no_account { exist = ltb 0 x; balance = pos x }
  unfolding is_positive ◌+ℤ◌
  balance_stage a x s h = elim (Bool-cases (ltb 0 x)) [
    | inl p ↦ rw (p, g.account_add_balance, h) (ground arith)
    | inr p ↦ rw (p, h) (ground arith)
  ]

  code_stage :
      (a : Address) (d : List ℕ) (s : g.Db) (e : Bool) (y : ℤ)
      → g.account s a ≡ record no_account { exist = e; balance = y }
      → g.account (if ltb 0 (length d) then g.set_code a d s else s) a
        ≡ record no_account { exist = e || ltb 0 (length d); balance = y; code = d }
  code_stage a [] s e y h = rw h (ground arith)
  code_stage a (x ∷ d) s e y h =
      rw (lt→ltb 0 (length (x ∷ d)) (omega arith), g.account_set_code, h) (ground arith)

  nonce_stage :
      (a : Address) (i : ℕ) (s : g.Db) (e : Bool) (y : ℤ) (d : List ℕ)
      → g.account s a ≡ record no_account { exist = e; balance = y; code = d }
      → g.account (if ltb 0 i then g.set_nonce a i s else s) a
        ≡ record no_account { exist = e || ltb 0 i; balance = y; nonce = i; code = d }
  nonce_stage a i s e y d h = elim (Bool-cases (ltb 0 i)) [
    | inl p ↦ rw (p, g.account_set_nonce, h) (ground arith)
    | inr p ↦ rw (p, h) (ground arith)
  ]

  -- The database after the three fetches.
  abbrev fetched : Address → g.Db → g.Db
  fetched a s =
      let s1 =
        if is_positive (pos (n.balance a)) then g.add_balance a (pos (n.balance a)) s else s in
      let s2 = if ltb 0 (length (n.code a)) then g.set_code a (n.code a) s1 else s1 in
      if ltb 0 (n.nonce a) then g.set_nonce a (n.nonce a) s2 else s2

  account-fetched_same :
      (a : Address) (s : g.Db)
      → g.account s a ≡ no_account
      → (e : Bool) × (g.account (fetched a s) a ≡ record no_account {
        exist = e;
        balance = pos (n.balance a);
        nonce = n.nonce a;
        code = n.code a;
      })
  account-fetched_same a s h = (
    ltb 0 (n.balance a) || ltb 0 (length (n.code a)) || ltb 0 (n.nonce a),
    nonce_stage a (n.nonce a) _ _ _ _
        (code_stage a (n.code a) _ _ _ (balance_stage a (n.balance a) s h)),
  )

  either :
      (b : Address) (q : Bool) (s t : g.Db)
      → g.account t b ≡ g.account s b
      → g.account (if q then t else s) b ≡ g.account s b
  either b true s t h = h
  either b false s t h = refl

  account-fetched_other :
      (a b : Address) (s : g.Db) → (a == b) ≡ false → g.account (fetched a s) b ≡ g.account s b
  account-fetched_other a b s h =
      let s1 =
        if is_positive (pos (n.balance a)) then g.add_balance a (pos (n.balance a)) s else s in
      let s2 = if ltb 0 (length (n.code a)) then g.set_code a (n.code a) s1 else s1 in
      either b (ltb 0 (n.nonce a)) s2 (g.set_nonce a (n.nonce a) s2)
        (rw (g.account_set_nonce, h) refl)
      ∙ either b (ltb 0 (length (n.code a))) s1 (g.set_code a (n.code a) s1)
          (rw (g.account_set_code, h) refl)
      ∙ either b (is_positive (pos (n.balance a))) s (g.add_balance a (pos (n.balance a)) s)
          (rw (g.account_add_balance, h) refl)

  pub with_account_lem :
      (a : Address) (c : Core g)
      → flag a c.state_inherited ≡ false
      → g.account c.db a ≡ no_account
      → with_account g (reader_of n) a c ≡ record c {
        db = fetched a c.db;
        storage_inherited = insert a [] c.storage_inherited;
        dirty_cleared_storage = insert a [] c.dirty_cleared_storage;
        state_inherited = insert a true c.state_inherited;
      }
  unfolding with_account inherit_account_state inherit_balance inherit_code inherit_nonce note_error
  with_account_lem a c p q = rw (p, q) refl

  known :
      (a : Address) (c : Core g)
      → flag a c.state_inherited ≡ true
      → with_account g (reader_of n) a c ≡ c
  unfolding with_account inherit_account_state note_error
  known a c p = rw p refl

  fetched-Shows :
      (a : Address) (c : Core g) (w : World)
      → Shows c w
      → flag a c.state_inherited ≡ false
      → Shows
          (record c {
            db = fetched a c.db;
            storage_inherited = insert a [] c.storage_inherited;
            dirty_cleared_storage = insert a [] c.dirty_cleared_storage;
            state_inherited = insert a true c.state_inherited;
          })
          w
  fetched-Shows a c w s p =
      let f = account-fetched_same a c.db (s.fresh_db a p) in
      let o : (b : Address) → (a == b) ≡ false → g.account (fetched a c.db) b ≡ g.account c.db b =
        λ b q. account-fetched_other a b c.db q in
      let i : (b : Address)
          → flag b (insert a true c.state_inherited)
            ≡ (if a == b then true else flag b c.state_inherited) =
        λ b. flag-insert a b true c.state_inherited in
      let j : (b : Address)
          → row b (insert a [] c.storage_inherited)
            ≡ (if a == b then [] else row b c.storage_inherited) =
        λ b. row-insert a b [] c.storage_inherited in
      record {
        fresh_db = λ b q. ground (arith, i b, o b, s.fresh_db b);
        fresh_row = λ b k q. ground (arith, i b, j b, flag_nil k, p, s.fresh_row b k);
        has_dirty =
            λ b q. ground (arith, i b, lookup-insert a b [] c.dirty_cleared_storage, s.has_dirty b);
        unfetched = λ b k q. ground (arith, j b, f.1, o b, s.unfetched b k);
        balance = λ b. ground (arith, i b, f.1, p, o b, s.balance a, s.balance b);
        nonce = λ b. ground (arith, i b, f.1, p, o b, s.nonce a, s.nonce b);
        code = λ b. ground (arith, i b, f.1, p, o b, s.code a, s.code b);
        storage = λ b k.
            ground (arith, j b, flag_nil k, p, o b, s.fresh_row a k, s.storage a k, s.storage b k);
      }

  -- Fetching the account makes it known, and shows the same world.
  pub with_account-Shows :
      (a : Address) (c : Core g) (w : World)
      → Shows c w
      → Shows (with_account g (reader_of n) a c) w
        × (flag a (with_account g (reader_of n) a c).state_inherited ≡ true)
  with_account-Shows a c w s = elim (Bool-cases (flag a c.state_inherited)) [
    | inl p ↦ rw (known a c p) (s, p)
    | inr p ↦
        rw (with_account_lem a c p (s.fresh_db a p))
          (fetched-Shows a c w s p, ground (arith, flag-insert a a true c.state_inherited))
  ]
