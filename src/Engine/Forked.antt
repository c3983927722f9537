-- ===== src/Engine/Forked.antt =====
-- ForkedState of dyengine/state/forked.go: an in-memory state that fetches what it lacks from the
-- forked chain. Go's maps of maps are association lists of association lists; the access list
-- is kept by its addresses, without the slots. A snapshot is a deep copy of the state with a
-- list of snapshots of its own, so the snapshots form a `History`.
pub mod Calls
pub mod Inherit
pub mod Words
pub mod Setters
pub mod Refinement
pub mod Access
pub mod Faults
use erebus_redgiant.Prelude.{
  ℕ, zero, suc, Bool, true, false, ◌||◌, Option, none, some, List, [], ◌∷◌, length, ltb, ◌==◌,
  if◌then◌else◌, Address, Hash, nat_eq,
}
use erebus_redgiant.Prelude.Int.{ℤ, pos, negsuc}
use erebus_redgiant.Prelude.Map.{lookup, insert}
use erebus_redgiant.Engine.StateDb.{Account, StateDb, Remote, Reply, value, fault}

-- `m[k]` of a map of flags: absent is false.
unfoldable pub flag : ℕ → List (ℕ × Bool) → Bool
flag k m = elim (lookup k m) [ some b ↦ b | none ↦ false ]

-- `m[a]` of a map of maps: absent is the nil map, which reads as the empty one.
unfoldable pub row : Address → List (Address × List (Hash × Bool)) → List (Hash × Bool)
row a m = elim (lookup a m) [ some l ↦ l | none ↦ [] ]

-- The fields of ForkedState but the snapshots.
pub record Core (g : StateDb) : Type 0 where
  pub db : g.Db
  pub state_inherited : List (Address × Bool)
  pub storage_inherited : List (Address × List (Hash × Bool))
  pub dirty_cleared_storage : List (Address × List (Hash × Bool))
  pub committed_cleared_storage : List (Address × List (Hash × Bool))
  pub access_list : List Address
  pub thash : Hash
  pub tx_index : ℕ
  pub last_err : Option ℕ

-- A list of snapshots, the oldest first; each entry has its own list.
pub data History {ℓ} (A : Type ℓ) : Type ℓ where
  start : History A
  entry : A → History A → History A → History A

unfoldable pub size {ℓ} : {A : Type ℓ} → History A → ℕ
size start = 0
size (entry c own rest) = suc (size rest)

-- `append(snapshots, snapshot)`
unfoldable pub snoc {ℓ} : {A : Type ℓ} → History A → A → History A → History A
snoc start c own = entry c own start
snoc (entry d o rest) c own = entry d o (snoc rest c own)

-- `snapshots[id]`: none is the panic of an index out of range.
unfoldable pub saved {ℓ} : {A : Type ℓ} → ℕ → History A → Option (A × History A)
saved i start = none
saved zero (entry c own rest) = some (c, own)
saved (suc i) (entry c own rest) = saved i rest

unfoldable pub is_member : Address → List Address → Bool
is_member a [] = false
is_member a (b ∷ l) = b == a || is_member a l

-- `balance.Cmp(big.NewInt(0)) > 0`
unfoldable pub is_positive : ℤ → Bool
is_positive (pos n) = ltb 0 n
is_positive (negsuc n) = false

module _ (g : StateDb) (r : Remote) where
  unfoldable pub new_forked_state : Core g
  new_forked_state = record {
    db = g.empty;
    state_inherited = [];
    storage_inherited = [];
    dirty_cleared_storage = [];
    committed_cleared_storage = [];
    access_list = [];
    thash = 0;
    tx_index = 0;
    last_err = none;
  }

  -- inheritAccountState, from where the nonce is fetched on.
  unfoldable pub inherit_nonce : Address → Reply ℕ → Core g → Core g × Option ℕ
  inherit_nonce a (fault e) c = (c, some e)
  inherit_nonce a (value n) c = (
    record c {
      db = if ltb 0 n then g.set_nonce a n c.db else c.db;
      storage_inherited = insert a [] c.storage_inherited;
      dirty_cleared_storage = insert a [] c.dirty_cleared_storage;
      state_inherited = insert a true c.state_inherited;
    },
    none,
  )

  -- inheritAccountState, from where the code is fetched on.
  unfoldable pub inherit_code : Address → Reply (List ℕ) → Core g → Core g × Option ℕ
  inherit_code a (fault e) c = (c, some e)
  inherit_code a (value d) c =
      inherit_nonce a (r.nonce_at a)
        (record c { db = if ltb 0 (length d) then g.set_code a d c.db else c.db })

  -- inheritAccountState, from where the balance is fetched on.
  unfoldable pub inherit_balance : Address → Reply ℤ → Core g → Core g × Option ℕ
  inherit_balance a (fault e) c = (c, some e)
  inherit_balance a (value b) c =
      inherit_code a (r.code_at a)
        (record c { db = if is_positive b then g.add_balance a b c.db else c.db })

  -- The state afterwards, and the error that is returned.
  unfoldable pub inherit_account_state : Address → Core g → Core g × Option ℕ
  inherit_account_state a c =
      if flag a c.state_inherited || (g.account c.db a).exist
      then (c, none)
      else inherit_balance a (r.balance_at a) c

  -- inheritAccountStorage, from where the word is fetched on.
  unfoldable pub inherit_word : Address → Hash → Reply Hash → Core g → Core g × Option ℕ
  inherit_word a k (fault e) c = (c, some e)
  inherit_word a k (value v) c = (
    record c {
      db = if v == 0 then c.db else g.set_state a k v c.db;
      storage_inherited = insert a (insert k true (row a c.storage_inherited)) c.storage_inherited;
    },
    none,
  )

  unfoldable pub inherit_account_storage : Address → Hash → Core g → Core g × Option ℕ
  inherit_account_storage a k c =
      if flag k (row a c.storage_inherited)
      then (c, none)
      else inherit_word a k (r.storage_at a k) c

  -- `if err != nil { s.lastErr = err }`
  unfoldable pub note_error : Core g × Option ℕ → Core g
  note_error (c, none) = c
  note_error (c, some e) = record c { last_err = some e }

  -- What every method does first.
  unfoldable pub with_account : Address → Core g → Core g
  with_account a c = note_error (inherit_account_state a c)

  -- What every method of the storage does first.
  unfoldable pub with_storage : Address → Hash → Core g → Core g
  with_storage a k c = note_error (inherit_account_storage a k (with_account a c))

  unfoldable pub get_balance : Address → Core g → ℤ × Core g
  get_balance a c = let d = with_account a c in ((g.account d.db a).balance, d)

  unfoldable pub get_nonce : Address → Core g → ℕ × Core g
  get_nonce a c = let d = with_account a c in ((g.account d.db a).nonce, d)

  unfoldable pub get_code : Address → Core g → List ℕ × Core g
  get_code a c = let d = with_account a c in ((g.account d.db a).code, d)

  unfoldable pub get_state : Address → Hash → Core g → Hash × Core g
  get_state a k c = let d = with_storage a k c in ((g.account d.db a).storage k, d)

  unfoldable pub add_balance : Address → ℤ → Core g → Core g
  add_balance a x c = let d = with_account a c in record d { db = g.add_balance a x d.db }

  unfoldable pub sub_balance : Address → ℤ → Core g → Core g
  sub_balance a x c = let d = with_account a c in record d { db = g.sub_balance a x d.db }

  unfoldable pub set_nonce : Address → ℕ → Core g → Core g
  set_nonce a n c = let d = with_account a c in record d { db = g.set_nonce a n d.db }

  unfoldable pub set_code : Address → List ℕ → Core g → Core g
  set_code a l c = let d = with_account a c in record d { db = g.set_code a l d.db }

  -- `s.dirtyClearedStorage[addr][hash] = cleared`: none is the panic of writing to the nil map.
  unfoldable pub mark_cleared : Address → Hash → Bool → Core g → Option (Core g)
  mark_cleared a k b c = elim (lookup a c.dirty_cleared_storage) [
    | none ↦ none
    | some m ↦
        some (record c { dirty_cleared_storage = insert a (insert k b m) c.dirty_cleared_storage })
  ]

  unfoldable pub set_state : Address → Hash → Hash → Core g → Option (Core g)
  set_state a k v c =
      let d = with_storage a k c in
      mark_cleared a k (v == 0) (record d { db = g.set_state a k v d.db })

  unfoldable pub add_address_to_access_list : Address → Core g → Core g
  add_address_to_access_list a c = record c {
    access_list = if is_member a c.access_list then c.access_list else a ∷ c.access_list;
    db = g.add_address a c.db;
  }

  unfoldable pub add_addresses : List Address → Core g → Core g
  add_addresses [] c = c
  add_addresses (a ∷ l) c = add_addresses l (add_address_to_access_list a c)

  unfoldable pub prepare : Hash → ℕ → Core g → Core g
  prepare h i c = record c { thash = h; tx_index = i; db = g.prepare h i c.db }

  -- Copy; StateDB's own copy is the same value.
  unfoldable pub copy : Core g → Core g
  copy c =
      add_addresses c.access_list
        (prepare c.thash c.tx_index (record c { access_list = []; thash = 0; tx_index = 0 }))

  -- The id, and the snapshots afterwards.
  unfoldable pub snapshot : Core g → History (Core g) → ℕ × History (Core g)
  snapshot c h = (size h, snoc h (copy c) h)

  -- The fields that the method does not assign stay as they are.
  unfoldable pub restore : Core g → Core g → Core g
  restore c s = record s { access_list = c.access_list; thash = c.thash; tx_index = c.tx_index }

  unfoldable pub revert_to_snapshot :
      ℕ → Core g → History (Core g) → Option (Core g × History (Core g))
  revert_to_snapshot i c h = elim (saved i h) [
    | none ↦ none
    | some (s, own) ↦ some (restore c s, own)
  ]
