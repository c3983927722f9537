-- ===== src/Engine/StateDb.antt =====
-- What dyengine/state/forked.go stands on and does not implement: go-ethereum's in-memory StateDB,
-- with the behaviour that its documentation gives, and the blockchain reader of the forked chain.
-- Both are parameters of the development; `plain_db` shows that the assumptions can be met.
use erebus_redgiant.Prelude.{
  ℕ, ◌≡◌, refl, Bool, true, false, ◌||◌, List, [], ◌==◌, if◌then◌else◌, Address, Hash,
}
use erebus_redgiant.Prelude.Int.{ℤ, pos, ◌+ℤ◌, ◌-ℤ◌}

-- An account as the getters of StateDB show it; one that does not exist shows zero values.
pub record Account : Type 0 where
  pub exist : Bool
  pub balance : ℤ
  pub nonce : ℕ
  pub code : List ℕ
  pub storage : Hash → Hash

abbrev pub no_account : Account
no_account = record { exist = false; balance = pos 0; nonce = 0; code = []; storage = λ k. 0 }

-- A function, changed at one argument.
abbrev pub changed_at {ℓ} : {A : Type ℓ} → ℕ → A → (ℕ → A) → ℕ → A
changed_at k v f j = if k == j then v else f j

-- The setters create the account where it does not exist. `prepare` clears the access list.
pub record StateDb : Type 1 where
  pub Db : Type 0
  pub empty : Db
  pub account : Db → Address → Account
  pub warm : Db → Address → Bool
  pub add_balance : Address → ℤ → Db → Db
  pub sub_balance : Address → ℤ → Db → Db
  pub set_nonce : Address → ℕ → Db → Db
  pub set_code : Address → List ℕ → Db → Db
  pub set_state : Address → Hash → Hash → Db → Db
  pub prepare : Hash → ℕ → Db → Db
  pub add_address : Address → Db → Db
  pub account_empty : (a : Address) → account empty a ≡ no_account
  pub account_add_balance :
      (a : Address) (x : ℤ) (s : Db) (b : Address)
      → account (add_balance a x s) b ≡ (
          let c = account s b in
          if a == b then record c { exist = true; balance = c.balance +ℤ x } else c)
  pub account_sub_balance :
      (a : Address) (x : ℤ) (s : Db) (b : Address)
      → account (sub_balance a x s) b ≡ (
          let c = account s b in
          if a == b then record c { exist = true; balance = c.balance -ℤ x } else c)
  pub account_set_nonce :
      (a : Address) (n : ℕ) (s : Db) (b : Address)
      → account (set_nonce a n s) b
        ≡ (let c = account s b in if a == b then record c { exist = true; nonce = n } else c)
  pub account_set_code :
      (a : Address) (d : List ℕ) (s : Db) (b : Address)
      → account (set_code a d s) b
        ≡ (let c = account s b in if a == b then record c { exist = true; code = d } else c)
  pub account_set_state :
      (a : Address) (k v : Hash) (s : Db) (b : Address)
      → account (set_state a k v s) b ≡ (
          let c = account s b in
          if a == b then record c { exist = true; storage = changed_at k v c.storage } else c)
  pub account_prepare :
      (h : Hash) (i : ℕ) (s : Db) (b : Address) → account (prepare h i s) b ≡ account s b
  pub account_add_address :
      (a : Address) (s : Db) (b : Address) → account (add_address a s) b ≡ account s b
  pub warm_prepare : (h : Hash) (i : ℕ) (s : Db) (b : Address) → warm (prepare h i s) b ≡ false
  pub warm_add_address :
      (a : Address) (s : Db) (b : Address) → warm (add_address a s) b ≡ (a == b || warm s b)

-- A reply of the blockchain reader: a value, or an error known by its number.
pub data Reply {ℓ} (A : Type ℓ) : Type ℓ where
  value : A → Reply A
  fault : ℕ → Reply A

-- The reader's answers at the block that is forked.
pub record Remote : Type 0 where
  pub balance_at : Address → Reply ℤ
  pub code_at : Address → Reply (List ℕ)
  pub nonce_at : Address → Reply ℕ
  pub storage_at : Address → Hash → Reply Hash

-- The world at the block that is forked.
pub record Chain : Type 0 where
  pub balance : Address → ℕ
  pub nonce : Address → ℕ
  pub code : Address → List ℕ
  pub storage : Address → Hash → Hash

-- A reader that answers every question, from one world.
abbrev pub reader_of : Chain → Remote
reader_of w = record {
  balance_at = λ a. value (pos (w.balance a));
  code_at = λ a. value (w.code a);
  nonce_at = λ a. value (w.nonce a);
  storage_at = λ a k. value (w.storage a k);
}

pub record Plain : Type 0 where
  pub accounts : Address → Account
  pub warmed : Address → Bool

abbrev edit : Address → (Account → Account) → Plain → Plain
edit a f s = record s { accounts = λ b. if a == b then f (s.accounts b) else s.accounts b }

-- A database of plain functions.
abbrev pub plain_db : StateDb
plain_db = record {
  Db = Plain;
  empty = record { accounts = λ a. no_account; warmed = λ a. false };
  account = λ s a. s.accounts a;
  warm = λ s a. s.warmed a;
  add_balance = λ a x s. edit a (λ c. record c { exist = true; balance = c.balance +ℤ x }) s;
  sub_balance = λ a x s. edit a (λ c. record c { exist = true; balance = c.balance -ℤ x }) s;
  set_nonce = λ a n s. edit a (λ c. record c { exist = true; nonce = n }) s;
  set_code = λ a d s. edit a (λ c. record c { exist = true; code = d }) s;
  set_state =
      λ a k v s. edit a (λ c. record c { exist = true; storage = changed_at k v c.storage }) s;
  prepare = λ h i s. record s { warmed = λ a. false };
  add_address = λ a s. record s { warmed = λ b. a == b || s.warmed b };
  account_empty = λ a. refl;
  account_add_balance = λ a x s b. refl;
  account_sub_balance = λ a x s b. refl;
  account_set_nonce = λ a n s b. refl;
  account_set_code = λ a d s b. refl;
  account_set_state = λ a k v s b. refl;
  account_prepare = λ h i s b. refl;
  account_add_address = λ a s b. refl;
  warm_prepare = λ h i s b. refl;
  warm_add_address = λ a s b. refl;
}
