-- ===== src/Engine/World.antt =====
-- What dyengine/state/forked.go promises: a state that has all of the chain in memory.
use erebus_redgiant.Prelude.{ℕ, Option, none, some, List, [], ◌∷◌, Address, Hash}
use erebus_redgiant.Prelude.Int.{ℤ, pos, ◌+ℤ◌, ◌-ℤ◌}
use erebus_redgiant.Engine.StateDb.{Chain, changed_at}
use erebus_redgiant.Engine.Forked.{History, size, snoc, saved}
use erebus_redgiant.Engine.Forked.Calls.{
  Op, ask_balance, ask_nonce, ask_code, ask_state, pay, charge, put_nonce, put_code, put_state,
  warm_up, begin_tx, take_snapshot, go_back, Answer, done, amount, number, bytes,
}

pub record World : Type 0 where
  pub balance : Address → ℤ
  pub nonce : Address → ℕ
  pub code : Address → List ℕ
  pub storage : Address → Hash → Hash

abbrev pub world_of : Chain → World
world_of w = record {
  balance = λ a. pos (w.balance a);
  nonce = w.nonce;
  code = w.code;
  storage = w.storage;
}

-- One call. A snapshot keeps the world as it is, and going back takes it again.
unfoldable pub world_step : Op → World × History World → Option (Answer × (World × History World))
world_step (ask_balance a) (w, h) = some (amount (w.balance a), (w, h))
world_step (ask_nonce a) (w, h) = some (number (w.nonce a), (w, h))
world_step (ask_code a) (w, h) = some (bytes (w.code a), (w, h))
world_step (ask_state a k) (w, h) = some (number (w.storage a k), (w, h))
world_step (pay a x) (w, h) =
    some (done, (record w { balance = changed_at a (w.balance a +ℤ x) w.balance }, h))
world_step (charge a x) (w, h) =
    some (done, (record w { balance = changed_at a (w.balance a -ℤ x) w.balance }, h))
world_step (put_nonce a n) (w, h) = some (done, (record w { nonce = changed_at a n w.nonce }, h))
world_step (put_code a l) (w, h) = some (done, (record w { code = changed_at a l w.code }, h))
world_step (put_state a k v) (w, h) =
    some (done, (record w { storage = changed_at a (changed_at k v (w.storage a)) w.storage }, h))
world_step (warm_up a) (w, h) = some (done, (w, h))
world_step (begin_tx t i) (w, h) = some (done, (w, h))
world_step take_snapshot (w, h) = some (number (size h), (w, snoc h w h))
world_step (go_back i) (w, h) = elim (saved i h) [ none ↦ none | some s ↦ some (done, s) ]

abbrev pub first_then : Answer → Option (List Answer) → Option (List Answer)
first_then x none = none
first_then x (some xs) = some (x ∷ xs)

abbrev pub followed_by {ℓ} :
    {S : Type ℓ} → Option (Answer × S) → (S → Option (List Answer)) → Option (List Answer)
followed_by none f = none
followed_by (some (x, t)) f = first_then x (f t)

-- The answers to a list of calls, one after the other; none where one of them panics.
unfoldable pub answers {ℓ} :
    {S : Type ℓ} → (Op → S → Option (Answer × S)) → S → List Op → Option (List Answer)
answers step s [] = some []
answers step s (o ∷ l) = followed_by (step o s) (λ t. answers step t l)
