-- ===== src/Engine/Forked/Calls.antt =====
-- The calls that the EVM makes on a ForkedState (the interface State of dyengine/state.go), as data.
use erebus_redgiant.Prelude.{ℕ, Option, none, some, List, Address, Hash, nat_eq}
use erebus_redgiant.Prelude.Int.{ℤ}
use erebus_redgiant.Engine.StateDb.{StateDb, Remote}
use erebus_redgiant.Engine.Forked.{
  Core, History, snapshot, revert_to_snapshot, get_balance, get_nonce, get_code, get_state,
  add_balance, sub_balance, set_nonce, set_code, set_state, add_address_to_access_list, prepare,
}

-- The calls of the EVM on its state, and what it is told.
pub data Op : Type 0 where
  ask_balance : Address → Op
  ask_nonce : Address → Op
  ask_code : Address → Op
  ask_state : Address → Hash → Op
  pay : Address → ℤ → Op
  charge : Address → ℤ → Op
  put_nonce : Address → ℕ → Op
  put_code : Address → List ℕ → Op
  put_state : Address → Hash → Hash → Op
  warm_up : Address → Op
  begin_tx : Hash → ℕ → Op
  take_snapshot : Op
  go_back : ℕ → Op

pub data Answer : Type 0 where
  done : Answer
  amount : ℤ → Answer
  number : ℕ → Answer
  bytes : List ℕ → Answer

module _ (g : StateDb) (r : Remote) where
  -- One call on the forked state; none is a panic.
  unfoldable pub forked_step :
      Op → Core g × History (Core g) → Option (Answer × (Core g × History (Core g)))
  forked_step (ask_balance a) (c, h) = let x = get_balance g r a c in some (amount x.0, (x.1, h))
  forked_step (ask_nonce a) (c, h) = let x = get_nonce g r a c in some (number x.0, (x.1, h))
  forked_step (ask_code a) (c, h) = let x = get_code g r a c in some (bytes x.0, (x.1, h))
  forked_step (ask_state a k) (c, h) = let x = get_state g r a k c in some (number x.0, (x.1, h))
  forked_step (pay a x) (c, h) = some (done, (add_balance g r a x c, h))
  forked_step (charge a x) (c, h) = some (done, (sub_balance g r a x c, h))
  forked_step (put_nonce a n) (c, h) = some (done, (set_nonce g r a n c, h))
  forked_step (put_code a l) (c, h) = some (done, (set_code g r a l c, h))
  forked_step (put_state a k v) (c, h) = elim (set_state g r a k v c) [
    | none ↦ none
    | some d ↦ some (done, (d, h))
  ]
  forked_step (warm_up a) (c, h) = some (done, (add_address_to_access_list g r a c, h))
  forked_step (begin_tx t i) (c, h) = some (done, (prepare g r t i c, h))
  forked_step take_snapshot (c, h) = let x = snapshot g r c h in some (number x.0, (c, x.1))
  forked_step (go_back i) (c, h) = elim (revert_to_snapshot g r i c h) [
    | none ↦ none
    | some t ↦ some (done, t)
  ]
