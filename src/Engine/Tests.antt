-- ===== src/Engine/Tests.antt =====
-- Runs of the forked state over the database of plain functions.
use erebus_redgiant.Prelude.{◌≡◌, refl, true, none, some, List, [], ◌∷◌, nat_eq}
use erebus_redgiant.Prelude.Int.{pos, ◌+ℤ◌}
use erebus_redgiant.Prelude.Map.{lookup}
use erebus_redgiant.Engine.StateDb.{Chain, Remote, reader_of, fault, plain_db}
use erebus_redgiant.Engine.World.{world_of, world_step, answers}
use erebus_redgiant.Engine.Forked.{
  start, snoc, saved, size, new_forked_state, flag, copy, restore, add_address_to_access_list,
  set_state,
}
use erebus_redgiant.Engine.Forked.Calls.{
  Op, ask_balance, ask_state, pay, put_state, take_snapshot, go_back, Answer, done, amount, number,
  forked_step,
}
use erebus_redgiant.Engine.Forked.Refinement.{answers_forked}
use erebus_redgiant.Engine.Forked.Access.{copy_stale}
use erebus_redgiant.Engine.Forked.Faults.{set_state-fault}

abbrev some_chain : Chain
some_chain = record { balance = λ a. 100; nonce = λ a. 1; code = λ a. 96 ∷ []; storage = λ a k. k }

abbrev some_calls : List Op
some_calls =
    ask_state 1 5
    ∷ take_snapshot
    ∷ put_state 1 5 0
    ∷ pay 1 (pos 7)
    ∷ ask_state 1 5
    ∷ ask_balance 1
    ∷ go_back 0
    ∷ ask_state 1 5
    ∷ ask_balance 1
    ∷ []

abbrev some_answers : List Answer
some_answers =
    number 5
    ∷ number 0
    ∷ done
    ∷ done
    ∷ number 0
    ∷ amount (pos 107)
    ∷ done
    ∷ number 5
    ∷ amount (pos 100)
    ∷ []

answers_forked_example :
    answers
      (forked_step plain_db (reader_of some_chain))
      (new_forked_state plain_db (reader_of some_chain), start)
      some_calls
    ≡ answers world_step (world_of some_chain, start) some_calls
answers_forked_example = answers_forked plain_db some_chain some_calls

abbrev no_reader : Remote
no_reader = record (reader_of some_chain) { balance_at = λ a. fault 1 }

set_state-fault_example :
    set_state plain_db no_reader 1 2 3 (new_forked_state plain_db no_reader) ≡ none
unfolding new_forked_state flag lookup
set_state-fault_example =
    set_state-fault plain_db no_reader 1 2 3 1 (new_forked_state plain_db no_reader) refl refl refl
      refl

copy_stale_example :
    (copy plain_db no_reader (
        restore plain_db no_reader
          (add_address_to_access_list plain_db no_reader 7 (new_forked_state plain_db no_reader))
          (copy plain_db no_reader (new_forked_state plain_db no_reader)))).db.warmed
      7
    ≡ true
copy_stale_example = copy_stale plain_db no_reader (new_forked_state plain_db no_reader) 7

world_answers : answers world_step (world_of some_chain, start) some_calls ≡ some some_answers
unfolding answers world_step snoc saved size ◌+ℤ◌
world_answers = refl
