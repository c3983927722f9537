-- ===== src/Summary/Tracer/Tests.antt =====
-- A transaction that sends ether, and a call below it that sends some on, for summary_tracer.go.
use erebus_redgiant.Prelude.{
  ℕ, zero, suc, ◌≡◌, refl, ap, ◌∙◌, inl, inr, Option-cases, Bool, true, false, Option, none, some,
  List, [], ◌∷◌, arith, Hash,
}
use erebus_redgiant.Prelude.Int.{pos}
use erebus_redgiant.Prelude.Outcome.{ok}
use erebus_redgiant.Tracers.Call.{MsgCall, ExecutionResult}
use erebus_redgiant.Contract.Encoding.{AbiType, Value, Input, integer}
use erebus_redgiant.Summary.Profit.Amount.{Holding}
use erebus_redgiant.Summary.Profits.{Profits}
use erebus_redgiant.Summary.Profits.Conservation.{total}
use erebus_redgiant.Summary.Transfer.Conservation.{gains}
use erebus_redgiant.Summary.Calls.{CallSummary, overall_profits, overall_transfers}
use erebus_redgiant.Summary.Events.{Topics}
use erebus_redgiant.Prelude.Map.{lookup, insert}
use erebus_redgiant.Prelude.Partial.{◌>>=◌}
use erebus_redgiant.Tracers.Nested
use erebus_redgiant.Summary.Tracer.{
  Config, TxSummaryTracer, StateView, open_summary, add_def, add_use, on_current, change_current,
  record_ether, with_transfers, add_all_profits, add_profits, clear_if, is_defined, id_of,
}
use erebus_redgiant.Summary.Tracer.Hooks.{
  Event, run, Tx, Receipt, transaction_start, transaction_end, fresh, step, capture_enter,
  capture_exit, record_value, define_balances, finish_data, record_tx_value, final_balances,
}
use erebus_redgiant.Summary.Tracer.Tree.{tx_summary, AllEnded}
use erebus_redgiant.Summary.Tracer.Totals.{overall_profits-transfers}

abbrev or_fresh : Option TxSummaryTracer → TxSummaryTracer
or_fresh none = fresh
or_fresh (some t) = t

abbrev all : Config
all = record {
  include_def = true;
  include_use = true;
  include_transfer = true;
  include_profit = true;
}

abbrev view : StateView
view = record {
  get_state = λ a k. 0;
  get_balance = λ a. 100;
  get_code_size = λ a. 0;
  get_code = λ a. [];
  get_code_hash = λ a. 0;
}

abbrev get_ptr : List ℕ → ℕ → ℕ → Option (List ℕ)
get_ptr memory offset size = some []

abbrev unpack : List Input → List ℕ → Option (List Value)
unpack inputs payload = none

abbrev read_integer : AbiType → Hash → Value
read_integer t topic = integer (pos topic)

abbrev topics : Topics
topics = record {
  transfer = 1;
  erc777_sent = 2;
  erc777_minted = 3;
  erc777_burned = 4;
  erc1155_transfer_single = 5;
  erc1155_transfer_batch = 6;
  weth9_deposit = 7;
  weth9_withdrawal = 8;
}

abbrev tx : Tx
tx = record { from = 1000; to = some 2000; value = 5; input = [] }

abbrev success : ExecutionResult
success = record { err = none; used_gas = 0; return_data = [] }

abbrev receipt : Receipt
receipt = record { status = 1; contract_address = 0; number = 0 }

abbrev events : List Event
events = Event.enter view 0xf1 2000 3000 [] (some 3) ∷ Event.exit success ∷ []

abbrev started : TxSummaryTracer
started = or_fresh (transaction_start (λ a n. 0) 0 tx fresh)

abbrev traced : TxSummaryTracer
traced = or_fresh (run get_ptr unpack read_integer topics all events started)

abbrev finished : TxSummaryTracer
finished = or_fresh (transaction_end all view tx success receipt traced)

starts : transaction_start (λ a n. 0) 0 tx fresh ≡ some started
unfolding ◌>>=◌ transaction_start Nested.transaction_start
starts = refl

runs : run get_ptr unpack read_integer topics all events started ≡ some traced
unfolding ◌>>=◌ run step transaction_start capture_enter capture_exit transaction_end
    Nested.transaction_start Nested.capture_enter Nested.capture_exit Nested.transaction_end
    open_summary lookup insert record_value define_balances add_def add_use on_current
    change_current record_ether with_transfers add_all_profits add_profits clear_if finish_data
    record_tx_value final_balances is_defined id_of
runs = refl

ends : transaction_end all view tx success receipt traced ≡ some finished
unfolding ◌>>=◌ run step transaction_start capture_enter capture_exit transaction_end
    Nested.transaction_start Nested.capture_enter Nested.capture_exit Nested.transaction_end
    open_summary lookup insert record_value define_balances add_def add_use on_current
    change_current record_ether with_transfers add_all_profits add_profits clear_if finish_data
    record_tx_value final_balances is_defined id_of
ends = refl

-- A test of AllEnded.
abbrev all_ended : List MsgCall → Bool
all_ended [] = true
all_ended (c ∷ calls) = elim c.result [ none ↦ false | some r ↦ all_ended calls ]

ended-AllEnded : (calls : List MsgCall) → all_ended calls ≡ true → AllEnded calls
ended-AllEnded [] h p c e = absurd (ground (arith, e))
ended-AllEnded (d ∷ calls) h zero c e = elim (Option-cases d.result) [
  | inl none_yet ↦ absurd (ground (arith, rw none_yet at h))
  | inr (r, known) ↦ (r, ap (λ (x : MsgCall). x.result) (same e) ∙ known)
]
  where
    same : some d ≡ some c → c ≡ d
    same k = cc
ended-AllEnded (d ∷ calls) h (suc p) c e = elim (Option-cases d.result) [
  | inl none_yet ↦ absurd (ground (arith, rw none_yet at h))
  | inr (r, known) ↦ ended-AllEnded calls (rw known at h) p c e
]

ended : all_ended finished.nested.calls ≡ true
unfolding ◌>>=◌ run step transaction_start capture_enter capture_exit transaction_end
    Nested.transaction_start Nested.capture_enter Nested.capture_exit Nested.transaction_end
    open_summary lookup insert record_value define_balances add_def add_use on_current
    change_current record_ether with_transfers add_all_profits add_profits clear_if finish_data
    record_tx_value final_balances is_defined id_of
ended = refl

overall_profits-transfers_example :
    (c : CallSummary) × (tx_summary finished ≡ some c)
    × ((qs : Profits) × (overall_profits c ≡ ok qs)
        × ((k : Holding) → total k qs ≡ gains k (overall_transfers c)))
overall_profits-transfers_example =
    overall_profits-transfers get_ptr unpack read_integer topics all (λ a n. 0) 0 tx events view
      success receipt started traced finished refl starts runs ends
      (ended-AllEnded finished.nested.calls ended)
