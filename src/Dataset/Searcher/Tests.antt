-- ===== src/Dataset/Searcher/Tests.antt =====
-- A small attack for dataset/searcher.go.
use erebus_redgiant.Prelude.{ℕ, ◌≡◌, ◌↔◌, refl, true, false, none, some, [], ◌∷◌}
use erebus_redgiant.Prelude.Int.{pos, negsuc}
use erebus_redgiant.Summary.Profit.{ether_profit}
use erebus_redgiant.Summary.State.{StateVariable, of_balance}
use erebus_redgiant.Dataset.Involved
use erebus_redgiant.Dataset.Involved.{includes}
use erebus_redgiant.Dataset.Searcher.{
  Record, Summaries, Attack, has_dependency, infer_attackers_victims,
}
use erebus_redgiant.Dataset.Searcher.Oracle.{
  Shared, has_dependency_iff, infer_attackers_victims-apart,
}

-- Account 1 earns 5 in the attack and 2 by the profit transaction, and nothing without them; account 2
-- loses 5.
abbrev front_run : Summaries
front_run = record {
  attack = ether_profit 1 (pos 5) ∷ [];
  victim = ether_profit 2 (negsuc 4) ∷ [];
  profit = some (ether_profit 1 (pos 2) ∷ []);
  attack_as_if = [];
  victim_as_if = [];
  profit_as_if = none;
}

abbrev found : Attack
found = record {
  attacker = 1;
  victim = 2;
  attacker_profits = ether_profit 1 (pos 7) ∷ [];
  attacker_as_if_profits = [];
  victim_profits = ether_profit 2 (negsuc 4) ∷ [];
  victim_as_if_profits = [];
}

abbrev paid : StateVariable
paid = of_balance (record { address = 4; value = pos 6; location = none })

has_dependency_iff_example :
    (has_dependency (paid ∷ []) (paid ∷ []) ≡ true) ↔ Shared (paid ∷ []) (paid ∷ [])
has_dependency_iff_example = has_dependency_iff (paid ∷ []) (paid ∷ [])

abbrev sent_by : ℕ → Record
sent_by n = record {
  failed = false;
  involved = record {
    is_pseudo = false;
    tx_summary = Involved.summary n 9 Involved.no_calls;
    cached_addresses = none;
  };
  non_verified = false;
  hash = n;
  sender = n;
  to = some 9;
  block_number = 7;
  position = record { block_number = 7; tx_index = n };
  caller_state_addr = n;
  state_addr = 9;
  profits = [];
  defs = [];
  uses = [];
}

infer_attackers_victims-apart_example :
    includes 9 (infer_attackers_victims (sent_by 1) (sent_by 2)).1 ≡ false
unfolding infer_attackers_victims includes
infer_attackers_victims-apart_example = infer_attackers_victims-apart (sent_by 1) (sent_by 2) 9 refl
