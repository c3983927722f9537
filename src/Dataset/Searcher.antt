-- ===== src/Dataset/Searcher.antt =====
-- dataset/searcher.go: which transactions are tried as attack, victim and profit, and the oracle that decides from the
-- profits. The re-execution of transactions between the two is the EVM's; its summaries are arguments here.
pub mod Accounts
pub mod Oracle
mod Tests
use erebus_redgiant.Prelude.{
  ℕ, zero, suc, ◌+◌, ◌-◌, ◌%◌, ◌^◌, Bool, true, false, not, ◌&&◌, ◌||◌, Option, none, some, List,
  [], ◌∷◌, ◌++◌, length, ◌==◌, ltb, if◌then◌else◌, Address, Hash,
}
use erebus_redgiant.Prelude.Int.{ℤ, pos, negsuc, ltb_ℤ}
use erebus_redgiant.Prelude.Outcome.{Outcome, ok, err, panic}
use erebus_redgiant.Summary.Profit.{ProfitError, Profit, is_pos, is_positive}
use erebus_redgiant.Summary.Profits.{Profits, add, added_in_place, profits_of, cmp_all}
use erebus_redgiant.Summary.State.{StateVariable, StateVariables, same}
use erebus_redgiant.Dataset.TxHistory.{TxPosition, cmp_positions}
use erebus_redgiant.Dataset.Involved
use erebus_redgiant.Dataset.Involved.{naive_overlap_with}

infixl 5 ◌>>=◌
unfoldable pub ◌>>=◌ :
    {A B : Type 0} → Outcome ProfitError A → (A → Outcome ProfitError B) → Outcome ProfitError B
ok a >>= f = f a
err e >>= f = err e
panic >>= f = panic

-- genBlockRange, from the `i`-th block on.
unfoldable pub gen_block_range : ℕ → ℕ → ℕ → List ℕ
gen_block_range from i zero = []
gen_block_range from i (suc size) = (from + i) % 2 ^ 64 ∷ gen_block_range from (i + 1) size

-- hasDependency, by the variables that the one defines and the other uses.
unfoldable pub some_same : StateVariable → StateVariables → Bool
some_same v [] = false
some_same v (w ∷ uses) = let rest = some_same v uses in if same v w then true else rest

unfoldable pub has_dependency : StateVariables → StateVariables → Bool
has_dependency [] uses = false
has_dependency (v ∷ defs) uses =
    let rest = has_dependency defs uses in if some_same v uses then true else rest

-- What the searcher reads of a TxRecord and of its summary.
pub record Record : Type 0 where
  pub failed : Bool
  pub involved : Involved.TxRecord
  pub non_verified : Bool
  pub hash : Hash
  pub sender : Address
  pub to : Option Address
  pub block_number : ℕ
  pub position : TxPosition
  pub caller_state_addr : Address
  pub state_addr : Address
  pub profits : Profits
  pub defs : StateVariables
  pub uses : StateVariables

-- The filter of a window; victim and profit are nil where they are not chosen yet.
abbrev pub Filter : Type 0
Filter = Record → Option Record → Option Record → Bool

unfoldable pub focus : Hash → Hash → Option Hash → Filter
focus attack_tx victim_tx profit_tx ar none pr = ar.hash == attack_tx
focus attack_tx victim_tx profit_tx ar (some vr) none = ar.hash == attack_tx && vr.hash == victim_tx
focus attack_tx victim_tx none ar (some vr) (some pr) = false
focus attack_tx victim_tx (some h) ar (some vr) (some pr) =
    ar.hash == attack_tx && (vr.hash == victim_tx && pr.hash == h)

-- CodeAt of the chain's reader, at the block before a transaction: whether it failed, and the code.
abbrev pub CodeAt : Type 0
CodeAt = Address → ℕ → Bool × List ℕ

unfoldable pub no_code : CodeAt → Record → Address → Bool
no_code code_at r to =
    let (failed, code) = code_at to (r.block_number - 1) in failed && length code == 0

-- A transaction with an error, a pseudo transaction, the creation of a contract, or one without code.
unfoldable pub is_skipped : CodeAt → Record → Bool
is_skipped code_at r =
    r.failed
    || (r.involved.is_pseudo
        || elim r.to as (λ _. Bool) [ none ↦ true | some a ↦ no_code code_at r a ])

unfoldable pub is_attack_candidate : CodeAt → Filter → Record → Bool
is_attack_candidate code_at filter ar = filter ar none none && not (is_skipped code_at ar)

unfoldable pub is_victim_candidate : CodeAt → Filter → Record → Record → Bool
is_victim_candidate code_at filter ar vr =
    not (is_skipped code_at vr)
    && (filter ar (some vr) none
        && (not vr.non_verified
            && (not (ar.sender == vr.sender)
                && (naive_overlap_with vr.involved ar.involved && has_dependency ar.defs vr.uses))))

unfoldable pub some_positive : Profits → Bool
some_positive [] = false
some_positive (p ∷ ps) = let rest = some_positive ps in if is_positive p then true else rest

unfoldable pub attackers_get_profits : Profits → List Address → Outcome ProfitError Bool
attackers_get_profits profits [] = ok false
attackers_get_profits profits (a ∷ attackers) =
    let rest = attackers_get_profits profits attackers in
    profits_of profits a >>= λ ps. if some_positive ps then ok true else rest

unfoldable pub is_profit_candidate :
    Filter → TxPosition → List Address → Record → Record → Record → Outcome ProfitError Bool
is_profit_candidate filter search_pivot attackers ar vr pr =
    let gained = attackers_get_profits pr.profits attackers in
    if (not pr.failed && not pr.involved.is_pseudo)
      && (filter ar (some vr) (some pr)
          && (not (ltb_ℤ (cmp_positions pr.position search_pivot) (pos 0))
              && (not (vr.sender == pr.sender) && naive_overlap_with pr.involved ar.involved)))
    then gained
    else ok false

-- The attack transactions that Search tries, by their indices: all but the last. An empty window is a panic.
unfoldable pub attack_candidates : CodeAt → Filter → ℕ → Record → List Record → List ℕ
attack_candidates code_at filter i r [] = []
attack_candidates code_at filter i r (s ∷ records) =
    let rest = attack_candidates code_at filter (i + 1) s records in
    if is_attack_candidate code_at filter r then i ∷ rest else rest

unfoldable pub search : CodeAt → Filter → List Record → Option (List ℕ)
search code_at filter [] = none
search code_at filter (r ∷ records) = some (attack_candidates code_at filter 0 r records)

-- The senders of the two transactions and the contract that the attacker calls, where they do not overlap.
unfoldable pub infer_attackers_victims : Record → Record → List Address × List Address
infer_attackers_victims ar vr =
    if ar.caller_state_addr == vr.caller_state_addr || ar.state_addr == vr.caller_state_addr
    then ([], [])
    else (ar.caller_state_addr ∷ ar.state_addr ∷ [], vr.caller_state_addr ∷ [])

-- The profits of the three transactions as they were, and as if there had been no attack.
pub record Summaries : Type 0 where
  pub attack : Profits
  pub victim : Profits
  pub profit : Option Profits
  pub attack_as_if : Profits
  pub victim_as_if : Profits
  pub profit_as_if : Option Profits

-- What is reported of an attack.
pub record Attack : Type 0 where
  pub attacker : Address
  pub victim : Address
  pub attacker_profits : Profits
  pub attacker_as_if_profits : Profits
  pub victim_profits : Profits
  pub victim_as_if_profits : Profits

-- `err == nil && cmp > 0` and `err == nil && cmp < 0`.
abbrev pub holds : (ℤ → Bool) → Outcome ProfitError ℤ → Outcome ProfitError Bool
holds test (ok c) = ok (test c)
holds test (err e) = ok false
holds test panic = panic

abbrev pub is_neg : ℤ → Bool
is_neg (pos n) = false
is_neg (negsuc n) = true

-- The first account whose profits compare as the test says with those that it would have had.
unfoldable pub first_account :
    (ℤ → Bool)
    → Profits
    → Profits
    → List Address
    → Outcome ProfitError (Option (Address × Profits × Profits))
first_account test profits as_if [] = ok none
first_account test profits as_if (a ∷ accounts) =
    let rest = first_account test profits as_if accounts in
    profits_of profits a >>= λ ps. profits_of as_if a >>= λ qs.
    holds test (cmp_all ps qs) >>= λ b. if b then ok (some (a, ps, qs)) else rest

-- `Add`, where its result is thrown away; and where it is kept.
unfoldable pub add_profit : Profits → Option Profits → Outcome ProfitError Profits
add_profit ps none = ok ps
add_profit ps (some es) = added_in_place ps es

unfoldable pub add_profit_as_if : Profits → Option Profits → Outcome ProfitError Profits
add_profit_as_if ps none = ok ps
add_profit_as_if ps (some es) = add ps es

abbrev pub attack_of :
    Address → Profits → Profits → Option (Address × Profits × Profits) → Option Attack
attack_of attacker ps qs none = none
attack_of attacker ps qs (some (victim, us, vs)) = some (record {
  attacker = attacker;
  victim = victim;
  attacker_profits = ps;
  attacker_as_if_profits = qs;
  victim_profits = us;
  victim_as_if_profits = vs;
})

unfoldable pub find_victim :
    List Address
    → Profits
    → Profits
    → Address × Profits × Profits
    → Outcome ProfitError (Option Attack)
find_victim victims profits as_if (attacker, ps, qs) =
    first_account is_neg profits as_if victims >>= λ found. ok (attack_of attacker ps qs found)

abbrev pub or_no_attack :
    Option (Address × Profits × Profits)
    → (Address × Profits × Profits → Outcome ProfitError (Option Attack))
    → Outcome ProfitError (Option Attack)
or_no_attack none next = ok none
or_no_attack (some x) next = next x

abbrev pub is_empty : List Address → Bool
is_empty [] = true
is_empty (a ∷ l) = false

-- CheckOracle after its first check.
unfoldable pub judge : List Address → List Address → Summaries → Outcome ProfitError (Option Attack)
judge attackers victims s = add [] s.attack >>= λ attack. add [] s.victim >>= λ victim.
    add [] s.attack_as_if >>= λ attack_as_if. add [] s.victim_as_if >>= λ victim_as_if.
    add_profit attack s.profit >>= λ attack'.
    add_profit_as_if attack_as_if s.profit_as_if >>= λ attack_as_if'.
    first_account is_pos attack' attack_as_if' attackers >>= λ found.
    or_no_attack found (find_victim victims victim victim_as_if)

-- The attack that is reported, if any.
unfoldable pub check_oracle :
    List Address → List Address → Summaries → Outcome ProfitError (Option Attack)
check_oracle attackers victims s =
    if is_empty attackers || is_empty victims then ok none else judge attackers victims s
