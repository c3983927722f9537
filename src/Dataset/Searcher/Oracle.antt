-- ===== src/Dataset/Searcher/Oracle.antt =====
-- What CheckOracle, hasDependency and inferAttackersVictims of dataset/searcher.go promise.
use mathlib.Core.Path.{subst}
use erebus_redgiant.Prelude.{
  ◌≡◌, ◌↔◌, ◌⊎◌, refl, sym, Bool, true, false, Option, none, some, List, [], ◌∷◌, take, length,
  if◌then◌else◌, arith, inl, inr, Address,
}
use erebus_redgiant.Prelude.Outcome.{Outcome, ok}
use erebus_redgiant.Summary.Profit.{ProfitError, is_pos}
use erebus_redgiant.Summary.Profits.{Profits, add}
use erebus_redgiant.Summary.State.{StateVariable, StateVariables, same}
use erebus_redgiant.Dataset.Involved.{includes}
use erebus_redgiant.Dataset.Searcher.{
  Record, Summaries, Attack, is_neg, some_same, has_dependency, infer_attackers_victims,
}
use erebus_redgiant.Dataset.Searcher.Accounts.{Passes}

abbrev ok_attack : Option Attack → Outcome ProfitError (Option Attack)
ok_attack x = ok x

-- The profits of a transaction that need not be there.
abbrev pub if_any : Option Profits → Profits
if_any none = []
if_any (some es) = es

-- What a reported attack shows. Of the profits of the profit transaction, those count in the attack
-- that Add merges into the profits of the attack transaction, the first ones of `added`; without the
-- attack all of them count.
pub record Reported (attackers victims : List Address) (s : Summaries) (x : Attack) : Type 0 where
  pub attack : Profits
  pub added : Profits
  pub attack_as_if : Profits
  pub added_as_if : Profits
  pub victim : Profits
  pub victim_as_if : Profits
  pub attack_sum : add [] s.attack ≡ ok attack
  pub attack_all : add attack (if_any s.profit) ≡ ok added
  pub as_if_sum : add [] s.attack_as_if ≡ ok attack_as_if
  pub as_if_all : add attack_as_if (if_any s.profit_as_if) ≡ ok added_as_if
  pub victim_sum : add [] s.victim ≡ ok victim
  pub victim_as_if_sum : add [] s.victim_as_if ≡ ok victim_as_if
  pub gains :
      Passes is_pos
        (take (length attack) added)
        added_as_if
        attackers
        x.attacker
        x.attacker_profits
        x.attacker_as_if_profits
  pub loses :
      Passes is_neg victim victim_as_if victims x.victim x.victim_profits x.victim_as_if_profits

either : (b rest : Bool) → (if b then true else rest) ≡ true → (b ≡ true) ⊎ (rest ≡ true)
either true rest h = inl refl
either false rest h = inr h

abbrev pub IsIn : StateVariable → StateVariables → Type 0
IsIn v [] = ⊥
IsIn v (x ∷ vs) = (x ≡ v) ⊎ IsIn v vs

-- A variable that is defined and one that is used, the same.
abbrev pub Shared : StateVariables → StateVariables → Type 0
Shared defs uses =
    (v : StateVariable) × (w : StateVariable) × IsIn v defs × IsIn w uses × (same v w ≡ true)

some_same-use :
    (v : StateVariable) (uses : StateVariables)
    → some_same v uses ≡ true
    → (w : StateVariable) × IsIn w uses × (same v w ≡ true)
unfolding some_same
some_same-use v [] h = absurd (ground arith)
some_same-use v (w ∷ uses) h = elim (either (same v w) (some_same v uses) h) [
  | inl e ↦ (w, inl refl, e)
  | inr e ↦ let (u, m, f) = some_same-use v uses e in (u, inr m, f)
]

use-some_same :
    (v w u : StateVariable) (uses : StateVariables)
    → IsIn w uses
    → same v w ≡ true
    → some_same v uses ≡ true
unfolding some_same
use-some_same v w u [] m h = absurd m
use-some_same v w u (x ∷ uses) (inl e) h =
    let here : same v x ≡ true = subst (λ y. same v y ≡ true) (sym e) h in ground (arith, here)
use-some_same v w u (x ∷ uses) (inr m) h = ground (arith, use-some_same v w u uses m h)

has_dependency-Shared :
    (defs uses : StateVariables) → has_dependency defs uses ≡ true → Shared defs uses
unfolding has_dependency
has_dependency-Shared [] uses h = absurd (ground arith)
has_dependency-Shared (v ∷ defs) uses h =
    elim (either (some_same v uses) (has_dependency defs uses) h) [
      | inl e ↦ let (w, m, f) = some_same-use v uses e in (v, w, inl refl, m, f)
      | inr e ↦ let (u, w, mu, m, f) = has_dependency-Shared defs uses e in (u, w, inr mu, m, f)
    ]

Shared-has_dependency :
    (v w : StateVariable) (defs uses : StateVariables)
    → IsIn v defs
    → IsIn w uses
    → same v w ≡ true
    → has_dependency defs uses ≡ true
unfolding has_dependency
Shared-has_dependency v w [] uses d m h = absurd d
Shared-has_dependency v w (x ∷ defs) uses (inl e) m h =
    let here : same x w ≡ true = subst (λ y. same y w ≡ true) (sym e) h in
    ground (arith, use-some_same x w w uses m here)
Shared-has_dependency v w (x ∷ defs) uses (inr d) m h =
    ground (arith, Shared-has_dependency v w defs uses d m h)

-- A transaction depends on another just where it uses some variable that the other defines.
pub has_dependency_iff :
    (defs uses : StateVariables) → (has_dependency defs uses ≡ true) ↔ Shared defs uses
has_dependency_iff defs uses = (
  has_dependency-Shared defs uses,
  λ s. Shared-has_dependency s.0 s.1 defs uses (s.2) (s.3) (s.4),
)

-- No account is inferred to be attacker and victim.
pub infer_attackers_victims-apart :
    (ar vr : Record) (a : Address)
    → includes a (infer_attackers_victims ar vr).0 ≡ true
    → includes a (infer_attackers_victims ar vr).1 ≡ false
unfolding infer_attackers_victims includes
infer_attackers_victims-apart ar vr a h = ground (arith, h)
