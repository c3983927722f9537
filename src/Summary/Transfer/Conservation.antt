-- ===== src/Summary/Transfer/Conservation.antt =====
-- Merge of transfer.go changes nobody's profits.
use erebus_redgiant.Prelude.{
  Option, none, ◌≡◌, ◌⊎◌, refl, sym, ap, ◌∙◌, Bool, true, false, not, ◌&&◌, List, [], ◌∷◌, map,
  arith, ◌==◌, if◌then◌else◌, Bool-cases, inl, inr, Address, Hash,
}
use erebus_redgiant.Prelude.Int.{ℤ, pos, ◌+ℤ◌, ◌-ℤ◌, int_laws}
use erebus_redgiant.Prelude.Outcome.{Outcome, ok, err, panic, ◌>>=◌}
use erebus_redgiant.Summary.Profit.{
  ProfitError, Profit, ether_profit, erc20_profit, erc777_profit, erc1155_profit, is_zero,
}
use erebus_redgiant.Summary.Profit.Amount.{Holding, amount, only}
use erebus_redgiant.Summary.Profits.Conservation.{total, zero_right}
use erebus_redgiant.Tracers.Call.{Location}
use erebus_redgiant.Summary.Transfer.{
  FungibleTransfer, Transfer, ether_transfer, erc20_transfer, erc777_transfer, erc721_transfer,
  erc1155_transfer, profits, two_sided, merge_as, merge_fungible, erc721_merge, merge_transfers,
  same_asset, is_zero_fungible, negated,
}
use erebus_redgiant.Summary.Transfer.Fungible.{
  flow, flows, merge_fungible-flows, merge_fungible-ends,
}

-- What an asset of an account gains by a transfer, and by several.
abbrev pub gain : Holding → Transfer → ℤ
gain k t = total k (profits t)

unfoldable pub gains : Holding → List Transfer → ℤ
gains k [] = pos 0
gains k (t ∷ ts) = gain k t +ℤ gains k ts

-- Both sides of a transfer, seen by an account that is `p` the sender and `q` the receiver.
two_sides : (p q : Bool) (u : ℤ) → only p (negated u) +ℤ (only q u +ℤ pos 0) ≡ only q u -ℤ only p u
two_sides true true u = omega int_laws
two_sides true false u = omega int_laws
two_sides false true u = omega int_laws
two_sides false false u = omega int_laws

only_zero : (b : Bool) → only b (pos 0) ≡ pos 0
only_zero true = refl
only_zero false = refl

cancel : (u : ℤ) → pos 0 ≡ u -ℤ u
cancel u = omega int_laws

is_zero_iff : (u : ℤ) → is_zero u ≡ true → u ≡ pos 0
is_zero_iff u h = ground (arith, h)

zero-flow : (x : Address) (f : FungibleTransfer) → is_zero_fungible f ≡ true → pos 0 ≡ flow x f
unfolding is_zero_fungible flow
zero-flow x f h = ground (arith, h, is_zero_iff f.amount, cancel f.amount, cancel (pos 0))

gain-ether :
    (x : Address) (f : FungibleTransfer) → gain (Holding.ether x) (ether_transfer f) ≡ flow x f
unfolding total amount profits flow
gain-ether x f = elim (Bool-cases (is_zero_fungible f)) [
  | inl z ↦ rw (z, profits) (zero-flow x f z)
  | inr z ↦ rw (z, profits) (two_sides (x == f.from_account) (x == f.to_account) f.amount)
]

two_sided-total :
    (k : Holding) (z m b : Bool) (from to : Profit)
    → total k (two_sided z m b from to)
      ≡ (if z then pos 0 else only (not m) (amount k from) +ℤ only (not b) (amount k to))
unfolding total
two_sided-total k true m b from to = refl
two_sided-total k false true true from to = omega int_laws
two_sided-total k false true false from to = omega int_laws
two_sided-total k false false true from to = omega int_laws
two_sided-total k false false false from to = omega int_laws

-- The zero address, which mints and burns, gains nothing; every other account gains what flows to it.
token_sides :
    (x from to : Address) (s : Bool) (u : ℤ)
    → only (not (from == 0)) (only (x == from && s) (negated u))
        +ℤ only (not (to == 0)) (only (x == to && s) u)
      ≡ only (s && not (x == 0)) (only (x == to) u -ℤ only (x == from) u)
unfolding ◌+ℤ◌ ◌-ℤ◌
token_sides x from to s u = ground arith

gain-token :
    (k : Holding) (x : Address) (s : Bool) (f : FungibleTransfer) (from to : Profit)
    → amount k from ≡ only (x == f.from_account && s) (negated f.amount)
    → amount k to ≡ only (x == f.to_account && s) f.amount
    → total k (two_sided (is_zero_fungible f) (f.from_account == 0) (f.to_account == 0) from to)
      ≡ only (s && not (x == 0)) (flow x f)
unfolding flow
gain-token k x s f from to h g = elim (Bool-cases (is_zero_fungible f)) [
  | inl z ↦
      two_sided-total k _ _ _ from to
      ∙ rw z (sym (only_zero (s && not (x == 0))) ∙ ap (only (s && not (x == 0))) (zero-flow x f z))
  | inr z ↦
      two_sided-total k _ _ _ from to
      ∙ rw (z, h, g) (token_sides x f.from_account f.to_account s f.amount)
]

gain-none :
    (k : Holding) (z m b : Bool) (from to : Profit)
    → amount k from ≡ pos 0
    → amount k to ≡ pos 0
    → total k (two_sided z m b from to) ≡ pos 0
gain-none k z m b from to h g =
    two_sided-total k z m b from to ∙ rw (h, g) (no_sides z (not m) (not b))
  where
    no_sides : (z m b : Bool) → (if z then pos 0 else only m (pos 0) +ℤ only b (pos 0)) ≡ pos 0
    no_sides true m b = refl
    no_sides false true true = omega int_laws
    no_sides false true false = omega int_laws
    no_sides false false true = omega int_laws
    no_sides false false false = omega int_laws

-- An asset follows the flow of one account through the transfers of a kind, or is not touched by them.
abbrev Follows : Holding → (FungibleTransfer → Transfer) → Type 0
Follows k wrap =
    (b : Bool) × (x : Address) × ((f : FungibleTransfer) → gain k (wrap f) ≡ only b (flow x f))

untouched_ether :
    (k : Holding)
    → ((a : Address) (v : ℤ) → amount k (ether_profit a v) ≡ pos 0)
    → Follows k ether_transfer
unfolding profits
untouched_ether k h = (
  false,
  0,
  λ f.
      gain-none k (is_zero_fungible f) false false _ _ (h f.from_account (negated f.amount))
        (h f.to_account f.amount),
)

ether-Follows : (k : Holding) → Follows k ether_transfer
unfolding profits amount
ether-Follows (Holding.ether x) = (true, x, gain-ether x)
ether-Follows (Holding.erc20 x c) = untouched_ether (Holding.erc20 x c) (λ a v. refl)
ether-Follows (Holding.erc777 x c) = untouched_ether (Holding.erc777 x c) (λ a v. refl)
ether-Follows (Holding.erc1155 x c t) = untouched_ether (Holding.erc1155 x c t) (λ a v. refl)

untouched_erc20 :
    (k : Holding) (d : Address)
    → ((a : Address) (v : ℤ) → amount k (erc20_profit a d v) ≡ pos 0)
    → Follows k (λ f. erc20_transfer f d)
unfolding profits
untouched_erc20 k d h = (
  false,
  0,
  λ f.
      gain-none k (is_zero_fungible f) (f.from_account == 0) (f.to_account == 0) _ _
        (h f.from_account (negated f.amount)) (h f.to_account f.amount),
)

erc20-Follows : (k : Holding) (d : Address) → Follows k (λ f. erc20_transfer f d)
unfolding profits amount
erc20-Follows (Holding.ether x) d = untouched_erc20 (Holding.ether x) d (λ a v. refl)
erc20-Follows (Holding.erc20 x c) d =
    (_, x, λ f. gain-token (Holding.erc20 x c) x (c == d) f _ _ refl refl)
erc20-Follows (Holding.erc777 x c) d = untouched_erc20 (Holding.erc777 x c) d (λ a v. refl)
erc20-Follows (Holding.erc1155 x c t) d = untouched_erc20 (Holding.erc1155 x c t) d (λ a v. refl)

untouched_erc777 :
    (k : Holding) (d : Address)
    → ((a : Address) (v : ℤ) → amount k (erc777_profit a d v) ≡ pos 0)
    → Follows k (λ f. erc777_transfer f d)
unfolding profits
untouched_erc777 k d h = (
  false,
  0,
  λ f.
      gain-none k (is_zero_fungible f) (f.from_account == 0) (f.to_account == 0) _ _
        (h f.from_account (negated f.amount)) (h f.to_account f.amount),
)

erc777-Follows : (k : Holding) (d : Address) → Follows k (λ f. erc777_transfer f d)
unfolding profits amount
erc777-Follows (Holding.ether x) d = untouched_erc777 (Holding.ether x) d (λ a v. refl)
erc777-Follows (Holding.erc20 x c) d = untouched_erc777 (Holding.erc20 x c) d (λ a v. refl)
erc777-Follows (Holding.erc777 x c) d =
    (_, x, λ f. gain-token (Holding.erc777 x c) x (c == d) f _ _ refl refl)
erc777-Follows (Holding.erc1155 x c t) d = untouched_erc777 (Holding.erc1155 x c t) d (λ a v. refl)

untouched_erc1155 :
    (k : Holding) (d : Address) (u : Hash)
    → ((a : Address) (v : ℤ) → amount k (erc1155_profit a d u v) ≡ pos 0)
    → Follows k (λ f. erc1155_transfer f d u)
unfolding profits
untouched_erc1155 k d u h = (
  false,
  0,
  λ f.
      gain-none k (is_zero_fungible f) (f.from_account == 0) (f.to_account == 0) _ _
        (h f.from_account (negated f.amount)) (h f.to_account f.amount),
)

erc1155-Follows : (k : Holding) (d : Address) (u : Hash) → Follows k (λ f. erc1155_transfer f d u)
unfolding profits amount
erc1155-Follows (Holding.ether x) d u = untouched_erc1155 (Holding.ether x) d u (λ a v. refl)
erc1155-Follows (Holding.erc20 x c) d u = untouched_erc1155 (Holding.erc20 x c) d u (λ a v. refl)
erc1155-Follows (Holding.erc777 x c) d u = untouched_erc1155 (Holding.erc777 x c) d u (λ a v. refl)
erc1155-Follows (Holding.erc1155 x c t) d u =
    (_, x, λ f. gain-token (Holding.erc1155 x c t) x (c == d && t == u) f _ _ refl refl)

only_sum : (b : Bool) (u v : ℤ) → only b (u +ℤ v) ≡ only b u +ℤ only b v
only_sum true u v = refl
only_sum false u v = omega int_laws

gains-map :
    (k : Holding) (wrap : FungibleTransfer → Transfer) (b : Bool) (x : Address)
    (fs : List FungibleTransfer)
    → ((f : FungibleTransfer) → gain k (wrap f) ≡ only b (flow x f))
    → gains k (map wrap fs) ≡ only b (flows x fs)
unfolding gains flows
gains-map k wrap b x [] h = sym (only_zero b)
gains-map k wrap b x (f ∷ fs) h =
    rw (h f, gains-map k wrap b x fs h) (sym (only_sum b (flow x f) (flows x fs)))

merged_list :
    (wrap : FungibleTransfer → Transfer) (o : Outcome ProfitError (List FungibleTransfer))
    (ts : List Transfer)
    → (o >>= λ merged. ok (map wrap merged)) ≡ ok ts
    → (fs : List FungibleTransfer) × (o ≡ ok fs) × (map wrap fs ≡ ts)
merged_list wrap (ok fs) ts h = (fs, refl, cc)
merged_list wrap (err e) ts h = absurd (ground arith)
merged_list wrap panic ts h = absurd (ground arith)

merge_as-gains :
    (k : Holding) (wrap : FungibleTransfer → Transfer) (f g : FungibleTransfer) (ts : List Transfer)
    → Follows k wrap
    → merge_as wrap f g ≡ ok ts
    → gains k ts ≡ gain k (wrap f) +ℤ gain k (wrap g)
unfolding merge_as
merge_as-gains k wrap f g ts (b, x, follow) h =
    let (fs, e, wrapped) = merged_list wrap (merge_fungible 2 f g) ts h in
    sym (ap (gains k) wrapped)
    ∙ gains-map k wrap b x fs follow
    ∙ ap (only b) (merge_fungible-flows 2 x f g fs e)
    ∙ only_sum b (flow x f) (flow x g)
    ∙ rw (follow f, follow g) refl

gain-tokens :
    (k : Holding) (a b c : Address) (t : Hash) (l : Option Location)
    → gain k (erc721_transfer a b c t l) ≡ pos 0
unfolding profits amount
gain-tokens (Holding.ether x) a b c t l = gain-none _ false (a == 0) (b == 0) _ _ refl refl
gain-tokens (Holding.erc20 x d) a b c t l = gain-none _ false (a == 0) (b == 0) _ _ refl refl
gain-tokens (Holding.erc777 x d) a b c t l = gain-none _ false (a == 0) (b == 0) _ _ refl refl
gain-tokens (Holding.erc1155 x d u) a b c t l = gain-none _ false (a == 0) (b == 0) _ _ refl refl

erc721_merge-gains :
    (k : Holding) (a b a' b' c : Address) (t : Hash) (ts : List Transfer)
    → erc721_merge a b a' b' c t ≡ ok ts
    → gains k ts ≡ pos 0
unfolding erc721_merge gains
erc721_merge-gains k a b a' b' c t ts h =
    ground (arith, h, gain-tokens k a' b c t none, gain-tokens k a b' c t none, zero_right (pos 0))

when_same :
    (b : Bool) (o : Outcome ProfitError (List Transfer)) (ts : List Transfer)
    → same_asset b o ≡ ok ts
    → (b ≡ true) × (o ≡ ok ts)
when_same true o ts h = (refl, h)
when_same false o ts h = absurd (ground arith)

same_contract : (d c : Address) → (d == c) ≡ true → d ≡ c
same_contract d c h = ground (arith, h)

both_same : (d c : Address) (u t : Hash) → (d == c && u == t) ≡ true → (d ≡ c) × (u ≡ t)
both_same d c u t h = (ground (arith, h), ground (arith, h))

-- Where two transfers merge, the merged transfers together bring every account, in every fungible asset, the profit
-- that the two bring it together.
pub gains-merge_transfers :
    (k : Holding) (t other : Transfer) (ts : List Transfer)
    → merge_transfers t other ≡ ok ts
    → gains k ts ≡ total k (profits t) +ℤ total k (profits other)
unfolding merge_transfers
gains-merge_transfers k (ether_transfer f) (ether_transfer g) ts h =
    merge_as-gains k ether_transfer f g ts (ether-Follows k) h
gains-merge_transfers k (erc20_transfer f c) (erc20_transfer g d) ts h =
    let (e, m) = when_same (d == c) _ ts h in
    rw (same_contract d c e)
      (merge_as-gains k (λ x. erc20_transfer x c) f g ts (erc20-Follows k c) m)
gains-merge_transfers k (erc777_transfer f c) (erc777_transfer g d) ts h =
    let (e, m) = when_same (d == c) _ ts h in
    rw (same_contract d c e)
      (merge_as-gains k (λ x. erc777_transfer x c) f g ts (erc777-Follows k c) m)
gains-merge_transfers k (erc721_transfer a b c t l) (erc721_transfer a' b' d u l') ts h =
    let (e, m) = when_same (d == c && u == t) _ ts h in
    rw
      (erc721_merge-gains k a b a' b' c t ts m, gain-tokens k a b c t l, gain-tokens k a' b' d u l')
      (sym (zero_right (pos 0)))
gains-merge_transfers k (erc1155_transfer f c t) (erc1155_transfer g d u) ts h =
    let (e, m) = when_same (d == c && u == t) _ ts h in
    let (ed, eu) = both_same d c u t e in
    rw (ed, eu) (merge_as-gains k (λ x. erc1155_transfer x c t) f g ts (erc1155-Follows k c t) m)
gains-merge_transfers k _ _ ts h = absurd (ground arith)

-- Something was merged, or ErrMergeNotPossible is returned.
abbrev pub Ends : {A : Type 0} → Outcome ProfitError A → Type 0
Ends {A} o = ((x : A) × (o ≡ ok x)) ⊎ (o ≡ err ProfitError.merge_not_possible)

merge_as-Ends :
    (wrap : FungibleTransfer → Transfer) (f g : FungibleTransfer) → Ends (merge_as wrap f g)
unfolding merge_as
merge_as-Ends wrap f g = elim (merge_fungible-ends f g) [
  | inl (fs, e) ↦ inl (map wrap fs, rw (e) refl)
  | inr e ↦ inr (rw (e) refl)
]

same_asset-Ends :
    (b : Bool) (o : Outcome ProfitError (List Transfer)) → Ends o → Ends (same_asset b o)
same_asset-Ends true o h = h
same_asset-Ends false o h = inr refl

erc721_merge-Ends : (a b a' b' c : Address) (t : Hash) → Ends (erc721_merge a b a' b' c t)
unfolding erc721_merge
erc721_merge-Ends a b a' b' c t = elim (Bool-cases (a == b' && b == a')) [
  | inl e ↦ rw (e) (inl (_, refl))
  | inr n ↦ elim (Bool-cases (a == b')) [
    | inl e ↦ rw (n, e) (inl (_, refl))
    | inr m ↦ elim (Bool-cases (b == a')) [
      | inl e ↦ rw (n, m, e) (inl (_, refl))
      | inr l ↦ rw (n, m, l) (inr refl)
    ]
  ]
]

-- The recursion of merge ends: two transfers merge, or ErrMergeNotPossible is returned.
pub merge_transfers-Ends : (t other : Transfer) → Ends (merge_transfers t other)
unfolding merge_transfers
merge_transfers-Ends (ether_transfer f) (ether_transfer g) = merge_as-Ends _ f g
merge_transfers-Ends (erc20_transfer f c) (erc20_transfer g d) =
    same_asset-Ends _ _ (merge_as-Ends _ f g)
merge_transfers-Ends (erc777_transfer f c) (erc777_transfer g d) =
    same_asset-Ends _ _ (merge_as-Ends _ f g)
merge_transfers-Ends (erc721_transfer a b c t l) (erc721_transfer a' b' d u l') =
    same_asset-Ends _ _ (erc721_merge-Ends a b a' b' c t)
merge_transfers-Ends (erc1155_transfer f c t) (erc1155_transfer g d u) =
    same_asset-Ends _ _ (merge_as-Ends _ f g)
merge_transfers-Ends _ _ = inr refl
