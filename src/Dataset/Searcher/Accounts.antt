-- ===== src/Dataset/Searcher/Accounts.antt =====
-- The accounts that CheckOracle of dataset/searcher.go finds: the first whose profits pass a test.
use mathlib.Core.Path.{subst}
use erebus_redgiant.Prelude.{
  ◌≡◌, refl, sym, ap, ◌∙◌, Bool, true, false, Option, some, List, [], ◌∷◌, if◌then◌else◌, arith,
  Address,
}
use erebus_redgiant.Prelude.Int.{ℤ}
use erebus_redgiant.Prelude.Outcome.{Outcome, ok, err, panic}
use erebus_redgiant.Summary.Profit.{ProfitError}
use erebus_redgiant.Summary.Profits.{Profits, profits_of, cmp_all}
use erebus_redgiant.Dataset.Involved.{includes}
use erebus_redgiant.Dataset.Searcher.{◌>>=◌, holds, first_account}

module _ {A B : Type 0} where
  pub bound_ok :
      (o : Outcome ProfitError A) (f : A → Outcome ProfitError B) (b : B)
      → (o >>= f) ≡ ok b
      → (a : A) × (o ≡ ok a) × (f a ≡ ok b)
  unfolding ◌>>=◌
  bound_ok (ok a) f b h = (a, refl, h)
  bound_ok (err e) f b h = absurd (ground arith)
  bound_ok panic f b h = absurd (ground arith)

sign_passed :
    (test : ℤ → Bool) (o : Outcome ProfitError ℤ)
    → holds test o ≡ ok true
    → (c : ℤ) × (o ≡ ok c) × (test c ≡ true)
sign_passed test (ok c) h = (c, refl, ground (arith, h))
sign_passed test (err e) h = absurd (ground arith)
sign_passed test panic h = absurd (ground arith)

-- An account of the list whose profits compare as the test says with those that it would have had.
pub record Passes (test : ℤ → Bool) (profits as_if : Profits) (accounts : List Address)
    (a : Address) (ps qs : Profits) : Type 0 where
  pub among : includes a accounts ≡ true
  pub real : profits_of profits a ≡ ok ps
  pub other : profits_of as_if a ≡ ok qs
  pub sign : (c : ℤ) × (cmp_all ps qs ≡ ok c) × (test c ≡ true)

abbrev ok_of :
    Option (Address × Profits × Profits)
    → Outcome ProfitError (Option (Address × Profits × Profits))
ok_of x = ok x

-- The first account of the list, or one of the others.
head_or_rest :
    (test : ℤ → Bool) (profits as_if : Profits) (b : Address) (accounts : List Address) (c : Bool)
    (us vs : Profits) (rest : Outcome ProfitError (Option (Address × Profits × Profits)))
    (a : Address) (ps qs : Profits)
    → profits_of profits b ≡ ok us
    → profits_of as_if b ≡ ok vs
    → holds test (cmp_all us vs) ≡ ok c
    → (rest ≡ ok (some (a, ps, qs)) → Passes test profits as_if accounts a ps qs)
    → (if c then ok (some (b, us, vs)) else rest) ≡ ok (some (a, ps, qs))
    → Passes test profits as_if (b ∷ accounts) a ps qs
unfolding includes
head_or_rest test profits as_if b accounts true us vs rest a ps qs r o t k e =
    let (same_account, same_profits, same_as_if) = same_parts _ _ _ _ _ _ e in
    record {
      among = ground (arith, same_account);
      real = ap (profits_of profits) (sym same_account) ∙ r ∙ ap ok same_profits;
      other = ap (profits_of as_if) (sym same_account) ∙ o ∙ ap ok same_as_if;
      sign =
          subst (λ x. (c : ℤ) × (cmp_all x qs ≡ ok c) × (test c ≡ true)) same_profits
            (subst (λ x. (c : ℤ) × (cmp_all us x ≡ ok c) × (test c ≡ true)) same_as_if
              (sign_passed test _ t));
    }
  where
    same_parts :
        (b a : Address) (us ps vs qs : Profits)
        → ok_of (some (b, us, vs)) ≡ ok_of (some (a, ps, qs))
        → (b ≡ a) × (us ≡ ps) × (vs ≡ qs)
    same_parts b a us ps vs qs e = (cc, cc, cc)
head_or_rest test profits as_if b accounts false us vs rest a ps qs r o t k e =
    let found = k e in
    record {
      among = ground (arith, found.among);
      real = found.real;
      other = found.other;
      sign = found.sign;
    }

pub first_account-Passes :
    (test : ℤ → Bool) (profits as_if : Profits) (accounts : List Address) (a : Address)
    (ps qs : Profits)
    → first_account test profits as_if accounts ≡ ok (some (a, ps, qs))
    → Passes test profits as_if accounts a ps qs
unfolding first_account
first_account-Passes test profits as_if [] a ps qs h = absurd (ground arith)
first_account-Passes test profits as_if (b ∷ accounts) a ps qs h =
    let real = bound_ok _ _ _ h in
    let other = bound_ok _ _ _ (real.2) in
    let tested = bound_ok _ _ _ (other.2) in
    head_or_rest test profits as_if b accounts (tested.0) (real.0) (other.0) _ a ps qs (real.1)
      (other.1) (tested.1) (first_account-Passes test profits as_if accounts a ps qs) (tested.2)
