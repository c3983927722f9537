-- ===== src/Summary/Tracer/Store.antt =====
-- The Data of all calls, under the changes that the tracer of summary_tracer.go makes of them.
use mathlib.Core.Path.{subst}
use erebus_redgiant.Prelude.{
  ℕ, suc, ◌<◌, ◌≡◌, refl, sym, ap, ◌∙◌, Bool, true, false, Option, none, some, inl, inr, List, [],
  ◌∷◌, arith, ◌==◌, length, get_elem?, Bool-cases, if◌then◌else◌, nat_eq, Address,
}
use erebus_redgiant.Prelude.Map.{lookup, insert, self-insert, other-insert}
use erebus_redgiant.Prelude.Partial.{◌>>=◌, bound}
use erebus_redgiant.Tracers.Call.{MsgCall}
use erebus_redgiant.Summary.Calls.{Data}
use erebus_redgiant.Summary.State.{StateVariable}
use erebus_redgiant.Summary.Profits.Conservation.{total}
use erebus_redgiant.Summary.Transfer.{Transfer}
use erebus_redgiant.Summary.Transfer.Conservation.{gains}
use erebus_redgiant.Tracers.Call.{Location}
use erebus_redgiant.Summary.Tracer.{
  id_of, TxSummaryTracer, change_current, on_current, add_def, add_use, with_transfers, with_def,
  with_use, clear_changes, clear_if, Config, record_ether,
}
use erebus_redgiant.Summary.Tracer.Balance.{IsBalanced, with_transfers-IsBalanced}

abbrev pub AllBalanced : List Data → Type 0
AllBalanced [] = Unit
AllBalanced (d ∷ ds) = IsBalanced d × AllBalanced ds

-- The calls below a call are newer, and known.
abbrev pub AllNewer : ℕ → ℕ → List ℕ → Type 0
AllNewer p n [] = Unit
AllNewer p n (q ∷ qs) = (p < q) × (q < n) × AllNewer p n qs

-- The summary of a call has one Data more than the call has calls below it, all balanced.
abbrev pub IsSummed : List (ℕ × List Data) → ℕ → MsgCall → Type 0
IsSummed s p c =
    (ds : List Data) × (lookup p s ≡ some ds)
    × (length ds ≡ suc (length c.nested_calls))
    × AllBalanced ds

abbrev pub AllSummed : List MsgCall → List (ℕ × List Data) → Type 0
AllSummed calls s =
    (p : ℕ) (c : MsgCall)
    → get_elem? calls p ≡ some c
    → IsSummed s p c × AllNewer p (length calls) c.nested_calls

-- A step that leaves the calls alone and keeps all their summaries.
unfoldable pub Keeps : TxSummaryTracer → TxSummaryTracer → Type 0
Keeps t u =
    (u.nested ≡ t.nested)
    × ((calls : List MsgCall) → AllSummed calls t.summaries → AllSummed calls u.summaries)

-- A step that keeps them where it does not panic.
unfoldable pub AlwaysKeeps : TxSummaryTracer → Option TxSummaryTracer → Type 0
AlwaysKeeps t o = (u : TxSummaryTracer) → o ≡ some u → Keeps t u

pub Keeps-refl : (t : TxSummaryTracer) → Keeps t t
unfolding Keeps
Keeps-refl t = (refl, λ calls h. h)

pub Keeps-trans : (t u v : TxSummaryTracer) → Keeps t u → Keeps u v → Keeps t v
unfolding Keeps
Keeps-trans t u v (e, f) (e', f') = (e' ∙ e, λ calls h. f' calls (f calls h))

pub keeps_same : (t : TxSummaryTracer) → AlwaysKeeps t (some t)
unfolding AlwaysKeeps
keeps_same t u h = subst (Keeps t) (same h) (Keeps-refl t)
  where
    same : some t ≡ some u → t ≡ u
    same k = cc

pub keeps_none : (t : TxSummaryTracer) → AlwaysKeeps t none
unfolding AlwaysKeeps
keeps_none t u h = absurd (ground arith)

pub keeps_then :
    (t : TxSummaryTracer) (o : Option TxSummaryTracer)
    (f : TxSummaryTracer → Option TxSummaryTracer)
    → AlwaysKeeps t o
    → ((u : TxSummaryTracer) → AlwaysKeeps u (f u))
    → AlwaysKeeps t (o >>= f)
unfolding AlwaysKeeps
keeps_then t o f h g v e = let (u, r, k) = bound o f v e in Keeps-trans t u v (h u r) (g u v k)

pub keeps_read :
    {A : Type 0} (t : TxSummaryTracer) (o : Option A) (f : A → Option TxSummaryTracer)
    → ((a : A) → AlwaysKeeps t (f a))
    → AlwaysKeeps t (o >>= f)
unfolding AlwaysKeeps
keeps_read t o f g v e = let (a, r, k) = bound o f v e in g a v k

pub keeps_if :
    (t : TxSummaryTracer) (b : Bool) (x y : Option TxSummaryTracer)
    → AlwaysKeeps t x
    → AlwaysKeeps t y
    → AlwaysKeeps t (if b then x else y)
keeps_if t true x y h k = h
keeps_if t false x y h k = k

-- A change of a Data that keeps it balanced.
abbrev pub KeepsBalance : (Data → Option Data) → Type 0
KeepsBalance f = (d e : Data) → f d ≡ some e → IsBalanced d → IsBalanced e

same_list : (l m : List Data) → some l ≡ some m → l ≡ m
same_list l m h = cc

pub same_tracer : (t u : TxSummaryTracer) → some t ≡ some u → t ≡ u
same_tracer t u h = cc

change_current-AllBalanced :
    (f : Data → Option Data) (ds es : List Data)
    → KeepsBalance f
    → change_current f ds ≡ some es
    → AllBalanced ds
    → (length es ≡ length ds) × AllBalanced es
unfolding change_current
change_current-AllBalanced f [] es k h b = absurd (ground arith)
change_current-AllBalanced f (d ∷ []) es k h b =
    let (e, r, o) = bound (f d) _ es h in
    subst (λ (l : List Data). (length l ≡ 1) × AllBalanced l) (same_list (e ∷ []) es o)
      (refl, (k d e r b.0, tt))
change_current-AllBalanced f (d ∷ x ∷ ds) es k h b =
    let (rest, r, o) = bound (change_current f (x ∷ ds)) _ es h in
    let (n, a) = change_current-AllBalanced f (x ∷ ds) rest k r b.1 in
    subst (λ (l : List Data). (length l ≡ length (d ∷ x ∷ ds)) × AllBalanced l)
      (same_list (d ∷ rest) es o) (ap suc n, (b.0, a))

-- Other Data for one call, as many and balanced.
replaced-AllSummed :
    (s : List (ℕ × List Data)) (p : ℕ) (ds es : List Data) (calls : List MsgCall)
    → lookup p s ≡ some ds
    → (AllBalanced ds → (length es ≡ length ds) × AllBalanced es)
    → AllSummed calls s
    → AllSummed calls (insert p es s)
replaced-AllSummed s p ds es calls l k h q c e =
    let ((fs, f, n, b), newer) = h q c e in
    elim (Bool-cases (q == p)) [
      | inl same ↦
          let here : lookup p s ≡ some fs = ground (arith, same, f) in
          let known : fs ≡ ds = same_list fs ds (sym here ∙ l) in
          let (n', b') = k (subst AllBalanced known b) in
          (
            (es, ground (arith, same, self-insert p es s), n' ∙ ap length (sym known) ∙ n, b'),
            newer,
          )
      | inr other ↦ ((fs, other-insert p q es s (ground (arith, other)) ∙ f, n, b), newer)
    ]

on_current-Keeps :
    (f : Data → Option Data) (p : ℕ) (t : TxSummaryTracer)
    → KeepsBalance f
    → AlwaysKeeps t (on_current f p t)
unfolding on_current AlwaysKeeps Keeps
on_current-Keeps f p t k u h =
    let (ds, l, m) = bound (lookup p t.summaries) _ u h in
    let (es, c, n) = bound (change_current f ds) _ u m in
    subst (Keeps t) (same_tracer (record t { summaries = insert p es t.summaries }) u n) (
      refl,
      λ calls.
          replaced-AllSummed t.summaries p ds es calls l (change_current-AllBalanced f ds es k c),
    )

same_data : (d e : Data) → some d ≡ some e → d ≡ e
same_data d e h = cc

def-KeepsBalance : (v : StateVariable) → KeepsBalance (λ d. some (with_def v d))
def-KeepsBalance v d e h b = subst IsBalanced (same_data (with_def v d) e h) b

use-KeepsBalance : (v : StateVariable) → KeepsBalance (λ d. some (with_use v d))
use-KeepsBalance v d e h b = subst IsBalanced (same_data (with_use v d) e h) b

clear-KeepsBalance : KeepsBalance (λ d. some (clear_changes d))
unfolding total gains
clear-KeepsBalance d e h b = subst IsBalanced (same_data (clear_changes d) e h) (tt, λ k. refl)

transfers-KeepsBalance : (ts : List Transfer) → KeepsBalance (with_transfers true ts)
transfers-KeepsBalance ts d e h b =
    let (e', r, b') = with_transfers-IsBalanced ts d b in
    subst IsBalanced (same_data e' e (sym r ∙ h)) b'

defined-Keeps :
    (v : StateVariable) (u : TxSummaryTracer)
    → AlwaysKeeps u (some (record u { defined = id_of v ∷ u.defined }))
unfolding AlwaysKeeps Keeps
defined-Keeps v u w h =
    subst (Keeps u) (same_tracer (record u { defined = id_of v ∷ u.defined }) w h)
      (refl, λ calls k. k)

pub add_def-Keeps :
    (v : StateVariable) (p : ℕ) (t : TxSummaryTracer) → AlwaysKeeps t (add_def v p t)
unfolding add_def
add_def-Keeps v p t =
    keeps_then t (on_current (λ d. some (with_def v d)) p t) _
      (on_current-Keeps _ p t (def-KeepsBalance v)) (λ u. defined-Keeps v u)

pub add_use-Keeps :
    (b : Bool) (v : StateVariable) (p : ℕ) (t : TxSummaryTracer) → AlwaysKeeps t (add_use b v p t)
unfolding add_use
add_use-Keeps b v p t =
    keeps_if t _ _ _ (keeps_same t) (on_current-Keeps _ p t (use-KeepsBalance v))

pub clear_if-Keeps : (b : Bool) (p : ℕ) (t : TxSummaryTracer) → AlwaysKeeps t (clear_if b p t)
unfolding clear_if
clear_if-Keeps b p t = keeps_if t b _ _ (on_current-Keeps _ p t clear-KeepsBalance) (keeps_same t)

pub transfers-Keeps :
    (b : Bool) (ts : List Transfer) (p : ℕ) (t : TxSummaryTracer)
    → b ≡ true
    → AlwaysKeeps t (on_current (with_transfers b ts) p t)
transfers-Keeps b ts p t h =
    rw h (on_current-Keeps (with_transfers true ts) p t (transfers-KeepsBalance ts))

pub record_ether-Keeps :
    (cfg : Config) (from to : Address) (value : ℕ) (l : Option Location) (p : ℕ)
    (t : TxSummaryTracer)
    → cfg.include_profit ≡ true
    → AlwaysKeeps t (record_ether cfg from to value l p t)
unfolding record_ether
record_ether-Keeps cfg from to value l p t h =
    keeps_if t _ _ _ (transfers-Keeps cfg.include_profit _ p t h) (keeps_same t)

pub ruleset keeping =
    (keeps_same, keeps_then, keeps_read, keeps_if, add_def-Keeps, add_use-Keeps, clear_if-Keeps)
