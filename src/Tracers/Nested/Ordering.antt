-- ===== src/Tracers/Nested/Ordering.antt =====
-- What the run of the tracer of nested.go means for the positions of the calls that it records.
use mathlib.Core.Path.{subst}
use erebus_redgiant.Prelude.{
  ℕ, zero, suc, ◌<◌, ◌≡◌, refl, Option, some, List, [], ◌∷◌, arith, get_elem?, Address,
}
use erebus_redgiant.Prelude.Int.{negsuc}
use erebus_redgiant.Tracers.Position.{Position, cmp}
use erebus_redgiant.Tracers.Call.{MsgCall}
use erebus_redgiant.Tracers.Nested.{Tracer, fresh, transaction_start}
use erebus_redgiant.Tracers.Nested.Chain.{Before, positions, AllAfter, IsOrdered}
use erebus_redgiant.Tracers.Nested.Creation.{Event, run, Inv, run-Inv}

-- The state after the start of the only transaction that a tracer records.
abbrev pub started : (Address → ℕ → Address) → ℕ → Address → Option Address → List ℕ → ℕ → Tracer
started create_address nonce from to input value =
    transaction_start create_address nonce from to input value fresh

-- The start of a transaction sets the invariant up.
pub started-Inv :
    (create_address : Address → ℕ → Address) (nonce : ℕ) (from : Address) (to : Option Address)
    (input : List ℕ) (value : ℕ)
    → Inv (started create_address nonce from to input value)
unfolding transaction_start positions cmp
started-Inv create_address nonce from to input value = record {
  ordered = (tt, tt);
  chain = (_, refl, tt, tt, tt);
  bounded = λ c e. ground arith;
}

AllAfter-at :
    (p : Position) (calls : List MsgCall) (j : ℕ) {b : MsgCall}
    → AllAfter p (positions calls)
    → get_elem? calls j ≡ some b
    → Before p b.position.position
unfolding positions
AllAfter-at p [] j h e = absurd (ground arith)
AllAfter-at p (c ∷ cs) zero {b = b} h e =
    let same : c ≡ b = ground arith in
    subst (λ (z : MsgCall). Before p z.position.position) same h.0
AllAfter-at p (c ∷ cs) (suc j) h e = AllAfter-at p cs j h.1 e

IsOrdered-at :
    (calls : List MsgCall) (i j : ℕ) {a b : MsgCall}
    → IsOrdered (positions calls)
    → i < j
    → get_elem? calls i ≡ some a
    → get_elem? calls j ≡ some b
    → Before a.position.position b.position.position
unfolding positions
IsOrdered-at [] i j o lt e k = absurd (ground arith)
IsOrdered-at (c ∷ cs) zero zero o lt e k = absurd (omega arith)
IsOrdered-at (c ∷ cs) zero (suc j) {a = a} {b = b} o lt e k =
    let same : c ≡ a = ground arith in
    subst (λ (z : MsgCall). Before z.position.position b.position.position) same
      (AllAfter-at c.position.position cs j o.0 k)
IsOrdered-at (c ∷ cs) (suc i) zero o lt e k = absurd (omega arith)
IsOrdered-at (c ∷ cs) (suc i) (suc j) o lt e k = IsOrdered-at cs i j o.1 (omega arith) e k

-- Over any run of hooks after the start of a transaction, `Cmp` puts a call made earlier strictly
-- before a call made later: -1 for every two calls in the order of their creation.
pub run-ordered :
    (create_address : Address → ℕ → Address) (nonce : ℕ) (from : Address) (to : Option Address)
    (input : List ℕ) (value : ℕ) (es : List Event) (t : Tracer) (i j : ℕ) {a b : MsgCall}
    → run es (started create_address nonce from to input value) ≡ some t
    → i < j
    → get_elem? t.calls i ≡ some a
    → get_elem? t.calls j ≡ some b
    → cmp a.position.position b.position.position ≡ negsuc 0
run-ordered create_address nonce from to input value es t i j h lt e k =
    IsOrdered-at t.calls i j
      (run-Inv es _ t h (started-Inv create_address nonce from to input value)).ordered lt e k
