-- ===== src/Tracers/Nested/Total.antt =====
-- The tracer of nested.go does not panic in a transaction.
use erebus_redgiant.Prelude.{
  ℕ, zero, suc, ◌≡◌, refl, ap, ◌∙◌, Option, some, List, [], ◌∷◌, arith, get_elem?, length, Address,
}
use erebus_redgiant.Tracers.Call.{MsgCall, ExecutionResult}
use erebus_redgiant.Tracers.Nested.{
  Tracer, transaction_start, transaction_end, capture_state, capture_enter, capture_exit,
}
use erebus_redgiant.Tracers.Nested.Chain.{IsChain}
use erebus_redgiant.Tracers.Nested.Creation.{Event, step, run, Inv, step-Inv}
use erebus_redgiant.Tracers.Nested.Ordering.{started, started-Inv}

-- The calls that the EVM reports below a call with `n` calls open around it: it leaves no call that it
-- has not entered, and not the root call.
unfoldable pub Nests : ℕ → List Event → Type 0
Nests n [] = Unit
Nests n (Event.state pc op gas cost ∷ es) = Nests n es
Nests n (Event.enter typ from to input value ∷ es) = Nests (suc n) es
Nests zero (Event.exit r ∷ es) = ⊥
Nests (suc n) (Event.exit r ∷ es) = Nests n es

-- The number of calls open afterwards, the root call not counted.
unfoldable pub depth_after : ℕ → List Event → ℕ
depth_after n [] = n
depth_after n (Event.state pc op gas cost ∷ es) = depth_after n es
depth_after n (Event.enter typ from to input value ∷ es) = depth_after (suc n) es
depth_after zero (Event.exit r ∷ es) = zero
depth_after (suc n) (Event.exit r ∷ es) = depth_after n es

-- With the call `p` on top of the stack, every hook returns, and the stack is as the hook says.
module _ (calls : List MsgCall) (p : ℕ) (s : List ℕ) (ops : ℕ) (c : MsgCall)
    (h : get_elem? calls p ≡ some c) where
  abbrev open_at : Tracer
  open_at = record { calls = calls; stack = p ∷ s; total_operations = ops }

  state_steps :
      (pc op gas cost : ℕ)
      → (t' : Tracer) × (step (Event.state pc op gas cost) open_at ≡ some t') × (t'.stack ≡ p ∷ s)
  unfolding step capture_state
  state_steps pc op gas cost = rw (h, capture_state) (_, refl, refl)

  enter_steps :
      (typ : ℕ) (from to : Address) (input : List ℕ) (value : Option ℕ)
      → (t' : Tracer) × (step (Event.enter typ from to input value) open_at ≡ some t')
        × (t'.stack ≡ length calls ∷ p ∷ s)
  unfolding step capture_enter
  enter_steps typ from to input value = rw (h, capture_enter) (_, refl, refl)

  exit_steps :
      (r : ExecutionResult)
      → (t' : Tracer) × (step (Event.exit r) open_at ≡ some t') × (t'.stack ≡ s)
  unfolding step capture_exit
  exit_steps r = rw (h, capture_exit) (_, refl, refl)

  end_steps :
      (r : ExecutionResult) (receipt : Option ℕ)
      → (t' : Tracer) × (transaction_end r receipt open_at ≡ some t')
  unfolding transaction_end
  end_steps r receipt = rw (h, transaction_end) (_, refl)

module _ (t : Tracer) (p : ℕ) (s : List ℕ) (es : t.stack ≡ p ∷ s) (v : Inv t) where
  top_call : (c : MsgCall) × (get_elem? t.calls p ≡ some c)
  top_call = let chain : IsChain t.calls (p ∷ s) = rw es at v.chain in (chain.0, chain.1)

  opened : t ≡ open_at t.calls p s t.total_operations top_call.0 top_call.1
  opened = ap (λ st. record t { stack = st }) es

-- What a run leaves: so many calls open, and the invariant.
abbrev Leaves : Option Tracer → ℕ → Type 0
Leaves o n = (t' : Tracer) × (o ≡ some t') × (length t'.stack ≡ suc n) × Inv t'

run-Leaves :
    (es : List Event) (t : Tracer) (n p : ℕ) (s : List ℕ)
    → t.stack ≡ p ∷ s
    → length s ≡ n
    → Inv t
    → Nests n es
    → Leaves (run es t) (depth_after n es)
unfolding run Nests depth_after
run-Leaves [] t n p s st l v h = (t, refl, ap length st ∙ ap suc l, v)
run-Leaves (Event.state pc op gas cost ∷ es) t n p s st l v h =
    let (c, e) = top_call t p s st v in
    let (u, f, st') = state_steps t.calls p s t.total_operations c e pc op gas cost in
    let k = ap (step (Event.state pc op gas cost)) (opened t p s st v) ∙ f in
    rw (k, run) (run-Leaves es u n p s st' l (step-Inv (Event.state pc op gas cost) t u k v) h)
run-Leaves (Event.enter typ from to input value ∷ es) t n p s st l v h =
    let (c, e) = top_call t p s st v in
    let (u, f, st') = enter_steps t.calls p s t.total_operations c e typ from to input value in
    let k = ap (step (Event.enter typ from to input value)) (opened t p s st v) ∙ f in
    rw (k, run)
      (run-Leaves es u (suc n) (length t.calls) (p ∷ s) st' (ap suc l)
        (step-Inv (Event.enter typ from to input value) t u k v) h)
run-Leaves (Event.exit r ∷ es) t zero p s st l v h = absurd h
run-Leaves (Event.exit r ∷ es) t (suc n) p [] st l v h = absurd (omega arith)
run-Leaves (Event.exit r ∷ es) t (suc n) p (q ∷ s) st l v h =
    let (c, e) = top_call t p (q ∷ s) st v in
    let (u, f, st') = exit_steps t.calls p (q ∷ s) t.total_operations c e r in
    let k = ap (step (Event.exit r)) (opened t p (q ∷ s) st v) ∙ f in
    rw (k, run) (run-Leaves es u n q s st' (omega arith) (step-Inv (Event.exit r) t u k v) h)

ends :
    (t : Tracer) (n : ℕ) (st : List ℕ) (r : ExecutionResult) (receipt : Option ℕ)
    → t.stack ≡ st
    → length t.stack ≡ suc n
    → Inv t
    → (t' : Tracer) × (transaction_end r receipt t ≡ some t')
ends t n [] r receipt e l v = absurd (omega (arith, ap length e))
ends t n (p ∷ s) r receipt e l v =
    let (c, h) = top_call t p s e v in
    let (u, f) = end_steps t.calls p s t.total_operations c h r receipt in
    (u, ap (transaction_end r receipt) (opened t p s e v) ∙ f)

-- In a transaction, whatever operations, entries and exits of calls the EVM reports between its start
-- and its end: where it leaves no call that it has not entered, nor the root call, no hook of the
-- tracer panics, that of the end included; and the calls that it has not left are open, and the root.
pub transaction_total :
    (create_address : Address → ℕ → Address) (nonce : ℕ) (from : Address) (to : Option Address)
    (input : List ℕ) (value : ℕ) (es : List Event) (r : ExecutionResult) (receipt : Option ℕ)
    → Nests 0 es
    → (t : Tracer) × (run es (started create_address nonce from to input value) ≡ some t)
      × (length t.stack ≡ suc (depth_after 0 es))
      × ((t' : Tracer) × (transaction_end r receipt t ≡ some t'))
unfolding transaction_start
transaction_total create_address nonce from to input value es r receipt h =
    let v = started-Inv create_address nonce from to input value in
    let (t, e, l, w) =
      run-Leaves es (started create_address nonce from to input value) 0 0 [] refl refl v h in
    (t, e, l, ends t (depth_after 0 es) t.stack r receipt refl l w)
