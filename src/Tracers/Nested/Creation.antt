-- ===== src/Tracers/Nested/Creation.antt =====
-- Over a whole run of the tracer of nested.go, `Cmp` of call_position.go orders the calls by
-- creation, and every nested call is a child of the call that was open when it was made.
use mathlib.Core.Path.{subst, ap₂}
use erebus_redgiant.Prelude.{
  ℕ, ◌+◌, ◌<◌, ◌≡◌, refl, ◌∙◌, Option, none, some, inl, inr, List, [], ◌∷◌, ◌++◌, arith, length,
  get_elem?, set, length-append, length-set, get_elem?-set_self, get_elem?-lt,
  get_elem?-append_left, get_elem?-length_append, Option-cases, Address,
}
use erebus_redgiant.Tracers.Position.Order.{cmp-extend}
use erebus_redgiant.Tracers.Call.{ExecutionResult, MsgCall, gen_child_position}
use erebus_redgiant.Tracers.Nested.{
  Tracer, capture_state, capture_enter, capture_exit, is_precompiled_contract, context_address,
  value_or_zero,
}
use erebus_redgiant.Tracers.Nested.Chain.{
  Before, positions, AllBefore, IsOrdered, next, IsChain, Agree, IsChain-Agree, IsChain-set,
  positions-set, positions-append, IsOrdered-append, AllBefore-append, AllBefore-trans, next-IsLast,
}

-- The hooks that the EVM calls between the start and the end of a transaction.
pub data Event : Type 0 where
  state : ℕ → ℕ → ℕ → ℕ → Event
  enter : ℕ → Address → Address → List ℕ → Option ℕ → Event
  exit : ExecutionResult → Event

unfoldable pub step : Event → Tracer → Option Tracer
unfolding capture_state capture_enter capture_exit
step (state pc op gas cost) t = capture_state pc op gas cost t
step (enter typ from to input value) t = capture_enter typ from to input value t
step (exit r) t = capture_exit r t

unfoldable pub run : List Event → Tracer → Option Tracer
unfolding step
run [] t = some t
run (e ∷ es) t = elim (step e t) [ none ↦ none | some t' ↦ run es t' ]

-- No call stands at or behind the place of the next child of the current call.
abbrev pub IsBounded : List MsgCall → List ℕ → Type 0
IsBounded calls [] = Unit
IsBounded calls (p ∷ s) =
    (c : MsgCall) → get_elem? calls p ≡ some c → AllBefore (positions calls) (next c)

pub record Inv (t : Tracer) : Type 0 where
  pub ordered : IsOrdered (positions t.calls)
  pub chain : IsChain t.calls t.stack
  pub bounded : IsBounded t.calls t.stack

-- A change of the current call that keeps its position and its children keeps the invariant.
touch-Inv :
    (t : Tracer) (p : ℕ) (s : List ℕ) (c c' : MsgCall)
    → t.stack ≡ p ∷ s
    → get_elem? t.calls p ≡ some c
    → c'.position ≡ c.position
    → c'.nested_calls ≡ c.nested_calls
    → Inv t
    → (IsOrdered (positions (set t.calls p c')))
      × (IsChain (set t.calls p c') (p ∷ s))
      × (AllBefore (positions (set t.calls p c')) (next c'))
touch-Inv t p s c c' es e same kept v =
    let keep = positions-set t.calls p c c' e same in
    let chain : IsChain t.calls (p ∷ s) = rw es at v.chain in
    let bounded : IsBounded t.calls (p ∷ s) = rw es at v.bounded in
    (
      rw keep v.ordered,
      IsChain-set t.calls p s c c' e same chain,
      rw (keep, same, kept) (bounded c e),
    )

abbrev at : List MsgCall → List ℕ → ℕ → Tracer
at calls stack n = record { calls = calls; stack = stack; total_operations = n }

pub IsBounded-one :
    (calls : List MsgCall) (p : ℕ) (s : List ℕ) (c : MsgCall)
    → get_elem? calls p ≡ some c
    → AllBefore (positions calls) (next c)
    → IsBounded calls (p ∷ s)
IsBounded-one calls p s c e b d e' =
    let known : c ≡ d = cc in subst (λ x. AllBefore (positions calls) (next x)) known b

-- The same for a call that replaces the current one in the list.
replace-Inv :
    (calls : List MsgCall) (p : ℕ) (s : List ℕ) (n n' : ℕ) (c c' : MsgCall)
    → get_elem? calls p ≡ some c
    → c'.position ≡ c.position
    → c'.nested_calls ≡ c.nested_calls
    → Inv (at calls (p ∷ s) n)
    → Inv (at (set calls p c') (p ∷ s) n')
replace-Inv calls p s n n' c c' e same kept v =
    let (ordered, chain, bounded) = touch-Inv (at calls (p ∷ s) n) p s c c' refl e same kept v in
    record {
      ordered = ordered;
      chain = chain;
      bounded =
          IsBounded-one (set calls p c') p s c'
            (get_elem?-set_self calls p c' (get_elem?-lt calls p e)) bounded;
    }

capture_state-Inv :
    (pc op gas cost : ℕ) (calls : List MsgCall) (stack : List ℕ) (n : ℕ) (t' : Tracer)
    → capture_state pc op gas cost (at calls stack n) ≡ some t'
    → Inv (at calls stack n)
    → Inv t'
unfolding capture_state
capture_state-Inv pc op gas cost calls [] n t' h v = cc
capture_state-Inv pc op gas cost calls (p ∷ s) n t' h v = elim (Option-cases (get_elem? calls p)) [
  | inl gone ↦ absurd (ground arith)
  | inr (c, e) ↦
      let c' : MsgCall = record c {
        current_location = some (record {
          pos = c.position;
          code_addr = c.code_addr;
          pc = pc;
          opcode = op;
          gas_available = gas;
          gas_used = cost;
          index = n;
        });
      } in
      subst Inv (ground arith) (replace-Inv calls p s n (n + 1) c c' e refl refl v)
]

-- Popping the current call: its parent's next child comes behind its own.
pop-Inv :
    (calls : List MsgCall) (p : ℕ) (s : List ℕ) (n : ℕ) (c : MsgCall)
    → get_elem? calls p ≡ some c
    → Inv (at calls (p ∷ s) n)
    → Inv (at calls s n)
pop-Inv calls p [] n c e v = record { ordered = v.ordered; chain = tt; bounded = tt }
pop-Inv calls p (q ∷ s) n c e v =
    let (b, eb, below, (d, ed, last), chain) = v.chain in
    record {
      ordered = v.ordered;
      chain = chain;
      bounded = IsBounded-one calls q s d ed (
          AllBefore-trans (positions calls) (next b) (next d) (v.bounded b eb)
            (next-IsLast d b last));
    }

capture_exit-Inv :
    (r : ExecutionResult) (calls : List MsgCall) (stack : List ℕ) (n : ℕ) (t' : Tracer)
    → capture_exit r (at calls stack n) ≡ some t'
    → Inv (at calls stack n)
    → Inv t'
unfolding capture_exit
capture_exit-Inv r calls [] n t' h v = cc
capture_exit-Inv r calls (p ∷ s) n t' h v = elim (Option-cases (get_elem? calls p)) [
  | inl gone ↦ absurd (ground arith)
  | inr (c, e) ↦
      let c' : MsgCall = record c { result = some r } in
      subst Inv (ground arith) (
        pop-Inv (set calls p c') p s n c' (get_elem?-set_self calls p c' (get_elem?-lt calls p e))
          (replace-Inv calls p s n n c c' e refl refl v))
]

-- The parent of a new call, with the call among its children.
abbrev adopt : List MsgCall → MsgCall → MsgCall
adopt calls c = record c { nested_calls = c.nested_calls ++ length calls ∷ [] }

newest :
    (calls : List MsgCall) (p : ℕ) (c child : MsgCall)
    → get_elem? (set calls p c ++ child ∷ []) (length calls) ≡ some child
newest calls p c child =
    subst (λ z. get_elem? (set calls p c ++ child ∷ []) z ≡ some child) (length-set calls p c)
      (get_elem?-length_append (set calls p c) [] child)

enter-IsChain :
    (calls : List MsgCall) (p : ℕ) (s : List ℕ) (n : ℕ) (c child : MsgCall)
    → get_elem? calls p ≡ some c
    → child.position.position ≡ next c
    → Inv (at calls (p ∷ s) n)
    → IsChain (set calls p (adopt calls c) ++ child ∷ []) (length calls ∷ p ∷ s)
enter-IsChain calls p s n c child e place v =
    let calls' = set calls p (adopt calls c) in
    let size : length calls' ≡ length calls = length-set calls p (adopt calls c) in
    let young : p < length calls = get_elem?-lt calls p e in
    let same : Agree calls' (calls' ++ child ∷ []) (length calls) =
      λ i h. get_elem?-append_left calls' (child ∷ []) i (omega arith) in
    let old : get_elem? calls' p ≡ some (adopt calls c) =
      get_elem?-set_self calls p (adopt calls c) young in
    (
      child,
      newest calls p (adopt calls c) child,
      young,
      (
        adopt calls c,
        same p young ∙ old,
        (
          length c.nested_calls,
          place,
          omega (arith, length-append c.nested_calls (length calls ∷ [])),
        ),
      ),
      IsChain-Agree calls' (calls' ++ child ∷ []) (length calls) (p ∷ s) same young
          (IsChain-set calls p s c (adopt calls c) e refl v.chain),
    )

enter-Inv :
    (calls : List MsgCall) (p : ℕ) (s : List ℕ) (n : ℕ) (c child : MsgCall)
    → get_elem? calls p ≡ some c
    → child.position.position ≡ next c
    → Inv (at calls (p ∷ s) n)
    → Inv (at (set calls p (adopt calls c) ++ child ∷ []) (length calls ∷ p ∷ s) n)
enter-Inv calls p s n c child e place v =
    let calls' = set calls p (adopt calls c) in
    let all : positions (calls' ++ child ∷ []) ≡ positions calls ++ next c ∷ [] =
      positions-append calls' child
      ∙ ap₂ (λ l q. l ++ q ∷ []) (positions-set calls p c (adopt calls c) e refl) place in
    let before : AllBefore (positions calls) (next c) = v.bounded c e in
    let below : Before (next c) (next child) =
      rw place (cmp-extend (next c) (length child.nested_calls) []) in
    record {
      ordered = rw all (IsOrdered-append (positions calls) (next c) v.ordered before);
      chain = enter-IsChain calls p s n c child e place v;
      bounded =
          IsBounded-one (calls' ++ child ∷ []) (length calls) (p ∷ s) child
            (newest calls p (adopt calls c) child)
            (rw all (
              AllBefore-append (positions calls) (next c) (next child)
                (AllBefore-trans (positions calls) (next c) (next child) before below) below));
    }

capture_enter-Inv :
    (typ : ℕ) (from to : Address) (input : List ℕ) (value : Option ℕ) (calls : List MsgCall)
    (stack : List ℕ) (n : ℕ) (t' : Tracer)
    → capture_enter typ from to input value (at calls stack n) ≡ some t'
    → Inv (at calls stack n)
    → Inv t'
unfolding capture_enter
capture_enter-Inv typ from to input value calls [] n t' h v = cc
capture_enter-Inv typ from to input value calls (p ∷ s) n t' h v =
    elim (Option-cases (get_elem? calls p)) [
      | inl gone ↦ absurd (ground arith)
      | inr (c, e) ↦
          let child : MsgCall = record {
            position = gen_child_position calls c (is_precompiled_contract to);
            result = none;
            receipt = none;
            opcode = typ;
            caller = record {
              code_addr = some c.code_addr;
              state_addr = c.state_addr;
              call_site = c.current_location;
            };
            precompiled = is_precompiled_contract to;
            code_addr = to;
            state_addr = context_address typ from to;
            input = input;
            value = value_or_zero value;
            parent = some p;
            nested_calls = [];
            current_location = none;
          } in
          subst Inv (ground arith) (enter-Inv calls p s n c child e refl v)
    ]

-- One hook keeps the invariant.
pub step-Inv : (e : Event) (t t' : Tracer) → step e t ≡ some t' → Inv t → Inv t'
unfolding step
step-Inv (state pc op gas cost) t t' h v =
    capture_state-Inv pc op gas cost t.calls t.stack t.total_operations t' h v
step-Inv (enter typ from to input value) t t' h v =
    capture_enter-Inv typ from to input value t.calls t.stack t.total_operations t' h v
step-Inv (exit r) t t' h v = capture_exit-Inv r t.calls t.stack t.total_operations t' h v

pub run-Inv : (es : List Event) (t t' : Tracer) → run es t ≡ some t' → Inv t → Inv t'
unfolding run
run-Inv [] t t' h v = subst Inv (ground arith) v
run-Inv (e ∷ es) t t' h v = elim (Option-cases (step e t)) [
  | inl gone ↦ absurd (ground arith)
  | inr (u, k) ↦ run-Inv es u t' (rw (k, run) at h) (step-Inv e t u k v)
]
