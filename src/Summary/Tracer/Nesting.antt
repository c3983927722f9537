-- ===== src/Summary/Tracer/Nesting.antt =====
-- The Data of all calls, where the tracer of calls of nested.go changes the calls.
use mathlib.Core.Path.{subst}
use erebus_redgiant.Prelude.{
  ℕ, suc, ◌≤◌, ◌<◌, ◌≡◌, ◌≢◌, refl, sym, ap, ◌∙◌, false, Option, some, inl, inr, ◌⊎◌, List, [], ◌∷◌,
  ◌++◌, arith, ◌==◌, length, length-append, length-set, get_elem?, set, Bool-cases,
  get_elem?-set_self, get_elem?-set_ne, get_elem?-lt, get_elem?-append_left,
  get_elem?-length_append, Option-cases, nat_eq, Address, ltb,
}
use erebus_redgiant.Prelude.Map.{lookup, insert, self-insert, other-insert}
use erebus_redgiant.Tracers.Call.{MsgCall, ExecutionResult}
use erebus_redgiant.Tracers.Nested
use erebus_redgiant.Tracers.Nested.{top}
use erebus_redgiant.Summary.Calls.{Data}
use erebus_redgiant.Summary.Profits.Conservation.{total}
use erebus_redgiant.Summary.Transfer.Conservation.{gains}
use erebus_redgiant.Summary.Tracer.{empty_data}
use erebus_redgiant.Summary.Tracer.Balance.{IsBalanced}
use erebus_redgiant.Summary.Tracer.Store.{AllBalanced, AllNewer, IsSummed, AllSummed}

-- The same calls, with the same calls below them.
abbrev pub SameTree : List MsgCall → List MsgCall → Type 0
SameTree calls calls' =
    (length calls' ≡ length calls)
    × ((i : ℕ) (c' : MsgCall)
        → get_elem? calls' i ≡ some c'
        → (c : MsgCall) × (get_elem? calls i ≡ some c) × (c'.nested_calls ≡ c.nested_calls))

same_call : {A : Type 0} (o : Option A) (c d : A) → o ≡ some c → o ≡ some d → c ≡ d
same_call o c d h k = cc

set-SameTree :
    (calls : List MsgCall) (p : ℕ) (c c' : MsgCall)
    → get_elem? calls p ≡ some c
    → c'.nested_calls ≡ c.nested_calls
    → SameTree calls (set calls p c')
set-SameTree calls p c c' e k = (
  length-set calls p c',
  λ i d h. elim (Bool-cases (p == i)) [
    | inl same ↦
        let here : get_elem? (set calls p c') i ≡ some c' =
          ground (arith, same, get_elem?-set_self calls p c' (get_elem?-lt calls p e)) in
        (
          c,
          ground (arith, same, e),
          ap (λ (x : MsgCall). x.nested_calls) (same_call _ d c' h here) ∙ k,
        )
    | inr other ↦ (d, sym (get_elem?-set_ne calls c' (ground (arith, other))) ∙ h, refl)
  ],
)

pub AllSummed-SameTree :
    (calls calls' : List MsgCall) (s : List (ℕ × List Data))
    → SameTree calls calls'
    → AllSummed calls s
    → AllSummed calls' s
AllSummed-SameTree calls calls' s (n, same) h p c' e =
    let (c, f, k) = same p c' e in
    let ((ds, l, m, b), newer) = h p c f in
    (
      (ds, l, m ∙ ap (λ (x : List ℕ). suc (length x)) (sym k), b),
      subst (λ (x : List ℕ). AllNewer p (length calls') x) (sym k)
          (subst (λ x. AllNewer p x c.nested_calls) (sym n) newer),
    )

calls_of : (t u : Nested.Tracer) → some t ≡ some u → t ≡ u
calls_of t u h = cc

pub capture_state-SameTree :
    (pc op gas cost : ℕ) (n n' : Nested.Tracer)
    → Nested.capture_state pc op gas cost n ≡ some n'
    → SameTree n.calls n'.calls
unfolding Nested.capture_state
capture_state-SameTree pc op gas cost n n' h = elim (Option-cases (top n.stack)) [
  | inl e ↦ absurd (ground (arith, rw (e, Nested.capture_state) at h))
  | inr (p, e) ↦ elim (Option-cases (get_elem? n.calls p)) [
    | inl f ↦ absurd (ground (arith, rw (e, f, Nested.capture_state) at h))
    | inr (c, f) ↦
        subst (λ (x : Nested.Tracer). SameTree n.calls x.calls)
          (calls_of _ n' (rw (e, f, Nested.capture_state) at h)) (set-SameTree n.calls p c _ f refl)
  ]
]

exited :
    (r : ExecutionResult) (calls : List MsgCall) (stack : List ℕ) (k : ℕ) (n' : Nested.Tracer)
    → Nested.capture_exit r (record { calls = calls; stack = stack; total_operations = k })
      ≡ some n'
    → SameTree calls n'.calls
unfolding Nested.capture_exit
exited r calls [] k n' h = absurd (ground (arith, h))
exited r calls (p ∷ ps) k n' h = elim (Option-cases (get_elem? calls p)) [
  | inl f ↦ absurd (ground (arith, rw (f, Nested.capture_exit) at h))
  | inr (c, f) ↦
      subst (λ (x : Nested.Tracer). SameTree calls x.calls)
        (calls_of _ n' (rw (f, Nested.capture_exit) at h)) (set-SameTree calls p c _ f refl)
]

pub capture_exit-SameTree :
    (r : ExecutionResult) (n n' : Nested.Tracer)
    → Nested.capture_exit r n ≡ some n'
    → SameTree n.calls n'.calls
unfolding Nested.capture_exit
capture_exit-SameTree r n n' h = exited r n.calls n.stack n.total_operations n' h

pub transaction_end-SameTree :
    (r : ExecutionResult) (receipt : Option ℕ) (n n' : Nested.Tracer)
    → Nested.transaction_end r receipt n ≡ some n'
    → SameTree n.calls n'.calls
unfolding Nested.transaction_end
transaction_end-SameTree r receipt n n' h = elim (Option-cases (top n.stack)) [
  | inl e ↦ absurd (ground (arith, rw (e, Nested.transaction_end) at h))
  | inr (p, e) ↦ elim (Option-cases (get_elem? n.calls p)) [
    | inl f ↦ absurd (ground (arith, rw (e, f, Nested.transaction_end) at h))
    | inr (c, f) ↦
        subst (λ (x : Nested.Tracer). SameTree n.calls x.calls)
          (calls_of _ n' (rw (e, f, Nested.transaction_end) at h))
          (set-SameTree n.calls p c _ f refl)
  ]
]

-- A call that is made: the last of the calls, and the last one below its parent.
abbrev pub Grows : List MsgCall → ℕ → MsgCall → List MsgCall → Type 0
Grows calls p c calls' =
    (c' : MsgCall) × (child : MsgCall) × (calls' ≡ set calls p c' ++ child ∷ [])
    × (c'.nested_calls ≡ c.nested_calls ++ length calls ∷ [])
    × (child.nested_calls ≡ [])

pub capture_enter-Grows :
    (typ : ℕ) (from to : Address) (input : List ℕ) (value : Option ℕ) (n n' : Nested.Tracer) (p : ℕ)
    (c : MsgCall)
    → Nested.capture_enter typ from to input value n ≡ some n'
    → top n.stack ≡ some p
    → get_elem? n.calls p ≡ some c
    → Grows n.calls p c n'.calls × (n'.stack ≡ length n.calls ∷ n.stack)
unfolding Nested.capture_enter
capture_enter-Grows typ from to input value n n' p c h e f =
    subst (λ (x : Nested.Tracer). Grows n.calls p c x.calls × (x.stack ≡ length n.calls ∷ n.stack))
      (calls_of _ n' (rw (e, f, Nested.capture_enter) at h)) ((_, _, refl, refl, refl), refl)

AllNewer-grown : (p n m : ℕ) (qs : List ℕ) → n ≤ m → AllNewer p n qs → AllNewer p m qs
AllNewer-grown p n m [] le h = tt
AllNewer-grown p n m (q ∷ qs) le h = (h.0, omega (arith, h.1), AllNewer-grown p n m qs le h.2)

AllNewer-append :
    (p n q : ℕ) (qs : List ℕ) → p < q → q < n → AllNewer p n qs → AllNewer p n (qs ++ q ∷ [])
AllNewer-append p n q [] lt le h = (lt, le, tt)
AllNewer-append p n q (r ∷ qs) lt le h = (h.0, h.1, AllNewer-append p n q qs lt le h.2)

pub IsBalanced-empty_data : IsBalanced empty_data
unfolding total gains
IsBalanced-empty_data = (tt, λ k. refl)

AllBalanced-append : (ds : List Data) → AllBalanced ds → AllBalanced (ds ++ empty_data ∷ [])
AllBalanced-append [] h = (IsBalanced-empty_data, tt)
AllBalanced-append (d ∷ ds) h = (h.0, AllBalanced-append ds h.1)

differ : (p i : ℕ) → (p == i) ≡ false → p ≢ i
differ p i h e = absurd (ground (arith, h, e))

ltb-false : (i n : ℕ) → ltb i n ≡ false → n ≤ i
ltb-false i n h = ground (arith, h)

-- What stands in the list after a call was made.
grown_cases :
    (calls : List MsgCall) (p : ℕ) (c' child x : MsgCall) (i : ℕ)
    → p < length calls
    → get_elem? (set calls p c' ++ child ∷ []) i ≡ some x
    → ((i ≡ length calls) × (x ≡ child))
      ⊎ (((i ≡ p) × (x ≡ c'))
          ⊎ ((i < length calls) × ((p == i) ≡ false) × (get_elem? calls i ≡ some x)))
grown_cases calls p c' child x i lt h = elim (Bool-cases (ltb i (length calls))) [
  | inl under ↦
      let below : i < length calls = ground (arith, under) in
      let left =
        get_elem?-append_left (set calls p c') (child ∷ []) i
          (omega (arith, length-set calls p c')) in
      elim (Bool-cases (p == i)) [
        | inl same ↦
            let at_p : get_elem? (set calls p c') i ≡ some c' =
              ground (arith, same, get_elem?-set_self calls p c' lt) in
            inr (inl (ground (arith, same), same_call _ x c' h (left ∙ at_p)))
        | inr other ↦ inr (
            inr (
              below,
              other,
              sym (get_elem?-set_ne calls c' (ground (arith, other))) ∙ sym left ∙ h,
            ))
      ]
  | inr over ↦
      let xs = set calls p c' in
      let bound = get_elem?-lt (xs ++ child ∷ []) i h in
      let last : i ≡ length xs = omega (
        arith,
        ltb-false i (length calls) over,
        length-set calls p c',
        length-append xs (child ∷ []),
        bound,
      ) in
      inl (
        last ∙ length-set calls p c',
        same_call _ x child h
            (ap (get_elem? (xs ++ child ∷ [])) last ∙ get_elem?-length_append xs [] child),
      )
]

-- The claim about a call, by the calls below it.
IsSummed-by :
    (s : List (ℕ × List Data)) (i m : ℕ) (x : MsgCall) (nested : List ℕ) (ds : List Data)
    → x.nested_calls ≡ nested
    → lookup i s ≡ some ds
    → length ds ≡ suc (length nested)
    → AllBalanced ds
    → AllNewer i m nested
    → IsSummed s i x × AllNewer i m x.nested_calls
IsSummed-by s i m x nested ds e l n b h =
    ((ds, l, n ∙ ap (λ (q : List ℕ). suc (length q)) (sym e), b), subst (AllNewer i m) (sym e) h)

-- A call that is made with a fresh Data, and its parent with a fresh Data more.
pub Grows-AllSummed :
    (calls calls' : List MsgCall) (s : List (ℕ × List Data)) (p : ℕ) (c : MsgCall) (ds : List Data)
    → get_elem? calls p ≡ some c
    → lookup p s ≡ some ds
    → Grows calls p c calls'
    → AllSummed calls s
    → AllSummed calls'
        (insert (length calls) (empty_data ∷ []) (insert p (ds ++ empty_data ∷ []) s))
Grows-AllSummed calls calls' s p c ds e l (c', child, made, below, leaf) h i x f =
    let n = length calls in
    let lt = get_elem?-lt calls p e in
    let size : length calls' ≡ suc (length calls) =
      ap length made
      ∙ length-append (set calls p c') (child ∷ [])
      ∙ omega (arith, length-set calls p c') in
    let s' = insert p (ds ++ empty_data ∷ []) s in
    elim (grown_cases calls p c' child x i lt (subst (λ y. get_elem? y i ≡ some x) made f)) [
      | inl (last, is_child) ↦
          IsSummed-by (insert n (empty_data ∷ []) s') i (length calls') x [] (empty_data ∷ [])
            (ap (λ (y : MsgCall). y.nested_calls) is_child ∙ leaf)
            (ap (λ y. lookup y (insert n (empty_data ∷ []) s')) last ∙ self-insert n _ s') refl
            (IsBalanced-empty_data, tt) tt
      | inr (inl (is_p, is_parent)) ↦
          let ((fs, k, m, b), newer) = h p c e in
          let known : fs ≡ ds = same_call (lookup p s) fs ds k l in
          IsSummed-by (insert n (empty_data ∷ []) s') i (length calls') x (c.nested_calls ++ n ∷ [])
            (ds ++ empty_data ∷ []) (ap (λ (y : MsgCall). y.nested_calls) is_parent ∙ below)
            (other-insert n i _ s' (λ w. omega (arith, w, is_p, lt))
              ∙ ap (λ y. lookup y s') is_p
              ∙ self-insert p _ s)
            (length-append ds (empty_data ∷ [])
              ∙ omega (
                arith,
                ap (λ (y : List Data). length y) known,
                m,
                length-append c.nested_calls (n ∷ []),
              ))
            (AllBalanced-append ds (subst AllBalanced known b))
            (subst (λ y. AllNewer y (length calls') (c.nested_calls ++ n ∷ [])) (sym is_p)
              (AllNewer-append p (length calls') n c.nested_calls lt (omega (arith, size))
                (AllNewer-grown p n (length calls') c.nested_calls (omega (arith, size)) newer)))
      | inr (inr (older, other, kept)) ↦
          let ((fs, k, m, b), newer) = h i x kept in
          IsSummed-by (insert n (empty_data ∷ []) s') i (length calls') x x.nested_calls fs refl
            (other-insert n i _ s' (λ w. omega (arith, w, older))
              ∙ other-insert p i _ s (λ w. differ p i other (sym w))
              ∙ k)
            m b (AllNewer-grown i n (length calls') x.nested_calls (omega (arith, size)) newer)
    ]
