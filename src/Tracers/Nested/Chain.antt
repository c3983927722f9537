-- ===== src/Tracers/Nested/Chain.antt =====
-- The order of call positions, and the chain of open calls on the tracer stack: lemmas for
-- the run of the tracer in Creation.antt.
use mathlib.Core.List.{append_assoc}
use erebus_redgiant.Prelude.{
  ℕ, zero, suc, ◌<◌, ◌≡◌, refl, sym, ap, ◌∙◌, some, List, [], ◌∷◌, ◌++◌, map, arith, length,
  get_elem?, set, get_elem?-set_self, get_elem?-set_ne, get_elem?-lt,
}
use erebus_redgiant.Prelude.Int.{negsuc}
use erebus_redgiant.Tracers.Position.{Position, CallPosition, cmp}
use erebus_redgiant.Tracers.Position.Order.{cmp_trans, cmp-append}
use erebus_redgiant.Tracers.Call.{MsgCall}

abbrev pub Before : Position → Position → Type 0
Before p q = cmp p q ≡ negsuc 0

unfoldable pub positions : List MsgCall → List Position
positions cs = map (λ (c : MsgCall). c.position.position) cs

abbrev pub AllBefore : List Position → Position → Type 0
AllBefore [] n = Unit
AllBefore (p ∷ ps) n = Before p n × AllBefore ps n

abbrev pub AllAfter : Position → List Position → Type 0
AllAfter n [] = Unit
AllAfter n (p ∷ ps) = Before n p × AllAfter n ps

-- Each position stands before all that follow it.
abbrev pub IsOrdered : List Position → Type 0
IsOrdered [] = Unit
IsOrdered (p ∷ ps) = AllAfter p ps × IsOrdered ps

-- The position of the next child of a call.
abbrev pub next : MsgCall → Position
next c = c.position.position ++ length c.nested_calls ∷ []

-- `c` is the last child of `d`.
abbrev pub IsLast : MsgCall → MsgCall → Type 0
IsLast d c =
    (k : ℕ) × (c.position.position ≡ d.position.position ++ k ∷ [])
    × (suc k ≡ length d.nested_calls)

-- The head of the stack is older than pointer `p`.
abbrev pub HeadBelow : ℕ → List ℕ → Type 0
HeadBelow p [] = Unit
HeadBelow p (q ∷ s) = q < p

abbrev pub Linked : MsgCall → List MsgCall → List ℕ → Type 0
Linked c calls [] = Unit
Linked c calls (q ∷ s) = (d : MsgCall) × (get_elem? calls q ≡ some d) × IsLast d c

-- Each open call is the last child of the one below it on the stack.
abbrev pub IsChain : List MsgCall → List ℕ → Type 0
IsChain calls [] = Unit
IsChain calls (p ∷ s) =
    (c : MsgCall) × (get_elem? calls p ≡ some c)
    × HeadBelow p s
    × Linked c calls s
    × IsChain calls s

abbrev pub Agree : List MsgCall → List MsgCall → ℕ → Type 0
Agree calls calls' p = (i : ℕ) → i < p → get_elem? calls' i ≡ get_elem? calls i

pub Linked-Agree :
    (c : MsgCall) (calls calls' : List MsgCall) (p : ℕ) (s : List ℕ)
    → Agree calls calls' p
    → HeadBelow p s
    → Linked c calls s
    → Linked c calls' s
Linked-Agree c calls calls' p [] same h l = tt
Linked-Agree c calls calls' p (q ∷ s) same h (d, e, last) = (d, same q h ∙ e, last)

pub IsChain-Agree :
    (calls calls' : List MsgCall) (p : ℕ) (s : List ℕ)
    → Agree calls calls' p
    → HeadBelow p s
    → IsChain calls s
    → IsChain calls' s
IsChain-Agree calls calls' p [] same h ch = tt
IsChain-Agree calls calls' p (q ∷ s) same h (c, e, below, l, ch) =
    let same' : Agree calls calls' q = λ i k. same i (omega arith) in
    (
      c,
      same q h ∙ e,
      below,
      Linked-Agree c calls calls' q s same' below l,
      IsChain-Agree calls calls' q s same' below ch,
    )

Agree-set : (calls : List MsgCall) (p : ℕ) (c : MsgCall) → Agree calls (set calls p c) p
Agree-set calls p c i h = get_elem?-set_ne calls c (λ e. omega arith)

-- A change of the top call that keeps its position keeps the chain.
pub IsChain-set :
    (calls : List MsgCall) (p : ℕ) (s : List ℕ) (c c' : MsgCall)
    → get_elem? calls p ≡ some c
    → c'.position ≡ c.position
    → IsChain calls (p ∷ s)
    → IsChain (set calls p c') (p ∷ s)
IsChain-set calls p s c c' e same (d, e', below, l, ch) = (
  c',
  get_elem?-set_self calls p c' (get_elem?-lt calls p e),
  below,
  Linked-Agree c' calls (set calls p c') p s (Agree-set calls p c') below (relink s l),
  IsChain-Agree calls (set calls p c') p s (Agree-set calls p c') below ch,
)
  where
    known : d ≡ c
    known = cc

    relink : (s : List ℕ) → Linked d calls s → Linked c' calls s
    relink [] l = tt
    relink (q ∷ s) (b, eb, (k, ek, el)) = (
      b,
      eb,
      (
        k,
        ap (λ (z : CallPosition). z.position) same
            ∙ ap (λ (z : MsgCall). z.position.position) (sym known)
            ∙ ek,
        el,
      ),
    )

pub positions-set :
    (calls : List MsgCall) (p : ℕ) (c c' : MsgCall)
    → get_elem? calls p ≡ some c
    → c'.position ≡ c.position
    → positions (set calls p c') ≡ positions calls
unfolding positions
positions-set [] p c c' e same = refl
positions-set (x ∷ cs) zero c c' e same = ground arith
positions-set (x ∷ cs) (suc p) c c' e same = ground (arith, positions-set cs p c c' e same)

pub positions-append :
    (calls : List MsgCall) (c : MsgCall)
    → positions (calls ++ c ∷ []) ≡ positions calls ++ c.position.position ∷ []
unfolding positions
positions-append [] c = refl
positions-append (x ∷ cs) c = ap (λ l. x.position.position ∷ l) (positions-append cs c)

AllAfter-append :
    (p n : Position) (ps : List Position) → AllAfter p ps → Before p n → AllAfter p (ps ++ n ∷ [])
AllAfter-append p n [] h b = (b, tt)
AllAfter-append p n (q ∷ ps) h b = (h.0, AllAfter-append p n ps h.1 b)

pub IsOrdered-append :
    (ps : List Position) (n : Position) → IsOrdered ps → AllBefore ps n → IsOrdered (ps ++ n ∷ [])
IsOrdered-append [] n o b = (tt, tt)
IsOrdered-append (p ∷ ps) n o b = (AllAfter-append p n ps o.0 b.0, IsOrdered-append ps n o.1 b.1)

pub AllBefore-append :
    (ps : List Position) (n m : Position) → AllBefore ps m → Before n m → AllBefore (ps ++ n ∷ []) m
AllBefore-append [] n m a b = (b, tt)
AllBefore-append (p ∷ ps) n m a b = (a.0, AllBefore-append ps n m a.1 b)

pub AllBefore-trans :
    (ps : List Position) (n m : Position) → AllBefore ps n → Before n m → AllBefore ps m
AllBefore-trans [] n m a b = tt
AllBefore-trans (p ∷ ps) n m a b = (cmp_trans p n m a.0 b, AllBefore-trans ps n m a.1 b)

-- A call's next child comes before the next child of the call below it.
pub next-IsLast : (d c : MsgCall) → IsLast d c → Before (next c) (next d)
unfolding cmp
next-IsLast d c (k, e, l) = rw (e, ← l, append_assoc, cmp-append) (ground arith)
