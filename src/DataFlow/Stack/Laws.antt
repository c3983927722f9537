-- ===== src/DataFlow/Stack/Laws.antt =====
-- How push and pop of stack.go undo each other.
use erebus_redgiant.Prelude.{
  suc, ◌+◌, ◌-◌, ◌≤◌, ◌≡◌, refl, ap, none, some, List, [], ◌∷◌, ◌++◌, length, arith, length-append,
  take-length_append, drop-length_append,
}
use erebus_redgiant.DataFlow.Stack.{stack_limit, push, pop}

module _ {ℓ} {A : Type ℓ} where
  append_nil : (s : List A) → s ++ [] ≡ s
  append_nil [] = refl
  append_nil (x ∷ s) = ap (λ l. x ∷ l) (append_nil s)

  push_within :
      (elements s : List A)
      → length s + length elements ≤ stack_limit
      → push elements s ≡ some (s ++ elements)
  unfolding push
  push_within elements s h = ground (arith, h)

  pop_top : (elements s : List A) → pop (length elements) (s ++ elements) ≡ some (elements, s)
  unfolding pop
  pop_top [] s = ap (λ l. some ([], l)) (append_nil s)
  pop_top (x ∷ e) s =
      let h : length s + suc (length e) - suc (length e) ≡ length s = omega arith in
      rw (length-append s (x ∷ e), h, take-length_append s (x ∷ e), drop-length_append s (x ∷ e))
        (ground arith)

  -- What is pushed within the limit is popped again, in its order, and the stack is as before.
  pub pop-push :
      (elements s : List A)
      → length s + length elements ≤ stack_limit
      → elim (push elements s) [ none ↦ none | some t ↦ pop (length elements) t ]
        ≡ some (elements, s)
  pop-push elements s h = rw (push_within elements s h) (pop_top elements s)
