-- ===== src/DataFlow/Stack.antt =====
-- analysis/data_flow/stack.go: the shadow of the EVM stack, a slice with its top at the end. `none`
-- is the panic of a sanity check. Elements are nodes, or nil.
pub mod Laws
use erebus_redgiant.Prelude.{
  ℕ, suc, ◌+◌, ◌-◌, Bool, true, false, ◌&&◌, Option, none, some, List, [], ◌∷◌, ◌++◌, length,
  get_elem?, set, take, drop, ltb, leb, ◌==◌, if◌then◌else◌,
}

-- params.StackLimit.
abbrev pub stack_limit : ℕ
stack_limit = 1024

module _ {ℓ} {A : Type ℓ} where
  abbrev pub depth : List A → ℕ
  depth s = length s

  unfoldable pub push : List A → List A → Option (List A)
  push elements s =
      if leb (depth s + length elements) stack_limit then some (s ++ elements) else none

  -- The popped elements, their order kept, and the stack that is left.
  unfoldable pub pop : ℕ → List A → Option (List A × List A)
  pop n s =
      if n == 0
      then some ([], s)
      else if leb n (depth s)
      then some (drop (depth s - n) s, take (depth s - n) s)
      else none

  unfoldable pub peek : ℕ → List A → Option A
  peek i s = if ltb i (depth s) then get_elem? s (depth s - i - 1) else none

  unfoldable pub tail : ℕ → List A → Option (List A)
  tail n s = if leb n (depth s) then some (drop (depth s - n) s) else none

  abbrev pub swapped : List A → ℕ → Option A → Option A → Option (List A)
  swapped s position (some top) (some other) =
      some (set (set s (depth s - 1) other) (depth s - position - 1) top)
  swapped s position _ _ = none

  unfoldable pub swap : ℕ → List A → Option (List A)
  swap position s =
      if ltb 0 position && ltb position (depth s)
      then swapped s position (get_elem? s (depth s - 1)) (get_elem? s (depth s - position - 1))
      else none
