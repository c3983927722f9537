-- ===== src/Tracers/Position.antt =====
-- dyengine/tracers/call_position.go: the place of a message call in the call tree.
pub mod Order
pub mod Ancestors
use erebus_redgiant.Prelude.{
  ℕ, suc, ◌+◌, ◌≡◌, Bool, true, false, ◌&&◌, List, [], ◌∷◌, ltb, ◌==◌, if◌then◌else◌, length, take,
}
use erebus_redgiant.Prelude.Int.{ℤ, pos, negsuc}

-- `type position []int`; the entries are lengths of slices, so no entry is negative.
abbrev pub Position : Type 0
Position = List ℕ

pub record CallPosition : Type 0 where
  pub position : Position
  pub compact_position : Position

-- `i == 0`, on a comparison result.
abbrev pub is_zero : ℤ → Bool
is_zero (pos n) = n == 0
is_zero (negsuc n) = false

-- The number of levels, the root included.
unfoldable pub depth : Position → ℕ
depth p = length p + 1

-- The loop of `Cmp`: the index `i` walks both slices at once.
unfoldable pub cmp : Position → Position → ℤ
cmp [] [] = pos 0
cmp [] (j ∷ q) = negsuc 0
cmp (i ∷ p) [] = pos 1
cmp (i ∷ p) (j ∷ q) = if ltb i j then negsuc 0 else if ltb j i then pos 1 else cmp p q

unfoldable pub equal : Position → Position → Bool
unfolding cmp
equal p q = is_zero (cmp p q)

-- A slice `descendant[:len(p)]` is in range, since the guard has passed.
unfoldable pub ancestor_of : Position → Position → Bool
unfolding cmp
ancestor_of p descendant =
    if ltb (length p) (length descendant)
    then is_zero (cmp p (take (length p) descendant)) && ltb (length p) (length descendant)
    else false

unfoldable pub parent_of : Position → Position → Bool
unfolding cmp
parent_of p child =
    if ltb (length p) (length child)
    then is_zero (cmp p (take (length p) child)) && length child == length p + 1
    else false

-- The methods of CallPosition work on its full position; the compact one is only printed.
unfoldable pub is_root : CallPosition → Bool
unfolding depth
is_root p = depth p.position == 1

unfoldable pub call_depth : CallPosition → ℕ
unfolding depth
call_depth p = depth p.position

unfoldable pub call_ancestor_of : CallPosition → CallPosition → Bool
call_ancestor_of p d = ancestor_of p.position d.position

unfoldable pub call_parent_of : CallPosition → CallPosition → Bool
call_parent_of p c = parent_of p.position c.position

unfoldable pub call_cmp : CallPosition → CallPosition → ℤ
call_cmp p o = cmp p.position o.position

unfoldable pub call_equal : CallPosition → CallPosition → Bool
call_equal p o = equal p.position o.position
