-- ===== src/Tracers/Position/Order.antt =====
-- `Cmp` of call_position.go is a strict total order with equality.
use erebus_redgiant.Prelude.{ℕ, zero, suc, ◌≡◌, refl, [], ◌∷◌, ◌++◌, arith}
use erebus_redgiant.Prelude.Int.{ℤ, pos, negsuc}
use erebus_redgiant.Tracers.Position.{Position, cmp}

-- The sign of a comparison turned round.
abbrev pub opposite : ℤ → ℤ
opposite (pos zero) = pos 0
opposite (pos (suc n)) = negsuc n
opposite (negsuc n) = pos (suc n)

pub cmp_refl : (p : Position) → cmp p p ≡ pos 0
unfolding cmp
cmp_refl [] = refl
cmp_refl (i ∷ p) = ground (arith, cmp_refl p)

-- Turning the arguments round turns the sign round.
pub cmp-opposite : (p q : Position) → cmp q p ≡ opposite (cmp p q)
unfolding cmp
cmp-opposite [] [] = refl
cmp-opposite [] (j ∷ q) = refl
cmp-opposite (i ∷ p) [] = refl
cmp-opposite (i ∷ p) (j ∷ q) = ground (arith, cmp-opposite p q)

pub eq_of_cmp : (p q : Position) → cmp p q ≡ pos 0 → p ≡ q
unfolding cmp
eq_of_cmp [] [] h = refl
eq_of_cmp [] (j ∷ q) h = cc
eq_of_cmp (i ∷ p) [] h = cc
eq_of_cmp (i ∷ p) (j ∷ q) h = ground (arith, eq_of_cmp p q)

pub cmp_trans : (p q r : Position) → cmp p q ≡ negsuc 0 → cmp q r ≡ negsuc 0 → cmp p r ≡ negsuc 0
unfolding cmp
cmp_trans [] [] r h k = cc
cmp_trans [] (j ∷ q) [] h k = cc
cmp_trans [] (j ∷ q) (l ∷ r) h k = refl
cmp_trans (i ∷ p) [] r h k = cc
cmp_trans (i ∷ p) (j ∷ q) [] h k = cc
cmp_trans (i ∷ p) (j ∷ q) (l ∷ r) h k = ground (arith, cmp_trans p q r)

-- A position before which another stands is not before that other.
pub cmp_asym : (p q : Position) → cmp p q ≡ negsuc 0 → cmp q p ≡ pos 1
cmp_asym p q h = ground (arith, cmp-opposite p q)

-- A common prefix does not count.
pub cmp-append : (p q r : Position) → cmp (p ++ q) (p ++ r) ≡ cmp q r
unfolding cmp
cmp-append [] q r = refl
cmp-append (i ∷ p) q r = ground (arith, cmp-append p q r)

-- A prefix stands before what extends it.
pub cmp-extend : (p : Position) (i : ℕ) (q : Position) → cmp p (p ++ i ∷ q) ≡ negsuc 0
unfolding cmp
cmp-extend [] i q = refl
cmp-extend (j ∷ p) i q = ground (arith, cmp-extend p i q)
