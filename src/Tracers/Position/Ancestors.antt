-- ===== src/Tracers/Position/Ancestors.antt =====
-- `AncestorOf` and `ParentOf` of call_position.go against the call tree: an ancestor's position is
-- a proper prefix, a parent's position is the child's without its last entry.
use erebus_redgiant.Prelude.{
  ℕ, ◌+◌, ◌<◌, ◌≡◌, refl, sym, ◌↔◌, ap, true, [], ◌∷◌, ◌++◌, arith, length, take, length-append,
}
use erebus_redgiant.Tracers.Position.{Position, ancestor_of, parent_of}
use erebus_redgiant.Tracers.Position.Order.{cmp_refl, eq_of_cmp}

-- `q` is `p` followed by at least one more entry.
abbrev pub IsBelow : Position → Position → Type 0
IsBelow p q = (i : ℕ) × (r : Position) × (q ≡ p ++ i ∷ r)

take-length_append : (p q : Position) → take (length p) (p ++ q) ≡ p
take-length_append [] q = refl
take-length_append (i ∷ p) q = ap (λ l. i ∷ l) (take-length_append p q)

IsBelow-split : (p q : Position) → length p < length q → take (length p) q ≡ p → IsBelow p q
IsBelow-split [] [] h e = absurd (omega arith)
IsBelow-split [] (j ∷ q) h e = (j, q, refl)
IsBelow-split (i ∷ p) [] h e = absurd (omega arith)
IsBelow-split (i ∷ p) (j ∷ q) h e =
    let (k, r, s) = IsBelow-split p q (omega arith) (ground arith) in (k, r, ground arith)

ancestor_of-IsBelow : (p q : Position) → ancestor_of p q ≡ true → IsBelow p q
unfolding ancestor_of
ancestor_of-IsBelow p q h =
    IsBelow-split p q (ground arith) (sym (eq_of_cmp p (take (length p) q) (ground arith)))

IsBelow-ancestor_of : (p q : Position) → IsBelow p q → ancestor_of p q ≡ true
unfolding ancestor_of
IsBelow-ancestor_of p q (i, r, e) =
    let longer : length p < length q = omega (arith, ap length e, length-append p (i ∷ r)) in
    let same : take (length p) q ≡ p = rw e (take-length_append p (i ∷ r)) in
    rw same (ground (arith, cmp_refl p))

-- A position is an ancestor of exactly the positions that extend it by at least one entry.
pub ancestor_of_iff : (p q : Position) → (ancestor_of p q ≡ true) ↔ IsBelow p q
ancestor_of_iff p q = (ancestor_of-IsBelow p q, IsBelow-ancestor_of p q)

IsBelow-one : (p q : Position) → IsBelow p q → length q ≡ length p + 1 → (i : ℕ) × (q ≡ p ++ i ∷ [])
IsBelow-one p q (i, [], e) n = (i, e)
IsBelow-one p q (i, j ∷ r, e) n = absurd (omega (arith, ap length e, length-append p (i ∷ j ∷ r)))

parent_of-one : (p q : Position) → parent_of p q ≡ true → (i : ℕ) × (q ≡ p ++ i ∷ [])
unfolding parent_of ancestor_of
parent_of-one p q h = IsBelow-one p q (ancestor_of-IsBelow p q (ground arith)) (ground arith)

one-parent_of : (p q : Position) → ((i : ℕ) × (q ≡ p ++ i ∷ [])) → parent_of p q ≡ true
unfolding parent_of
one-parent_of p q (i, e) =
    let longer : length q ≡ length p + 1 = omega (arith, ap length e, length-append p (i ∷ [])) in
    let same : take (length p) q ≡ p = rw e (take-length_append p (i ∷ [])) in
    rw same (ground (arith, cmp_refl p))

-- A position is the parent of exactly the positions that extend it by one entry.
pub parent_of_iff : (p q : Position) → (parent_of p q ≡ true) ↔ ((i : ℕ) × (q ≡ p ++ i ∷ []))
parent_of_iff p q = (parent_of-one p q, one-parent_of p q)
