-- ===== src/Dataset/Involved/Overlap.antt =====
-- When two records overlap.
use erebus_redgiant.Prelude.{
  ◌≡◌, ◌⊎◌, refl, sym, ◌∙◌, Bool, true, false, not, ◌&&◌, ◌||◌, none, some, List, [], ◌∷◌, ◌++◌,
  ◌↔◌, ◌==◌, arith, if◌then◌else◌, Address, Bool-cases, inl, inr,
}
use erebus_redgiant.Dataset.Involved.{
  CallSummary, Nested, summary, no_calls, nested, get_all_addresses, TxRecord, get_addresses,
  includes, without_duplicates, involved_addresses, some_included, naive_overlap_with,
}

includes-without_duplicates :
    (a : Address) (included l : List Address)
    → includes a (without_duplicates included l) ≡ (includes a l && not (includes a included))
unfolding includes without_duplicates
includes-without_duplicates a included [] = refl
includes-without_duplicates a included (b ∷ l) = elim (Bool-cases (includes b included)) [
  | inl h ↦ rw h (ground (arith, h, includes-without_duplicates a included l))
  | inr h ↦ rw h (ground (arith, h, includes-without_duplicates a (b ∷ included) l))
]

some_included_cons :
    (a : Address) (xs ys : List Address)
    → some_included (a ∷ xs) ys ≡ (includes a ys || some_included xs ys)
unfolding some_included includes
some_included_cons a xs [] = refl
some_included_cons a xs (y ∷ ys) = ground (arith, some_included_cons a xs ys)

some_included_comm : (xs ys : List Address) → some_included xs ys ≡ some_included ys xs
unfolding some_included includes
some_included_comm [] [] = refl
some_included_comm [] (y ∷ ys) = some_included_comm [] ys
some_included_comm (x ∷ xs) ys =
    some_included_cons x xs ys ∙ ground (arith, some_included_comm xs ys)

some_included_congr :
    (xs zs ys : List Address)
    → ((a : Address) → includes a xs ≡ includes a zs)
    → some_included xs ys ≡ some_included zs ys
unfolding some_included
some_included_congr xs zs [] h = refl
some_included_congr xs zs (y ∷ ys) h = rw (h y, some_included_congr xs zs ys h) refl

and_true : (b : Bool) → (b && true) ≡ b
and_true true = refl
and_true false = refl

included_same :
    (l : List Address) (a : Address) → includes a (without_duplicates [] l) ≡ includes a l
unfolding includes
included_same l a = includes-without_duplicates a [] l ∙ and_true (includes a l)

some_included-without_duplicates :
    (xs ys : List Address)
    → some_included (without_duplicates [] xs) (without_duplicates [] ys) ≡ some_included xs ys
some_included-without_duplicates xs ys =
    some_included_congr (without_duplicates [] xs) xs (without_duplicates [] ys) (included_same xs)
    ∙ some_included_comm xs (without_duplicates [] ys)
    ∙ some_included_congr (without_duplicates [] ys) ys xs (included_same ys)
    ∙ some_included_comm ys xs

-- The cache of a record is empty, or holds what would be computed.
abbrev pub IsCached : TxRecord → Type 0
IsCached r =
    (r.cached_addresses ≡ none)
    ⊎ (r.cached_addresses ≡ some (without_duplicates [] (get_addresses r.tx_summary)))

-- Whether two transactions share an address of a caller or of a called contract.
abbrev shares : TxRecord → TxRecord → Bool
shares r s = some_included (get_addresses r.tx_summary) (get_addresses s.tx_summary)

involved_lem :
    (r : TxRecord)
    → IsCached r
    → (involved_addresses r).0
      ≡ (if r.is_pseudo then [] else without_duplicates [] (get_addresses r.tx_summary))
unfolding involved_addresses
involved_lem r (inl h) = elim (Bool-cases r.is_pseudo) [
  | inl p ↦ rw p refl
  | inr p ↦ rw (p, h) refl
]
involved_lem r (inr h) = elim (Bool-cases r.is_pseudo) [
  | inl p ↦ rw p refl
  | inr p ↦ rw (p, h) refl
]

-- InvolvedAddresses leaves a cache that holds what would be computed.
pub involved_addresses-IsCached : (r : TxRecord) → IsCached r → IsCached (involved_addresses r).1
unfolding involved_addresses
involved_addresses-IsCached r (inl h) = elim (Bool-cases r.is_pseudo) [
  | inl p ↦ rw p (inl h)
  | inr p ↦ rw (p, h) (inr refl)
]
involved_addresses-IsCached r (inr h) = elim (Bool-cases r.is_pseudo) [
  | inl p ↦ rw p (inr h)
  | inr p ↦ rw (p, h) (inr h)
]

overlap-shares :
    (r s : TxRecord)
    → IsCached r
    → IsCached s
    → naive_overlap_with r s ≡ (not r.is_pseudo && not s.is_pseudo && shares r s)
unfolding naive_overlap_with some_included
overlap-shares r s h k = elim (Bool-cases r.is_pseudo) [
  | inl p ↦ rw p refl
  | inr p ↦ elim (Bool-cases s.is_pseudo) [
    | inl q ↦ rw (involved_lem r h, involved_lem s k, p, q) refl
    | inr q ↦
        rw (involved_lem r h, involved_lem s k, p, q)
          (some_included-without_duplicates (get_addresses r.tx_summary)
            (get_addresses s.tx_summary))
  ]
]

-- The caller or the callee of the call of the summary, or of a call below it.
unfoldable mutual
  pub Involves : CallSummary → Address → Type 0
  Involves (summary caller callee calls) a = (a ≡ caller) ⊎ ((a ≡ callee) ⊎ InvolvesBelow calls a)

  pub InvolvesBelow : Nested → Address → Type 0
  InvolvesBelow no_calls a = ⊥
  InvolvesBelow (nested s calls) a = Involves s a ⊎ InvolvesBelow calls a

includes-++ :
    (a : Address) (xs ys : List Address) → includes a (xs ++ ys) ≡ (includes a xs || includes a ys)
unfolding includes
includes-++ a [] ys = refl
includes-++ a (x ∷ xs) ys = ground (arith, includes-++ a xs ys)

either_iff :
    {P Q : Type 0} (b c : Bool) → ((b ≡ true) ↔ P) → ((c ≡ true) ↔ Q) → ((b || c) ≡ true) ↔ (P ⊎ Q)
either_iff true c p q = (λ h. inl (p.0 refl), λ h. refl)
either_iff false c p q =
    (λ h. inr (q.0 h), λ h. elim h [ inl x ↦ absurd (ground (arith, p.1 x)) | inr y ↦ q.1 y ])

same_iff : (b a : Address) → ((b == a) ≡ true) ↔ (a ≡ b)
same_iff b a = (λ h. ground (arith, h), λ h. ground (arith, h))

mutual
  unfolding includes get_addresses Involves

  includes-Involves :
      (s : CallSummary) (a : Address) → (includes a (get_addresses s) ≡ true) ↔ Involves s a
  includes-Involves (summary caller callee calls) a =
      either_iff (caller == a) (callee == a || includes a (get_all_addresses calls))
        (same_iff caller a)
        (either_iff (callee == a) (includes a (get_all_addresses calls)) (same_iff callee a)
          (includes-InvolvesBelow calls a))

  includes-InvolvesBelow :
      (c : Nested) (a : Address) → (includes a (get_all_addresses c) ≡ true) ↔ InvolvesBelow c a
  includes-InvolvesBelow no_calls a = (λ h. absurd (ground (arith, h)), λ h. absurd h)
  includes-InvolvesBelow (nested s calls) a =
      rw (includes-++ a (get_addresses s) (get_all_addresses calls)) (
        either_iff (includes a (get_addresses s)) (includes a (get_all_addresses calls))
          (includes-Involves s a) (includes-InvolvesBelow calls a))

some_included-common :
    (xs ys : List Address)
    → some_included xs ys ≡ true
    → (a : Address) × (includes a xs ≡ true) × (includes a ys ≡ true)
unfolding some_included includes
some_included-common xs [] h = absurd (ground arith)
some_included-common xs (y ∷ ys) h = elim (Bool-cases (includes y xs)) [
  | inl e ↦ (y, e, ground arith)
  | inr n ↦
      let (a, p, q) = some_included-common xs ys (ground (arith, h, n)) in (a, p, ground (arith, q))
]

common-some_included :
    (a : Address) (xs ys : List Address)
    → includes a xs ≡ true
    → includes a ys ≡ true
    → some_included xs ys ≡ true
unfolding some_included includes
common-some_included a xs [] h k = absurd (ground (arith, k))
common-some_included a xs (y ∷ ys) h k = elim (Bool-cases (y == a)) [
  | inl e ↦ let here : y ≡ a = ground (arith, e) in ground (arith, rw (sym here) at h)
  | inr n ↦ ground (arith, common-some_included a xs ys h (ground (arith, n, k)))
]

neither_pseudo :
    (p q b : Bool) → (not p && not q && b) ≡ true → (p ≡ false) × (q ≡ false) × (b ≡ true)
neither_pseudo p q b h = ground (arith, h)

-- Two records with caches that are empty or hold what would be computed overlap exactly where neither
-- is a pseudo transaction and some account is caller or callee of a call in both.
pub naive_overlap_with_iff :
    (r s : TxRecord)
    → IsCached r
    → IsCached s
    → (naive_overlap_with r s ≡ true) ↔ (
        (r.is_pseudo ≡ false)
        × (s.is_pseudo ≡ false)
        × ((a : Address) × Involves r.tx_summary a × Involves s.tx_summary a))
naive_overlap_with_iff r s h k = (
  λ e.
      let (p, q, shared) =
        neither_pseudo r.is_pseudo s.is_pseudo (shares r s) (sym (overlap-shares r s h k) ∙ e) in
      let (a, x, y) =
        some_included-common (get_addresses r.tx_summary) (get_addresses s.tx_summary) shared in
      (p, q, (a, (includes-Involves r.tx_summary a).0 x, (includes-Involves s.tx_summary a).0 y)),
  λ (p, q, (a, x, y)).
      overlap-shares r s h k
      ∙ rw (p, q)
          (common-some_included a (get_addresses r.tx_summary) (get_addresses s.tx_summary)
            ((includes-Involves r.tx_summary a).1 x) ((includes-Involves s.tx_summary a).1 y)),
)
