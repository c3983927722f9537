-- ===== src/Contract/Encoding/Typed.antt =====
-- The arguments that ParseEvent returns have the types of the event.
use mathlib.Core.Path.{subst}
use erebus_redgiant.Prelude.{
  ℕ, ◌≡◌, ◌≢◌, refl, sym, ap, ◌∙◌, Bool, true, false, Option, some, inl, inr, Option-cases,
  Bool-cases, List, [], ◌∷◌, arith, Address, Hash, drop,
}
use erebus_redgiant.Prelude.Int.{ℤ}
use erebus_redgiant.Prelude.Outcome.{ok, panic, bound_ok, bind_ends, ok_injective}
use erebus_redgiant.Contract.Encoding.{
  AbiType, int_ty, uint_ty, bool_ty, address_ty, slice_ty, Value, integer, integers, Input, Log,
  ParseError, non_indexed, indexed_argument, merge_arguments, first, read_bool, parse_event,
}

-- A value of an argument that is an address, a uint256, or a list of uint256 in the data.
abbrev pub OfType : Bool → AbiType → Value → Type 0
OfType b (uint_ty n) v = n ≡ 256 → (x : ℤ) × (v ≡ integer x)
OfType b address_ty v = (a : Address) × (v ≡ Value.address a)
OfType b (slice_ty t) v = b ≡ false → t ≡ uint_ty 256 → (xs : List ℤ) × (v ≡ integers xs)
OfType b _ v = Unit

abbrev pub AllOfType : List Input → List Value → Type 0
AllOfType [] [] = Unit
AllOfType [] (v ∷ vs) = ⊥
AllOfType (i ∷ is) [] = ⊥
AllOfType (i ∷ is) (v ∷ vs) = OfType i.indexed i.typ v × AllOfType is vs

-- What go-ethereum says of Unpack: one value for every argument that is not indexed, of its type.
abbrev pub UnpackOfType : (List Input → List ℕ → Option (List Value)) → Type 0
UnpackOfType unpack =
    (inputs : List Input) (payload : List ℕ) (values : List Value)
    → unpack inputs payload ≡ some values
    → AllOfType (non_indexed inputs) values

-- What go-ethereum says of ReadInteger: a uint256 is a *big.Int.
abbrev pub ReadBigInt : (AbiType → Hash → Value) → Type 0
ReadBigInt read_integer = (topic : Hash) → (x : ℤ) × (read_integer (uint_ty 256) topic ≡ integer x)

module _ (unpack : List Input → List ℕ → Option (List Value))
    (read_integer : AbiType → Hash → Value) (read_big : ReadBigInt read_integer)
    (unpack_typed : UnpackOfType unpack) where
  uint_value :
      (n : ℕ) (topic : Hash) (v : Value) (x : ℤ)
      → indexed_argument unpack read_integer (uint_ty n) topic ≡ ok v
      → n ≡ 256
      → read_integer (uint_ty 256) topic ≡ integer x
      → v ≡ integer x
  unfolding indexed_argument
  uint_value n topic v x h e r =
      sym (ok_injective _ _ v refl h) ∙ ap (λ k. read_integer (uint_ty k) topic) e ∙ r

  indexed_argument-OfType :
      (t : AbiType) (topic : Hash) (v : Value)
      → indexed_argument unpack read_integer t topic ≡ ok v
      → OfType true t v
  unfolding indexed_argument
  indexed_argument-OfType (uint_ty n) topic v h =
      λ e. let (x, r) = read_big topic in (x, uint_value n topic v x h e r)
  indexed_argument-OfType address_ty topic v h = (_, sym (ok_injective _ _ v refl h))
  indexed_argument-OfType (slice_ty t) topic v h = λ e. absurd (ground (arith, e))
  indexed_argument-OfType _ topic v h = tt

  first-OfType :
      (i : Input) (is : List Input) (values : List Value) (v : Value × List Value)
      → i.indexed ≡ false
      → first ParseError.not_enough_arguments values ≡ ok v
      → AllOfType (non_indexed (i ∷ is)) values
      → OfType false i.typ v.0 × AllOfType (non_indexed is) v.1
  unfolding first non_indexed
  first-OfType i is [] v e f t = absurd (ground arith)
  first-OfType i is (x ∷ xs) v e f t =
      subst (λ (w : Value × List Value). OfType false i.typ w.0 × AllOfType (non_indexed is) w.1)
        (ok_injective _ (x, xs) v refl f) (rw e at t)

  merge_arguments-AllOfType :
      (inputs : List Input) (topics : List Hash) (values args : List Value)
      → merge_arguments unpack read_integer inputs topics values ≡ ok args
      → AllOfType (non_indexed inputs) values
      → AllOfType inputs args
  unfolding merge_arguments non_indexed
  merge_arguments-AllOfType [] topics values args h t = rw (sym (ok_injective _ _ args refl h)) tt
  merge_arguments-AllOfType (i ∷ is) topics values args h t = elim (Bool-cases i.indexed) [
    | inl e ↦
        let (c, _, k) = bound_ok (first ParseError.not_enough_topics topics) _ args (rw e at h) in
        let (arg, a, m) = bound_ok (indexed_argument unpack read_integer i.typ c.0) _ args k in
        let (rest, r, o) = bound_ok (merge_arguments unpack read_integer is c.1 values) _ args m in
        subst (AllOfType (i ∷ is)) (ok_injective _ (arg ∷ rest) args refl o) (
          rw e (indexed_argument-OfType i.typ c.0 arg a),
          merge_arguments-AllOfType is c.1 values rest r (rw e at t),
        )
    | inr e ↦
        let (v, f, k) =
          bound_ok (first ParseError.not_enough_arguments values) _ args (rw e at h) in
        let (rest, r, o) = bound_ok (merge_arguments unpack read_integer is topics v.1) _ args k in
        let typed = first-OfType i is values v e f t in
        subst (AllOfType (i ∷ is)) (ok_injective _ (v.0 ∷ rest) args refl o)
          (rw e typed.0, merge_arguments-AllOfType is topics v.1 rest r typed.1)
  ]

  parsed :
      (inputs ns : List Input) (log : Log) (args : List Value)
      → non_indexed inputs ≡ ns
      → parse_event unpack read_integer inputs log ≡ ok args
      → AllOfType inputs args
  unfolding parse_event
  parsed inputs [] log args e h =
      merge_arguments-AllOfType inputs (drop 1 log.topics) [] args (rw (e, parse_event) at h)
        (rw e tt)
  parsed inputs (i ∷ rest) log args e h = elim (Option-cases (unpack inputs log.payload)) [
    | inl u ↦ absurd (ground (arith, rw (e, u, parse_event) at h))
    | inr (values, u) ↦
        merge_arguments-AllOfType inputs (drop 1 log.topics) values args
          (rw (e, u, parse_event) at h) (unpack_typed inputs log.payload values u)
  ]

  -- ParseEvent returns one value for every argument, of its type.
  pub parse_event-AllOfType :
      (inputs : List Input) (log : Log) (args : List Value)
      → parse_event unpack read_integer inputs log ≡ ok args
      → AllOfType inputs args
  parse_event-AllOfType inputs log args h = parsed inputs (non_indexed inputs) log args refl h

  argument_ends :
      (t : AbiType) (topic : Hash) → indexed_argument unpack read_integer t topic ≢ panic
  unfolding indexed_argument read_bool
  argument_ends (int_ty n) topic = λ h. absurd (ground (arith, h))
  argument_ends bool_ty topic = λ h. absurd (ground (arith, h))
  argument_ends _ topic = λ h. absurd (ground (arith, h))

  first_ends : {A : Type 0} (e : ParseError) (l : List A) → first e l ≢ panic
  unfolding first
  first_ends e [] = λ h. absurd (ground arith)
  first_ends e (x ∷ l) = λ h. absurd (ground arith)

  merge_ends :
      (inputs : List Input) (topics : List Hash) (values : List Value)
      → merge_arguments unpack read_integer inputs topics values ≢ panic
  unfolding merge_arguments
  merge_ends [] topics values = λ h. absurd (ground (arith, h))
  merge_ends (i ∷ is) topics values = λ h. elim (Bool-cases i.indexed) [
    | inl e ↦
        bind_ends (first ParseError.not_enough_topics topics) _ (first_ends _ topics)
          (λ t.
            bind_ends (indexed_argument unpack read_integer i.typ t.0) _ (argument_ends i.typ t.0)
              (λ arg.
                bind_ends (merge_arguments unpack read_integer is t.1 values) _
                  (merge_ends is t.1 values) (λ args k. absurd (ground (arith, k)))))
          (rw e at h)
    | inr e ↦
        bind_ends (first ParseError.not_enough_arguments values) _ (first_ends _ values)
          (λ v.
            bind_ends (merge_arguments unpack read_integer is topics v.1) _
              (merge_ends is topics v.1) (λ args k. absurd (ground (arith, k))))
          (rw e at h)
  ]

  -- ParseEvent does not panic.
  pub parse_event-ends :
      (inputs : List Input) (log : Log) → parse_event unpack read_integer inputs log ≢ panic
  unfolding parse_event
  parse_event-ends inputs log = λ h. ends (non_indexed inputs) refl h
    where
      ends :
          (ns : List Input)
          → non_indexed inputs ≡ ns
          → parse_event unpack read_integer inputs log ≡ panic
          → ⊥
      ends [] e h = merge_ends inputs (drop 1 log.topics) [] (rw (e, parse_event) at h)
      ends (i ∷ rest) e h = elim (Option-cases (unpack inputs log.payload)) [
        | inl u ↦ absurd (ground (arith, rw (e, u, parse_event) at h))
        | inr (values, u) ↦
            merge_ends inputs (drop 1 log.topics) values (rw (e, u, parse_event) at h)
      ]
