-- ===== src/Contract/Encoding.antt =====
-- contract/encoding.go: the arguments of an event from its log. Unpack, which decodes the data of a
-- log, and ReadInteger are go-ethereum's. A topic is a word, known by its number.
pub mod Typed
use erebus_redgiant.Prelude.{
  ℕ, suc, ◌^◌, ◌%◌, Bool, true, false, Option, none, some, List, [], ◌∷◌, ◌==◌, leb, if◌then◌else◌,
  Address, Hash, drop,
}
use erebus_redgiant.Prelude.Int.{ℤ}
use erebus_redgiant.Prelude.Outcome.{Outcome, ok, err, ◌>>=◌}

-- abi.Type; integers with their bits, fixed bytes with their size.
pub data AbiType : Type 0 where
  int_ty : ℕ → AbiType
  uint_ty : ℕ → AbiType
  bool_ty : AbiType
  address_ty : AbiType
  hash_ty : AbiType
  fixed_bytes_ty : ℕ → AbiType
  bytes_ty : AbiType
  slice_ty : AbiType → AbiType

-- What stands behind an interface{}: `integer` is a *big.Int, `word` the bytes of a topic.
pub data Value : Type 0 where
  nil : Value
  integer : ℤ → Value
  machine_integer : ℤ → Value
  boolean : Bool → Value
  address : Address → Value
  hash : Hash → Value
  word : Hash → Value
  bytes : List ℕ → Value
  integers : List ℤ → Value
  other : ℕ → Value

pub record Input : Type 0 where
  pub indexed : Bool
  pub typ : AbiType

-- types.Log
pub record Log : Type 0 where
  pub address : Address
  pub topics : List Hash
  pub payload : List ℕ

pub data ParseError : Type 0 where
  unpack_failed : ParseError
  not_enough_topics : ParseError
  not_enough_arguments : ParseError
  bad_bool : ParseError

-- Inputs.NonIndexed
unfoldable pub non_indexed : List Input → List Input
non_indexed [] = []
non_indexed (i ∷ inputs) = let rest = non_indexed inputs in if i.indexed then rest else i ∷ rest

-- The first 31 bytes are zero, and the last one is 0 or 1.
unfoldable pub read_bool : Hash → Outcome ParseError Bool
read_bool data_word =
    if data_word == 0 then ok false else if data_word == 1 then ok true else err ParseError.bad_bool

-- The entry at the index that a loop has reached, with those after it.
unfoldable pub first : {A : Type 0} → ParseError → List A → Outcome ParseError (A × List A)
first e [] = err e
first e (a ∷ l) = ok (a, l)

module _ (unpack : List Input → List ℕ → Option (List Value))
    (read_integer : AbiType → Hash → Value) where
  -- The switch on the type of an indexed argument. Types that do not fit in a topic give nil.
  unfoldable pub indexed_argument : AbiType → Hash → Outcome ParseError Value
  unfolding read_bool
  indexed_argument (int_ty n) topic = ok (read_integer (int_ty n) topic)
  indexed_argument (uint_ty n) topic = ok (read_integer (uint_ty n) topic)
  indexed_argument bool_ty topic = read_bool topic >>= λ b. ok (boolean b)
  indexed_argument address_ty topic = ok (Value.address (topic % 2 ^ 160))
  indexed_argument hash_ty topic = ok (Value.hash topic)
  indexed_argument (fixed_bytes_ty size) topic = ok (if leb size 32 then word topic else nil)
  indexed_argument bytes_ty topic = ok nil
  indexed_argument (slice_ty t) topic = ok nil

  -- The loop over the inputs, with the topics and the decoded values that are left.
  unfoldable pub merge_arguments :
      List Input → List Hash → List Value → Outcome ParseError (List Value)
  unfolding indexed_argument first
  merge_arguments [] topics values = ok []
  merge_arguments (i ∷ inputs) topics values = elim i.indexed [
    | true ↦ first ParseError.not_enough_topics topics >>= λ t.
        indexed_argument i.typ t.0 >>= λ arg.
        merge_arguments inputs t.1 values >>= λ args. ok (arg ∷ args)
    | false ↦ first ParseError.not_enough_arguments values >>= λ v.
        merge_arguments inputs topics v.1 >>= λ args. ok (v.0 ∷ args)
  ]

  unfoldable pub parse_event : List Input → Log → Outcome ParseError (List Value)
  unfolding non_indexed merge_arguments
  parse_event inputs log = elim (non_indexed inputs) [
    | [] ↦ merge_arguments inputs (drop 1 log.topics) []
    | i ∷ rest ↦ elim (unpack inputs log.payload) [
      | none ↦ err ParseError.unpack_failed
      | some values ↦ merge_arguments inputs (drop 1 log.topics) values
    ]
  ]
