-- ===== src/Summary/Events/Arguments.antt =====
-- Transfers from a log, and the arguments of its event, for LogToTransfers of transfer.go.
use mathlib.Core.Path.{subst}
use erebus_redgiant.Prelude.{
  ℕ, zero, suc, ◌≤◌, ◌<◌, ◌≡◌, refl, Bool, true, false, ◌⊎◌, inr, Option, some, List, [], ◌∷◌,
  arith, ◌==◌, if◌then◌else◌, get_elem?, length, Address,
}
use erebus_redgiant.Prelude.Int.{ℤ}
use erebus_redgiant.Prelude.Outcome.{ok, err, panic}
use erebus_redgiant.Tracers.Call.{Location}
use erebus_redgiant.Contract.Encoding.{uint_ty, address_ty, slice_ty, Value, Input}
use erebus_redgiant.Contract.Encoding.Typed.{OfType, AllOfType}
use erebus_redgiant.Summary.Transfer.{
  Transfer, ether_transfer, erc20_transfer, erc777_transfer, erc721_transfer, erc1155_transfer,
}
use erebus_redgiant.Summary.Events.{
  data_of, TransferError, Result, address_at, big_int_at, big_ints_at, batch_transfers,
}

-- A transfer of a token of the contract, recorded at the location.
abbrev pub IsFrom : Address → Option Location → Transfer → Type 0
IsFrom c l (ether_transfer f) = ⊥
IsFrom c l (erc20_transfer f d) = (d ≡ c) × (f.contract_location ≡ l)
IsFrom c l (erc777_transfer f d) = (d ≡ c) × (f.contract_location ≡ l)
IsFrom c l (erc721_transfer a b d t m) = (d ≡ c) × (m ≡ l)
IsFrom c l (erc1155_transfer f d t) = (d ≡ c) × (f.contract_location ≡ l)

abbrev pub AllFrom : Address → Option Location → List Transfer → Type 0
AllFrom c l [] = Unit
AllFrom c l (t ∷ ts) = IsFrom c l t × AllFrom c l ts

value_at :
    (inputs : List Input) (args : List Value) (k : ℕ) (i : Input)
    → AllOfType inputs args
    → get_elem? inputs k ≡ some i
    → (v : Value) × (get_elem? args k ≡ some v) × OfType i.indexed i.typ v
value_at [] args k i t e = absurd (ground arith)
value_at (j ∷ is) [] k i t e = absurd t
value_at (j ∷ is) (v ∷ vs) zero i t e =
    let same : j ≡ i = cc in (v, refl, subst (λ (x : Input). OfType x.indexed x.typ v) same t.0)
value_at (j ∷ is) (v ∷ vs) (suc k) i t e = value_at is vs k i t.1 e

pub has_address :
    (inputs : List Input) (args : List Value) (k : ℕ) (b : Bool)
    → AllOfType inputs args
    → get_elem? inputs k ≡ some (record { indexed = b; typ = address_ty })
    → (a : Address) × (address_at args k ≡ ok a)
unfolding address_at
has_address inputs args k b t e =
    let (v, f, (a, o)) = value_at inputs args k _ t e in (a, rw (f, o, address_at) refl)

pub has_integer :
    (inputs : List Input) (args : List Value) (k : ℕ) (b : Bool)
    → AllOfType inputs args
    → get_elem? inputs k ≡ some (record { indexed = b; typ = uint_ty 256 })
    → (x : ℤ) × (big_int_at args k ≡ ok x)
unfolding big_int_at
has_integer inputs args k b t e =
    let (v, f, o) = value_at inputs args k _ t e in
    let (x, q) = o refl in (x, rw (f, q, big_int_at) refl)

pub has_integers :
    (inputs : List Input) (args : List Value) (k : ℕ)
    → AllOfType inputs args
    → get_elem? inputs k ≡ some (data_of (slice_ty (uint_ty 256)))
    → (xs : List ℤ) × (big_ints_at args k ≡ ok xs)
unfolding big_ints_at
has_integers inputs args k t e =
    let (v, f, o) = value_at inputs args k _ t e in
    let (xs, q) = o refl refl in (xs, rw (f, q, big_ints_at) refl)

-- The log is recognised, or it is no transfer; a log that is recognised gives transfers of its
-- own contract, at its own location.
unfoldable pub IsRecognised : Address → Option Location → Result (List Transfer) → Type 0
IsRecognised c l r =
    (r ≡ err TransferError.not_transfer) ⊎ ((ts : List Transfer) × (r ≡ ok ts) × AllFrom c l ts)

pub one :
    (c : Address) (l : Option Location) (t : Transfer) (r : Result (List Transfer))
    → IsFrom c l t
    → r ≡ ok (t ∷ [])
    → IsRecognised c l r
unfolding IsRecognised
one c l t r h e = inr (t ∷ [], e, (h, tt))

pub self_eq : (n : ℕ) → (n == n) ≡ true
self_eq n = ground arith

pub batch-AllFrom :
    (c : Address) (l : Option Location) (make : ℤ → ℤ → Transfer) (ids values : List ℤ)
    → ((id v : ℤ) → IsFrom c l (make id v))
    → length ids ≤ length values
    → (ts : List Transfer) × (batch_transfers make ids values ≡ ok ts) × AllFrom c l ts
unfolding batch_transfers
batch-AllFrom c l make [] values h le = ([], refl, tt)
batch-AllFrom c l make (id ∷ ids) [] h le = absurd (omega arith)
batch-AllFrom c l make (id ∷ ids) (v ∷ values) h le =
    let (ts, e, a) = batch-AllFrom c l make ids values h (omega arith) in
    (make id v ∷ ts, rw e refl, (h id v, a))

pub batch_short :
    (make : ℤ → ℤ → Transfer) (ids values : List ℤ)
    → length values < length ids
    → batch_transfers make ids values ≡ panic
unfolding batch_transfers
batch_short make [] values lt = absurd (omega arith)
batch_short make (id ∷ ids) [] lt = refl
batch_short make (id ∷ ids) (v ∷ values) lt = rw (batch_short make ids values (omega arith)) refl

pub either :
    (c : Address) (l : Option Location) (b : Bool) (r s : Result (List Transfer))
    → IsRecognised c l r
    → IsRecognised c l s
    → IsRecognised c l (if b then r else s)
either c l true r s h k = h
either c l false r s h k = k
