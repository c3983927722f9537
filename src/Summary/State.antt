-- ===== src/Summary/State.antt =====
-- analysis/summary/state.go: the state variables that a call defines or uses, and lists of them. A
-- location is known by its number; none is nil. Hashes and code are copied with their values.
pub mod Lists
pub mod Intersection
use erebus_redgiant.Prelude.{
  ℕ, suc, ◌≡◌, Bool, true, false, ◌&&◌, Option, none, some, List, [], ◌∷◌, ◌++◌, ◌==◌,
  if◌then◌else◌, Address, Hash,
}
use erebus_redgiant.Prelude.Int.{ℤ, pos, negsuc}

-- StateVarType.
pub data StateVarType : Type 0 where
  balance_var : StateVarType
  storage_var : StateVarType
  code_var : StateVarType

pub record StorageVariable : Type 0 where
  pub address : Address
  pub storage : Hash
  pub value : Hash
  pub location : Option ℕ

pub record BalanceVariable : Type 0 where
  pub address : Address
  pub value : ℤ
  pub location : Option ℕ

pub record CodeVariable : Type 0 where
  pub address : Address
  pub op : ℕ
  pub code : List ℕ
  pub code_size : ℤ
  pub code_hash : Hash
  pub location : Option ℕ

-- The types that implement the interface.
pub data StateVariable : Type 0 where
  of_storage : StorageVariable → StateVariable
  of_balance : BalanceVariable → StateVariable
  of_code : CodeVariable → StateVariable

abbrev pub StateVariables : Type 0
StateVariables = List StateVariable

unfoldable pub type_of : StateVariable → StateVarType
type_of (of_storage s) = storage_var
type_of (of_balance b) = balance_var
type_of (of_code c) = code_var

unfoldable pub location_of : StateVariable → Option ℕ
location_of (of_storage s) = s.location
location_of (of_balance b) = b.location
location_of (of_code c) = c.location

unfoldable pub same_storage : StorageVariable → StateVariable → Bool
same_storage s (of_storage t) = s.address == t.address && s.storage == t.storage
same_storage s _ = false

unfoldable pub same_balance : BalanceVariable → StateVariable → Bool
same_balance b (of_balance c) = b.address == c.address
same_balance b _ = false

unfoldable pub same_code : CodeVariable → StateVariable → Bool
same_code c (of_code d) = c.address == d.address
same_code c _ = false

unfoldable pub same : StateVariable → StateVariable → Bool
unfolding same_storage same_balance same_code
same (of_storage s) w = same_storage s w
same (of_balance b) w = same_balance b w
same (of_code c) w = same_code c w

-- bytes.Equal
abbrev pub equal_bytes : List ℕ → List ℕ → Bool
equal_bytes [] [] = true
equal_bytes [] (y ∷ ys) = false
equal_bytes (x ∷ xs) [] = false
equal_bytes (x ∷ xs) (y ∷ ys) = x == y && equal_bytes xs ys

-- big.Int.Cmp is 0, and == of ints.
abbrev pub equal_ints : ℤ → ℤ → Bool
equal_ints (pos m) (pos n) = m == n
equal_ints (negsuc m) (negsuc n) = m == n
equal_ints _ _ = false

unfoldable pub equal_storage : StorageVariable → StateVariable → Bool
unfolding same_storage
equal_storage s (of_storage t) = same_storage s (of_storage t) && s.value == t.value
equal_storage s _ = false

unfoldable pub equal_balance : BalanceVariable → StateVariable → Bool
unfolding same_balance
equal_balance b (of_balance c) = same_balance b (of_balance c) && equal_ints b.value c.value
equal_balance b _ = false

unfoldable pub equal_code : CodeVariable → StateVariable → Bool
unfolding same_code
equal_code c (of_code d) =
    same_code c (of_code d)
    && equal_bytes c.code d.code
    && equal_ints c.code_size d.code_size
    && c.code_hash == d.code_hash
equal_code c _ = false

unfoldable pub equal_variables : StateVariable → StateVariable → Bool
unfolding equal_storage equal_balance equal_code
equal_variables (of_storage s) w = equal_storage s w
equal_variables (of_balance b) w = equal_balance b w
equal_variables (of_code c) w = equal_code c w

unfoldable pub copy_storage : StorageVariable → StateVariable
copy_storage s = of_storage s

unfoldable pub copy_balance : BalanceVariable → StateVariable
copy_balance b = of_balance b

-- The copy has the zero opcode.
unfoldable pub copy_code : CodeVariable → StateVariable
copy_code c = of_code (record c { op = 0 })

unfoldable pub copy_variable : StateVariable → StateVariable
unfolding copy_storage copy_balance copy_code
copy_variable (of_storage s) = copy_storage s
copy_variable (of_balance b) = copy_balance b
copy_variable (of_code c) = copy_code c

-- The loop of IntersectWith over the other list, for one variable: the pairs it adds.
unfoldable pub matches_of : StateVariable → StateVariables → StateVariables × StateVariables
matches_of v [] = ([], [])
matches_of v (w ∷ other) =
    let rest = matches_of v other in if same v w then (v ∷ rest.0, w ∷ rest.1) else rest

unfoldable pub intersect_with : StateVariables → StateVariables → StateVariables × StateVariables
intersect_with [] other = ([], [])
intersect_with (v ∷ vs) other =
    let first = matches_of v other in
    let rest = intersect_with vs other in (first.0 ++ rest.0, first.1 ++ rest.1)

-- One round of AddWithOverride; the element was copied before.
unfoldable pub override_one : StateVariables → StateVariable → StateVariables
override_one [] elem = elem ∷ []
override_one (e ∷ vs) elem =
    let rest = override_one vs elem in if same e elem then elem ∷ vs else e ∷ rest

unfoldable pub add_with_override : StateVariables → StateVariables → StateVariables
add_with_override vs [] = vs
add_with_override vs (elem ∷ elems) = add_with_override (override_one vs (copy_variable elem)) elems

-- One round of AddIfAbsent; the element was copied before.
unfoldable pub add_one_absent : StateVariables → StateVariable → StateVariables
add_one_absent [] elem = elem ∷ []
add_one_absent (e ∷ vs) elem =
    let rest = add_one_absent vs elem in if same e elem then e ∷ vs else e ∷ rest

unfoldable pub add_if_absent : StateVariables → StateVariables → StateVariables
add_if_absent vs [] = vs
add_if_absent vs (elem ∷ elems) = add_if_absent (add_one_absent vs (copy_variable elem)) elems
