-- ===== src/Dataset/Involved.antt =====
-- InvolvedAddresses and NaiveOverlapWith of dataset/tx_history.go. Of a call summary, only the
-- addresses and the nested summaries are kept.
pub mod Overlap
use erebus_redgiant.Prelude.{
  ℕ, Bool, true, false, not, ◌&&◌, ◌||◌, Option, none, some, List, [], ◌∷◌, ◌++◌, ◌==◌,
  if◌then◌else◌, Address,
}

mutual
  pub data CallSummary : Type 0 where
    summary : Address → Address → Nested → CallSummary

  pub data Nested : Type 0 where
    no_calls : Nested
    nested : CallSummary → Nested → Nested

-- getAddresses
unfoldable mutual
  pub get_addresses : CallSummary → List Address
  get_addresses (summary caller callee calls) = caller ∷ callee ∷ get_all_addresses calls

  pub get_all_addresses : Nested → List Address
  get_all_addresses no_calls = []
  get_all_addresses (nested s calls) = get_addresses s ++ get_all_addresses calls

-- The map `included`, by the addresses that are in it.
unfoldable pub includes : Address → List Address → Bool
includes a [] = false
includes a (b ∷ l) = b == a || includes a l

-- The loop that removes duplicates.
unfoldable pub without_duplicates : List Address → List Address → List Address
without_duplicates included [] = []
without_duplicates included (a ∷ l) =
    let rest = without_duplicates (a ∷ included) l in
    let skipped = without_duplicates included l in if includes a included then skipped else a ∷ rest

-- A nil cache is none.
pub record TxRecord : Type 0 where
  pub is_pseudo : Bool
  pub tx_summary : CallSummary
  pub cached_addresses : Option (List Address)

-- The addresses, and the record with its cache.
unfoldable pub involved_addresses : TxRecord → List Address × TxRecord
involved_addresses r =
    let fresh = without_duplicates [] (get_addresses r.tx_summary) in
    if r.is_pseudo then ([], r) else elim r.cached_addresses [
      | none ↦ (fresh, record r { cached_addresses = some fresh })
      | some l ↦ (l, r)
    ]

-- The loop of NaiveOverlapWith.
unfoldable pub some_included : List Address → List Address → Bool
some_included included [] = false
some_included included (a ∷ l) =
    let rest = some_included included l in if includes a included then true else rest

unfoldable pub naive_overlap_with : TxRecord → TxRecord → Bool
naive_overlap_with r other =
    if r.is_pseudo
    then false
    else some_included (involved_addresses r).0 (involved_addresses other).0
