-- ===== src/Chain/Cached/Tests.antt =====
-- A run of the cached reader of chain/readers/cached.go, on a cache that is a list of entries.
use erebus_redgiant.Prelude.{
  ℕ, ◌+◌, ◌≡◌, refl, ◌⊎◌, inl, inr, Option, none, some, List, [], ◌∷◌, map, Bool, true, false,
  Bool-cases, ◌==◌, ==_iff, ◌&&◌, if◌then◌else◌, arith,
}
use erebus_redgiant.Chain.Cached.{Source, BigCache, Codec, new_cached_blockchain_reader}
use erebus_redgiant.Chain.Cached.Queries.{
  Query, balance, storage, code, nonce, block_hash, ask_source, answers, Laws,
}
use erebus_redgiant.Chain.Cached.Coherence.{answers_lem}

abbrev Entries : Type 0
Entries = List (List ℕ × List ℕ)

same_key : List ℕ → List ℕ → Bool
same_key [] [] = true
same_key [] (b ∷ ys) = false
same_key (a ∷ xs) [] = false
same_key (a ∷ xs) (b ∷ ys) = (a == b) && same_key xs ys

and_true : (a b : Bool) → (a && b) ≡ true → (a ≡ true) × (b ≡ true)
and_true a b h = ground arith

same_key-true : (j k : List ℕ) → same_key j k ≡ true → j ≡ k
unfolding same_key
same_key-true [] [] h = refl
same_key-true [] (b ∷ ys) h = absurd (ground arith)
same_key-true (a ∷ xs) [] h = absurd (ground arith)
same_key-true (a ∷ xs) (b ∷ ys) h =
    let (x, y) = and_true (a == b) (same_key xs ys) h in
    cc ((==_iff a b).0 x, same_key-true xs ys y)

entry_of : List ℕ → Entries → Option (List ℕ)
unfolding same_key
entry_of k [] = none
entry_of k ((j, v) ∷ rest) = let later = entry_of k rest in if same_key k j then some v else later

abbrev list_cache : BigCache Entries
list_cache = record { get = entry_of; set = λ k v c. some ((k, v) ∷ c) }

number_of : List ℕ → ℕ
number_of [] = 0
number_of (n ∷ ns) = n

abbrev digits : Codec
digits = record {
  to_bytes = λ n. n ∷ [];
  of_bytes = number_of;
  hash_to_bytes = λ h. h ∷ [];
  bytes_to_hash = number_of;
}

-- A chain without account 9.
abbrev small_chain : Source
small_chain = record {
  balance_at = λ a b. if a == 9 then none else some (a + b);
  storage_at = λ a k b. some (a ∷ k ∷ b ∷ []);
  code_at = λ a b. some (a ∷ []);
  nonce_at = λ a b. some 3;
  block_hash_by_number = λ b. some (b + 100);
}

entry_of-cons :
    (k v j w : List ℕ) (c : Entries)
    → entry_of j ((k, v) ∷ c) ≡ some w
    → ((j ≡ k) × (w ≡ v)) ⊎ (entry_of j c ≡ some w)
unfolding entry_of
entry_of-cons k v j w c got = elim (Bool-cases (same_key j k)) [
  | inl same ↦ inl (same_key-true j k same, ground (arith, same))
  | inr other ↦ inr (ground (arith, other))
]

entry_of-put :
    (k v j w : List ℕ) (c d : Entries)
    → some ((k, v) ∷ c) ≡ some d
    → entry_of j d ≡ some w
    → ((j ≡ k) × (w ≡ v)) ⊎ (entry_of j c ≡ some w)
entry_of-put k v j w c d put got = entry_of-cons k v j w c (cc)

list_cache-Laws : Laws list_cache small_chain digits
unfolding number_of
list_cache-Laws = record {
  set_total = λ k v c h. absurd (ground arith);
  get-set = entry_of-put;
  of-to = λ n. refl;
  hash-bytes = λ h. refl;
  nonce_below = λ a b n h. ground arith;
}

abbrev reads : List Query
reads =
    balance 7 5
    ∷ balance 7 5
    ∷ balance 9 5
    ∷ storage 7 1 5
    ∷ storage 7 2 5
    ∷ storage 7 1 5
    ∷ code 7 5
    ∷ nonce 7 5
    ∷ nonce 7 5
    ∷ block_hash 5
    ∷ block_hash 5
    ∷ []

answers_lem_example :
    answers list_cache small_chain digits reads (new_cached_blockchain_reader [])
    ≡ map (ask_source small_chain) reads
unfolding entry_of
answers_lem_example =
    answers_lem list_cache small_chain digits list_cache-Laws reads [] (ground arith) (λ key. refl)
