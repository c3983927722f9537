-- ===== src/Chain/Cached.antt =====
-- cachedBlockchainReader of chain/readers/cached.go: the five reads that it caches. The source and
-- bigcache are parameters; an error is `none`. A key is the list of what Sprintf joins with colons.
-- Block numbers are not nil.
pub mod Queries
pub mod Coherence
mod Tests
use erebus_redgiant.Prelude.{
  ℕ, ◌%◌, ◌^◌, Option, none, some, List, [], ◌∷◌, if◌then◌else◌, Address, Hash,
}

-- What the reader uses of chain.BlockchainReader, by account and block number.
pub record Source : Type 0 where
  pub balance_at : Address → ℕ → Option ℕ
  pub storage_at : Address → Hash → ℕ → Option (List ℕ)
  pub code_at : Address → ℕ → Option (List ℕ)
  pub nonce_at : Address → ℕ → Option ℕ
  pub block_hash_by_number : ℕ → Option Hash

-- What it uses of bigcache, for a cache of the type `C`.
pub record BigCache (C : Type 0) : Type 0 where
  pub get : List ℕ → C → Option (List ℕ)
  pub set : List ℕ → List ℕ → C → Option C

-- Bytes and SetBytes of big.Int, and Bytes and BytesToHash of common.Hash.
pub record Codec : Type 0 where
  pub to_bytes : ℕ → List ℕ
  pub of_bytes : List ℕ → ℕ
  pub hash_to_bytes : Hash → List ℕ
  pub bytes_to_hash : List ℕ → Hash

pub record CachedReader (C : Type 0) : Type 0 where
  pub block_hashes : C
  pub balances : C
  pub codes : C
  pub nonces : C
  pub storages : C

-- Five caches of the same configuration, new ones; NewBigCache does not fail for it.
abbrev pub new_cached_blockchain_reader : {C : Type 0} → C → CachedReader C
new_cached_blockchain_reader c = record {
  block_hashes = c;
  balances = c;
  codes = c;
  nonces = c;
  storages = c;
}

-- blockNumber.Uint64()
abbrev pub uint64 : ℕ → ℕ
uint64 n = n % 2 ^ 64

module _ {C : Type 0} (cache : BigCache C) where
  -- The answer of the cache; without one, that of the source, which is put into the cache. Where
  -- Set fails, its error is the answer.
  unfoldable pub read_through :
      {A : Type 0} → (A → List ℕ) → (List ℕ → A) → List ℕ → Option A → C → Option A × C
  read_through encode decode key source c = elim (cache.get key c) [
    | some entry ↦ (some (decode entry), c)
    | none ↦ elim source [
      | none ↦ (none, c)
      | some v ↦ elim (cache.set key (encode v) c) [ none ↦ (none, c) | some c' ↦ (some v, c') ]
    ]
  ]

  module _ (source : Source) (codec : Codec) where
    unfoldable pub balance_at : Address → ℕ → CachedReader C → Option ℕ × CachedReader C
    unfolding read_through
    balance_at account block r =
        let answer =
          read_through codec.to_bytes codec.of_bytes (uint64 block ∷ account ∷ [])
            (source.balance_at account block) r.balances in
        (answer.0, record r { balances = answer.1 })

    unfoldable pub storage_at :
        Address → Hash → ℕ → CachedReader C → Option (List ℕ) × CachedReader C
    unfolding read_through
    storage_at account slot block r =
        let answer =
          read_through (λ v. v) (λ v. v) (uint64 block ∷ account ∷ slot ∷ [])
            (source.storage_at account slot block) r.storages in
        (answer.0, record r { storages = answer.1 })

    unfoldable pub code_at : Address → ℕ → CachedReader C → Option (List ℕ) × CachedReader C
    unfolding read_through
    code_at account block r =
        let answer =
          read_through (λ v. v) (λ v. v) (uint64 block ∷ account ∷ [])
            (source.code_at account block) r.codes in
        (answer.0, record r { codes = answer.1 })

    unfoldable pub nonce_at : Address → ℕ → CachedReader C → Option ℕ × CachedReader C
    unfolding read_through
    nonce_at account block r =
        let answer =
          read_through codec.to_bytes (λ entry. uint64 (codec.of_bytes entry))
            (uint64 block ∷ account ∷ []) (source.nonce_at account block) r.nonces in
        (answer.0, record r { nonces = answer.1 })

    unfoldable pub block_hash_by_number : ℕ → CachedReader C → Option Hash × CachedReader C
    unfolding read_through
    block_hash_by_number block r =
        let answer =
          read_through codec.hash_to_bytes codec.bytes_to_hash (uint64 block ∷ [])
            (source.block_hash_by_number block) r.block_hashes in
        (answer.0, record r { block_hashes = answer.1 })
