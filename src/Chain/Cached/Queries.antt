-- ===== src/Chain/Cached/Queries.antt =====
-- The questions that cachedBlockchainReader of chain/readers/cached.go answers, one type for its five
-- reads, and what it relies on.
use erebus_redgiant.Prelude.{
  ℕ, ◌^◌, ◌<◌, ◌≡◌, ◌≢◌, ◌⊎◌, Option, none, some, List, [], ◌∷◌, Address, Hash,
}
use erebus_redgiant.Chain.Cached.{
  Source, BigCache, Codec, CachedReader, balance_at, storage_at, code_at, nonce_at,
  block_hash_by_number,
}

-- A read of the reader.
pub data Query : Type 0 where
  balance : Address → ℕ → Query
  storage : Address → Hash → ℕ → Query
  code : Address → ℕ → Query
  nonce : Address → ℕ → Query
  block_hash : ℕ → Query

pub data Answer : Type 0 where
  number : ℕ → Answer
  bytes : List ℕ → Answer
  hash : Hash → Answer

unfoldable pub answered : {A : Type 0} → (A → Answer) → Option A → Option Answer
answered f none = none
answered f (some a) = some (f a)

unfoldable pub ask_source : Source → Query → Option Answer
unfolding answered
ask_source s (balance a b) = answered number (s.balance_at a b)
ask_source s (storage a k b) = answered bytes (s.storage_at a k b)
ask_source s (code a b) = answered bytes (s.code_at a b)
ask_source s (nonce a b) = answered number (s.nonce_at a b)
ask_source s (block_hash b) = answered hash (s.block_hash_by_number b)

-- The block number of a read is a uint64.
abbrev pub block_of : Query → ℕ
block_of (balance a b) = b
block_of (storage a k b) = b
block_of (code a b) = b
block_of (nonce a b) = b
block_of (block_hash b) = b

module _ {C : Type 0} (cache : BigCache C) (source : Source) (codec : Codec) where
  unfoldable pub ask : Query → CachedReader C → Option Answer × CachedReader C
  unfolding answered
  ask (balance a b) r = let x = balance_at cache source codec a b r in (answered number x.0, x.1)
  ask (storage a k b) r = let x = storage_at cache source codec a k b r in (answered bytes x.0, x.1)
  ask (code a b) r = let x = code_at cache source codec a b r in (answered bytes x.0, x.1)
  ask (nonce a b) r = let x = nonce_at cache source codec a b r in (answered number x.0, x.1)
  ask (block_hash b) r =
      let x = block_hash_by_number cache source codec b r in (answered hash x.0, x.1)

  -- The answers to a sequence of reads.
  unfoldable pub answers : List Query → CachedReader C → List (Option Answer)
  answers [] r = []
  answers (q ∷ qs) r = let x = ask q r in x.0 ∷ answers qs x.1

-- The block numbers of all the reads.
abbrev pub AllBelow : List Query → Type 0
AllBelow [] = Unit
AllBelow (q ∷ qs) = (block_of q < 2 ^ 64) × AllBelow qs

-- A cache that holds nothing.
abbrev pub IsFresh : {C : Type 0} → BigCache C → C → Type 0
IsFresh cache c = (key : List ℕ) → cache.get key c ≡ none

-- What bigcache under DefaultConfig, which has no hard limit, and the codecs promise. An entry that
-- Get gives was put there by Set under that key; entries may be dropped.
pub record Laws {C : Type 0} (cache : BigCache C) (source : Source) (codec : Codec) : Type 0 where
  pub set_total : (k v : List ℕ) (c : C) → cache.set k v c ≢ none
  pub get-set :
      (k v j w : List ℕ) (c d : C)
      → cache.set k v c ≡ some d
      → cache.get j d ≡ some w
      → ((j ≡ k) × (w ≡ v)) ⊎ (cache.get j c ≡ some w)
  pub of-to : (n : ℕ) → codec.of_bytes (codec.to_bytes n) ≡ n
  pub hash-bytes : (h : Hash) → codec.bytes_to_hash (codec.hash_to_bytes h) ≡ h
  pub nonce_below : (a : Address) (b n : ℕ) → source.nonce_at a b ≡ some n → n < 2 ^ 64
