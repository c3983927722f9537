-- ===== src/Chain/Cached/Coherence.antt =====
-- The cached reader of chain/readers/cached.go answers as its source does.
use mathlib.Core.Path.{subst}
use erebus_redgiant.Prelude.{
  ℕ, ◌^◌, ◌<◌, ◌≡◌, refl, sym, ap, ◌∙◌, inl, inr, Option, none, some, Option-cases, List, [], ◌∷◌,
  map, arith, Hash,
}
use erebus_redgiant.Chain.Cached.Queries.{
  Query, balance, storage, code, nonce, block_hash, ask, ask_source, answered, answers, block_of,
  Laws, IsFresh, AllBelow,
}
use erebus_redgiant.Chain.Cached.{
  Source, BigCache, Codec, CachedReader, uint64, read_through, new_cached_blockchain_reader,
  balance_at, storage_at, code_at, nonce_at, block_hash_by_number,
}

module _ {C : Type 0} (cache : BigCache C) {A : Type 0} (decode : List ℕ → A)
    (says : List ℕ → Option A) where
  -- Every entry is what the source says to the question of its key.
  abbrev pub IsCoherent : C → Type 0
  IsCoherent c =
      (key entry : List ℕ) → cache.get key c ≡ some entry → says key ≡ some (decode entry)

  IsFresh-IsCoherent : (c : C) → IsFresh cache c → IsCoherent c
  IsFresh-IsCoherent c fresh key entry hit = absurd (ground (arith, fresh key))

  set-IsCoherent :
      (source : Source) (codec : Codec)
      → Laws cache source codec
      → (key entry : List ℕ) (c d : C) → cache.set key entry c ≡ some d
      → says key ≡ some (decode entry)
      → IsCoherent c
      → IsCoherent d
  set-IsCoherent source codec laws key entry c d put said h j w got =
      elim (laws.get-set key entry j w c d put got) [
        | inl (a, b) ↦
            subst (λ k. says k ≡ some (decode w)) (sym a)
              (subst (λ e. says key ≡ some (decode e)) (sym b) said)
        | inr old ↦ h j w old
      ]

  read_through-IsCoherent :
      (source : Source) (codec : Codec)
      → Laws cache source codec
      → (encode : A → List ℕ) (key : List ℕ) (c : C)
      → ((v : A) → says key ≡ some v → decode (encode v) ≡ v)
      → IsCoherent c
      → IsCoherent (read_through cache encode decode key (says key) c).1
        × ((read_through cache encode decode key (says key) c).0 ≡ says key)
  unfolding read_through
  read_through-IsCoherent source codec laws encode key c round h =
      elim (Option-cases (cache.get key c)) [
        | inr (entry, hit) ↦ rw (hit, read_through) (h, sym (h key entry hit))
        | inl miss ↦ elim (Option-cases (says key)) [
          | inl silent ↦ rw (miss, silent, read_through) (h, refl)
          | inr (v, said) ↦ elim (Option-cases (cache.set key (encode v) c)) [
            | inl full ↦ absurd (laws.set_total key (encode v) c full)
            | inr (d, put) ↦
                rw (miss, said, put, read_through)
                  (
                    set-IsCoherent source codec laws key (encode v) c d put
                        (said ∙ ap some (sym (round v said))) h,
                    refl,
                  )
          ]
        ]
      ]

uint64_small : (n : ℕ) → n < 2 ^ 64 → uint64 n ≡ n
uint64_small n h = omega (arith)

-- What the source says to the question of a key.
abbrev balance_says : Source → List ℕ → Option ℕ
balance_says s (b ∷ a ∷ []) = s.balance_at a b
balance_says s [] = none
balance_says s (b ∷ []) = none
balance_says s (b ∷ a ∷ x ∷ ks) = none

abbrev storage_says : Source → List ℕ → Option (List ℕ)
storage_says s (b ∷ a ∷ k ∷ []) = s.storage_at a k b
storage_says s [] = none
storage_says s (b ∷ []) = none
storage_says s (b ∷ a ∷ []) = none
storage_says s (b ∷ a ∷ k ∷ x ∷ ks) = none

abbrev code_says : Source → List ℕ → Option (List ℕ)
code_says s (b ∷ a ∷ []) = s.code_at a b
code_says s [] = none
code_says s (b ∷ []) = none
code_says s (b ∷ a ∷ x ∷ ks) = none

abbrev nonce_says : Source → List ℕ → Option ℕ
nonce_says s (b ∷ a ∷ []) = s.nonce_at a b
nonce_says s [] = none
nonce_says s (b ∷ []) = none
nonce_says s (b ∷ a ∷ x ∷ ks) = none

abbrev block_hash_says : Source → List ℕ → Option Hash
block_hash_says s (b ∷ []) = s.block_hash_by_number b
block_hash_says s [] = none
block_hash_says s (b ∷ a ∷ ks) = none

module _ {C : Type 0} (cache : BigCache C) (source : Source) (codec : Codec) where
  record AllCoherent (r : CachedReader C) : Type 0 where
    block_hashes : IsCoherent cache codec.bytes_to_hash (block_hash_says source) r.block_hashes
    balances : IsCoherent cache codec.of_bytes (balance_says source) r.balances
    codes : IsCoherent cache (λ v. v) (code_says source) r.codes
    nonces : IsCoherent cache (λ e. uint64 (codec.of_bytes e)) (nonce_says source) r.nonces
    storages : IsCoherent cache (λ v. v) (storage_says source) r.storages

  -- Every read answers as the source does, and leaves the caches in agreement with it.
  ask-AllCoherent :
      Laws cache source codec
      → (q : Query) (r : CachedReader C) → block_of q < 2 ^ 64
      → AllCoherent r
      → AllCoherent (ask cache source codec q r).1
        × ((ask cache source codec q r).0 ≡ ask_source source q)
  unfolding ask ask_source balance_at storage_at code_at nonce_at block_hash_by_number answered
  ask-AllCoherent laws (balance a b) r small h =
      let (kept, same) =
        read_through-IsCoherent cache codec.of_bytes (balance_says source) source codec laws
          codec.to_bytes (b ∷ a ∷ []) r.balances (λ v said. laws.of-to v) h.balances in
      rw (uint64_small b small, same)
        (
          record {
            block_hashes = h.block_hashes;
            balances = kept;
            codes = h.codes;
            nonces = h.nonces;
            storages = h.storages;
          },
          refl,
        )
  ask-AllCoherent laws (storage a k b) r small h =
      let (kept, same) =
        read_through-IsCoherent cache (λ v. v) (storage_says source) source codec laws (λ v. v)
          (b ∷ a ∷ k ∷ []) r.storages (λ v said. refl) h.storages in
      rw (uint64_small b small, same)
        (
          record {
            block_hashes = h.block_hashes;
            balances = h.balances;
            codes = h.codes;
            nonces = h.nonces;
            storages = kept;
          },
          refl,
        )
  ask-AllCoherent laws (code a b) r small h =
      let (kept, same) =
        read_through-IsCoherent cache (λ v. v) (code_says source) source codec laws (λ v. v)
          (b ∷ a ∷ []) r.codes (λ v said. refl) h.codes in
      rw (uint64_small b small, same)
        (
          record {
            block_hashes = h.block_hashes;
            balances = h.balances;
            codes = kept;
            nonces = h.nonces;
            storages = h.storages;
          },
          refl,
        )
  ask-AllCoherent laws (nonce a b) r small h =
      let (kept, same) =
        read_through-IsCoherent cache (λ e. uint64 (codec.of_bytes e)) (nonce_says source) source
          codec laws codec.to_bytes (b ∷ a ∷ []) r.nonces
          (λ v said. ap uint64 (laws.of-to v) ∙ uint64_small v (laws.nonce_below a b v said))
          h.nonces in
      rw (uint64_small b small, same)
        (
          record {
            block_hashes = h.block_hashes;
            balances = h.balances;
            codes = h.codes;
            nonces = kept;
            storages = h.storages;
          },
          refl,
        )
  ask-AllCoherent laws (block_hash b) r small h =
      let (kept, same) =
        read_through-IsCoherent cache codec.bytes_to_hash (block_hash_says source) source codec laws
          codec.hash_to_bytes (b ∷ []) r.block_hashes (λ v said. laws.hash-bytes v)
          h.block_hashes in
      rw (uint64_small b small, same)
        (
          record {
            block_hashes = kept;
            balances = h.balances;
            codes = h.codes;
            nonces = h.nonces;
            storages = h.storages;
          },
          refl,
        )

  answers-AllCoherent :
      Laws cache source codec
      → (qs : List Query) (r : CachedReader C) → AllBelow qs
      → AllCoherent r
      → answers cache source codec qs r ≡ map (ask_source source) qs
  unfolding answers
  answers-AllCoherent laws [] r small h = refl
  answers-AllCoherent laws (q ∷ qs) r (small, smalls) h =
      let (kept, same) = ask-AllCoherent laws q r small h in
      rw (same, answers-AllCoherent laws qs (ask cache source codec q r).1 smalls kept) refl

  -- For a bigcache whose Set does not fail and whose Get gives nothing but what Set put under that key,
  -- codecs that read back what they write, and nonces of the source that are uint64: every sequence of
  -- reads of a new reader, at block numbers that are uint64, is answered as the source answers it.
  pub answers_lem :
      Laws cache source codec
      → (qs : List Query) (c : C) → AllBelow qs
      → IsFresh cache c
      → answers cache source codec qs (new_cached_blockchain_reader c) ≡ map (ask_source source) qs
  answers_lem laws qs c small fresh =
      answers-AllCoherent laws qs (new_cached_blockchain_reader c) small record {
        block_hashes =
            IsFresh-IsCoherent cache codec.bytes_to_hash (block_hash_says source) c fresh;
        balances = IsFresh-IsCoherent cache codec.of_bytes (balance_says source) c fresh;
        codes = IsFresh-IsCoherent cache (λ v. v) (code_says source) c fresh;
        nonces =
            IsFresh-IsCoherent cache (λ e. uint64 (codec.of_bytes e)) (nonce_says source) c fresh;
        storages = IsFresh-IsCoherent cache (λ v. v) (storage_says source) c fresh;
      }
