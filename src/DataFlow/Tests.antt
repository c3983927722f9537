-- ===== src/DataFlow/Tests.antt =====
-- Small inputs for the taint trackers of analysis/data_flow.
use erebus_redgiant.Prelude.{
  ◌≡◌, ◌≢◌, ◌<◌, ◌+◌, ◌*◌, refl, Option, none, some, [], List, ℕ, length, ◌∷◌, arith, nat_eq,
}
use erebus_redgiant.Prelude.Map.{lookup, insert}
use erebus_redgiant.DataFlow.Node.{
  Store, id_of, add_entries, add_upstream, new_raw_flow_node, node_id_eq,
}
use erebus_redgiant.DataFlow.Stack.{push, pop}
use erebus_redgiant.DataFlow.Stack.Laws.{pop-push}
use erebus_redgiant.DataFlow.Memory.{
  Memory, read, word_range, store, store_words, write_word, merge_node, regulate,
}
use erebus_redgiant.DataFlow.Memory.Words.{word_count}
use erebus_redgiant.DataFlow.Memory.Stores.{Stored, store_lem}
use erebus_redgiant.DataFlow.Memory.Merging.{IsValid, Grows}

-- Two taint sources.
abbrev sources : Store
sources =
    record { label = 1; operation = 10; from = [] }
    ∷ record { label = 1; operation = 11; from = [] }
    ∷ []

abbrev tainted : Memory
tainted = (32, some 0) ∷ []

tainted-IsValid : IsValid sources tainted
unfolding read lookup
tainted-IsValid j = ground arith

-- A write of 40 bytes at 40 covers word 32 in part and word 64 in part.
abbrev wrote : Option (Memory × Store)
wrote = store 5 40 40 (some 1) tainted sources

wrote_words :
    wrote
    ≡ some (
      (32, some 2) ∷ (64, some 1) ∷ [],
      record { label = 1; operation = 10; from = [] }
          ∷ record { label = 1; operation = 11; from = [] }
          ∷ record { label = 0; operation = 11; from = ((1, 11), 1) ∷ ((1, 10), 0) ∷ [] }
          ∷ [],
    )
unfolding store word_range regulate store_words write_word merge_node read lookup insert
    new_raw_flow_node add_upstream add_entries id_of
wrote_words = refl

store_lem_example :
    (r : Memory × Store) × (store 5 40 40 (some 1) tainted sources ≡ some r)
    × Grows sources r.1
    × ((m : ℕ)
        → m < word_count (regulate 40) 80
        → Stored 40 40 (some 1) tainted sources r (regulate 40 + 32 * m))
    × ((j : ℕ)
        → ((m : ℕ) → m < word_count (regulate 40) 80 → regulate 40 + 32 * m ≢ j)
        → read r.0 j ≡ read tainted j)
unfolding regulate
store_lem_example =
    store_lem 5 40 40 (some 1) tainted sources (omega arith) (omega arith) (omega arith)
      tainted-IsValid (omega arith)

abbrev two_elements : List ℕ
two_elements = 7 ∷ 8 ∷ []

pop-push_example :
    elim (push two_elements (6 ∷ [])) [ none ↦ none | some t ↦ pop (length two_elements) t ]
    ≡ some (two_elements, 6 ∷ [])
pop-push_example = pop-push two_elements (6 ∷ []) (omega arith)
