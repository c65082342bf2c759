-- ===== src/Drivers/SearchTests.antt =====
-- An index with one value, two documents that are looked up in it, and the theorems at them.
use jina.Prelude.{◌≡◌, refl, some, List, [], ◌∷◌, map, ok, ◌>>=◌, arith}
use jina.Prelude.Int.{ℤ, pos}
use jina.Prelude.Text.{Text, codes}
use jina.Types.Uid.{Bytes, big, id2hash, id2bytes, unhexlify, bytes2hash, from_bytes}
use jina.Executors.KeyValue.{Indexer, row_at, put_value, add_items}
use jina.Drivers.Search.{kv_search}
use jina.Drivers.SearchLaws.{found_docs, find_in, find_in_log, kv_search-Holds}

abbrev truths_log : List (ℤ × Bytes)
truths_log = (pos 255, 1 ∷ 2 ∷ []) ∷ []

abbrev truths_index : Indexer
truths_index =
    put_value (row_at 4 0 (pos 255) 2) (1 ∷ 2 ∷ [])
      record { body = []; header = []; start = 0; size = 0 }

truths_index_run :
    add_items 4 truths_log record { body = []; header = []; start = 0; size = 0 } ≡ ok truths_index
truths_index_run = refl

-- A document is its identifier with the values that it was given.
abbrev Scored : Type 0
Scored = Text × List Bytes

abbrev identifier : Scored → Text
identifier (id, scores) = id

abbrev with_value : Scored → Bytes → Scored
with_value (id, scores) b = (id, b ∷ scores)

abbrev two_docs : List Scored
two_docs = (codes "00000000000000aa", []) ∷ (codes "00000000000000ff", []) ∷ []

found_run :
    found_docs (find_in_log big identifier (λ bs. some bs) truths_log) two_docs
    ≡ ok (((codes "00000000000000ff", []), 1 ∷ 2 ∷ []) ∷ [])
unfolding id2hash id2bytes unhexlify bytes2hash from_bytes jina.Executors.KeyValueLaws.last_value
found_run = refl

kv_search-Holds_example :
    kv_search (find_in 4 big identifier (λ bs. some bs) truths_index) with_value two_docs ≡ (
      found_docs (find_in_log big identifier (λ bs. some bs) truths_log) two_docs >>= λ found.
      ok (map (λ (d, r). with_value d r) found))
kv_search-Holds_example =
    kv_search-Holds 4 big identifier (λ bs. some bs) truths_index truths_log with_value two_docs
      (refl, refl, refl) (omega arith, tt)
