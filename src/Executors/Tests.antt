-- ===== src/Executors/Tests.antt =====
-- Methods in batches at small data, and the theorem at them.
use jina.Prelude.{
  ◌^◌, ℕ, suc, ◌+◌, ◌≡◌, refl, ap, true, false, Option, none, some, List, [], ◌∷◌, ◌++◌, map,
  String, Result, ok, err, length, arith, length-append,
}
use jina.Helper.Batches.{array, memmap, batch_iterator, array_slices, range_by}
use jina.Helper.BatchLaws.{flat}
use jina.Executors.Batching.{
  Output, rows_out, single, type_error, no_size, fixed_size, get_total_size, slice_data,
  make_batches, run_batches, merge_results, batching,
}
use jina.Executors.BatchingLaws.{batching-rows}
use jina.Prelude.Int.{ℤ, pos, negsuc}
use jina.Prelude.Text.{Text, codes}
use jina.Types.Uid.{Bytes, big, id2hash, id2bytes, unhexlify, bytes2hash, from_bytes}
use jina.Executors.KeyValue.{
  MapError, overflow_error, Indexer, create, get_query_handler, header_get, add, add_items, mmap,
  query,
}
use jina.Executors.KeyValueLaws.{last_value, Holds, query-Holds}
use jina.Executors.Cache.{DocIdCache, empty_cache, add_id, query_id, reopen}
use jina.Executors.CacheLaws.{IsStored, add_id-IsStored}

-- A method that counts the rows that it has seen and adds one to each
abbrev count_rows : ℕ → List ℕ → Option (ℕ × ℕ) → Result String (ℕ × Option (Output ℕ ℕ))
count_rows seen xs idx = ok (seen + length xs, some (rows_out (map suc xs)))

abbrev five : List ℕ
five = 1 ∷ 2 ∷ 3 ∷ 4 ∷ 5 ∷ []

-- With one batch of two rows, the first two rows of an array, but all rows of a file
memory_run :
    batching count_rows flat (fixed_size 2) (some 1) true false none (array five) 0
    ≡ ok (2, single (rows_out (2 ∷ 3 ∷ [])))
unfolding batching get_total_size slice_data make_batches batch_iterator array_slices range_by
    run_batches merge_results
memory_run = refl

file_run :
    batching count_rows flat (fixed_size 2) (some 1) true false none (memmap five) 0
    ≡ ok (5, single (rows_out (2 ∷ 3 ∷ 4 ∷ 5 ∷ 6 ∷ [])))
unfolding batching get_total_size slice_data make_batches batch_iterator array_slices range_by
    run_batches merge_results
file_run = refl

-- A number of batches with the size of the object's class
class_size_run :
    batching count_rows flat no_size (some 1) true false (some 2) (array five) 0 ≡ err type_error
unfolding batching get_total_size
class_size_run = refl

map-suc-append : (xs ys : List ℕ) → map suc (xs ++ ys) ≡ map suc xs ++ map suc ys
map-suc-append [] ys = refl
map-suc-append (x ∷ xs) ys = ap (λ t. suc x ∷ t) (map-suc-append xs ys)

count-append : (s : ℕ) (xs ys : List ℕ) → s + length (xs ++ ys) ≡ s + length xs + length ys
count-append s xs ys = omega (arith, length-append xs ys)

three_of_five : get_total_size {A = ℕ} {E = String} (some 5) (fixed_size 3) (some 1) ≡ ok (some 3)
unfolding get_total_size
three_of_five = refl

batching-rows_example :
    batching count_rows flat (fixed_size 3) (some 1) true false none (array five) 4
    ≡ ok (7, single (rows_out (2 ∷ 3 ∷ 4 ∷ [])))
batching-rows_example =
    batching-rows flat (λ xss. refl) count_rows (λ s xs. s + length xs) count-append (map suc)
      map-suc-append (λ s xs idx. refl) (fixed_size 3) (some 1) false none (array five) 4 3 (some 3)
      tt refl three_of_five

abbrev new_indexer : Indexer
new_indexer = record { body = []; header = []; start = 0; size = 0 }

-- The index that an `add` leaves
abbrev left_by : Result MapError Indexer → Indexer
left_by (ok i) = i
left_by (err e) = new_indexer

-- Two values on pages of four bytes, and the first key once more
abbrev stored : Indexer
stored = left_by (
    add_items 4 ((pos 7, 1 ∷ 2 ∷ 3 ∷ []) ∷ (negsuc 0, 4 ∷ 5 ∷ []) ∷ (pos 7, 6 ∷ []) ∷ [])
      (create new_indexer))

-- A key of more than eight bytes
long_key_run : add 4 (pos (256 ^ 8) ∷ []) ((5 ∷ []) ∷ []) new_indexer ≡ err overflow_error
unfolding add
long_key_run = refl

stored_run : query 4 (negsuc 0) (get_query_handler stored) ≡ ok (some (4 ∷ 5 ∷ []))
unfolding query header_get mmap
stored_run = refl

-- An empty value at the start of a page is read as all that follows it in the file.
empty_value_run :
    query 4 (pos 1) (
      get_query_handler (left_by (add 4 (pos 1 ∷ pos 2 ∷ []) ([] ∷ (8 ∷ 9 ∷ []) ∷ []) new_indexer)))
    ≡ ok (some (8 ∷ 9 ∷ []))
unfolding query add header_get mmap
empty_value_run = refl

abbrev stored_log : List (ℤ × Bytes)
stored_log = (pos 7, 1 ∷ 2 ∷ 3 ∷ []) ∷ (negsuc 0, 4 ∷ 5 ∷ []) ∷ (pos 7, 6 ∷ []) ∷ []

query-Holds_example :
    ((key : ℤ) → query 4 key (get_query_handler stored) ≡ ok (last_value key stored_log))
    × ((j : Indexer) × (add 4 (pos 3 ∷ []) ((5 ∷ []) ∷ []) stored ≡ ok j)
        × Holds 4 j (stored_log ++ ((pos 3, 5 ∷ []) ∷ [])))
    × Holds 4 (create stored) []
query-Holds_example =
    query-Holds 4 stored stored_log (pos 3 ∷ []) ((5 ∷ []) ∷ []) (refl, refl, refl)
      (omega arith, (omega arith, (omega arith, tt))) (omega arith, tt) (omega arith)

abbrev an_id : Text
an_id = codes "00000000000000ff"

an_id_hash : id2hash big an_id ≡ ok (pos 255)
unfolding id2hash id2bytes unhexlify bytes2hash from_bytes
an_id_hash = refl

add_id-IsStored_example :
    (c1 : DocIdCache) × (add_id big an_id empty_cache ≡ ok c1)
    × IsStored big c1
    × (c1.query_handler ≡ pos 255 ∷ [])
    × (reopen big c1 ≡ some c1.query_handler)
    × (query_id big an_id c1 ≡ ok (some true))
add_id-IsStored_example =
    add_id-IsStored big empty_cache an_id (pos 255) (refl, tt) an_id_hash (omega arith)
