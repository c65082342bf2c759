-- ===== src/Drivers/RankTests.antt =====
-- Matches, ranked by an executor that gives fixed scores.
use jina.Prelude.{
  ℕ, String, ◌≡◌, refl, Bool, false, none, List, [], ◌∷◌, ◌++◌, ltb, if◌then◌else◌, ok, err, length,
  select, All, arith, Bool-cases, inl, inr,
}
use jina.Prelude.Int.{ℤ, pos}
use jina.Prelude.Text.{codes, lower}
use jina.Types.Uid.{
  big, id2bytes, id2hash, unhexlify, bytes2hash, from_bytes, hash2id, hash2bytes, to_bytes,
  bytes2id,
}
use jina.Drivers.Rank.{
  Scored, Ranking, backwards, matches2doc, sort_matches, rescore, old_match, by_hash, set_item,
  exec_name, key_error, overflow_error, Collected, collect_chunks, collect_matches, collect_match,
  pb_obj2dict, nothing_collected, chunk2doc,
}
use jina.Drivers.RankOrder.{Descends, Ascends, SameRows, IsSort}
use jina.Drivers.RankLaws.{IsDocId, IsKnown, Rescored, matches2doc-Rescored}
use jina.Drivers.RankRows.{RowsOf, all_matches, AddedFor, chunk2doc-AddedFor}

-- A sort of rows by their scores
insert_row : ℤ × ℕ → List (ℤ × ℕ) → List (ℤ × ℕ)
insert_row x [] = x ∷ []
insert_row x (y ∷ ys) = let rest = insert_row x ys in if ltb y.1 x.1 then y ∷ rest else x ∷ y ∷ ys

sort_rows : List (ℤ × ℕ) → List (ℤ × ℕ)
sort_rows [] = []
sort_rows (x ∷ xs) = insert_row x (sort_rows xs)

insert_row-All :
    (P : ℤ × ℕ → Type 0) (x : ℤ × ℕ) (ys : List (ℤ × ℕ)) → P x → All P ys → All P (insert_row x ys)
unfolding insert_row
insert_row-All P x [] h hs = (h, tt)
insert_row-All P x (y ∷ ys) h (hy, hs) = elim (Bool-cases (ltb y.1 x.1)) [
  | inl before ↦ rw before (hy, insert_row-All P x ys h hs)
  | inr after ↦ rw after (h, (hy, hs))
]

sort_rows-All : (P : ℤ × ℕ → Type 0) (xs : List (ℤ × ℕ)) → All P xs → All P (sort_rows xs)
unfolding sort_rows
sort_rows-All P [] h = tt
sort_rows-All P (x ∷ xs) (h, hs) = insert_row-All P x (sort_rows xs) h (sort_rows-All P xs hs)

insert_row-select :
    (p : ℤ × ℕ → Bool) (x : ℤ × ℕ) (ys : List (ℤ × ℕ))
    → length (select p (insert_row x ys)) ≡ length (select p (x ∷ ys))
unfolding insert_row
insert_row-select p x [] = refl
insert_row-select p x (y ∷ ys) = ground (arith, insert_row-select p x ys)

sort_rows-SameRows : (xs : List (ℤ × ℕ)) → SameRows (sort_rows xs) xs
unfolding sort_rows
sort_rows-SameRows [] p = refl
sort_rows-SameRows (x ∷ xs) p =
    ground (arith, insert_row-select p x (sort_rows xs), sort_rows-SameRows xs p)

above_all :
    (x y : ℤ × ℕ) (ys : List (ℤ × ℕ))
    → ltb y.1 x.1 ≡ false
    → All (λ z. ltb z.1 y.1 ≡ false) ys
    → All (λ z. ltb z.1 x.1 ≡ false) ys
above_all x y [] h hs = tt
above_all x y (z ∷ zs) h (hz, hs) = (ground (arith, h, hz), above_all x y zs h hs)

insert_row-Ascends :
    (x : ℤ × ℕ) (ys : List (ℤ × ℕ)) → Ascends ltb ys → Ascends ltb (insert_row x ys)
unfolding insert_row
insert_row-Ascends x [] h = (tt, tt)
insert_row-Ascends x (y ∷ ys) (hy, h) = elim (Bool-cases (ltb y.1 x.1)) [
  | inl before ↦ rw before (
    insert_row-All (λ z. ltb z.1 y.1 ≡ false) x ys (ground (arith, before)) hy,
    insert_row-Ascends x ys h,
  )
  | inr after ↦ rw after ((after, above_all x y ys after hy), (hy, h))
]

sort_rows-Ascends : (xs : List (ℤ × ℕ)) → Ascends ltb (sort_rows xs)
unfolding sort_rows
sort_rows-Ascends [] = tt
sort_rows-Ascends (x ∷ xs) = insert_row-Ascends x (sort_rows xs) (sort_rows-Ascends xs)

sort_rows-IsSort : IsSort ltb sort_rows
sort_rows-IsSort = record {
  kept = sort_rows-All;
  same = sort_rows-SameRows;
  ascends = sort_rows-Ascends;
}

abbrev a_match : String → ℕ → Scored ℕ Unit
a_match id score = record {
  id = codes id;
  parent_id = [];
  granularity = 0;
  adjacency = 1;
  score = score;
  ref_id = [];
  op_name = "";
  content = tt;
}

abbrev plain : Ranking ℕ Unit ℕ
plain = record {
  byteorder = big;
  get_attribute = λ d k. none;
  blob_value = λ v. v;
  required_keys = [];
  blank = a_match "" 0;
}

abbrev two_matches : List (Scored ℕ Unit)
two_matches = a_match "000000000000000a" 7 ∷ a_match "00000000000000ff" 9 ∷ []

abbrev new_scores : List (ℤ × ℕ)
new_scores = (pos 10, 3) ∷ (pos 255, 5) ∷ []

two_matches-IsDocId : All (λ m. IsDocId m.id) two_matches
unfolding id2bytes unhexlify lower
two_matches-IsDocId = (
  (0 ∷ 0 ∷ 0 ∷ 0 ∷ 0 ∷ 0 ∷ 0 ∷ 10 ∷ [], refl, refl, refl),
  ((0 ∷ 0 ∷ 0 ∷ 0 ∷ 0 ∷ 0 ∷ 0 ∷ 255 ∷ [], refl, refl, refl), tt),
)

new_scores-IsKnown : All (IsKnown plain two_matches) new_scores
unfolding id2hash id2bytes unhexlify bytes2hash from_bytes
new_scores-IsKnown = (
  (a_match "000000000000000a" 7, (inl refl, refl)),
  ((a_match "00000000000000ff" 9, (inr (inl refl), refl)), tt),
)

matches_run :
    matches2doc plain (λ q o m. ok new_scores) sort_rows (a_match "" 0) two_matches
    ≡ ok (
        record (a_match "00000000000000ff" 5) { op_name = exec_name }
        ∷ record (a_match "000000000000000a" 3) { op_name = exec_name }
        ∷ [])
unfolding matches2doc by_hash set_item sort_matches rescore old_match backwards sort_rows insert_row
    id2hash id2bytes unhexlify bytes2hash from_bytes hash2id hash2bytes to_bytes bytes2id
matches_run = refl

matches2doc-Rescored_example :
    (rows : List (ℤ × ℕ)) × (news : List (Scored ℕ Unit)) × (matches2doc plain
        (λ q o m. ok new_scores)
        sort_rows
        (a_match "" 0)
        two_matches
      ≡ ok news)
    × Descends ltb rows
    × SameRows rows new_scores
    × Rescored plain two_matches rows news
matches2doc-Rescored_example =
    matches2doc-Rescored plain ltb sort_rows sort_rows-IsSort (λ q o m. ok new_scores)
      (a_match "" 0) two_matches new_scores (λ e. ground (arith, e)) (λ old metas e1 e2. refl)
      two_matches-IsDocId new_scores-IsKnown

-- A match whose identifier has digits in upper case is not found by its hash.
upper_run :
    matches2doc plain
      (λ q o m. ok ((pos 171, 3) ∷ []))
      sort_rows
      (a_match "" 0)
      (a_match "00000000000000AB" 7 ∷ [])
    ≡ err (key_error (codes "00000000000000ab"))
unfolding matches2doc by_hash set_item sort_matches rescore old_match backwards sort_rows insert_row
    id2hash id2bytes unhexlify bytes2hash from_bytes hash2id hash2bytes to_bytes bytes2id
upper_run = refl

abbrev a_chunk : Scored ℕ Unit
a_chunk = a_match "0000000000000003" 0

abbrev one_chunk : List (Scored ℕ Unit × List (Scored ℕ Unit))
one_chunk = (a_chunk, two_matches) ∷ []

abbrev one_chunk_met : Collected ℕ ℕ
one_chunk_met = record {
  match_idx =
      record { match_parent_hash = pos 0; match_hash = pos 10; doc_chunk_hash = pos 3; score = 7 }
      ∷ record {
        match_parent_hash = pos 0;
        match_hash = pos 255;
        doc_chunk_hash = pos 3;
        score = 9;
      }
      ∷ [];
  query_chunk_meta = (pos 3, []) ∷ [];
  match_chunk_meta = (pos 10, []) ∷ (pos 255, []) ∷ [];
}

one_chunk_run : collect_chunks plain one_chunk nothing_collected ≡ ok one_chunk_met
unfolding collect_chunks collect_matches collect_match pb_obj2dict set_item id2hash id2bytes
    unhexlify bytes2hash from_bytes
one_chunk_run = refl

chunk2doc-AddedFor_example :
    RowsOf plain (all_matches plain one_chunk) one_chunk_met.match_idx
    × ((added : List (Scored ℕ Unit)) × (chunk2doc plain
            (λ i q m. ok new_scores)
            (a_match "0000000000000001" 0)
            []
            one_chunk
          ≡ ok ([] ++ added))
        × AddedFor plain (a_match "0000000000000001" 0) new_scores added)
chunk2doc-AddedFor_example =
    chunk2doc-AddedFor plain (λ i q m. ok new_scores) (a_match "0000000000000001" 0) [] one_chunk
      one_chunk_met new_scores (λ e. ground (arith, e)) one_chunk_run
      ((omega arith, (omega arith, omega arith)), ((omega arith, (omega arith, omega arith)), tt))
      refl (omega arith, (omega arith, tt))

-- An identifier of nine bytes is accepted, and its hash does not fit a column of the array.
long_id_run :
    chunk2doc plain
      (λ i q m. ok [])
      (a_match "" 0)
      []
      ((a_chunk, a_match "7fffffffffffffffff" 7 ∷ []) ∷ [])
    ≡ err overflow_error
unfolding chunk2doc collect_chunks collect_matches collect_match pb_obj2dict set_item id2hash
    id2bytes unhexlify bytes2hash from_bytes
long_id_run = refl
