-- ===== src/Drivers/RankRows.antt =====
-- The rows that `Chunk2DocRankDriver` collects, and the matches that it adds.
use jina.Prelude.{
  ◌+◌, ◌≡◌, ◌≢◌, refl, sym, ap, ◌∙◌, List, [], ◌∷◌, ◌++◌, map, Result, ok, err, >>=-eq-ok, All,
  arith,
}
use mathlib.Core.Path.{subst}
use mathlib.Core.List.{append-nil, append_assoc}
use jina.Prelude.Int.{ℤ}
use jina.Prelude.Text.{Text}
use jina.Types.Uid.{UidError, id2hash, hash2id}
use jina.Types.UidLaws.{Fits, is_int64-Fits}
use jina.Types.ViewLaws.{id2hash-hash2id}
use jina.Drivers.Rank.{
  as_int64, Scored, Row, RankError, Ranking, Collected, in_uid, hash_of, if_any, collect_match,
  collect_matches, collect_chunks, nothing_collected, add_matches, level_up, chunk2doc, exec_name,
  Exec,
}

in_uid-ok : {A : Type 0} → (step : Result UidError A) (a : A) → in_uid step ≡ ok a → step ≡ ok a
in_uid-ok (ok b) a e = ground (arith, e)
in_uid-ok (err b) a e = absurd (ground (arith, e))

module _ {S C V : Type 0} (r : Ranking S C V) where
  -- The row of a match of a chunk
  abbrev pub IsRowOf : Scored S C × Scored S C → Row S → Type 0
  IsRowOf (chunk, m) row =
      (id2hash r.byteorder m.parent_id ≡ ok row.match_parent_hash)
      × (id2hash r.byteorder m.id ≡ ok row.match_hash)
      × (id2hash r.byteorder chunk.id ≡ ok row.doc_chunk_hash)
      × (row.score ≡ m.score)

  abbrev pub RowsOf : List (Scored S C × Scored S C) → List (Row S) → Type 0
  RowsOf [] [] = Unit
  RowsOf [] (row ∷ rows) = ⊥
  RowsOf (p ∷ pairs) [] = ⊥
  RowsOf (p ∷ pairs) (row ∷ rows) = IsRowOf p row × RowsOf pairs rows

  RowsOf-append :
      (ps qs : List (Scored S C × Scored S C)) (rows more : List (Row S))
      → RowsOf ps rows
      → RowsOf qs more
      → RowsOf (ps ++ qs) (rows ++ more)
  RowsOf-append [] qs [] more h k = k
  RowsOf-append [] qs (row ∷ rows) more h k = absurd h
  RowsOf-append (p ∷ ps) qs [] more h k = absurd h
  RowsOf-append (p ∷ ps) qs (row ∷ rows) more (h, hs) k = (h, RowsOf-append ps qs rows more hs k)

  -- The rows that are collected after those before
  abbrev NewRows : List (Scored S C × Scored S C) → Collected S V → Collected S V → Type 0
  NewRows pairs acc met =
      (rows : List (Row S)) × (met.match_idx ≡ acc.match_idx ++ rows) × RowsOf pairs rows

  collect_match-NewRows :
      (chunk m : Scored S C) (acc met : Collected S V)
      → collect_match r chunk m acc ≡ ok met
      → NewRows ((chunk, m) ∷ []) acc met
  unfolding collect_match
  collect_match-NewRows chunk m acc met e =
      let (p, parent, e1) = >>=-eq-ok (hash_of r m.parent_id) _ e in
      let (h, hash, e2) = >>=-eq-ok (hash_of r m.id) _ e1 in
      let (c, chunk_hash, e3) = >>=-eq-ok (hash_of r chunk.id) _ e2 in
      (
        record { match_parent_hash = p; match_hash = h; doc_chunk_hash = c; score = m.score } ∷ [],
        ground (arith, e3),
        (
          (
            in_uid-ok (id2hash r.byteorder m.parent_id) p parent,
            in_uid-ok (id2hash r.byteorder m.id) h hash,
            in_uid-ok (id2hash r.byteorder chunk.id) c chunk_hash,
            refl,
          ),
          tt,
        ),
      )

  NewRows-trans :
      (ps qs : List (Scored S C × Scored S C)) (a b c : Collected S V)
      → NewRows ps a b
      → NewRows qs b c
      → NewRows (ps ++ qs) a c
  NewRows-trans ps qs a b c (rows, e, h) (more, k, hs) = (
    rows ++ more,
    k ∙ ap (λ l. l ++ more) e ∙ append_assoc a.match_idx rows more,
    RowsOf-append ps qs rows more h hs,
  )

  abbrev pub with_chunk : Scored S C → List (Scored S C) → List (Scored S C × Scored S C)
  with_chunk chunk ms = map (λ m. (chunk, m)) ms

  -- The matches of all chunks, each with its chunk, in their order
  abbrev pub all_matches : List (Scored S C × List (Scored S C)) → List (Scored S C × Scored S C)
  all_matches [] = []
  all_matches ((chunk, ms) ∷ chunks) = with_chunk chunk ms ++ all_matches chunks

  collect_matches-NewRows :
      (chunk : Scored S C) (ms : List (Scored S C)) (acc met : Collected S V)
      → collect_matches r chunk ms acc ≡ ok met
      → NewRows (with_chunk chunk ms) acc met
  unfolding collect_matches
  collect_matches-NewRows chunk [] acc met e = ([], ground (arith, e, append-nil acc.match_idx), tt)
  collect_matches-NewRows chunk (m ∷ ms) acc met e =
      let (mid, e1, e2) = >>=-eq-ok (collect_match r chunk m acc) _ e in
      NewRows-trans ((chunk, m) ∷ []) (with_chunk chunk ms) acc mid met
        (collect_match-NewRows chunk m acc mid e1) (collect_matches-NewRows chunk ms mid met e2)

  collect_chunks-NewRows :
      (docs : List (Scored S C × List (Scored S C))) (acc met : Collected S V)
      → collect_chunks r docs acc ≡ ok met
      → NewRows (all_matches docs) acc met
  unfolding collect_chunks
  collect_chunks-NewRows [] acc met e = ([], ground (arith, e, append-nil acc.match_idx), tt)
  collect_chunks-NewRows ((chunk, ms) ∷ chunks) acc met e =
      let (mid, e1, e2) = >>=-eq-ok (collect_matches r chunk ms acc) _ e in
      NewRows-trans (with_chunk chunk ms) (all_matches chunks) acc mid met
        (collect_matches-NewRows chunk ms acc mid e1) (collect_chunks-NewRows chunks mid met e2)

  -- A match that stands for a score, one level up
  abbrev pub IsAdded : Scored S C → ℤ × S → Scored S C → Type 0
  IsAdded context (h, s) m =
      (id2hash r.byteorder m.id ≡ ok h)
      × (m.score ≡ s)
      × (m.ref_id ≡ context.id)
      × (m.granularity ≡ context.granularity)
      × (m.adjacency ≡ context.adjacency + 1)

  abbrev pub AddedFor : Scored S C → List (ℤ × S) → List (Scored S C) → Type 0
  AddedFor context [] [] = Unit
  AddedFor context [] (m ∷ ms) = ⊥
  AddedFor context (row ∷ rows) [] = ⊥
  AddedFor context (row ∷ rows) (m ∷ ms) = IsAdded context row m × AddedFor context rows ms

  fitting_hash :
      (h : ℤ)
      → Fits 8 h
      → (t : Text) × (hash2id r.byteorder h ≡ ok t) × (id2hash r.byteorder t ≡ ok h)
  fitting_hash h fits =
      let (t, named, hashed) =
        >>=-eq-ok (hash2id r.byteorder h) _ (id2hash-hash2id r.byteorder h fits) in
      (t, named, hashed)

  add_matches-AddedFor :
      (context : Scored S C) (scores : List (ℤ × S))
      → All (λ row. Fits 8 row.0) scores
      → (added : List (Scored S C)) × (add_matches r (level_up context) context.id scores
          ≡ ok added)
        × AddedFor context scores added
  unfolding add_matches
  add_matches-AddedFor context [] fits = ([], refl, tt)
  add_matches-AddedFor context ((h, s) ∷ scores) (fits, hs) =
      let (t, named, hashed) = fitting_hash h fits in
      let (rest, done, added) = add_matches-AddedFor context scores hs in
      (
        level_up context
              (record r.blank { id = t; ref_id = context.id; score = s; op_name = exec_name })
            ∷ rest,
        rw (named, done) refl,
        ((hashed, refl, refl, refl, refl), added),
      )

  if_any-row :
      {A : Type 0}
      → (pairs : List (Scored S C × Scored S C)) (rows : List (Row S)) (x y : Result RankError A)
      → RowsOf pairs rows
      → pairs ≢ []
      → if_any rows x y ≡ y
  if_any-row [] rows x y h given = absurd (given refl)
  if_any-row (p ∷ pairs) [] x y h given = absurd h
  if_any-row (p ∷ pairs) (row ∷ rows) x y h given = refl

  abbrev pub RowFits : Row S → Type 0
  RowFits row = Fits 8 row.match_parent_hash × (Fits 8 row.match_hash × Fits 8 row.doc_chunk_hash)

  as_int64-RowFits : (rows : List (Row S)) → All RowFits rows → as_int64 rows ≡ ok tt
  as_int64-RowFits [] h = refl
  as_int64-RowFits (row ∷ rows) ((p, (m, c)), h) =
      rw
        (
          is_int64-Fits row.match_parent_hash p,
          is_int64-Fits row.match_hash m,
          is_int64-Fits row.doc_chunk_hash c,
        )
        (as_int64-RowFits rows h)

  -- If collecting the rows raises no exception, there is a match, and the three hashes of each row
  -- are signed 64-bit integers: the executor is asked with one row for each match of each chunk,
  -- in their order, with the hashes and the score of the match. If it answers with scores for
  -- hashes that are such integers too, the driver succeeds, keeps the matches that the document
  -- has, and adds one for each of the scores, in their order: its identifier has that hash, and it
  -- is at the level of the document.
  pub chunk2doc-AddedFor :
      (exec_fn : Exec r) (context : Scored S C) (matches : List (Scored S C))
      (docs : List (Scored S C × List (Scored S C))) (met : Collected S V) (scores : List (ℤ × S))
      → all_matches docs ≢ []
      → collect_chunks r docs nothing_collected ≡ ok met
      → All RowFits met.match_idx
      → exec_fn met.match_idx met.query_chunk_meta met.match_chunk_meta ≡ ok scores
      → All (λ row. Fits 8 row.0) scores
      → RowsOf (all_matches docs) met.match_idx
        × ((added : List (Scored S C)) × (chunk2doc r exec_fn context matches docs
              ≡ ok (matches ++ added))
            × AddedFor context scores added)
  unfolding chunk2doc
  chunk2doc-AddedFor exec_fn context matches docs met scores given e hashes_fit answers fits =
      let (rows, same, of_matches) = collect_chunks-NewRows docs nothing_collected met e in
      let all_rows = subst (RowsOf (all_matches docs)) (sym same) of_matches in
      let (added, done, for) = add_matches-AddedFor context scores fits in
      (
        all_rows,
        (
          added,
          rw
              (
                e,
                if_any-row (all_matches docs) met.match_idx (ok matches) _ all_rows given,
                as_int64-RowFits met.match_idx hashes_fit,
                answers,
                done,
              )
              refl,
          for,
        ),
      )
