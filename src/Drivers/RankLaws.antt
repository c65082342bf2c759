-- ===== src/Drivers/RankLaws.antt =====
-- `Matches2DocRankDriver` sorts the matches, which keep all but their scores.
use jina.Prelude.{
  ◌≡◌, ◌≢◌, ◌⊎◌, refl, sym, ap, ◌∙◌, Bool, none, some, List, [], ◌∷◌, Option-cases, Result, ok,
  ◌>>=◌, length, All, arith, Bool-cases, inl, inr,
}
use jina.Prelude.Dict.{Dict}
use mathlib.Core.Path.{subst}
use jina.Prelude.Int.{ℤ, eq_ℤ}
use jina.Prelude.Text.{Text, text_eq, text_eq_iff, lower}
use jina.Types.Uid.{ByteOrder, Bytes, id2bytes, id2hash, hash2id, bytes2hash}
use jina.Types.ViewLaws.{hash2id-id2hash}
use jina.Drivers.RankOrder.{
  Descends, SameRows, IsSort, All-backwards, backwards-Descends, backwards-SameRows,
}
use jina.Drivers.Rank.{
  Scored, RankError, Ranking, backwards, exec_name, meta, if_any, old_match, rescore, sort_matches,
  set_item, by_hash, matches2doc,
}

-- An identifier as jina makes them: sixteen hexadecimal digits in lower case.
abbrev pub IsDocId : Text → Type 0
IsDocId t = (bs : Bytes) × (length t ≡ 16) × (id2bytes t ≡ ok bs) × (lower t ≡ t)

DocId-back :
    (order : ByteOrder) (t : Text) (h : ℤ)
    → IsDocId t
    → id2hash order t ≡ ok h
    → hash2id order h ≡ ok t
DocId-back order t h (bs, len, reads, low) e =
    sym (ap (λ r. r >>= hash2id order) e) ∙ (hash2id-id2hash order t bs len reads).0 ∙ ap ok low

module _ {S C V : Type 0} (r : Ranking S C V) where
  abbrev pub Among : Scored S C → List (Scored S C) → Type 0
  Among m [] = ⊥
  Among m (x ∷ xs) = (m ≡ x) ⊎ Among m xs

  -- A row for the match `m` of the matches
  abbrev pub IsFor : List (Scored S C) → ℤ × S → Scored S C → Type 0
  IsFor old row m = Among m old × (id2hash r.byteorder m.id ≡ ok row.0)

  abbrev pub IsKnown : List (Scored S C) → ℤ × S → Type 0
  IsKnown old row = (m : Scored S C) × IsFor old row m

  -- The new matches are old ones with the scores of the rows.
  abbrev pub Rescored : List (Scored S C) → List (ℤ × S) → List (Scored S C) → Type 0
  Rescored old [] [] = Unit
  Rescored old [] (n ∷ news) = ⊥
  Rescored old (row ∷ rows) [] = ⊥
  Rescored old (row ∷ rows) (n ∷ news) =
      ((m : Scored S C) × IsFor old row m × (n ≡ record m { score = row.1; op_name = exec_name }))
      × Rescored old rows news

  old_match-Among :
      (t : Text) (old : List (Scored S C)) (m : Scored S C)
      → old_match t old ≡ some m
      → Among m old × (m.id ≡ t)
  unfolding old_match
  old_match-Among t [] m e = absurd (ground (arith, e))
  old_match-Among t (x ∷ xs) m e = elim (Option-cases (old_match t xs)) [
    | inr (later, seen) ↦
        let (among, same) = old_match-Among t xs m (seen ∙ (rw seen at e)) in (inr among, same)
    | inl unseen ↦ elim (Bool-cases (text_eq x.id t)) [
      | inl same ↦
          let here : x ≡ m = ground (arith, rw (unseen, same) at e) in
          (inl (sym here), ap (λ z. z.id) (sym here) ∙ (text_eq_iff x.id t).0 same)
      | inr differ ↦ absurd (ground (arith, rw (unseen, differ) at e))
    ]
  ]

  Among-old_match :
      (t : Text) (old : List (Scored S C)) (m : Scored S C)
      → Among m old
      → m.id ≡ t
      → old_match t old ≢ none
  unfolding old_match
  Among-old_match t [] m among same e = elim among [ ]
  Among-old_match t (x ∷ xs) m among same e = elim (Option-cases (old_match t xs)) [
    | inr (later, seen) ↦ ground (arith, rw seen at e)
    | inl unseen ↦ elim among [
      | inr later ↦ Among-old_match t xs m later same unseen
      | inl here ↦
          let eq = (text_eq_iff x.id t).1 (ap (λ z. z.id) (sym here) ∙ same) in
          ground (arith, rw (unseen, eq) at e)
    ]
  ]

  Among-All :
      (P : Scored S C → Type 0) (old : List (Scored S C)) (m : Scored S C)
      → All P old
      → Among m old
      → P m
  Among-All P [] m h among = elim among [ ]
  Among-All P (x ∷ xs) m (h, hs) (inl here) = subst P (sym here) h
  Among-All P (x ∷ xs) m (h, hs) (inr later) = Among-All P xs m hs later

  -- The match that a known row finds
  found_row :
      (old : List (Scored S C)) (row : ℤ × S)
      → All (λ m. IsDocId m.id) old
      → IsKnown old row
      → (t : Text) × (m : Scored S C) × (hash2id r.byteorder row.0 ≡ ok t)
        × (old_match t old ≡ some m)
        × IsFor old row m
  found_row old row ids (m, for) =
      let (among, hashed) = for in
      let back =
        DocId-back r.byteorder m.id row.0 (Among-All (λ x. IsDocId x.id) old m ids among) hashed in
      elim (Option-cases (old_match m.id old)) [
        | inl unseen ↦ absurd (Among-old_match m.id old m among refl unseen)
        | inr (m2, seen) ↦
            let (among2, same) = old_match-Among m.id old m2 seen in
            (m.id, m2, back, seen, (among2, ap (id2hash r.byteorder) same ∙ hashed))
      ]

  rescore-Rescored :
      (old : List (Scored S C)) (rows : List (ℤ × S))
      → All (λ m. IsDocId m.id) old
      → All (IsKnown old) rows
      → (news : List (Scored S C)) × (rescore r old rows ≡ ok news) × Rescored old rows news
  unfolding rescore
  rescore-Rescored old [] ids h = ([], refl, tt)
  rescore-Rescored old (row ∷ rows) ids (h, hs) =
      let (t, m, named, seen, for) = found_row old row ids h in
      let (news, done, rescored) = rescore-Rescored old rows ids hs in
      (
        record m { score = row.1; op_name = exec_name } ∷ news,
        rw (named, seen, done) refl,
        ((m, for, refl), rescored),
      )

  set_item-filled : {A : Type 0} → (h : ℤ) (a : A) (items : List (ℤ × A)) → set_item h a items ≢ []
  unfolding set_item
  set_item-filled h a [] e = ground (arith, e)
  set_item-filled h a ((k, old) ∷ items) e = elim (Bool-cases (eq_ℤ k h)) [
    | inl same ↦ ground (arith, rw same at e)
    | inr differ ↦ ground (arith, rw differ at e)
  ]

  by_hash-DocId :
      {A : Type 0}
      → (value : Scored S C → A) (docs : List (Scored S C)) (items : List (ℤ × A))
      → All (λ m. IsDocId m.id) docs
      → (dict : List (ℤ × A)) × (by_hash r value docs items ≡ ok dict)
        × ((docs ≡ []) × (items ≡ []) ⊎ (dict ≢ []))
  unfolding by_hash id2hash
  by_hash-DocId value [] [] ids = ([], refl, inl (refl, refl))
  by_hash-DocId value [] (x ∷ items) ids = (x ∷ items, refl, inr (λ e. ground (arith, e)))
  by_hash-DocId value (m ∷ ms) items ((bs, len, reads, low), ids) =
      let h = bytes2hash r.byteorder bs in
      let (dict, done, filled) = by_hash-DocId value ms (set_item h (value m) items) ids in
      (
        dict,
        rw (reads, done) refl,
        elim filled [
          | inl (last, empty) ↦ absurd (set_item-filled h (value m) items empty)
          | inr some_item ↦ inr some_item
        ],
      )

module _ {S C V : Type 0} (r : Ranking S C V) (less : S → S → Bool)
    (np_sort : List (ℤ × S) → List (ℤ × S)) (sorts : IsSort less np_sort) where
  sort_matches-Rescored :
      (old : List (Scored S C)) (scores : List (ℤ × S))
      → All (λ m. IsDocId m.id) old
      → All (IsKnown r old) scores
      → (rows : List (ℤ × S)) × (news : List (Scored S C)) × (sort_matches r np_sort old scores
          ≡ ok news)
        × Descends less rows
        × SameRows rows scores
        × Rescored r old rows news
  unfolding sort_matches
  sort_matches-Rescored old scores ids known =
      let rows = backwards (np_sort scores) in
      let (news, done, rescored) = rescore-Rescored r old rows ids (
        All-backwards (IsKnown r old) (np_sort scores) (sorts.kept (IsKnown r old) scores known)) in
      (
        rows,
        news,
        done,
        backwards-Descends less (np_sort scores) (sorts.ascends scores),
        λ p. backwards-SameRows (np_sort scores) p ∙ sorts.same scores p,
        rescored,
      )

  if_any-filled :
      {A B : Type 0} → (xs : List A) (x y : Result RankError B) → xs ≢ [] → if_any xs x y ≡ y
  if_any-filled [] x y filled = absurd (filled refl)
  if_any-filled (z ∷ zs) x y filled = refl

  -- If `np.sort` sorts, there are matches, their identifiers are as jina makes them, and the executor
  -- answers with scores for hashes of matches only: the driver succeeds. The rows that the executor
  -- gave, each as often, are then in an order from the highest score down, and each has one new
  -- match: an old match of the row's hash, of which only the score and the operation have changed.
  pub matches2doc-Rescored :
      (exec_fn : Dict V → List (ℤ × S) → List (ℤ × Dict V) → Result RankError (List (ℤ × S)))
      (context : Scored S C) (docs : List (Scored S C)) (scores : List (ℤ × S))
      → docs ≢ []
      → ((old : List (ℤ × S)) (metas : List (ℤ × Dict V))
          → by_hash r (λ m. m.score) docs [] ≡ ok old
          → by_hash r (meta r) docs [] ≡ ok metas
          → exec_fn (meta r context) old metas ≡ ok scores)
      → All (λ m. IsDocId m.id) docs
      → All (IsKnown r docs) scores
      → (rows : List (ℤ × S)) × (news : List (Scored S C)) × (matches2doc r exec_fn np_sort context
            docs
          ≡ ok news)
        × Descends less rows
        × SameRows rows scores
        × Rescored r docs rows news
  unfolding matches2doc
  matches2doc-Rescored exec_fn context docs scores given answers ids known =
      let (rows, news, done, down, same, rescored) = sort_matches-Rescored docs scores ids known in
      let (old, e1, filled) = by_hash-DocId r (λ m. m.score) docs [] ids in
      let (metas, e2, also) = by_hash-DocId r (meta r) docs [] ids in
      let some_old : old ≢ [] = elim filled [
        | inl (none_given, h) ↦ absurd (given none_given)
        | inr h ↦ h
      ] in
      (
        rows,
        news,
        rw (e1, e2, if_any-filled old (ok docs) _ some_old, answers old metas e1 e2) done,
        down,
        same,
        rescored,
      )
