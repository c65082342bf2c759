-- ===== src/Drivers/SearchLaws.antt =====
-- The drivers that look documents up keep those that are found, in their order.
use jina.Prelude.{
  ℕ, suc, ◌≡◌, refl, ap, ◌∙◌, Option, none, some, List, [], ◌∷◌, map, Result, ok, err, ◌>>=◌,
  >>=-eq-ok, All, inl, inr, Result-cases,
}
use jina.Prelude.Int.{ℤ}
use jina.Prelude.Text.{Text}
use jina.Types.Uid.{Bytes, ByteOrder, id2hash}
use jina.Drivers.QueryLang.{delete_reversed}
use jina.Drivers.QueryLangLaws.{delete_reversed-suc, delete_zero}
use jina.Drivers.Search.{
  SearchError, lift_uid, parse_found, find_doc, fill_docs, kv_search, load_truths,
  load_ground_truth,
}
use jina.Executors.KeyValue.{Indexer, MapError, query, get_query_handler}
use jina.Executors.KeyValueLaws.{last_value, HasBytes, Holds, query-last_value}

-- The answers to all documents, apart
module _ {ℓ κ} {A : Type ℓ} {B : Type κ} where
  missed : ℕ → List (A × Option B) → List ℕ
  missed n [] = []
  missed n ((d, none) ∷ rs) = n ∷ missed (suc n) rs
  missed n ((d, some r) ∷ rs) = missed (suc n) rs

  abbrev kept : List (A × Option B) → List (A × B)
  kept [] = []
  kept ((d, none) ∷ rs) = kept rs
  kept ((d, some r) ∷ rs) = (d, r) ∷ kept rs

  abbrev filled_one : (A → B → A) → A × Option B → A
  filled_one fill (d, none) = d
  filled_one fill (d, some r) = fill d r

  missed-suc : (n : ℕ) (rs : List (A × Option B)) → missed (suc n) rs ≡ map suc (missed n rs)
  unfolding missed
  missed-suc n [] = refl
  missed-suc n ((d, none) ∷ rs) = ap (λ t. suc n ∷ t) (missed-suc (suc n) rs)
  missed-suc n ((d, some r) ∷ rs) = missed-suc (suc n) rs

  -- What is left once the documents without an answer are deleted
  delete-missed {μ} :
      {C : Type μ} (g : A × Option B → C) (rs : List (A × Option B))
      → delete_reversed (missed 0 rs) (map g rs) ≡ map (λ (d, r). g (d, some r)) (kept rs)
  unfolding missed delete_reversed
  delete-missed g [] = refl
  delete-missed g ((d, none) ∷ rs) =
      ap (λ t. delete_reversed (0 ∷ t) (g (d, none) ∷ map g rs)) (missed-suc 0 rs)
      ∙ delete_zero (missed 0 rs) (g (d, none)) (map g rs)
      ∙ delete-missed g rs
  delete-missed g ((d, some r) ∷ rs) =
      ap (λ t. delete_reversed t (g (d, some r) ∷ map g rs)) (missed-suc 0 rs)
      ∙ delete_reversed-suc (missed 0 rs) (g (d, some r)) (map g rs)
      ∙ ap (λ t. g (d, some r) ∷ t) (delete-missed g rs)

module _ {ℓ κ μ} {A : Type ℓ} {B : Type κ} {E : Type μ}
    (find : A → Result (SearchError E) (Option B)) where
  -- The documents that are found, each with what is found for it
  abbrev pub add_found : A → Option B → List (A × B) → List (A × B)
  add_found d none found = found
  add_found d (some r) found = (d, r) ∷ found

  abbrev pub found_docs : List A → Result (SearchError E) (List (A × B))
  found_docs [] = ok []
  found_docs (d ∷ docs) = do r ← find d; found ← found_docs docs; ok (add_found d r found)

  abbrev looked_up : List A → Result (SearchError E) (List (A × Option B))
  looked_up [] = ok []
  looked_up (d ∷ docs) = do r ← find d; rs ← looked_up docs; ok ((d, r) ∷ rs)

  found_docs-looked_up : (docs : List A) → found_docs docs ≡ (looked_up docs >>= λ rs. ok (kept rs))
  found_docs-looked_up [] = refl
  found_docs-looked_up (d ∷ docs) = elim (Result-cases (find d)) [
    | inr (e, bad) ↦ rw bad refl
    | inl (r, good) ↦ rw (good, found_docs-looked_up docs) (both r (looked_up docs))
  ]
    where
      both :
          (r : Option B) (all : Result (SearchError E) (List (A × Option B)))
          → ((all >>= λ rs. ok (kept rs)) >>= λ found. ok (add_found d r found))
            ≡ ((all >>= λ rs. ok ((d, r) ∷ rs)) >>= λ rs. ok (kept rs))
      both none (ok rs) = refl
      both (some r) (ok rs) = refl
      both r (err e) = refl

  fill_docs-looked_up :
      (fill : A → B → A) (n : ℕ) (docs : List A)
      → fill_docs find fill n docs
        ≡ (looked_up docs >>= λ rs. ok (missed n rs, map (filled_one fill) rs))
  unfolding fill_docs missed
  fill_docs-looked_up fill n [] = refl
  fill_docs-looked_up fill n (d ∷ docs) = elim (Result-cases (find d)) [
    | inr (e, bad) ↦ rw bad refl
    | inl (none, good) ↦
        rw (good, fill_docs-looked_up fill (suc n) docs)
          (elim (Result-cases (looked_up docs)) [
            | inl (rs, h) ↦ rw h refl
            | inr (e, h) ↦ rw h refl
          ])
    | inl (some r, good) ↦
        rw (good, fill_docs-looked_up fill (suc n) docs)
          (elim (Result-cases (looked_up docs)) [
            | inl (rs, h) ↦ rw h refl
            | inr (e, h) ↦ rw h refl
          ])
  ]

  load_truths-looked_up :
      (n : ℕ) (docs : List A)
      → load_truths find n docs
        ≡ (looked_up docs >>= λ rs. ok (missed n rs, map (λ (d, r). r) (kept rs)))
  unfolding load_truths missed
  load_truths-looked_up n [] = refl
  load_truths-looked_up n (d ∷ docs) = elim (Result-cases (find d)) [
    | inr (e, bad) ↦ rw bad refl
    | inl (none, good) ↦
        rw (good, load_truths-looked_up (suc n) docs)
          (elim (Result-cases (looked_up docs)) [
            | inl (rs, h) ↦ rw h refl
            | inr (e, h) ↦ rw h refl
          ])
    | inl (some r, good) ↦
        rw (good, load_truths-looked_up (suc n) docs)
          (elim (Result-cases (looked_up docs)) [
            | inl (rs, h) ↦ rw h refl
            | inr (e, h) ↦ rw h refl
          ])
  ]

  docs-looked_up :
      (docs : List A) (rs : List (A × Option B))
      → looked_up docs ≡ ok rs
      → docs ≡ map (λ (d, r). d) rs
  docs-looked_up [] rs h = let empty : rs ≡ [] = cc in rw empty refl
  docs-looked_up (d ∷ docs) rs h =
      let (r, good, rest) = >>=-eq-ok (find d) _ h in
      let (rs1, looked, last) = >>=-eq-ok (looked_up docs) _ rest in
      let longer : rs ≡ (d, r) ∷ rs1 = cc in
      rw longer (ap (λ t. d ∷ t) (docs-looked_up docs rs1 looked))

  -- `LoadGroundTruthDriver` on a request without ground truths leaves the documents that are found,
  -- in their order, and their ground truths in the same order.
  pub load_ground_truth-found_docs :
      (docs : List A)
      → load_ground_truth find (docs, [])
        ≡ (found_docs docs >>= λ found. ok (map (λ (d, r). d) found, map (λ (d, r). r) found))
  unfolding load_ground_truth
  load_ground_truth-found_docs docs =
      rw (load_truths-looked_up 0 docs, found_docs-looked_up docs)
        (elim (Result-cases (looked_up docs)) [
          | inl (rs, h) ↦ rw h (
              ap (λ t. ok (delete_reversed (missed 0 rs) t, map (λ (d, r). r) (kept rs)))
                (docs-looked_up docs rs h)
              ∙ ap (λ t. ok (t, map (λ (d, r). r) (kept rs))) (delete-missed (λ (d, r). d) rs))
          | inr (e, h) ↦ rw h refl
        ])

  -- `KVSearchDriver` keeps the documents that are found, filled, in their order, and deletes the
  -- others; an exception of the first document that raises one is raised.
  kv_search-found_docs :
      (fill : A → B → A) (docs : List A)
      → kv_search find fill docs
        ≡ (found_docs docs >>= λ found. ok (map (λ (d, r). fill d r) found))
  unfolding kv_search
  kv_search-found_docs fill docs =
      rw (fill_docs-looked_up fill 0 docs, found_docs-looked_up docs)
        (elim (Result-cases (looked_up docs)) [
          | inl (rs, h) ↦ rw h (ap ok (delete-missed (filled_one fill) rs))
          | inr (e, h) ↦ rw h refl
        ])

found_docs_eq {ℓ κ μ} :
    {A : Type ℓ} {B : Type κ} {E : Type μ} (f g : A → Result (SearchError E) (Option B))
    → ((d : A) → f d ≡ g d)
    → (docs : List A) → found_docs f docs ≡ found_docs g docs
found_docs_eq f g same [] = refl
found_docs_eq f g same (d ∷ docs) = rw (same d, found_docs_eq f g same docs) refl

module _ {ℓ κ} {A : Type ℓ} {B : Type κ} (order : ByteOrder) (id_of : A → Text)
    (parse : Bytes → Option B) where
  -- What the log of the items of an index has
  abbrev pub find_in_log : List (ℤ × Bytes) → A → Result (SearchError MapError) (Option B)
  find_in_log log d =
      lift_uid (id2hash order (id_of d)) >>= λ h. parse_found parse (last_value h log)

module _ {ℓ κ} {A : Type ℓ} {B : Type κ} (page_size : ℕ) (order : ByteOrder) (id_of : A → Text)
    (parse : Bytes → Option B) where
  -- What an index finds
  abbrev pub find_in : Indexer → A → Result (SearchError MapError) (Option B)
  find_in i d = find_doc order (λ h. query page_size h (get_query_handler i)) parse (id_of d)

  -- `KVSearchDriver` over a `BinaryPbIndexer` that holds a log of items none of which is empty
  -- keeps, in their order, the documents whose hash has a value in the log, each filled with the
  -- one that it was given last, and deletes the others. An identifier that is refused and a value
  -- that cannot be parsed are exceptions, that of the first such document; the file's map raises none.
  pub kv_search-Holds :
      (i : Indexer) (log : List (ℤ × Bytes)) (fill : A → B → A) (docs : List A)
      → Holds page_size i log
      → All HasBytes log
      → kv_search (find_in i) fill docs ≡ (
          found_docs (find_in_log order id_of parse log) docs >>= λ found.
          ok (map (λ (d, r). fill d r) found))
  kv_search-Holds i log fill docs holds all_bytes =
      kv_search-found_docs (find_in i) fill docs
      ∙ ap (λ t. t >>= λ found. ok (map (λ (d, r). fill d r) found))
          (found_docs_eq (find_in i) (find_in_log order id_of parse log) same docs)
    where
      same : (d : A) → find_in i d ≡ find_in_log order id_of parse log d
      same d = elim (Result-cases (lift_uid {E = MapError} (id2hash order (id_of d)))) [
        | inr (e, bad) ↦ rw bad refl
        | inl (h, good) ↦ rw good (rw (query-last_value page_size i log h holds all_bytes) refl)
      ]
