-- ===== src/Drivers/QueryLangLaws.antt =====
-- The list drivers against what they promise.
use jina.Prelude.{
  ℕ, suc, ◌≡◌, refl, ap, sym, ◌∙◌, Bool, true, ◌&&◌, Option, List, [], ◌∷◌, ◌++◌, leb, map,
  if◌then◌else◌, Result, ok, ◌>>=◌, length, take, drop, min, arith, Bool-cases, Result-cases, inl,
  inr,
}
use mathlib.Core.List.{append-nil, append_assoc}
use jina.Prelude.Cuts.{take_all, drop_past, drop-length-append}
use jina.Prelude.Int.{ℤ, pos, negsuc, leb_ℤ, slice_bound}
use jina.Prelude.Text.{Text}
use jina.QuerySet.{Value, LookupError}
use jina.QuerySet.Lookup.{Lookups, lookup, no_lookup, evaluate, negate_if}
use jina.Drivers.QueryLang.{
  passes_lookups, apply_filter, delete_at, delete_reversed, miss_idx, filter_ql, slice_ql,
  add_reversed, reverse_ql,
}

whole_bound : (n : ℕ) (end : ℤ) → leb_ℤ (pos n) end ≡ true → slice_bound n end ≡ n
whole_bound n (pos e) h = ground arith
whole_bound n (negsuc e) h = ground arith

module _ {ℓ} {A : Type ℓ} where
  pub delete_reversed-suc :
      (js : List ℕ) (x : A) (xs : List A)
      → delete_reversed (map suc js) (x ∷ xs) ≡ x ∷ delete_reversed js xs
  unfolding delete_reversed delete_at
  delete_reversed-suc [] x xs = refl
  delete_reversed-suc (j ∷ js) x xs = rw (delete_reversed-suc js x xs) refl

  miss_idx-suc {κ} :
      {E : Type κ} (evaluate : A → Result E Bool) (n : ℕ) (xs : List A)
      → miss_idx evaluate (suc n) xs ≡ (miss_idx evaluate n xs >>= λ js. ok (map suc js))
  unfolding miss_idx
  miss_idx-suc evaluate n [] = refl
  miss_idx-suc evaluate n (x ∷ xs) = ground (arith, miss_idx-suc evaluate (suc n) xs)

  -- The documents that pass, in their order; an exception of a document that is asked is the answer.
  abbrev pub keep_passing {κ} : {E : Type κ} → (A → Result E Bool) → List A → Result E (List A)
  keep_passing evaluate [] = ok []
  keep_passing evaluate (x ∷ xs) = do
    passed ← evaluate x
    kept ← keep_passing evaluate xs
    ok (if passed then x ∷ kept else kept)

  pub delete_zero :
      (js : List ℕ) (x : A) (xs : List A)
      → delete_reversed (0 ∷ map suc js) (x ∷ xs) ≡ delete_reversed js xs
  unfolding delete_reversed delete_at
  delete_zero js x xs = rw (delete_reversed-suc js x xs) refl

  filter_ql-keep_passing {κ} :
      {E : Type κ} (evaluate : A → Result E Bool) (docs : List A)
      → filter_ql evaluate docs ≡ keep_passing evaluate docs
  unfolding filter_ql miss_idx
  filter_ql-keep_passing evaluate [] = refl
  filter_ql-keep_passing evaluate (x ∷ xs) = elim (Result-cases (evaluate x)) [
    | inr (e, bad) ↦ ground arith
    | inl (b, good) ↦ elim (Result-cases (miss_idx evaluate 0 xs)) [
      | inr (e, bad) ↦
          ground (arith, miss_idx-suc evaluate 0 xs, filter_ql-keep_passing evaluate xs)
      | inl (js, missed) ↦ ground (
        arith,
        miss_idx-suc evaluate 0 xs,
        filter_ql-keep_passing evaluate xs,
        delete_reversed-suc js x xs,
        delete_zero js x xs,
      )
    ]
  ]

  keep_all :
      (test : A → Result LookupError Bool)
      → ((d : A) → test d ≡ ok true)
      → (docs : List A) → keep_passing test docs ≡ ok docs
  keep_all test h [] = refl
  keep_all test h (d ∷ docs) = rw (h d, keep_all test h docs) refl

  -- `FilterQL` keeps exactly the documents that pass all its look-ups, in their order, though it
  -- deletes the others from the last to the first; without look-ups it keeps all. An exception of
  -- the first document that raises one is raised.
  pub apply_filter-keep_passing :
      (search : Text → Text → Option Bool) (lookups : Lookups) (to_value : A → Value)
      (docs : List A)
      → apply_filter search lookups to_value docs
        ≡ keep_passing (passes_lookups search lookups to_value) docs
  unfolding apply_filter evaluate negate_if
  apply_filter-keep_passing search no_lookup to_value docs = sym (keep_all _ (λ d. refl) docs)
  apply_filter-keep_passing search (lookup k arg more) to_value docs =
      filter_ql-keep_passing (passes_lookups search (lookup k arg more) to_value) docs

  drop-min : (n : ℕ) (xs : List A) → drop (min n (length xs)) xs ≡ drop n xs
  drop-min n xs = elim (Bool-cases (leb n (length xs))) [
    | inl short ↦ ap (λ i. drop i xs) (ground arith)
    | inr long ↦
        let all : min n (length xs) ≡ length xs = ground arith in
        ap (λ i. drop i xs) all
        ∙ drop_past (length xs) xs (omega arith)
        ∙ sym (drop_past n xs (ground arith))
  ]

  -- A slice with a start that is not negative is the documents from `start` up to `end`, where a
  -- negative end counts from the end of the documents.
  pub slice_ql-take-drop :
      (start : ℕ) (end : ℤ) (docs : List A)
      → slice_ql (pos start) end docs ≡ drop start (take (slice_bound (length docs) end) docs)
  unfolding slice_ql
  slice_ql-take-drop start end docs =
      elim (Bool-cases (leb_ℤ (pos start) (pos 0) && leb_ℤ (pos (length docs)) end)) [
        | inl whole ↦
            let zero_start : start ≡ 0 = ground arith in
            let all = whole_bound (length docs) end (ground arith) in
            rw whole (sym (rw (zero_start, all) (take_all docs (length docs) (omega arith))))
        | inr part ↦ rw part (drop-min start (take (slice_bound (length docs) end) docs))
      ]

  -- The reversed documents
  abbrev pub reversed : List A → List A
  reversed [] = []
  reversed (x ∷ xs) = reversed xs ++ (x ∷ [])

  add_reversed-append : (ds docs : List A) → add_reversed ds docs ≡ docs ++ reversed ds
  unfolding add_reversed
  add_reversed-append [] docs = sym (append-nil docs)
  add_reversed-append (d ∷ ds) docs =
      ap (λ t. t ++ (d ∷ [])) (add_reversed-append ds docs)
      ∙ append_assoc docs (reversed ds) (d ∷ [])

  -- `ReverseQL` leaves as many documents as there were, in the reverse order.
  reverse_ql-reversed : (docs : List A) → reverse_ql docs ≡ reversed docs
  unfolding reverse_ql
  reverse_ql-reversed docs =
      rw (add_reversed-append docs docs) (drop-length-append docs (reversed docs))
