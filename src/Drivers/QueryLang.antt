-- ===== src/Drivers/QueryLang.antt =====
-- jina/drivers/querylang: `_apply_all` of FilterQL, SliceQL and ReverseQL on a list of documents.
use jina.Prelude.{
  ℕ, zero, suc, Bool, false, ◌&&◌, Option, List, [], ◌∷◌, ◌++◌, if◌then◌else◌, Result, ok, ◌>>=◌,
  length, take, drop,
}
use jina.Prelude.Text.{Text}
use jina.QuerySet.{Value, LookupError}
use jina.QuerySet.Lookup.{Lookups, lookup, no_lookup, leaf, evaluate}
use jina.Prelude.Int.{ℤ, pos, leb_ℤ, slice_bound}

module _ {ℓ} {A : Type ℓ} where
  -- `del docs[j]`
  unfoldable pub delete_at : ℕ → List A → List A
  delete_at j [] = []
  delete_at zero (x ∷ xs) = xs
  delete_at (suc j) (x ∷ xs) = x ∷ delete_at j xs

  -- `for j in reversed(indices): del docs[j]`
  unfoldable pub delete_reversed : List ℕ → List A → List A
  unfolding delete_at
  delete_reversed [] xs = xs
  delete_reversed (j ∷ js) xs = delete_at j (delete_reversed js xs)

  -- The first loop of `FilterQL._apply_all`: the indices of the documents that fail.
  unfoldable pub miss_idx {κ} : {E : Type κ} → (A → Result E Bool) → ℕ → List A → Result E (List ℕ)
  miss_idx evaluate idx [] = ok []
  miss_idx evaluate idx (x ∷ xs) = do
    passed ← evaluate x
    missed ← miss_idx evaluate (suc idx) xs
    ok (if passed then missed else idx ∷ missed)

  -- `FilterQL._apply_all` where there are look-ups, of which `evaluate` is the test
  unfoldable pub filter_ql {κ} : {E : Type κ} → (A → Result E Bool) → List A → Result E (List A)
  unfolding miss_idx delete_reversed
  filter_ql evaluate docs = miss_idx evaluate 0 docs >>= λ missed. ok (delete_reversed missed docs)

  module _ (search : Text → Text → Option Bool) where
    -- `Q(**self.lookups).evaluate(doc)`, of a document that the look-ups see as a value
    abbrev pub passes_lookups : Lookups → (A → Value) → A → Result LookupError Bool
    passes_lookups lookups to_value d = evaluate search (leaf false lookups) (to_value d)

    -- `FilterQL._apply_all`
    unfoldable pub apply_filter : Lookups → (A → Value) → List A → Result LookupError (List A)
    unfolding filter_ql
    apply_filter no_lookup to_value docs = ok docs
    apply_filter (lookup k arg more) to_value docs =
        filter_ql (passes_lookups (lookup k arg more) to_value) docs

  -- `SliceQL._apply_all`; `end` is `sys.maxsize` where it is not given.
  unfoldable pub slice_ql : ℤ → ℤ → List A → List A
  slice_ql start end docs =
      if leb_ℤ start (pos 0) && leb_ℤ (pos (length docs)) end
      then docs
      else (let kept = take (slice_bound (length docs) end) docs in
          drop (slice_bound (length kept) start) kept)

  -- The loop of `ReverseQL._apply_all`: copies of the documents are added from the last to the first.
  unfoldable pub add_reversed : List A → List A → List A
  add_reversed [] docs = docs
  add_reversed (d ∷ ds) docs = add_reversed ds docs ++ (d ∷ [])

  -- `ReverseQL._apply_all`
  unfoldable pub reverse_ql : List A → List A
  unfolding add_reversed
  reverse_ql docs = drop (length docs) (add_reversed docs docs)
