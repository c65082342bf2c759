-- ===== src/Drivers/Reduce.antt =====
-- jina/drivers/reduce.py: the fields of the documents of all partial requests are collected by the
-- identifiers of the documents.
use jina.Prelude.{ℕ, zero, suc, Option, none, some, List, [], ◌∷◌, ◌++◌, map, String}
use jina.Prelude.Dict
use jina.Prelude.Dict.{Dict}

-- A document as the traversal meets it: its identifier, and the field that is collected, which is
-- its chunks, its matches, its evaluations or its embedding.
pub record Visit {ℓ} (A : Type ℓ) : Type ℓ where
  pub id : String
  pub field : List A

-- `doc_pointers`, to the documents by their place in the traversal, and the fields of all documents
-- at their places
pub record Reducer {ℓ} (A : Type ℓ) : Type ℓ where
  pub doc_pointers : Dict ℕ
  pub fields : List (List A)

module _ {ℓ} {A : Type ℓ} where
  -- `field.extend(docs)` of the document at a place
  unfoldable pub extend_at : ℕ → List A → List (List A) → List (List A)
  extend_at i docs [] = []
  extend_at zero docs (f ∷ fields) = (f ++ docs) ∷ fields
  extend_at (suc i) docs (f ∷ fields) = f ∷ extend_at i docs fields

  abbrev pub set_or_extend : ℕ → Visit A → Option ℕ → Reducer A → Reducer A
  set_or_extend i v none r = record r { doc_pointers = Dict.insert v.id i r.doc_pointers }
  set_or_extend i v (some j) r = record r { fields = extend_at j v.field r.fields }

  -- `_apply_all` of ReduceAllDriver and of CollectEvaluationDriver, at the place `i`
  abbrev pub reduce_visit : ℕ → Visit A → Reducer A → Reducer A
  reduce_visit i v r = set_or_extend i v (Dict.lookup v.id r.doc_pointers) r

  abbrev pub reduce_from : ℕ → List (Visit A) → Reducer A → Reducer A
  reduce_from i [] r = r
  reduce_from i (v ∷ visits) r = reduce_from (suc i) visits (reduce_visit i v r)

  abbrev pub own_fields : List (Visit A) → List (List A)
  own_fields = map (λ v. v.field)

  -- `ReduceAllDriver.__call__`: the traversal of all documents, and the fields that it leaves
  unfoldable pub reduce_all : List (Visit A) → List (List A)
  unfolding extend_at
  reduce_all visits =
      (reduce_from 0 visits record { doc_pointers = []; fields = own_fields visits }).fields

  -- `docs` of several partial requests: those of the last request come first.
  abbrev pub docs_of_parts : List (List (Visit A)) → List (Visit A)
  docs_of_parts [] = []
  docs_of_parts (part ∷ parts) = docs_of_parts parts ++ part

  -- The first pass of ConcatEmbedDriver: `doc_pointers` holds the embeddings by identifier.
  abbrev pub append_embedding : Option (List A) → List A → List A
  append_embedding none e = e
  append_embedding (some es) e = es ++ e

  unfoldable pub collect_embeddings : List (Visit A) → Dict (List A) → Dict (List A)
  collect_embeddings [] pointers = pointers
  collect_embeddings (v ∷ visits) pointers =
      collect_embeddings visits
        (Dict.insert v.id (append_embedding (Dict.lookup v.id pointers) v.field) pointers)
