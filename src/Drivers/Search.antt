-- ===== src/Drivers/Search.antt =====
-- jina/drivers/search.py and evaluate.py: documents and ground truths looked up by the identifiers
-- in a key-value index.
use jina.Prelude.{
  ℕ, suc, ◌==◌, Option, none, some, List, [], ◌∷◌, not, Result, ok, err, ◌>>=◌, raise_if, ◌>>◌,
  length,
}
use jina.Prelude.Int.{ℤ}
use jina.Prelude.Text.{Text}
use jina.Types.Uid.{Bytes, ByteOrder, UidError, id2hash}
use jina.Drivers.QueryLang.{delete_reversed}

pub data SearchError {ℓ} (E : Type ℓ) : Type ℓ where
  uid_error : UidError → SearchError E
  executor_error : E → SearchError E
  decode_error assertion_error index_error : SearchError E

abbrev pub lift_uid {ℓ κ} : {E : Type ℓ} {A : Type κ} → Result UidError A → Result (SearchError E) A
lift_uid (ok a) = ok a
lift_uid (err e) = err (uid_error e)

abbrev pub lift_executor {ℓ κ} : {E : Type ℓ} {A : Type κ} → Result E A → Result (SearchError E) A
lift_executor (ok a) = ok a
lift_executor (err e) = err (executor_error e)

module _ {ℓ κ} {B : Type ℓ} {E : Type κ} where
  -- `ParseFromString` of what the executor returned, where that is not None and not empty
  abbrev pub parse_found : (Bytes → Option B) → Option Bytes → Result (SearchError E) (Option B)
  parse_found parse none = ok none
  parse_found parse (some []) = ok none
  parse_found parse (some (b ∷ bs)) = elim (parse (b ∷ bs)) [
    | some r ↦ ok (some r)
    | none ↦ err decode_error
  ]

  -- `self.exec_fn(self.id2hash(doc.id))`
  abbrev pub find_doc :
      ByteOrder
      → (ℤ → Result E (Option Bytes))
      → (Bytes → Option B)
      → Text
      → Result (SearchError E) (Option B)
  find_doc order exec_fn parse id = do
    h ← lift_uid (id2hash order id)
    serialized ← lift_executor (exec_fn h)
    parse_found parse serialized

module _ {ℓ κ} {A : Type ℓ} {B : Type κ} where
  abbrev pub fill_one : (A → B → A) → ℕ → A → Option B → List ℕ × List A → List ℕ × List A
  fill_one fill idx d none (missed, docs) = (idx ∷ missed, d ∷ docs)
  fill_one fill idx d (some r) (missed, docs) = (missed, fill d r ∷ docs)

abbrev pub load_one {ℓ} : {B : Type ℓ} → ℕ → Option B → List ℕ × List B → List ℕ × List B
load_one idx none (missed, truths) = (idx ∷ missed, truths)
load_one idx (some r) (missed, truths) = (missed, r ∷ truths)

module _ {ℓ κ μ} {A : Type ℓ} {B : Type κ} {E : Type μ} where
  -- The first loop of `KVSearchDriver._apply_all`: the documents as they are filled, and the indices
  -- of those that are not found. `fill` is `MergeFrom` or `CopyFrom`.
  unfoldable pub fill_docs :
      (A → Result (SearchError E) (Option B))
      → (A → B → A)
      → ℕ
      → List A
      → Result (SearchError E) (List ℕ × List A)
  fill_docs find fill idx [] = ok ([], [])
  fill_docs find fill idx (d ∷ docs) = do
    r ← find d
    rest ← fill_docs find fill (suc idx) docs
    ok (fill_one fill idx d r rest)

  -- `KVSearchDriver._apply_all`
  unfoldable pub kv_search :
      (A → Result (SearchError E) (Option B))
      → (A → B → A)
      → List A
      → Result (SearchError E) (List A)
  unfolding fill_docs delete_reversed
  kv_search find fill docs =
      fill_docs find fill 0 docs >>= λ (missed, filled). ok (delete_reversed missed filled)

  -- The first loop of `LoadGroundTruthDriver.__call__`
  unfoldable pub load_truths :
      (A → Result (SearchError E) (Option B))
      → ℕ
      → List A
      → Result (SearchError E) (List ℕ × List B)
  load_truths find idx [] = ok ([], [])
  load_truths find idx (d ∷ docs) = do
    r ← find d
    rest ← load_truths find (suc idx) docs
    ok (load_one idx r rest)

  -- `LoadGroundTruthDriver.__call__`, on the documents and the ground truths of the request
  unfoldable pub load_ground_truth :
      (A → Result (SearchError E) (Option B))
      → List A × List B
      → Result (SearchError E) (List A × List B)
  unfolding load_truths delete_reversed
  load_ground_truth find (docs, groundtruths) =
      raise_if (not (length groundtruths == 0)) assertion_error
      >> (load_truths find 0 docs >>= λ (missed, truths). ok (delete_reversed missed docs, truths))
