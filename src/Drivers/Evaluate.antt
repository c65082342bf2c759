-- ===== src/Drivers/Evaluate.antt =====
-- `BaseEvaluateDriver` of jina/drivers/evaluate.py with `DocGroundtruthPair` of
-- jina/drivers/helper.py: the traversal of jina/drivers/__init__.py, over pairs of a document and its
-- ground truth. An evaluation adds to the document of its pair only.
use jina.Prelude.{
  List, [], ◌∷◌, ◌==◌, map, not, if◌then◌else◌, Result, ok, err, ◌>>=◌, raise_if, ◌>>◌, length,
}
use jina.Prelude.Text.{Text}
use jina.Drivers.Traversal.{
  Doc, Edge, to_matches, to_chunks, nowhere, edge_of, children, set_children,
}
use jina.Drivers.Search.{SearchError, assertion_error, index_error}

abbrev pub docs_of {ℓ κ} : {A : Type ℓ} {B : Type κ} → List (A × B) → List A
docs_of = map (λ (d, t). d)

-- `zip(docs, groundtruths)`
abbrev pub pairs_of {ℓ κ} : {A : Type ℓ} {B : Type κ} → List A → List B → List (A × B)
pairs_of [] truths = []
pairs_of (d ∷ docs) [] = []
pairs_of (d ∷ docs) (t ∷ truths) = (d, t) ∷ pairs_of docs truths

module _ {ℓ κ μ} {A : Type ℓ} {B : Type κ} {E : Type μ} where
  -- A loop over pairs, which changes their documents
  abbrev pub each_pair :
      (Doc A × Doc B → Result (SearchError E) (Doc A))
      → List (Doc A × Doc B)
      → Result (SearchError E) (List (Doc A × Doc B))
  each_pair step [] = ok []
  each_pair step ((d, t) ∷ pairs) = do
    d1 ← step (d, t)
    rest ← each_pair step pairs
    ok ((d1, t) ∷ rest)

  -- `DocGroundtruthPair.matches` and `DocGroundtruthPair.chunks`, once they are iterated on
  unfoldable pub paired_children :
      Edge → Doc A × Doc B → Result (SearchError E) (List (Doc A × Doc B))
  paired_children edge (d, t) =
      raise_if (not (length (children edge d) == length (children edge t))) assertion_error
      >> ok (pairs_of (children edge d) (children edge t))

  module _ (evaluate : Doc A → Doc B → Result (SearchError E) (Doc A)) where
    -- `BaseEvaluateDriver._apply_all`
    abbrev pub evaluate_all : List (Doc A × Doc B) → Result (SearchError E) (List (Doc A × Doc B))
    evaluate_all = each_pair (λ (d, t). evaluate d t)

    abbrev pub put_back : Edge → Doc A → List (Doc A × Doc B) → Doc A
    put_back edge d pairs = set_children edge (docs_of pairs) d

    -- `_traverse_rec` on the children of a pair
    unfoldable pub visit_pair : Text → Edge → Doc A × Doc B → Result (SearchError E) (Doc A)
    unfolding paired_children
    visit_pair path nowhere (d, t) = ok d
    visit_pair [] to_matches (d, t) =
        paired_children to_matches (d, t) >>= evaluate_all >>= λ ps. ok (put_back to_matches d ps)
    visit_pair [] to_chunks (d, t) =
        paired_children to_chunks (d, t) >>= evaluate_all >>= λ ps. ok (put_back to_chunks d ps)
    visit_pair (next ∷ path) to_matches (d, t) =
        paired_children to_matches (d, t) >>= each_pair (visit_pair path (edge_of next)) >>= λ ps.
        ok (put_back to_matches d ps)
    visit_pair (next ∷ path) to_chunks (d, t) =
        paired_children to_chunks (d, t) >>= each_pair (visit_pair path (edge_of next)) >>= λ ps.
        ok (put_back to_chunks d ps)

    -- One round of `_traverse_apply`, over the pairs of a request
    unfoldable pub evaluate_path :
        Text → List (Doc A × Doc B) → Result (SearchError E) (List (Doc A × Doc B))
    unfolding visit_pair
    evaluate_path [] pairs = err index_error
    evaluate_path (edge ∷ path) pairs =
        let root = if edge == b'r' then evaluate_all pairs else ok pairs in
        root >>= each_pair (visit_pair path (edge_of edge))

    unfoldable pub evaluate_paths :
        List Text → List (Doc A × Doc B) → Result (SearchError E) (List (Doc A × Doc B))
    unfolding evaluate_path
    evaluate_paths [] pairs = ok pairs
    evaluate_paths (path ∷ paths) pairs = evaluate_path path pairs >>= evaluate_paths paths

    -- `BaseEvaluateDriver.__call__`, on the documents and the ground truths of the request
    unfoldable pub evaluate_docs :
        List Text
        → List (Doc A) × List (Doc B)
        → Result (SearchError E) (List (Doc A) × List (Doc B))
    unfolding evaluate_paths
    evaluate_docs paths (docs, groundtruths) =
        raise_if (not (length docs == length groundtruths)) assertion_error
        >> (evaluate_paths paths (pairs_of docs groundtruths) >>= λ ps.
            ok (docs_of ps, groundtruths))
