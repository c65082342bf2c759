-- ===== src/Drivers/EvaluateLaws.antt =====
-- What an evaluation reaches, and that loading the ground truths prepares it.
use jina.Prelude.{
  suc, ◌==◌, ◌≡◌, refl, ap, true, Option, List, [], ◌∷◌, map, Result, ok, ◌>>=◌, length, arith, inl,
  inr, Result-cases,
}
use jina.Prelude.Text.{Text}
use jina.Drivers.Traversal.{Doc}
use jina.Drivers.Search.{SearchError, load_ground_truth}
use jina.Drivers.SearchLaws.{found_docs, load_ground_truth-found_docs}
use jina.Drivers.Evaluate.{docs_of, pairs_of, evaluate_paths, evaluate_docs}

module _ {ℓ κ} {A : Type ℓ} {B : Type κ} where
  length-both :
      (found : List (A × B)) → length (map (λ (d, r). d) found) ≡ length (map (λ (d, r). r) found)
  length-both [] = refl
  length-both (x ∷ found) = ap suc (length-both found)

  pairs_of-both :
      (found : List (A × B)) → pairs_of (map (λ (d, r). d) found) (map (λ (d, r). r) found) ≡ found
  pairs_of-both [] = refl
  pairs_of-both ((d, r) ∷ found) = ap (λ l. (d, r) ∷ l) (pairs_of-both found)

module _ {ℓ κ μ} {A : Type ℓ} {B : Type κ} {E : Type μ}
    (find : Doc A → Result (SearchError E) (Option (Doc B))) where
  -- The two drivers of an evaluation, one after the other, on a request without ground truths and
  -- for any traversal paths: the documents that are not found are gone, the numbers of documents
  -- and of ground truths agree, so that the assertion on them does not fail, and the paths are
  -- followed from the pairs of each document that is found with its own ground truth, in their
  -- order. The exceptions of the look-up come first, then those of the evaluation, among them the
  -- assertions that the two of a pair have as many matches or chunks.
  pub load_ground_truth-evaluate_docs :
      (evaluate : Doc A → Doc B → Result (SearchError E) (Doc A)) (paths : List Text)
      (docs : List (Doc A))
      → (load_ground_truth find (docs, []) >>= evaluate_docs evaluate paths) ≡ (
          found_docs find docs >>= λ found.
          evaluate_paths evaluate paths found >>= λ ps. ok (docs_of ps, map (λ (d, r). r) found))
  unfolding evaluate_docs
  load_ground_truth-evaluate_docs evaluate paths docs =
      rw (load_ground_truth-found_docs find docs) (elim (Result-cases (found_docs find docs)) [
        | inr (e, h) ↦ rw h refl
        | inl (found, h) ↦
            let same : (length (map (λ (d, r). d) found) == length (map (λ (d, r). r) found))
                ≡ true =
              ground (arith, length-both found) in
            rw h (rw same (rw (pairs_of-both found) refl))
      ])
