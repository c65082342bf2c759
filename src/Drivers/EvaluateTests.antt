-- ===== src/Drivers/EvaluateTests.antt =====
-- Documents with their chunks, evaluated against ground truths.
use jina.Prelude.{
  arith, ◌≡◌, refl, Option, some, none, List, [], ◌∷◌, map, Result, ok, err, ◌>>=◌, ◌*◌, ◌+◌, ltb,
  if◌then◌else◌, ℕ,
}
use jina.Prelude.Text.{Text, codes}
use jina.Drivers.Traversal.{Doc, doc, no_docs, add_doc}
use jina.Drivers.Search.{SearchError, assertion_error, load_ground_truth}
use jina.Drivers.SearchLaws.{found_docs}
use jina.Drivers.Evaluate.{
  docs_of, pairs_of, visit_pair, paired_children, evaluate_path, evaluate_paths, evaluate_docs,
}
use jina.Drivers.EvaluateShapes.{Alike, AllAlike, truths_of, Succeeds, evaluate_docs-AllAlike}
use jina.Drivers.EvaluateLaws.{load_ground_truth-evaluate_docs}

abbrev single : ℕ → Doc ℕ
single n = doc n no_docs no_docs

abbrev with_chunk : ℕ → ℕ → Doc ℕ
with_chunk n c = doc n (add_doc (single c) no_docs) no_docs

-- Documents above 5 have a ground truth, with one chunk.
abbrev find_truth : Doc ℕ → Result (SearchError ℕ) (Option (Doc ℕ))
find_truth (doc n cs ms) = ok (if ltb 5 n then some (with_chunk (n * 10) (n * 10 + 1)) else none)

-- The evaluation is the ground truth itself.
abbrev replace : Doc ℕ → Doc ℕ → Result (SearchError ℕ) (Doc ℕ)
replace (doc n cs ms) (doc t cs2 ms2) = ok (doc t cs ms)

abbrev default_paths : List Text
default_paths = codes "c" ∷ codes "r" ∷ []

abbrev three_docs : List (Doc ℕ)
three_docs = with_chunk 6 1 ∷ with_chunk 2 3 ∷ with_chunk 7 4 ∷ []

evaluated_run :
    (load_ground_truth find_truth (three_docs, []) >>= evaluate_docs replace default_paths)
    ≡ ok (with_chunk 60 61 ∷ with_chunk 70 71 ∷ [], with_chunk 60 61 ∷ with_chunk 70 71 ∷ [])
unfolding load_ground_truth evaluate_docs evaluate_paths evaluate_path visit_pair paired_children
evaluated_run = refl

-- A document without chunks, whose ground truth has one
fewer_chunks_run :
    evaluate_docs replace default_paths (single 6 ∷ [], with_chunk 60 61 ∷ []) ≡ err assertion_error
unfolding evaluate_docs evaluate_paths evaluate_path visit_pair paired_children
fewer_chunks_run = refl

load_ground_truth-evaluate_docs_example :
    (load_ground_truth find_truth (three_docs, []) >>= evaluate_docs replace default_paths) ≡ (
      found_docs find_truth three_docs >>= λ found.
      evaluate_paths replace default_paths found >>= λ ps. ok (docs_of ps, map (λ (d, r). r) found))
load_ground_truth-evaluate_docs_example =
    load_ground_truth-evaluate_docs find_truth replace default_paths three_docs

replace-Succeeds : Succeeds (λ (d, t). replace d t)
unfolding Alike
replace-Succeeds (doc a cs ms) (doc b ds ns) h = (doc b cs ms, refl, h)

two_alike : AllAlike (pairs_of (with_chunk 6 1 ∷ []) (with_chunk 60 61 ∷ []))
unfolding Alike
two_alike = ((((tt, tt), tt), tt), tt)

evaluate_docs-AllAlike_example :
    (after : List (Doc ℕ × Doc ℕ)) × (evaluate_docs replace default_paths
        (with_chunk 6 1 ∷ [], with_chunk 60 61 ∷ [])
      ≡ ok (docs_of after, with_chunk 60 61 ∷ []))
    × AllAlike after
    × (truths_of after ≡ with_chunk 60 61 ∷ [])
evaluate_docs-AllAlike_example =
    evaluate_docs-AllAlike replace replace-Succeeds default_paths (with_chunk 6 1 ∷ [])
      (with_chunk 60 61 ∷ []) (λ e. ground (arith, e), (λ e. ground (arith, e), tt)) refl two_alike
