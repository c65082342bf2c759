-- ===== src/Executors/EvaluatorTests.antt =====
-- Matches of a document and their scores, and the theorem of the bounds at them.
use jina.Prelude.{◌≡◌, refl, [], ◌∷◌}
use jina.Executors.Evaluators.{quotient, count_hits, precision, recall}
use jina.Executors.EvaluatorLaws.{IsFraction, precision-recall-IsFraction}

-- A match that is listed twice is counted twice.
twice_run : precision 2 ("a" ∷ "a" ∷ []) ("a" ∷ []) ≡ quotient 2 1
unfolding precision count_hits
twice_run = refl

precision-recall-IsFraction_example :
    IsFraction (precision 2 ("a" ∷ "c" ∷ []) ("a" ∷ "b" ∷ []))
    × IsFraction (recall 2 ("a" ∷ "c" ∷ []) ("a" ∷ "b" ∷ []))
precision-recall-IsFraction_example =
    precision-recall-IsFraction 2 ("a" ∷ "c" ∷ []) ("a" ∷ "b" ∷ []) (refl, (refl, tt))
