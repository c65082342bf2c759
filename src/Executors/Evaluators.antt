-- ===== src/Executors/Evaluators.antt =====
-- jina/executors/evaluators/rank: the precision and the recall of the matches of a document.
use jina.Prelude.{ℕ, suc, ◌==◌, List, [], ◌∷◌, if◌then◌else◌, length, take, min, String}
use jina.Prelude.Dict.{contains}

-- The float that is returned: 0.0, or a quotient of two counts
pub data Score : Type 0 where
  zero_score : Score
  quotient : ℕ → ℕ → Score

-- The loop of both evaluators: `ret`, over `actual[:eval_at]`
unfoldable pub count_hits : List String → List String → ℕ
count_hits desired [] = 0
count_hits desired (doc_id ∷ actual) =
    let rest = count_hits desired actual in if contains desired doc_id then suc rest else rest

module _ (eval_at : ℕ) where
  -- `PrecisionEvaluator.evaluate`
  unfoldable pub precision : List String → List String → Score
  unfolding count_hits
  precision actual desired =
      if min eval_at (length desired) == 0
      then zero_score
      else quotient (count_hits desired (take eval_at actual)) (min eval_at (length desired))

  -- `RecallEvaluator.evaluate`
  unfoldable pub recall : List String → List String → Score
  unfolding count_hits
  recall actual [] = zero_score
  recall actual (d ∷ desired) =
      quotient (count_hits (d ∷ desired) (take eval_at actual)) (length (d ∷ desired))
