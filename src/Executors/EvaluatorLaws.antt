-- ===== src/Executors/EvaluatorLaws.antt =====
-- The bounds of precision and recall.
use jina.Prelude.{
  ℕ, zero, suc, ◌≤◌, ◌<◌, ◌≡◌, refl, ◌==◌, true, false, List, [], ◌∷◌, if◌then◌else◌, length, take,
  length-take, min, String, str_eq, eq_iff, arith, inl, inr, Bool-cases,
}
use jina.Prelude.Dict.{contains}
use jina.Executors.Evaluators.{Score, zero_score, quotient, count_hits, precision, recall}

-- The identifiers are all different.
abbrev pub IsNodup : List String → Type 0
IsNodup [] = Unit
IsNodup (x ∷ xs) = (contains xs x ≡ false) × IsNodup xs

abbrev without : String → List String → List String
without x [] = []
without x (y ∷ ys) = let rest = without x ys in if str_eq y x then ys else y ∷ rest

length-without :
    (x : String) (ys : List String) → contains ys x ≡ true → length ys ≡ suc (length (without x ys))
length-without x [] h = cc
length-without x (y ∷ ys) h = ground (arith, length-without x ys)

contains-without :
    (x k : String) (ys : List String)
    → str_eq x k ≡ false
    → contains (without x ys) k ≡ contains ys k
contains-without x k [] h = refl
contains-without x k (y ∷ ys) h =
    ground (arith, contains-without x k ys, eq_iff y x, eq_iff y k, eq_iff x k)

count_hits-without :
    (x : String) (ys xs : List String)
    → contains xs x ≡ false
    → count_hits (without x ys) xs ≡ count_hits ys xs
unfolding count_hits
count_hits-without x ys [] h = refl
count_hits-without x ys (k ∷ xs) h =
    ground (arith, count_hits-without x ys xs, contains-without x k ys, eq_iff x k, eq_iff k x)

-- Different identifiers hit at most as often as there are desired ones.
count_hits-le-desired : (xs ys : List String) → IsNodup xs → count_hits ys xs ≤ length ys
unfolding count_hits
count_hits-le-desired [] ys h = omega arith
count_hits-le-desired (x ∷ xs) ys (fresh, h) = elim (Bool-cases (contains ys x)) [
  | inl hit ↦ rw hit (
      omega (
        arith,
        count_hits-le-desired xs (without x ys) h,
        count_hits-without x ys xs fresh,
        length-without x ys hit,
      ))
  | inr miss ↦ rw miss (count_hits-le-desired xs ys h)
]

count_hits-le-length : (ys xs : List String) → count_hits ys xs ≤ length xs
unfolding count_hits
count_hits-le-length ys [] = omega arith
count_hits-le-length ys (x ∷ xs) = ground (arith, count_hits-le-length ys xs)

contains-take :
    (n : ℕ) (xs : List String) (k : String) → contains xs k ≡ false → contains (take n xs) k ≡ false
contains-take zero xs k h = refl
contains-take (suc n) [] k h = refl
contains-take (suc n) (x ∷ xs) k h = ground (arith, contains-take n xs k)

take-IsNodup : (n : ℕ) (xs : List String) → IsNodup xs → IsNodup (take n xs)
take-IsNodup zero xs h = tt
take-IsNodup (suc n) [] h = tt
take-IsNodup (suc n) (x ∷ xs) (fresh, h) = (contains-take n xs x fresh, take-IsNodup n xs h)

-- A score between 0 and 1
abbrev pub IsFraction : Score → Type 0
IsFraction zero_score = Unit
IsFraction (quotient a b) = (a ≤ b) × (0 < b)

precision-IsFraction :
    (eval_at : ℕ) (actual desired : List String)
    → IsNodup actual
    → IsFraction (precision eval_at actual desired)
unfolding precision
precision-IsFraction eval_at actual desired h =
    elim (Bool-cases (min eval_at (length desired) == 0)) [
      | inl empty ↦ rw empty tt
      | inr divisor ↦ rw divisor (
        omega (
          arith,
          count_hits-le-desired (take eval_at actual) desired (take-IsNodup eval_at actual h),
          count_hits-le-length desired (take eval_at actual),
          length-take eval_at actual,
        ),
        ground arith,
      )
    ]

recall-IsFraction :
    (eval_at : ℕ) (actual desired : List String)
    → IsNodup actual
    → IsFraction (recall eval_at actual desired)
unfolding recall
recall-IsFraction eval_at actual [] h = tt
recall-IsFraction eval_at actual (d ∷ desired) h = (
  count_hits-le-desired (take eval_at actual) (d ∷ desired) (take-IsNodup eval_at actual h),
  omega arith,
)

-- If the matches of a document are all different, its precision and its recall are between 0 and 1
-- for every `eval_at`, whatever is desired, and nothing is divided by zero.
pub precision-recall-IsFraction :
    (eval_at : ℕ) (actual desired : List String)
    → IsNodup actual
    → IsFraction (precision eval_at actual desired) × IsFraction (recall eval_at actual desired)
precision-recall-IsFraction eval_at actual desired h =
    (precision-IsFraction eval_at actual desired h, recall-IsFraction eval_at actual desired h)
