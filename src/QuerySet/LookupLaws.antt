-- ===== src/QuerySet/LookupLaws.antt =====
-- What the look-ups and their trees answer.
use jina.Prelude.{
  ◌≡◌, ◌≢◌, refl, Bool, true, false, not, Option, some, List, [], ◌∷◌, if◌then◌else◌, ok, err,
  ◌>>=◌, arith, Result-cases, inl, inr, select, All,
}
use jina.Prelude.Text.{Text, codes}
use jina.QuerySet.{Value, null}
use jina.QuerySet.Keys.{dunderkey, dunder_get, rsplit_once, dunder_partition}
use jina.QuerySet.KeyLaws.{dunder_partition-dunderkey}
use jina.QuerySet.Lookup.{
  Tree, leaf, node, Lookups, value, Children, and_op, Answer, less, less_eq, compare_with,
  iff_not_none, kind_of, lookup_value, filter_items, negate_if, and_then, or_else, evaluate,
  eval_lookup, or_tree, and_tree, invert,
}

or_pair :
    (a b : Answer)
    → negate_if false (or_else a (or_else b (ok false))) ≡ (a >>= λ r. if r then ok true else b)
unfolding negate_if or_else
or_pair a b = ground arith

and_pair :
    (a b : Answer)
    → negate_if false (and_then a (and_then b (ok true))) ≡ (a >>= λ r. if r then b else ok false)
unfolding negate_if and_then
and_pair a b = ground arith

negate_if-not : (n : Bool) (a : Answer) → negate_if (not n) a ≡ (negate_if n a >>= λ b. ok (not b))
unfolding negate_if
negate_if-not n a = ground arith

-- The tests that a list of values passed, in one walk over the list.
abbrev pub passes : (Value → Answer) → Value → Bool
passes test v = elim (test v) [ ok b ↦ b | err e ↦ false ]

abbrev pub Answers : (Value → Answer) → Value → Type 0
Answers test v = test v ≡ ok (passes test v)

-- `filter_items` gives exactly the items that pass, in their order, and only if no test raised.
filter_items-select :
    (test : Value → Answer) (vs rs : List Value)
    → filter_items test vs ≡ ok rs
    → (rs ≡ select (passes test) vs) × All (Answers test) vs
unfolding filter_items
filter_items-select test [] rs h = ground arith
filter_items-select test (v ∷ vs) rs h = elim (Result-cases (test v)) [
  | inr (e, bad) ↦ absurd (ground arith)
  | inl (b, good) ↦ elim (Result-cases (filter_items test vs)) [
    | inr (e, bad) ↦ absurd (ground arith)
    | inl (rest, found) ↦ ground (arith, filter_items-select test vs rest found)
  ]
]

iff_not_none-given : (y : Value) (f : Value → Answer) → y ≢ null → iff_not_none y f ≡ f y
unfolding iff_not_none
iff_not_none-given null f h = absurd (h refl)
iff_not_none-given _ f h = refl

partition_neq :
    (init : Text)
    → dunder_partition (dunderkey (init ∷ codes "neq" ∷ [])) ≡ (init, some (codes "neq"))
unfolding rsplit_once
partition_neq init = dunder_partition-dunderkey init _ refl refl

partition_exact :
    (init : Text)
    → dunder_partition (dunderkey (init ∷ codes "exact" ∷ [])) ≡ (init, some (codes "exact"))
unfolding rsplit_once
partition_exact init = dunder_partition-dunderkey init _ refl refl

partition_lte :
    (init : Text)
    → dunder_partition (dunderkey (init ∷ codes "lte" ∷ [])) ≡ (init, some (codes "lte"))
unfolding rsplit_once
partition_lte init = dunder_partition-dunderkey init _ refl refl

partition_gt :
    (init : Text)
    → dunder_partition (dunderkey (init ∷ codes "gt" ∷ [])) ≡ (init, some (codes "gt"))
unfolding rsplit_once
partition_gt init = dunder_partition-dunderkey init _ refl refl

module _ (search : Text → Text → Option Bool) where
  -- `p | q` asks `q` only if `p` fails, `p & q` only if `p` holds, and an exception of a tree that
  -- is asked is the answer.
  evaluate-or_tree-and_tree :
      (p q : Tree) (item : Value)
      → (evaluate search (or_tree p q) item
          ≡ (evaluate search p item >>= λ a. if a then ok true else evaluate search q item))
        × (evaluate search (and_tree p q) item
            ≡ (evaluate search p item >>= λ a. if a then evaluate search q item else ok false))
  unfolding evaluate or_tree and_tree
  evaluate-or_tree-and_tree p q item = (or_pair _ _, and_pair _ _)

  -- Inverting a leaf, or a node that joins by `and`, negates what it Answers; an exception stays.
  evaluate-invert :
      (negate : Bool) (lookups : Lookups) (children : Children) (item : Value)
      → (evaluate search (invert (leaf negate lookups)) item
          ≡ (evaluate search (leaf negate lookups) item >>= λ b. ok (not b)))
        × (evaluate search (invert (node negate and_op children)) item
            ≡ (evaluate search (node negate and_op children) item >>= λ b. ok (not b)))
  unfolding evaluate invert
  evaluate-invert negate lookups children item = (negate_if-not negate _, negate_if-not negate _)

  evaluate-invert-or_tree-and_tree :
      (p q : Tree) (item : Value)
      → evaluate search (invert (or_tree p q)) item
        ≡ (evaluate search (and_tree p q) item >>= λ b. ok (not b))
  unfolding evaluate invert or_tree and_tree
  evaluate-invert-or_tree-and_tree p q item = negate_if-not false _

  -- Inverting `p | q` loses the `or`: where `p` holds and `q` does not, both `p | q` and its
  -- inversion hold.
  pub evaluate-invert-or_tree :
      (p q : Tree) (item : Value)
      → evaluate search p item ≡ ok true
      → evaluate search q item ≡ ok false
      → (evaluate search (or_tree p q) item ≡ ok true)
        × (evaluate search (invert (or_tree p q)) item ≡ ok true)
  evaluate-invert-or_tree p q item hp hq =
      let (o, a) = evaluate-or_tree-and_tree p q item in
      (ground arith, ground (arith, evaluate-invert-or_tree-and_tree p q item))

  -- `a__neq` is the negation of `a__exact`, and of a value that is not `None` `a__lte` is the
  -- negation of `a__gt`; an exception of the one is the exception of the other.
  eval_lookup-neq-lte :
      (init : Text) (w item y : Value)
      → dunder_get item init ≡ ok y
      → y ≢ null
      → (eval_lookup search (value w) (dunderkey (init ∷ codes "neq" ∷ [])) item ≡ (
          eval_lookup search (value w) (dunderkey (init ∷ codes "exact" ∷ [])) item >>= λ b.
          ok (not b)))
        × (eval_lookup search (value w) (dunderkey (init ∷ codes "lte" ∷ [])) item ≡ (
            eval_lookup search (value w) (dunderkey (init ∷ codes "gt" ∷ [])) item >>= λ b.
            ok (not b)))
  unfolding eval_lookup lookup_value kind_of less_eq compare_with
  eval_lookup-neq-lte init w item y found given =
      rw (partition_neq init, partition_exact init, partition_lte init, partition_gt init)
        (
          ground arith,
          ground (
            arith,
            iff_not_none-given y (λ (v : Value). less_eq v w) given,
            iff_not_none-given y (λ (v : Value). less w v) given,
          ),
        )
