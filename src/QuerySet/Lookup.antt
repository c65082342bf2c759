-- ===== src/QuerySet/Lookup.antt =====
-- jina/drivers/querylang/queryset/lookup.py: the look-up of one key, and the trees of look-ups.
-- `re.search` is the parameter `search` of the definitions that use it.
use jina.Prelude.{
  Bool, true, false, ◌||◌, not, Option, none, some, List, [], ◌∷◌, ◌++◌, if◌then◌else◌, Result, ok,
  err, ◌>>=◌, ltb, length, map,
}
use jina.Prelude.Int.{ℤ, ltb_ℤ}
use jina.Prelude.Text
use jina.Prelude.Text.{Text, codes, text_eq, text_lt, lower}
use jina.QuerySet.{
  Value, null, bool, int, str, list, dict, obj, Items, nil, cons, Fields, end, field, LookupError,
  lookupy, attribute, type_error, regex_error, as_int, find, value_eq,
}
use jina.QuerySet.Keys.{dunder_partition, dunder_get, to_list}

-- `LookupNode.op`
pub data Op : Type 0 where
  and_op or_op : Op

-- What a look-up compares with: a value, or a tree of look-ups for `filter`.
mutual
  pub data Tree : Type 0 where
    leaf : Bool → Lookups → Tree
    node : Bool → Op → Children → Tree

  pub data Lookups : Type 0 where
    no_lookup : Lookups
    lookup : Text → Arg → Lookups → Lookups

  pub data Arg : Type 0 where
    value : Value → Arg
    query : Tree → Arg

  pub data Children : Type 0 where
    no_child : Children
    child : Tree → Children → Children

abbrev pub Answer : Type 0
Answer = Result LookupError Bool

-- `guard_str`
unfoldable pub guard_str : Arg → Result LookupError Text
guard_str (value (str s)) = ok s
guard_str _ = err lookupy

keys_of : Fields → List Value
keys_of end = []
keys_of (field k v fs) = str k ∷ keys_of fs

-- `list(guard_iter(v))`: the items of a list, the characters of a text, the keys of a dict.
unfoldable pub guard_iter : Value → Result LookupError (List Value)
unfolding keys_of
guard_iter (list vs) = ok (to_list vs)
guard_iter (str s) = ok (map (λ c. str (c ∷ [])) s)
guard_iter (dict fs) = ok (keys_of fs)
guard_iter _ = err lookupy

unfoldable pub contains_value : List Value → Value → Bool
contains_value [] v = false
contains_value (w ∷ ws) v = value_eq w v || contains_value ws v

unfoldable pub is_key : Value → Fields → Answer
is_key (str k) fs = elim (find k fs) [ none ↦ ok false | some v ↦ ok true ]
is_key (list vs) fs = err type_error
is_key (dict gs) fs = err type_error
is_key (obj gs) fs = err type_error
is_key _ fs = ok false

unfoldable pub is_substring : Value → Text → Answer
is_substring (str p) s = ok (Text.is_in p s)
is_substring _ s = err type_error

-- `x in y`
unfoldable pub member_of : Value → Value → Answer
unfolding contains_value is_key is_substring
member_of x (list vs) = ok (contains_value (to_list vs) x)
member_of x (str s) = is_substring x s
member_of x (dict fs) = is_key x fs
member_of x _ = err type_error

-- A method of `str`; another value has no such attribute.
unfoldable pub on_str : (Text → Bool) → Value → Answer
on_str f (str s) = ok (f s)
on_str f _ = err attribute

number_less : Option ℤ → Option ℤ → Answer
number_less (some a) (some b) = ok (ltb_ℤ a b)
number_less _ _ = err type_error

-- `a < b`, of numbers, of texts, and of lists by their first items that differ
unfoldable mutual
  unfolding number_less

  pub less : Value → Value → Answer
  less null w = err type_error
  less (bool b) w = number_less (as_int (bool b)) (as_int w)
  less (int n) w = number_less (some n) (as_int w)
  less (str s) w = elim w [ str t ↦ ok (text_lt s t) | _ ↦ err type_error ]
  less (list vs) w = elim w [ list ws ↦ less_items vs ws | _ ↦ err type_error ]
  less (dict fs) w = err type_error
  less (obj fs) w = err type_error

  less_items : Items → Items → Answer
  less_items nil ws = elim ws [ nil ↦ ok false | cons w ws ↦ ok true ]
  less_items (cons v vs) ws = elim ws [
    | nil ↦ ok false
    | cons w ws ↦ if value_eq v w then less_items vs ws else less v w
  ]

-- `a <= b`
unfoldable pub less_eq : Value → Value → Answer
unfolding less
less_eq a b = less b a >>= λ r. ok (not r)

-- `iff_not_none`
unfoldable pub iff_not_none : Value → (Value → Answer) → Answer
iff_not_none null f = ok false
iff_not_none v f = f v

-- The look-up types.
pub data Kind : Type 0 where
  exact neq contains icontains in_kind startswith istartswith endswith iendswith : Kind
  gt gte lt lte regex filter_kind default : Kind

unfoldable pub kind_of : Option Text → Kind
kind_of none = default
kind_of (some last) =
    if text_eq last (codes "exact")
    then exact
    else if text_eq last (codes "neq")
    then neq
    else if text_eq last (codes "contains")
    then contains
    else if text_eq last (codes "icontains")
    then icontains
    else if text_eq last (codes "in")
    then in_kind
    else if text_eq last (codes "startswith")
    then startswith
    else if text_eq last (codes "istartswith")
    then istartswith
    else if text_eq last (codes "endswith")
    then endswith
    else if text_eq last (codes "iendswith")
    then iendswith
    else if text_eq last (codes "gt")
    then gt
    else if text_eq last (codes "gte")
    then gte
    else if text_eq last (codes "lt")
    then lt
    else if text_eq last (codes "lte")
    then lte
    else if text_eq last (codes "regex")
    then regex
    else if text_eq last (codes "filter")
    then filter_kind
    else default

-- A comparison with a value; a tree of look-ups is equal to no data and compares with none.
unfoldable pub equals : Value → Arg → Bool
equals v (value w) = value_eq v w
equals v (query t) = false

unfoldable pub compare_with : (Value → Value → Answer) → Arg → Value → Answer
compare_with r (value w) v = r v w
compare_with r (query t) v = err type_error

-- `guard_iter` of what the look-up compares with
unfoldable pub guard_arg : Arg → Result LookupError Value
unfolding guard_iter
guard_arg (value w) = guard_iter w >>= λ _. ok w
guard_arg (query t) = err lookupy

-- The items that pass a test: the generator, read to its end or to its first exception.
unfoldable pub filter_items : (Value → Answer) → List Value → Result LookupError (List Value)
filter_items test [] = ok []
filter_items test (v ∷ vs) = elim (test v) [
  | err e ↦ err e
  | ok passed ↦ elim (filter_items test vs) [
    | err e ↦ err e
    | ok rest ↦ ok (if passed then v ∷ rest else rest)
  ]
]

unfoldable pub some_item : (Value → Answer) → Value → Answer
unfolding guard_iter filter_items
some_item test v =
    guard_iter v >>= λ vs. filter_items test vs >>= λ found. ok (ltb 0 (length found))

-- `not result if self.negate else result`
unfoldable pub negate_if : Bool → Answer → Answer
negate_if negate (err e) = err e
negate_if true (ok b) = ok (not b)
negate_if false (ok b) = ok b

-- `all(...)` and `any(...)` of two answers: the second is asked for only if it matters.
unfoldable pub and_then : Answer → Answer → Answer
and_then (err e) b = err e
and_then (ok false) b = ok false
and_then (ok true) b = b

unfoldable pub or_else : Answer → Answer → Answer
or_else (err e) b = err e
or_else (ok true) b = ok true
or_else (ok false) b = b

-- `guard_Q`: a leaf of look-ups
abbrev pub is_leaf : Tree → Bool
is_leaf (leaf negate lookups) = true
is_leaf (node negate op children) = false

module _ (search : Text → Text → Option Bool) where
  -- `re.search(val, y) is not None`; `none` is a pattern that does not compile.
  unfoldable pub matches : Arg → Value → Answer
  matches (value (str p)) (str s) = elim (search p s) [ none ↦ err regex_error | some b ↦ ok b ]
  matches _ _ = err type_error

  -- `_lookup` of every type but `filter`, with the parts of the key.
  unfoldable pub lookup_value : Text → Text → Arg → Value → Kind → Answer
  unfolding equals compare_with guard_arg on_str less less_eq iff_not_none member_of guard_str
      matches
  lookup_value k init val item kind =
      let on = λ (f : Value → Answer). dunder_get item init >>= λ y. iff_not_none y f in
      elim kind [
        | exact ↦ dunder_get item init >>= λ y. ok (equals y val)
        | neq ↦ dunder_get item init >>= λ y. ok (not (equals y val))
        | contains ↦ guard_str val >>= λ s. on (λ y. member_of (str s) y)
        | icontains ↦ guard_str val >>= λ s. on (on_str (λ y. Text.is_in (lower s) (lower y)))
        | in_kind ↦ guard_arg val >>= λ w. dunder_get item init >>= λ y. member_of y w
        | startswith ↦ guard_str val >>= λ s. on (on_str (λ y. Text.starts_with y s))
        | istartswith ↦
            guard_str val >>= λ s. on (on_str (λ y. Text.starts_with (lower y) (lower s)))
        | endswith ↦ guard_str val >>= λ s. on (on_str (λ y. Text.ends_with y s))
        | iendswith ↦ guard_str val >>= λ s. on (on_str (λ y. Text.ends_with (lower y) (lower s)))
        | gt ↦ on (compare_with (λ y w. less w y) val)
        | gte ↦ on (compare_with (λ y w. less_eq w y) val)
        | lt ↦ on (compare_with less val)
        | lte ↦ on (compare_with less_eq val)
        | regex ↦ on (matches val)
        | filter_kind ↦ err lookupy
        | default ↦ dunder_get item k >>= λ y. ok (equals y val)
      ]

  -- `_lookup` of the type `filter`, with the test of its tree of look-ups.
  unfoldable pub lookup_filter : Text → Bool → (Value → Answer) → Value → Answer
  unfolding some_item
  lookup_filter k is_q test item =
      if is_q then (dunder_get item (dunder_partition k).0 >>= some_item test) else err lookupy

  -- `LookupLeaf.evaluate` and `LookupNode.evaluate`
  unfoldable mutual
    pub evaluate : Tree → Value → Answer
    evaluate (leaf negate lookups) item = negate_if negate (eval_lookups lookups item)
    evaluate (node negate op children) item = negate_if negate (eval_children children op item)

    pub eval_lookups : Lookups → Value → Answer
    eval_lookups no_lookup item = ok true
    eval_lookups (lookup k arg lookups) item =
        and_then (eval_lookup arg k item) (eval_lookups lookups item)

    -- `_lookup`
    pub eval_lookup : Arg → Text → Value → Answer
    eval_lookup (value w) k item =
        let (init, last) = dunder_partition k in lookup_value k init (value w) item (kind_of last)
    eval_lookup (query t) k item = elim (kind_of (dunder_partition k).1) [
      | filter_kind ↦ lookup_filter k (is_leaf t) (evaluate t) item
      | kind ↦ lookup_value k (dunder_partition k).0 (query t) item kind
    ]

    pub eval_children : Children → Op → Value → Answer
    eval_children no_child op item = elim op [ and_op ↦ ok true | or_op ↦ ok false ]
    eval_children (child t children) op item = elim op [
      | and_op ↦ and_then (evaluate t item) (eval_children children and_op item)
      | or_op ↦ or_else (evaluate t item) (eval_children children or_op item)
    ]

  -- `pred` of the function `filter_items`: all the groups of look-ups hold.
  unfoldable pub all_groups : List Tree → Value → Answer
  all_groups [] item = ok true
  all_groups (t ∷ groups) item = and_then (evaluate t item) (all_groups groups item)

  -- `filter_items`, and so `QuerySet.filter`, whose look-ups by keyword are the last group
  unfoldable pub filter_data : List Tree → Lookups → List Value → Result LookupError (List Value)
  filter_data args no_lookup items = filter_items (all_groups args) items
  filter_data args kwargs items = filter_items (all_groups (args ++ (leaf false kwargs ∷ []))) items

-- `LookupTreeElem.__or__` and `__and__`
unfoldable pub or_tree : Tree → Tree → Tree
or_tree p q = node false or_op (child p (child q no_child))

unfoldable pub and_tree : Tree → Tree → Tree
and_tree p q = node false and_op (child p (child q no_child))

-- `__invert__`. The new node has the children of the old one, and the operator of a new node.
unfoldable pub invert : Tree → Tree
invert (leaf negate lookups) = leaf (not negate) lookups
invert (node negate op children) = node (not negate) and_op children
