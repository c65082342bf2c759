-- ===== src/QuerySet/Nesting.antt =====
-- jina/drivers/querylang/queryset: `undunder_keys` and `dunder_truncate` of dunderkey.py, and
-- `include_keys` and `QuerySet.select` of lookup.py.
use jina.Prelude.{
  ℕ, suc, Bool, true, false, ◌&&◌, Option, none, some, List, [], ◌∷◌, ◌++◌, ◌==◌, if◌then◌else◌,
  Result, ok, err, ◌>>=◌,
}
use jina.Prelude.Text.{Text, text_eq}
use jina.QuerySet.{Value, dict, Fields, end, field, LookupError, index, attribute, type_error, find}
use jina.QuerySet.Keys.{dunder_last, dunder_get}

-- `key.split('__')`, with the part that is being read.
unfoldable pub split_from : Text → Text → List Text
split_from part [] = part ∷ []
split_from part (c ∷ []) = (part ++ (c ∷ [])) ∷ []
split_from part (c ∷ d ∷ s) = elim (c == b'_' && d == b'_') [
  | true ↦ part ∷ split_from [] s
  | false ↦ split_from (part ++ (c ∷ [])) (d ∷ s)
]

-- `f` of `undunder_keys`
unfoldable pub nest : List Text → Value → Value
nest [] v = v
nest (k ∷ ks) v = dict (field k (nest ks v) end)

-- `d[k] = v`
unfoldable pub put_field : Text → Value → Fields → Fields
put_field k v end = field k v end
put_field k v (field j w fs) = if text_eq j k then field j v fs else field j w (put_field k v fs)

-- `merge` into a value that is no dict: it has no items, or takes none.
unfoldable pub merge_into_other : Value → Result LookupError Fields
merge_into_other (dict end) = err index
merge_into_other (dict (field k v rest)) = err type_error
merge_into_other w = err attribute

-- `merge` of `undunder_keys`. Only the first item of the second dict is merged.
unfoldable pub merge : Fields → Value → Result LookupError Fields
unfolding put_field merge_into_other
merge dict1 (dict (field k v rest)) = elim (find k dict1) [
  | none ↦ ok (put_field k v dict1)
  | some (dict inner) ↦ merge inner v >>= λ merged. ok (put_field k (dict merged) dict1)
  | some other ↦ merge_into_other v
]
merge dict1 (dict end) = err index
merge dict1 v = err attribute

unfoldable pub undunder_from : Fields → Fields → Result LookupError Fields
unfolding nest split_from merge
undunder_from result end = ok result
undunder_from result (field k v fs) =
    merge result (nest (split_from [] k) v) >>= λ merged. undunder_from merged fs

-- `undunder_keys`
unfoldable pub undunder_keys : Fields → Result LookupError Fields
unfolding undunder_from
undunder_keys fs = undunder_from end fs

abbrev pub names : Fields → List Text
names end = []
names (field k v fs) = k ∷ names fs

abbrev pub opt_eq : Option Text → Option Text → Bool
opt_eq none none = true
opt_eq (some s) (some t) = text_eq s t
opt_eq _ _ = false

-- `list(map(dunder_last, klist)).count(last)`
unfoldable pub count_last : Option Text → List Text → ℕ
count_last last [] = 0
count_last last (k ∷ ks) =
    let rest = count_last last ks in if opt_eq (dunder_last k) last then suc rest else rest

-- `decide_key` of `dunder_truncate`; the key of the new dict may be `None`.
unfoldable pub decide_key : List Text → Text → Option Text
unfolding count_last
decide_key klist k = if count_last (dunder_last k) klist == 1 then dunder_last k else some k

abbrev pub Truncated : Type 0
Truncated = List (Option Text × Value)

unfoldable pub put_truncated : Option Text → Value → Truncated → Truncated
put_truncated k v [] = (k, v) ∷ []
put_truncated k v ((j, w) ∷ m) = if opt_eq j k then (j, v) ∷ m else (j, w) ∷ put_truncated k v m

unfoldable pub truncate_from : List Text → Fields → Truncated → Truncated
unfolding decide_key put_truncated
truncate_from klist end m = m
truncate_from klist (field k v fs) m =
    truncate_from klist fs (put_truncated (decide_key klist k) v m)

-- `dunder_truncate`
unfoldable pub dunder_truncate : Fields → Truncated
unfolding truncate_from
dunder_truncate fs = truncate_from (names fs) fs []

-- The comprehension of `include_keys`, for one item
unfoldable pub include_from : Fields → Value → List Text → Result LookupError Fields
include_from m item [] = ok m
include_from m item (f ∷ fs) = dunder_get item f >>= λ v. include_from (put_field f v m) item fs

-- `include_keys`, and so `QuerySet.select` with `flatten=False`
unfoldable pub select_nested : List Text → List Value → Result LookupError (List Fields)
unfolding include_from undunder_keys
select_nested fields [] = ok []
select_nested fields (item ∷ items) = do
  included ← include_from end item fields
  nested ← undunder_keys included
  rest ← select_nested fields items
  ok (nested ∷ rest)

-- `QuerySet.select` with `flatten=True`
unfoldable pub select_flat : List Text → List Value → Result LookupError (List Truncated)
unfolding include_from dunder_truncate
select_flat fields [] = ok []
select_flat fields (item ∷ items) = do
  included ← include_from end item fields
  rest ← select_flat fields items
  ok (dunder_truncate included ∷ rest)
