-- ===== src/QuerySet/Tests.antt =====
-- Look-ups in small documents, and the theorems at them.
use jina.Prelude.{◌≡◌, refl, Bool, true, false, Option, none, some, [], ◌∷◌, ok, arith}
use jina.Prelude.Int.{pos}
use jina.Prelude.Text.{Text, codes}
use jina.QuerySet.{Value, null, int, str, dict, Fields, end, field, value_eq}
use jina.QuerySet.Keys.{
  dunderkey, dunder_get, dunder_get_fuel, get_part, get_name, parse_int, split_once, rsplit_once,
  dunder_partition,
}
use jina.QuerySet.KeyLaws.{IsPart, get_path, dunder_get-dunderkey}
use jina.QuerySet.Lookup.{
  Tree, leaf, no_lookup, lookup, value, Answer, evaluate, or_tree, invert, filter_items, negate_if,
  and_then, lookup_value, kind_of, equals,
}
use jina.QuerySet.LookupLaws.{evaluate-invert-or_tree}
use jina.QuerySet.Nesting.{merge, nest, put_field}
use jina.QuerySet.NestingLaws.{follow, is_dict, merge-nest-follow}

-- `{'tag': {'size': 3}, 'name': 'x'}`
abbrev document : Value
document = dict (
    field (codes "tag") (dict (field (codes "size") (int (pos 3)) end))
      (field (codes "name") (str (codes "x")) end))

abbrev no_match : Text → Text → Option Bool
no_match _ _ = some false

got : dunder_get document (codes "tag__size") ≡ ok (int (pos 3))
unfolding dunder_get dunder_get_fuel split_once get_part get_name parse_int
got = refl

missing : dunder_get document (codes "tag__weight") ≡ ok null
unfolding dunder_get dunder_get_fuel split_once get_part get_name parse_int
missing = refl

tag_IsPart : IsPart (codes "tag")
unfolding split_once
tag_IsPart = record { whole = refl; last = refl; given = λ e. ground arith }

size_IsPart : IsPart (codes "size")
unfolding split_once
size_IsPart = record { whole = refl; last = refl; given = λ e. ground arith }

dunder_get-dunderkey_example :
    dunder_get document (dunderkey (codes "tag" ∷ codes "size" ∷ []))
    ≡ get_path document (codes "tag" ∷ codes "size" ∷ [])
dunder_get-dunderkey_example =
    dunder_get-dunderkey document (codes "tag") (codes "size" ∷ []) (tag_IsPart, (size_IsPart, tt))

rsplit_gt : rsplit_once (codes "gt") ≡ none
unfolding rsplit_once
rsplit_gt = refl

abbrev is_three : Value → Answer
is_three v = ok (value_eq v (int (pos 3)))

kept : filter_items is_three (int (pos 3) ∷ null ∷ []) ≡ ok (int (pos 3) ∷ [])
unfolding filter_items value_eq
kept = refl

abbrev is_named : Tree
is_named = leaf false (lookup (codes "name") (value (str (codes "x"))) no_lookup)

abbrev is_named_y : Tree
is_named_y = leaf false (lookup (codes "name") (value (str (codes "y"))) no_lookup)

named : evaluate no_match is_named document ≡ ok true
unfolding evaluate dunder_get dunder_get_fuel split_once rsplit_once dunder_partition get_part
    get_name parse_int lookup_value kind_of equals value_eq negate_if and_then
named = refl

not_named_y : evaluate no_match is_named_y document ≡ ok false
unfolding evaluate dunder_get dunder_get_fuel split_once rsplit_once dunder_partition get_part
    get_name parse_int lookup_value kind_of equals value_eq negate_if and_then
not_named_y = refl

evaluate-invert-or_tree_example :
    (evaluate no_match (or_tree is_named is_named_y) document ≡ ok true)
    × (evaluate no_match (invert (or_tree is_named is_named_y)) document ≡ ok true)
evaluate-invert-or_tree_example =
    evaluate-invert-or_tree no_match is_named is_named_y document named not_named_y

-- `{'tag': {'size': None, 'weight': 5}}`
abbrev merged : Fields
merged =
    field (codes "tag")
      (dict (field (codes "size") null (field (codes "weight") (int (pos 5)) end))) end

merged_ok :
    merge
      (field (codes "tag") (dict (field (codes "size") null end)) end)
      (nest (codes "tag" ∷ codes "weight" ∷ []) (int (pos 5)))
    ≡ ok merged
unfolding merge nest put_field
merged_ok = refl

leaf_ok : is_dict (int (pos 5)) ≡ false
unfolding is_dict
leaf_ok = refl

merge-nest-follow_example : follow (codes "tag") (codes "weight" ∷ []) merged ≡ some (int (pos 5))
merge-nest-follow_example =
    merge-nest-follow (field (codes "tag") (dict (field (codes "size") null end)) end) (codes "tag")
      (codes "weight" ∷ []) (int (pos 5)) merged leaf_ok merged_ok

whole : rsplit_once (codes "name") ≡ none
unfolding rsplit_once
whole = refl
