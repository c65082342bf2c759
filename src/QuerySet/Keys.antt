-- ===== src/QuerySet/Keys.antt =====
-- jina/drivers/querylang/queryset/dunderkey.py: keys joined by double underscores.
use jina.Prelude.{
  ℕ, zero, suc, ◌+◌, ◌-◌, ◌*◌, Bool, false, ◌&&◌, ◌||◌, Option, none, some, List, [], ◌∷◌, ◌++◌,
  leb, ◌==◌, if◌then◌else◌, Result, ok, err, length, get_elem?,
}
use jina.Prelude.Int.{ℤ, pos, negsuc}
use jina.Prelude.Text.{Text}
use jina.QuerySet.{
  Value, null, str, list, dict, obj, Items, nil, cons, LookupError, lookupy, index, key, attribute,
  out_of_fuel, find,
}

-- `'__'.join(args)`
unfoldable pub dunderkey : List Text → Text
dunderkey [] = []
dunderkey (a ∷ []) = a
dunderkey (a ∷ b ∷ args) = a ++ (b'_' ∷ b'_' ∷ dunderkey (b ∷ args))

abbrev pub cons_first : ℕ → Option (Text × Text) → Option (Text × Text)
cons_first c none = none
cons_first c (some (a, b)) = some (c ∷ a, b)

-- `key.split('__', 1)`; `none` is a result of one part.
unfoldable pub split_once : Text → Option (Text × Text)
split_once [] = none
split_once (c ∷ []) = none
split_once (c ∷ d ∷ s) =
    let rest = split_once (d ∷ s) in
    if c == b'_' && d == b'_' then some ([], s) else cons_first c rest

abbrev pub after_under : Text → Option Text
after_under [] = none
after_under (d ∷ s) = if d == b'_' then some s else none

-- `key.rsplit('__', 1)`; `none` is a result of one part.
unfoldable pub rsplit_once : Text → Option (Text × Text)
rsplit_once [] = none
rsplit_once (c ∷ s) = elim (rsplit_once s) [
  | some (a, b) ↦ some (c ∷ a, b)
  | none ↦ if c == b'_' then elim (after_under s) [ none ↦ none | some t ↦ some ([], t) ] else none
]

-- `dunder_partition`
unfoldable pub dunder_partition : Text → Text × Option Text
dunder_partition k = elim (rsplit_once k) [ none ↦ (k, none) | some (a, b) ↦ (a, some b) ]

-- `dunder_init`
unfoldable pub dunder_init : Text → Text
unfolding dunder_partition
dunder_init k = (dunder_partition k).0

-- `dunder_last`
unfoldable pub dunder_last : Text → Option Text
unfolding dunder_partition
dunder_last k = (dunder_partition k).1

is_digit : ℕ → Bool
is_digit c = leb b'0' c && leb c b'9'

is_space : ℕ → Bool
is_space c = c == 32 || (leb 9 c && leb c 13)

strip_left : Text → Text
unfolding is_space
strip_left [] = []
strip_left (c ∷ s) = let rest = strip_left s in if is_space c then rest else c ∷ s

strip_right : Text → Text
unfolding is_space
strip_right [] = []
strip_right (c ∷ s) =
    let rest = strip_right s in
    elim rest [ [] ↦ if is_space c then [] else c ∷ [] | d ∷ t ↦ c ∷ d ∷ t ]

-- Digits with single underscores between them; the flag tells that the last one was a digit.
parse_digits : ℕ → Bool → Text → Option ℕ
unfolding is_digit
parse_digits n after_digit [] = if after_digit then some n else none
parse_digits n after_digit (c ∷ s) =
    let rest = parse_digits (if is_digit c then n * 10 + (c - b'0') else n) (is_digit c) s in
    if is_digit c || (c == b'_' && after_digit) then rest else none

negate : ℕ → ℤ
negate zero = pos 0
negate (suc n) = negsuc n

parse_signed : Text → Option ℤ
unfolding parse_digits negate
parse_signed [] = none
parse_signed (c ∷ s) =
    if c == b'-'
    then elim (parse_digits 0 false s) [ none ↦ none | some n ↦ some (negate n) ]
    else elim (parse_digits 0 false (if c == b'+' then s else c ∷ s)) [
      | none ↦ none
      | some n ↦ some (pos n)
    ]

-- `int(s)`, of ASCII; `none` is the `ValueError`.
unfoldable pub parse_int : Text → Option ℤ
unfolding parse_signed strip_left strip_right
parse_int s = parse_signed (strip_right (strip_left s))

abbrev pub to_list : Items → List Value
to_list nil = []
to_list (cons v vs) = v ∷ to_list vs

-- `xs[i]`: a negative index counts from the end.
unfoldable pub at_index {ℓ} : {A : Type ℓ} → List A → ℤ → Option A
at_index xs (pos i) = get_elem? xs i
at_index xs (negsuc i) = if leb (suc i) (length xs) then get_elem? xs (length xs - suc i) else none

-- `guard_iter(v)[i]`
unfoldable pub get_index : Value → ℤ → Result LookupError Value
unfolding at_index
get_index (list vs) i = elim (at_index (to_list vs) i) [ none ↦ err index | some v ↦ ok v ]
get_index (str s) i = elim (at_index s i) [ none ↦ err index | some c ↦ ok (str (c ∷ [])) ]
get_index (dict fs) i = err key
get_index _ i = err lookupy

-- A field of a dict, `None` if it has none, or an attribute of an object.
unfoldable pub get_name : Value → Text → Result LookupError Value
get_name (dict fs) name = elim (find name fs) [ none ↦ ok null | some v ↦ ok v ]
get_name (obj fs) name = elim (find name fs) [ none ↦ err attribute | some v ↦ ok v ]
get_name _ name = err attribute

-- One step of `dunder_get`.
unfoldable pub get_part : Value → Text → Result LookupError Value
unfolding get_index get_name parse_int
get_part v part = elim (parse_int part) [ none ↦ get_name v part | some i ↦ get_index v i ]

unfoldable pub dunder_get_fuel : ℕ → Value → Text → Result LookupError Value
unfolding get_part split_once
dunder_get_fuel zero v k = err out_of_fuel
dunder_get_fuel (suc fuel) v k = elim (split_once k) [
  | none ↦ get_part v k
  | some (part1, []) ↦ get_part v part1
  | some (part1, c ∷ part2) ↦ elim (get_part v part1) [
    | err e ↦ err e
    | ok result ↦ dunder_get_fuel fuel result (c ∷ part2)
  ]
]

-- `dunder_get`. The second part of a key is shorter than the key, so its length bounds the calls.
unfoldable pub dunder_get : Value → Text → Result LookupError Value
unfolding dunder_get_fuel
dunder_get v k = dunder_get_fuel (suc (length k)) v k
