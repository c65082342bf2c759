-- ===== src/Helper/Options.antt =====
-- jina/helper.py: arguments by name (`rename_kwargs`, `kwargs2list`, `get_non_defaults_args`) and
-- `get_readable_time`.
use Prim.Native.Char.{code}
use jina.Prelude.{
  ℕ, ◌-◌, ◌*◌, ◌/◌, Bool, true, false, not, ◌&&◌, ◌||◌, Option, none, some, List, [], ◌∷◌, ◌++◌,
  String, ◌<>◌, ◌==◌, ltb, leb, if◌then◌else◌, Result, ok, err, ◌>>=◌,
}
use jina.Prelude.Dict
use jina.Prelude.Dict.{Dict, contains, keys}
use jina.Prelude.Names.{decimal}

-- The `TypeError` of an argument that is given by its old and by its new name
pub data AliasError : Type 0 where
  received_both : String → String → AliasError

module _ {ℓ} {V : Type ℓ} where
  -- One round of the loop, for the value of the alias: `kwargs[new] = kwargs.pop(alias)`
  abbrev pub rename_found : String → String → Option V → Dict V → Result AliasError (Dict V)
  rename_found alias new none kwargs = ok kwargs
  rename_found alias new (some v) kwargs =
      if contains (keys kwargs) new
      then err (received_both alias new)
      else ok (Dict.insert new v (Dict.remove alias kwargs))

  unfoldable pub rename_kwargs : List (String × String) → Dict V → Result AliasError (Dict V)
  rename_kwargs [] kwargs = ok kwargs
  rename_kwargs ((alias, new) ∷ aliases) kwargs =
      rename_found alias new (Dict.lookup alias kwargs) kwargs >>= rename_kwargs aliases

  -- The test of a default: `k in _defaults` and `_defaults[k] != v`
  abbrev pub differs : (V → V → Bool) → V → Option V → Bool
  differs eq v none = false
  differs eq v (some d) = not (eq d v)

  unfoldable pub get_non_defaults_args : (V → V → Bool) → Dict V → List String → Dict V → Dict V
  get_non_defaults_args eq defaults taboo [] = []
  get_non_defaults_args eq defaults taboo ((k, v) ∷ args) =
      let rest = get_non_defaults_args eq defaults taboo args in
      if not (contains taboo k) && differs eq v (Dict.lookup k defaults)
      then (k, v) ∷ rest
      else rest

-- A value of `kwargs2list`; all but a Boolean stand for their `str`.
pub data Kwarg : Type 0 where
  no_value : Kwarg
  flag : Bool → Kwarg
  many_values : List String → Kwarg
  one_value : String → Kwarg

-- `k.replace('_', '-')`
abbrev pub dashed : String → String
dashed String.[] = ""
dashed (String.◌∷◌ c s) =
    let rest = dashed s in if code c == b'_' then "-" <> rest else (String.◌∷◌ c String.[]) <> rest

abbrev pub option_words : String → Kwarg → List String
option_words k no_value = []
option_words k (flag true) = ("--" <> k) ∷ []
option_words k (flag false) = []
option_words k (many_values vs) = ("--" <> k) ∷ vs
option_words k (one_value v) = ("--" <> k) ∷ v ∷ []

unfoldable pub kwargs2list : Dict Kwarg → List String
kwargs2list [] = []
kwargs2list ((k, v) ∷ kwargs) = option_words (dashed k) v ++ kwargs2list kwargs

abbrev pub units : List (String × ℕ)
units = ("day", 86400) ∷ ("hour", 3600) ∷ ("minute", 60) ∷ ("second", 1) ∷ []

-- The numbers of the loop of `get_readable_time`, with their units, for the whole seconds of a
-- duration that is not negative; the fraction of a second is cut off by the last unit.
unfoldable pub time_parts : ℕ → List (String × ℕ) → List (ℕ × String × ℕ)
time_parts secs [] = []
time_parts secs ((unit, mul) ∷ us) =
    let n = secs / mul in
    let with_part = time_parts (if ltb 1 mul then secs - n * mul else secs) us in
    let without = time_parts secs us in
    if leb mul secs || mul == 1 then (n, unit, mul) ∷ with_part else without

abbrev pub part_text : ℕ × String × ℕ → String
part_text (n, unit, mul) = decimal n <> " " <> unit <> (if n == 1 then "" else "s")

-- `' and '.join(parts)`
abbrev pub join_parts : List (ℕ × String × ℕ) → String
join_parts [] = ""
join_parts (p ∷ []) = part_text p
join_parts (p ∷ q ∷ ps) = part_text p <> " and " <> join_parts (q ∷ ps)

unfoldable pub get_readable_time : ℕ → String
unfolding time_parts
get_readable_time secs = join_parts (time_parts secs units)
