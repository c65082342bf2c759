-- ===== src/Drivers/Reading.antt =====
-- jina/drivers/__init__.py: `QuerySetReader`, which reads a driver's arguments from the query
-- language of the message, or from the driver.
use jina.Prelude.{
  ℕ, String, Bool, ◌&&◌, not, Option, none, some, List, [], ◌∷◌, str_eq, ltb, if◌then◌else◌,
}
use jina.Prelude.Dict
use jina.Prelude.Dict.{Dict}

-- `QueryLangProto`
pub record QueryLang {ℓ} (V : Type ℓ) : Type ℓ where
  pub name : String
  pub priority : ℕ
  pub disabled : Bool
  pub parameters : Dict V

-- What a driver is asked by: its class, its priority, its `_key` fields and the arguments of
-- `__init__`
pub record Reader {ℓ} (V : Type ℓ) : Type ℓ where
  pub class_name : String
  pub priority : ℕ
  pub defaults : Dict V
  pub init_kwargs : Dict V

module _ {ℓ} {V : Type ℓ} where
  -- The condition of `_get_parameter`, apart from the key
  unfoldable pub overrides : Reader V → QueryLang V → Bool
  overrides d q = not q.disabled && str_eq d.class_name q.name && ltb d.priority q.priority

  -- The loop of `_get_parameter` over the query language of the message
  unfoldable pub find_parameter : Reader V → List (QueryLang V) → String → Option V
  unfolding overrides Dict.lookup
  find_parameter d [] key = none
  find_parameter d (q ∷ qs) key =
      let rest = find_parameter d qs key in
      if overrides d q
      then elim (Dict.lookup key q.parameters) [ some v ↦ some v | none ↦ rest ]
      else rest

  abbrev pub or_default : Option V → V → V
  or_default (some v) d = v
  or_default none d = d

  -- `_get_parameter`
  unfoldable pub get_parameter : Reader V → List (QueryLang V) → String → V → V
  unfolding find_parameter Dict.lookup
  get_parameter d queryset key default =
      or_default (find_parameter d queryset key) (or_default (Dict.lookup key d.defaults) default)

  -- `__getattr__`; `none` is an `AttributeError`.
  unfoldable pub get_attribute : Reader V → List (QueryLang V) → String → Option V
  unfolding get_parameter Dict.lookup
  get_attribute d queryset name =
      if str_eq name "_init_kwargs_dict" then none else elim (Dict.lookup name d.init_kwargs) [
        | none ↦ none
        | some v ↦ some (get_parameter d queryset name v)
      ]
