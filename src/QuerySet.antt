-- ===== src/QuerySet.antt =====
-- jina/drivers/querylang/queryset: look-ups in nested data by keys such as `a__b__gt`.
pub mod Keys
pub mod KeyLaws
pub mod Lookup
pub mod LookupLaws
pub mod Nesting
pub mod NestingLaws
mod Tests
use jina.Prelude.{
  ℕ, Bool, true, false, ◌&&◌, ◌||◌, not, Option, none, some, List, [], ◌∷◌, ◌==◌, if◌then◌else◌,
  length,
}
use jina.Prelude.Int.{ℤ, pos, eq_ℤ, ltb_ℤ}
use jina.Prelude.Text.{Text, text_eq, text_lt}

-- The data that is looked up: Python's values, with `dict` also for a protobuf `Struct`, and `obj`
-- for an object that is read by its attributes, such as a protobuf message.
mutual
  pub data Value : Type 0 where
    null : Value
    bool : Bool → Value
    int : ℤ → Value
    str : Text → Value
    list : Items → Value
    dict : Fields → Value
    obj : Fields → Value

  pub data Items : Type 0 where
    nil : Items
    cons : Value → Items → Items

  pub data Fields : Type 0 where
    end : Fields
    field : Text → Value → Fields → Fields

-- The exceptions of the look-ups: `LookupyError` of a guard, `IndexError`, `KeyError`,
-- `AttributeError`, `TypeError` of an operation on values of other types, and `re.error`.
pub data LookupError : Type 0 where
  lookupy index key attribute type_error regex_error out_of_fuel : LookupError

abbrev pub find : Text → Fields → Option Value
find k end = none
find k (field j v fs) = if text_eq j k then some v else find k fs

abbrev pub count_fields : Fields → ℕ
count_fields end = 0
count_fields (field k v fs) = jina.Prelude.suc (count_fields fs)

-- A number that a value is equal to: `True == 1`.
abbrev pub as_int : Value → Option ℤ
as_int (int n) = some n
as_int (bool true) = some (pos 1)
as_int (bool false) = some (pos 0)
as_int _ = none

abbrev pub eq_number : Option ℤ → Option ℤ → Bool
eq_number (some a) (some b) = eq_ℤ a b
eq_number _ _ = false

-- `==`; dicts are equal whatever the order of their keys.
unfoldable mutual
  pub value_eq : Value → Value → Bool
  value_eq null w = elim w [ null ↦ true | _ ↦ false ]
  value_eq (bool b) w = eq_number (as_int (bool b)) (as_int w)
  value_eq (int n) w = eq_number (some n) (as_int w)
  value_eq (str s) w = elim w [ str t ↦ text_eq s t | _ ↦ false ]
  value_eq (list xs) w = elim w [ list ys ↦ items_eq xs ys | _ ↦ false ]
  value_eq (dict fs) w = elim w [
    | dict gs ↦ count_fields fs == count_fields gs && fields_eq fs gs
    | _ ↦ false
  ]
  value_eq (obj fs) w = elim w [
    | obj gs ↦ count_fields fs == count_fields gs && fields_eq fs gs
    | _ ↦ false
  ]

  items_eq : Items → Items → Bool
  items_eq nil ys = elim ys [ nil ↦ true | cons y ys ↦ false ]
  items_eq (cons x xs) ys = elim ys [ nil ↦ false | cons y ys ↦ value_eq x y && items_eq xs ys ]

  fields_eq : Fields → Fields → Bool
  fields_eq end gs = true
  fields_eq (field k v fs) gs =
      elim (find k gs) [ none ↦ false | some w ↦ value_eq v w ] && fields_eq fs gs
