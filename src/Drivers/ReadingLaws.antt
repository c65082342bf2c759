-- ===== src/Drivers/ReadingLaws.antt =====
-- Which argument a driver reads.
use jina.Prelude.{
  String, ◌≡◌, ◌⊎◌, inl, inr, refl, true, false, none, some, List, [], ◌∷◌, ◌++◌, arith, All,
  Bool-cases,
}
use jina.Prelude.Dict
use jina.Prelude.Dict.{Dict}
use jina.Drivers.Reading.{QueryLang, Reader, overrides, find_parameter, or_default, get_parameter}

module _ {ℓ} {V : Type ℓ} (d : Reader V) (key : String) where
  -- A query that says nothing about the argument
  abbrev pub IsSilent : QueryLang V → Type ℓ
  IsSilent q = (overrides d q ≡ false) ⊎ (Dict.lookup key q.parameters ≡ none)

  -- The first query that overrides the driver and has the argument decides it, whatever comes after.
  get_parameter-first :
      (before after : List (QueryLang V)) (q : QueryLang V) (v default : V)
      → All IsSilent before
      → overrides d q ≡ true
      → Dict.lookup key q.parameters ≡ some v
      → get_parameter d (before ++ (q ∷ after)) key default ≡ v
  unfolding get_parameter find_parameter
  get_parameter-first [] after q v default h o p = rw (o, p) refl
  get_parameter-first (r ∷ before) after q v default (inl s, h) o p =
      ground (arith, get_parameter-first before after q v default h o p)
  get_parameter-first (r ∷ before) after q v default (inr s, h) o p =
      elim (Bool-cases (overrides d r)) [
        | inl over ↦ rw (over, s) (get_parameter-first before after q v default h o p)
        | inr under ↦ rw under (get_parameter-first before after q v default h o p)
      ]

  -- Where no query that overrides the driver has the argument, the driver's own field decides it,
  -- and the default where it has no such field.
  get_parameter-silent :
      (queryset : List (QueryLang V)) (default : V)
      → All IsSilent queryset
      → get_parameter d queryset key default ≡ or_default (Dict.lookup key d.defaults) default
  unfolding get_parameter find_parameter
  get_parameter-silent [] default h = refl
  get_parameter-silent (r ∷ rs) default (inl s, h) = rw s (get_parameter-silent rs default h)
  get_parameter-silent (r ∷ rs) default (inr s, h) = elim (Bool-cases (overrides d r)) [
    | inl over ↦ rw (over, s) (get_parameter-silent rs default h)
    | inr under ↦ rw under (get_parameter-silent rs default h)
  ]
