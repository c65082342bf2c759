-- ===== src/Drivers/Sort.antt =====
-- jina/drivers/querylang/sort.py and select.py: `_apply_all` of SortQL, ExcludeQL and SelectQL.
use jina.Prelude.{Bool, List, [], ◌∷◌, map, if◌then◌else◌, Result, ok, ◌>>=◌, String}
use jina.Prelude.Dict
use jina.Prelude.Dict.{Dict, contains, keys}

abbrev pub in_direction {κ} : {K : Type κ} → (K → K → Bool) → Bool → K → K → Bool
in_direction less reverse a b = if reverse then less b a else less a b

module _ {ℓ κ} {A : Type ℓ} {K : Type κ} where
  -- The keys of all documents, before any of them is moved; the first exception is raised.
  unfoldable pub with_keys {μ} : {E : Type μ} → (A → Result E K) → List A → Result E (List (K × A))
  with_keys key [] = ok []
  with_keys key (d ∷ docs) = do k ← key d; keyed ← with_keys key docs; ok ((k, d) ∷ keyed)

  -- `docs.sort(key=..., reverse=...)` sorts stably, whether up or down; so does this insertion sort,
  -- which stands for it.
  unfoldable pub insert_sorted : (K → K → Bool) → K × A → List (K × A) → List (K × A)
  insert_sorted less x [] = x ∷ []
  insert_sorted less x (y ∷ ys) =
      let rest = insert_sorted less x ys in if less y.0 x.0 then y ∷ rest else x ∷ y ∷ ys

  unfoldable pub sort_keyed : (K → K → Bool) → List (K × A) → List (K × A)
  unfolding insert_sorted
  sort_keyed less [] = []
  sort_keyed less (x ∷ xs) = insert_sorted less x (sort_keyed less xs)

  -- `SortQL._apply_all`; `key` is `dunder_get(doc, field)`, whose values `less` compares.
  unfoldable pub sort_ql {μ} :
      {E : Type μ} → (A → Result E K) → (K → K → Bool) → Bool → List A → Result E (List A)
  unfolding with_keys sort_keyed
  sort_ql key less reverse docs = with_keys key docs >>= λ keyed.
      ok (map (λ (k, d). d) (sort_keyed (in_direction less reverse) keyed))

-- The names of the message's fields that are not selected
unfoldable pub not_selected : List String → List String → List String
not_selected fields [] = []
not_selected fields (k ∷ names) =
    let rest = not_selected fields names in if contains fields k then rest else k ∷ rest

-- A document, by the fields that are set; `ClearField` unsets one.
module _ {ℓ} {V : Type ℓ} where
  -- `for k in fields: doc.ClearField(k)`
  unfoldable pub clear_fields : List String → Dict V → Dict V
  clear_fields [] doc = doc
  clear_fields (k ∷ fields) doc = clear_fields fields (Dict.remove k doc)

  -- `ExcludeQL._apply_all`
  unfoldable pub exclude_ql : List String → List (Dict V) → List (Dict V)
  unfolding clear_fields
  exclude_ql fields docs = map (clear_fields fields) docs

  -- `SelectQL._apply_all`; `names` are the fields of the message's descriptor.
  unfoldable pub select_ql : List String → List String → List (Dict V) → List (Dict V)
  unfolding clear_fields not_selected
  select_ql names fields docs = map (clear_fields (not_selected fields names)) docs
