-- ===== src/Drivers/SortLaws.antt =====
-- SortQL sorts stably, and SelectQL and ExcludeQL keep the fields that they should.
use jina.Prelude.{
  ◌≡◌, ◌⊎◌, refl, ap, ◌∙◌, Bool, true, false, not, ◌&&◌, ◌||◌, Option, none, List, [], ◌∷◌, map,
  if◌then◌else◌, Result, ok, String, str_eq, eq_iff, select, All, arith, inl, inr, Bool-cases,
}
use jina.Prelude.Dict
use jina.Prelude.Dict.{Dict, contains, lookup-remove}
use jina.Drivers.Sort.{
  with_keys, insert_sorted, sort_keyed, in_direction, sort_ql, clear_fields, exclude_ql,
  not_selected, select_ql,
}

module _ {ℓ κ} {A : Type ℓ} {K : Type κ} (less : K → K → Bool) where
  -- No later document is before an earlier one.
  abbrev pub IsSorted : List (K × A) → Type 0
  IsSorted [] = Unit
  IsSorted (x ∷ xs) = All (λ y. less y.0 x.0 ≡ false) xs × IsSorted xs

  -- Neither key is before the other.
  abbrev pub same_key : K → K × A → Bool
  same_key k x = not (less k x.0) && not (less x.0 k)

module _ {ℓ κ} {A : Type ℓ} {K : Type κ} (less : K → K → Bool)
    (asymmetric : (a b : K) → less a b ≡ true → less b a ≡ false)
    (cotransitive : (a b c : K) → less a c ≡ true → (less a b ≡ true) ⊎ (less b c ≡ true)) where
  insert_sorted-All :
      (P : K × A → Type 0) (x : K × A) (ys : List (K × A))
      → P x
      → All P ys
      → All P (insert_sorted less x ys)
  unfolding insert_sorted
  insert_sorted-All P x [] h hs = (h, tt)
  insert_sorted-All P x (y ∷ ys) h (hy, hs) = elim (Bool-cases (less y.0 x.0)) [
    | inl before ↦ rw before (hy, insert_sorted-All P x ys h hs)
    | inr after ↦ rw after (h, (hy, hs))
  ]

  not-after : (x y z : K × A) → less y.0 x.0 ≡ false → less z.0 y.0 ≡ false → less z.0 x.0 ≡ false
  not-after x y z h hz = elim (Bool-cases (less z.0 x.0)) [
    | inr after ↦ after
    | inl before ↦ elim (cotransitive z.0 y.0 x.0 before) [
      | inl zy ↦ absurd (ground (arith, zy, hz))
      | inr yx ↦ absurd (ground (arith, yx, h))
    ]
  ]

  -- Of two documents one of which is before the other, not both have the same key as a third.
  not-both :
      (k : K) (x y : K × A) → less y.0 x.0 ≡ true → (same_key less k x && same_key less k y) ≡ false
  not-both k x y before = elim (cotransitive y.0 k x.0 before) [
    | inl yk ↦ ground (arith, yk)
    | inr kx ↦ ground (arith, kx)
  ]

  abbrev cons_if : Bool → K × A → List (K × A) → List (K × A)
  cons_if b x xs = if b then x ∷ xs else xs

  cons_if_swap :
      (a b : Bool) (x y : K × A) (xs : List (K × A))
      → (a && b) ≡ false
      → cons_if b y (cons_if a x xs) ≡ cons_if a x (cons_if b y xs)
  cons_if_swap true true x y xs h = cc
  cons_if_swap true false x y xs h = refl
  cons_if_swap false b x y xs h = refl

  later_not_less :
      (x y : K × A) (ys : List (K × A))
      → less y.0 x.0 ≡ false
      → All (λ z. less z.0 y.0 ≡ false) ys
      → All (λ z. less z.0 x.0 ≡ false) ys
  later_not_less x y [] h hs = tt
  later_not_less x y (z ∷ ys) h (hz, hs) = (not-after x y z h hz, later_not_less x y ys h hs)

  insert_sorted-IsSorted :
      (x : K × A) (ys : List (K × A)) → IsSorted less ys → IsSorted less (insert_sorted less x ys)
  unfolding insert_sorted
  insert_sorted-IsSorted x [] h = (tt, tt)
  insert_sorted-IsSorted x (y ∷ ys) (hy, h) = elim (Bool-cases (less y.0 x.0)) [
    | inl before ↦ rw before (
      insert_sorted-All (λ z. less z.0 y.0 ≡ false) x ys (asymmetric y.0 x.0 before) hy,
      insert_sorted-IsSorted x ys h,
    )
    | inr after ↦ rw after ((after, later_not_less x y ys after hy), (hy, h))
  ]

  insert_sorted-stable :
      (k : K) (x : K × A) (ys : List (K × A))
      → select (same_key less k) (insert_sorted less x ys) ≡ select (same_key less k) (x ∷ ys)
  unfolding insert_sorted
  insert_sorted-stable k x [] = refl
  insert_sorted-stable k x (y ∷ ys) = elim (Bool-cases (less y.0 x.0)) [
    | inr after ↦ rw after refl
    | inl before ↦
        (rw before refl)
        ∙ ap (cons_if (same_key less k y) y) (insert_sorted-stable k x ys)
        ∙ cons_if_swap (same_key less k x) (same_key less k y) x y (select (same_key less k) ys)
            (not-both k x y before)
  ]

  sort_keyed-IsSorted : (xs : List (K × A)) → IsSorted less (sort_keyed less xs)
  unfolding sort_keyed
  sort_keyed-IsSorted [] = tt
  sort_keyed-IsSorted (x ∷ xs) =
      insert_sorted-IsSorted x (sort_keyed less xs) (sort_keyed-IsSorted xs)

  sort_keyed-stable :
      (k : K) (xs : List (K × A))
      → select (same_key less k) (sort_keyed less xs) ≡ select (same_key less k) xs
  unfolding sort_keyed
  sort_keyed-stable k [] = refl
  sort_keyed-stable k (x ∷ xs) =
      insert_sorted-stable k x (sort_keyed less xs)
      ∙ ap (cons_if (same_key less k x) x) (sort_keyed-stable k xs)

module _ {κ} {K : Type κ} (less : K → K → Bool)
    (asymmetric : (a b : K) → less a b ≡ true → less b a ≡ false)
    (cotransitive : (a b c : K) → less a c ≡ true → (less a b ≡ true) ⊎ (less b c ≡ true)) where
  either_way :
      (reverse : Bool)
      → ((a b : K) → in_direction less reverse a b ≡ true → in_direction less reverse b a ≡ false)
        × ((a b c : K)
            → in_direction less reverse a c ≡ true
            → (in_direction less reverse a b ≡ true) ⊎ (in_direction less reverse b c ≡ true))
  either_way false = (asymmetric, cotransitive)
  either_way true = (
    λ a b h. asymmetric b a h,
    λ a b c h. elim (cotransitive c b a h) [ inl cb ↦ inr cb | inr ba ↦ inl ba ],
  )

module _ {ℓ κ μ} {A : Type ℓ} {K : Type κ} {E : Type μ} (less : K → K → Bool)
    (asymmetric : (a b : K) → less a b ≡ true → less b a ≡ false)
    (cotransitive : (a b c : K) → less a c ≡ true → (less a b ≡ true) ⊎ (less b c ≡ true)) where
  -- If the keys of all documents can be computed, and `less` orders them, then `SortQL` sorts the
  -- documents by their keys, up or down: no document has a key that belongs before that of an
  -- earlier one, and the documents of equal keys, which are all those of the request, stay in
  -- their order.
  sort_ql-IsSorted :
      (key : A → Result E K) (reverse : Bool) (docs : List A) (keyed : List (K × A))
      → with_keys key docs ≡ ok keyed
      → (sorted : List (K × A)) × (sort_ql key less reverse docs ≡ ok (map (λ (k, d). d) sorted))
        × IsSorted (in_direction less reverse) sorted
        × ((k : K)
            → select (same_key (in_direction less reverse) k) sorted
              ≡ select (same_key (in_direction less reverse) k) keyed)
  unfolding sort_ql
  sort_ql-IsSorted key reverse docs keyed h =
      let order = in_direction less reverse in
      let (asym, cotrans) = either_way less asymmetric cotransitive reverse in
      (
        sort_keyed order keyed,
        rw h refl,
        sort_keyed-IsSorted order asym cotrans keyed,
        λ k. sort_keyed-stable order asym cotrans k keyed,
      )

contains-not_selected :
    (fields names : List String) (k : String)
    → contains (not_selected fields names) k ≡ (contains names k && not (contains fields k))
unfolding not_selected
contains-not_selected fields [] k = refl
contains-not_selected fields (n ∷ names) k =
    ground (arith, contains-not_selected fields names k, eq_iff n k)

module _ {ℓ} {V : Type ℓ} where
  lookup-clear_fields :
      (fields : List String) (doc : Dict V) (k : String)
      → Dict.lookup k (clear_fields fields doc)
        ≡ (if contains fields k then none else Dict.lookup k doc)
  unfolding clear_fields
  lookup-clear_fields [] doc k = refl
  lookup-clear_fields (f ∷ fields) doc k =
      lookup-clear_fields fields (Dict.remove f doc) k
      ∙ ap (λ t. if contains fields k then none else t) (lookup-remove f k doc)
      ∙ both (contains fields k) (str_eq f k) (Dict.lookup k doc)
    where
      both :
          (b c : Bool) (o : Option V)
          → (if b then none else (if c then none else o)) ≡ (if c || b then none else o)
      both true true o = refl
      both true false o = refl
      both false true o = refl
      both false false o = refl

  map-map_eq :
      (f : Dict V → Dict V) (g h : Dict V → Option V)
      → ((d : Dict V) → g (f d) ≡ h d)
      → (docs : List (Dict V)) → map g (map f docs) ≡ map h docs
  map-map_eq f g h e [] = refl
  map-map_eq f g h e (d ∷ docs) = rw (e d) (ap (λ t. h d ∷ t) (map-map_eq f g h e docs))

  -- Of every document, `ExcludeQL` keeps the fields that are not given and `SelectQL` those that
  -- are given, with their values, and both unset all other fields that the message has.
  exclude_ql-select_ql :
      (names fields : List String) (docs : List (Dict V)) (k : String)
      → contains names k ≡ true
      → (map (Dict.lookup k) (exclude_ql fields docs)
          ≡ map (λ d. if contains fields k then none else Dict.lookup k d) docs)
        × (map (Dict.lookup k) (select_ql names fields docs)
            ≡ map (λ d. if contains fields k then Dict.lookup k d else none) docs)
  unfolding exclude_ql select_ql
  exclude_ql-select_ql names fields docs k known = (
    map-map_eq (clear_fields fields) (Dict.lookup k) _ (λ d. lookup-clear_fields fields d k) docs,
    map-map_eq (clear_fields (not_selected fields names)) (Dict.lookup k) _ kept docs,
  )
    where
      swap : (b : Bool) (o : Option V) → (if not b then none else o) ≡ (if b then o else none)
      swap true o = refl
      swap false o = refl

      kept :
          (d : Dict V)
          → Dict.lookup k (clear_fields (not_selected fields names) d)
            ≡ (if contains fields k then Dict.lookup k d else none)
      kept d =
          lookup-clear_fields (not_selected fields names) d k
          ∙ rw (contains-not_selected fields names k, known)
              (swap (contains fields k) (Dict.lookup k d))
