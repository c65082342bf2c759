-- ===== src/Drivers/ReduceLaws.antt =====
-- After the reduction the first document of each identifier has the fields of all.
use jina.Prelude.{
  ℕ, suc, ◌≡◌, refl, ap, sym, ◌∙◌, Bool, true, false, ◌||◌, Option, none, some, List, [], ◌∷◌, ◌++◌,
  length, if◌then◌else◌, String, str_eq, eq_iff, arith, inl, inr, Bool-cases, Option-cases,
  length-append,
}
use mathlib.Core.Path.{subst}
use mathlib.Core.List.{append-nil, append_assoc}
use jina.Prelude.Dict
use jina.Prelude.Dict.{Dict, contains, lookup-insert, is_some}
use jina.Drivers.Reduce.{
  Visit, Reducer, extend_at, set_or_extend, reduce_from, own_fields, reduce_all, docs_of_parts,
  collect_embeddings,
}
use jina.Drivers.Pointers.{
  collected, first_has_all, Met, place, extend_owner, met_fields, or_last, OwnedOnce, resolve,
  resolved, extend_at-place, place-extend_owner, length-extend_owner, place-snoc,
  extend_owner-OwnedOnce, snoc-OwnedOnce, resolved_nil, resolved-append, resolved-new, resolved-old,
}

or_last_none : (p : Option ℕ) → or_last p none ≡ p
or_last_none none = refl
or_last_none (some i) = refl

is_some_if :
    (b : Bool) (n : ℕ) (p : Option ℕ) → (b || is_some p) ≡ is_some (if b then some n else p)
is_some_if true n p = refl
is_some_if false n p = refl

module _ {ℓ} {A : Type ℓ} where
  -- The reducer is at the documents that were met, and `visits` are left.
  abbrev IsAt : Reducer A → Met A → List String → List (Visit A) → Type ℓ
  IsAt r met seen visits =
      ((k : String) → Dict.lookup k r.doc_pointers ≡ place k met)
      × (r.fields ≡ met_fields met ++ own_fields visits)
      × OwnedOnce met
      × ((k : String) → contains seen k ≡ is_some (place k met))

  met_fields-snoc :
      (met : Met A) (owner : Option String) (f : List A) (later : List (List A))
      → met_fields met ++ (f ∷ later) ≡ met_fields (met ++ ((owner, f) ∷ [])) ++ later
  met_fields-snoc [] owner f later = refl
  met_fields-snoc ((o, g) ∷ met) owner f later = ap (λ t. g ∷ t) (met_fields-snoc met owner f later)

  place-new :
      (key : String) (f : List A) (met : Met A) (k : String)
      → place key met ≡ none
      → place k (met ++ ((some key, f) ∷ []))
        ≡ (if str_eq key k then some (length met) else place k met)
  place-new key f met k new = elim (Bool-cases (str_eq key k)) [
    | inl same ↦
        let none_yet : place k met ≡ none =
          subst (λ t. place t met ≡ none) ((eq_iff key k).0 same) new in
        rw (place-snoc k met (some key) f, same, none_yet) refl
    | inr other ↦ rw (place-snoc k met (some key) f, other) (or_last_none (place k met))
  ]

  place-old :
      (key : String) (docs f : List A) (met : Met A) (k : String)
      → place k (extend_owner key docs met ++ ((none, f) ∷ [])) ≡ place k met
  place-old key docs f met k =
      place-snoc k (extend_owner key docs met) none f
      ∙ or_last_none (place k (extend_owner key docs met))
      ∙ place-extend_owner k key docs met

  resolved-snoc :
      (met : Met A) (owner : Option String) (f : List A) (visits : List (Visit A))
      (later : List (List A))
      → resolved (met ++ ((owner, f) ∷ [])) visits ++ later
        ≡ resolved met visits ++ (resolve owner f visits ∷ later)
  resolved-snoc met owner f visits later =
      ap (λ t. t ++ later) (resolved-append met ((owner, f) ∷ []) visits)
      ∙ append_assoc (resolved met visits) (resolve owner f visits ∷ []) later

  visit-new :
      (r : Reducer A) (met : Met A) (seen : List String) (v : Visit A) (visits : List (Visit A))
      → IsAt r met seen (v ∷ visits)
      → place v.id met ≡ none
      → IsAt
          (set_or_extend (length met) v none r)
          (met ++ ((some v.id, v.field) ∷ []))
          (v.id ∷ seen)
          visits
  visit-new r met seen v visits (pointers, fields, once, known) new = (
    λ k.
        lookup-insert v.id k (length met) r.doc_pointers
        ∙ ap (λ t. if str_eq v.id k then some (length met) else t) (pointers k)
        ∙ sym (place-new v.id v.field met k new),
    fields ∙ met_fields-snoc met (some v.id) v.field (own_fields visits),
    snoc-OwnedOnce (some v.id) v.field met once new,
    λ k.
        ap (λ t. str_eq v.id k || t) (known k)
        ∙ is_some_if (str_eq v.id k) (length met) (place k met)
        ∙ ap is_some (sym (place-new v.id v.field met k new)),
  )

  visit-old :
      (r : Reducer A) (met : Met A) (seen : List String) (v : Visit A) (visits : List (Visit A))
      (j : ℕ)
      → IsAt r met seen (v ∷ visits)
      → place v.id met ≡ some j
      → IsAt
          (set_or_extend (length met) v (some j) r)
          (extend_owner v.id v.field met ++ ((none, v.field) ∷ []))
          (v.id ∷ seen)
          visits
  visit-old r met seen v visits j (pointers, fields, once, known) old = (
    λ k. pointers k ∙ sym (place-old v.id v.field v.field met k),
    ap (extend_at j v.field) fields
        ∙ extend_at-place v.id v.field met (own_fields (v ∷ visits)) j old
        ∙ met_fields-snoc (extend_owner v.id v.field met) none v.field (own_fields visits),
    snoc-OwnedOnce none v.field (extend_owner v.id v.field met)
        (extend_owner-OwnedOnce v.id v.field met once) tt,
    λ k. elim (Bool-cases (str_eq v.id k)) [
      | inr other ↦ rw other (known k ∙ ap is_some (sym (place-old v.id v.field v.field met k)))
      | inl same ↦
          let there : place k met ≡ some j =
            subst (λ t. place t met ≡ some j) ((eq_iff v.id k).0 same) old in
          rw (same, place-old v.id v.field v.field met k, there) refl
    ],
  )

  reduce_first :
      (v : Visit A) (visits : List (Visit A)) (r : Reducer A) (i : ℕ) (o : Option ℕ)
      → Dict.lookup v.id r.doc_pointers ≡ o
      → (reduce_from i (v ∷ visits) r).fields
        ≡ (reduce_from (suc i) visits (set_or_extend i v o r)).fields
  reduce_first v visits r i o h =
      ap (λ p. (reduce_from (suc i) visits (set_or_extend i v p r)).fields) h

  reduce_from-fields :
      (visits : List (Visit A)) (met : Met A) (seen : List String) (r : Reducer A)
      → IsAt r met seen visits
      → (reduce_from (length met) visits r).fields
        ≡ resolved met visits ++ first_has_all seen visits
  unfolding first_has_all collected
  reduce_from-fields [] met seen r (pointers, fields, once, known) =
      rw fields (ap (λ t. t ++ []) (sym (resolved_nil met)))
  reduce_from-fields (v ∷ visits) met seen r (pointers, fields, once, known) =
      elim (Option-cases (place v.id met)) [
        | inl new ↦
            let met1 = met ++ ((some v.id, v.field) ∷ []) in
            let r1 = set_or_extend (length met) v none r in
            let at1 = visit-new r met seen v visits (pointers, fields, once, known) new in
            let later = reduce_from-fields visits met1 (v.id ∷ seen) r1 at1 in
            let one_more : length met1 ≡ suc (length met) =
              omega (arith, length-append met ((some v.id, v.field) ∷ [])) in
            let next =
              subst
                (λ n.
                  (reduce_from n visits r1).fields
                  ≡ resolved met1 visits ++ first_has_all (v.id ∷ seen) visits)
                one_more later in
            let unseen : contains seen v.id ≡ false = known v.id ∙ ap is_some new in
            reduce_first v visits r (length met) none (pointers v.id ∙ new)
            ∙ rw (unseen, resolved-new v visits met new)
                (next
                  ∙ resolved-snoc met (some v.id) v.field visits
                      (first_has_all (v.id ∷ seen) visits))
        | inr (j, old) ↦
            let extended = extend_owner v.id v.field met in
            let met1 = extended ++ ((none, v.field) ∷ []) in
            let r1 = set_or_extend (length met) v (some j) r in
            let at1 = visit-old r met seen v visits j (pointers, fields, once, known) old in
            let later = reduce_from-fields visits met1 (v.id ∷ seen) r1 at1 in
            let one_more : length met1 ≡ suc (length met) = omega (
              arith,
              length-append extended ((none, v.field) ∷ []),
              length-extend_owner v.id v.field met,
            ) in
            let next =
              subst
                (λ n.
                  (reduce_from n visits r1).fields
                  ≡ resolved met1 visits ++ first_has_all (v.id ∷ seen) visits)
                one_more later in
            let seen_before : contains seen v.id ≡ true = known v.id ∙ ap is_some old in
            reduce_first v visits r (length met) (some j) (pointers v.id ∙ old)
            ∙ rw (seen_before, sym (resolved-old v visits met j once old))
                (next
                  ∙ resolved-snoc extended none v.field visits (first_has_all (v.id ∷ seen) visits))
      ]

  -- The documents of all partial requests are traversed, those of the last request first. The
  -- first document of each identifier then has its own field followed by those of all later
  -- documents of that identifier, in their order, and all other documents are as they were.
  pub reduce_all-first_has_all :
      (parts : List (List (Visit A)))
      → reduce_all (docs_of_parts parts) ≡ first_has_all [] (docs_of_parts parts)
  unfolding reduce_all first_has_all Dict.lookup
  reduce_all-first_has_all parts =
      reduce_from-fields (docs_of_parts parts) [] [] _ (λ k. refl, refl, tt, λ k. refl)

  -- The first pass of ConcatEmbedDriver collects the embeddings of every identifier in the order
  -- of the traversal, after those that it had.
  pub collect_embeddings-collected :
      (visits : List (Visit A)) (pointers : Dict (List A)) (key : String) (e : List A)
      → Dict.lookup key pointers ≡ some e
      → Dict.lookup key (collect_embeddings visits pointers) ≡ some (e ++ collected key visits)
  unfolding collect_embeddings collected
  collect_embeddings-collected [] pointers key e h = h ∙ ap some (sym (append-nil e))
  collect_embeddings-collected (v ∷ visits) pointers key e h = elim (Bool-cases (str_eq v.id key)) [
    | inl same ↦
        let k_eq = (eq_iff v.id key).0 same in
        let had : Dict.lookup v.id pointers ≡ some e =
          subst (λ t. Dict.lookup t pointers ≡ some e) (sym k_eq) h in
        rw same (
          collect_embeddings-collected visits _ key (e ++ v.field)
            (lookup-insert v.id key _ pointers ∙ rw (same, had) refl)
          ∙ ap some (append_assoc e v.field (collected key visits)))
    | inr other ↦ rw other (
        collect_embeddings-collected visits _ key e
          (lookup-insert v.id key _ pointers ∙ rw other h))
  ]
