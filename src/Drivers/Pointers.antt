-- ===== src/Drivers/Pointers.antt =====
-- The documents that a reduction has met, and those that it points to.
use jina.Prelude.{
  ℕ, suc, ◌≡◌, refl, ap, sym, ◌∙◌, Bool, true, false, Option, none, some, List, [], ◌∷◌, ◌++◌, map,
  length, if◌then◌else◌, String, str_eq, eq_iff, arith, inl, inr, Bool-cases,
}
use mathlib.Core.Path.{subst}
use mathlib.Core.List.{append-nil, append_assoc}
use jina.Prelude.Dict.{contains}
use jina.Drivers.Reduce.{Visit, extend_at}

-- The documents that were met: each with its field, and those that are pointed to with the
-- identifier.
abbrev pub Met {ℓ} : Type ℓ → Type ℓ
Met A = List (Option String × List A)

abbrev pub is_owner : Option String → String → Bool
is_owner none key = false
is_owner (some k) key = str_eq k key

abbrev next_place : Option ℕ → Option ℕ
next_place none = none
next_place (some j) = some (suc j)

next_place-eq-some :
    (p : Option ℕ) (j : ℕ) → next_place p ≡ some j → (i : ℕ) × (p ≡ some i) × (j ≡ suc i)
next_place-eq-some none j h = cc
next_place-eq-some (some i) j h = (i, refl, cc)

abbrev pub or_last : Option ℕ → Option ℕ → Option ℕ
or_last none other = other
or_last (some i) other = some i

module _ {ℓ} {A : Type ℓ} where
  -- The fields of all documents of an identifier, in the order of the traversal
  unfoldable pub collected : String → List (Visit A) → List A
  collected key [] = []
  collected key (v ∷ visits) =
      let rest = collected key visits in if str_eq v.id key then v.field ++ rest else rest

  -- The first document of each identifier, of those that are not `seen`, gets what the later ones have.
  unfoldable pub first_has_all : List String → List (Visit A) → List (List A)
  first_has_all seen [] = []
  first_has_all seen (v ∷ visits) =
      (if contains seen v.id then v.field else v.field ++ collected v.id visits)
      ∷ first_has_all (v.id ∷ seen) visits

  abbrev pub place : String → Met A → Option ℕ
  place key [] = none
  place key ((owner, f) ∷ met) =
      let rest = next_place (place key met) in if is_owner owner key then some 0 else rest

  abbrev pub extend_owner : String → List A → Met A → Met A
  extend_owner key docs [] = []
  extend_owner key docs ((owner, f) ∷ met) =
      let rest = extend_owner key docs met in
      if is_owner owner key then (owner, f ++ docs) ∷ met else (owner, f) ∷ rest

  abbrev pub met_fields : Met A → List (List A)
  met_fields = map (λ (owner, f). f)

  pub extend_at-place :
      (key : String) (docs : List A) (met : Met A) (later : List (List A)) (j : ℕ)
      → place key met ≡ some j
      → extend_at j docs (met_fields met ++ later) ≡ met_fields (extend_owner key docs met) ++ later
  unfolding extend_at
  extend_at-place key docs [] later j h = cc
  extend_at-place key docs ((owner, f) ∷ met) later j h = elim (Bool-cases (is_owner owner key)) [
    | inl own ↦ let first : j ≡ 0 = ground arith in rw (first, own) refl
    | inr other ↦
        let next : next_place (place key met) ≡ some j = ground arith in
        let (i, there, after) = next_place-eq-some (place key met) j next in
        rw (after, other) (ap (λ t. f ∷ t) (extend_at-place key docs met later i there))
  ]

  pub place-extend_owner :
      (k key : String) (docs : List A) (met : Met A)
      → place k (extend_owner key docs met) ≡ place k met
  place-extend_owner k key docs [] = refl
  place-extend_owner k key docs ((owner, f) ∷ met) = elim (Bool-cases (is_owner owner key)) [
    | inl own ↦ rw own refl
    | inr other ↦ rw other (rw (place-extend_owner k key docs met) refl)
  ]

  pub length-extend_owner :
      (key : String) (docs : List A) (met : Met A) → length (extend_owner key docs met) ≡ length met
  length-extend_owner key docs [] = refl
  length-extend_owner key docs ((owner, f) ∷ met) = elim (Bool-cases (is_owner owner key)) [
    | inl own ↦ rw own refl
    | inr other ↦ rw other (ap suc (length-extend_owner key docs met))
  ]

  pub place-snoc :
      (k : String) (met : Met A) (owner : Option String) (f : List A)
      → place k (met ++ ((owner, f) ∷ []))
        ≡ or_last (place k met) (if is_owner owner k then some (length met) else none)
  place-snoc k [] owner f = refl
  place-snoc k ((o, g) ∷ met) owner f = elim (Bool-cases (is_owner o k)) [
    | inl own ↦ rw own refl
    | inr other ↦ rw other (
        ap next_place (place-snoc k met owner f)
        ∙ next_or_last (place k met) (is_owner owner k) (length met))
  ]
    where
      next_or_last :
          (p : Option ℕ) (b : Bool) (n : ℕ)
          → next_place (or_last p (if b then some n else none))
            ≡ or_last (next_place p) (if b then some (suc n) else none)
      next_or_last none true n = refl
      next_or_last none false n = refl
      next_or_last (some i) b n = refl

  -- No identifier is pointed to twice.
  abbrev pub IsFresh : Option String → Met A → Type 0
  IsFresh none met = Unit
  IsFresh (some k) met = place k met ≡ none

  abbrev pub OwnedOnce : Met A → Type 0
  OwnedOnce [] = Unit
  OwnedOnce ((owner, f) ∷ met) = IsFresh owner met × OwnedOnce met

  extend_owner-IsFresh :
      (owner : Option String) (key : String) (docs : List A) (met : Met A)
      → IsFresh owner met
      → IsFresh owner (extend_owner key docs met)
  extend_owner-IsFresh none key docs met h = tt
  extend_owner-IsFresh (some k) key docs met h = place-extend_owner k key docs met ∙ h

  pub extend_owner-OwnedOnce :
      (key : String) (docs : List A) (met : Met A)
      → OwnedOnce met
      → OwnedOnce (extend_owner key docs met)
  extend_owner-OwnedOnce key docs [] h = tt
  extend_owner-OwnedOnce key docs ((owner, f) ∷ met) (fresh, h) =
      elim (Bool-cases (is_owner owner key)) [
        | inl own ↦ rw own (fresh, h)
        | inr other ↦
            rw other
              (extend_owner-IsFresh owner key docs met fresh, extend_owner-OwnedOnce key docs met h)
      ]

  snoc-IsFresh :
      (o owner : Option String) (f : List A) (met : Met A)
      → IsFresh o met
      → ((k : String) → o ≡ some k → is_owner owner k ≡ false)
      → IsFresh o (met ++ ((owner, f) ∷ []))
  snoc-IsFresh none owner f met h differ = tt
  snoc-IsFresh (some k) owner f met h differ = place-snoc k met owner f ∙ rw (h, differ k refl) refl

  place_self :
      (key : String) (o : Option String) (f : List A) (met : Met A)
      → place key ((o, f) ∷ met) ≡ none
      → (is_owner o key ≡ false) × (place key met ≡ none)
  place_self key o f met h = elim (Bool-cases (is_owner o key)) [
    | inl own ↦ absurd (ground arith)
    | inr other ↦ (other, rest (place key met) (ground arith))
  ]
    where
      rest : (p : Option ℕ) → next_place p ≡ none → p ≡ none
      rest none h = refl
      rest (some i) h = cc

  pub snoc-OwnedOnce :
      (owner : Option String) (f : List A) (met : Met A)
      → OwnedOnce met
      → IsFresh owner met
      → OwnedOnce (met ++ ((owner, f) ∷ []))
  snoc-OwnedOnce owner f [] h fresh = (fresh, tt)
  snoc-OwnedOnce none f ((o, g) ∷ met) (fresh_o, h) fresh =
      (snoc-IsFresh o none f met fresh_o (λ k e. refl), snoc-OwnedOnce none f met h tt)
  snoc-OwnedOnce (some key) f ((o, g) ∷ met) (fresh_o, h) fresh =
      let (other, rest) = place_self key o g met fresh in
      (
        snoc-IsFresh o (some key) f met fresh_o (λ k e.
            let differ : str_eq k key ≡ false = subst (λ t. is_owner t key ≡ false) e other in
            ground (arith, differ, eq_iff k key, eq_iff key k)),
        snoc-OwnedOnce (some key) f met h rest,
      )

  -- What the fields become
  abbrev pub resolve : Option String → List A → List (Visit A) → List A
  resolve none f visits = f
  resolve (some k) f visits = f ++ collected k visits

  abbrev pub resolved : Met A → List (Visit A) → List (List A)
  resolved met visits = map (λ (owner, f). resolve owner f visits) met

  pub resolved_nil : (met : Met A) → resolved met [] ≡ met_fields met
  unfolding collected
  resolved_nil [] = refl
  resolved_nil ((none, f) ∷ met) = ap (λ t. f ∷ t) (resolved_nil met)
  resolved_nil ((some k, f) ∷ met) = rw (append-nil f) (ap (λ t. f ∷ t) (resolved_nil met))

  pub resolved-append :
      (met more : Met A) (visits : List (Visit A))
      → resolved (met ++ more) visits ≡ resolved met visits ++ resolved more visits
  resolved-append [] more visits = refl
  resolved-append ((owner, f) ∷ met) more visits =
      ap (λ t. resolve owner f visits ∷ t) (resolved-append met more visits)

  pub resolved-new :
      (v : Visit A) (visits : List (Visit A)) (met : Met A)
      → place v.id met ≡ none
      → resolved met (v ∷ visits) ≡ resolved met visits
  unfolding collected
  resolved-new v visits [] h = refl
  resolved-new v visits ((none, f) ∷ met) h =
      ap (λ t. f ∷ t) (resolved-new v visits met (place_self v.id none f met h).1)
  resolved-new v visits ((some k, f) ∷ met) h =
      let (other, rest) = place_self v.id (some k) f met h in
      let differ : str_eq v.id k ≡ false = ground (arith, other, eq_iff k v.id, eq_iff v.id k) in
      rw differ (ap (λ t. (f ++ collected k visits) ∷ t) (resolved-new v visits met rest))

  resolve-other :
      (owner : Option String) (f : List A) (v : Visit A) (visits : List (Visit A))
      → is_owner owner v.id ≡ false
      → resolve owner f visits ≡ resolve owner f (v ∷ visits)
  unfolding collected
  resolve-other none f v visits h = refl
  resolve-other (some k) f v visits h =
      let differ : str_eq v.id k ≡ false = ground (arith, h, eq_iff k v.id, eq_iff v.id k) in
      rw differ refl

  resolve-own :
      (owner : Option String) (f : List A) (v : Visit A) (visits : List (Visit A))
      → is_owner owner v.id ≡ true
      → resolve owner (f ++ v.field) visits ≡ resolve owner f (v ∷ visits)
  unfolding collected
  resolve-own none f v visits h = cc
  resolve-own (some k) f v visits h =
      let same : str_eq v.id k ≡ true = ground (arith, h, eq_iff k v.id, eq_iff v.id k) in
      rw same (append_assoc f v.field (collected k visits))

  fresh_place :
      (owner : Option String) (met : Met A) (key : String)
      → is_owner owner key ≡ true
      → IsFresh owner met
      → place key met ≡ none
  fresh_place none met key own fresh = cc
  fresh_place (some k) met key own fresh =
      subst (λ t. place t met ≡ none) ((eq_iff k key).0 own) fresh

  pub resolved-old :
      (v : Visit A) (visits : List (Visit A)) (met : Met A) (j : ℕ)
      → OwnedOnce met
      → place v.id met ≡ some j
      → resolved (extend_owner v.id v.field met) visits ≡ resolved met (v ∷ visits)
  unfolding collected
  resolved-old v visits [] j once h = cc
  resolved-old v visits ((owner, f) ∷ met) j (fresh, once) h =
      elim (Bool-cases (is_owner owner v.id)) [
        | inr other ↦
            let next : next_place (place v.id met) ≡ some j = ground arith in
            let (i, there, after) = next_place-eq-some (place v.id met) j next in
            rw other (
              ap (λ t. resolve owner f visits ∷ t) (resolved-old v visits met i once there)
              ∙ ap (λ t. t ∷ resolved met (v ∷ visits)) (resolve-other owner f v visits other))
        | inl own ↦ rw own (
            ap (λ t. t ∷ resolved met visits) (resolve-own owner f v visits own)
            ∙ ap (λ t. resolve owner f (v ∷ visits) ∷ t)
                (sym (resolved-new v visits met (fresh_place owner met v.id own fresh))))
      ]
