-- ===== src/Drivers/TraversalLaws.antt =====
-- What a traversal reaches and what it leaves alone.
use jina.Prelude.{
  ℕ, ◌≡◌, ◌≢◌, refl, ap, List, [], ◌∷◌, ◌++◌, Result, ok, err, ◌>>=◌, arith, Result-cases,
  >>=-eq-ok, inl, inr,
}
use jina.Prelude.Text.{Text}
use jina.Drivers.Traversal.{
  Doc, doc, to_list, of_list, Edge, to_matches, to_chunks, nowhere, edge_of, children, set_children,
  Driver, each, apply_to, visit, traverse_rec, apply_error, traverse_path,
}

module _ {ℓ} {A : Type ℓ} where
  to_list-of_list : (ds : List (Doc A)) → to_list (of_list ds) ≡ ds
  to_list-of_list [] = refl
  to_list-of_list (d ∷ ds) = ap (λ t. d ∷ t) (to_list-of_list ds)

  -- The documents that `reach` finds below each document
  abbrev pub gather : (Doc A → List (Doc A)) → List (Doc A) → List (Doc A)
  gather reach [] = []
  gather reach (d ∷ ds) = reach d ++ gather reach ds

  -- The documents that are reached through an edge and then along a path
  unfoldable pub below : Text → Edge → Doc A → List (Doc A)
  below [] edge d = children edge d
  below (next ∷ path) edge d = gather (below path (edge_of next)) (children edge d)

  -- The documents that are reached along a path
  unfoldable pub docs_at : Text → List (Doc A) → List (Doc A)
  unfolding below
  docs_at [] docs = docs
  docs_at (edge ∷ path) docs = gather (below path (edge_of edge)) docs

  -- Setting one field leaves what is reached through another one.
  below-set_children :
      (e f : Edge) (path : Text) (ds : List (Doc A)) (d : Doc A)
      → e ≢ f
      → below path f (set_children e ds d) ≡ below path f d
  unfolding below
  below-set_children to_matches to_matches path ds d ne = absurd (ne refl)
  below-set_children to_chunks to_chunks path ds d ne = absurd (ne refl)
  below-set_children nowhere f path ds d ne = refl
  below-set_children to_matches to_chunks [] ds (doc a cs ms) ne = refl
  below-set_children to_matches to_chunks (p ∷ path) ds (doc a cs ms) ne = refl
  below-set_children to_chunks to_matches [] ds (doc a cs ms) ne = refl
  below-set_children to_chunks to_matches (p ∷ path) ds (doc a cs ms) ne = refl
  below-set_children to_matches nowhere [] ds d ne = refl
  below-set_children to_matches nowhere (p ∷ path) ds d ne = refl
  below-set_children to_chunks nowhere [] ds d ne = refl
  below-set_children to_chunks nowhere (p ∷ path) ds d ne = refl

module _ {ℓ κ} {A : Type ℓ} {E : Type κ} where
  each-append :
      (step : Doc A → Result E (Doc A)) (xs ys xs' ys' : List (Doc A))
      → each step xs ≡ ok xs'
      → each step ys ≡ ok ys'
      → each step (xs ++ ys) ≡ ok (xs' ++ ys')
  each-append step [] ys xs' ys' h k = ground arith
  each-append step (x ∷ xs) ys xs' ys' h k =
      let (x', e₁, tail) = >>=-eq-ok (step x) _ h in
      let (rest, e₂, e₃) = >>=-eq-ok (each step xs) _ tail in
      ground (arith, each-append step xs ys rest ys' e₂ k)

  -- Of a step that does to each document what `act` does to those reached below it
  each-gather :
      (step act : Doc A → Result E (Doc A)) (reach : Doc A → List (Doc A))
      (reached : (d d' : Doc A) → step d ≡ ok d' → each act (reach d) ≡ ok (reach d'))
      (docs docs' : List (Doc A))
      → each step docs ≡ ok docs'
      → each act (gather reach docs) ≡ ok (gather reach docs')
  each-gather step act reach reached [] docs' h = ground arith
  each-gather step act reach reached (d ∷ docs) docs' h =
      let (d', e₁, tail) = >>=-eq-ok (step d) _ h in
      let (rest, e₂, e₃) = >>=-eq-ok (each step docs) _ tail in
      let all : docs' ≡ d' ∷ rest = ground arith in
      rw all (
        each-append act (reach d) (gather reach docs) (reach d') (gather reach rest)
          (reached d d' e₁) (each-gather step act reach reached docs rest e₂))

  -- Of a step that keeps what is reached below each document
  each-kept :
      (step : Doc A → Result E (Doc A)) (reach : Doc A → List (Doc A))
      (kept : (d d' : Doc A) → step d ≡ ok d' → reach d' ≡ reach d) (docs docs' : List (Doc A))
      → each step docs ≡ ok docs'
      → gather reach docs' ≡ gather reach docs
  each-kept step reach kept [] docs' h = ground arith
  each-kept step reach kept (d ∷ docs) docs' h =
      let (d', e₁, tail) = >>=-eq-ok (step d) _ h in
      let (rest, e₂, e₃) = >>=-eq-ok (each step docs) _ tail in
      let all : docs' ≡ d' ∷ rest = ground arith in
      rw (all, kept d d' e₁, each-kept step reach kept docs rest e₂) refl

  -- A step that raises nothing puts what it gives in the place of the children.
  children-step :
      (edge : Edge) (step : Doc A → Result E (Doc A)) (d d' : Doc A)
      → (each step (children edge d) >>= λ ds. ok (set_children edge ds d)) ≡ ok d'
      → each step (children edge d) ≡ ok (children edge d')
  children-step nowhere step d d' h = refl
  children-step to_matches step (doc a cs ms) d' h =
      let (ds, e, put) = >>=-eq-ok (each step (to_list ms)) _ h in
      let all : d' ≡ doc a cs (of_list ds) = ground arith in rw (all, to_list-of_list ds) e
  children-step to_chunks step (doc a cs ms) d' h =
      let (ds, e, put) = >>=-eq-ok (each step (to_list cs)) _ h in
      let all : d' ≡ doc a (of_list ds) ms = ground arith in rw (all, to_list-of_list ds) e

module _ {ℓ κ} {A : Type ℓ} {E : Type κ} (driver : Driver A E) where
  visit-below :
      (path : Text) (edge : Edge) (last : ℕ) (d d' : Doc A)
      → visit driver (path ++ (last ∷ [])) edge d ≡ ok d'
      → each (apply_to driver (edge_of last)) (below path edge d) ≡ ok (below path edge d')
  unfolding visit below
  visit-below [] edge last d d' h = children-step edge (visit driver [] (edge_of last)) d d' h
  visit-below (next ∷ path) edge last d d' h =
      each-gather (visit driver (path ++ (last ∷ [])) (edge_of next))
        (apply_to driver (edge_of last)) (below path (edge_of next))
        (visit-below path (edge_of next) last) (children edge d) (children edge d')
        (children-step edge (visit driver (path ++ (last ∷ [])) (edge_of next)) d d' h)

  -- A traversal along a path that has a last edge and that raises nothing: each document that the
  -- edges before the last one lead to is handed to `_apply_all` once, as the owner of its matches
  -- or chunks, in their order, and what this leaves of it is at the same place of the changed documents.
  pub traverse_rec-docs_at :
      (path : Text) (last : ℕ) (docs docs' : List (Doc A))
      → traverse_rec driver (path ++ (last ∷ [])) docs ≡ ok docs'
      → each (apply_to driver (edge_of last)) (docs_at path docs) ≡ ok (docs_at path docs')
  unfolding traverse_rec docs_at visit
  traverse_rec-docs_at [] last docs docs' h = h
  traverse_rec-docs_at (edge ∷ path) last docs docs' h =
      each-gather (visit driver (path ++ (last ∷ [])) (edge_of edge))
        (apply_to driver (edge_of last)) (below path (edge_of edge))
        (visit-below path (edge_of edge) last) docs docs' h

  visit-other :
      (next : ℕ) (path other : Text) (e f : Edge) (d d' : Doc A)
      → e ≢ f
      → visit driver (next ∷ path) e d ≡ ok d'
      → below other f d' ≡ below other f d
  unfolding visit
  visit-other next path other e f d d' ne h =
      let (ds, walked, put) =
        >>=-eq-ok (each (visit driver path (edge_of next)) (children e d)) _ h in
      let all : d' ≡ set_children e ds d = ground arith in
      rw all (below-set_children e f other ds d ne)

  visit-elsewhere :
      (shared : Text) (edge : Edge) (e f next : ℕ) (path other : Text) (d d' : Doc A)
      → edge_of e ≢ edge_of f
      → visit driver (shared ++ (e ∷ next ∷ path)) edge d ≡ ok d'
      → below (shared ++ (f ∷ other)) edge d' ≡ below (shared ++ (f ∷ other)) edge d
  unfolding visit below
  visit-elsewhere [] edge e f next path other d d' ne h =
      let step = visit driver (next ∷ path) (edge_of e) in
      each-kept step (below other (edge_of f))
        (λ c c' k. visit-other next path other (edge_of e) (edge_of f) c c' ne k) (children edge d)
        (children edge d') (children-step edge step d d' h)
  visit-elsewhere (s ∷ shared) edge e f next path other d d' ne h =
      let step = visit driver (shared ++ (e ∷ next ∷ path)) (edge_of s) in
      each-kept step (below (shared ++ (f ∷ other)) (edge_of s))
        (λ c c' k. visit-elsewhere shared (edge_of s) e f next path other c c' ne k)
        (children edge d) (children edge d') (children-step edge step d d' h)

  -- A traversal that raises nothing leaves alone whatever is reached by a path that goes through
  -- another field at an edge which is not the last one of its own: `_apply_all` may change the
  -- children that it is given and their owner, but not what is beside them further up.
  pub traverse_rec-elsewhere :
      (shared : Text) (e f next : ℕ) (path other : Text) (docs docs' : List (Doc A))
      → edge_of e ≢ edge_of f
      → traverse_rec driver (shared ++ (e ∷ next ∷ path)) docs ≡ ok docs'
      → docs_at (shared ++ (f ∷ other)) docs' ≡ docs_at (shared ++ (f ∷ other)) docs
  unfolding traverse_rec docs_at
  traverse_rec-elsewhere [] e f next path other docs docs' ne h =
      each-kept (visit driver (next ∷ path) (edge_of e)) (below other (edge_of f))
        (λ c c' k. visit-other next path other (edge_of e) (edge_of f) c c' ne k) docs docs' h
  traverse_rec-elsewhere (s ∷ shared) e f next path other docs docs' ne h =
      each-kept (visit driver (shared ++ (e ∷ next ∷ path)) (edge_of s))
        (below (shared ++ (f ∷ other)) (edge_of s))
        (λ c c' k. visit-elsewhere shared (edge_of s) e f next path other c c' ne k) docs docs' h

  visit-nowhere : (path : Text) (d : Doc A) → visit driver path nowhere d ≡ ok d
  unfolding visit
  visit-nowhere [] d = refl
  visit-nowhere (next ∷ path) d = refl

  each-nowhere :
      (path : Text) (docs : List (Doc A)) → each (visit driver path nowhere) docs ≡ ok docs
  each-nowhere path [] = refl
  each-nowhere path (d ∷ docs) = rw (visit-nowhere path d, each-nowhere path docs) refl

  -- A path that begins with the root calls `_apply_all` on the documents themselves, and the rest of
  -- it is not followed.
  traverse_path-root :
      (path : Text) (docs : List (Doc A))
      → traverse_path driver (b'r' ∷ path) docs
        ≡ elim (driver.apply_root docs) [ err e ↦ err (apply_error e) | ok ds ↦ ok ds ]
  unfolding traverse_path traverse_rec
  traverse_path-root path docs = elim (Result-cases (driver.apply_root docs)) [
    | inl (ds, good) ↦ ground (arith, each-nowhere path ds)
    | inr (e, bad) ↦ ground arith
  ]
