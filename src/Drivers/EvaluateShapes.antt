-- ===== src/Drivers/EvaluateShapes.antt =====
-- That the assertions of an evaluation hold for documents of the shape of their ground truths.
use jina.Prelude.{
  suc, ◌==◌, ◌≡◌, ◌≢◌, refl, ap, ◌∙◌, true, List, [], ◌∷◌, map, Result, ok, ◌>>=◌, length, All,
  arith, inl, inr, Bool-cases,
}
use mathlib.Core.Path.{subst}
use jina.Prelude.Text.{Text}
use jina.Drivers.Traversal.{
  Doc, doc, Docs, no_docs, add_doc, to_list, of_list, Edge, to_matches, to_chunks, nowhere, edge_of,
  children, set_children,
}
use jina.Drivers.Search.{SearchError}
use jina.Drivers.Evaluate.{
  docs_of, pairs_of, each_pair, paired_children, visit_pair, evaluate_path, evaluate_paths,
  evaluate_docs,
}

-- As many chunks and matches, which are alike in their order
unfoldable mutual
  pub Alike {ℓ κ} : {A : Type ℓ} {B : Type κ} → Doc A → Doc B → Type 0
  Alike (doc a cs ms) (doc b ds ns) = AlikeAll cs ds × AlikeAll ms ns

  pub AlikeAll {ℓ κ} : {A : Type ℓ} {B : Type κ} → Docs A → Docs B → Type 0
  AlikeAll no_docs no_docs = Unit
  AlikeAll no_docs (add_doc t ts) = ⊥
  AlikeAll (add_doc d ds) no_docs = ⊥
  AlikeAll (add_doc d ds) (add_doc t ts) = Alike d t × AlikeAll ds ts

module _ {ℓ κ} {A : Type ℓ} {B : Type κ} where
  abbrev pub AllAlike : List (Doc A × Doc B) → Type 0
  AllAlike = All (λ (d, t). Alike d t)

  abbrev pub truths_of : List (Doc A × Doc B) → List (Doc B)
  truths_of = map (λ (d, t). t)

  AlikeAll-length :
      (ds : Docs A) (ts : Docs B) → AlikeAll ds ts → length (to_list ds) ≡ length (to_list ts)
  unfolding AlikeAll
  AlikeAll-length no_docs no_docs h = refl
  AlikeAll-length no_docs (add_doc t ts) h = absurd h
  AlikeAll-length (add_doc d ds) no_docs h = absurd h
  AlikeAll-length (add_doc d ds) (add_doc t ts) (h, hs) = ap suc (AlikeAll-length ds ts hs)

  AlikeAll-pairs :
      (ds : Docs A) (ts : Docs B) → AlikeAll ds ts → AllAlike (pairs_of (to_list ds) (to_list ts))
  unfolding AlikeAll
  AlikeAll-pairs no_docs no_docs h = tt
  AlikeAll-pairs no_docs (add_doc t ts) h = absurd h
  AlikeAll-pairs (add_doc d ds) no_docs h = absurd h
  AlikeAll-pairs (add_doc d ds) (add_doc t ts) (h, hs) = (h, AlikeAll-pairs ds ts hs)

  -- Documents whose ground truths are given are alike to them.
  AllAlike-docs :
      (pairs : List (Doc A × Doc B)) (ts : Docs B)
      → AllAlike pairs
      → truths_of pairs ≡ to_list ts
      → AlikeAll (of_list (docs_of pairs)) ts
  unfolding AlikeAll
  AllAlike-docs [] no_docs h e = tt
  AllAlike-docs [] (add_doc t ts) h e = ground (arith, e)
  AllAlike-docs (p ∷ pairs) no_docs h e = ground (arith, e)
  AllAlike-docs ((d, t1) ∷ pairs) (add_doc t ts) (h, hs) e =
      let same : t1 ≡ t = ground (arith, e) in
      let rest : truths_of pairs ≡ to_list ts = ground (arith, e) in
      (subst (Alike d) same h, AllAlike-docs pairs ts hs rest)

  pairs_of-truths :
      (docs : List (Doc A)) (truths : List (Doc B))
      → length docs ≡ length truths
      → truths_of (pairs_of docs truths) ≡ truths
  pairs_of-truths [] [] e = refl
  pairs_of-truths [] (t ∷ truths) e = ground (arith, e)
  pairs_of-truths (d ∷ docs) [] e = ground (arith, e)
  pairs_of-truths (d ∷ docs) (t ∷ truths) e =
      ap (λ l. t ∷ l) (pairs_of-truths docs truths (omega (arith, e)))

  children-Alike :
      (edge : Edge) (d : Doc A) (t : Doc B)
      → Alike d t
      → (length (children edge d) ≡ length (children edge t))
        × AllAlike (pairs_of (children edge d) (children edge t))
  unfolding Alike
  children-Alike nowhere d t h = (refl, tt)
  children-Alike to_matches (doc a cs ms) (doc b ds ns) (hc, hm) =
      (AlikeAll-length ms ns hm, AlikeAll-pairs ms ns hm)
  children-Alike to_chunks (doc a cs ms) (doc b ds ns) (hc, hm) =
      (AlikeAll-length cs ds hc, AlikeAll-pairs cs ds hc)

  put_back-Alike :
      (edge : Edge) (d : Doc A) (t : Doc B) (pairs : List (Doc A × Doc B))
      → Alike d t
      → AllAlike pairs
      → truths_of pairs ≡ children edge t
      → Alike (set_children edge (docs_of pairs) d) t
  unfolding Alike
  put_back-Alike nowhere d t pairs h hs e = h
  put_back-Alike to_matches (doc a cs ms) (doc b ds ns) pairs (hc, hm) hs e =
      (hc, AllAlike-docs pairs ns hs e)
  put_back-Alike to_chunks (doc a cs ms) (doc b ds ns) pairs (hc, hm) hs e =
      (AllAlike-docs pairs ds hs e, hm)

module _ {ℓ κ μ} {A : Type ℓ} {B : Type κ} {E : Type μ} where
  -- A step that succeeds on a document like its ground truth, and leaves it so
  abbrev pub Succeeds : (Doc A × Doc B → Result (SearchError E) (Doc A)) → Type (ℓ ⊔ κ ⊔ μ)
  Succeeds step =
      (d : Doc A) (t : Doc B) → Alike d t → (d1 : Doc A) × (step (d, t) ≡ ok d1) × Alike d1 t

  each_pair-Succeeds :
      (step : Doc A × Doc B → Result (SearchError E) (Doc A))
      → Succeeds step
      → (pairs : List (Doc A × Doc B)) → AllAlike pairs
      → (after : List (Doc A × Doc B)) × (each_pair step pairs ≡ ok after)
        × AllAlike after
        × (truths_of after ≡ truths_of pairs)
  each_pair-Succeeds step good [] h = ([], refl, tt, refl)
  each_pair-Succeeds step good ((d, t) ∷ pairs) (h, hs) =
      let (d1, done, alike) = good d t h in
      let (after, rest, all_alike, same) = each_pair-Succeeds step good pairs hs in
      ((d1, t) ∷ after, rw (done, rest) refl, (alike, all_alike), ap (λ l. t ∷ l) same)

  -- A loop over the children of a pair, whose assertion holds
  children-Succeeds :
      (edge : Edge) (step : Doc A × Doc B → Result (SearchError E) (Doc A))
      → Succeeds step
      → (d : Doc A) (t : Doc B) → Alike d t
      → (after : List (Doc A × Doc B)) × ((paired_children edge (d, t) >>= each_pair step)
          ≡ ok after)
        × Alike (set_children edge (docs_of after) d) t
  unfolding paired_children
  children-Succeeds edge step good d t h =
      let (len, alike) = children-Alike edge d t h in
      let (after, done, all_alike, same) =
        each_pair-Succeeds step good (pairs_of (children edge d) (children edge t)) alike in
      let asserted : (length (children edge d) == length (children edge t)) ≡ true =
        ground (arith, len) in
      (
        after,
        rw asserted done,
        put_back-Alike edge d t after h all_alike
            (same ∙ pairs_of-truths (children edge d) (children edge t) len),
      )

  module _ (evaluate : Doc A → Doc B → Result (SearchError E) (Doc A))
      (evaluates : Succeeds (λ (d, t). evaluate d t)) where
    visit_pair-Succeeds : (path : Text) (edge : Edge) → Succeeds (visit_pair evaluate path edge)
    unfolding visit_pair
    visit_pair-Succeeds path nowhere d t h = (d, refl, h)
    visit_pair-Succeeds [] to_matches d t h =
        let (after, done, alike) =
          children-Succeeds to_matches (λ (d, t). evaluate d t) evaluates d t h in
        (set_children to_matches (docs_of after) d, rw done refl, alike)
    visit_pair-Succeeds [] to_chunks d t h =
        let (after, done, alike) =
          children-Succeeds to_chunks (λ (d, t). evaluate d t) evaluates d t h in
        (set_children to_chunks (docs_of after) d, rw done refl, alike)
    visit_pair-Succeeds (next ∷ path) to_matches d t h =
        let (after, done, alike) =
          children-Succeeds to_matches (visit_pair evaluate path (edge_of next))
            (visit_pair-Succeeds path (edge_of next)) d t h in
        (set_children to_matches (docs_of after) d, rw done refl, alike)
    visit_pair-Succeeds (next ∷ path) to_chunks d t h =
        let (after, done, alike) =
          children-Succeeds to_chunks (visit_pair evaluate path (edge_of next))
            (visit_pair-Succeeds path (edge_of next)) d t h in
        (set_children to_chunks (docs_of after) d, rw done refl, alike)

    evaluate_path-Succeeds :
        (path : Text) (pairs : List (Doc A × Doc B))
        → path ≢ []
        → AllAlike pairs
        → (after : List (Doc A × Doc B)) × (evaluate_path evaluate path pairs ≡ ok after)
          × AllAlike after
          × (truths_of after ≡ truths_of pairs)
    unfolding evaluate_path
    evaluate_path-Succeeds [] pairs given h = absurd (given refl)
    evaluate_path-Succeeds (edge ∷ path) pairs given h =
        let step = visit_pair evaluate path (edge_of edge) in
        let good = visit_pair-Succeeds path (edge_of edge) in
        elim (Bool-cases (edge == b'r')) [
          | inr below ↦ rw below (each_pair-Succeeds step good pairs h)
          | inl root ↦
              let (at_root, e1, alike1, same1) =
                each_pair-Succeeds (λ (d, t). evaluate d t) evaluates pairs h in
              let (after, e2, alike2, same2) = each_pair-Succeeds step good at_root alike1 in
              (after, rw (root, e1) e2, alike2, same2 ∙ same1)
        ]

    evaluate_paths-Succeeds :
        (paths : List Text) (pairs : List (Doc A × Doc B))
        → All (λ path. path ≢ []) paths
        → AllAlike pairs
        → (after : List (Doc A × Doc B)) × (evaluate_paths evaluate paths pairs ≡ ok after)
          × AllAlike after
          × (truths_of after ≡ truths_of pairs)
    unfolding evaluate_paths
    evaluate_paths-Succeeds [] pairs given h = (pairs, refl, h, refl)
    evaluate_paths-Succeeds (path ∷ paths) pairs (given, all_given) h =
        let (mid, e1, alike1, same1) = evaluate_path-Succeeds path pairs given h in
        let (after, e2, alike2, same2) = evaluate_paths-Succeeds paths mid all_given alike1 in
        (after, rw e1 e2, alike2, same2 ∙ same1)

    -- If the documents are as many as the ground truths and each is of the shape of its own, down
    -- to the last chunk and match, if no path is empty, and if every evaluation of such a document
    -- succeeds and keeps the shape: no assertion fails, neither that on the numbers nor those on the
    -- children, and the documents that are left are still of the shape of their ground truths.
    pub evaluate_docs-AllAlike :
        (paths : List Text) (docs : List (Doc A)) (truths : List (Doc B))
        → All (λ path. path ≢ []) paths
        → length docs ≡ length truths
        → AllAlike (pairs_of docs truths)
        → (after : List (Doc A × Doc B)) × (evaluate_docs evaluate paths (docs, truths)
            ≡ ok (docs_of after, truths))
          × AllAlike after
          × (truths_of after ≡ truths)
    unfolding evaluate_docs
    evaluate_docs-AllAlike paths docs truths given len h =
        let (after, done, alike, same) =
          evaluate_paths-Succeeds paths (pairs_of docs truths) given h in
        let asserted : (length docs == length truths) ≡ true = ground (arith, len) in
        (after, rw (asserted, done) refl, alike, same ∙ pairs_of-truths docs truths len)
