-- ===== src/Drivers/Traversal.antt =====
-- jina/drivers/__init__.py: `BaseRecursiveDriver`, which calls `_apply_all` at the ends of its
-- traversal paths, with the documents there, the document that owns them and the field that they
-- come from. All of these may be changed in place: a call on the documents of a request gives the
-- changed documents, and a call on the children of a document gives the changed document, children
-- included. A driver that keeps a reference to a document of an earlier call and changes it later,
-- as ReduceAllDriver does, is not one of these; Drivers/Reduce is about it.
use jina.Prelude.{ℕ, List, [], ◌∷◌, ◌==◌, if◌then◌else◌, Result, ok, err, ◌>>=◌}
use jina.Prelude.Text.{Text}

-- A `DocumentProto`: what it says, its chunks and its matches.
mutual
  pub data Doc {ℓ} (A : Type ℓ) : Type ℓ where
    doc : A → Docs A → Docs A → Doc A

  pub data Docs {ℓ} (A : Type ℓ) : Type ℓ where
    no_docs : Docs A
    add_doc : Doc A → Docs A → Docs A

module _ {ℓ} {A : Type ℓ} where
  abbrev pub to_list : Docs A → List (Doc A)
  to_list no_docs = []
  to_list (add_doc d ds) = d ∷ to_list ds

  abbrev pub of_list : List (Doc A) → Docs A
  of_list [] = no_docs
  of_list (d ∷ ds) = add_doc d (of_list ds)

  abbrev pub chunks : Doc A → List (Doc A)
  chunks (doc a cs ms) = to_list cs

  abbrev pub matches : Doc A → List (Doc A)
  matches (doc a cs ms) = to_list ms

-- The fields that a path may go through: `matches` for `m`, `chunks` for `c`, and nothing for other
-- characters.
pub data Edge : Type 0 where
  to_matches to_chunks nowhere : Edge

abbrev pub edge_of : ℕ → Edge
edge_of c = if c == b'm' then to_matches else if c == b'c' then to_chunks else nowhere

module _ {ℓ} {A : Type ℓ} where
  abbrev pub children : Edge → Doc A → List (Doc A)
  children to_matches d = matches d
  children to_chunks d = chunks d
  children nowhere d = []

  abbrev pub set_children : Edge → List (Doc A) → Doc A → Doc A
  set_children to_matches ds (doc a cs ms) = doc a cs (of_list ds)
  set_children to_chunks ds (doc a cs ms) = doc a (of_list ds) ms
  set_children nowhere ds d = d

-- The exceptions: what `_apply_all` raises, and the `IndexError` of an empty path.
pub data DriverError {κ} (E : Type κ) : Type κ where
  apply_error : E → DriverError E
  empty_path : DriverError E

-- `_apply_all`: on the documents of a request, for which `context_doc` and `field` are None, and on
-- the children of an owner, which it gives as it leaves them with their owner.
pub record Driver {ℓ κ} (A : Type ℓ) (E : Type κ) : Type (ℓ ⊔ κ) where
  pub apply_root : List (Doc A) → Result E (List (Doc A))
  pub apply_below : Edge → Doc A → Result E (Doc A)

module _ {ℓ κ} {A : Type ℓ} {E : Type κ} where
  -- `for doc in docs`
  abbrev pub each : (Doc A → Result E (Doc A)) → List (Doc A) → Result E (List (Doc A))
  each step [] = ok []
  each step (d ∷ ds) = do d' ← step d; rest ← each step ds; ok (d' ∷ rest)

  module _ (driver : Driver A E) where
    abbrev pub apply_to : Edge → Doc A → Result E (Doc A)
    apply_to nowhere d = ok d
    apply_to to_matches d = driver.apply_below to_matches d
    apply_to to_chunks d = driver.apply_below to_chunks d

    -- `_traverse_rec(doc.matches, doc, 'matches', path)`, or with the chunks
    unfoldable pub visit : Text → Edge → Doc A → Result E (Doc A)
    visit [] edge d = apply_to edge d
    visit (next ∷ path) edge d =
        each (visit path (edge_of next)) (children edge d) >>= λ ds. ok (set_children edge ds d)

    -- `_traverse_rec` on the documents of a request
    unfoldable pub traverse_rec : Text → List (Doc A) → Result E (List (Doc A))
    unfolding visit
    traverse_rec [] docs = driver.apply_root docs
    traverse_rec (edge ∷ path) docs = each (visit path (edge_of edge)) docs

    -- One round of `_traverse_apply`, over the documents of a request
    unfoldable pub traverse_path : Text → List (Doc A) → Result (DriverError E) (List (Doc A))
    unfolding traverse_rec
    traverse_path [] docs = err empty_path
    traverse_path (edge ∷ path) docs =
        let root = if edge == b'r' then traverse_rec [] docs else ok docs in
        elim (root >>= traverse_rec (edge ∷ path)) [ err e ↦ err (apply_error e) | ok ds ↦ ok ds ]

    -- `_traverse_apply`
    unfoldable pub traverse_apply : List Text → List (Doc A) → Result (DriverError E) (List (Doc A))
    unfolding traverse_path
    traverse_apply [] docs = ok docs
    traverse_apply (path ∷ paths) docs = traverse_path path docs >>= λ ds. traverse_apply paths ds
