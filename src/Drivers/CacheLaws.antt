-- ===== src/Drivers/CacheLaws.antt =====
-- The tagging driver over the cache of identifiers marks the documents that were seen before.
use jina.Prelude.{
  ◌≡◌, refl, ap, sym, ◌∙◌, Bool, true, List, [], ◌∷◌, ◌++◌, map, if◌then◌else◌, Result, ok, err,
  All, arith, inl, inr, Bool-cases,
}
use mathlib.Core.Path.{subst}
use mathlib.Core.List.{append-nil, append_assoc}
use jina.Prelude.Dict.{Dict}
use jina.Prelude.Int.{ℤ, pos, eq_ℤ, eq_ℤ-eq}
use jina.Types.Uid.{ByteOrder, UidError, id2hash}
use jina.Types.UidLaws.{Fits}
use jina.Executors.Cache.{DocIdCache, is_member, add_id, query_id}
use jina.Executors.CacheLaws.{IsStored, add_id-IsStored, is_member-append}
use jina.Drivers.Cache.{Tagged, CacheExecutor, apply_cache, tag_hit}

module _ {ℓ} (order : ByteOrder) {V : Type ℓ} (tags : Dict V) where
  -- `DocIDCache` as the executor of the driver
  abbrev pub doc_id_cache : CacheExecutor DocIdCache UidError Bool
  doc_id_cache = record { get_item = query_id order; exec_fn = add_id order }

  abbrev pub ok_hash : Result UidError ℤ → ℤ
  ok_hash (ok h) = h
  ok_hash (err e) = pos 0

  abbrev pub hash_of : Tagged V → ℤ
  hash_of d = ok_hash (id2hash order d.id)

  -- The identifier has a hash, which is an int64.
  abbrev pub HasHash : Tagged V → Type 0
  HasHash d = (h : ℤ) × (id2hash order d.id ≡ ok h) × Fits 8 h

  -- A document is tagged if its hash is one of those seen or of an earlier document.
  abbrev pub tag_repeated : List ℤ → List (Tagged V) → List (Tagged V)
  tag_repeated seen [] = []
  tag_repeated seen (d ∷ docs) =
      (if is_member (hash_of d) seen then tag_hit tags d true else d)
      ∷ tag_repeated (seen ++ (hash_of d ∷ [])) docs

  tag_repeated_eq :
      (seen known : List ℤ) (docs : List (Tagged V))
      → ((h : ℤ) → is_member h seen ≡ is_member h known)
      → tag_repeated seen docs ≡ tag_repeated known docs
  tag_repeated_eq seen known [] same = refl
  tag_repeated_eq seen known (d ∷ docs) same = rw (same (hash_of d)) (
      ap (λ t. (if is_member (hash_of d) known then tag_hit tags d true else d) ∷ t)
        (tag_repeated_eq (seen ++ (hash_of d ∷ [])) (known ++ (hash_of d ∷ [])) docs (λ h. ground (
          arith,
          same h,
          is_member-append h seen (hash_of d ∷ []),
          is_member-append h known (hash_of d ∷ []),
        ))))

  -- A hash that is there already adds nothing.
  is_member-again :
      (h : ℤ) (seen : List ℤ) (more : List ℤ)
      → is_member h seen ≡ true
      → (x : ℤ) → is_member x (seen ++ more) ≡ is_member x (seen ++ (h ∷ more))
  is_member-again h seen more hit x = elim (Bool-cases (eq_ℤ h x)) [
    | inl same ↦
        let there : is_member x seen ≡ true =
          subst (λ k. is_member k seen ≡ true) (eq_ℤ-eq h x same) hit in
        ground (arith, is_member-append x seen more, is_member-append x seen (h ∷ more))
    | inr other ↦ ground (arith, is_member-append x seen more, is_member-append x seen (h ∷ more))
  ]

  -- From a cache whose file stands for its set, the driver goes through all documents with hashes:
  -- it tags exactly those whose hash is in the cache or is that of an earlier document of the
  -- request, and leaves a cache whose file stands for its set again, with all hashes and no other.
  pub apply_cache-tag_repeated :
      (c : DocIdCache) (docs : List (Tagged V))
      → IsStored order c
      → All HasHash docs
      → (c1 : DocIdCache) × (apply_cache doc_id_cache (tag_hit tags) docs c
          ≡ ok (c1, tag_repeated c.query_handler docs))
        × IsStored order c1
        × ((h : ℤ)
            → is_member h c1.query_handler ≡ is_member h (c.query_handler ++ map hash_of docs))
  unfolding apply_cache query_id
  apply_cache-tag_repeated c [] stored all =
      (c, refl, stored, λ h. ap (is_member h) (sym (append-nil c.query_handler)))
  apply_cache-tag_repeated c (d ∷ docs) stored ((h, hashed, fits), all) =
      elim (Bool-cases (is_member h c.query_handler)) [
        | inl hit ↦
            let (c1, ran, stored1, members) = apply_cache-tag_repeated c docs stored all in
            let again = is_member-again h c.query_handler in
            let same =
              tag_repeated_eq c.query_handler (c.query_handler ++ (h ∷ [])) docs
                (λ x. ap (is_member x) (sym (append-nil c.query_handler)) ∙ again [] hit x) in
            (
              c1,
              rw (query_id, hashed)
                  (rw hit (rw ran (ap (λ t. ok (c1, tag_hit tags d true ∷ t)) same))),
              stored1,
              λ x. rw hashed (members x ∙ again (map hash_of docs) hit x),
            )
        | inr miss ↦
            let (c1, added, stored1, longer, reopened, found) =
              add_id-IsStored order c d.id h stored hashed fits in
            let (c2, ran, stored2, members) = apply_cache-tag_repeated c1 docs stored1 all in
            (
              c2,
              rw (query_id, hashed)
                  (rw miss (rw added (rw ran (ap (λ t. ok (c2, d ∷ tag_repeated t docs)) longer)))),
              stored2,
              λ x. rw hashed (
                  members x
                  ∙ ap (λ t. is_member x (t ++ map hash_of docs)) longer
                  ∙ ap (is_member x) (append_assoc c.query_handler (h ∷ []) (map hash_of docs))),
            )
      ]
