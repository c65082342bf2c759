-- ===== src/Drivers/Cache.antt =====
-- jina/drivers/cache.py: the drivers that ask a cache for the documents of a request.
use jina.Prelude.{Option, none, some, List, [], ◌∷◌, Result, ok, ◌>>=◌}
use jina.Prelude.Dict
use jina.Prelude.Dict.{Dict}
use jina.Prelude.Text.{Text}

-- A document, by its identifier and its tags
pub record Tagged {ℓ} (V : Type ℓ) : Type ℓ where
  pub id : Text
  pub tags : Dict V

-- The executor of the driver: `exec[id]` and `exec_fn(id)`, on its state
pub record CacheExecutor {ℓ κ μ} (S : Type ℓ) (E : Type κ) (R : Type μ) : Type (ℓ ⊔ κ ⊔ μ) where
  pub get_item : Text → S → Result E (Option R)
  pub exec_fn : Text → S → Result E S

-- `tags.update(more)`
unfoldable pub update_tags {ℓ} : {V : Type ℓ} → Dict V → Dict V → Dict V
update_tags [] tags = tags
update_tags ((k, v) ∷ more) tags = update_tags more (Dict.insert k v tags)

module _ {ℓ κ μ ν} {S : Type ℓ} {E : Type κ} {R : Type μ} {V : Type ν}
    (executor : CacheExecutor S E R) (on_hit : Tagged V → R → Tagged V) where
  -- `on_miss`; the serialized document is passed on to executors that take it.
  abbrev pub on_miss : Tagged V → S → Result E S
  on_miss d s = executor.exec_fn d.id s

  -- What the driver does with one document, by the answer of the cache
  abbrev pub handle_answer : Tagged V → S → Option R → Result E (S × Tagged V)
  handle_answer d s none = on_miss d s >>= λ s1. ok (s1, d)
  handle_answer d s (some r) = ok (s, on_hit d r)

  -- `BaseCacheDriver._apply_all`
  unfoldable pub apply_cache : List (Tagged V) → S → Result E (S × List (Tagged V))
  apply_cache [] s = ok (s, [])
  apply_cache (d ∷ docs) s = do
    result ← executor.get_item d.id s
    (s1, d1) ← handle_answer d s result
    (s2, docs1) ← apply_cache docs s1
    ok (s2, d1 ∷ docs1)

-- `TaggingCacheDriver.on_hit`
unfoldable pub tag_hit {ℓ κ} : {V : Type ℓ} {R : Type κ} → Dict V → Tagged V → R → Tagged V
unfolding update_tags
tag_hit more d hit_result = record d { tags = update_tags more d.tags }
