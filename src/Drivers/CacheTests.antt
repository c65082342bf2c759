-- ===== src/Drivers/CacheTests.antt =====
-- A request with a repeated document, and the theorem of the tagging driver at it.
use jina.Prelude.{String, ◌≡◌, refl, List, [], ◌∷◌, ◌++◌, map, ok, arith}
use jina.Prelude.Dict.{Dict}
use jina.Prelude.Int.{ℤ, pos}
use jina.Prelude.Text.{codes}
use jina.Types.Uid.{big, id2hash, id2bytes, unhexlify, bytes2hash, from_bytes}
use jina.Executors.Cache.{DocIdCache, empty_cache, is_member}
use jina.Executors.CacheLaws.{IsStored}
use jina.Drivers.Cache.{Tagged, apply_cache, tag_hit}
use jina.Drivers.CacheLaws.{doc_id_cache, HasHash, hash_of, tag_repeated, apply_cache-tag_repeated}

abbrev seen_tag : Dict String
seen_tag = ("seen", "yes") ∷ []

abbrev a_doc : Tagged String
a_doc = record { id = codes "00000000000000ff"; tags = [] }

a_doc_hash : id2hash big (codes "00000000000000ff") ≡ ok (pos 255)
unfolding id2hash id2bytes unhexlify bytes2hash from_bytes
a_doc_hash = refl

abbrev twice : List (Tagged String)
twice = a_doc ∷ a_doc ∷ []

hashed : HasHash big seen_tag a_doc
hashed = (pos 255, a_doc_hash, omega arith)

apply_cache-tag_repeated_example :
    (c1 : DocIdCache) × (apply_cache
        (doc_id_cache big seen_tag)
        (tag_hit seen_tag)
        twice
        empty_cache
      ≡ ok (c1, tag_repeated big seen_tag [] twice))
    × IsStored big c1
    × ((h : ℤ)
        → is_member h c1.query_handler ≡ is_member h ([] ++ map (hash_of big seen_tag) twice))
apply_cache-tag_repeated_example =
    apply_cache-tag_repeated big seen_tag empty_cache twice (refl, tt) (hashed, (hashed, tt))
