-- ===== src/Drivers/Tests.antt =====
-- Small requests, and the theorems of the drivers at them.
use jina.Prelude.{
  ℕ, ◌+◌, String, inl, ◌≡◌, refl, Bool, true, false, Option, some, List, [], ◌∷◌, ltb, Result, ok,
  take, drop, arith, eq_iff,
}
use jina.Prelude.Dict
use jina.Prelude.Dict.{contains}
use jina.Prelude.Int.{pos, negsuc, slice_bound}
use jina.Prelude.Text.{Text, codes}
use jina.QuerySet.{Value, null, int, obj, end, field}
use jina.QuerySet.Lookup.{Lookups, lookup, no_lookup, value}
use jina.Drivers.QueryLang.{
  apply_filter, passes_lookups, filter_ql, miss_idx, delete_reversed, slice_ql,
}
use jina.Drivers.QueryLangLaws.{
  keep_passing, apply_filter-keep_passing, slice_ql-take-drop, reversed,
}
use jina.Drivers.Traversal.{
  Doc, doc, no_docs, add_doc, to_list, of_list, Edge, to_chunks, edge_of, Driver, each, apply_to,
  traverse_rec,
}
use jina.Drivers.TraversalLaws.{docs_at, traverse_rec-docs_at, traverse_rec-elsewhere}
use jina.Drivers.Reading.{QueryLang, Reader, overrides}
use jina.Drivers.ReadingLaws.{IsSilent}
use jina.Drivers.Route.{Router, data_request, control_request, idle, route, new_router}
use jina.Drivers.RouteLaws.{
  IsValid, here, next, IdleAfter, Picks, new_router-Reach-IsValid, route-IdleAfter,
}

abbrev id_of : ℕ → Value
id_of n = obj (field (codes "id") (int (pos n)) end)

abbrev is_small : ℕ → Result String Bool
is_small n = ok (ltb n 3)

filter_run : filter_ql is_small (5 ∷ 1 ∷ 7 ∷ 2 ∷ []) ≡ ok (1 ∷ 2 ∷ [])
unfolding filter_ql miss_idx delete_reversed
filter_run = refl

slice_run : slice_ql {A = ℕ} (pos 1) (negsuc 0) (5 ∷ 1 ∷ 7 ∷ 2 ∷ []) ≡ 1 ∷ 7 ∷ []
unfolding slice_ql
slice_run = refl

abbrev no_match : Text → Text → Option Bool
no_match _ _ = some false

abbrev is_null : Lookups
is_null = lookup (codes "id") (value null) no_lookup

apply_filter-keep_passing_example :
    apply_filter no_match is_null id_of (5 ∷ 1 ∷ [])
    ≡ keep_passing (passes_lookups no_match is_null id_of) (5 ∷ 1 ∷ [])
apply_filter-keep_passing_example = apply_filter-keep_passing no_match is_null id_of (5 ∷ 1 ∷ [])

slice_ql-take-drop_example :
    slice_ql {A = ℕ} (pos 1) (negsuc 0) (5 ∷ 1 ∷ 7 ∷ 2 ∷ [])
    ≡ drop {A = ℕ} 1 (take (slice_bound 4 (negsuc 0)) (5 ∷ 1 ∷ 7 ∷ 2 ∷ []))
slice_ql-take-drop_example = slice_ql-take-drop 1 (negsuc 0) (5 ∷ 1 ∷ 7 ∷ 2 ∷ [])

-- A document with two chunks and a match
abbrev page : Doc ℕ
page =
    doc 1 (add_doc (doc 2 no_docs no_docs) (add_doc (doc 3 no_docs no_docs) no_docs))
      (add_doc (doc 4 no_docs no_docs) no_docs)

-- A driver that turns the chunks around and notes in their owner that it has.
abbrev turn_below : Edge → Doc ℕ → Result String (Doc ℕ)
turn_below to_chunks (doc a cs ms) = ok (doc (a + 10) (of_list (reversed (to_list cs))) ms)
turn_below edge d = ok d

abbrev turner : Driver ℕ String
turner = record { apply_root = λ docs. ok (reversed docs); apply_below = turn_below }

-- A document whose only chunk is the page
abbrev book : Doc ℕ
book = doc 0 (add_doc page no_docs) (add_doc (doc 5 no_docs no_docs) no_docs)

abbrev turned : Doc ℕ
turned =
    doc 11 (add_doc (doc 3 no_docs no_docs) (add_doc (doc 2 no_docs no_docs) no_docs))
      (add_doc (doc 4 no_docs no_docs) no_docs)

abbrev turned_book : Doc ℕ
turned_book = doc 0 (add_doc turned no_docs) (add_doc (doc 5 no_docs no_docs) no_docs)

turned_ok : traverse_rec turner (codes "cc") (book ∷ []) ≡ ok (turned_book ∷ [])
unfolding traverse_rec
turned_ok = refl

traverse_rec-docs_at_example :
    each (apply_to turner (edge_of b'c')) (docs_at (codes "c") (book ∷ []))
    ≡ ok (docs_at (codes "c") (turned_book ∷ []))
traverse_rec-docs_at_example =
    traverse_rec-docs_at turner (codes "c") b'c' (book ∷ []) (turned_book ∷ []) turned_ok

traverse_rec-elsewhere_example :
    docs_at (codes "m") (turned_book ∷ []) ≡ docs_at (codes "m") (book ∷ [])
traverse_rec-elsewhere_example =
    traverse_rec-elsewhere turner [] b'c' b'm' b'c' [] [] (book ∷ []) (turned_book ∷ [])
      (λ e. ground (arith, e)) turned_ok

abbrev first_id : List String → String
first_id [] = ""
first_id (i ∷ ids) = i

first_id-Picks : Picks first_id
first_id-Picks d ids = ground (arith, eq_iff d d)

-- A router to which two dealers have reported
abbrev two_idle : Router
two_idle =
    (route first_id (route first_id (new_router true) (control_request idle "a")).0
      (control_request idle "b")).0

two_idle-IsValid : IsValid two_idle
two_idle-IsValid =
    new_router-Reach-IsValid first_id true
      (next (next here (control_request idle "a")) (control_request idle "b"))

new_router-Reach-IsValid_example : IsValid two_idle
new_router-Reach-IsValid_example =
    new_router-Reach-IsValid first_id true
      (next (next here (control_request idle "a")) (control_request idle "b"))

route-IdleAfter_example : IdleAfter two_idle data_request (route first_id two_idle data_request) "a"
route-IdleAfter_example =
    route-IdleAfter first_id two_idle data_request "a" first_id-Picks two_idle-IsValid

abbrev slicer : Reader ℕ
slicer = record {
  class_name = "SliceQL";
  priority = 0;
  defaults = ("start", 0) ∷ [];
  init_kwargs = ("start", 0) ∷ ("end", 0) ∷ [];
}

abbrev weak : QueryLang ℕ
weak = record { name = "SliceQL"; priority = 0; disabled = false; parameters = ("start", 9) ∷ [] }

abbrev strong : QueryLang ℕ
strong = record { name = "SliceQL"; priority = 1; disabled = false; parameters = ("start", 5) ∷ [] }

weak-IsSilent : IsSilent slicer "start" weak
unfolding overrides
weak-IsSilent = inl refl

strong-overrides : overrides slicer strong ≡ true
unfolding overrides
strong-overrides = refl

strong-start : Dict.lookup "start" strong.parameters ≡ some 5
unfolding Dict.lookup
strong-start = refl
