-- ===== src/Helper/Tests.antt =====
-- Batches of small data with the theorem of their sizes, arguments by name, and durations.
use jina.Prelude.{ℕ, ◌≡◌, refl, List, [], ◌∷◌, All, true, ok, err}
use jina.Prelude.Dict
use jina.Prelude.Names.{decimal}
use jina.Helper.Options.{
  rename_kwargs, received_both, kwargs2list, one_value, flag, no_value, time_parts,
  get_readable_time,
}
use jina.Prelude.Int.{pos}
use jina.Helper.Batches.{sequence, iterator, chunks, range_by, sequence_batches, batch_iterator}
use jina.Helper.BatchLaws.{flat, IsBatch, batch_iterator-IsBatch}

abbrev four : List ℕ
four = 7 ∷ 8 ∷ 9 ∷ 6 ∷ []

list_run : batch_iterator (sequence four) (pos 3) ≡ (7 ∷ 8 ∷ 9 ∷ []) ∷ (6 ∷ []) ∷ []
unfolding batch_iterator sequence_batches range_by
list_run = refl

iterator_run : batch_iterator (iterator four) (pos 2) ≡ (7 ∷ 8 ∷ []) ∷ (9 ∷ 6 ∷ []) ∷ []
unfolding batch_iterator chunks
iterator_run = refl

batch_iterator-IsBatch_example :
    All (IsBatch 3) (batch_iterator (sequence four) (pos 3))
    × (flat (batch_iterator (sequence four) (pos 3)) ≡ four)
batch_iterator-IsBatch_example = batch_iterator-IsBatch (sequence four) 2

readable_run : get_readable_time 90061 ≡ "1 day and 1 hour and 1 minute and 1 second"
unfolding get_readable_time time_parts decimal
readable_run = refl

zero_run : get_readable_time 7200 ≡ "2 hours and 0 seconds"
unfolding get_readable_time time_parts decimal
zero_run = refl

rename_run :
    rename_kwargs {V = ℕ} (("old", "new") ∷ []) (("old", 3) ∷ ("x", 4) ∷ [])
    ≡ ok (("x", 4) ∷ ("new", 3) ∷ [])
unfolding rename_kwargs Dict.lookup Dict.insert Dict.remove
rename_run = refl

both_run :
    rename_kwargs {V = ℕ} (("old", "new") ∷ []) (("old", 3) ∷ ("new", 4) ∷ [])
    ≡ err (received_both "old" "new")
unfolding rename_kwargs Dict.lookup Dict.insert Dict.remove
both_run = refl

words_run :
    kwargs2list (("port_in", one_value "5") ∷ ("quiet", flag true) ∷ ("name", no_value) ∷ [])
    ≡ "--port-in" ∷ "5" ∷ "--quiet" ∷ []
unfolding kwargs2list
words_run = refl
