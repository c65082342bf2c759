-- ===== src/Drivers/ReduceTests.antt =====
-- Partial requests and documents to sort and to select from, and the theorems at them.
use jina.Prelude.{
  ℕ, ◌%◌, ◌≡◌, ◌⊎◌, refl, true, false, List, [], ◌∷◌, ltb, String, Result, ok, arith,
}
use jina.Prelude.Dict
use jina.Prelude.Dict.{Dict, contains}
use jina.Drivers.Reduce.{Visit, reduce_all, extend_at, docs_of_parts}
use jina.Drivers.Pointers.{first_has_all}
use jina.Drivers.ReduceLaws.{reduce_all-first_has_all}
use jina.Drivers.Sort.{with_keys, insert_sorted, sort_keyed, sort_ql}

abbrev page : String → List ℕ → Visit ℕ
page id field = record { id = id; field = field }

abbrev two_parts : List (List (Visit ℕ))
two_parts =
    (page "a" (1 ∷ []) ∷ page "b" (2 ∷ []) ∷ []) ∷ (page "a" (3 ∷ []) ∷ page "b" (4 ∷ []) ∷ []) ∷ []

-- The documents of the last request, which come first, have all fields.
reduce_run :
    reduce_all (docs_of_parts two_parts) ≡ (3 ∷ 1 ∷ []) ∷ (4 ∷ 2 ∷ []) ∷ (1 ∷ []) ∷ (2 ∷ []) ∷ []
unfolding reduce_all extend_at Dict.lookup Dict.insert
reduce_run = refl

reduce_all-first_has_all_example :
    reduce_all (docs_of_parts two_parts) ≡ first_has_all [] (docs_of_parts two_parts)
reduce_all-first_has_all_example = reduce_all-first_has_all two_parts

abbrev last_digit : ℕ → Result String ℕ
last_digit n = ok (n % 10)

ltb_asymmetric : (a b : ℕ) → ltb a b ≡ true → ltb b a ≡ false
ltb_asymmetric a b h = ground arith

ltb_cotransitive : (a b c : ℕ) → ltb a c ≡ true → (ltb a b ≡ true) ⊎ (ltb b c ≡ true)
ltb_cotransitive a b c h = ground arith

abbrev numbers : List ℕ
numbers = 12 ∷ 31 ∷ 42 ∷ []

abbrev keyed_numbers : List (ℕ × ℕ)
keyed_numbers = (2, 12) ∷ (1, 31) ∷ (2, 42) ∷ []

down_run : sort_ql last_digit ltb true numbers ≡ ok (12 ∷ 42 ∷ 31 ∷ [])
unfolding sort_ql with_keys sort_keyed insert_sorted
down_run = refl

numbers_keyed : with_keys last_digit numbers ≡ ok keyed_numbers
unfolding with_keys
numbers_keyed = refl

abbrev a_document : Dict ℕ
a_document = ("text", 1) ∷ ("chunks", 2) ∷ []

abbrev field_names : List String
field_names = "text" ∷ "chunks" ∷ "buffer" ∷ []
