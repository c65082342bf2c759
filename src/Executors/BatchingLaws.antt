-- ===== src/Executors/BatchingLaws.antt =====
-- A method that works row by row gives the same result in batches.
use jina.Prelude.{
  ℕ, zero, suc, ◌≡◌, refl, ap, sym, ◌∙◌, Bool, true, Option, none, some, List, [], ◌∷◌, ◌++◌, map,
  ltb, leb, Result, ok, ◌>>=◌, length, arith, inl, inr, Bool-cases,
}
use mathlib.Core.List.{append-nil}
use jina.Prelude.Int.{pos}
use jina.Helper.Batches.{
  Data, array, memmap, sequence, iterator, items, apply_slice, array_slices, sequence_batches,
  range_by, batch_iterator,
}
use jina.Helper.BatchLaws.{flat, flat-batch_iterator}
use jina.Executors.Batching.{
  Output, rows_out, single, BatchSize, get_size, get_total_size, up_to, all_rows_out, merge_results,
  slice_data, decorator_size, or_class_size, make_batches, run_batches, finish, batching,
}

module _ {ℓ} {A : Type ℓ} where
  -- Something is left in a list that is cut in batches.
  abbrev pub IsCons : List A → Type 0
  IsCons [] = ⊥
  IsCons (x ∷ xs) = Unit

array_slices-IsCons : (l n : ℕ) → IsCons (array_slices l (suc n))
unfolding array_slices range_by
array_slices-IsCons zero n = let whole : leb 0 (suc n) ≡ true = ground arith in rw whole tt
array_slices-IsCons (suc l) n = elim (Bool-cases (leb (suc l) (suc n))) [
  | inl whole ↦ rw whole tt
  | inr many ↦ let positive : ltb 0 (suc l) ≡ true = ground arith in rw (many, positive) tt
]

map-IsCons {ℓ κ} :
    {A : Type ℓ} {B : Type κ} (f : A → B) (xs : List A) → IsCons xs → IsCons (map f xs)
map-IsCons f [] h = h
map-IsCons f (x ∷ xs) h = tt

sequence_batches-IsCons {ℓ} :
    {A : Type ℓ} (xs : List A) (n : ℕ) → IsCons (sequence_batches xs (suc n))
unfolding sequence_batches range_by
sequence_batches-IsCons [] n = let whole : leb 0 (suc n) ≡ true = ground arith in rw whole tt
sequence_batches-IsCons (x ∷ xs) n = elim (Bool-cases (leb (suc (length xs)) (suc n))) [
  | inl whole ↦ rw whole tt
  | inr many ↦
      let positive : ltb 0 (suc (length xs)) ≡ true = ground arith in rw (many, positive) tt
]

array_batches-IsCons {ℓ} :
    {A : Type ℓ} (xs : List A) (n : ℕ) → IsCons (batch_iterator (array xs) (pos n))
unfolding batch_iterator
array_batches-IsCons xs zero = tt
array_batches-IsCons xs (suc n) =
    map-IsCons (λ sl. apply_slice sl xs) (array_slices (length xs) (suc n))
      (array_slices-IsCons (length xs) n)

list_batches-IsCons {ℓ} :
    {A : Type ℓ} (xs : List A) (n : ℕ) → IsCons (batch_iterator (sequence xs) (pos n))
unfolding batch_iterator
list_batches-IsCons xs zero = tt
list_batches-IsCons xs (suc n) = sequence_batches-IsCons xs n

-- Data that can be cut and are not read from a file again
abbrev pub IsInMemory {ℓ} : {A : Type ℓ} → Data A → Type 0
IsInMemory (array xs) = Unit
IsInMemory (memmap xs) = ⊥
IsInMemory (sequence xs) = Unit
IsInMemory (iterator xs) = ⊥

module _ {ℓ κ μ ν τ} {A : Type ν} {B : Type ℓ} {V : Type κ} {E : Type μ} {S : Type τ}
    (concatenate : List (List B) → List B)
    (concatenate-flat : (xss : List (List B)) → concatenate xss ≡ flat xss)
    (method : S → List A → Option (ℕ × ℕ) → Result E (S × Option (Output B V)))
    (step : S → List A → S)
    (step-append : (s : S) (xs ys : List A) → step s (xs ++ ys) ≡ step (step s xs) ys)
    (f : List A → List B) (f-append : (xs ys : List A) → f (xs ++ ys) ≡ f xs ++ f ys)
    (method-rows : (s : S) (xs : List A) (idx : Option (ℕ × ℕ))
      → method s xs idx ≡ ok (step s xs, some (rows_out (f xs)))) where
  abbrev plain : List (List A) → List (List A × Option (ℕ × ℕ))
  plain = map (λ b. (b, none))

  abbrev outs_of : List (List A) → List (Output B V)
  outs_of = map (λ b. rows_out (f b))

  abbrev steps : S → List (List A) → S
  steps s [] = s
  steps s (b ∷ bs) = steps (step s b) bs

  run_batches-rows :
      (s : S) (bs : List (List A)) → run_batches method s (plain bs) ≡ ok (steps s bs, outs_of bs)
  unfolding run_batches
  run_batches-rows s [] = refl
  run_batches-rows s (b ∷ bs) = rw (method-rows s b none) (rw (run_batches-rows (step s b) bs) refl)

  steps-flat : (s : S) (b : List A) (bs : List (List A)) → steps s (b ∷ bs) ≡ step s (flat (b ∷ bs))
  steps-flat s b [] = ap (step s) (sym (append-nil b))
  steps-flat s b (c ∷ bs) = steps-flat (step s b) c bs ∙ sym (step-append s b (flat (c ∷ bs)))

  all_rows_out-rows : (bs : List (List A)) → all_rows_out {E = E} (outs_of bs) ≡ ok (map f bs)
  all_rows_out-rows [] = refl
  all_rows_out-rows (b ∷ bs) = rw (all_rows_out-rows bs) refl

  flat-map : (b : List A) (bs : List (List A)) → flat (map f (b ∷ bs)) ≡ f (flat (b ∷ bs))
  flat-map b [] = append-nil (f b) ∙ ap f (sym (append-nil b))
  flat-map b (c ∷ bs) = ap (λ t. f b ++ t) (flat-map c bs) ∙ sym (f-append b (flat (c ∷ bs)))

  merge_results-rows :
      (b : List A) (bs : List (List A))
      → merge_results {E = E} concatenate true (outs_of (b ∷ bs))
        ≡ ok (single (rows_out (f (flat (b ∷ bs)))))
  unfolding merge_results
  merge_results-rows b [] = ap (λ t. ok (single (rows_out (f t)))) (sym (append-nil b))
  merge_results-rows b (c ∷ bs) = rw (all_rows_out-rows bs) (
      ap (λ t. ok (single (rows_out t)))
        (concatenate-flat (map f (b ∷ c ∷ bs)) ∙ flat-map b (c ∷ bs)))

  run_merge-rows :
      (size : BatchSize A) (num_batch : Option ℕ) (ordinal : Bool) (s : S) (bs : List (List A))
      → IsCons bs
      → (run_batches method s (plain bs) >>= finish method concatenate size num_batch true ordinal)
        ≡ ok (step s (flat bs), single (rows_out (f (flat bs))))
  run_merge-rows size num_batch ordinal s [] h = absurd h
  run_merge-rows size num_batch ordinal s (b ∷ bs) h = rw (run_batches-rows s (b ∷ bs)) (
      rw (merge_results-rows b bs)
        (ap (λ t. ok (t, single (rows_out (f (flat (b ∷ bs)))))) (steps-flat s b bs)))

  in_memory-batches :
      (ordinal : Bool) (d : Data A) (b_size : ℕ) (total : Option ℕ)
      → IsInMemory d
      → (bs : List (List A)) × (IsCons bs)
        × (flat bs ≡ up_to total (items d))
        × ((slice_data {E = E} total d >>= make_batches ordinal b_size d) ≡ ok (plain bs))
  unfolding slice_data make_batches batch_iterator
  in_memory-batches ordinal (array xs) b_size total h =
      let sliced = array (up_to total xs) in
      (
        batch_iterator sliced (pos b_size),
        array_batches-IsCons (up_to total xs) b_size,
        flat-batch_iterator sliced (pos b_size),
        refl,
      )
  in_memory-batches ordinal (memmap xs) b_size total h = absurd h
  in_memory-batches ordinal (iterator xs) b_size total h = absurd h
  in_memory-batches ordinal (sequence xs) b_size total h =
      let sliced = sequence (up_to total xs) in
      (
        batch_iterator sliced (pos b_size),
        list_batches-IsCons (up_to total xs) b_size,
        flat-batch_iterator sliced (pos b_size),
        refl,
      )

  -- A method that works row by row: on an object that is changed by one row after the other, and
  -- with the rows of the results one after the other. Data in memory are cut in batches of any
  -- positive size, or in none where the size is zero, and the results merged over the first axis:
  -- the object and the result are those of one call on the first rows of the data, up to the total
  -- size.
  pub batching-rows :
      (size : BatchSize A) (num_batch : Option ℕ) (ordinal : Bool) (class_size : Option ℕ)
      (d : Data A) (s : S) (b_size : ℕ) (total : Option ℕ)
      → IsInMemory d
      → or_class_size (decorator_size size d) class_size ≡ some b_size
      → get_total_size {E = E} (get_size d) size num_batch ≡ ok total
      → batching method concatenate size num_batch true ordinal class_size d s
        ≡ ok (step s (up_to total (items d)), single (rows_out (f (up_to total (items d)))))
  unfolding batching slice_data make_batches
  batching-rows size num_batch ordinal class_size d s b_size total in_memory size_eq total_eq =
      let (bs, some_batch, flat_eq, made) = in_memory-batches ordinal d b_size total in_memory in
      rw (size_eq, total_eq, made)
        (run_merge-rows size num_batch ordinal s bs some_batch
          ∙ ap (λ t. ok (step s t, single (rows_out (f t)))) flat_eq)
