-- ===== src/Executors/Batching.antt =====
-- `batching` of jina/executors/decorators.py: a method is called on the batches of its data and
-- the results are merged. The data are split and merged over the first axis.
use jina.Prelude.{
  ℕ, zero, suc, Bool, true, false, Option, none, some, List, [], ◌∷◌, map, if◌then◌else◌, Result,
  ok, err, ◌>>=◌, length, take, ◌*◌, min,
}
use jina.Prelude.Int.{pos}
use jina.Helper.Batches.{
  Data, array, memmap, sequence, iterator, items, Slice, all_rows, rows, apply_slice, array_slices,
  batch_iterator,
}

-- What a method returns: an array by its rows, a tuple of arrays by its columns, or another value.
pub data Output {ℓ κ} (B : Type ℓ) (V : Type κ) : Type (ℓ ⊔ κ) where
  rows_out : List B → Output B V
  columns_out : List (List B) → Output B V
  value_out : V → Output B V

-- What the decorated method returns: nothing, one result, or the list of the results.
pub data Merged {ℓ κ} (B : Type ℓ) (V : Type κ) : Type (ℓ ⊔ κ) where
  nothing : Merged B V
  single : Output B V → Merged B V
  several : List (Output B V) → Merged B V

pub data BatchError {ℓ} (E : Type ℓ) : Type ℓ where
  type_error index_error value_error : BatchError E
  from_method : E → BatchError E

-- `_get_size` for the first axis
abbrev pub get_size {ℓ} : {A : Type ℓ} → Data A → Option ℕ
get_size (array xs) = some (length xs)
get_size (memmap xs) = some (length xs)
get_size (sequence xs) = some (length xs)
get_size (iterator xs) = none

-- The decorator's argument `batch_size`: None, a number, or a function of the data, which gives 0
-- in place of None.
pub data BatchSize {ℓ} (A : Type ℓ) : Type ℓ where
  no_size : BatchSize A
  fixed_size : ℕ → BatchSize A
  size_of : (Data A → ℕ) → BatchSize A

-- `batch_size * num_batch`: neither None nor a function can be multiplied.
abbrev pub times_batches {ℓ κ} :
    {A : Type ℓ} {E : Type κ} → BatchSize A → ℕ → Result (BatchError E) ℕ
times_batches no_size k = err type_error
times_batches (fixed_size n) k = ok (n * k)
times_batches (size_of f) k = err type_error

-- `full_data_size or batched_data_size`, where one of them is not given; 0 counts as not given.
abbrev pub or_size : Option ℕ → Option ℕ → Option ℕ
or_size none other = other
or_size (some zero) other = other
or_size (some (suc n)) other = some (suc n)

abbrev pub smaller_size : Option ℕ → Option ℕ → Option ℕ
smaller_size (some n) (some m) = some (min n m)
smaller_size none other = or_size none other
smaller_size (some n) none = or_size (some n) none

-- `_get_total_size`; `num_batch` may be None or 0.
unfoldable pub get_total_size {ℓ κ} :
    {A : Type ℓ} {E : Type κ} → Option ℕ → BatchSize A → Option ℕ → Result (BatchError E) (Option ℕ)
get_total_size full size none = ok (smaller_size full none)
get_total_size full size (some zero) = ok (smaller_size full none)
get_total_size full size (some (suc k)) =
    times_batches size (suc k) >>= λ batched. ok (smaller_size full (some batched))

-- `data[:total]`
abbrev pub up_to {ℓ} : {A : Type ℓ} → Option ℕ → List A → List A
up_to none xs = xs
up_to (some n) xs = take n xs

-- `row[col]`
abbrev pub nth_column {ℓ κ} :
    {B : Type ℓ} {E : Type κ} → ℕ → List (List B) → Result (BatchError E) (List B)
nth_column i [] = err index_error
nth_column zero (xs ∷ xss) = ok xs
nth_column (suc i) (xs ∷ xss) = nth_column i xss

module _ {ℓ κ μ} {B : Type ℓ} {V : Type κ} {E : Type μ} where
  -- `np.concatenate` of the results. A method returns one kind of result throughout: a mixture is
  -- an error here.
  abbrev pub all_rows_out : List (Output B V) → Result (BatchError E) (List (List B))
  all_rows_out [] = ok []
  all_rows_out (rows_out xs ∷ outs) = all_rows_out outs >>= λ xss. ok (xs ∷ xss)
  all_rows_out (columns_out xss ∷ outs) = err value_error
  all_rows_out (value_out v ∷ outs) = err value_error

  -- `[row[col] for row in final_result]`
  abbrev pub column : ℕ → List (Output B V) → Result (BatchError E) (List (List B))
  column i [] = ok []
  column i (columns_out xss ∷ outs) = do xs ← nth_column i xss; more ← column i outs; ok (xs ∷ more)
  column i (rows_out xs ∷ outs) = err type_error
  column i (value_out v ∷ outs) = err type_error

module _ {ℓ κ μ} {B : Type ℓ} {V : Type κ} {E : Type μ} (concatenate : List (List B) → List B) where
  -- `for col in range(num_cols)`, from the column `i` on
  abbrev pub merge_columns : ℕ → ℕ → List (Output B V) → Result (BatchError E) (List (List B))
  merge_columns i zero outs = ok []
  merge_columns i (suc n) outs = do
    xss ← column i outs
    more ← merge_columns (suc i) n outs
    ok (concatenate xss ∷ more)

  -- `_merge_results_after_batching`; `merge_over_axis` is the first axis or None.
  unfoldable pub merge_results : Bool → List (Output B V) → Result (BatchError E) (Merged B V)
  merge_results over_axis [] = ok nothing
  merge_results over_axis (out ∷ []) = ok (single out)
  merge_results false (out ∷ next ∷ outs) = ok (several (out ∷ next ∷ outs))
  merge_results true (rows_out xs ∷ next ∷ outs) =
      all_rows_out (rows_out xs ∷ next ∷ outs) >>= λ xss. ok (single (rows_out (concatenate xss)))
  merge_results true (columns_out xss ∷ next ∷ outs) = do
    merged ← merge_columns 0 (length xss) (columns_out xss ∷ next ∷ outs)
    ok (single (columns_out merged))
  merge_results true (value_out v ∷ next ∷ outs) = ok (several (value_out v ∷ next ∷ outs))

-- `data[:total_size]`
unfoldable pub slice_data {ℓ κ} :
    {A : Type ℓ} {E : Type κ} → Option ℕ → Data A → Result (BatchError E) (Data A)
slice_data total (array xs) = ok (array (up_to total xs))
slice_data total (memmap xs) = ok (memmap (up_to total xs))
slice_data total (sequence xs) = ok (sequence (up_to total xs))
slice_data total (iterator xs) = err type_error

-- `(batch_size(data) if callable(batch_size) else batch_size) or getattr(args[0], 'batch_size', None)`
abbrev pub decorator_size {ℓ} : {A : Type ℓ} → BatchSize A → Data A → ℕ
decorator_size no_size d = 0
decorator_size (fixed_size n) d = n
decorator_size (size_of f) d = f d

abbrev pub or_class_size : ℕ → Option ℕ → Option ℕ
or_class_size zero class_size = class_size
or_class_size (suc n) class_size = some (suc n)

-- `slice_idx`, where the method takes the indices of its rows
abbrev pub ordinal_of : Bool → Slice → Option (ℕ × ℕ)
ordinal_of wanted all_rows = none
ordinal_of wanted (rows start end) = if wanted then some (start, end) else none

-- The batches of the sliced data, with the indices of their rows; a file's batches are read from
-- the file, not from the sliced data, and cannot be made without a size.
unfoldable pub make_batches {ℓ κ} :
    {A : Type ℓ} {E : Type κ}
    → Bool
    → ℕ
    → Data A
    → Data A
    → Result (BatchError E) (List (List A × Option (ℕ × ℕ)))
unfolding batch_iterator array_slices
make_batches ordinal zero (memmap xs) sliced = err index_error
make_batches ordinal (suc n) (memmap xs) sliced = ok (
    map (λ sl. (apply_slice sl xs, ordinal_of ordinal sl))
      (array_slices (length (items sliced)) (suc n)))
make_batches ordinal size (array xs) sliced =
    ok (map (λ b. (b, none)) (batch_iterator sliced (pos size)))
make_batches ordinal size (sequence xs) sliced =
    ok (map (λ b. (b, none)) (batch_iterator sliced (pos size)))
make_batches ordinal size (iterator xs) sliced =
    ok (map (λ b. (b, none)) (batch_iterator sliced (pos size)))

abbrev pub lift_error {ℓ κ} : {E : Type ℓ} {R : Type κ} → Result E R → Result (BatchError E) R
lift_error (ok r) = ok r
lift_error (err e) = err (from_method e)

-- `if r is not None: final_result.append(r)`
abbrev pub add_result {ℓ} : {R : Type ℓ} → Option R → List R → List R
add_result none outs = outs
add_result (some out) outs = out ∷ outs

abbrev pub unbatched {ℓ κ} : {B : Type ℓ} {V : Type κ} → Option (Output B V) → Merged B V
unbatched none = nothing
unbatched (some out) = single out

module _ {ℓ κ μ ν τ} {A : Type ν} {B : Type ℓ} {V : Type κ} {E : Type μ} {S : Type τ}
    (method : S → List A → Option (ℕ × ℕ) → Result E (S × Option (Output B V))) where
  abbrev pub call_method :
      S → List A → Option (ℕ × ℕ) → Result (BatchError E) (S × Option (Output B V))
  call_method s b idx = lift_error (method s b idx)

  -- The loop over the batches; the method may change its object.
  unfoldable pub run_batches :
      S → List (List A × Option (ℕ × ℕ)) → Result (BatchError E) (S × List (Output B V))
  run_batches s [] = ok (s, [])
  run_batches s ((b, idx) ∷ bs) = do
    (s1, r) ← call_method s b idx
    (s2, outs) ← run_batches s1 bs
    ok (s2, add_result r outs)

  module _ (concatenate : List (List B) → List B) (size : BatchSize A) (num_batch : Option ℕ)
      (over_axis ordinal : Bool) where
    abbrev pub finish : S × List (Output B V) → Result (BatchError E) (S × Merged B V)
    finish (s, outs) = merge_results concatenate over_axis outs >>= λ merged. ok (s, merged)

    -- The call with the size of a batch, or with None
    abbrev pub call_in_batches : Option ℕ → Data A → S → Result (BatchError E) (S × Merged B V)
    call_in_batches none d s = call_method s (items d) none >>= λ (s1, r). ok (s1, unbatched r)
    call_in_batches (some b_size) d s = do
      total ← get_total_size (get_size d) size num_batch
      batches ← slice_data total d >>= make_batches ordinal b_size d
      run_batches s batches >>= finish

    -- `arg_wrapper` of `batching`, without labels; `class_size` is the attribute of the object.
    unfoldable pub batching : Option ℕ → Data A → S → Result (BatchError E) (S × Merged B V)
    unfolding get_total_size slice_data make_batches run_batches merge_results
    batching class_size d s = call_in_batches (or_class_size (decorator_size size d) class_size) d s
