-- ===== src/Helper/Batches.antt =====
-- `batch_iterator` of jina/helper.py, over the first axis.
use jina.Prelude.{
  ℕ, zero, suc, ◌+◌, ◌-◌, List, [], ◌∷◌, map, ltb, leb, if◌then◌else◌, length, take, drop, min,
}
use jina.Prelude.Int.{ℤ, pos, negsuc}

-- What is split into batches, as its items: a numpy array, one of a file, a list, or an iterator
-- that has not been read.
pub data Data {ℓ} (A : Type ℓ) : Type ℓ where
  array memmap sequence iterator : List A → Data A

abbrev pub items {ℓ} : {A : Type ℓ} → Data A → List A
items (array xs) = xs
items (memmap xs) = xs
items (sequence xs) = xs
items (iterator xs) = xs

-- `slice(None)` and `slice(start, end)`
pub data Slice : Type 0 where
  all_rows : Slice
  rows : ℕ → ℕ → Slice

module _ {ℓ} {A : Type ℓ} where
  -- `xs[start:end]`
  abbrev pub between : ℕ → ℕ → List A → List A
  between start end xs = take (end - start) (drop start xs)

  abbrev pub apply_slice : Slice → List A → List A
  apply_slice all_rows xs = xs
  apply_slice (rows start end) xs = between start end xs

  -- `while True: chunk = tuple(islice(data, batch_size))`, as long as a chunk has items
  abbrev pub cons_chunk : List A → List (List A) → List (List A)
  cons_chunk [] rest = []
  cons_chunk (x ∷ xs) rest = (x ∷ xs) ∷ rest

  unfoldable pub chunks : ℕ → ℕ → List A → List (List A)
  chunks zero size xs = []
  chunks (suc fuel) size xs = cons_chunk (take size xs) (chunks fuel size (drop size xs))

-- `range(start, stop, step)` of a step that is not zero; it has fewer than `stop + 1` numbers.
unfoldable pub range_by : ℕ → ℕ → ℕ → ℕ → List ℕ
range_by zero start stop step = []
range_by (suc fuel) start stop step =
    let rest = range_by fuel (start + step) stop step in if ltb start stop then start ∷ rest else []

-- The slices of an array of `l` rows
unfoldable pub array_slices : ℕ → ℕ → List Slice
unfolding range_by
array_slices l size =
    if leb l size
    then all_rows ∷ []
    else map (λ start. rows start (min l (start + size))) (range_by l 0 l size)

-- The batches of a list
unfoldable pub sequence_batches {ℓ} : {A : Type ℓ} → List A → ℕ → List (List A)
unfolding range_by
sequence_batches xs size =
    if leb (length xs) size
    then xs ∷ []
    else map (λ start. between start (start + size) xs) (range_by (length xs) 0 (length xs) size)

-- A size that is not positive makes one batch of all.
unfoldable pub batch_iterator {ℓ} : {A : Type ℓ} → Data A → ℤ → List (List A)
unfolding array_slices sequence_batches chunks
batch_iterator d (negsuc n) = items d ∷ []
batch_iterator d (pos zero) = items d ∷ []
batch_iterator (array xs) (pos (suc n)) =
    map (λ sl. apply_slice sl xs) (array_slices (length xs) (suc n))
batch_iterator (memmap xs) (pos (suc n)) =
    map (λ sl. apply_slice sl xs) (array_slices (length xs) (suc n))
batch_iterator (sequence xs) (pos (suc n)) = sequence_batches xs (suc n)
batch_iterator (iterator xs) (pos (suc n)) = chunks (suc (length xs)) (suc n) xs
