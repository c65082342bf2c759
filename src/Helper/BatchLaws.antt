-- ===== src/Helper/BatchLaws.antt =====
-- The batches of `batch_iterator` are the data, cut.
use jina.Prelude.{
  ℕ, zero, suc, ◌+◌, ◌-◌, ◌≤◌, ◌<◌, ◌≡◌, ◌≢◌, refl, ap, sym, ◌∙◌, List, [], ◌∷◌, ◌++◌, map, ltb,
  leb, length, take, drop, min, All, arith, inl, inr, Bool-cases, take-append-drop, length-take,
  length-drop,
}
use mathlib.Core.List.{append-nil}
use jina.Prelude.Cuts.{drop-drop, drop_past}
use jina.Prelude.Int.{ℤ, pos, negsuc}
use jina.Helper.Batches.{
  Data, array, memmap, sequence, iterator, items, rows, between, apply_slice, cons_chunk, chunks,
  range_by, array_slices, sequence_batches, batch_iterator,
}

module _ {ℓ} {A : Type ℓ} where
  abbrev pub flat : List (List A) → List A
  flat [] = []
  flat (xs ∷ xss) = xs ++ flat xss

  flat-range_by :
      (end : ℕ → ℕ) (xs : List A) (size fuel start : ℕ)
      → ((a : ℕ) → a < length xs → between a (end a) xs ≡ take size (drop a xs))
      → size ≢ 0
      → length xs ≤ fuel + start
      → flat (map (λ a. between a (end a) xs) (range_by fuel start (length xs) size))
        ≡ drop start xs
  unfolding range_by
  flat-range_by end xs size zero start cut some_size enough =
      sym (drop_past start xs (omega (arith, enough)))
  flat-range_by end xs size (suc fuel) start cut some_size enough =
      elim (Bool-cases (ltb start (length xs))) [
        | inl inside ↦
            let more =
              flat-range_by end xs size fuel (start + size) cut some_size
                (omega (arith, enough, some_size)) in
            rw inside (
              rw (cut start (ground arith), more)
                (ap (λ t. take size (drop start xs) ++ t) (sym (drop-drop start size xs))
                  ∙ take-append-drop size (drop start xs)))
        | inr outside ↦ rw outside (sym (drop_past start xs (ground arith)))
      ]

  take-min : (n : ℕ) (xs : List A) → take (min n (length xs)) xs ≡ take n xs
  take-min zero xs = let shift : min 0 (length xs) ≡ 0 = omega arith in rw shift refl
  take-min (suc n) [] = let shift : min (suc n) 0 ≡ 0 = omega arith in rw shift refl
  take-min (suc n) (x ∷ xs) =
      let shift : min (suc n) (suc (length xs)) ≡ suc (min n (length xs)) = omega arith in
      rw shift (ap (λ t. x ∷ t) (take-min n xs))

  between-min :
      (xs : List A) (size a : ℕ)
      → a < length xs
      → between a (min (length xs) (a + size)) xs ≡ take size (drop a xs)
  between-min xs size a inside =
      let size_eq : min (length xs) (a + size) - a ≡ min size (length (drop a xs)) =
        omega (arith, inside, length-drop a xs) in
      rw size_eq (take-min size (drop a xs))

  between_plus : (xs : List A) (size a : ℕ) → between a (a + size) xs ≡ take size (drop a xs)
  between_plus xs size a = ap (λ k. take k (drop a xs)) (omega arith)

  flat-chunks : (fuel n : ℕ) (xs : List A) → length xs < fuel → flat (chunks fuel (suc n) xs) ≡ xs
  unfolding chunks
  flat-chunks zero n xs enough = absurd (omega (arith, enough))
  flat-chunks (suc fuel) n [] enough = refl
  flat-chunks (suc fuel) n (x ∷ xs) enough =
      rw (flat-chunks fuel n (drop n xs) (omega (arith, enough, length-drop n xs)))
        (ap (λ t. x ∷ t) (take-append-drop n xs))

  flat_single : (xs : List A) → flat (xs ∷ []) ≡ xs
  flat_single xs = append-nil xs

  map-map_slices :
      (xs : List A) (l size : ℕ) (starts : List ℕ)
      → map (λ sl. apply_slice sl xs) (map (λ a. rows a (min l (a + size))) starts)
        ≡ map (λ a. between a (min l (a + size)) xs) starts
  map-map_slices xs l size [] = refl
  map-map_slices xs l size (a ∷ starts) =
      ap (λ t. between a (min l (a + size)) xs ∷ t) (map-map_slices xs l size starts)

  flat-array_slices :
      (xs : List A) (n : ℕ)
      → flat (map (λ sl. apply_slice sl xs) (array_slices (length xs) (suc n))) ≡ xs
  unfolding array_slices
  flat-array_slices xs n = elim (Bool-cases (leb (length xs) (suc n))) [
    | inl whole ↦ rw whole (flat_single xs)
    | inr many ↦ rw many (
        ap flat (map-map_slices xs (length xs) (suc n) (range_by (length xs) 0 (length xs) (suc n)))
        ∙ flat-range_by (λ a. min (length xs) (a + suc n)) xs (suc n) (length xs) 0
            (between-min xs (suc n)) (omega arith) (omega arith))
  ]

  flat-sequence_batches : (xs : List A) (n : ℕ) → flat (sequence_batches xs (suc n)) ≡ xs
  unfolding sequence_batches
  flat-sequence_batches xs n = elim (Bool-cases (leb (length xs) (suc n))) [
    | inl whole ↦ rw whole (flat_single xs)
    | inr many ↦ rw many (
        flat-range_by (λ a. a + suc n) xs (suc n) (length xs) 0
          (λ a inside. between_plus xs (suc n) a) (omega arith) (omega arith))
  ]

  -- The batches of any data, laid one after the other, are the data, whatever the size of a batch.
  pub flat-batch_iterator : (d : Data A) (size : ℤ) → flat (batch_iterator d size) ≡ items d
  unfolding batch_iterator
  flat-batch_iterator d (negsuc n) = flat_single (items d)
  flat-batch_iterator (array xs) (pos zero) = flat_single xs
  flat-batch_iterator (memmap xs) (pos zero) = flat_single xs
  flat-batch_iterator (sequence xs) (pos zero) = flat_single xs
  flat-batch_iterator (iterator xs) (pos zero) = flat_single xs
  flat-batch_iterator (array xs) (pos (suc n)) = flat-array_slices xs n
  flat-batch_iterator (memmap xs) (pos (suc n)) = flat-array_slices xs n
  flat-batch_iterator (sequence xs) (pos (suc n)) = flat-sequence_batches xs n
  flat-batch_iterator (iterator xs) (pos (suc n)) = flat-chunks (suc (length xs)) n xs (omega arith)

  All-map {κ} :
      {B : Type κ} (P : A → Type 0) (f : B → A)
      → ((b : B) → P (f b))
      → (bs : List B) → All P (map f bs)
  All-map P f h [] = tt
  All-map P f h (b ∷ bs) = (h b, All-map P f h bs)

module _ {ℓ} {A : Type ℓ} (n : ℕ) where
  -- A batch of at most `n` items
  abbrev pub IsBatch : List A → Type 0
  IsBatch xs = length xs ≤ n

  take-IsBatch : (xs : List A) → IsBatch (take n xs)
  take-IsBatch xs = omega (arith, length-take n xs)

  between-IsBatch : (xs : List A) (a end : ℕ) → end ≤ a + n → IsBatch (between a end xs)
  between-IsBatch xs a end h = omega (arith, h, length-take (end - a) (drop a xs))

  chunks-IsBatch : (fuel : ℕ) (xs : List A) → All IsBatch (chunks fuel n xs)
  unfolding chunks
  chunks-IsBatch zero xs = tt
  chunks-IsBatch (suc fuel) xs =
      cons_chunk-IsBatch (take n xs) _ (take-IsBatch xs) (chunks-IsBatch fuel (drop n xs))
    where
      cons_chunk-IsBatch :
          (c : List A) (rest : List (List A))
          → IsBatch c
          → All IsBatch rest
          → All IsBatch (cons_chunk c rest)
      cons_chunk-IsBatch [] rest h hs = tt
      cons_chunk-IsBatch (x ∷ c) rest h hs = (h, hs)

  array_slices-IsBatch :
      (xs : List A) → All IsBatch (map (λ sl. apply_slice sl xs) (array_slices (length xs) n))
  unfolding array_slices
  array_slices-IsBatch xs = elim (Bool-cases (leb (length xs) n)) [
    | inl whole ↦ rw whole (ground arith, tt)
    | inr many ↦ rw many (
        rw (map-map_slices xs (length xs) n (range_by (length xs) 0 (length xs) n)) (
          All-map IsBatch (λ a. between a (min (length xs) (a + n)) xs)
            (λ a. between-IsBatch xs a (min (length xs) (a + n)) (omega arith)) _))
  ]

  sequence_batches-IsBatch : (xs : List A) → All IsBatch (sequence_batches xs n)
  unfolding sequence_batches
  sequence_batches-IsBatch xs = elim (Bool-cases (leb (length xs) n)) [
    | inl whole ↦ rw whole (ground arith, tt)
    | inr many ↦ rw many (
        All-map IsBatch (λ a. between a (a + n) xs)
          (λ a. between-IsBatch xs a (a + n) (omega arith)) _)
  ]

-- With a positive size of a batch, no batch has more items than that, and the batches laid one
-- after the other are the data, in their order.
pub batch_iterator-IsBatch {ℓ} :
    {A : Type ℓ} (d : Data A) (n : ℕ)
    → All (IsBatch (suc n)) (batch_iterator d (pos (suc n)))
      × (flat (batch_iterator d (pos (suc n))) ≡ items d)
unfolding batch_iterator
batch_iterator-IsBatch (array xs) n =
    (array_slices-IsBatch (suc n) xs, flat-batch_iterator (array xs) (pos (suc n)))
batch_iterator-IsBatch (memmap xs) n =
    (array_slices-IsBatch (suc n) xs, flat-batch_iterator (memmap xs) (pos (suc n)))
batch_iterator-IsBatch (sequence xs) n =
    (sequence_batches-IsBatch (suc n) xs, flat-batch_iterator (sequence xs) (pos (suc n)))
batch_iterator-IsBatch (iterator xs) n =
    (chunks-IsBatch (suc n) (suc (length xs)) xs, flat-batch_iterator (iterator xs) (pos (suc n)))
