-- ===== src/Executors/KeyValueLaws.antt =====
-- The indexer keeps a dictionary.
use native.Mathlib.Nat.{div-add-mod', mul-mod_left}
use jina.Prelude.{
  ℕ, ◌+◌, ◌*◌, ◌/◌, ◌%◌, ◌<◌, ◌≤◌, ◌≡◌, refl, ap, sym, ◌∙◌, Option, none, some, List, [], ◌∷◌, ◌++◌,
  if◌then◌else◌, ◌^◌, true, ok, length, take, drop, All, arith, inl, inr, Bool-cases, length-append,
}
use mathlib.Core.Path.{subst}
use mathlib.Core.List.{append-nil, append_assoc}
use jina.Prelude.Cuts.{drop-drop, drop-take, take-length-append, drop-length-append}
use jina.Prelude.Int.{ℤ, pos, eq_ℤ, eq_ℤ-eq}
use jina.Types.Uid.{Bytes}
use jina.Types.UidLaws.{Fits, is_int64-Fits}
use jina.Executors.KeyValue.{
  Row, Indexer, create, get_query_handler, zip_items, or_row, header_get, row_at, is_int64_row,
  put_value, add_item, add_items, add, mmap, read_row, query,
}

-- The value that a key was given last
abbrev pub or_value : Option Bytes → Option Bytes → Option Bytes
or_value none other = other
or_value (some v) other = some v

unfoldable pub last_value : ℤ → List (ℤ × Bytes) → Option Bytes
last_value key [] = none
last_value key ((k, v) ∷ log) = or_value (last_value key log) (if eq_ℤ k key then some v else none)

-- The bytes of all values, one after the other
abbrev pub bodies : List (ℤ × Bytes) → Bytes
bodies [] = []
bodies ((k, v) ∷ log) = v ++ bodies log

abbrev pub HasBytes : ℤ × Bytes → Type 0
HasBytes (k, v) = 0 < length v

bodies-snoc :
    (log : List (ℤ × Bytes)) (k : ℤ) (v : Bytes) → bodies (log ++ ((k, v) ∷ [])) ≡ bodies log ++ v
bodies-snoc [] k v = append-nil v
bodies-snoc ((j, w) ∷ log) k v =
    ap (λ t. w ++ t) (bodies-snoc log k v) ∙ sym (append_assoc w (bodies log) v)

drop_middle : (n : ℕ) (a v b : Bytes) → n ≡ length a → take (length v) (drop n (a ++ (v ++ b))) ≡ v
drop_middle n a v b at =
    rw at (ap (λ t. take (length v) t) (drop-length-append a (v ++ b)) ∙ take-length-append v b)

module _ (page_size : ℕ) where
  -- The header of a log of items from the offset `start` on
  abbrev pub rows_from : ℕ → List (ℤ × Bytes) → List Row
  rows_from start [] = []
  rows_from start ((k, v) ∷ log) =
      row_at page_size start k (length v) ∷ rows_from (start + length v) log

  mmap_inside :
      (file : Bytes) (p l : ℕ)
      → p % page_size ≡ 0
      → 0 < l
      → p + l ≤ length file
      → mmap page_size file p l ≡ ok (take l (drop p file))
  unfolding mmap
  mmap_inside file p l aligned some_bytes inside = ground arith

  -- A value is read back from its page.
  mmap-row_at :
      (a v b : Bytes) (key : ℤ)
      → 0 < length v
      → read_row page_size (a ++ (v ++ b)) (some (row_at page_size (length a) key (length v)))
        ≡ ok (some v)
  mmap-row_at a v b key some_bytes =
      let start = length a in
      let file = a ++ (v ++ b) in
      let p = start / page_size * page_size in
      let r = start % page_size in
      let split : p + r ≡ start = div-add-mod' start page_size in
      let inside : p + (r + length v) ≤ length file =
        omega (arith, split, length-append a (v ++ b), length-append v b) in
      let mapped =
        mmap_inside file p (r + length v) (mul-mod_left (start / page_size) page_size)
          (omega (arith, some_bytes)) inside in
      rw mapped (
        ap (λ t. ok (some t))
          (drop-take r (length v) (drop p file)
            ∙ ap (take (length v)) (drop-drop p r file)
            ∙ drop_middle (p + r) a v b split))

  -- Where the row of the last value of a key points to
  abbrev Found : Bytes → ℤ → Option Row → Option Bytes → Type 0
  Found file key none found = found ≡ none
  Found file key (some r) found =
      (a : Bytes) × (v : Bytes) × (b : Bytes) × (file ≡ a ++ (v ++ b))
      × (0 < length v)
      × (r ≡ row_at page_size (length a) key (length v))
      × (found ≡ some v)

  Found-or :
      (file : Bytes) (key : ℤ) (later own : Option Row) (found mine : Option Bytes)
      → Found file key later found
      → Found file key own mine
      → Found file key (or_row later own) (or_value found mine)
  Found-or file key none own found mine h g = rw h g
  Found-or file key (some r) own found mine (a, v, b, split, some_bytes, at, h) g =
      (a, v, b, split, some_bytes, at, rw h refl)

  own-Found :
      (before v after : Bytes) (k key : ℤ)
      → 0 < length v
      → Found
          (before ++ (v ++ after))
          key
          (if eq_ℤ k key then some (row_at page_size (length before) k (length v)) else none)
          (if eq_ℤ k key then some v else none)
  own-Found before v after k key some_bytes = elim (Bool-cases (eq_ℤ k key)) [
    | inr other ↦ rw other refl
    | inl same ↦ rw same (
      before,
      v,
      after,
      refl,
      some_bytes,
      ap (λ t. row_at page_size (length before) t (length v)) (eq_ℤ-eq k key same),
      refl,
    )
  ]

  rows_from-Found :
      (key : ℤ) (before : Bytes) (log : List (ℤ × Bytes))
      → All HasBytes log
      → Found
          (before ++ bodies log)
          key
          (header_get key (rows_from (length before) log))
          (last_value key log)
  unfolding header_get last_value
  rows_from-Found key before [] h = refl
  rows_from-Found key before ((k, v) ∷ log) (some_bytes, h) =
      let later = rows_from-Found key (before ++ v) log h in
      let found = last_value key log in
      let file = before ++ (v ++ bodies log) in
      let at =
        subst
          (λ n. Found ((before ++ v) ++ bodies log) key (header_get key (rows_from n log)) found)
          (length-append before v) later in
      let moved =
        subst (λ t. Found t key (header_get key (rows_from (length before + length v) log)) found)
          (append_assoc before v (bodies log)) at in
      Found-or file key _ _ found _ moved (own-Found before v (bodies log) k key some_bytes)

  read_row-Found :
      (file : Bytes) (key : ℤ) (r : Option Row) (found : Option Bytes)
      → Found file key r found
      → read_row page_size file r ≡ ok found
  read_row-Found file key none found h = ap ok (sym h)
  read_row-Found file key (some r) found (a, v, b, split, some_bytes, at, h) =
      rw (split, at, h) (mmap-row_at a v b key some_bytes)

  rows_from-snoc :
      (start : ℕ) (log : List (ℤ × Bytes)) (k : ℤ) (v : Bytes)
      → rows_from start (log ++ ((k, v) ∷ []))
        ≡ rows_from start log ++ (row_at page_size (start + length (bodies log)) k (length v) ∷ [])
  rows_from-snoc start [] k v = ap (λ n. row_at page_size n k (length v) ∷ []) (omega arith)
  rows_from-snoc start ((j, w) ∷ log) k v =
      let same : start + length w + length (bodies log) ≡ start + length (w ++ bodies log) =
        omega (arith, length-append w (bodies log)) in
      ap (λ t. row_at page_size start j (length w) ∷ t)
        (rows_from-snoc (start + length w) log k v
          ∙ ap (λ n. rows_from (start + length w) log ++ (row_at page_size n k (length v) ∷ []))
              same)

  -- The indexer holds a log of items: the files are those of the log, in its order.
  abbrev pub Holds : Indexer → List (ℤ × Bytes) → Type 0
  Holds i log =
      (i.body ≡ bodies log) × (i.header ≡ rows_from 0 log) × (i.start ≡ length (bodies log))

  put_value-Holds :
      (i : Indexer) (log : List (ℤ × Bytes)) (k : ℤ) (v : Bytes)
      → Holds i log
      → Holds (put_value (row_at page_size i.start k (length v)) v i) (log ++ ((k, v) ∷ []))
  put_value-Holds i log k v (body, header, start) = (
    ap (λ t. t ++ v) body ∙ sym (bodies-snoc log k v),
    rw (header, start) (sym (rows_from-snoc 0 log k v ∙ zero_start)),
    rw start (omega (arith, ap length (bodies-snoc log k v), length-append (bodies log) v)),
  )
    where
      zero_start :
          rows_from 0 log ++ (row_at page_size (0 + length (bodies log)) k (length v) ∷ [])
          ≡ rows_from 0 log ++ (row_at page_size (length (bodies log)) k (length v) ∷ [])
      zero_start = ap (λ n. rows_from 0 log ++ (row_at page_size n k (length v) ∷ [])) (omega arith)

  -- The numbers of a row are not above the end of its value.
  row_at-int64 :
      (start : ℕ) (k : ℤ) (l : ℕ)
      → Fits 8 k
      → 2 * (start + l) < 256 ^ 8
      → is_int64_row (row_at page_size start k l) ≡ true
  row_at-int64 start k l key_fits end_fits =
      let split : start / page_size * page_size + start % page_size ≡ start =
        div-add-mod' start page_size in
      ground (
        arith,
        is_int64-Fits k key_fits,
        is_int64-Fits (pos (start / page_size * page_size)) (omega (arith, split, end_fits)),
        is_int64-Fits (pos (start % page_size)) (omega (arith, split, end_fits)),
        is_int64-Fits (pos (start % page_size + l)) (omega (arith, split, end_fits)),
      )

  add_item-ok :
      (i : Indexer) (k : ℤ) (v : Bytes)
      → Fits 8 k
      → 2 * (i.start + length v) < 256 ^ 8
      → add_item page_size (k, v) i ≡ ok (put_value (row_at page_size i.start k (length v)) v i)
  add_item-ok i k v key_fits end_fits =
      rw (row_at-int64 i.start k (length v) key_fits end_fits) refl

  abbrev pub KeyFits : ℤ × Bytes → Type 0
  KeyFits (k, v) = Fits 8 k

  add_items-Holds :
      (items : List (ℤ × Bytes)) (i : Indexer) (log : List (ℤ × Bytes))
      → Holds i log
      → All KeyFits items
      → 2 * (i.start + length (bodies items)) < 256 ^ 8
      → (j : Indexer) × (add_items page_size items i ≡ ok j) × Holds j (log ++ items)
  add_items-Holds [] i log h keys_fit end_fits = (i, refl, rw (append-nil log) h)
  add_items-Holds ((k, v) ∷ items) i log h (key_fits, keys_fit) end_fits =
      let next = put_value (row_at page_size i.start k (length v)) v i in
      let total = length-append v (bodies items) in
      let (j, done, holds) =
        add_items-Holds items next (log ++ ((k, v) ∷ [])) (put_value-Holds i log k v h) keys_fit
          (omega (arith, total, end_fits)) in
      (
        j,
        rw (add_item-ok i k v key_fits (omega (arith, total, end_fits))) done,
        subst (Holds j) (append_assoc log ((k, v) ∷ []) items) holds,
      )

  -- An index that holds a log of items none of which is empty gives the last value of every key.
  pub query-last_value :
      (i : Indexer) (log : List (ℤ × Bytes)) (key : ℤ)
      → Holds i log
      → All HasBytes log
      → query page_size key (get_query_handler i) ≡ ok (last_value key log)
  unfolding query
  query-last_value i log key (body, header, start) all_bytes =
      rw (body, header)
        (read_row-Found (bodies log) key (header_get key (rows_from 0 log)) (last_value key log)
          (rows_from-Found key [] log all_bytes))

  -- The indexer refines a dictionary. Where it holds a log of items none of which is empty, the
  -- pages of the file give for every key the value that it was given last, or None. Adding items
  -- whose keys are signed 64-bit integers, while the file stays below 2 ** 53 bytes, succeeds and
  -- makes it hold the log with them at its end, where the keys and the values are paired up to the end
  -- of the shorter list. A new indexer holds the empty log.
  pub query-Holds :
      (i : Indexer) (log : List (ℤ × Bytes)) (keys : List ℤ) (values : List Bytes)
      → Holds i log
      → All HasBytes log
      → All KeyFits (zip_items keys values)
      → i.start + length (bodies (zip_items keys values)) < 2 ^ 53
      → ((key : ℤ) → query page_size key (get_query_handler i) ≡ ok (last_value key log))
        × ((j : Indexer) × (add page_size keys values i ≡ ok j)
            × Holds j (log ++ zip_items keys values))
        × Holds (create i) []
  unfolding add
  query-Holds i log keys values holds all_bytes keys_fit end_fits = (
    λ key. query-last_value i log key holds all_bytes,
    add_items-Holds (zip_items keys values) i log holds keys_fit (omega (arith, end_fits)),
    (refl, refl, refl),
  )
