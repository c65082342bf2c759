-- ===== src/Executors/KeyValue.antt =====
-- `BinaryPbIndexer` of jina/executors/indexers/keyvalue.py: values in the pages of a file, and the
-- header that tells where they are.
use jina.Prelude.{
  ℕ, suc, ◌+◌, ◌*◌, ◌/◌, ◌%◌, Option, none, some, List, [], ◌∷◌, ◌++◌, ltb, ◌==◌, if◌then◌else◌,
  Result, ok, err, ◌>>=◌, ◌>>◌, raise_if, length, take, drop, not, ◌&&◌, Bool,
}
use jina.Prelude.Int.{ℤ, pos, eq_ℤ}
use jina.Types.Uid.{Bytes, is_int64}

-- A row of the header: the key, the offset of the page, the first byte in it and the end.
pub record Row : Type 0 where
  pub key : ℤ
  pub page : ℕ
  pub first : ℕ
  pub stop : ℕ

-- The indexer with the two files that it writes, as they are once flushed
pub record Indexer : Type 0 where
  pub body : Bytes
  pub header : List Row
  pub start : ℕ
  pub size : ℕ

-- `ReadHandler`: the rows of the header, and the file of the values
pub record ReadHandler : Type 0 where
  pub rows : List Row
  pub file : Bytes

pub data MapError : Type 0 where
  value_error overflow_error : MapError

-- `get_create_handler`: both files are opened anew.
abbrev pub create : Indexer → Indexer
create i = record i { body = []; header = []; start = 0 }

abbrev pub get_query_handler : Indexer → ReadHandler
get_query_handler i = record { rows = i.header; file = i.body }

-- `zip(keys, values)`
abbrev pub zip_items : List ℤ → List Bytes → List (ℤ × Bytes)
zip_items [] values = []
zip_items (k ∷ keys) [] = []
zip_items (k ∷ keys) (v ∷ values) = (k, v) ∷ zip_items keys values

-- `{r[0]: r[1:] for r in tmp}.get(key)`: the last row of a key counts.
abbrev pub or_row : Option Row → Option Row → Option Row
or_row none other = other
or_row (some r) other = some r

unfoldable pub header_get : ℤ → List Row → Option Row
header_get key [] = none
header_get key (r ∷ rows) = or_row (header_get key rows) (if eq_ℤ r.key key then some r else none)

-- `np.array((key, p, r, r + l), dtype=np.int64)`
abbrev pub is_int64_row : Row → Bool
is_int64_row r =
    is_int64 r.key && (is_int64 (pos r.page) && (is_int64 (pos r.first) && is_int64 (pos r.stop)))

abbrev pub put_value : Row → Bytes → Indexer → Indexer
put_value row value i = record i {
  body = i.body ++ value;
  header = i.header ++ (row ∷ []);
  start = i.start + length value;
  size = suc i.size;
}

-- `page_size` is `mmap.ALLOCATIONGRANULARITY`.
module _ (page_size : ℕ) where
  -- The row that `add` makes for a value of `l` bytes
  abbrev pub row_at : ℕ → ℤ → ℕ → Row
  row_at start key l = record {
    key = key;
    page = start / page_size * page_size;
    first = start % page_size;
    stop = start % page_size + l;
  }

  abbrev pub add_item : ℤ × Bytes → Indexer → Result MapError Indexer
  add_item (key, value) i =
      let row = row_at i.start key (length value) in
      raise_if (not (is_int64_row row)) overflow_error >> ok (put_value row value i)

  abbrev pub add_items : List (ℤ × Bytes) → Indexer → Result MapError Indexer
  add_items [] i = ok i
  add_items (item ∷ items) i = add_item item i >>= add_items items

  -- `add`; the items before one that raises are written in Python, and not part of the outcome here.
  unfoldable pub add : List ℤ → List Bytes → Indexer → Result MapError Indexer
  add keys values i = add_items (zip_items keys values) i

  -- `mmap.mmap(file, offset=p, length=l)`: the offset is a multiple of the page's size, and the
  -- bytes must be in the file; a length of 0 maps the rest of the file, which must not be empty.
  unfoldable pub mmap : Bytes → ℕ → ℕ → Result MapError Bytes
  mmap file p l =
      if not (p % page_size == 0)
      then err value_error
      else if l == 0
      then (if ltb p (length file) then ok (drop p file) else err value_error)
      else if ltb (length file) (p + l)
      then err value_error
      else ok (take l (drop p file))

  abbrev pub read_row : Bytes → Option Row → Result MapError (Option Bytes)
  read_row file none = ok none
  read_row file (some r) = mmap file r.page r.stop >>= λ m. ok (some (drop r.first m))

  -- `query`
  unfoldable pub query : ℤ → ReadHandler → Result MapError (Option Bytes)
  unfolding header_get mmap
  query key h = read_row h.file (header_get key h.rows)
