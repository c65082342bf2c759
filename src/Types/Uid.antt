-- ===== src/Types/Uid.antt =====
-- jina/types/document/uid.py: the three views of the identifier of a document.
use jina.Prelude.{
  Bool, ℕ, zero, suc, ◌+◌, ◌-◌, ◌*◌, ◌/◌, ◌%◌, ◌^◌, Option, none, some, List, [], ◌∷◌, ltb, leb,
  ◌&&◌, if◌then◌else◌, Result, ok, err, ◌>>=◌, length,
}
use jina.Prelude.Int.{ℤ, pos, negsuc}
use jina.Prelude.Text.{Text}

-- `bytes`, each below 256
abbrev pub Bytes : Type 0
Bytes = List ℕ

-- `sys.byteorder`
pub data ByteOrder : Type 0 where
  little big : ByteOrder

pub data UidError : Type 0 where
  overflow_error : UidError
  bad_doc_id : Text → UidError

abbrev pub digest_size : ℕ
digest_size = 8

abbrev pub to_end : Bytes → ℕ → Bytes
to_end [] b = b ∷ []
to_end (c ∷ bs) b = c ∷ to_end bs b

abbrev pub flip : Bytes → Bytes
flip [] = []
flip (b ∷ bs) = to_end (flip bs) b

abbrev pub in_order : ByteOrder → Bytes → Bytes
in_order little bs = bs
in_order big bs = flip bs

-- The `n` lowest bytes of a natural number, the lowest first, and the number that they stand for
abbrev pub low_bytes : ℕ → ℕ → Bytes
low_bytes zero v = []
low_bytes (suc n) v = v % 256 ∷ low_bytes n (v / 256)

abbrev pub low_value : Bytes → ℕ
low_value [] = 0
low_value (b ∷ bs) = b + 256 * low_value bs

-- `value.to_bytes(n, order, signed=True)`: two's complement, within `-2 ** (8 * n - 1)` and
-- `2 ** (8 * n - 1) - 1`.
unfoldable pub to_bytes : ℕ → ByteOrder → ℤ → Result UidError Bytes
to_bytes n order (pos v) =
    if ltb (2 * v) (256 ^ n) then ok (in_order order (low_bytes n v)) else err overflow_error
to_bytes n order (negsuc v) =
    if ltb (2 * v) (256 ^ n)
    then ok (in_order order (low_bytes n (256 ^ n - 1 - v)))
    else err overflow_error

-- Whether numpy's `int64` holds a number; otherwise `np.array` raises OverflowError.
abbrev pub is_int64 : ℤ → Bool
is_int64 (pos v) = ltb (2 * v) (256 ^ 8)
is_int64 (negsuc v) = ltb (2 * v) (256 ^ 8)

abbrev pub signed : ℕ → ℕ → ℤ
signed w u = if ltb (2 * u) w then pos u else negsuc (w - 1 - u)

-- `int.from_bytes(bs, order, signed=True)`
unfoldable pub from_bytes : ByteOrder → Bytes → ℤ
from_bytes order bs = signed (256 ^ length bs) (low_value (in_order order bs))

unfoldable pub hash2bytes : ByteOrder → ℤ → Result UidError Bytes
unfolding to_bytes
hash2bytes byteorder value = to_bytes digest_size byteorder value

unfoldable pub bytes2hash : ByteOrder → Bytes → ℤ
unfolding from_bytes
bytes2hash byteorder value = from_bytes byteorder value

abbrev pub hex_digit : ℕ → ℕ
hex_digit d = if ltb d 10 then b'0' + d else b'a' + (d - 10)

abbrev pub digit_value : ℕ → Option ℕ
digit_value c =
    if leb b'0' c && leb c b'9'
    then some (c - b'0')
    else if leb b'a' c && leb c b'f'
    then some (c - b'a' + 10)
    else if leb b'A' c && leb c b'F'
    then some (c - b'A' + 10)
    else none

abbrev pub join_digits : Option ℕ → Option ℕ → Option Bytes → Option Bytes
join_digits (some h) (some l) (some bs) = some ((16 * h + l) ∷ bs)
join_digits (some h) (some l) none = none
join_digits (some h) none rest = none
join_digits none low rest = none

-- `binascii.unhexlify`: pairs of digits; an odd length or another character is refused.
unfoldable pub unhexlify : Text → Option Bytes
unhexlify [] = some []
unhexlify (c ∷ []) = none
unhexlify (c ∷ d ∷ s) = join_digits (digit_value c) (digit_value d) (unhexlify s)

unfoldable pub id2bytes : Text → Result UidError Bytes
unfolding unhexlify
id2bytes value = elim (unhexlify value) [ some bs ↦ ok bs | none ↦ err (bad_doc_id value) ]

-- `value.hex()`
unfoldable pub bytes2id : Bytes → Text
bytes2id [] = []
bytes2id (b ∷ bs) = hex_digit (b / 16) ∷ hex_digit (b % 16) ∷ bytes2id bs

unfoldable pub hash2id : ByteOrder → ℤ → Result UidError Text
unfolding hash2bytes bytes2id
hash2id byteorder value = hash2bytes byteorder value >>= λ bs. ok (bytes2id bs)

unfoldable pub id2hash : ByteOrder → Text → Result UidError ℤ
unfolding id2bytes bytes2hash
id2hash byteorder value = id2bytes value >>= λ bs. ok (bytes2hash byteorder bs)

-- The identifier of a new document: `digest` is blake2b of its serialized fields, `digest_size`
-- bytes long.
module _ {ℓ} {Document : Type ℓ} (digest : Document → Bytes) where
  unfoldable pub new_doc_id : Document → Text
  unfolding bytes2id
  new_doc_id doc = bytes2id (digest doc)

  unfoldable pub new_doc_bytes : Document → Result UidError Bytes
  unfolding id2bytes new_doc_id
  new_doc_bytes doc = id2bytes (new_doc_id doc)

  unfoldable pub new_doc_hash : ByteOrder → Document → Result UidError ℤ
  unfolding id2hash new_doc_id
  new_doc_hash byteorder doc = id2hash byteorder (new_doc_id doc)
