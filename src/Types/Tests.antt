-- ===== src/Types/Tests.antt =====
-- Identifiers and their hashes, and the theorems of the views at them.
use jina.Prelude.{◌%◌, ◌*◌, ◌≡◌, ◌⊎◌, refl, [], ◌∷◌, ok, err, ◌>>=◌, length, All, arith}
use jina.Prelude.Int.{pos, negsuc}
use jina.Prelude.Text.{Text, codes, lower}
use jina.Types.Uid.{
  Bytes, little, big, overflow_error, bad_doc_id, to_bytes, from_bytes, hash2bytes, bytes2hash,
  unhexlify, id2bytes, bytes2id, hash2id, id2hash,
}
use jina.Types.UidLaws.{IsByte, Fits}
use jina.Types.ViewLaws.{
  id2hash-hash2id, hash2id-id2hash, hash2bytes-bounds, IsHexDigit, id2bytes-IsHexDigit,
}

negative_run : hash2id big (negsuc 1) ≡ ok (codes "fffffffffffffffe")
unfolding hash2id hash2bytes to_bytes bytes2id
negative_run = refl

-- A customized identifier of one byte is accepted, and is another one when it comes back.
short_id : (id2hash little (codes "ab") >>= hash2id little) ≡ ok (codes "abffffffffffffff")
unfolding id2hash id2bytes unhexlify bytes2hash from_bytes hash2id hash2bytes to_bytes bytes2id
short_id = refl

abbrev hello : Text
hello = codes "00A1b2C3d4E5f607"

abbrev hello_bytes : Bytes
hello_bytes = 0 ∷ 161 ∷ 178 ∷ 195 ∷ 212 ∷ 229 ∷ 246 ∷ 7 ∷ []

hello_read : id2bytes hello ≡ ok hello_bytes
unfolding id2bytes unhexlify
hello_read = refl

id2hash-hash2id_example : (hash2id little (negsuc 41) >>= id2hash little) ≡ ok (negsuc 41)
id2hash-hash2id_example = id2hash-hash2id little (negsuc 41) (omega arith)

hash2id-id2hash_example :
    ((id2hash big hello >>= hash2id big) ≡ ok (lower hello)) × Fits 8 (bytes2hash big hello_bytes)
hash2id-id2hash_example = hash2id-id2hash big hello hello_bytes refl hello_read

hash2bytes-bounds_example :
    (Fits 8 (pos 9)
      × ((bs : Bytes) × (hash2bytes big (pos 9) ≡ ok bs) × All IsByte bs × (length bs ≡ 8)))
    ⊎ (¬ Fits 8 (pos 9) × (hash2bytes big (pos 9) ≡ err overflow_error))
hash2bytes-bounds_example = hash2bytes-bounds big (pos 9)

id2bytes-IsHexDigit_example :
    (((bs : Bytes) × (id2bytes hello ≡ ok bs) × (2 * length bs ≡ length hello))
      × All IsHexDigit hello)
    ⊎ ((id2bytes hello ≡ err (bad_doc_id hello))
        × ¬ (All IsHexDigit hello × (length hello % 2 ≡ 0)))
id2bytes-IsHexDigit_example = id2bytes-IsHexDigit hello
