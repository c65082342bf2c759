-- ===== src/Types/ViewLaws.antt =====
-- The identifier, its bytes and its hash against each other.
use jina.Prelude.{
  ℕ, ◌+◌, ◌*◌, ◌%◌, ◌^◌, ◌≤◌, ◌≡◌, refl, ap, sym, ◌∙◌, ◌⊎◌, none, some, [], ◌∷◌, ltb, ok, err,
  ◌>>=◌, length, All, arith, inl, inr, Option-cases, Bool-cases,
}
use jina.Prelude.Int.{ℤ, pos, negsuc}
use jina.Prelude.Text.{Text, lower}
use jina.Types.Uid.{
  Bytes, ByteOrder, overflow_error, bad_doc_id, in_order, low_bytes, to_bytes, hash2bytes,
  bytes2hash, digit_value, unhexlify, id2bytes, bytes2id, hash2id, id2hash,
}
use jina.Types.UidLaws.{
  IsByte, Fits, word_of, to_bytes_eq, low_bytes-IsByte, All-in_order, length-in_order,
  length-low_bytes, from_bytes-Fits, to_bytes-from_bytes, bytes2hash-hash2bytes,
}
use jina.Types.HexLaws.{unhexlify-bytes2id, unhexlify-bytes}

id2bytes-some : (s : Text) (bs : Bytes) → unhexlify s ≡ some bs → id2bytes s ≡ ok bs
unfolding id2bytes
id2bytes-some s bs e = rw (id2bytes, e) refl

unhexlify-some : (s : Text) (bs : Bytes) → id2bytes s ≡ ok bs → unhexlify s ≡ some bs
unfolding id2bytes
unhexlify-some s bs e = elim (Option-cases (unhexlify s)) [ inl refused ↦ cc | inr (cs, read) ↦ cc ]

hash2bytes_fits :
    (order : ByteOrder) (h : ℤ)
    → Fits 8 h
    → (bs : Bytes) × (hash2bytes order h ≡ ok bs) × All IsByte bs × (length bs ≡ 8)
unfolding hash2bytes
hash2bytes_fits order h fits =
    let bs = low_bytes 8 (word_of (256 ^ 8) h) in
    (
      in_order order bs,
      to_bytes_eq 8 order h fits,
      All-in_order order bs (low_bytes-IsByte 8 (word_of (256 ^ 8) h)),
      length-in_order order bs ∙ length-low_bytes 8 (word_of (256 ^ 8) h),
    )

-- A hash that a signed 64-bit integer holds comes back from its identifier, in either order of
-- the bytes.
pub id2hash-hash2id :
    (order : ByteOrder) (h : ℤ) → Fits 8 h → (hash2id order h >>= id2hash order) ≡ ok h
unfolding hash2id id2hash
id2hash-hash2id order h fits =
    let (bs, written, bytes, len) = hash2bytes_fits order h fits in
    let read = id2bytes-some (bytes2id bs) bs (unhexlify-bytes2id bs bytes) in
    let back = bytes2hash-hash2bytes order h fits in
    rw (written, read) (sym (ap (λ r. r >>= λ t. ok (bytes2hash order t)) written) ∙ back)

-- An identifier of sixteen hexadecimal digits comes back from its hash in lower case, in either
-- order of the bytes, and its hash fits a signed 64-bit integer.
pub hash2id-id2hash :
    (order : ByteOrder) (s : Text) (bs : Bytes)
    → length s ≡ 16
    → id2bytes s ≡ ok bs
    → ((id2hash order s >>= hash2id order) ≡ ok (lower s)) × Fits 8 (bytes2hash order bs)
unfolding hash2id id2hash hash2bytes bytes2hash
hash2id-id2hash order s bs len read =
    let (text, bytes, twice) = unhexlify-bytes s bs (unhexlify-some s bs read) in
    let eight : length bs ≡ 8 = omega (arith, len, twice) in
    (
      rw (read, to_bytes-from_bytes 7 order bs bytes eight) (ap ok text),
      from_bytes-Fits 7 order bs bytes eight,
    )

-- The outcome of `hash2bytes`: eight bytes for the numbers from -2 ** 63 up to 2 ** 63 - 1, and an
-- OverflowError for all others.
pub hash2bytes-bounds :
    (order : ByteOrder) (h : ℤ)
    → (Fits 8 h × ((bs : Bytes) × (hash2bytes order h ≡ ok bs) × All IsByte bs × (length bs ≡ 8)))
      ⊎ (¬ Fits 8 h × (hash2bytes order h ≡ err overflow_error))
unfolding hash2bytes to_bytes
hash2bytes-bounds order (pos v) = elim (Bool-cases (ltb (2 * v) (256 ^ 8))) [
  | inl low ↦
      let fits : Fits 8 (pos v) = ground arith in inl (fits, hash2bytes_fits order (pos v) fits)
  | inr high ↦ inr (λ fits. ground arith, rw high refl)
]
hash2bytes-bounds order (negsuc v) = elim (Bool-cases (ltb (2 * v) (256 ^ 8))) [
  | inl low ↦
      let fits : Fits 8 (negsuc v) = ground arith in
      inl (fits, hash2bytes_fits order (negsuc v) fits)
  | inr high ↦ inr (λ fits. ground arith, rw high refl)
]

-- A hexadecimal digit: 0-9, a-f or A-F.
abbrev pub IsHexDigit : ℕ → Type 0
IsHexDigit c = ((b'0' ≤ c) × (c ≤ b'9')) ⊎ ((b'a' ≤ c) × (c ≤ b'f')) ⊎ ((b'A' ≤ c) × (c ≤ b'F'))

digit_value-cases :
    (c : ℕ)
    → ((d : ℕ) × (digit_value c ≡ some d) × IsHexDigit c)
      ⊎ ((digit_value c ≡ none) × ¬ IsHexDigit c)
digit_value-cases c = elim (Option-cases (digit_value c)) [
  | inl other ↦ inr (other, λ digit. ground arith)
  | inr (d, value) ↦ inl (d, value, ground arith)
]

unhexlify-cases :
    (s : Text)
    → (((bs : Bytes) × (unhexlify s ≡ some bs) × (2 * length bs ≡ length s)) × All IsHexDigit s)
      ⊎ ((unhexlify s ≡ none) × ¬ (All IsHexDigit s × (length s % 2 ≡ 0)))
unfolding unhexlify
unhexlify-cases [] = inl (([], refl, refl), tt)
unhexlify-cases (c ∷ []) = inr (refl, λ (digits, even). omega (arith, even))
unhexlify-cases (c ∷ d ∷ s) = elim (digit_value-cases c) [
  | inr (no_value, other) ↦ inr (rw no_value refl, λ ((digit, more), even). other digit)
  | inl (h, value_h, digit_h) ↦ elim (digit_value-cases d) [
    | inr (no_value, other) ↦
        inr (rw (value_h, no_value) refl, λ ((first, (digit, more)), even). other digit)
    | inl (l, value_l, digit_l) ↦ elim (unhexlify-cases s) [
      | inr (none_read, wrong) ↦ inr (
        rw (value_h, value_l, none_read) refl,
        λ ((first, (second, digits)), even). wrong (digits, omega (arith, even)),
      )
      | inl ((bs, read, twice), digits) ↦ inl (
        ((16 * h + l) ∷ bs, rw (value_h, value_l, read) refl, omega (arith, twice)),
        (digit_h, (digit_l, digits)),
      )
    ]
  ]
]

-- A customized identifier is accepted exactly if it has an even length and hexadecimal digits
-- only, and then its bytes are half as many; any other is refused with a BadDocID that names it.
pub id2bytes-IsHexDigit :
    (s : Text)
    → (((bs : Bytes) × (id2bytes s ≡ ok bs) × (2 * length bs ≡ length s)) × All IsHexDigit s)
      ⊎ ((id2bytes s ≡ err (bad_doc_id s)) × ¬ (All IsHexDigit s × (length s % 2 ≡ 0)))
unfolding id2bytes
id2bytes-IsHexDigit s = elim (unhexlify-cases s) [
  | inl ((bs, read, twice), digits) ↦ inl ((bs, id2bytes-some s bs read, twice), digits)
  | inr (none_read, wrong) ↦ inr (rw (id2bytes, none_read) refl, wrong)
]
