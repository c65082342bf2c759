-- ===== src/Types/UidLaws.antt =====
-- The views of an identifier are converted into each other without loss.
use jina.Prelude.{
  true, ℕ, zero, suc, ◌+◌, ◌-◌, ◌*◌, ◌/◌, ◌%◌, ◌^◌, ◌<◌, ◌≡◌, refl, ap, sym, ◌∙◌, [], ◌∷◌, ltb, ok,
  ◌>>=◌, length, All, arith, inl, inr, Bool-cases,
}
use jina.Prelude.Int.{ℤ, pos, negsuc}
use jina.Types.Uid.{
  is_int64, Bytes, ByteOrder, little, big, to_end, flip, in_order, low_bytes, low_value, to_bytes,
  signed, from_bytes, hash2bytes, bytes2hash,
}

power_suc : (n : ℕ) → 256 ^ suc n ≡ 256 * 256 ^ n
power_suc n = omega arith

pub length-low_bytes : (n v : ℕ) → length (low_bytes n v) ≡ n
length-low_bytes zero v = refl
length-low_bytes (suc n) v = ap suc (length-low_bytes n (v / 256))

low_value-low_bytes : (n v : ℕ) → v < 256 ^ n → low_value (low_bytes n v) ≡ v
low_value-low_bytes zero v h = omega (arith, h)
low_value-low_bytes (suc n) v h =
    let small : v / 256 < 256 ^ n = omega (arith, h, power_suc n) in
    omega (arith, low_value-low_bytes n (v / 256) small)

abbrev pub IsByte : ℕ → Type 0
IsByte b = b < 256

low_value_small : (bs : Bytes) → All IsByte bs → low_value bs < 256 ^ length bs
low_value_small [] h = omega arith
low_value_small (b ∷ bs) (h, hs) = omega (arith, h, low_value_small bs hs, power_suc (length bs))

low_bytes-low_value : (bs : Bytes) → All IsByte bs → low_bytes (length bs) (low_value bs) ≡ bs
low_bytes-low_value [] h = refl
low_bytes-low_value (b ∷ bs) (h, hs) =
    let first : (b + 256 * low_value bs) % 256 ≡ b = omega (arith, h) in
    let others : (b + 256 * low_value bs) / 256 ≡ low_value bs = omega (arith, h) in
    rw (first, others, low_bytes-low_value bs hs) refl

pub low_bytes-IsByte : (n v : ℕ) → All IsByte (low_bytes n v)
low_bytes-IsByte zero v = tt
low_bytes-IsByte (suc n) v = (omega arith, low_bytes-IsByte n (v / 256))

length-to_end : (bs : Bytes) (b : ℕ) → length (to_end bs b) ≡ suc (length bs)
length-to_end [] b = refl
length-to_end (c ∷ bs) b = ap suc (length-to_end bs b)

length-flip : (bs : Bytes) → length (flip bs) ≡ length bs
length-flip [] = refl
length-flip (b ∷ bs) = length-to_end (flip bs) b ∙ ap suc (length-flip bs)

flip-to_end : (bs : Bytes) (b : ℕ) → flip (to_end bs b) ≡ b ∷ flip bs
flip-to_end [] b = refl
flip-to_end (c ∷ bs) b = ap (λ t. to_end t c) (flip-to_end bs b)

flip_twice : (bs : Bytes) → flip (flip bs) ≡ bs
flip_twice [] = refl
flip_twice (b ∷ bs) = flip-to_end (flip bs) b ∙ ap (λ t. b ∷ t) (flip_twice bs)

All-to_end : (bs : Bytes) (b : ℕ) → All IsByte bs → IsByte b → All IsByte (to_end bs b)
All-to_end [] b hs h = (h, tt)
All-to_end (c ∷ bs) b (hc, hs) h = (hc, All-to_end bs b hs h)

All-flip : (bs : Bytes) → All IsByte bs → All IsByte (flip bs)
All-flip [] h = tt
All-flip (b ∷ bs) (h, hs) = All-to_end (flip bs) b (All-flip bs hs) h

in_order_twice : (order : ByteOrder) (bs : Bytes) → in_order order (in_order order bs) ≡ bs
in_order_twice little bs = refl
in_order_twice big bs = flip_twice bs

pub length-in_order : (order : ByteOrder) (bs : Bytes) → length (in_order order bs) ≡ length bs
length-in_order little bs = refl
length-in_order big bs = length-flip bs

pub All-in_order : (order : ByteOrder) (bs : Bytes) → All IsByte bs → All IsByte (in_order order bs)
All-in_order little bs h = h
All-in_order big bs h = All-flip bs h

-- The numbers that `n` bytes hold
abbrev pub Fits : ℕ → ℤ → Type 0
Fits n (pos v) = 2 * v < 256 ^ n
Fits n (negsuc v) = 2 * v < 256 ^ n

pub is_int64-Fits : (h : ℤ) → Fits 8 h → is_int64 h ≡ true
is_int64-Fits (pos v) fits = ground (arith, fits)
is_int64-Fits (negsuc v) fits = ground (arith, fits)

-- The two's complement of a number in a word of `w` values
abbrev pub word_of : ℕ → ℤ → ℕ
word_of w (pos v) = v
word_of w (negsuc v) = w - 1 - v

pub to_bytes_eq :
    (n : ℕ) (order : ByteOrder) (h : ℤ)
    → Fits n h
    → to_bytes n order h ≡ ok (in_order order (low_bytes n (word_of (256 ^ n) h)))
unfolding to_bytes
to_bytes_eq n order (pos v) fits = ground (arith, fits)
to_bytes_eq n order (negsuc v) fits = ground (arith, fits)

pub signed-word_of :
    (n : ℕ) (h : ℤ) → Fits (suc n) h → signed (256 ^ suc n) (word_of (256 ^ suc n) h) ≡ h
signed-word_of n (pos v) fits = ground (arith, fits)
signed-word_of n (negsuc v) fits = ground (arith, fits, power_suc n)

pub word_of_small : (n : ℕ) (h : ℤ) → Fits n h → word_of (256 ^ n) h < 256 ^ n
word_of_small n (pos v) fits = omega (arith, fits)
word_of_small n (negsuc v) fits = omega (arith, fits)

pub from_bytes_low :
    (n : ℕ) (order : ByteOrder) (u : ℕ)
    → u < 256 ^ n
    → from_bytes order (in_order order (low_bytes n u)) ≡ signed (256 ^ n) u
unfolding from_bytes
from_bytes_low n order u small =
    rw
      (
        in_order_twice order (low_bytes n u),
        length-in_order order (low_bytes n u),
        length-low_bytes n u,
        low_value-low_bytes n u small,
      )
      refl

pub bytes2hash-hash2bytes :
    (order : ByteOrder) (h : ℤ)
    → Fits 8 h
    → (hash2bytes order h >>= λ bs. ok (bytes2hash order bs)) ≡ ok h
unfolding hash2bytes bytes2hash
bytes2hash-hash2bytes order h fits =
    rw
      (
        to_bytes_eq 8 order h fits,
        from_bytes_low 8 order (word_of (256 ^ 8) h) (word_of_small 8 h fits),
        signed-word_of 7 h fits,
      )
      refl

signed-Fits : (n u : ℕ) → u < 256 ^ suc n → Fits (suc n) (signed (256 ^ suc n) u)
signed-Fits n u small = elim (Bool-cases (ltb (2 * u) (256 ^ suc n))) [
  | inl low ↦ rw low (ground arith)
  | inr high ↦ rw high (ground (arith, power_suc n))
]

word_of-signed : (n u : ℕ) → u < 256 ^ n → word_of (256 ^ n) (signed (256 ^ n) u) ≡ u
word_of-signed n u small = elim (Bool-cases (ltb (2 * u) (256 ^ n))) [
  | inl low ↦ rw low refl
  | inr high ↦ rw high (omega (arith, small))
]

pub from_bytes-Fits :
    (n : ℕ) (order : ByteOrder) (bs : Bytes)
    → All IsByte bs
    → length bs ≡ suc n
    → Fits (suc n) (from_bytes order bs)
unfolding from_bytes
from_bytes-Fits n order bs hs len = rw len (
    signed-Fits n (low_value (in_order order bs)) (
      ground (
        arith,
        length-in_order order bs,
        low_value_small (in_order order bs) (All-in_order order bs hs),
      )))

pub to_bytes-from_bytes :
    (n : ℕ) (order : ByteOrder) (bs : Bytes)
    → All IsByte bs
    → length bs ≡ suc n
    → to_bytes (suc n) order (from_bytes order bs) ≡ ok bs
unfolding from_bytes
to_bytes-from_bytes n order bs hs len =
    let given = in_order order bs in
    let fits = from_bytes-Fits n order bs hs len in
    let given_small = low_value_small given (All-in_order order bs hs) in
    let word : word_of (256 ^ suc n) (from_bytes order bs) ≡ low_value given = rw len (
      word_of-signed (suc n) (low_value given)
        (ground (arith, given_small, length-in_order order bs))) in
    let whole : low_bytes (suc n) (low_value given) ≡ given =
      ap (λ k. low_bytes k (low_value given)) (sym (length-in_order order bs ∙ len))
      ∙ low_bytes-low_value given (All-in_order order bs hs) in
    to_bytes_eq (suc n) order (from_bytes order bs) fits
    ∙ ap (λ u. ok (in_order order (low_bytes (suc n) u))) word
    ∙ ap (λ t. ok (in_order order t)) whole
    ∙ ap ok (in_order_twice order bs)
