-- ===== src/Types/HexLaws.antt =====
-- The hexadecimal digits of an identifier against its bytes.
use jina.Prelude.{
  ℕ, ◌+◌, ◌*◌, ◌/◌, ◌%◌, ◌<◌, ◌≡◌, refl, ap, Option, none, some, [], ◌∷◌, leb, ◌&&◌, if◌then◌else◌,
  length, All, arith,
}
use jina.Prelude.Text.{Text, lower}
use jina.Types.Uid.{Bytes, hex_digit, digit_value, join_digits, unhexlify, bytes2id}
use jina.Types.UidLaws.{IsByte}

digit_value-hex_digit : (d : ℕ) → d < 16 → digit_value (hex_digit d) ≡ some d
digit_value-hex_digit d h = ground arith

-- A character's lower case, of ASCII
abbrev low : ℕ → ℕ
low c = if leb b'A' c && leb c b'Z' then c + 32 else c

hex_digit-digit_value : (c d : ℕ) → digit_value c ≡ some d → hex_digit d ≡ low c
hex_digit-digit_value c d h = ground arith

digit_value_small : (c d : ℕ) → digit_value c ≡ some d → d < 16
digit_value_small c d h = ground arith

pub unhexlify-bytes2id : (bs : Bytes) → All IsByte bs → unhexlify (bytes2id bs) ≡ some bs
unfolding unhexlify bytes2id
unhexlify-bytes2id [] h = refl
unhexlify-bytes2id (b ∷ bs) (h, hs) =
    rw
      (
        digit_value-hex_digit (b / 16) (omega (arith, h)),
        digit_value-hex_digit (b % 16) (omega arith),
        unhexlify-bytes2id bs hs,
      )
      (ap (λ t. some (t ∷ bs)) (omega arith))

-- The parts of a text of digits
join-eq-some :
    (h l : Option ℕ) (rest : Option Bytes) (bs : Bytes)
    → join_digits h l rest ≡ some bs
    → (a : ℕ) × (b : ℕ) × (t : Bytes) × (h ≡ some a)
      × (l ≡ some b)
      × (rest ≡ some t)
      × (bs ≡ (16 * a + b) ∷ t)
join-eq-some (some h) (some l) (some t) bs e = (h, l, t, refl, refl, refl, cc)
join-eq-some (some h) (some l) none bs e = cc
join-eq-some (some h) none rest bs e = cc
join-eq-some none l rest bs e = cc

pub unhexlify-bytes :
    (s : Text) (bs : Bytes)
    → unhexlify s ≡ some bs
    → (bytes2id bs ≡ lower s) × All IsByte bs × (length s ≡ 2 * length bs)
unfolding unhexlify bytes2id lower
unhexlify-bytes [] bs e = let none_left : bs ≡ [] = cc in rw none_left (refl, tt, refl)
unhexlify-bytes (c ∷ []) bs e = cc
unhexlify-bytes (c ∷ d ∷ s) bs e =
    let (a, b, t, ha, hb, ht, hbs) =
      join-eq-some (digit_value c) (digit_value d) (unhexlify s) bs e in
    let (text, bytes, len) = unhexlify-bytes s t ht in
    let a_small = digit_value_small c a ha in
    let b_small = digit_value_small d b hb in
    let high : (16 * a + b) / 16 ≡ a = omega (arith, b_small) in
    let lower_digit : (16 * a + b) % 16 ≡ b = omega (arith, b_small) in
    rw hbs (
      rw (high, lower_digit, hex_digit-digit_value c a ha, hex_digit-digit_value d b hb, text) refl,
      (omega (arith, a_small, b_small), bytes),
      omega (arith, len),
    )
