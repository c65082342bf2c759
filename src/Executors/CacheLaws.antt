-- ===== src/Executors/CacheLaws.antt =====
-- The file of the cache of identifiers stands for its set.
use jina.Prelude.{
  suc, ◌^◌, ◌≡◌, refl, ap, sym, ◌∙◌, true, ◌||◌, some, List, [], ◌∷◌, ◌++◌, ok, All, arith,
}
use mathlib.Core.List.{append-nil, append_assoc}
use jina.Prelude.Int.{ℤ, eq_ℤ}
use jina.Prelude.Text.{Text}
use jina.Types.Uid.{Bytes, ByteOrder, little, big, in_order, low_bytes, id2hash, from_bytes}
use jina.Types.UidLaws.{Fits, word_of, to_bytes_eq, word_of_small, from_bytes_low, signed-word_of}
use jina.Executors.Cache.{
  DocIdCache, is_member, none_if_false, from_buffer, cons_hash, add_id, query_id, reopen,
}

module _ (order : ByteOrder) where
  -- The eight bytes of a hash
  abbrev pub word : ℤ → Bytes
  word h = in_order order (low_bytes 8 (word_of (256 ^ 8) h))

  abbrev pub file_of : List ℤ → Bytes
  file_of [] = []
  file_of (h ∷ hashes) = word h ++ file_of hashes

  file_of-snoc : (hashes : List ℤ) (h : ℤ) → file_of (hashes ++ (h ∷ [])) ≡ file_of hashes ++ word h
  file_of-snoc [] h = append-nil (word h)
  file_of-snoc (k ∷ hashes) h =
      ap (λ t. word k ++ t) (file_of-snoc hashes h)
      ∙ sym (append_assoc (word k) (file_of hashes) (word h))

  from_bytes-word : (h : ℤ) → Fits 8 h → from_bytes order (word h) ≡ h
  from_bytes-word h fits =
      from_bytes_low 8 order (word_of (256 ^ 8) h) (word_of_small 8 h fits)
      ∙ signed-word_of 7 h fits

pub is_member-append :
    (h : ℤ) (xs ys : List ℤ) → is_member h (xs ++ ys) ≡ (is_member h xs || is_member h ys)
is_member-append h [] ys = refl
is_member-append h (x ∷ xs) ys = ground (arith, is_member-append h xs ys)

eq_ℤ_refl : (h : ℤ) → eq_ℤ h h ≡ true
eq_ℤ_refl h = ground arith

is_member-last : (h : ℤ) (xs : List ℤ) → is_member h (xs ++ (h ∷ [])) ≡ true
is_member-last h xs = ground (arith, is_member-append h xs (h ∷ []), eq_ℤ_refl h)

from_buffer-word :
    (order : ByteOrder) (h : ℤ) (bs : Bytes)
    → from_buffer order (word order h ++ bs) ≡ cons_hash order (word order h) (from_buffer order bs)
unfolding from_buffer
from_buffer-word little h bs = refl
from_buffer-word big h bs = refl

module _ (order : ByteOrder) where
  from_buffer-file_of :
      (hashes : List ℤ)
      → All (Fits 8) hashes
      → from_buffer order (file_of order hashes) ≡ some hashes
  unfolding from_buffer
  from_buffer-file_of [] h = refl
  from_buffer-file_of (k ∷ hashes) (fits, h) =
      from_buffer-word order k (file_of order hashes)
      ∙ ap (cons_hash order (word order k)) (from_buffer-file_of hashes h)
      ∙ ap (λ t. some (t ∷ hashes)) (from_bytes-word order k fits)

  -- The file is the one of the hashes of the set, each of which is an int64.
  abbrev pub IsStored : DocIdCache → Type 0
  IsStored c = (c.written ≡ file_of order c.query_handler) × All (Fits 8) c.query_handler

  All-snoc :
      (hashes : List ℤ) (h : ℤ) → All (Fits 8) hashes → Fits 8 h → All (Fits 8) (hashes ++ (h ∷ []))
  All-snoc [] h hs fits = (fits, tt)
  All-snoc (k ∷ hashes) h (fits_k, hs) fits = (fits_k, All-snoc hashes h hs fits)

  pub add_id_ok :
      (c : DocIdCache) (doc_id : Text) (h : ℤ)
      → id2hash order doc_id ≡ ok h
      → Fits 8 h
      → add_id order doc_id c
        ≡ ok record c {
          query_handler = c.query_handler ++ (h ∷ []);
          written = c.written ++ word order h;
          cache_size = suc c.cache_size;
        }
  unfolding add_id
  add_id_ok c doc_id h hashed fits = rw (hashed, to_bytes_eq 8 order h fits) refl

  -- An identifier whose hash is an int64 is added: the file stays that of the set, so that the
  -- cache that is opened again has the same hashes, and the identifier is found from then on.
  pub add_id-IsStored :
      (c : DocIdCache) (doc_id : Text) (h : ℤ)
      → IsStored c
      → id2hash order doc_id ≡ ok h
      → Fits 8 h
      → (c1 : DocIdCache) × (add_id order doc_id c ≡ ok c1)
        × IsStored c1
        × (c1.query_handler ≡ c.query_handler ++ (h ∷ []))
        × (reopen order c1 ≡ some c1.query_handler)
        × (query_id order doc_id c1 ≡ ok (some true))
  unfolding reopen query_id
  add_id-IsStored c doc_id h (written, fit) hashed fits =
      let hashes = c.query_handler ++ (h ∷ []) in
      let file : c.written ++ word order h ≡ file_of order hashes =
        ap (λ t. t ++ word order h) written ∙ sym (file_of-snoc order c.query_handler h) in
      let all_fit = All-snoc c.query_handler h fit fits in
      (
        record c {
          query_handler = hashes;
          written = c.written ++ word order h;
          cache_size = suc c.cache_size;
        },
        add_id_ok c doc_id h hashed fits,
        (file, all_fit),
        refl,
        ap (from_buffer order) file ∙ from_buffer-file_of hashes all_fit,
        rw hashed (ap (λ b. ok (none_if_false b)) (is_member-last h c.query_handler)),
      )
