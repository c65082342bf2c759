-- ===== src/Types/FrameLaws.antt =====
-- A message that is sent is the message that is received.
use jina.Prelude.{
  ◌+◌, ◌*◌, ◌≡◌, ◌⊎◌, refl, ap, ◌∙◌, true, false, ◌||◌, ◌==◌, Option, none, some, List, [], ◌∷◌,
  ltb, Result, ok, >>=-eq-ok, arith, inl, inr, Bool-cases,
}
use jina.Prelude.Text.{Text, codes, text_eq}
use jina.Types.Uid.{Bytes}
use jina.Types.Frames.{
  CompressAlgo, FrameError, from_string, is_none, Envelope, RequestState, plain, unread, read,
  wrapped, Message, SockType, dealer, router, other_type, Codec, serialize, keep_if_good,
  compress_with, compress_used, compress_request, frames_of, total_size, dump, of_option,
  message_of, parse_from_frames, decompress_with, decompress_request, parse_state, as_pb_object,
}

-- A name of an algorithm, or none
abbrev pub IsAlgorithm : Text → Type 0
IsAlgorithm s = (text_eq s [] ≡ true) ⊎ ((ctag : CompressAlgo) × (from_string s ≡ ok ctag))

-- What a socket of a type receives of the frames that are sent to it: a dealer is not given the
-- first frame, and a router is given the identity of the sender first.
abbrev pub IsDelivered : SockType → List Bytes → List Bytes → Type 0
IsDelivered dealer sent received = (f : Bytes) × (sent ≡ f ∷ received)
IsDelivered router sent received = (identity : Bytes) × (received ≡ identity ∷ sent)
IsDelivered other_type sent received = received ≡ sent

abbrev pub IsSendable {ℓ} : {R : Type ℓ} → RequestState R → Type 0
IsSendable (plain r) = Unit
IsSendable (unread buffer) = Unit
IsSendable (read r) = Unit
IsSendable (wrapped r) = ⊥

module _ {ℓ κ} {X : Type ℓ} {R : Type κ} (codec : Codec X R)
    (parse-write_request : (r : R) → codec.parse_request (codec.write_request r) ≡ some r)
    (parse-write_envelope : (e : Envelope X)
      → codec.parse_envelope (codec.write_envelope e) ≡ some e)
    (decompress-compress : (ctag : CompressAlgo) (x y : Bytes)
      → codec.compress ctag x ≡ some y
      → codec.decompress ctag y ≡ some x) where
  decompress-without : (bs : Bytes) → decompress_request codec (codes "NONE") bs ≡ ok bs
  unfolding decompress_request from_string
  decompress-without bs = refl

  -- What the algorithm of an envelope undoes
  abbrev Undone : Bytes → Bytes × Envelope X → Type 0
  Undone bs (r2, e) = decompress_request codec e.algorithm r2 ≡ ok bs

  decompress-named :
      (s : Text) (ctag : CompressAlgo) (bs : Bytes)
      → text_eq s [] ≡ false
      → from_string s ≡ ok ctag
      → decompress_request codec s bs ≡ decompress_with codec ctag bs
  unfolding decompress_request
  decompress-named s ctag bs named known = rw (named, known) refl

  keep_if_good-Undone :
      (e : Envelope X) (bs : Bytes) (ctag : CompressAlgo) (c : Option Bytes)
      → text_eq e.algorithm [] ≡ false
      → from_string e.algorithm ≡ ok ctag
      → is_none ctag ≡ false
      → codec.compress ctag bs ≡ c
      → Undone bs (keep_if_good codec e bs c)
  keep_if_good-Undone e bs ctag none named known some_tag h = decompress-without bs
  keep_if_good-Undone e bs ctag (some c) named known some_tag h =
      elim (Bool-cases (ltb (codec.getsizeof c * e.low_den) (e.low_num * codec.getsizeof bs))) [
        | inr bad ↦ rw bad (decompress-without bs)
        | inl good ↦ rw good (
            decompress-named e.algorithm ctag c named known
            ∙ rw (some_tag, decompress-compress ctag bs c h) refl)
      ]

  compress_with-Undone :
      (e : Envelope X) (bs : Bytes) (ctag : CompressAlgo)
      → text_eq e.algorithm [] ≡ false
      → from_string e.algorithm ≡ ok ctag
      → Undone bs (compress_with codec e bs ctag)
  compress_with-Undone e bs ctag named known = elim (Bool-cases (is_none ctag)) [
    | inl no_tag ↦ rw no_tag (decompress-named e.algorithm ctag bs named known ∙ rw no_tag refl)
    | inr some_tag ↦
        rw some_tag
          (elim (Bool-cases (ltb (codec.getsizeof bs) e.high_watermark || e.high_watermark == 0)) [
            | inl low ↦ rw low (decompress-without bs)
            | inr high ↦
                rw high
                  (keep_if_good-Undone e bs ctag (codec.compress ctag bs) named known some_tag refl)
          ])
  ]

  compress_used-Undone :
      (e : Envelope X) (bs : Bytes)
      → IsAlgorithm e.algorithm
      → (sent : Bytes × Envelope X) × (compress_used codec e bs ≡ ok sent) × Undone bs sent
  unfolding decompress_request
  compress_used-Undone e bs named = elim (Bool-cases (text_eq e.algorithm [])) [
    | inl unnamed ↦ ((bs, e), rw unnamed refl, rw unnamed refl)
    | inr other ↦ elim named [
      | inl unnamed ↦ absurd (ground arith)
      | inr (ctag, known) ↦ (
        compress_with codec e bs ctag,
        rw (other, known) refl,
        compress_with-Undone e bs ctag other known,
      )
    ]
  ]

  -- The bytes of a request stand for its content, under the algorithm of the envelope.
  abbrev StandsFor : Envelope X → Bytes → R → Type κ
  StandsFor e r2 r =
      (bs : Bytes) × (decompress_request codec e.algorithm r2 ≡ ok bs)
      × (codec.parse_request bs ≡ some r)

  abbrev Dumped : Message X R → R → Type (ℓ ⊔ κ)
  Dumped m r =
      (r2 : Bytes) × (e : Envelope X) × (dump codec m
        ≡ ok (
          frames_of codec e r2,
          record m { envelope = e; size = total_size codec (frames_of codec e r2) },
        ))
      × StandsFor e r2 r

  used-Dumped :
      (m : Message X R) (r : R)
      → IsAlgorithm m.envelope.algorithm
      → (serialize codec m.request ≡ ok (codec.write_request r))
      → ((bs : Bytes)
          → compress_request codec m.envelope m.request bs ≡ compress_used codec m.envelope bs)
      → Dumped m r
  unfolding dump
  used-Dumped m r named written used =
      let ((r2, e), compressed, undone) =
        compress_used-Undone m.envelope (codec.write_request r) named in
      (
        r2,
        e,
        rw (written, used (codec.write_request r), compressed) refl,
        (codec.write_request r, undone, parse-write_request r),
      )

  of_option-eq-ok : (o : Option R) (r : R) → of_option o ≡ ok r → o ≡ some r
  of_option-eq-ok none r h = cc
  of_option-eq-ok (some a) r h = cc

  eq_content :
      (a b : R) (m n : Message X R)
      → ◌≡◌ {A = Result FrameError (R × Message X R)} (ok (a, m)) (ok (b, n))
      → a ≡ b
  eq_content a b m n h = cc

  dump-Dumped :
      (m m0 : Message X R) (r : R) (state : RequestState R)
      → IsAlgorithm m.envelope.algorithm
      → m.request ≡ state
      → IsSendable state
      → parse_state codec m state ≡ ok (r, m0)
      → Dumped m r
  unfolding dump compress_request
  dump-Dumped m m0 r (plain a) named at sendable content =
      let same = eq_content a r m m0 content in
      used-Dumped m r named (rw (at, same) refl) (λ bs. rw at refl)
  dump-Dumped m m0 r (read a) named at sendable content =
      let same = eq_content a r m m0 content in
      used-Dumped m r named (rw (at, same) refl) (λ bs. rw at refl)
  dump-Dumped m m0 r (wrapped a) named at sendable content = absurd sendable
  dump-Dumped m m0 r (unread buffer) named at sendable content =
      let (bs, undone, rest) =
        >>=-eq-ok (decompress_request codec m.envelope.algorithm buffer) _ content in
      let (a, parsed, last) = >>=-eq-ok (of_option (codec.parse_request bs)) _ rest in
      let same = eq_content a r _ m0 last in
      (
        buffer,
        m.envelope,
        rw at refl,
        (bs, undone, of_option-eq-ok (codec.parse_request bs) a parsed ∙ ap some same),
      )

  abbrev as_received : Envelope X → Bytes → Message X R
  as_received e r2 = record {
    envelope = e;
    request = unread r2;
    size = codec.getsizeof (codec.write_envelope e) + codec.getsizeof r2;
  }

  message_of-frames :
      (e : Envelope X) (f r2 : Bytes)
      → message_of codec (f ∷ codec.write_envelope e ∷ r2 ∷ []) ≡ ok (as_received e r2)
  message_of-frames e f r2 = rw (parse-write_envelope e) refl

  parse_from_frames-delivered :
      (t : SockType) (e : Envelope X) (r2 : Bytes) (received : List Bytes)
      → IsDelivered t (frames_of codec e r2) received
      → parse_from_frames codec t received ≡ ok (as_received e r2)
  unfolding parse_from_frames
  parse_from_frames-delivered dealer e r2 received (f, h) =
      let rest : received ≡ codec.write_envelope e ∷ r2 ∷ [] = cc in
      rw rest (message_of-frames e (b' ' ∷ []) r2)
  parse_from_frames-delivered router e r2 received (identity, h) =
      rw h (message_of-frames e e.receiver_id r2)
  parse_from_frames-delivered other_type e r2 received h =
      rw h (message_of-frames e e.receiver_id r2)

  as_pb_object-received :
      (e : Envelope X) (r2 : Bytes) (r : R)
      → StandsFor e r2 r
      → as_pb_object codec (as_received e r2)
        ≡ ok (r, record (as_received e r2) { request = read r })
  unfolding as_pb_object
  as_pb_object-received e r2 r (bs, undone, parsed) = rw (undone, parsed) refl

  -- A message whose request can be read, and whose algorithm is none or a known one, can be dumped,
  -- and what a socket of any type receives of its frames is parsed: the envelope is that which the
  -- dump leaves, and the request, read under the algorithm of that envelope, is that of the message,
  -- whether it was compressed or not, and whether or not it had been read before it was sent.
  pub dump-parse_from_frames :
      (m m0 : Message X R) (r : R)
      → IsAlgorithm m.envelope.algorithm
      → IsSendable m.request
      → as_pb_object codec m ≡ ok (r, m0)
      → (frames : List Bytes) × (m1 : Message X R) × (dump codec m ≡ ok (frames, m1))
        × ((t : SockType) (received : List Bytes)
            → IsDelivered t frames received
            → (m2 : Message X R) × (m3 : Message X R) × (parse_from_frames codec t received ≡ ok m2)
              × (m2.envelope ≡ m1.envelope)
              × (as_pb_object codec m2 ≡ ok (r, m3)))
  unfolding as_pb_object
  dump-parse_from_frames m m0 r named sendable content =
      let (r2, e, dumped, stands) = dump-Dumped m m0 r m.request named refl sendable content in
      (
        frames_of codec e r2,
        record m { envelope = e; size = total_size codec (frames_of codec e r2) },
        dumped,
        λ t received delivered. (
          as_received e r2,
          record (as_received e r2) { request = read r },
          parse_from_frames-delivered t e r2 received delivered,
          refl,
          as_pb_object-received e r2 r stands,
        ),
      )
