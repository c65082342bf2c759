-- ===== src/Types/FrameTests.antt =====
-- A compressed message that is sent, and the theorem of the frames at it.
use jina.Prelude.{◌≡◌, refl, Option, none, some, List, [], ◌∷◌, ◌++◌, ok, length, take, drop, inr}
use jina.Prelude.Cuts.{take-length-append, drop-length-append}
use jina.Prelude.Text.{codes}
use jina.Types.Uid.{Bytes}
use jina.Types.Frames.{
  CompressAlgo, lz4, from_string, Envelope, plain, Message, SockType, Codec, dump,
  parse_from_frames, as_pb_object,
}
use jina.Types.FrameLaws.{IsDelivered, dump-parse_from_frames}

-- An envelope is written as two lengths and three numbers, and then the two texts.
abbrev write_envelope : Envelope (Unit {0}) → Bytes
write_envelope e =
    length e.receiver_id ∷ e.low_num ∷ e.low_den ∷ e.high_watermark ∷ (e.receiver_id ++ e.algorithm)

abbrev parse_envelope : Bytes → Option (Envelope (Unit {0}))
parse_envelope (n ∷ low_num ∷ low_den ∷ high ∷ bs) = some record {
  receiver_id = take n bs;
  algorithm = drop n bs;
  low_num = low_num;
  low_den = low_den;
  high_watermark = high;
  others = tt;
}
parse_envelope bs = none

abbrev drop_mark : Bytes → Option Bytes
drop_mark [] = none
drop_mark (b ∷ bs) = some bs

-- A request is its bytes, and a compression puts a mark before them.
abbrev marking : Codec (Unit {0}) Bytes
marking = record {
  write_request = λ r. r;
  parse_request = λ bs. some bs;
  write_envelope = write_envelope;
  parse_envelope = parse_envelope;
  compress = λ ctag bs. some (7 ∷ bs);
  decompress = λ ctag bs. drop_mark bs;
  getsizeof = λ bs. length bs;
}

parse-write_envelope : (e : Envelope (Unit {0})) → parse_envelope (write_envelope e) ≡ some e
parse-write_envelope e =
    rw (take-length-append e.receiver_id e.algorithm, drop-length-append e.receiver_id e.algorithm)
      refl

drop-mark :
    (ctag : CompressAlgo) (x y : Bytes)
    → ◌≡◌ {A = Option Bytes} (some (7 ∷ x)) (some y)
    → drop_mark y ≡ some x
drop-mark ctag x [] h = cc
drop-mark ctag x (b ∷ y) h = cc

abbrev an_envelope : Envelope (Unit {0})
an_envelope = record {
  receiver_id = 1 ∷ 2 ∷ [];
  algorithm = codes "lz4";
  low_num = 2;
  low_den = 1;
  high_watermark = 1;
  others = tt;
}

abbrev a_message : Message (Unit {0}) Bytes
a_message = record { envelope = an_envelope; request = plain (5 ∷ 6 ∷ []); size = 0 }

lz4_known : from_string (codes "lz4") ≡ ok lz4
unfolding from_string
lz4_known = refl

content : as_pb_object marking a_message ≡ ok (5 ∷ 6 ∷ [], a_message)
unfolding as_pb_object
content = refl

dump-parse_from_frames_example :
    (frames : List Bytes) × (m1 : Message (Unit {0}) Bytes) × (dump marking a_message
      ≡ ok (frames, m1))
    × ((t : SockType) (received : List Bytes)
        → IsDelivered t frames received
        → (m2 : Message (Unit {0}) Bytes) × (m3 : Message (Unit {0}) Bytes) × (parse_from_frames
              marking t received
            ≡ ok m2)
          × (m2.envelope ≡ m1.envelope)
          × (as_pb_object marking m2 ≡ ok (5 ∷ 6 ∷ [], m3)))
dump-parse_from_frames_example =
    dump-parse_from_frames marking (λ r. refl) parse-write_envelope drop-mark a_message a_message
      (5 ∷ 6 ∷ []) (inr (lz4, lz4_known)) tt content
