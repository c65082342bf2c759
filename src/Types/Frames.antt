-- ===== src/Types/Frames.antt =====
-- The frames of a message: `dump` and `_compress` of jina/types/message/__init__.py, the lazy
-- request of jina/types/request/__init__.py, and `_parse_from_frames` of jina/peapods/zmq.py.
use jina.Prelude.{
  ℕ, ◌+◌, ◌-◌, ◌*◌, Bool, true, false, ◌||◌, ◌&&◌, ◌==◌, Option, none, some, List, [], ◌∷◌, map,
  ltb, leb, if◌then◌else◌, Result, ok, err, ◌>>=◌,
}
use jina.Prelude.Text.{Text, codes, text_eq}
use jina.Types.Uid.{Bytes}

pub data CompressAlgo : Type 0 where
  no_compression lz4 zlib gzip bz2 lzma : CompressAlgo

pub data FrameError : Type 0 where
  value_error type_error index_error parse_error : FrameError

-- `s.upper()`, of ASCII
abbrev pub upper : Text → Text
upper = map (λ c. if leb b'a' c && leb c b'z' then c - 32 else c)

abbrev pub algorithm_named : Text → Result FrameError CompressAlgo
algorithm_named s =
    if text_eq s (codes "NONE")
    then ok no_compression
    else if text_eq s (codes "LZ4")
    then ok lz4
    else if text_eq s (codes "ZLIB")
    then ok zlib
    else if text_eq s (codes "GZIP")
    then ok gzip
    else if text_eq s (codes "BZ2")
    then ok bz2
    else if text_eq s (codes "LZMA")
    then ok lzma
    else err value_error

-- `CompressAlgo.from_string`
unfoldable pub from_string : Text → Result FrameError CompressAlgo
from_string s = algorithm_named (upper s)

abbrev pub is_none : CompressAlgo → Bool
is_none no_compression = true
is_none _ = false

-- The part of an envelope that the frames depend on, and the rest of it. The low watermark is the
-- fraction `low_num / low_den`.
pub record Envelope {ℓ} (X : Type ℓ) : Type ℓ where
  pub receiver_id : Bytes
  pub algorithm : Text
  pub low_num : ℕ
  pub low_den : ℕ
  pub high_watermark : ℕ
  pub others : X

-- The request of a message: a protobuf message, or a `Request`, which is not used yet and has its
-- buffer, or is used and has been parsed, or was made around a protobuf message and is not used.
pub data RequestState {ℓ} (R : Type ℓ) : Type ℓ where
  plain : R → RequestState R
  unread : Bytes → RequestState R
  read : R → RequestState R
  wrapped : R → RequestState R

pub record Message {ℓ κ} (X : Type ℓ) (R : Type κ) : Type (ℓ ⊔ κ) where
  pub envelope : Envelope X
  pub request : RequestState R
  pub size : ℕ

pub data SockType : Type 0 where
  dealer router other_type : SockType

-- What is not in the source: protobuf's serialization, the compression, `sys.getsizeof`. A
-- compression that raises gives None.
pub record Codec {ℓ κ} (X : Type ℓ) (R : Type κ) : Type (ℓ ⊔ κ) where
  pub write_request : R → Bytes
  pub parse_request : Bytes → Option R
  pub write_envelope : Envelope X → Bytes
  pub parse_envelope : Bytes → Option (Envelope X)
  pub compress : CompressAlgo → Bytes → Option Bytes
  pub decompress : CompressAlgo → Bytes → Option Bytes
  pub getsizeof : Bytes → ℕ

abbrev pub of_option {μ} : {A : Type μ} → Option A → Result FrameError A
of_option none = err parse_error
of_option (some a) = ok a

abbrev pub pop_first : List Bytes → Result FrameError (List Bytes)
pop_first [] = err index_error
pop_first (f ∷ frames) = ok frames

module _ {ℓ κ} {X : Type ℓ} {R : Type κ} (codec : Codec X R) where
  -- `SerializeToString` of the request; that of a `Request` that is made around a protobuf message
  -- and is not used gives None, which cannot be sent.
  abbrev pub serialize : RequestState R → Result FrameError Bytes
  serialize (plain r) = ok (codec.write_request r)
  serialize (unread buffer) = ok buffer
  serialize (read r) = ok (codec.write_request r)
  serialize (wrapped r) = err type_error

  abbrev pub without_compression : Envelope X → Bytes → Bytes × Envelope X
  without_compression e data_ = (data_, record e { algorithm = codes "NONE" })

  -- What is kept of a compression that succeeded, or failed
  abbrev pub keep_if_good : Envelope X → Bytes → Option Bytes → Bytes × Envelope X
  keep_if_good e data_ none = without_compression e data_
  keep_if_good e data_ (some c_data) =
      if ltb (codec.getsizeof c_data * e.low_den) (e.low_num * codec.getsizeof data_)
      then (c_data, e)
      else without_compression e data_

  abbrev pub compress_with : Envelope X → Bytes → CompressAlgo → Bytes × Envelope X
  compress_with e data_ ctag =
      if is_none ctag
      then (data_, e)
      else if ltb (codec.getsizeof data_) e.high_watermark || e.high_watermark == 0
      then without_compression e data_
      else keep_if_good e data_ (codec.compress ctag data_)

  -- `_compress` of a request that is a protobuf message or is used
  abbrev pub compress_used : Envelope X → Bytes → Result FrameError (Bytes × Envelope X)
  compress_used e data_ =
      if text_eq e.algorithm []
      then ok (data_, e)
      else from_string e.algorithm >>= λ ctag. ok (compress_with e data_ ctag)

  -- `_compress`
  unfoldable pub compress_request :
      Envelope X → RequestState R → Bytes → Result FrameError (Bytes × Envelope X)
  unfolding from_string
  compress_request e (unread buffer) data_ = ok (data_, e)
  compress_request e (wrapped r) data_ = ok (data_, e)
  compress_request e (plain r) data_ = compress_used e data_
  compress_request e (read r) data_ = compress_used e data_

  abbrev pub frames_of : Envelope X → Bytes → List Bytes
  frames_of e r2 = e.receiver_id ∷ codec.write_envelope e ∷ r2 ∷ []

  abbrev pub total_size : List Bytes → ℕ
  total_size [] = 0
  total_size (f ∷ frames) = codec.getsizeof f + total_size frames

  -- `dump`: the envelope is serialized after the request, which may have changed its algorithm.
  unfoldable pub dump : Message X R → Result FrameError (List Bytes × Message X R)
  unfolding compress_request
  dump m = do
    bs ← serialize m.request
    (r2, e) ← compress_request m.envelope m.request bs
    ok (frames_of e r2, record m { envelope = e; size = total_size (frames_of e r2) })

  -- `Message(frames[1], frames[2])`
  abbrev pub message_of : List Bytes → Result FrameError (Message X R)
  message_of (f0 ∷ f1 ∷ f2 ∷ frames) = of_option (codec.parse_envelope f1) >>= λ e.
      ok
        record { envelope = e; request = unread f2; size = codec.getsizeof f1 + codec.getsizeof f2 }
  message_of _ = err index_error

  -- `_parse_from_frames`
  unfoldable pub parse_from_frames : SockType → List Bytes → Result FrameError (Message X R)
  parse_from_frames dealer frames = message_of ((b' ' ∷ []) ∷ frames)
  parse_from_frames router frames = pop_first frames >>= message_of
  parse_from_frames other_type frames = message_of frames

  abbrev pub decompress_with : CompressAlgo → Bytes → Result FrameError Bytes
  decompress_with ctag data_ =
      if is_none ctag then ok data_ else of_option (codec.decompress ctag data_)

  -- `Request._decompress`
  unfoldable pub decompress_request : Text → Bytes → Result FrameError Bytes
  unfolding from_string
  decompress_request algorithm data_ =
      if text_eq algorithm []
      then ok data_
      else from_string algorithm >>= λ ctag. decompress_with ctag data_

  abbrev pub parse_state : Message X R → RequestState R → Result FrameError (R × Message X R)
  parse_state m (plain r) = ok (r, m)
  parse_state m (read r) = ok (r, m)
  parse_state m (wrapped r) = ok (r, record m { request = read r })
  parse_state m (unread buffer) = do
    bs ← decompress_request m.envelope.algorithm buffer
    r ← of_option (codec.parse_request bs)
    ok (r, record m { request = read r })

  -- `as_pb_object`, which leaves a `Request` used
  unfoldable pub as_pb_object : Message X R → Result FrameError (R × Message X R)
  unfolding decompress_request
  as_pb_object m = parse_state m m.request
